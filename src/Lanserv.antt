-- ===== src/Lanserv.antt =====
-- ipmi_internal_proto.go, and `findFreeSession` of ipmi_internal_app.go: the user and session tables of
-- the global `lanserv`. A pointer to a session is the session's index in the table. Fields that
-- no code reads or writes are left out.
pub mod Init
pub mod Table
pub mod Lookup
use ipmigod.Base.{
  ℕ, zero, suc, ◌+◌, ◌/◌, ◌%◌, ◌^◌, ltb, ◌==◌, if◌then◌else◌, Bool, true, false, not, ◌&&◌, ◌||◌,
  Option, none, some, List, [], ◌∷◌, get_elem?, modify, drop,
}
use ipmigod.Wire.{Bytes, shr, low_bits}

abbrev pub max_users : ℕ
max_users = 64

abbrev pub max_sessions : ℕ
max_sessions = 16

-- Bits that a session's index takes in a session id.
abbrev pub session_bits_req : ℕ
session_bits_req = 6

-- Bits that a user's index takes in the temporary id of a session challenge.
abbrev pub user_bits_req : ℕ
user_bits_req = 6

pub record User : Type 0 where
  pub valid : Bool
  pub username : Bytes
  pub pw : Bytes
  pub privilege : ℕ
  pub max_priv : ℕ
  pub allowed_auths : ℕ
  pub idx : ℕ

pub record Session : Type 0 where
  pub active : Bool
  pub rmcpplus : Bool
  pub handle : ℕ
  pub recv_seq : ℕ
  pub xmit_seq : ℕ
  pub sid : ℕ
  pub userid : ℕ
  pub time_left : ℕ
  pub authtype : ℕ
  pub priv : ℕ
  pub max_priv : ℕ

pub record LanServ : Type 0 where
  pub chan_num : ℕ
  pub chan_priv_limit : ℕ
  pub chan_priv_allowed_auths : List ℕ
  pub active_sessions : ℕ
  pub next_chall_seq : ℕ
  pub sid_seq : ℕ
  pub default_session_timeout : ℕ
  pub users : List User
  pub sessions : List Session

-- The zero values of Go's `var`.
abbrev pub zero_user : User
zero_user = record {
  valid = false;
  username = [];
  pw = [];
  privilege = 0;
  max_priv = 0;
  allowed_auths = 0;
  idx = 0;
}

abbrev pub zero_session : Session
zero_session = record {
  active = false;
  rmcpplus = false;
  handle = 0;
  recv_seq = 0;
  xmit_seq = 0;
  sid = 0;
  userid = 0;
  time_left = 0;
  authtype = 0;
  priv = 0;
  max_priv = 0;
}

-- bytes.Equal.
unfoldable pub bytes_eq : Bytes → Bytes → Bool
bytes_eq [] [] = true
bytes_eq [] (y ∷ ys) = false
bytes_eq (x ∷ xs) [] = false
bytes_eq (x ∷ xs) (y ∷ ys) = x == y && bytes_eq xs ys

-- The loop of `findUser` over the users from an index on.
unfoldable pub find_user_loop : List User → Bytes → Bool → ℕ → Option User
unfolding bytes_eq
find_user_loop [] username name_only priv = none
find_user_loop (u ∷ us) username name_only priv =
    let rest = find_user_loop us username name_only priv in
    if bytes_eq username u.username && (name_only || u.privilege == priv) then some u else rest

-- `findUser`: users[0] is skipped. The pointer is only read through.
unfoldable pub find_user : LanServ → Bytes → Bool → ℕ → Option User
unfolding find_user_loop
find_user lan username name_only priv = find_user_loop (drop 1 lan.users) username name_only priv

-- The checks of `sidToSession` on the session that the id's index selects.
unfoldable pub check_session : ℕ → ℕ → Option Session → Option (ℕ × Session)
check_session sid idx none = none
check_session sid idx (some s) =
    if not s.active then none else if s.sid == sid then some (idx, s) else none

-- `sidToSession`: the session's index, with the session as it stands there.
unfoldable pub sid_to_session : LanServ → ℕ → Option (ℕ × Session)
unfolding check_session
sid_to_session lan sid =
    if low_bits sid 1 == 1
    then none
    else let idx = low_bits (shr sid 1) session_bits_req in
      if ltb max_sessions idx then none else check_session sid idx (get_elem? lan.sessions idx)

-- The loop of `findFreeSession` from index `i` on.
unfoldable pub find_free_loop : ℕ → List Session → Option ℕ
find_free_loop i [] = none
find_free_loop i (s ∷ ss) =
    let rest = find_free_loop (suc i) ss in if not s.active then some i else rest

-- `findFreeSession`: session 0 is skipped.
unfoldable pub find_free_session : LanServ → Option ℕ
unfolding find_free_loop
find_free_session lan = find_free_loop 1 (drop 1 lan.sessions)

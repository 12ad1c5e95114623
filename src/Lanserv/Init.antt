-- ===== src/Lanserv/Init.antt =====
-- `ipmiLanInit` of ipmi_proto.go, which `init` calls on the zero value of `lanserv`.
use ipmigod.Base.{ℕ, suc, ◌+◌, ◌-◌, ◌^◌, true, List, [], ◌∷◌, ◌++◌, modify, take, replicate, bit_or}
use ipmigod.Protodefs.{
  privilege_callback, privilege_user, privilege_operator, privilege_admin, privilege_oem,
  authtype_none, authtype_md5, authtype_straight, authtype_oem,
}
use ipmigod.Wire.{Bytes}
use ipmigod.Lanserv.{User, Session, LanServ, zero_user, zero_session, max_users, max_sessions}

-- `var lanserv lanservT`.
abbrev pub zero_lanserv : LanServ
zero_lanserv = record {
  chan_num = 0;
  chan_priv_limit = 0;
  chan_priv_allowed_auths = replicate 5 0;
  active_sessions = 0;
  next_chall_seq = 0;
  sid_seq = 0;
  default_session_timeout = 0;
  users = replicate (max_users + 1) zero_user;
  sessions = replicate (max_sessions + 1) zero_session;
}

-- `b := make([]uint8, 16); copy(b, s)`.
abbrev pub padded : Bytes → Bytes
padded s = take 16 (s ++ replicate 16 0)

-- "ipmiusr" and "test".
abbrev pub ipmiusr : Bytes
ipmiusr = b'i' ∷ b'p' ∷ b'm' ∷ b'i' ∷ b'u' ∷ b's' ∷ b'r' ∷ []

abbrev pub test_pw : Bytes
test_pw = b't' ∷ b'e' ∷ b's' ∷ b't' ∷ []

-- The null user, and "ipmiusr".
abbrev pub first_user : User → User
first_user u = record u {
  idx = 1;
  username = padded [];
  pw = padded test_pw;
  max_priv = privilege_user;
  allowed_auths = bit_or (2 ^ authtype_none) (2 ^ authtype_straight);
  valid = true;
}

abbrev pub second_user : User → User
second_user u = record u {
  idx = 2;
  username = padded ipmiusr;
  pw = padded test_pw;
  max_priv = privilege_admin;
  allowed_auths = 2 ^ authtype_none;
  valid = true;
}

-- The loop that numbers the sessions, from index `i` on.
unfoldable pub number_sessions : ℕ → List Session → List Session
number_sessions i [] = []
number_sessions i (s ∷ ss) = record s { handle = i } ∷ number_sessions (suc i) ss

-- The loop starts at index 1.
unfoldable pub number_from_one : List Session → List Session
unfolding number_sessions
number_from_one [] = []
number_from_one (s ∷ ss) = s ∷ number_sessions 1 ss

unfoldable pub ipmi_lan_init : LanServ → LanServ
unfolding number_from_one
ipmi_lan_init lan = record lan {
  users = modify (modify lan.users 1 first_user) 2 second_user;
  chan_num = 1;
  default_session_timeout = 30;
  sid_seq = 0;
  next_chall_seq = 0;
  chan_priv_limit = privilege_admin;
  chan_priv_allowed_auths =
      modify
        (modify
          (modify
            (modify
              (modify lan.chan_priv_allowed_auths (privilege_callback - 1) (λ _. 2 ^ authtype_md5))
              (privilege_user - 1) (λ _. 2 ^ authtype_none))
            (privilege_operator - 1) (λ _. 2 ^ authtype_none))
          (privilege_admin - 1) (λ _. 2 ^ authtype_straight))
        (privilege_oem - 1) (λ _. 2 ^ authtype_oem);
  sessions = number_from_one lan.sessions;
}

-- ===== src/App/Step.antt =====
-- What the handling of a message may do to the sessions of `lanserv` (ipmi_internal_app.go).
use ipmigod.Base.{
  ℕ, zero, suc, ◌≤◌, ◌≡◌, ◌≢◌, refl, ap, ◌⊎◌, true, false, some, List, [], ◌∷◌, get_elem?, modify,
}
use ipmigod.Protodefs.{app_netfn, privilege_callback, privilege_user, privilege_admin}
use ipmigod.Protodefs.App.{activate_session_cmd, set_session_privilege_cmd, close_session_cmd}
use ipmigod.Lanserv.{User, Session, LanServ}
use ipmigod.Message.{Msg}
use ipmigod.World.{World, bump_xmit_seq}
use ipmigod.World.Frame.{IsStable}

-- Two lists of the same length, whose elements are related in pairs.
abbrev pub Pointwise : (Session → Session → Type 0) → List Session → List Session → Type 0
Pointwise R [] [] = Unit {0}
Pointwise R [] (t ∷ ts) = ⊥
Pointwise R (s ∷ ss) [] = ⊥
Pointwise R (s ∷ ss) (t ∷ ts) = R s t × Pointwise R ss ts

pub Pointwise-refl :
    (R : Session → Session → Type 0) (ss : List Session)
    → ((s : Session) → R s s)
    → Pointwise R ss ss
Pointwise-refl R [] h = tt
Pointwise-refl R (s ∷ ss) h = (h s, Pointwise-refl R ss h)

pub Pointwise-map :
    (R S : Session → Session → Type 0) (ss ts : List Session)
    → ((s t : Session) → R s t → S s t)
    → Pointwise R ss ts
    → Pointwise S ss ts
Pointwise-map R S [] [] f h = tt
Pointwise-map R S [] (t ∷ ts) f h = absurd h
Pointwise-map R S (s ∷ ss) [] f h = absurd h
Pointwise-map R S (s ∷ ss) (t ∷ ts) f h = (f s t h.0, Pointwise-map R S ss ts f h.1)

-- A write to the later of two tables, at an index.
pub modify-Pointwise :
    (R S : Session → Session → Type 0) (ss ts : List Session) (i : ℕ) (f : Session → Session)
    → ((s t : Session) → R s t → S s t)
    → ((s t : Session) → get_elem? ss i ≡ some s → R s t → S s (f t))
    → Pointwise R ss ts
    → Pointwise S ss (modify ts i f)
modify-Pointwise R S [] [] i f other here h = tt
modify-Pointwise R S [] (t ∷ ts) i f other here h = absurd h
modify-Pointwise R S (s ∷ ss) [] i f other here h = absurd h
modify-Pointwise R S (s ∷ ss) (t ∷ ts) zero f other here h =
    (here s t refl h.0, Pointwise-map R S ss ts other h.1)
modify-Pointwise R S (s ∷ ss) (t ∷ ts) (suc i) f other here h =
    (other s t h.0, modify-Pointwise R S ss ts i f other here h.1)

-- Only the outbound sequence number differs.
abbrev pub Kept : Session → Session → Type 0
Kept s t = (x : ℕ) × (t ≡ record s { xmit_seq = x })

pub Kept-refl : (s : Session) → Kept s s
Kept-refl s = (s.xmit_seq, refl)

pub bump-Kept : (s t : Session) → Kept s t → Kept s (bump_xmit_seq t)
unfolding bump_xmit_seq
bump-Kept s t (x, e) = ((bump_xmit_seq (record s { xmit_seq = x })).xmit_seq, ap bump_xmit_seq e)

-- A session opened for a user: it starts at USER, with a limit within the user's.
pub record IsOpenedFor (users : List User) (s t : Session) : Type 0 where
  pub was_free : s.active ≡ false
  pub index : ℕ
  pub user : User
  pub known : get_elem? users index ≡ some user
  pub valid : user.valid ≡ true
  pub owner : t.userid ≡ user.idx
  pub limit : t.max_priv ≤ user.max_priv
  pub starts : t.priv ≡ privilege_user

-- The message comes in a session of the table, which is open.
pub record Sends (lan : LanServ) (msg : Msg) (s : Session) : Type 0 where
  pub index : ℕ
  pub placed : get_elem? lan.sessions index ≡ some s
  pub is_open : s.active ≡ true
  pub named : s.sid ≡ msg.sid

-- The message is a request for a command of the session commands.
abbrev pub Asks : ℕ → Msg → Type 0
Asks cmd msg = (msg.rmcp.message.netfn ≡ app_netfn) × (msg.rmcp.message.cmd ≡ cmd)

-- A message's step from a session to what stands in its slot afterwards.
pub data SessionStep (lan : LanServ) (msg : Msg) (s t : Session) : Type 0 where
  keeps : Kept s t → SessionStep lan msg s t
  opens : Asks activate_session_cmd msg → IsOpenedFor lan.users s t → SessionStep lan msg s t
  -- By the session itself.
  moves :
      Asks set_session_privilege_cmd msg
      → s.active ≡ true
      → s.sid ≡ msg.sid
      → (priv x : ℕ) → priv ≤ s.max_priv
      → priv ≢ privilege_callback
      → t ≡ record s { priv = priv; xmit_seq = x }
      → SessionStep lan msg s t
  -- By the session itself or by an administrator.
  closes :
      Asks close_session_cmd msg
      → s.active ≡ true
      → (by : Session) → Sends lan msg by
      → (by.sid ≡ s.sid) ⊎ (by.priv ≡ privilege_admin)
      → (x : ℕ) → t ≡ record s { active = false; xmit_seq = x }
      → SessionStep lan msg s t

-- The users stay, and every session takes a step that the message may make.
abbrev pub Authorized : World → Msg → World → Type 0
Authorized w msg u =
    (u.lan.users ≡ w.lan.users) × Pointwise (SessionStep w.lan msg) w.lan.sessions u.lan.sessions

-- The users and the sessions stay, up to sequence numbers.
abbrev pub SameSessions : World → World → Type 0
SameSessions w u = (u.lan.users ≡ w.lan.users) × Pointwise Kept w.lan.sessions u.lan.sessions

pub SameSessions-refl : (w : World) → SameSessions w w
SameSessions-refl w = (refl, Pointwise-refl Kept w.lan.sessions Kept-refl)

pub SameSessions-Authorized :
    (w : World) (msg : Msg) (u : World) → SameSessions w u → Authorized w msg u
SameSessions-Authorized w msg u (users, h) =
    (users, Pointwise-map Kept (SessionStep w.lan msg) _ _ (λ s t. keeps) h)

pub SameSessions-IsStable : (w : World) → IsStable (SameSessions w)
SameSessions-IsStable w = record {
  sends = λ u p h. h;
  bumps = λ u i (users, h). (
    users,
    modify-Pointwise Kept Kept _ _ i bump_xmit_seq (λ s t k. k) (λ s t at. bump-Kept s t) h,
  );
}

bump-SessionStep :
    (lan : LanServ) (msg : Msg) (s t : Session)
    → SessionStep lan msg s t
    → SessionStep lan msg s (bump_xmit_seq t)
unfolding bump_xmit_seq
bump-SessionStep lan msg s t (keeps k) = keeps (bump-Kept s t k)
bump-SessionStep lan msg s t (opens asks o) = opens asks (record {
  was_free = o.was_free;
  index = o.index;
  user = o.user;
  known = o.known;
  valid = o.valid;
  owner = o.owner;
  limit = o.limit;
  starts = o.starts;
})
bump-SessionStep lan msg s t (moves asks up named priv x le ne e) =
    moves asks up named priv _ le ne (ap bump_xmit_seq e)
bump-SessionStep lan msg s t (closes asks up by sends may x e) =
    closes asks up by sends may _ (ap bump_xmit_seq e)

pub Authorized-IsStable : (w : World) (msg : Msg) → IsStable (Authorized w msg)
Authorized-IsStable w msg = record {
  sends = λ u p h. h;
  bumps = λ u i (users, h). (
    users,
    modify-Pointwise _ _ _ _ i bump_xmit_seq (λ s t k. k) (λ s t at. bump-SessionStep w.lan msg s t)
        h,
  );
}

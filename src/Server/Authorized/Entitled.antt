-- ===== src/Server/Authorized/Entitled.antt =====
-- The sessions of the server of ipmi_proto.go, on any sequence of datagrams.
use ipmigod.Base.{
  ℕ, ◌≤◌, ◌≡◌, refl, sym, ap, ◌∙◌, ◌⊎◌, inl, inr, true, false, some, List, [], ◌∷◌, get_elem?, All,
  Safe, Safe-map, replicate, zero, suc,
}
use mathlib.Core.Path.{subst}
use ipmigod.Wire.{Bytes}
use ipmigod.Lanserv.{User, Session, LanServ, zero_session, max_sessions}
use ipmigod.Lanserv.Init.{number_sessions, number_from_one, ipmi_lan_init}
use ipmigod.Message.{Msg, new_msg}
use ipmigod.Protodefs.{privilege_user}
use ipmigod.World.{World, Env}
use ipmigod.App.Step.{Pointwise, SessionStep, keeps, opens, moves, closes, Authorized}
use ipmigod.Storage.Validity.{ServerIsValid}
use ipmigod.Server.{ipmi_handle_msg}
use ipmigod.Server.Boot.{boot, boot-ServerIsValid}
use ipmigod.Server.Faults.{parsed}
use ipmigod.Server.Authorized.{ipmi_handle_msg-Authorized}

-- The session's limit is within that of a valid user, its own, and its privilege is within its limit or
-- USER.
pub record IsWithin (users : List User) (s : Session) : Type 0 where
  pub index : ℕ
  pub user : User
  pub known : get_elem? users index ≡ some user
  pub valid : user.valid ≡ true
  pub owner : s.userid ≡ user.idx
  pub limit : s.max_priv ≤ user.max_priv
  pub privilege : (s.priv ≤ s.max_priv) ⊎ (s.priv ≡ privilege_user)

abbrev pub IsEntitled : List User → Session → Type 0
IsEntitled users s = (s.active ≡ false) ⊎ IsWithin users s

-- Another session with the same owner and limit.
moved-IsWithin :
    (users : List User) (s t : Session)
    → IsWithin users s
    → t.userid ≡ s.userid
    → t.max_priv ≡ s.max_priv
    → (t.priv ≤ t.max_priv) ⊎ (t.priv ≡ privilege_user)
    → IsWithin users t
moved-IsWithin users s t h owner limit privilege = record {
  index = h.index;
  user = h.user;
  known = h.known;
  valid = h.valid;
  owner = owner ∙ h.owner;
  limit = subst (λ m. m ≤ h.user.max_priv) (sym limit) h.limit;
  privilege = privilege;
}

step-IsEntitled :
    (lan : LanServ) (msg : Msg) (s t : Session)
    → SessionStep lan msg s t
    → IsEntitled lan.users s
    → IsEntitled lan.users t
step-IsEntitled lan msg s t (keeps (x, e)) h = subst (IsEntitled lan.users) (sym e) (elim h [
  | inl idle ↦ inl idle
  | inr within ↦ inr (moved-IsWithin lan.users s _ within refl refl within.privilege)
])
step-IsEntitled lan msg s t (opens asks o) h = inr (record {
  index = o.index;
  user = o.user;
  known = o.known;
  valid = o.valid;
  owner = o.owner;
  limit = o.limit;
  privilege = inr o.starts;
})
step-IsEntitled lan msg s t (moves asks up named priv x le ne e) h =
    subst (IsEntitled lan.users) (sym e) (elim h [
      | inl idle ↦ inl idle
      | inr within ↦ inr (moved-IsWithin lan.users s _ within refl refl (inl le))
    ])
step-IsEntitled lan msg s t (closes asks up by sends may x e) h = inl (ap (λ s. s.active) e)

Pointwise-All :
    (R : Session → Session → Type 0) (P : Session → Type 0) (ss ts : List Session)
    → ((s t : Session) → R s t → P s → P t)
    → Pointwise R ss ts
    → All P ss
    → All P ts
Pointwise-All R P [] [] f h p = tt
Pointwise-All R P [] (t ∷ ts) f h p = absurd h
Pointwise-All R P (s ∷ ss) [] f h p = absurd h
Pointwise-All R P (s ∷ ss) (t ∷ ts) f h p = (f s t h.0 p.0, Pointwise-All R P ss ts f h.1 p.1)

-- The server is well-formed, its users are as at an earlier time, and its sessions are entitled.
pub record HasEntitled (users : List User) (w : World) : Type 0 where
  pub server : ServerIsValid w
  pub fixed : w.lan.users ≡ users
  pub entitled : All (IsEntitled users) w.lan.sessions

Authorized-HasEntitled :
    (users : List User) (w : World) (msg : Msg) (u : World)
    → HasEntitled users w
    → ServerIsValid u × Authorized w msg u
    → HasEntitled users u
Authorized-HasEntitled users w msg u h (v, (same, steps)) = record {
  server = v;
  fixed = same ∙ h.fixed;
  entitled =
      Pointwise-All (SessionStep w.lan msg) (IsEntitled users) w.lan.sessions u.lan.sessions
        (λ s t step e.
          subst (λ us. IsEntitled us t) h.fixed
            (step-IsEntitled w.lan msg s t step (subst (λ us. IsEntitled us s) (sym h.fixed) e)))
        steps h.entitled;
}

-- A later state with the same tables.
pub same_lan-HasEntitled :
    (users : List User) (w u : World)
    → HasEntitled users w
    → ServerIsValid u × (u.lan ≡ w.lan)
    → HasEntitled users u
same_lan-HasEntitled users w u h (v, e) = record {
  server = v;
  fixed = ap (λ lan. lan.users) e ∙ h.fixed;
  entitled = subst (λ lan. All (IsEntitled users) lan.sessions) (sym e) h.entitled;
}

pub ipmi_handle_msg-HasEntitled :
    (users : List User) (env : Env) (bytes : Bytes) (n : ℕ) (w : World)
    → HasEntitled users w
    → Safe (HasEntitled users) (ipmi_handle_msg env (new_msg bytes n) w)
ipmi_handle_msg-HasEntitled users env bytes n w h =
    Safe-map (λ u. Authorized-HasEntitled users w (parsed bytes n w).0 u h)
      (ipmi_handle_msg-Authorized env bytes n w h.server)

numbered :
    (users : List User) (n i : ℕ)
    → All (IsEntitled users) (number_sessions i (replicate n zero_session))
unfolding number_sessions
numbered users zero i = tt
numbered users (suc n) i = (inl refl, numbered users n (suc i))

pub boot-HasEntitled : (card : ℕ) → HasEntitled (boot card).lan.users (boot card)
unfolding boot ipmi_lan_init number_from_one number_sessions
boot-HasEntitled card = record {
  server = boot-ServerIsValid card;
  fixed = refl;
  entitled = (inl refl, numbered _ max_sessions 1);
}

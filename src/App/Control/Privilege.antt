-- ===== src/App/Control/Privilege.antt =====
-- What `setSessionPrivilege` of ipmi_internal_app.go makes of a session's privilege.
use ipmigod.Base.{
  ℕ, ◌≤◌, ◌≡◌, ◌≢◌, refl, ◌∙◌, ◌⊎◌, inl, inr, ltb, ◌==◌, some, [], ◌∷◌, get_elem?,
  get_elem?-modify_self, get_elem?-modify_ne, Returns, if-Returns, arith,
}
use native.Mathlib.Decide.{ℕ_discrete}
use ipmigod.Protodefs.{privilege_callback}
use ipmigod.Lanserv.{Session, sid_to_session}
use ipmigod.Lanserv.Lookup.{sid_to_session_iff}
use ipmigod.Message.{Msg}
use ipmigod.World.{World, Env, nil, slot, bump_xmit_seq, return_err}
use ipmigod.World.Frame.{IsStable, return_err-keeps, return_rsp_data-keeps}
use ipmigod.App.Control.{change_privilege, set_session_privilege}

-- The session at index `i` has the privilege limit `top` and a privilege that `P` holds of.
abbrev pub HasPrivilege : (ℕ → Type 0) → ℕ → ℕ → World → Type 0
HasPrivilege P i top w =
    (s : Session) × (get_elem? w.lan.sessions i ≡ some s) × (s.max_priv ≡ top) × P s.priv

HasPrivilege-IsStable : (P : ℕ → Type 0) (i top : ℕ) → IsStable (HasPrivilege P i top)
unfolding bump_xmit_seq
HasPrivilege-IsStable P i top = record {
  sends = λ w p h. h;
  bumps = λ w j (s, at, e, h). elim (ℕ_discrete j i) [
    | yes same ↦
        (bump_xmit_seq s, rw same (get_elem?-modify_self w.lan.sessions i bump_xmit_seq s at), e, h)
    | no ne ↦ (s, get_elem?-modify_ne w.lan.sessions j i bump_xmit_seq ne ∙ at, e, h)
  ];
}

-- The privilege stays, or it is a level other than CALLBACK that the session's limit allows.
abbrev pub KeepsOrAllowed : Session → ℕ → Type 0
KeepsOrAllowed s priv = (priv ≡ s.priv) ⊎ ((priv ≤ s.max_priv) × (priv ≢ privilege_callback))

module _ (msg : Msg) (w : World) (i : ℕ) (s : Session)
    (at : get_elem? w.lan.sessions i ≡ some s) where
  same : HasPrivilege (KeepsOrAllowed s) i s.max_priv w
  same = (s, at, refl, inl refl)

  change_privilege-allowed :
      (priv : ℕ)
      → Returns (HasPrivilege (KeepsOrAllowed s) i s.max_priv) (change_privilege msg i s priv w)
  unfolding change_privilege
  change_privilege-allowed priv =
      if-Returns (priv == privilege_callback) (λ _. refused 0x80)
        λ ne.
          if-Returns (ltb s.max_priv priv) (λ _. refused 0x81)
            λ le.
              return_rsp_data-keeps _ (HasPrivilege-IsStable (KeepsOrAllowed s) i s.max_priv) _
                (
                  record s { priv = priv },
                  get_elem?-modify_self w.lan.sessions i _ s at,
                  refl,
                  inr (ground arith, ground arith),
                )
                msg (slot i) (0 ∷ priv ∷ []) (omega arith)
    where
      refused :
          (err : ℕ)
          → Returns (HasPrivilege (KeepsOrAllowed s) i s.max_priv) (return_err msg (slot i) err w)
      refused err =
          return_err-keeps _ (HasPrivilege-IsStable (KeepsOrAllowed s) i s.max_priv) w same msg
            (slot i) err

-- `setSessionPrivilege` in a session does not panic. Behind it the session has its old privilege,
-- or one that is not CALLBACK and within the limit set at activation; the limit is unchanged.
pub set_session_privilege-allowed :
    (env : Env) (msg : Msg) (w : World) (i : ℕ) (s : Session)
    → sid_to_session w.lan msg.sid ≡ some (i, s)
    → Returns (HasPrivilege (KeepsOrAllowed s) i s.max_priv) (set_session_privilege env msg w)
unfolding set_session_privilege
set_session_privilege-allowed env msg w i s e =
    let at = ((sid_to_session_iff w.lan msg.sid i s).0 e).2 in
    rw e (
      if-Returns (ltb msg.data_len 1)
        (λ _.
          return_err-keeps _ (HasPrivilege-IsStable (KeepsOrAllowed s) i s.max_priv) w
            (same msg w i s at) msg nil _)
        (λ _. change_privilege-allowed msg w i s at _))

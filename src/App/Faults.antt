-- ===== src/App/Faults.antt =====
-- Which requests `closeSession` of ipmi_internal_app.go panics on.
use ipmigod.Base.{
  All, ◌≡◌, Bool, true, false, not, ◌&&◌, ltb, Bool-cases, Option-cases, inl, inr, none, panic,
  Returns, Exactly, arith,
}
use ipmigod.Wire.{IsByte}
use ipmigod.Bmc.{is_some}
use ipmigod.Lanserv.{sid_to_session}
use ipmigod.Message.{Msg}
use ipmigod.World.{World, Env}
use ipmigod.World.Frame.{return_err-keeps}
use ipmigod.App.Control.{close_session}
use ipmigod.App.Untouched.{close_session-ServerIsValid}
use ipmigod.Storage.Validity.{ServerIsValid, ServerIsValid-IsStable}

-- A request that is long enough, under the id of no session.
abbrev pub close_session_faults : Msg → World → Bool
close_session_faults msg w =
    not (ltb msg.data_len 4) && not (is_some (sid_to_session w.lan msg.sid))

module _ (env : Env) (msg : Msg) (w : World) (v : ServerIsValid w) where
  short_close : ltb msg.data_len 4 ≡ true → Returns ServerIsValid (close_session env msg w)
  unfolding close_session
  short_close short = rw short (return_err-keeps ServerIsValid ServerIsValid-IsStable w v msg _ _)

  stray_close :
      ltb msg.data_len 4 ≡ false
      → sid_to_session w.lan msg.sid ≡ none
      → close_session env msg w ≡ panic
  unfolding close_session
  stray_close long gone = rw (long, gone)

  pub close_session-Exactly :
      Exactly
        (All IsByte msg.bytes)
        (close_session_faults msg w)
        ServerIsValid
        (close_session env msg w)
  close_session-Exactly = elim (Option-cases (sid_to_session w.lan msg.sid)) [
    | inr (x, e) ↦ (
      λ bytes fault. absurd (ground (arith, e)),
      λ quiet. close_session-ServerIsValid env msg w v x e,
    )
    | inl gone ↦ elim (Bool-cases (ltb msg.data_len 4)) [
      | inl short ↦ ((λ bytes fault. absurd (ground arith)), λ quiet. short_close short)
      | inr long ↦ ((λ bytes fault. stray_close long gone), λ quiet. absurd (ground (arith, gone)))
    ]
  ]

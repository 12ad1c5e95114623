-- ===== src/Storage/Validity.antt =====
-- The well-formedness of the whole server: tables, event log and repository.
use ipmigod.Base.{ℕ, Bool, true, false, if◌then◌else◌, Safe, Returns-Safe, Returns}
use ipmigod.Wire.{Bytes}
use ipmigod.Bmc.{Sel, Sdrs}
use ipmigod.Message.{Msg}
use ipmigod.World.{SessionRef, return_err, return_rsp_data}
use ipmigod.World.Frame.{Fits, return_err-keeps, return_rsp_data-keeps}
use ipmigod.Lanserv.Table.{IsValid}
use ipmigod.Bmc.EventLog.{EventLogIsValid}
use ipmigod.World.{World}
use ipmigod.World.Frame.{IsStable}
use ipmigod.App.Invariant.{TablesAreValid-IsStable}
use ipmigod.Storage.Sdr.Walk.{SdrsAreLinked}

pub record ServerIsValid (w : World) : Type 0 where
  pub tables : IsValid w.lan
  pub log : EventLogIsValid w.sel
  pub repository : SdrsAreLinked w.main_sdrs

pub ServerIsValid-IsStable : IsStable ServerIsValid
ServerIsValid-IsStable = record {
  sends = λ w p v. record { tables = v.tables; log = v.log; repository = v.repository };
  bumps = λ w i v. record {
    tables = TablesAreValid-IsStable.bumps w i v.tables;
    log = v.log;
    repository = v.repository;
  };
}

module _ (w : World) (v : ServerIsValid w) where
  pub err_keeps :
      (msg : Msg) (ref : SessionRef) (err : ℕ) → Returns ServerIsValid (return_err msg ref err w)
  err_keeps = return_err-keeps ServerIsValid ServerIsValid-IsStable w v

  pub rsp_keeps :
      (msg : Msg) (ref : SessionRef) (bytes : Bytes)
      → Fits bytes
      → Returns ServerIsValid (return_rsp_data msg ref bytes w)
  rsp_keeps = return_rsp_data-keeps ServerIsValid ServerIsValid-IsStable w v

  pub err_ends :
      (msg : Msg) (ref : SessionRef) (err : ℕ) → Safe ServerIsValid (return_err msg ref err w)
  err_ends msg ref err = Returns-Safe (err_keeps msg ref err)

  pub rsp_ends :
      (msg : Msg) (ref : SessionRef) (bytes : Bytes)
      → Fits bytes
      → Safe ServerIsValid (return_rsp_data msg ref bytes w)
  rsp_ends msg ref bytes fits = Returns-Safe (rsp_keeps msg ref bytes fits)

  pub log_valid : (sel : Sel) → EventLogIsValid sel → ServerIsValid (record w { sel = sel })
  log_valid sel l = record { tables = v.tables; log = l; repository = v.repository }

  pub sdrs_valid : (s : Sdrs) → SdrsAreLinked s → ServerIsValid (record w { main_sdrs = s })
  sdrs_valid s l = record { tables = v.tables; log = v.log; repository = l }

pub choose :
    (b : Bool) {w w' : World}
    → ServerIsValid w
    → ServerIsValid w'
    → ServerIsValid (if b then w else w')
choose true v v' = v
choose false v v' = v'

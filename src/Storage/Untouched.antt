-- ===== src/Storage/Untouched.antt =====
-- The commands of ipmi_internal_storage.go and `getSensorReading` that leave the list of the records alone.
use ipmigod.Base.{
  ℕ, ◌+◌, if◌then◌else◌, Bool, true, false, [], ◌∷◌, refl, Allows, allowed, if-Allows,
  option-Allows, >>=-Allows,
}
use ipmigod.Wire.{Bytes, uint16_at}
use ipmigod.Bmc.{Sdr, SelEntry}
use ipmigod.Message.{Msg, byte}
use ipmigod.World.{World, Env, Handler, SessionRef, nil, return_err, return_rsp_data}
use ipmigod.World.Frame.{return_err-Allows, return_rsp_data-Allows}
use ipmigod.Storage.Slices.{stale_reservation}
use ipmigod.Storage.Sel.{
  get_sel_info, reserve_sel, reply_entry, get_sel_entry, add_sel_entry, clear_sel,
}
use ipmigod.Storage.Sdr.{
  get_sdr_repository_info, reserve_sdr_repository, reply_sdr, get_sdr, select_sdr, search_sdrs,
  is_sensor,
}
use ipmigod.Storage.Sdr.Stock.{SameList, SameList-IsStable}
use ipmigod.Storage.Sensor.{get_sensor_reading}

-- A handler that leaves the list alone.
abbrev pub KeepsList : Handler → Type 0
KeepsList h = (env : Env) (msg : Msg) (w : World) → Allows (SameList w) (h env msg w)

module _ (w u : World) (same : SameList w u) where
  err_same :
      (msg : Msg) (ref : SessionRef) (err : ℕ) → Allows (SameList w) (return_err msg ref err u)
  err_same msg ref err = return_err-Allows (SameList w) (SameList-IsStable w) u same msg ref err

  rsp_same :
      (msg : Msg) (ref : SessionRef) (bytes : Bytes)
      → Allows (SameList w) (return_rsp_data msg ref bytes u)
  rsp_same msg ref bytes =
      return_rsp_data-Allows (SameList w) (SameList-IsStable w) u same msg ref bytes

unchanged : (w : World) → SameList w w
unchanged w = (refl, refl, refl)

ruleset rules = (if-Allows, option-Allows, >>=-Allows, err_same, rsp_same, allowed, unchanged, refl)

pub get_sel_info-KeepsList : KeepsList get_sel_info
unfolding get_sel_info
get_sel_info-KeepsList env msg w = search rules depth 12

pub reserve_sel-KeepsList : KeepsList reserve_sel
unfolding reserve_sel
reserve_sel-KeepsList env msg w = search rules depth 12

pub add_sel_entry-KeepsList : KeepsList add_sel_entry
unfolding add_sel_entry
add_sel_entry-KeepsList env msg w = search rules depth 12

reply_entry-SameList :
    (msg : Msg) (found : SelEntry × ℕ) (offset count : ℕ) (w : World)
    → Allows (SameList w) (reply_entry msg found offset count w)
unfolding reply_entry
reply_entry-SameList msg found offset count w = search rules depth 12

pub get_sel_entry-KeepsList : KeepsList get_sel_entry
unfolding get_sel_entry
get_sel_entry-KeepsList env msg w = search (rules, reply_entry-SameList) depth 12

cleared :
    (b : Bool) (msg : Msg) (w u : World)
    → SameList w u
    → Allows (SameList w) (return_rsp_data msg nil (0 ∷ 1 ∷ []) (if b then u else w))
cleared true msg w u same = rsp_same w u same msg nil _
cleared false msg w u same = rsp_same w w (unchanged w) msg nil _

pub clear_sel-KeepsList : KeepsList clear_sel
unfolding clear_sel
clear_sel-KeepsList env msg w = search (rules, cleared) depth 12

pub get_sdr_repository_info-KeepsList : KeepsList get_sdr_repository_info
unfolding get_sdr_repository_info
get_sdr_repository_info-KeepsList env msg w = search rules depth 12

pub reserve_sdr_repository-KeepsList : KeepsList reserve_sdr_repository
unfolding reserve_sdr_repository
reserve_sdr_repository-KeepsList env msg w = search rules depth 12

reply_sdr-SameList :
    (msg : Msg) (s : Sdr) (offset count : ℕ) (w : World)
    → Allows (SameList w) (reply_sdr msg s offset count w)
unfolding reply_sdr
reply_sdr-SameList msg s offset count w = search rules depth 12

pub get_sdr-KeepsList : KeepsList get_sdr
unfolding get_sdr
get_sdr-KeepsList env msg w =
    if-Allows (stale_reservation msg w.main_sdrs.reservation) (err_same w w (unchanged w) msg nil _)
      (>>=-Allows (select_sdr w.main_sdrs (uint16_at msg.bytes (msg.data_start + 2))) λ found.
        option-Allows found (λ _. err_same w w (unchanged w) msg nil _)
          (λ x _. reply_sdr-SameList msg x.1 _ _ w))

pub get_sensor_reading-KeepsList : KeepsList get_sensor_reading
unfolding get_sensor_reading
get_sensor_reading-KeepsList env msg w =
    >>=-Allows
      (search_sdrs (is_sensor msg.rmcp.message.rs_lun (byte msg msg.data_start)) w.main_sdrs)
      λ found.
        option-Allows found (λ _. err_same w w (unchanged w) msg nil _)
          (λ x _. rsp_same w w (unchanged w) msg nil _)

-- ===== src/Storage/Sessions.antt =====
-- The event log and SDR commands leave the users and the sessions of `lanserv` alone.
use ipmigod.Base.{
  ℕ, ◌+◌, ◌≡◌, ◌==◌, refl, if◌then◌else◌, Bool, true, false, [], ◌∷◌, Allows, allowed, if-Allows,
  option-Allows, >>=-Allows, and-Allows,
}
use ipmigod.Wire.{Bytes, uint16_at}
use ipmigod.Bmc.{Sdr, SelEntry}
use ipmigod.Message.{Msg, byte}
use ipmigod.World.{World, Env, Handler, SessionRef, nil, return_err, return_rsp_data}
use ipmigod.World.Frame.{return_err-Allows, return_rsp_data-Allows}
use ipmigod.App.Step.{SameSessions, SameSessions-refl, SameSessions-IsStable}
use ipmigod.Storage.Slices.{stale_reservation}
use ipmigod.Storage.Sel.{
  get_sel_info, reserve_sel, reply_entry, get_sel_entry, add_sel_entry, clear_sel,
}
use ipmigod.Storage.Sdr.{
  get_sdr_repository_info, reserve_sdr_repository, reply_sdr, get_sdr, select_sdr, search_sdrs,
  is_sensor, add_sdr, add_new_sdr, add_sdr_entry, clear_sdr_repository,
}
use ipmigod.Storage.Sensor.{get_sensor_reading}

-- A handler that leaves the sessions alone.
abbrev pub KeepsSessions : Handler → Type 0
KeepsSessions h = (env : Env) (msg : Msg) (w : World) → Allows (SameSessions w) (h env msg w)

-- The step goes through a state with the tables of the first.
unchanged : (w u : World) → u.lan ≡ w.lan → SameSessions w u
unchanged w u e = rw e (SameSessions-refl w)

module _ (w u : World) (e : u.lan ≡ w.lan) where
  err_same :
      (msg : Msg) (ref : SessionRef) (err : ℕ) → Allows (SameSessions w) (return_err msg ref err u)
  err_same msg ref err =
      return_err-Allows (SameSessions w) (SameSessions-IsStable w) u (unchanged w u e) msg ref err

  rsp_same :
      (msg : Msg) (ref : SessionRef) (bytes : Bytes)
      → Allows (SameSessions w) (return_rsp_data msg ref bytes u)
  rsp_same msg ref bytes =
      return_rsp_data-Allows (SameSessions w) (SameSessions-IsStable w) u (unchanged w u e) msg ref
        bytes

ruleset rules = (if-Allows, option-Allows, >>=-Allows, err_same, rsp_same, allowed, unchanged, refl)

pub get_sel_info-KeepsSessions : KeepsSessions get_sel_info
unfolding get_sel_info
get_sel_info-KeepsSessions env msg w = search rules depth 12

pub reserve_sel-KeepsSessions : KeepsSessions reserve_sel
unfolding reserve_sel
reserve_sel-KeepsSessions env msg w = search rules depth 12

pub add_sel_entry-KeepsSessions : KeepsSessions add_sel_entry
unfolding add_sel_entry
add_sel_entry-KeepsSessions env msg w = search rules depth 12

reply_entry-SameSessions :
    (msg : Msg) (found : SelEntry × ℕ) (offset count : ℕ) (w : World)
    → Allows (SameSessions w) (reply_entry msg found offset count w)
unfolding reply_entry
reply_entry-SameSessions msg found offset count w = search rules depth 12

pub get_sel_entry-KeepsSessions : KeepsSessions get_sel_entry
unfolding get_sel_entry
get_sel_entry-KeepsSessions env msg w = search (rules, reply_entry-SameSessions) depth 12

cleared :
    (b : Bool) (msg : Msg) (w u : World)
    → u.lan ≡ w.lan
    → Allows (SameSessions w) (return_rsp_data msg nil (0 ∷ 1 ∷ []) (if b then u else w))
cleared true msg w u same = rsp_same w u same msg nil _
cleared false msg w u same = rsp_same w w refl msg nil _

pub clear_sel-KeepsSessions : KeepsSessions clear_sel
unfolding clear_sel
clear_sel-KeepsSessions env msg w = search (rules, cleared) depth 12

pub get_sdr_repository_info-KeepsSessions : KeepsSessions get_sdr_repository_info
unfolding get_sdr_repository_info
get_sdr_repository_info-KeepsSessions env msg w = search rules depth 12

pub reserve_sdr_repository-KeepsSessions : KeepsSessions reserve_sdr_repository
unfolding reserve_sdr_repository
reserve_sdr_repository-KeepsSessions env msg w = search rules depth 12

reply_sdr-SameSessions :
    (msg : Msg) (s : Sdr) (offset count : ℕ) (w : World)
    → Allows (SameSessions w) (reply_sdr msg s offset count w)
unfolding reply_sdr
reply_sdr-SameSessions msg s offset count w = search rules depth 12

pub get_sdr-KeepsSessions : KeepsSessions get_sdr
unfolding get_sdr
get_sdr-KeepsSessions env msg w =
    if-Allows (stale_reservation msg w.main_sdrs.reservation) (err_same w w refl msg nil _) (
      >>=-Allows (select_sdr w.main_sdrs (uint16_at msg.bytes (msg.data_start + 2))) λ found.
        option-Allows found (λ _. err_same w w refl msg nil _)
          (λ x _. reply_sdr-SameSessions msg x.1 _ _ w))

pub get_sensor_reading-KeepsSessions : KeepsSessions get_sensor_reading
unfolding get_sensor_reading
get_sensor_reading-KeepsSessions env msg w =
    >>=-Allows
      (search_sdrs (is_sensor msg.rmcp.message.rs_lun (byte msg msg.data_start)) w.main_sdrs)
      λ found.
        option-Allows found (λ _. err_same w w refl msg nil _) (λ x _. rsp_same w w refl msg nil _)

pub add_sdr_entry-lan :
    (now : ℕ) (s : Sdr) (w : World) → Allows (λ u. u.lan ≡ w.lan) (add_sdr_entry now s w)
unfolding add_sdr_entry
add_sdr_entry-lan now s w = search (>>=-Allows, allowed)

add_new_sdr-SameSessions :
    (env : Env) (msg : Msg) (w : World) → Allows (SameSessions w) (add_new_sdr env msg w)
unfolding add_new_sdr
add_new_sdr-SameSessions env msg w =
    >>=-Allows _ λ s. and-Allows (add_sdr_entry-lan env.now s _) (λ u e. rsp_same w u e msg nil _)

pub add_sdr-KeepsSessions : KeepsSessions add_sdr
unfolding add_sdr
add_sdr-KeepsSessions env msg w =
    >>=-Allows
      (search_sdrs (is_sensor (byte msg (msg.data_start + 6)) (byte msg (msg.data_start + 7)))
        w.main_sdrs)
      λ found.
        if-Allows (byte msg (msg.data_start + 46) == 0)
          (option-Allows found (λ _. add_new_sdr-SameSessions env msg w)
            (λ x _. rsp_same w w refl msg nil _))
          (option-Allows found (λ _. allowed (SameSessions-refl w))
            (λ x _. rsp_same w _ refl msg nil _))

pub clear_sdr_repository-KeepsSessions : KeepsSessions clear_sdr_repository
unfolding clear_sdr_repository
clear_sdr_repository-KeepsSessions env msg w = search (rules, cleared) depth 12

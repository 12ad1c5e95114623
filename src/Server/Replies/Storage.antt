-- ===== src/Server/Replies/Storage.antt =====
-- The storage commands of ipmi_internal_storage.go and `getSensorReading`: how often they answer.
use ipmigod.Base.{
  Allows, allowed, and-Allows, if-Allows, option-Allows, >>=-Allows, ℕ, ◌+◌, ◌==◌, length, Bool,
  true, false, if◌then◌else◌, [], ◌∷◌, ◌≡◌, refl, inl,
}
use ipmigod.Wire.{uint16_at}
use ipmigod.Bmc.{Sdr, SelEntry}
use ipmigod.Message.{Msg, byte}
use ipmigod.World.{World, nil, return_rsp_data}
use ipmigod.Storage.Slices.{stale_reservation}
use ipmigod.Storage.Sel.{
  get_sel_info, reserve_sel, reply_entry, get_sel_entry, add_sel_entry, clear_sel,
}
use ipmigod.Storage.Sdr.{
  get_sdr_repository_info, reserve_sdr_repository, reply_sdr, get_sdr, add_sdr_entry, add_new_sdr,
  add_sdr, clear_sdr_repository, set_value, select_sdr, fill_sdr, link_sdr, search_sdrs, is_sensor,
}
use ipmigod.Storage.Sensor.{get_sensor_reading}
use ipmigod.Server.Replies.{AtMostOne, RepliesOnce, return_err-AtMostOne, return_rsp_data-AtMostOne}

unsent : (w : World) → AtMostOne w w
unsent w = inl refl

ruleset rules = (
  if-Allows, option-Allows, >>=-Allows, return_err-AtMostOne, return_rsp_data-AtMostOne, allowed,
  unsent, refl,
)

pub get_sel_info-RepliesOnce : RepliesOnce get_sel_info
unfolding get_sel_info
get_sel_info-RepliesOnce env msg w = search rules depth 12

pub reserve_sel-RepliesOnce : RepliesOnce reserve_sel
unfolding reserve_sel
reserve_sel-RepliesOnce env msg w = search rules depth 12

pub add_sel_entry-RepliesOnce : RepliesOnce add_sel_entry
unfolding add_sel_entry
add_sel_entry-RepliesOnce env msg w = search rules depth 12

reply_entry-AtMostOne :
    (msg : Msg) (found : SelEntry × ℕ) (offset count : ℕ) (w : World)
    → Allows (AtMostOne w) (reply_entry msg found offset count w)
unfolding reply_entry
reply_entry-AtMostOne msg found offset count w = search rules depth 12

pub get_sel_entry-RepliesOnce : RepliesOnce get_sel_entry
unfolding get_sel_entry
get_sel_entry-RepliesOnce env msg w = search (rules, reply_entry-AtMostOne) depth 12

clear_once :
    (b : Bool) (msg : Msg) (w u : World)
    → u.sent ≡ w.sent
    → Allows (AtMostOne w) (return_rsp_data msg nil (0 ∷ 1 ∷ []) (if b then u else w))
clear_once true msg w u same = return_rsp_data-AtMostOne w u msg nil same _
clear_once false msg w u same = return_rsp_data-AtMostOne w w msg nil refl _

pub clear_sel-RepliesOnce : RepliesOnce clear_sel
unfolding clear_sel
clear_sel-RepliesOnce env msg w = search (rules, clear_once) depth 12

pub get_sdr_repository_info-RepliesOnce : RepliesOnce get_sdr_repository_info
unfolding get_sdr_repository_info
get_sdr_repository_info-RepliesOnce env msg w = search rules depth 12

pub reserve_sdr_repository-RepliesOnce : RepliesOnce reserve_sdr_repository
unfolding reserve_sdr_repository
reserve_sdr_repository-RepliesOnce env msg w = search rules depth 12

reply_sdr-AtMostOne :
    (msg : Msg) (s : Sdr) (offset count : ℕ) (w : World)
    → Allows (AtMostOne w) (reply_sdr msg s offset count w)
unfolding reply_sdr
reply_sdr-AtMostOne msg s offset count w = search rules depth 12

pub get_sdr-RepliesOnce : RepliesOnce get_sdr
unfolding get_sdr
get_sdr-RepliesOnce env msg w =
    if-Allows (stale_reservation msg w.main_sdrs.reservation)
      (return_err-AtMostOne w w msg nil refl _)
      (>>=-Allows (select_sdr w.main_sdrs (uint16_at msg.bytes (msg.data_start + 2))) λ found.
        option-Allows found (λ _. return_err-AtMostOne w w msg nil refl _)
          (λ x _. reply_sdr-AtMostOne msg x.1 _ _ w))

add_sdr_entry-sends :
    (now : ℕ) (s : Sdr) (w : World) → Allows (λ u. u.sent ≡ w.sent) (add_sdr_entry now s w)
unfolding add_sdr_entry
add_sdr_entry-sends now s w =
    >>=-Allows (link_sdr _ (length w.main_sdrs.nodes)) (λ linked. allowed refl)

add_new_sdr-RepliesOnce : RepliesOnce add_new_sdr
unfolding add_new_sdr
add_new_sdr-RepliesOnce env msg w = >>=-Allows (fill_sdr msg _) λ s.
    and-Allows (add_sdr_entry-sends env.now s _)
      (λ u same. return_rsp_data-AtMostOne w u msg nil same _)

pub add_sdr-RepliesOnce : RepliesOnce add_sdr
unfolding add_sdr
add_sdr-RepliesOnce env msg w =
    let lun = byte msg (msg.data_start + 6) in
    let sens_num = byte msg (msg.data_start + 7) in
    let value = byte msg (msg.data_start + 46) in
    >>=-Allows (search_sdrs (is_sensor lun sens_num) w.main_sdrs) λ found.
      if-Allows (value == 0)
        (option-Allows found (λ _. add_new_sdr-RepliesOnce env msg w)
          (λ x _. return_rsp_data-AtMostOne w w msg nil refl _))
        (option-Allows found (λ _. allowed (unsent w))
          (λ x _. return_rsp_data-AtMostOne w (set_value w x.0 value) msg nil refl _))

pub clear_sdr_repository-RepliesOnce : RepliesOnce clear_sdr_repository
unfolding clear_sdr_repository
clear_sdr_repository-RepliesOnce env msg w = search (rules, clear_once) depth 12

pub get_sensor_reading-RepliesOnce : RepliesOnce get_sensor_reading
unfolding get_sensor_reading
get_sensor_reading-RepliesOnce env msg w =
    >>=-Allows
      (search_sdrs (is_sensor msg.rmcp.message.rs_lun (byte msg msg.data_start)) w.main_sdrs)
      λ found.
        option-Allows found (λ _. return_err-AtMostOne w w msg nil refl _)
          (λ x _. return_rsp_data-AtMostOne w w msg nil refl _)

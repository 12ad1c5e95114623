-- ===== src/Storage/Sdr.antt =====
-- The SDR repository commands of ipmi_internal_storage.go.
pub mod Keeps
pub mod Total
pub mod Stock
pub mod Full
pub mod Read
pub mod Chain
pub mod Contents
pub mod Refines
pub mod Follow
pub mod ReadAll
pub mod Records
pub mod Walk
use ipmigod.Base.{
  ℕ, zero, suc, ◌+◌, ◌-◌, ◌*◌, ◌%◌, ◌^◌, ltb, leb, ◌==◌, if◌then◌else◌, Bool, true, false, not,
  ◌&&◌, Option, none, some, List, [], ◌∷◌, ◌++◌, get_elem?, modify, length, take, drop, replicate,
  Outcome, ok, panic, stuck, ◌>>=◌, or_panic,
}
use ipmigod.Protodefs.{
  invalid_reservation_cc, invalid_data_field_cc, not_present_cc, parameter_out_of_range_cc,
}
use ipmigod.Wire.{Bytes, put_uint16, put_uint32, uint16_at}
use ipmigod.Bmc.{Sdr, Sdrs, Sel}
use ipmigod.Message.{Msg, byte, slice}
use ipmigod.World.{World, Env, Handler, nil, return_err, return_rsp_data}
use ipmigod.Storage.Slices.{array_slice, stale_reservation, lacks_clr, bad_clear_op}
use ipmigod.Storage.Sel.{next_reservation}

abbrev pub max_sdr_length : ℕ
max_sdr_length = 261

abbrev pub max_num_sdrs : ℕ
max_num_sdrs = 1024

-- `space`, computed on uint16.
unfoldable pub free_space : ℕ → ℕ
free_space sdr_count =
    let space = max_sdr_length * ((max_num_sdrs + 2 ^ 16 - sdr_count) % 2 ^ 16) % 2 ^ 16 in
    if ltb 0xfffe space then 0xfffe else space

-- `getSdrRepositoryInfo`.
unfoldable pub get_sdr_repository_info : Handler
get_sdr_repository_info env msg w =
    return_rsp_data msg nil
      (0
        ∷ 0x51
        ∷ (put_uint16 w.main_sdrs.sdr_count
            ++ (put_uint16 (free_space w.main_sdrs.sdr_count)
                ++ (put_uint32 w.main_sdrs.last_add_time
                    ++ (put_uint32 w.main_sdrs.last_erase_time ++ (w.main_sdrs.flags ∷ []))))))
      w

-- `reserveSdrRepository`.
unfoldable pub reserve_sdr_repository : Handler
reserve_sdr_repository env msg w =
    let r = next_reservation w.main_sdrs.reservation in
    return_rsp_data msg nil (0 ∷ put_uint16 r)
      (record w { main_sdrs = record (w.main_sdrs) { reservation = r } })

-- The loops `for entry != nil { …; entry = entry.next }`: the first node that passes the test, from
-- a pointer on.
unfoldable pub find_sdr : (Sdr → Bool) → ℕ → List Sdr → Option ℕ → Outcome (Option (ℕ × Sdr))
find_sdr p fuel nodes none = ok none
find_sdr p zero nodes (some i) = stuck
find_sdr p (suc fuel) nodes (some i) = elim (get_elem? nodes i) [
  | none ↦ panic
  | some s ↦ let rest = find_sdr p fuel nodes s.next in if p s then ok (some (i, s)) else rest
]

-- A loop from the head of the repository. It visits a node once, so the number of nodes is enough.
abbrev pub search_sdrs : (Sdr → Bool) → Sdrs → Outcome (Option (ℕ × Sdr))
search_sdrs p sdrs = find_sdr p (length sdrs.nodes) sdrs.nodes sdrs.sdrs

-- The node behind a pointer that may be nil.
abbrev pub node_at : Sdrs → Option ℕ → Outcome (Option (ℕ × Sdr))
node_at sdrs none = ok none
node_at sdrs (some i) = or_panic (get_elem? sdrs.nodes i) >>= λ s. ok (some (i, s))

-- The choice of `getSdr`: id 0 is the head of the list, 0xffff its tail.
unfoldable pub select_sdr : Sdrs → ℕ → Outcome (Option (ℕ × Sdr))
select_sdr sdrs record_id =
    if record_id == 0
    then node_at sdrs sdrs.sdrs
    else if record_id == 0xffff
    then node_at sdrs sdrs.tail_sdr
    else search_sdrs (λ s. s.record_id == record_id) sdrs

-- The id of the next record in a reply.
unfoldable pub next_id : Sdrs → Option ℕ → Outcome Bytes
next_id sdrs none = ok (0xff ∷ 0xff ∷ [])
next_id sdrs (some j) = or_panic (get_elem? sdrs.nodes j) >>= λ n. ok (put_uint16 n.record_id)

-- The reply of `getSdr`; `count + 3` is a uint8, so it is never above MAX_MSG_RETURN_DATA.
unfoldable pub reply_sdr : Msg → Sdr → ℕ → ℕ → World → Outcome World
reply_sdr msg s offset count w =
    let count' = if ltb s.length ((offset + count) % 2 ^ 8) then s.length - offset else count in
    if leb s.length offset
    then return_err msg nil parameter_out_of_range_cc w
    else next_id w.main_sdrs s.next >>= λ next.
        array_slice s.bytes offset ((offset + count') % 2 ^ 8) >>= λ part.
        return_rsp_data msg nil (slice (0 ∷ (next ++ part)) 0 ((count' + 3) % 2 ^ 8)) w

-- `getSdr`.
unfoldable pub get_sdr : Handler
get_sdr env msg w =
    if stale_reservation msg w.main_sdrs.reservation
    then return_err msg nil invalid_reservation_cc w
    else select_sdr w.main_sdrs (uint16_at msg.bytes (msg.data_start + 2)) >>= λ found. elim found [
      | none ↦ return_err msg nil not_present_cc w
      | some (i, s) ↦
          reply_sdr msg s (byte msg (msg.data_start + 4)) (byte msg (msg.data_start + 5)) w
    ]

-- `newSdrEntry`: on the chassis card the id is written into the record.
unfoldable pub new_sdr_entry : ℕ → Sdrs → ℕ → Sdr
new_sdr_entry card sdrs length = record {
  record_id = sdrs.next_free_entry_id;
  lun = 0;
  sens_num = 0;
  length = (length + 5) % 2 ^ 8;
  enabled = false;
  events_enabled = false;
  scanning_enabled = false;
  event_status = 0;
  value = 0;
  bytes =
      if card == 0 then put_uint16 sdrs.next_free_entry_id ++ replicate 62 0 else replicate 64 0;
  next = none;
}

-- `copy(entry.data[2:2+entry.length], msg.data[dataStart+2:dataStart+2+uint(entry.length)])`, with
-- the fields that `addSdr` sets. The bound `2+entry.length` is a uint8.
unfoldable pub fill_sdr : Msg → Sdr → Outcome Sdr
fill_sdr msg s =
    let hi = (2 + s.length) % 2 ^ 8 in
    if leb 2 hi && leb hi 64
    then ok (record s {
      sens_num = byte msg (msg.data_start + 7);
      bytes = take 2 s.bytes ++ (slice msg.bytes (msg.data_start + 2) (hi - 2) ++ drop hi s.bytes);
      enabled = true;
      events_enabled = true;
      scanning_enabled = true;
      event_status = 0;
    })
    else panic

-- `addSdrEntry`: the new node is linked behind the tail. The time goes to the event log's record.
unfoldable pub link_sdr : Sdrs → ℕ → Outcome Sdrs
link_sdr sdrs new = elim sdrs.sdrs [
  | none ↦ ok (record sdrs { sdrs = some new; tail_sdr = some new })
  | some head ↦ or_panic sdrs.tail_sdr >>= λ tail. ok (record sdrs {
    nodes = modify sdrs.nodes tail (λ t. record t { next = some new });
    tail_sdr = some new;
  })
]

unfoldable pub add_sdr_entry : ℕ → Sdr → World → Outcome World
add_sdr_entry now s w =
    let sdrs = w.main_sdrs in
    link_sdr (record sdrs { nodes = sdrs.nodes ++ (s ∷ []) }) (length sdrs.nodes) >>= λ linked.
    ok (record w {
      main_sdrs = record linked { sdr_count = (sdrs.sdr_count + 1) % 2 ^ 16 };
      sel = record (w.sel) { last_add_time = now };
    })

-- `entry.lun == lun && entry.sensNum == sensNum`, for the sensor that a request names.
abbrev pub is_sensor : ℕ → ℕ → Sdr → Bool
is_sensor lun sens_num s = s.lun == lun && s.sens_num == sens_num

abbrev pub reply_id : Msg → ℕ → World → Outcome World
reply_id msg record_id w = return_rsp_data msg nil (0 ∷ put_uint16 record_id) w

-- The part of `addSdr` for a sensor that the repository does not have.
unfoldable pub add_new_sdr : Env → Msg → World → Outcome World
add_new_sdr env msg w =
    let sdrs = w.main_sdrs in
    fill_sdr msg (new_sdr_entry w.chassis_card_num sdrs (byte msg (msg.data_start + 4))) >>= λ s.
    add_sdr_entry env.now s (record w {
      main_sdrs = record sdrs { next_free_entry_id = (sdrs.next_free_entry_id + 1) % 2 ^ 16 };
    })
    >>= λ w'. reply_id msg s.record_id w'

-- The value of the node at an index is set.
abbrev pub set_value : World → ℕ → ℕ → World
set_value w i value = record w {
  main_sdrs = record (w.main_sdrs) {
    nodes = modify w.main_sdrs.nodes i (λ s. record s { value = value });
  };
}

-- `addSdr`: a record whose oem field is not 0 is a sensor value, in the same field.
unfoldable pub add_sdr : Handler
add_sdr env msg w =
    let lun = byte msg (msg.data_start + 6) in
    let sens_num = byte msg (msg.data_start + 7) in
    let value = byte msg (msg.data_start + 46) in
    search_sdrs (is_sensor lun sens_num) w.main_sdrs >>= λ found.
    if value == 0
    then elim found [ none ↦ add_new_sdr env msg w | some (i, s) ↦ reply_id msg s.record_id w ]
    else elim found [ none ↦ ok w | some (i, s) ↦ reply_id msg s.record_id (set_value w i value) ]

-- `clearSdrRepository`. Its loop over the list has no effect.
unfoldable pub clear_sdr_repository : Handler
clear_sdr_repository env msg w =
    if stale_reservation msg w.main_sdrs.reservation
    then return_err msg nil invalid_reservation_cc w
    else if lacks_clr msg
    then return_err msg nil invalid_data_field_cc w
    else if bad_clear_op msg
    then return_err msg nil invalid_data_field_cc w
    else return_rsp_data msg nil (0 ∷ 1 ∷ []) (
        if byte msg (msg.data_start + 5) == 0xaa
        then record w {
          main_sdrs = record (w.main_sdrs) {
            sdrs = none;
            tail_sdr = none;
            last_erase_time = env.now;
          };
        }
        else w)

-- ===== src/Storage/Sdr/Keeps.antt =====
-- The SDR commands and `getSensorReading`, and the well-formedness of the server.
use ipmigod.Base.{
  ℕ, ◌+◌, ◌≡◌, refl, Bool, leb, Option, none, some, get_elem?, length, take, drop, length-append,
  length-take, length-drop, ◌++◌, ◌-◌, ◌≤◌, ◌<◌, true, Bool-cases, inr, Safe, returned, panicked,
  if-Safe, if-Returns, option-Returns, >>=-Returns, Returns, returns, option-Safe, or_panic-Safe,
  or_panic-ends, >>=-Safe, Returns-Safe, Safe-map, ◌==◌, ◌%◌, ◌^◌, leb, ◌&&◌, ◌+◌, inl, arith,
}
use ipmigod.Wire.{uint16_at}
use ipmigod.Bmc.{Sdr, Sdrs}
use ipmigod.Bmc.Sized.{IsSized}
use ipmigod.Message.{Msg, byte, slice, length-slice}
use ipmigod.World.{World, Env, nil}
use ipmigod.Storage.Validity.{ServerIsValid}
use ipmigod.Storage.Slices.{array_slice-Safe, stale_reservation, lacks_clr, bad_clear_op}
use ipmigod.Storage.Sdr.{
  get_sdr_repository_info, reserve_sdr_repository, search_sdrs, node_at, select_sdr, next_id,
  reply_sdr, get_sdr, new_sdr_entry, fill_sdr, add_sdr_entry, add_new_sdr, add_sdr,
  clear_sdr_repository, is_sensor, reply_id, set_value,
}
use ipmigod.Storage.Sdr.Walk.{
  SdrsAreLinked, FoundBy, find_sdr-FoundBy, set-SdrsAreLinked, link_sdr-SdrsAreLinked,
}
use ipmigod.Storage.Sensor.{get_sensor_reading}
use ipmigod.Storage.Validity.{err_keeps, rsp_keeps, err_ends, rsp_ends, sdrs_valid, choose}

ruleset rules = (if-Safe, option-Safe, returned, err_ends, rsp_ends, arith)

ruleset total = (if-Returns, option-Returns, returns, err_keeps, rsp_keeps, arith)

fits_bounds : (hi : ℕ) → (leb 2 hi && leb hi 64) ≡ true → (2 ≤ hi) × (hi ≤ 64)
fits_bounds hi h = (ground arith, ground arith)

pub fill_sdr-last :
    (msg : Msg) (s : Sdr)
    → s.next ≡ none
    → length s.bytes ≡ 64
    → s.length < 256
    → Safe (λ s'. (s'.next ≡ none) × IsSized s') (fill_sdr msg s)
unfolding fill_sdr
fill_sdr-last msg s e size byte_length =
    let hi = (2 + s.length) % 2 ^ 8 in
    let middle = slice msg.bytes (msg.data_start + 2) (hi - 2) in
    if-Safe (leb 2 hi && leb hi 64)
      (λ fits. returned (
        e,
        (
          omega (
            arith,
            fits_bounds hi fits,
            size,
            length-append (take 2 s.bytes) (middle ++ drop hi s.bytes),
            length-append middle (drop hi s.bytes),
            length-take 2 s.bytes,
            length-slice msg.bytes (msg.data_start + 2) (hi - 2),
            length-drop hi s.bytes,
          ),
          omega (arith, fits_bounds hi fits, byte_length),
        ),
      ))
      (λ _. panicked)

pub new_sdr_entry-size :
    (card : ℕ) (sdrs : Sdrs) (size : ℕ) → length (new_sdr_entry card sdrs size).bytes ≡ 64
unfolding new_sdr_entry
new_sdr_entry-size card sdrs size = elim (Bool-cases (card == 0)) [
  | inl chassis ↦ rw chassis
  | inr line ↦ rw line
]

pub add_sdr_entry-keeps :
    (w : World) (v : ServerIsValid w) (now : ℕ) (s : Sdr)
    → s.next ≡ none
    → IsSized s
    → Safe ServerIsValid (add_sdr_entry now s w)
unfolding add_sdr_entry
add_sdr_entry-keeps w v now s e size =
    >>=-Safe _ (link_sdr-SdrsAreLinked w.main_sdrs s e size v.repository) λ linked l.
      returned (record {
        tables = v.tables;
        log =
            let l = v.log in
            record {
              next = l.next;
              bounded = l.bounded;
              small = l.small;
              stored = l.stored;
              below = l.below;
              distinct = l.distinct;
              full = l.full;
            };
        repository = record { head = l.head; tail = l.tail; links = l.links; sized = l.sized };
      })

module _ (env : Env) (msg : Msg) (w : World) (v : ServerIsValid w) where
  pub get_sdr_repository_info-keeps : Returns ServerIsValid (get_sdr_repository_info env msg w)
  unfolding get_sdr_repository_info
  get_sdr_repository_info-keeps = search total

  pub reserve_sdr_repository-keeps : Returns ServerIsValid (reserve_sdr_repository env msg w)
  unfolding reserve_sdr_repository
  reserve_sdr_repository-keeps =
      let l = v.repository in
      rsp_keeps _
        (sdrs_valid w v _
          (record { head = l.head; tail = l.tail; links = l.links; sized = l.sized }))
        msg nil _ (omega arith)

  search_finds :
      (p : Sdr → Bool) → Returns (FoundBy p w.main_sdrs.nodes) (search_sdrs p w.main_sdrs)
  search_finds p =
      let l = v.repository in
      find_sdr-FoundBy p w.main_sdrs.nodes l.links (length w.main_sdrs.nodes) 0 w.main_sdrs.sdrs
        l.head (omega arith)

  search_ends : (p : Sdr → Bool) → Safe (FoundBy p w.main_sdrs.nodes) (search_sdrs p w.main_sdrs)
  search_ends p = Returns-Safe (search_finds p)

  node_at-ends : (ptr : Option ℕ) → Safe (λ _. Unit {0}) (node_at w.main_sdrs ptr)
  node_at-ends none = returned tt
  node_at-ends (some i) = or_panic-Safe (get_elem? w.main_sdrs.nodes i) (λ s _. returned tt)

  select_sdr-ends : (id : ℕ) → Safe (λ _. Unit {0}) (select_sdr w.main_sdrs id)
  unfolding select_sdr
  select_sdr-ends id =
      if-Safe (id == 0) (λ _. node_at-ends w.main_sdrs.sdrs)
        λ _.
          if-Safe (id == 0xffff) (λ _. node_at-ends w.main_sdrs.tail_sdr)
            λ _. Safe-map (λ r _. tt) (search_ends (λ s. s.record_id == id))

  next_id-ends : (ptr : Option ℕ) → Safe (λ _. Unit {0}) (next_id w.main_sdrs ptr)
  unfolding next_id
  next_id-ends none = returned tt
  next_id-ends (some j) =
      >>=-Safe _ (or_panic-ends (get_elem? w.main_sdrs.nodes j)) (λ n _. returned tt)

  reply_sdr-keeps :
      (s : Sdr) (offset count : ℕ) → Safe ServerIsValid (reply_sdr msg s offset count w)
  unfolding reply_sdr
  reply_sdr-keeps s offset count =
      if-Safe (leb s.length offset) (λ _. err_ends w v msg nil _)
        λ _. >>=-Safe _ (next_id-ends s.next) λ next _.
          >>=-Safe _ (array_slice-Safe s.bytes offset _)
            λ part _. rsp_ends w v msg nil _ (omega (arith, length-slice))

  pub get_sdr-keeps : Safe ServerIsValid (get_sdr env msg w)
  unfolding get_sdr
  get_sdr-keeps =
      if-Safe (stale_reservation msg w.main_sdrs.reservation) (λ _. err_ends w v msg nil _)
        λ _. >>=-Safe _ (select_sdr-ends (uint16_at msg.bytes (msg.data_start + 2))) λ found _.
          option-Safe found (λ _. err_ends w v msg nil _) (λ x _. reply_sdr-keeps x.1 _ _)

  clear_sdr_repository-keeps_sdrs :
      (now : ℕ)
      → SdrsAreLinked (record (w.main_sdrs) { sdrs = none; tail_sdr = none; last_erase_time = now })
  clear_sdr_repository-keeps_sdrs now = record {
    head = inl refl;
    tail = inl refl;
    links = v.repository.links;
    sized = v.repository.sized;
  }

  pub clear_sdr_repository-keeps : Returns ServerIsValid (clear_sdr_repository env msg w)
  unfolding clear_sdr_repository
  clear_sdr_repository-keeps =
      let cleared = sdrs_valid w v _ (clear_sdr_repository-keeps_sdrs env.now) in
      if-Returns (stale_reservation msg w.main_sdrs.reservation) (λ _. err_keeps w v msg nil _)
        λ _.
          if-Returns (lacks_clr msg) (λ _. err_keeps w v msg nil _)
            λ _.
              if-Returns (bad_clear_op msg) (λ _. err_keeps w v msg nil _)
                λ _.
                  rsp_keeps _ (choose (byte msg (msg.data_start + 5) == 0xaa) cleared v) msg nil _
                    (omega arith)

module _ (env : Env) (msg : Msg) (w : World) (v : ServerIsValid w) where
  reply_id-keeps : (id : ℕ) → Safe ServerIsValid (reply_id msg id w)
  reply_id-keeps id = rsp_ends w v msg nil _ (omega arith)

  set_value_valid : (i value : ℕ) → ServerIsValid (set_value w i value)
  set_value_valid i value = sdrs_valid w v _ (
      set-SdrsAreLinked w.main_sdrs i (λ s. record s { value = value }) (λ s. refl) (λ s h. h)
        v.repository)

module _ (env : Env) (msg : Msg) (w : World) (v : ServerIsValid w) where
  add_new_sdr-keeps : Safe ServerIsValid (add_new_sdr env msg w)
  unfolding add_new_sdr new_sdr_entry
  add_new_sdr-keeps =
      let l = v.repository in
      let v' =
        sdrs_valid w v
          (record (w.main_sdrs) {
            next_free_entry_id = (w.main_sdrs.next_free_entry_id + 1) % 2 ^ 16;
          })
          (record { head = l.head; tail = l.tail; links = l.links; sized = l.sized }) in
      >>=-Safe _
        (fill_sdr-last msg _ refl
          (new_sdr_entry-size w.chassis_card_num w.main_sdrs (byte msg (msg.data_start + 4)))
          (omega arith))
        λ s (e, size).
          >>=-Safe _ (add_sdr_entry-keeps _ v' env.now s e size)
            λ w' h. reply_id-keeps env msg w' h s.record_id

  pub add_sdr-keeps : Safe ServerIsValid (add_sdr env msg w)
  unfolding add_sdr
  add_sdr-keeps =
      >>=-Safe _
        (search_ends env msg w v
          (is_sensor (byte msg (msg.data_start + 6)) (byte msg (msg.data_start + 7))))
        λ found _.
          if-Safe (byte msg (msg.data_start + 46) == 0)
            (λ _.
              option-Safe found (λ _. add_new_sdr-keeps)
                (λ x _. reply_id-keeps env msg w v x.1.record_id))
            (λ _.
              option-Safe found (λ _. returned v)
                (λ x _. reply_id-keeps env msg _ (set_value_valid env msg w v x.0 _) x.1.record_id))

  pub get_sensor_reading-keeps : Returns ServerIsValid (get_sensor_reading env msg w)
  unfolding get_sensor_reading
  get_sensor_reading-keeps =
      >>=-Returns _
        (search_finds env msg w v (is_sensor msg.rmcp.message.rs_lun (byte msg msg.data_start)))
        λ found _.
          option-Returns found (λ _. err_keeps w v msg nil _)
            (λ x _. rsp_keeps w v msg nil _ (omega arith))

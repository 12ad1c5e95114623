-- ===== src/Storage/Sel/Keeps.antt =====
-- The event log commands of ipmi_internal_storage.go, and the well-formedness of the server.
use ipmigod.Base.{
  ℕ, ◌+◌, [], ◌∷◌, ◌++◌, ◌-◌, get_elem?, replicate, Safe, returned, if-Safe, if-Returns,
  option-Returns, >>=-Returns, Returns, returns, option-Safe, or_panic-ends, >>=-Safe, Safe-map,
  not, ◌==◌, ◌%◌, ◌^◌, if◌then◌else◌, ◌>>=◌, arith,
}
use ipmigod.Wire.{uint16_at, put_uint16}
use ipmigod.Bmc.{SelEntry, copy_at}
use ipmigod.Bmc.EventLog.{EventLogIsValid}
use ipmigod.Bmc.Keeps.{add_to_sel-EventLogIsValid}
use ipmigod.Message.{Msg, byte}
use ipmigod.World.{World, Env, nil, return_rsp_data}
use ipmigod.World.Frame.{Fits}
use ipmigod.Storage.Validity.{ServerIsValid}
use ipmigod.Storage.Slices.{array_slice-Safe}
use ipmigod.Storage.Sel.Clear.{erase_sel-EventLogIsValid}
use ipmigod.Storage.Sel.{
  clip, get_sel_info, reserve_sel, select_entry, entry_reply, reply_entry, get_sel_entry,
  add_sel_entry, erase_sel, clear_sel,
}
use ipmigod.Storage.Validity.{err_keeps, rsp_keeps, err_ends, rsp_ends, log_valid, choose}

ruleset rules = (if-Safe, option-Safe, returned, err_ends, rsp_ends, arith)

ruleset total = (if-Returns, option-Returns, returns, err_keeps, rsp_keeps, arith)

module _ (env : Env) (msg : Msg) (w : World) (v : ServerIsValid w) where
  pub get_sel_info-keeps : Returns ServerIsValid (get_sel_info env msg w)
  unfolding get_sel_info
  get_sel_info-keeps = search total

  reserved : (r : ℕ) → EventLogIsValid (record (w.sel) { reservation = r })
  reserved r =
      let l = v.log in
      record {
        next = l.next;
        bounded = l.bounded;
        small = l.small;
        stored = l.stored;
        below = l.below;
        distinct = l.distinct;
        full = l.full;
      }

  pub reserve_sel-keeps : Returns ServerIsValid (reserve_sel env msg w)
  unfolding reserve_sel
  reserve_sel-keeps = rsp_keeps _ (log_valid w v _ (reserved _)) msg nil _ (omega arith)

  select_entry-ends : (id : ℕ) → Safe (λ _. Unit {0}) (select_entry w.sel id)
  unfolding select_entry
  select_entry-ends id =
      if-Safe (id == 0)
        (λ _. >>=-Safe _ (or_panic-ends (get_elem? w.sel.entries 0)) (λ e _. returned tt))
        λ _.
          if-Safe (id == 0xffff)
            (λ _.
              >>=-Safe _ (or_panic-ends (get_elem? w.sel.entries (w.sel.count - 1)))
                (λ e _. returned tt))
            (λ _. returned tt)

  entry_reply-Fits :
      (e : SelEntry) (next offset count : ℕ) → Safe Fits (entry_reply e next offset count)
  unfolding entry_reply
  entry_reply-Fits e next offset count =
      >>=-Safe _ (array_slice-Safe e.bytes offset ((offset + count) % 2 ^ 8)) λ part _.
        Safe-map (λ b h. omega arith)
          (array_slice-Safe (copy_at (0 ∷ (put_uint16 next ++ replicate 16 0)) 3 part) 0
            ((count + 3) % 2 ^ 8))

  reply_entry-keeps :
      (found : SelEntry × ℕ) (offset count : ℕ)
      → Safe ServerIsValid (reply_entry msg found offset count w)
  unfolding reply_entry
  reply_entry-keeps (e, next) offset count =
      if-Safe (e.record_id == 0) (λ _. err_ends w v msg nil _)
        λ _.
          >>=-Safe Fits (entry_reply-Fits e next offset (clip offset count))
            (λ bytes fits. rsp_ends w v msg nil bytes fits)

  pub get_sel_entry-keeps : Safe ServerIsValid (get_sel_entry env msg w)
  unfolding get_sel_entry
  get_sel_entry-keeps =
      let replies : Safe ServerIsValid (
          select_entry w.sel (uint16_at msg.bytes (msg.data_start + 2)) >>= λ found.
          reply_entry msg found (byte msg (msg.data_start + 4)) (byte msg (msg.data_start + 5)) w) =
        >>=-Safe _ (select_entry-ends _) (λ found _. reply_entry-keeps found _ _) in
      search (rules, replies)

  pub add_sel_entry-keeps : Returns ServerIsValid (add_sel_entry env msg w)
  unfolding add_sel_entry
  add_sel_entry-keeps = >>=-Returns _ (add_to_sel-EventLogIsValid w.sel env.now _ _ v.log) λ a l.
      if-Returns (not (a.err == 0)) (λ _. err_keeps _ (log_valid w v a.sel l) msg nil _)
        (λ _. rsp_keeps _ (log_valid w v a.sel l) msg nil _ (omega arith))

  pub clear_sel-keeps : Returns ServerIsValid (clear_sel env msg w)
  unfolding clear_sel
  clear_sel-keeps =
      let cleared = log_valid w v _ (erase_sel-EventLogIsValid w.sel env.now v.log) in
      let replies : Returns ServerIsValid (
          return_rsp_data msg nil (0 ∷ 1 ∷ []) (
            if byte msg (msg.data_start + 5) == 0xaa
            then record w { sel = erase_sel w.sel env.now }
            else w)) =
        rsp_keeps _ (choose (byte msg (msg.data_start + 5) == 0xaa) cleared v) msg nil _
          (omega arith) in
      search (total, replies)

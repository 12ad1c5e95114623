-- ===== src/Storage/Sdr/Total.antt =====
-- `getSdr` of ipmi_internal_storage.go where it does not panic, and the nodes that it selects.
use ipmigod.Base.{
  >>=-Returns_eq, ◌∙◌, ap, ok, false, ℕ, suc, ◌+◌, ◌-◌, ◌%◌, ◌^◌, ◌≤◌, ◌<◌, ◌≡◌, refl, Bool, true,
  ltb, leb, ◌==◌, if◌then◌else◌, Option, none, some, List, length, get_elem?,
  get_elem?-IsSome_of_lt, All-get_elem?, Returns, returns, Returns-map, if-Returns, option-Returns,
  >>=-Returns, arith,
}
use ipmigod.Wire.{uint16_at}
use ipmigod.Bmc.{Sdr, Sdrs}
use ipmigod.Bmc.Sized.{IsSized}
use ipmigod.Message.{Msg, byte, length-slice}
use ipmigod.World.{World, Env, nil}
use ipmigod.Storage.Slices.{stale_reservation}
use ipmigod.Storage.Validity.{ServerIsValid, err_keeps, rsp_keeps}
use ipmigod.Storage.Sel.Total.{array_slice-Returns}
use ipmigod.Storage.Sdr.{node_at, select_sdr, next_id, reply_sdr, get_sdr}
use ipmigod.Storage.Sdr.Walk.{
  PointsFrom, SdrsAreLinked, FoundBy, find_sdr-FoundBy, LinksAscend-get_elem?,
}

module _ (sdrs : Sdrs) (l : SdrsAreLinked sdrs) where
  -- A node, where it stands.
  abbrev pub AtNode : Option (ℕ × Sdr) → Type 0
  AtNode o = FoundBy (λ s. true) sdrs.nodes o

  node_at-Returns :
      (ptr : Option ℕ) → PointsFrom 0 (length sdrs.nodes) ptr → Returns AtNode (node_at sdrs ptr)
  node_at-Returns none h = returns tt
  node_at-Returns (some i) h =
      let (s, at) = get_elem?-IsSome_of_lt sdrs.nodes i (ground arith) in rw at (returns (at, refl))

  any_test : (p : Sdr → Bool) (o : Option (ℕ × Sdr)) → FoundBy p sdrs.nodes o → AtNode o
  any_test p none h = tt
  any_test p (some (i, s)) h = (h.0, refl)

  pub select_sdr-Returns : (id : ℕ) → Returns AtNode (select_sdr sdrs id)
  unfolding select_sdr
  select_sdr-Returns id =
      if-Returns (id == 0) (λ _. node_at-Returns sdrs.sdrs l.head)
        λ _.
          if-Returns (id == 0xffff) (λ _. node_at-Returns sdrs.tail_sdr l.tail)
            λ _. Returns-map (any_test (λ s. s.record_id == id)) (
              find_sdr-FoundBy (λ s. s.record_id == id) sdrs.nodes l.links (length sdrs.nodes) 0
                sdrs.sdrs l.head (omega arith))

  next_id-Returns :
      (k : ℕ) (ptr : Option ℕ)
      → PointsFrom k (length sdrs.nodes) ptr
      → Returns (λ _. Unit {0}) (next_id sdrs ptr)
  unfolding next_id
  next_id-Returns k none h = returns tt
  next_id-Returns k (some j) h =
      let (n, at) = get_elem?-IsSome_of_lt sdrs.nodes j (ground arith) in rw at (returns tt)

pub node_of :
    (nodes : List Sdr) (o : Option (ℕ × Sdr)) (x : ℕ × Sdr)
    → FoundBy (λ s. true) nodes o
    → o ≡ some x
    → get_elem? nodes x.0 ≡ some x.1
node_of nodes none x h e = cc
node_of nodes (some (i, s)) x h e = ground (arith, h.0)

-- What is left of a range that does not wrap is within the record.
record_bounds :
    (size offset count : ℕ)
    → offset < size
    → size ≤ 64
    → offset + count < 2 ^ 8
    → let count' = if ltb size ((offset + count) % 2 ^ 8) then size - offset else count in
      (offset ≤ (offset + count') % 2 ^ 8) × ((offset + count') % 2 ^ 8 ≤ 64)
record_bounds size offset count inside small short = ground arith

module _ (env : Env) (msg : Msg) (w : World) (v : ServerIsValid w) where
  reply_sdr-Returns :
      (i : ℕ) (s : Sdr) (offset count : ℕ)
      → get_elem? w.main_sdrs.nodes i ≡ some s
      → (leb s.length offset ≡ false → offset + count < 2 ^ 8)
      → Returns ServerIsValid (reply_sdr msg s offset count w)
  unfolding reply_sdr
  reply_sdr-Returns i s offset count at short =
      let l = v.repository in
      let sized = All-get_elem? IsSized w.main_sdrs.nodes i s l.sized at in
      if-Returns (leb s.length offset) (λ _. err_keeps w v msg nil _)
        λ inside.
          let (lo, hi) =
            record_bounds s.length offset count (ground arith) sized.1 (short inside) in
          >>=-Returns _
            (next_id-Returns w.main_sdrs l (suc (0 + i)) s.next
              (LinksAscend-get_elem? w.main_sdrs.nodes _ 0 i s l.links at))
            λ next _.
              >>=-Returns _ (array_slice-Returns s.bytes offset _ lo (omega (arith, sized.0, hi)))
                (λ part _. rsp_keeps w v msg nil _ (omega (arith, length-slice)))

  -- `getSdr` on a well-formed server, where offset and count of a request that gets to them do not wrap.
  pub get_sdr-Returns :
      ((i : ℕ) (s : Sdr)
        → stale_reservation msg w.main_sdrs.reservation ≡ false
        → select_sdr w.main_sdrs (uint16_at msg.bytes (msg.data_start + 2)) ≡ ok (some (i, s))
        → leb s.length (byte msg (msg.data_start + 4)) ≡ false
        → byte msg (msg.data_start + 4) + byte msg (msg.data_start + 5) < 2 ^ 8)
      → Returns ServerIsValid (get_sdr env msg w)
  unfolding get_sdr
  get_sdr-Returns short =
      if-Returns (stale_reservation msg w.main_sdrs.reservation) (λ _. err_keeps w v msg nil _)
        λ fresh.
          >>=-Returns_eq _
            (select_sdr-Returns w.main_sdrs v.repository (uint16_at msg.bytes (msg.data_start + 2)))
            λ found got at.
              option-Returns found (λ _. err_keeps w v msg nil _)
                λ x e.
                  reply_sdr-Returns x.0 x.1 _ _ (node_of w.main_sdrs.nodes found x at e)
                    (short x.0 x.1 fresh (got ∙ ap ok e))

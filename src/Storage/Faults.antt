-- ===== src/Storage/Faults.antt =====
-- Which requests the commands of ipmi_internal_storage.go panic on.
use ipmigod.Base.{
  All-get_elem?, ℕ, zero, suc, ◌+◌, ◌<◌, ◌≡◌, ◌≢◌, Bool, true, false, not, ◌&&◌, leb, ◌==◌, Option,
  none, some, ◌∷◌, [], Outcome, ok, panic, stuck, Returns-some, Exactly, All, get_or, arith,
}
use ipmigod.Wire.{Bytes, IsByte, uint16_at}
use ipmigod.Bmc.{Sdr, SelEntry}
use ipmigod.Bmc.Sized.{IsSized}
use ipmigod.Message.{Msg, byte}
use ipmigod.World.{World, Env}
use ipmigod.Storage.Slices.{stale_reservation}
use ipmigod.Storage.Validity.{ServerIsValid}
use ipmigod.Storage.Sel.{select_entry, get_sel_entry}
use ipmigod.Storage.Sel.Read.{get_sel_entry-panics}
use ipmigod.Storage.Sel.Total.{select_entry-Returns, get_sel_entry-Returns}
use ipmigod.Storage.Sdr.{select_sdr, get_sdr}
use ipmigod.Storage.Sdr.Read.{get_sdr-panics}
use ipmigod.Storage.Sdr.Total.{AtNode, select_sdr-Returns, get_sdr-Returns}

-- The sum of the request's offset and count is not a uint8.
abbrev pub wraps : Msg → Bool
wraps msg = leb 256 (byte msg (msg.data_start + 4) + byte msg (msg.data_start + 5))

-- An entry with an id.
abbrev pub is_event : Outcome (SelEntry × ℕ) → Bool
is_event (ok (e, next)) = not (e.record_id == 0)
is_event panic = false
is_event stuck = false

-- Offset and count of a request for an event that is there wrap.
abbrev pub get_sel_entry_faults : Msg → World → Bool
get_sel_entry_faults msg w =
    not (stale_reservation msg w.sel.reservation)
    && (not (leb 16 (byte msg (msg.data_start + 4)))
        && (not (w.sel.count == 0)
            && (is_event (select_entry w.sel (uint16_at msg.bytes (msg.data_start + 2)))
                && wraps msg)))

-- A record that is longer than an offset.
abbrev pub is_beyond : ℕ → Outcome (Option (ℕ × Sdr)) → Bool
is_beyond offset (ok (some (i, s))) = not (leb s.length offset)
is_beyond offset (ok none) = false
is_beyond offset panic = false
is_beyond offset stuck = false

-- Offset and count of a request for a record that is there wrap, with the offset inside the record.
abbrev pub get_sdr_faults : Msg → World → Bool
get_sdr_faults msg w =
    not (stale_reservation msg w.main_sdrs.reservation)
    && (is_beyond (byte msg (msg.data_start + 4))
          (select_sdr w.main_sdrs (uint16_at msg.bytes (msg.data_start + 2)))
        && wraps msg)

IsByte-byte : (bs : Bytes) (i : ℕ) → All IsByte bs → get_or bs i 0 < 256
IsByte-byte [] i h = omega arith
IsByte-byte (b ∷ bs) zero h = h.0
IsByte-byte (b ∷ bs) (suc i) h = IsByte-byte bs i h.1

and_false : (a b : Bool) → (a && b) ≡ false → a ≡ true → b ≡ false
and_false a b h e = ground arith

-- The datagram is made of bytes.
abbrev pub HasBytes : Msg → Type 0
HasBytes msg = All IsByte msg.bytes

module _ (env : Env) (msg : Msg) (w : World) (v : ServerIsValid w) where
  pub get_sel_entry-Exactly :
      Exactly (HasBytes msg) (get_sel_entry_faults msg w) ServerIsValid (get_sel_entry env msg w)
  get_sel_entry-Exactly = (
    λ bytes fault.
        let some_entry : w.sel.count ≢ 0 = ground arith in
        let ((e, next), at, _) = Returns-some (
          select_entry-Returns w.sel (uint16_at msg.bytes (msg.data_start + 2)) v.log some_entry) in
        get_sel_entry-panics env msg w e next (ground arith) (ground arith)
          (IsByte-byte msg.bytes (msg.data_start + 5) bytes) (ground arith) some_entry at
          (ground (arith, at)),
    λ quiet.
        get_sel_entry-Returns env msg w v λ found fresh low some_entry at known. ground (arith, at),
  )

  -- What was selected is a node of the list.
  sdr_fault :
      (found : Option (ℕ × Sdr))
      → select_sdr w.main_sdrs (uint16_at msg.bytes (msg.data_start + 2)) ≡ ok found
      → AtNode w.main_sdrs v.repository found
      → HasBytes msg
      → get_sdr_faults msg w ≡ true
      → get_sdr env msg w ≡ panic
  sdr_fault none at node bytes fault = absurd (ground (arith, at))
  sdr_fault (some (i, s)) at node bytes fault =
      let sized = All-get_elem? IsSized w.main_sdrs.nodes i s v.repository.sized node.0 in
      get_sdr-panics env msg w i s (ground (arith, at)) at (ground (arith, at))
        (IsByte-byte msg.bytes (msg.data_start + 5) bytes) (omega (arith, sized.1))
        (ground (arith, at))

  pub get_sdr-Exactly :
      Exactly (HasBytes msg) (get_sdr_faults msg w) ServerIsValid (get_sdr env msg w)
  get_sdr-Exactly = (
    λ bytes fault.
        let (found, at, node) = Returns-some (
          select_sdr-Returns w.main_sdrs v.repository (uint16_at msg.bytes (msg.data_start + 2))) in
        sdr_fault found at node bytes fault,
    λ quiet. get_sdr-Returns env msg w v λ i s fresh at inside. ground (arith, at),
  )

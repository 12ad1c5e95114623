-- ===== src/Storage/Sdr/Read.antt =====
-- `getSdr` of ipmi_internal_storage.go on offset and count.
use ipmigod.Base.{
  ℕ, ◌+◌, ◌%◌, ◌^◌, ◌≤◌, ◌<◌, ◌≡◌, refl, false, ltb, leb, Option, none, some, get_elem?, Outcome,
  ok, panic, ◌>>=◌, or_panic, arith,
}
use ipmigod.Wire.{Bytes, uint16_at, put_uint16}
use ipmigod.Bmc.{Sdr, Sdrs}
use ipmigod.Message.{Msg, byte}
use ipmigod.World.{World, Env}
use ipmigod.Storage.Slices.{array_slice, stale_reservation}
use ipmigod.Storage.Sdr.{select_sdr, next_id, reply_sdr, get_sdr}

-- A slice with its bounds the wrong way round.
array_slice-panics : (a : Bytes) (lo hi : ℕ) → hi < lo → array_slice a lo hi ≡ panic
array_slice-panics a lo hi h = ground arith

-- Whatever the id of the next record comes to, a panic behind it is the outcome.
next_id-panics :
    (sdrs : Sdrs) (ptr : Option ℕ) {A : Type 0} (f : Bytes → Outcome A)
    → ((next : Bytes) → f next ≡ panic)
    → (next_id sdrs ptr >>= f) ≡ panic
unfolding next_id
next_id-panics sdrs none f h = h _
next_id-panics sdrs (some j) f h = go (get_elem? sdrs.nodes j)
  where
    go : (o : Option Sdr) → (or_panic o >>= (λ n. ok (put_uint16 n.record_id)) >>= f) ≡ panic
    go none = refl
    go (some n) = h _

-- `getSdr` panics for the record it selects, where the offset is inside the record and the sum of offset
-- and count wraps: on uint8 the sum is then below the offset, and the clipping to the record does not
-- see it.
pub get_sdr-panics :
    (env : Env) (msg : Msg) (w : World) (i : ℕ) (s : Sdr)
    → stale_reservation msg w.main_sdrs.reservation ≡ false
    → select_sdr w.main_sdrs (uint16_at msg.bytes (msg.data_start + 2)) ≡ ok (some (i, s))
    → byte msg (msg.data_start + 4) < s.length
    → byte msg (msg.data_start + 5) < 2 ^ 8
    → s.length < 2 ^ 8
    → 2 ^ 8 ≤ byte msg (msg.data_start + 4) + byte msg (msg.data_start + 5)
    → get_sdr env msg w ≡ panic
unfolding get_sdr reply_sdr
get_sdr-panics env msg w i s fresh at inside small short wraps =
    let offset = byte msg (msg.data_start + 4) in
    let count = byte msg (msg.data_start + 5) in
    let no_clip : ltb s.length ((offset + count) % 2 ^ 8) ≡ false = ground arith in
    let in_range : leb s.length offset ≡ false = ground arith in
    rw (fresh, at, in_range, no_clip)
      (next_id-panics w.main_sdrs s.next _
        λ next. rw (array_slice-panics s.bytes offset ((offset + count) % 2 ^ 8) (omega arith)))

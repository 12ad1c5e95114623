-- ===== src/Controller/Reading.antt =====
-- A reading on its way from `pollSensors` of a line card, through `addSdrBuildMsg` of ipmi_client.go and
-- `ipmiHandleMsg` of the MM card, to `addSdr` of ipmi_internal_storage.go.
use ipmigod.Base.{
  ℕ, zero, suc, ◌+◌, ◌<◌, ◌≡◌, refl, ap, sym, List, [], ◌∷◌, ◌++◌, get_or, modify, length, Outcome,
  ok, ◌==◌, if◌then◌else◌, Bool-cases, inl, inr, some, arith,
}
use mathlib.Core.Path.{subst}
use ipmigod.Protodefs.{storage_netfn}
use ipmigod.Protodefs.Storage.{add_sdr_cmd}
use ipmigod.Wire.{Bytes, neg8, ipmi_checksum}
use ipmigod.Bmc.{Sdr}
use ipmigod.Message.{Msg, byte, new_msg, load_hdr, load_session, load_message, ipmi_parse_rmcp_msg}
use ipmigod.World.{World, Env}
use ipmigod.Storage.Sdr.{add_sdr, is_sensor}
use ipmigod.Storage.Sdr.Contents.{update_first, find_record}
use ipmigod.Storage.Sdr.Refines.{Holds, Refines, add_spec, new_record, add_sdr-Refines}
use ipmigod.Server.{map_get, dispatch, ipmi_parse_msg, ipmi_handle_msg}
use ipmigod.Client.{ClientContext, client_msg, add_sdr_build_msg, rq_part}
use ipmigod.Client.RoundTrip.{client_build_msg-whole, head}
use ipmigod.Controller.Poll.{with_value}

modify-append :
    (xs ys : Bytes) (i : ℕ) (f : ℕ → ℕ)
    → i < length xs
    → modify (xs ++ ys) i f ≡ modify xs i f ++ ys
modify-append [] ys i f h = absurd (omega arith)
modify-append (x ∷ xs) ys zero f h = refl
modify-append (x ∷ xs) ys (suc i) f h = ap (λ zs. x ∷ zs) (modify-append xs ys i f (omega arith))

get_or-modify_self :
    (xs ys : Bytes) (i v : ℕ) → i < length xs → get_or (modify xs i (λ _. v) ++ ys) i 0 ≡ v
get_or-modify_self [] ys i v h = absurd (omega arith)
get_or-modify_self (x ∷ xs) ys zero v h = refl
get_or-modify_self (x ∷ xs) ys (suc i) v h = get_or-modify_self xs ys i v (omega arith)

get_or-modify_before :
    (xs ys : Bytes) (i j v : ℕ)
    → j < i
    → i < length xs
    → get_or (modify xs i (λ _. v) ++ ys) j 0 ≡ get_or xs j 0
get_or-modify_before [] ys i j v lo h = absurd (omega arith)
get_or-modify_before (x ∷ xs) ys zero j v lo h = absurd (omega arith)
get_or-modify_before (x ∷ xs) ys (suc i) zero v lo h = refl
get_or-modify_before (x ∷ xs) ys (suc i) (suc j) v lo h =
    get_or-modify_before xs ys i j v (omega arith) (omega arith)

-- A request to add a record, around a payload and any last byte.
abbrev frame : ClientContext → Bytes → ℕ → Bytes
frame ctx payload checksum =
    head 70 ctx.session_seq ctx.session_id 0 storage_netfn 0 ctx.rq_seq add_sdr_cmd
    ++ (payload ++ (checksum ∷ []))

with_value-frame :
    (bytes : Bytes) (value : ℕ) (ctx : ClientContext)
    → length bytes ≡ 64
    → (checksum : ℕ) × (with_value value (add_sdr_build_msg bytes ctx).0
        ≡ frame ctx (modify bytes 46 (λ _. value)) checksum)
unfolding add_sdr_build_msg client_msg
with_value-frame bytes value ctx e =
    let c = ipmi_checksum bytes (neg8 (ipmi_checksum (rq_part 0 ctx.rq_seq add_sdr_cmd) 0)) in
    (
      c,
      rw
          (client_build_msg-whole bytes 70 ctx.session_seq ctx.session_id 0 storage_netfn 0
            ctx.rq_seq add_sdr_cmd (omega (arith, e)))
          (ap
            (λ payload.
              head 70 ctx.session_seq ctx.session_id 0 storage_netfn 0 ctx.rq_seq add_sdr_cmd
              ++ payload)
            (modify-append bytes (c ∷ []) 46 (λ _. value) (omega (arith, e)))),
    )

-- The repository behind a reading of a sensor.
abbrev pub with_reading : ℕ → ℕ → ℕ → List Sdr → List Sdr
with_reading lun num value rs =
    if value == 0 then rs else update_first (is_sensor lun num) (λ r. record r { value = value }) rs

add_spec-with_reading :
    (msg : Msg) (new : Outcome Sdr) (rs : List Sdr) (lun num value : ℕ) (r : Sdr)
    → byte msg (msg.data_start + 6) ≡ lun
    → byte msg (msg.data_start + 7) ≡ num
    → byte msg (msg.data_start + 46) ≡ value
    → find_record (is_sensor lun num) rs ≡ some r
    → add_spec msg new rs ≡ ok (with_reading lun num value rs)
add_spec-with_reading msg new rs lun num value r l n v found =
    let lun' = byte msg (msg.data_start + 6) in
    let found' : find_record (is_sensor lun' (byte msg (msg.data_start + 7))) rs ≡ some r =
      subst (λ n. find_record (is_sensor lun' n) rs ≡ some r) (sym n)
        (subst (λ l. find_record (is_sensor l num) rs ≡ some r) (sym l) found) in
    elim (Bool-cases (value == 0)) [
      | inl is_zero ↦ rw (v, is_zero, found')
      | inr other ↦ rw (l, n, v, other)
    ]

-- The message that the server parses from a frame, and what it does with it.
abbrev parsed : ClientContext → Bytes → World → Msg
parsed ctx bytes w = (ipmi_parse_msg (record (new_msg bytes 85) { channel = w.lan.chan_num }) w).0

ipmi_handle_msg-frame :
    (env : Env) (ctx : ClientContext) (payload : Bytes) (checksum : ℕ) (w : World)
    → ipmi_handle_msg env (new_msg (frame ctx payload checksum) 85) w
      ≡ add_sdr env (parsed ctx (frame ctx payload checksum) w) w
unfolding ipmi_handle_msg dispatch map_get ipmi_parse_msg ipmi_parse_rmcp_msg load_hdr load_session
    load_message
ipmi_handle_msg-frame env ctx payload checksum w = refl

-- A reading that `pollSensors` of a line card sends with a record of 64 bytes, for a sensor that has a record in
-- the MM card's repository, is handled by the MM card's server without a panic, and its repository then is
-- `with_reading` of what it was: for a reading other than 0 the sensor's first record gets the value and no other
-- changes, and for a reading of 0 the records stay as they are.
pub ipmi_handle_msg-with_reading :
    (env : Env) (bytes : Bytes) (value : ℕ) (ctx : ClientContext) (rs : List Sdr) (r : Sdr)
    (w : World)
    → length bytes ≡ 64
    → find_record (is_sensor (get_or bytes 6 0) (get_or bytes 7 0)) rs ≡ some r
    → Holds w rs
    → Refines Holds
        (ipmi_handle_msg env (new_msg (with_value value (add_sdr_build_msg bytes ctx).0) 85) w)
        (ok (with_reading (get_or bytes 6 0) (get_or bytes 7 0) value rs))
unfolding ipmi_parse_msg ipmi_parse_rmcp_msg load_hdr load_session load_message
ipmi_handle_msg-with_reading env bytes value ctx rs r w e found h =
    let (c, framed) = with_value-frame bytes value ctx e in
    let msg = parsed ctx (frame ctx (modify bytes 46 (λ _. value)) c) w in
    let spec =
      add_spec-with_reading msg (new_record msg w) rs (get_or bytes 6 0) (get_or bytes 7 0) value r
        (get_or-modify_before bytes (c ∷ []) 46 6 value (omega arith) (omega (arith, e)))
        (get_or-modify_before bytes (c ∷ []) 46 7 value (omega arith) (omega (arith, e)))
        (get_or-modify_self bytes (c ∷ []) 46 value (omega (arith, e))) found in
    rw (framed, ipmi_handle_msg-frame env ctx (modify bytes 46 (λ _. value)) c w)
      (subst (Refines Holds (add_sdr env msg w)) spec (add_sdr-Refines env msg rs w h))

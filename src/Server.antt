-- ===== src/Server.antt =====
-- ipmi_proto.go: a datagram on its way through the server (`ipmiHandleMsg`, `ipmiParseMsg`, `asfPing`
-- and the dispatch by network function and command).
pub mod Tables
pub mod Unread
pub mod Parse
pub mod Handlers
pub mod Safety
pub mod Boot
pub mod Replies
pub mod Entries
pub mod Faults
pub mod Authorized
use ipmigod.Base.{
  ℕ, ◌+◌, ◌*◌, ◌%◌, ◌^◌, ltb, ◌==◌, if◌then◌else◌, Bool, not, Option, none, some, List, [], ◌∷◌,
  ◌++◌, replicate, Outcome, ok, panic, ◌>>=◌,
}
use ipmigod.Protodefs.{
  chassis_netfn, bridge_netfn, sensor_event_netfn, app_netfn, firmware_netfn, storage_netfn,
  transport_netfn, group_extension_netfn, oem_group_netfn, authtype_rmcp_plus,
}
use ipmigod.Wire.{Bytes, put_uint32, uint32_at}
use ipmigod.Message.{Msg, byte, new_msg, ipmi_parse_rmcp_msg}
use ipmigod.World.{World, Env, Handler}
use Tables.{chassis_processors, sensor_processors, app_processors, storage_processors}

-- A read of a Go map by its key.
unfoldable pub map_get : ℕ → List (ℕ × Handler) → Option Handler
map_get key [] = none
map_get key ((k, h) ∷ m) = if k == key then some h else map_get key m

-- A call of the function found: a key that is missing gives nil, and the call panics.
abbrev pub call : Option Handler → Handler
call none env msg w = panic
call (some h) env msg w = h env msg w

abbrev pub chassis_netfn_processor : Handler
chassis_netfn_processor env msg w = call (map_get msg.rmcp.message.cmd chassis_processors) env msg w

abbrev pub sensor_event_netfn_processor : Handler
sensor_event_netfn_processor env msg w =
    call (map_get msg.rmcp.message.cmd sensor_processors) env msg w

abbrev pub app_netfn_processor : Handler
app_netfn_processor env msg w = call (map_get msg.rmcp.message.cmd app_processors) env msg w

abbrev pub storage_netfn_processor : Handler
storage_netfn_processor env msg w = call (map_get msg.rmcp.message.cmd storage_processors) env msg w

-- `bridgeNetfn`, `firmwareNetfn`, `transportNetfn`, `groupExtensionNetfn` and `oemGroupNetfn` print.
abbrev pub netfn_unsupported : Handler
netfn_unsupported env msg w = ok w

abbrev pub netfunc_processors : List (ℕ × Handler)
netfunc_processors =
    (chassis_netfn, chassis_netfn_processor)
    ∷ (bridge_netfn, netfn_unsupported)
    ∷ (sensor_event_netfn, sensor_event_netfn_processor)
    ∷ (app_netfn, app_netfn_processor)
    ∷ (firmware_netfn, netfn_unsupported)
    ∷ (storage_netfn, storage_netfn_processor)
    ∷ (transport_netfn, netfn_unsupported)
    ∷ (group_extension_netfn, netfn_unsupported)
    ∷ (oem_group_netfn, netfn_unsupported)
    ∷ []

abbrev pub asf_iana : ℕ
asf_iana = 4542

-- The presence pong.
abbrev pub pong : ℕ → Bytes
pong tag =
    (6 ∷ 0 ∷ 0xff ∷ 6 ∷ [])
    ++ (put_uint32 asf_iana
        ++ ((0x40 ∷ tag ∷ 0 ∷ 16 ∷ [])
            ++ (put_uint32 asf_iana ++ (put_uint32 0 ++ (0x81 ∷ replicate 7 0)))))

-- `asfPing`.
unfoldable pub asf_ping : Msg → World → World
asf_ping msg w =
    if ltb msg.data_len 12
    then w
    else if not (uint32_at msg.bytes (msg.data_start + 4) == asf_iana)
    then w
    else if not (byte msg (msg.data_start + 8) == 0x80)
    then w
    else record w { sent = pong (byte msg (msg.data_start + 9)) ∷ w.sent }

-- `ipmiParseMsg`: a ping is answered here, and an RMCP+ message or another class is not parsed.
unfoldable pub ipmi_parse_msg : Msg → World → Msg × World
ipmi_parse_msg msg w =
    if byte msg (msg.data_start + 3) == 6
    then (msg, asf_ping msg w)
    else if byte msg (msg.data_start + 3) == 7
    then if byte msg (msg.data_start + 4) == authtype_rmcp_plus
      then (msg, w)
      else (ipmi_parse_rmcp_msg msg, w)
    else (msg, w)

-- The dispatch of `ipmiHandleMsg`.
unfoldable pub dispatch : Handler
dispatch env msg w =
    if msg.authtype == authtype_rmcp_plus
    then ok w
    else call (map_get msg.rmcp.message.netfn netfunc_processors) env msg w

-- `ipmiHandleMsg`.
unfoldable pub ipmi_handle_msg : Handler
ipmi_handle_msg env msg w =
    if ltb msg.data_len 5
    then ok w
    else let parsed = ipmi_parse_msg (record msg { channel = w.lan.chan_num }) w in
      dispatch env parsed.0 parsed.1

-- The main loop of `Ipmigod` on a sequence of datagrams, each with what its handler takes from
-- outside: a panic ends the program.
unfoldable pub serve : List (Env × Bytes × ℕ) → World → Outcome World
serve [] w = ok w
serve ((env, bytes, n) ∷ rest) w = ipmi_handle_msg env (new_msg bytes n) w >>= serve rest

-- ===== src/App/Guards.antt =====
-- Guards that several handlers of ipmi_internal_app.go share.
use ipmigod.Base.{ℕ, ◌==◌, Bool, not, ◌&&◌, bit_and}
use ipmigod.Protodefs.{authtype_none}
use ipmigod.Wire.{shl}
use ipmigod.Lanserv.{User}
use ipmigod.Message.{Msg}

-- The guard "no session only allowed with authtype_none", where the handler returns.
abbrev pub refuses_no_session : Msg → Bool
refuses_no_session msg =
    msg.rmcp.session.sid == 0 && not (msg.rmcp.session.auth_type == authtype_none)

-- `(user.allowedAuths & (1 << auth)) == 0`, on uint16.
abbrev pub lacks_auth : User → ℕ → Bool
lacks_auth user auth = bit_and user.allowed_auths (shl 16 1 auth) == 0

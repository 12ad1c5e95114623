-- ===== src/Client/Run.antt =====
-- `ipmiEstablishSession` of ipmi_client.go on the server as it starts.
use ipmigod.Base.{ℕ, ◌≡◌, refl, Bool, Outcome, ap, ◌∙◌, ok, panic, stuck, Option, none, some, ◌>>=◌}
use ipmigod.Bmc.{Sel, Sdrs}
use ipmigod.World.{World, Env}
use ipmigod.Client.Handshake.{
  server, ipmi_req_rsp, try_req_rsp, ipmi_establish_session, state_table,
}
use ipmigod.Client.Handshake.Retries.{FirstTries, NeverThrice, refusing, establish-refusing}
use ipmigod.Client.{
  ClientContext, client_basic_msg_check, client_msg, client_build_msg, gcac_build_msg,
  gcac_parse_rsp, gsc_build_msg, gsc_parse_rsp, as_build_msg, as_parse_rsp, ssp_build_msg,
  ssp_parse_rsp, is_good_rsp,
}
use ipmigod.Server.{dispatch, ipmi_parse_msg, map_get, ipmi_handle_msg}
use ipmigod.Message.{ipmi_parse_rmcp_msg, load_hdr, load_session, load_message}
use ipmigod.App.Challenge.{
  get_channel_auth_capabilities, channel_auth_reply, get_session_challenge, challenge_user,
  challenge_sid, is_authval_null,
}
use ipmigod.App.Activate.{
  activate_session, activate_new, activate_user, open_session, opened, open_slot, session_sid,
}
use ipmigod.App.Control.{set_session_privilege, change_privilege}
use ipmigod.Wire.{uint32_at, ipmi_checksum, checksum_loop}
use ipmigod.Lanserv.Init.{ipmi_lan_init, number_from_one, number_sessions}
use ipmigod.World.{
  return_rsp_data, return_err, return_rsp, reply_session, resolve, send_packet, session_header,
  message_layer, return_packet, bump_xmit_seq, update_ref,
}
use ipmigod.Server.Boot.{boot}
use ipmigod.Lanserv.{
  Session, bytes_eq, find_user_loop, find_user, check_session, sid_to_session, find_free_loop,
  find_free_session,
}

-- The privilege level of the session that a search found.
abbrev pub session_priv : Option (ℕ × Session) → Option ℕ
session_priv none = none
session_priv (some (i, s)) = some s.priv

-- What a handshake comes to: the privilege level that the client was told, and the one of the session
-- that its session id leads the server to.
abbrev pub result : ClientContext × Outcome World → ℕ × Option ℕ
result (ctx, ok w) = (ctx.priv_level, session_priv (sid_to_session w.lan ctx.session_id))
result (ctx, panic) = (ctx.priv_level, none)
result (ctx, stuck) = (ctx.priv_level, none)

-- The server at the start, with any event log and any repository.
abbrev pub booted : ℕ → Sel → Sdrs → Outcome World
booted card sel sdrs = ok (record (boot card) { sel = sel; main_sdrs = sdrs })

-- The result does not depend on the number of requests.
>>=-delivered :
    (m : Outcome (ClientContext × (ℕ × Outcome World)))
    → (m >>= λ r. ok (result (r.0, r.1.1))) ≡ (m >>= (λ r. ok (r.0, r.1.1)) >>= λ r. ok (result r))
>>=-delivered (ok r) = refl
>>=-delivered panic = refl
>>=-delivered stuck = refl

module _ (env : Env) (ctx : ClientContext) (card : ℕ) (sel : Sel) (sdrs : Sdrs) where
  -- In front of the server as it starts, the client's handshake ends with an open session at the
  -- privilege level operator (3) on both sides, whatever the time and the random number are, what the
  -- client's context holds, and what the event log and the SDR repository hold.
  pub ipmi_establish_session-boot :
      (ipmi_establish_session (server env) state_table ctx (booted card sel sdrs) >>= λ r.
      ok (result r))
      ≡ ok (3, some 3)
  unfolding FirstTries ipmi_req_rsp try_req_rsp server ipmi_establish_session client_basic_msg_check
      client_msg client_build_msg gcac_build_msg gcac_parse_rsp gsc_build_msg gsc_parse_rsp
      as_build_msg as_parse_rsp ssp_build_msg ssp_parse_rsp is_good_rsp dispatch ipmi_parse_msg
      map_get ipmi_handle_msg ipmi_parse_rmcp_msg load_hdr load_session load_message
      get_channel_auth_capabilities channel_auth_reply get_session_challenge challenge_user
      challenge_sid is_authval_null activate_session activate_new activate_user open_session opened
      open_slot session_sid set_session_privilege change_privilege uint32_at ipmi_checksum
      checksum_loop ipmi_lan_init number_from_one number_sessions return_rsp_data return_err
      return_rsp reply_session resolve send_packet session_header message_layer return_packet
      bump_xmit_seq update_ref boot bytes_eq find_user_loop find_user check_session sid_to_session
      find_free_loop find_free_session
  ipmi_establish_session-boot = refl

  -- Each of the four exchanges succeeds at the first try.
  pub boot-FirstTries : FirstTries (server env) state_table ctx (booted card sel sdrs)
  unfolding FirstTries ipmi_req_rsp try_req_rsp server ipmi_establish_session client_basic_msg_check
      client_msg client_build_msg gcac_build_msg gcac_parse_rsp gsc_build_msg gsc_parse_rsp
      as_build_msg as_parse_rsp ssp_build_msg ssp_parse_rsp is_good_rsp dispatch ipmi_parse_msg
      map_get ipmi_handle_msg ipmi_parse_rmcp_msg load_hdr load_session load_message
      get_channel_auth_capabilities channel_auth_reply get_session_challenge challenge_user
      challenge_sid is_authval_null activate_session activate_new activate_user open_session opened
      open_slot session_sid set_session_privilege change_privilege uint32_at ipmi_checksum
      checksum_loop ipmi_lan_init number_from_one number_sessions return_rsp_data return_err
      return_rsp reply_session resolve send_packet session_header message_layer return_packet
      bump_xmit_seq update_ref boot bytes_eq find_user_loop find_user check_session sid_to_session
      find_free_loop find_free_session
  boot-FirstTries = (refl, (refl, (refl, (refl, tt))))

  -- The handshake with the server as it starts ends with an open session at the privilege level operator
  -- (3) on both sides also over a connection on which writes return errors, as long as three in a row never do:
  -- no exchange is left waiting for a reply.
  pub ipmi_establish_session-refusing_boot :
      (refuses : ℕ → Bool)
      → NeverThrice refuses
      → (ipmi_establish_session
            (refusing refuses (server env))
            state_table
            ctx
            (0, booted card sel sdrs)
          >>= λ r. ok (result (r.0, r.1.1)))
        ≡ ok (3, some 3)
  ipmi_establish_session-refusing_boot refuses seldom =
      let e =
        establish-refusing refuses (server env) seldom state_table ctx 0 (booted card sel sdrs)
          boot-FirstTries in
      >>=-delivered (
        ipmi_establish_session (refusing refuses (server env)) state_table ctx
          (0, booted card sel sdrs))
      ∙ (ap (λ m. m >>= (λ r. ok (result r))) e ∙ ipmi_establish_session-boot)

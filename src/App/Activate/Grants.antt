-- ===== src/App/Activate/Grants.antt =====
-- When `activateSession` of ipmi_internal_app.go opens a session, and the server behind it.
use ipmigod.Base.{
  ℕ, ◌+◌, ◌≤◌, ◌<◌, ◌≡◌, ◌≢◌, refl, true, false, ◌==◌, some, ◌∷◌, get_elem?, get_elem?-modify,
  if◌then◌else◌, ok, bit_or, arith,
}
use ipmigod.Wire.{Bytes, uint32_at, shr, low_bits}
use ipmigod.Lanserv.{User, Session, max_sessions, sid_to_session, find_free_session}
use ipmigod.Lanserv.Table.{IsValid}
use ipmigod.Lanserv.Lookup.{find_free_session-inactive, find_free_session-IsSome}
use ipmigod.Message.{Msg, byte}
use ipmigod.World.{World, Env, local, return_packet, return_rsp_data}
use ipmigod.World.Frame.{return_rsp-local}
use ipmigod.App.Guards.{lacks_auth}
use ipmigod.App.Activate.{
  opened, open_slot, open_session, activation_data, temporary_session, activate_user, activate_new,
  activate_session,
}
use ipmigod.App.Activate.Opened.{sid_to_session-opened}

-- What the request asks for.
abbrev pub asked_auth : Msg → ℕ
asked_auth msg = low_bits (byte msg msg.data_start) 4

abbrev pub asked_priv : Msg → ℕ
asked_priv msg = low_bits (byte msg (msg.data_start + 1)) 4

abbrev pub asked_seq : Msg → ℕ
asked_seq msg = uint32_at msg.bytes (msg.data_start + 18)

-- A request under a temporary id that `activateSession` grants to a user of the table.
pub record IsGranted (msg : Msg) (user : User) (w : World) : Type 0 where
  pub long_enough : 22 ≤ msg.data_len
  pub same_sid : msg.rmcp.session.sid ≡ msg.sid
  pub temporary : low_bits msg.sid 1 ≡ 1
  pub named : 0 < low_bits (shr msg.sid 1) 6
  pub known : get_elem? w.lan.users (low_bits (shr msg.sid 1) 6) ≡ some user
  pub valid : user.valid ≡ true
  pub may_auth : lacks_auth user (asked_auth msg) ≡ false
  pub may_send : lacks_auth user msg.authtype ≡ false
  pub room : w.lan.active_sessions < max_sessions
  pub seq_nonzero : asked_seq msg ≢ 0
  pub privileged : user.privilege ≢ 0xf
  pub priv_allowed : asked_priv msg ≤ user.max_priv

-- The new session, made from the free one.
abbrev pub new_session : Env → Msg → User → World → Session → Session
new_session env msg user w = opened env w.lan user (asked_auth msg) (asked_seq msg) (asked_priv msg)

-- The reply to a granted request, sent under the temporary session.
abbrev pub grant_packet : Msg → Session → Bytes
grant_packet msg s = return_packet msg (temporary_session msg (asked_seq msg)) (record {
  netfn = bit_or msg.rmcp.message.netfn 1;
  cmd = msg.rmcp.message.cmd;
  bytes = activation_data s;
})

-- The server behind a granted request.
abbrev pub granted : Env → Msg → User → World → ℕ → Session → World
granted env msg user w i s = record w {
  lan = open_slot w.lan i (new_session env msg user w);
  sent = grant_packet msg (new_session env msg user w s) ∷ w.sent;
}

module _ (env : Env) (msg : Msg) (user : User) (w : World) (g : IsGranted msg user w) where
  open_session-granted :
      (i : ℕ) (s : Session)
      → get_elem? w.lan.sessions i ≡ some s
      → open_session env msg
          (local (temporary_session msg (asked_seq msg)))
          user
          (asked_auth msg)
          (asked_seq msg)
          (asked_priv msg)
          i
          w
        ≡ ok (granted env msg user w i s)
  unfolding open_session return_rsp_data
  open_session-granted i s at = rw at (
      return_rsp-local _ msg (temporary_session msg (asked_seq msg)) _ (omega (arith, g.temporary))
        refl (omega arith))

  activate_user-granted :
      (i : ℕ) (s : Session)
      → find_free_session w.lan ≡ some i
      → get_elem? w.lan.sessions i ≡ some s
      → activate_user env msg user (asked_auth msg) w ≡ ok (granted env msg user w i s)
  unfolding activate_user
  activate_user-granted i s free at = ground (arith, open_session-granted i s at)

  activate_session-granted :
      (i : ℕ) (s : Session)
      → find_free_session w.lan ≡ some i
      → get_elem? w.lan.sessions i ≡ some s
      → activate_session env msg w ≡ ok (granted env msg user w i s)
  unfolding activate_session activate_new
  activate_session-granted i s free at = ground (arith, activate_user-granted i s free at)

  -- On well-formed tables `activateSession` answers a granted request, and does not panic: it opens a
  -- session that was not active, answers under the temporary session, and leaves the others as they
  -- are; the new session's id then leads to the new session.
  pub activate_session-opens :
      IsValid w.lan
      → (i : ℕ) × (s : Session) × (get_elem? w.lan.sessions i ≡ some s)
        × (s.active ≡ false)
        × (activate_session env msg w ≡ ok (granted env msg user w i s))
        × (sid_to_session (granted env msg user w i s).lan (new_session env msg user w s).sid
            ≡ some (i, new_session env msg user w s))
        × ((j : ℕ)
            → get_elem? (granted env msg user w i s).lan.sessions j ≡ (
                if i == j then some (new_session env msg user w s) else get_elem? w.lan.sessions j))
  activate_session-opens v =
      let (i, free) = find_free_session-IsSome w.lan v g.room in
      let (_, (s, at, idle)) = find_free_session-inactive w.lan i free in
      (
        i,
        s,
        at,
        idle,
        activate_session-granted i s free at,
        sid_to_session-opened env w.lan user (asked_auth msg) (asked_seq msg) (asked_priv msg) i v
            free s at,
        λ j. unfold open_slot in get_elem?-modify w.lan.sessions i j _ s at,
      )

-- ===== src/App/Activate/Opened.antt =====
-- The session that an activation of ipmi_internal_app.go opens, its id and its slot.
use ipmigod.Base.{
  ℕ, ◌≤◌, ◌<◌, ◌≡◌, refl, inr, some, get_elem?, get_elem?-modify_self, length-modify,
  lt-length_of_get_elem?, arith,
}
use ipmigod.Wire.Fields.{two_fields}
use ipmigod.Lanserv.{User, Session, LanServ, max_sessions, sid_to_session, find_free_session}
use ipmigod.Lanserv.Table.{
  IsValid, Names, SlotIsValid, SlotsAreValid-get_elem?, modify-SlotsAreValid,
  count_active-modify_open,
}
use ipmigod.Lanserv.Lookup.{find_free_session-inactive, sid_to_session_iff}
use ipmigod.World.{Env}
use ipmigod.App.Activate.{session_sid, opened, open_slot, usable_sid_seq}

-- An activation's session id names the slot of the handle that it is made from.
pub session_sid-Names : (n i : ℕ) → i ≤ max_sessions → Names (session_sid n i) i
unfolding session_sid
session_sid-Names n i h = omega (arith, two_fields n i (omega arith))

module _ (env : Env) (lan : LanServ) (user : User) (auth xmit_seq max_priv : ℕ) where
  opened-SlotIsValid :
      (t : Session) (j : ℕ)
      → 0 < j
      → j ≤ max_sessions
      → t.handle ≡ j
      → SlotIsValid j (opened env lan user auth xmit_seq max_priv t)
  unfolding opened
  opened-SlotIsValid t j pos small e =
      (e, refl, inr (pos, rw e (session_sid-Names (usable_sid_seq lan.sid_seq) j small)))

  module _ (i : ℕ) (v : IsValid lan) (free : find_free_session lan ≡ some i) where
    free_slot_bounds : (0 < i) × (i ≤ max_sessions)
    free_slot_bounds =
        let (pos, (s, at, idle)) = find_free_session-inactive lan i free in
        (pos, omega (arith, lt-length_of_get_elem? lan.sessions i s at))

    -- The table stays well-formed when the free session is opened.
    pub open_slot-IsValid :
        lan.active_sessions < max_sessions
        → IsValid (open_slot lan i (opened env lan user auth xmit_seq max_priv))
    unfolding open_slot
    open_slot-IsValid room =
        let (pos, (s, at, idle)) = find_free_session-inactive lan i free in
        let (_, small) = free_slot_bounds in
        let f = opened env lan user auth xmit_seq max_priv in
        record {
          session_slots = omega (arith, length-modify lan.sessions i f);
          user_slots = v.user_slots;
          counted =
              omega (
                arith,
                count_active-modify_open lan.sessions i f s at idle (unfold opened in refl),
              );
          placed =
              modify-SlotsAreValid lan.sessions 0 i i f (omega arith)
                (λ t h. opened-SlotIsValid t i pos small h.0) v.placed;
        }

    -- The id of the opened session leads to it.
    pub sid_to_session-opened :
        (s : Session)
        → get_elem? lan.sessions i ≡ some s
        → let s' = opened env lan user auth xmit_seq max_priv s in
          sid_to_session (open_slot lan i (opened env lan user auth xmit_seq max_priv)) s'.sid
          ≡ some (i, s')
    unfolding open_slot
    sid_to_session-opened s at =
        let (pos, small) = free_slot_bounds in
        let f = opened env lan user auth xmit_seq max_priv in
        let handle : s.handle ≡ i =
          omega (arith, (SlotsAreValid-get_elem? lan.sessions 0 i s v.placed at).0) in
        (sid_to_session_iff (open_slot lan i f) (f s).sid i (f s)).1 (
          unfold opened in rw handle (session_sid-Names (usable_sid_seq lan.sid_seq) i small),
          small,
          get_elem?-modify_self lan.sessions i f s at,
          unfold opened in refl,
          refl,
        )

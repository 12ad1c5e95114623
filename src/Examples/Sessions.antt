-- ===== src/Examples/Sessions.antt =====
-- The session theorems at concrete servers and messages.
use ipmigod.Base.{
  ℕ, ◌≡◌, refl, inl, false, some, [], ◌∷◌, get_elem?, if◌then◌else◌, ◌==◌, ok, Returns, arith,
}
use ipmigod.Wire.{uint32_at}
use ipmigod.Lanserv.{Session, sid_to_session, check_session, find_free_session, find_free_loop}
use ipmigod.Lanserv.Table.{IsValid}
use ipmigod.Lanserv.Init.{ipmi_lan_init, number_from_one, number_sessions}
use ipmigod.Lanserv.Lookup.{find_free_session-IsSome}
use ipmigod.Wire.{Bytes}
use ipmigod.Message.{new_msg}
use ipmigod.Base.{Safe}
use ipmigod.Storage.Validity.{ServerIsValid}
use ipmigod.App.Step.{Authorized}
use ipmigod.Server.{ipmi_handle_msg}
use ipmigod.Server.Boot.{boot-ServerIsValid}
use ipmigod.Server.Faults.{parsed}
use ipmigod.Server.Authorized.{ipmi_handle_msg-Authorized}
use ipmigod.App.Activate.{opened, open_slot, session_sid, activate_session}
use ipmigod.App.Activate.Opened.{open_slot-IsValid}
use ipmigod.App.Activate.Grants.{IsGranted, granted, new_session, activate_session-opens}
use ipmigod.App.Control.{set_session_privilege, close_session}
use ipmigod.App.Control.Privilege.{HasPrivilege, KeepsOrAllowed, set_session_privilege-allowed}
use ipmigod.App.Control.Close.{SameActivity, IsClosed, close_session-refuses, close_session-closes}
use ipmigod.App.Invariant.{TablesAreValid, activate_session-keeps}
use ipmigod.Server.Boot.{boot, ipmi_lan_init-IsValid}
use ipmigod.Examples.{env0, ipmiusr_user, lan0, session1, world1, message, activation, closing}

world1-IsValid : IsValid world1.lan
unfolding boot ipmi_lan_init number_from_one number_sessions find_free_session find_free_loop
world1-IsValid =
    open_slot-IsValid env0 lan0 ipmiusr_user 0 5 3 1 ipmi_lan_init-IsValid refl (omega arith)

session1_open : sid_to_session world1.lan 130 ≡ some (1, session1)
unfolding boot ipmi_lan_init number_from_one number_sessions sid_to_session check_session open_slot
    opened session_sid
session1_open = refl

boot0-IsValid : IsValid (boot 0).lan
unfolding boot
boot0-IsValid = ipmi_lan_init-IsValid

activation-IsGranted : IsGranted activation ipmiusr_user (boot 0)
unfolding boot ipmi_lan_init number_from_one number_sessions uint32_at
activation-IsGranted = record {
  long_enough = omega arith;
  same_sid = refl;
  temporary = refl;
  named = omega arith;
  known = refl;
  valid = refl;
  may_auth = refl;
  may_send = refl;
  room = omega arith;
  seq_nonzero = omega arith;
  privileged = omega arith;
  priv_allowed = omega arith;
}

activate_session-opens_example :
    (i : ℕ) × (s : Session) × (get_elem? (boot 0).lan.sessions i ≡ some s)
    × (s.active ≡ false)
    × (activate_session env0 activation (boot 0)
        ≡ ok (granted env0 activation ipmiusr_user (boot 0) i s))
    × (sid_to_session
          (granted env0 activation ipmiusr_user (boot 0) i s).lan
          (new_session env0 activation ipmiusr_user (boot 0) s).sid
        ≡ some (i, new_session env0 activation ipmiusr_user (boot 0) s))
    × ((j : ℕ)
        → get_elem? (granted env0 activation ipmiusr_user (boot 0) i s).lan.sessions j ≡ (
            if i == j
            then some (new_session env0 activation ipmiusr_user (boot 0) s)
            else get_elem? (boot 0).lan.sessions j))
activate_session-opens_example =
    activate_session-opens env0 activation ipmiusr_user (boot 0) activation-IsGranted boot0-IsValid

activate_session-keeps_example : Returns TablesAreValid (activate_session env0 activation (boot 0))
activate_session-keeps_example = activate_session-keeps env0 activation (boot 0) boot0-IsValid

set_session_privilege-allowed_example :
    Returns
      (HasPrivilege (KeepsOrAllowed session1) 1 session1.max_priv)
      (set_session_privilege env0 (message 130 (3 ∷ [])) world1)
set_session_privilege-allowed_example =
    set_session_privilege-allowed env0 (message 130 (3 ∷ [])) world1 1 session1 session1_open

close_session-refuses_example :
    Returns (SameActivity world1) (close_session env0 (message 130 (4 ∷ [])) world1)
unfolding opened uint32_at session_sid ipmi_lan_init
close_session-refuses_example =
    close_session-refuses env0 (message 130 (4 ∷ [])) world1 1 session1 session1_open (omega arith)
      (omega arith)

asked130 : uint32_at closing.bytes closing.data_start ≡ 130
unfolding uint32_at
asked130 = refl

close_session-closes_example :
    Returns (IsClosed 130 world1.lan.active_sessions) (close_session env0 closing world1)
unfolding uint32_at
close_session-closes_example =
    close_session-closes env0 closing world1 (1, session1) (1, session1) world1-IsValid
      (omega arith) session1_open session1_open (inl refl)

find_free_session-IsSome_example : (i : ℕ) × (find_free_session world1.lan ≡ some i)
unfolding boot ipmi_lan_init open_slot
find_free_session-IsSome_example = find_free_session-IsSome world1.lan world1-IsValid (omega arith)

world1-ServerIsValid : ServerIsValid world1
world1-ServerIsValid = record {
  tables = world1-IsValid;
  log = (boot-ServerIsValid 0).log;
  repository = (boot-ServerIsValid 0).repository;
}

-- A request in session 130 to close it.
abbrev close_request : Bytes
close_request =
    6 ∷ 0 ∷ 0xff ∷ 7 ∷ 0 ∷ 0 ∷ 0 ∷ 0 ∷ 0 ∷ 130 ∷ 0 ∷ 0 ∷ 0 ∷ 11 ∷ 0x20 ∷ 0x18 ∷ 0xc8 ∷ 0x81 ∷ 4
    ∷ 0x3c ∷ 130 ∷ 0 ∷ 0 ∷ 0 ∷ 0 ∷ []

ipmi_handle_msg-Authorized_example :
    Safe
      (λ u. ServerIsValid u × Authorized world1 (parsed close_request 25 world1).0 u)
      (ipmi_handle_msg env0 (new_msg close_request 25) world1)
ipmi_handle_msg-Authorized_example =
    ipmi_handle_msg-Authorized env0 close_request 25 world1 world1-ServerIsValid

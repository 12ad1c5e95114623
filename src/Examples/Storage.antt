-- ===== src/Examples/Storage.antt =====
-- The storage theorems at concrete logs and repositories, and the server's at concrete datagrams.
use ipmigod.Base.{
  List, Returns, ℕ, ◌≡◌, Bool, ◌==◌, none, some, [], ◌∷◌, replicate, ok, Returns, Safe, arith,
}
use ipmigod.Wire.{Bytes}
use ipmigod.Storage.Sel.ReadAll.{LogEvent, read_log, entries_from, add_all, read_log-add_all}
use ipmigod.Bmc.{Sdr, Sel, Added, add_to_sel, sel_event, append_event, find_sel_event_by_recid}
use ipmigod.Bmc.EventLog.{EventLogIsValid, with_event, add_to_sel-stores, add_to_sel-total}
use ipmigod.Message.{new_msg}
use ipmigod.Storage.Sel.{erase_sel, select_entry}
use ipmigod.Storage.Sel.Clear.{add_to_sel-erase_sel}
use ipmigod.Storage.Sel.Read.{select_entry-add_to_sel}
use ipmigod.Storage.Validity.{ServerIsValid}
use ipmigod.Server.{ipmi_handle_msg}
use ipmigod.Server.Replies.{AtMostOne}
use ipmigod.Server.Replies.Once.{ipmi_handle_msg-AtMostOne}
use ipmigod.Server.Boot.{init_sel, boot, boot-ServerIsValid}
use ipmigod.Examples.{env0}

init_sel-EventLogIsValid : EventLogIsValid init_sel
unfolding boot
init_sel-EventLogIsValid = (boot-ServerIsValid 0).log

abbrev payload : Bytes
payload = replicate 13 1

-- A log with one event.
abbrev sel1 : Sel
sel1 = with_event init_sel 7 2 payload

sel1-EventLogIsValid : EventLogIsValid sel1
sel1-EventLogIsValid =
    (add_to_sel-stores init_sel 7 2 payload init_sel-EventLogIsValid (omega arith)).1

add_to_sel-stores_example :
    (add_to_sel sel1 8 2 payload
      ≡ ok (record { err = 0; record_id = 2; sel = with_event sel1 8 2 payload }))
    × EventLogIsValid (with_event sel1 8 2 payload)
    × (find_sel_event_by_recid 2 sel1.entries ≡ none)
    × (find_sel_event_by_recid 2 (with_event sel1 8 2 payload).entries
        ≡ some (record { record_id = 2; bytes = sel_event 2 2 8 payload }))
unfolding append_event
add_to_sel-stores_example = add_to_sel-stores sel1 8 2 payload sel1-EventLogIsValid (omega arith)

select_entry-add_to_sel_example :
    (a : Added) × (next : ℕ) × (add_to_sel sel1 8 2 payload ≡ ok a)
    × (select_entry a.sel a.record_id
        ≡ ok (record { record_id = a.record_id; bytes = sel_event a.record_id 2 8 payload }, next))
unfolding append_event
select_entry-add_to_sel_example =
    select_entry-add_to_sel sel1 8 2 payload sel1-EventLogIsValid (omega arith) (omega arith)

-- The log has one event.
add_to_sel-erase_sel_example :
    (a : Added) × (b : Added) × (add_to_sel sel1 8 2 payload ≡ ok a)
    × (add_to_sel (erase_sel sel1 9) 8 2 payload ≡ ok b)
    × (b.err ≡ a.err)
    × (b.record_id ≡ a.record_id)
    × (b.sel.count ≡ a.sel.count)
add_to_sel-erase_sel_example = add_to_sel-erase_sel sel1 9 8 2 payload sel1-EventLogIsValid

add_to_sel-total_example : (a : Added) × (add_to_sel sel1 8 2 payload ≡ ok a)
unfolding append_event
add_to_sel-total_example = add_to_sel-total sel1 8 2 payload (omega arith)

abbrev full_sel : Sel
full_sel = record sel1 { max_count = 1 }

abbrev is_second : Sdr → Bool
is_second s = s.record_id == 2

-- A request for the channel's authentication capabilities.
abbrev capabilities : Bytes
capabilities =
    6 ∷ 0 ∷ 0xff ∷ 7 ∷ 0 ∷ 0 ∷ 0 ∷ 0 ∷ 0 ∷ 0 ∷ 0 ∷ 0 ∷ 0 ∷ 9 ∷ 0x20 ∷ 0x18 ∷ 0xc8 ∷ 0x81 ∷ 4 ∷ 0x38
    ∷ 0xe ∷ 3 ∷ 0 ∷ []

ipmi_handle_msg-AtMostOne_example :
    Safe
      (λ w. ServerIsValid w × AtMostOne (boot 0) w)
      (ipmi_handle_msg env0 (new_msg capabilities 23) (boot 0))
ipmi_handle_msg-AtMostOne_example =
    ipmi_handle_msg-AtMostOne env0 capabilities 23 (boot 0) (boot-ServerIsValid 0)

-- Two events.
abbrev events : List LogEvent
events =
    record { now = 7; record_type = 2; bytes = payload }
    ∷ record { now = 8; record_type = 2; bytes = payload }
    ∷ []

read_log-add_all_example :
    Returns (λ sel. read_log 2 0 sel ≡ ok (entries_from 1 events)) (add_all events init_sel)
read_log-add_all_example = read_log-add_all events (omega arith) (omega arith)

-- ===== src/Tests/Scanner.antt =====
-- A ticket that is picked up and checked in twice.
use ivyticketing.Base.{
  ℕ, ◌≡◌, ◌⊎◌, refl, String, Bool, true, false, none, some, List, [], ◌∷◌, str_eq,
}
use ivyticketing.Store.Tx.{Error, ok, err, idempotency_conflict}
use ivyticketing.Inventory.Queries.{order_by_id}
use ivyticketing.Tests.Data.{paid_order}
use ivyticketing.Racepack.Rows.{
  EventTicket, TicketStatus, RacepackCounter, PickupSlot, PickupRecord, Desk, is_used,
}
use ivyticketing.Racepack.Calls.{guard, with_row, settle}
use ivyticketing.Racepack.Slots.{counter_by_id, slot_by_id, increment_reserved}
use ivyticketing.Racepack.Pickup.{
  PickupInput, pickup_of, event_ticket_by_id, active_pickup, has_user, is_method,
  create_pickup_record, enter_slot, counter_in_event, pickup_ticket, pickup_tx, execute_pickup,
}
use ivyticketing.Racepack.Promises.{PickedUp, execute_pickup-PickedUp}
use ivyticketing.Racepack.Idempotency.{
  answered, failed, lookup_idempotency, store_idempotency, fresh_reply, keyed_reply,
}
use ivyticketing.Racepack.Handler.{create_pickup}
use ivyticketing.Tickets.Qr.{sign}
use ivyticketing.Scanner.Service.{
  CheckInInput, CheckInResult, VerifyResult, check_in, check_in_tx, check_in_ticket,
  mark_ticket_used, verify_scan,
}
use ivyticketing.Scanner.Desk.{DeskStep, checks_in, reserves_slot, creates_slot, run_steps, Sound}
use ivyticketing.Scanner.Once.{run_steps-Sound, pickup_once}
use ivyticketing.Scanner.Retries.{create_pickup_again}
use ivyticketing.Scanner.CheckIns.{CheckedIn, check_in_once}
use ivyticketing.Scanner.Shown.{pickup_shows}
use ivyticketing.Tests.Tokens.{small_codec, small_codec-Lawful}

abbrev bib_ticket : EventTicket
bib_ticket = record {
  id = 21;
  event_id = 1;
  order_id = 11;
  participant_id = some 7;
  status = TicketStatus.valid;
  used_at = none;
  bib_number = some "A-1";
}

abbrev north : RacepackCounter
north = record {
  id = 31;
  organization_id = 3;
  event_id = 1;
  name = "north";
  location = "";
  active = true;
}

abbrev morning : PickupSlot
morning = record {
  id = 41;
  organization_id = 3;
  event_id = 1;
  name = "morning";
  pickup_date = 0;
  start_time = 100;
  end_time = 200;
  capacity = 2;
  reserved_count = 0;
  active = true;
}

abbrev desk : Desk
desk = record {
  users = 7 ∷ 9 ∷ [];
  orders = paid_order ∷ [];
  tickets = bib_ticket ∷ [];
  counters = north ∷ [];
  slots = morning ∷ [];
  pickups = [];
  cases = [];
  proxies = [];
  keys = [];
}

abbrev own_pickup : PickupInput
own_pickup = record {
  organization_id = 3;
  event_id = 1;
  ticket_id = 21;
  counter_id = 31;
  slot_id = some 41;
  staff_id = 9;
  pickup_method = "SELF";
  notes = "";
}

abbrev as_is : String → String
as_is s = s

abbrev picked : PickupRecord
picked = pickup_of 51 150 own_pickup bib_ticket

abbrev desk_after : Desk
desk_after = record desk {
  slots = (record morning { reserved_count = 1 }) ∷ [];
  pickups = picked ∷ [];
}

first_pickup : execute_pickup as_is 51 150 own_pickup desk ≡ (ok picked, desk_after)
unfolding execute_pickup pickup_tx pickup_ticket create_pickup_record enter_slot counter_in_event
    event_ticket_by_id active_pickup has_user is_method order_by_id counter_by_id slot_by_id
    increment_reserved guard with_row settle
first_pickup = refl

execute_pickup-PickedUp_example : PickedUp 51 150 own_pickup desk picked desk_after
execute_pickup-PickedUp_example = execute_pickup-PickedUp as_is 51 150 own_pickup desk first_pickup

abbrev all_may : ℕ → ℕ → Bool
all_may e s = true

abbrev own_check_in : CheckInInput
own_check_in = record { event_id = 1; ticket_id = 21; staff_id = 9; scanned_at = some 160 }

abbrev no_text : {A : Type 0} → A → String
no_text a = "{}"

abbrev meanwhile : List DeskStep
meanwhile = checks_in all_may as_is no_text 170 "" "" own_check_in ∷ reserves_slot 1 41 ∷ []

pickup_once_example :
    (e : Error) × (execute_pickup as_is 52 180 own_pickup (run_steps meanwhile desk_after)
      ≡ (err e, run_steps meanwhile desk_after))
pickup_once_example =
    pickup_once as_is 51 150 own_pickup desk first_pickup meanwhile as_is 52 180 own_pickup refl

abbrev empty_desk : Desk
empty_desk = record desk { slots = [] }

run_steps-Sound_example :
    Sound
      (run_steps (creates_slot morning ∷ meanwhile) empty_desk).pickups
      (run_steps (creates_slot morning ∷ meanwhile) empty_desk).slots
run_steps-Sound_example = run_steps-Sound empty_desk (creates_slot morning ∷ meanwhile) refl refl

abbrev keyed_after : Desk
keyed_after = record desk_after {
  keys =
      record {
        key = "k1";
        scope = "racepack.execute_pickup";
        request_hash = "h1";
        response_status = 201;
        response_body = "{}";
      }
      ∷ [];
}

keyed_pickup :
    create_pickup as_is as_is no_text 51 150 "k1" "h1" own_pickup desk
    ≡ (answered 201 "{}", keyed_after)
unfolding create_pickup keyed_reply lookup_idempotency fresh_reply store_idempotency execute_pickup
    pickup_tx pickup_ticket create_pickup_record enter_slot counter_in_event event_ticket_by_id
    active_pickup has_user is_method order_by_id counter_by_id slot_by_id increment_reserved guard
    with_row settle
keyed_pickup = refl

create_pickup_again_example :
    (◌≡◌ {A = String} "h1" "h1"
      → (b : String) × (create_pickup as_is as_is no_text 52 180 "k1" "h1" own_pickup
            (run_steps meanwhile keyed_after)
          ≡ (answered 201 b, run_steps meanwhile keyed_after))
        × ((b ≡ "{}") ⊎ (b ≡ as_is "{}")))
    × (str_eq "h1" "h1" ≡ false
        → create_pickup as_is as_is no_text 52 180 "k1" "h1" own_pickup
            (run_steps meanwhile keyed_after)
          ≡ (failed idempotency_conflict, run_steps meanwhile keyed_after))
create_pickup_again_example =
    create_pickup_again as_is as_is no_text 51 150 "k1" "h1" own_pickup desk refl keyed_pickup
      meanwhile 52 180 "h1" own_pickup

abbrev used_ticket_row : EventTicket
used_ticket_row = record bib_ticket { status = TicketStatus.used; used_at = some 160 }

abbrev used_desk : Desk
used_desk = record desk { tickets = used_ticket_row ∷ [] }

abbrev first_answer : CheckInResult
first_answer = record { ticket_id = 21; checked_in_at = some 160; duplicate = false }

first_check_in_at : check_in all_may 170 own_check_in desk ≡ (ok first_answer, used_desk)
unfolding check_in check_in_tx check_in_ticket mark_ticket_used event_ticket_by_id guard with_row
    settle
first_check_in_at = refl

check_in_once_example :
    CheckedIn 170 own_check_in desk first_answer used_desk
    × ((now' : ℕ) (p' : CheckInInput) (d2 : Desk)
        → p'.ticket_id ≡ 21
        → p'.event_id ≡ 1
        → all_may p'.event_id p'.staff_id ≡ true
        → event_ticket_by_id 21 d2.tickets ≡ event_ticket_by_id 21 used_desk.tickets
        → check_in all_may now' p' d2
          ≡ (ok (record { ticket_id = 21; checked_in_at = some 160; duplicate = true }), d2))
check_in_once_example = check_in_once all_may 170 own_check_in desk first_check_in_at

scanned_ticket : event_ticket_by_id 21 (run_steps [] desk_after).tickets ≡ some bib_ticket
unfolding event_ticket_by_id run_steps
scanned_ticket = refl

pickup_shows_example :
    (v : VerifyResult) × (verify_scan all_may small_codec 1 9
        (sign small_codec 21 1)
        (run_steps [] desk_after)
      ≡ ok v)
    × (v.already_picked_up ≡ true)
    × (v.was_checked_in ≡ is_used bib_ticket.status)
pickup_shows_example =
    pickup_shows small_codec as_is 51 150 own_pickup desk small_codec-Lawful first_pickup all_may 9
      [] bib_ticket refl scanned_ticket

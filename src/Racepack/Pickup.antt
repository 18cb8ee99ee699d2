-- ===== src/Racepack/Pickup.antt =====
-- `ExecutePickup` (modules/racepack/service.go). The parameter `normal` is the trimming and the upper
-- case of a method; the identifier of a new record and the time are arguments. The organization
-- of the request is one that the middleware has checked.
use ivyticketing.Base.{
  ℕ, String, Bool, not, ◌&&◌, ◌||◌, Option, none, some, List, ◌∷◌, ◌==◌, ◌!=◌, ltb, str_eq, is_some,
  find,
}
use ivyticketing.Store.Rows.{OrderStatus, same_status}
use ivyticketing.Inventory.Queries.{order_by_id}
use ivyticketing.Store.Tx.{
  Result, ok, err, no_rows, constraint_violation, invalid_method, ticket_not_found,
  ticket_cancelled, bib_missing, ticket_event_mismatch, already_picked_up, order_not_paid,
  counter_not_found, counter_event_mismatch, counter_inactive, slot_not_found, slot_inactive,
  outside_window,
}
use ivyticketing.Racepack.Rows.{
  EventTicket, PickupRecord, PickupStatus, Desk, is_cancelled, is_picked_up,
}
use ivyticketing.Racepack.Calls.{guard, with_row, settle}
use ivyticketing.Racepack.Slots.{counter_by_id, slot_by_id, increment_reserved}

unfoldable pub event_ticket_by_id : ℕ → List EventTicket → Option EventTicket
event_ticket_by_id id = find (λ t. t.id == id)

-- `GetRacepackPickupRecordByTicket`.
unfoldable pub active_pickup : ℕ → List PickupRecord → Option PickupRecord
active_pickup ticket_id = find (λ r. (r.ticket_id == ticket_id) && is_picked_up r.status)

unfoldable pub has_user : ℕ → List ℕ → Bool
has_user id users = is_some (find (λ u. u == id) users)

-- `PickupMethodSelf` and the others.
unfoldable pub is_method : String → Bool
is_method m = str_eq m "SELF" || str_eq m "PROXY" || str_eq m "MANUAL_OVERRIDE"

pub record PickupInput : Type 0 where
  pub organization_id : ℕ
  pub event_id : ℕ
  pub ticket_id : ℕ
  pub counter_id : ℕ
  pub slot_id : Option ℕ
  pub staff_id : ℕ
  pub pickup_method : String
  pub notes : String

-- A missing number, `!Valid`, is treated as an empty one.
abbrev pub bib_of : EventTicket → String
bib_of t = elim t.bib_number [ none ↦ "" | some b ↦ b ]

-- `uuid.Nil` for a ticket of no participant.
abbrev pub holder_of : EventTicket → ℕ
holder_of t = elim t.participant_id [ none ↦ 0 | some p ↦ p ]

-- `CreateRacepackPickupRecord`: the CHECK on the method, the unique index on the ticket, which
-- the service turns into `already_picked_up`, and the references to users.
unfoldable pub create_pickup_record : PickupRecord → Desk → Result (PickupRecord × Desk)
unfolding guard active_pickup has_user is_method
create_pickup_record r d = guard (not (is_method r.pickup_method)) constraint_violation (
    guard (is_some (active_pickup r.ticket_id d.pickups)) already_picked_up (
      guard (not (has_user r.participant_id d.users && has_user r.staff_id d.users))
        constraint_violation (ok (r, record d { pickups = r ∷ d.pickups }))))

-- Step 4: the slot of the input, if there is one.
unfoldable pub enter_slot : ℕ → ℕ → Option ℕ → Desk → Result Desk
unfolding guard with_row slot_by_id increment_reserved
enter_slot now event_id none d = ok d
enter_slot now event_id (some id) d = with_row (slot_by_id id d.slots) slot_not_found (λ s.
    guard (s.event_id != event_id) slot_not_found (
      guard (not s.active) slot_inactive (
        guard (ltb now s.start_time || ltb s.end_time now) outside_window
          (elim (increment_reserved id d) [ ok (s', d') ↦ ok d' | err e ↦ err e ]))))

-- `AssertCounterInEventTx`.
unfoldable pub counter_in_event : {A : Type 0} → ℕ → ℕ → Desk → Result A → Result A
unfolding guard with_row counter_by_id
counter_in_event counter_id event_id d r =
    with_row (counter_by_id counter_id d.counters) counter_not_found (λ c.
      guard (c.event_id != event_id) counter_event_mismatch
        (guard (not c.active) counter_inactive r))

-- The time is the column's default, the clock of the database, which is taken for that of the service.
abbrev pub pickup_of : ℕ → ℕ → PickupInput → EventTicket → PickupRecord
pickup_of id now p t = record {
  id = id;
  organization_id = p.organization_id;
  event_id = p.event_id;
  ticket_id = p.ticket_id;
  participant_id = holder_of t;
  bib_number = bib_of t;
  counter_id = p.counter_id;
  staff_id = p.staff_id;
  pickup_method = p.pickup_method;
  pickup_timestamp = now;
  notes = p.notes;
  status = PickupStatus.picked_up;
  slot_id = p.slot_id;
}

-- Steps 2 to 5, for the ticket whose row is locked.
unfoldable pub pickup_ticket :
    ℕ → ℕ → PickupInput → Desk → EventTicket → Result (PickupRecord × Desk)
unfolding guard with_row active_pickup counter_in_event enter_slot create_pickup_record
pickup_ticket id now p d t = guard (is_cancelled t.status) ticket_cancelled (
    guard (str_eq (bib_of t) "") bib_missing (
      guard (t.event_id != p.event_id) ticket_event_mismatch (
        guard (is_some (active_pickup p.ticket_id d.pickups)) already_picked_up (
          with_row (order_by_id t.order_id d.orders) no_rows (λ o.
            guard (not (same_status o.status OrderStatus.paid)) order_not_paid (
              counter_in_event p.counter_id p.event_id d
                (elim (enter_slot now p.event_id p.slot_id d) [
                  | ok d' ↦ create_pickup_record (pickup_of id now p t) d'
                  | err e ↦ err e
                ])))))))

unfoldable pub pickup_tx :
    (String → String) → ℕ → ℕ → PickupInput → Desk → Result (PickupRecord × Desk)
unfolding guard with_row event_ticket_by_id pickup_ticket is_method
pickup_tx normal id now p d = guard (not (is_method (normal p.pickup_method))) invalid_method (
    with_row (event_ticket_by_id p.ticket_id d.tickets) ticket_not_found (pickup_ticket id now p d))

-- `ExecutePickup`.
unfoldable pub execute_pickup :
    (String → String) → ℕ → ℕ → PickupInput → Desk → Result PickupRecord × Desk
unfolding settle pickup_tx
execute_pickup normal id now p d = settle d (pickup_tx normal id now p d)

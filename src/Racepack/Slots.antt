-- ===== src/Racepack/Slots.antt =====
-- Counters and slots of the desk (modules/racepack/service.go and db/racepack.sql.go).
use ivyticketing.Base.{
  ℕ, ◌+◌, ◌-◌, String, Bool, true, not, ◌&&◌, Option, List, ◌∷◌, ◌==◌, ◌!=◌, ltb, leb, str_eq,
  is_some, find, update_where,
}
use ivyticketing.Store.Tx.{
  Result, ok, err, no_rows, constraint_violation, slot_full, slot_not_found,
}
use ivyticketing.Racepack.Rows.{RacepackCounter, PickupSlot, Desk}
use ivyticketing.Racepack.Calls.{guard, with_row, settle}

unfoldable pub counter_by_id : ℕ → List RacepackCounter → Option RacepackCounter
counter_by_id id = find (λ c. c.id == id)

unfoldable pub slot_by_id : ℕ → List PickupSlot → Option PickupSlot
slot_by_id id = find (λ s. s.id == id)

abbrev pub named_alike : RacepackCounter → RacepackCounter → Bool
named_alike c q = (q.event_id == c.event_id) && str_eq q.name c.name

-- `CreateCounter`: the name is unique in the event.
unfoldable pub create_counter_tx : RacepackCounter → Desk → Result (RacepackCounter × Desk)
unfolding guard
create_counter_tx c d =
    guard (is_some (find (named_alike c) d.counters)) constraint_violation
      (ok (c, record d { counters = c ∷ d.counters }))

unfoldable pub create_counter : RacepackCounter → Desk → Result RacepackCounter × Desk
unfolding settle create_counter_tx
create_counter c d = settle d (create_counter_tx c d)

-- `UpdateCounter`: by its identifier alone.
unfoldable pub update_counter_tx :
    ℕ → String → String → Bool → Desk → Result (RacepackCounter × Desk)
unfolding guard with_row counter_by_id
update_counter_tx id name location active d = with_row (counter_by_id id d.counters) no_rows (λ c.
    let c' = record c { name = name; location = location; active = active } in
    guard (is_some (find (λ q. named_alike c' q && (q.id != id)) d.counters)) constraint_violation
      (ok (c', record d { counters = update_where (λ q. q.id == id) (λ _. c') d.counters })))

unfoldable pub update_counter : ℕ → String → String → Bool → Desk → Result RacepackCounter × Desk
unfolding settle update_counter_tx
update_counter id name location active d = settle d (update_counter_tx id name location active d)

-- `SetCounterActive`.
unfoldable pub set_counter_active_tx : ℕ → Bool → Desk → Result (RacepackCounter × Desk)
unfolding with_row counter_by_id
set_counter_active_tx id active d = with_row (counter_by_id id d.counters) no_rows (λ c.
    let c' = record c { active = active } in
    ok (c', record d { counters = update_where (λ q. q.id == id) (λ _. c') d.counters }))

unfoldable pub set_counter_active : ℕ → Bool → Desk → Result RacepackCounter × Desk
unfolding settle set_counter_active_tx
set_counter_active id active d = settle d (set_counter_active_tx id active d)

-- The CHECK constraints of a slot.
abbrev pub is_admitted_slot : PickupSlot → Bool
is_admitted_slot s =
    ltb 0 s.capacity && ltb s.start_time s.end_time && leb s.reserved_count s.capacity

-- `CreateSlot`: nothing is reserved, and the slot is active.
unfoldable pub create_slot_tx : PickupSlot → Desk → Result (PickupSlot × Desk)
unfolding guard
create_slot_tx s d =
    let s' = record s { reserved_count = 0; active = true } in
    guard (not (is_admitted_slot s')) constraint_violation
      (ok (s', record d { slots = s' ∷ d.slots }))

unfoldable pub create_slot : PickupSlot → Desk → Result PickupSlot × Desk
unfolding settle create_slot_tx
create_slot s d = settle d (create_slot_tx s d)

-- `UpdateSlot`: by its identifier alone; the count stays, and the capacity cannot go below it.
unfoldable pub update_slot_tx :
    ℕ → String → ℕ → ℕ → ℕ → ℕ → Bool → Desk → Result (PickupSlot × Desk)
unfolding guard with_row slot_by_id
update_slot_tx id name pickup_date start_time end_time capacity active d =
    with_row (slot_by_id id d.slots) no_rows (λ s.
      let s' = record s {
        name = name;
        pickup_date = pickup_date;
        start_time = start_time;
        end_time = end_time;
        capacity = capacity;
        active = active;
      } in
      guard (not (is_admitted_slot s')) constraint_violation
        (ok (s', record d { slots = update_where (λ q. q.id == id) (λ _. s') d.slots })))

unfoldable pub update_slot : ℕ → String → ℕ → ℕ → ℕ → ℕ → Bool → Desk → Result PickupSlot × Desk
unfolding settle update_slot_tx
update_slot id name pickup_date start_time end_time capacity active d =
    settle d (update_slot_tx id name pickup_date start_time end_time capacity active d)

-- `IncrementRacepackPickupSlotReserved`.
unfoldable pub increment_reserved : ℕ → Desk → Result (PickupSlot × Desk)
unfolding guard with_row slot_by_id
increment_reserved id d = with_row (slot_by_id id d.slots) slot_full (λ s.
    guard (not (ltb s.reserved_count s.capacity)) slot_full (
      let s' = record s { reserved_count = s.reserved_count + 1 } in
      ok (s', record d { slots = update_where (λ q. q.id == id) (λ _. s') d.slots })))

-- `ReserveSlot`.
unfoldable pub reserve_slot : ℕ → Desk → Result PickupSlot × Desk
unfolding increment_reserved settle
reserve_slot id d = settle d (increment_reserved id d)

-- `ReserveSlotForParticipant`: the event is compared after the slot has been counted.
unfoldable pub answer_in_event : ℕ → Result PickupSlot × Desk → Result PickupSlot × Desk
unfolding guard
answer_in_event event_id (ok s, d) = (guard (s.event_id != event_id) slot_not_found (ok s), d)
answer_in_event event_id (err e, d) = (err e, d)

unfoldable pub reserve_slot_for_participant : ℕ → ℕ → Desk → Result PickupSlot × Desk
unfolding reserve_slot answer_in_event
reserve_slot_for_participant event_id id d = answer_in_event event_id (reserve_slot id d)

-- `ReleaseSlot`: at nothing reserved, nothing happens.
unfoldable pub release_slot : ℕ → Desk → Desk
release_slot id d = record d {
  slots =
      update_where (λ s. (s.id == id) && ltb 0 s.reserved_count)
        (λ s. record s { reserved_count = s.reserved_count - 1 }) d.slots;
}

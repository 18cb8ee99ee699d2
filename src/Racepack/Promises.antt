-- ===== src/Racepack/Promises.antt =====
-- What a pickup that succeeds has met, and what it writes (modules/racepack/service.go).
use ivyticketing.Base.{
  ℕ, ◌+◌, ◌≡◌, ◌≢◌, refl, sym, ap, ◌∙◌, String, Bool, true, false, not, ◌&&◌, ◌||◌, Option, none,
  some, List, ◌∷◌, ◌==◌, ◌!=◌, ltb, str_eq, is_some, update_where, arith,
}
use mathlib.Core.Path.{subst}
use ivyticketing.Store.Rows.{Order, OrderStatus, same_status}
use ivyticketing.Inventory.Queries.{order_by_id}
use ivyticketing.Store.Tx.{Result, ok, err, ok_inj}
use ivyticketing.Racepack.Rows.{
  EventTicket, RacepackCounter, PickupSlot, PickupRecord, Desk, is_cancelled,
}
use ivyticketing.Racepack.Calls.{guard_ok, with_row_ok, settle_ok}
use ivyticketing.Racepack.Slots.{counter_by_id, slot_by_id, increment_reserved}
use ivyticketing.Racepack.Written.{Written, bib_of-given, pickup_of-Written}
use ivyticketing.Racepack.Pickup.{
  event_ticket_by_id, active_pickup, has_user, is_method, PickupInput, bib_of, holder_of,
  create_pickup_record, enter_slot, counter_in_event, pickup_of, pickup_ticket, pickup_tx,
  execute_pickup,
}

abbrev pub with_slots : List PickupSlot → Desk → Desk
with_slots slots d = record d { slots = slots }

abbrev pub with_pickup : PickupRecord → Desk → Desk
with_pickup r d = record d { pickups = r ∷ d.pickups }

abbrev pub counted : ℕ → PickupSlot → List PickupSlot → List PickupSlot
counted id s =
    update_where (λ q. q.id == id) (λ _. record s { reserved_count = s.reserved_count + 1 })

-- The slots after a pickup: the slot of the input, open at the time and not full, has one more.
abbrev pub Entered : ℕ → ℕ → Option ℕ → Desk → List PickupSlot → Type 0
Entered now event_id none d slots = slots ≡ d.slots
Entered now event_id (some id) d slots =
    (s : PickupSlot) × (slot_by_id id d.slots ≡ some s)
    × ((s.event_id == event_id) ≡ true)
    × (s.active ≡ true)
    × ((ltb now s.start_time || ltb s.end_time now) ≡ false)
    × (ltb s.reserved_count s.capacity ≡ true)
    × (slots ≡ counted id s d.slots)

-- A pickup that has succeeded.
pub record PickedUp (id now : ℕ) (p : PickupInput) (d : Desk) (r : PickupRecord) (d' : Desk)
    : Type 0 where
  pub ticket : EventTicket
  pub order : Order
  pub counter : RacepackCounter
  pub ticket_found : event_ticket_by_id p.ticket_id d.tickets ≡ some ticket
  pub not_cancelled : is_cancelled ticket.status ≡ false
  pub bib : String
  pub has_bib : ticket.bib_number ≡ some bib
  pub bib_not_empty : bib ≢ ""
  pub in_event : (ticket.event_id == p.event_id) ≡ true
  pub none_before : active_pickup p.ticket_id d.pickups ≡ none
  pub order_found : order_by_id ticket.order_id d.orders ≡ some order
  pub order_paid : same_status order.status OrderStatus.paid ≡ true
  pub counter_found : counter_by_id p.counter_id d.counters ≡ some counter
  pub counter_in_event : (counter.event_id == p.event_id) ≡ true
  pub counter_active : counter.active ≡ true
  pub method_known : is_method p.pickup_method ≡ true
  pub users_known : (has_user (holder_of ticket) d.users && has_user p.staff_id d.users) ≡ true
  pub entered : Entered now p.event_id p.slot_id d d'.slots
  pub written : Written id now p ticket bib r
  pub rest : d' ≡ with_pickup r (with_slots d'.slots d)

same_of : (a b : ℕ) → (a != b) ≡ false → (a == b) ≡ true
same_of a b h = ground (arith, h)

of_not : (b : Bool) → not b ≡ false → b ≡ true
of_not true h = refl
of_not false h = cc

none_of : {A : Type 0} (o : Option A) → is_some o ≡ false → o ≡ none
none_of none h = refl
none_of (some a) h = cc

some_inj : {A : Type 0} {a b : A} → some a ≡ some b → a ≡ b
some_inj e = cc

pub increment_reserved_ok :
    (id : ℕ) (d : Desk) {s' : PickupSlot} {d' : Desk}
    → increment_reserved id d ≡ ok (s', d')
    → (s : PickupSlot) × (slot_by_id id d.slots ≡ some s)
      × (ltb s.reserved_count s.capacity ≡ true)
      × (d' ≡ with_slots (counted id s d.slots) d)
unfolding increment_reserved
increment_reserved_ok id d h =
    let (s, found, g) = with_row_ok (slot_by_id id d.slots) _ _ h in
    let (free, e) = guard_ok (not (ltb s.reserved_count s.capacity)) _ _ g in
    (s, found, of_not _ free, sym (ap (λ x. x.1) (ok_inj e)))

counted_slot :
    (r : Result (PickupSlot × Desk)) {d' : Desk}
    → (let x : Result Desk = elim r [ ok (s', e) ↦ ok e | err e ↦ err e ] in x) ≡ ok d'
    → (s' : PickupSlot) × (r ≡ ok (s', d'))
counted_slot (ok (s, d)) h = (s, ap (λ e. ok (s, e)) (ok_inj h))
counted_slot (err e) h = cc

enter_slot_ok :
    (now event_id : ℕ) (slot : Option ℕ) (d : Desk) {d' : Desk}
    → enter_slot now event_id slot d ≡ ok d'
    → Entered now event_id slot d d'.slots × (d' ≡ with_slots d'.slots d)
unfolding enter_slot
enter_slot_ok now event_id none d {d'} h =
    let e : d ≡ d' = ok_inj h in
    (ap (λ x. x.slots) (sym e), subst (λ x. x ≡ with_slots x.slots d) e refl)
enter_slot_ok now event_id (some id) d {d'} h =
    let (s, found, h1) = with_row_ok (slot_by_id id d.slots) _ _ h in
    let (same, h2) = guard_ok (s.event_id != event_id) _ _ h1 in
    let (live, h3) = guard_ok (not s.active) _ _ h2 in
    let (open_now, h4) = guard_ok (ltb now s.start_time || ltb s.end_time now) _ _ h3 in
    let (s', counting) = counted_slot (increment_reserved id d) h4 in
    let (q, again, free, e) = increment_reserved_ok id d counting in
    let same_slot : q ≡ s = some_inj (sym again ∙ found) in
    let e' : d' ≡ with_slots (counted id s d.slots) d =
      e ∙ ap (λ x. with_slots (counted id x d.slots) d) same_slot in
    (
      (
        s,
        found,
        same_of s.event_id event_id same,
        of_not _ live,
        open_now,
        ap (λ x. ltb x.reserved_count x.capacity) (sym same_slot) ∙ free,
        ap (λ x. x.slots) e',
      ),
      e' ∙ ap (λ x. with_slots x d) (sym (ap (λ x. x.slots) e')),
    )

counter_in_event_ok :
    {A : Type 0} (counter_id event_id : ℕ) (d : Desk) (r : Result A) {a : A}
    → counter_in_event counter_id event_id d r ≡ ok a
    → (c : RacepackCounter) × (counter_by_id counter_id d.counters ≡ some c)
      × ((c.event_id == event_id) ≡ true)
      × (c.active ≡ true)
      × (r ≡ ok a)
unfolding counter_in_event
counter_in_event_ok counter_id event_id d r h =
    let (c, found, h1) = with_row_ok (counter_by_id counter_id d.counters) _ _ h in
    let (same, h2) = guard_ok (c.event_id != event_id) _ _ h1 in
    let (live, h3) = guard_ok (not c.active) _ _ h2 in
    (c, found, same_of c.event_id event_id same, of_not _ live, h3)

create_pickup_record_ok :
    (r : PickupRecord) (d : Desk) {r' : PickupRecord} {d' : Desk}
    → create_pickup_record r d ≡ ok (r', d')
    → (is_method r.pickup_method ≡ true)
      × ((has_user r.participant_id d.users && has_user r.staff_id d.users) ≡ true)
      × (r' ≡ r)
      × (d' ≡ with_pickup r d)
unfolding create_pickup_record
create_pickup_record_ok r d h =
    let (known, h1) = guard_ok (not (is_method r.pickup_method)) _ _ h in
    let (fresh, h2) = guard_ok (is_some (active_pickup r.ticket_id d.pickups)) _ _ h1 in
    let (users, h3) =
      guard_ok (not (has_user r.participant_id d.users && has_user r.staff_id d.users)) _ _ h2 in
    (
      of_not _ known,
      of_not _ users,
      ap (λ x. x.0) (sym (ok_inj h3)),
      ap (λ x. x.1) (sym (ok_inj h3)),
    )

after_slot :
    (s : Result Desk) (f : Desk → Result (PickupRecord × Desk)) {r : PickupRecord} {d' : Desk}
    → (let x : Result (PickupRecord × Desk) = elim s [ ok d ↦ f d | err e ↦ err e ] in x)
      ≡ ok (r, d')
    → (d : Desk) × (s ≡ ok d) × (f d ≡ ok (r, d'))
after_slot (ok d) f h = (d, refl, h)
after_slot (err e) f h = cc

-- A pickup that succeeds met a ticket that is not cancelled, has a number, is of the event and was not
-- picked up before; its order is paid; the counter is an active one of the event; the slot, if the
-- request names one, is of the event, active, open at the time and not full. It adds one record, with
-- the ticket's number and holder, the counter, staff, slot, method and notes of the request, the time
-- and the status PICKED_UP; it counts the slot once, and changes nothing else.
pub execute_pickup-PickedUp :
    (normal : String → String) (id now : ℕ) (p : PickupInput) (d : Desk) {r : PickupRecord}
    {d' : Desk}
    → execute_pickup normal id now p d ≡ (ok r, d')
    → PickedUp id now p d r d'
unfolding execute_pickup pickup_tx pickup_ticket
execute_pickup-PickedUp normal id now p d {r} {d'} h =
    let (known, h1) = guard_ok (not (is_method (normal p.pickup_method))) _ _ (settle_ok d _ h) in
    let (t, found, h2) = with_row_ok (event_ticket_by_id p.ticket_id d.tickets) _ _ h1 in
    let (alive, h3) = guard_ok (is_cancelled t.status) _ _ h2 in
    let (bib, h4) = guard_ok (str_eq (bib_of t) "") _ _ h3 in
    let (same, h5) = guard_ok (t.event_id != p.event_id) _ _ h4 in
    let (fresh, h6) = guard_ok (is_some (active_pickup p.ticket_id d.pickups)) _ _ h5 in
    let (o, ordered, h7) = with_row_ok (order_by_id t.order_id d.orders) _ _ h6 in
    let (paid, h8) = guard_ok (not (same_status o.status OrderStatus.paid)) _ _ h7 in
    let (c, manned, here, live, h9) = counter_in_event_ok p.counter_id p.event_id d _ h8 in
    let (d1, entry, h10) = after_slot (enter_slot now p.event_id p.slot_id d) _ h9 in
    let (entered, slots) = enter_slot_ok now p.event_id p.slot_id d entry in
    let (method, users, recorded, rest) = create_pickup_record_ok (pickup_of id now p t) d1 h10 in
    let (number, numbered, not_empty, number_of) = bib_of-given t bib in
    let kept : d'.slots ≡ d1.slots = ap (λ x. x.slots) rest in
    record {
      ticket = t;
      order = o;
      counter = c;
      ticket_found = found;
      not_cancelled = alive;
      bib = number;
      has_bib = numbered;
      bib_not_empty = not_empty;
      in_event = same_of t.event_id p.event_id same;
      none_before = none_of _ fresh;
      order_found = ordered;
      order_paid = of_not _ paid;
      counter_found = manned;
      counter_in_event = here;
      counter_active = live;
      method_known = method;
      users_known =
          subst (λ x. (has_user (holder_of t) x && has_user p.staff_id x) ≡ true)
            (ap (λ x. x.users) slots) users;
      entered = subst (Entered now p.event_id p.slot_id d) (sym kept) entered;
      written =
          subst (Written id now p t number) (sym recorded)
            (pickup_of-Written id now p t number number_of);
      rest =
          rest
          ∙ ap (with_pickup (pickup_of id now p t)) slots
          ∙ ap (λ x. with_pickup (pickup_of id now p t) (with_slots x d)) (sym kept)
          ∙ ap (λ x. with_pickup x (with_slots d'.slots d)) (sym recorded);
    }

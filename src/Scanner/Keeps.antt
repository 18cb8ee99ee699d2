-- ===== src/Scanner/Keeps.antt =====
-- Each operation of the desk keeps it sound, and keeps pickups and idempotency keys.
use ivyticketing.Base.{
  ℕ, ◌+◌, ◌-◌, ◌≡◌, refl, sym, ap, String, Bool, true, not, ◌&&◌, Option, none, some, List, [], ◌∷◌,
  ◌==◌, ◌!=◌, ltb, find, is_some, update_where, All, arith, Bool-cases, inl, inr,
}
use mathlib.Core.Path.{subst}
use ivyticketing.Store.Tx.{Result, ok, err, ok_inj}
use ivyticketing.Racepack.Rows.{PickupSlot, ProblemCase, ProblemStatus, ProxyAuthorization, Desk}
use ivyticketing.Racepack.Calls.{guard_ok, with_row_ok}
use ivyticketing.Racepack.Slots.{
  counter_by_id, slot_by_id, named_alike, create_counter, create_counter_tx, update_counter,
  update_counter_tx, set_counter_active, set_counter_active_tx, create_slot, create_slot_tx,
  update_slot, update_slot_tx, increment_reserved, reserve_slot, answer_in_event,
  reserve_slot_for_participant, release_slot, is_admitted_slot,
}
use ivyticketing.Racepack.Pickup.{event_ticket_by_id}
use ivyticketing.Racepack.Cases.{
  create_problem_case, create_problem_case_tx, update_problem_case_status,
  update_problem_case_status_tx, create_proxy_authorization, create_proxy_authorization_tx,
  case_by_id, target_in_event, ticket_in_event, may_become,
}
use ivyticketing.Racepack.Promises.{increment_reserved_ok}
use ivyticketing.Scanner.Desk.{Fits, Good, Good-slots, settle-Good}

pub All-put :
    (p : PickupSlot → Bool) (f : PickupSlot → PickupSlot) (slots : List PickupSlot)
    → ((s : PickupSlot) → Fits s → Fits (f s))
    → All Fits slots
    → All Fits (update_where p f slots)
All-put p f [] g a = tt
All-put p f (s ∷ slots) g a = elim (Bool-cases (p s)) [
  | inl e ↦ rw e (g s a.0, All-put p f slots g a.1)
  | inr e ↦ rw e (a.0, All-put p f slots g a.1)
]

-- The result of an operation that succeeds, second part.
pub tables_of :
    {A : Type 0} {a b : A} {d e : Desk}
    → ◌≡◌ {A = Result (A × Desk)} (ok (a, d)) (ok (b, e))
    → d ≡ e
tables_of h = ap (λ x. x.1) (ok_inj h)

-- What changes neither slots, pickups nor keys.
pub Good-rest :
    (d d' : Desk) → d.slots ≡ d'.slots → d.pickups ≡ d'.pickups → d.keys ≡ d'.keys → Good d d'
Good-rest d d' s p k = Good-slots d d' p k (subst (All Fits) s)

target_in_event_ok :
    {A : Type 0} (ticket participant : Option ℕ) (event_id : ℕ) (d : Desk) (r : Result A) {a : A}
    → target_in_event ticket participant event_id d r ≡ ok a
    → r ≡ ok a
unfolding target_in_event ticket_in_event
target_in_event_ok none none event_id d r h = cc
target_in_event_ok none (some p) event_id d r h = h
target_in_event_ok (some t) p event_id d r h =
    let (row, found, h1) = with_row_ok (event_ticket_by_id t d.tickets) _ _ h in
    (guard_ok (row.event_id != event_id) _ _ h1).1

module _ (d : Desk) where
  pub create_counter-Good : (c : _) → Good d (create_counter c d).1
  unfolding create_counter create_counter_tx
  create_counter-Good c = settle-Good d (create_counter_tx c d) (λ a d' h.
      let e = tables_of (guard_ok (is_some (find (named_alike c) d.counters)) _ _ h).1 in
      Good-rest d d' (ap (λ x. x.slots) e) (ap (λ x. x.pickups) e) (ap (λ x. x.keys) e))

  pub update_counter-Good :
      (id : ℕ) (name location : String) (active : Bool)
      → Good d (update_counter id name location active d).1
  unfolding update_counter update_counter_tx
  update_counter-Good id name location active =
      settle-Good d (update_counter_tx id name location active d) (λ a d' h.
        let (c, found, h1) = with_row_ok (counter_by_id id d.counters) _ _ h in
        let e = tables_of (guard_ok _ _ _ h1).1 in
        Good-rest d d' (ap (λ x. x.slots) e) (ap (λ x. x.pickups) e) (ap (λ x. x.keys) e))

  pub set_counter_active-Good : (id : ℕ) (active : Bool) → Good d (set_counter_active id active d).1
  unfolding set_counter_active set_counter_active_tx
  set_counter_active-Good id active = settle-Good d (set_counter_active_tx id active d) (λ a d' h.
      let (c, found, h1) = with_row_ok (counter_by_id id d.counters) _ _ h in
      let e = tables_of h1 in
      Good-rest d d' (ap (λ x. x.slots) e) (ap (λ x. x.pickups) e) (ap (λ x. x.keys) e))

  pub create_slot-Good : (s : PickupSlot) → Good d (create_slot s d).1
  unfolding create_slot create_slot_tx
  create_slot-Good s =
      let empty : PickupSlot = record s { reserved_count = 0; active = true } in
      settle-Good d (create_slot_tx s d) (λ a d' h.
        let e : (record d { slots = empty ∷ d.slots }) ≡ d' =
          tables_of (guard_ok (not (is_admitted_slot empty)) _ _ h).1 in
        Good-slots d d' (ap (λ x. x.pickups) e) (ap (λ x. x.keys) e)
          (λ f. subst (All Fits) (ap (λ x. x.slots) e) (omega arith, f)))

  pub update_slot-Good :
      (id : ℕ) (name : String) (date start end_ capacity : ℕ) (active : Bool)
      → Good d (update_slot id name date start end_ capacity active d).1
  unfolding update_slot update_slot_tx
  update_slot-Good id name date start end_ capacity active =
      let updated : PickupSlot → PickupSlot = λ s. record s {
        name = name;
        pickup_date = date;
        start_time = start;
        end_time = end_;
        capacity = capacity;
        active = active;
      } in
      settle-Good d (update_slot_tx id name date start end_ capacity active d) (λ a d' h.
        let (s, found, h1) = with_row_ok (slot_by_id id d.slots) _ _ h in
        let (fits, h2) = guard_ok (not (is_admitted_slot (updated s))) _ _ h1 in
        let e = tables_of h2 in
        Good-slots d d' (ap (λ x. x.pickups) e) (ap (λ x. x.keys) e) (λ f.
          subst (All Fits) (ap (λ x. x.slots) e)
            (All-put (λ q. q.id == id) (λ _. updated s) d.slots (λ q g. ground (arith, fits)) f)))

  pub reserve_slot-Good : (id : ℕ) → Good d (reserve_slot id d).1
  unfolding reserve_slot
  reserve_slot-Good id = settle-Good d (increment_reserved id d) (λ a d' h.
      let (s, found, free, e) = increment_reserved_ok id d h in
      Good-slots d d' (sym (ap (λ x. x.pickups) e)) (sym (ap (λ x. x.keys) e)) (λ f.
        subst (All Fits) (sym (ap (λ x. x.slots) e)) (
          All-put (λ q. q.id == id) (λ _. record s { reserved_count = s.reserved_count + 1 })
            d.slots (λ q g. ground (arith, free)) f)))

  answer_in_event-same :
      (event : ℕ) (r : Result PickupSlot × Desk) → (answer_in_event event r).1 ≡ r.1
  unfolding answer_in_event
  answer_in_event-same event (ok s, e) = refl
  answer_in_event-same event (err x, e) = refl

  pub reserve_for-Good : (event id : ℕ) → Good d (reserve_slot_for_participant event id d).1
  unfolding reserve_slot_for_participant
  reserve_for-Good event id =
      subst (Good d) (sym (answer_in_event-same event (reserve_slot id d))) (reserve_slot-Good id)

  pub release_slot-Good : (id : ℕ) → Good d (release_slot id d)
  unfolding release_slot
  release_slot-Good id = Good-slots d (release_slot id d) refl refl (
      All-put (λ s. (s.id == id) && ltb 0 s.reserved_count)
        (λ s. record s { reserved_count = s.reserved_count - 1 }) d.slots (λ q g. omega (arith, g)))

  pub create_problem_case-Good : (c : ProblemCase) → Good d (create_problem_case c d).1
  unfolding create_problem_case create_problem_case_tx
  create_problem_case-Good c = settle-Good d (create_problem_case_tx c d) (λ a d' h.
      let h1 = target_in_event_ok c.ticket_id c.participant_id c.event_id d _ h in
      let e = tables_of (guard_ok _ _ _ h1).1 in
      Good-rest d d' (ap (λ x. x.slots) e) (ap (λ x. x.pickups) e) (ap (λ x. x.keys) e))

  pub update_case-Good :
      (id actor : ℕ) (to : ProblemStatus) (resolution : String)
      → Good d (update_problem_case_status id actor to resolution d).1
  unfolding update_problem_case_status update_problem_case_status_tx
  update_case-Good id actor to resolution =
      settle-Good d (update_problem_case_status_tx id actor to resolution d) (λ a d' h.
        let (c, found, h1) = with_row_ok (case_by_id id d.cases) _ _ h in
        let e = tables_of (guard_ok (not (may_become c.status to)) _ _ h1).1 in
        Good-rest d d' (ap (λ x. x.slots) e) (ap (λ x. x.pickups) e) (ap (λ x. x.keys) e))

  pub authorize-Good : (a : ProxyAuthorization) → Good d (create_proxy_authorization a d).1
  unfolding create_proxy_authorization create_proxy_authorization_tx ticket_in_event
  authorize-Good a = settle-Good d (create_proxy_authorization_tx a d) (λ b d' h.
      let (t, found, h1) = with_row_ok (event_ticket_by_id a.ticket_id d.tickets) _ _ h in
      let (same, h2) = guard_ok (t.event_id != a.event_id) _ _ h1 in
      let e = tables_of (guard_ok _ _ _ h2).1 in
      Good-rest d d' (ap (λ x. x.slots) e) (ap (λ x. x.pickups) e) (ap (λ x. x.keys) e))

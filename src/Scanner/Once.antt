-- ===== src/Scanner/Once.antt =====
-- What holds of a desk over time: modules/racepack and modules/scanner.
use ivyticketing.Base.{
  ℕ, ◌≡◌, refl, sym, ap, String, true, Option, none, List, [], ◌∷◌, is_some, arith,
}
use mathlib.Core.Path.{subst}
use ivyticketing.Store.Tx.{Error, Result, ok, err}
use ivyticketing.Racepack.Rows.{PickupRecord, Desk}
use ivyticketing.Racepack.Calls.{settle}
use ivyticketing.Racepack.Pickup.{PickupInput, active_pickup, execute_pickup, pickup_tx}
use ivyticketing.Racepack.Promises.{PickedUp, execute_pickup-PickedUp}
use ivyticketing.Racepack.Handler.{rendered, pickup_key, create_pickup}
use ivyticketing.Scanner.Service.{check_in, check_in_key, handle_check_in}
use ivyticketing.Scanner.Desk.{
  DeskStep, picks_up, checks_in, creates_counter, updates_counter, sets_counter_active,
  creates_slot, updates_slot, reserves_slot, releases_slot, creates_case, updates_case,
  authorizes_proxy, elsewhere, run_step, run_steps, Sound, Good, Good-same, Good-after,
}
use ivyticketing.Scanner.Keeps.{
  create_counter-Good, update_counter-Good, set_counter_active-Good, create_slot-Good,
  update_slot-Good, reserve_for-Good, release_slot-Good, create_problem_case-Good, update_case-Good,
  authorize-Good, Good-rest,
}
use ivyticketing.Scanner.Handles.{
  execute_pickup-Good, check_in-Good, keyed_reply-Good, rendered-same,
}

run_step-Good : (s : DeskStep) (d : Desk) → Good d (run_step s d)
unfolding run_step create_pickup handle_check_in
run_step-Good (picks_up s n r id now key hash p) d =
    keyed_reply-Good s (pickup_key key hash) 201 (λ d. rendered r (execute_pickup n id now p d)) d
      (subst (Good d) (sym (rendered-same r (execute_pickup n id now p d)))
        (execute_pickup-Good n id now p d))
run_step-Good (checks_in m s r now key hash p) d =
    keyed_reply-Good s (check_in_key key hash) 200 (λ d. rendered r (check_in m now p d)) d
      (subst (Good d) (sym (rendered-same r (check_in m now p d))) (check_in-Good m now p d))
run_step-Good (creates_counter c) d = create_counter-Good d c
run_step-Good (updates_counter id n l a) d = update_counter-Good d id n l a
run_step-Good (sets_counter_active id a) d = set_counter_active-Good d id a
run_step-Good (creates_slot s) d = create_slot-Good d s
run_step-Good (updates_slot id n p s e c a) d = update_slot-Good d id n p s e c a
run_step-Good (reserves_slot event id) d = reserve_for-Good d event id
run_step-Good (releases_slot id) d = release_slot-Good d id
run_step-Good (creates_case c) d = create_problem_case-Good d c
run_step-Good (updates_case id actor to resolution) d = update_case-Good d id actor to resolution
run_step-Good (authorizes_proxy a) d = authorize-Good d a
run_step-Good (elsewhere us os ts) d = Good-rest d _ refl refl refl

pub run_steps-Good : (ss : List DeskStep) (d : Desk) → Good d (run_steps ss d)
unfolding run_steps
run_steps-Good [] d = Good-same d
run_steps-Good (s ∷ ss) d =
    Good-after d (run_step s d) _ (run_step-Good s d) (run_steps-Good ss (run_step s d))

-- On a desk that starts with no pickups and no slots, whatever its operations and the other modules
-- do, a ticket never has two active pickups and no slot has more reserved than its capacity.
pub run_steps-Sound :
    (d : Desk) (ss : List DeskStep)
    → d.pickups ≡ []
    → d.slots ≡ []
    → Sound (run_steps ss d).pickups (run_steps ss d).slots
run_steps-Sound d ss p s = (run_steps-Good ss d).sound (
    subst (λ ps. Sound ps d.slots) (sym p)
      (subst (Sound []) (sym s) (record { one_each = λ id. omega arith; all_fit = tt })))

settled_error :
    {A : Type 0} (d : Desk) (r : Result (A × Desk))
    → ((a : A) (d' : Desk) → r ≡ ok (a, d') → ⊥)
    → (e : Error) × (settle d r ≡ (err e, d))
unfolding settle
settled_error d (ok (a, d')) h = absurd (h a d' refl)
settled_error d (err e) h = (e, refl)

no_pickup : {A : Type 0} {o : Option A} → o ≡ none → is_some o ≡ true → ⊥
no_pickup e h = cc

-- A ticket with an active pickup gets no further one, and the tables stay as they are.
pickup_refused :
    (normal : String → String) (id now : ℕ) (p : PickupInput) (d : Desk)
    → is_some (active_pickup p.ticket_id d.pickups) ≡ true
    → (e : Error) × (execute_pickup normal id now p d ≡ (err e, d))
unfolding execute_pickup
pickup_refused normal id now p d h = settled_error d (pickup_tx normal id now p d) (λ r d' e.
    no_pickup (execute_pickup-PickedUp normal id now p d (ap (settle d) e)).none_before h)

pub active_after :
    (id now : ℕ) (p : PickupInput) (d : Desk) (r : PickupRecord) (d1 : Desk)
    → PickedUp id now p d r d1
    → is_some (active_pickup p.ticket_id d1.pickups) ≡ true
unfolding active_pickup
active_after id now p d r d1 done =
    subst (λ ps. is_some (active_pickup p.ticket_id ps) ≡ true)
      (sym (ap (λ x. x.pickups) done.rest))
      (ground (arith, done.written.ticket_written, done.written.status_written))

-- After a pickup of a ticket has succeeded, no further one of that ticket succeeds, by whatever
-- counter, staff or method, and whatever the desk and the other modules have done in between; each
-- is refused and changes nothing.
pub pickup_once :
    (normal : String → String) (id now : ℕ) (p : PickupInput) (d : Desk) {r : PickupRecord}
    {d1 : Desk}
    → execute_pickup normal id now p d ≡ (ok r, d1)
    → (ss : List DeskStep) (normal' : String → String) (id' now' : ℕ) (p' : PickupInput)
    → p'.ticket_id ≡ p.ticket_id
    → (e : Error) × (execute_pickup normal' id' now' p' (run_steps ss d1)
        ≡ (err e, run_steps ss d1))
pickup_once normal id now p d {r} {d1} h ss normal' id' now' p' same =
    pickup_refused normal' id' now' p' (run_steps ss d1) (
      subst (λ i. is_some (active_pickup i (run_steps ss d1).pickups) ≡ true) (sym same)
        ((run_steps-Good ss d1).pickups p.ticket_id
          (active_after id now p d r d1 (execute_pickup-PickedUp normal id now p d h))))

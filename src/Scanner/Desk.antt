-- ===== src/Scanner/Desk.antt =====
-- The operations of the racepack desk and of the check-in (modules/racepack, modules/scanner) as one
-- transition system on the tables of both.
use ivyticketing.Base.{
  ℕ, ◌≤◌, ◌≡◌, refl, String, Bool, true, ◌&&◌, some, List, [], ◌∷◌, ◌==◌, find, is_some,
  count_where, All,
}
use mathlib.Core.Path.{subst}
use ivyticketing.Store.Rows.{Order}
use ivyticketing.Store.Tx.{Result, ok, err}
use ivyticketing.Racepack.Rows.{
  EventTicket, RacepackCounter, PickupSlot, PickupRecord, ProblemCase, ProblemStatus,
  ProxyAuthorization, IdempotencyKey, Desk, is_picked_up,
}
use ivyticketing.Racepack.Calls.{settle}
use ivyticketing.Racepack.Slots.{
  create_counter, update_counter, set_counter_active, create_slot, update_slot,
  reserve_slot_for_participant, release_slot,
}
use ivyticketing.Racepack.Pickup.{PickupInput, active_pickup}
use ivyticketing.Racepack.Cases.{
  create_problem_case, update_problem_case_status, create_proxy_authorization,
}
use ivyticketing.Racepack.Idempotency.{Keyed, is_key}
use ivyticketing.Racepack.Handler.{create_pickup}
use ivyticketing.Scanner.Service.{CheckInInput, CheckInResult, handle_check_in}

-- An operation with its arguments; `elsewhere` is what other modules do to the users, the orders and
-- the tickets.
pub data DeskStep : Type 0 where
  picks_up :
      (String → String)
      → (String → String)
      → (PickupRecord → String)
      → ℕ
      → ℕ
      → String
      → String
      → PickupInput
      → DeskStep
  checks_in :
      (ℕ → ℕ → Bool)
      → (String → String)
      → (CheckInResult → String)
      → ℕ
      → String
      → String
      → CheckInInput
      → DeskStep
  creates_counter : RacepackCounter → DeskStep
  updates_counter : ℕ → String → String → Bool → DeskStep
  sets_counter_active : ℕ → Bool → DeskStep
  creates_slot : PickupSlot → DeskStep
  updates_slot : ℕ → String → ℕ → ℕ → ℕ → ℕ → Bool → DeskStep
  reserves_slot : ℕ → ℕ → DeskStep
  releases_slot : ℕ → DeskStep
  creates_case : ProblemCase → DeskStep
  updates_case : ℕ → ℕ → ProblemStatus → String → DeskStep
  authorizes_proxy : ProxyAuthorization → DeskStep
  elsewhere : List ℕ → List Order → List EventTicket → DeskStep

unfoldable pub run_step : DeskStep → Desk → Desk
unfolding create_pickup handle_check_in create_counter update_counter set_counter_active create_slot
    update_slot reserve_slot_for_participant release_slot create_problem_case
    update_problem_case_status create_proxy_authorization
run_step (picks_up s n r id now key hash p) d = (create_pickup s n r id now key hash p d).1
run_step (checks_in m s r now key hash p) d = (handle_check_in m s r now key hash p d).1
run_step (creates_counter c) d = (create_counter c d).1
run_step (updates_counter id n l a) d = (update_counter id n l a d).1
run_step (sets_counter_active id a) d = (set_counter_active id a d).1
run_step (creates_slot s) d = (create_slot s d).1
run_step (updates_slot id n p s e c a) d = (update_slot id n p s e c a d).1
run_step (reserves_slot event id) d = (reserve_slot_for_participant event id d).1
run_step (releases_slot id) d = release_slot id d
run_step (creates_case c) d = (create_problem_case c d).1
run_step (updates_case id actor to resolution) d =
    (update_problem_case_status id actor to resolution d).1
run_step (authorizes_proxy a) d = (create_proxy_authorization a d).1
run_step (elsewhere us os ts) d = record d { users = us; orders = os; tickets = ts }

unfoldable pub run_steps : List DeskStep → Desk → Desk
unfolding run_step
run_steps [] d = d
run_steps (s ∷ ss) d = run_steps ss (run_step s d)

-- A ticket has one active pickup at most, and no slot has more reserved than its capacity.
abbrev pub of_ticket : ℕ → PickupRecord → Bool
of_ticket id r = (r.ticket_id == id) && is_picked_up r.status

abbrev pub Fits : PickupSlot → Type 0
Fits s = s.reserved_count ≤ s.capacity

pub record Sound (pickups : List PickupRecord) (slots : List PickupSlot) : Type 0 where
  pub one_each : (id : ℕ) → count_where (of_ticket id) pickups ≤ 1
  pub all_fit : All Fits slots

-- What a step keeps: soundness, the pickups that are active, and the stored keys.
pub record Good (d d' : Desk) : Type 0 where
  pub sound : Sound d.pickups d.slots → Sound d'.pickups d'.slots
  pub pickups :
      (id : ℕ)
      → is_some (active_pickup id d.pickups) ≡ true
      → is_some (active_pickup id d'.pickups) ≡ true
  pub keys :
      (q : Keyed) (k : IdempotencyKey)
      → find (is_key q) d.keys ≡ some k
      → find (is_key q) d'.keys ≡ some k

pub Good-same : (d : Desk) → Good d d
Good-same d = record { sound = λ s. s; pickups = λ id h. h; keys = λ q k h. h }

pub Good-after : (a b c : Desk) → Good a b → Good b c → Good a c
Good-after a b c g h = record {
  sound = λ s. h.sound (g.sound s);
  pickups = λ id e. h.pickups id (g.pickups id e);
  keys = λ q k e. h.keys q k (g.keys q k e);
}

-- A step that changes slots, and of these none that fits to one that does not.
pub Good-slots :
    (d d' : Desk)
    → d.pickups ≡ d'.pickups
    → d.keys ≡ d'.keys
    → (All Fits d.slots → All Fits d'.slots)
    → Good d d'
Good-slots d d' p k f = record {
  sound = λ s. record {
    one_each = λ id. subst (λ ps. count_where (of_ticket id) ps ≤ 1) p (s.one_each id);
    all_fit = f s.all_fit;
  };
  pickups = λ id e. subst (λ ps. is_some (active_pickup id ps) ≡ true) p e;
  keys = λ q r e. subst (λ ks. find (is_key q) ks ≡ some r) k e;
}

pub settle-Good :
    {A : Type 0} (d : Desk) (r : Result (A × Desk))
    → ((a : A) (d' : Desk) → r ≡ ok (a, d') → Good d d')
    → Good d (settle d r).1
unfolding settle
settle-Good d (ok (a, d')) g = g a d' refl
settle-Good d (err e) g = Good-same d

-- ===== src/Registration/Admission.antt =====
-- What the gate of checkout demands, and what that means together with the waiting room.
use ivyticketing.Base.{
  ℕ, ◌≡◌, ◌≤◌, refl, true, ◌&&◌, Option, none, some, List, ◌==◌, arith, find, String, All-find, ◌∙◌,
  Option-cases, inl, inr, is_id,
}
use ivyticketing.Store.Rows.{Database, Order}
use ivyticketing.Store.Tx.{Error, ok}
use ivyticketing.Orders.Service.{Token, Service, Draws}
use ivyticketing.Orders.Checkout.{checkout}
use ivyticketing.Lifecycle.Service.{Schedule, is_window_open}
use ivyticketing.Queue.Rows.{Room, QueueToken, QueueAdmission, is_allowed, is_active}
use ivyticketing.Queue.Tokens.{token_by_id, active_admission}
use ivyticketing.Queue.Service.{check_admission}
use ivyticketing.Queue.Keeps.{active_admission-active}
use ivyticketing.Queue.Sound.{Sound, backs}
use ivyticketing.Queue.Steps.{Reach, Reach-Sound}
use ivyticketing.Registration.Modes.{Mode, is_queue_mode}
use ivyticketing.Registration.Settings.{Settings, resolve_for_checkout}
use ivyticketing.Registration.Gate.{gated, admit, token_id, wired}

-- A place at the counter: an admission that is the token shown and that has not run out, and behind it
-- an allowed token of the participant and the event.
pub record Place (room : Room) (participant event id now : ℕ) : Type 0 where
  pub admission : QueueAdmission
  pub token : QueueToken
  pub shown : admission.id ≡ id
  pub in_time : now ≤ admission.checkout_expires_at
  pub found : token_by_id admission.token_id room.tokens ≡ some token
  pub allowed : is_allowed token.status ≡ true
  pub of_event : token.event_id ≡ event
  pub of_participant : token.participant_id ≡ participant

check_admission-found :
    (p e now : ℕ) (token : Option ℕ) (r : Room)
    → check_admission p e token now r ≡ none
    → (a : QueueAdmission) × (active_admission e p r ≡ some a)
      × (is_id token a.id ≡ true)
      × (now ≤ a.checkout_expires_at)
unfolding check_admission
check_admission-found p e now token r h = elim (Option-cases (active_admission e p r)) [
  | inl n ↦ absurd (ground (arith, h, n))
  | inr (a, f) ↦ (a, f, ground (arith, h, f), ground (arith, h, f))
]

backs-found :
    (ts : List QueueToken) (a : QueueAdmission)
    → is_active a.status ≡ true
    → backs ts a ≡ true
    → (t : QueueToken) × (token_by_id a.token_id ts ≡ some t)
      × (is_allowed t.status ≡ true)
      × (t.event_id ≡ a.event_id)
      × (t.participant_id ≡ a.participant_id)
unfolding backs
backs-found ts a v h = elim (Option-cases (token_by_id a.token_id ts)) [
  | inl n ↦ absurd (ground (arith, h, v, n))
  | inr (t, f) ↦ (t, f, ground (arith, h, v, f), ground (arith, h, v, f), ground (arith, h, v, f))
]

check_admission-Place :
    (p e now id : ℕ) (token : Option ℕ) (r : Room)
    → Sound r
    → token ≡ some id
    → check_admission p e token now r ≡ none
    → Place r p e id now
unfolding active_admission
check_admission-Place p e now id token r s k h =
    let (a, found, shown, in_time) = check_admission-found p e now token r h in
    let act = active_admission-active e p r.admissions found in
    let (t, at, allowed, event, participant) = backs-found r.tokens a act.0 (
      All-find (λ b. backs r.tokens b ≡ true)
        (λ b. (b.event_id == e) && (b.participant_id == p) && is_active b.status) r.admissions
        s.backed found) in
    record {
      admission = a;
      token = t;
      shown = ground (arith, shown, k);
      in_time = in_time;
      found = at;
      allowed = allowed;
      of_event = event ∙ act.1;
      of_participant = participant ∙ act.2;
    }

-- A gate that admits in a queue mode has a token that is an identifier, and the waiting room's check
-- of it passes.
admit-queue :
    (number : Mode → ℕ) (priority : ℕ → ℕ → ℕ → Token → Option Error) (room : Room)
    (schedule : Schedule) (now : ℕ) (settings : Settings) (p e c : ℕ) (token : Token) (d : Database)
    → is_queue_mode (resolve_for_checkout e c settings) ≡ true
    → admit (wired number priority room schedule now d) settings p e c token ≡ none
    → (check_admission p e (token_id token) now room ≡ none)
      × ((is_window_open c (number (resolve_for_checkout e c settings)) schedule).0 ≡ true)
unfolding admit wired is_queue_mode
admit-queue number priority room schedule now settings p e c token d q h = ground (arith, q, h)

token-shown :
    (p e now : ℕ) (token : Option ℕ) (r : Room)
    → check_admission p e token now r ≡ none
    → (id : ℕ) × (token ≡ some id)
token-shown p e now none r h =
    let (a, found, shown, in_time) = check_admission-found p e now none r h in cc
token-shown p e now (some id) r h = (id, refl)

checkout-gate :
    (s : Service) (w : Draws) (p e c : ℕ) (token : Token) (answers : Option String) (d : Database)
    {order : Order}
    → (checkout s w p e c token answers d).0 ≡ ok order
    → s.gate p e c token d ≡ none
unfolding checkout
checkout-gate s w p e c token answers d h = elim (Option-cases (s.gate p e c token d)) [
  | inl n ↦ n
  | inr (x, f) ↦ absurd (ground (arith, h, f))
]

-- No one passes by the waiting room: where the settings of a category resolve to a queue mode, the gate
-- is the one the server wires, and the room is one that its operations reach from an empty one with
-- fresh identifiers, a checkout that succeeds shows a token that is the identifier of an admission
-- which has not run out, and behind it stands an allowed token of that participant and event; and
-- the window of the category is open for the mode.
pub queue_guards_checkout :
    (hash : String → ℕ → ℕ) (draw : Room → ℕ) (number : Mode → ℕ)
    (priority : ℕ → ℕ → ℕ → Token → Option Error) (room : Room) (schedule : Schedule) (now : ℕ)
    (settings : Settings) (s : Service) (w : Draws) (p e c : ℕ) (token : Token)
    (answers : Option String) (d : Database) {order : Order}
    → ((q : Room) → find (λ b. b.id == draw q) q.admissions ≡ none)
    → Reach hash draw room
    → is_queue_mode (resolve_for_checkout e c settings) ≡ true
    → (checkout (gated number priority room schedule now settings s) w p e c token answers d).0
      ≡ ok order
    → (id : ℕ) × (token_id token ≡ some id)
      × Place room p e id now
      × ((is_window_open c (number (resolve_for_checkout e c settings)) schedule).0 ≡ true)
unfolding gated
queue_guards_checkout hash draw number priority room schedule now settings s w p e c token answers d
      fresh reach q done =
    let admitted =
      checkout-gate (gated number priority room schedule now settings s) w p e c token answers d
        done in
    let (checked, window) =
      admit-queue number priority room schedule now settings p e c token d q admitted in
    let (id, shown) = token-shown p e now (token_id token) room checked in
    (
      id,
      shown,
      check_admission-Place p e now id (token_id token) room
          (Reach-Sound hash draw room fresh reach) shown checked,
      window,
    )

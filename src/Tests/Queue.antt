-- ===== src/Tests/Queue.antt =====
-- Runs of a waiting room: two participants join, one is released and checks out.
use ivyticketing.Base.{
  ℕ, ◌+◌, ◌*◌, ◌<◌, ◌≤◌, ◌≡◌, refl, true, false, none, some, List, [], ◌∷◌, ◌==◌, arith, find,
  String, All, length, take, drop, suc,
}
use ivyticketing.Inventory.{check_and_lock, reserve}
use ivyticketing.Inventory.Queries.{
  category_by_id, user_by_id, order_by_id, active_count, sold_count, create_reservation, clashes,
}
use ivyticketing.Orders.Queries.{
  event_by_id, grant_by_id, order_by_number, count_active_orders_for_user_category, create_order,
}
use ivyticketing.Orders.Service.{Service, Token, checkout_eligible, unique_order_number}
use ivyticketing.Orders.Checkout.{checkout, checkout_tx, consume_token}
use ivyticketing.Lifecycle.Service.{Schedule, is_window_open, lifecycle_of_category}
use ivyticketing.Registration.Modes.{Mode, is_queue_mode}
use ivyticketing.Registration.Settings.{Settings, resolve_for_checkout}
use ivyticketing.Registration.Gate.{gated, token_id}
use ivyticketing.Registration.Admission.{Place, queue_guards_checkout}
use ivyticketing.Tests.Data.{start, service, first_draws, first_order}
use ivyticketing.Store.Tx.{ok, ◌>>=◌, exec_tx}
use ivyticketing.Queue.Rows.{is_waiting, is_active, Room, QueueToken, QueueAdmission}
use ivyticketing.Base.Sort.{sort_by}
use ivyticketing.Queue.Cache.{add_waiting, move_to_allowed, invalidate_cached_status}
use ivyticketing.Queue.Tokens.{
  waiting_line, list_waiting, token_by_id, token_of, create_token, waits_at, comes_before,
  is_waiting_id, mark_allowed, create_admission, is_open_for, active_admission,
}
use ivyticketing.Queue.Service.{
  JoinMode, join, pool_and_score, deliver, release, release_each, release_one, release_tx,
  check_admission,
}
use ivyticketing.Queue.Sound.{Sound}
use ivyticketing.Queue.Release.{Served, release-drop, release_times, release_times-serves}
use ivyticketing.Queue.Steps.{joins, releases, Reach, opens, more, Reach-Sound}

-- A seed's hash, and identifiers above all that there are.
abbrev no_hash : String → ℕ → ℕ
no_hash seed p = p

sum_tokens : List QueueToken → ℕ
sum_tokens [] = 0
sum_tokens (t ∷ ts) = t.id + sum_tokens ts

sum_admissions : List QueueAdmission → ℕ
sum_admissions [] = 0
sum_admissions (a ∷ l) = a.id + sum_admissions l

next_id : Room → ℕ
unfolding sum_tokens sum_admissions
next_id r = suc (sum_tokens r.tokens + sum_admissions r.admissions)

above_all :
    (k : ℕ) (l : List QueueAdmission) → sum_admissions l < k → find (λ b. b.id == k) l ≡ none
unfolding sum_admissions
above_all k [] h = refl
above_all k (a ∷ l) h = ground (arith, above_all k l)

next_id-fresh : (s : Room) → find (λ b. b.id == next_id s) s.admissions ≡ none
unfolding next_id
next_id-fresh s = above_all (next_id s) s.admissions (omega arith)

abbrev empty_room : Room
empty_room = record {
  tokens = [];
  admissions = [];
  controls = [];
  waiting = [];
  allowed = [];
  cached = [];
}

abbrev room_one : Room
room_one = (join no_hash next_id JoinMode.war_queue 3 1 7 10 empty_room).1

abbrev room_two : Room
room_two = (join no_hash next_id JoinMode.war_queue 3 1 8 20 room_one).1

abbrev room_three : Room
room_three = (release next_id 1 1 1000 50 room_two).1

two_joined : Reach no_hash next_id room_two
two_joined =
    more (more opens (joins JoinMode.war_queue 3 1 7 10 empty_room))
      (joins JoinMode.war_queue 3 1 8 20 room_one)

one_released : Reach no_hash next_id room_three
one_released = more two_joined (releases 1 1 1000 50 room_two)

Reach-Sound_example : Sound room_three
Reach-Sound_example = Reach-Sound no_hash next_id room_three next_id-fresh one_released

two_joined-Sound : Sound room_two
two_joined-Sound = Reach-Sound no_hash next_id room_two next_id-fresh two_joined

release-drop_example :
    ((release next_id 1 1 1000 50 room_two).0 ≡ length (take 1 (waiting_line 1 room_two)))
    × (waiting_line 1 room_three ≡ drop 1 (waiting_line 1 room_two))
    × All (Served 1 room_three) (take 1 (waiting_line 1 room_two))
    × Sound room_three
release-drop_example = release-drop next_id 1 1 1000 50 room_two next_id-fresh two_joined-Sound

short_line : length (waiting_line 1 room_two) ≤ 2 * 1
unfolding waiting_line sort_by join pool_and_score deliver create_token token_by_id token_of
    add_waiting next_id waits_at is_waiting comes_before
short_line = omega arith

release_times-serves_example :
    (waiting_line 1 (release_times next_id 1 1 1000 (λ k. 50) 2 room_two) ≡ [])
    × All (Served 1 (release_times next_id 1 1 1000 (λ k. 50) 2 room_two)) (waiting_line 1 room_two)
release_times-serves_example =
    release_times-serves next_id 1 1 1000 (λ k. 50) 2 room_two next_id-fresh two_joined-Sound
      short_line

one_counted : (release next_id 1 1 1000 50 room_two).0 ≡ 1
unfolding waiting_line sort_by join pool_and_score deliver create_token token_by_id token_of
    add_waiting next_id waits_at is_waiting comes_before release release_each release_one release_tx
    list_waiting is_waiting_id mark_allowed create_admission is_open_for move_to_allowed
    invalidate_cached_status is_active
one_counted = refl

-- The event's mode is WAR_QUEUE, no lifecycle is set up, and the admission of participant 7 is 4.
abbrev war : Settings
war = record {
  events =
      record {
        event_id = 1;
        default_mode = Mode.war_queue;
        queue_enabled = true;
        ballot_enabled = false;
        priority_enabled = false;
        waitlist_enabled = false;
      }
      ∷ [];
  categories = [];
}

abbrev no_lifecycles : Schedule
no_lifecycles = record { lifecycles = []; phases = [] }

abbrev queue_service : Service
queue_service = gated (λ m. 0) (λ p e c t. none) room_three no_lifecycles 100 war service

mode_is_queue : is_queue_mode (resolve_for_checkout 1 2 war) ≡ true
unfolding resolve_for_checkout is_queue_mode
mode_is_queue = refl

queue_checkout :
    (checkout queue_service first_draws 7 1 2 (Token.grant 4) none start).0 ≡ ok first_order
unfolding checkout checkout_tx check_and_lock reserve create_order consume_token ◌>>=◌ exec_tx
    event_by_id category_by_id active_count sold_count checkout_eligible
    count_active_orders_for_user_category unique_order_number order_by_number order_by_id user_by_id
    create_reservation clashes grant_by_id gated resolve_for_checkout is_window_open
    lifecycle_of_category check_admission active_admission waiting_line sort_by join pool_and_score
    deliver create_token token_by_id token_of add_waiting next_id waits_at is_waiting comes_before
    release release_each release_one release_tx list_waiting is_waiting_id mark_allowed
    create_admission is_open_for move_to_allowed invalidate_cached_status is_active
queue_checkout = refl

queue_guards_checkout_example :
    (id : ℕ) × (token_id (Token.grant 4) ≡ some id)
    × Place room_three 7 1 id 100
    × ((is_window_open 2 0 no_lifecycles).0 ≡ true)
queue_guards_checkout_example =
    queue_guards_checkout no_hash next_id (λ m. 0) (λ p e c t. none) room_three no_lifecycles 100
      war service first_draws 7 1 2 (Token.grant 4) none start next_id-fresh one_released
      mode_is_queue queue_checkout

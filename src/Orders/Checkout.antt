-- ===== src/Orders/Checkout.antt =====
-- `Service.Checkout` (services/api/internal/modules/orders/service.go).
use ivyticketing.Base.{
  ℕ, ◌+◌, String, Bool, true, false, not, ◌||◌, Option, none, some, ◌!=◌, leb, if◌then◌else◌,
}
use ivyticketing.Store.Rows.{
  Database, EventCategory, Order, InventoryReservation, AccessGrant, OrderStatus, ReservationStatus,
  GrantStatus,
}
use ivyticketing.Store.Tx.{
  Tx, ◌>>=◌, ◌>>◌, Result, ok, err, Error, one, gets, throw_if, check, pure, exec_tx,
  category_not_found, max_order_exceeded, grant_not_found, grant_already_consumed, grant_expired,
}
use ivyticketing.Inventory.{check_and_lock, reserve}
use ivyticketing.Orders.Queries.{
  get_event_by_id, count_active_orders_for_user_category, create_order, get_access_grant,
  consume_access_grant,
}
use ivyticketing.Orders.Service.{
  Service, Draws, Token, empty, grant, opaque, validate, answers_json, is_after, checkout_eligible,
  unique_order_number,
}

abbrev pub is_consumed : GrantStatus → Bool
is_consumed GrantStatus.consumed = true
is_consumed _ = false

abbrev pub is_usable_status : GrantStatus → Bool
is_usable_status GrantStatus.active = true
is_usable_status _ = false

-- The order that a checkout inserts.
abbrev pub new_order : Service → Draws → EventCategory → ℕ → ℕ → ℕ → String → Option String → Order
new_order s w cat participant_id event_id category_id number answers = record {
  id = w.order_id;
  organization_id = cat.organization_id;
  event_id = event_id;
  category_id = category_id;
  participant_id = some participant_id;
  order_number = number;
  status = OrderStatus.pending_payment;
  subtotal = cat.price;
  fee = 0;
  discount = 0;
  total = cat.price;
  expired_at = some (w.now + s.ttl);
  guest_email = none;
  guest_name = none;
  guest_phone = none;
  terms_accepted_at = none;
  terms_version = none;
  waiver_accepted_at = none;
  waiver_version = none;
  form_answers = answers_json answers;
  refunded_amount = 0;
  refund_reason = none;
  refunded_at = none;
}

-- The reservation of an order's slot.
abbrev pub new_reservation : Service → Draws → ℕ → Order → InventoryReservation
new_reservation s w participant_id o = record {
  id = w.reservation_id;
  organization_id = o.organization_id;
  event_id = o.event_id;
  category_id = o.category_id;
  order_id = o.id;
  participant_id = participant_id;
  status = ReservationStatus.active;
  expires_at = w.now + s.ttl;
}

-- The checks of the grant, in the order of the code.
abbrev pub grant_error : AccessGrant → ℕ → ℕ → ℕ → Option Error
grant_error g participant_id category_id now =
    if g.participant_id != participant_id || g.category_id != category_id
    then some grant_not_found
    else if is_consumed g.status
    then some grant_already_consumed
    else if not (is_usable_status g.status)
    then some grant_expired
    else if is_after now g.expires_at
    then some grant_expired
    else none

-- A token that is no grant's identifier is left to the gate.
unfoldable pub consume_token : Token → ℕ → ℕ → ℕ → ℕ → Tx (Unit {0})
consume_token empty participant_id category_id order_id now d = ok (tt, d)
consume_token (opaque _) participant_id category_id order_id now d = ok (tt, d)
consume_token (grant id) participant_id category_id order_id now d = elim (get_access_grant id d) [
  | none ↦ ok (tt, d)
  | some g ↦ elim (grant_error g participant_id category_id now) [
    | some e ↦ err e
    | none ↦ consume_access_grant id order_id now d
  ]
]

unfoldable pub checkout_tx : Service → Draws → ℕ → ℕ → ℕ → Token → Option String → Tx Order
checkout_tx s w participant_id event_id category_id token answers = do
  event ← one (get_event_by_id event_id) category_not_found
  checked ← check_and_lock category_id
  let cat = checked.category
  throw_if (cat.event_id != event_id) category_not_found
  check (checkout_eligible event cat w.now)
  active ← gets (count_active_orders_for_user_category category_id participant_id)
  throw_if (leb cat.max_order_per_user active) max_order_exceeded
  number ← unique_order_number w.order_number
  order ← create_order (new_order s w cat participant_id event_id category_id number answers)
  _ ← reserve (new_reservation s w participant_id order)
  consume_token token participant_id category_id order.id w.now
  pure order

-- The hook that follows a checkout is best effort and changes only the queue's tables.
unfoldable pub checkout :
    Service → Draws → ℕ → ℕ → ℕ → Token → Option String → Database → Result Order × Database
checkout s w participant_id event_id category_id token answers d =
    elim (s.gate participant_id event_id category_id token d) [
      | some e ↦ (err e, d)
      | none ↦ elim (validate s event_id category_id answers d) [
        | some e ↦ (err e, d)
        | none ↦ exec_tx (checkout_tx s w participant_id event_id category_id token answers) d
      ]
    ]

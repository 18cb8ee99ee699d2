-- ===== src/Orders/Guest.antt =====
-- `Service.GuestCheckout` and `Service.ClaimOrder` (services/api/internal/modules/orders/service.go).
use ivyticketing.Base.{
  ℕ, ◌+◌, String, Bool, not, Option, none, some, is_some, str_eq, leb, ◌!=◌, if◌then◌else◌,
}
use ivyticketing.Store.Rows.{Database, EventCategory, Order, OrderStatus}
use ivyticketing.Store.Tx.{
  Tx, ◌>>=◌, ◌>>◌, Result, err, one, gets, throw_if, check, pure, exec_tx, category_not_found,
  max_order_exceeded, guest_email_required, terms_required, order_not_found, order_already_claimed,
}
use ivyticketing.Inventory.{check_and_lock, reserve}
use ivyticketing.Orders.Queries.{
  get_event_by_id, get_order_by_id, count_active_orders_for_guest_category, create_order,
  link_order_to_participant, link_ticket_to_participant,
}
use ivyticketing.Orders.Service.{
  Service, Draws, Token, validate, answers_json, checkout_eligible, unique_order_number,
}
use ivyticketing.Orders.Checkout.{new_reservation}

-- `uuid.Nil`.
abbrev pub nil_id : ℕ
nil_id = 0

pub record GuestCheckoutRequest : Type 0 where
  pub guest_email : String
  pub guest_name : String
  pub guest_phone : String
  pub terms_accepted : Bool
  pub terms_version : String
  pub waiver_accepted : Bool
  pub waiver_version : String
  pub admission_token : Token
  pub form_answers : Option String
  pub answers : Option String

-- `pgtype.Text{String: s, Valid: s != ""}`.
abbrev pub null_text : String → Option String
null_text s = if str_eq s "" then none else some s

-- The field of the new name wins over that of the old one.
abbrev pub answers_of : GuestCheckoutRequest → Option String
answers_of r = elim r.form_answers [ none ↦ r.answers | some a ↦ some a ]

abbrev pub new_guest_order :
    Service → Draws → EventCategory → GuestCheckoutRequest → ℕ → ℕ → String → Order
new_guest_order s w cat r event_id category_id number = record {
  id = w.order_id;
  organization_id = cat.organization_id;
  event_id = event_id;
  category_id = category_id;
  participant_id = none;
  order_number = number;
  status = OrderStatus.pending_payment;
  subtotal = cat.price;
  fee = 0;
  discount = 0;
  total = cat.price;
  expired_at = some (w.now + s.ttl);
  guest_email = some r.guest_email;
  guest_name = null_text r.guest_name;
  guest_phone = null_text r.guest_phone;
  terms_accepted_at = some w.now;
  terms_version = null_text r.terms_version;
  waiver_accepted_at = if r.waiver_accepted then some w.now else none;
  waiver_version = null_text r.waiver_version;
  form_answers = answers_json (answers_of r);
  refunded_amount = 0;
  refund_reason = none;
  refunded_at = none;
}

unfoldable pub guest_checkout_tx :
    Service → (String → String → Bool) → Draws → GuestCheckoutRequest → ℕ → ℕ → Tx Order
guest_checkout_tx s citext_eq w r event_id category_id = do
  event ← one (get_event_by_id event_id) category_not_found
  checked ← check_and_lock category_id
  let cat = checked.category
  throw_if (cat.event_id != event_id) category_not_found
  check (checkout_eligible event cat w.now)
  active ← gets (count_active_orders_for_guest_category citext_eq category_id r.guest_email)
  throw_if (leb cat.max_order_per_user active) max_order_exceeded
  number ← unique_order_number w.order_number
  order ← create_order (new_guest_order s w cat r event_id category_id number)
  _ ← reserve (new_reservation s w nil_id order)
  pure order

unfoldable pub guest_checkout :
    Service
    → (String → String → Bool)
    → Draws
    → GuestCheckoutRequest
    → ℕ
    → ℕ
    → Database
    → Result Order × Database
guest_checkout s citext_eq w r event_id category_id d =
    if str_eq r.guest_email ""
    then (err guest_email_required, d)
    else if not r.terms_accepted
    then (err terms_required, d)
    else elim (s.gate nil_id event_id category_id r.admission_token d) [
      | some e ↦ (err e, d)
      | none ↦ elim (validate s event_id category_id (answers_of r) d) [
        | some e ↦ (err e, d)
        | none ↦ exec_tx (guest_checkout_tx s citext_eq w r event_id category_id) d
      ]
    ]

unfoldable pub claim_order_tx : ℕ → ℕ → Tx Order
claim_order_tx user_id order_id = do
  order ← one (get_order_by_id order_id) order_not_found
  throw_if (is_some order.participant_id) order_already_claimed
  updated ← link_order_to_participant order_id user_id
  link_ticket_to_participant order_id user_id
  pure updated

unfoldable pub claim_order : ℕ → ℕ → Database → Result Order × Database
claim_order user_id order_id = exec_tx (claim_order_tx user_id order_id)

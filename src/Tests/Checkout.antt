-- ===== src/Tests/Checkout.antt =====
-- Runs of checkouts, cancellations, refunds and expiries.
use ivyticketing.Base.{ℕ, ◌+◌, ◌≤◌, ◌≡◌, ◌≢◌, refl, true, false, none, some, arith, map, str_eq}
use ivyticketing.Base.Int.{pos, negsuc}
use ivyticketing.Store.Tx.{ok, err, invalid_state, Error, ◌>>=◌, exec_tx}
use ivyticketing.Inventory.{check_and_lock, reserve}
use ivyticketing.Inventory.Queries.{
  category_by_id, user_by_id, has_user, order_by_id, active_count, sold_count, create_reservation,
  clashes, count_active_reservations_by_category, count_paid_by_category,
}
use ivyticketing.Orders.Queries.{
  as_refunded, record_order_refund, event_by_id, grant_by_id, usable_by_id, order_by_number,
  count_active_orders_for_user_category, create_order, consume_access_grant,
}
use ivyticketing.Orders.Service.{Token, checkout_eligible, unique_order_number}
use ivyticketing.Orders.Checkout.{checkout, checkout_tx, consume_token}
use ivyticketing.Orders.Promises.{Admitted, checkout_admits}
use ivyticketing.Orders.Grants.{GrantUsed, checkout_uses_grant, grant_single_use}
use ivyticketing.Capacity.Invariant.{capacity_of}
use ivyticketing.Capacity.Steps.{
  Reach, here, next, checks_out, cancels, no_overselling, Reach-IsValid, start-IsValid,
}
use ivyticketing.Capacity.Interleaving.{split_count_is_safe, then, done}
use ivyticketing.Orders.Changes.{cancel, refund_order, refund_order_tx}
use ivyticketing.Orders.ChangePromises.{refund_once, RefundOutcome, refund_order_outcome}
use ivyticketing.Orders.Expiration.{expire_orders}
use ivyticketing.Orders.Expiry.{expire_orders_exact, expired_if_overdue}
use ivyticketing.Orders.Guest.{GuestCheckoutRequest, guest_checkout, null_text, nil_id}
use ivyticketing.Orders.GuestPromises.{guest_checkout_fails}
use ivyticketing.Tests.Data.{
  start, service, first_draws, second_draws, first_order, after_first, grant_five, charged, settled,
  paid_order,
}

first_checkout : (checkout service first_draws 7 1 2 (Token.grant 5) none start).0 ≡ ok first_order
unfolding checkout checkout_tx check_and_lock reserve create_order consume_token ◌>>=◌ exec_tx
    event_by_id category_by_id active_count sold_count checkout_eligible
    count_active_orders_for_user_category unique_order_number order_by_number order_by_id user_by_id
    create_reservation clashes grant_by_id consume_access_grant usable_by_id
first_checkout = refl

grant_found : grant_by_id 5 start.grants ≡ some grant_five
unfolding grant_by_id
grant_found = refl

one_checkout : Reach start after_first
one_checkout = next here (checks_out service first_draws 7 1 2 (Token.grant 5) none)

no_overselling_example :
    count_paid_by_category 2 after_first + count_active_reservations_by_category 2 after_first
    ≤ capacity_of 2 after_first.categories
no_overselling_example = no_overselling refl refl one_checkout 2

split_count_is_safe_example :
    count_active_reservations_by_category 2 (cancel 7 11 after_first).1
      + count_paid_by_category 2 (cancel 7 11 after_first).1
    ≤ count_active_reservations_by_category 2 after_first
      + count_paid_by_category 2 (cancel 7 11 after_first).1
split_count_is_safe_example =
    split_count_is_safe (Reach-IsValid one_checkout (start-IsValid start refl refl))
      (then done (cancels 7 11)) done 2

checkout_admits_example : Admitted service first_draws 7 1 2 (Token.grant 5) start first_order
checkout_admits_example =
    checkout_admits service first_draws 7 1 2 (Token.grant 5) none start first_checkout

checkout_uses_grant_example : GrantUsed 7 2 100 5 grant_five after_first
checkout_uses_grant_example =
    checkout_uses_grant service first_draws 7 1 2 5 none start grant_found first_checkout

grant_single_use_example :
    (checkout service second_draws 8 1 2 (Token.grant 5) none after_first).0 ≢ ok first_order
grant_single_use_example =
    grant_single_use service service first_draws second_draws 7 8 1 1 2 2 5 none none start
      grant_found first_checkout first_order

expire_orders_exact_example :
    (m : ℕ) × ((expire_orders 200 10 charged).0 ≡ ok m)
    × ((expire_orders 200 10 charged).1.orders ≡ map (expired_if_overdue 200) charged.orders)
expire_orders_exact_example = expire_orders_exact 200 10 charged (tt, tt) (omega arith)

paid_found : order_by_id 11 settled.orders ≡ some paid_order
unfolding order_by_id
paid_found = refl

refunded_once :
    (refund_order 3 1 11 (pos 100) "injury" 220 settled).0
    ≡ ok (as_refunded 100 (null_text "injury") 220 paid_order)
unfolding refund_order refund_order_tx record_order_refund exec_tx order_by_id ◌>>=◌
refunded_once = refl

refund_once_example :
    refund_order 3 1 11
      (negsuc 4)
      "again"
      230
      (refund_order 3 1 11 (pos 100) "injury" 220 settled).1
    ≡ (err invalid_state, (refund_order 3 1 11 (pos 100) "injury" 220 settled).1)
refund_once_example =
    refund_once 3 1 11 (pos 100) (negsuc 4) "injury" "again" 220 230 settled paid_found
      refunded_once

refund_order_outcome_example :
    RefundOutcome 3 1 11
      (pos 100)
      "injury"
      220
      paid_order
      settled
      (refund_order 3 1 11 (pos 100) "injury" 220 settled)
refund_order_outcome_example = refund_order_outcome 3 1 11 (pos 100) "injury" 220 settled paid_found

abbrev guest : GuestCheckoutRequest
guest = record {
  guest_email = "citra@example.org";
  guest_name = "Citra";
  guest_phone = "0812";
  terms_accepted = true;
  terms_version = "1";
  waiver_accepted = true;
  waiver_version = "1";
  admission_token = Token.empty;
  form_answers = none;
  answers = none;
}

nobody : has_user nil_id start ≡ false
unfolding user_by_id
nobody = refl

guest_checkout_fails_example :
    (x : Error) × (guest_checkout service str_eq first_draws guest 1 2 start ≡ (err x, start))
guest_checkout_fails_example =
    guest_checkout_fails service str_eq first_draws guest 1 2 start nobody

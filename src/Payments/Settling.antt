-- ===== src/Payments/Settling.antt =====
-- The order of a paid callback (`Apply`, modules/payments/processor.go): paid, with its slots taken and
-- its ticket issued.
use ivyticketing.Base.{
  ℕ, ◌≡◌, refl, sym, ◌∙◌, ap, String, true, ◌&&◌, ◌==◌, Option, some, List, [], ◌∷◌, arith,
  count_where, is_some,
}
use mathlib.Core.Path.{subst}
use ivyticketing.Store.Rows.{
  Database, Order, InventoryReservation, OrderStatus, ReservationStatus, is_active, same_status,
}
use ivyticketing.Store.Tx.{ok, ◌>>=◌}
use ivyticketing.Store.Post.{Post, Post-pure, Post-bind, Post-modify}
use ivyticketing.Inventory.Queries.{
  order_by_id, update_reservation_status_by_order, with_status_by_order,
}
use ivyticketing.Orders.Queries.{update_order_status, with_status}
use ivyticketing.Tickets.{issue_for_order, create_ticket, holder_user, ticket_of_order}
use ivyticketing.Payments.Queries.{complete_reservations_for_order}
use ivyticketing.Payments.Processor.{Processor, Moment, issue, record_fee, pay_order}
use ivyticketing.Capacity.Paying.{convert_winner-Spares, issue-Spares}
use ivyticketing.Orders.Cancelling.{order_by_id-with_status}

-- The active reservations of an order.
unfoldable pub active_of_order : ℕ → List InventoryReservation → ℕ
active_of_order id = count_where (λ r. r.order_id == id && is_active r.status)

-- What holds of the paid order `o` in the tables after the settlement.
pub record OrderSettled (o : Order) (d' : Database) : Type 0 where
  pub order_paid : order_by_id o.id d'.orders ≡ some (record o { status = OrderStatus.paid })
  pub slots_taken : active_of_order o.id d'.reservations ≡ 0
  pub ticket_issued : is_some (ticket_of_order o.id d'.tickets) ≡ true

active_of_order-completed :
    (id : ℕ) (rs : List InventoryReservation)
    → active_of_order id (with_status_by_order id ReservationStatus.completed rs) ≡ 0
unfolding active_of_order with_status_by_order
active_of_order-completed id [] = refl
active_of_order-completed id (r ∷ rs) = ground (arith, active_of_order-completed id rs)

issue_for_order-ticket :
    (n : Option String) (o : Order) (d : Database) (a : Unit {0}) (d' : Database)
    → issue_for_order n o d ≡ ok (a, d')
    → is_some (ticket_of_order o.id d'.tickets) ≡ true
unfolding issue_for_order create_ticket holder_user ticket_of_order ◌>>=◌
issue_for_order-ticket n o d a d' h = ground arith

issue-ticket :
    (p : Processor) (w : Moment) (o : Order) (d : Database) (a : Unit {0}) (d' : Database)
    → issue p w o d ≡ ok (a, d')
    → p.issuer ≡ true
    → is_some (ticket_of_order o.id d'.tickets) ≡ true
unfolding issue
issue-ticket p w o d a d' h q = ground (arith, issue_for_order-ticket w.ticket_number o d a d')

record_fee-same :
    (p : Processor) (o : Order) (d : Database) (a : Unit {0}) (d' : Database)
    → record_fee p o d ≡ ok (a, d')
    → d' ≡ d
unfolding record_fee
record_fee-same p o d a d' h = ground arith

update_order_status-at :
    (id : ℕ) (s old : OrderStatus) (d : Database) (a : Order) (d' : Database)
    → update_order_status id s old d ≡ ok (a, d')
    → d' ≡ record d { orders = with_status id s old d.orders }
unfolding update_order_status ◌>>=◌
update_order_status-at id s old d a d' h = ground arith

pub pay_order_settles :
    (p : Processor) (w : Moment) (o : Order) (d : Database)
    → p.issuer ≡ true
    → order_by_id o.id d.orders ≡ some o
    → same_status o.status OrderStatus.pending_payment ≡ true
    → Post (pay_order p w o) d (λ _ d'. OrderSettled o d')
unfolding pay_order complete_reservations_for_order update_reservation_status_by_order
pay_order_settles p w o d issues found pending =
    Post-bind (λ _ d'. order_by_id o.id d'.orders ≡ some paid) _ _ d
      (record {
        at = λ a d' h.
            ap (λ x. order_by_id o.id x.orders)
              (update_order_status-at o.id OrderStatus.paid OrderStatus.pending_payment d a d' h)
            ∙ order_by_id-with_status o.id _ _ d.orders found pending;
      })
      λ _ d1 s1. Post-modify _ _ d1 (
        Post-bind Half _ _ _
          (record {
            at = λ a d' h.
                let (_, x, y) =
                  (convert_winner-Spares o.participant_id o.category_id o.id w.now).at _ a d' h in
                rw (x, y) (s1, active_of_order-completed o.id d1.reservations);
          })
          λ _ d2 s2.
            Post-bind (λ _ d'. OrderSettled o d') _ _ d2
              (record {
                at = λ a d' h.
                    let (_, x, y) = (issue-Spares p w o).at d2 a d' h in
                    record {
                      order_paid = rw x s2.0;
                      slots_taken = rw y s2.1;
                      ticket_issued = issue-ticket p w o d2 a d' h issues;
                    };
              })
              λ _ d3 s3.
                Post-bind (λ _ d'. OrderSettled o d') _ _ d3
                  (record {
                    at = λ a d' h. subst (OrderSettled o) (sym (record_fee-same p o d3 a d' h)) s3;
                  })
                  λ _ d4 s4. Post-pure _ d4 s4)
  where
    paid : Order
    paid = record o { status = OrderStatus.paid }

    Half : Unit {0} → Database → Type 0
    Half _ d' =
        (order_by_id o.id d'.orders ≡ some paid) × (active_of_order o.id d'.reservations ≡ 0)

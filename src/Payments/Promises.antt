-- ===== src/Payments/Promises.antt =====
-- The rows of payments under callbacks (modules/payments/processor.go).
use ivyticketing.Base.{
  ℕ, ◌≡◌, ◌∙◌, String, false, ◌==◌, Option, none, some, List, [], ◌∷◌, arith, find,
}
use ivyticketing.Store.Rows.{Database, Order, Payment, PaymentStatus, OrderStatus, is_pending}
use ivyticketing.Store.Tx.{ok, pure, ◌>>=◌}
use ivyticketing.Store.Post.{Post, Post-pure, Post-bind, Post-modify}
use ivyticketing.Orders.Queries.{update_order_status}
use ivyticketing.Tickets.{issue_for_order, create_ticket, holder_user}
use ivyticketing.Inventory.Queries.{update_reservation_status_by_order}
use ivyticketing.Payments.Queries.{
  convert_ballot_winner_for_order, complete_reservations_for_order, with_paid, with_payment_status,
}
use ivyticketing.Payments.Processor.{
  Processor, Moment, issue, record_fee, convert_winner, pay_order, process_raw, Gateway,
}
use ivyticketing.Payments.Keeps.{Kept, process_raw-keeps}

-- The tables that the settlement of an order leaves alone.
abbrev pub SamePayments : Database → Database → Type 0
SamePayments d d' = (d'.payments ≡ d.payments) × (d'.webhooks ≡ d.webhooks)

update_order_status-SamePayments :
    (id : ℕ) (s old : OrderStatus) (d : Database) (a : Order) (d' : Database)
    → update_order_status id s old d ≡ ok (a, d')
    → SamePayments d d'
unfolding update_order_status ◌>>=◌
update_order_status-SamePayments id s old d a d' h = ground arith

convert_winner-SamePayments :
    (q : Option ℕ) (c o now : ℕ) (d : Database) (a : Unit {0}) (d' : Database)
    → convert_winner q c o now d ≡ ok (a, d')
    → SamePayments d d'
unfolding convert_winner convert_ballot_winner_for_order ◌>>=◌
convert_winner-SamePayments none c o now d a d' h = ground arith
convert_winner-SamePayments (some q) c o now d a d' h = ground arith

issue_for_order-SamePayments :
    (n : Option String) (o : Order) (d : Database) (a : Unit {0}) (d' : Database)
    → issue_for_order n o d ≡ ok (a, d')
    → SamePayments d d'
unfolding issue_for_order create_ticket holder_user ◌>>=◌
issue_for_order-SamePayments n o d a d' h = ground arith

issue-SamePayments :
    (p : Processor) (w : Moment) (o : Order) (d : Database) (a : Unit {0}) (d' : Database)
    → issue p w o d ≡ ok (a, d')
    → SamePayments d d'
unfolding issue pure
issue-SamePayments p w o d a d' h =
    ground (arith, issue_for_order-SamePayments w.ticket_number o d a d')

record_fee-SamePayments :
    (p : Processor) (o : Order) (d : Database) (a : Unit {0}) (d' : Database)
    → record_fee p o d ≡ ok (a, d')
    → SamePayments d d'
unfolding record_fee
record_fee-SamePayments p o d a d' h = ground arith

pub pay_order-SamePayments :
    (p : Processor) (w : Moment) (o : Order) (d : Database)
    → Post (pay_order p w o) d (λ _ d'. SamePayments d d')
unfolding pay_order complete_reservations_for_order update_reservation_status_by_order
pay_order-SamePayments p w o d =
    Post-bind (λ _ d'. SamePayments d d') _ _ d
      (record { at = λ a d' h. update_order_status-SamePayments o.id _ _ d a d' h })
      λ _ d1 s1. Post-modify _ _ d1 (
        Post-bind (λ _ d'. SamePayments d d') _ _ _
          (record {
            at = λ a d' h.
                let (x, y) =
                  convert_winner-SamePayments o.participant_id o.category_id o.id w.now _ a d' h in
                (x ∙ s1.0, y ∙ s1.1);
          })
          λ _ d2 s2.
            Post-bind (λ _ d'. SamePayments d d') _ _ d2
              (record {
                at = λ a d' h.
                    let (x, y) = issue-SamePayments p w o d2 a d' h in (x ∙ s2.0, y ∙ s2.1);
              })
              λ _ d3 s3.
                Post-bind (λ _ d'. SamePayments d d') _ _ d3
                  (record {
                    at = λ a d' h.
                        let (x, y) = record_fee-SamePayments p o d3 a d' h in (x ∙ s3.0, y ∙ s3.1);
                  })
                  λ _ d4 s4. Post-pure _ d4 s4)

unfoldable pub payment_by_id : ℕ → List Payment → Option Payment
payment_by_id id = find (λ p. p.id == id)

payment_by_id-with_paid :
    (i id t : ℕ) (ref : Option String) (ps : List Payment) {x : Payment}
    → is_pending x.status ≡ false
    → payment_by_id i ps ≡ some x
    → payment_by_id i (with_paid id t ref ps) ≡ some x
unfolding payment_by_id with_paid
payment_by_id-with_paid i id t ref [] f e = cc
payment_by_id-with_paid i id t ref (p ∷ ps) {x} f e =
    ground
      (arith, λ (q : find (λ y. y.id == i) ps ≡ some x). payment_by_id-with_paid i id t ref ps f q)

payment_by_id-with_payment_status :
    (i id : ℕ) (s : PaymentStatus) (ps : List Payment) {x : Payment}
    → is_pending x.status ≡ false
    → payment_by_id i ps ≡ some x
    → payment_by_id i (with_payment_status id s ps) ≡ some x
unfolding payment_by_id with_payment_status
payment_by_id-with_payment_status i id s [] f e = cc
payment_by_id-with_payment_status i id s (p ∷ ps) {x} f e = ground (
  arith,
  λ (q : find (λ y. y.id == i) ps ≡ some x). payment_by_id-with_payment_status i id s ps f q,
)

-- A payment that is no longer pending is final: no callback of any gateway, genuine or forged, for
-- this payment or another, changes its row.
pub process_raw_final :
    (p : Processor) (w : Moment) (g : Gateway) (webhook : ℕ) (signature : Option String)
    (headers body : String) (d : Database) (id : ℕ) {x : Payment}
    → is_pending x.status ≡ false
    → payment_by_id id d.payments ≡ some x
    → payment_by_id id (process_raw p w g webhook signature headers body d).1.payments ≡ some x
process_raw_final p w g webhook signature headers body d id {x} f e =
    process_raw-keeps {P = Final} kept (λ d ws h. h) p w g webhook body signature headers d e
  where
    Final : Database → Type 0
    Final d = payment_by_id id d.payments ≡ some x

    kept : Kept Final
    kept = record {
      paid = λ i t ref d h. payment_by_id-with_paid id i t ref d.payments f h;
      closed = λ i s d h. payment_by_id-with_payment_status id i s d.payments f h;
      settled = λ p w o d h. record {
        at = λ a d' q. rw ((pay_order-SamePayments p w o d).at a d' q).0 h;
      };
    }

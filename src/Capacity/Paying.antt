-- ===== src/Capacity/Paying.antt =====
-- The processing of payment callbacks (modules/payments) against the invariant.
use ivyticketing.Base.{ℕ, String, Option, none, some, arith}
use ivyticketing.Store.Rows.{Database, Order}
use ivyticketing.Store.Tx.{pure, ◌>>=◌}
use ivyticketing.Store.Post.{Post, Post-pure, Post-call, Post-modify}
use ivyticketing.Tickets.{issue_for_order, create_ticket, holder_user}
use ivyticketing.Payments.Queries.{convert_ballot_winner_for_order, complete_reservations_for_order}
use ivyticketing.Inventory.Queries.{update_reservation_status_by_order}
use ivyticketing.Payments.Processor.{
  Processor, Moment, CallbackResult, issue, record_fee, convert_winner, pay_order, apply,
  process_raw, Gateway,
}
use ivyticketing.Payments.Keeps.{Kept, apply-keeps, process_raw-keeps}
use ivyticketing.Capacity.Invariant.{IsBelow, Below-pay}
use ivyticketing.Capacity.Spares.{Spares, Post-spares, IsBelow-Spares}
use ivyticketing.Capacity.Leaving.{update_order_status_post}

pub convert_winner-Spares : (p : Option ℕ) (c o now : ℕ) → Spares (convert_winner p c o now)
unfolding convert_winner convert_ballot_winner_for_order ◌>>=◌
convert_winner-Spares none c o now = record { at = λ d a d' h. ground arith }
convert_winner-Spares (some p) c o now = record { at = λ d a d' h. ground arith }

record_fee-Spares : (p : Processor) (o : Order) → Spares (record_fee p o)
unfolding record_fee
record_fee-Spares p o = record { at = λ d a d' h. ground arith }

issue_for_order-Spares : (n : Option String) (o : Order) → Spares (issue_for_order n o)
unfolding issue_for_order create_ticket holder_user ◌>>=◌
issue_for_order-Spares n o = record { at = λ d a d' h. ground arith }

pub issue-Spares : (p : Processor) (w : Moment) (o : Order) → Spares (issue p w o)
unfolding issue pure
issue-Spares p w o = record {
  at = λ d a d' h. ground (arith, (issue_for_order-Spares w.ticket_number o).at d a d');
}

-- `rm` and `tm` bound the active reservations and the slots taken of each category.
module _ (rm tm : ℕ → ℕ) where
  pay_order_post :
      (p : Processor) (w : Moment) (o : Order) (d : Database)
      → IsBelow rm tm d
      → Post (pay_order p w o) d (λ _ d'. IsBelow rm tm d')
  unfolding pay_order complete_reservations_for_order update_reservation_status_by_order
  pay_order_post p w o d v = Post-call _ _ d (
      update_order_status_post o.id _ _ d λ _. Post-modify _ _ _ (
        Post-spares (IsBelow rm tm) _ _ _ (λ x y same w. IsBelow-Spares x y same w)
          (convert_winner-Spares o.participant_id o.category_id o.id w.now) (Below-pay v o.id)
          λ _ d1 v1.
            Post-spares (IsBelow rm tm) _ _ d1 (λ x y same w. IsBelow-Spares x y same w)
              (issue-Spares p w o) v1
              λ _ d2 v2.
                Post-spares (IsBelow rm tm) _ _ d2 (λ x y same w. IsBelow-Spares x y same w)
                  (record_fee-Spares p o) v2 λ _ d3 v3. Post-pure _ d3 v3))

  IsBelow-Kept : Kept (IsBelow rm tm)
  IsBelow-Kept = record {
    paid = λ id t ref d v. v;
    closed = λ id s d v. v;
    settled = pay_order_post;
  }

  pub apply-IsBelow :
      (p : Processor) (w : Moment) (gateway : String) (res : CallbackResult) (d : Database)
      → IsBelow rm tm d
      → (webhook : Option ℕ) → IsBelow rm tm (apply p w webhook gateway res d).1
  apply-IsBelow p w gateway res d v = apply-keeps IsBelow-Kept (λ d ws x. x) p w gateway res d v

  pub process_raw-IsBelow :
      (p : Processor) (w : Moment) (g : Gateway) (id : ℕ) (body : String)
      (signature : Option String) (headers : String) (d : Database)
      → IsBelow rm tm d
      → IsBelow rm tm (process_raw p w g id signature headers body d).1
  process_raw-IsBelow p w g id body signature headers d v =
      process_raw-keeps IsBelow-Kept (λ d ws x. x) p w g id body signature headers d v

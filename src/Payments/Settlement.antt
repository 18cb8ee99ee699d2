-- ===== src/Payments/Settlement.antt =====
-- Callbacks that report a payment as paid (modules/payments/processor.go).
use ivyticketing.Base.{◌≡◌, some}
use ivyticketing.Store.Rows.{Database, Order, Payment}
use ivyticketing.Store.Post.{Post}
use ivyticketing.Orders.Guest.{null_text}
use ivyticketing.Payments.Queries.{as_paid}
use ivyticketing.Payments.Processor.{Processor, Moment, CallbackResult, paid_time}
use ivyticketing.Payments.Promises.{payment_by_id}
use ivyticketing.Payments.Settling.{OrderSettled}

-- What holds of the payment `y` and its order `o` after the callback `res` has been settled.
pub record Settled (w : Moment) (res : CallbackResult) (y : Payment) (o : Order) (d' : Database)
    : Type 0 where
  pub order : OrderSettled o d'
  pub payment :
      payment_by_id y.id d'.payments
      ≡ some (as_paid (paid_time res w) (null_text res.gateway_reference) y)

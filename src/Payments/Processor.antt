-- ===== src/Payments/Processor.antt =====
-- `Processor` (services/api/internal/modules/payments/processor.go). The marks on the webhook's row
-- are written outside the transaction, through the processor's own repository, so they stay when
-- the transaction rolls back: a body returns its mark beside its outcome.
use Prim.Native.String.{◌++◌ as text_append}
use ivyticketing.Base.{
  ℕ, String, Bool, not, ◌&&◌, Option, none, some, ◌∷◌, ◌!=◌, str_eq, if◌then◌else◌,
}
use ivyticketing.Store.Rows.{
  Database, Order, OrderStatus, Payment, PaymentStatus, PaymentWebhook, WebhookStatus, is_pending,
  same_status,
}
use ivyticketing.Store.Tx.{
  Tx, Result, ok, err, Error, ◌>>=◌, ◌>>◌, one, modify, pure, no_rows, payment_not_found,
  constraint_violation, amount_mismatch, invalid_signature, parse_failed, duplicate_dedupe,
}
use ivyticketing.Orders.Queries.{get_order_by_id, update_order_status}
use ivyticketing.Orders.Guest.{null_text}
use ivyticketing.Tickets.{issue_for_order}
use ivyticketing.Payments.Queries.{
  payment_by_merchant_ref, open_payment, with_paid, update_payment_status,
  complete_reservations_for_order, convert_ballot_winner_for_order, claim_webhook_dedupe, Mark,
  with_mark,
}

-- What the processor is built with. The fee recorder (module billing) writes tables of its own; to
-- this module it succeeds or fails. `accepts_json` is what the database's type jsonb accepts.
pub record Processor : Type 0 where
  pub issuer : Bool
  pub fee_recorder : Option (Order → Database → Option Error)
  pub accepts_json : String → Bool

-- The clock and the random ticket number of one call.
pub record Moment : Type 0 where
  pub now : ℕ
  pub ticket_number : Option String

pub record CallbackResult : Type 0 where
  pub merchant_reference : String
  pub gateway_reference : String
  pub status : PaymentStatus
  pub amount : ℕ
  pub paid_at : Option ℕ
  pub event_type : String

abbrev pub status_text : PaymentStatus → String
status_text PaymentStatus.pending = "PENDING"
status_text PaymentStatus.paid = "PAID"
status_text PaymentStatus.expired = "EXPIRED"
status_text PaymentStatus.failed = "FAILED"
status_text PaymentStatus.refunded = "REFUNDED"

abbrev pub order_status_text : OrderStatus → String
order_status_text OrderStatus.draft = "DRAFT"
order_status_text OrderStatus.pending_payment = "PENDING_PAYMENT"
order_status_text OrderStatus.paid = "PAID"
order_status_text OrderStatus.expired = "EXPIRED"
order_status_text OrderStatus.cancelled = "CANCELLED"
order_status_text OrderStatus.refunded = "REFUNDED"

unfoldable pub dedupe_key : String → CallbackResult → String
dedupe_key gateway res =
    let ref =
      if str_eq res.gateway_reference "" then res.merchant_reference else res.gateway_reference in
    text_append gateway
      (text_append ":" (text_append ref (text_append ":" (status_text res.status))))

abbrev pub mark : WebhookStatus → Option String → Mark
mark s detail = record { status = s; payment_id = none; detail = detail }

abbrev pub processed : Mark
processed = mark WebhookStatus.processed none

abbrev pub paid_time : CallbackResult → Moment → ℕ
paid_time res w = elim res.paid_at [ none ↦ w.now | some t ↦ t ]

unfoldable pub issue : Processor → Moment → Order → Tx (Unit {0})
issue p w o = if p.issuer then issue_for_order w.ticket_number o else pure tt

unfoldable pub record_fee : Processor → Order → Tx (Unit {0})
record_fee p o d = elim p.fee_recorder [
  | none ↦ ok (tt, d)
  | some f ↦ elim (f o d) [ none ↦ ok (tt, d) | some e ↦ err e ]
]

unfoldable pub convert_winner : Option ℕ → ℕ → ℕ → ℕ → Tx (Unit {0})
convert_winner none category_id order_id now = pure tt
convert_winner (some participant_id) category_id order_id now =
    convert_ballot_winner_for_order participant_id category_id order_id now

unfoldable pub pay_order : Processor → Moment → Order → Tx (Option String)
pay_order p w o = do
  _ ← update_order_status o.id OrderStatus.paid OrderStatus.pending_payment
  complete_reservations_for_order o.id
  convert_winner o.participant_id o.category_id o.id w.now
  issue p w o
  record_fee p o
  pure none

-- The order of the payment that was paid just now. An order that has left PENDING_PAYMENT stays as
-- it is, and the webhook gets a note.
unfoldable pub settle_order : Processor → Moment → Order → Tx (Option String)
settle_order p w o =
    if same_status o.status OrderStatus.pending_payment
    then pay_order p w o
    else pure (some (text_append "ORDER_ALREADY_" (order_status_text o.status)))

-- The transaction from a payment that is marked paid on.
unfoldable pub settle_payment : Processor → Moment → Payment → CallbackResult → Tx Mark
settle_payment p w payment res = do
  modify (λ d. record d {
    payments = with_paid payment.id (paid_time res w) (null_text res.gateway_reference) d.payments;
  })
  order ← one (get_order_by_id payment.order_id) no_rows
  note ← settle_order p w order
  pure (record { status = WebhookStatus.processed; payment_id = some payment.id; detail = note })

-- `MarkPaymentPaid` finds no pending row: another process was first, and nothing is done.
unfoldable pub apply_paid : Processor → Moment → Payment → CallbackResult → Tx Mark
apply_paid p w payment res d = elim (open_payment payment.id d.payments) [
  | none ↦ ok (processed, d)
  | some updated ↦ settle_payment p w updated res d
]

abbrev pub Outcome : Type 0
Outcome = Option Mark × Result Database

-- A transaction writes its mark only when it gets to its end.
abbrev pub marked : Result (Mark × Database) → Outcome
marked (ok (m, d)) = (some m, ok d)
marked (err e) = (none, err e)

unfoldable pub close_payment : Payment → PaymentStatus → Database → Outcome
close_payment payment s d = elim (update_payment_status payment.id s d) [
  | err e ↦ (none, err e)
  | ok (_, d') ↦ (
    some (record { status = WebhookStatus.processed; payment_id = some payment.id; detail = none }),
    ok d',
  )
]

-- The `switch` on the status that the gateway reports, at a payment that is pending.
unfoldable pub transition :
    Processor → Moment → Payment → CallbackResult → PaymentStatus → Database → Outcome
transition p w payment res PaymentStatus.paid d = marked (apply_paid p w payment res d)
transition p w payment res PaymentStatus.expired d = close_payment payment PaymentStatus.expired d
transition p w payment res PaymentStatus.failed d = close_payment payment PaymentStatus.failed d
transition p w payment res PaymentStatus.pending d = (some processed, ok d)
transition p w payment res PaymentStatus.refunded d = (some processed, ok d)

-- The body of the transaction in `apply`.
unfoldable pub apply_tx : Processor → Moment → CallbackResult → Database → Outcome
apply_tx p w res d = elim (payment_by_merchant_ref res.merchant_reference d.payments) [
  | none ↦ (some (mark WebhookStatus.rejected (some "PAYMENT_NOT_FOUND")), err payment_not_found)
  | some payment ↦
      if res.amount != 0 && res.amount != payment.amount
      then (
        some (mark WebhookStatus.rejected (some "PAYMENT_AMOUNT_MISMATCH")),
        err amount_mismatch,
      )
      else if not (is_pending payment.status)
      then (some processed, ok d)
      else transition p w payment res res.status d
]

-- `ExecTx` around the body, and the mark on the webhook's row where there is one.
abbrev pub write_mark : Option ℕ → Option Mark → Database → Database
write_mark (some id) (some m) d = record d { webhooks = with_mark id m d.webhooks }
write_mark _ _ d = d

abbrev pub finish : Option ℕ → Outcome → Database → Result (Unit {0}) × Database
finish webhook (m, ok d') d = (ok tt, write_mark webhook m d')
finish webhook (m, err e) d = (err e, write_mark webhook m d)

-- `webhook` is `none` for `uuid.Nil`. The dedupe slot is claimed before the transaction and outside
-- it. (A dedupe key holds colons, so the test for the empty key always passes.)
unfoldable pub apply :
    Processor
    → Moment
    → Option ℕ
    → String
    → CallbackResult
    → Database
    → Result (Unit {0}) × Database
apply p w none gateway res d = finish none (apply_tx p w res d) d
apply p w (some id) gateway res d = elim (claim_webhook_dedupe id (dedupe_key gateway res) d) [
  | err duplicate_dedupe ↦ (
    ok tt,
    write_mark (some id) (some (mark WebhookStatus.duplicate (some "duplicate dedupe key"))) d,
  )
  | err e ↦ (err e, d)
  | ok d' ↦ finish (some id) (apply_tx p w res d') d'
]

-- A gateway: the two operations that the processor calls, and its name.
pub record Gateway : Type 0 where
  pub name : String
  pub verify_signature : String → String → Bool
  pub parse_callback : String → CallbackResult × Option String

-- The row of `CreateWebhook`.
abbrev pub received : Gateway → ℕ → Option String → String → String → PaymentWebhook
received g id signature headers body = record {
  id = id;
  gateway = g.name;
  event_type = null_text (g.parse_callback body).0.event_type;
  merchant_reference = null_text (g.parse_callback body).0.merchant_reference;
  gateway_reference = null_text (g.parse_callback body).0.gateway_reference;
  signature = signature;
  signature_valid = g.verify_signature headers body;
  payload = body;
  processing_status = WebhookStatus.received;
  processed_payment_id = none;
  error_detail = none;
  dedupe_key = none;
}

-- `ProcessRaw` from the insert of the row on. `id` is the identifier that the database draws for
-- it, and `headers` are read by the gateway alone; `parse_callback` gives the text of its error, if
-- any.
unfoldable pub process_stored :
    Processor
    → Moment
    → Gateway
    → ℕ
    → Option String
    → String
    → String
    → Database
    → Result (Unit {0}) × Database
process_stored p w g id signature headers body d =
    let valid = g.verify_signature headers body in
    let (parsed, parse_error) = g.parse_callback body in
    let stored = record d { webhooks = received g id signature headers body ∷ d.webhooks } in
    if not valid
    then (
      err invalid_signature,
      write_mark (some id) (some (mark WebhookStatus.rejected (some "INVALID_SIGNATURE"))) stored,
    )
    else elim parse_error [
      | some text ↦ (
        err parse_failed,
        write_mark (some id) (some (mark WebhookStatus.failed (null_text text))) stored,
      )
      | none ↦ apply p w (some id) g.name parsed stored
    ]

-- The body goes into a column of type jsonb, so the insert of another text fails. The CHECK on the
-- gateway's name admits the names of the two gateways of the code, `duitku` and `xendit`.
unfoldable pub process_raw :
    Processor
    → Moment
    → Gateway
    → ℕ
    → Option String
    → String
    → String
    → Database
    → Result (Unit {0}) × Database
process_raw p w g id signature headers body d =
    if p.accepts_json body
    then process_stored p w g id signature headers body d
    else (err constraint_violation, d)

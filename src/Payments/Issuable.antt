-- ===== src/Payments/Issuable.antt =====
-- When the settlement of a paid order fails (modules/payments/processor.go, modules/tickets/issuer.go).
use ivyticketing.Base.{
  ℕ, ◌≡◌, ◌⊎◌, refl, sym, ap, ◌∙◌, String, true, Option, none, some, List, arith, inl, inr,
}
use ivyticketing.Store.Rows.{
  Database, Order, OrderStatus, same_status, ReservationStatus, Payment, InventoryReservation,
  BallotEntry, PaymentWebhook,
}
use ivyticketing.Store.Tx.{Result, ok, err, Error, Tx, ◌>>=◌, pure, modify, one, or_throw, no_rows}
use ivyticketing.Inventory.Queries.{
  order_by_id, with_status_by_order, update_reservation_status_by_order,
}
use ivyticketing.Orders.Queries.{get_order_by_id, update_order_status, with_status}
use ivyticketing.Orders.Cancelling.{order_by_status-found}
use ivyticketing.Tickets.{issue_for_order, create_ticket, holder_user}
use ivyticketing.Payments.Queries.{
  with_paid, complete_reservations_for_order, convert_ballot_winner_for_order,
}
use ivyticketing.Payments.Processor.{
  Processor, Moment, issue, record_fee, convert_winner, pay_order, settle_order, settle_payment,
  CallbackResult, paid_time,
}
use ivyticketing.Orders.Guest.{null_text}

err_inj : {A : Type 0} {x y : Error} → ◌≡◌ {A = Result A} (err x) (err y) → x ≡ y
err_inj h = cc

module _ {A B : Type 0} (m : Tx A) (f : A → Tx B) (d : Database) where
  bind-ok : {a : A} {d' : Database} → m d ≡ ok (a, d') → (m >>= f) d ≡ f a d'
  unfolding ◌>>=◌
  bind-ok e =
      ap (λ r. elim r as (λ _. Result (B × Database)) [ ok (a, d') ↦ f a d' | err x ↦ err x ]) e

  bind-err :
      {e : Error}
      → (m >>= f) d ≡ err e
      → (m d ≡ err e) ⊎ ((a : A) × (d' : Database) × (f a d' ≡ err e))
  unfolding ◌>>=◌
  bind-err {e} h = go (m d) refl h
    where
      go :
          (r : Result (A × Database))
          → m d ≡ r
          → (elim r as (λ _. Result (B × Database)) [ ok (a, d') ↦ f a d' | err x ↦ err x ]) ≡ err e
          → (m d ≡ err e) ⊎ ((a : A) × (d' : Database) × (f a d' ≡ err e))
      go (ok (a, d')) q h' = inr (a, d', h')
      go (err x) q h' = inl (q ∙ ap err (err_inj h'))

one_found :
    {A : Type 0} (q : Database → Option A) (e : Error) (d : Database) {a : A}
    → q d ≡ some a
    → one q e d ≡ ok (a, d)
unfolding one or_throw
one_found q e d h = rw h refl

not_pure : {A P : Type 0} (a : A) (d : Database) {e : Error} → pure a d ≡ err e → P
unfolding pure
not_pure a d h = cc h

waiting :
    (p : Processor) (w : Moment) (o : Order) (d : Database)
    → same_status o.status OrderStatus.pending_payment ≡ true
    → settle_order p w o d ≡ pay_order p w o d
unfolding settle_order
waiting p w o d e = rw e refl

-- The issue of a ticket reads none of the tables that the settlement has written before it.
issue_apart :
    (n : Option String) (o : Order) (d : Database) (os : List Order)
    (rs : List InventoryReservation) (ps : List Payment) (bs : List BallotEntry)
    (ws : List PaymentWebhook) {e : Error}
    → issue_for_order n o (record d {
      orders = os;
      reservations = rs;
      payments = ps;
      ballot_entries = bs;
      webhooks = ws;
    })
      ≡ err e
    → issue_for_order n o d ≡ err e
unfolding issue_for_order create_ticket holder_user ◌>>=◌
issue_apart n o d os rs ps bs ws h = ground arith

update_order_status-found :
    (id : ℕ) (s old : OrderStatus) (d : Database) {x : Order}
    → order_by_id id d.orders ≡ some x
    → same_status x.status old ≡ true
    → (a : Order) × (os : List Order) × (update_order_status id s old d
        ≡ ok (a, record d { orders = os }))
unfolding update_order_status ◌>>=◌
update_order_status-found id s old d {x} found old_status = (
  record x { status = s },
  with_status id s old d.orders,
  ground (arith, order_by_status-found id old d.orders found old_status),
)

convert_winner-ok :
    (q : Option ℕ) (c id now : ℕ) (d : Database)
    → (bs : List BallotEntry) × (convert_winner q c id now d
        ≡ ok (tt, record d { ballot_entries = bs }))
unfolding convert_winner convert_ballot_winner_for_order ◌>>=◌
convert_winner-ok none c id now d = (d.ballot_entries, refl)
convert_winner-ok (some q) c id now d = (_, refl)

-- The last steps: the ticket and the fee.
abbrev fee_and_end : Processor → Order → Tx (Option String)
fee_and_end p o = record_fee p o >>= λ _. pure none

abbrev issue_and_fee : Processor → Moment → Order → Tx (Option String)
issue_and_fee p w o = issue p w o >>= λ _. fee_and_end p o

-- The fee recorder ends with the error.
abbrev pub FeeFails : Processor → Order → Error → Type 0
FeeFails p o e =
    (f : Order → Database → Option Error) × (d : Database) × (p.fee_recorder ≡ some f)
    × (f o d ≡ some e)

record_fee-err :
    (p : Processor) (o : Order) (d : Database) {e : Error}
    → record_fee p o d ≡ err e
    → FeeFails p o e
unfolding record_fee
record_fee-err p o d {e} h = go p.fee_recorder refl h
  where
    answered :
        (x : Option Error)
        → (elim x as (λ _. Result (Unit {0} × Database)) [ none ↦ ok (tt, d) | some y ↦ err y ])
          ≡ err e
        → x ≡ some e
    answered none q = cc q
    answered (some y) q = cc q

    go :
        (r : Option (Order → Database → Option Error))
        → p.fee_recorder ≡ r
        → (elim r as (λ _. Result (Unit {0} × Database)) [
          | none ↦ ok (tt, d)
          | some f ↦ elim (f o d) as (λ _. Result (Unit {0} × Database)) [
            | none ↦ ok (tt, d)
            | some y ↦ err y
          ]
        ])
          ≡ err e
        → FeeFails p o e
    go none q h' = cc h'
    go (some f) q h' = (f, d, q, answered (f o d) h')

issue-issuer :
    (p : Processor) (w : Moment) (o : Order) (d : Database)
    → p.issuer ≡ true
    → issue p w o d ≡ issue_for_order w.ticket_number o d
unfolding issue
issue-issuer p w o d e = rw e refl

issue_and_fee-err :
    (p : Processor) (w : Moment) (o : Order) (d : Database) {e : Error}
    → p.issuer ≡ true
    → issue_and_fee p w o d ≡ err e
    → (issue_for_order w.ticket_number o d ≡ err e) ⊎ FeeFails p o e
issue_and_fee-err p w o d issues h = elim (bind-err (issue p w o) (λ _. fee_and_end p o) d h) [
  | inl q ↦ inl (sym (issue-issuer p w o d issues) ∙ q)
  | inr (a, d', q) ↦ elim (bind-err (record_fee p o) (λ _. pure none) d' q) [
    | inl unpaid ↦ inr (record_fee-err p o d' unpaid)
    | inr (b, d'', ended) ↦ not_pure _ d'' ended
  ]
]

pay_order-tail :
    (p : Processor) (w : Moment) (o : Order) (d : Database)
    → order_by_id o.id d.orders ≡ some o
    → same_status o.status OrderStatus.pending_payment ≡ true
    → (os : List Order) × (rs : List InventoryReservation) × (bs : List BallotEntry) × (pay_order p
          w o d
        ≡ issue_and_fee p w o (record d { orders = os; reservations = rs; ballot_entries = bs }))
unfolding pay_order complete_reservations_for_order update_reservation_status_by_order
pay_order-tail p w o d found waits =
    let (a, os, e) =
      update_order_status-found o.id OrderStatus.paid OrderStatus.pending_payment d found waits in
    let rs = with_status_by_order o.id ReservationStatus.completed d.reservations in
    let d1 : Database = record d { orders = os } in
    let d2 : Database = record d1 { reservations = rs } in
    let completed : complete_reservations_for_order o.id d1 ≡ ok (tt, d2) = unfold modify in refl in
    let (bs, q) = convert_winner-ok o.participant_id o.category_id o.id w.now d2 in
    (
      os,
      rs,
      bs,
      bind-ok _ _ d e
          ∙ bind-ok (complete_reservations_for_order o.id) _ d1 completed
          ∙ bind-ok _ _ d2 q,
    )

-- Why the settlement of an order ends with an error: the issue of its ticket on the tables `d`, or the
-- fee recorder, ends with it.
abbrev pub Blocked : Processor → Moment → Order → Database → Error → Type 0
Blocked p w o d e = (issue_for_order w.ticket_number o d ≡ err e) ⊎ FeeFails p o e

pay_order-Blocked :
    (p : Processor) (w : Moment) (o : Order) (d : Database) (ps : List Payment) {e : Error}
    → p.issuer ≡ true
    → order_by_id o.id d.orders ≡ some o
    → same_status o.status OrderStatus.pending_payment ≡ true
    → pay_order p w o (record d { payments = ps }) ≡ err e
    → Blocked p w o d e
pay_order-Blocked p w o d ps issues found waits h =
    let (os, rs, bs, q) = pay_order-tail p w o (record d { payments = ps }) found waits in
    elim (issue_and_fee-err p w o _ issues (sym q ∙ h)) [
      | inl unissued ↦ inl (issue_apart w.ticket_number o d os rs ps bs d.webhooks unissued)
      | inr fee ↦ inr fee
    ]

pub settle_payment-Blocked :
    (p : Processor) (w : Moment) (y : Payment) (res : CallbackResult) (o : Order) (d : Database)
    {e : Error}
    → p.issuer ≡ true
    → order_by_id y.order_id d.orders ≡ some o
    → order_by_id o.id d.orders ≡ some o
    → same_status o.status OrderStatus.pending_payment ≡ true
    → settle_payment p w y res d ≡ err e
    → Blocked p w o d e
unfolding settle_payment settle_order
settle_payment-Blocked p w y res o d {e} issues order found waits h =
    let ps = with_paid y.id (paid_time res w) (null_text res.gateway_reference) d.payments in
    let d1 : Database = record d { payments = ps } in
    let paid : modify
          (λ x. record x {
            payments =
                with_paid y.id (paid_time res w) (null_text res.gateway_reference) x.payments;
          })
          d
        ≡ ok (tt, d1) =
      (unfold modify in refl) in
    let read : one (get_order_by_id y.order_id) no_rows d1 ≡ ok (o, d1) =
      one_found _ no_rows d1 order in
    let run = bind-ok _ _ d paid ∙ bind-ok _ _ d1 read in
    elim (bind-err (settle_order p w o) _ d1 (sym run ∙ h)) [
      | inl q ↦ pay_order-Blocked p w o d ps issues found waits (sym (waiting p w o d1 waits) ∙ q)
      | inr (a, d', q) ↦ not_pure _ d' q
    ]

-- The log of the webhooks has no part in it.
pub Blocked-log :
    (p : Processor) (w : Moment) (o : Order) (d : Database) (ws : List PaymentWebhook) {e : Error}
    → Blocked p w o (record d { webhooks = ws }) e
    → Blocked p w o d e
Blocked-log p w o d ws (inl h) =
    inl (issue_apart w.ticket_number o d d.orders d.reservations d.payments d.ballot_entries ws h)
Blocked-log p w o d ws (inr h) = inr h

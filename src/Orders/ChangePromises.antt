-- ===== src/Orders/ChangePromises.antt =====
-- Refunds (`Service.RefundOrder`, modules/orders/service.go): what each outcome means, and repeated
-- refunds.
use ivyticketing.Base.{
  ℕ, ◌≤◌, ◌<◌, ◌≡◌, ◌≢◌, ◌⊎◌, inl, inr, refl, sym, ap, String, true, false, ◌&&◌, ◌==◌, Option,
  none, some, List, [], ◌∷◌, arith, find, leb, ltb, str_eq, str_eq-true, str_eq_self, Bool-cases,
  if◌then◌else◌,
}
use ivyticketing.Base.Int.{ℤ, pos, negsuc}
use ivyticketing.Store.Rows.{Database, Order, OrderStatus, same_status}
use ivyticketing.Store.Tx.{Result, ok, err, ◌>>=◌, exec_tx, invalid_state, order_not_found}
use ivyticketing.Inventory.Queries.{order_by_id}
use ivyticketing.Orders.Queries.{with_refund, as_refunded, record_order_refund}
use ivyticketing.Orders.Changes.{refund_amount, refund_order, refund_order_tx}
use ivyticketing.Orders.Guest.{null_text}
use ivyticketing.Orders.Cancelling.{other_orders}

-- An amount that a refund does not take as it is: none, a negative one, or more than the total.
abbrev pub Unusable : ℤ → ℕ → Type 0
Unusable (pos n) total = (n ≡ 0) ⊎ (total < n)
Unusable (negsuc n) total = Unit

-- What `given` asks for of `total`: that amount where it can be paid back, and else the total.
abbrev pub Amount : ℤ → ℕ → ℕ → Type 0
Amount given total refunded =
    (given ≡ pos refunded) × (0 < refunded) × (refunded ≤ total)
    ⊎ Unusable given total × (refunded ≡ total)

refund_amount-Amount : (given : ℤ) (total : ℕ) → Amount given total (refund_amount given total)
refund_amount-Amount (negsuc n) total = inr (tt, ground arith)
refund_amount-Amount (pos n) total = elim (Bool-cases (leb n 0)) [
  | inl none_given ↦ inr (inl (ground arith), ground arith)
  | inr given ↦ elim (Bool-cases (ltb total n)) [
    | inl above ↦ inr (inr (ground arith), ground arith)
    | inr within ↦
        let e : refund_amount (pos n) total ≡ n = ground arith in
        inl (ap pos (sym e), ground arith, ground arith)
  ]
]

-- The order `x` has been refunded, and is now `o`: its row has status, amount, reason and time, and
-- every other row is as before.
pub record Refunded (id : ℕ) (given : ℤ) (reason : String) (now : ℕ) (x o : Order) (d d' : Database)
    : Type 0 where
  pub order_refunded : order_by_id id d'.orders ≡ some o
  pub status_refunded : o.status ≡ OrderStatus.refunded
  pub amount_refunded : Amount given x.total o.refunded_amount
  pub reason_kept :
      (reason ≡ "") × (o.refund_reason ≡ none) ⊎ (reason ≢ "") × (o.refund_reason ≡ some reason)
  pub time_kept : o.refunded_at ≡ some now
  pub fields_kept :
      record o {
        status = x.status;
        refunded_amount = x.refunded_amount;
        refund_reason = x.refund_reason;
        refunded_at = x.refunded_at;
      }
      ≡ x
  pub other_orders_kept : other_orders id d'.orders ≡ other_orders id d.orders
  pub rest : d' ≡ record d { orders = d'.orders }

-- What a refund of the order `x` for an organization and an event has done, by how it ended.
abbrev pub RefundOutcome :
    ℕ → ℕ → ℕ → ℤ → String → ℕ → Order → Database → Result Order × Database → Type 0
RefundOutcome org event id given reason now x d (ok o, d') =
    (x.organization_id ≡ org)
    × (x.event_id ≡ event)
    × (x.status ≡ OrderStatus.paid)
    × Refunded id given reason now x o d d'
RefundOutcome org event id given reason now x d (err e, d') =
    (d' ≡ d)
    × (((x.organization_id ≢ org) ⊎ (x.event_id ≢ event)) × (e ≡ order_not_found)
        ⊎ (x.organization_id ≡ org)
          × (x.event_id ≡ event)
          × (x.status ≢ OrderStatus.paid)
          × (e ≡ invalid_state))

order_by_id-with_refund :
    (id amount : ℕ) (reason : Option String) (now : ℕ) (os : List Order) {x : Order}
    → order_by_id id os ≡ some x
    → order_by_id id (with_refund id amount reason now os) ≡ some (as_refunded amount reason now x)
unfolding order_by_id with_refund
order_by_id-with_refund id amount reason now [] e = cc
order_by_id-with_refund id amount reason now (o ∷ os) {x} e = ground (
  arith,
  λ (q : find (λ y. y.id == id) os ≡ some x). order_by_id-with_refund id amount reason now os q,
)

other_orders-with_refund :
    (id amount : ℕ) (reason : Option String) (now : ℕ) (os : List Order)
    → other_orders id (with_refund id amount reason now os) ≡ other_orders id os
unfolding with_refund
other_orders-with_refund id amount reason now [] = refl
other_orders-with_refund id amount reason now (o ∷ os) =
    ground (arith, other_orders-with_refund id amount reason now os)

null_text-kept : (t : String) → (t ≡ "") × (null_text t ≡ none) ⊎ (t ≢ "") × (null_text t ≡ some t)
null_text-kept t = elim (Bool-cases (str_eq t "")) [
  | inl e ↦ inl (str_eq-true t "" e, rw e refl)
  | inr e ↦ inr ((λ q. cc (e, ap (λ x. str_eq x "") q, str_eq_self "")), rw e refl)
]

either_other : (a b m n : ℕ) → (a == b && m == n) ≡ false → (a ≢ b) ⊎ (m ≢ n)
either_other a b m n h = elim (Bool-cases (a == b)) [
  | inl e ↦ inr (λ q. ground arith)
  | inr e ↦ inl (λ q. ground arith)
]

is_paid_order : (s : OrderStatus) → same_status s OrderStatus.paid ≡ true → s ≡ OrderStatus.paid
is_paid_order OrderStatus.paid h = refl
is_paid_order OrderStatus.pending_payment h = cc
is_paid_order OrderStatus.draft h = cc
is_paid_order OrderStatus.expired h = cc
is_paid_order OrderStatus.cancelled h = cc
is_paid_order OrderStatus.refunded h = cc

not_paid_order : (s : OrderStatus) → same_status s OrderStatus.paid ≡ false → s ≢ OrderStatus.paid
not_paid_order OrderStatus.paid h = λ e. cc h
not_paid_order OrderStatus.pending_payment h = λ e. cc e
not_paid_order OrderStatus.draft h = λ e. cc e
not_paid_order OrderStatus.expired h = λ e. cc e
not_paid_order OrderStatus.cancelled h = λ e. cc e
not_paid_order OrderStatus.refunded h = λ e. cc e

module _ (org event id : ℕ) (amount : ℤ) (reason : String) (now : ℕ) (d : Database) where
  refund_order_lem :
      {x : Order}
      → order_by_id id d.orders ≡ some x
      → let a = refund_amount amount x.total in
        refund_order org event id amount reason now d ≡ (
          if x.organization_id == org && x.event_id == event
          then if same_status x.status OrderStatus.paid
            then (
              ok (as_refunded a (null_text reason) now x),
              record d { orders = with_refund id a (null_text reason) now d.orders },
            )
            else (err invalid_state, d)
          else (err order_not_found, d))
  unfolding refund_order refund_order_tx record_order_refund exec_tx ◌>>=◌
  refund_order_lem found = ground arith

  -- A refund of an order that exists succeeds exactly where the order is of the organization and the
  -- event and is paid. Then the row of the order, which is the result, is REFUNDED with the reason and
  -- the time, and with the amount asked for where that is positive and no more than the total, and
  -- with the total otherwise; nothing else has changed. It is refused with `order_not_found` where
  -- the order is of another organization or event, and with `invalid_state` where it is not paid;
  -- then nothing has changed.
  pub refund_order_outcome :
      {x : Order}
      → order_by_id id d.orders ≡ some x
      → RefundOutcome org event id amount reason now x d
          (refund_order org event id amount reason now d)
  refund_order_outcome {x} found =
      elim (Bool-cases (x.organization_id == org && x.event_id == event)) [
        | inr foreign ↦
            rw (refund_order_lem found, foreign)
              (refl, inl (either_other x.organization_id org x.event_id event foreign, refl))
        | inl own ↦ elim (Bool-cases (same_status x.status OrderStatus.paid)) [
          | inr unpaid ↦
              rw (refund_order_lem found, own, unpaid)
                (refl, inr (ground arith, ground arith, not_paid_order _ unpaid, refl))
          | inl paid ↦
              rw (refund_order_lem found, own, paid)
                (
                  ground arith,
                  ground arith,
                  is_paid_order _ paid,
                  record {
                    order_refunded = order_by_id-with_refund id _ _ now d.orders found;
                    status_refunded = refl;
                    amount_refunded = refund_amount-Amount amount x.total;
                    reason_kept = null_text-kept reason;
                    time_kept = refl;
                    fields_kept = refl;
                    other_orders_kept = other_orders-with_refund id _ _ now d.orders;
                    rest = refl;
                  },
                )
        ]
      ]

  refund_order-ok :
      {x o : Order}
      → order_by_id id d.orders ≡ some x
      → (refund_order org event id amount reason now d).0 ≡ ok o
      → (x.organization_id ≡ org)
        × (x.event_id ≡ event)
        × ((refund_order org event id amount reason now d).1 ≡ record d {
          orders = with_refund id (refund_amount amount x.total) (null_text reason) now d.orders;
        })
  unfolding refund_order refund_order_tx record_order_refund exec_tx ◌>>=◌
  refund_order-ok found h = ground arith

-- A refunded order cannot be refunded again: after a refund has succeeded, a refund of the same
-- order, with any amount and reason, is refused and changes nothing.
pub refund_once :
    (org event id : ℕ) (amount amount' : ℤ) (reason reason' : String) (now now' : ℕ) (d : Database)
    {x o : Order}
    → order_by_id id d.orders ≡ some x
    → (refund_order org event id amount reason now d).0 ≡ ok o
    → let d' = (refund_order org event id amount reason now d).1 in
      refund_order org event id amount' reason' now' d' ≡ (err invalid_state, d')
refund_once org event id amount amount' reason reason' now now' d {x} found h =
    let (same_org, same_event, after) = refund_order-ok org event id amount reason now d found h in
    let a = refund_amount amount x.total in
    let rows = with_refund id a (null_text reason) now d.orders in
    let again =
      refund_order_lem org event id amount' reason' now' (record d { orders = rows })
        (order_by_id-with_refund id a (null_text reason) now d.orders found) in
    rw after (ground arith)

-- ===== src/Payments/Keeps.antt =====
-- The properties of the tables that a run of `ProcessRaw`
-- (services/api/internal/modules/payments/processor.go) keeps, by the writes that it is made of.
use ivyticketing.Base.{
  ℕ, ◌≡◌, refl, String, not, ◌&&◌, Option, none, some, ◌!=◌, arith, if◌then◌else◌, Bool-cases, inl,
  inr, List,
}
use mathlib.Core.Path.{subst}
use ivyticketing.Store.Rows.{
  Database, Order, Payment, PaymentStatus, PaymentWebhook, OrderStatus, WebhookStatus, same_status,
  is_pending,
}
use ivyticketing.Store.Tx.{
  Result, ok, err, ok_inj, payment_not_found, amount_mismatch, duplicate_dedupe, parse_failed,
  ◌>>=◌,
}
use ivyticketing.Store.Post.{Post, Post-pure, Post-bind, Post-one, Post-modify}
use ivyticketing.Payments.Queries.{
  open_payment, payment_by_merchant_ref, claim_webhook_dedupe, update_payment_status, with_paid,
  with_payment_status, Mark, with_dedupe_key,
}
use ivyticketing.Payments.Processor.{
  Processor, Moment, CallbackResult, Outcome, pay_order, settle_order, settle_payment, apply_paid,
  transition, close_payment, apply_tx, apply, write_mark, finish, marked, processed, mark,
  dedupe_key, process_raw, process_stored, Gateway,
}
use ivyticketing.Orders.Guest.{null_text}

update_payment_status_at :
    (id : ℕ) (s : PaymentStatus) (d : Database) (a : Payment) (d' : Database)
    → update_payment_status id s d ≡ ok (a, d')
    → d' ≡ record d { payments = with_payment_status id s d.payments }
unfolding update_payment_status ◌>>=◌
update_payment_status_at id s d a d' h = ground arith

pub claimed_at :
    (id : ℕ) (key : String) (d d' : Database)
    → claim_webhook_dedupe id key d ≡ ok d'
    → d' ≡ record d { webhooks = with_dedupe_key id key d.webhooks }
unfolding claim_webhook_dedupe
claimed_at id key d d' h = ground arith

-- The writes on orders, payments and tickets that one callback is made of.
pub record Kept (P : Database → Type 0) : Type 0 where
  pub paid :
      (id t : ℕ) (ref : Option String) (d : Database)
      → P d
      → P (record d { payments = with_paid id t ref d.payments })
  pub closed :
      (id : ℕ) (s : PaymentStatus) (d : Database)
      → P d
      → P (record d { payments = with_payment_status id s d.payments })
  pub settled :
      (p : Processor) (w : Moment) (o : Order) (d : Database)
      → P d
      → Post (pay_order p w o) d (λ _ d'. P d')

-- The tables that a body would commit.
abbrev pub Good : (Database → Type 0) → Outcome → Type 0
Good P (m, ok d) = P d
Good P (m, err e) = Unit

module _ {P : Database → Type 0} (k : Kept P) where
  settle_order_post :
      (p : Processor) (w : Moment) (o : Order) (d : Database)
      → P d
      → Post (settle_order p w o) d (λ _ d'. P d')
  unfolding settle_order
  settle_order_post p w o d v =
      elim (Bool-cases (same_status o.status OrderStatus.pending_payment)) [
        | inl e ↦ rw e (k.settled p w o d v)
        | inr e ↦ rw e (Post-pure _ d v)
      ]

  settle_payment_post :
      (p : Processor) (w : Moment) (y : Payment) (res : CallbackResult) (d : Database)
      → P d
      → Post (settle_payment p w y res) d (λ _ d'. P d')
  unfolding settle_payment
  settle_payment_post p w y res d v = Post-modify _ _ d (
      Post-one _ _ _ _ λ o _.
        Post-bind (λ _ d'. P d') _ _ _ (settle_order_post p w o _ (k.paid _ _ _ d v))
          λ note d' valid. Post-pure _ d' valid)

  marked-Good :
      (r : Result (Mark × Database))
      → ((m : Mark) (d : Database) → r ≡ ok (m, d) → P d)
      → Good P (marked r)
  marked-Good (ok (m, d)) h = h m d refl
  marked-Good (err e) h = tt

  module _ (p : Processor) (w : Moment) (res : CallbackResult) (d : Database) (v : P d) where
    paid_at :
        (o : Option Payment) (m : Mark) (d' : Database)
        → (elim o as (λ _. Result (Mark × Database)) [
          | none ↦ ok (processed, d)
          | some updated ↦ settle_payment p w updated res d
        ])
          ≡ ok (m, d')
        → P d'
    paid_at none m d' h = subst (λ x. P x.1) (ok_inj h) v
    paid_at (some updated) m d' h = (settle_payment_post p w updated res d v).at m d' h

    apply_paid-Good : (y : Payment) → Good P (marked (apply_paid p w y res d))
    unfolding apply_paid
    apply_paid-Good y = marked-Good _ (λ m d' h. paid_at (open_payment y.id d.payments) m d' h)

    close_payment-Good : (y : Payment) (s : PaymentStatus) → Good P (close_payment y s d)
    unfolding close_payment
    close_payment-Good y s = go (update_payment_status y.id s d) refl
      where
        closed : Payment → Database → Outcome
        closed _ d' = (
          some (record { status = WebhookStatus.processed; payment_id = some y.id; detail = none }),
          ok d',
        )

        go :
            (r : Result (Payment × Database))
            → update_payment_status y.id s d ≡ r
            → Good P (elim r as (λ _. Outcome) [ err e ↦ (none, err e) | ok (x, d') ↦ closed x d' ])
        go (err e) q = tt
        go (ok (x, d')) q = rw (update_payment_status_at y.id s d x d' q) (k.closed y.id s d v)

    transition-Good : (y : Payment) (s : PaymentStatus) → Good P (transition p w y res s d)
    unfolding transition
    transition-Good y PaymentStatus.paid = apply_paid-Good y
    transition-Good y PaymentStatus.expired = close_payment-Good y PaymentStatus.expired
    transition-Good y PaymentStatus.failed = close_payment-Good y PaymentStatus.failed
    transition-Good y PaymentStatus.pending = v
    transition-Good y PaymentStatus.refunded = v

    pub apply_tx-Good : Good P (apply_tx p w res d)
    unfolding apply_tx
    apply_tx-Good = go (payment_by_merchant_ref res.merchant_reference d.payments)
      where
        checked : Payment → Outcome
        checked y =
            if res.amount != 0 && res.amount != y.amount
            then (
              some (mark WebhookStatus.rejected (some "PAYMENT_AMOUNT_MISMATCH")),
              err amount_mismatch,
            )
            else if not (is_pending y.status)
            then (some processed, ok d)
            else transition p w y res res.status d

        go :
            (o : Option Payment)
            → Good P (elim o as (λ _. Outcome) [
              | none ↦ (
                some (mark WebhookStatus.rejected (some "PAYMENT_NOT_FOUND")),
                err payment_not_found,
              )
              | some y ↦ checked y
            ])
        go none = tt
        go (some y) = elim (Bool-cases (res.amount != 0 && res.amount != y.amount)) [
          | inl e ↦ rw e tt
          | inr e ↦ rw e (elim (Bool-cases (not (is_pending y.status))) [
            | inl f ↦ rw f v
            | inr f ↦ rw f (transition-Good y res.status)
          ])
        ]

  module _
      (webhooks : (d : Database) (ws : List PaymentWebhook)
        → P d
        → P (record d { webhooks = ws })) where
    finish-keeps :
        (webhook : Option ℕ) (o : Outcome) (d : Database)
        → Good P o
        → P d
        → P (finish webhook o d).1
    finish-keeps none (m, ok d') d g v = g
    finish-keeps (some id) (none, ok d') d g v = g
    finish-keeps (some id) (some m, ok d') d g v = webhooks d' _ g
    finish-keeps none (m, err e) d g v = v
    finish-keeps (some id) (none, err e) d g v = v
    finish-keeps (some id) (some m, err e) d g v = webhooks d _ v

    module _ (p : Processor) (w : Moment) (gateway : String) (res : CallbackResult) (d : Database)
        (v : P d) where
      claimed-keeps :
          (id : ℕ) (r : Result Database)
          → claim_webhook_dedupe id (dedupe_key gateway res) d ≡ r
          → P (
              let x : Result (Unit {0}) × Database = elim r [
                | err duplicate_dedupe ↦ (
                  ok tt,
                  write_mark
                      (some id)
                      (some (mark WebhookStatus.duplicate (some "duplicate dedupe key")))
                      d,
                )
                | err e ↦ (err e, d)
                | ok d' ↦ finish (some id) (apply_tx p w res d') d'
              ] in
              x.1)
      claimed-keeps id (ok d') q =
          let v' : P d' = rw (claimed_at id (dedupe_key gateway res) d d' q) (webhooks d _ v) in
          finish-keeps (some id) (apply_tx p w res d') d' (apply_tx-Good p w res d' v') v'
      claimed-keeps id (err duplicate_dedupe) q = webhooks d _ v
      claimed-keeps id (err _) q = v

      pub apply-keeps : (webhook : Option ℕ) → P (apply p w webhook gateway res d).1
      unfolding apply
      apply-keeps none = finish-keeps none (apply_tx p w res d) d (apply_tx-Good p w res d v) v
      apply-keeps (some id) =
          claimed-keeps id (claim_webhook_dedupe id (dedupe_key gateway res) d) refl

    module _ (p : Processor) (w : Moment) (g : Gateway) (id : ℕ) (body : String) where
      parsed-keeps :
          (parse_error : Option String) (stored : Database)
          → P stored
          → P (
              let x : Result (Unit {0}) × Database = elim parse_error [
                | some text ↦ (
                  err parse_failed,
                  write_mark (some id) (some (mark WebhookStatus.failed (null_text text))) stored,
                )
                | none ↦ apply p w (some id) g.name (g.parse_callback body).0 stored
              ] in
              x.1)
      parsed-keeps (some text) stored v = webhooks stored _ v
      parsed-keeps none stored v =
          apply-keeps p w g.name (g.parse_callback body).0 stored v (some id)

      process_stored-keeps :
          (signature : Option String) (headers : String) (d : Database)
          → P d
          → P (process_stored p w g id signature headers body d).1
      unfolding process_stored
      process_stored-keeps signature headers d v =
          elim (Bool-cases (g.verify_signature headers body)) [
            | inl e ↦ rw e (parsed-keeps (g.parse_callback body).1 _ (webhooks d _ v))
            | inr e ↦ rw e (webhooks d _ v)
          ]

      pub process_raw-keeps :
          (signature : Option String) (headers : String) (d : Database)
          → P d
          → P (process_raw p w g id signature headers body d).1
      unfolding process_raw
      process_raw-keeps signature headers d v = elim (Bool-cases (p.accepts_json body)) [
        | inl e ↦ rw e (process_stored-keeps signature headers d v)
        | inr e ↦ rw e v
      ]

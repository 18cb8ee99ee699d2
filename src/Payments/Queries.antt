-- ===== src/Payments/Queries.antt =====
-- The queries of the module payments (services/api/internal/db/payments.sql.go,
-- payment_webhooks.sql.go and ballot.sql.go, and payments/repository.go).
use ivyticketing.Base.{
  ℕ, String, Bool, true, false, not, ◌&&◌, ◌||◌, Option, none, some, List, ◌==◌, is_id, is_text,
  str_eq, is_some, find, update_where, if◌then◌else◌,
}
use ivyticketing.Store.Rows.{
  Database, Payment, PaymentStatus, PaymentWebhook, WebhookStatus, BallotEntry, BallotStatus,
  AccessGrant, ReservationStatus, is_pending,
}
use ivyticketing.Store.Tx.{
  Tx, Result, ok, err, ◌>>=◌, ◌>>◌, one, modify, pure, no_rows, duplicate_dedupe,
}
use ivyticketing.Inventory.Queries.{update_reservation_status_by_order}

-- `GetPaymentByMerchantRefForUpdate`.
unfoldable pub payment_by_merchant_ref : String → List Payment → Option Payment
payment_by_merchant_ref ref = find (λ p. str_eq p.merchant_reference ref)

-- `WHERE id = $1 AND status = 'PENDING'`.
abbrev pub is_open : ℕ → Payment → Bool
is_open id p = p.id == id && is_pending p.status

unfoldable pub open_payment : ℕ → List Payment → Option Payment
open_payment id = find (is_open id)

-- `COALESCE($3, gateway_reference)`.
abbrev pub as_paid : ℕ → Option String → Payment → Payment
as_paid paid_at ref p = record p {
  status = PaymentStatus.paid;
  paid_at = some paid_at;
  gateway_reference = elim ref [ none ↦ p.gateway_reference | some r ↦ some r ];
}

unfoldable pub with_paid : ℕ → ℕ → Option String → List Payment → List Payment
with_paid id paid_at ref = update_where (is_open id) (as_paid paid_at ref)

unfoldable pub with_payment_status : ℕ → PaymentStatus → List Payment → List Payment
with_payment_status id s = update_where (is_open id) (λ p. record p { status = s })

unfoldable pub update_payment_status : ℕ → PaymentStatus → Tx Payment
update_payment_status id s = do
  p ← one (λ d. open_payment id d.payments) no_rows
  modify (λ d. record d { payments = with_payment_status id s d.payments })
  pure (record p { status = s })

unfoldable pub complete_reservations_for_order : ℕ → Tx (Unit {0})
complete_reservations_for_order order_id =
    update_reservation_status_by_order order_id ReservationStatus.completed

abbrev pub is_winner_or_lapsed : BallotStatus → Bool
is_winner_or_lapsed BallotStatus.winner = true
is_winner_or_lapsed BallotStatus.lapsed = true
is_winner_or_lapsed _ = false

abbrev pub has_grant_of : ℕ → List AccessGrant → Option ℕ → Bool
has_grant_of order_id gs none = false
has_grant_of order_id gs (some g) = is_some (find (λ x. x.id == g && is_id x.order_id order_id) gs)

abbrev pub converts : ℕ → ℕ → ℕ → List AccessGrant → BallotEntry → Bool
converts participant_id category_id order_id gs b =
    (b.participant_id == participant_id && b.category_id == category_id
      || has_grant_of order_id gs b.access_grant_id)
    && is_winner_or_lapsed b.status

-- Its caller drops the error.
unfoldable pub convert_ballot_winner_for_order : ℕ → ℕ → ℕ → ℕ → Tx (Unit {0})
convert_ballot_winner_for_order participant_id category_id order_id now = modify (λ d. record d {
  ballot_entries =
      update_where (converts participant_id category_id order_id d.grants)
        (λ b. record b { status = BallotStatus.converted; converted_at = some now })
        d.ballot_entries;
})

unfoldable pub webhook_by_id : ℕ → List PaymentWebhook → Option PaymentWebhook
webhook_by_id id = find (λ w. w.id == id)

-- The unique index on `dedupe_key`: another row holds the key.
unfoldable pub is_claimed : ℕ → String → List PaymentWebhook → Bool
is_claimed id key ws = is_some (find (λ w. not (w.id == id) && is_text w.dedupe_key key) ws)

unfoldable pub with_dedupe_key : ℕ → String → List PaymentWebhook → List PaymentWebhook
with_dedupe_key id key = update_where (λ w. w.id == id) (λ w. record w { dedupe_key = some key })

unfoldable pub claim_webhook_dedupe : ℕ → String → Database → Result Database
claim_webhook_dedupe id key d = elim (webhook_by_id id d.webhooks) [
  | none ↦ err no_rows
  | some _ ↦
      if is_claimed id key d.webhooks
      then err duplicate_dedupe
      else ok (record d { webhooks = with_dedupe_key id key d.webhooks })
]

-- The columns that `MarkWebhookProcessed` writes.
pub record Mark : Type 0 where
  pub status : WebhookStatus
  pub payment_id : Option ℕ
  pub detail : Option String

unfoldable pub with_mark : ℕ → Mark → List PaymentWebhook → List PaymentWebhook
with_mark id m =
    update_where (λ w. w.id == id)
      (λ w. record w {
        processing_status = m.status;
        processed_payment_id = m.payment_id;
        error_detail = m.detail;
      })

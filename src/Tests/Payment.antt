-- ===== src/Tests/Payment.antt =====
-- Runs of the processing of callbacks.
use ivyticketing.Base.{◌≡◌, refl, none, some}
use ivyticketing.Store.Rows.{PaymentStatus}
use ivyticketing.Store.Tx.{ok, err, payment_not_found}
use ivyticketing.Payments.Queries.{
  payment_by_merchant_ref, webhook_by_id, claim_webhook_dedupe, is_claimed,
}
use ivyticketing.Payments.Processor.{apply, process_raw, process_stored, apply_tx}
use ivyticketing.Payments.Promises.{process_raw_final, payment_by_id}
use ivyticketing.Payments.Replay.{process_raw_replay, without_webhooks}
use ivyticketing.Payments.Failures.{process_raw_error}
use ivyticketing.Tests.Data.{start, late, settled, payment_of_first, processor, moment, gateway}

-- The callback comes before the payment's row, and again when the row is there: the second one
-- succeeds and leaves the payment pending.
process_raw_replay_example :
    ((process_raw processor moment gateway 52 none "" "{}" late).0 ≡ ok tt)
    × (without_webhooks (process_raw processor moment gateway 52 none "" "{}" late).1
        ≡ without_webhooks late)
process_raw_replay_example =
    process_raw_replay processor processor moment moment gateway 51 52 none none "" "" "{}" "{}"
      start late refl refl refl refl refl refl refl (λ e. cc e) (unfold webhook_by_id in refl) refl

process_raw_final_example :
    payment_by_id 31 (process_raw processor moment gateway 51 none "" "{}" settled).1.payments
    ≡ some (record payment_of_first { status = PaymentStatus.paid })
process_raw_final_example =
    process_raw_final processor moment gateway 51 none "" "{}" settled 31 refl
      (unfold payment_by_id in refl)

unknown_payment :
    (process_raw processor moment gateway 51 none "" "{}" start).0 ≡ err payment_not_found
unfolding process_raw process_stored apply apply_tx claim_webhook_dedupe webhook_by_id is_claimed
    payment_by_merchant_ref
unknown_payment = refl

process_raw_error_example :
    without_webhooks (process_raw processor moment gateway 51 none "" "{}" start).1
    ≡ without_webhooks start
process_raw_error_example =
    process_raw_error processor moment gateway 51 none "" "{}" start unknown_payment

-- ===== src/Payments/Failures.antt =====
-- Callbacks that fail (modules/payments/processor.go).
use ivyticketing.Base.{
  ℕ, ◌≡◌, refl, sym, ◌∙◌, ap, String, true, false, Option, none, some, Bool-cases, Option-cases,
  arith, ◌∷◌, inl, inr,
}
use ivyticketing.Store.Rows.{Database, WebhookStatus}
use ivyticketing.Store.Tx.{Result, ok, err, Error, duplicate_dedupe, invalid_signature}
use ivyticketing.Payments.Queries.{claim_webhook_dedupe}
use ivyticketing.Payments.Processor.{
  Processor, Moment, CallbackResult, Outcome, received, apply, apply_tx, finish, process_raw,
  process_stored, Gateway, dedupe_key, mark, write_mark,
}
use ivyticketing.Payments.Keeps.{claimed_at}
use ivyticketing.Payments.Replay.{without_webhooks, process_raw-apply}

finish-error :
    (id : Option ℕ) (o : Outcome) (d : Database) {e : Error}
    → (finish id o d).0 ≡ err e
    → without_webhooks (finish id o d).1 ≡ without_webhooks d
finish-error none (m, ok d') d h = cc
finish-error (some id) (none, ok d') d h = cc
finish-error (some id) (some m, ok d') d h = cc
finish-error none (m, err e) d h = refl
finish-error (some id) (none, err e) d h = refl
finish-error (some id) (some m, err e) d h = refl

module _ (p : Processor) (w : Moment) (gateway : String) (res : CallbackResult) (d : Database)
    {e : Error} where
  claim-error :
      (id : ℕ) (r : Result Database)
      → claim_webhook_dedupe id (dedupe_key gateway res) d ≡ r
      → let x : Result (Unit {0}) × Database = elim r [
        | err duplicate_dedupe ↦ (
          ok tt,
          write_mark
              (some id)
              (some (mark WebhookStatus.duplicate (some "duplicate dedupe key")))
              d,
        )
        | err e ↦ (err e, d)
        | ok d' ↦ finish (some id) (apply_tx p w res d') d'
      ] in
        x.0 ≡ err e → without_webhooks x.1 ≡ without_webhooks d
  claim-error id (ok d') q h =
      finish-error (some id) (apply_tx p w res d') d' h
      ∙ ap without_webhooks (claimed_at id (dedupe_key gateway res) d d' q)
  claim-error id (err duplicate_dedupe) q h = refl
  claim-error id (err _) q h = refl

  apply-error :
      (webhook : Option ℕ)
      → (apply p w webhook gateway res d).0 ≡ err e
      → without_webhooks (apply p w webhook gateway res d).1 ≡ without_webhooks d
  unfolding apply
  apply-error none h = finish-error none (apply_tx p w res d) d h
  apply-error (some id) h =
      claim-error id (claim_webhook_dedupe id (dedupe_key gateway res) d) refl h

-- A callback whose body the log can hold and whose signature the gateway does not verify is refused and changes nothing but the log.
pub process_raw_forged :
    (p : Processor) (w : Moment) (g : Gateway) (id : ℕ) (signature : Option String)
    (headers body : String) (d : Database)
    → p.accepts_json body ≡ true
    → g.verify_signature headers body ≡ false
    → ((process_raw p w g id signature headers body d).0 ≡ err invalid_signature)
      × (without_webhooks (process_raw p w g id signature headers body d).1 ≡ without_webhooks d)
unfolding process_raw process_stored
process_raw_forged p w g id signature headers body d json e = ground arith

process_raw_unparsed :
    (p : Processor) (w : Moment) (g : Gateway) (id : ℕ) (signature : Option String)
    (headers body : String) (d : Database) {t : String}
    → p.accepts_json body ≡ true
    → g.verify_signature headers body ≡ true
    → (g.parse_callback body).1 ≡ some t
    → without_webhooks (process_raw p w g id signature headers body d).1 ≡ without_webhooks d
unfolding process_raw process_stored
process_raw_unparsed p w g id signature headers body d json valid e = ground arith

process_raw_unstored :
    (p : Processor) (w : Moment) (g : Gateway) (id : ℕ) (signature : Option String)
    (headers body : String) (d : Database)
    → p.accepts_json body ≡ false
    → without_webhooks (process_raw p w g id signature headers body d).1 ≡ without_webhooks d
unfolding process_raw
process_raw_unstored p w g id signature headers body d e = ground arith

-- A callback that fails, for whatever reason, changes nothing but the log of the webhooks.
pub process_raw_error :
    (p : Processor) (w : Moment) (g : Gateway) (id : ℕ) (signature : Option String)
    (headers body : String) (d : Database) {e : Error}
    → (process_raw p w g id signature headers body d).0 ≡ err e
    → without_webhooks (process_raw p w g id signature headers body d).1 ≡ without_webhooks d
process_raw_error p w g id signature headers body d {e} h =
    elim (Bool-cases (p.accepts_json body)) [
      | inl json ↦ elim (Bool-cases (g.verify_signature headers body)) [
        | inl valid ↦ elim (Option-cases (g.parse_callback body).1) [
          | inl parsed ↦
              let q = process_raw-apply p w g id signature headers body d json valid parsed in
              ap (λ r. without_webhooks r.1) q
              ∙ apply-error p w g.name (g.parse_callback body).0
                  (record d { webhooks = received g id signature headers body ∷ d.webhooks })
                  (some id) (sym (ap (λ r. r.0) q) ∙ h)
          | inr (t, unparsed) ↦
              process_raw_unparsed p w g id signature headers body d json valid unparsed
        ]
        | inr forged ↦ (process_raw_forged p w g id signature headers body d json forged).1
      ]
      | inr refused ↦ process_raw_unstored p w g id signature headers body d refused
    ]

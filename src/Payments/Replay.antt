-- ===== src/Payments/Replay.antt =====
-- Repeated callbacks and the dedupe key (modules/payments/processor.go).
use ivyticketing.Base.{
  ℕ, ◌≡◌, ◌≢◌, refl, ◌∙◌, ap, String, true, ◌==◌, Option, none, some, List, [], ◌∷◌, arith, find,
  Bool-cases, inl, inr, ◌⊎◌, is_some, str_eq_self,
}
use mathlib.Core.Path.{subst}
use ivyticketing.Store.Rows.{Database, PaymentWebhook, WebhookStatus}
use ivyticketing.Store.Tx.{ok, err, duplicate_dedupe}
use ivyticketing.Payments.Queries.{
  is_claimed, with_mark, with_dedupe_key, webhook_by_id, claim_webhook_dedupe, Mark,
}
use ivyticketing.Payments.Processor.{
  Processor, Moment, CallbackResult, Outcome, received, apply, apply_tx, finish, process_raw,
  process_stored, Gateway, dedupe_key, mark, write_mark,
}
use ivyticketing.Payments.Keeps.{Kept, Good, apply_tx-Good}
use ivyticketing.Payments.Promises.{pay_order-SamePayments}

-- The tables but for the log of the webhooks.
abbrev pub without_webhooks : Database → Database
without_webhooks d = record d { webhooks = [] }

is_claimed-with_mark :
    (i j : ℕ) (key : String) (m : Mark) (ws : List PaymentWebhook)
    → is_claimed i key (with_mark j m ws) ≡ is_claimed i key ws
unfolding is_claimed with_mark
is_claimed-with_mark i j key m [] = refl
is_claimed-with_mark i j key m (x ∷ ws) = ground (arith, is_claimed-with_mark i j key m ws)

-- Where a row with the identifier `id` exists, the key is claimed for every other row.
is_claimed-with_dedupe_key :
    (i id : ℕ) (key : String) (ws : List PaymentWebhook)
    → i ≢ id
    → is_some (webhook_by_id id ws) ≡ true
    → is_claimed i key (with_dedupe_key id key ws) ≡ true
unfolding is_claimed with_dedupe_key webhook_by_id
is_claimed-with_dedupe_key i id key [] n e = cc
is_claimed-with_dedupe_key i id key (x ∷ ws) n e = ground (
  arith,
  str_eq_self key,
  λ (q : is_some (find (λ y. y.id == id) ws) ≡ true). is_claimed-with_dedupe_key i id key ws n q,
)

-- A key that is claimed stays claimed for a row that is new.
is_claimed-new :
    (i id : ℕ) (key : String) (ws : List PaymentWebhook)
    → webhook_by_id i ws ≡ none
    → is_claimed id key ws ≡ true
    → is_claimed i key ws ≡ true
unfolding is_claimed webhook_by_id
is_claimed-new i id key [] n e = cc
is_claimed-new i id key (x ∷ ws) n e = ground (arith, is_claimed-new i id key ws)

new_behind :
    (i : ℕ) (x : PaymentWebhook) (ws : List PaymentWebhook)
    → i ≢ x.id
    → webhook_by_id i ws ≡ none
    → webhook_by_id i (x ∷ ws) ≡ none
unfolding webhook_by_id
new_behind i x ws n e = ground arith

pub found_first :
    (x : PaymentWebhook) (ws : List PaymentWebhook) → is_some (webhook_by_id x.id (x ∷ ws)) ≡ true
unfolding webhook_by_id
found_first x ws = ground arith

pub is_claimed-own :
    (x : PaymentWebhook) (key : String) (ws : List PaymentWebhook)
    → is_claimed x.id key (x ∷ ws) ≡ is_claimed x.id key ws
unfolding is_claimed
is_claimed-own x key ws = ground arith

-- The body of `apply` writes no row of the log.
apply_tx-webhooks :
    (p : Processor) (w : Moment) (res : CallbackResult) (d : Database) (m : Option Mark)
    (d' : Database)
    → apply_tx p w res d ≡ (m, ok d')
    → d'.webhooks ≡ d.webhooks
apply_tx-webhooks p w res d m d' e = subst (Good Same) e (apply_tx-Good kept p w res d refl)
  where
    Same : Database → Type 0
    Same x = x.webhooks ≡ d.webhooks

    kept : Kept Same
    kept = record {
      paid = λ i t ref x h. h;
      closed = λ i s x h. h;
      settled =
          λ p w o x h. record { at = λ a y q. ((pay_order-SamePayments p w o x).at a y q).1 ∙ h };
    }

is_claimed-finish :
    (i id : ℕ) (key : String) (o : Outcome) (d : Database)
    → ((d' : Database) → o.1 ≡ ok d' → d'.webhooks ≡ d.webhooks)
    → is_claimed i key d.webhooks ≡ true
    → is_claimed i key (finish (some id) o d).1.webhooks ≡ true
is_claimed-finish i id key (none, ok d') d same c = rw (same d' refl) c
is_claimed-finish i id key (some m, ok d') d same c =
    is_claimed-with_mark i id key m d'.webhooks ∙ ap (is_claimed i key) (same d' refl) ∙ c
is_claimed-finish i id key (none, err e) d same c = c
is_claimed-finish i id key (some m, err e) d same c = is_claimed-with_mark i id key m d.webhooks ∙ c

pub claim_cases :
    (id : ℕ) (key : String) (d : Database)
    → is_some (webhook_by_id id d.webhooks) ≡ true
    → ((is_claimed id key d.webhooks ≡ true)
        × (claim_webhook_dedupe id key d ≡ err duplicate_dedupe))
      ⊎ (claim_webhook_dedupe id key d
          ≡ ok (record d { webhooks = with_dedupe_key id key d.webhooks }))
unfolding claim_webhook_dedupe
claim_cases id key d found = elim (Bool-cases (is_claimed id key d.webhooks)) [
  | inl e ↦ inl (e, ground arith)
  | inr e ↦ inr (ground arith)
]

-- After `apply` the key of its callback is claimed for a row that is new.
apply-claims :
    (p : Processor) (w : Moment) (gateway : String) (res : CallbackResult) (i id : ℕ) (d : Database)
    → i ≢ id
    → webhook_by_id i d.webhooks ≡ none
    → is_some (webhook_by_id id d.webhooks) ≡ true
    → is_claimed i (dedupe_key gateway res) (apply p w (some id) gateway res d).1.webhooks ≡ true
unfolding apply
apply-claims p w gateway res i id d n new found =
    elim (claim_cases id (dedupe_key gateway res) d found) [
      | inl (c, e) ↦
          rw (apply, e)
            (is_claimed-with_mark i id (dedupe_key gateway res) _ d.webhooks
              ∙ is_claimed-new i id (dedupe_key gateway res) d.webhooks new c)
      | inr e ↦
          let d1 : Database = record d {
            webhooks = with_dedupe_key id (dedupe_key gateway res) d.webhooks;
          } in
          rw (apply, e)
            (is_claimed-finish i id (dedupe_key gateway res) (apply_tx p w res d1) d1
              (λ d' q.
                apply_tx-webhooks p w res d1 (apply_tx p w res d1).0 d'
                  (ap (λ r. ((apply_tx p w res d1).0, r)) q))
              (is_claimed-with_dedupe_key i id (dedupe_key gateway res) d.webhooks n found))
    ]

-- A callback whose key is claimed is a duplicate: its row of the log is marked so.
apply-duplicate :
    (p : Processor) (w : Moment) (gateway : String) (res : CallbackResult) (i : ℕ) (d : Database)
    → is_some (webhook_by_id i d.webhooks) ≡ true
    → is_claimed i (dedupe_key gateway res) d.webhooks ≡ true
    → apply p w (some i) gateway res d ≡ (
      ok tt,
      write_mark (some i) (some (mark WebhookStatus.duplicate (some "duplicate dedupe key"))) d,
    )
unfolding apply claim_webhook_dedupe
apply-duplicate p w gateway res i d found c = ground arith

-- `ProcessRaw` at a callback that the gateway accepts is `apply` at the tables with its row.
pub process_raw-apply :
    (p : Processor) (w : Moment) (g : Gateway) (id : ℕ) (signature : Option String)
    (headers body : String) (d : Database)
    → p.accepts_json body ≡ true
    → g.verify_signature headers body ≡ true
    → (g.parse_callback body).1 ≡ none
    → process_raw p w g id signature headers body d
      ≡ apply p w
          (some id)
          g.name
          (g.parse_callback body).0
          (record d { webhooks = received g id signature headers body ∷ d.webhooks })
unfolding process_raw process_stored
process_raw-apply p w g id signature headers body d json valid parsed = ground arith

-- The gateway repeats a callback: the second delivery may have another body, but its dedupe key is
-- that of the first, and both bodies are ones that the log can hold and the gateway accepts. The
-- row of the second delivery is new to the log. Whatever the first did, and whatever has
-- been written since to the other tables, the second succeeds and changes nothing but the log.
pub process_raw_replay :
    (p p' : Processor) (w w' : Moment) (g : Gateway) (id id' : ℕ)
    (signature signature' : Option String) (headers headers' body body' : String) (d d2 : Database)
    → p.accepts_json body ≡ true
    → p'.accepts_json body' ≡ true
    → g.verify_signature headers body ≡ true
    → g.verify_signature headers' body' ≡ true
    → (g.parse_callback body).1 ≡ none
    → (g.parse_callback body').1 ≡ none
    → dedupe_key g.name (g.parse_callback body').0 ≡ dedupe_key g.name (g.parse_callback body).0
    → id' ≢ id
    → webhook_by_id id' d.webhooks ≡ none
    → d2.webhooks ≡ (process_raw p w g id signature headers body d).1.webhooks
    → ((process_raw p' w' g id' signature' headers' body' d2).0 ≡ ok tt)
      × (without_webhooks (process_raw p' w' g id' signature' headers' body' d2).1
          ≡ without_webhooks d2)
process_raw_replay p p' w w' g id id' signature signature' headers headers' body body' d d2 json
      json' valid valid' parsed parsed' same n new log =
    rw (again) (refl, refl)
  where
    first : PaymentWebhook
    first = received g id signature headers body

    second : PaymentWebhook
    second = received g id' signature' headers' body'

    claimed : is_claimed id' (dedupe_key g.name (g.parse_callback body).0) d2.webhooks ≡ true
    claimed =
        ap (is_claimed id' (dedupe_key g.name (g.parse_callback body).0)) (
          log
          ∙ ap (λ r. r.1.webhooks)
              (process_raw-apply p w g id signature headers body d json valid parsed))
        ∙ apply-claims p w g.name (g.parse_callback body).0 id' id
            (record d { webhooks = first ∷ d.webhooks }) n (new_behind id' first d.webhooks n new)
            (found_first first d.webhooks)

    again : process_raw p' w' g id' signature' headers' body' d2 ≡ (
      ok tt,
      write_mark
          (some id')
          (some (mark WebhookStatus.duplicate (some "duplicate dedupe key")))
          (record d2 { webhooks = second ∷ d2.webhooks }),
    )
    again =
        process_raw-apply p' w' g id' signature' headers' body' d2 json' valid' parsed'
        ∙ apply-duplicate p' w' g.name (g.parse_callback body').0 id'
            (record d2 { webhooks = second ∷ d2.webhooks }) (found_first second d2.webhooks)
            (is_claimed-own second _ d2.webhooks
              ∙ ap (λ k. is_claimed id' k d2.webhooks) same
              ∙ claimed)

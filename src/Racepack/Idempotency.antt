-- ===== src/Racepack/Idempotency.antt =====
-- Idempotency keys (modules/racepack and modules/scanner: service.go and handler.go), which both modules
-- keep in one table. The parameter `stored` is the text that PostgreSQL gives back for a JSON text
-- that it has kept as `jsonb`; `hash` is `HashRequest` of the method, the path and the body.
use ivyticketing.Base.{
  ℕ, String, Bool, ◌&&◌, Option, none, some, List, ◌∷◌, str_eq, find, is_some, if◌then◌else◌,
}
use ivyticketing.Store.Tx.{Error, Result, ok, err, idempotency_conflict}
use ivyticketing.Racepack.Rows.{IdempotencyKey, Desk}

pub data Reply : Type 0 where
  answered : ℕ → String → Reply
  failed : Error → Reply

-- What a request with a key is: the key, the scope of the endpoint, and the hash.
pub record Keyed : Type 0 where
  pub key : String
  pub scope : String
  pub request_hash : String

abbrev pub is_key : Keyed → IdempotencyKey → Bool
is_key q k = str_eq k.key q.key && str_eq k.scope q.scope

-- `LookupIdempotency`: no key, no hit.
unfoldable pub lookup_idempotency : Keyed → List IdempotencyKey → Option IdempotencyKey
lookup_idempotency q keys = if str_eq q.key "" then none else find (is_key q) keys

-- `StoreIdempotency`; `ON CONFLICT DO NOTHING`. The code logs a failure of the insert and goes on; a
-- failure of the connection is not modelled, so the insert succeeds.
unfoldable pub store_idempotency : Keyed → ℕ → String → Desk → Desk
store_idempotency q status body d =
    if str_eq q.key "" then d else if is_some (find (is_key q) d.keys) then d else record d {
      keys =
          record {
            key = q.key;
            scope = q.scope;
            request_hash = q.request_hash;
            response_status = status;
            response_body = body;
          }
          ∷ d.keys;
    }

unfoldable pub fresh_reply : (String → String) → Keyed → ℕ → Result String × Desk → Reply × Desk
unfolding store_idempotency
fresh_reply stored q status (ok body, d) =
    (answered status body, store_idempotency q status (stored body) d)
fresh_reply stored q status (err e, d) = (failed e, d)

unfoldable pub replay : Keyed → IdempotencyKey → Reply
replay q k =
    if str_eq k.request_hash q.request_hash
    then answered k.response_status k.response_body
    else failed idempotency_conflict

unfoldable pub keyed_reply :
    (String → String) → Keyed → ℕ → (Desk → Result String × Desk) → Desk → Reply × Desk
unfolding lookup_idempotency fresh_reply replay
keyed_reply stored q status run d = elim (lookup_idempotency q d.keys) [
  | none ↦ fresh_reply stored q status (run d)
  | some k ↦ (replay q k, d)
]

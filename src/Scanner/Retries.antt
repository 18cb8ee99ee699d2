-- ===== src/Scanner/Retries.antt =====
-- Requests that are sent again with their key: modules/racepack/handler.go.
use ivyticketing.Base.{
  ℕ, ◌≡◌, ◌⊎◌, refl, sym, ap, ◌∙◌, String, Bool, true, false, ◌&&◌, Option, none, some, List, find,
  is_some, if◌then◌else◌, inl, inr, str_eq, str_eq-true, str_eq_self,
}
use ivyticketing.Store.Tx.{Result, ok, err, idempotency_conflict}
use ivyticketing.Racepack.Rows.{PickupRecord, IdempotencyKey, Desk}
use ivyticketing.Racepack.Calls.{settle}
use ivyticketing.Racepack.Pickup.{PickupInput, execute_pickup, pickup_tx}
use ivyticketing.Racepack.Promises.{execute_pickup-PickedUp}
use ivyticketing.Racepack.Idempotency.{
  Reply, Keyed, is_key, lookup_idempotency, store_idempotency, fresh_reply, replay, keyed_reply,
  answered, failed,
}
use ivyticketing.Racepack.Handler.{rendered, pickup_key, create_pickup}
use ivyticketing.Scanner.Desk.{DeskStep, run_steps}
use ivyticketing.Scanner.Handles.{stored_key, rendered-same}
use ivyticketing.Scanner.Once.{run_steps-Good}

-- The stored key answers for `q`: with a status and with the text of a reply, as given or as stored.
pub record Answers (stored : String → String) (q : Keyed) (status : ℕ) (body : String)
    (k : IdempotencyKey) : Type 0 where
  pub same_request : str_eq k.request_hash q.request_hash ≡ true
  pub same_answer : k.response_status ≡ status
  pub same_body : (k.response_body ≡ body) ⊎ (k.response_body ≡ stored body)

answered_inj : {s t : ℕ} {b c : String} → answered s b ≡ answered t c → (s ≡ t) × (b ≡ c)
answered_inj e = (cc, cc)

lookup_named :
    (q : Keyed) (keys : List IdempotencyKey)
    → str_eq q.key "" ≡ false
    → lookup_idempotency q keys ≡ find (is_key q) keys
unfolding lookup_idempotency
lookup_named q keys named = rw named refl

keyed_reply-hit :
    (stored : String → String) (q : Keyed) (status : ℕ) (run : Desk → Result String × Desk)
    (d : Desk) (k : IdempotencyKey)
    → lookup_idempotency q d.keys ≡ some k
    → keyed_reply stored q status run d ≡ (replay q k, d)
unfolding keyed_reply
keyed_reply-hit stored q status run d k hit = rw (keyed_reply, hit) refl

module _ (stored : String → String) (q : Keyed) (status : ℕ) (named : str_eq q.key "" ≡ false) where
  stored_now :
      (body : String) (d : Desk)
      → find (is_key q) d.keys ≡ none
      → find (is_key q) (store_idempotency q status body d).keys ≡ some (stored_key q status body)
  unfolding store_idempotency
  stored_now body d e = rw (named, ap is_some e, str_eq_self q.key, str_eq_self q.scope) refl

  fresh_found :
      (r : Result String × Desk) {s : ℕ} {b : String} {d1 : Desk}
      → find (is_key q) r.1.keys ≡ none
      → fresh_reply stored q status r ≡ (answered s b, d1)
      → (k : IdempotencyKey) × (find (is_key q) d1.keys ≡ some k) × Answers stored q s b k
  unfolding fresh_reply
  fresh_found (ok body, d) e h =
      let (code, text) = answered_inj (ap (λ x. x.0) h) in
      (
        stored_key q status (stored body),
        ap (λ x. find (is_key q) x.1.keys) (sym h) ∙ stored_now (stored body) d e,
        record {
          same_request = str_eq_self q.request_hash;
          same_answer = code;
          same_body = inr (ap stored text);
        },
      )
  fresh_found (err x, d) e h = cc

  replay_found :
      (k : IdempotencyKey) {s : ℕ} {b : String} → replay q k ≡ answered s b → Answers stored q s b k
  unfolding replay
  replay_found k h =
      let (same, code, text) = replayed (str_eq k.request_hash q.request_hash) h in
      record { same_request = same; same_answer = code; same_body = inl text }
    where
      replayed :
          (c : Bool) {s t : ℕ} {x y : String}
          → (if c then answered s x else failed idempotency_conflict) ≡ answered t y
          → (c ≡ true) × (s ≡ t) × (x ≡ y)
      replayed true e = (refl, (answered_inj e).0, (answered_inj e).1)
      replayed false e = cc

  key_found :
      (run : Desk → Result String × Desk) (d : Desk) {s : ℕ} {b : String} {d1 : Desk}
      → (run d).1.keys ≡ d.keys
      → keyed_reply stored q status run d ≡ (answered s b, d1)
      → (k : IdempotencyKey) × (find (is_key q) d1.keys ≡ some k) × Answers stored q s b k
  unfolding keyed_reply
  key_found run d {s} {b} {d1} same h = go (lookup_idempotency q d.keys) refl h
    where
      go :
          (o : Option IdempotencyKey)
          → lookup_idempotency q d.keys ≡ o
          → (let x : Reply × Desk = elim o [
            | none ↦ fresh_reply stored q status (run d)
            | some k ↦ (replay q k, d)
          ] in
              x)
            ≡ (answered s b, d1)
          → (k : IdempotencyKey) × (find (is_key q) d1.keys ≡ some k) × Answers stored q s b k
      go none e g =
          fresh_found (run d) (ap (find (is_key q)) same ∙ sym (lookup_named q d.keys named) ∙ e) g
      go (some k) e g = (
        k,
        sym (ap (λ x. find (is_key q) x.1.keys) g) ∙ sym (lookup_named q d.keys named) ∙ e,
        replay_found k (ap (λ x. x.0) g),
      )

-- The reply to a request with the key of an earlier one.
replay_later :
    (stored : String → String) (q q' : Keyed) (status s : ℕ) (b : String) (k : IdempotencyKey)
    (run : Desk → Result String × Desk) (d : Desk)
    → str_eq q.key "" ≡ false
    → q'.key ≡ q.key
    → q'.scope ≡ q.scope
    → find (is_key q) d.keys ≡ some k
    → Answers stored q s b k
    → (q'.request_hash ≡ q.request_hash
        → (b' : String) × (keyed_reply stored q' status run d ≡ (answered s b', d))
          × ((b' ≡ b) ⊎ (b' ≡ stored b)))
      × (str_eq q.request_hash q'.request_hash ≡ false
          → keyed_reply stored q' status run d ≡ (failed idempotency_conflict, d))
unfolding replay
replay_later stored q q' status s b k run d named same_key same_scope found a =
    let named' : str_eq q'.key "" ≡ false = ap (λ x. str_eq x "") same_key ∙ named in
    let hit : lookup_idempotency q' d.keys ≡ some k =
      lookup_named q' d.keys named'
      ∙ ap (λ (x : String × String). find (λ k. str_eq k.key x.0 && str_eq k.scope x.1) d.keys)
          (λ i. (same_key i, same_scope i))
      ∙ found in
    let reply = keyed_reply-hit stored q' status run d k hit in
    (
      λ same.
          let equal : str_eq k.request_hash q'.request_hash ≡ true =
            ap (str_eq k.request_hash) same ∙ a.same_request in
          (k.response_body, reply ∙ rw (equal, a.same_answer) refl, a.same_body),
      λ other.
          let unequal : str_eq k.request_hash q'.request_hash ≡ false =
            ap (λ x. str_eq x q'.request_hash)
              (str_eq-true k.request_hash q.request_hash a.same_request)
            ∙ other in
          reply ∙ rw unequal refl,
    )

-- A pickup keeps the keys.
execute_pickup-keys :
    (normal : String → String) (id now : ℕ) (p : PickupInput) (d : Desk)
    → (execute_pickup normal id now p d).1.keys ≡ d.keys
unfolding execute_pickup
execute_pickup-keys normal id now p d = go (pickup_tx normal id now p d) refl
  where
    go :
        (r : Result (PickupRecord × Desk))
        → pickup_tx normal id now p d ≡ r
        → (settle d r).1.keys ≡ d.keys
    go (ok (a, d')) e =
        ap (λ x. x.keys) (execute_pickup-PickedUp normal id now p d (ap (settle d) e)).rest
    go (err e) h = refl

-- A request for a pickup that was answered with success, sent again with its key, is answered from the
-- store: with the same status and the same text, or the text that the store has made of it; with
-- another content it is refused. Neither changes anything, whatever has happened in between.
pub create_pickup_again :
    (stored normal : String → String) (render : PickupRecord → String) (id now : ℕ)
    (key hash : String) (p : PickupInput) (d : Desk) {s : ℕ} {b : String} {d1 : Desk}
    → str_eq key "" ≡ false
    → create_pickup stored normal render id now key hash p d ≡ (answered s b, d1)
    → (ss : List DeskStep) (id' now' : ℕ) (hash' : String) (p' : PickupInput)
    → (hash' ≡ hash
        → (b' : String) × (create_pickup stored normal render id' now' key hash' p'
              (run_steps ss d1)
            ≡ (answered s b', run_steps ss d1))
          × ((b' ≡ b) ⊎ (b' ≡ stored b)))
      × (str_eq hash hash' ≡ false
          → create_pickup stored normal render id' now' key hash' p' (run_steps ss d1)
            ≡ (failed idempotency_conflict, run_steps ss d1))
unfolding create_pickup
create_pickup_again stored normal render id now key hash p d {s} {b} {d1} named h ss id' now' hash'
      p' =
    let run = λ (e : Desk). rendered render (execute_pickup normal id now p e) in
    let (k, found, answers) =
      key_found stored (pickup_key key hash) 201 named run d
        (ap (λ x. x.keys) (rendered-same render (execute_pickup normal id now p d))
          ∙ execute_pickup-keys normal id now p d)
        h in
    replay_later stored (pickup_key key hash) (pickup_key key hash') 201 s b k
      (λ e. rendered render (execute_pickup normal id' now' p' e)) (run_steps ss d1) named refl refl
      ((run_steps-Good ss d1).keys (pickup_key key hash) k found) answers

-- ===== src/Scanner/Handles.antt =====
-- A pickup and a check-in, with their idempotency keys, keep the desk sound, and keep pickups and keys
-- (modules/racepack and modules/scanner, handler.go).
use ivyticketing.Base.{
  ℕ, ◌+◌, ◌≡◌, ◌⊎◌, refl, sym, ap, ◌∙◌, String, Bool, true, false, not, ◌&&◌, Option, none, some,
  List, [], ◌∷◌, ◌==◌, ◌!=◌, find, is_some, count_where, All, arith, if◌then◌else◌, Bool-cases, inl,
  inr, str_eq, str_eq-true,
}
use mathlib.Core.Path.{subst}
use ivyticketing.Store.Tx.{Result, ok, err}
use ivyticketing.Racepack.Rows.{
  PickupSlot, PickupRecord, EventTicket, IdempotencyKey, Desk, is_cancelled, is_used,
}
use ivyticketing.Racepack.Calls.{guard_ok, with_row_ok, settle}
use ivyticketing.Racepack.Pickup.{
  PickupInput, active_pickup, execute_pickup, pickup_tx, event_ticket_by_id,
}
use ivyticketing.Racepack.Promises.{Entered, with_slots, with_pickup, execute_pickup-PickedUp}
use ivyticketing.Racepack.Idempotency.{
  Reply, Keyed, is_key, lookup_idempotency, store_idempotency, fresh_reply, replay, keyed_reply,
}
use ivyticketing.Racepack.Handler.{rendered}
use ivyticketing.Scanner.Service.{
  CheckInInput, CheckInResult, check_in, check_in_tx, check_in_ticket, or_now, is_usable_id,
  mark_ticket_used, first_check_in,
}
use ivyticketing.Scanner.Desk.{Fits, of_ticket, Good, Good-same, Good-after, settle-Good}
use ivyticketing.Scanner.Keeps.{All-put, tables_of, Good-rest}

count-active :
    (id : ℕ) (rs : List PickupRecord)
    → is_some (active_pickup id rs) ≡ false
    → count_where (of_ticket id) rs ≡ 0
unfolding active_pickup
count-active id [] e = refl
count-active id (r ∷ rs) e = ground (arith, count-active id rs)

-- A pickup adds a record of a ticket that has none.
with_pickup-Good :
    (d : Desk) (slots : List PickupSlot) (r : PickupRecord)
    → active_pickup r.ticket_id d.pickups ≡ none
    → (All Fits d.slots → All Fits slots)
    → Good d (with_pickup r (with_slots slots d))
unfolding active_pickup
with_pickup-Good d slots r fresh f = record {
  sound = λ s. record {
    one_each =
        λ id. ground (arith, s.one_each id, count-active r.ticket_id d.pickups (ap is_some fresh));
    all_fit = f s.all_fit;
  };
  pickups = λ id e. ground (arith, e);
  keys = λ q k e. e;
}

slots_fit :
    (now event_id : ℕ) (slot : Option ℕ) (d : Desk) (slots : List PickupSlot)
    → Entered now event_id slot d slots
    → All Fits d.slots
    → All Fits slots
slots_fit now event_id none d slots e f = subst (All Fits) (sym e) f
slots_fit now event_id (some id) d slots (s, found, same, live, in_time, free, e) f =
    subst (All Fits) (sym e) (
      All-put (λ q. q.id == id) (λ _. record s { reserved_count = s.reserved_count + 1 }) d.slots
        (λ q g. ground (arith, free)) f)

pub execute_pickup-Good :
    (normal : String → String) (id now : ℕ) (p : PickupInput) (d : Desk)
    → Good d (execute_pickup normal id now p d).1
unfolding execute_pickup
execute_pickup-Good normal id now p d = settle-Good d (pickup_tx normal id now p d) (λ r d' h.
    let done = execute_pickup-PickedUp normal id now p d (ap (settle d) h) in
    subst (Good d) (sym done.rest) (
      with_pickup-Good d d'.slots r
        (ap (λ i. active_pickup i d.pickups) done.written.ticket_written ∙ done.none_before)
        (slots_fit now p.event_id p.slot_id d d'.slots done.entered)))

pub first_check_in_ok :
    (id : ℕ) (r : Result (EventTicket × Desk)) {a : CheckInResult} {d' : Desk}
    → first_check_in id r ≡ ok (a, d')
    → (t : EventTicket) × (r ≡ ok (t, d'))
first_check_in_ok id (ok (t, d)) h = (t, ap (λ e. ok (t, e)) (tables_of h))
first_check_in_ok id (err e) h = cc

pub either_ok :
    {A : Type 0} (b : Bool) (x y : Result A) {a : A}
    → (if b then x else y) ≡ ok a
    → ((b ≡ true) × (x ≡ ok a)) ⊎ ((b ≡ false) × (y ≡ ok a))
either_ok true x y h = inl (refl, h)
either_ok false x y h = inr (refl, h)

check_in_ticket-Good :
    (now : ℕ) (p : CheckInInput) (d : Desk) (t : EventTicket) (a : CheckInResult) (d' : Desk)
    → check_in_ticket now p d t ≡ ok (a, d')
    → Good d d'
unfolding check_in_ticket mark_ticket_used
check_in_ticket-Good now p d t a d' h =
    let (alive, h1) = guard_ok (is_cancelled t.status) _ _ h in
    let (same, h2) = guard_ok (t.event_id != p.event_id) _ _ h1 in
    elim (either_ok (is_used t.status) _ _ h2) [
      | inl (e, g) ↦ subst (Good d) (tables_of g) (Good-same d)
      | inr (e, g) ↦
          let (u, marking) =
            first_check_in_ok p.ticket_id (mark_ticket_used p.ticket_id (or_now p.scanned_at now) d)
              g in
          let (v, found, g1) =
            with_row_ok (find (is_usable_id p.ticket_id) d.tickets) _ _ marking in
          let q = tables_of g1 in
          Good-rest d d' (ap (λ x. x.slots) q) (ap (λ x. x.pickups) q) (ap (λ x. x.keys) q)
    ]

pub check_in-Good :
    (may_scan : ℕ → ℕ → Bool) (now : ℕ) (p : CheckInInput) (d : Desk)
    → Good d (check_in may_scan now p d).1
unfolding check_in check_in_tx
check_in-Good may_scan now p d = settle-Good d (check_in_tx may_scan now p d) (λ a d' h.
    let (allowed, h1) = guard_ok (not (may_scan p.event_id p.staff_id)) _ _ h in
    let (t, found, h2) = with_row_ok (event_ticket_by_id p.ticket_id d.tickets) _ _ h1 in
    check_in_ticket-Good now p d t a d' h2)

pub rendered-same :
    {A : Type 0} (render : A → String) (r : Result A × Desk) → (rendered render r).1 ≡ r.1
rendered-same render (ok a, d) = refl
rendered-same render (err e, d) = refl

key_differs :
    (q r : Keyed) (keys : List IdempotencyKey) (k : IdempotencyKey)
    → is_some (find (is_key q) keys) ≡ false
    → find (is_key r) keys ≡ some k
    → (str_eq q.key r.key && str_eq q.scope r.scope) ≡ false
key_differs q r keys k none_yet found =
    elim (Bool-cases (str_eq q.key r.key && str_eq q.scope r.scope)) [
      | inr e ↦ e
      | inl e ↦
          let same_key : q.key ≡ r.key = str_eq-true q.key r.key (ground (arith, e)) in
          let same_scope : q.scope ≡ r.scope = str_eq-true q.scope r.scope (ground (arith, e)) in
          let none_found : is_some (find (is_key r) keys) ≡ false =
            subst (λ x. is_some (find (λ k. str_eq k.key x && str_eq k.scope r.scope) keys) ≡ false)
              same_key
              (subst
                (λ x. is_some (find (λ k. str_eq k.key q.key && str_eq k.scope x) keys) ≡ false)
                same_scope none_yet) in
          absurd (no_key none_found (ap is_some found))
    ]
  where
    no_key : {b : Bool} → b ≡ false → b ≡ true → ⊥
    no_key e f = cc

abbrev pub stored_key : Keyed → ℕ → String → IdempotencyKey
stored_key q status body = record {
  key = q.key;
  scope = q.scope;
  request_hash = q.request_hash;
  response_status = status;
  response_body = body;
}

put_key-Good :
    (q : Keyed) (status : ℕ) (body : String) (d : Desk)
    → is_some (find (is_key q) d.keys) ≡ false
    → Good d (record d { keys = stored_key q status body ∷ d.keys })
put_key-Good q status body d fresh = record {
  sound = λ s. s;
  pickups = λ id e. e;
  keys = λ r k e. rw (key_differs q r d.keys k fresh e) e;
}

store_idempotency-Good :
    (q : Keyed) (status : ℕ) (body : String) (d : Desk) → Good d (store_idempotency q status body d)
unfolding store_idempotency
store_idempotency-Good q status body d = elim (Bool-cases (str_eq q.key "")) [
  | inl e ↦ rw e (Good-same d)
  | inr e ↦ elim (Bool-cases (is_some (find (is_key q) d.keys))) [
    | inl f ↦ rw (e, f) (Good-same d)
    | inr f ↦ rw (e, f) (put_key-Good q status body d f)
  ]
]

fresh_reply-Good :
    (stored : String → String) (q : Keyed) (status : ℕ) (d : Desk) (r : Result String × Desk)
    → Good d r.1
    → Good d (fresh_reply stored q status r).1
unfolding fresh_reply
fresh_reply-Good stored q status d (ok body, e) g =
    Good-after d e _ g (store_idempotency-Good q status (stored body) e)
fresh_reply-Good stored q status d (err x, e) g = g

pub keyed_reply-Good :
    (stored : String → String) (q : Keyed) (status : ℕ) (run : Desk → Result String × Desk)
    (d : Desk)
    → Good d (run d).1
    → Good d (keyed_reply stored q status run d).1
unfolding keyed_reply
keyed_reply-Good stored q status run d g = go (lookup_idempotency q d.keys)
  where
    go :
        (o : Option IdempotencyKey)
        → Good d (
            let x : Reply × Desk = elim o [
              | none ↦ fresh_reply stored q status (run d)
              | some k ↦ (replay q k, d)
            ] in
            x.1)
    go none = fresh_reply-Good stored q status d (run d) g
    go (some k) = Good-same d

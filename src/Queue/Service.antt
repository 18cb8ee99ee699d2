-- ===== src/Queue/Service.antt =====
-- The service of the waiting room: `Join` (modules/queue/service.go), `Release` (release.go), and
-- `CheckAdmission`, `ConsumeOnCheckout` and `ExpireDue` (admission.go). Parameters: `draw` is the
-- identifier that the database draws for a new row, `hash` the first 64 bits of the SHA-256 of a seed
-- and a participant. Audit, metrics and notifications write no table of the model.
use ivyticketing.Base.{
  ℕ, suc, ◌+◌, ◌/◌, Bool, true, false, not, Option, none, some, List, [], ◌∷◌, ◌==◌, ltb, length,
  find, if◌then◌else◌, String, is_id,
}
use ivyticketing.Store.Tx.{
  Result, ok, err, Error, queue_not_enabled, admission_required, admission_expired, no_rows,
}
use ivyticketing.Queue.Rows.{Pool, QueueToken, QueueAdmission, QueueControl, Room}
use ivyticketing.Queue.Cache.{
  add_waiting, move_to_allowed, move_to_waiting, remove_allowed, invalidate_cached_status,
}
use ivyticketing.Queue.Tokens.{
  token_of, new_token, create_token, list_waiting, mark_allowed, mark_completed, requeue,
  new_admission, create_admission, active_admission, consume_admission, expire_admission,
  list_expired,
}

-- `FifoScore`: the clock.
unfoldable pub fifo_score : ℕ → ℕ
fifo_score now = now

-- `PresaleScore`.
unfoldable pub presale_score : (String → ℕ → ℕ) → String → ℕ → ℕ
presale_score hash seed participant = hash seed participant / 2

-- `GetQueueControl`.
unfoldable pub control_of : ℕ → Room → Option QueueControl
control_of event r = find (λ c. c.event_id == event) r.controls

-- `RANDOMIZED_QUEUE` and `HYBRID_QUEUE` are `seeded`.
pub data JoinMode : Type 0 where
  seeded war_queue no_queue : JoinMode

abbrev pub is_before : ℕ → Option ℕ → Bool
is_before now none = false
is_before now (some t) = ltb now t

abbrev pub seed_text : Option String → String
seed_text none = ""
seed_text (some s) = s

-- The pool and the score of a new token.
unfoldable pub pool_and_score : (String → ℕ → ℕ) → JoinMode → ℕ → ℕ → ℕ → Room → Result (Pool × ℕ)
unfolding fifo_score presale_score
pool_and_score hash no_queue event participant now r = err queue_not_enabled
pool_and_score hash war_queue event participant now r = ok (Pool.fifo, fifo_score now)
pool_and_score hash seeded event participant now r = elim (control_of event r) [
  | none ↦ ok (Pool.fifo, fifo_score now)
  | some c ↦
      if is_before now c.sale_start_at
      then ok (Pool.presale, presale_score hash (seed_text c.randomization_seed) participant)
      else ok (Pool.fifo, fifo_score now)
]

-- What `Join` makes of the insert: the token inserted, which Redis takes up, or the one that there
-- was.
unfoldable pub deliver : ℕ → ℕ → Result (Option QueueToken) × Room → Result QueueToken × Room
deliver event participant (err e, r) = (err e, r)
deliver event participant (ok (some t), r) = (ok t, add_waiting event participant t.score r)
deliver event participant (ok none, r) = elim (token_of event participant r.tokens) [
  | none ↦ (err no_rows, r)
  | some t ↦ (ok t, r)
]

-- The rest of `Join`, with the pool and the score.
unfoldable pub issue_token :
    (Room → ℕ) → ℕ → ℕ → ℕ → Result (Pool × ℕ) → Room → Result QueueToken × Room
issue_token draw org event participant (err e) r = (err e, r)
issue_token draw org event participant (ok (pool, score)) r =
    deliver event participant (create_token (new_token (draw r) org event participant pool score) r)

-- `Join`: the token; its position is `waiting_rank`.
unfoldable pub join :
    (String → ℕ → ℕ) → (Room → ℕ) → JoinMode → ℕ → ℕ → ℕ → ℕ → Room → Result QueueToken × Room
unfolding issue_token
join hash draw mode org event participant now r =
    issue_token draw org event participant (pool_and_score hash mode event participant now r) r

-- The end of a transaction that began at `r`: on an error it is rolled back.
unfoldable pub commit : Room → Result (Unit {0}) × Room → Result Bool × Room
commit r (ok u, r') = (ok true, r')
commit r (err e, r') = (err e, r)

-- The rest of the transaction of `Release` after `MarkAllowed`, whose error for no row is no failure.
unfoldable pub admit_marked : ℕ → ℕ → ℕ → Room → Option QueueToken × Room → Result Bool × Room
unfolding commit
admit_marked id event expires_at r (none, r') = (ok false, r')
admit_marked id event expires_at r (some t, r') =
    commit r (create_admission (new_admission id t event expires_at) r')

-- The transaction of `Release` for one token; `ok false` is a token that is not waiting any more.
unfoldable pub release_tx : (Room → ℕ) → QueueToken → ℕ → ℕ → ℕ → Room → Result Bool × Room
unfolding admit_marked
release_tx draw tok event now expires_at r =
    admit_marked (draw r) event expires_at r (mark_allowed tok.id now r)

-- Redis holds seconds, and the clock counts nanoseconds.
unfoldable pub after_release : Result Bool → QueueToken → ℕ → ℕ → Room → ℕ × Room
after_release (err e) tok event expires_at r = (0, r)
after_release (ok false) tok event expires_at r = (0, r)
after_release (ok true) tok event expires_at r = (
  1,
  invalidate_cached_status event tok.participant_id
      (move_to_allowed event tok.participant_id (expires_at / 1000000000) r),
)

unfoldable pub release_one : (Room → ℕ) → QueueToken → ℕ → ℕ → ℕ → Room → ℕ × Room
unfolding after_release
release_one draw tok event now expires_at r =
    let done = release_tx draw tok event now expires_at r in
    after_release done.0 tok event expires_at done.1

unfoldable pub release_each : (Room → ℕ) → List QueueToken → ℕ → ℕ → ℕ → Room → ℕ × Room
release_each draw [] event now expires_at r = (0, r)
release_each draw (tok ∷ toks) event now expires_at r =
    let one = release_one draw tok event now expires_at r in
    let rest = release_each draw toks event now expires_at one.1 in (one.0 + rest.0, rest.1)

-- `Release`: the number of promoted tokens, and the room.
unfoldable pub release : (Room → ℕ) → ℕ → ℕ → ℕ → ℕ → Room → ℕ × Room
release draw event n window now r =
    if n == 0 then (0, r) else release_each draw (list_waiting event n r) event now (now + window) r

-- `CheckAdmission`; a token that is no identifier is `none`.
unfoldable pub check_admission : ℕ → ℕ → Option ℕ → ℕ → Room → Option Error
check_admission participant event token now r = elim (active_admission event participant r) [
  | none ↦ some admission_required
  | some a ↦
      if not (is_id token a.id)
      then some admission_required
      else if ltb a.checkout_expires_at now
      then some admission_expired
      else none
]

-- `ConsumeOnCheckout`.
unfoldable pub consume_on_checkout : ℕ → ℕ → ℕ → Room → Result (Unit {0}) × Room
consume_on_checkout participant event now r = elim (active_admission event participant r) [
  | none ↦ (err no_rows, r)
  | some a ↦ (
    ok tt,
    invalidate_cached_status event participant (
        remove_allowed event participant
          (mark_completed a.token_id now (consume_admission a.id r))),
  )
]

-- One admission of `ExpireDue`. Its transaction does not fail: both statements are `:exec`.
unfoldable pub expire_one_admission : QueueAdmission → ℕ → Room → Room
unfolding fifo_score
expire_one_admission a now r =
    move_to_waiting a.event_id a.participant_id (fifo_score now)
      (requeue a.token_id (fifo_score now) (expire_admission a.id r))

-- `clock n` is the time at which the loop has `n` admissions left.
unfoldable pub expire_each : (ℕ → ℕ) → List QueueAdmission → Room → ℕ × Room
expire_each clock [] r = (0, r)
expire_each clock (a ∷ rest) r =
    let done = expire_each clock rest (expire_one_admission a (clock (length rest)) r) in
    (suc done.0, done.1)

-- `ExpireDue`; `now` is the time of the query.
unfoldable pub expire_due : (ℕ → ℕ) → ℕ → ℕ → Room → ℕ × Room
expire_due clock limit now r = expire_each clock (list_expired now limit r) r

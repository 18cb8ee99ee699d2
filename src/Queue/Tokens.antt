-- ===== src/Queue/Tokens.antt =====
-- The statements on tokens and admissions (services/api/internal/db/queue.sql.go) with the constraints of
-- database/migrations/00022_create_queue_tokens.sql and 00023_create_queue_admissions.sql. A token
-- names an event and a user that exist, which its admissions take over, so no foreign key fails.
-- `now` is the clock of the database.
use ivyticketing.Base.{
  ℕ, Bool, ◌&&◌, ◌||◌, Option, none, some, List, [], ◌∷◌, ◌++◌, ◌==◌, ltb, leb, is_some, find,
  filter, take, update_where, if◌then◌else◌,
}
use ivyticketing.Base.Sort.{sort_by}
use ivyticketing.Store.Tx.{Result, ok, err, constraint_violation}
use ivyticketing.Queue.Rows.{
  TokenStatus, Pool, AdmissionStatus, QueueToken, QueueAdmission, Room, is_waiting, is_allowed,
  is_active,
}

unfoldable pub token_by_id : ℕ → List QueueToken → Option QueueToken
token_by_id id = find (λ t. t.id == id)

-- `GetQueueTokenByEventParticipant`.
unfoldable pub token_of : ℕ → ℕ → List QueueToken → Option QueueToken
token_of event participant = find (λ t. (t.event_id == event) && (t.participant_id == participant))

-- A row that `CreateQueueToken` inserts.
abbrev pub new_token : ℕ → ℕ → ℕ → ℕ → Pool → ℕ → QueueToken
new_token id org event participant pool score = record {
  id = id;
  organization_id = org;
  event_id = event;
  participant_id = participant;
  status = TokenStatus.waiting;
  pool = pool;
  score = score;
  allowed_at = none;
  completed_at = none;
}

-- `CreateQueueToken`: `none` on the conflict of an event and a participant that have a token.
unfoldable pub create_token : QueueToken → Room → Result (Option QueueToken) × Room
create_token t r =
    if is_some (token_by_id t.id r.tokens)
    then (err constraint_violation, r)
    else if is_some (token_of t.event_id t.participant_id r.tokens)
    then (ok none, r)
    else (ok (some t), record r { tokens = r.tokens ++ (t ∷ []) })

-- The place of a pool under `ORDER BY pool DESC`: PRESALE stands before FIFO.
unfoldable pub pool_place : Pool → ℕ
pool_place Pool.presale = 0
pool_place Pool.fifo = 1

-- `ORDER BY pool DESC, score ASC`; rows that are equal in both stay in the order of the table.
unfoldable pub comes_before : QueueToken → QueueToken → Bool
unfolding pool_place
comes_before t u =
    ltb (pool_place t.pool) (pool_place u.pool)
    || ((pool_place t.pool == pool_place u.pool) && leb t.score u.score)

unfoldable pub waits_at : ℕ → QueueToken → Bool
waits_at event t = (t.event_id == event) && is_waiting t.status

-- The waiting line of an event, `ListWaitingTokensAll`.
unfoldable pub waiting_line : ℕ → Room → List QueueToken
waiting_line event r = sort_by comes_before (filter (waits_at event) r.tokens)

-- `ListWaitingTokens`.
unfoldable pub list_waiting : ℕ → ℕ → Room → List QueueToken
list_waiting event n r = take n (waiting_line event r)

unfoldable pub is_waiting_id : ℕ → QueueToken → Bool
is_waiting_id id t = (t.id == id) && is_waiting t.status

abbrev pub as_allowed : ℕ → QueueToken → QueueToken
as_allowed now t = record t { status = TokenStatus.allowed; allowed_at = some now }

-- `MarkTokenAllowed`: the row, or `none`.
unfoldable pub mark_allowed : ℕ → ℕ → Room → Option QueueToken × Room
mark_allowed id now r = elim (find (is_waiting_id id) r.tokens) [
  | none ↦ (none, r)
  | some t ↦ (
    some (as_allowed now t),
    record r { tokens = update_where (is_waiting_id id) (as_allowed now) r.tokens },
  )
]

unfoldable pub is_allowed_id : ℕ → QueueToken → Bool
is_allowed_id id t = (t.id == id) && is_allowed t.status

abbrev pub as_completed : ℕ → QueueToken → QueueToken
as_completed now t = record t { status = TokenStatus.completed; completed_at = some now }

-- `MarkTokenCompleted`.
unfoldable pub mark_completed : ℕ → ℕ → Room → Room
mark_completed id now r = record r {
  tokens = update_where (is_allowed_id id) (as_completed now) r.tokens;
}

abbrev pub as_requeued : ℕ → QueueToken → QueueToken
as_requeued score t = record t { status = TokenStatus.waiting; score = score; allowed_at = none }

-- `RequeueToken`.
unfoldable pub requeue : ℕ → ℕ → Room → Room
requeue id score r = record r {
  tokens = update_where (is_allowed_id id) (as_requeued score) r.tokens;
}

unfoldable pub is_open_for : ℕ → QueueAdmission → Bool
is_open_for token a = (a.token_id == token) && is_active a.status

abbrev pub new_admission : ℕ → QueueToken → ℕ → ℕ → QueueAdmission
new_admission id t event expires_at = record {
  id = id;
  token_id = t.id;
  event_id = event;
  participant_id = t.participant_id;
  checkout_expires_at = expires_at;
  status = AdmissionStatus.active;
}

-- `CreateAdmission`, with the key and the index `uq_admission_active`.
unfoldable pub create_admission : QueueAdmission → Room → Result (Unit {0}) × Room
create_admission a r =
    if is_some (find (λ b. b.id == a.id) r.admissions)
      || is_some (find (is_open_for a.token_id) r.admissions)
    then (err constraint_violation, r)
    else (ok tt, record r { admissions = a ∷ r.admissions })

-- `GetActiveAdmissionByParticipant`.
unfoldable pub active_admission : ℕ → ℕ → Room → Option QueueAdmission
active_admission event participant r =
    find (λ a. (a.event_id == event) && (a.participant_id == participant) && is_active a.status)
      r.admissions

unfoldable pub is_active_id : ℕ → QueueAdmission → Bool
is_active_id id a = (a.id == id) && is_active a.status

abbrev pub as_consumed : QueueAdmission → QueueAdmission
as_consumed a = record a { status = AdmissionStatus.consumed }

-- `ConsumeAdmission`.
unfoldable pub consume_admission : ℕ → Room → Room
consume_admission id r = record r {
  admissions = update_where (is_active_id id) as_consumed r.admissions;
}

abbrev pub as_expired : QueueAdmission → QueueAdmission
as_expired a = record a { status = AdmissionStatus.expired }

-- `ExpireAdmission`.
unfoldable pub expire_admission : ℕ → Room → Room
expire_admission id r = record r {
  admissions = update_where (is_active_id id) as_expired r.admissions;
}

unfoldable pub is_due : ℕ → QueueAdmission → Bool
is_due now a = is_active a.status && ltb a.checkout_expires_at now

-- `ListExpiredActiveAdmissions`.
unfoldable pub list_expired : ℕ → ℕ → Room → List QueueAdmission
list_expired now limit r = take limit (
    sort_by (λ a b. leb a.checkout_expires_at b.checkout_expires_at)
      (filter (is_due now) r.admissions))

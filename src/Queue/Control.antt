-- ===== src/Queue/Control.antt =====
-- The control of a waiting room (modules/queue/control.go, jobs.go), and `Status` with `Stats`
-- (service.go). A guard on the organization is a parameter: `allowed` says whether the event is one of
-- the caller's (`assertEventOrg`). Audit writes no table of the model.
use ivyticketing.Base.{
  ℕ, ◌+◌, ◌/◌, Bool, true, false, not, ◌||◌, Option, none, some, List, [], ◌∷◌, ◌==◌, ltb, is_some,
  filter, map, update_where, if◌then◌else◌, String, str_eq,
}
use ivyticketing.Store.Tx.{Result, ok, err, token_not_found, event_not_found, no_rows}
use ivyticketing.Queue.Rows.{
  QueueState, QueueToken, QueueAdmission, QueueControl, StatusResponse, Room, is_waiting,
  is_allowed,
}
use ivyticketing.Queue.Cache.{
  waiting_rank, waiting_count, allowed_count, cached_status, set_cached_status,
}
use ivyticketing.Queue.Tokens.{token_of, active_admission}
use ivyticketing.Queue.Service.{control_of, release}

-- `SetQueueState` and `SetReleaseRate`.
unfoldable pub set_state : ℕ → QueueState → Room → Room
set_state event st r = record r {
  controls = update_where (λ c. c.event_id == event) (λ c. record c { state = st }) r.controls;
}

unfoldable pub set_rate : ℕ → ℕ → Room → Room
set_rate event rate r = record r {
  controls =
      update_where (λ c. c.event_id == event) (λ c. record c { release_rate = rate }) r.controls;
}

-- `UpsertQueueControl`.
unfoldable pub upsert_control : QueueControl → Room → Room
unfolding control_of
upsert_control c r =
    if is_some (control_of c.event_id r)
    then record r { controls = update_where (λ d. d.event_id == c.event_id) (λ d. c) r.controls }
    else record r { controls = c ∷ r.controls }

-- `ensureControl`.
unfoldable pub ensure_control : ℕ → ℕ → Room → Room
unfolding control_of upsert_control
ensure_control default_rate event r = elim (control_of event r) [
  | some c ↦ r
  | none ↦
      upsert_control
        (record {
          event_id = event;
          state = QueueState.running;
          release_rate = default_rate;
          randomization_seed = none;
          sale_start_at = none;
          presale_pool_open_at = none;
        })
        r
]

-- `Pause`, `Resume` and `SetRate`.
unfoldable pub pause : Bool → ℕ → ℕ → Room → Result (Unit {0}) × Room
unfolding set_state ensure_control
pause allowed default_rate event r =
    if allowed
    then (ok tt, set_state event QueueState.paused (ensure_control default_rate event r))
    else (err event_not_found, r)

unfoldable pub resume : Bool → ℕ → ℕ → Room → Result (Unit {0}) × Room
unfolding set_state ensure_control
resume allowed default_rate event r =
    if allowed
    then (ok tt, set_state event QueueState.running (ensure_control default_rate event r))
    else (err event_not_found, r)

unfoldable pub change_rate : Bool → ℕ → ℕ → ℕ → Room → Result (Unit {0}) × Room
unfolding set_rate ensure_control
change_rate allowed default_rate event rate r =
    if allowed
    then (ok tt, set_rate event rate (ensure_control default_rate event r))
    else (err event_not_found, r)

abbrev pub state_of : Option QueueControl → QueueState
state_of none = QueueState.running
state_of (some c) = c.state

abbrev pub rate_of : ℕ → Option QueueControl → ℕ
rate_of default_rate none = default_rate
rate_of default_rate (some c) = c.release_rate

-- `SetSchedule`; `drawn` is the seed that `generateSeed` draws.
unfoldable pub set_schedule :
    Bool → ℕ → String → ℕ → String → Option ℕ → Option ℕ → Room → Result (Unit {0}) × Room
unfolding control_of upsert_control
set_schedule allowed default_rate drawn event seed sale_start presale_open r =
    if not allowed then (err event_not_found, r) else (
      ok tt,
      upsert_control
          (record {
            event_id = event;
            state = state_of (control_of event r);
            release_rate = rate_of default_rate (control_of event r);
            randomization_seed = some (if str_eq seed "" then drawn else seed);
            sale_start_at = sale_start;
            presale_pool_open_at = presale_open;
          })
          r,
    )

pub record StatsResponse : Type 0 where
  pub waiting : ℕ
  pub allowed : ℕ
  pub release_rate : ℕ
  pub state : QueueState

-- `Stats`.
unfoldable pub stats : Bool → ℕ → Room → Result StatsResponse
unfolding control_of
stats allowed event r = if not allowed then err event_not_found else elim (control_of event r) [
  | none ↦ err no_rows
  | some c ↦ ok (record {
    waiting = waiting_count event r;
    allowed = allowed_count event r;
    release_rate = c.release_rate;
    state = c.state;
  })
]

abbrev pub wait_seconds : ℕ → ℕ → ℕ
wait_seconds rate pos = if ltb 0 rate then pos / rate else 0

abbrev pub admission_id : Option QueueAdmission → Option ℕ
admission_id none = none
admission_id (some a) = some a.id

abbrev pub admission_end : Option QueueAdmission → Option ℕ
admission_end none = none
admission_end (some a) = some a.checkout_expires_at

-- The response of `Status` for a token.
unfoldable pub status_response : ℕ → QueueToken → Room → StatusResponse
unfolding control_of waiting_rank active_admission is_waiting is_allowed
status_response default_rate t r =
    let control = control_of t.event_id r in
    let pos = if is_waiting t.status then waiting_rank t.event_id t.participant_id r else 0 in
    let adm =
      if is_allowed t.status then active_admission t.event_id t.participant_id r else none in
    record {
      token_id = t.id;
      status = t.status;
      position = pos;
      estimated_wait_seconds = wait_seconds (rate_of default_rate control) pos;
      admission_token = admission_id adm;
      checkout_expires_at = admission_end adm;
      system_state = state_of control;
    }

-- `Status`, which keeps its response for two seconds.
unfoldable pub status : ℕ → ℕ → ℕ → ℕ → Room → Result StatusResponse × Room
status default_rate event participant now r = elim (cached_status event participant now r) [
  | some c ↦ (ok c, r)
  | none ↦ elim (token_of event participant r.tokens) [
    | none ↦ (err token_not_found, r)
    | some t ↦
        let response = status_response default_rate t r in
        (ok response, set_cached_status event participant response (now + 2000000000) r)
  ]
]

unfoldable pub is_running : QueueState → Bool
is_running QueueState.running = true
is_running QueueState.paused = false

-- One event of `ReleaseJob`.
unfoldable pub release_event : (Room → ℕ) → ℕ → ℕ → ℕ → Room → Room
unfolding control_of is_running
release_event draw event window now r = elim (control_of event r) [
  | none ↦ r
  | some c ↦
      if not (is_running c.state) || (c.release_rate == 0)
      then r
      else (release draw event c.release_rate window now r).1
]

unfoldable pub release_events : (Room → ℕ) → List ℕ → ℕ → ℕ → Room → Room
release_events draw [] window now r = r
release_events draw (event ∷ events) window now r =
    release_events draw events window now (release_event draw event window now r)

-- `ListEventsWithRunningQueue` and `ReleaseJob`.
unfoldable pub running_events : Room → List ℕ
unfolding is_running
running_events r = map (λ c. c.event_id) (filter (λ c. is_running c.state) r.controls)

unfoldable pub release_job : (Room → ℕ) → ℕ → ℕ → Room → Room
release_job draw window now r = release_events draw (running_events r) window now r

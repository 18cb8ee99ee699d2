-- ===== src/Racepack/Cases.antt =====
-- Problem cases and proxies (modules/racepack/service.go, eligibility.go).
use ivyticketing.Base.{
  ℕ, String, Bool, true, false, not, ◌&&◌, Option, none, some, List, ◌∷◌, ◌==◌, ◌!=◌, find, is_some,
  update_where, if◌then◌else◌,
}
use ivyticketing.Store.Tx.{
  Result, ok, err, no_rows, ticket_not_found, ticket_event_mismatch, invalid_state_change,
  no_problem_target, constraint_violation,
}
use ivyticketing.Racepack.Rows.{ProblemStatus, ProblemCase, ProxyAuthorization, PickupRecord, Desk}
use ivyticketing.Racepack.Calls.{guard, with_row, settle}
use ivyticketing.Racepack.Pickup.{event_ticket_by_id, has_user}

-- `ValidateStateTransition`: whether a case may go from one status to another.
unfoldable pub may_become : ProblemStatus → ProblemStatus → Bool
may_become ProblemStatus.open_case ProblemStatus.open_case = false
may_become ProblemStatus.open_case _ = true
may_become ProblemStatus.under_review ProblemStatus.resolved = true
may_become ProblemStatus.under_review ProblemStatus.escalated = true
may_become ProblemStatus.under_review _ = false
may_become ProblemStatus.resolved _ = false
may_become ProblemStatus.escalated _ = false

abbrev pub is_closed : ProblemStatus → Bool
is_closed ProblemStatus.resolved = true
is_closed ProblemStatus.escalated = true
is_closed _ = false

unfoldable pub case_by_id : ℕ → List ProblemCase → Option ProblemCase
case_by_id id = find (λ c. c.id == id)

-- `AssertTicketInEvent`.
unfoldable pub ticket_in_event : {A : Type 0} → ℕ → ℕ → Desk → Result A → Result A
unfolding guard with_row event_ticket_by_id
ticket_in_event ticket_id event_id d r =
    with_row (event_ticket_by_id ticket_id d.tickets) ticket_not_found
      (λ t. guard (t.event_id != event_id) ticket_event_mismatch r)

-- A case is about a ticket of the event or about a participant.
unfoldable pub target_in_event : {A : Type 0} → Option ℕ → Option ℕ → ℕ → Desk → Result A → Result A
unfolding ticket_in_event
target_in_event none none event_id d r = err no_problem_target
target_in_event none (some p) event_id d r = r
target_in_event (some t) p event_id d r = ticket_in_event t event_id d r

abbrev pub is_user_or_none : Option ℕ → List ℕ → Bool
is_user_or_none none users = true
is_user_or_none (some p) users = has_user p users

-- `CreateProblemCase`: a case is open at first.
unfoldable pub create_problem_case_tx : ProblemCase → Desk → Result (ProblemCase × Desk)
unfolding guard target_in_event
create_problem_case_tx c d =
    let c' = record c { status = ProblemStatus.open_case; resolution = none; resolved_by = none } in
    target_in_event c.ticket_id c.participant_id c.event_id d (
      guard (not (is_user_or_none c.participant_id d.users && has_user c.created_by d.users))
        constraint_violation (ok (c', record d { cases = c' ∷ d.cases })))

unfoldable pub create_problem_case : ProblemCase → Desk → Result ProblemCase × Desk
unfolding settle create_problem_case_tx
create_problem_case c d = settle d (create_problem_case_tx c d)

-- `UpdateRacepackProblemCaseStatus`.
unfoldable pub as_status : ProblemStatus → String → ℕ → ProblemCase → ProblemCase
as_status to resolution actor c = record c {
  status = to;
  resolution = if is_closed to then some resolution else c.resolution;
  resolved_by = if is_closed to then some actor else c.resolved_by;
}

-- `UpdateProblemCaseStatus`: by the identifier of the case alone.
unfoldable pub update_problem_case_status_tx :
    ℕ → ℕ → ProblemStatus → String → Desk → Result (ProblemCase × Desk)
unfolding guard with_row case_by_id may_become as_status
update_problem_case_status_tx id actor to resolution d =
    with_row (case_by_id id d.cases) no_rows (λ c.
      guard (not (may_become c.status to)) invalid_state_change (
        ok (
          as_status to resolution actor c,
          record d {
            cases = update_where (λ q. q.id == id) (as_status to resolution actor) d.cases;
          },
        )))

unfoldable pub update_problem_case_status :
    ℕ → ℕ → ProblemStatus → String → Desk → Result ProblemCase × Desk
unfolding settle update_problem_case_status_tx
update_problem_case_status id actor to resolution d =
    settle d (update_problem_case_status_tx id actor to resolution d)

-- A reference to a pickup is to one that exists.
abbrev pub is_pickup_or_none : Option ℕ → List PickupRecord → Bool
is_pickup_or_none none pickups = true
is_pickup_or_none (some id) pickups = is_some (find (λ r. r.id == id) pickups)

-- `CreateProxyAuthorization`.
unfoldable pub create_proxy_authorization_tx :
    ProxyAuthorization → Desk → Result (ProxyAuthorization × Desk)
unfolding guard ticket_in_event
create_proxy_authorization_tx a d = ticket_in_event a.ticket_id a.event_id d (
    guard (not (is_pickup_or_none a.pickup_record_id d.pickups && has_user a.created_by d.users))
      constraint_violation (ok (a, record d { proxies = a ∷ d.proxies })))

unfoldable pub create_proxy_authorization :
    ProxyAuthorization → Desk → Result ProxyAuthorization × Desk
unfolding settle create_proxy_authorization_tx
create_proxy_authorization a d = settle d (create_proxy_authorization_tx a d)

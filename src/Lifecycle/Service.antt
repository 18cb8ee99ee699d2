-- ===== src/Lifecycle/Service.antt =====
-- The service and the advancer of the module lifecycle (services/api/internal/modules/lifecycle), with
-- their queries (services/api/internal/db/lifecycle.sql.go) and the unique index of
-- database/migrations/00031_create_registration_lifecycle.sql. `now` is the database's clock.
-- Failures of the connection are not modelled, and no transaction surrounds the statements. Where
-- a query ends with LIMIT 1 alone it yields the first row of the table.
use ivyticketing.Base.{
  ℕ, Bool, true, false, not, ◌&&◌, Option, none, some, List, [], ◌∷◌, ◌==◌, ltb, leb, is_some, find,
  filter, update_where, if◌then◌else◌,
}
use ivyticketing.Store.Tx.{Result, ok, err, no_rows, constraint_violation}

pub data LifecycleStatus : Type 0 where
  draft active paused completed cancelled : LifecycleStatus

pub data PhaseStatus : Type 0 where
  pending active completed skipped : PhaseStatus

pub data WindowClosedReason : Type 0 where
  window_not_yet_open window_expired mode_not_in_lifecycle lifecycle_paused : WindowClosedReason

pub record RegistrationLifecycle : Type 0 where
  pub id : ℕ
  pub event_id : ℕ
  pub category_id : ℕ
  pub status : LifecycleStatus

pub record LifecyclePhase : Type 0 where
  pub id : ℕ
  pub lifecycle_id : ℕ
  pub phase_index : ℕ
  pub registration_mode : ℕ
  pub closes_at : Option ℕ
  pub auto_advance : Bool
  pub status : PhaseStatus
  pub activated_at : Option ℕ
  pub completed_at : Option ℕ

-- The two tables.
pub record Schedule : Type 0 where
  pub lifecycles : List RegistrationLifecycle
  pub phases : List LifecyclePhase

-- `status NOT IN ('COMPLETED','CANCELLED')`.
unfoldable pub is_live : LifecycleStatus → Bool
is_live draft = true
is_live active = true
is_live paused = true
is_live completed = false
is_live cancelled = false

unfoldable pub is_active : LifecycleStatus → Bool
is_active draft = false
is_active active = true
is_active paused = false
is_active completed = false
is_active cancelled = false

unfoldable pub is_active_phase : PhaseStatus → Bool
is_active_phase pending = false
is_active_phase active = true
is_active_phase completed = false
is_active_phase skipped = false

unfoldable pub is_pending : PhaseStatus → Bool
is_pending pending = true
is_pending active = false
is_pending completed = false
is_pending skipped = false

-- `GetLifecycleByCategoryID`.
unfoldable pub lifecycle_of_category : ℕ → List RegistrationLifecycle → Option RegistrationLifecycle
lifecycle_of_category c = find (λ l. (l.category_id == c) && is_live l.status)

-- The join of a phase with its lifecycle, where the lifecycle is active.
unfoldable pub has_active_lifecycle : ℕ → List RegistrationLifecycle → Bool
has_active_lifecycle id ls = is_some (find (λ l. (l.id == id) && is_active l.status) ls)

unfoldable pub get_active_phase_for_mode : ℕ → ℕ → Schedule → Option LifecyclePhase
get_active_phase_for_mode id mode s =
    find
      (λ p.
        (p.lifecycle_id == id)
        && (p.registration_mode == mode)
        && is_active_phase p.status
        && has_active_lifecycle id s.lifecycles)
      s.phases

unfoldable pub with_lifecycle_status :
    ℕ → LifecycleStatus → List RegistrationLifecycle → List RegistrationLifecycle
with_lifecycle_status id st = update_where (λ l. l.id == id) (λ l. record l { status = st })

-- The index `registration_lifecycles_active_idx`: one live lifecycle for an event and a category.
unfoldable pub has_rival : RegistrationLifecycle → List RegistrationLifecycle → Bool
has_rival l ls = is_some (
    find
      (λ r.
        not (r.id == l.id)
        && (r.event_id == l.event_id)
        && (r.category_id == l.category_id)
        && is_live r.status)
      ls)

-- `UpdateLifecycleStatus`.
unfoldable pub update_lifecycle_status :
    ℕ → LifecycleStatus → Schedule → Result (Unit {0}) × Schedule
update_lifecycle_status id st s = elim (find (λ l. l.id == id) s.lifecycles) [
  | none ↦ (err no_rows, s)
  | some l ↦
      if is_live st && has_rival l s.lifecycles
      then (err constraint_violation, s)
      else (ok tt, record s { lifecycles = with_lifecycle_status id st s.lifecycles })
]

-- The row that `UpdateLifecyclePhaseStatus` writes.
unfoldable pub as_phase_status : PhaseStatus → ℕ → LifecyclePhase → LifecyclePhase
as_phase_status pending now p = record p { status = pending }
as_phase_status active now p = record p { status = active; activated_at = some now }
as_phase_status completed now p = record p { status = completed; completed_at = some now }
as_phase_status skipped now p = record p { status = skipped; completed_at = some now }

unfoldable pub update_phase_status : ℕ → PhaseStatus → ℕ → Schedule → Result (Unit {0}) × Schedule
update_phase_status id st now s =
    if is_some (find (λ p. p.id == id) s.phases)
    then (
      ok tt,
      record s { phases = update_where (λ p. p.id == id) (as_phase_status st now) s.phases },
    )
    else (err no_rows, s)

-- `ORDER BY phase_index ASC LIMIT 1`.
unfoldable pub earlier_phase : LifecyclePhase → Option LifecyclePhase → Option LifecyclePhase
earlier_phase p none = some p
earlier_phase p (some q) = if leb p.phase_index q.phase_index then some p else some q

unfoldable pub next_pending_phase : ℕ → List LifecyclePhase → Option LifecyclePhase
next_pending_phase id [] = none
next_pending_phase id (p ∷ ps) =
    let rest = next_pending_phase id ps in
    if (p.lifecycle_id == id) && is_pending p.status then earlier_phase p rest else rest

unfoldable pub is_before : Option ℕ → ℕ → Bool
is_before none now = false
is_before (some t) now = ltb t now

-- `ListPhasesForAutoAdvance`.
unfoldable pub phases_for_auto_advance : ℕ → Schedule → List LifecyclePhase
phases_for_auto_advance now s =
    filter
      (λ p.
        is_active_phase p.status
        && p.auto_advance
        && is_before p.closes_at now
        && has_active_lifecycle p.lifecycle_id s.lifecycles)
      s.phases

-- `IsWindowOpen`: whether the window is open, and the reason where it is not.
unfoldable pub is_window_open : ℕ → ℕ → Schedule → Bool × Option WindowClosedReason
is_window_open category_id mode s = elim (lifecycle_of_category category_id s.lifecycles) [
  | none ↦ (true, none)
  | some lc ↦ window_of lc
]
  where
    phase_window : RegistrationLifecycle → Bool × Option WindowClosedReason
    phase_window lc = elim (get_active_phase_for_mode lc.id mode s) [
      | none ↦ (false, some mode_not_in_lifecycle)
      | some p ↦ (true, none)
    ]

    window_of : RegistrationLifecycle → Bool × Option WindowClosedReason
    window_of lc = elim lc.status [
      | draft ↦ (false, some mode_not_in_lifecycle)
      | active ↦ phase_window lc
      | paused ↦ (false, some lifecycle_paused)
      | completed ↦ (false, some mode_not_in_lifecycle)
      | cancelled ↦ (false, some mode_not_in_lifecycle)
    ]

unfoldable pub pause_lifecycle : ℕ → Schedule → Result (Unit {0}) × Schedule
pause_lifecycle id = update_lifecycle_status id paused

unfoldable pub resume_lifecycle : ℕ → Schedule → Result (Unit {0}) × Schedule
resume_lifecycle id = update_lifecycle_status id active

unfoldable pub complete_phase : ℕ → ℕ → Schedule → Result (Unit {0}) × Schedule
complete_phase phase_id = update_phase_status phase_id completed

unfoldable pub advance_to_next_phase : ℕ → ℕ → Schedule → Result (Unit {0}) × Schedule
advance_to_next_phase lifecycle_id now s = elim (next_pending_phase lifecycle_id s.phases) [
  | none ↦ update_lifecycle_status lifecycle_id completed s
  | some next ↦ update_phase_status next.id active now s
]

-- `Run` of the advancer: an error of one phase lets the loop go on.
unfoldable pub advance_phase : ℕ → LifecyclePhase → Schedule → Schedule
advance_phase now p s =
    let done = complete_phase p.id now s in
    elim done.0 [ err e ↦ done.1 | ok u ↦ (advance_to_next_phase p.lifecycle_id now done.1).1 ]

unfoldable pub advance_phases : ℕ → List LifecyclePhase → Schedule → Schedule
advance_phases now [] s = s
advance_phases now (p ∷ ps) s = advance_phases now ps (advance_phase now p s)

unfoldable pub run_advancer : ℕ → Schedule → Schedule
run_advancer now s = advance_phases now (phases_for_auto_advance now s) s

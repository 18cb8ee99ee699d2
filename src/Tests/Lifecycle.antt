-- ===== src/Tests/Lifecycle.antt =====
-- Runs on a lifecycle of three phases.
use ivyticketing.Base.{All, ◌≡◌, refl, true, false, some, none, [], ◌∷◌}
use ivyticketing.Store.Tx.{ok}
use ivyticketing.Lifecycle.Service.{
  RegistrationLifecycle, LifecyclePhase, Schedule, LifecycleStatus, PhaseStatus, lifecycle_paused,
  mode_not_in_lifecycle, resume_lifecycle, is_window_open, lifecycle_of_category, is_live,
  get_active_phase_for_mode, is_active_phase, has_active_lifecycle, is_active, run_advancer,
  advance_phases, phases_for_auto_advance, is_before, advance_phase, complete_phase,
  update_phase_status, advance_to_next_phase, next_pending_phase, is_pending, earlier_phase,
  as_phase_status, update_lifecycle_status, with_lifecycle_status, has_rival, pause_lifecycle,
}
use ivyticketing.Lifecycle.Advancer.{completed_in, run_advancer-completes}
use ivyticketing.Lifecycle.Window.{pause_lifecycle-closes, pause_then_resume}

abbrev spring : RegistrationLifecycle
spring = record { id = 1; event_id = 2; category_id = 3; status = LifecycleStatus.active }

abbrev ballot_phase : LifecyclePhase
ballot_phase = record {
  id = 10;
  lifecycle_id = 1;
  phase_index = 0;
  registration_mode = 7;
  closes_at = some 100;
  auto_advance = true;
  status = PhaseStatus.active;
  activated_at = some 5;
  completed_at = none;
}

abbrev open_phase : LifecyclePhase
open_phase = record {
  id = 11;
  lifecycle_id = 1;
  phase_index = 1;
  registration_mode = 8;
  closes_at = some 200;
  auto_advance = true;
  status = PhaseStatus.pending;
  activated_at = none;
  completed_at = none;
}

abbrev season : Schedule
season = record { lifecycles = spring ∷ []; phases = open_phase ∷ ballot_phase ∷ [] }

spring_found : lifecycle_of_category 3 season.lifecycles ≡ some spring
unfolding lifecycle_of_category is_live
spring_found = refl

ballot_window : is_window_open 3 7 season ≡ (true, none)
unfolding is_window_open lifecycle_of_category is_live get_active_phase_for_mode is_active_phase
    has_active_lifecycle is_active
ballot_window = refl

-- At 150 the first phase is over, and the second one opens.
advanced_window : is_window_open 3 8 (run_advancer 150 season) ≡ (true, none)
unfolding is_window_open lifecycle_of_category is_live get_active_phase_for_mode is_active_phase
    has_active_lifecycle is_active run_advancer advance_phases phases_for_auto_advance is_before
    advance_phase complete_phase update_phase_status advance_to_next_phase next_pending_phase
    is_pending earlier_phase as_phase_status update_lifecycle_status with_lifecycle_status has_rival
advanced_window = refl

closed_window : is_window_open 3 7 (run_advancer 150 season) ≡ (false, some mode_not_in_lifecycle)
unfolding is_window_open lifecycle_of_category is_live get_active_phase_for_mode is_active_phase
    has_active_lifecycle is_active run_advancer advance_phases phases_for_auto_advance is_before
    advance_phase complete_phase update_phase_status advance_to_next_phase next_pending_phase
    is_pending earlier_phase as_phase_status update_lifecycle_status with_lifecycle_status has_rival
closed_window = refl

pause_done : (pause_lifecycle 1 season).0 ≡ ok tt
unfolding pause_lifecycle update_lifecycle_status is_live has_rival
pause_done = refl

resume_done : (resume_lifecycle 1 (pause_lifecycle 1 season).1).0 ≡ ok tt
unfolding pause_lifecycle update_lifecycle_status is_live has_rival resume_lifecycle
    with_lifecycle_status
resume_done = refl

pause_lifecycle-closes_example :
    is_window_open 3 7 (pause_lifecycle 1 season).1 ≡ (false, some lifecycle_paused)
pause_lifecycle-closes_example =
    pause_lifecycle-closes 3 7 season {l = spring} spring_found pause_done

pause_then_resume_example :
    is_window_open 3 7 (resume_lifecycle 1 (pause_lifecycle 1 season).1).1
    ≡ is_window_open 3 7 season
pause_then_resume_example =
    pause_then_resume 3 7 season {l = spring} spring_found refl pause_done resume_done

run_advancer-completes_example :
    All
      (λ p. completed_in p.id (run_advancer 150 season).phases ≡ true)
      (phases_for_auto_advance 150 season)
run_advancer-completes_example = run_advancer-completes 150 season

-- ===== src/Lifecycle/Advancer.antt =====
-- What a run of the advancer of the module lifecycle leaves of the phases that are due.
use ivyticketing.Base.{
  ℕ, ◌≡◌, refl, Bool, true, false, ◌&&◌, none, some, List, [], ◌∷◌, ◌==◌, arith, find, All,
  update_where, if◌then◌else◌, Option-cases, inl, inr,
}
use ivyticketing.Lifecycle.Service.{
  LifecycleStatus, PhaseStatus, LifecyclePhase, Schedule, pending, active, completed, skipped,
  is_pending, as_phase_status, update_phase_status, update_lifecycle_status, earlier_phase,
  next_pending_phase, complete_phase, advance_to_next_phase, advance_phase, advance_phases,
  phases_for_auto_advance, run_advancer,
}

is_completed : PhaseStatus → Bool
is_completed pending = false
is_completed active = false
is_completed completed = true
is_completed skipped = false

-- The phase with this identifier is completed.
unfoldable pub completed_in : ℕ → List LifecyclePhase → Bool
unfolding is_completed
completed_in id [] = true
completed_in id (p ∷ ps) =
    (if p.id == id then is_completed p.status else true) && completed_in id ps

completed_in-completed :
    (id now : ℕ) (ps : List LifecyclePhase)
    → completed_in id (update_where (λ p. p.id == id) (as_phase_status completed now) ps) ≡ true
unfolding completed_in as_phase_status is_completed
completed_in-completed id now [] = refl
completed_in-completed id now (p ∷ ps) = ground (arith, completed_in-completed id now ps)

completed_in-missing :
    (id : ℕ) (ps : List LifecyclePhase)
    → find (λ p. p.id == id) ps ≡ none
    → completed_in id ps ≡ true
unfolding completed_in
completed_in-missing id [] e = refl
completed_in-missing id (p ∷ ps) e = ground (arith, completed_in-missing id ps)

completed_in-other :
    (id q now : ℕ) (ps : List LifecyclePhase)
    → completed_in id ps ≡ true
    → completed_in id (update_where (λ p. p.id == q) (as_phase_status completed now) ps) ≡ true
unfolding completed_in as_phase_status is_completed
completed_in-other id q now [] e = refl
completed_in-other id q now (p ∷ ps) e = ground (arith, completed_in-other id q now ps)

completed_in-active :
    (id q now : ℕ) (ps : List LifecyclePhase)
    → (q == id) ≡ false
    → completed_in id ps ≡ true
    → completed_in id (update_where (λ p. p.id == q) (as_phase_status active now) ps) ≡ true
unfolding completed_in as_phase_status is_completed
completed_in-active id q now [] n e = refl
completed_in-active id q now (p ∷ ps) n e = ground (arith, completed_in-active id q now ps n)

-- A pending phase is none that is completed.
next_pending_phase-other :
    (id l : ℕ) (ps : List LifecyclePhase) {n : LifecyclePhase}
    → completed_in id ps ≡ true
    → next_pending_phase l ps ≡ some n
    → (n.id == id) ≡ false
unfolding completed_in next_pending_phase earlier_phase is_pending is_completed
next_pending_phase-other id l [] e h = cc
next_pending_phase-other id l (p ∷ ps) {n} e h = ground (
  arith,
  λ (c : completed_in id ps ≡ true) (q : next_pending_phase l ps ≡ some n).
      next_pending_phase-other id l ps c q,
)

complete_phase-completes :
    (id now : ℕ) (s : Schedule) → completed_in id (complete_phase id now s).1.phases ≡ true
unfolding complete_phase update_phase_status
complete_phase-completes id now s =
    ground (arith, completed_in-completed id now s.phases, completed_in-missing id s.phases)

complete_phase-keeps :
    (id q now : ℕ) (s : Schedule)
    → completed_in id s.phases ≡ true
    → completed_in id (complete_phase q now s).1.phases ≡ true
unfolding complete_phase update_phase_status
complete_phase-keeps id q now s e = ground (arith, completed_in-other id q now s.phases e)

update_lifecycle_status-phases :
    (id : ℕ) (s : Schedule)
    → (update_lifecycle_status id LifecycleStatus.completed s).1.phases ≡ s.phases
unfolding update_lifecycle_status
update_lifecycle_status-phases id s = ground arith

advance_to_next_phase-keeps :
    (id l now : ℕ) (s : Schedule)
    → completed_in id s.phases ≡ true
    → completed_in id (advance_to_next_phase l now s).1.phases ≡ true
unfolding advance_to_next_phase update_phase_status
advance_to_next_phase-keeps id l now s e = elim (Option-cases (next_pending_phase l s.phases)) [
  | inl h ↦ ground (arith, update_lifecycle_status-phases l s, h)
  | inr (n, h) ↦ ground (
    arith,
    h,
    completed_in-active id n.id now s.phases (next_pending_phase-other id l s.phases e h) e,
  )
]

advance_phase-completes :
    (now : ℕ) (p : LifecyclePhase) (s : Schedule)
    → completed_in p.id (advance_phase now p s).phases ≡ true
unfolding advance_phase
advance_phase-completes now p s =
    let done = complete_phase-completes p.id now s in
    ground (
      arith,
      done,
      advance_to_next_phase-keeps p.id p.lifecycle_id now (complete_phase p.id now s).1 done,
    )

advance_phase-keeps :
    (id now : ℕ) (p : LifecyclePhase) (s : Schedule)
    → completed_in id s.phases ≡ true
    → completed_in id (advance_phase now p s).phases ≡ true
unfolding advance_phase
advance_phase-keeps id now p s e =
    let done = complete_phase-keeps id p.id now s e in
    ground (
      arith,
      done,
      advance_to_next_phase-keeps id p.lifecycle_id now (complete_phase p.id now s).1 done,
    )

advance_phases-keeps :
    (id now : ℕ) (ps : List LifecyclePhase) (s : Schedule)
    → completed_in id s.phases ≡ true
    → completed_in id (advance_phases now ps s).phases ≡ true
unfolding advance_phases
advance_phases-keeps id now [] s e = e
advance_phases-keeps id now (p ∷ ps) s e =
    advance_phases-keeps id now ps (advance_phase now p s) (advance_phase-keeps id now p s e)

-- The loop of the advancer completes each phase of its list.
advance_phases-completes :
    (now : ℕ) (ps : List LifecyclePhase) (s : Schedule)
    → All (λ p. completed_in p.id (advance_phases now ps s).phases ≡ true) ps
unfolding advance_phases
advance_phases-completes now [] s = tt
advance_phases-completes now (p ∷ ps) s = (
  advance_phases-keeps p.id now ps (advance_phase now p s) (advance_phase-completes now p s),
  advance_phases-completes now ps (advance_phase now p s),
)

-- A run of the advancer completes each phase that is due at its start (active, of an active
-- lifecycle, set to advance by itself, and past its closing time), whatever phases its steps open.
pub run_advancer-completes :
    (now : ℕ) (s : Schedule)
    → All
        (λ p. completed_in p.id (run_advancer now s).phases ≡ true)
        (phases_for_auto_advance now s)
unfolding run_advancer
run_advancer-completes now s = advance_phases-completes now (phases_for_auto_advance now s) s

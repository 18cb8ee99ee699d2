-- ===== src/Lifecycle/Window.antt =====
-- The window of registration that the module lifecycle opens, pauses and resumes.
use ivyticketing.Base.{
  ℕ, ◌≡◌, refl, true, false, Option, none, some, List, [], Option-cases, inl, inr, ◌∷◌, arith,
}
use mathlib.Core.Path.{subst, sym, ap, ◌∙◌}
use ivyticketing.Store.Tx.{ok}
use ivyticketing.Lifecycle.Service.{
  LifecycleStatus, RegistrationLifecycle, Schedule, active, paused, lifecycle_paused, is_live,
  is_active, lifecycle_of_category, has_active_lifecycle, get_active_phase_for_mode,
  with_lifecycle_status, update_lifecycle_status, is_window_open, pause_lifecycle, resume_lifecycle,
}

-- A lifecycle that a query yields has this identifier and this status.
abbrev Marked : ℕ → LifecycleStatus → Option RegistrationLifecycle → Type 0
Marked id st none = ⊥
Marked id st (some r) = (r.id ≡ id) × (r.status ≡ st)

-- After a write of a live status, the live lifecycle of the category has that status and is the
-- same lifecycle.
lifecycle_of_category-with_lifecycle_status :
    (c id : ℕ) (st : LifecycleStatus) (ls : List RegistrationLifecycle) {l : RegistrationLifecycle}
    → is_live st ≡ true
    → lifecycle_of_category c ls ≡ some l
    → l.id ≡ id
    → Marked id st (lifecycle_of_category c (with_lifecycle_status id st ls))
unfolding lifecycle_of_category with_lifecycle_status
lifecycle_of_category-with_lifecycle_status c id st [] v e i = cc
lifecycle_of_category-with_lifecycle_status c id st (x ∷ ls) {l} v e i = ground (
  arith,
  λ (q : lifecycle_of_category c ls ≡ some l).
      lifecycle_of_category-with_lifecycle_status c id st ls v q i,
)

-- What an update of a status that succeeds has done.
update_lifecycle_status-ok :
    (id : ℕ) (st : LifecycleStatus) (s : Schedule)
    → (update_lifecycle_status id st s).0 ≡ ok tt
    → (update_lifecycle_status id st s).1
      ≡ record s { lifecycles = with_lifecycle_status id st s.lifecycles }
unfolding update_lifecycle_status
update_lifecycle_status-ok id st s e = ground arith

paused_window :
    (c id mode : ℕ) (s : Schedule)
    → Marked id paused (lifecycle_of_category c s.lifecycles)
    → is_window_open c mode s ≡ (false, some lifecycle_paused)
unfolding is_window_open
paused_window c id mode s m = ground arith

-- A pause closes the window: once a pause of the live lifecycle of a category has succeeded, the
-- window is closed for every mode, for the reason LIFECYCLE_PAUSED.
pub pause_lifecycle-closes :
    (c mode : ℕ) (s : Schedule) {l : RegistrationLifecycle}
    → lifecycle_of_category c s.lifecycles ≡ some l
    → (pause_lifecycle l.id s).0 ≡ ok tt
    → is_window_open c mode (pause_lifecycle l.id s).1 ≡ (false, some lifecycle_paused)
unfolding pause_lifecycle is_live
pause_lifecycle-closes c mode s {l} e p = paused_window c l.id mode (pause_lifecycle l.id s).1 (
    subst (λ t. Marked l.id paused (lifecycle_of_category c t.lifecycles))
      (sym (update_lifecycle_status-ok l.id paused s p))
      (lifecycle_of_category-with_lifecycle_status c l.id paused s.lifecycles refl e refl))

-- The window depends on the lifecycles through the identifier of the active one.
same_window :
    (c id mode : ℕ) (s t : Schedule)
    → Marked id active (lifecycle_of_category c s.lifecycles)
    → Marked id active (lifecycle_of_category c t.lifecycles)
    → get_active_phase_for_mode id mode s ≡ get_active_phase_for_mode id mode t
    → is_window_open c mode s ≡ is_window_open c mode t
unfolding is_window_open
same_window c id mode s t m n e = ground arith

same_phase :
    (id mode : ℕ) (s t : Schedule)
    → s.phases ≡ t.phases
    → has_active_lifecycle id s.lifecycles ≡ has_active_lifecycle id t.lifecycles
    → get_active_phase_for_mode id mode s ≡ get_active_phase_for_mode id mode t
unfolding get_active_phase_for_mode
same_phase id mode s t e h = simp (e, h)

-- An active lifecycle is one that the table has under its identifier.
has_active_lifecycle_of :
    (c : ℕ) (ls : List RegistrationLifecycle) {l : RegistrationLifecycle}
    → lifecycle_of_category c ls ≡ some l
    → l.status ≡ active
    → has_active_lifecycle l.id ls ≡ true
unfolding lifecycle_of_category has_active_lifecycle is_active
has_active_lifecycle_of c [] e a = cc
has_active_lifecycle_of c (x ∷ ls) {l} e a =
    ground (arith, λ (q : lifecycle_of_category c ls ≡ some l). has_active_lifecycle_of c ls q a)

-- Setting a status and then ACTIVE leaves an active lifecycle under the identifier.
has_active_lifecycle-with_lifecycle_status :
    (id : ℕ) (st : LifecycleStatus) (ls : List RegistrationLifecycle)
    → has_active_lifecycle id ls ≡ true
    → has_active_lifecycle id (with_lifecycle_status id active (with_lifecycle_status id st ls))
      ≡ true
unfolding has_active_lifecycle with_lifecycle_status is_active
has_active_lifecycle-with_lifecycle_status id st [] e = e
has_active_lifecycle-with_lifecycle_status id st (x ∷ ls) e =
    ground (arith, has_active_lifecycle-with_lifecycle_status id st ls)

Marked-with_lifecycle_status :
    (c id : ℕ) (st : LifecycleStatus) (ls : List RegistrationLifecycle)
    → Marked id st (lifecycle_of_category c ls)
    → Marked id active (lifecycle_of_category c (with_lifecycle_status id active ls))
unfolding is_live
Marked-with_lifecycle_status c id st ls m = elim (Option-cases (lifecycle_of_category c ls)) [
  | inl e ↦ ground (arith, m, e)
  | inr (r, e) ↦
      lifecycle_of_category-with_lifecycle_status c id active ls refl e (subst (Marked id st) e m).0
]

abbrev toggled : ℕ → Schedule → Schedule
toggled id s = record s {
  lifecycles = with_lifecycle_status id active (with_lifecycle_status id paused s.lifecycles);
}

pause_resume-toggled :
    (id : ℕ) (s : Schedule)
    → (pause_lifecycle id s).0 ≡ ok tt
    → (resume_lifecycle id (pause_lifecycle id s).1).0 ≡ ok tt
    → (resume_lifecycle id (pause_lifecycle id s).1).1 ≡ toggled id s
unfolding pause_lifecycle resume_lifecycle
pause_resume-toggled id s p r =
    update_lifecycle_status-ok id active (pause_lifecycle id s).1 r
    ∙ ap {A = Schedule} {B = Schedule}
        (λ t. record t { lifecycles = with_lifecycle_status id active t.lifecycles })
        (update_lifecycle_status-ok id paused s p)

-- A pause is undone by a resumption: where the live lifecycle of a category is active and both a
-- pause of it and then a resumption succeed, the window is for every mode as it was before.
pub pause_then_resume :
    (c mode : ℕ) (s : Schedule) {l : RegistrationLifecycle}
    → lifecycle_of_category c s.lifecycles ≡ some l
    → l.status ≡ active
    → (pause_lifecycle l.id s).0 ≡ ok tt
    → (resume_lifecycle l.id (pause_lifecycle l.id s).1).0 ≡ ok tt
    → is_window_open c mode (resume_lifecycle l.id (pause_lifecycle l.id s).1).1
      ≡ is_window_open c mode s
unfolding is_live
pause_then_resume c mode s {l} e a p r =
    let there = has_active_lifecycle_of c s.lifecycles e a in
    let back = has_active_lifecycle-with_lifecycle_status l.id paused s.lifecycles there in
    ap (is_window_open c mode) (pause_resume-toggled l.id s p r)
    ∙ same_window c l.id mode (toggled l.id s) s
        (Marked-with_lifecycle_status c l.id paused (with_lifecycle_status l.id paused s.lifecycles)
          (lifecycle_of_category-with_lifecycle_status c l.id paused s.lifecycles refl e refl))
        (subst (Marked l.id active) (sym e) (refl, a))
        (same_phase l.id mode (toggled l.id s) s refl (back ∙ sym there))

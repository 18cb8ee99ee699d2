-- ===== src/Queue/Steps.antt =====
-- The operations of the waiting room as one transition relation, and what every room reached has.
use ivyticketing.Base.{
  ℕ, ◌≡◌, Bool, true, false, not, Option, none, List, [], ◌∷◌, ◌==◌, arith, find, Bool-cases,
  Option-cases, inl, inr, String, is_some, ◌||◌,
}
use ivyticketing.Queue.Rows.{QueueControl, Room}
use ivyticketing.Queue.Cache.{cached_status, set_cached_status}
use ivyticketing.Queue.Tokens.{token_of}
use ivyticketing.Queue.Service.{
  JoinMode, control_of, pool_and_score, join, release, consume_on_checkout, expire_due,
}
use ivyticketing.Queue.Control.{
  pause, resume, change_rate, set_schedule, status, release_job, release_event, release_events,
  running_events, upsert_control, ensure_control, is_running, set_state, set_rate,
}
use ivyticketing.Queue.Sound.{Sound}
use ivyticketing.Queue.Release.{release-drop}
use ivyticketing.Queue.Keeps.{consume_on_checkout-Sound, expire_due-Sound}
use ivyticketing.Queue.Joins.{issue_token-Sound}

-- What can happen to a waiting room: every operation of its service and its jobs, in full and with
-- any outcome.
pub data Step (hash : String → ℕ → ℕ) (draw : Room → ℕ) : Room → Room → Type 0 where
  joins :
      (mode : JoinMode) (org event participant now : ℕ) (r : Room)
      → Step hash draw r (join hash draw mode org event participant now r).1
  releases :
      (event n window now : ℕ) (r : Room) → Step hash draw r (release draw event n window now r).1
  consumes :
      (participant event now : ℕ) (r : Room)
      → Step hash draw r (consume_on_checkout participant event now r).1
  expires :
      (clock : ℕ → ℕ) (limit now : ℕ) (r : Room) → Step hash draw r (expire_due clock limit now r).1
  runs_release_job : (window now : ℕ) (r : Room) → Step hash draw r (release_job draw window now r)
  pauses : (own : Bool) (rate event : ℕ) (r : Room) → Step hash draw r (pause own rate event r).1
  resumes : (own : Bool) (rate event : ℕ) (r : Room) → Step hash draw r (resume own rate event r).1
  changes_rate :
      (own : Bool) (rate event new_rate : ℕ) (r : Room)
      → Step hash draw r (change_rate own rate event new_rate r).1
  schedules :
      (own : Bool) (rate : ℕ) (drawn : String) (event : ℕ) (seed : String)
      (start presale : Option ℕ) (r : Room)
      → Step hash draw r (set_schedule own rate drawn event seed start presale r).1
  asks :
      (rate event participant now : ℕ) (r : Room)
      → Step hash draw r (status rate event participant now r).1

pub data Reach (hash : String → ℕ → ℕ) (draw : Room → ℕ) : Room → Type 0 where
  opens : Reach hash draw (record {
    tokens = [];
    admissions = [];
    controls = [];
    waiting = [];
    allowed = [];
    cached = [];
  })
  more : {r s : Room} → Reach hash draw r → Step hash draw r s → Reach hash draw s

upsert_control-Sound : (c : QueueControl) (r : Room) → Sound r → Sound (upsert_control c r)
unfolding upsert_control
upsert_control-Sound c r s = elim (Bool-cases (is_some (control_of c.event_id r))) [
  | inl e ↦ rw (e, upsert_control) s
  | inr e ↦ rw (e, upsert_control) s
]

ensure_control-Sound : (rate event : ℕ) (r : Room) → Sound r → Sound (ensure_control rate event r)
unfolding ensure_control
ensure_control-Sound rate event r s = elim (Option-cases (control_of event r)) [
  | inl e ↦ rw (e, ensure_control) (upsert_control-Sound _ r s)
  | inr (c, e) ↦ rw (e, ensure_control) s
]

status-Sound :
    (rate event participant now : ℕ) (r : Room)
    → Sound r
    → Sound (status rate event participant now r).1
unfolding status set_cached_status
status-Sound rate event participant now r s =
    elim (Option-cases (cached_status event participant now r)) [
      | inr (c, e) ↦ rw (e, status) s
      | inl e ↦ elim (Option-cases (token_of event participant r.tokens)) [
        | inl f ↦ rw (e, status) (rw f s)
        | inr (t, f) ↦ rw (e, status) (rw f s)
      ]
    ]

module _ (draw : Room → ℕ)
    (fresh : (s : Room) → find (λ b. b.id == draw s) s.admissions ≡ none) where
  release_event-Sound :
      (event window now : ℕ) (r : Room) → Sound r → Sound (release_event draw event window now r)
  unfolding release_event
  release_event-Sound event window now r s = elim (Option-cases (control_of event r)) [
    | inl e ↦ rw (e, release_event) s
    | inr (c, e) ↦ elim (Bool-cases (not (is_running c.state) || (c.release_rate == 0))) [
      | inl f ↦ rw (e, release_event) (rw f s)
      | inr f ↦
          rw (e, release_event)
            (rw f (release-drop draw event c.release_rate window now r fresh s).3)
    ]
  ]

  release_events-Sound :
      (events : List ℕ) (window now : ℕ) (r : Room)
      → Sound r
      → Sound (release_events draw events window now r)
  unfolding release_events
  release_events-Sound [] window now r s = s
  release_events-Sound (event ∷ events) window now r s =
      release_events-Sound events window now (release_event draw event window now r)
        (release_event-Sound event window now r s)

  Step-Sound : {hash : String → ℕ → ℕ} {r s : Room} → Step hash draw r s → Sound r → Sound s
  unfolding join pause resume change_rate set_schedule set_state set_rate release_job
  Step-Sound {hash} (joins mode org event participant now r) s =
      issue_token-Sound draw org event participant
        (pool_and_score hash mode event participant now r) r s
  Step-Sound (releases event n window now r) s = (release-drop draw event n window now r fresh s).3
  Step-Sound (consumes participant event now r) s =
      consume_on_checkout-Sound participant event now r s
  Step-Sound (expires clock limit now r) s = expire_due-Sound clock limit now r s
  Step-Sound (runs_release_job window now r) s =
      release_events-Sound (running_events r) window now r s
  Step-Sound (pauses true rate event r) s = ensure_control-Sound rate event r s
  Step-Sound (pauses false rate event r) s = s
  Step-Sound (resumes true rate event r) s = ensure_control-Sound rate event r s
  Step-Sound (resumes false rate event r) s = s
  Step-Sound (changes_rate true rate event new_rate r) s = ensure_control-Sound rate event r s
  Step-Sound (changes_rate false rate event new_rate r) s = s
  Step-Sound (schedules true rate drawn event seed start presale r) s = upsert_control-Sound _ r s
  Step-Sound (schedules false rate drawn event seed start presale r) s = s
  Step-Sound (asks rate event participant now r) s = status-Sound rate event participant now r s

-- Every waiting room that the operations reach from an empty one, where the identifiers that the
-- database draws are fresh, is sound: its tokens have identifiers of their own, a token has at most
-- one active admission, and each active admission is one of an allowed token of the same event and
-- participant.
pub Reach-Sound :
    (hash : String → ℕ → ℕ) (draw : Room → ℕ) (r : Room)
    → ((s : Room) → find (λ b. b.id == draw s) s.admissions ≡ none)
    → Reach hash draw r
    → Sound r
Reach-Sound hash draw r fresh opens = record {
  unique = λ i. omega arith;
  open_once = λ i. omega arith;
  backed = tt;
}
Reach-Sound hash draw r fresh (more {r = q} way step) =
    Step-Sound draw fresh step (Reach-Sound hash draw q fresh way)

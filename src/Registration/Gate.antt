-- ===== src/Registration/Gate.antt =====
-- The gate of checkout (modules/registration/gate.go). What the other modules admit by is an interface,
-- which may be missing; `wired` is the gate of internal/app/server.go, on the tables of those modules.
use ivyticketing.Base.{ℕ, Bool, true, false, not, ◌&&◌, Option, none, some, if◌then◌else◌}
use ivyticketing.Store.Rows.{Database}
use ivyticketing.Store.Tx.{
  Error, mode_not_available, registration_closed, registration_window_closed,
}
use ivyticketing.Orders.Service.{Service, Token, empty, grant, opaque}
use ivyticketing.Access.Pools.{check_grant}
use ivyticketing.Lifecycle.Service.{Schedule, is_window_open}
use ivyticketing.Queue.Rows.{Room}
use ivyticketing.Queue.Service.{check_admission}
use ivyticketing.Registration.Modes.{
  Mode, normal, war_queue, randomized_queue, hybrid_queue, ballot, invitation_only, priority_access,
  waitlist_only, closed,
}
use ivyticketing.Registration.Settings.{Settings, resolve_for_checkout}

-- `QueueAdmitter`, `LifecycleChecker`, `BallotAdmitter`, `AccessGrantChecker` and `PriorityChecker`:
-- `none` admits. The arguments are the participant, the event, the category and the token.
pub record Admitters : Type 0 where
  pub queue : Option (ℕ → ℕ → Token → Option Error)
  pub lifecycle : Option (ℕ → Mode → Bool)
  pub ballot : Option (ℕ → ℕ → Token → Option Error)
  pub access_grant : Option (ℕ → ℕ → Token → Option Error)
  pub priority : Option (ℕ → ℕ → ℕ → Token → Option Error)

-- `NORMAL` and `CLOSED` have no window.
unfoldable pub has_window : Mode → Bool
has_window normal = false
has_window closed = false
has_window war_queue = true
has_window randomized_queue = true
has_window hybrid_queue = true
has_window ballot = true
has_window invitation_only = true
has_window priority_access = true
has_window waitlist_only = true

unfoldable pub is_open : Option (ℕ → Mode → Bool) → ℕ → Mode → Bool
is_open none category mode = true
is_open (some check) category mode = check category mode

-- An admitter of two identifiers, which may be missing.
unfoldable pub ask : Option (ℕ → ℕ → Token → Option Error) → ℕ → ℕ → Token → Option Error
ask none a b token = some mode_not_available
ask (some check) a b token = check a b token

unfoldable pub ask_priority :
    Option (ℕ → ℕ → ℕ → Token → Option Error) → ℕ → ℕ → ℕ → Token → Option Error
ask_priority none p e c token = some mode_not_available
ask_priority (some check) p e c token = check p e c token

-- The switch of `Admit` on the mode.
unfoldable pub admit_mode : Admitters → Mode → ℕ → ℕ → ℕ → Token → Option Error
unfolding ask ask_priority
admit_mode g normal p e c token = none
admit_mode g closed p e c token = some registration_closed
admit_mode g war_queue p e c token = ask g.queue p e token
admit_mode g randomized_queue p e c token = ask g.queue p e token
admit_mode g hybrid_queue p e c token = ask g.queue p e token
admit_mode g ballot p e c token = ask g.ballot p c token
admit_mode g invitation_only p e c token = ask g.access_grant p c token
admit_mode g waitlist_only p e c token = ask g.access_grant p c token
admit_mode g priority_access p e c token = ask_priority g.priority p e c token

-- `Admit`.
unfoldable pub admit : Admitters → Settings → ℕ → ℕ → ℕ → Token → Option Error
unfolding admit_mode has_window is_open
admit g s participant event category token =
    let mode = resolve_for_checkout event category s in
    if has_window mode && not (is_open g.lifecycle category mode)
    then some registration_window_closed
    else admit_mode g mode participant event category token

-- The identifier that a token is.
abbrev pub token_id : Token → Option ℕ
token_id empty = none
token_id (grant id) = some id
token_id (opaque text) = none

-- The gate as the server wires it: `number` stands for the text of a mode in the phases of a
-- lifecycle, and `priority` for the checker of priority access.
unfoldable pub wired :
    (Mode → ℕ) → (ℕ → ℕ → ℕ → Token → Option Error) → Room → Schedule → ℕ → Database → Admitters
wired number priority room schedule now d = record {
  queue = some (λ p e token. check_admission p e (token_id token) now room);
  lifecycle = some (λ c mode. (is_window_open c (number mode) schedule).0);
  ballot = some (λ p c token. check_grant p c token now d);
  access_grant = some (λ p c token. check_grant p c token now d);
  priority = some priority;
}

-- The service of checkout with that gate.
unfoldable pub gated :
    (Mode → ℕ)
    → (ℕ → ℕ → ℕ → Token → Option Error)
    → Room
    → Schedule
    → ℕ
    → Settings
    → Service
    → Service
unfolding admit wired
gated number priority room schedule now settings s = record s {
  gate = λ p e c token d. admit (wired number priority room schedule now d) settings p e c token;
}

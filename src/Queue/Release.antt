-- ===== src/Queue/Release.antt =====
-- `Release` on a sound room takes the front of the waiting line: the abstract room is a sequence, and
-- a release of `n` drops `n` from it.
use ivyticketing.Base.{
  ℕ, zero, suc, ◌+◌, ◌-◌, ◌*◌, ◌≤◌, ◌≡◌, refl, sym, ap, ◌∙◌, true, none, some, List, [], ◌∷◌, ◌++◌,
  ◌==◌, arith, All, find, filter, update_where, if◌then◌else◌, length, take, drop, is_some,
}
use mathlib.Core.Path.{subst, subst₂}
use ivyticketing.Base.Sort.{sort_by, All-weaken}
use ivyticketing.Queue.Rows.{QueueToken, Room, is_waiting, is_allowed, is_active}
use ivyticketing.Queue.Tokens.{
  token_by_id, is_waiting_id, is_open_for, as_allowed, new_admission, comes_before, waits_at,
  waiting_line, list_waiting, active_admission,
}
use ivyticketing.Queue.Service.{release_one, release_each, release}
use ivyticketing.Queue.Sound.{Sound, SoundRows, backs, Backed-allowed, count-allowed}
use ivyticketing.Queue.Line.{
  waiting_line-head, open_for_none, release_one-head, waiting_line-allowed, admitted,
}

token_by_id-allowed :
    (now : ℕ) (ts : List QueueToken) {t : QueueToken}
    → token_by_id t.id ts ≡ some t
    → is_waiting t.status ≡ true
    → token_by_id t.id (update_where (is_waiting_id t.id) (as_allowed now) ts)
      ≡ some (as_allowed now t)
unfolding token_by_id is_waiting_id
token_by_id-allowed now [] e w = cc
token_by_id-allowed now (u ∷ ts) {t} e w =
    ground (arith, λ (q : find (λ x. x.id == t.id) ts ≡ some t). token_by_id-allowed now ts q w)

backs-new :
    (id event now expires_at : ℕ) (ts : List QueueToken) {t : QueueToken}
    → token_by_id t.id ts ≡ some t
    → waits_at event t ≡ true
    → backs
        (update_where (is_waiting_id t.id) (as_allowed now) ts)
        (new_admission id (as_allowed now t) event expires_at)
      ≡ true
unfolding backs waits_at
backs-new id event now expires_at ts {t} e w =
    rw (token_by_id-allowed now ts e (ground (arith, w))) (ground (arith, w))

module _ (draw : Room → ℕ) (event now expires_at : ℕ)
    (fresh : (s : Room) → find (λ b. b.id == draw s) s.admissions ≡ none) where
  head-SoundRows :
      (r : Room) {t : QueueToken} {rest : List QueueToken}
      → Sound r
      → waiting_line event r ≡ t ∷ rest
      → SoundRows
          (update_where (is_waiting_id t.id) (as_allowed now) r.tokens)
          (admitted draw event now expires_at t r)
  unfolding is_open_for waits_at is_waiting is_allowed
  head-SoundRows r {t} s e =
      let (found, waits) = waiting_line-head event r s e in
      let shut = open_for_none r.tokens r.admissions found.0 (ground (arith, waits)) s.backed in
      record {
        unique = λ i. omega (arith, s.unique i, count-allowed t.id now i r.tokens);
        open_once = λ i. ground (arith, s.open_once i, shut.1);
        backed = (
          backs-new (draw r) event now expires_at r.tokens found.0 waits,
          Backed-allowed t.id now r.tokens r.admissions s.backed,
        );
      }

  -- The release of the first token of a line.
  release_one-line :
      (r : Room) {t : QueueToken} {rest : List QueueToken}
      → Sound r
      → waiting_line event r ≡ t ∷ rest
      → let out = release_one draw t event now expires_at r in
        (out.0 ≡ 1) × Sound out.1 × (waiting_line event out.1 ≡ rest)
  unfolding waiting_line
  release_one-line r {t} {rest} s e =
      let (one, ts, l) = release_one-head draw event now expires_at r (fresh r) s e in
      (
        one,
        subst₂ SoundRows (sym ts) (sym l) (head-SoundRows r s e),
        ap (λ x. sort_by comes_before (filter (waits_at event) x)) ts
            ∙ waiting_line-allowed event now r.tokens r.admissions s e,
      )

  -- Who has an active admission keeps it, and the released participant has one.
  release_one-admits :
      (r : Room) {t : QueueToken} {rest : List QueueToken} (p : ℕ)
      → Sound r
      → waiting_line event r ≡ t ∷ rest
      → let out = release_one draw t event now expires_at r in
        is_some (active_admission event p out.1)
        ≡ (if t.participant_id == p then true else is_some (active_admission event p r))
  unfolding active_admission is_active
  release_one-admits r p s e =
      ground (arith, (release_one-head draw event now expires_at r (fresh r) s e).2)

  -- Releasing a front of the line, token by token.
  release_each-line :
      (toks rest : List QueueToken) (r : Room)
      → Sound r
      → waiting_line event r ≡ toks ++ rest
      → let out = release_each draw toks event now expires_at r in
        (out.0 ≡ length toks)
        × Sound out.1
        × (waiting_line event out.1 ≡ rest)
        × All (λ t. is_some (active_admission event t.participant_id out.1) ≡ true) toks
        × ((p : ℕ)
            → is_some (active_admission event p r) ≡ true
            → is_some (active_admission event p out.1) ≡ true)
  unfolding release_each
  release_each-line [] rest r s e = (refl, s, e, tt, λ p h. h)
  release_each-line (t ∷ toks) rest r s e =
      let one = release_one draw t event now expires_at r in
      let (count, sound, line) = release_one-line r s e in
      let (count', sound', line', admits, keeps) = release_each-line toks rest one.1 sound line in
      (
        omega (arith, count, count'),
        sound',
        line',
        (
          keeps t.participant_id (ground (arith, release_one-admits r t.participant_id s e)),
          admits,
        ),
        λ p h. keeps p (ground (arith, release_one-admits r p s e)),
      )

take-append-drop : (n : ℕ) (l : List QueueToken) → take n l ++ drop n l ≡ l
take-append-drop zero l = refl
take-append-drop (suc n) [] = refl
take-append-drop (suc n) (t ∷ l) = ap (λ x. t ∷ x) (take-append-drop n l)

release-suc :
    (draw : Room → ℕ) (event n window now : ℕ) (r : Room)
    → release draw event n window now r
      ≡ release_each draw (take n (waiting_line event r)) event now (now + window) r
unfolding release list_waiting release_each
release-suc draw event zero window now r = refl
release-suc draw event (suc n) window now r = ground arith

abbrev pub Served : ℕ → Room → QueueToken → Type 0
Served event r t = is_some (active_admission event t.participant_id r) ≡ true

release-front :
    (draw : Room → ℕ) (event n window now : ℕ) (r : Room)
    → ((s : Room) → find (λ b. b.id == draw s) s.admissions ≡ none)
    → Sound r
    → let out = release draw event n window now r in
      let front = take n (waiting_line event r) in
      (out.0 ≡ length front)
      × Sound out.1
      × (waiting_line event out.1 ≡ drop n (waiting_line event r))
      × All (Served event out.1) front
      × ((p : ℕ)
          → is_some (active_admission event p r) ≡ true
          → is_some (active_admission event p out.1) ≡ true)
release-front draw event n window now r fresh s = rw (release-suc draw event n window now r) (
    release_each-line draw event now (now + window) fresh (take n (waiting_line event r))
      (drop n (waiting_line event r)) r s (sym (take-append-drop n (waiting_line event r))))

-- A release of `n` is the removal of the first `n` of the line: on a sound room, where the identifiers
-- that the database draws are fresh, it promotes as many tokens as the line has, `n` at most, the
-- line that is left is the line without them, each of their participants holds an active
-- admission, and the room stays sound.
pub release-drop :
    (draw : Room → ℕ) (event n window now : ℕ) (r : Room)
    → ((s : Room) → find (λ b. b.id == draw s) s.admissions ≡ none)
    → Sound r
    → let out = release draw event n window now r in
      let front = take n (waiting_line event r) in
      (out.0 ≡ length front)
      × (waiting_line event out.1 ≡ drop n (waiting_line event r))
      × All (Served event out.1) front
      × Sound out.1
release-drop draw event n window now r fresh s =
    let (count, sound, line, served, keeps) = release-front draw event n window now r fresh s in
    (count, line, served, sound)

-- Releases of `n`, one after another, at the times of a clock.
unfoldable pub release_times : (Room → ℕ) → ℕ → ℕ → ℕ → (ℕ → ℕ) → ℕ → Room → Room
release_times draw event n window clock zero r = r
release_times draw event n window clock (suc k) r =
    release_times draw event n window clock k (release draw event n window (clock k) r).1

length-drop : (n : ℕ) (l : List QueueToken) → length (drop n l) ≤ length l - n
length-drop zero l = omega arith
length-drop (suc n) [] = omega arith
length-drop (suc n) (t ∷ l) = omega (arith, length-drop n l)

nil_of_length : (l : List QueueToken) → length l ≤ 0 → l ≡ []
nil_of_length [] h = refl
nil_of_length (t ∷ l) h = absurd (omega arith)

All-take-drop :
    (P : QueueToken → Type 0) (n : ℕ) (l : List QueueToken)
    → All P (take n l)
    → All P (drop n l)
    → All P l
All-take-drop P zero l a b = b
All-take-drop P (suc n) [] a b = tt
All-take-drop P (suc n) (t ∷ l) a b = (a.0, All-take-drop P n l a.1 b)

module _ (draw : Room → ℕ) (event n window : ℕ) (clock : ℕ → ℕ)
    (fresh : (s : Room) → find (λ b. b.id == draw s) s.admissions ≡ none) where
  release_times_total :
      (k : ℕ) (r : Room)
      → Sound r
      → length (waiting_line event r) ≤ k * n
      → let end = release_times draw event n window clock k r in
        (waiting_line event end ≡ [])
        × All (Served event end) (waiting_line event r)
        × ((p : ℕ)
            → is_some (active_admission event p r) ≡ true
            → is_some (active_admission event p end) ≡ true)
  unfolding release_times
  release_times_total zero r s h =
      let none_left = nil_of_length (waiting_line event r) (omega (arith, h)) in
      (none_left, subst (All (Served event r)) (sym none_left) tt, λ p a. a)
  release_times_total (suc k) r s h =
      let out = release draw event n window (clock k) r in
      let (count, sound, line, served, keeps) =
        release-front draw event n window (clock k) r fresh s in
      let short =
        subst (λ l. length l ≤ k * n) (sym line)
          (grind (arith, length-drop n (waiting_line event r))) in
      let (empty, later, kept) = release_times_total k out.1 sound short in
      (
        empty,
        All-take-drop (Served event (release_times draw event n window clock k out.1)) n
            (waiting_line event r)
            (All-weaken (take n (waiting_line event r)) (λ t a. kept t.participant_id a) served)
            (subst (All (Served event (release_times draw event n window clock k out.1))) line
              later),
        λ p a. kept p (keeps p a),
      )

-- Nobody waits for ever: on a sound room, where identifiers are fresh and nobody joins in between,
-- `k` releases of `n` empty a line of at most `k * n` tokens, and the participant of each token of
-- that line holds an active admission.
pub release_times-serves :
    (draw : Room → ℕ) (event n window : ℕ) (clock : ℕ → ℕ) (k : ℕ) (r : Room)
    → ((s : Room) → find (λ b. b.id == draw s) s.admissions ≡ none)
    → Sound r
    → length (waiting_line event r) ≤ k * n
    → let end = release_times draw event n window clock k r in
      (waiting_line event end ≡ []) × All (Served event end) (waiting_line event r)
release_times-serves draw event n window clock k r fresh s h =
    let (empty, served, keeps) = release_times_total draw event n window clock fresh k r s h in
    (empty, served)

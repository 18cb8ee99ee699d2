-- ===== src/Queue/Line.antt =====
-- The line of a waiting room under `Release`: it takes the front of the line, and nothing else.
use ivyticketing.Base.{
  ℕ, ◌≤◌, ◌≡◌, refl, sym, ap, ◌∙◌, Bool, true, false, not, none, some, List, [], ◌∷◌, ◌==◌, arith,
  All, find, filter, count_where, update_where,
}
use mathlib.Core.Path.{subst}
use ivyticketing.Base.Sort.{
  All-weaken, All-sort_by, All-filter, sort_by, filter-sort_by, count_where-sort_by,
}
use ivyticketing.Store.Tx.{ok}
use ivyticketing.Queue.Rows.{QueueToken, QueueAdmission, Room, is_waiting, is_allowed}
use ivyticketing.Queue.Cache.{move_to_allowed, invalidate_cached_status}
use ivyticketing.Queue.Tokens.{
  token_by_id, is_waiting_id, is_open_for, as_allowed, mark_allowed, create_admission,
  new_admission, comes_before, waits_at, waiting_line,
}
use ivyticketing.Queue.Service.{commit, admit_marked, release_tx, release_one}
use ivyticketing.Queue.Sound.{Sound, SoundRows, Backed, backs}

-- A token that is the only one with its identifier is found by it.
abbrev pub Found : List QueueToken → QueueToken → Type 0
Found ts t =
    (token_by_id t.id ts ≡ some t)
    × (is_waiting t.status ≡ true → find (is_waiting_id t.id) ts ≡ some t)
    × (1 ≤ count_where (λ u. u.id == t.id) ts)

Found-skip :
    (x : QueueToken) (ts : List QueueToken) (t : QueueToken)
    → count_where (λ u. u.id == t.id) (x ∷ ts) ≤ 1
    → Found ts t
    → Found (x ∷ ts) t
unfolding token_by_id is_waiting_id
Found-skip x ts t u f =
    let other : (x.id == t.id) ≡ false = ground (arith, u, f.2) in
    (rw other f.0, λ w. rw other (f.1 w), ground (arith, f.2))

Found-here : (x : QueueToken) (ts : List QueueToken) → Found (x ∷ ts) x
unfolding token_by_id is_waiting_id
Found-here x ts =
    (ground arith, λ (w : is_waiting x.status ≡ true). ground (arith, w), ground arith)

All-Found :
    (ts : List QueueToken) → ((i : ℕ) → count_where (λ t. t.id == i) ts ≤ 1) → All (Found ts) ts
All-Found [] u = tt
All-Found (x ∷ ts) u = (
  Found-here x ts,
  All-weaken ts (λ t f. Found-skip x ts t (u t.id) f) (All-Found ts (λ i. omega (arith, u i))),
)

-- No active admission names a token that is not allowed.
pub open_for_none :
    (ts : List QueueToken) (l : List QueueAdmission) {t : QueueToken}
    → token_by_id t.id ts ≡ some t
    → is_allowed t.status ≡ false
    → Backed ts l
    → (find (is_open_for t.id) l ≡ none) × (count_where (is_open_for t.id) l ≡ 0)
unfolding backs is_open_for
open_for_none ts [] e n h = (refl, refl)
open_for_none ts (a ∷ l) {t} e n h =
    let rest = open_for_none ts l e n h.1 in
    let shut : is_open_for t.id a ≡ false = ground (arith, e, n, h.0) in
    (rw shut rest.0, ground (arith, shut, rest.1))

comes_before_total : (t u : QueueToken) → comes_before t u ≡ false → comes_before u t ≡ true
unfolding comes_before
comes_before_total t u h = ground arith

comes_before_trans :
    (t u v : QueueToken)
    → comes_before t u ≡ true
    → comes_before u v ≡ true
    → comes_before t v ≡ true
unfolding comes_before
comes_before_trans t u v h k = ground arith

abbrev has_other_id : ℕ → QueueToken → Bool
has_other_id id t = not (t.id == id)

-- The waiting tokens of an event, when those with one identifier have been allowed.
filter-allowed :
    (event id now : ℕ) (ts : List QueueToken)
    → filter (waits_at event) (update_where (is_waiting_id id) (as_allowed now) ts)
      ≡ filter (has_other_id id) (filter (waits_at event) ts)
unfolding waits_at is_waiting_id is_waiting
filter-allowed event id now [] = refl
filter-allowed event id now (t ∷ ts) = ground (arith, filter-allowed event id now ts)

filter-has_other_id :
    (id : ℕ) (l : List QueueToken)
    → count_where (λ t. t.id == id) l ≡ 0
    → filter (has_other_id id) l ≡ l
filter-has_other_id id [] h = refl
filter-has_other_id id (t ∷ l) h = ground (arith, filter-has_other_id id l)

count_where-filter_le :
    (p q : QueueToken → Bool) (l : List QueueToken) → count_where p (filter q l) ≤ count_where p l
count_where-filter_le p q [] = omega arith
count_where-filter_le p q (t ∷ l) = ground (arith, count_where-filter_le p q l)

-- The line when its first token has been allowed.
pub waiting_line-allowed :
    (event now : ℕ) (ts : List QueueToken) (l : List QueueAdmission) {t : QueueToken}
    {rest : List QueueToken}
    → SoundRows ts l
    → sort_by comes_before (filter (waits_at event) ts) ≡ t ∷ rest
    → sort_by comes_before
        (filter (waits_at event) (update_where (is_waiting_id t.id) (as_allowed now) ts))
      ≡ rest
waiting_line-allowed event now ts l {t} {rest} s e =
    let once : count_where (λ u. u.id == t.id) (t ∷ rest) ≤ 1 =
      subst (λ x. count_where (λ u. u.id == t.id) x ≤ 1) e
        (omega (
          arith,
          count_where-sort_by comes_before (λ u. u.id == t.id) (filter (waits_at event) ts),
          count_where-filter_le (λ u. u.id == t.id) (waits_at event) ts,
          s.unique t.id,
        )) in
    ap (sort_by comes_before) (filter-allowed event t.id now ts)
    ∙ sym (
        filter-sort_by comes_before comes_before_total comes_before_trans (has_other_id t.id)
          (filter (waits_at event) ts))
    ∙ ap (filter (has_other_id t.id)) e
    ∙ ground (arith, once, filter-has_other_id t.id rest)

-- The first token of a line is one of the table, found by its identifier, and waits for the event.
pub waiting_line-head :
    (event : ℕ) (r : Room) {t : QueueToken} {rest : List QueueToken}
    → Sound r
    → waiting_line event r ≡ t ∷ rest
    → Found r.tokens t × (waits_at event t ≡ true)
unfolding waiting_line
waiting_line-head event r {t} {rest} s e =
    let every = subst (All (λ u. Found r.tokens u × (waits_at event u ≡ true))) e (
      All-sort_by comes_before (λ u. Found r.tokens u × (waits_at event u ≡ true))
        (filter (waits_at event) r.tokens)
        (All-filter (Found r.tokens) (waits_at event) r.tokens (All-Found r.tokens s.unique))) in
    every.0

mark_allowed-found :
    (id now : ℕ) (r : Room) {t : QueueToken}
    → find (is_waiting_id id) r.tokens ≡ some t
    → mark_allowed id now r ≡ (
      some (as_allowed now t),
      record r { tokens = update_where (is_waiting_id id) (as_allowed now) r.tokens },
    )
unfolding mark_allowed
mark_allowed-found id now r e = rw (e, mark_allowed) refl

create_admission-free :
    (a : QueueAdmission) (r : Room)
    → find (λ b. b.id == a.id) r.admissions ≡ none
    → find (is_open_for a.token_id) r.admissions ≡ none
    → create_admission a r ≡ (ok tt, record r { admissions = a ∷ r.admissions })
unfolding create_admission
create_admission-free a r e h = rw (e, h) refl

module _ (draw : Room → ℕ) (event now expires_at : ℕ) where
  abbrev pub admitted : QueueToken → Room → List QueueAdmission
  admitted t r = new_admission (draw r) (as_allowed now t) event expires_at ∷ r.admissions

  release_tx-found :
      (r : Room) {t : QueueToken}
      → find (is_waiting_id t.id) r.tokens ≡ some t
      → find (λ b. b.id == draw r) r.admissions ≡ none
      → find (is_open_for t.id) r.admissions ≡ none
      → release_tx draw t event now expires_at r ≡ (
        ok true,
        record r {
          tokens = update_where (is_waiting_id t.id) (as_allowed now) r.tokens;
          admissions = admitted t r;
        },
      )
  unfolding release_tx admit_marked commit
  release_tx-found r {t} e h k =
      ap (admit_marked (draw r) event expires_at r) (mark_allowed-found t.id now r e)
      ∙ ap (commit r) (
          create_admission-free (new_admission (draw r) (as_allowed now t) event expires_at)
            (record r { tokens = update_where (is_waiting_id t.id) (as_allowed now) r.tokens }) h k)

  -- What the release of the first token of a line does.
  pub release_one-head :
      (r : Room) {t : QueueToken} {rest : List QueueToken}
      → find (λ b. b.id == draw r) r.admissions ≡ none
      → Sound r
      → waiting_line event r ≡ t ∷ rest
      → let out = release_one draw t event now expires_at r in
        (out.0 ≡ 1)
        × (out.1.tokens ≡ update_where (is_waiting_id t.id) (as_allowed now) r.tokens)
        × (out.1.admissions ≡ admitted t r)
  unfolding release_one waits_at is_waiting is_allowed move_to_allowed invalidate_cached_status
  release_one-head r {t} {rest} fresh s e =
      let (found, waits) = waiting_line-head event r s e in
      let shut = open_for_none r.tokens r.admissions found.0 (ground (arith, waits)) s.backed in
      rw (release_tx-found r (found.1 (ground (arith, waits))) fresh shut.0) (refl, refl, refl)

-- ===== src/Queue/Sound.antt =====
-- A sound waiting room: its tokens have identifiers of their own, a token has at most one active
-- admission, and an active admission is one of an allowed token of its participant and event.
use ivyticketing.Base.{
  ℕ, ◌+◌, ◌≤◌, ◌≡◌, refl, Bool, true, false, ◌&&◌, none, some, List, [], ◌∷◌, ◌==◌, arith, All,
  find, count_where, update_where, if◌then◌else◌,
}
use ivyticketing.Base.Sort.{All-weaken}
use ivyticketing.Queue.Rows.{QueueToken, QueueAdmission, Room, is_waiting, is_allowed, is_active}
use ivyticketing.Queue.Tokens.{
  token_by_id, is_waiting_id, is_allowed_id, is_open_for, is_active_id, as_allowed,
}

-- The token of an admission stands behind it.
unfoldable pub backs : List QueueToken → QueueAdmission → Bool
unfolding token_by_id is_active is_allowed
backs ts a =
    if is_active a.status
    then elim (token_by_id a.token_id ts) [
      | none ↦ false
      | some t ↦
          is_allowed t.status
          && (t.event_id == a.event_id)
          && (t.participant_id == a.participant_id)
    ]
    else true

abbrev pub Backed : List QueueToken → List QueueAdmission → Type 0
Backed ts = All (λ a. backs ts a ≡ true)

pub record SoundRows (ts : List QueueToken) (l : List QueueAdmission) : Type 0 where
  pub unique : (i : ℕ) → count_where (λ t. t.id == i) ts ≤ 1
  pub open_once : (i : ℕ) → count_where (is_open_for i) l ≤ 1
  pub backed : Backed ts l

abbrev pub Sound : Room → Type 0
Sound r = SoundRows r.tokens r.admissions

-- A change of tokens that keeps their names and takes no token back from `allowed`.
backs-allowed :
    (id now : ℕ) (ts : List QueueToken) (a : QueueAdmission)
    → backs ts a ≡ true
    → backs (update_where (is_waiting_id id) (as_allowed now) ts) a ≡ true
unfolding backs is_waiting_id is_waiting
backs-allowed id now [] a h = h
backs-allowed id now (t ∷ ts) a h = ground (arith, backs-allowed id now ts a)

pub Backed-allowed :
    (id now : ℕ) (ts : List QueueToken) (l : List QueueAdmission)
    → Backed ts l
    → Backed (update_where (is_waiting_id id) (as_allowed now) ts) l
Backed-allowed id now ts l = All-weaken l (λ a. backs-allowed id now ts a)

-- A change of the allowed tokens with one identifier, which no active admission names.
module _ (g : QueueToken → QueueToken) (keeps : (t : QueueToken) → (g t).id ≡ t.id) where
  backs-away :
      (id : ℕ) (ts : List QueueToken) (a : QueueAdmission)
      → is_open_for id a ≡ false
      → backs ts a ≡ true
      → backs (update_where (is_allowed_id id) g ts) a ≡ true
  unfolding backs is_allowed_id is_open_for
  backs-away id [] a n h = h
  backs-away id (t ∷ ts) a n h = ground (arith, keeps t, backs-away id ts a n)

  pub Backed-away :
      (id : ℕ) (ts : List QueueToken) (l : List QueueAdmission)
      → count_where (is_open_for id) l ≡ 0
      → Backed ts l
      → Backed (update_where (is_allowed_id id) g ts) l
  Backed-away id ts [] n h = tt
  Backed-away id ts (a ∷ l) n h =
      (backs-away id ts a (ground arith) h.0, Backed-away id ts l (ground arith) h.1)

  pub count-away :
      (id i : ℕ) (ts : List QueueToken)
      → count_where (λ t. t.id == i) (update_where (is_allowed_id id) g ts)
        ≡ count_where (λ t. t.id == i) ts
  unfolding is_allowed_id
  count-away id i [] = refl
  count-away id i (t ∷ ts) = ground (arith, keeps t, count-away id i ts)

pub count-allowed :
    (id now i : ℕ) (ts : List QueueToken)
    → count_where (λ t. t.id == i) (update_where (is_waiting_id id) (as_allowed now) ts)
      ≡ count_where (λ t. t.id == i) ts
unfolding is_waiting_id
count-allowed id now i [] = refl
count-allowed id now i (t ∷ ts) = ground (arith, count-allowed id now i ts)

-- Closing the active admissions with one identifier.
module _ (g : QueueAdmission → QueueAdmission)
    (closes : (a : QueueAdmission) → is_active (g a).status ≡ false) where
  pub Backed-closed :
      (id : ℕ) (ts : List QueueToken) (l : List QueueAdmission)
      → Backed ts l
      → Backed ts (update_where (is_active_id id) g l)
  unfolding backs
  Backed-closed id ts [] h = tt
  Backed-closed id ts (a ∷ l) h = (ground (arith, closes a), Backed-closed id ts l h.1)

  pub count-closed_le :
      (id i : ℕ) (l : List QueueAdmission)
      → count_where (is_open_for i) (update_where (is_active_id id) g l)
        ≤ count_where (is_open_for i) l
  unfolding is_open_for
  count-closed_le id i [] = omega arith
  count-closed_le id i (a ∷ l) = ground (arith, closes a, count-closed_le id i l)

  -- Closing an active admission that a query yields closes its token's.
  pub count-closed :
      (p : QueueAdmission → Bool) (l : List QueueAdmission) {a : QueueAdmission}
      → find p l ≡ some a
      → is_active a.status ≡ true
      → count_where (is_open_for a.token_id) (update_where (is_active_id a.id) g l) + 1
        ≤ count_where (is_open_for a.token_id) l
  unfolding is_open_for is_active_id
  count-closed p [] e v = cc
  count-closed p (b ∷ l) {a} e v = ground (
    arith,
    closes b,
    count-closed_le a.id a.token_id l,
    λ (q : find p l ≡ some a). count-closed p l q v,
  )

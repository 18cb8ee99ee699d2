-- ===== src/Ballot/Results.antt =====
-- The shuffle and the assignment (modules/ballot/draw.go).
use ivyticketing.Base.{
  ℕ, zero, suc, ◌+◌, ◌-◌, ◌≡◌, refl, sym, ◌∙◌, String, Bool, true, false, some, List, [], ◌∷◌,
  arith, length, get_elem?, count_where, ltb, str_eq_self, All, Option-cases, inl, inr,
  if◌then◌else◌,
}
use ivyticketing.Ballot.Draw.{
  Primitives, DrawEntry, DrawResult, Outcome, set_elem, swap, shuffle_rounds, shuffle, outcome_at,
  assign_from, assign, verify_result_hash, result_hash,
}

module _ {A : Type 0} (p : A → Bool) where
  count-set_elem :
      (i : ℕ) (xs : List A) (b : A) {a : A}
      → get_elem? xs i ≡ some a
      → count_where p (set_elem i b xs) + (if p a then 1 else 0)
        ≡ count_where p xs + (if p b then 1 else 0)
  count-set_elem i [] b e = cc
  count-set_elem zero (x ∷ xs) b {a} e = ground arith
  count-set_elem (suc i) (x ∷ xs) b {a} e = omega (arith, count-set_elem i xs b e)

get-set_elem :
    {A : Type 0} (i j : ℕ) (xs : List A) (b : A)
    → get_elem? xs j ≡ some b
    → get_elem? (set_elem i b xs) j ≡ some b
get-set_elem i j [] b e = cc
get-set_elem zero zero (x ∷ xs) b e = refl
get-set_elem zero (suc j) (x ∷ xs) b e = e
get-set_elem (suc i) zero (x ∷ xs) b e = e
get-set_elem (suc i) (suc j) (x ∷ xs) b e = get-set_elem i j xs b e

count-swap :
    {A : Type 0} (p : A → Bool) (i j : ℕ) (xs : List A)
    → count_where p (swap i j xs) ≡ count_where p xs
count-swap {A = A} p i j xs = elim (Option-cases (get_elem? xs i)) [
  | inl e ↦ unfold swap in ground (arith, e)
  | inr (a, e) ↦ elim (Option-cases (get_elem? xs j)) [
    | inl f ↦ unfold swap in ground (arith, e, f)
    | inr (b, f) ↦ unfold swap in ground (arith, e, f, swapped e f)
  ]
]
  where
    swapped :
        {a b : A}
        → get_elem? xs i ≡ some a
        → get_elem? xs j ≡ some b
        → count_where p (set_elem j a (set_elem i b xs)) ≡ count_where p xs
    swapped {a} {b} e f = omega (
      arith,
      count-set_elem p i xs b e,
      count-set_elem p j (set_elem i b xs) a (get-set_elem i j xs b f),
    )

count-shuffle_rounds :
    (p : DrawEntry → Bool) (c : Primitives) (i source : ℕ) (xs : List DrawEntry)
    → count_where p (shuffle_rounds c i source xs) ≡ count_where p xs
unfolding shuffle_rounds
count-shuffle_rounds p c zero source xs = refl
count-shuffle_rounds p c (suc i) source xs =
    count-shuffle_rounds p c i (c.intn source (suc i + 1)).1 _
    ∙ count-swap p (suc i) (c.intn source (suc i + 1)).0 xs

-- The shuffle is a permutation: whatever the seed and the generator, every property has as many
-- entries after the shuffle as before.
pub count-shuffle :
    (p : DrawEntry → Bool) (c : Primitives) (seed : String) (entries : List DrawEntry)
    → count_where p (shuffle c seed entries) ≡ count_where p entries
unfolding shuffle
count-shuffle p c seed entries = count-shuffle_rounds p c _ _ entries

count-all : {A : Type 0} (xs : List A) → count_where (λ x. true) xs ≡ length xs
count-all [] = refl
count-all (x ∷ xs) = omega (arith, count-all xs)

pub length-shuffle :
    (c : Primitives) (seed : String) (entries : List DrawEntry)
    → length (shuffle c seed entries) ≡ length entries
length-shuffle c seed entries =
    sym (count-all (shuffle c seed entries))
    ∙ count-shuffle (λ x. true) c seed entries
    ∙ count-all entries

abbrev pub same_outcome : Outcome → Outcome → Bool
same_outcome Outcome.winner Outcome.winner = true
same_outcome Outcome.waitlisted Outcome.waitlisted = true
same_outcome Outcome.not_selected Outcome.not_selected = true
same_outcome _ _ = false

abbrev pub min : ℕ → ℕ → ℕ
min a b = if ltb b a then b else a

unfoldable pub results_with : Outcome → List DrawResult → ℕ
results_with o = count_where (λ r. same_outcome r.outcome o)

module _ (c : Primitives) (seed : String) (quota waitlist_size : ℕ) where
  assign_from_counts :
      (i : ℕ) (es : List DrawEntry)
      → (results_with Outcome.winner (assign_from c seed quota waitlist_size i es)
          ≡ min (quota - i) (length es))
        × (results_with Outcome.not_selected (assign_from c seed quota waitlist_size i es)
            ≡ length es - (quota + waitlist_size - i))
        × (results_with Outcome.winner (assign_from c seed quota waitlist_size i es)
              + results_with Outcome.waitlisted (assign_from c seed quota waitlist_size i es)
              + results_with Outcome.not_selected (assign_from c seed quota waitlist_size i es)
            ≡ length es)
  unfolding results_with assign_from outcome_at
  assign_from_counts i [] = (ground arith, ground arith, refl)
  assign_from_counts i (e ∷ es) =
      let (x, y, z) = assign_from_counts (i + 1) es in
      (ground (arith, x), ground (arith, y), ground (arith, z))

  -- The assignment fills the quota from the front and then the waitlist: as many winners as the
  -- quota and the entries allow, as many waitlisted as the waitlist and the other entries allow,
  -- and every entry has one of the three outcomes.
  pub assign_counts :
      (es : List DrawEntry)
      → let results = assign c seed es quota waitlist_size in
        (results_with Outcome.winner results ≡ min quota (length es))
        × (results_with Outcome.waitlisted results ≡ min waitlist_size (length es - quota))
        × (results_with Outcome.not_selected results ≡ length es - (quota + waitlist_size))
  unfolding assign
  assign_counts es =
      let (x, y, z) = assign_from_counts 0 es in
      (ground (arith, x), ground (arith, x, y, z), ground (arith, y))

  assign_from-verify :
      (i : ℕ) (es : List DrawEntry)
      → All
          (λ r. verify_result_hash c seed r.entry_id r.rank r.result_hash ≡ true)
          (assign_from c seed quota waitlist_size i es)
  unfolding assign_from verify_result_hash
  assign_from-verify i [] = tt
  assign_from-verify i (e ∷ es) =
      (str_eq_self (result_hash c seed i e.id), assign_from-verify (i + 1) es)

  -- A result of the assignment passes the check of its digest, with its own entry and rank.
  pub assign-verify :
      (es : List DrawEntry)
      → All
          (λ r. verify_result_hash c seed r.entry_id r.rank r.result_hash ≡ true)
          (assign c seed es quota waitlist_size)
  unfolding assign
  assign-verify es = assign_from-verify 0 es

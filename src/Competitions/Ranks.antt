-- ===== src/Competitions/Ranks.antt =====
-- The ranks of `RankResultsByStrategy` are those of a competition: one more than the number of finishers
-- that are strictly better.
use ivyticketing.Base.{
  ℕ, suc, ◌+◌, ◌≡◌, refl, Bool, true, false, not, ◌&&◌, ◌||◌, Option, none, some, List, [], ◌∷◌,
  ◌==◌, arith, ltb, All, count_where, if◌then◌else◌, Bool-cases, inl, inr,
}
use ivyticketing.Base.Sort.{All-weaken, All-both, Sorted}
use ivyticketing.Competitions.Ranking.{
  CompetitionResult, RankingStrategy, is_valid, is_equal_metric, rank_after, assign_ranks,
}

-- `a` is better than `b`: less, or more where the strategy is descending.
abbrev pub ahead : Bool → ℕ → ℕ → Bool
ahead desc a b = if desc then ltb b a else ltb a b

abbrev pub ranked_as : CompetitionResult → Option ℕ → CompetitionResult
ranked_as x r = record x { rank_overall = r }

-- `x` may stand before `y`.
abbrev pub may_precede :
    Bool → (CompetitionResult → ℕ) → CompetitionResult → CompetitionResult → Bool
may_precede desc key x y =
    if is_valid x then not (is_valid y) || not (ahead desc (key y) (key x)) else not (is_valid y)

module _ (k : RankingStrategy) (desc : Bool) (key : CompetitionResult → ℕ)
    (Q : CompetitionResult → Type 0) (b : ℕ → ℕ)
    (same : (p x : CompetitionResult) → Q p → Q x → is_equal_metric k p x ≡ (key p == key x))
    (keeps : (x : CompetitionResult) (r : Option ℕ) → key (ranked_as x r) ≡ key x)
    (still : (x : CompetitionResult) (r : Option ℕ) → Q x → Q (ranked_as x r)) where
  -- The finishers of a list that are better than a value.
  abbrev pub better : ℕ → List CompetitionResult → ℕ
  better v = count_where (λ y. is_valid y && ahead desc (key y) v)

  abbrev pub shares : Option CompetitionResult → CompetitionResult → Bool
  shares none x = false
  shares (some p) x = is_valid p && (key p == key x)

  abbrev pub rank_of : Option CompetitionResult → Option ℕ
  rank_of none = none
  rank_of (some p) = p.rank_overall

  -- What the loop knows of a finisher `x` that is still to come: it ties with the last one, whose rank
  -- is that of `x`, or all finishers before it are better.
  abbrev pub Owed :
      Option CompetitionResult → ℕ → List CompetitionResult → CompetitionResult → Type 0
  Owed prev n xs x =
      (is_valid x ≡ true → shares prev x ≡ true → rank_of prev ≡ some (suc (b (key x))))
      × (is_valid x ≡ true → shares prev x ≡ false → b (key x) + 1 ≡ n + better (key x) xs)

  abbrev pub Behind : Option CompetitionResult → CompetitionResult → Type 0
  Behind none x = Unit
  Behind (some p) x = (Q p) × (may_precede desc key p x ≡ true)

  abbrev pub Placed : CompetitionResult → Type 0
  Placed x = x.rank_overall ≡ (if is_valid x then some (suc (b (key x))) else none)

  better-zero :
      (h : CompetitionResult) (xs : List CompetitionResult)
      → is_valid h ≡ true
      → All (λ y. may_precede desc key h y ≡ true) xs
      → better (key h) xs ≡ 0
  better-zero h [] v a = refl
  better-zero h (y ∷ xs) v a = ground (arith, a.0, better-zero h xs v a.1)

  rank_after-right :
      (prev : Option CompetitionResult) (n : ℕ) (h : CompetitionResult)
      (xs : List CompetitionResult)
      → is_valid h ≡ true
      → Q h
      → Behind prev h
      → All (λ y. may_precede desc key h y ≡ true) xs
      → Owed prev n (h ∷ xs) h
      → rank_after k prev n h ≡ suc (b (key h))
  unfolding rank_after
  rank_after-right none n h xs v q _ a o = ground (arith, o.1 v refl, better-zero h xs v a)
  rank_after-right (some p) n h xs v q c a o = elim (Bool-cases (is_valid p && (key p == key h))) [
    | inl e ↦ ground (arith, e, same p h c.0 q, o.0 v e)
    | inr e ↦ ground (arith, e, same p h c.0 q, o.1 v e, better-zero h xs v a, v)
  ]

  abbrev given : Option CompetitionResult → ℕ → CompetitionResult → Option ℕ
  given prev n h = if is_valid h then some (rank_after k prev n h) else none

  abbrev rest_of : CompetitionResult → ℕ → ℕ
  rest_of h n = if is_valid h then n + 1 else n

  tie_holds :
      (prev : Option CompetitionResult) (h x : CompetitionResult)
      → is_valid h ≡ true
      → is_valid x ≡ true
      → Behind prev h
      → may_precede desc key h x ≡ true
      → shares prev x ≡ true
      → (key h == key x) ≡ true
  tie_holds none h x v w c m s = cc
  tie_holds (some p) h x v w c m s = ground (arith, v, w, c.1, m, s)

  -- The next finishers, when `h` has its rank.
  Owed-next :
      (prev : Option CompetitionResult) (n : ℕ) (h x : CompetitionResult)
      (xs : List CompetitionResult)
      → Behind prev h
      → may_precede desc key h x ≡ true
      → (is_valid h ≡ true → rank_after k prev n h ≡ suc (b (key h)))
      → Owed prev n (h ∷ xs) x
      → Owed (some (ranked_as h (given prev n h))) (rest_of h n) xs x
  Owed-next prev n h x xs c m r o = (
    λ (w : is_valid x ≡ true) s.
        let v : is_valid h ≡ true = ground (arith, m, w) in
        ground (arith, v, r v, s, keeps h (given prev n h)),
    λ (w : is_valid x ≡ true) s.
        let v : is_valid h ≡ true = ground (arith, m, w) in
        elim (Bool-cases (shares prev x)) [
          | inl e ↦
              absurd (ground (arith, v, s, keeps h (given prev n h), tie_holds prev h x v w c m e))
          | inr e ↦ ground (arith, v, m, w, s, o.1 w e, keeps h (given prev n h))
        ],
  )

  pub assign_ranks-Placed :
      (prev : Option CompetitionResult) (n : ℕ) (xs : List CompetitionResult)
      → All Q xs
      → Sorted (may_precede desc key) xs
      → All (Behind prev) xs
      → All (Owed prev n xs) xs
      → All Placed (assign_ranks k prev n xs)
  unfolding assign_ranks
  assign_ranks-Placed prev n [] q s c o = tt
  assign_ranks-Placed prev n (h ∷ xs) q s c o =
      let right : is_valid h ≡ true → rank_after k prev n h ≡ suc (b (key h)) =
        λ v. rank_after-right prev n h xs v q.0 c.0 s.0 o.0 in
      (
        ground (arith, right, keeps h (given prev n h)),
        assign_ranks-Placed (some (ranked_as h (given prev n h))) (rest_of h n) xs q.1 s.1
            (All-weaken xs
              (λ x m. (still h (given prev n h) q.0, ground (arith, m, keeps h (given prev n h))))
              s.0)
            (All-weaken xs (λ x both. Owed-next prev n h x xs c.0 both.0 right both.1)
              (All-both (λ x. may_precede desc key h x ≡ true) (Owed prev n (h ∷ xs)) xs s.0 o.1)),
      )

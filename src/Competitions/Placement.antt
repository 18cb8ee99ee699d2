-- ===== src/Competitions/Placement.antt =====
-- What `RankResultsByStrategy` (modules/competitions/scoring.go) gives for each strategy that measures.
use ivyticketing.Base.{
  ℕ, suc, ◌+◌, ◌<◌, ◌≡◌, refl, ◌∙◌, Bool, true, false, not, ◌&&◌, Option, none, some, List, [], ◌∷◌,
  ◌==◌, arith, All, count_where, if◌then◌else◌, String,
}
use ivyticketing.Base.Sort.{All-weaken, All-sort_by, Sorted, sort_by-Sorted, count_where-sort_by}
use ivyticketing.Competitions.Ranking.{
  CompetitionResult, RankingStrategy, RankingStrategy.time_asc, RankingStrategy.time_desc,
  RankingStrategy.score_asc, RankingStrategy.score_desc, RankingStrategy.points_desc,
  RankingStrategy.win_count, RankingStrategy.goal_difference, RankingStrategy.head_to_head,
  is_valid, is_equal_metric, same_time, official_time, time_or, no_time, assign_ranks, rank_after,
  sorted_results, rank_results_by_strategy, ranks_before, metric_before,
}
use ivyticketing.Competitions.Ranks.{ahead, may_precede, assign_ranks-Placed}

-- What a strategy measures, and whether more of it is better.
abbrev pub measure : RankingStrategy → CompetitionResult → ℕ
measure time_asc x = time_or no_time (official_time x)
measure _ x = x.points_scored

abbrev pub descends : RankingStrategy → Bool
descends points_desc = true
descends score_desc = true
descends _ = false

abbrev pub measures : RankingStrategy → Bool
measures time_asc = true
measures points_desc = true
measures score_desc = true
measures score_asc = true
measures _ = false

-- An official time is below the one that stands for none.
abbrev pub Timely : CompetitionResult → Type 0
Timely x = time_or 0 (official_time x) < no_time

abbrev pub finishers_ahead : RankingStrategy → List CompetitionResult → CompetitionResult → ℕ
finishers_ahead k results x =
    count_where (λ y. is_valid y && ahead (descends k) (measure k y) (measure k x)) results

same_time-measure :
    (a b : Option ℕ)
    → time_or 0 a < no_time
    → time_or 0 b < no_time
    → same_time a b ≡ (time_or no_time a == time_or no_time b)
same_time-measure none none h g = ground (arith, h, g)
same_time-measure none (some b) h g = ground (arith, h, g)
same_time-measure (some a) none h g = ground (arith, h, g)
same_time-measure (some a) (some b) h g = refl

equal_metric-measure :
    (k : RankingStrategy)
    → measures k ≡ true
    → (p x : CompetitionResult) → Timely p
    → Timely x
    → is_equal_metric k p x ≡ (measure k p == measure k x)
unfolding is_equal_metric
equal_metric-measure time_asc m p x h g = same_time-measure (official_time p) (official_time x) h g
equal_metric-measure time_desc m p x h g = cc
equal_metric-measure score_asc m p x h g = refl
equal_metric-measure score_desc m p x h g = refl
equal_metric-measure points_desc m p x h g = refl
equal_metric-measure win_count m p x h g = cc
equal_metric-measure goal_difference m p x h g = cc
equal_metric-measure head_to_head m p x h g = cc

measure-kept :
    (k : RankingStrategy) (x : CompetitionResult) (r : Option ℕ)
    → measure k (record x { rank_overall = r }) ≡ measure k x
measure-kept time_asc x r = refl
measure-kept time_desc x r = refl
measure-kept score_asc x r = refl
measure-kept score_desc x r = refl
measure-kept points_desc x r = refl
measure-kept win_count x r = refl
measure-kept goal_difference x r = refl
measure-kept head_to_head x r = refl

-- The metric decides first; the name only where it ties.
metric_before-ahead :
    (name_before : String → String → Bool) (k : RankingStrategy)
    → measures k ≡ true
    → (i j : CompetitionResult)
    → (metric_before name_before k j i ≡ true
        → ahead (descends k) (measure k i) (measure k j) ≡ false)
      × (metric_before name_before k j i ≡ false
          → ahead (descends k) (measure k j) (measure k i) ≡ false)
unfolding metric_before
metric_before-ahead name_before time_asc m i j = (λ h. ground (arith, h), λ h. ground (arith, h))
metric_before-ahead name_before time_desc m i j = (cc, cc)
metric_before-ahead name_before score_asc m i j = (λ h. ground (arith, h), λ h. ground (arith, h))
metric_before-ahead name_before score_desc m i j = (λ h. ground (arith, h), λ h. ground (arith, h))
metric_before-ahead name_before points_desc m i j = (λ h. ground (arith, h), λ h. ground (arith, h))
metric_before-ahead name_before win_count m i j = (cc, cc)
metric_before-ahead name_before goal_difference m i j = (cc, cc)
metric_before-ahead name_before head_to_head m i j = (cc, cc)

sorted_results-Sorted :
    (name_before : String → String → Bool) (k : RankingStrategy) (results : List CompetitionResult)
    → measures k ≡ true
    → Sorted (may_precede (descends k) (measure k)) (sorted_results name_before k results)
unfolding sorted_results ranks_before
sorted_results-Sorted name_before k results m =
    sort_by-Sorted (λ i j. not (ranks_before name_before k j i))
      (may_precede (descends k) (measure k))
      (λ i j h. ground (arith, h, (metric_before-ahead name_before k m i j).1))
      (λ i j h. ground (arith, h, (metric_before-ahead name_before k m i j).0))
      (λ i j l h g. ground (arith, h, g)) results

count-assign_ranks :
    (k : RankingStrategy) (i : ℕ) (prev : Option CompetitionResult) (n : ℕ)
    (xs : List CompetitionResult)
    → count_where (λ r. r.entry_id == i) (assign_ranks k prev n xs)
      ≡ count_where (λ r. r.entry_id == i) xs
unfolding assign_ranks
count-assign_ranks k i prev n [] = refl
count-assign_ranks k i prev n (x ∷ xs) =
    let r : Option ℕ = if is_valid x then some (rank_after k prev n x) else none in
    let m : ℕ = if is_valid x then n + 1 else n in
    omega (arith, count-assign_ranks k i (some (record x { rank_overall = r })) m xs)

count-rank_results :
    (name_before : String → String → Bool) (k : RankingStrategy) (results : List CompetitionResult)
    (i : ℕ)
    → count_where (λ r. r.entry_id == i) (rank_results_by_strategy name_before k results)
      ≡ count_where (λ r. r.entry_id == i) results
unfolding rank_results_by_strategy sorted_results
count-rank_results name_before k results i =
    count-assign_ranks k i none 1 (sorted_results name_before k results)
    ∙ count_where-sort_by (λ x y. not (ranks_before name_before k y x)) (λ r. r.entry_id == i)
        results

-- The ranks of finishers by time, by points or by score, where no official time reaches the largest
-- one: a finisher's rank is one more than the number of finishers that are strictly better, so equal
-- ones share a rank and the next ranks are left out; who has not finished has no rank; and each entry
-- has as many results as before.
pub rank_results_by_strategy_lem :
    (name_before : String → String → Bool) (k : RankingStrategy) (results : List CompetitionResult)
    → measures k ≡ true
    → All Timely results
    → All
        (λ x.
          x.rank_overall ≡ (if is_valid x then some (suc (finishers_ahead k results x)) else none))
        (rank_results_by_strategy name_before k results)
      × ((i : ℕ)
          → count_where (λ r. r.entry_id == i) (rank_results_by_strategy name_before k results)
            ≡ count_where (λ r. r.entry_id == i) results)
unfolding rank_results_by_strategy sorted_results
rank_results_by_strategy_lem name_before k results m t =
    let sorted : List CompetitionResult = sorted_results name_before k results in
    let timely : All Timely sorted =
      All-sort_by (λ i j. not (ranks_before name_before k j i)) Timely results t in
    (
      assign_ranks-Placed k (descends k) (measure k) Timely
          (λ v. count_where (λ y. is_valid y && ahead (descends k) (measure k y) v) results)
          (equal_metric-measure k m) (measure-kept k) (λ x r q. q) none 1 sorted timely
          (sorted_results-Sorted name_before k results m) (All-weaken sorted (λ x q. tt) timely)
          (All-weaken sorted
            (λ x q. (
              λ v s. cc,
              λ v s. omega (
                arith,
                count_where-sort_by (λ i j. not (ranks_before name_before k j i))
                    (λ y. is_valid y && ahead (descends k) (measure k y) (measure k x)) results,
              ),
            ))
            timely),
      count-rank_results name_before k results,
    )

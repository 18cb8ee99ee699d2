-- ===== src/Competitions/Ranking.antt =====
-- `RankResultsByStrategy` (modules/competitions/scoring.go). Points are natural numbers in their
-- smallest unit (the column is a decimal), times are milliseconds. `name_before` is the comparison of
-- two display names in lower case. `sort.Slice` keeps no order of equal rows; the model's sort is
-- stable.
use ivyticketing.Base.{
  ℕ, ◌+◌, ◌-◌, ◌^◌, Bool, true, false, not, ◌&&◌, Option, none, some, List, [], ◌∷◌, ◌==◌, ◌!=◌,
  ltb, if◌then◌else◌, String,
}
use ivyticketing.Base.Sort.{sort_by}

pub data CompetitionStatus : Type 0 where
  registered checked_in started active completed finished dnf dns dsq otl : CompetitionStatus
  withdrawn retired no_show eliminated qualified disqualified forfeit : CompetitionStatus
  walkover pending_review : CompetitionStatus

-- `IsOfficialValidFinisher`.
unfoldable pub is_official_valid_finisher : CompetitionStatus → Bool
is_official_valid_finisher CompetitionStatus.finished = true
is_official_valid_finisher CompetitionStatus.completed = true
is_official_valid_finisher CompetitionStatus.qualified = true
is_official_valid_finisher _ = false

pub data RankingStrategy : Type 0 where
  time_asc time_desc score_asc score_desc points_desc : RankingStrategy
  win_count goal_difference head_to_head : RankingStrategy

pub record CompetitionResult : Type 0 where
  pub entry_id : ℕ
  pub display_name : String
  pub rank_overall : Option ℕ
  pub status : CompetitionStatus
  pub primary_time : Option ℕ
  pub secondary_time : Option ℕ
  pub points_scored : ℕ

abbrev pub is_valid : CompetitionResult → Bool
is_valid r = is_official_valid_finisher r.status

-- `1<<62 - 1`, the time of a result without one.
abbrev pub or_time : Option ℕ → Option ℕ → Option ℕ
or_time none b = b
or_time (some a) b = some a

abbrev pub time_or : ℕ → Option ℕ → ℕ
time_or d none = d
time_or d (some t) = t

abbrev pub official_time : CompetitionResult → Option ℕ
official_time r = or_time r.primary_time r.secondary_time

unfoldable pub no_time : ℕ
no_time = 2 ^ 62 - 1

-- "`i` is less than `j`" among finishers, or among the others.
unfoldable pub metric_before :
    (String → String → Bool) → RankingStrategy → CompetitionResult → CompetitionResult → Bool
metric_before name_before time_asc i j =
    let ti = time_or no_time (official_time i) in
    let tj = time_or no_time (official_time j) in
    if ti != tj then ltb ti tj else name_before i.display_name j.display_name
metric_before name_before points_desc i j =
    if i.points_scored != j.points_scored
    then ltb j.points_scored i.points_scored
    else name_before i.display_name j.display_name
metric_before name_before score_desc i j =
    if i.points_scored != j.points_scored
    then ltb j.points_scored i.points_scored
    else name_before i.display_name j.display_name
metric_before name_before score_asc i j =
    if i.points_scored != j.points_scored
    then ltb i.points_scored j.points_scored
    else name_before i.display_name j.display_name
metric_before name_before time_desc i j =
    let ti = time_or 0 i.primary_time in
    let tj = time_or 0 j.primary_time in
    if ti != tj then ltb tj ti else name_before i.display_name j.display_name
metric_before name_before win_count i j = name_before i.display_name j.display_name
metric_before name_before goal_difference i j = name_before i.display_name j.display_name
metric_before name_before head_to_head i j = name_before i.display_name j.display_name

unfoldable pub ranks_before :
    (String → String → Bool) → RankingStrategy → CompetitionResult → CompetitionResult → Bool
ranks_before name_before k i j =
    if is_valid i && not (is_valid j)
    then true
    else if is_valid j && not (is_valid i)
    then false
    else metric_before name_before k i j

abbrev pub same_time : Option ℕ → Option ℕ → Bool
same_time none none = true
same_time none (some b) = false
same_time (some a) none = false
same_time (some a) (some b) = a == b

-- `isEqualMetric`.
unfoldable pub is_equal_metric : RankingStrategy → CompetitionResult → CompetitionResult → Bool
is_equal_metric time_asc a b = same_time (official_time a) (official_time b)
is_equal_metric time_desc a b = same_time (official_time a) (official_time b)
is_equal_metric points_desc a b = a.points_scored == b.points_scored
is_equal_metric score_desc a b = a.points_scored == b.points_scored
is_equal_metric score_asc a b = a.points_scored == b.points_scored
is_equal_metric win_count a b = false
is_equal_metric goal_difference a b = false
is_equal_metric head_to_head a b = false

-- The rank of a finisher after `prev`: that of a finisher with the same metric, or the current one.
unfoldable pub shared_rank : Bool → Option ℕ → ℕ → ℕ
shared_rank true (some r) n = r
shared_rank true none n = n
shared_rank false r n = n

unfoldable pub rank_after : RankingStrategy → Option CompetitionResult → ℕ → CompetitionResult → ℕ
unfolding shared_rank
rank_after k none n x = n
rank_after k (some p) n x = shared_rank (is_valid p && is_equal_metric k p x) p.rank_overall n

-- The loop over the sorted results; `n` is `currentRank`.
unfoldable pub assign_ranks :
    RankingStrategy → Option CompetitionResult → ℕ → List CompetitionResult → List CompetitionResult
assign_ranks k prev n [] = []
assign_ranks k prev n (x ∷ xs) =
    let ranked = record x {
      rank_overall = if is_valid x then some (rank_after k prev n x) else none;
    } in
    ranked ∷ assign_ranks k (some ranked) (if is_valid x then n + 1 else n) xs

unfoldable pub sorted_results :
    (String → String → Bool) → RankingStrategy → List CompetitionResult → List CompetitionResult
sorted_results name_before k = sort_by (λ i j. not (ranks_before name_before k j i))

-- `RankResultsByStrategy`.
unfoldable pub rank_results_by_strategy :
    (String → String → Bool) → RankingStrategy → List CompetitionResult → List CompetitionResult
rank_results_by_strategy name_before k results =
    assign_ranks k none 1 (sorted_results name_before k results)

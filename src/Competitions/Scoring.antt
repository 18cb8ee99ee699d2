-- ===== src/Competitions/Scoring.antt =====
-- `EvaluateBadmintonMatch` and `CalculatePelotonGrouping`
-- (services/api/internal/modules/competitions/scoring.go). Scores and times are natural numbers.
use ivyticketing.Base.{
  ℕ, ◌+◌, Bool, ◌&&◌, ◌||◌, List, [], ◌∷◌, Option, none, some, ◌==◌, leb, if◌then◌else◌,
}

pub record MatchScoreDetail : Type 0 where
  pub home_score : ℕ
  pub away_score : ℕ

pub data Side : Type 0 where
  home away : Side

pub data MatchStatus : Type 0 where
  live completed : MatchStatus

pub record MatchOutcome : Type 0 where
  pub home_score : ℕ
  pub away_score : ℕ
  pub winner_entry : Option Side
  pub match_status : MatchStatus
  pub score_details : List MatchScoreDetail

-- `a` points against `b` win a game, which the code writes out for each side: `a - b >= 2` is
-- `b + 2 <= a`. Points are not negative.
abbrev pub wins_game : ℕ → ℕ → Bool
wins_game a b = leb 21 a && leb (b + 2) a || a == 30 && leb 29 b

-- The loop over the sets; `h` and `a` are the games won so far.
unfoldable pub count_games : List MatchScoreDetail → ℕ → ℕ → ℕ × ℕ
count_games [] h a = (h, a)
count_games (s ∷ sets) h a =
    if wins_game s.home_score s.away_score
    then count_games sets (h + 1) a
    else if wins_game s.away_score s.home_score
    then count_games sets h (a + 1)
    else count_games sets h a

unfoldable pub match_outcome : List MatchScoreDetail → ℕ → ℕ → MatchOutcome
match_outcome sets h a =
    if leb 2 h
    then record {
      home_score = h;
      away_score = a;
      winner_entry = some Side.home;
      match_status = MatchStatus.completed;
      score_details = sets;
    }
    else if leb 2 a
    then record {
      home_score = h;
      away_score = a;
      winner_entry = some Side.away;
      match_status = MatchStatus.completed;
      score_details = sets;
    }
    else record {
      home_score = h;
      away_score = a;
      winner_entry = none;
      match_status = MatchStatus.live;
      score_details = sets;
    }

unfoldable pub evaluate_badminton_match : List MatchScoreDetail → MatchOutcome
evaluate_badminton_match sets = match_outcome sets (count_games sets 0 0).0 (count_games sets 0 0).1

-- The riders behind `previous`, whose bunch is led by `lead`. The subtraction of the code can be
-- negative: `time - previous <= gap` is `time <= previous + gap`.
unfoldable pub group_from : ℕ → ℕ → ℕ → List ℕ → List ℕ
group_from gap lead previous [] = []
group_from gap lead previous (time ∷ times) =
    if leb time (previous + gap)
    then lead ∷ group_from gap lead time times
    else time ∷ group_from gap time time times

-- A gap that is not positive is taken for 1000 ms.
unfoldable pub calculate_peloton_grouping : List ℕ → ℕ → List ℕ
calculate_peloton_grouping [] max_gap = []
calculate_peloton_grouping (time ∷ times) max_gap =
    time ∷ group_from (if max_gap == 0 then 1000 else max_gap) time time times

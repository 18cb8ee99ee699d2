-- ===== src/Tests/Standings.antt =====
-- A league of three entries and a race of four.
use ivyticketing.Base.{
  ℕ, suc, ◌≡◌, refl, Bool, true, false, Option, none, some, List, [], ◌∷◌, ◌==◌, arith, All, String,
  count_where, if◌then◌else◌, map,
}
use ivyticketing.Competitions.Standings.{
  MatchView, EntryView, football_rules, points_rules, calculate_football_standings,
  calculate_points_standings,
}
use ivyticketing.Competitions.League.{LeagueTable, calculate_standings-LeagueTable}
use ivyticketing.Competitions.Ranking.{
  CompetitionStatus, CompetitionResult, RankingStrategy, is_valid, rank_results_by_strategy,
  no_time, is_official_valid_finisher, sorted_results, metric_before, ranks_before, assign_ranks,
  rank_after, shared_rank, is_equal_metric,
}
use ivyticketing.Competitions.Placement.{Timely, finishers_ahead, rank_results_by_strategy_lem}
use ivyticketing.Base.Sort.{sort_by, insert_by}

abbrev no_name_first : String → String → Bool
no_name_first a b = false

abbrev plays : ℕ → ℕ → ℕ → ℕ → MatchView
plays h a hs as_ = record {
  home_entry = some h;
  away_entry = some a;
  home_score = hs;
  away_score = as_;
  is_completed = true;
  score_details = [];
}

abbrev enters : ℕ → String → EntryView
enters i n = record { id = i; display_name = n; identifier_code = ""; status = "REGISTERED" }

abbrev league_matches : List MatchView
league_matches = plays 1 2 2 0 ∷ plays 2 3 1 1 ∷ plays 3 1 0 4 ∷ []

abbrev league_entries : List EntryView
league_entries = enters 1 "ada" ∷ enters 2 "ben" ∷ enters 3 "cleo" ∷ []

calculate_standings-LeagueTable_example :
    LeagueTable football_rules league_entries
      (calculate_football_standings no_name_first league_matches league_entries)
    × LeagueTable
        (points_rules 2 1)
        league_entries
        (calculate_points_standings no_name_first 2 1 league_matches league_entries)
calculate_standings-LeagueTable_example =
    calculate_standings-LeagueTable no_name_first 2 1 league_matches league_entries

abbrev runs : ℕ → CompetitionStatus → Option ℕ → CompetitionResult
runs i s t = record {
  entry_id = i;
  display_name = "";
  rank_overall = none;
  status = s;
  primary_time = t;
  secondary_time = none;
  points_scored = 0;
}

abbrev race : List CompetitionResult
race =
    runs 1 CompetitionStatus.dnf none
    ∷ runs 2 CompetitionStatus.finished (some 95)
    ∷ runs 3 CompetitionStatus.finished (some 90)
    ∷ runs 4 CompetitionStatus.finished (some 90)
    ∷ []

race-ranks :
    map {B = ℕ × Option ℕ}
      (λ r. (r.entry_id, r.rank_overall))
      (rank_results_by_strategy no_name_first RankingStrategy.time_asc race)
    ≡ (3, some 1) ∷ (4, some 1) ∷ (2, some 3) ∷ (1, none) ∷ []
unfolding rank_results_by_strategy sorted_results metric_before ranks_before assign_ranks rank_after
    shared_rank is_equal_metric sort_by insert_by is_official_valid_finisher
race-ranks = refl

race-Timely : All Timely race
unfolding no_time
race-Timely = (omega arith, (omega arith, (omega arith, (omega arith, tt))))

rank_results_by_strategy_lem_example :
    All
      (λ x. x.rank_overall ≡ (
        if is_valid x then some (suc (finishers_ahead RankingStrategy.time_asc race x)) else none))
      (rank_results_by_strategy no_name_first RankingStrategy.time_asc race)
    × ((i : ℕ)
        → count_where
            (λ r. r.entry_id == i)
            (rank_results_by_strategy no_name_first RankingStrategy.time_asc race)
          ≡ count_where (λ r. r.entry_id == i) race)
rank_results_by_strategy_lem_example =
    rank_results_by_strategy_lem no_name_first RankingStrategy.time_asc race refl race-Timely

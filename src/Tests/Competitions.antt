-- ===== src/Tests/Competitions.antt =====
-- Runs of the scoring and of the brackets.
use ivyticketing.Base.{
  ℕ, ◌+◌, ◌-◌, ◌≤◌, ◌<◌, ◌≡◌, refl, some, List, [], ◌∷◌, length, map, count_where, ◌==◌, arith,
}
use ivyticketing.Competitions.Scoring.{
  MatchScoreDetail, evaluate_badminton_match, calculate_peloton_grouping, group_from, match_outcome,
  count_games, Side,
}
use ivyticketing.Competitions.Fairness.{exchanged, evaluate_badminton_match-exchanged}
use ivyticketing.Competitions.Peloton.{Grouped, calculate_peloton_grouping-Grouped}
use ivyticketing.Competitions.Bracket.{
  bracket_seed_order, generate_single_elimination, seed_order, interleave,
}
use ivyticketing.Competitions.Seeding.{
  power, Paired, bracket_seed_order_once, bracket_seed_order-Paired,
}
use ivyticketing.Competitions.Byes.{byes, generate_single_elimination-byes}

abbrev sets : List MatchScoreDetail
sets =
    record { home_score = 21; away_score = 18 }
    ∷ record { home_score = 29; away_score = 30 }
    ∷ record { home_score = 23; away_score = 21 }
    ∷ []

home_wins : (evaluate_badminton_match sets).winner_entry ≡ some Side.home
unfolding evaluate_badminton_match match_outcome count_games
home_wins = refl

evaluate_badminton_match-exchanged_example :
    let there = evaluate_badminton_match sets in
    let back = evaluate_badminton_match (map exchanged sets) in
    (back.home_score ≡ there.away_score)
    × (back.away_score ≡ there.home_score)
    × (back.match_status ≡ there.match_status)
evaluate_badminton_match-exchanged_example = evaluate_badminton_match-exchanged sets (
  (omega arith, omega arith, omega arith),
  ((omega arith, omega arith, omega arith), ((omega arith, omega arith, omega arith), tt)),
)

abbrev finish : List ℕ
finish = 60900 ∷ 61500 ∷ 64000 ∷ []

two_bunches : calculate_peloton_grouping (60000 ∷ finish) 0 ≡ (60000 ∷ 60000 ∷ 60000 ∷ 64000 ∷ [])
unfolding calculate_peloton_grouping group_from
two_bunches = refl

calculate_peloton_grouping-Grouped_example :
    Grouped 1000 (60000 ∷ finish) (calculate_peloton_grouping (60000 ∷ finish) 0)
calculate_peloton_grouping-Grouped_example = calculate_peloton_grouping-Grouped 0 (60000 ∷ finish)

bracket_seed_order_once_example : count_where (λ v. v == 6) (bracket_seed_order (power 2)) ≡ 1
bracket_seed_order_once_example = bracket_seed_order_once 2 6 (omega arith) (omega arith)

bracket_seed_order-Paired_example : Paired (power 2) (bracket_seed_order (power 2))
bracket_seed_order-Paired_example = bracket_seed_order-Paired 2

eight_places : bracket_seed_order 8 ≡ (1 ∷ 8 ∷ 4 ∷ 5 ∷ 2 ∷ 7 ∷ 3 ∷ 6 ∷ [])
unfolding bracket_seed_order seed_order interleave
eight_places = refl

abbrev entries : List ℕ
entries = 101 ∷ 102 ∷ 103 ∷ 104 ∷ 105 ∷ []

generate_single_elimination-byes_example :
    (k : ℕ) × (length entries ≤ power k)
    × (power k < length entries + length entries)
    × (byes (generate_single_elimination entries) ≡ power k - length entries)
generate_single_elimination-byes_example = generate_single_elimination-byes entries (omega arith)

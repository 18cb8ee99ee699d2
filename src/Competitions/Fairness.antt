-- ===== src/Competitions/Fairness.antt =====
-- The scoring of badminton matches and of a peloton (modules/competitions/scoring.go).
use ivyticketing.Base.{ℕ, ◌+◌, ◌≤◌, ◌<◌, ◌≡◌, refl, true, false, List, [], ◌∷◌, map, arith, All}
use ivyticketing.Competitions.Scoring.{
  MatchScoreDetail, wins_game, count_games, match_outcome, evaluate_badminton_match,
}

-- A match with the sides exchanged.
abbrev pub exchanged : MatchScoreDetail → MatchScoreDetail
exchanged s = record { home_score = s.away_score; away_score = s.home_score }

-- A score that the cap of 30 points allows: no more than 30, and not 30 on both sides.
abbrev pub Capped : MatchScoreDetail → Type 0
Capped s = (s.home_score ≤ 30) × (s.away_score ≤ 30) × (s.home_score + s.away_score < 60)

not_both : (a b : ℕ) → a ≤ 30 → b ≤ 30 → a + b < 60 → wins_game a b ≡ true → wins_game b a ≡ false
not_both a b p q r h = ground arith

count_games-exchanged :
    (sets : List MatchScoreDetail) (h a : ℕ)
    → All Capped sets
    → count_games (map exchanged sets) a h ≡ ((count_games sets h a).1, (count_games sets h a).0)
unfolding count_games
count_games-exchanged [] h a c = refl
count_games-exchanged (s ∷ sets) h a c = ground (
  arith,
  not_both s.home_score s.away_score c.0.0 c.0.1 c.0.2,
  not_both s.away_score s.home_score c.0.1 c.0.0 (omega (arith, c.0.2)),
  count_games-exchanged sets (h + 1) a c.1,
  count_games-exchanged sets h (a + 1) c.1,
  count_games-exchanged sets h a c.1,
)

-- The evaluation of a badminton match is even-handed: where every score is one that the cap of 30 points
-- allows, exchanging the sides exchanges the games won and leaves the status of the match as it is.
pub evaluate_badminton_match-exchanged :
    (sets : List MatchScoreDetail)
    → All Capped sets
    → let there = evaluate_badminton_match sets in
      let back = evaluate_badminton_match (map exchanged sets) in
      (back.home_score ≡ there.away_score)
      × (back.away_score ≡ there.home_score)
      × (back.match_status ≡ there.match_status)
unfolding evaluate_badminton_match match_outcome
evaluate_badminton_match-exchanged sets c = ground (arith, count_games-exchanged sets 0 0 c)

-- Above the cap it is not: a game of 30 to 33 and one of 33 to 30 both go to the home side.
above_cap : (wins_game 30 33 ≡ true) × (wins_game 33 30 ≡ true)
above_cap = (refl, refl)

-- ===== src/Tests/RoundRobin.antt =====
-- A round robin of five entries.
use ivyticketing.Base.{ℕ, ◌≡◌, ◌≤◌, refl, List, [], ◌∷◌, Option, some, map, arith}
use ivyticketing.Competitions.Bracket.{FixtureDraft}
use ivyticketing.Competitions.RoundRobin.{
  team, scheduled_match, pair_match, round_matches, rotate, rounds_from, with_dummy,
  generate_round_robin,
}
use ivyticketing.Competitions.Pairings.{meetings}
use ivyticketing.Competitions.Schedule.{games, generate_round_robin_once}

abbrev club : List ℕ
club = 11 ∷ 12 ∷ 13 ∷ 14 ∷ 15 ∷ []

abbrev at_of : FixtureDraft → ℕ × Option ℕ × Option ℕ
at_of f = (f.round_number, f.home_entry_id, f.away_entry_id)

club-matches :
    map at_of (generate_round_robin club)
    ≡ (1, some 12, some 15)
      ∷ (1, some 13, some 14)
      ∷ (2, some 15, some 11)
      ∷ (2, some 13, some 12)
      ∷ (3, some 11, some 14)
      ∷ (3, some 15, some 13)
      ∷ (4, some 13, some 11)
      ∷ (4, some 12, some 14)
      ∷ (5, some 11, some 12)
      ∷ (5, some 14, some 15)
      ∷ []
unfolding generate_round_robin rounds_from with_dummy round_matches pair_match team rotate
    scheduled_match
club-matches = refl

generate_round_robin_once_example :
    (meetings 12 14 (generate_round_robin club) ≡ 1) × (games 12 3 (generate_round_robin club) ≤ 1)
generate_round_robin_once_example = generate_round_robin_once club 12 14 3 refl refl (omega arith)

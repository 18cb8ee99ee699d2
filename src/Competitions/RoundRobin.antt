-- ===== src/Competitions/RoundRobin.antt =====
-- `GenerateRoundRobin` (services/api/internal/modules/competitions/fixtures.go). Entries are numbers;
-- the team that stands for no opponent is `none`. An index of `teams` is always in range.
use ivyticketing.Base.{
  ℕ, zero, suc, ◌+◌, ◌-◌, ◌/◌, ◌%◌, false, Option, none, some, List, [], ◌∷◌, ◌++◌, length, map,
  take, drop, ◌==◌, ltb, if◌then◌else◌,
}
use ivyticketing.Competitions.Bracket.{FixtureDraft, FixtureStatus}

-- `teams[i]`.
unfoldable pub team : List (Option ℕ) → ℕ → Option ℕ
team [] i = none
team (t ∷ ts) zero = t
team (t ∷ ts) (suc i) = team ts i

unfoldable pub scheduled_match : ℕ → ℕ → Option ℕ → Option ℕ → FixtureDraft
scheduled_match round num home away = record {
  round_number = round;
  match_number = num;
  home_entry_id = home;
  away_entry_id = away;
  venue_court_name = "";
  source_home_match_number = 0;
  source_away_match_number = 0;
  is_bye = false;
  winner_id = none;
  match_status = FixtureStatus.scheduled;
}

-- One pass of the inner loop: no match against the dummy, and home and away change with the round.
unfoldable pub pair_match : ℕ → ℕ → Option ℕ → Option ℕ → List FixtureDraft
unfolding scheduled_match
pair_match round num none away = []
pair_match round num (some h) none = []
pair_match round num (some h) (some a) =
    if round % 2 == 1
    then scheduled_match round num (some h) (some a) ∷ []
    else scheduled_match round num (some a) (some h) ∷ []

-- The passes `i`, `i + 1`, ... of which `k` are left.
unfoldable pub round_matches : List (Option ℕ) → ℕ → ℕ → ℕ → ℕ → ℕ → List FixtureDraft
unfolding team pair_match
round_matches teams n round zero i num = []
round_matches teams n round (suc k) i num =
    let ms = pair_match round num (team teams i) (team teams (n - 1 - i)) in
    ms ++ round_matches teams n round k (suc i) (num + length ms)

-- The first team keeps its place, the last one becomes the second.
unfoldable pub rotate : List (Option ℕ) → ℕ → List (Option ℕ)
unfolding team
rotate teams n = team teams 0 ∷ team teams (n - 1) ∷ take (n - 2) (drop 1 teams)

-- The rounds from `round`, of which `k` are left.
unfoldable pub rounds_from : List (Option ℕ) → ℕ → ℕ → ℕ → ℕ → List FixtureDraft
unfolding round_matches rotate
rounds_from teams n zero round num = []
rounds_from teams n (suc k) round num =
    let ms = round_matches teams n round (n / 2) 0 num in
    ms ++ rounds_from (rotate teams n) n k (suc round) (num + length ms)

-- An odd number of teams gets a dummy.
unfoldable pub with_dummy : List ℕ → List (Option ℕ)
with_dummy entries =
    if length entries % 2 == 0 then map some entries else map some entries ++ (none ∷ [])

unfoldable pub generate_round_robin : List ℕ → List FixtureDraft
unfolding rounds_from with_dummy
generate_round_robin entries =
    if ltb (length entries) 2
    then []
    else (let n = length (with_dummy entries) in rounds_from (with_dummy entries) n (n - 1) 1 1)

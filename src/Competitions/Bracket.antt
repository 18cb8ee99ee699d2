-- ===== src/Competitions/Bracket.antt =====
-- `bracketSeedOrder` and `GenerateSingleElimination`
-- (services/api/internal/modules/competitions/fixtures.go). Entries are numbers.
use ivyticketing.Base.{
  ℕ, zero, suc, ◌+◌, ◌-◌, ◌*◌, ◌/◌, ◌^◌, String, Bool, true, false, Option, none, some, List, [],
  ◌∷◌, ◌++◌, length, get_elem?, ltb, leb, if◌then◌else◌,
}

pub data FixtureStatus : Type 0 where
  scheduled bye : FixtureStatus

pub record FixtureDraft : Type 0 where
  pub round_number : ℕ
  pub match_number : ℕ
  pub home_entry_id : Option ℕ
  pub away_entry_id : Option ℕ
  pub venue_court_name : String
  pub source_home_match_number : ℕ
  pub source_away_match_number : ℕ
  pub is_bye : Bool
  pub winner_id : Option ℕ
  pub match_status : FixtureStatus

-- `res[2*i] = v` and `res[2*i+1] = p + 1 - v`.
unfoldable pub interleave : ℕ → List ℕ → List ℕ
interleave p [] = []
interleave p (v ∷ vs) = v ∷ (p + 1 - v) ∷ interleave p vs

-- Each call halves `p`, so the fuel `p` is enough.
unfoldable pub seed_order : ℕ → ℕ → List ℕ
seed_order zero p = 1 ∷ 2 ∷ []
seed_order (suc fuel) p =
    let prev = seed_order fuel (p / 2) in if leb p 2 then 1 ∷ 2 ∷ [] else interleave p prev

unfoldable pub bracket_seed_order : ℕ → List ℕ
bracket_seed_order p = seed_order p p

-- `for powerOf2 < n { powerOf2 *= 2 }`; the fuel `n` is enough.
unfoldable pub double_until : ℕ → ℕ → ℕ → ℕ
double_until zero p n = p
double_until (suc fuel) p n = let rest = double_until fuel (p * 2) n in if ltb p n then rest else p

-- `for temp := powerOf2; temp > 1; temp /= 2 { totalRounds++ }`.
unfoldable pub rounds_of : ℕ → ℕ → ℕ
rounds_of zero temp = 0
rounds_of (suc fuel) temp =
    let rest = rounds_of fuel (temp / 2) in if ltb 1 temp then suc rest else 0

-- `seedMap`: the seeds are the places, from 1.
unfoldable pub seed_map : List ℕ → ℕ → Option ℕ
seed_map entries zero = none
seed_map entries (suc s) = get_elem? entries s

abbrev pub is_none {ℓ} : {A : Type ℓ} → Option A → Bool
is_none none = true
is_none (some _) = false

-- A match of the first round. With a home entry and no away entry it is a bye.
unfoldable pub first_round_match : ℕ → Option ℕ → Option ℕ → FixtureDraft
first_round_match m (some home) none = record {
  round_number = 1;
  match_number = m;
  home_entry_id = some home;
  away_entry_id = none;
  venue_court_name = "";
  source_home_match_number = 0;
  source_away_match_number = 0;
  is_bye = true;
  winner_id = some home;
  match_status = FixtureStatus.bye;
}
first_round_match m home away = record {
  round_number = 1;
  match_number = m;
  home_entry_id = home;
  away_entry_id = away;
  venue_court_name = "";
  source_home_match_number = 0;
  source_away_match_number = 0;
  is_bye = false;
  winner_id = none;
  match_status = FixtureStatus.scheduled;
}

unfoldable pub first_round : List ℕ → ℕ → List ℕ → List FixtureDraft
first_round entries m (home ∷ away ∷ order) =
    first_round_match m (seed_map entries home) (seed_map entries away)
    ∷ first_round entries (m + 1) order
first_round entries m _ = []

-- `roundWinners[r][m]`: only the first round writes it.
unfoldable pub round_winner : List FixtureDraft → ℕ → ℕ → Option ℕ
round_winner drafts (suc zero) (suc m) = elim (get_elem? drafts m) [
  | none ↦ none
  | some f ↦ f.winner_id
]
round_winner drafts r m = none

-- The matches `m`, `m + 1`, … of the round `r`; `count` of them are left.
unfoldable pub later_round : List FixtureDraft → ℕ → ℕ → ℕ → List FixtureDraft
later_round drafts r zero m = []
later_round drafts r (suc count) m =
    record {
      round_number = r;
      match_number = m;
      home_entry_id = round_winner drafts (r - 1) (2 * m - 1);
      away_entry_id = round_winner drafts (r - 1) (2 * m);
      venue_court_name = "";
      source_home_match_number = 2 * m - 1;
      source_away_match_number = 2 * m;
      is_bye = false;
      winner_id = none;
      match_status = FixtureStatus.scheduled;
    }
    ∷ later_round drafts r count (m + 1)

-- The rounds `r`, `r + 1`, … ; `count` of them are left.
unfoldable pub later_rounds : List FixtureDraft → ℕ → ℕ → ℕ → List FixtureDraft
later_rounds drafts p zero r = []
later_rounds drafts p (suc count) r =
    later_round drafts r (p / 2 ^ r) 1 ++ later_rounds drafts p count (r + 1)

unfoldable pub bracket_of : List ℕ → ℕ → List FixtureDraft
bracket_of entries p =
    let drafts = first_round entries 1 (bracket_seed_order p) in
    drafts ++ later_rounds drafts p (rounds_of p p - 1) 2

unfoldable pub generate_single_elimination : List ℕ → List FixtureDraft
generate_single_elimination entries =
    if ltb (length entries) 2
    then []
    else bracket_of entries (double_until (length entries) 2 (length entries))

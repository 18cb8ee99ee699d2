-- ===== src/Competitions/Standings.antt =====
-- The standings of a league (modules/competitions/scoring.go): `CalculateFootballStandings` and
-- `CalculatePointsStandings`. The parameter `name_before` is the comparison of two display names in
-- lower case. `statsMap` is a list of rows with one for each identifier; Go reads a map in any order
-- and `sort.Slice` keeps none, and the model sorts the rows in the order of the entries, stably.
use ivyticketing.Base.{
  ℕ, suc, ◌+◌, Bool, true, false, not, ◌&&◌, ◌||◌, Option, none, some, List, [], ◌∷◌, ◌==◌, ◌!=◌,
  ltb, is_some, find, update_where, if◌then◌else◌, String,
}
use ivyticketing.Base.Int.{ℤ, sub_ℕ, ltb_ℤ}
use ivyticketing.Base.Sort.{sort_by}
use ivyticketing.Competitions.Scoring.{MatchScoreDetail}

-- A match, of which the standings read these fields; `is_completed` is the status COMPLETED.
pub record MatchView : Type 0 where
  pub home_entry : Option ℕ
  pub away_entry : Option ℕ
  pub home_score : ℕ
  pub away_score : ℕ
  pub is_completed : Bool
  pub score_details : List MatchScoreDetail

pub record EntryView : Type 0 where
  pub id : ℕ
  pub display_name : String
  pub identifier_code : String
  pub status : String

pub record StandingsRow : Type 0 where
  pub rank : ℕ
  pub entry_id : ℕ
  pub display_name : String
  pub identifier_code : String
  pub status : String
  pub played : ℕ
  pub wins : ℕ
  pub draws : ℕ
  pub losses : ℕ
  pub goals_for : ℕ
  pub goals_against : ℕ
  pub points : ℕ

unfoldable pub new_row : EntryView → StandingsRow
new_row e = record {
  rank = 0;
  entry_id = e.id;
  display_name = e.display_name;
  identifier_code = e.identifier_code;
  status = e.status;
  played = 0;
  wins = 0;
  draws = 0;
  losses = 0;
  goals_for = 0;
  goals_against = 0;
  points = 0;
}

unfoldable pub has_row : ℕ → List StandingsRow → Bool
has_row id rows = is_some (find (λ r. r.entry_id == id) rows)

-- `statsMap[id] = row`: the row of a second entry with an identifier takes the place of the first.
unfoldable pub put_row : StandingsRow → List StandingsRow → List StandingsRow
unfolding has_row
put_row r rows =
    if has_row r.entry_id rows
    then update_where (λ q. q.entry_id == r.entry_id) (λ q. r) rows
    else r ∷ rows

unfoldable pub start_rows : List EntryView → List StandingsRow
unfolding put_row new_row
start_rows [] = []
start_rows (e ∷ es) = put_row (new_row e) (start_rows es)

-- Points of one entry against another.
pub record HeadToHead : Type 0 where
  pub entry : ℕ
  pub opponent : ℕ
  pub gained : ℕ

unfoldable pub gained_against : ℕ → ℕ → List HeadToHead → ℕ
gained_against a b [] = 0
gained_against a b (h ∷ hs) =
    (if (h.entry == a) && (h.opponent == b) then h.gained else 0) + gained_against a b hs

-- What a match is worth in the table and between the two sides, and whether goals are counted.
pub record Rules : Type 0 where
  pub win_points : ℕ
  pub draw_points : ℕ
  pub duel_win : ℕ
  pub duel_draw : ℕ
  pub counts_goals : Bool

-- What a side takes from a match with `f` goals for it and `a` against it.
unfoldable pub played_row : Rules → ℕ → ℕ → StandingsRow → StandingsRow
played_row k f a r = record r {
  played = r.played + 1;
  goals_for = r.goals_for + (if k.counts_goals then f else 0);
  goals_against = r.goals_against + (if k.counts_goals then a else 0);
  wins = r.wins + (if ltb a f then 1 else 0);
  draws = r.draws + (if f == a then 1 else 0);
  losses = r.losses + (if ltb f a then 1 else 0);
  points = r.points + (if ltb a f then k.win_points else if f == a then k.draw_points else 0);
}

unfoldable pub add_match : Rules → ℕ → ℕ → ℕ → ℕ → List StandingsRow → List StandingsRow
unfolding played_row
add_match k h a hs as_score rows =
    update_where (λ r. r.entry_id == a) (played_row k as_score hs)
      (update_where (λ r. r.entry_id == h) (played_row k hs as_score) rows)

-- The points of a match between its two sides.
unfoldable pub head_to_head : Rules → ℕ → ℕ → ℕ → ℕ → List HeadToHead → List HeadToHead
head_to_head k h a hs as_score seen =
    if ltb as_score hs
    then record { entry = h; opponent = a; gained = k.duel_win } ∷ seen
    else if ltb hs as_score
    then record { entry = a; opponent = h; gained = k.duel_win } ∷ seen
    else record { entry = h; opponent = a; gained = k.duel_draw }
      ∷ record { entry = a; opponent = h; gained = k.duel_draw }
      ∷ seen

pub record League : Type 0 where
  pub rows : List StandingsRow
  pub seen : List HeadToHead

-- A completed match between two entries of the table counts.
unfoldable pub count_sides : Rules → MatchView → Option ℕ → Option ℕ → League → League
unfolding add_match head_to_head has_row
count_sides k m none away l = l
count_sides k m (some h) none l = l
count_sides k m (some h) (some a) l =
    if has_row h l.rows && has_row a l.rows
    then record {
      rows = add_match k h a m.home_score m.away_score l.rows;
      seen = head_to_head k h a m.home_score m.away_score l.seen;
    }
    else l

unfoldable pub count_match : Rules → MatchView → League → League
unfolding count_sides
count_match k m l = if m.is_completed then count_sides k m m.home_entry m.away_entry l else l

unfoldable pub count_matches : Rules → List MatchView → League → League
count_matches k [] l = l
count_matches k (m ∷ ms) l = count_matches k ms (count_match k m l)

unfoldable pub start_league : List EntryView → League
unfolding start_rows
start_league es = record { rows = start_rows es; seen = [] }

-- `GoalDifference`.
unfoldable pub goal_difference : StandingsRow → ℤ
goal_difference r = sub_ℕ r.goals_for r.goals_against

-- `rows[idx].Rank = idx + 1`.
unfoldable pub rank_from : ℕ → List StandingsRow → List StandingsRow
rank_from n [] = []
rank_from n (r ∷ rows) = record r { rank = n } ∷ rank_from (suc n) rows

-- "`i` is less than `j`" of the football table, negated and turned round for the sort: `i` may stand
-- before `j`.
unfoldable pub football_before :
    (String → String → Bool) → List HeadToHead → StandingsRow → StandingsRow → Bool
football_before name_before seen i j =
    if i.points != j.points
    then ltb j.points i.points
    else if ltb_ℤ (goal_difference j) (goal_difference i)
        || ltb_ℤ (goal_difference i) (goal_difference j)
    then ltb_ℤ (goal_difference j) (goal_difference i)
    else if i.goals_for != j.goals_for
    then ltb j.goals_for i.goals_for
    else if gained_against i.entry_id j.entry_id seen != gained_against j.entry_id i.entry_id seen
    then ltb (gained_against j.entry_id i.entry_id seen) (gained_against i.entry_id j.entry_id seen)
    else name_before i.display_name j.display_name

-- `sort.Slice` by "less": `i` goes before `j` where `j` is not less than `i`.
unfoldable pub sort_rows :
    (StandingsRow → StandingsRow → Bool) → List StandingsRow → List StandingsRow
sort_rows less = sort_by (λ i j. not (less j i))

unfoldable pub points_before :
    (String → String → Bool) → List HeadToHead → StandingsRow → StandingsRow → Bool
points_before name_before seen i j =
    if i.points != j.points
    then ltb j.points i.points
    else if i.wins != j.wins
    then ltb j.wins i.wins
    else if gained_against i.entry_id j.entry_id seen != gained_against j.entry_id i.entry_id seen
    then ltb (gained_against j.entry_id i.entry_id seen) (gained_against i.entry_id j.entry_id seen)
    else name_before i.display_name j.display_name

-- A win is 3 points in football, and any number in the general table, which counts no goals and of
-- the head-to-head the wins.
abbrev pub football_rules : Rules
football_rules = record {
  win_points = 3;
  draw_points = 1;
  duel_win = 3;
  duel_draw = 1;
  counts_goals = true;
}

abbrev pub points_rules : ℕ → ℕ → Rules
points_rules win_points draw_points = record {
  win_points = win_points;
  draw_points = draw_points;
  duel_win = 1;
  duel_draw = 0;
  counts_goals = false;
}

-- `CalculateFootballStandings`.
unfoldable pub calculate_football_standings :
    (String → String → Bool) → List MatchView → List EntryView → List StandingsRow
calculate_football_standings name_before matches entries =
    let l = count_matches football_rules matches (start_league entries) in
    rank_from 1 (sort_rows (football_before name_before l.seen) l.rows)

-- `CalculatePointsStandings`.
unfoldable pub calculate_points_standings :
    (String → String → Bool) → ℕ → ℕ → List MatchView → List EntryView → List StandingsRow
calculate_points_standings name_before win_points draw_points matches entries =
    let l = count_matches (points_rules win_points draw_points) matches (start_league entries) in
    rank_from 1 (sort_rows (points_before name_before l.seen) l.rows)

-- ===== src/Competitions/League.antt =====
-- The tables of football and of the general league, whole.
use ivyticketing.Base.{
  ℕ, suc, ◌+◌, ◌≡◌, refl, sym, ◌∙◌, Bool, true, false, not, List, [], ◌∷◌, ◌==◌, arith, leb, All,
  count_where, String,
}
use ivyticketing.Base.Sort.{
  All-weaken, All-sort_by, Sorted, sort_by, sort_by-Sorted, insert_by, count_where-sort_by,
}
use ivyticketing.Competitions.Standings.{
  MatchView, EntryView, StandingsRow, Rules, count_matches, start_league, rank_from, football_rules,
  points_rules, football_before, points_before, sort_rows, calculate_football_standings,
  calculate_points_standings,
}
use ivyticketing.Competitions.Tables.{total, Adds, Balanced, Fine, count_matches-Fine}
use ivyticketing.Competitions.Entries.{start_rows-Once, start_rows-Fine, count_matches-count}

-- What the last two steps, the sort and the ranks, keep.
total-insert_by :
    (less : StandingsRow → StandingsRow → Bool) (g : StandingsRow → ℕ) (r : StandingsRow)
    (rows : List StandingsRow)
    → total g (insert_by less r rows) ≡ g r + total g rows
unfolding total insert_by
total-insert_by less g r [] = refl
total-insert_by less g r (q ∷ rows) = ground (arith, total-insert_by less g r rows)

total-sort_by :
    (le : StandingsRow → StandingsRow → Bool) (g : StandingsRow → ℕ) (rows : List StandingsRow)
    → total g (sort_by le rows) ≡ total g rows
unfolding total sort_by
total-sort_by le g [] = refl
total-sort_by le g (r ∷ rows) =
    omega (arith, total-insert_by le g r (sort_by le rows), total-sort_by le g rows)

total-rank_from :
    (g : StandingsRow → ℕ) (n : ℕ) (rows : List StandingsRow)
    → ((r : StandingsRow) (m : ℕ) → g (record r { rank = m }) ≡ g r)
    → total g (rank_from n rows) ≡ total g rows
unfolding total rank_from
total-rank_from g n [] e = refl
total-rank_from g n (r ∷ rows) e = omega (arith, e r n, total-rank_from g (suc n) rows e)

All-rank_from :
    (P : StandingsRow → Type 0) (n : ℕ) (rows : List StandingsRow)
    → ((r : StandingsRow) (m : ℕ) → P r → P (record r { rank = m }))
    → All P rows
    → All P (rank_from n rows)
unfolding rank_from
All-rank_from P n [] e a = tt
All-rank_from P n (r ∷ rows) e a = (e r n a.0, All-rank_from P (suc n) rows e a.1)

abbrev pub fewer_points : StandingsRow → StandingsRow → Bool
fewer_points i j = leb j.points i.points

Sorted-rank_from :
    (n : ℕ) (rows : List StandingsRow)
    → Sorted fewer_points rows
    → Sorted fewer_points (rank_from n rows)
unfolding rank_from
Sorted-rank_from n [] s = tt
Sorted-rank_from n (r ∷ rows) s = (
  All-rank_from (λ q. leb q.points r.points ≡ true) (suc n) rows (λ q m h. h) s.0,
  Sorted-rank_from (suc n) rows s.1,
)

-- Ranks that count up.
abbrev pub Ranked : ℕ → List StandingsRow → Type 0
Ranked n [] = Unit
Ranked n (r ∷ rows) = (r.rank ≡ n) × Ranked (suc n) rows

rank_from-Ranked : (n : ℕ) (rows : List StandingsRow) → Ranked n (rank_from n rows)
unfolding rank_from
rank_from-Ranked n [] = tt
rank_from-Ranked n (r ∷ rows) = (refl, rank_from-Ranked (suc n) rows)

count-rank_from :
    (i n : ℕ) (rows : List StandingsRow)
    → count_where (λ r. r.entry_id == i) (rank_from n rows)
      ≡ count_where (λ r. r.entry_id == i) rows
unfolding rank_from
count-rank_from i n [] = refl
count-rank_from i n (r ∷ rows) = omega (arith, count-rank_from i (suc n) rows)

-- A table of a league: one row for each entry, rows that add up and balance, points that do not grow
-- downwards, and ranks from one.
pub record LeagueTable (k : Rules) (es : List EntryView) (rows : List StandingsRow) : Type 0 where
  pub one_each : All (λ e. count_where (λ r. r.entry_id == e.id) rows ≡ 1) es
  pub balanced : Balanced k rows
  pub by_points : Sorted fewer_points rows
  pub ranked : Ranked 1 rows

module _ (less : StandingsRow → StandingsRow → Bool)
    (more : (i j : StandingsRow) → less j i ≡ false → leb j.points i.points ≡ true)
    (worse : (i j : StandingsRow) → less j i ≡ true → leb i.points j.points ≡ true) where
  sort_rows-Sorted : (rows : List StandingsRow) → Sorted fewer_points (sort_rows less rows)
  unfolding sort_rows
  sort_rows-Sorted =
      sort_by-Sorted (λ i j. not (less j i)) fewer_points (λ i j h. more i j (ground (arith, h)))
        (λ i j h. worse i j (ground (arith, h))) (λ i j l h q. ground (arith, h, q))

  same_total :
      (g : StandingsRow → ℕ) (rows : List StandingsRow)
      → ((r : StandingsRow) (m : ℕ) → g (record r { rank = m }) ≡ g r)
      → total g (rank_from 1 (sort_rows less rows)) ≡ total g rows
  unfolding sort_rows
  same_total g rows e =
      total-rank_from g 1 (sort_rows less rows) e ∙ total-sort_by (λ i j. not (less j i)) g rows

  ranked-LeagueTable :
      (k : Rules) (es : List EntryView) (rows : List StandingsRow)
      → All (λ e. count_where (λ r. r.entry_id == e.id) rows ≡ 1) es
      → Fine k rows
      → LeagueTable k es (rank_from 1 (sort_rows less rows))
  unfolding sort_rows
  ranked-LeagueTable k es rows each f = record {
    one_each =
        All-weaken es
          (λ e c. omega (
            arith,
            c,
            count-rank_from e.id 1 (sort_rows less rows),
            count_where-sort_by (λ i j. not (less j i)) (λ r. r.entry_id == e.id) rows,
          ))
          each;
    balanced = record {
      rows_add =
          All-rank_from (Adds k) 1 (sort_rows less rows) (λ r m h. h)
            (All-sort_by (λ i j. not (less j i)) (Adds k) rows f.1.rows_add);
      wins_losses =
          same_total (λ r. r.wins) rows (λ r m. refl)
          ∙ f.1.wins_losses
          ∙ sym (same_total (λ r. r.losses) rows (λ r m. refl));
      goals =
          same_total (λ r. r.goals_for) rows (λ r m. refl)
          ∙ f.1.goals
          ∙ sym (same_total (λ r. r.goals_against) rows (λ r m. refl));
    };
    by_points = Sorted-rank_from 1 (sort_rows less rows) (sort_rows-Sorted rows);
    ranked = rank_from-Ranked 1 (sort_rows less rows);
  }

league-LeagueTable :
    (less : StandingsRow → StandingsRow → Bool) (k : Rules) (ms : List MatchView)
    (es : List EntryView)
    → ((i j : StandingsRow) → less j i ≡ false → leb j.points i.points ≡ true)
    → ((i j : StandingsRow) → less j i ≡ true → leb i.points j.points ≡ true)
    → LeagueTable k es (rank_from 1 (sort_rows less (count_matches k ms (start_league es)).rows))
unfolding start_league
league-LeagueTable less k ms es more worse =
    ranked-LeagueTable less more worse k es (count_matches k ms (start_league es)).rows
      (All-weaken es (λ e c. omega (arith, c, count_matches-count k e.id ms (start_league es)))
        (start_rows-Once es).1)
      (count_matches-Fine k ms (start_league es) (start_rows-Fine k es))

-- The tables of football and of the general league: each entry has one row; in each row the matches
-- played are those won, drawn and lost, and the points are those of the wins and draws; over the
-- table the wins are as many as the losses and the goals for as many as the goals against; the
-- points do not grow downwards; and the ranks count up from one. This holds for any comparison of
-- names, and where the head-to-head results run in a circle.
pub calculate_standings-LeagueTable :
    (name_before : String → String → Bool) (win_points draw_points : ℕ) (ms : List MatchView)
    (es : List EntryView)
    → LeagueTable football_rules es (calculate_football_standings name_before ms es)
      × LeagueTable
          (points_rules win_points draw_points)
          es
          (calculate_points_standings name_before win_points draw_points ms es)
unfolding calculate_football_standings calculate_points_standings football_before points_before
calculate_standings-LeagueTable name_before win_points draw_points ms es = (
  league-LeagueTable
      (football_before name_before (count_matches football_rules ms (start_league es)).seen)
      football_rules ms es (λ i j h. ground (arith, h)) (λ i j h. ground (arith, h)),
  league-LeagueTable
      (points_before name_before
        (count_matches (points_rules win_points draw_points) ms (start_league es)).seen)
      (points_rules win_points draw_points) ms es (λ i j h. ground (arith, h))
      (λ i j h. ground (arith, h)),
)

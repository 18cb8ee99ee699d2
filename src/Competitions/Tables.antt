-- ===== src/Competitions/Tables.antt =====
-- What every table of a league has: it balances, its ranks count up from one, and its points do not
-- grow downwards.
use ivyticketing.Base.{
  ℕ, ◌+◌, ◌*◌, ◌≤◌, ◌≡◌, refl, ◌∙◌, Bool, true, Option, none, some, List, [], ◌∷◌, ◌==◌, arith, ltb,
  All, count_where, update_where, if◌then◌else◌, Bool-cases, inl, inr,
}
use ivyticketing.Competitions.Standings.{
  MatchView, StandingsRow, League, Rules, has_row, played_row, add_match, count_sides, count_match,
  count_matches,
}

unfoldable pub total : (StandingsRow → ℕ) → List StandingsRow → ℕ
total f [] = 0
total f (r ∷ rows) = f r + total f rows

-- One row of a table, by itself.
abbrev pub Adds : Rules → StandingsRow → Type 0
Adds k r =
    (r.played ≡ r.wins + r.draws + r.losses)
    × (r.points ≡ r.wins * k.win_points + r.draws * k.draw_points)

-- The rows of a table, one with another.
pub record Balanced (k : Rules) (rows : List StandingsRow) : Type 0 where
  pub rows_add : All (Adds k) rows
  pub wins_losses : total (λ r. r.wins) rows ≡ total (λ r. r.losses) rows
  pub goals : total (λ r. r.goals_for) rows ≡ total (λ r. r.goals_against) rows

abbrev pub Once : List StandingsRow → Type 0
Once rows = (id : ℕ) → count_where (λ r. r.entry_id == id) rows ≤ 1

played_row-Adds : (k : Rules) (f a : ℕ) (r : StandingsRow) → Adds k r → Adds k (played_row k f a r)
unfolding played_row
played_row-Adds k f a r h = (ground (arith, h), grind (arith, h))

-- The total over a table in which the rows of one entry have been changed.
total-absent :
    (g : StandingsRow → ℕ) (h : StandingsRow → StandingsRow) (id : ℕ) (rows : List StandingsRow)
    → count_where (λ r. r.entry_id == id) rows ≡ 0
    → total g (update_where (λ r. r.entry_id == id) h rows) ≡ total g rows
unfolding total
total-absent g h id [] c = refl
total-absent g h id (r ∷ rows) c = ground (arith, total-absent g h id rows)

total-update :
    (g : StandingsRow → ℕ) (h : StandingsRow → StandingsRow) (d id : ℕ) (rows : List StandingsRow)
    → ((r : StandingsRow) → g (h r) ≡ g r + d)
    → count_where (λ r. r.entry_id == id) rows ≡ 1
    → total g (update_where (λ r. r.entry_id == id) h rows) ≡ total g rows + d
unfolding total
total-update g h d id [] e c = absurd (omega arith)
total-update g h d id (r ∷ rows) e c =
    ground (arith, e r, total-absent g h id rows, total-update g h d id rows e)

count-update :
    (h : StandingsRow → StandingsRow) (id i : ℕ) (rows : List StandingsRow)
    → ((r : StandingsRow) → (h r).entry_id ≡ r.entry_id)
    → count_where (λ r. r.entry_id == i) (update_where (λ r. r.entry_id == id) h rows)
      ≡ count_where (λ r. r.entry_id == i) rows
count-update h id i [] e = refl
count-update h id i (r ∷ rows) e = ground (arith, e r, count-update h id i rows e)

pub count-has_row :
    (id : ℕ) (rows : List StandingsRow)
    → has_row id rows ≡ true
    → 1 ≤ count_where (λ r. r.entry_id == id) rows
unfolding has_row
count-has_row id [] e = cc
count-has_row id (r ∷ rows) e = ground (arith, count-has_row id rows)

pub All-update :
    (P : StandingsRow → Type 0) (p : StandingsRow → Bool) (h : StandingsRow → StandingsRow)
    (rows : List StandingsRow)
    → ((r : StandingsRow) → P r → P (h r))
    → All P rows
    → All P (update_where p h rows)
All-update P p h [] k a = tt
All-update P p h (r ∷ rows) k a = elim (Bool-cases (p r)) [
  | inl e ↦ rw e (k r a.0, All-update P p h rows k a.1)
  | inr e ↦ rw e (a.0, All-update P p h rows k a.1)
]

-- One match between two entries of a table.
module _ (k : Rules) (h a hs as_score : ℕ) (rows : List StandingsRow) where
  pub count-add_match :
      (i : ℕ)
      → count_where (λ r. r.entry_id == i) (add_match k h a hs as_score rows)
        ≡ count_where (λ r. r.entry_id == i) rows
  unfolding add_match played_row
  count-add_match i =
      count-update (played_row k as_score hs) a i
        (update_where (λ r. r.entry_id == h) (played_row k hs as_score) rows) (λ r. refl)
      ∙ count-update (played_row k hs as_score) h i rows (λ r. refl)

  module _ (once : Once rows) (eh : has_row h rows ≡ true) (ea : has_row a rows ≡ true) where
    total-add_match :
        (g : StandingsRow → ℕ) (dh da : ℕ)
        → ((r : StandingsRow) → g (played_row k hs as_score r) ≡ g r + dh)
        → ((r : StandingsRow) → g (played_row k as_score hs r) ≡ g r + da)
        → total g (add_match k h a hs as_score rows) ≡ total g rows + dh + da
    unfolding add_match played_row
    total-add_match g dh da p q = omega (
      arith,
      total-update g (played_row k as_score hs) da a
          (update_where (λ r. r.entry_id == h) (played_row k hs as_score) rows) q
          (omega (
            arith,
            once a,
            count-has_row a rows ea,
            count-update (played_row k hs as_score) h a rows (λ r. refl),
          )),
      total-update g (played_row k hs as_score) dh h rows p
          (omega (arith, once h, count-has_row h rows eh)),
    )

    add_match-Balanced : Balanced k rows → Balanced k (add_match k h a hs as_score rows)
    unfolding add_match played_row
    add_match-Balanced b = record {
      rows_add =
          All-update (Adds k) (λ r. r.entry_id == a) (played_row k as_score hs)
            (update_where (λ r. r.entry_id == h) (played_row k hs as_score) rows)
            (played_row-Adds k as_score hs)
            (All-update (Adds k) (λ r. r.entry_id == h) (played_row k hs as_score) rows
              (played_row-Adds k hs as_score) b.rows_add);
      wins_losses = omega (
        arith,
        b.wins_losses,
        total-add_match (λ r. r.wins) (if ltb as_score hs then 1 else 0)
            (if ltb hs as_score then 1 else 0) (λ r. refl) (λ r. refl),
        total-add_match (λ r. r.losses) (if ltb hs as_score then 1 else 0)
            (if ltb as_score hs then 1 else 0) (λ r. refl) (λ r. refl),
      );
      goals = omega (
        arith,
        b.goals,
        total-add_match (λ r. r.goals_for) (if k.counts_goals then hs else 0)
            (if k.counts_goals then as_score else 0) (λ r. refl) (λ r. refl),
        total-add_match (λ r. r.goals_against) (if k.counts_goals then as_score else 0)
            (if k.counts_goals then hs else 0) (λ r. refl) (λ r. refl),
      );
    }

abbrev pub Fine : Rules → List StandingsRow → Type 0
Fine k rows = Once rows × Balanced k rows

count_sides-Fine :
    (k : Rules) (m : MatchView) (h a : Option ℕ) (l : League)
    → Fine k l.rows
    → Fine k (count_sides k m h a l).rows
unfolding count_sides
count_sides-Fine k m none a l f = f
count_sides-Fine k m (some h) none l f = f
count_sides-Fine k m (some h) (some a) l f = elim (Bool-cases (has_row h l.rows)) [
  | inr e ↦ rw (e, count_sides) f
  | inl e ↦ elim (Bool-cases (has_row a l.rows)) [
    | inr e' ↦ rw (e, count_sides) (rw e' f)
    | inl e' ↦
        rw (e, count_sides)
          (rw e' (
            λ i. omega (arith, f.0 i, count-add_match k h a m.home_score m.away_score l.rows i),
            add_match-Balanced k h a m.home_score m.away_score l.rows f.0 e e' f.1,
          ))
  ]
]

pub count_matches-Fine :
    (k : Rules) (ms : List MatchView) (l : League)
    → Fine k l.rows
    → Fine k (count_matches k ms l).rows
unfolding count_matches count_match
count_matches-Fine k [] l f = f
count_matches-Fine k (m ∷ ms) l f = elim (Bool-cases m.is_completed) [
  | inl e ↦ rw e (
      count_matches-Fine k ms (count_sides k m m.home_entry m.away_entry l)
        (count_sides-Fine k m m.home_entry m.away_entry l f))
  | inr e ↦ rw e (count_matches-Fine k ms l f)
]

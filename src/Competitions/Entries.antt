-- ===== src/Competitions/Entries.antt =====
-- The rows of a league before its matches, one for each entry, and how many there are after them
-- (modules/competitions/scoring.go).
use ivyticketing.Base.{
  ℕ, ◌≤◌, ◌≡◌, refl, sym, ◌∙◌, false, Option, none, some, List, [], ◌∷◌, ◌==◌, arith, All,
  count_where, update_where, Bool-cases, inl, inr,
}
use ivyticketing.Base.Sort.{All-weaken}
use ivyticketing.Competitions.Standings.{
  MatchView, EntryView, StandingsRow, League, Rules, new_row, has_row, put_row, start_rows,
  count_sides, count_match, count_matches,
}
use ivyticketing.Competitions.Tables.{total, Once, Fine, All-update, count-has_row, count-add_match}

-- A row before any match.
abbrev Unplayed : StandingsRow → Type 0
Unplayed r =
    (r.played ≡ 0)
    × (r.wins ≡ 0)
    × (r.draws ≡ 0)
    × (r.losses ≡ 0)
    × (r.goals_for ≡ 0)
    × (r.goals_against ≡ 0)
    × (r.points ≡ 0)

start_rows-Unplayed : (es : List EntryView) → All Unplayed (start_rows es)
unfolding start_rows put_row new_row
start_rows-Unplayed [] = tt
start_rows-Unplayed (e ∷ es) = elim (Bool-cases (has_row e.id (start_rows es))) [
  | inl h ↦ rw h (
      All-update Unplayed (λ q. q.entry_id == e.id) (λ q. new_row e) (start_rows es)
        (λ r u. (refl, refl, refl, refl, refl, refl, refl)) (start_rows-Unplayed es))
  | inr h ↦ rw h ((refl, refl, refl, refl, refl, refl, refl), start_rows-Unplayed es)
]

count-replaced :
    (e : EntryView) (i : ℕ) (rows : List StandingsRow)
    → count_where
        (λ r. r.entry_id == i)
        (update_where (λ q. q.entry_id == e.id) (λ q. new_row e) rows)
      ≡ count_where (λ r. r.entry_id == i) rows
unfolding new_row
count-replaced e i [] = refl
count-replaced e i (r ∷ rows) = ground (arith, count-replaced e i rows)

count-absent :
    (id : ℕ) (rows : List StandingsRow)
    → has_row id rows ≡ false
    → count_where (λ r. r.entry_id == id) rows ≡ 0
unfolding has_row
count-absent id [] e = refl
count-absent id (r ∷ rows) e = ground (arith, count-absent id rows)

-- Putting the row of an entry into a table with one row at most for each identifier.
count-put_row :
    (e : EntryView) (i : ℕ) (rows : List StandingsRow)
    → count_where (λ r. r.entry_id == i) rows ≤ 1
    → (count_where (λ r. r.entry_id == i) (put_row (new_row e) rows) ≤ 1)
      × (count_where (λ r. r.entry_id == i) rows
          ≤ count_where (λ r. r.entry_id == i) (put_row (new_row e) rows))
      × (e.id ≡ i → count_where (λ r. r.entry_id == i) (put_row (new_row e) rows) ≡ 1)
unfolding put_row new_row
count-put_row e i rows once = elim (Bool-cases (has_row e.id rows)) [
  | inl h ↦ rw h (
    omega (arith, once, count-replaced e i rows),
    omega (arith, once, count-replaced e i rows),
    λ (q : e.id ≡ i). ground (arith, once, q, count-replaced e i rows, count-has_row e.id rows h),
  )
  | inr h ↦ rw h (
    ground (arith, once, count-absent e.id rows h),
    ground (arith, once, count-absent e.id rows h),
    λ (q : e.id ≡ i). ground (arith, once, q, count-absent e.id rows h),
  )
]

-- The rows of the entries: each has one.
pub start_rows-Once :
    (es : List EntryView)
    → Once (start_rows es) × All (λ e. count_where (λ r. r.entry_id == e.id) (start_rows es) ≡ 1) es
unfolding start_rows
start_rows-Once [] = (λ i. omega arith, tt)
start_rows-Once (e ∷ es) =
    let (once, each) = start_rows-Once es in
    (
      λ i. (count-put_row e i (start_rows es) (once i)).0,
      (
        (count-put_row e e.id (start_rows es) (once e.id)).2 refl,
        All-weaken es
            (λ f c.
              let (few, more, own) = count-put_row e f.id (start_rows es) (once f.id) in
              omega (arith, c, few, more))
            each,
      ),
    )

total-zero :
    (g : StandingsRow → ℕ) (rows : List StandingsRow) → All (λ r. g r ≡ 0) rows → total g rows ≡ 0
unfolding total
total-zero g [] a = refl
total-zero g (r ∷ rows) a = omega (arith, a.0, total-zero g rows a.1)

pub start_rows-Fine : (k : Rules) (es : List EntryView) → Fine k (start_rows es)
start_rows-Fine k es =
    let u = start_rows-Unplayed es in
    (
      (start_rows-Once es).0,
      record {
        rows_add = All-weaken (start_rows es) (λ r h. (omega (arith, h), grind (arith, h))) u;
        wins_losses =
            total-zero (λ r. r.wins) (start_rows es) (All-weaken (start_rows es) (λ r h. h.1) u)
            ∙ sym (
                total-zero (λ r. r.losses) (start_rows es)
                  (All-weaken (start_rows es) (λ r h. h.3) u));
        goals =
            total-zero (λ r. r.goals_for) (start_rows es)
              (All-weaken (start_rows es) (λ r h. h.4) u)
            ∙ sym (
                total-zero (λ r. r.goals_against) (start_rows es)
                  (All-weaken (start_rows es) (λ r h. h.5) u));
      },
    )

count_sides-count :
    (k : Rules) (i : ℕ) (m : MatchView) (h a : Option ℕ) (l : League)
    → count_where (λ r. r.entry_id == i) (count_sides k m h a l).rows
      ≡ count_where (λ r. r.entry_id == i) l.rows
unfolding count_sides
count_sides-count k i m none a l = refl
count_sides-count k i m (some h) none l = refl
count_sides-count k i m (some h) (some a) l =
    ground (arith, count-add_match k h a m.home_score m.away_score l.rows i)

pub count_matches-count :
    (k : Rules) (i : ℕ) (ms : List MatchView) (l : League)
    → count_where (λ r. r.entry_id == i) (count_matches k ms l).rows
      ≡ count_where (λ r. r.entry_id == i) l.rows
unfolding count_matches count_match
count_matches-count k i [] l = refl
count_matches-count k i (m ∷ ms) l = elim (Bool-cases m.is_completed) [
  | inr e ↦ rw e (count_matches-count k i ms l)
  | inl e ↦ rw e (
      count_matches-count k i ms (count_sides k m m.home_entry m.away_entry l)
      ∙ sides m.home_entry m.away_entry)
]
  where
    sides :
        (h a : Option ℕ)
        → count_where (λ r. r.entry_id == i) (count_sides k m h a l).rows
          ≡ count_where (λ r. r.entry_id == i) l.rows
    sides h a = count_sides-count k i m h a l

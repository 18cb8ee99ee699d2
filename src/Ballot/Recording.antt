-- ===== src/Ballot/Recording.antt =====
-- The rows that the loop of `RunDraw` records (modules/ballot/service.go), whose results are in the
-- order of the shuffle and whose entries are in the order of the query.
use ivyticketing.Base.{ℕ, ◌+◌, ◌≡◌, refl, ap, String, List, [], ◌∷◌, arith, length, map}
use ivyticketing.Ballot.Draw.{
  Primitives, DrawEntry, Outcome, BallotDrawResult, outcome_at, assign_from, assign, shuffle,
  recorded, draw_rows,
}
use ivyticketing.Ballot.Results.{length-shuffle}

-- A row but for its digest.
abbrev pub decision : BallotDrawResult → String × Outcome × ℕ
decision r = (r.ballot_entry_id, r.outcome, r.rank)

-- Each entry, from the index `i` on, with the outcome of its place in the list.
abbrev pub by_place : ℕ → ℕ → ℕ → List DrawEntry → List (String × Outcome × ℕ)
by_place quota waitlist_size i [] = []
by_place quota waitlist_size i (e ∷ es) =
    (e.id, outcome_at quota waitlist_size i, i) ∷ by_place quota waitlist_size (i + 1) es

module _ (c : Primitives) (seed : String) (quota waitlist_size : ℕ) where
  recorded-assign_from :
      (i : ℕ) (entries es : List DrawEntry)
      → length es ≡ length entries
      → map decision (recorded entries (assign_from c seed quota waitlist_size i es))
        ≡ by_place quota waitlist_size i entries
  unfolding recorded assign_from
  recorded-assign_from i [] [] h = refl
  recorded-assign_from i [] (x ∷ es) h = absurd (omega arith)
  recorded-assign_from i (e ∷ entries) [] h = absurd (omega arith)
  recorded-assign_from i (e ∷ entries) (x ∷ es) h =
      ap (λ xs. (e.id, outcome_at quota waitlist_size i, i) ∷ xs)
        (recorded-assign_from (i + 1) entries es (omega arith))

  -- The decisions that a draw records do not depend on the seed or the generator: each entry gets
  -- the outcome of its place in the query's list, so the winners are the first `quota` entries by
  -- identifier.
  pub draw_rows-by_place :
      (applied : List DrawEntry)
      → map decision (draw_rows c seed applied quota waitlist_size)
        ≡ by_place quota waitlist_size 0 applied
  unfolding draw_rows assign
  draw_rows-by_place applied =
      recorded-assign_from 0 applied (shuffle c seed applied) (length-shuffle c seed applied)

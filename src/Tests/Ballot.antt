-- ===== src/Tests/Ballot.antt =====
-- Runs of the draw, with a generator that counts.
use ivyticketing.Base.{◌+◌, ◌-◌, ◌%◌, ◌≡◌, Bool, List, [], ◌∷◌, length, str_eq, map}
use ivyticketing.Base.{◌≢◌, refl, some}
use ivyticketing.Store.Tx.{ok}
use ivyticketing.Inventory.Queries.{user_by_id}
use ivyticketing.Ballot.Application.{
  apply_to_draw, new_entry, draw_by_id, entry_of, create_ballot_entry, has_entry_id, close_draw,
  advance_draw,
}
use ivyticketing.Ballot.Entries.{apply_to_draw_once}
use ivyticketing.Tests.Data.{start, open_draw_nine}
use ivyticketing.Ballot.Draw.{Primitives, DrawEntry, Outcome, assign, draw_rows}
use ivyticketing.Ballot.Results.{assign_counts, results_with, min}
use ivyticketing.Ballot.Recording.{draw_rows-by_place, decision, by_place}

abbrev counter : Primitives
counter = record {
  sha256_hex = λ s. s;
  new_source = λ seed. 7;
  intn = λ source n. (source % n, source + 1);
}

abbrev applied : List DrawEntry
applied = record { id = "a" } ∷ record { id = "b" } ∷ record { id = "c" } ∷ []

abbrev is_b : DrawEntry → Bool
is_b e = str_eq e.id "b"

assign_counts_example :
    (results_with Outcome.winner (assign counter "s" applied 1 1) ≡ min 1 (length applied))
    × (results_with Outcome.waitlisted (assign counter "s" applied 1 1)
        ≡ min 1 (length applied - 1))
    × (results_with Outcome.not_selected (assign counter "s" applied 1 1)
        ≡ length applied - (1 + 1))
assign_counts_example = assign_counts counter "s" 1 1 applied

draw_rows-by_place_example :
    map decision (draw_rows counter "s" applied 1 1) ≡ by_place 1 1 0 applied
draw_rows-by_place_example = draw_rows-by_place counter "s" 1 1 applied

applied_once : (apply_to_draw 61 100 7 1 2 9 start).0 ≡ ok (new_entry 61 open_draw_nine 1 2 7)
unfolding apply_to_draw draw_by_id entry_of create_ballot_entry has_entry_id user_by_id
applied_once = refl

nine_found : draw_by_id 9 start.ballot_draws ≡ some open_draw_nine
unfolding draw_by_id
nine_found = refl

apply_to_draw_once_example :
    (apply_to_draw 62 110 7 1 2 9 (apply_to_draw 61 100 7 1 2 9 start).1).0
    ≢ ok (new_entry 62 open_draw_nine 1 2 7)
apply_to_draw_once_example =
    apply_to_draw_once 61 62 100 110 7 1 1 2 2 9 start (apply_to_draw 61 100 7 1 2 9 start).1
      applied_once refl (new_entry 62 open_draw_nine 1 2 7)

closed : (close_draw 9 (some 3) start).0 ≡ ok tt
unfolding close_draw advance_draw draw_by_id
closed = refl

-- ===== src/Ballot/Entries.antt =====
-- Applications to a draw (modules/ballot/service.go).
use ivyticketing.Base.{
  ℕ, ◌≡◌, ◌≢◌, true, false, Option, none, some, List, [], ◌∷◌, ◌==◌, arith, is_some, find,
  update_where, find_sound, ==_iff, Option-cases, inl, inr,
}
use mathlib.Core.Path.{subst}
use ivyticketing.Store.Rows.{Database, BallotDraw, BallotEntry, DrawStatus}
use ivyticketing.Store.Tx.{ok}
use ivyticketing.Orders.Service.{is_before, is_after}
use ivyticketing.Ballot.Application.{
  draw_by_id, entry_of, create_ballot_entry, new_entry, apply_to_draw, with_draw_status, close_draw,
  advance_draw,
}

draw_by_id-id :
    (id : ℕ) (ds : List BallotDraw) {b : BallotDraw} → draw_by_id id ds ≡ some b → b.id ≡ id
unfolding draw_by_id
draw_by_id-id id ds {b} e = (==_iff b.id id).0 (find_sound (λ x. x.id == id) ds e)

module _ (id now participant event category draw : ℕ) (d : Database) {b : BallotEntry}
    (applied : (apply_to_draw id now participant event category draw d).0 ≡ ok b) where
  apply_to_draw-found : (x : BallotDraw) × (draw_by_id draw d.ballot_draws ≡ some x)
  unfolding apply_to_draw
  apply_to_draw-found = elim (Option-cases (draw_by_id draw d.ballot_draws)) [
    | inl e ↦ absurd (ground (arith, e))
    | inr (x, e) ↦ (x, e)
  ]

  apply_to_draw-new : entry_of draw participant d.ballot_entries ≡ none
  unfolding apply_to_draw
  apply_to_draw-new = ground arith

  apply_to_draw-after :
      {x : BallotDraw}
      → draw_by_id draw d.ballot_draws ≡ some x
      → (apply_to_draw id now participant event category draw d).1
        ≡ record d { ballot_entries = new_entry id x event category participant ∷ d.ballot_entries }
  unfolding apply_to_draw create_ballot_entry
  apply_to_draw-after found = ground arith

  -- An application succeeds only to an open draw, for the category and the event of the draw and
  -- inside its window, and only where the participant has no entry in the draw yet.
  pub apply_to_draw_admits :
      {x : BallotDraw}
      → draw_by_id draw d.ballot_draws ≡ some x
      → (x.status ≡ DrawStatus.opened)
        × (x.category_id ≡ category)
        × (x.event_id ≡ event)
        × (is_before now x.application_opens_at ≡ false)
        × (is_after now x.application_closes_at ≡ false)
        × (entry_of draw participant d.ballot_entries ≡ none)
  unfolding apply_to_draw create_ballot_entry
  apply_to_draw_admits found = ground arith

  apply_to_draw-entered :
      is_some (
        entry_of draw participant
          (apply_to_draw id now participant event category draw d).1.ballot_entries)
      ≡ true
  unfolding entry_of
  apply_to_draw-entered =
      let (x, found) = apply_to_draw-found in
      rw (apply_to_draw-after found) (ground (arith, draw_by_id-id draw d.ballot_draws found))

-- A participant enters a draw once: after an application has succeeded, no further application of
-- the participant to the draw succeeds, whatever the other tables hold by then.
pub apply_to_draw_once :
    (id id' now now' participant event event' category category' draw : ℕ) (d d2 : Database)
    {b : BallotEntry}
    → (apply_to_draw id now participant event category draw d).0 ≡ ok b
    → d2.ballot_entries ≡ (apply_to_draw id now participant event category draw d).1.ballot_entries
    → (b' : BallotEntry) → (apply_to_draw id' now' participant event' category' draw d2).0 ≢ ok b'
apply_to_draw_once id id' now now' participant event event' category category' draw d d2 h same b'
      k =
    let entered = apply_to_draw-entered id now participant event category draw d h in
    let new = apply_to_draw-new id' now' participant event' category' draw d2 k in
    cc (same, entered, new)

draw_by_id-with_draw_status :
    (id : ℕ) (s : DrawStatus) (ds : List BallotDraw) {x : BallotDraw}
    → draw_by_id id (with_draw_status id s ds) ≡ some x
    → x.status ≡ s
unfolding draw_by_id with_draw_status
draw_by_id-with_draw_status id s [] e = cc
draw_by_id-with_draw_status id s (b ∷ ds) {x} e = ground (
  arith,
  λ (q : find (λ y. y.id == id) (update_where (λ y. y.id == id) (λ y. record y { status = s }) ds)
        ≡ some x).
      draw_by_id-with_draw_status id s ds q,
)

close_draw-after :
    (draw : ℕ) (org : Option ℕ) (d : Database)
    → (close_draw draw org d).0 ≡ ok tt
    → (close_draw draw org d).1
      ≡ record d { ballot_draws = with_draw_status draw DrawStatus.closed d.ballot_draws }
unfolding close_draw advance_draw
close_draw-after draw org d h = ground arith

-- A draw that has been closed takes no application.
pub close_draw_refuses :
    (id now participant event category draw : ℕ) (org : Option ℕ) (d : Database)
    → (close_draw draw org d).0 ≡ ok tt
    → (b : BallotEntry)
    → (apply_to_draw id now participant event category draw (close_draw draw org d).1).0 ≢ ok b
close_draw_refuses id now participant event category draw org d closed b h =
    let (x, found) = apply_to_draw-found id now participant event category draw _ h in
    let admitted = apply_to_draw_admits id now participant event category draw _ h found in
    let status = draw_by_id-with_draw_status draw DrawStatus.closed d.ballot_draws (
      subst (λ y. draw_by_id draw y.ballot_draws ≡ some x) (close_draw-after draw org d closed)
        found) in
    cc (admitted.0, status)

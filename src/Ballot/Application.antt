-- ===== src/Ballot/Application.antt =====
-- `Service.OpenDraw`, `Service.CloseDraw` and `Service.Apply` of the module ballot
-- (services/api/internal/modules/ballot/service.go) with their queries
-- (services/api/internal/db/ballot.sql.go). Each statement stands alone, in no transaction.
use ivyticketing.Base.{
  ℕ, Bool, true, false, not, ◌&&◌, ◌||◌, Option, none, some, List, ◌∷◌, ◌==◌, ◌!=◌, is_some, find,
  update_where, if◌then◌else◌,
}
use ivyticketing.Store.Rows.{Database, BallotDraw, BallotEntry, BallotStatus, DrawStatus}
use ivyticketing.Store.Tx.{
  Result, ok, err, draw_not_found, ballot_closed, already_applied, no_rows, constraint_violation,
}
use ivyticketing.Inventory.Queries.{has_user}
use ivyticketing.Orders.Guest.{nil_id}
use ivyticketing.Orders.Service.{is_before, is_after}

abbrev pub same_draw_status : DrawStatus → DrawStatus → Bool
same_draw_status DrawStatus.pending DrawStatus.pending = true
same_draw_status DrawStatus.opened DrawStatus.opened = true
same_draw_status DrawStatus.closed DrawStatus.closed = true
same_draw_status DrawStatus.drawn DrawStatus.drawn = true
same_draw_status DrawStatus.announced DrawStatus.announced = true
same_draw_status _ _ = false

unfoldable pub draw_by_id : ℕ → List BallotDraw → Option BallotDraw
draw_by_id id = find (λ b. b.id == id)

unfoldable pub with_draw_status : ℕ → DrawStatus → List BallotDraw → List BallotDraw
with_draw_status id s = update_where (λ b. b.id == id) (λ b. record b { status = s })

-- `assertDrawOrg`: an organization that is absent or nil is not compared.
abbrev pub wrong_org : BallotDraw → Option ℕ → Bool
wrong_org draw none = false
wrong_org draw (some org) = org != nil_id && draw.organization_id != org

-- `OpenDraw` and `CloseDraw` differ in the two statuses.
unfoldable pub advance_draw :
    DrawStatus → DrawStatus → ℕ → Option ℕ → Database → Result (Unit {0}) × Database
advance_draw from to id org d = elim (draw_by_id id d.ballot_draws) [
  | none ↦ (err draw_not_found, d)
  | some draw ↦
      if wrong_org draw org
      then (err draw_not_found, d)
      else if not (same_draw_status draw.status from)
      then (err ballot_closed, d)
      else (ok tt, record d { ballot_draws = with_draw_status id to d.ballot_draws })
]

unfoldable pub open_draw : ℕ → Option ℕ → Database → Result (Unit {0}) × Database
open_draw = advance_draw DrawStatus.pending DrawStatus.opened

unfoldable pub close_draw : ℕ → Option ℕ → Database → Result (Unit {0}) × Database
close_draw = advance_draw DrawStatus.opened DrawStatus.closed

abbrev pub is_entry_of : ℕ → ℕ → BallotEntry → Bool
is_entry_of draw_id participant_id b = b.draw_id == draw_id && b.participant_id == participant_id

unfoldable pub entry_of : ℕ → ℕ → List BallotEntry → Option BallotEntry
entry_of draw_id participant_id = find (is_entry_of draw_id participant_id)

unfoldable pub has_entry_id : ℕ → List BallotEntry → Bool
has_entry_id id bs = is_some (find (λ b. b.id == id) bs)

-- `CreateBallotEntry`: the keys, and the reference to users; the draw gives the other references.
unfoldable pub create_ballot_entry : BallotEntry → Database → Result BallotEntry × Database
create_ballot_entry b d =
    if has_entry_id b.id d.ballot_entries
      || is_some (entry_of b.draw_id b.participant_id d.ballot_entries)
      || not (has_user b.participant_id d)
    then (err constraint_violation, d)
    else (ok b, record d { ballot_entries = b ∷ d.ballot_entries })

abbrev pub new_entry : ℕ → BallotDraw → ℕ → ℕ → ℕ → BallotEntry
new_entry id draw event_id category_id participant_id = record {
  id = id;
  draw_id = draw.id;
  organization_id = draw.organization_id;
  event_id = event_id;
  category_id = category_id;
  participant_id = participant_id;
  status = BallotStatus.applied;
  access_grant_id = none;
  converted_at = none;
}

-- `id` is the identifier that the database draws.
unfoldable pub apply_to_draw : ℕ → ℕ → ℕ → ℕ → ℕ → ℕ → Database → Result BallotEntry × Database
apply_to_draw id now participant_id event_id category_id draw_id d =
    elim (draw_by_id draw_id d.ballot_draws) [
      | none ↦ (err no_rows, d)
      | some draw ↦
          if not (same_draw_status draw.status DrawStatus.opened)
          then (err ballot_closed, d)
          else if draw.category_id != category_id || draw.event_id != event_id
          then (err ballot_closed, d)
          else if is_before now draw.application_opens_at
          then (err ballot_closed, d)
          else if is_after now draw.application_closes_at
          then (err ballot_closed, d)
          else if is_some (entry_of draw_id participant_id d.ballot_entries)
          then (err already_applied, d)
          else create_ballot_entry (new_entry id draw event_id category_id participant_id) d
    ]

-- ===== src/Scanner/Shown.antt =====
-- What a scan shows of a ticket that was picked up: the signer of modules/tickets/qr, the pickup of
-- modules/racepack and `Verify` of modules/scanner together.
use ivyticketing.Base.{
  ℕ, ◌≡◌, refl, ap, ◌∙◌, String, Bool, true, false, not, none, some, List, ◌!=◌, is_some, arith,
  if◌then◌else◌,
}
use ivyticketing.Store.Tx.{ok, unauthorized_event}
use ivyticketing.Racepack.Rows.{EventTicket, PickupRecord, Desk, is_used}
use ivyticketing.Racepack.Calls.{guard, with_row}
use ivyticketing.Racepack.Pickup.{PickupInput, active_pickup, execute_pickup, event_ticket_by_id}
use ivyticketing.Racepack.Promises.{execute_pickup-PickedUp}
use ivyticketing.Tickets.Qr.{Codec, sign, verify}
use ivyticketing.Tickets.Signing.{Lawful, ref_of, verify_signed}
use ivyticketing.Scanner.Service.{
  VerifyResult, verify_scan, verify_checked, verify_ref, time_of_pickup,
}
use ivyticketing.Scanner.Desk.{DeskStep, run_steps}
use ivyticketing.Scanner.Once.{run_steps-Good, active_after}

verify_ref_lem :
    (k : Codec) (ticket event : ℕ) (d : Desk) (t : EventTicket)
    → event_ticket_by_id ticket d.tickets ≡ some t
    → (v : VerifyResult) × (verify_ref event (ref_of k ticket event) d ≡ ok v)
      × (v.already_picked_up ≡ is_some (active_pickup ticket d.pickups))
      × (v.was_checked_in ≡ is_used t.status)
unfolding verify_ref guard with_row
verify_ref_lem k ticket event d t found = (
  record {
    ticket_id = ticket;
    event_id = event;
    already_picked_up = is_some (active_pickup ticket d.pickups);
    picked_up_at = time_of_pickup (active_pickup ticket d.pickups);
    was_checked_in = is_used t.status;
    checked_in_at = if is_used t.status then t.used_at else none;
  },
  rw (same event, with_row, found) refl,
  refl,
  refl,
)
  where
    same : (e : ℕ) → (e != e) ≡ false
    same e = ground arith

-- Where the libraries under the tokens keep their promises: once a pickup of a ticket has succeeded, and
-- as long as the ticket is there, a scan of its signed token for the event by permitted staff shows that
-- it was picked up, and shows it as checked in exactly when it is used.
pub pickup_shows :
    (k : Codec) (normal : String → String) (id now : ℕ) (p : PickupInput) (d : Desk)
    {r : PickupRecord} {d1 : Desk}
    → Lawful k
    → execute_pickup normal id now p d ≡ (ok r, d1)
    → (may_scan : ℕ → ℕ → Bool) (staff : ℕ) (ss : List DeskStep) (t : EventTicket)
    → may_scan p.event_id staff ≡ true
    → event_ticket_by_id p.ticket_id (run_steps ss d1).tickets ≡ some t
    → (v : VerifyResult) × (verify_scan may_scan k p.event_id staff
          (sign k p.ticket_id p.event_id)
          (run_steps ss d1)
        ≡ ok v)
      × (v.already_picked_up ≡ true)
      × (v.was_checked_in ≡ is_used t.status)
unfolding verify_scan
pickup_shows k normal id now p d {r} {d1} w h may_scan staff ss t allowed found =
    let d2 = run_steps ss d1 in
    let (v, shown, picked, used) = verify_ref_lem k p.ticket_id p.event_id d2 t found in
    (
      v,
      ap
            (λ b.
              guard (not b) unauthorized_event
                (verify_checked p.event_id d2 (verify k (sign k p.ticket_id p.event_id))))
            allowed
          ∙ ap (verify_checked p.event_id d2) ((verify_signed k w).0 p.ticket_id p.event_id)
          ∙ shown,
      picked
          ∙ (run_steps-Good ss d1).pickups p.ticket_id
              (active_after id now p d r d1 (execute_pickup-PickedUp normal id now p d h)),
      used,
    )

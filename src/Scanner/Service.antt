-- ===== src/Scanner/Service.antt =====
-- `CheckIn` and `Verify` (modules/scanner/service.go) and the handler of the check-in (handler.go). The
-- parameter `may_scan` is `UserCanScanEvent`, a query on the tables of roles.
use ivyticketing.Base.{
  ℕ, String, Bool, true, false, not, ◌&&◌, Option, none, some, List, ◌==◌, ◌!=◌, find, is_some,
  update_where, if◌then◌else◌,
}
use ivyticketing.Store.Tx.{
  Error, Result, ok, err, ticket_not_found, ticket_cancelled, ticket_event_mismatch,
  already_checked_in, unauthorized_event, malformed_token, unsupported_version, signature_invalid,
}
use ivyticketing.Racepack.Rows.{
  EventTicket, TicketStatus, PickupRecord, Desk, is_cancelled, is_used, is_usable,
}
use ivyticketing.Racepack.Calls.{guard, with_row, settle}
use ivyticketing.Racepack.Pickup.{event_ticket_by_id, active_pickup}
use ivyticketing.Racepack.Idempotency.{Reply, Keyed, keyed_reply}
use ivyticketing.Racepack.Handler.{rendered}
use ivyticketing.Tickets.Qr.{QrError, TicketRef, Verified, accepted, rejected, Codec, verify}

pub record CheckInInput : Type 0 where
  pub event_id : ℕ
  pub ticket_id : ℕ
  pub staff_id : ℕ
  pub scanned_at : Option ℕ

-- The time is the zero time, `none`, for a used ticket without one.
pub record CheckInResult : Type 0 where
  pub ticket_id : ℕ
  pub checked_in_at : Option ℕ
  pub duplicate : Bool

-- `COALESCE`.
abbrev pub or_now : Option ℕ → ℕ → ℕ
or_now none now = now
or_now (some t) now = t

abbrev pub as_used : ℕ → EventTicket → EventTicket
as_used at_time t = record t { status = TicketStatus.used; used_at = some at_time }

abbrev pub is_usable_id : ℕ → EventTicket → Bool
is_usable_id id t = (t.id == id) && is_usable t.status

-- `MarkTicketUsed`.
unfoldable pub mark_ticket_used : ℕ → ℕ → Desk → Result (EventTicket × Desk)
unfolding with_row
mark_ticket_used id at_time d = with_row (find (is_usable_id id) d.tickets) already_checked_in (λ t.
    ok (
      as_used at_time t,
      record d { tickets = update_where (is_usable_id id) (as_used at_time) d.tickets },
    ))

abbrev pub first_check_in : ℕ → Result (EventTicket × Desk) → Result (CheckInResult × Desk)
first_check_in id (ok (t, d)) =
    ok (record { ticket_id = id; checked_in_at = t.used_at; duplicate = false }, d)
first_check_in id (err e) = err e

-- For the ticket whose row is locked.
unfoldable pub check_in_ticket :
    ℕ → CheckInInput → Desk → EventTicket → Result (CheckInResult × Desk)
unfolding guard mark_ticket_used
check_in_ticket now p d t = guard (is_cancelled t.status) ticket_cancelled (
    guard (t.event_id != p.event_id) ticket_event_mismatch (
      if is_used t.status
      then ok (record { ticket_id = p.ticket_id; checked_in_at = t.used_at; duplicate = true }, d)
      else first_check_in p.ticket_id (mark_ticket_used p.ticket_id (or_now p.scanned_at now) d)))

-- `CheckIn`.
unfoldable pub check_in_tx :
    (ℕ → ℕ → Bool) → ℕ → CheckInInput → Desk → Result (CheckInResult × Desk)
unfolding guard with_row event_ticket_by_id check_in_ticket
check_in_tx may_scan now p d =
    guard (not (may_scan p.event_id p.staff_id)) unauthorized_event (
      with_row (event_ticket_by_id p.ticket_id d.tickets) ticket_not_found
        (check_in_ticket now p d))

unfoldable pub check_in : (ℕ → ℕ → Bool) → ℕ → CheckInInput → Desk → Result CheckInResult × Desk
unfolding settle check_in_tx
check_in may_scan now p d = settle d (check_in_tx may_scan now p d)

abbrev pub check_in_key : String → String → Keyed
check_in_key key hash = record { key = key; scope = "scanner.checkin"; request_hash = hash }

unfoldable pub handle_check_in :
    (ℕ → ℕ → Bool)
    → (String → String)
    → (CheckInResult → String)
    → ℕ
    → String
    → String
    → CheckInInput
    → Desk
    → Reply × Desk
unfolding keyed_reply check_in
handle_check_in may_scan stored render now key hash p =
    keyed_reply stored (check_in_key key hash) 200
      (λ d. rendered render (check_in may_scan now p d))

-- `mapQRError`.
unfoldable pub map_qr_error : QrError → Error
map_qr_error QrError.malformed_token = malformed_token
map_qr_error QrError.unsupported_version = unsupported_version
map_qr_error QrError.invalid_signature = signature_invalid

pub record VerifyResult : Type 0 where
  pub ticket_id : ℕ
  pub event_id : ℕ
  pub already_picked_up : Bool
  pub picked_up_at : Option ℕ
  pub was_checked_in : Bool
  pub checked_in_at : Option ℕ

abbrev pub time_of_pickup : Option PickupRecord → Option ℕ
time_of_pickup none = none
time_of_pickup (some r) = some r.pickup_timestamp

-- What is shown of the ticket of a token: whether it was picked up or checked in, and when.
unfoldable pub verify_ref : ℕ → TicketRef → Desk → Result VerifyResult
unfolding guard with_row event_ticket_by_id active_pickup
verify_ref event_id ref d = guard (ref.event_id != event_id) ticket_event_mismatch (
    with_row (event_ticket_by_id ref.ticket_id d.tickets) ticket_not_found (λ t. ok (record {
      ticket_id = ref.ticket_id;
      event_id = ref.event_id;
      already_picked_up = is_some (active_pickup ref.ticket_id d.pickups);
      picked_up_at = time_of_pickup (active_pickup ref.ticket_id d.pickups);
      was_checked_in = is_used t.status;
      checked_in_at = if is_used t.status then t.used_at else none;
    })))

unfoldable pub verify_checked : ℕ → Desk → Verified TicketRef → Result VerifyResult
unfolding map_qr_error verify_ref
verify_checked event_id d (rejected e) = err (map_qr_error e)
verify_checked event_id d (accepted ref) = verify_ref event_id ref d

-- `Verify`, without the names that it shows.
unfoldable pub verify_scan : (ℕ → ℕ → Bool) → Codec → ℕ → ℕ → List ℕ → Desk → Result VerifyResult
unfolding guard verify verify_checked
verify_scan may_scan k event_id staff_id token d =
    guard (not (may_scan event_id staff_id)) unauthorized_event
      (verify_checked event_id d (verify k token))

-- ===== src/Scanner/CheckIns.antt =====
-- A ticket is checked in once (modules/scanner/service.go).
use ivyticketing.Base.{
  ℕ, ◌≡◌, ◌⊎◌, refl, sym, ap, ◌∙◌, Bool, true, false, not, Option, some, List, [], ◌∷◌, ◌==◌, ◌!=◌,
  find, update_where, arith, Bool-cases, inl, inr,
}
use ivyticketing.Store.Tx.{Result, ok, ok_inj, unauthorized_event, ticket_not_found}
use ivyticketing.Racepack.Rows.{EventTicket, TicketStatus, Desk, is_cancelled, is_used, is_usable}
use ivyticketing.Racepack.Calls.{guard, guard_ok, with_row, with_row_ok, settle, settle_ok}
use ivyticketing.Racepack.Pickup.{event_ticket_by_id}
use ivyticketing.Scanner.Service.{
  CheckInInput, CheckInResult, check_in, check_in_tx, check_in_ticket, mark_ticket_used,
  first_check_in, or_now, is_usable_id, as_used,
}
use ivyticketing.Scanner.Handles.{either_ok}

-- What a check-in that succeeds has met, and what it leaves: a used ticket of the event.
pub record CheckedIn (now : ℕ) (p : CheckInInput) (d : Desk) (a : CheckInResult) (d1 : Desk)
    : Type 0 where
  pub ticket : EventTicket
  pub left : EventTicket
  pub found : event_ticket_by_id p.ticket_id d.tickets ≡ some ticket
  pub not_cancelled : is_cancelled ticket.status ≡ false
  pub in_event : (ticket.event_id == p.event_id) ≡ true
  pub left_found : event_ticket_by_id p.ticket_id d1.tickets ≡ some left
  pub left_used : left.status ≡ TicketStatus.used
  pub left_event : left.event_id ≡ ticket.event_id
  pub left_time : left.used_at ≡ a.checked_in_at
  pub outcome :
      ((is_used ticket.status ≡ true)
        × (a.duplicate ≡ true)
        × (a.checked_in_at ≡ ticket.used_at)
        × (d1 ≡ d))
      ⊎ ((is_usable ticket.status ≡ true)
          × (a.duplicate ≡ false)
          × (a.checked_in_at ≡ some (or_now p.scanned_at now))
          × (d1 ≡ record d {
            tickets =
                update_where
                  (is_usable_id p.ticket_id)
                  (as_used (or_now p.scanned_at now))
                  d.tickets;
          }))

first_usable :
    (id : ℕ) (ts : List EventTicket) {t : EventTicket}
    → event_ticket_by_id id ts ≡ some t
    → is_usable t.status ≡ true
    → find (is_usable_id id) ts ≡ some t
unfolding event_ticket_by_id
first_usable id [] e u = cc
first_usable id (x ∷ ts) {t} e u = elim (Bool-cases (x.id == id)) [
  | inl f ↦
      let same : x ≡ t = some_inj (rw f at e) in
      rw (f, ap (λ y. is_usable y.status) same ∙ u) (ap some same)
  | inr f ↦ rw f (first_usable id ts (rw f at e) u)
]
  where
    some_inj : {a b : EventTicket} → some a ≡ some b → a ≡ b
    some_inj h = cc

-- The ticket that was the first with its identifier is so when it is used.
used_found :
    (id at_time : ℕ) (ts : List EventTicket) {t : EventTicket}
    → event_ticket_by_id id ts ≡ some t
    → is_usable t.status ≡ true
    → event_ticket_by_id id (update_where (is_usable_id id) (as_used at_time) ts)
      ≡ some (as_used at_time t)
unfolding event_ticket_by_id
used_found id at_time [] e u = cc
used_found id at_time (x ∷ ts) {t} e u = elim (Bool-cases (x.id == id)) [
  | inl f ↦
      let same : x ≡ t = some_inj (rw f at e) in
      rw (f, ap (λ y. is_usable y.status) same ∙ u, f) (ap (λ y. some (as_used at_time y)) same)
  | inr f ↦ rw (f, f) (used_found id at_time ts (rw f at e) u)
]
  where
    some_inj : {a b : EventTicket} → some a ≡ some b → a ≡ b
    some_inj h = cc

usable_of : (s : TicketStatus) → is_cancelled s ≡ false → is_used s ≡ false → is_usable s ≡ true
usable_of TicketStatus.valid c u = refl
usable_of TicketStatus.used c u = cc
usable_of TicketStatus.cancelled c u = cc

used_of : (s : TicketStatus) → is_used s ≡ true → s ≡ TicketStatus.used
used_of TicketStatus.valid u = cc
used_of TicketStatus.used u = refl
used_of TicketStatus.cancelled u = cc

abbrev marked : ℕ → ℕ → Desk → Desk
marked id at_time d = record d {
  tickets = update_where (is_usable_id id) (as_used at_time) d.tickets;
}

mark_ticket_used_lem :
    (id at_time : ℕ) (d : Desk) {t : EventTicket}
    → find (is_usable_id id) d.tickets ≡ some t
    → mark_ticket_used id at_time d ≡ ok (as_used at_time t, marked id at_time d)
unfolding mark_ticket_used with_row
mark_ticket_used_lem id at_time d e = rw (with_row, e) refl

pair_of :
    {a b : CheckInResult} {d e : Desk}
    → ◌≡◌ {A = Result (CheckInResult × Desk)} (ok (a, d)) (ok (b, e))
    → (a ≡ b) × (d ≡ e)
pair_of h = (ap (λ x. x.0) (ok_inj h), ap (λ x. x.1) (ok_inj h))

same_id : (a b : ℕ) → (a != b) ≡ false → (a == b) ≡ true
same_id a b h = ground (arith, h)

check_in-CheckedIn :
    (may_scan : ℕ → ℕ → Bool) (now : ℕ) (p : CheckInInput) (d : Desk) {a : CheckInResult}
    {d1 : Desk}
    → check_in may_scan now p d ≡ (ok a, d1)
    → CheckedIn now p d a d1
unfolding check_in check_in_tx check_in_ticket
check_in-CheckedIn may_scan now p d {a} {d1} h =
    let (allowed, h1) =
      guard_ok (not (may_scan p.event_id p.staff_id)) _ _
        (settle_ok d (check_in_tx may_scan now p d) h) in
    let (t, found, h2) = with_row_ok (event_ticket_by_id p.ticket_id d.tickets) _ _ h1 in
    let (alive, h3) = guard_ok (is_cancelled t.status) _ _ h2 in
    let (same, h4) = guard_ok (t.event_id != p.event_id) _ _ h3 in
    elim (either_ok (is_used t.status) _ _ h4) [
      | inl (used, g) ↦
          let (answer, kept) = pair_of g in
          record {
            ticket = t;
            left = t;
            found = found;
            not_cancelled = alive;
            in_event = same_id t.event_id p.event_id same;
            left_found = ap (λ x. event_ticket_by_id p.ticket_id x.tickets) (sym kept) ∙ found;
            left_used = used_of t.status used;
            left_event = refl;
            left_time = ap (λ x. x.checked_in_at) answer;
            outcome = inl (
              used,
              ap (λ x. x.duplicate) (sym answer),
              ap (λ x. x.checked_in_at) (sym answer),
              sym kept,
            );
          }
      | inr (unused, g) ↦
          let usable : is_usable t.status ≡ true = usable_of t.status alive unused in
          let time : ℕ = or_now p.scanned_at now in
          let first =
            mark_ticket_used_lem p.ticket_id time d
              (first_usable p.ticket_id d.tickets found usable) in
          let (answer, kept) = pair_of (sym (ap (first_check_in p.ticket_id) first) ∙ g) in
          record {
            ticket = t;
            left = as_used time t;
            found = found;
            not_cancelled = alive;
            in_event = same_id t.event_id p.event_id same;
            left_found =
                ap (λ x. event_ticket_by_id p.ticket_id x.tickets) (sym kept)
                ∙ used_found p.ticket_id time d.tickets found usable;
            left_used = refl;
            left_event = refl;
            left_time = ap (λ x. x.checked_in_at) answer;
            outcome = inr (
              usable,
              ap (λ x. x.duplicate) (sym answer),
              ap (λ x. x.checked_in_at) (sym answer),
              sym kept,
            );
          }
    ]

used_tests :
    {s : TicketStatus} → s ≡ TicketStatus.used → (is_cancelled s ≡ false) × (is_used s ≡ true)
used_tests e = (ap is_cancelled e, ap is_used e)

abbrev told : CheckInInput → EventTicket → CheckInResult
told p t = record { ticket_id = p.ticket_id; checked_in_at = t.used_at; duplicate = true }

used_ticket :
    (now : ℕ) (p : CheckInInput) (d : Desk) (t : EventTicket)
    → t.status ≡ TicketStatus.used
    → (t.event_id == p.event_id) ≡ true
    → check_in_ticket now p d t ≡ ok (told p t, d)
unfolding check_in_ticket guard
used_ticket now p d t used same = rw ((used_tests used).0, (used_tests used).1, same) refl

-- A check-in of a used ticket of the event tells its time and changes nothing.
used_again :
    (may_scan : ℕ → ℕ → Bool) (now : ℕ) (p : CheckInInput) (d : Desk) (t : EventTicket)
    → may_scan p.event_id p.staff_id ≡ true
    → event_ticket_by_id p.ticket_id d.tickets ≡ some t
    → t.status ≡ TicketStatus.used
    → (t.event_id == p.event_id) ≡ true
    → check_in may_scan now p d ≡ (ok (told p t), d)
unfolding check_in check_in_tx
used_again may_scan now p d t allowed found used same =
    ap (settle d) (
      ap
        (λ b. guard (not b) unauthorized_event (
          with_row (event_ticket_by_id p.ticket_id d.tickets) ticket_not_found
            (check_in_ticket now p d)))
        allowed
      ∙ ap (λ o. with_row o ticket_not_found (check_in_ticket now p d)) found
      ∙ used_ticket now p d t used same)
    ∙ settled
  where
    settled : settle d (ok (told p t, d)) ≡ (ok (told p t), d)
    settled = refl

-- A check-in that succeeds finds a ticket of the event that is not cancelled. A valid ticket becomes
-- used, at the time of the scan or now, and only its row changes; of a used one the first time is told,
-- and nothing changes. As long as the row of the ticket stays as it is left, every further check-in of it
-- for the event by permitted staff is answered as a duplicate with that time, and changes nothing.
pub check_in_once :
    (may_scan : ℕ → ℕ → Bool) (now : ℕ) (p : CheckInInput) (d : Desk) {a : CheckInResult}
    {d1 : Desk}
    → check_in may_scan now p d ≡ (ok a, d1)
    → CheckedIn now p d a d1
      × ((now' : ℕ) (p' : CheckInInput) (d2 : Desk)
          → p'.ticket_id ≡ p.ticket_id
          → p'.event_id ≡ p.event_id
          → may_scan p'.event_id p'.staff_id ≡ true
          → event_ticket_by_id p.ticket_id d2.tickets ≡ event_ticket_by_id p.ticket_id d1.tickets
          → check_in may_scan now' p' d2 ≡ (
            ok (record {
              ticket_id = p.ticket_id;
              checked_in_at = a.checked_in_at;
              duplicate = true;
            }),
            d2,
          ))
check_in_once may_scan now p d {a} {d1} h =
    let c = check_in-CheckedIn may_scan now p d h in
    (
      c,
      λ now' p' d2 same_ticket same_event allowed stays.
          used_again may_scan now' p' d2 c.left allowed
            (ap (λ i. event_ticket_by_id i d2.tickets) same_ticket ∙ stays ∙ c.left_found)
            c.left_used
            (ap (λ i. i == p'.event_id) c.left_event
              ∙ ap (λ i. c.ticket.event_id == i) same_event
              ∙ c.in_event)
          ∙ ap
              (λ (x : ℕ × Option ℕ).
                (ok (record { ticket_id = x.0; checked_in_at = x.1; duplicate = true }), d2))
              (λ i. (same_ticket i, c.left_time i)),
    )

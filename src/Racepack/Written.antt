-- ===== src/Racepack/Written.antt =====
-- The record of a pickup, field by field (modules/racepack/service.go).
use ivyticketing.Base.{
  ℕ, ◌≡◌, ◌≢◌, ◌⊎◌, inl, inr, Option-cases, str_eq_self, refl, sym, ap, ◌∙◌, String, true, false,
  none, some, str_eq,
}
use ivyticketing.Racepack.Rows.{EventTicket, PickupRecord, PickupStatus}
use ivyticketing.Racepack.Pickup.{PickupInput, bib_of, holder_of, pickup_of}

-- The row of a pickup: the ticket's number and holder, with the nil identifier for a ticket without
-- one, what the request says, the time, and the status of a pickup that holds.
pub record Written (id now : ℕ) (p : PickupInput) (ticket : EventTicket) (bib : String)
    (r : PickupRecord) : Type 0 where
  pub number_written : r.bib_number ≡ bib
  pub holder_written :
      (ticket.participant_id ≡ some r.participant_id)
      ⊎ (ticket.participant_id ≡ none) × (r.participant_id ≡ 0)
  pub status_written : r.status ≡ PickupStatus.picked_up
  pub ticket_written : r.ticket_id ≡ p.ticket_id
  pub event_written :
      (r.id ≡ id) × (r.organization_id ≡ p.organization_id) × (r.event_id ≡ p.event_id)
  pub desk_written :
      (r.counter_id ≡ p.counter_id) × (r.staff_id ≡ p.staff_id) × (r.slot_id ≡ p.slot_id)
  pub method_written :
      (r.pickup_method ≡ p.pickup_method) × (r.pickup_timestamp ≡ now) × (r.notes ≡ p.notes)

pub bib_of-given :
    (t : EventTicket)
    → str_eq (bib_of t) "" ≡ false
    → (b : String) × (t.bib_number ≡ some b) × (b ≢ "") × (bib_of t ≡ b)
bib_of-given t h = elim (Option-cases t.bib_number) [
  | inl e ↦
      let q : bib_of t ≡ "" = rw e refl in
      let none_given : str_eq (bib_of t) "" ≡ true = ap (λ x. str_eq x "") q ∙ str_eq_self "" in
      cc (h, none_given)
  | inr (b, e) ↦
      let q : bib_of t ≡ b = rw e refl in
      (b, e, (λ n. cc (h, ap (λ x. str_eq x "") (q ∙ n), str_eq_self "")), q)
]

holder_of-given :
    (t : EventTicket)
    → (t.participant_id ≡ some (holder_of t)) ⊎ (t.participant_id ≡ none) × (holder_of t ≡ 0)
holder_of-given t = elim (Option-cases t.participant_id) [
  | inl e ↦ inr (e, rw e refl)
  | inr (u, e) ↦ inl (e ∙ ap some (sym (rw e refl)))
]

pub pickup_of-Written :
    (id now : ℕ) (p : PickupInput) (t : EventTicket) (b : String)
    → bib_of t ≡ b
    → Written id now p t b (pickup_of id now p t)
pickup_of-Written id now p t b e = record {
  number_written = e;
  holder_written = holder_of-given t;
  status_written = refl;
  ticket_written = refl;
  event_written = (refl, refl, refl);
  desk_written = (refl, refl, refl);
  method_written = (refl, refl, refl);
}

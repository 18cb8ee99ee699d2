-- ===== src/Orders/GuestPromises.antt =====
-- A guest's checkout reserves its slot for the participant `uuid.Nil`, and the reservation's
-- participant refers to the table of users
-- (database/migrations/00013_create_inventory_reservations.sql).
use ivyticketing.Base.{
  ℕ, ◌≡◌, refl, String, Bool, true, false, Option, none, some, str_eq, arith, Bool-cases, inl, inr,
}
use ivyticketing.Store.Rows.{Database, Order, InventoryReservation}
use ivyticketing.Store.Tx.{
  Tx, Result, ok, err, Error, exec_tx, guest_email_required, terms_required,
}
use ivyticketing.Store.Post.{
  Post, Post-bind, Post-call, Post-read, Post-one, Post-gets, Post-throw_if, Post-check,
}
use ivyticketing.Inventory.{reserve}
use ivyticketing.Inventory.Laws.{check_and_lock-Reads}
use ivyticketing.Inventory.Queries.{has_user, create_reservation}
use ivyticketing.Orders.Service.{Service, Draws, validate}
use ivyticketing.Orders.Guest.{
  GuestCheckoutRequest, guest_checkout, guest_checkout_tx, nil_id, new_guest_order, answers_of,
}
use ivyticketing.Orders.Actions.{unique_order_number-Reads, create_order_post}

no_reservation_of_stranger :
    (r : InventoryReservation) (d : Database)
    → has_user r.participant_id d ≡ false
    → Post (reserve r) d (λ _ _. ⊥)
unfolding reserve create_reservation
no_reservation_of_stranger r d stranger =
    Post-gets _ _ d (Post-throw_if _ _ _ d λ sound. absurd (false_true (ground arith)))
  where
    false_true : true ≡ false → ⊥
    false_true e = cc

guest_checkout_tx_fails :
    (s : Service) (citext_eq : String → String → Bool) (w : Draws) (r : GuestCheckoutRequest)
    (e c : ℕ) (d : Database)
    → has_user nil_id d ≡ false
    → Post (guest_checkout_tx s citext_eq w r e c) d (λ _ _. ⊥)
unfolding guest_checkout_tx
guest_checkout_tx_fails s citext_eq w r e c d stranger = Post-one _ _ _ d λ event _.
    Post-read _ _ d (check_and_lock-Reads c) λ checked _. Post-throw_if _ _ _ d λ _.
      Post-check _ _ d λ _. Post-gets _ _ d (
        Post-throw_if _ _ _ d λ _.
          Post-read _ _ d (unique_order_number-Reads w.order_number) λ number _. Post-call _ _ d (
            create_order_post (new_guest_order s w checked.category r e c number) d λ _.
              Post-bind (λ _ _. ⊥) _ _ _ (no_reservation_of_stranger _ _ stranger)
                λ _ _ b. absurd b))

-- A transaction that cannot succeed rolls back.
exec_tx-fails :
    {A : Type 0} (m : Tx A) (d : Database)
    → Post m d (λ _ _. ⊥)
    → (x : Error) × (exec_tx m d ≡ (err x, d))
unfolding exec_tx
exec_tx-fails {A} m d never = go (m d) refl
  where
    go :
        (r : Result (A × Database))
        → m d ≡ r
        → (x : Error) × (elim r as (λ _. Result A × Database) [
          | ok (a, d') ↦ (ok a, d')
          | err e ↦ (err e, d)
        ]
            ≡ (err x, d))
    go (ok (a, d')) e = absurd (never.at a d' e)
    go (err x) e = (x, refl)

gated-fails :
    (gate form : Option Error) (m : Tx Order) (d : Database)
    → Post m d (λ _ _. ⊥)
    → (x : Error) × ((elim gate as (λ _. Result Order × Database) [
      | some e ↦ (err e, d)
      | none ↦ elim form [ some e ↦ (err e, d) | none ↦ exec_tx m d ]
    ])
        ≡ (err x, d))
gated-fails (some e) form m d never = (e, refl)
gated-fails none (some e) m d never = (e, refl)
gated-fails none none m d never = exec_tx-fails m d never

-- While no user has the identifier `uuid.Nil`, no guest's checkout succeeds, whatever the request,
-- the gate and the tables: it fails and leaves the tables as they are.
pub guest_checkout_fails :
    (s : Service) (citext_eq : String → String → Bool) (w : Draws) (r : GuestCheckoutRequest)
    (e c : ℕ) (d : Database)
    → has_user nil_id d ≡ false
    → (x : Error) × (guest_checkout s citext_eq w r e c d ≡ (err x, d))
unfolding guest_checkout
guest_checkout_fails s citext_eq w r e c d stranger = elim (Bool-cases (str_eq r.guest_email "")) [
  | inl q ↦ rw q (guest_email_required, refl)
  | inr q ↦ rw q (elim (Bool-cases r.terms_accepted) [
    | inl a ↦ rw a (
        gated-fails (s.gate nil_id e c r.admission_token d) (validate s e c (answers_of r) d)
          (guest_checkout_tx s citext_eq w r e c) d
          (guest_checkout_tx_fails s citext_eq w r e c d stranger))
    | inr a ↦ rw a (terms_required, refl)
  ])
]

-- ===== src/Capacity/Placing.antt =====
-- The checkouts of participants and guests (modules/orders) against the invariant.
use ivyticketing.Base.{
  ℕ, ◌<◌, ◌≡◌, refl, String, Bool, Option, none, some, arith, Bool-cases, inl, inr,
}
use ivyticketing.Store.Rows.{Database, Order}
use ivyticketing.Store.Tx.{ok, err, Result, Tx, ◌>>=◌}
use ivyticketing.Store.Post.{
  Post, Post-pure, Post-call, Post-read, Post-one, Post-gets, Post-throw_if, Post-check,
}
use ivyticketing.Inventory.{check_and_lock, CheckResult, remaining}
use ivyticketing.Orders.Queries.{consume_access_grant}
use ivyticketing.Orders.Service.{Service, Draws, Token, empty, grant, opaque}
use ivyticketing.Orders.Checkout.{checkout_tx, new_order, consume_token}
use ivyticketing.Orders.Guest.{GuestCheckoutRequest, new_guest_order, guest_checkout_tx}
use ivyticketing.Base.{str_eq}
use ivyticketing.Store.Tx.{exec_tx, exec_tx-keeps, Error}
use ivyticketing.Orders.Service.{validate}
use ivyticketing.Orders.Checkout.{checkout}
use ivyticketing.Orders.Guest.{guest_checkout, nil_id, answers_of}
use ivyticketing.Inventory.Laws.{check_and_lock-Reads}
use ivyticketing.Orders.Actions.{unique_order_number-Reads, create_order_post, reserve_post}
use ivyticketing.Capacity.Invariant.{Fits-place, taken, capacity_of, IsValid}
use ivyticketing.Capacity.Spares.{Spares, Post-spares, IsValid-Spares}

-- The check passes only where a slot is free.
check_and_lock-room :
    (c : ℕ) (d : Database) {r : CheckResult}
    → check_and_lock c d ≡ ok (r, d)
    → taken c d.orders d.reservations < capacity_of c d.categories
unfolding check_and_lock remaining ◌>>=◌
check_and_lock-room c d h = ground arith

consume_token-Spares :
    (t : Token) (participant_id category_id order_id now : ℕ)
    → Spares (consume_token t participant_id category_id order_id now)
unfolding consume_token consume_access_grant ◌>>=◌
consume_token-Spares empty p c o now = record { at = λ d a d' h. ground arith }
consume_token-Spares (opaque _) p c o now = record { at = λ d a d' h. ground arith }
consume_token-Spares (grant i) p c o now = record { at = λ d a d' h. ground arith }

pub checkout_tx_post :
    (s : Service) (w : Draws) (p e c : ℕ) (t : Token) (answers : Option String) (d : Database)
    → IsValid d
    → Post (checkout_tx s w p e c t answers) d (λ _ d'. IsValid d')
unfolding checkout_tx
checkout_tx_post s w p e c t answers d v = Post-one _ _ _ d λ event _.
    Post-read _ _ d (check_and_lock-Reads c) λ checked free. Post-throw_if _ _ _ d λ _.
      Post-check _ _ d λ _. Post-gets _ _ d (
        Post-throw_if _ _ _ d λ _.
          Post-read _ _ d (unique_order_number-Reads w.order_number) λ number _. Post-call _ _ d (
            create_order_post (new_order s w checked.category p e c number answers) d λ new.
              Post-call _ _ _ (
                reserve_post _ _ (
                  Post-spares IsValid _ _ _ IsValid-Spares
                    (consume_token-Spares t p c w.order_id w.now)
                    (Fits-place _ _ new refl refl refl refl (check_and_lock-room c d free) v)
                    (λ _ d' valid. Post-pure _ d' valid)))))

pub guest_checkout_tx_post :
    (s : Service) (citext_eq : String → String → Bool) (w : Draws) (r : GuestCheckoutRequest)
    (e c : ℕ) (d : Database)
    → IsValid d
    → Post (guest_checkout_tx s citext_eq w r e c) d (λ _ d'. IsValid d')
unfolding guest_checkout_tx
guest_checkout_tx_post s citext_eq w r e c d v = Post-one _ _ _ d λ event _.
    Post-read _ _ d (check_and_lock-Reads c) λ checked free. Post-throw_if _ _ _ d λ _.
      Post-check _ _ d λ _. Post-gets _ _ d (
        Post-throw_if _ _ _ d λ _.
          Post-read _ _ d (unique_order_number-Reads w.order_number) λ number _. Post-call _ _ d (
            create_order_post (new_guest_order s w checked.category r e c number) d λ new.
              Post-call _ _ _ (
                reserve_post _ _ (
                  Post-pure _ _
                    (Fits-place _ _ new refl refl refl refl (check_and_lock-room c d free) v)))))

-- The gate and the validator stand before the transaction; a refusal leaves the tables alone.
gated-IsValid :
    (gate form : Option Error) (m : Tx Order) (d : Database)
    → Post m d (λ _ d'. IsValid d')
    → IsValid d
    → IsValid (
        let x : Result Order × Database = elim gate [
          | some e ↦ (err e, d)
          | none ↦ elim form [ some e ↦ (err e, d) | none ↦ exec_tx m d ]
        ] in
        x.1)
gated-IsValid (some e) form m d p v = v
gated-IsValid none (some e) m d p v = v
gated-IsValid none none m d p v = exec_tx-keeps IsValid m d p.at v

pub checkout-IsValid :
    (s : Service) (w : Draws) (p e c : ℕ) (t : Token) (answers : Option String) (d : Database)
    → IsValid d
    → IsValid (checkout s w p e c t answers d).1
unfolding checkout
checkout-IsValid s w p e c t answers d v =
    gated-IsValid (s.gate p e c t d) (validate s e c answers d) (checkout_tx s w p e c t answers) d
      (checkout_tx_post s w p e c t answers d v) v

pub guest_checkout-IsValid :
    (s : Service) (citext_eq : String → String → Bool) (w : Draws) (r : GuestCheckoutRequest)
    (e c : ℕ) (d : Database)
    → IsValid d
    → IsValid (guest_checkout s citext_eq w r e c d).1
unfolding guest_checkout
guest_checkout-IsValid s citext_eq w r e c d v = elim (Bool-cases (str_eq r.guest_email "")) [
  | inl q ↦ rw q v
  | inr q ↦ rw q (elim (Bool-cases r.terms_accepted) [
    | inl a ↦ rw a (
        gated-IsValid (s.gate nil_id e c r.admission_token d) (validate s e c (answers_of r) d)
          (guest_checkout_tx s citext_eq w r e c) d (guest_checkout_tx_post s citext_eq w r e c d v)
          v)
    | inr a ↦ rw a v
  ])
]

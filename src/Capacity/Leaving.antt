-- ===== src/Capacity/Leaving.antt =====
-- Claims, cancellations, refunds and the expiry of orders (modules/orders) against the invariant.
use ivyticketing.Base.{ℕ, ◌+◌, ◌≡◌, refl, String, List, [], ◌∷◌}
use ivyticketing.Base.Int.{ℤ}
use ivyticketing.Store.Rows.{Database, Order, OrderStatus, ReservationStatus}
use ivyticketing.Store.Tx.{ok_inj, modify, ok, err, Result, Tx, ◌>>◌, pure}
use ivyticketing.Store.Post.{
  Post, Post-pure, Post-call, Post-one, Post-gets, Post-modify, Post-throw_if,
}
use ivyticketing.Inventory.{release}
use ivyticketing.Inventory.Queries.{update_reservation_status_by_order, with_status_by_order}
use ivyticketing.Orders.Queries.{
  update_order_status, with_status, link_order_to_participant, link_ticket_to_participant,
  record_order_refund,
}
use ivyticketing.Orders.Guest.{claim_order_tx}
use ivyticketing.Orders.Changes.{cancel_tx, refund_order_tx}
use ivyticketing.Orders.Expiration.{expire_one, expire_all}
use mathlib.Core.Path.{subst}
use ivyticketing.Capacity.Invariant.{IsBelow, Below-claim, Below-refund, Below-free}

-- A pending order leaves PENDING_PAYMENT and its reservations are freed.
module _ {Q : Order → Database → Type 0} where
  pub update_order_status_post :
      (id : ℕ) (s old : OrderStatus) (d : Database)
      → ((o : Order) → Q o (record d { orders = with_status id s old d.orders }))
      → Post (update_order_status id s old) d Q
  unfolding update_order_status
  update_order_status_post id s old d q =
      Post-one _ _ _ d λ o _. Post-modify _ _ d (Post-pure _ _ (q _))

module _ {Q : Unit {0} → Database → Type 0} where
  pub release_post :
      (id : ℕ) (s : ReservationStatus) (d : Database)
      → Q tt (record d { reservations = with_status_by_order id s d.reservations })
      → Post (release id s) d Q
  unfolding release update_reservation_status_by_order modify
  release_post id s d q = record { at = λ a d' h. subst (λ x. Q tt x) (cc) q }

-- `rm` and `tm` bound the active reservations and the slots taken of each category.
module _ (rm tm : ℕ → ℕ) where
  pub claim_order_tx_post :
      (user order : ℕ) (d : Database)
      → IsBelow rm tm d
      → Post (claim_order_tx user order) d (λ _ d'. IsBelow rm tm d')
  unfolding claim_order_tx link_order_to_participant link_ticket_to_participant
  claim_order_tx_post user order d v = Post-one _ _ _ d λ o _. Post-throw_if _ _ _ d λ _.
      Post-call _ _ d (
        Post-one _ _ _ d λ x _. Post-gets _ _ d (
          Post-throw_if _ _ _ d λ _.
            Post-modify _ _ d
              (Post-pure _ _ (Post-modify _ _ _ (Post-pure _ _ (Below-claim v order user))))))

  pub cancel_tx_post :
      (participant order : ℕ) (d : Database)
      → IsBelow rm tm d
      → Post (cancel_tx participant order) d (λ _ d'. IsBelow rm tm d')
  unfolding cancel_tx
  cancel_tx_post participant order d v = Post-one _ _ _ d λ o _. Post-throw_if _ _ _ d λ _.
      Post-throw_if _ _ _ d λ _. Post-call _ _ d (
        update_order_status_post order _ _ d λ _.
          release_post order ReservationStatus.released _
            (Below-free v order ReservationStatus.released OrderStatus.cancelled refl refl refl))

  pub refund_order_tx_post :
      (org event order : ℕ) (amount : ℤ) (reason : String) (now : ℕ) (d : Database)
      → IsBelow rm tm d
      → Post (refund_order_tx org event order amount reason now) d (λ _ d'. IsBelow rm tm d')
  unfolding refund_order_tx record_order_refund
  refund_order_tx_post org event order amount reason now d v = Post-one _ _ _ d λ o _.
      Post-throw_if _ _ _ d λ _. Post-throw_if _ _ _ d λ _.
        Post-one _ _ _ d λ x _. Post-modify _ _ d (Post-pure _ _ (Below-refund v order _ _ now))

  expire_one_post :
      (id : ℕ) (d : Database) → IsBelow rm tm d → Post (expire_one id) d (λ _ d'. IsBelow rm tm d')
  unfolding expire_one
  expire_one_post id d v = record { at = λ n d' h. go n d' (first d) refl h }
    where
      first : Tx Order
      first = update_order_status id OrderStatus.expired OrderStatus.pending_payment

      rest : Tx ℕ
      rest = release id ReservationStatus.expired >> pure 1

      go :
          (n : ℕ) (d' : Database) (r : Result (Order × Database))
          → first d ≡ r
          → (elim r as (λ _. Result (ℕ × Database)) [ err _ ↦ ok (0, d) | ok (_, d1) ↦ rest d1 ])
            ≡ ok (n, d')
          → IsBelow rm tm d'
      go n d' (err e) q h = subst (λ p. IsBelow rm tm p.1) (ok_inj h) v
      go n d' (ok (o, d1)) q h = (settled.at o d1 q).at n d' h
        where
          settled : Post first d (λ _ d1. Post rest d1 (λ _ d'. IsBelow rm tm d'))
          settled = update_order_status_post id _ _ d λ _. Post-call _ _ _ (
              release_post id ReservationStatus.expired _ (
                Post-pure _ _
                  (Below-free v id ReservationStatus.expired OrderStatus.expired refl refl refl)))

  pub expire_all_post :
      (ids : List ℕ) (n : ℕ) (d : Database)
      → IsBelow rm tm d
      → Post (expire_all ids n) d (λ _ d'. IsBelow rm tm d')
  unfolding expire_all
  expire_all_post [] n d v = record { at = λ m d' h. subst (λ p. IsBelow rm tm p.1) (ok_inj h) v }
  expire_all_post (id ∷ ids) n d v = record {
    at = λ m d' h. go m d' (expire_one id d) refl h (λ k d1 w. expire_all_post ids (n + k) d1 w);
  }
    where
      go :
          (m : ℕ) (d' : Database) (r : Result (ℕ × Database))
          → expire_one id d ≡ r
          → (elim r as (λ _. Result (ℕ × Database)) [
            | err e ↦ err e
            | ok (k, d1) ↦ expire_all ids (n + k) d1
          ])
            ≡ ok (m, d')
          → ((k : ℕ) (d1 : Database)
              → IsBelow rm tm d1
              → Post (expire_all ids (n + k)) d1 (λ _ d'. IsBelow rm tm d'))
          → IsBelow rm tm d'
      go m d' (err e) q h later = cc
      go m d' (ok (k, d1)) q h later = (later k d1 ((expire_one_post id d v).at k d1 q)).at m d' h

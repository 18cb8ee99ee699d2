-- ===== src/Capacity/Counts.antt =====
-- How the writes of the services move the two counts that a category's capacity bounds.
use ivyticketing.Base.{
  inl, inr, Bool-cases, ℕ, ◌+◌, ◌≤◌, ◌<◌, ◌≡◌, ◌≢◌, refl, Bool, true, false, ◌&&◌, List, [], ◌∷◌,
  All, ◌==◌, arith, count_where, if◌then◌else◌,
}
use mathlib.Core.Path.{subst, subst₂}
use ivyticketing.Store.Rows.{
  Order, InventoryReservation, OrderStatus, ReservationStatus, is_active, same_status,
}
use ivyticketing.Inventory.Queries.{active_count, sold_count, with_status_by_order}
use ivyticketing.Orders.Queries.{with_status}

-- The slots of the category `c` that the order `id` holds.
abbrev pub holds_slot : ℕ → ℕ → InventoryReservation → Bool
holds_slot id c r = r.order_id == id && (r.category_id == c && is_active r.status)

abbrev pub holds : Order → InventoryReservation → Bool
holds o = holds_slot o.id o.category_id

-- An order that waits for its payment has an active reservation.
abbrev pub Held : List InventoryReservation → Order → Type 0
Held rs o = same_status o.status OrderStatus.pending_payment ≡ true → 0 < count_where (holds o) rs

-- No two orders have one identifier.
abbrev pub Distinct : List Order → Type 0
Distinct [] = Unit
Distinct (o ∷ os) = All (λ x. x.id ≢ o.id) os × Distinct os

-- Releasing the reservations of an order frees the slots that it holds.
pub release_count :
    (id c : ℕ) (s : ReservationStatus) (rs : List InventoryReservation)
    → is_active s ≡ false
    → active_count c (with_status_by_order id s rs) + count_where (holds_slot id c) rs
      ≡ active_count c rs
unfolding active_count with_status_by_order
release_count id c s [] h = omega arith
release_count id c s (r ∷ rs) h = ground (arith, release_count id c s rs h)

-- Releasing the reservations of one order leaves those of another as they are.
pub release_other :
    (id : ℕ) (s : ReservationStatus) (o : Order) (rs : List InventoryReservation)
    → o.id ≢ id
    → count_where (holds o) (with_status_by_order id s rs) ≡ count_where (holds o) rs
unfolding with_status_by_order
release_other id s o [] h = refl
release_other id s o (r ∷ rs) h = ground (arith, release_other id s o rs h)

abbrev pub sells : OrderStatus → ℕ
sells s = if same_status s OrderStatus.paid then 1 else 0

-- The pending orders of the category with the identifier `id`.
abbrev pub awaits : ℕ → ℕ → Order → Bool
awaits id c o =
    o.id == id && (o.category_id == c && same_status o.status OrderStatus.pending_payment)

-- A pending order that is paid adds to the sold ones; with any other status it adds nothing.
pub paid_count :
    (id c : ℕ) (os : List Order)
    → sold_count c (with_status id OrderStatus.paid OrderStatus.pending_payment os)
      ≡ sold_count c os + count_where (awaits id c) os
unfolding sold_count with_status
paid_count id c [] = omega arith
paid_count id c (o ∷ os) = ground (arith, paid_count id c os)

pub unpaid_count :
    (id c : ℕ) (s : OrderStatus) (os : List Order)
    → same_status s OrderStatus.paid ≡ false
    → sold_count c (with_status id s OrderStatus.pending_payment os) ≡ sold_count c os
unfolding sold_count with_status
unpaid_count id c s [] h = refl
unpaid_count id c s (o ∷ os) h = ground (arith, unpaid_count id c s os h)

none_awaits :
    (id c : ℕ) (os : List Order) → All (λ x. x.id ≢ id) os → count_where (awaits id c) os ≡ 0
none_awaits id c [] h = refl
none_awaits id c (o ∷ os) h = ground (arith, none_awaits id c os h.1)

awaits_id : (id c : ℕ) (o : Order) → awaits id c o ≡ true → o.id ≡ id
awaits_id id c o e = ground arith

awaits_status :
    (id c : ℕ) (o : Order)
    → awaits id c o ≡ true
    → same_status o.status OrderStatus.pending_payment ≡ true
awaits_status id c o e = ground arith

held_slot :
    (id c : ℕ) (o : Order) (rs : List InventoryReservation)
    → awaits id c o ≡ true
    → 0 < count_where (holds o) rs
    → 0 < count_where (holds_slot id c) rs
held_slot id c o rs e h =
    subst₂ (λ i k. 0 < count_where (holds_slot i k) rs) (awaits_id id c o e) (ground arith) h

-- A pending order holds at least the one slot that it would take when paid.
pub awaits-le-holds :
    (id c : ℕ) (os : List Order) (rs : List InventoryReservation)
    → Distinct os
    → All (Held rs) os
    → count_where (awaits id c) os ≤ count_where (holds_slot id c) rs
awaits-le-holds id c [] rs d h = omega arith
awaits-le-holds id c (o ∷ os) rs d h = elim (Bool-cases (awaits id c o)) [
  | inl e ↦ rw e (
      omega (
        arith,
        none_awaits id c os (subst (λ k. All (λ x. x.id ≢ k) os) (awaits_id id c o e) d.0),
        held_slot id c o rs e (h.0 (awaits_status id c o e)),
      ))
  | inr e ↦ rw e (omega (arith, awaits-le-holds id c os rs d.1 h.1))
]

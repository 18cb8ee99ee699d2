-- ===== src/Capacity/Invariant.antt =====
-- The invariant of a category's slots, over the three tables that it speaks of, and the four kinds
-- of write: an order is placed, a pending order is settled, an order is refunded, a guest's order
-- is claimed.
use ivyticketing.Base.{
  ==_iff, ℕ, suc, ◌+◌, ◌≤◌, ◌<◌, ◌≡◌, ◌≢◌, refl, sym, Bool, true, false, Option, none, some, List,
  [], ◌∷◌, All, ◌==◌, arith, inl, inr, Bool-cases, count_where, update_where, if◌then◌else◌,
  is_some, String,
}
use mathlib.Core.Path.{subst, subst₂, subst₃}
use ivyticketing.Store.Rows.{
  Database, EventCategory, Order, InventoryReservation, OrderStatus, ReservationStatus, is_active,
  same_status,
}
use ivyticketing.Inventory.Queries.{
  active_count, sold_count, with_status_by_order, category_by_id, order_by_id,
}
use ivyticketing.Orders.Queries.{
  has_status, with_status, as_refunded, with_refund, with_participant,
}
use ivyticketing.Capacity.Counts.{
  holds_slot, Held, Distinct, release_count, release_other, paid_count, unpaid_count,
  awaits-le-holds,
}

abbrev pub capacity_of : ℕ → List EventCategory → ℕ
capacity_of c cats = elim (category_by_id c cats) [ none ↦ 0 | some x ↦ x.capacity ]

-- The slots of a category that are taken: its active reservations and its paid orders.
abbrev pub taken : ℕ → List Order → List InventoryReservation → ℕ
taken c os rs = active_count c rs + sold_count c os

pub record Fits (cats : List EventCategory) (os : List Order) (rs : List InventoryReservation)
    : Type 0 where
  pub distinct : Distinct os
  pub held : All (Held rs) os
  pub within : (c : ℕ) → taken c os rs ≤ capacity_of c cats

abbrev pub IsValid : Database → Type 0
IsValid d = Fits d.categories d.orders d.reservations

-- Writes that keep the identifiers keep them distinct.
module _ (p : Order → Bool) (f : Order → Order) (same : (o : Order) → (f o).id ≡ o.id) where
  other-update :
      (id : ℕ) (os : List Order)
      → All (λ x. x.id ≢ id) os
      → All (λ x. x.id ≢ id) (update_where p f os)
  other-update id [] h = tt
  other-update id (o ∷ os) h = ground (arith, same o, other-update id os h.1)

  pub Distinct-update : (os : List Order) → Distinct os → Distinct (update_where p f os)
  Distinct-update [] d = tt
  Distinct-update (o ∷ os) d = elim (Bool-cases (p o)) [
    | inl e ↦ rw (e, same o) (other-update o.id os d.0, Distinct-update os d.1)
    | inr e ↦ rw e (other-update o.id os d.0, Distinct-update os d.1)
  ]

-- A row that is not waiting has nothing to hold.
Held-settled :
    (rs : List InventoryReservation) (o : Order)
    → same_status o.status OrderStatus.pending_payment ≡ false
    → Held rs o
Held-settled rs o e h = cc

Held-release :
    (id : ℕ) (s : ReservationStatus) (t : OrderStatus) (o : Order) (rs : List InventoryReservation)
    → same_status t OrderStatus.pending_payment ≡ false
    → Held rs o
    → Held
        (with_status_by_order id s rs)
        (if has_status id OrderStatus.pending_payment o then record o { status = t } else o)
Held-release id s t o rs settled h =
    elim (Bool-cases (has_status id OrderStatus.pending_payment o)) [
      | inl e ↦ rw e (Held-settled _ (record o { status = t }) settled)
      | inr e ↦ rw e (λ p. rw (release_other id s o rs (ground arith)) (h p))
    ]

pub Held-settle :
    (id : ℕ) (s : ReservationStatus) (t : OrderStatus) (os : List Order)
    (rs : List InventoryReservation)
    → same_status t OrderStatus.pending_payment ≡ false
    → All (Held rs) os
    → All (Held (with_status_by_order id s rs)) (with_status id t OrderStatus.pending_payment os)
unfolding with_status
Held-settle id s t [] rs settled h = tt
Held-settle id s t (o ∷ os) rs settled h =
    (Held-release id s t o rs settled h.0, Held-settle id s t os rs settled h.1)

module _ {cats : List EventCategory} {os : List Order} {rs : List InventoryReservation} where
  -- A pending order is paid, and its reservations are completed.
  pub Fits-pay :
      (id : ℕ)
      → Fits cats os rs
      → Fits cats
          (with_status id OrderStatus.paid OrderStatus.pending_payment os)
          (with_status_by_order id ReservationStatus.completed rs)
  unfolding with_status
  Fits-pay id v = record {
    distinct = Distinct-update _ _ (λ o. refl) os v.distinct;
    held = Held-settle id _ _ os rs refl v.held;
    within = λ c. omega (
      arith,
      v.within c,
      paid_count id c os,
      release_count id c ReservationStatus.completed rs refl,
      awaits-le-holds id c os rs v.distinct v.held,
    );
  }

  -- A pending order is cancelled or expires, and its reservations are freed.
  pub Fits-free :
      (id : ℕ) (s : ReservationStatus) (t : OrderStatus)
      → is_active s ≡ false
      → same_status t OrderStatus.pending_payment ≡ false
      → same_status t OrderStatus.paid ≡ false
      → Fits cats os rs
      → Fits cats (with_status id t OrderStatus.pending_payment os) (with_status_by_order id s rs)
  unfolding with_status
  Fits-free id s t inactive settled unpaid v = record {
    distinct = Distinct-update _ _ (λ o. refl) os v.distinct;
    held = Held-settle id s t os rs settled v.held;
    within = λ c.
        omega (arith, v.within c, unpaid_count id c t os unpaid, release_count id c s rs inactive);
  }

-- A row more holds no fewer slots.
Held-cons :
    (r : InventoryReservation) (os : List Order) (rs : List InventoryReservation)
    → All (Held rs) os
    → All (Held (r ∷ rs)) os
Held-cons r [] rs h = tt
Held-cons r (o ∷ os) rs h = ((λ p. omega (arith, h.0 p)), Held-cons r os rs h.1)

pub fresh :
    (id : ℕ) (os : List Order) → is_some (order_by_id id os) ≡ false → All (λ x. x.id ≢ id) os
unfolding order_by_id
fresh id [] h = tt
fresh id (o ∷ os) h = (ground arith, fresh id os (ground arith))

module _ (c : ℕ) (o : Order) (r : InventoryReservation) (os : List Order)
    (rs : List InventoryReservation) (same : r.category_id ≡ o.category_id)
    (unpaid : same_status o.status OrderStatus.paid ≡ false) where
  taken_placed : taken c (o ∷ os) (r ∷ rs) ≤ suc (taken c os rs)
  unfolding active_count sold_count
  taken_placed = ground arith

  taken_elsewhere : (o.category_id == c) ≡ false → taken c (o ∷ os) (r ∷ rs) ≤ taken c os rs
  unfolding active_count sold_count
  taken_elsewhere e = ground arith

-- A pending order is placed in a category that is not full, with its reservation.
pub Fits-place :
    {cats : List EventCategory} {os : List Order} {rs : List InventoryReservation} (o : Order)
    (r : InventoryReservation)
    → is_some (order_by_id o.id os) ≡ false
    → r.order_id ≡ o.id
    → r.category_id ≡ o.category_id
    → is_active r.status ≡ true
    → same_status o.status OrderStatus.paid ≡ false
    → taken o.category_id os rs < capacity_of o.category_id cats
    → Fits cats os rs
    → Fits cats (o ∷ os) (r ∷ rs)
Fits-place {cats} {os} {rs} o r new same_order same_category active unpaid room v = record {
  distinct = (fresh o.id os new, v.distinct);
  held = ((λ _. ground arith), Held-cons r os rs v.held);
  within = λ c. elim (Bool-cases (o.category_id == c)) [
    | inl e ↦ omega (
      arith,
      taken_placed c o r os rs same_category unpaid,
      subst (λ k. taken k os rs < capacity_of k cats) ((==_iff _ c).0 e) room,
    )
    | inr e ↦ omega (arith, taken_elsewhere c o r os rs same_category unpaid e, v.within c)
  ];
}

-- What a write does to rows one by one: it keeps the identifier and the category, it makes no
-- order wait that did not, and sells none that was not sold.
pub record Lowers (f : Order → Order) : Type 0 where
  pub same_id : (o : Order) → (f o).id ≡ o.id
  pub same_category : (o : Order) → (f o).category_id ≡ o.category_id
  pub waits_less :
      (o : Order)
      → same_status (f o).status OrderStatus.pending_payment ≡ true
      → same_status o.status OrderStatus.pending_payment ≡ true
  pub sells_less :
      (o : Order)
      → same_status (f o).status OrderStatus.paid ≡ true
      → same_status o.status OrderStatus.paid ≡ true

module _ (p : Order → Bool) (f : Order → Order) (low : Lowers f) where
  Held-update :
      (os : List Order) (rs : List InventoryReservation)
      → All (Held rs) os
      → All (Held rs) (update_where p f os)
  Held-update [] rs h = tt
  Held-update (o ∷ os) rs h = elim (Bool-cases (p o)) [
    | inl e ↦ rw e (
      (λ w.
          subst₂ (λ i k. 0 < count_where (holds_slot i k) rs) (sym (low.same_id o))
            (sym (low.same_category o)) (h.0 (low.waits_less o w))),
      Held-update os rs h.1,
    )
    | inr e ↦ rw e (h.0, Held-update os rs h.1)
  ]

  sold-update : (c : ℕ) (os : List Order) → sold_count c (update_where p f os) ≤ sold_count c os
  unfolding sold_count
  sold-update c [] = omega arith
  sold-update c (o ∷ os) = ground (arith, low.same_category o, low.sells_less o, sold-update c os)

  pub Fits-lower :
      {cats : List EventCategory} {os : List Order} {rs : List InventoryReservation}
      → Fits cats os rs
      → Fits cats (update_where p f os) rs
  Fits-lower {cats} {os} {rs} v = record {
    distinct = Distinct-update p f low.same_id os v.distinct;
    held = Held-update os rs v.held;
    within = λ c. omega (arith, v.within c, sold-update c os);
  }

as_refunded-Lowers :
    (amount : ℕ) (reason : Option String) (now : ℕ) → Lowers (as_refunded amount reason now)
as_refunded-Lowers amount reason now = record {
  same_id = λ o. refl;
  same_category = λ o. refl;
  waits_less = λ o w. cc;
  sells_less = λ o w. cc;
}

pub as_claimed : ℕ → Order → Order
as_claimed user o = record o { participant_id = some user }

as_claimed-Lowers : (user : ℕ) → Lowers (as_claimed user)
unfolding as_claimed
as_claimed-Lowers user = record {
  same_id = λ o. refl;
  same_category = λ o. refl;
  waits_less = λ o w. w;
  sells_less = λ o w. w;
}

-- The invariant, with bounds on the active reservations and on the slots taken of each category.
-- What leaves an order's slot alone, frees it or sells it stays below bounds that it started from.
pub record Below (a t : ℕ → ℕ) (cats : List EventCategory) (os : List Order)
    (rs : List InventoryReservation) : Type 0 where
  pub fits : Fits cats os rs
  pub active_le : (c : ℕ) → active_count c rs ≤ a c
  pub taken_le : (c : ℕ) → taken c os rs ≤ t c

abbrev pub IsBelow : (ℕ → ℕ) → (ℕ → ℕ) → Database → Type 0
IsBelow a t d = Below a t d.categories d.orders d.reservations

pub IsBelow-same :
    {a t : ℕ → ℕ} (d d' : Database)
    → d'.categories ≡ d.categories
    → d'.orders ≡ d.orders
    → d'.reservations ≡ d.reservations
    → IsBelow a t d
    → IsBelow a t d'
IsBelow-same {a} {t} d d' p q r v = subst₃ (Below a t) (sym p) (sym q) (sym r) v

module _ {a t : ℕ → ℕ} {cats : List EventCategory} {os : List Order}
    {rs : List InventoryReservation} (v : Below a t cats os rs) where
  pub Below-pay :
      (id : ℕ)
      → Below a t cats
          (with_status id OrderStatus.paid OrderStatus.pending_payment os)
          (with_status_by_order id ReservationStatus.completed rs)
  Below-pay id = record {
    fits = Fits-pay id v.fits;
    active_le =
        λ c. omega (arith, v.active_le c, release_count id c ReservationStatus.completed rs refl);
    taken_le = λ c. omega (
      arith,
      v.taken_le c,
      paid_count id c os,
      release_count id c ReservationStatus.completed rs refl,
      awaits-le-holds id c os rs v.fits.distinct v.fits.held,
    );
  }

  pub Below-free :
      (id : ℕ) (s : ReservationStatus) (u : OrderStatus)
      → is_active s ≡ false
      → same_status u OrderStatus.pending_payment ≡ false
      → same_status u OrderStatus.paid ≡ false
      → Below a t cats
          (with_status id u OrderStatus.pending_payment os)
          (with_status_by_order id s rs)
  Below-free id s u inactive settled unpaid = record {
    fits = Fits-free id s u inactive settled unpaid v.fits;
    active_le = λ c. omega (arith, v.active_le c, release_count id c s rs inactive);
    taken_le = λ c.
        omega
          (arith, v.taken_le c, unpaid_count id c u os unpaid, release_count id c s rs inactive);
  }

  lower :
      (p : Order → Bool) (f : Order → Order) → Lowers f → Below a t cats (update_where p f os) rs
  lower p f low = record {
    fits = Fits-lower p f low v.fits;
    active_le = v.active_le;
    taken_le = λ c. omega (arith, v.taken_le c, sold-update p f low c os);
  }

  pub Below-refund :
      (id amount : ℕ) (reason : Option String) (now : ℕ)
      → Below a t cats (with_refund id amount reason now os) rs
  unfolding with_refund
  Below-refund id amount reason now = lower _ _ (as_refunded-Lowers amount reason now)

  pub Below-claim : (id user : ℕ) → Below a t cats (with_participant id user os) rs
  unfolding as_claimed with_participant
  Below-claim id user = lower _ _ (as_claimed-Lowers user)

-- ===== src/Capacity/Interleaving.antt =====
-- The check of a category counts the active reservations first and the paid orders after, in two
-- statements (services/api/internal/modules/inventory/service.go). Its lock stops other checkouts
-- of the category, but not payments, cancellations, refunds and expiries, which can commit between
-- the two counts and before the order is inserted.
use ivyticketing.Base.{ℕ, ◌+◌, ◌≤◌, arith}
use ivyticketing.Store.Rows.{Database}
use ivyticketing.Inventory.Queries.{count_active_reservations_by_category, count_paid_by_category}
use ivyticketing.Capacity.Invariant.{IsValid, IsBelow}
use ivyticketing.Capacity.Steps.{Leaves, Leaves-IsBelow, exact}

-- Any number of operations that place no order.
pub data Leaves* (d : Database) : Database → Type 0 where
  done : Leaves* d d
  then : {d' d'' : Database} → Leaves* d d' → Leaves d' d'' → Leaves* d d''

Leaves*-IsBelow :
    (rm tm : ℕ → ℕ) {d d' : Database} → Leaves* d d' → IsBelow rm tm d → IsBelow rm tm d'
Leaves*-IsBelow rm tm done v = v
Leaves*-IsBelow rm tm (then r l) v = Leaves-IsBelow rm tm l (Leaves*-IsBelow rm tm r v)

-- Reservations counted at `d1` and paid orders counted later at `d2` are together no fewer than the
-- slots taken when the order is inserted at `d3`, whatever payments, claims, cancellations, refunds
-- and expiries commit in between: the check errs on the safe side only.
pub split_count_is_safe :
    {d1 d2 d3 : Database}
    → IsValid d1
    → Leaves* d1 d2
    → Leaves* d2 d3
    → (c : ℕ)
    → count_active_reservations_by_category c d3 + count_paid_by_category c d3
      ≤ count_active_reservations_by_category c d1 + count_paid_by_category c d2
split_count_is_safe {d1} {d2} v r1 r2 c =
    let at2 = Leaves*-IsBelow _ _ r1 (exact d1 v) in
    omega (arith, at2.active_le c, (Leaves*-IsBelow _ _ r2 (exact d2 at2.fits)).taken_le c)

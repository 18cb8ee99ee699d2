-- ===== src/Capacity/Steps.antt =====
-- The system as a transition relation on the tables: any checkout, claim, cancellation, refund,
-- expiry or payment callback, in any order, with any arguments, gate, clock and random draws.
-- Transactions run one after another here; Capacity/Interleaving is about what can happen between
-- the two counts of a check.
use ivyticketing.Base.{sym, Bool, ℕ, ◌+◌, ◌≤◌, ◌≡◌, String, Option, none, [], arith}
use mathlib.Core.Path.{subst₂}
use native.Mathlib.Nat.{le_refl}
use ivyticketing.Base.Int.{ℤ}
use ivyticketing.Store.Rows.{Database}
use ivyticketing.Store.Tx.{exec_tx-keeps}
use ivyticketing.Inventory.Queries.{
  active_count, sold_count, count_paid_by_category, count_active_reservations_by_category,
}
use ivyticketing.Orders.Service.{Service, Draws, Token}
use ivyticketing.Orders.Checkout.{checkout}
use ivyticketing.Orders.Guest.{GuestCheckoutRequest, guest_checkout, claim_order, claim_order_tx}
use ivyticketing.Orders.Changes.{cancel, cancel_tx, refund_order, refund_order_tx}
use ivyticketing.Orders.Expiration.{expire_orders}
use ivyticketing.Orders.Queries.{list_expired_pending_orders}
use ivyticketing.Payments.Processor.{Processor, Moment, CallbackResult, Gateway, apply, process_raw}
use ivyticketing.Capacity.Invariant.{Fits, IsValid, IsBelow, taken, capacity_of}
use ivyticketing.Capacity.Spares.{SameTables, IsBelow-Spares}
use ivyticketing.Capacity.Placing.{checkout-IsValid, guest_checkout-IsValid}
use ivyticketing.Capacity.Leaving.{
  claim_order_tx_post, cancel_tx_post, refund_order_tx_post, expire_all_post,
}
use ivyticketing.Capacity.Paying.{apply-IsBelow, process_raw-IsBelow}

-- The operations that place no order.
pub data Leaves (d : Database) : Database → Type 0 where
  claims : (user order : ℕ) → Leaves d (claim_order user order d).1
  cancels : (participant order : ℕ) → Leaves d (cancel participant order d).1
  refunds :
      (org event order : ℕ) (amount : ℤ) (reason : String) (now : ℕ)
      → Leaves d (refund_order org event order amount reason now d).1
  expires : (now batch : ℕ) → Leaves d (expire_orders now batch d).1
  receives :
      (p : Processor) (w : Moment) (g : Gateway) (id : ℕ) (signature : Option String)
      (headers body : String)
      → Leaves d (process_raw p w g id signature headers body d).1
  reconciles :
      (p : Processor) (w : Moment) (gateway : String) (res : CallbackResult)
      → Leaves d (apply p w none gateway res d).1
  -- Any other module, as long as it leaves categories, orders and reservations alone.
  elsewhere : (d' : Database) → SameTables d d' → Leaves d d'

pub data Step (d : Database) : Database → Type 0 where
  leaves : {d' : Database} → Leaves d d' → Step d d'
  checks_out :
      (s : Service) (w : Draws) (participant event category : ℕ) (t : Token)
      (answers : Option String)
      → Step d (checkout s w participant event category t answers d).1
  guest_checks_out :
      (s : Service) (citext_eq : String → String → Bool) (w : Draws) (r : GuestCheckoutRequest)
      (event category : ℕ)
      → Step d (guest_checkout s citext_eq w r event category d).1

pub data Reach (d : Database) : Database → Type 0 where
  here : Reach d d
  next : {d' d'' : Database} → Reach d d' → Step d' d'' → Reach d d''

pub Leaves-IsBelow :
    (rm tm : ℕ → ℕ) {d d' : Database} → Leaves d d' → IsBelow rm tm d → IsBelow rm tm d'
unfolding claim_order cancel refund_order expire_orders
Leaves-IsBelow rm tm {d} (claims user order) v =
    exec_tx-keeps (IsBelow rm tm) (claim_order_tx user order) d
      (claim_order_tx_post rm tm user order d v).at v
Leaves-IsBelow rm tm {d} (cancels participant order) v =
    exec_tx-keeps (IsBelow rm tm) (cancel_tx participant order) d
      (cancel_tx_post rm tm participant order d v).at v
Leaves-IsBelow rm tm {d} (refunds org event order amount reason now) v =
    exec_tx-keeps (IsBelow rm tm) (refund_order_tx org event order amount reason now) d
      (refund_order_tx_post rm tm org event order amount reason now d v).at v
Leaves-IsBelow rm tm {d} (expires now batch) v =
    exec_tx-keeps (IsBelow rm tm) _ d
      (expire_all_post rm tm (list_expired_pending_orders now batch d) 0 d v).at v
Leaves-IsBelow rm tm {d} (receives p w g id signature headers body) v =
    process_raw-IsBelow rm tm p w g id body signature headers d v
Leaves-IsBelow rm tm {d} (reconciles p w gateway res) v =
    apply-IsBelow rm tm p w gateway res d v none
Leaves-IsBelow rm tm {d} (elsewhere d' same) v = IsBelow-Spares d d' same v

-- The bounds that hold at the tables themselves.
pub exact :
    (d : Database)
    → IsValid d
    → IsBelow (λ c. active_count c d.reservations) (λ c. taken c d.orders d.reservations) d
exact d v = record { fits = v; active_le = λ c. le_refl _; taken_le = λ c. le_refl _ }

pub Step-IsValid : {d d' : Database} → Step d d' → IsValid d → IsValid d'
Step-IsValid {d} (leaves l) v = (Leaves-IsBelow _ _ l (exact d v)).fits
Step-IsValid {d} (checks_out s w p e c t answers) v = checkout-IsValid s w p e c t answers d v
Step-IsValid {d} (guest_checks_out s q w r e c) v = guest_checkout-IsValid s q w r e c d v

pub Reach-IsValid : {d d' : Database} → Reach d d' → IsValid d → IsValid d'
Reach-IsValid here v = v
Reach-IsValid (next r s) v = Step-IsValid s (Reach-IsValid r v)

-- Tables with no order and no reservation are valid.
pub start-IsValid : (d : Database) → d.orders ≡ [] → d.reservations ≡ [] → IsValid d
unfolding active_count sold_count
start-IsValid d p q =
    subst₂ (Fits d.categories) (sym p) (sym q)
      (record { distinct = tt; held = tt; within = λ c. omega arith })

-- No category is oversold: from tables with no order and no reservation, after any sequence of
-- checkouts, claims, cancellations, refunds, expiries and payment callbacks, the paid orders and
-- the active reservations of a category together stay within its capacity.
pub no_overselling :
    {d d' : Database}
    → d.orders ≡ []
    → d.reservations ≡ []
    → Reach d d'
    → (c : ℕ)
    → count_paid_by_category c d' + count_active_reservations_by_category c d'
      ≤ capacity_of c d'.categories
no_overselling {d} {d'} p q r c = omega (arith, (Reach-IsValid r (start-IsValid d p q)).within c)

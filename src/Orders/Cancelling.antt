-- ===== src/Orders/Cancelling.antt =====
-- Cancellations (`Service.Cancel`, modules/orders/service.go): what each outcome means.
use ivyticketing.Base.{
  ℕ, ◌+◌, ◌≡◌, ◌≢◌, refl, Bool, true, false, not, ◌&&◌, ◌⊎◌, ◌==◌, some, List, [], ◌∷◌, arith, find,
  filter, count_where,
}
use ivyticketing.Store.Rows.{
  Database, Order, OrderStatus, InventoryReservation, ReservationStatus, same_status,
}
use ivyticketing.Store.Tx.{Result, ok, err, invalid_state, order_not_found}
use ivyticketing.Inventory.Queries.{order_by_id}
use ivyticketing.Orders.Queries.{with_status, order_by_status}

-- The orders but for one, and the reservations but for those of one order.
abbrev pub other_orders : ℕ → List Order → List Order
other_orders id = filter (λ o. not (o.id == id))

abbrev pub other_reservations : ℕ → List InventoryReservation → List InventoryReservation
other_reservations id = filter (λ r. not (r.order_id == id))

abbrev pub same_reservation_status : ReservationStatus → ReservationStatus → Bool
same_reservation_status ReservationStatus.active ReservationStatus.active = true
same_reservation_status ReservationStatus.expired ReservationStatus.expired = true
same_reservation_status ReservationStatus.completed ReservationStatus.completed = true
same_reservation_status ReservationStatus.released ReservationStatus.released = true
same_reservation_status _ _ = false

-- How many reservations of an order have a status.
abbrev pub reservations_of : ℕ → ReservationStatus → List InventoryReservation → ℕ
reservations_of id s = count_where (λ r. r.order_id == id && same_reservation_status r.status s)

-- The order `x` has been cancelled: its row has the new status, its active reservations are released,
-- and every other row is as before.
pub record Cancelled (id : ℕ) (x : Order) (d d' : Database) : Type 0 where
  pub order_cancelled :
      order_by_id id d'.orders ≡ some (record x { status = OrderStatus.cancelled })
  pub other_orders_kept : other_orders id d'.orders ≡ other_orders id d.orders
  pub none_active : reservations_of id ReservationStatus.active d'.reservations ≡ 0
  pub active_released :
      reservations_of id ReservationStatus.released d'.reservations
      ≡ reservations_of id ReservationStatus.released d.reservations
        + reservations_of id ReservationStatus.active d.reservations
  pub completed_kept :
      reservations_of id ReservationStatus.completed d'.reservations
      ≡ reservations_of id ReservationStatus.completed d.reservations
  pub expired_kept :
      reservations_of id ReservationStatus.expired d'.reservations
      ≡ reservations_of id ReservationStatus.expired d.reservations
  pub other_reservations_kept :
      other_reservations id d'.reservations ≡ other_reservations id d.reservations
  pub rest : d' ≡ record d { orders = d'.orders; reservations = d'.reservations }

-- What a cancellation by `participant` of the order `x` has done, by how it ended.
abbrev pub CancelOutcome : ℕ → ℕ → Order → Database → Result (Unit {0}) × Database → Type 0
CancelOutcome participant id x d (ok _, d') =
    (x.participant_id ≡ some participant)
    × (x.status ≡ OrderStatus.pending_payment)
    × Cancelled id x d d'
CancelOutcome participant id x d (err e, d') =
    (d' ≡ d)
    × ((x.participant_id ≢ some participant) × (e ≡ order_not_found)
        ⊎ (x.participant_id ≡ some participant)
          × (x.status ≢ OrderStatus.pending_payment)
          × (e ≡ invalid_state))

pub order_by_id-with_status :
    (id : ℕ) (s old : OrderStatus) (os : List Order) {x : Order}
    → order_by_id id os ≡ some x
    → same_status x.status old ≡ true
    → order_by_id id (with_status id s old os) ≡ some (record x { status = s })
unfolding order_by_id with_status
order_by_id-with_status id s old [] e q = cc
order_by_id-with_status id s old (o ∷ os) {x} e q =
    ground
      (arith, λ (r : find (λ y. y.id == id) os ≡ some x). order_by_id-with_status id s old os r q)

pub order_by_status-found :
    (id : ℕ) (s : OrderStatus) (os : List Order) {x : Order}
    → order_by_id id os ≡ some x
    → same_status x.status s ≡ true
    → order_by_status id s os ≡ some x
unfolding order_by_id order_by_status
order_by_status-found id s [] e p = cc
order_by_status-found id s (o ∷ os) {x} e p =
    ground (arith, λ (q : find (λ y. y.id == id) os ≡ some x). order_by_status-found id s os q p)

pub is_pending_order :
    (s : OrderStatus)
    → same_status s OrderStatus.pending_payment ≡ true
    → s ≡ OrderStatus.pending_payment
is_pending_order OrderStatus.pending_payment h = refl
is_pending_order OrderStatus.draft h = cc
is_pending_order OrderStatus.paid h = cc
is_pending_order OrderStatus.expired h = cc
is_pending_order OrderStatus.cancelled h = cc
is_pending_order OrderStatus.refunded h = cc

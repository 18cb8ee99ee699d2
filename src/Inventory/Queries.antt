-- ===== src/Inventory/Queries.antt =====
-- The queries of the module inventory (services/api/internal/db/inventory.sql.go and orders.sql.go,
-- with the constraints of database/migrations/00013_create_inventory_reservations.sql).
use ivyticketing.Base.{
  ℕ, Bool, not, ◌&&◌, ◌||◌, Option, List, ◌∷◌, ◌==◌, is_some, find, count_where, update_where,
}
use ivyticketing.Store.Rows.{
  Database, EventCategory, Order, InventoryReservation, OrderStatus, ReservationStatus, User, User,
  is_active, same_status,
}
use ivyticketing.Store.Tx.{Tx, ◌>>=◌, ◌>>◌, throw_if, modify, pure, gets, constraint_violation}

unfoldable pub category_by_id : ℕ → List EventCategory → Option EventCategory
category_by_id id = find (λ c. c.id == id)

abbrev pub find_category : ℕ → Database → Option EventCategory
find_category id d = category_by_id id d.categories

-- `category_id = $1 AND status = 'ACTIVE'`.
abbrev pub takes_slot : ℕ → InventoryReservation → Bool
takes_slot c r = r.category_id == c && is_active r.status

-- `category_id = $1 AND status = 'PAID'`.
abbrev pub is_sold : ℕ → Order → Bool
is_sold c o = o.category_id == c && same_status o.status OrderStatus.paid

unfoldable pub active_count : ℕ → List InventoryReservation → ℕ
active_count c = count_where (takes_slot c)

unfoldable pub sold_count : ℕ → List Order → ℕ
sold_count c = count_where (is_sold c)

abbrev pub count_active_reservations_by_category : ℕ → Database → ℕ
count_active_reservations_by_category c d = active_count c d.reservations

abbrev pub count_paid_by_category : ℕ → Database → ℕ
count_paid_by_category c d = sold_count c d.orders

unfoldable pub user_by_id : ℕ → List User → Option User
user_by_id id = find (λ u. u.id == id)

abbrev pub has_user : ℕ → Database → Bool
has_user id d = is_some (user_by_id id d.users)

unfoldable pub order_by_id : ℕ → List Order → Option Order
order_by_id id = find (λ o. o.id == id)

-- The primary key and `order_id UNIQUE`.
unfoldable pub clashes : ℕ → ℕ → List InventoryReservation → Bool
clashes id order_id rs = is_some (find (λ x. x.id == id || x.order_id == order_id) rs)

-- The keys, and the references to `orders` and `users`. (The category and the event are those of
-- the order.)
abbrev pub violates : InventoryReservation → Database → Bool
violates r d =
    clashes r.id r.order_id d.reservations
    || not (is_some (order_by_id r.order_id d.orders))
    || not (has_user r.participant_id d)

unfoldable pub create_reservation : InventoryReservation → Tx InventoryReservation
create_reservation r = do
  broken ← gets (violates r)
  throw_if broken constraint_violation
  modify (λ d. record d { reservations = r ∷ d.reservations })
  pure r

-- `SET status = $2 WHERE order_id = $1 AND status = 'ACTIVE'`.
unfoldable pub with_status_by_order :
    ℕ → ReservationStatus → List InventoryReservation → List InventoryReservation
with_status_by_order order_id s =
    update_where (λ r. r.order_id == order_id && is_active r.status) (λ r. record r { status = s })

unfoldable pub update_reservation_status_by_order : ℕ → ReservationStatus → Tx (Unit {0})
update_reservation_status_by_order order_id s =
    modify (λ d. record d { reservations = with_status_by_order order_id s d.reservations })

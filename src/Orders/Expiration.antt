-- ===== src/Orders/Expiration.antt =====
-- `Service.ExpireOrders` (services/api/internal/modules/orders/expiration.go), which the worker
-- runs on a timer.
use ivyticketing.Base.{ℕ, ◌+◌, List, [], ◌∷◌}
use ivyticketing.Store.Rows.{Database, OrderStatus, ReservationStatus}
use ivyticketing.Store.Tx.{Tx, ◌>>◌, Result, ok, err, pure, exec_tx}
use ivyticketing.Inventory.{release}
use ivyticketing.Orders.Queries.{list_expired_pending_orders, update_order_status}

-- One round of the loop: 1 if the order has expired, and 0 if its row has left PENDING_PAYMENT, in
-- which case it is skipped.
unfoldable pub expire_one : ℕ → Tx ℕ
expire_one id d = elim (update_order_status id OrderStatus.expired OrderStatus.pending_payment d) [
  | err _ ↦ ok (0, d)
  | ok (_, d') ↦ (release id ReservationStatus.expired >> pure 1) d'
]

unfoldable pub expire_all : List ℕ → ℕ → Tx ℕ
expire_all [] expired d = ok (expired, d)
expire_all (id ∷ ids) expired d = elim (expire_one id d) [
  | err e ↦ err e
  | ok (n, d') ↦ expire_all ids (expired + n) d'
]

unfoldable pub expire_orders : ℕ → ℕ → Database → Result ℕ × Database
expire_orders now batch d = exec_tx (expire_all (list_expired_pending_orders now batch d) 0) d

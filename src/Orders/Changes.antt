-- ===== src/Orders/Changes.antt =====
-- `Service.Cancel`, `Service.RefundOrder` and `Service.GetForParticipant`
-- (services/api/internal/modules/orders/service.go).
use ivyticketing.Base.{ℕ, String, not, ◌||◌, none, some, is_id, ◌!=◌, if◌then◌else◌}
use ivyticketing.Base.Int.{ℤ, pos, pos_part, leb_ℤ, ltb_ℤ}
use ivyticketing.Store.Rows.{Database, Order, OrderStatus, ReservationStatus, same_status}
use ivyticketing.Store.Tx.{
  Tx, ◌>>=◌, ◌>>◌, Result, ok, err, one, throw_if, exec_tx, order_not_found, invalid_state,
}
use ivyticketing.Inventory.{release}
use ivyticketing.Orders.Queries.{get_order_by_id, update_order_status, record_order_refund}
use ivyticketing.Orders.Guest.{null_text}

unfoldable pub get_for_participant : ℕ → ℕ → Database → Result Order
get_for_participant participant_id order_id d = elim (get_order_by_id order_id d) [
  | none ↦ err order_not_found
  | some o ↦ if not (is_id o.participant_id participant_id) then err order_not_found else ok o
]

unfoldable pub cancel_tx : ℕ → ℕ → Tx (Unit {0})
cancel_tx participant_id order_id = do
  order ← one (get_order_by_id order_id) order_not_found
  throw_if (not (is_id order.participant_id participant_id)) order_not_found
  throw_if (not (same_status order.status OrderStatus.pending_payment)) invalid_state
  _ ← update_order_status order_id OrderStatus.cancelled OrderStatus.pending_payment
  release order_id ReservationStatus.released

unfoldable pub cancel : ℕ → ℕ → Database → Result (Unit {0}) × Database
cancel participant_id order_id = exec_tx (cancel_tx participant_id order_id)

-- An amount that is not positive, or is above the total, stands for the whole total.
abbrev pub refund_amount : ℤ → ℕ → ℕ
refund_amount amount total =
    if leb_ℤ amount (pos 0) || ltb_ℤ (pos total) amount then total else pos_part amount

unfoldable pub refund_order_tx : ℕ → ℕ → ℕ → ℤ → String → ℕ → Tx Order
refund_order_tx org_id event_id order_id amount reason now = do
  order ← one (get_order_by_id order_id) order_not_found
  throw_if (order.organization_id != org_id || order.event_id != event_id) order_not_found
  throw_if (not (same_status order.status OrderStatus.paid)) invalid_state
  record_order_refund order_id (refund_amount amount order.total) (null_text reason) now

unfoldable pub refund_order : ℕ → ℕ → ℕ → ℤ → String → ℕ → Database → Result Order × Database
refund_order org_id event_id order_id amount reason now =
    exec_tx (refund_order_tx org_id event_id order_id amount reason now)

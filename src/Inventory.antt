-- ===== src/Inventory.antt =====
-- The module inventory (services/api/internal/modules/inventory): the count of free slots, the
-- check under the lock on the category's row, and the reservations. The lock makes a transaction
-- that checks a category run alone on it, which is how a transaction is modelled; what other
-- transactions can do between its two counts is in Capacity/Interleaving.
pub mod Queries
pub mod Laws
use ivyticketing.Base.{ℕ, ◌+◌, Bool, if◌then◌else◌}
use ivyticketing.Base.Int.{ℤ, pos, sub_ℕ, ltb_ℤ, leb_ℤ}
use ivyticketing.Store.Rows.{Database, EventCategory, InventoryReservation, ReservationStatus}
use ivyticketing.Store.Tx.{Tx, ◌>>=◌, ◌>>◌, pure, one, gets, throw_if, category_not_found, sold_out}
use Queries.{
  find_category, count_active_reservations_by_category, count_paid_by_category, create_reservation,
  update_reservation_status_by_order,
}

-- int64 arithmetic; the three counts are never negative.
unfoldable pub remaining : ℕ → ℕ → ℕ → ℤ
remaining capacity reserved paid =
    let r = sub_ℕ capacity (reserved + paid) in if ltb_ℤ r (pos 0) then pos 0 else r

unfoldable pub has_capacity : ℕ → ℕ → ℕ → Bool
has_capacity capacity reserved paid = ltb_ℤ (pos 0) (sub_ℕ capacity (reserved + paid))

pub record CheckResult : Type 0 where
  pub category : EventCategory
  pub reserved : ℕ
  pub paid : ℕ
  pub remaining : ℤ

unfoldable pub check_and_lock : ℕ → Tx CheckResult
unfolding remaining
check_and_lock category_id = do
  cat ← one (find_category category_id) category_not_found
  reserved ← gets (count_active_reservations_by_category category_id)
  paid ← gets (count_paid_by_category category_id)
  let rem = remaining cat.capacity reserved paid
  throw_if (leb_ℤ rem (pos 0)) sold_out
  pure (record { category = cat; reserved = reserved; paid = paid; remaining = rem })

unfoldable pub reserve : InventoryReservation → Tx InventoryReservation
reserve r = create_reservation r

unfoldable pub release : ℕ → ReservationStatus → Tx (Unit {0})
release order_id status = update_reservation_status_by_order order_id status

-- ===== src/Inventory/Laws.antt =====
-- The arithmetic of the slots and the check (modules/inventory).
use ivyticketing.Base.{ltb, if◌then◌else◌, ℕ, ◌+◌, ◌-◌, ◌<◌, ◌≡◌, ◌↔◌, true, some, arith}
use ivyticketing.Base.Int.{pos, pos_part}
use ivyticketing.Store.Rows.{Database, EventCategory}
use ivyticketing.Store.Tx.{◌>>=◌, ok, err, sold_out}
use ivyticketing.Store.Post.{Reads}
use ivyticketing.Inventory.{remaining, has_capacity, check_and_lock}
use ivyticketing.Inventory.Queries.{
  find_category, count_active_reservations_by_category, count_paid_by_category,
}

-- The free slots are capacity less reserved and paid, and never negative.
pub remaining_lem : (c r p : ℕ) → remaining c r p ≡ pos (c - (r + p))
unfolding remaining
remaining_lem c r p = ground arith

pub has_capacity_iff : (c r p : ℕ) → (has_capacity c r p ≡ true) ↔ (0 < pos_part (remaining c r p))
unfolding has_capacity remaining
has_capacity_iff c r p = (λ h. ground arith, λ h. ground arith)

-- The outcome of the check at a category that exists: the tables are left as they are, and it fails
-- with `sold_out` exactly where reserved and paid fill the capacity.
pub check_and_lock_outcome :
    (c : ℕ) (d : Database) {cat : EventCategory}
    → find_category c d ≡ some cat
    → let reserved = count_active_reservations_by_category c d in
      let paid = count_paid_by_category c d in
      check_and_lock c d ≡ (
        if ltb (reserved + paid) cat.capacity
        then ok (
          record {
            category = cat;
            reserved = reserved;
            paid = paid;
            remaining = pos (cat.capacity - (reserved + paid));
          },
          d,
        )
        else err sold_out)
unfolding check_and_lock remaining ◌>>=◌
check_and_lock_outcome c d {cat} found = ground arith

-- The check writes nothing.
pub check_and_lock-Reads : (c : ℕ) → Reads (check_and_lock c)
unfolding check_and_lock remaining ◌>>=◌
check_and_lock-Reads c = record { same = λ d a d' h. ground arith }

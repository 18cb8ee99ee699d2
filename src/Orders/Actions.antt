-- ===== src/Orders/Actions.antt =====
-- The actions that a checkout is built from (modules/orders, modules/inventory), as rules.
use ivyticketing.Base.{ℕ, zero, suc, ◌+◌, ◌≡◌, String, Option, ◌∷◌, false, arith, is_some}
use ivyticketing.Store.Rows.{Database, Order, InventoryReservation}
use ivyticketing.Store.Tx.{ok}
use ivyticketing.Store.Post.{Post, Reads, Post-pure, Post-gets, Post-modify, Post-throw_if}
use ivyticketing.Inventory.{reserve}
use ivyticketing.Inventory.Queries.{order_by_id, create_reservation}
use ivyticketing.Orders.Queries.{create_order}
use ivyticketing.Orders.Service.{unique_order_number, draw_order_number}

draw_order_number-same :
    (draw : ℕ → Option String) (rounds i : ℕ) (d : Database) (n : String) (d' : Database)
    → draw_order_number draw rounds i d ≡ ok (n, d')
    → d' ≡ d
unfolding draw_order_number
draw_order_number-same draw zero i d n d' h = cc
draw_order_number-same draw (suc rounds) i d n d' h =
    ground (arith, draw_order_number-same draw rounds (i + 1) d n d')

pub unique_order_number-Reads : (draw : ℕ → Option String) → Reads (unique_order_number draw)
unfolding unique_order_number
unique_order_number-Reads draw = record {
  same = λ d a d' h. draw_order_number-same draw 5 0 d a d' h;
}

module _ {Q : Order → Database → Type 0} where
  pub create_order_post :
      (o : Order) (d : Database)
      → (is_some (order_by_id o.id d.orders) ≡ false → Q o (record d { orders = o ∷ d.orders }))
      → Post (create_order o) d Q
  unfolding create_order
  create_order_post o d q =
      Post-gets _ _ d
        (Post-throw_if _ _ _ d λ sound. Post-modify _ _ d (Post-pure o _ (q (ground arith))))

module _ {Q : InventoryReservation → Database → Type 0} where
  pub reserve_post :
      (r : InventoryReservation) (d : Database)
      → Q r (record d { reservations = r ∷ d.reservations })
      → Post (reserve r) d Q
  unfolding reserve create_reservation
  reserve_post r d q =
      Post-gets _ _ d (Post-throw_if _ _ _ d λ sound. Post-modify _ _ d (Post-pure r _ q))

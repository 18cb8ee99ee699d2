-- ===== src/Orders/Expiry.antt =====
-- The run of the expiry (modules/orders/expiration.go), row by row.
use ivyticketing.Base.{
  ℕ, zero, suc, ◌+◌, ◌≤◌, ◌≡◌, ◌≢◌, refl, ◌∙◌, ap, Bool, true, false, ◌&&◌, ◌||◌, ◌==◌, none, List,
  [], ◌∷◌, map, arith, find, filter, take, length, All, Option-cases, sym, if◌then◌else◌,
  Bool-cases, inl, inr,
}
use mathlib.Core.Path.{ap₂, subst}
use ivyticketing.Store.Rows.{Database, Order, OrderStatus, ReservationStatus, same_status}
use ivyticketing.Store.Tx.{ok, ◌>>=◌, exec_tx_ok}
use ivyticketing.Inventory.{release}
use ivyticketing.Inventory.Queries.{update_reservation_status_by_order, with_status_by_order}
use ivyticketing.Orders.Queries.{
  with_status, order_by_status, update_order_status, has_status, is_overdue, insert_by_expiry,
  order_by_expiry, list_expired_pending_orders,
}
use ivyticketing.Orders.Expiration.{expire_one, expire_all, expire_orders}
use ivyticketing.Capacity.Counts.{Distinct}

abbrev has_id : List ℕ → ℕ → Bool
has_id [] i = false
has_id (x ∷ xs) i = x == i || has_id xs i

abbrev expired_rows : List ℕ → List Order → List Order
expired_rows [] os = os
expired_rows (id ∷ ids) os =
    expired_rows ids (with_status id OrderStatus.expired OrderStatus.pending_payment os)

-- A row that is not found is not changed either.
with_status-none :
    (id : ℕ) (s old : OrderStatus) (os : List Order)
    → order_by_status id old os ≡ none
    → with_status id s old os ≡ os
unfolding with_status order_by_status
with_status-none id s old [] h = refl
with_status-none id s old (o ∷ os) h =
    ground (arith, λ (q : find (has_status id old) os ≡ none). with_status-none id s old os q)

expire_one-rows :
    (id : ℕ) (d : Database)
    → (n : ℕ) × (d' : Database) × (expire_one id d ≡ ok (n, d'))
      × (d'.orders ≡ with_status id OrderStatus.expired OrderStatus.pending_payment d.orders)
unfolding expire_one update_order_status release update_reservation_status_by_order ◌>>=◌
expire_one-rows id d =
    elim (Option-cases (order_by_status id OrderStatus.pending_payment d.orders)) [
      | inl e ↦ (0, d, ground arith, sym (with_status-none id _ _ d.orders e))
      | inr (o, e) ↦ (1, settled, ground arith, refl)
    ]
  where
    settled : Database
    settled = record d {
      orders = with_status id OrderStatus.expired OrderStatus.pending_payment d.orders;
      reservations = with_status_by_order id ReservationStatus.expired d.reservations;
    }

-- The expiry of a list of orders always succeeds.
expire_all-rows :
    (ids : List ℕ) (n : ℕ) (d : Database)
    → (m : ℕ) × (d' : Database) × (expire_all ids n d ≡ ok (m, d'))
      × (d'.orders ≡ expired_rows ids d.orders)
unfolding expire_all
expire_all-rows [] n d = (n, d, refl, refl)
expire_all-rows (id ∷ ids) n d =
    let (k, d1, e1, r1) = expire_one-rows id d in
    let (m, d', e', r') = expire_all-rows ids (n + k) d1 in
    (m, d', rw (e1, expire_all) e', r' ∙ ap (expired_rows ids) r1)

abbrev lapse : Order → Order
lapse o = record o { status = OrderStatus.expired }

-- The rounds of the loop, row by row.
rows_once : List ℕ → Order → Order
rows_once ids o =
    if has_id ids o.id && same_status o.status OrderStatus.pending_payment then lapse o else o

rows_once-step :
    (id : ℕ) (ids : List ℕ) (xs : List Order)
    → map (rows_once ids) (with_status id OrderStatus.expired OrderStatus.pending_payment xs)
      ≡ map (rows_once (id ∷ ids)) xs
unfolding with_status
rows_once-step id ids [] = refl
rows_once-step id ids (o ∷ xs) = ap₂ (λ y ys. y ∷ ys) (row o) (rows_once-step id ids xs)
  where
    row :
        (o : Order)
        → rows_once ids (if has_status id OrderStatus.pending_payment o then lapse o else o)
          ≡ rows_once (id ∷ ids) o
    row o = unfold rows_once in ground arith

map-rows_once-nil : (os : List Order) → map (rows_once []) os ≡ os
unfolding rows_once
map-rows_once-nil [] = refl
map-rows_once-nil (o ∷ os) = ap (λ x. o ∷ x) (map-rows_once-nil os)

expired_rows-map : (ids : List ℕ) (os : List Order) → expired_rows ids os ≡ map (rows_once ids) os
expired_rows-map [] os = sym (map-rows_once-nil os)
expired_rows-map (id ∷ ids) os = expired_rows-map ids _ ∙ rows_once-step id ids os

-- The identifiers that the query lists are those of the overdue orders, where the batch holds all.
abbrev ids_of : List Order → List ℕ
ids_of = map (λ o. o.id)

has_id-insert :
    (o : Order) (os : List Order) (i : ℕ)
    → has_id (ids_of (insert_by_expiry o os)) i ≡ (o.id == i || has_id (ids_of os) i)
unfolding insert_by_expiry
has_id-insert o [] i = refl
has_id-insert o (x ∷ os) i = ground (arith, has_id-insert o os i)

has_id-order_by_expiry :
    (os : List Order) (i : ℕ) → has_id (ids_of (order_by_expiry os)) i ≡ has_id (ids_of os) i
unfolding order_by_expiry
has_id-order_by_expiry [] i = refl
has_id-order_by_expiry (o ∷ os) i =
    has_id-insert o (order_by_expiry os) i ∙ ap (λ b. o.id == i || b) (has_id-order_by_expiry os i)

length-insert : (o : Order) (os : List Order) → length (insert_by_expiry o os) ≡ suc (length os)
unfolding insert_by_expiry
length-insert o [] = refl
length-insert o (x ∷ os) = ground (arith, length-insert o os)

length-order_by_expiry : (os : List Order) → length (order_by_expiry os) ≡ length os
unfolding order_by_expiry
length-order_by_expiry [] = refl
length-order_by_expiry (o ∷ os) =
    length-insert o (order_by_expiry os) ∙ ap suc (length-order_by_expiry os)

take-all : {A : Type 0} (n : ℕ) (xs : List A) → length xs ≤ n → take n xs ≡ xs
take-all zero [] h = refl
take-all zero (x ∷ xs) h = absurd (omega arith)
take-all (suc n) [] h = refl
take-all (suc n) (x ∷ xs) h = ap (λ ys. x ∷ ys) (take-all n xs (omega arith))

has_id-listed :
    (now batch : ℕ) (d : Database) (i : ℕ)
    → length (filter (is_overdue now) d.orders) ≤ batch
    → has_id (list_expired_pending_orders now batch d) i
      ≡ has_id (ids_of (filter (is_overdue now) d.orders)) i
unfolding list_expired_pending_orders
has_id-listed now batch d i h =
    let overdue = filter (is_overdue now) d.orders in
    rw (take-all batch (order_by_expiry overdue) (omega (arith, length-order_by_expiry overdue)))
      (has_id-order_by_expiry overdue i)

-- With distinct identifiers an order's identifier is listed exactly if the order is overdue.
not_listed :
    (p : Order → Bool) (i : ℕ) (os : List Order)
    → All (λ x. x.id ≢ i) os
    → has_id (ids_of (filter p os)) i ≡ false
not_listed p i [] h = refl
not_listed p i (o ∷ os) h = ground (arith, not_listed p i os h.1)

listed_behind :
    (p : Order → Bool) (i : ℕ) (ids : List ℕ) (os : List Order)
    → All (λ x. x.id ≢ i) os
    → All (λ x. has_id ids x.id ≡ p x) os
    → All (λ x. has_id (i ∷ ids) x.id ≡ p x) os
listed_behind p i ids [] h a = tt
listed_behind p i ids (x ∷ os) h a = (ground (arith, h.0, a.0), listed_behind p i ids os h.1 a.1)

listed :
    (p : Order → Bool) (os : List Order)
    → Distinct os
    → All (λ o. has_id (ids_of (filter p os)) o.id ≡ p o) os
listed p [] h = tt
listed p (o ∷ os) h = elim (Bool-cases (p o)) [
  | inl e ↦ (
    ground (arith, e),
    subst Fit (sym (filter_head e))
        (listed_behind p o.id (ids_of (filter p os)) os h.0 (listed p os h.1)),
  )
  | inr e ↦ (
    rw (filter_skip e, e) (not_listed p o.id os h.0),
    subst Fit (sym (filter_skip e)) (listed p os h.1),
  )
]
  where
    Fit : List Order → Type 0
    Fit xs = All (λ x. has_id (ids_of xs) x.id ≡ p x) os

    filter_head : p o ≡ true → filter p (o ∷ os) ≡ o ∷ filter p os
    filter_head e = rw e refl

    filter_skip : p o ≡ false → filter p (o ∷ os) ≡ filter p os
    filter_skip e = rw e refl

-- Every row that is not overdue stays, and every row that is overdue lapses.
abbrev pub expired_if_overdue : ℕ → Order → Order
expired_if_overdue now o = if is_overdue now o then lapse o else o

rows_as_overdue :
    (now : ℕ) (ids : List ℕ) (os : List Order)
    → All (λ o. has_id ids o.id ≡ is_overdue now o) os
    → map (rows_once ids) os ≡ map (expired_if_overdue now) os
unfolding rows_once
rows_as_overdue now ids [] h = refl
rows_as_overdue now ids (o ∷ os) h =
    ap₂ (λ y ys. y ∷ ys) (ground (arith, h.0)) (rows_as_overdue now ids os h.1)

listed_ids :
    (now batch : ℕ) (d : Database) (os : List Order)
    → length (filter (is_overdue now) d.orders) ≤ batch
    → All (λ o. has_id (ids_of (filter (is_overdue now) d.orders)) o.id ≡ is_overdue now o) os
    → All (λ o. has_id (list_expired_pending_orders now batch d) o.id ≡ is_overdue now o) os
listed_ids now batch d [] h a = tt
listed_ids now batch d (o ∷ os) h a =
    (has_id-listed now batch d o.id h ∙ a.0, listed_ids now batch d os h a.1)

-- Where no two orders have one identifier and the batch holds every overdue order, one run of the
-- expiry succeeds. It turns every order that waits for its payment past its deadline into an
-- EXPIRED one, and leaves every other order as it is.
pub expire_orders_exact :
    (now batch : ℕ) (d : Database)
    → Distinct d.orders
    → length (filter (is_overdue now) d.orders) ≤ batch
    → (m : ℕ) × ((expire_orders now batch d).0 ≡ ok m)
      × ((expire_orders now batch d).1.orders ≡ map (expired_if_overdue now) d.orders)
unfolding expire_orders
expire_orders_exact now batch d distinct h =
    let ids = list_expired_pending_orders now batch d in
    let (m, d', e, r) = expire_all-rows ids 0 d in
    let exact =
      r
      ∙ expired_rows-map ids d.orders
      ∙ rows_as_overdue now ids d.orders
          (listed_ids now batch d d.orders h (listed (is_overdue now) d.orders distinct)) in
    let run = exec_tx_ok (expire_all ids 0) d e in
    (m, ap (λ x. x.0) run, ap (λ x. x.1.orders) run ∙ exact)

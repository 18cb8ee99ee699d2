-- ===== src/Orders/Queries.antt =====
-- The queries of the module orders (services/api/internal/db/orders.sql.go and access.sql.go, and
-- orders/repository.go). A query takes the clock as an argument where the SQL calls now().
use ivyticketing.Base.{
  ℕ, String, Bool, true, false, not, ◌&&◌, ◌||◌, Option, none, some, List, [], ◌∷◌, map, ◌==◌, ltb,
  is_id, is_some, str_eq, find, filter, take, count_where, update_where, if◌then◌else◌,
}
use ivyticketing.Store.Rows.{
  Database, Event, Order, AccessGrant, OrderStatus, GrantStatus, same_status,
}
use ivyticketing.Store.Tx.{
  Tx, ◌>>=◌, ◌>>◌, one, throw_if, modify, pure, gets, no_rows, constraint_violation,
  grant_already_consumed,
}
use ivyticketing.Inventory.Queries.{order_by_id, has_user}

unfoldable pub event_by_id : ℕ → List Event → Option Event
event_by_id id = find (λ e. e.id == id)

abbrev pub get_event_by_id : ℕ → Database → Option Event
get_event_by_id id d = event_by_id id d.events

abbrev pub get_order_by_id : ℕ → Database → Option Order
get_order_by_id id d = order_by_id id d.orders

unfoldable pub order_by_number : String → List Order → Option Order
order_by_number number = find (λ o. str_eq o.order_number number)

abbrev pub get_order_by_number : String → Database → Option Order
get_order_by_number number d = order_by_number number d.orders

-- `status IN ('PENDING_PAYMENT','PAID')`.
abbrev pub is_live : Order → Bool
is_live o =
    same_status o.status OrderStatus.pending_payment || same_status o.status OrderStatus.paid

unfoldable pub count_active_orders_for_user_category : ℕ → ℕ → Database → ℕ
count_active_orders_for_user_category category_id participant_id d =
    count_where
      (λ o. o.category_id == category_id && is_id o.participant_id participant_id && is_live o)
      d.orders

-- `guest_email` is of type citext, whose comparison `citext_eq` is the database's.
unfoldable pub count_active_orders_for_guest_category :
    (String → String → Bool) → ℕ → String → Database → ℕ
count_active_orders_for_guest_category citext_eq category_id email d =
    count_where (λ o. o.category_id == category_id && is_email o.guest_email && is_live o) d.orders
  where
    is_email : Option String → Bool
    is_email none = false
    is_email (some e) = citext_eq e email

-- The reference of a nullable `participant_id` to `users`.
abbrev pub has_participant : Option ℕ → Database → Bool
has_participant none d = true
has_participant (some p) d = has_user p d

-- The primary key, `order_number UNIQUE`, the reference to `users` and `orders_identity_check`.
abbrev pub violates : Order → Database → Bool
violates o d =
    is_some (get_order_by_id o.id d)
    || is_some (get_order_by_number o.order_number d)
    || not (has_participant o.participant_id d)
    || not (is_some o.participant_id || (is_some o.guest_email && is_some o.guest_name))

-- `CreateOrder` and `CreateGuestOrder`, which differ in the columns they fill.
unfoldable pub create_order : Order → Tx Order
create_order o = do
  broken ← gets (violates o)
  throw_if broken constraint_violation
  modify (λ d. record d { orders = o ∷ d.orders })
  pure o

-- `SET participant_id = $2 WHERE id = $1 AND participant_id IS NULL`.
abbrev pub is_unclaimed : ℕ → Order → Bool
is_unclaimed id o = o.id == id && not (is_some o.participant_id)

unfoldable pub unclaimed_by_id : ℕ → List Order → Option Order
unclaimed_by_id id = find (is_unclaimed id)

unfoldable pub with_participant : ℕ → ℕ → List Order → List Order
with_participant id user =
    update_where (is_unclaimed id) (λ x. record x { participant_id = some user })

unfoldable pub link_order_to_participant : ℕ → ℕ → Tx Order
link_order_to_participant id user = do
  o ← one (λ d. unclaimed_by_id id d.orders) no_rows
  known ← gets (has_user user)
  throw_if (not known) constraint_violation
  modify (λ d. record d { orders = with_participant id user d.orders })
  pure (record o { participant_id = some user })

-- The error of this query is dropped by its only caller, so it returns the tables alone.
unfoldable pub link_ticket_to_participant : ℕ → ℕ → Tx (Unit {0})
link_ticket_to_participant order_id user = modify (λ d. record d {
  tickets =
      update_where (λ t. t.order_id == order_id && not (is_some t.participant_id))
        (λ t. record t { participant_id = some user }) d.tickets;
})

-- `WHERE id = $1 AND status = $3`.
abbrev pub has_status : ℕ → OrderStatus → Order → Bool
has_status id s o = o.id == id && same_status o.status s

unfoldable pub order_by_status : ℕ → OrderStatus → List Order → Option Order
order_by_status id s = find (has_status id s)

unfoldable pub with_status : ℕ → OrderStatus → OrderStatus → List Order → List Order
with_status id s old = update_where (has_status id old) (λ o. record o { status = s })

unfoldable pub update_order_status : ℕ → OrderStatus → OrderStatus → Tx Order
update_order_status id s old = do
  o ← one (λ d. order_by_status id old d.orders) no_rows
  modify (λ d. record d { orders = with_status id s old d.orders })
  pure (record o { status = s })

-- No guard on the status: the caller has checked it.
abbrev pub as_refunded : ℕ → Option String → ℕ → Order → Order
as_refunded amount reason now o = record o {
  status = OrderStatus.refunded;
  refunded_amount = amount;
  refund_reason = reason;
  refunded_at = some now;
}

unfoldable pub with_refund : ℕ → ℕ → Option String → ℕ → List Order → List Order
with_refund id amount reason now = update_where (λ x. x.id == id) (as_refunded amount reason now)

unfoldable pub record_order_refund : ℕ → ℕ → Option String → ℕ → Tx Order
record_order_refund id amount reason now = do
  o ← one (get_order_by_id id) no_rows
  modify (λ d. record d { orders = with_refund id amount reason now d.orders })
  pure (as_refunded amount reason now o)

-- `status = 'PENDING_PAYMENT' AND expired_at < now()`.
abbrev pub is_overdue : ℕ → Order → Bool
is_overdue now o = same_status o.status OrderStatus.pending_payment && before o.expired_at
  where
    before : Option ℕ → Bool
    before none = false
    before (some t) = ltb t now

-- `ORDER BY expired_at`; ties keep the order of the table.
abbrev pub expires_by : Order → Order → Bool
expires_by a b = at_most a.expired_at b.expired_at
  where
    at_most : Option ℕ → Option ℕ → Bool
    at_most none none = true
    at_most none (some _) = false
    at_most (some _) none = true
    at_most (some s) (some t) = not (ltb t s)

unfoldable pub insert_by_expiry : Order → List Order → List Order
insert_by_expiry o [] = o ∷ []
insert_by_expiry o (x ∷ xs) = if expires_by o x then o ∷ x ∷ xs else x ∷ insert_by_expiry o xs

unfoldable pub order_by_expiry : List Order → List Order
unfolding insert_by_expiry
order_by_expiry [] = []
order_by_expiry (o ∷ os) = insert_by_expiry o (order_by_expiry os)

unfoldable pub list_expired_pending_orders : ℕ → ℕ → Database → List ℕ
unfolding order_by_expiry
list_expired_pending_orders now limit d =
    map (λ o. o.id) (take limit (order_by_expiry (filter (is_overdue now) d.orders)))

unfoldable pub grant_by_id : ℕ → List AccessGrant → Option AccessGrant
grant_by_id id = find (λ g. g.id == id)

abbrev pub get_access_grant : ℕ → Database → Option AccessGrant
get_access_grant id d = grant_by_id id d.grants

abbrev pub is_active_grant : GrantStatus → Bool
is_active_grant GrantStatus.active = true
is_active_grant _ = false

-- `WHERE id = $1 AND status = 'ACTIVE'`.
abbrev pub is_usable : ℕ → AccessGrant → Bool
is_usable id g = g.id == id && is_active_grant g.status

unfoldable pub usable_by_id : ℕ → List AccessGrant → Option AccessGrant
usable_by_id id = find (is_usable id)

-- The nil identifier, 0, is stored as NULL.
unfoldable pub with_consumed : ℕ → ℕ → ℕ → List AccessGrant → List AccessGrant
with_consumed id order_id now = update_where (is_usable id) (λ g. record g {
  status = GrantStatus.consumed;
  consumed_at = some now;
  order_id = if order_id == 0 then none else some order_id;
})

-- `ConsumeAccessGrant`.
unfoldable pub consume_access_grant : ℕ → ℕ → ℕ → Tx (Unit {0})
consume_access_grant id order_id now = do
  _ ← one (λ d. usable_by_id id d.grants) grant_already_consumed
  modify (λ d. record d { grants = with_consumed id order_id now d.grants })

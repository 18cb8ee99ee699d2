-- ===== src/Access/Pools.antt =====
-- `PoolManager` (services/api/internal/modules/access/pool.go) with its queries
-- (services/api/internal/db/access.sql.go) and the checks of
-- database/migrations/00035_create_access_pools.sql. No transaction surrounds these statements: a
-- call that fails half-way leaves what it has written.
use ivyticketing.Base.{
  ℕ, ◌+◌, ◌-◌, Bool, true, false, not, ◌&&◌, ◌||◌, Option, none, some, List, [], ◌∷◌, ◌==◌, ltb,
  is_some, find, filter, take, update_where, if◌then◌else◌,
}
use ivyticketing.Store.Rows.{Database, AccessPool, AccessGrant, GrantStatus}
use ivyticketing.Store.Tx.{
  Result, ok, err, Error, pool_exhausted, constraint_violation, grant_not_found,
  grant_already_consumed, grant_expired,
}
use ivyticketing.Inventory.Queries.{has_user, find_category}
use ivyticketing.Orders.Queries.{get_event_by_id, is_active_grant, get_access_grant}
use ivyticketing.Orders.Service.{Token, grant, is_after}
use ivyticketing.Orders.Checkout.{is_consumed}

unfoldable pub pool_by_id : ℕ → List AccessPool → Option AccessPool
pool_by_id id = find (λ p. p.id == id)

unfoldable pub with_pool : ℕ → (AccessPool → AccessPool) → List AccessPool → List AccessPool
with_pool id = update_where (λ p. p.id == id)

-- `ReservePoolSlot`.
unfoldable pub reserve_slot : ℕ → Database → Result (Unit {0}) × Database
reserve_slot pool_id d = elim (pool_by_id pool_id d.pools) [
  | none ↦ (err pool_exhausted, d)
  | some p ↦
      if ltb (p.reserved_slots + p.used_slots) p.total_slots
      then (
        ok tt,
        record d {
          pools =
              with_pool pool_id (λ q. record q { reserved_slots = q.reserved_slots + 1 }) d.pools;
        },
      )
      else (err pool_exhausted, d)
]

-- A statement that takes a reserved slot away, which `access_pools_non_negative` forbids at 0. With
-- no row it does nothing.
unfoldable pub take_reserved :
    ℕ → (AccessPool → AccessPool) → Database → Result (Unit {0}) × Database
take_reserved pool_id f d = elim (pool_by_id pool_id d.pools) [
  | none ↦ (ok tt, d)
  | some p ↦
      if p.reserved_slots == 0
      then (err constraint_violation, d)
      else (ok tt, record d { pools = with_pool pool_id f d.pools })
]

abbrev pub as_used : AccessPool → AccessPool
as_used p = record p { reserved_slots = p.reserved_slots - 1; used_slots = p.used_slots + 1 }

abbrev pub as_released : AccessPool → AccessPool
as_released p = record p {
  reserved_slots = p.reserved_slots - 1;
  released_slots = p.released_slots + 1;
}

unfoldable pub consume_pool_slot : ℕ → Database → Result (Unit {0}) × Database
consume_pool_slot pool_id = take_reserved pool_id as_used

unfoldable pub release_pool_slot : ℕ → Database → Result (Unit {0}) × Database
release_pool_slot pool_id = take_reserved pool_id as_released

-- The references of a new grant, and its key.
abbrev pub grant_violates : AccessGrant → Database → Bool
grant_violates g d =
    is_some (find (λ x. x.id == g.id) d.grants)
    || not (has_pool g.pool_id)
    || not (has_user g.participant_id d)
    || not (is_some (get_event_by_id g.event_id d))
    || not (is_some (find_category g.category_id d))
  where
    has_pool : Option ℕ → Bool
    has_pool none = true
    has_pool (some p) = is_some (pool_by_id p d.pools)

-- `id` is the identifier that the database draws.
abbrev pub new_grant : ℕ → ℕ → ℕ → ℕ → ℕ → ℕ → AccessGrant
new_grant id pool_id participant_id event_id category_id expires_at = record {
  id = id;
  pool_id = some pool_id;
  participant_id = participant_id;
  event_id = event_id;
  category_id = category_id;
  status = GrantStatus.active;
  expires_at = some expires_at;
  consumed_at = none;
  order_id = none;
}

-- The outcome of `CreateGrant` from that of the update of the pool.
abbrev pub granted : ℕ → Result (Unit {0}) × Database → Result ℕ × Database
granted id (ok _, d) = (ok id, d)
granted id (err e, d) = (err e, d)

unfoldable pub create_grant : ℕ → ℕ → ℕ → ℕ → ℕ → ℕ → Database → Result ℕ × Database
create_grant id pool_id participant_id event_id category_id expires_at d =
    let g = new_grant id pool_id participant_id event_id category_id expires_at in
    if grant_violates g d
    then (err constraint_violation, d)
    else granted id (consume_pool_slot pool_id (record d { grants = g ∷ d.grants }))

-- `status = 'ACTIVE' AND expires_at < now()`.
abbrev pub is_stale : ℕ → AccessGrant → Bool
is_stale now g = is_active_grant g.status && past g.expires_at
  where
    past : Option ℕ → Bool
    past none = false
    past (some t) = ltb t now

unfoldable pub list_expired_active_grants : ℕ → ℕ → Database → List AccessGrant
list_expired_active_grants now limit d = take limit (filter (is_stale now) d.grants)

unfoldable pub expire_grant : ℕ → Database → Database
expire_grant id d = record d {
  grants = update_where (λ g. g.id == id) (λ g. record g { status = GrantStatus.expired }) d.grants;
}

-- The error of the release is dropped.
unfoldable pub release_for : Option ℕ → Database → Database
release_for none d = d
release_for (some pool_id) d = (release_pool_slot pool_id d).1

unfoldable pub expire_stale_grant : AccessGrant → Database → Database
expire_stale_grant g d = release_for g.pool_id (expire_grant g.id d)

unfoldable pub expire_each : List AccessGrant → Database → Database
expire_each [] d = d
expire_each (g ∷ gs) d = expire_each gs (expire_stale_grant g d)

unfoldable pub expire_stale_grants : ℕ → ℕ → Database → Database
expire_stale_grants now batch d = expire_each (list_expired_active_grants now batch d) d

abbrev pub is_expired_grant : GrantStatus → Bool
is_expired_grant GrantStatus.expired = true
is_expired_grant _ = false

-- `CheckGrant`: `none` is an admission.
unfoldable pub check_grant : ℕ → ℕ → Token → ℕ → Database → Option Error
check_grant participant_id category_id (grant id) now d = elim (get_access_grant id d) [
  | none ↦ some grant_not_found
  | some g ↦
      if not (g.participant_id == participant_id) || not (g.category_id == category_id)
      then some grant_not_found
      else if is_consumed g.status
      then some grant_already_consumed
      else if is_expired_grant g.status
      then some grant_expired
      else if is_after now g.expires_at
      then some grant_expired
      else none
]
check_grant participant_id category_id _ now d = some grant_not_found

-- ===== src/Access/Slots.antt =====
-- The counters of the pools (modules/access/pool.go).
use ivyticketing.Base.{
  ℕ, ◌+◌, ◌≡◌, refl, sym, ◌∙◌, ap, ◌==◌, Option, none, some, List, [], ◌∷◌, All, arith,
  if◌then◌else◌, Option-cases, inl, inr, All-find,
}
use mathlib.Core.Path.{subst, ap₂}
use ivyticketing.Store.Rows.{Database, AccessPool, AccessGrant}
use ivyticketing.Store.Tx.{ok}
use ivyticketing.Access.Pools.{
  pool_by_id, with_pool, reserve_slot, take_reserved, as_used, consume_pool_slot, release_pool_slot,
  create_grant, expire_grant, release_for, expire_stale_grant, expire_each, expire_stale_grants,
  list_expired_active_grants,
}

-- No slot of the pool is reserved without being used or given back.
abbrev pub Unreserved : AccessPool → Type 0
Unreserved p = p.reserved_slots ≡ 0

-- With no slot reserved, a release changes nothing.
release_pool_slot-Unreserved :
    (id : ℕ) (d : Database) → All Unreserved d.pools → (release_pool_slot id d).1 ≡ d
unfolding release_pool_slot take_reserved
release_pool_slot-Unreserved id d a = elim (Option-cases (pool_by_id id d.pools)) [
  | inl e ↦ ground (arith, e)
  | inr (p, e) ↦ ground (arith, e, unreserved p e)
]
  where
    unreserved : (p : AccessPool) → pool_by_id id d.pools ≡ some p → p.reserved_slots ≡ 0
    unreserved p e = unfold pool_by_id in All-find Unreserved (λ x. x.id == id) d.pools a e

release_for-pools :
    (pool : Option ℕ) (d : Database) → All Unreserved d.pools → (release_for pool d).pools ≡ d.pools
unfolding release_for
release_for-pools none d a = refl
release_for-pools (some id) d a = ap (λ x. x.pools) (release_pool_slot-Unreserved id d a)

expire_stale_grant-pools :
    (g : AccessGrant) (d : Database)
    → All Unreserved d.pools
    → (expire_stale_grant g d).pools ≡ d.pools
unfolding expire_stale_grant expire_grant
expire_stale_grant-pools g d a = release_for-pools g.pool_id _ a

expire_each-pools :
    (gs : List AccessGrant) (d : Database)
    → All Unreserved d.pools
    → (expire_each gs d).pools ≡ d.pools
unfolding expire_each
expire_each-pools [] d a = refl
expire_each-pools (g ∷ gs) d a =
    let same = expire_stale_grant-pools g d a in
    expire_each-pools gs (expire_stale_grant g d) (subst (All Unreserved) (sym same) a) ∙ same

-- The expiry of stale grants gives no slot back where no slot is reserved at that time: it leaves
-- the counters of every pool as they are.
pub expire_stale_grants-pools :
    (now batch : ℕ) (d : Database)
    → All Unreserved d.pools
    → (expire_stale_grants now batch d).pools ≡ d.pools
unfolding expire_stale_grants
expire_stale_grants-pools now batch d a =
    expire_each-pools (list_expired_active_grants now batch d) d a

abbrev pub as_reserved : AccessPool → AccessPool
as_reserved p = record p { reserved_slots = p.reserved_slots + 1 }

abbrev pub as_taken : AccessPool → AccessPool
as_taken p = record p { used_slots = p.used_slots + 1 }

with_pool-taken :
    (id : ℕ) (ps : List AccessPool)
    → with_pool id as_used (with_pool id as_reserved ps) ≡ with_pool id as_taken ps
unfolding with_pool
with_pool-taken id [] = refl
with_pool-taken id (p ∷ ps) = ap₂ (λ q qs. q ∷ qs) (row p) (with_pool-taken id ps)
  where
    row :
        (p : AccessPool)
        → (let q = (if p.id == id then as_reserved p else p) in if q.id == id then as_used q else q)
          ≡ (if p.id == id then as_taken p else p)
    row p = ground arith

reserve_slot-at :
    (pool : ℕ) (d : Database)
    → (reserve_slot pool d).0 ≡ ok tt
    → (reserve_slot pool d).1 ≡ record d { pools = with_pool pool as_reserved d.pools }
unfolding reserve_slot
reserve_slot-at pool d h = ground arith

create_grant-pools :
    (pool id participant event category expires : ℕ) (d : Database) {g : ℕ}
    → (create_grant id pool participant event category expires d).0 ≡ ok g
    → (create_grant id pool participant event category expires d).1.pools
      ≡ with_pool pool as_used d.pools
unfolding create_grant consume_pool_slot take_reserved
create_grant-pools pool id participant event category expires d h = ground arith

-- A slot that is reserved and then granted counts as used: where the two calls on one pool succeed,
-- they leave one slot more used, no slot more reserved, and the other pools as they are.
pub reserve_then_grant :
    (pool id participant event category expires : ℕ) (d : Database) {g : ℕ}
    → let d1 = (reserve_slot pool d).1 in
      (reserve_slot pool d).0 ≡ ok tt
      → (create_grant id pool participant event category expires d1).0 ≡ ok g
      → (create_grant id pool participant event category expires d1).1.pools
        ≡ with_pool pool as_taken d.pools
reserve_then_grant pool id participant event category expires d {g} h k =
    create_grant-pools pool id participant event category expires (reserve_slot pool d).1 k
    ∙ ap (λ x. with_pool pool as_used x.pools) (reserve_slot-at pool d h)
    ∙ with_pool-taken pool d.pools

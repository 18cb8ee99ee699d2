-- ===== src/Access/Admission.antt =====
-- The check of a grant at the gate (modules/access/pool.go) beside its use in the transaction of a
-- checkout (modules/orders/service.go).
use ivyticketing.Base.{ℕ, ◌≡◌, true, ◌==◌, none, some, List, [], ◌∷◌, arith, find}
use ivyticketing.Store.Rows.{Database, AccessGrant}
use ivyticketing.Store.Tx.{Result, ok, err, ◌>>=◌}
use ivyticketing.Orders.Queries.{
  grant_by_id, usable_by_id, with_consumed, consume_access_grant, is_active_grant,
}
use ivyticketing.Orders.Service.{grant}
use ivyticketing.Orders.Checkout.{consume_token, grant_error}
use ivyticketing.Access.Pools.{check_grant}

usable_by_id-found :
    (id : ℕ) (gs : List AccessGrant) {x : AccessGrant}
    → grant_by_id id gs ≡ some x
    → is_active_grant x.status ≡ true
    → usable_by_id id gs ≡ some x
unfolding grant_by_id usable_by_id
usable_by_id-found id [] e a = cc
usable_by_id-found id (g ∷ gs) {x} e a =
    ground (arith, λ (q : find (λ y. y.id == id) gs ≡ some x). usable_by_id-found id gs q a)

check_grant-grant_error :
    (p c id now : ℕ) (d : Database) {x : AccessGrant}
    → grant_by_id id d.grants ≡ some x
    → check_grant p c (grant id) now d ≡ grant_error x p c now
unfolding check_grant
check_grant-grant_error p c id now d e = ground arith

-- The gate and the checkout agree on a grant: on the same tables and at the same time, where the
-- gate admits the holder of a grant the checkout's transaction consumes it, and where the gate
-- refuses a grant that exists the transaction fails with the error of the gate.
pub check_grant_agrees :
    (p c id order now : ℕ) (d : Database) {x : AccessGrant}
    → grant_by_id id d.grants ≡ some x
    → consume_token (grant id) p c order now d
      ≡ elim (check_grant p c (grant id) now d) as (λ _. Result (Unit {0} × Database)) [
        | some e ↦ err e
        | none ↦ ok (tt, record d { grants = with_consumed id order now d.grants })
      ]
unfolding consume_token consume_access_grant ◌>>=◌
check_grant_agrees p c id order now d {x} e = ground (
  arith,
  check_grant-grant_error p c id now d e,
  λ (a : is_active_grant x.status ≡ true). usable_by_id-found id d.grants e a,
)

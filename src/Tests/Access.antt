-- ===== src/Tests/Access.antt =====
-- Runs on a pool.
use ivyticketing.Base.{◌≡◌, refl, some, none}
use ivyticketing.Store.Rows.{Database}
use ivyticketing.Store.Tx.{Result, ok, err}
use ivyticketing.Inventory.Queries.{user_by_id, category_by_id}
use ivyticketing.Orders.Queries.{grant_by_id, with_consumed, event_by_id}
use ivyticketing.Orders.Service.{Token}
use ivyticketing.Orders.Checkout.{consume_token}
use ivyticketing.Access.Pools.{
  reserve_slot, create_grant, consume_pool_slot, take_reserved, pool_by_id, with_pool, check_grant,
}
use ivyticketing.Access.Admission.{check_grant_agrees}
use ivyticketing.Tests.Data.{start, grant_five}

reserved : (reserve_slot 40 start).0 ≡ ok tt
unfolding reserve_slot pool_by_id
reserved = refl

granted : (create_grant 6 40 8 1 2 900 (reserve_slot 40 start).1).0 ≡ ok 6
unfolding reserve_slot pool_by_id with_pool create_grant consume_pool_slot take_reserved user_by_id
    category_by_id event_by_id
granted = refl

five_found : grant_by_id 5 start.grants ≡ some grant_five
unfolding grant_by_id
five_found = refl

check_grant_agrees_example :
    consume_token (Token.grant 5) 7 2 11 100 start
    ≡ elim (check_grant 7 2 (Token.grant 5) 100 start) as (λ _. Result (Unit {0} × Database)) [
      | some e ↦ err e
      | none ↦ ok (tt, record start { grants = with_consumed 5 11 100 start.grants })
    ]
check_grant_agrees_example = check_grant_agrees 7 2 5 11 100 start five_found

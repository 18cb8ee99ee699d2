-- ===== src/Orders/Grants.antt =====
-- The access grant of a checkout (modules/orders/service.go).
use mathlib.Core.Path.{subst}
use ivyticketing.Base.{
  sym, ℕ, ◌≡◌, ◌≢◌, refl, String, false, ◌==◌, Option, none, some, List, [], ◌∷◌, arith, find,
  if◌then◌else◌,
}
use ivyticketing.Store.Rows.{Database, AccessGrant, Order, GrantStatus}
use ivyticketing.Store.Tx.{ok, ◌>>=◌}
use ivyticketing.Store.Post.{
  Post, Post-pure, Post-bind, Post-call, Post-read, Post-one, Post-gets, Post-throw_if, Post-check,
}
use ivyticketing.Inventory.Laws.{check_and_lock-Reads}
use ivyticketing.Orders.Queries.{grant_by_id, with_consumed, consume_access_grant}
use ivyticketing.Orders.Service.{Service, Draws, grant, is_after}
use ivyticketing.Orders.Checkout.{checkout, checkout_tx, consume_token, new_order}
use ivyticketing.Orders.Actions.{unique_order_number-Reads, create_order_post, reserve_post}
use ivyticketing.Orders.Promises.{checkout-ok}

-- What holds of the grant `x` that a checkout at `now` has used, and of the tables after it.
pub record GrantUsed (p c now id : ℕ) (x : AccessGrant) (d' : Database) : Type 0 where
  pub owner : x.participant_id ≡ p
  pub category : x.category_id ≡ c
  pub active : x.status ≡ GrantStatus.active
  pub unexpired : is_after now x.expires_at ≡ false
  pub after : AccessGrant
  pub found : grant_by_id id d'.grants ≡ some after
  pub consumed : after.status ≡ GrantStatus.consumed

as_consumed : ℕ → ℕ → AccessGrant → AccessGrant
as_consumed order_id now g = record g {
  status = GrantStatus.consumed;
  consumed_at = some now;
  order_id = if order_id == 0 then none else some order_id;
}

grant_by_id-with_consumed :
    (id order_id now : ℕ) (gs : List AccessGrant) {x : AccessGrant}
    → grant_by_id id gs ≡ some x
    → x.status ≡ GrantStatus.active
    → grant_by_id id (with_consumed id order_id now gs) ≡ some (as_consumed order_id now x)
unfolding grant_by_id with_consumed as_consumed
grant_by_id-with_consumed id order_id now [] e a = cc
grant_by_id-with_consumed id order_id now (g ∷ gs) {x} e a = ground (
  arith,
  λ (q : find (λ y. y.id == id) gs ≡ some x). grant_by_id-with_consumed id order_id now gs q a,
)

module _ (p c order_id now id : ℕ) (d : Database) {x : AccessGrant}
    (found : grant_by_id id d.grants ≡ some x) where
  consume_token_checks :
      (u : Unit {0}) (d' : Database)
      → consume_token (grant id) p c order_id now d ≡ ok (u, d')
      → (x.participant_id ≡ p)
        × (x.category_id ≡ c)
        × (x.status ≡ GrantStatus.active)
        × (is_after now x.expires_at ≡ false)
        × (d'.grants ≡ with_consumed id order_id now d.grants)
  unfolding consume_token consume_access_grant ◌>>=◌
  consume_token_checks u d' h = ground arith

  consume_token_used :
      Post (consume_token (grant id) p c order_id now) d (λ _ d'. GrantUsed p c now id x d')
  unfolding as_consumed
  consume_token_used = record {
    at = λ u d' h.
        let (own, cat, act, fresh, gs) = consume_token_checks u d' h in
        record {
          owner = own;
          category = cat;
          active = act;
          unexpired = fresh;
          after = as_consumed order_id now x;
          found = rw gs (grant_by_id-with_consumed id order_id now d.grants found act);
          consumed = refl;
        };
  }

checkout_tx_used :
    (s : Service) (w : Draws) (p e c id : ℕ) (answers : Option String) (d : Database)
    {x : AccessGrant}
    → grant_by_id id d.grants ≡ some x
    → Post (checkout_tx s w p e c (grant id) answers) d (λ _ d'. GrantUsed p c w.now id x d')
unfolding checkout_tx
checkout_tx_used s w p e c id answers d found = Post-one _ _ _ d λ event _.
    Post-read _ _ d (check_and_lock-Reads c) λ checked _. Post-throw_if _ _ _ d λ _.
      Post-check _ _ d λ _. Post-gets _ _ d (
        Post-throw_if _ _ _ d λ _.
          Post-read _ _ d (unique_order_number-Reads w.order_number) λ number _. Post-call _ _ d (
            create_order_post (new_order s w checked.category p e c number answers) d λ _.
              Post-call _ _ _ (
                reserve_post _ _ (
                  Post-bind (λ _ d'. GrantUsed p c w.now id _ d') _ _ _
                    (consume_token_used p c w.order_id w.now id _ found)
                    λ _ d' used. Post-pure _ d' used))))

-- A checkout that succeeds with the identifier of an existing grant has used a grant that was the
-- participant's, for that category, active and unexpired, and leaves it consumed.
pub checkout_uses_grant :
    (s : Service) (w : Draws) (p e c id : ℕ) (answers : Option String) (d : Database)
    {x : AccessGrant} {o : Order}
    → grant_by_id id d.grants ≡ some x
    → (checkout s w p e c (grant id) answers d).0 ≡ ok o
    → GrantUsed p c w.now id x (checkout s w p e c (grant id) answers d).1
checkout_uses_grant s w p e c id answers d {x} found h =
    let (d', _, _, committed, after) = checkout-ok s w p e c (grant id) answers d h in
    subst (GrantUsed p c w.now id x) (sym after)
      ((checkout_tx_used s w p e c id answers d found).at _ d' committed)

-- A grant admits once: after a checkout with an existing grant has succeeded, no checkout with that
-- grant, by any participant and for any category, succeeds on the tables that it left.
pub grant_single_use :
    (s s' : Service) (w w' : Draws) (p p' e e' c c' id : ℕ) (answers answers' : Option String)
    (d : Database) {x : AccessGrant} {o : Order}
    → grant_by_id id d.grants ≡ some x
    → (checkout s w p e c (grant id) answers d).0 ≡ ok o
    → (o' : Order)
    → (checkout s' w' p' e' c' (grant id) answers' (checkout s w p e c (grant id) answers d).1).0
      ≢ ok o'
grant_single_use s s' w w' p p' e e' c c' id answers answers' d found h o' h' =
    let first = checkout_uses_grant s w p e c id answers d found h in
    let second = checkout_uses_grant s' w' p' e' c' id answers' _ first.found h' in
    cc (first.consumed, second.active)

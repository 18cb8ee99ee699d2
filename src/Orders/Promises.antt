-- ===== src/Orders/Promises.antt =====
-- What a successful checkout (modules/orders/service.go) has checked and what it returns.
use ivyticketing.Base.{ℕ, ◌+◌, ◌<◌, ◌≡◌, refl, String, Option, none, some, arith}
use ivyticketing.Store.Rows.{Database, Event, EventCategory, Order, OrderStatus}
use ivyticketing.Store.Tx.{Result, ok, err, ◌>>=◌, exec_tx, Error}
use ivyticketing.Store.Post.{
  Post, Post-pure, Post-bind, Post-call, Post-read, Post-one, Post-gets, Post-throw_if, Post-check,
}
use ivyticketing.Inventory.{check_and_lock}
use ivyticketing.Inventory.Queries.{
  find_category, count_active_reservations_by_category, count_paid_by_category,
}
use ivyticketing.Orders.Queries.{get_event_by_id, count_active_orders_for_user_category}
use ivyticketing.Orders.Service.{Service, Draws, Token, checkout_eligible}
use ivyticketing.Inventory.Laws.{check_and_lock-Reads}
use ivyticketing.Inventory.{remaining, CheckResult}
use ivyticketing.Orders.Service.{validate}
use ivyticketing.Orders.Actions.{unique_order_number-Reads, create_order_post, reserve_post}
use ivyticketing.Orders.Checkout.{checkout, checkout_tx, new_order}

-- What holds of the tables `d` at which a participant's checkout succeeds, and of the order `o`.
pub record Admitted (s : Service) (w : Draws) (p e c : ℕ) (t : Token) (d : Database) (o : Order)
    : Type 0 where
  pub event : Event
  pub category : EventCategory
  pub event_found : get_event_by_id e d ≡ some event
  pub category_found : find_category c d ≡ some category
  pub same_event : category.event_id ≡ e
  pub eligible : checkout_eligible event category w.now ≡ none
  pub below_limit : count_active_orders_for_user_category c p d < category.max_order_per_user
  pub room :
      count_active_reservations_by_category c d + count_paid_by_category c d < category.capacity
  pub pending : o.status ≡ OrderStatus.pending_payment
  pub owner : o.participant_id ≡ some p
  pub price : o.total ≡ category.price
  pub deadline : o.expired_at ≡ some (w.now + s.ttl)

-- What a check that passes has found.
check_and_lock-found :
    (c : ℕ) (d : Database) {r : CheckResult}
    → check_and_lock c d ≡ ok (r, d)
    → (find_category c d ≡ some r.category)
      × (count_active_reservations_by_category c d + count_paid_by_category c d
          < r.category.capacity)
unfolding check_and_lock remaining ◌>>=◌
check_and_lock-found c d h = (ground arith, ground arith)

module _ (s : Service) (w : Draws) (p e c : ℕ) (t : Token) (answers : Option String)
    (d : Database) where
  checkout_tx-Admitted : Post (checkout_tx s w p e c t answers) d (λ o _. Admitted s w p e c t d o)
  unfolding checkout_tx
  checkout_tx-Admitted = Post-one _ _ _ d λ event found.
      Post-read _ _ d (check_and_lock-Reads c) λ checked free. Post-throw_if _ _ _ d λ here.
        Post-check _ _ d λ eligible. Post-gets _ _ d (
          Post-throw_if _ _ _ d λ below.
            Post-read _ _ d (unique_order_number-Reads w.order_number) λ number _. Post-call _ _ d (
              create_order_post (new_order s w checked.category p e c number answers) d λ new.
                Post-call _ _ _ (
                  reserve_post _ _ (
                    Post-bind (λ _ _. Unit) _ _ _ (record { at = λ _ _ _. tt })
                      λ _ d' _. Post-pure _ d' (record {
                        event = event;
                        category = checked.category;
                        event_found = found;
                        category_found = (check_and_lock-found c d free).0;
                        same_event = ground arith;
                        eligible = eligible;
                        below_limit = ground arith;
                        room = (check_and_lock-found c d free).1;
                        pending = refl;
                        owner = refl;
                        price = refl;
                        deadline = refl;
                      })))))

  -- A checkout that succeeds has passed the gate and the validator, and its transaction has
  -- committed.
  pub checkout-ok :
      {o : Order}
      → (checkout s w p e c t answers d).0 ≡ ok o
      → (d' : Database) × (s.gate p e c t d ≡ none)
        × (validate s e c answers d ≡ none)
        × (checkout_tx s w p e c t answers d ≡ ok (o, d'))
        × ((checkout s w p e c t answers d).1 ≡ d')
  unfolding checkout exec_tx
  checkout-ok {o} h =
      go (s.gate p e c t d) (validate s e c answers d) (checkout_tx s w p e c t answers d) refl refl
        refl h
    where
      outcome : Option Error → Option Error → Result (Order × Database) → Result Order × Database
      outcome g v r = elim g [
        | some x ↦ (err x, d)
        | none ↦ elim v [
          | some x ↦ (err x, d)
          | none ↦ elim r [ ok (a, d') ↦ (ok a, d') | err x ↦ (err x, d) ]
        ]
      ]

      go :
          (g v : Option Error) (r : Result (Order × Database))
          → s.gate p e c t d ≡ g
          → validate s e c answers d ≡ v
          → checkout_tx s w p e c t answers d ≡ r
          → (outcome g v r).0 ≡ ok o
          → (d' : Database) × (s.gate p e c t d ≡ none)
            × (validate s e c answers d ≡ none)
            × (checkout_tx s w p e c t answers d ≡ ok (o, d'))
            × ((outcome g v r).1 ≡ d')
      go (some x) v r eg ev er q = cc
      go none (some x) r eg ev er q = cc
      go none none (err x) eg ev er q = cc
      go none none (ok (a, d')) eg ev er q = (d', eg, ev, cc, refl)

  -- A checkout succeeds only in a published event and an open window, in a category of that event,
  -- below the participant's limit and with a slot free; its order waits for payment, belongs to
  -- the participant, costs the category's price and expires after the time to pay.
  pub checkout_admits :
      {o : Order} → (checkout s w p e c t answers d).0 ≡ ok o → Admitted s w p e c t d o
  checkout_admits h =
      let (d', _, _, committed, _) = checkout-ok h in checkout_tx-Admitted.at _ d' committed

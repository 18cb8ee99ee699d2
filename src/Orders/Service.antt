-- ===== src/Orders/Service.antt =====
-- What checkout is given (services/api/internal/modules/orders/service.go, gate.go, validator.go):
-- the interfaces RegistrationGate and FormValidator, and for one call the clock, the identifiers
-- that the database draws and the order numbers that crypto/rand draws.
use ivyticketing.Base.{
  ℕ, zero, suc, ◌+◌, String, Bool, false, not, Option, none, some, ltb, if◌then◌else◌,
}
use ivyticketing.Store.Rows.{Database, Event, EventCategory, is_published}
use ivyticketing.Store.Tx.{
  Tx, ok, err, Error, event_not_published, registration_closed, order_number_gen,
}
use ivyticketing.Orders.Queries.{get_order_by_number}

-- The admission token as `uuid.Parse` reads it.
pub data Token : Type 0 where
  empty : Token
  grant : ℕ → Token
  opaque : String → Token

-- `none` is admission, `some e` a refusal. A gate and a validator read the tables.
pub record Service : Type 0 where
  pub ttl : ℕ
  pub gate : ℕ → ℕ → ℕ → Token → Database → Option Error
  pub form_validator : Option (ℕ → ℕ → Option String → Database → Option Error)

pub record Draws : Type 0 where
  pub now : ℕ
  pub order_id : ℕ
  pub reservation_id : ℕ
  pub order_number : ℕ → Option String

-- `answers` is the JSON of the form's answers, where there are any.
abbrev pub validate : Service → ℕ → ℕ → Option String → Database → Option Error
validate s event_id category_id answers d = elim s.form_validator [
  | none ↦ none
  | some v ↦ v event_id category_id answers d
]

abbrev pub answers_json : Option String → String
answers_json none = "{}"
answers_json (some b) = b

abbrev pub is_before : ℕ → Option ℕ → Bool
is_before now none = false
is_before now (some t) = ltb now t

abbrev pub is_after : ℕ → Option ℕ → Bool
is_after now none = false
is_after now (some t) = ltb t now

unfoldable pub checkout_eligible : Event → EventCategory → ℕ → Option Error
checkout_eligible event cat now =
    if not (is_published event.status)
    then some event_not_published
    else if is_before now cat.registration_opens_at
    then some registration_closed
    else if is_after now cat.registration_closes_at
    then some registration_closed
    else none

-- `rounds` of the five attempts are left, and `i` are made.
unfoldable pub draw_order_number : (ℕ → Option String) → ℕ → ℕ → Tx String
draw_order_number draw zero i d = err order_number_gen
draw_order_number draw (suc rounds) i d =
    let again = draw_order_number draw rounds (i + 1) d in
    elim (draw i) [
      | none ↦ err order_number_gen
      | some num ↦ elim (get_order_by_number num d) [ none ↦ ok (num, d) | some _ ↦ again ]
    ]

unfoldable pub unique_order_number : (ℕ → Option String) → Tx String
unfolding draw_order_number
unique_order_number draw = draw_order_number draw 5 0

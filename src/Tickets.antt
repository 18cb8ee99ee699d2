-- ===== src/Tickets.antt =====
-- The issue of a ticket for a paid order (services/api/internal/modules/tickets/issuer.go), in the
-- transaction of its caller. The rest of the module tickets is not modelled.
pub mod Qr
pub mod Signing
use ivyticketing.Base.{
  ℕ, String, Bool, Option, none, some, List, ◌∷◌, ◌==◌, str_eq, is_some, find, if◌then◌else◌,
}
use ivyticketing.Store.Rows.{Order, Ticket, User}
use ivyticketing.Store.Tx.{Tx, ok, err, ◌>>=◌, one, no_rows, constraint_violation, issue_failed}
use ivyticketing.Inventory.Queries.{find_category, user_by_id}
use ivyticketing.Orders.Queries.{get_event_by_id}

unfoldable pub ticket_of_order : ℕ → List Ticket → Option Ticket
ticket_of_order id = find (λ t. t.order_id == id)

unfoldable pub has_number : String → List Ticket → Bool
has_number n ts = is_some (find (λ t. str_eq t.ticket_number n) ts)

-- `ON CONFLICT (order_id) DO NOTHING`: a second ticket for an order is no error and no row.
unfoldable pub create_ticket : Ticket → Tx (Unit {0})
create_ticket t d = elim (ticket_of_order t.order_id d.tickets) [
  | some _ ↦ ok (tt, d)
  | none ↦
      if has_number t.ticket_number d.tickets
      then err constraint_violation
      else ok (tt, record d { tickets = t ∷ d.tickets })
]

abbrev pub text_or_empty : Option String → String
text_or_empty none = ""
text_or_empty (some s) = s

-- The name and the address of the holder: the participant's, or the guest's.
abbrev pub holder : Order → Option User → String × String
holder o (some u) = (u.full_name, u.email)
holder o none = (
  if str_eq (text_or_empty o.guest_name) "" then "Guest" else text_or_empty o.guest_name,
  text_or_empty o.guest_email,
)

-- A participant that is not found is an error; a guest has no row.
unfoldable pub holder_user : Option ℕ → Tx (Option User)
holder_user none d = ok (none, d)
holder_user (some p) d = elim (user_by_id p d.users) [
  | none ↦ err no_rows
  | some u ↦ ok (some u, d)
]

-- `number` is the outcome of `generateTicketNumber`.
unfoldable pub issue_for_order : Option String → Order → Tx (Unit {0})
issue_for_order number o = do
  user ← holder_user o.participant_id
  event ← one (get_event_by_id o.event_id) no_rows
  category ← one (find_category o.category_id) no_rows
  num ← one (λ _. number) issue_failed
  create_ticket (record {
    organization_id = o.organization_id;
    event_id = o.event_id;
    category_id = o.category_id;
    order_id = o.id;
    participant_id = o.participant_id;
    ticket_number = num;
    holder_name = (holder o user).0;
    holder_email = (holder o user).1;
    event_title = event.name;
    category_name = category.name;
    qr_version = 1;
    form_answers = if str_eq o.form_answers "" then "{}" else o.form_answers;
  })

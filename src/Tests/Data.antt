-- ===== src/Tests/Data.antt =====
-- Concrete tables: an event with one category of two slots, and two participants.
use ivyticketing.Base.{true, none, some, [], ◌∷◌}
use ivyticketing.Store.Rows.{
  Database, Event, EventCategory, Order, AccessGrant, AccessPool, BallotDraw, DrawStatus, Payment,
  EventStatus, OrderStatus, GrantStatus, PaymentStatus,
}
use ivyticketing.Orders.Service.{Service, Draws, Token}
use ivyticketing.Orders.Checkout.{checkout, new_order, new_reservation}
use ivyticketing.Payments.Processor.{Processor, Moment, CallbackResult, Gateway, process_raw}

abbrev pub run : Event
run = record { id = 1; organization_id = 3; name = "City Run"; status = EventStatus.published }

abbrev pub half_marathon : EventCategory
half_marathon = record {
  id = 2;
  organization_id = 3;
  event_id = 1;
  name = "21K";
  price = 150;
  capacity = 2;
  registration_opens_at = some 50;
  registration_closes_at = some 500;
  max_order_per_user = 1;
}

abbrev pub grant_five : AccessGrant
grant_five = record {
  id = 5;
  pool_id = some 40;
  participant_id = 7;
  event_id = 1;
  category_id = 2;
  status = GrantStatus.active;
  expires_at = some 300;
  consumed_at = none;
  order_id = none;
}

abbrev pub pool_forty : AccessPool
pool_forty = record {
  id = 40;
  organization_id = 3;
  event_id = 1;
  category_id = 2;
  total_slots = 3;
  reserved_slots = 0;
  used_slots = 1;
  released_slots = 0;
}

abbrev pub open_draw_nine : BallotDraw
open_draw_nine = record {
  id = 9;
  organization_id = 3;
  event_id = 1;
  category_id = 2;
  status = DrawStatus.opened;
  quota = 2;
  waitlist_size = some 1;
  payment_window_hours = 48;
  application_opens_at = some 50;
  application_closes_at = some 200;
  seed = none;
  winner_pool_id = none;
  waitlist_id = none;
}

abbrev pub start : Database
start = record {
  users =
      record { id = 7; full_name = "Ayu"; email = "ayu@example.org" }
      ∷ record { id = 8; full_name = "Budi"; email = "budi@example.org" }
      ∷ [];
  events = run ∷ [];
  categories = half_marathon ∷ [];
  orders = [];
  reservations = [];
  pools = pool_forty ∷ [];
  grants = grant_five ∷ [];
  tickets = [];
  payments = [];
  webhooks = [];
  ballot_draws = open_draw_nine ∷ [];
  ballot_entries = [];
}

abbrev pub service : Service
service = record { ttl = 90; gate = λ p e c t d. none; form_validator = none }

abbrev pub first_draws : Draws
first_draws = record {
  now = 100;
  order_id = 11;
  reservation_id = 21;
  order_number = λ i. some "IVT-11";
}

abbrev pub second_draws : Draws
second_draws = record {
  now = 120;
  order_id = 12;
  reservation_id = 22;
  order_number = λ i. some "IVT-12";
}

abbrev pub first_order : Order
first_order = new_order service first_draws half_marathon 7 1 2 "IVT-11" none

abbrev pub after_first : Database
after_first = (checkout service first_draws 7 1 2 (Token.grant 5) none start).1

abbrev pub payment_of_first : Payment
payment_of_first = record {
  id = 31;
  order_id = 11;
  participant_id = 7;
  gateway = "xendit";
  status = PaymentStatus.pending;
  amount = 150;
  gateway_reference = none;
  merchant_reference = "IVT-11-1";
  paid_at = none;
}

-- The tables once the payment of the first order has been created.
abbrev pub charged : Database
charged = record start {
  orders = first_order ∷ [];
  reservations = new_reservation service first_draws 7 first_order ∷ [];
  payments = payment_of_first ∷ [];
}

-- The tables once the first order is paid.
abbrev pub paid_order : Order
paid_order = record first_order { status = OrderStatus.paid }

abbrev pub settled : Database
settled = record charged {
  orders = paid_order ∷ [];
  reservations = [];
  payments = record payment_of_first { status = PaymentStatus.paid } ∷ [];
}

abbrev pub processor : Processor
processor = record { issuer = true; fee_recorder = none; accepts_json = λ body. true }

abbrev pub moment : Moment
moment = record { now = 130; ticket_number = some "TKT-1" }

abbrev pub paid_callback : CallbackResult
paid_callback = record {
  merchant_reference = "IVT-11-1";
  gateway_reference = "inv-77";
  status = PaymentStatus.paid;
  amount = 150;
  paid_at = some 125;
  event_type = "invoice.paid";
}

-- A gateway with one accepted body.
abbrev pub gateway : Gateway
gateway = record {
  name = "xendit";
  verify_signature = λ headers body. true;
  parse_callback = λ body. (paid_callback, none);
}

-- The tables after a callback that came before the row of its payment, and once that row is there.
abbrev pub late : Database
late = record (process_raw processor moment gateway 51 none "" "{}" start).1 {
  payments = payment_of_first ∷ [];
}

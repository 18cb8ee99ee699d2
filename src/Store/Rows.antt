-- ===== src/Store/Rows.antt =====
-- The rows of the database (services/api/internal/db/models.go) that checkout, inventory and
-- payment read and write. Identifiers are numbers, times are numbers on the clock, a nullable
-- column is an option, and a status column is the data type of the values that the migrations
-- admit. Amounts are natural numbers, which the CHECK constraints demand.
use ivyticketing.Base.{ℕ, String, Bool, true, false, Option, List}

pub data EventStatus : Type 0 where
  draft published archived : EventStatus

pub data OrderStatus : Type 0 where
  draft pending_payment paid expired cancelled refunded : OrderStatus

pub data ReservationStatus : Type 0 where
  active expired completed released : ReservationStatus

pub data GrantStatus : Type 0 where
  active consumed expired : GrantStatus

-- No code writes `refunded`, which a later migration admits.
pub data PaymentStatus : Type 0 where
  pending paid expired failed refunded : PaymentStatus

pub data WebhookStatus : Type 0 where
  received processed rejected duplicate failed : WebhookStatus

pub data BallotStatus : Type 0 where
  applied winner waitlisted not_selected lapsed converted withdrawn : BallotStatus

-- `a == b` on order statuses.
abbrev pub same_status : OrderStatus → OrderStatus → Bool
same_status OrderStatus.draft OrderStatus.draft = true
same_status OrderStatus.pending_payment OrderStatus.pending_payment = true
same_status OrderStatus.paid OrderStatus.paid = true
same_status OrderStatus.expired OrderStatus.expired = true
same_status OrderStatus.cancelled OrderStatus.cancelled = true
same_status OrderStatus.refunded OrderStatus.refunded = true
same_status _ _ = false

abbrev pub is_active : ReservationStatus → Bool
is_active ReservationStatus.active = true
is_active _ = false

abbrev pub is_pending : PaymentStatus → Bool
is_pending PaymentStatus.pending = true
is_pending _ = false

abbrev pub is_published : EventStatus → Bool
is_published EventStatus.published = true
is_published _ = false

pub record Event : Type 0 where
  pub id : ℕ
  pub organization_id : ℕ
  pub name : String
  pub status : EventStatus

pub record EventCategory : Type 0 where
  pub id : ℕ
  pub organization_id : ℕ
  pub event_id : ℕ
  pub name : String
  pub price : ℕ
  pub capacity : ℕ
  pub registration_opens_at : Option ℕ
  pub registration_closes_at : Option ℕ
  pub max_order_per_user : ℕ

pub record Order : Type 0 where
  pub id : ℕ
  pub organization_id : ℕ
  pub event_id : ℕ
  pub category_id : ℕ
  pub participant_id : Option ℕ
  pub order_number : String
  pub status : OrderStatus
  pub subtotal : ℕ
  pub fee : ℕ
  pub discount : ℕ
  pub total : ℕ
  pub expired_at : Option ℕ
  pub guest_email : Option String
  pub guest_name : Option String
  pub guest_phone : Option String
  pub terms_accepted_at : Option ℕ
  pub terms_version : Option String
  pub waiver_accepted_at : Option ℕ
  pub waiver_version : Option String
  pub form_answers : String
  pub refunded_amount : ℕ
  pub refund_reason : Option String
  pub refunded_at : Option ℕ

pub record InventoryReservation : Type 0 where
  pub id : ℕ
  pub organization_id : ℕ
  pub event_id : ℕ
  pub category_id : ℕ
  pub order_id : ℕ
  pub participant_id : ℕ
  pub status : ReservationStatus
  pub expires_at : ℕ

-- Of a pool, the identity and the counters of its slots.
pub record AccessPool : Type 0 where
  pub id : ℕ
  pub organization_id : ℕ
  pub event_id : ℕ
  pub category_id : ℕ
  pub total_slots : ℕ
  pub reserved_slots : ℕ
  pub used_slots : ℕ
  pub released_slots : ℕ

pub record AccessGrant : Type 0 where
  pub id : ℕ
  pub pool_id : Option ℕ
  pub participant_id : ℕ
  pub event_id : ℕ
  pub category_id : ℕ
  pub status : GrantStatus
  pub expires_at : Option ℕ
  pub consumed_at : Option ℕ
  pub order_id : Option ℕ

pub record User : Type 0 where
  pub id : ℕ
  pub full_name : String
  pub email : String

pub record Ticket : Type 0 where
  pub organization_id : ℕ
  pub event_id : ℕ
  pub category_id : ℕ
  pub order_id : ℕ
  pub participant_id : Option ℕ
  pub ticket_number : String
  pub holder_name : String
  pub holder_email : String
  pub event_title : String
  pub category_name : String
  pub qr_version : ℕ
  pub form_answers : String

pub record Payment : Type 0 where
  pub id : ℕ
  pub order_id : ℕ
  pub participant_id : ℕ
  pub gateway : String
  pub status : PaymentStatus
  pub amount : ℕ
  pub gateway_reference : Option String
  pub merchant_reference : String
  pub paid_at : Option ℕ

pub record PaymentWebhook : Type 0 where
  pub id : ℕ
  pub gateway : String
  pub event_type : Option String
  pub merchant_reference : Option String
  pub gateway_reference : Option String
  pub signature : Option String
  pub signature_valid : Bool
  pub payload : String
  pub processing_status : WebhookStatus
  pub processed_payment_id : Option ℕ
  pub error_detail : Option String
  pub dedupe_key : Option String

pub data DrawStatus : Type 0 where
  pending opened closed drawn announced : DrawStatus

pub record BallotDraw : Type 0 where
  pub id : ℕ
  pub organization_id : ℕ
  pub event_id : ℕ
  pub category_id : ℕ
  pub status : DrawStatus
  pub quota : ℕ
  pub waitlist_size : Option ℕ
  pub payment_window_hours : ℕ
  pub application_opens_at : Option ℕ
  pub application_closes_at : Option ℕ
  pub seed : Option String
  pub winner_pool_id : Option ℕ
  pub waitlist_id : Option ℕ

pub record BallotEntry : Type 0 where
  pub id : ℕ
  pub draw_id : ℕ
  pub organization_id : ℕ
  pub event_id : ℕ
  pub category_id : ℕ
  pub participant_id : ℕ
  pub status : BallotStatus
  pub access_grant_id : Option ℕ
  pub converted_at : Option ℕ

pub record Database : Type 0 where
  pub users : List User
  pub events : List Event
  pub categories : List EventCategory
  pub orders : List Order
  pub reservations : List InventoryReservation
  pub pools : List AccessPool
  pub grants : List AccessGrant
  pub tickets : List Ticket
  pub payments : List Payment
  pub webhooks : List PaymentWebhook
  pub ballot_draws : List BallotDraw
  pub ballot_entries : List BallotEntry

-- ===== src/Racepack/Rows.antt =====
-- The rows of the racepack desk and of the check-in (services/api/internal/db/models.go). Of a ticket
-- only the columns that the two read. A time is a number on the clock.
use ivyticketing.Base.{ℕ, String, Bool, true, false, Option, List}
use ivyticketing.Store.Rows.{Order}

pub data TicketStatus : Type 0 where
  valid used cancelled : TicketStatus

pub record EventTicket : Type 0 where
  pub id : ℕ
  pub event_id : ℕ
  pub order_id : ℕ
  pub participant_id : Option ℕ
  pub status : TicketStatus
  pub used_at : Option ℕ
  pub bib_number : Option String

pub record RacepackCounter : Type 0 where
  pub id : ℕ
  pub organization_id : ℕ
  pub event_id : ℕ
  pub name : String
  pub location : String
  pub active : Bool

pub record PickupSlot : Type 0 where
  pub id : ℕ
  pub organization_id : ℕ
  pub event_id : ℕ
  pub name : String
  pub pickup_date : ℕ
  pub start_time : ℕ
  pub end_time : ℕ
  pub capacity : ℕ
  pub reserved_count : ℕ
  pub active : Bool

pub data PickupStatus : Type 0 where
  picked_up cancelled : PickupStatus

pub record PickupRecord : Type 0 where
  pub id : ℕ
  pub organization_id : ℕ
  pub event_id : ℕ
  pub ticket_id : ℕ
  pub participant_id : ℕ
  pub bib_number : String
  pub counter_id : ℕ
  pub staff_id : ℕ
  pub pickup_method : String
  pub pickup_timestamp : ℕ
  pub notes : String
  pub status : PickupStatus
  pub slot_id : Option ℕ

pub data ProblemStatus : Type 0 where
  open_case under_review resolved escalated : ProblemStatus

pub record ProblemCase : Type 0 where
  pub id : ℕ
  pub organization_id : ℕ
  pub event_id : ℕ
  pub ticket_id : Option ℕ
  pub participant_id : Option ℕ
  pub status : ProblemStatus
  pub reason : String
  pub resolution : Option String
  pub created_by : ℕ
  pub resolved_by : Option ℕ

pub record ProxyAuthorization : Type 0 where
  pub id : ℕ
  pub organization_id : ℕ
  pub event_id : ℕ
  pub ticket_id : ℕ
  pub pickup_record_id : Option ℕ
  pub proxy_name : String
  pub proxy_phone : String
  pub proxy_identity : String
  pub authorization_document : String
  pub created_by : ℕ

-- A stored response; the primary key is (key, scope).
pub record IdempotencyKey : Type 0 where
  pub key : String
  pub scope : String
  pub request_hash : String
  pub response_status : ℕ
  pub response_body : String

pub record Desk : Type 0 where
  pub users : List ℕ
  pub orders : List Order
  pub tickets : List EventTicket
  pub counters : List RacepackCounter
  pub slots : List PickupSlot
  pub pickups : List PickupRecord
  pub cases : List ProblemCase
  pub proxies : List ProxyAuthorization
  pub keys : List IdempotencyKey

abbrev pub is_cancelled : TicketStatus → Bool
is_cancelled TicketStatus.cancelled = true
is_cancelled _ = false

abbrev pub is_used : TicketStatus → Bool
is_used TicketStatus.used = true
is_used _ = false

abbrev pub is_usable : TicketStatus → Bool
is_usable TicketStatus.valid = true
is_usable _ = false

abbrev pub is_picked_up : PickupStatus → Bool
is_picked_up PickupStatus.picked_up = true
is_picked_up _ = false

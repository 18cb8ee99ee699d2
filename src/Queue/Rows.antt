-- ===== src/Queue/Rows.antt =====
-- The rows of the waiting room (services/api/internal/db/models.go, modules/queue/model.go), less the
-- columns that no modelled statement reads.
use ivyticketing.Base.{ℕ, Bool, true, false, Option, List, String}

pub data TokenStatus : Type 0 where
  waiting allowed expired completed blocked : TokenStatus

pub data Pool : Type 0 where
  presale fifo : Pool

pub data AdmissionStatus : Type 0 where
  active consumed expired : AdmissionStatus

pub data QueueState : Type 0 where
  running paused : QueueState

pub record QueueToken : Type 0 where
  pub id : ℕ
  pub organization_id : ℕ
  pub event_id : ℕ
  pub participant_id : ℕ
  pub status : TokenStatus
  pub pool : Pool
  pub score : ℕ
  pub allowed_at : Option ℕ
  pub completed_at : Option ℕ

pub record QueueAdmission : Type 0 where
  pub id : ℕ
  pub token_id : ℕ
  pub event_id : ℕ
  pub participant_id : ℕ
  pub checkout_expires_at : ℕ
  pub status : AdmissionStatus

pub record QueueControl : Type 0 where
  pub event_id : ℕ
  pub state : QueueState
  pub release_rate : ℕ
  pub randomization_seed : Option String
  pub sale_start_at : Option ℕ
  pub presale_pool_open_at : Option ℕ

-- A member of one of the sorted sets in Redis, which has a set for each event.
pub record Member : Type 0 where
  pub event_id : ℕ
  pub participant_id : ℕ
  pub score : ℕ

-- `StatusResponse` (dto.go); an empty text is `none`.
pub record StatusResponse : Type 0 where
  pub token_id : ℕ
  pub status : TokenStatus
  pub position : ℕ
  pub estimated_wait_seconds : ℕ
  pub admission_token : Option ℕ
  pub checkout_expires_at : Option ℕ
  pub system_state : QueueState

-- A response kept in Redis until a time.
pub record CachedStatus : Type 0 where
  pub event_id : ℕ
  pub participant_id : ℕ
  pub until : ℕ
  pub response : StatusResponse

-- The tables of the module and its sorted sets and kept responses in Redis.
pub record Room : Type 0 where
  pub tokens : List QueueToken
  pub admissions : List QueueAdmission
  pub controls : List QueueControl
  pub waiting : List Member
  pub allowed : List Member
  pub cached : List CachedStatus

unfoldable pub is_waiting : TokenStatus → Bool
is_waiting TokenStatus.waiting = true
is_waiting TokenStatus.allowed = false
is_waiting TokenStatus.expired = false
is_waiting TokenStatus.completed = false
is_waiting TokenStatus.blocked = false

unfoldable pub is_allowed : TokenStatus → Bool
is_allowed TokenStatus.waiting = false
is_allowed TokenStatus.allowed = true
is_allowed TokenStatus.expired = false
is_allowed TokenStatus.completed = false
is_allowed TokenStatus.blocked = false

unfoldable pub is_active : AdmissionStatus → Bool
is_active AdmissionStatus.active = true
is_active AdmissionStatus.consumed = false
is_active AdmissionStatus.expired = false

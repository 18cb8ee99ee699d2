-- ===== src/Registration/Settings.antt =====
-- The settings of registration (modules/registration/service.go) with their queries
-- (services/api/internal/db/registration.sql.go). The events and categories are those of the tables of
-- orders.
use ivyticketing.Base.{
  ℕ, Bool, false, not, Option, none, some, List, ◌∷◌, ◌==◌, ◌!=◌, is_some, find, filter, map,
  update_where, if◌then◌else◌, String,
}
use ivyticketing.Store.Rows.{Database, EventCategory}
use ivyticketing.Store.Tx.{
  Result, ok, err, Error, event_not_found, category_not_found, invalid_mode,
}
use ivyticketing.Inventory.Queries.{find_category}
use ivyticketing.Orders.Queries.{get_event_by_id}
use ivyticketing.Registration.Modes.{
  Mode, normal, parse_mode, resolve_mode, mode_text, event_default,
}

pub record EventSettings : Type 0 where
  pub event_id : ℕ
  pub default_mode : Mode
  pub queue_enabled : Bool
  pub ballot_enabled : Bool
  pub priority_enabled : Bool
  pub waitlist_enabled : Bool

pub record CategorySettings : Type 0 where
  pub category_id : ℕ
  pub registration_mode : Option Mode
  pub override_enabled : Bool

pub record Settings : Type 0 where
  pub events : List EventSettings
  pub categories : List CategorySettings

-- `GetEventRegistrationSettings` and `GetCategoryRegistrationSettings`.
unfoldable pub event_settings : ℕ → Settings → Option EventSettings
event_settings event s = find (λ e. e.event_id == event) s.events

unfoldable pub category_settings : ℕ → Settings → Option CategorySettings
category_settings category s = find (λ c. c.category_id == category) s.categories

-- `UpsertEventRegistrationSettings` and `UpsertCategoryRegistrationSettings`.
unfoldable pub upsert_event : EventSettings → Settings → Settings
unfolding event_settings
upsert_event e s =
    if is_some (event_settings e.event_id s)
    then record s { events = update_where (λ f. f.event_id == e.event_id) (λ f. e) s.events }
    else record s { events = e ∷ s.events }

unfoldable pub upsert_category : CategorySettings → Settings → Settings
unfolding category_settings
upsert_category c s =
    if is_some (category_settings c.category_id s)
    then record s {
      categories = update_where (λ f. f.category_id == c.category_id) (λ f. c) s.categories;
    }
    else record s { categories = c ∷ s.categories }

abbrev pub default_of : Option EventSettings → Option Mode
default_of none = none
default_of (some e) = some e.default_mode

abbrev pub override_of : Option CategorySettings → Bool
override_of none = false
override_of (some c) = c.override_enabled

abbrev pub mode_of : Option CategorySettings → Option Mode
mode_of none = none
mode_of (some c) = c.registration_mode

-- `ResolveForCheckout`.
unfoldable pub resolve_for_checkout : ℕ → ℕ → Settings → Mode
unfolding event_settings category_settings resolve_mode
resolve_for_checkout event category s =
    let c = category_settings category s in
    resolve_mode (record {
      event_mode = default_of (event_settings event s);
      category_override = override_of c;
      category_mode = mode_of c;
    })

-- `ResolveEventMode`.
unfoldable pub resolve_event_mode : ℕ → Settings → Mode
unfolding event_settings
resolve_event_mode event s = event_default (default_of (event_settings event s))

-- `assertEvent`; no organization is `uuid.Nil`.
unfoldable pub assert_event : Option ℕ → ℕ → Database → Option Error
assert_event org event d = elim (get_event_by_id event d) [
  | none ↦ some event_not_found
  | some e ↦ if is_foreign org e.organization_id then some event_not_found else none
]
  where
    is_foreign : Option ℕ → ℕ → Bool
    is_foreign none owner = false
    is_foreign (some o) owner = owner != o

-- The request of `SetEventSettings`.
pub record EventSettingsRequest : Type 0 where
  pub default_mode : String
  pub queue_enabled : Bool
  pub ballot_enabled : Bool
  pub priority_enabled : Bool
  pub waitlist_enabled : Bool

abbrev pub with_event_mode :
    Option Mode → ℕ → EventSettingsRequest → Settings → Result (Unit {0}) × Settings
with_event_mode none event req s = (err invalid_mode, s)
with_event_mode (some m) event req s = (
  ok tt,
  upsert_event
      (record {
        event_id = event;
        default_mode = m;
        queue_enabled = req.queue_enabled;
        ballot_enabled = req.ballot_enabled;
        priority_enabled = req.priority_enabled;
        waitlist_enabled = req.waitlist_enabled;
      })
      s,
)

-- `SetEventSettings`.
unfoldable pub set_event_settings :
    Option ℕ → ℕ → EventSettingsRequest → Database → Settings → Result (Unit {0}) × Settings
set_event_settings org event req d s = elim (assert_event org event d) [
  | some e ↦ (err e, s)
  | none ↦ with_event_mode (parse_mode req.default_mode) event req s
]

abbrev pub with_category_mode : Option String → ℕ → Bool → Settings → Result (Unit {0}) × Settings
with_category_mode none category override s = (
  ok tt,
  upsert_category
      (record { category_id = category; registration_mode = none; override_enabled = override }) s,
)
with_category_mode (some text) category override s = elim (parse_mode text) [
  | none ↦ (err invalid_mode, s)
  | some m ↦ (
    ok tt,
    upsert_category
        (record { category_id = category; registration_mode = some m; override_enabled = override })
        s,
  )
]

-- `SetCategorySettings`.
unfoldable pub set_category_settings :
    Option ℕ → ℕ → ℕ → Option String → Bool → Database → Settings → Result (Unit {0}) × Settings
set_category_settings org event category mode override d s = elim (assert_event org event d) [
  | some e ↦ (err e, s)
  | none ↦ elim (find_category category d) [
    | none ↦ (err category_not_found, s)
    | some c ↦
        if not (c.event_id == event)
        then (err category_not_found, s)
        else with_category_mode mode category override s
  ]
]

pub record CategorySettingsResponse : Type 0 where
  pub category_id : ℕ
  pub registration_mode : Option String
  pub override_enabled : Bool

pub record SettingsResponse : Type 0 where
  pub event_id : ℕ
  pub default_mode : String
  pub queue_enabled : Bool
  pub ballot_enabled : Bool
  pub priority_enabled : Bool
  pub waitlist_enabled : Bool
  pub categories : List CategorySettingsResponse

abbrev pub text_of : Option Mode → Option String
text_of none = none
text_of (some m) = some (mode_text m)

abbrev pub category_response : CategorySettings → CategorySettingsResponse
category_response c = record {
  category_id = c.category_id;
  registration_mode = text_of c.registration_mode;
  override_enabled = c.override_enabled;
}

abbrev pub settings_response :
    ℕ → Option EventSettings → List CategorySettingsResponse → SettingsResponse
settings_response event none categories = record {
  event_id = event;
  default_mode = mode_text normal;
  queue_enabled = false;
  ballot_enabled = false;
  priority_enabled = false;
  waitlist_enabled = false;
  categories = categories;
}
settings_response event (some e) categories = record {
  event_id = event;
  default_mode = mode_text e.default_mode;
  queue_enabled = e.queue_enabled;
  ballot_enabled = e.ballot_enabled;
  priority_enabled = e.priority_enabled;
  waitlist_enabled = e.waitlist_enabled;
  categories = categories;
}

-- `ListCategoryRegistrationSettingsByEvent`.
unfoldable pub category_settings_by_event : ℕ → Database → Settings → List CategorySettings
category_settings_by_event event d s =
    filter (λ c. is_of_event (find_category c.category_id d)) s.categories
  where
    is_of_event : Option EventCategory → Bool
    is_of_event none = false
    is_of_event (some c) = c.event_id == event

-- `GetEventSettings`.
unfoldable pub get_event_settings : Option ℕ → ℕ → Database → Settings → Result SettingsResponse
unfolding event_settings category_settings_by_event
get_event_settings org event d s = elim (assert_event org event d) [
  | some e ↦ err e
  | none ↦ ok (
      settings_response event (event_settings event s)
        (map category_response (category_settings_by_event event d s)))
]

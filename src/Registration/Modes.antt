-- ===== src/Registration/Modes.antt =====
-- The modes of registration (modules/registration/model.go, resolver.go). A mode that is no text of
-- the list cannot stand in a table, which the CHECK constraints of
-- database/migrations/00020_create_registration_settings.sql say.
use ivyticketing.Base.{Bool, true, false, Option, none, some, String, str_eq, if◌then◌else◌}

pub data Mode : Type 0 where
  normal war_queue randomized_queue hybrid_queue ballot : Mode
  invitation_only priority_access waitlist_only closed : Mode

-- `IsQueueMode`.
unfoldable pub is_queue_mode : Mode → Bool
is_queue_mode war_queue = true
is_queue_mode randomized_queue = true
is_queue_mode hybrid_queue = true
is_queue_mode normal = false
is_queue_mode ballot = false
is_queue_mode invitation_only = false
is_queue_mode priority_access = false
is_queue_mode waitlist_only = false
is_queue_mode closed = false

abbrev pub mode_text : Mode → String
mode_text normal = "NORMAL"
mode_text war_queue = "WAR_QUEUE"
mode_text randomized_queue = "RANDOMIZED_QUEUE"
mode_text hybrid_queue = "HYBRID_QUEUE"
mode_text ballot = "BALLOT"
mode_text invitation_only = "INVITATION_ONLY"
mode_text priority_access = "PRIORITY_ACCESS"
mode_text waitlist_only = "WAITLIST_ONLY"
mode_text closed = "CLOSED"

-- `Valid`, with the mode that the text is.
unfoldable pub parse_mode : String → Option Mode
parse_mode s =
    if str_eq s "NORMAL"
    then some normal
    else if str_eq s "WAR_QUEUE"
    then some war_queue
    else if str_eq s "RANDOMIZED_QUEUE"
    then some randomized_queue
    else if str_eq s "HYBRID_QUEUE"
    then some hybrid_queue
    else if str_eq s "BALLOT"
    then some ballot
    else if str_eq s "INVITATION_ONLY"
    then some invitation_only
    else if str_eq s "PRIORITY_ACCESS"
    then some priority_access
    else if str_eq s "WAITLIST_ONLY"
    then some waitlist_only
    else if str_eq s "CLOSED"
    then some closed
    else none

pub record ModeInput : Type 0 where
  pub event_mode : Option Mode
  pub category_override : Bool
  pub category_mode : Option Mode

abbrev pub event_default : Option Mode → Mode
event_default none = normal
event_default (some m) = m

abbrev pub category_choice : Bool → Option Mode → Mode → Mode
category_choice true (some m) other = m
category_choice true none other = other
category_choice false m other = other

-- `ResolveMode`.
unfoldable pub resolve_mode : ModeInput → Mode
resolve_mode i = category_choice i.category_override i.category_mode (event_default i.event_mode)

-- ===== src/Event.antt =====
-- ownCloudSDK/Events/OCEvent.h, OCEvent.m, OCEventTarget.h and OCEventTarget.m: events, their targets and the
-- handlers that are registered. Handlers, blocks and what an event carries are known by their address.
pub mod Targets
use ios_sdk_develop.Prelude.{
  ℕ, Option, none, some, List, [], ◌∷◌, Text, codes, text_eq, lookup, set_key,
}
use ios_sdk_develop.Errors.{NsError}

-- `OCEventType`.
pub data EventType : Type 0 where
  no_type create_folder move copy delete upload download retrieve_thumbnail : EventType
  retrieve_item_list retrieve_shares update create_share update_share delete_share : EventType
  decide_on_share issue_response filter_files wakeup_sync_record : EventType

abbrev pub event_type_value : EventType → ℕ
event_type_value no_type = 0
event_type_value create_folder = 1
event_type_value move = 3
event_type_value copy = 4
event_type_value delete = 5
event_type_value upload = 6
event_type_value download = 7
event_type_value retrieve_thumbnail = 8
event_type_value retrieve_item_list = 9
event_type_value retrieve_shares = 10
event_type_value update = 11
event_type_value create_share = 12
event_type_value update_share = 13
event_type_value delete_share = 14
event_type_value decide_on_share = 15
event_type_value issue_response = 16
event_type_value filter_files = 17
event_type_value wakeup_sync_record = 18

pub record Event : Type 0 where
  pub event_type : EventType
  pub uuid : Option Text
  pub user_info : Option (List (Text × ℕ))
  pub ephermal_user_info : Option (List (Text × ℕ))
  pub path : Option Text
  pub depth : ℕ
  pub mime_type : Option Text
  pub file : Option ℕ
  pub error : Option NsError
  pub result : Option ℕ
  pub database_id : Option ℕ

-- `OCEventTarget`.
pub record EventTarget : Type 0 where
  pub event_handler_identifier : Option Text
  pub event_handler_block : Option ℕ
  pub user_info : Option (List (Text × ℕ))
  pub ephermal_user_info : Option (List (Text × ℕ))

-- `[OCEvent new]`, with the UUID that is generated.
abbrev pub new_event : Text → Event
new_event uuid = record {
  event_type = no_type;
  uuid = some uuid;
  user_info = none;
  ephermal_user_info = none;
  path = none;
  depth = 0;
  mime_type = none;
  file = none;
  error = none;
  result = none;
  database_id = none;
}

abbrev pub or_generated : Option Text → Text → Text
or_generated none generated = generated
or_generated (some uuid) generated = uuid

unfoldable pub event_for_event_target : Text → EventTarget → EventType → Option Text → Event
event_for_event_target generated t type uuid = record (new_event (or_generated uuid generated)) {
  event_type = type;
  user_info = t.user_info;
  ephermal_user_info = t.ephermal_user_info;
}

-- The handlers by identifier.
abbrev pub Handlers : Type 0
Handlers = List (Text × ℕ)

unfoldable pub register_event_handler : Option ℕ → Option Text → Handlers → Handlers
register_event_handler handler none hs = hs
register_event_handler handler (some identifier) hs = set_key text_eq identifier handler hs

unfoldable pub unregister_event_handler : Option Text → Handlers → Handlers
unfolding register_event_handler
unregister_event_handler identifier hs = register_event_handler none identifier hs

unfoldable pub event_handler_with_identifier : Option Text → Handlers → Option ℕ
event_handler_with_identifier none hs = none
event_handler_with_identifier (some identifier) hs = lookup text_eq identifier hs

-- Who gets an event.
pub data Delivery : Type 0 where
  to_handler to_block : ℕ → Event → Delivery
  dropped : Event → Delivery

abbrev pub deliver_to_handler : Option ℕ → Event → Delivery
deliver_to_handler none e = dropped e
deliver_to_handler (some handler) e = to_handler handler e

unfoldable pub handle_event : EventTarget → Event → Handlers → Delivery
unfolding event_handler_with_identifier
handle_event t e hs = elim t.event_handler_block [
  | some block ↦ to_block block e
  | none ↦ deliver_to_handler (event_handler_with_identifier t.event_handler_identifier hs) e
]

unfoldable pub handle_error :
    Text → EventTarget → NsError → EventType → Option Text → Handlers → Delivery
unfolding event_for_event_target handle_event
handle_error generated t error type uuid hs =
    handle_event t (record (event_for_event_target generated t type uuid) { error = some error }) hs

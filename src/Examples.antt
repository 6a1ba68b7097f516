-- ===== src/Examples.antt =====
-- Concrete runs of the model, on data that the examples share.
mod Claims
mod Queues
mod Lanes
mod Passes
mod Steps
mod Incoming
mod Items
mod Requests
mod Uploads
mod Locks
mod Activities
mod Policies
mod Pipelines
mod Cellulars
mod Names
use ios_sdk_develop.Prelude.{ℕ, Bool, true, false, none, some, List, [], ◌∷◌, ◌==◌, if◌then◌else◌}
use ios_sdk_develop.Process.{ProcessType, app, extension, ProcessSession, ProcessManager}
use ios_sdk_develop.EventQueue.{EventQueue}
use ios_sdk_develop.Lane.{Tag, Lane, LaneTable}
use ios_sdk_develop.Record.{State, ready, SyncAction, SyncRecord}
use ios_sdk_develop.Engine.{World, Event}

abbrev pub app_session : ProcessSession
app_session = record {
  uuid = 1;
  bundle_identifier = 10;
  last_active = 0;
  boot_timestamp = 1;
  process_type = app;
}

abbrev pub extension_session : ProcessSession
extension_session = record {
  uuid = 2;
  bundle_identifier = 20;
  last_active = 0;
  boot_timestamp = 1;
  process_type = extension;
}

-- The app runs, beside an extension that answers pings or not.
abbrev pub manager : Bool → ProcessManager
manager answers = record {
  process_session = app_session;
  boot_timestamp = 1;
  state_files = λ b. if b == 20 then some (some extension_session) else none;
  sessions = extension_session ∷ [];
  main_thread = false;
  responds = λ s. answers;
}

abbrev pub folder : Tag
folder = b'/' ∷ b'a' ∷ b'/' ∷ []

abbrev pub file : Tag
file = b'/' ∷ b'a' ∷ b'/' ∷ b'f' ∷ []

-- The folder's lane, and the lane of a file in it that waits for it.
abbrev pub folder_lane : Lane
folder_lane = record { identifier = 1; after_lanes = []; tags = folder ∷ [] }

abbrev pub file_lane : Lane
file_lane = record { identifier = 2; after_lanes = 1 ∷ []; tags = file ∷ [] }

abbrev pub table : LaneTable
table = record { lanes = folder_lane ∷ file_lane ∷ []; next_id = 3 }

abbrev pub action : SyncAction
action = record { identifier = 7; categories = 4 ∷ []; lane_tags = folder ∷ [] }

abbrev pub ready_record : SyncRecord
ready_record = record {
  record_id = some 5;
  revision = 0;
  lane_id = some 1;
  origin_process_session = some extension_session;
  is_process_independent = false;
  action = some action;
  timestamp = 0;
  state = ready;
  in_progress_since = none;
  wait_conditions = none;
  has_result_handler = true;
  calls = [];
  progress_cancelled = false;
}

abbrev pub upload_done : Event
upload_done = record {
  database_id = 1;
  uuid = 30;
  record_id = 5;
  is_wakeup = false;
  wait_condition_uuid = none;
}

abbrev pub world : World
world = record {
  journal = ready_record ∷ [];
  next_record_id = 6;
  read_error = false;
  write_error = false;
  table = table;
  events = upload_done ∷ [];
  next_event_id = 2;
  events_queue = record { records = []; used_uuids = [] };
  manager = manager true;
  active_process_cores = 20 ∷ [];
  timed_out_record_ids = [];
  triggered_remotes = [];
  needs_to_process = false;
  next_scheduling_date = none;
  timers = [];
  errors_sent = 0;
  now = 100;
}

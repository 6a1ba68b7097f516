-- ===== src/Http/Pipeline/Collect.antt =====
-- `_schedule` of OCHTTPPipeline.m: which tasks can be scheduled. Dictionaries are gone through in the order of
-- their lists.
pub mod Added
use ios_sdk_develop.Prelude.{
  ℕ, Bool, true, false, not, ◌&&◌, ◌||◌, Option, none, some, List, [], ◌∷◌, ◌++◌, ◌==◌, ltb, length,
  keep, if◌then◌else◌, Text, codes, text_eq,
}
use ios_sdk_develop.Process.{
  ProcessSession, ProcessManager, find_session, is_any_instance_of_session_process_running,
}
use ios_sdk_develop.Cellular.{Device, CellularManager, network_access_available_for}
use ios_sdk_develop.Errors.{NsError}
use ios_sdk_develop.Http.Request.{Request}
use ios_sdk_develop.Http.Request.Scheduling.{Encoding}
use ios_sdk_develop.Http.Pipeline.{
  TaskState, pending, running, completed, Task, PartitionHandler, Pipeline, is_destroyed,
  contains_text, update_pipeline_task, partition_handler_for_partition_id, error_response,
}
use ios_sdk_develop.Http.Pipeline.Finish.{System, finish_task}

-- What surrounds the pipeline: the time, the network, the size of files, what Foundation makes of
-- parameters, the user agent, and what becomes of a request: a URL session task, if it can be made, and the
-- error of an exception, if there was one.
pub record Surroundings : Type 0 where
  pub system : System
  pub now : ℕ
  pub device : Device
  pub switches : CellularManager
  pub file_size : Text → ℕ
  pub encoding : Encoding
  pub user_agent : Option Text
  pub new_session_task : Request → Option ℕ × Option NsError

-- What the enumeration of the tasks has found: the tasks that can be scheduled, by their group, and the
-- groups that are blocked.
pub record Collection : Type 0 where
  pub schedulable : List (Text × List Task)
  pub blocked : List Text
  pub processes : ProcessManager
  pub pipeline : Pipeline

abbrev pub default_group_id : Text
default_group_id = codes "_default_"

abbrev pub group_of : Option Text → Text
group_of none = default_group_id
group_of (some g) = g

abbrev pub is_none : Option Text → Bool
is_none none = true
is_none (some g) = false

-- A task is added where its group has none, or where it has no group of its own.
abbrev pub add_schedulable : Task → List (Text × List Task) → List (Text × List Task)
add_schedulable t [] = (group_of t.group_id, t ∷ []) ∷ []
add_schedulable t (e ∷ es) =
    let rest = add_schedulable t es in
    if text_eq e.0 (group_of t.group_id)
    then (e.0, (if is_none t.group_id then e.1 ++ (t ∷ []) else e.1)) ∷ es
    else e ∷ rest

abbrev pub remove_group : Text → List (Text × List Task) → List (Text × List Task)
remove_group g = keep (λ e. not (text_eq e.0 g))

abbrev pub block : Option Text → List Text → List Text
block none bs = bs
block (some g) bs = g ∷ bs

abbrev pub is_blocked : Option Text → List Text → Bool
is_blocked none bs = false
is_blocked (some g) bs = contains_text g bs

abbrev pub has_handler : Option PartitionHandler → Bool
has_handler none = false
has_handler (some h) = true

abbrev pub has_signals : Option (List Text) → Bool
has_signals none = false
has_signals (some ss) = ltb 0 (length ss)

-- Whether the signals allow the task, and an error with which it fails. A message to nil answers NO.
abbrev pub signals : Option PartitionHandler → Task → Bool × Option NsError
signals none t = (t.request_final && not (has_signals t.request.required_signals), none)
signals (some h) t = h.meets_signal_requirements t.request.required_signals t

abbrev pub size_of_body : Surroundings → Request → ℕ
size_of_body s r = elim r.body_data [
  | some body ↦ length body
  | none ↦ elim r.body_url [ some url ↦ s.file_size url | none ↦ 0 ]
]

abbrev pub access_for : Surroundings → Task → Text → Bool × Bool
access_for s t identifier =
    network_access_available_for s.device s.switches (some identifier) (size_of_body s t.request)

abbrev pub network_by : Surroundings → Task → Option Text → Bool × Task
network_by s t none = (true, t)
network_by s t (some identifier) =
    let access = access_for s t identifier in
    (
      access.0,
      if access.0 then record t { request = record t.request { avoid_cellular = access.1 } } else t,
    )

-- Whether the network allows the task, and the task with what the network enforces.
abbrev pub network : Surroundings → Task → Bool × Task
network s t = network_by s t t.request.required_cellular_switch

-- A pending task that the signals allow.
abbrev pub collect_allowed : Bool × Task → Collection → Collection
collect_allowed (true, t) c = record c {
  schedulable = add_schedulable t c.schedulable;
  pipeline = update_pipeline_task t c.pipeline;
}
collect_allowed (false, t) c = record c { blocked = block t.group_id c.blocked }

abbrev pub collect_pending : Surroundings → Bool × Option NsError → Task → Collection → Collection
collect_pending s (true, e) t c = collect_allowed (network s t) c
collect_pending s (false, none) t c = record c { blocked = block t.group_id c.blocked }
collect_pending s (false, some e) t c = record c {
  pipeline = finish_task s.system t (error_response s.now t.request e) c.pipeline;
}

abbrev pub collect_running : Option Text → Collection → Collection
collect_running none c = c
collect_running (some g) c = record c {
  blocked = g ∷ c.blocked;
  schedulable = remove_group g c.schedulable;
}

abbrev pub collect_by_state :
    TaskState → Surroundings → Option PartitionHandler → Task → Collection → Collection
collect_by_state pending s h t c = collect_pending s (signals h t) t c
collect_by_state running s h t c = collect_running t.group_id c
collect_by_state completed s h t c = c

abbrev pub collect_relevant :
    Surroundings → Option PartitionHandler → Task → Collection → Collection
collect_relevant s h t c =
    if is_blocked t.group_id c.blocked then c else collect_by_state t.state s h t c

abbrev pub is_session_running : Option ProcessSession → ProcessManager → Bool × ProcessManager
is_session_running none m = (false, m)
is_session_running (some session) m = is_any_instance_of_session_process_running m session

-- Whether the task belongs to another process that runs.
abbrev pub belongs_elsewhere : Option ℕ → ℕ → ProcessManager → Bool × ProcessManager
belongs_elsewhere none own m = (false, m)
belongs_elsewhere (some b) own m =
    if b == own then (false, m) else is_session_running (find_session b m.sessions) m

-- A task whose partition is attached, or that can be scheduled without.
abbrev pub is_considered : Pipeline → Task → Bool
is_considered p t =
    not (is_none t.partition_id)
    && (not (is_destroyed t.partition_id p.partitions_in_destruction)
        && (t.request_final || has_handler (partition_handler_for_partition_id t.partition_id p)))

unfoldable pub collect_task : Surroundings → Task → Collection → Collection
collect_task s t c =
    let elsewhere = belongs_elsewhere t.bundle_id c.pipeline.bundle_identifier c.processes in
    let c' : Collection = record c { processes = elsewhere.1 } in
    if is_considered c.pipeline t
    then (if elsewhere.0
        then c'
        else collect_relevant s (partition_handler_for_partition_id t.partition_id c.pipeline) t c')
    else c

abbrev pub collect_tasks : Surroundings → List Task → Collection → Collection
collect_tasks s [] c = c
collect_tasks s (t ∷ ts) c = collect_tasks s ts (collect_task s t c)

unfoldable pub collected : Surroundings → ProcessManager → Pipeline → Collection
unfolding collect_task
collected s m p =
    collect_tasks s p.tasks (record { schedulable = []; blocked = []; processes = m; pipeline = p })

-- ===== src/Http/Pipeline/Schedule/Slots.antt =====
-- How many tasks run.
use ios_sdk_develop.Prelude.{
  ℕ, zero, suc, ◌+◌, ◌-◌, ◌≤◌, ◌<◌, ◌≡◌, refl, ap, Bool, true, false, Option, none, some, List, [],
  ◌∷◌, ◌==◌, length, take, arith, if-both, Text,
}
use ios_sdk_develop.Process.{ProcessManager}
use ios_sdk_develop.Errors.{NsError}
use ios_sdk_develop.Http.Request.{Request}
use ios_sdk_develop.Http.Pipeline.{
  TaskState, pending, running, completed, Task, PartitionHandler, Pipeline, is_running, is_started,
  number_of_requests_with_state, update_pipeline_task, remove_pipeline_task, finished_task_later,
  partition_handler_for_partition_id, error_response,
}
use ios_sdk_develop.Http.Pipeline.Collect.{
  Surroundings, Collection, collect_allowed, collect_pending, collect_running, collect_by_state,
  collect_task, collect_tasks, signals, network, collected, belongs_elsewhere, is_considered,
  is_blocked, is_none, network_by, access_for,
}
use ios_sdk_develop.Http.Pipeline.Order.{picked_tasks, mark_recent}
use ios_sdk_develop.Http.Pipeline.Schedule.{
  schedule_task, schedule_tasks, remaining_slots, is_full, schedule_collected, schedule,
  resume_with, with_session_task, with_user_agent, start_prepared, creates_task, prepared,
}
use ios_sdk_develop.Http.Pipeline.Finish.Busy.{
  RunsAtMost, busy, busy-replace, finish_task-RunsAtMost, remove_pipeline_task-RunsAtMost,
  update_pipeline_task-RunsAtMost,
}

abbrev Collects : ℕ → Collection → Type 0
Collects n c = RunsAtMost n c.pipeline

collect_pending-Collects :
    (s : Surroundings) (a : Bool × Option NsError) (t : Task) (n : ℕ) (c : Collection)
    → is_running t.state ≡ false
    → Collects n c
    → Collects n (collect_pending s a t c)
collect_pending-Collects s (true, e) t n c idle h =
    by_network (network s t) (network-idle t.request.required_cellular_switch)
  where
    by_network : (a : Bool × Task) → is_running a.1.state ≡ false → Collects n (collect_allowed a c)
    by_network (true, u) k = update_pipeline_task-RunsAtMost n u c.pipeline k h
    by_network (false, u) k = h

    network-idle : (o : Option Text) → is_running (network_by s t o).1.state ≡ false
    network-idle none = idle
    network-idle (some identifier) =
        if-both (λ (u : Task). is_running u.state ≡ false) (access_for s t identifier).0 idle idle
collect_pending-Collects s (false, none) t n c idle h = h
collect_pending-Collects s (false, some e) t n c idle h =
    finish_task-RunsAtMost s.system t (error_response s.now t.request e) n c.pipeline h

collect_by_state-Collects :
    (s : Surroundings) (d : Option PartitionHandler) (t : Task) (n : ℕ) (c : Collection)
    (state : TaskState)
    → t.state ≡ state
    → Collects n c
    → Collects n (collect_by_state state s d t c)
collect_by_state-Collects s d t n c pending e h =
    collect_pending-Collects s (signals d t) t n c (ap is_running e) h
collect_by_state-Collects s d t n c running e h = by_group t.group_id
  where
    by_group : (g : Option Text) → RunsAtMost n (collect_running g c).pipeline
    by_group none = h
    by_group (some g) = h
collect_by_state-Collects s d t n c completed e h = h

collect_task-Collects :
    (s : Surroundings) (t : Task) (n : ℕ) (c : Collection)
    → Collects n c
    → Collects n (collect_task s t c)
unfolding collect_task
collect_task-Collects s t n c h =
    let elsewhere = belongs_elsewhere t.bundle_id c.pipeline.bundle_identifier c.processes in
    let d = partition_handler_for_partition_id t.partition_id c.pipeline in
    let c' : Collection = record c { processes = elsewhere.1 } in
    if-both (Collects n) (is_considered c.pipeline t)
      (if-both (Collects n) elsewhere.0 h (
        if-both (Collects n) (is_blocked t.group_id c.blocked) h
          (collect_by_state-Collects s d t n c' t.state refl h)))
      h

collect_tasks-Collects :
    (s : Surroundings) (ts : List Task) (n : ℕ) (c : Collection)
    → Collects n c
    → Collects n (collect_tasks s ts c)
collect_tasks-Collects s [] n c h = h
collect_tasks-Collects s (t ∷ ts) n c h =
    collect_tasks-Collects s ts n (collect_task s t c) (collect_task-Collects s t n c h)

more : (n : ℕ) (p : Pipeline) → RunsAtMost n p → RunsAtMost (suc n) p
more n p h = omega arith

update_pipeline_task-one_more :
    (n : ℕ) (t : Task) (p : Pipeline)
    → RunsAtMost n p
    → RunsAtMost (suc n) (update_pipeline_task t p)
unfolding update_pipeline_task
update_pipeline_task-one_more n t p h = omega (arith, busy-replace t p.tasks)

resume_with-one_more :
    (s : Surroundings) (o : Option ℕ × Option NsError) (t : Task) (n : ℕ) (p : Pipeline)
    → RunsAtMost n p
    → RunsAtMost (suc n) (resume_with s o t p)
unfolding finished_task_later
resume_with-one_more s (none, e) t n p h = update_pipeline_task-one_more n t p h
resume_with-one_more s (some k, none) t n p h =
    update_pipeline_task-one_more n (with_session_task p.url_session_identifier k t) p h
resume_with-one_more s (some k, some e) t n p h =
    update_pipeline_task-one_more n (with_session_task p.url_session_identifier k t) p h

start_prepared-one_more :
    (s : Surroundings) (d : Option PartitionHandler) (o : Option Request) (t : Task) (n : ℕ)
    (p : Pipeline)
    → RunsAtMost n p
    → RunsAtMost (suc n) (start_prepared s d o t p)
unfolding finished_task_later
start_prepared-one_more s none none t n p h = more n p h
start_prepared-one_more s (some d) none t n p h = more n p h
start_prepared-one_more s d (some r) t n p h =
    let r' = with_user_agent s.user_agent r in
    let u : Task = record t { request = r' } in
    if-both (RunsAtMost (suc n)) (creates_task d r')
      (resume_with-one_more s (s.new_session_task r') u n p h)
      (update_pipeline_task-one_more n (record u { state = running }) p h)

schedule_task-one_more :
    (s : Surroundings) (t : Task) (n : ℕ) (p : Pipeline)
    → RunsAtMost n p
    → RunsAtMost (suc n) (schedule_task s t p)
unfolding schedule_task finished_task_later
schedule_task-one_more s t n p h =
    let d = partition_handler_for_partition_id t.partition_id p in
    let still = more n p h in
    if-both (RunsAtMost (suc n)) p.raised still (
      if-both (RunsAtMost (suc n)) (is_none t.partition_id)
        (more n (remove_pipeline_task t p) (remove_pipeline_task-RunsAtMost n t p h))
        (if-both (RunsAtMost (suc n)) t.request.cancelled still (
          if-both (RunsAtMost (suc n)) p.url_session_invalidated still
            (start_prepared-one_more s d (prepared s d t) t n p h))))

schedule_tasks-more :
    (s : Surroundings) (ts : List Task) (n : ℕ) (p : Pipeline)
    → RunsAtMost n p
    → RunsAtMost (n + length ts) (schedule_tasks s ts p)
schedule_tasks-more s [] n p h = omega arith
schedule_tasks-more s (t ∷ ts) n p h = omega (
  arith,
  schedule_tasks-more s ts (suc n) (schedule_task s t p) (schedule_task-one_more s t n p h),
)

length-take : (n : ℕ) (ts : List Task) → length (take n ts) ≤ n
length-take zero ts = omega arith
length-take (suc n) [] = omega arith
length-take (suc n) (t ∷ ts) = omega (arith, length-take n ts)

filled :
    (s : Surroundings) (maximum n : ℕ) (c : Collection)
    → 0 < maximum
    → n ≤ maximum
    → Collects n c
    → RunsAtMost maximum (schedule_collected s (remaining_slots maximum n) c).1
filled s maximum n c limited h k =
    let picked =
      take (maximum - n) (picked_tasks c.pipeline.recently_scheduled_group_ids c.schedulable) in
    let p = record c.pipeline {
      recently_scheduled_group_ids = mark_recent picked c.pipeline.recently_scheduled_group_ids;
    } in
    let e : (maximum == 0) ≡ false = ground arith in
    rw e (
      omega (
        arith,
        schedule_tasks-more s picked n p k,
        length-take (maximum - n)
            (picked_tasks c.pipeline.recently_scheduled_group_ids c.schedulable),
      ))

collected-Collects :
    (s : Surroundings) (m : ProcessManager) (p : Pipeline)
    → Collects (busy p.tasks) (collected s m p)
unfolding collected
collected-Collects s m p =
    collect_tasks-Collects s p.tasks (busy p.tasks)
      (record { schedulable = []; blocked = []; processes = m; pipeline = p }) (omega arith)

-- Where there is a maximum of concurrent requests and no more tasks run than that, no more run after the
-- tasks were looked through and scheduled, whatever the handlers of the partitions answer.
pub schedule-RunsAtMost :
    (s : Surroundings) (m : ProcessManager) (p : Pipeline)
    → 0 < p.maximum_concurrent_requests
    → RunsAtMost p.maximum_concurrent_requests p
    → RunsAtMost p.maximum_concurrent_requests (schedule s m p).1
unfolding schedule number_of_requests_with_state
schedule-RunsAtMost s m p limited h =
    let n = busy p.tasks in
    let maximum = p.maximum_concurrent_requests in
    let c = collected s m (record p { needs_scheduling = false }) in
    let within = λ (r : ProcessManager × Pipeline). RunsAtMost maximum r.1 in
    if-both within (is_started p.state)
      (if-both within (is_full maximum n) h (
        filled s maximum n c limited h
          (collected-Collects s m (record p { needs_scheduling = false }))))
      h

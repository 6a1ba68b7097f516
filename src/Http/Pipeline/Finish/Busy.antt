-- ===== src/Http/Pipeline/Finish/Busy.antt =====
-- How many tasks run after one has ended.
use ios_sdk_develop.Prelude.{
  ℕ, suc, ◌≤◌, ◌≡◌, refl, false, Option, none, some, List, [], ◌∷◌, ◌==◌, if◌then◌else◌, arith,
  if-both, contains,
}
use ios_sdk_develop.Errors.{NsError}
use ios_sdk_develop.Http.Response.{Response}
use ios_sdk_develop.Http.Pipeline.{
  Instruction, deliver, reschedule, Task, PartitionHandler, Pipeline, is_running, replace_task,
  delete_task, count_state, update_pipeline_task, remove_pipeline_task,
  set_pipeline_needs_scheduling, partition_handler_for_partition_id,
}
use ios_sdk_develop.Http.Pipeline.Finish.{
  System, rescheduled, follow, deliver_to_handler, deliver_by, deliver_result_for_task, finish_task,
  ended_task, without_temporary_file, awaits_validation,
}

abbrev pub busy : List Task → ℕ
busy = count_state is_running

pub busy-replace : (t : Task) (us : List Task) → busy (replace_task t us) ≤ suc (busy us)
busy-replace t [] = ground arith
busy-replace t (u ∷ us) = ground (arith, busy-replace t us)

busy-replace_idle :
    (t : Task) (us : List Task) → is_running t.state ≡ false → busy (replace_task t us) ≤ busy us
busy-replace_idle t [] h = ground arith
busy-replace_idle t (u ∷ us) h = ground (arith, busy-replace_idle t us h)

busy-delete : (n : ℕ) (us : List Task) → busy (delete_task n us) ≤ busy us
busy-delete n [] = ground arith
busy-delete n (u ∷ us) = ground (arith, busy-delete n us)

rescheduled-idle : (s : System) (t : Task) → is_running (rescheduled s t).state ≡ false
unfolding rescheduled
rescheduled-idle s t = refl

-- At most so many tasks of the pipeline run.
abbrev pub RunsAtMost : ℕ → Pipeline → Type 0
RunsAtMost n p = busy p.tasks ≤ n

set_pipeline_needs_scheduling-RunsAtMost :
    (n : ℕ) (p : Pipeline) → RunsAtMost n p → RunsAtMost n (set_pipeline_needs_scheduling p)
unfolding set_pipeline_needs_scheduling
set_pipeline_needs_scheduling-RunsAtMost n p h = if-both (RunsAtMost n) p.needs_scheduling h h

pub update_pipeline_task-RunsAtMost :
    (n : ℕ) (t : Task) (p : Pipeline)
    → is_running t.state ≡ false
    → RunsAtMost n p
    → RunsAtMost n (update_pipeline_task t p)
unfolding update_pipeline_task
update_pipeline_task-RunsAtMost n t p e h = omega (arith, busy-replace_idle t p.tasks e)

pub remove_pipeline_task-RunsAtMost :
    (n : ℕ) (t : Task) (p : Pipeline) → RunsAtMost n p → RunsAtMost n (remove_pipeline_task t p)
unfolding remove_pipeline_task
remove_pipeline_task-RunsAtMost n t p h = omega (arith, busy-delete t.task_id p.tasks)

follow-RunsAtMost :
    (s : System) (i : Instruction) (d : PartitionHandler) (t : Task) (e : Option NsError) (n : ℕ)
    (p : Pipeline)
    → RunsAtMost n p
    → RunsAtMost n (follow s i d t e p)
follow-RunsAtMost s deliver d t e n p h = remove_pipeline_task-RunsAtMost n t _ h
follow-RunsAtMost s reschedule d t e n p h =
    let again = rescheduled s (record t { response = without_temporary_file t.response }) in
    set_pipeline_needs_scheduling-RunsAtMost n (update_pipeline_task again p) (
      update_pipeline_task-RunsAtMost n again p
        (rescheduled-idle s (record t { response = without_temporary_file t.response })) h)

deliver_to_handler-RunsAtMost :
    (s : System) (d : PartitionHandler) (t : Task) (n : ℕ) (p : Pipeline)
    → RunsAtMost n p
    → RunsAtMost n (deliver_to_handler s d t p)
unfolding deliver_to_handler
deliver_to_handler-RunsAtMost s d t n p h = follow-RunsAtMost s _ d _ _ n p h

deliver_result_for_task-RunsAtMost :
    (s : System) (t : Task) (n : ℕ) (p : Pipeline)
    → is_running t.state ≡ false
    → RunsAtMost n p
    → RunsAtMost n (deliver_result_for_task s t p)
unfolding deliver_result_for_task
deliver_result_for_task-RunsAtMost s t n p e h =
    by_handler (partition_handler_for_partition_id t.partition_id p)
  where
    by_bundle :
        (b : Option ℕ)
        → RunsAtMost n (elim b [
          | none ↦ p
          | some c ↦
              (if c == p.bundle_identifier
                then update_pipeline_task (record t { bundle_id = none }) p
                else p)
        ])
    by_bundle none = h
    by_bundle (some c) =
        if-both (RunsAtMost n) (c == p.bundle_identifier)
          (update_pipeline_task-RunsAtMost n (record t { bundle_id = none }) p e h) h

    by_handler : (d : Option PartitionHandler) → RunsAtMost n (deliver_by s d t p)
    by_handler none = by_bundle t.bundle_id
    by_handler (some d) = if-both (RunsAtMost n) (contains t.task_id p.task_ids_in_delivery) h (
        if-both (RunsAtMost n) (awaits_validation t.response) h
          (deliver_to_handler-RunsAtMost s d t n _ h))

-- The end of a task lets no other one run.
pub finish_task-RunsAtMost :
    (s : System) (t : Task) (r : Response) (n : ℕ) (p : Pipeline)
    → RunsAtMost n p
    → RunsAtMost n (finish_task s t r p)
unfolding finish_task
finish_task-RunsAtMost s t r n p h =
    if-both (RunsAtMost n) t.has_request
      (deliver_result_for_task-RunsAtMost s (ended_task s t r) n
        (update_pipeline_task (ended_task s t r) p) refl
        (update_pipeline_task-RunsAtMost n (ended_task s t r) p refl h))
      h

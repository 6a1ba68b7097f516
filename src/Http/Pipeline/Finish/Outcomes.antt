-- ===== src/Http/Pipeline/Finish/Outcomes.antt =====
-- What becomes of a task that ends.
use ios_sdk_develop.Prelude.{
  ℕ, ◌≤◌, ◌≡◌, ◌⊎◌, refl, false, Option, none, some, List, [], ◌∷◌, ◌++◌, ◌==◌, length, contains,
  arith, Bool-cases, if-both, inl, inr, Text,
}
use ios_sdk_develop.Errors.{NsError}
use ios_sdk_develop.Http.Pipeline.{
  pending, Instruction, deliver, reschedule, Task, PartitionHandler, Delivery, Pipeline, find_task,
  delete_task, replace_task, partition_handler_for_partition_id, set_pipeline_needs_scheduling,
  update_pipeline_task, remove_pipeline_task,
}
use ios_sdk_develop.Http.Pipeline.Finish.{
  System, delivery_to, follow, rescheduled, with_new_identifier, deliver_to_handler,
  deliver_result_for_task, awaits_validation, without_temporary_file,
}

pub find_task-delete : (n : ℕ) (ts : List Task) → find_task n (delete_task n ts) ≡ none
find_task-delete n [] = refl
find_task-delete n (t ∷ ts) = elim (Bool-cases (t.task_id == n)) [
  | inl e ↦ rw e (find_task-delete n ts)
  | inr e ↦ rw e (rw e (find_task-delete n ts))
]

length-delivery_to :
    (a : Option Text) (r : Option ℕ) (h : PartitionHandler) (t : Task) (e : Option NsError)
    → length (delivery_to a r h t e) ≤ 1
length-delivery_to (some action) r h t e =
    if-both (λ (ds : List Delivery). length ds ≤ 1) (h.implements action) (omega arith)
      (omega arith)
length-delivery_to none (some k) h t e = omega arith
length-delivery_to none none h t e = omega arith

-- The task is gone, and its result was given to one receiver at most.
abbrev pub IsDelivered : ℕ → Pipeline → Pipeline → Type 0
IsDelivered n before after =
    (find_task n after.tasks ≡ none)
    × ((ds : List Delivery) × (after.deliveries ≡ before.deliveries ++ ds) × (length ds ≤ 1))

-- The task waits once more, without a response, and nobody got a result.
abbrev pub IsRescheduled : ℕ → Pipeline → Pipeline → Type 0
IsRescheduled n before after =
    (after.deliveries ≡ before.deliveries)
    × ((u : Task) × (u.task_id ≡ n)
        × (u.state ≡ pending)
        × (u.response ≡ none)
        × (after.tasks ≡ replace_task u before.tasks))

rescheduled_fields :
    (s : System) (t : Task)
    → ((rescheduled s t).task_id ≡ t.task_id)
      × ((rescheduled s t).state ≡ pending)
      × ((rescheduled s t).response ≡ none)
unfolding rescheduled
rescheduled_fields s t = (same_id t.request.auto_resume_info _, refl, refl)
  where
    same_id : (o : Option ℕ) (u : Task) → (with_new_identifier s o u).task_id ≡ u.task_id
    same_id none u = refl
    same_id (some resume) u = refl

pub needs_scheduling_fields :
    (p : Pipeline)
    → ((set_pipeline_needs_scheduling p).tasks ≡ p.tasks)
      × ((set_pipeline_needs_scheduling p).deliveries ≡ p.deliveries)
unfolding set_pipeline_needs_scheduling
needs_scheduling_fields p =
    if-both (λ (q : Pipeline). (q.tasks ≡ p.tasks) × (q.deliveries ≡ p.deliveries))
      p.needs_scheduling (refl, refl) (refl, refl)

follow_outcomes :
    (s : System) (i : Instruction) (h : PartitionHandler) (t : Task) (e : Option NsError)
    (p : Pipeline)
    → IsDelivered t.task_id p (follow s i h t e p) ⊎ IsRescheduled t.task_id p (follow s i h t e p)
unfolding remove_pipeline_task update_pipeline_task
follow_outcomes s deliver h t e p =
    let ds = delivery_to t.request.result_handler_action t.request.ephermal_result_handler h t e in
    inl (
      find_task-delete t.task_id p.tasks,
      (
        ds,
        refl,
        length-delivery_to t.request.result_handler_action t.request.ephermal_result_handler h t e,
      ),
    )
follow_outcomes s reschedule h t e p =
    let u = record t { response = without_temporary_file t.response } in
    let (id, state, response) = rescheduled_fields s u in
    let (tasks, deliveries) = needs_scheduling_fields (update_pipeline_task (rescheduled s u) p) in
    inr (deliveries, (rescheduled s u, id, state, response, tasks))

-- The result of a task whose partition is attached, that is not in delivery already and whose certificate
-- needs no validation, is either delivered: the task is gone, and one receiver at most got the result; or
-- the task waits once more, without a response, and nobody got a result.
pub deliver_result_for_task_outcomes :
    (s : System) (h : PartitionHandler) (t : Task) (p : Pipeline)
    → partition_handler_for_partition_id t.partition_id p ≡ some h
    → contains t.task_id p.task_ids_in_delivery ≡ false
    → awaits_validation t.response ≡ false
    → IsDelivered t.task_id p (deliver_result_for_task s t p)
      ⊎ IsRescheduled t.task_id p (deliver_result_for_task s t p)
unfolding deliver_result_for_task deliver_to_handler
deliver_result_for_task_outcomes s h t p attached idle valid =
    rw (attached, idle, valid)
      (follow_outcomes s _ h _ _
        (record p { task_ids_in_delivery = t.task_id ∷ p.task_ids_in_delivery }))

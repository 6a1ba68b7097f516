-- ===== src/Http/Pipeline/Finish/Rejected.antt =====
-- A certificate that is rejected once the response is there.
use ios_sdk_develop.Prelude.{
  ℕ, ◌≡◌, refl, false, not, Option, none, some, List, [], ◌∷◌, ◌++◌, ◌==◌, keep, contains,
  Bool-cases, inl, inr, Text,
}
use ios_sdk_develop.Http.Request.{Request}
use ios_sdk_develop.Http.Response.{Response}
use ios_sdk_develop.Http.Pipeline.{
  replace_task, Task, PartitionHandler, to_result_handler, Pipeline,
  partition_handler_for_partition_id, update_pipeline_task, remove_pipeline_task,
}
use ios_sdk_develop.Http.Pipeline.Finish.{
  System, deliver_to_handler, deliver_result_for_task, awaits_validation, certificate_judged,
  judged_response, http_error_of, begin_delivery,
}

contains-keep : (n : ℕ) (ns : List ℕ) → contains n (keep (λ m. not (m == n)) ns) ≡ false
contains-keep n [] = refl
contains-keep n (m ∷ ms) = elim (Bool-cases (m == n)) [
  | inl e ↦ rw e (contains-keep n ms)
  | inr e ↦ rw e (rw e (contains-keep n ms))
]

handler_kept :
    (o : Option Text) (p : Pipeline) (ids : List ℕ) (ts : List Task)
    → partition_handler_for_partition_id o (record p { tasks = ts; task_ids_in_delivery = ids })
      ≡ partition_handler_for_partition_id o p
unfolding partition_handler_for_partition_id
handler_kept none p ids ts = refl
handler_kept (some id) p ids ts = refl

-- The deliveries afterwards.
abbrev pub GetsNoError : ℕ → Pipeline → Pipeline → Type 0
GetsNoError k before after =
    (q : Request) × (a : Option Response) × (after.deliveries
      ≡ before.deliveries ++ (to_result_handler k q a none ∷ []))

handed_over :
    (s : System) (h : PartitionHandler) (t : Task) (p : Pipeline) (k : ℕ)
    → http_error_of t.response ≡ none
    → t.request.auto_resume ≡ false
    → t.request.result_handler_action ≡ none
    → t.request.ephermal_result_handler ≡ some k
    → ((u : Task) → h.post_process_finished_task u none ≡ none)
    → h.instruction_for_finished_task ≡ none
    → GetsNoError k p (deliver_to_handler s h t p)
unfolding deliver_to_handler remove_pipeline_task
handed_over s h t p k no_error once action receiver post instruct =
    rw (no_error, once, action, receiver, instruct) (rw (post _) (_, _, refl))

begun :
    (s : System) (h : PartitionHandler) (t : Task) (p : Pipeline) (k : ℕ)
    → awaits_validation t.response ≡ false
    → http_error_of t.response ≡ none
    → t.request.auto_resume ≡ false
    → t.request.result_handler_action ≡ none
    → t.request.ephermal_result_handler ≡ some k
    → ((u : Task) → h.post_process_finished_task u none ≡ none)
    → h.instruction_for_finished_task ≡ none
    → GetsNoError k p (begin_delivery s h t p)
begun s h t p k awaited no_error once action receiver post instruct =
    rw awaited (handed_over s h t p k no_error once action receiver post instruct)

judged_fields :
    (result : ℕ) (r : Response)
    → (result == 0) ≡ false
    → awaits_validation (judged_response result false none (some r)) ≡ false
judged_fields result r checked = by_certificate r.certificate
  where
    by_certificate : (c : Option ℕ) → (elim c [ none ↦ false | some d ↦ result == 0 ]) ≡ false
    by_certificate none = refl
    by_certificate (some c) = checked

-- A task whose certificate is rejected without an error, with a result of the validation other than none,
-- after its response arrived, and that does not resume by itself and has a handler for its result, is
-- delivered to this handler without an error, where the handler of its partition lets it be.
pub certificate_judged_without_error :
    (s : System) (h : PartitionHandler) (t : Task) (r : Response) (p : Pipeline) (result k : ℕ)
    → partition_handler_for_partition_id t.partition_id p ≡ some h
    → t.response ≡ some r
    → (result == 0) ≡ false
    → t.request.auto_resume ≡ false
    → t.request.result_handler_action ≡ none
    → t.request.ephermal_result_handler ≡ some k
    → ((u : Task) → h.post_process_finished_task u none ≡ none)
    → h.instruction_for_finished_task ≡ none
    → GetsNoError k p (certificate_judged s result false none t p)
unfolding certificate_judged deliver_result_for_task update_pipeline_task
certificate_judged_without_error s h t r p result k attached response checked once action receiver
      post instruct =
    let t' : Task = record t { response = judged_response result false none t.response } in
    let ids = keep (λ m. not (m == t.task_id)) p.task_ids_in_delivery in
    let p' : Pipeline = record p { tasks = replace_task t' p.tasks; task_ids_in_delivery = ids } in
    rw
      (
        handler_kept t.partition_id p ids (replace_task t' p.tasks),
        attached,
        contains-keep t.task_id p.task_ids_in_delivery,
      )
      (begun s h t' (record p' { task_ids_in_delivery = t.task_id ∷ ids }) k
        (awaited t.response response) (no_error t.response response) once action receiver post
        instruct)
  where
    awaited :
        (o : Option Response)
        → o ≡ some r
        → awaits_validation (judged_response result false none o) ≡ false
    awaited o e = rw e (judged_fields result r checked)

    no_error :
        (o : Option Response)
        → o ≡ some r
        → http_error_of (judged_response result false none o) ≡ none
    no_error o e = rw e refl

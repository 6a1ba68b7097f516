-- ===== src/Http/Pipeline/Finish.antt =====
-- How a task ends: `_finishedTask:withResponse:` and `_deliverResultForTask:` of OCHTTPPipeline.m. Cookies,
-- streams, logs and the handlers for empty partitions are not modelled.
pub mod Busy
pub mod Outcomes
pub mod Rejected
use ios_sdk_develop.Prelude.{
  ℕ, Bool, true, false, not, ◌&&◌, Option, none, some, List, [], ◌∷◌, ◌++◌, ◌==◌, contains, keep,
  if◌then◌else◌, Text, codes, text_eq, lookup,
}
use ios_sdk_develop.Errors.{
  NsError, request_cancelled, request_server_certificate_rejected, error_with_oc_error,
}
use ios_sdk_develop.Http.Request.{Request, recreate_request_id}
use ios_sdk_develop.Http.Request.Scheduling.{scrub_for_rescheduling}
use ios_sdk_develop.Http.Response.{Response}
use ios_sdk_develop.Http.Pipeline.{
  TaskState, pending, completed, Instruction, deliver, reschedule, Task, PartitionHandler, Delivery,
  to_action, to_result_handler, Pipeline, find_task, update_pipeline_task, remove_pipeline_task,
  partition_handler_for_partition_id, set_pipeline_needs_scheduling,
}

-- What the system says: the certificate that is cached for a request by https, whether an error is that of
-- a cancelled URL request, the user info of an error that is made from another one, and the identifier that is made in place of another one.
pub record System : Type 0 where
  pub cached_certificate : Request → Option ℕ
  pub is_url_cancelled : NsError → Bool
  pub info_from : NsError → List (Text × ℕ)
  pub new_identifier : Text → Text

abbrev pub no_error : Option NsError → Bool
no_error none = true
no_error (some e) = false

abbrev pub or_cached : Option ℕ → Option ℕ → Option ℕ
or_cached none cached = cached
or_cached (some certificate) cached = some certificate

abbrev pub validation_result : Option ℕ → Option ℕ → ℕ → ℕ
validation_result none (some cached) stored = 0
validation_result none none stored = stored
validation_result (some certificate) cached stored = stored

-- A response without an error and a certificate gets the one that is cached, not validated.
abbrev pub with_certificate : System → Request → Response → Response
with_certificate s q r =
    if no_error r.error && no_error r.http_error
    then record r {
      certificate = or_cached r.certificate (s.cached_certificate q);
      certificate_validation_result =
          validation_result r.certificate (s.cached_certificate q) r.certificate_validation_result;
    }
    else r

abbrev pub http_error_of : Option Response → Option NsError
http_error_of none = none
http_error_of (some r) = r.http_error

abbrev pub error_of : Option Response → Option NsError
error_of none = none
error_of (some r) = r.error

abbrev pub cancelled_error : System → NsError → Option NsError → NsError
cancelled_error s e none = error_with_oc_error request_cancelled (s.info_from e)
cancelled_error s e (some own) = own

-- The error of a cancelled request is the response's own, if there is one.
abbrev pub delivered_error : System → Option NsError → Option NsError → Option NsError
delivered_error s none own = none
delivered_error s (some e) own =
    if s.is_url_cancelled e then some (cancelled_error s e own) else some e

abbrev pub awaits_validation : Option Response → Bool
awaits_validation none = false
awaits_validation (some r) = elim r.certificate [
  | none ↦ false
  | some c ↦ r.certificate_validation_result == 0
]

abbrev pub resume_data_key : Text
resume_data_key = codes "NSURLSessionDownloadTaskResumeData"

abbrev pub resume_data : Option NsError → Option ℕ
resume_data none = none
resume_data (some e) = lookup text_eq resume_data_key e.user_info

-- The information for the next attempt, where a request resumes by itself.
abbrev pub resume_info : Bool → Option ℕ → Option ℕ → Option ℕ
resume_info true from_error stored = from_error
resume_info false from_error stored = stored

abbrev pub is_some : Option ℕ → Bool
is_some none = false
is_some (some n) = true

abbrev pub decide : PartitionHandler → Task → Option NsError → Instruction
decide h t e = elim h.instruction_for_finished_task [ none ↦ deliver | some f ↦ f t deliver e ]

abbrev pub instruction : Bool → PartitionHandler → Task → Option NsError → Instruction
instruction true h t e = reschedule
instruction false h t e = decide h t e

-- The delivery to an action of the handler, or to the handler of the request; nil where none takes it.
abbrev pub delivery_to :
    Option Text → Option ℕ → PartitionHandler → Task → Option NsError → List Delivery
delivery_to (some action) ephermal h t e =
    if h.implements action then to_action action t.request e ∷ [] else []
delivery_to none (some handler) h t e = to_result_handler handler t.request t.response e ∷ []
delivery_to none none h t e = []

abbrev pub without_temporary_file : Option Response → Option Response
without_temporary_file none = none
without_temporary_file (some r) =
    some (if r.body_url_is_temporary then record r { body_url = none } else r)

abbrev pub with_new_identifier : System → Option ℕ → Task → Task
with_new_identifier s (some resume) t = t
with_new_identifier s none t = record t {
  request_id = s.new_identifier t.request_id;
  request = recreate_request_id (s.new_identifier t.request_id) t.request;
}

-- The task as it is scheduled again.
unfoldable pub rescheduled : System → Task → Task
unfolding recreate_request_id scrub_for_rescheduling
rescheduled s t =
    record (with_new_identifier s t.request.auto_resume_info
      (record t { request = scrub_for_rescheduling t.request })) {
        url_session_id = none;
        url_session_task_id = none;
        state = pending;
        response = none;
      }

abbrev pub end_delivery : ℕ → Pipeline → Pipeline
end_delivery n p = record p {
  task_ids_in_delivery = keep (λ m. not (m == n)) p.task_ids_in_delivery;
}

abbrev pub follow :
    System → Instruction → PartitionHandler → Task → Option NsError → Pipeline → Pipeline
follow s deliver h t e p = remove_pipeline_task t (record p {
  deliveries =
      p.deliveries
      ++ delivery_to t.request.result_handler_action t.request.ephermal_result_handler h t e;
})
follow s reschedule h t e p = set_pipeline_needs_scheduling (
    update_pipeline_task (rescheduled s (record t { response = without_temporary_file t.response }))
      p)

-- The delivery to an attached handler, once nothing stands in its way.
unfoldable pub deliver_to_handler : System → PartitionHandler → Task → Pipeline → Pipeline
unfolding remove_pipeline_task set_pipeline_needs_scheduling update_pipeline_task rescheduled
deliver_to_handler s h t p =
    let e = delivered_error s (http_error_of t.response) (error_of t.response) in
    let resumes = t.request.auto_resume && is_some (resume_data e) in
    let t' : Task = record t {
      request = record t.request {
        http_response = t.response;
        auto_resume_info =
            resume_info t.request.auto_resume (resume_data e) t.request.auto_resume_info;
      };
    } in
    let e' = h.post_process_finished_task t' e in
    end_delivery t.task_id (follow s (instruction resumes h t' e') h t' e' p)

-- Without a handler any process may deliver the result.
abbrev pub leave_to_any_process : Task → Pipeline → Pipeline
leave_to_any_process t p = elim t.bundle_id [
  | none ↦ p
  | some b ↦
      (if b == p.bundle_identifier
        then update_pipeline_task (record t { bundle_id = none }) p
        else p)
]

abbrev pub begin_delivery : System → PartitionHandler → Task → Pipeline → Pipeline
begin_delivery s h t p = if awaits_validation t.response then p else deliver_to_handler s h t p

abbrev pub deliver_by : System → Option PartitionHandler → Task → Pipeline → Pipeline
deliver_by s none t p = leave_to_any_process t p
deliver_by s (some h) t p =
    if contains t.task_id p.task_ids_in_delivery
    then p
    else begin_delivery s h t
        (record p { task_ids_in_delivery = t.task_id ∷ p.task_ids_in_delivery })

-- `_deliverResultForTask:`. Where a certificate is to be validated, the task stays in delivery.
unfoldable pub deliver_result_for_task : System → Task → Pipeline → Pipeline
unfolding deliver_to_handler partition_handler_for_partition_id update_pipeline_task
deliver_result_for_task s t p =
    deliver_by s (partition_handler_for_partition_id t.partition_id p) t p

abbrev pub judged : ℕ → Bool → Option NsError → Response → Response
judged result true e r = record r { certificate_validation_result = result }
judged result false none r = record r {
  certificate_validation_result = result;
  error = some (error_with_oc_error request_server_certificate_rejected []);
  http_error = none;
}
judged result false (some e) r = record r {
  certificate_validation_result = result;
  error = some e;
  http_error = some e;
}

abbrev pub judged_response : ℕ → Bool → Option NsError → Option Response → Option Response
judged_response result proceed e none = none
judged_response result proceed e (some r) = some (judged result proceed e r)

-- The result of the validation is there, and whether to proceed: the delivery is tried again.
unfoldable pub certificate_judged : System → ℕ → Bool → Option NsError → Task → Pipeline → Pipeline
unfolding deliver_result_for_task update_pipeline_task
certificate_judged s result proceed e t p =
    let t' : Task = record t { response = judged_response result proceed e t.response } in
    deliver_result_for_task s t' (end_delivery t.task_id (update_pipeline_task t' p))

abbrev pub ended_task : System → Task → Response → Task
ended_task s t r = record t {
  finished = true;
  response = some (with_certificate s t.request r);
  state = completed;
}

-- `_finishedTask:withResponse:`, which does nothing for a task without a request.
unfoldable pub finish_task : System → Task → Response → Pipeline → Pipeline
unfolding deliver_result_for_task update_pipeline_task
finish_task s t r p =
    if t.has_request
    then deliver_result_for_task s (ended_task s t r) (update_pipeline_task (ended_task s t r) p)
    else p

-- A task is an object that the cache of the backend shares; one that was removed is still the object that
-- a block keeps.
abbrev pub current : Option Task → Task → Task
current none t = t
current (some u) t = u

abbrev pub deliver_tasks : System → List Task → Pipeline → Pipeline
deliver_tasks s [] p = p
deliver_tasks s (t ∷ ts) p = deliver_tasks s ts (deliver_result_for_task s t p)

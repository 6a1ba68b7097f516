-- ===== src/Http/Pipeline/Schedule/Cancelled.antt =====
-- A pending task that is cancelled, from the call to the result.
use ios_sdk_develop.Prelude.{
  ℕ, ◌≡◌, refl, sym, ap, ◌∙◌, true, false, Option, none, some, List, [], ◌∷◌, ◌++◌, contains,
  if◌then◌else◌, Text,
}
use mathlib.Core.Path.{subst}
use ios_sdk_develop.Errors.{NsError, request_cancelled, error_with_oc_error}
use ios_sdk_develop.Http.Request.{Request}
use ios_sdk_develop.Http.Response.{Response, init_with_request}
use ios_sdk_develop.Process.{ProcessManager}
use ios_sdk_develop.Http.Pipeline.{
  pending, Task, PartitionHandler, Block, finishes, to_result_handler, Pipeline, is_started,
  find_task, find_request, replace_task, update_pipeline_task, remove_pipeline_task,
  partition_handler_for_partition_id, set_pipeline_needs_scheduling, finished_task_later,
  error_response, cancel_by_state, cancel_task, cancel_found, cancel_request,
}
use ios_sdk_develop.Http.Pipeline.Finish.{
  System, delivered_error, http_error_of, error_of, deliver_to_handler, deliver_result_for_task,
  ended_task, finish_task, current,
}
use ios_sdk_develop.Http.Pipeline.Finish.Outcomes.{find_task-delete, needs_scheduling_fields}
use ios_sdk_develop.Http.Pipeline.Collect.{Surroundings}
use ios_sdk_develop.Http.Pipeline.Schedule.{run_block, run_next}

abbrev pub cancelled_error_of : NsError
cancelled_error_of = error_with_oc_error request_cancelled []

-- The task is gone, and its handler got the error of a cancelled request.
abbrev pub IsCancelled : ℕ → ℕ → Pipeline → Pipeline → Type 0
IsCancelled k n before after =
    (find_task n after.tasks ≡ none)
    × ((q : Request) × (a : Option Response) × (after.deliveries
          ≡ before.deliveries ++ (to_result_handler k q a (some cancelled_error_of) ∷ [])))

-- A handler of a partition that leaves a cancelled request alone, and a request for a result handler.
abbrev pub LetsBe : PartitionHandler → Type 0
LetsBe h =
    ((u : Task)
      → h.post_process_finished_task u (some cancelled_error_of) ≡ some cancelled_error_of)
    × (h.instruction_for_finished_task ≡ none)

abbrev pub IsFor : ℕ → Task → Type 0
IsFor k t =
    (t.request.auto_resume ≡ false)
    × (t.request.result_handler_action ≡ none)
    × (t.request.ephermal_result_handler ≡ some k)

same_error :
    (s : System)
    → s.is_url_cancelled cancelled_error_of ≡ false
    → delivered_error s (some cancelled_error_of) none ≡ some cancelled_error_of
same_error s other = rw other refl

deliver_to_handler-IsCancelled :
    (s : System) (h : PartitionHandler) (t : Task) (p : Pipeline) (k : ℕ)
    → s.is_url_cancelled cancelled_error_of ≡ false
    → http_error_of t.response ≡ some cancelled_error_of
    → error_of t.response ≡ none
    → IsFor k t
    → LetsBe h
    → IsCancelled k t.task_id p (deliver_to_handler s h t p)
unfolding deliver_to_handler remove_pipeline_task
deliver_to_handler-IsCancelled s h t p k other http own (once, action, receiver) (post, instruct) =
    rw (http, own, same_error s other, once, action, receiver, instruct)
      (rw (post _) (find_task-delete t.task_id p.tasks, (_, _, refl)))

handler_of_rows :
    (o : Option Text) (p : Pipeline) (ts : List Task)
    → partition_handler_for_partition_id o (record p { tasks = ts; queued = [] })
      ≡ partition_handler_for_partition_id o p
unfolding partition_handler_for_partition_id
handler_of_rows none p ts = refl
handler_of_rows (some id) p ts = refl

finish_task-IsCancelled :
    (s : System) (h : PartitionHandler) (t : Task) (now k : ℕ) (p : Pipeline)
    → s.is_url_cancelled cancelled_error_of ≡ false
    → t.has_request ≡ true
    → partition_handler_for_partition_id t.partition_id p ≡ some h
    → contains t.task_id p.task_ids_in_delivery ≡ false
    → IsFor k t
    → LetsBe h
    → IsCancelled k t.task_id p (
        finish_task s t
          (error_response now t.request cancelled_error_of)
          (record p { queued = [] }))
unfolding finish_task deliver_result_for_task update_pipeline_task init_with_request
finish_task-IsCancelled s h t now k p other there attached idle receiver quiet =
    let u : Task = ended_task s t (error_response now t.request cancelled_error_of) in
    let p' : Pipeline = record p { queued = [] } in
    subst
      (λ b.
        IsCancelled k t.task_id p
          (if b then deliver_result_for_task s u (update_pipeline_task u p') else p'))
      (sym there)
      (rw (handler_of_rows t.partition_id p (replace_task u p.tasks), attached, idle)
        (deliver_to_handler-IsCancelled s h u
          (record p {
            queued = [];
            tasks = replace_task u p.tasks;
            task_ids_in_delivery = t.task_id ∷ p.task_ids_in_delivery;
          })
          k other refl refl receiver quiet))

run_next-first :
    (s : Surroundings) (m : ProcessManager) (b : Block) (bs : List Block) (p : Pipeline)
    → p.raised ≡ false
    → p.queued ≡ b ∷ bs
    → run_next s m p ≡ run_block s m b (record p { queued = bs })
unfolding run_next
run_next-first s m b bs p quiet waiting =
    subst
      (λ e.
        (if e then (m, p) else (elim p.queued [
          | [] ↦ (m, p)
          | c ∷ cs ↦ run_block s m c (record p { queued = cs })
        ]))
        ≡ run_block s m b (record p { queued = bs }))
      (sym quiet)
      (ap (λ q. elim q [ [] ↦ (m, p) | c ∷ cs ↦ run_block s m c (record p { queued = cs }) ])
        waiting)

run_block-finishes :
    (s : Surroundings) (m : ProcessManager) (t : Task) (r : Response) (p : Pipeline)
    → (run_block s m (finishes t r) p).1
      ≡ set_pipeline_needs_scheduling
          (finish_task s.system (current (find_task t.task_id p.tasks) t) r p)
unfolding run_block
run_block-finishes s m t r p = refl

run_next-cancelled :
    (s : Surroundings) (m : ProcessManager) (t : Task) (r : Response) (p : Pipeline)
    → p.raised ≡ false
    → p.queued ≡ []
    → find_task t.task_id p.tasks ≡ some t
    → (run_next s m (finished_task_later t r p)).1
      ≡ set_pipeline_needs_scheduling (finish_task s.system t r (record p { queued = [] }))
unfolding finished_task_later
run_next-cancelled s m t r p quiet waiting stored =
    let p' : Pipeline = record p { queued = [] } in
    let first =
      run_next-first s m (finishes t r) [] (finished_task_later t r p) quiet
        (ap (λ q. q ++ (finishes t r ∷ [])) waiting) in
    ap (λ (x : ProcessManager × Pipeline). x.1) first
    ∙ (run_block-finishes s m t r p'
        ∙ ap (λ o. set_pipeline_needs_scheduling (finish_task s.system (current o t) r p')) stored)

cancel_request-pending :
    (now : ℕ) (id : Text) (t : Task) (p : Pipeline)
    → is_started p.state ≡ true
    → find_request id p.tasks ≡ some t
    → t.state ≡ pending
    → cancel_request now id p
      ≡ finished_task_later t (error_response now t.request cancelled_error_of) p
unfolding cancel_request cancel_task
cancel_request-pending now id t p is_on found state =
    ap (λ b. if b then cancel_found now (find_request id p.tasks) p else p) is_on
    ∙ (ap (λ o. cancel_found now o p) found ∙ ap (λ u. cancel_by_state u now t p) state)

-- Where the error of a cancelled request is not taken for one of the system's: a pending task with its
-- request, which does not resume by itself and has a handler for its result, that is stored under its ID,
-- not in delivery and cancelled in a started pipeline with an empty queue where nothing was thrown, is gone
-- after the next block of the queue, if the handler of its partition lets it be, and the handler for its
-- result got the error of a cancelled request.
pub cancel_request_delivers :
    (s : Surroundings) (m : ProcessManager) (h : PartitionHandler) (t : Task) (id : Text) (k : ℕ)
    (p : Pipeline)
    → s.system.is_url_cancelled cancelled_error_of ≡ false
    → is_started p.state ≡ true
    → p.raised ≡ false
    → p.queued ≡ []
    → find_request id p.tasks ≡ some t
    → find_task t.task_id p.tasks ≡ some t
    → t.state ≡ pending
    → t.has_request ≡ true
    → partition_handler_for_partition_id t.partition_id p ≡ some h
    → contains t.task_id p.task_ids_in_delivery ≡ false
    → IsFor k t
    → LetsBe h
    → IsCancelled k t.task_id p (run_next s m (cancel_request s.now id p)).1
cancel_request_delivers s m h t id k p other is_on quiet waiting found stored state there attached
      idle receiver free =
    let r = error_response s.now t.request cancelled_error_of in
    let after : Pipeline = finish_task s.system t r (record p { queued = [] }) in
    let queued : cancel_request s.now id p ≡ finished_task_later t r p =
      cancel_request-pending s.now id t p is_on found state in
    let (tasks, deliveries) = needs_scheduling_fields after in
    let (gone, got) =
      finish_task-IsCancelled s.system h t s.now k p other there attached idle receiver free in
    subst (λ q. IsCancelled k t.task_id p q)
      (sym
        (ap (λ q. (run_next s m q).1) queued ∙ run_next-cancelled s m t r p quiet waiting stored))
      (ap (find_task t.task_id) tasks ∙ gone, (got.0, got.1, deliveries ∙ got.2))

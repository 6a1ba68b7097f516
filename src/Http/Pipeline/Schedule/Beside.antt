-- ===== src/Http/Pipeline/Schedule/Beside.antt =====
-- What is taken up beside a running task.
use ios_sdk_develop.Prelude.{
  ℕ, ◌≤◌, ◌≡◌, refl, ap, sym, ◌∙◌, Bool, true, false, ◌||◌, Option, none, some, List, [], ◌∷◌, ◌++◌,
  if◌then◌else◌, arith, Bool-cases, inl, inr, Text, text_eq, text_eq→eq, text_eq_refl, All,
}
use mathlib.Core.Path.{subst}
use ios_sdk_develop.Process.{ProcessManager}
use ios_sdk_develop.Errors.{NsError}
use ios_sdk_develop.Http.Pipeline.{
  TaskState, pending, running, completed, Task, PartitionHandler, Pipeline, is_pending,
  contains_text, partition_handler_for_partition_id,
}
use ios_sdk_develop.Http.Pipeline.Collect.{
  Surroundings, Collection, block, is_blocked, collect_allowed, collect_pending, collect_running,
  collect_by_state, collect_task, collect_tasks, belongs_elsewhere, is_considered, signals, network,
  collected, add_schedulable,
}
use ios_sdk_develop.Http.Pipeline.Order.{picked_tasks}
use ios_sdk_develop.Http.Pipeline.Order.Members.{is_group, members, total, members-picked_tasks}
use ios_sdk_develop.Http.Pipeline.Collect.Added.{
  StandsApart, total-add_other, add_other-StandsApart,
}
use ios_sdk_develop.Http.Pipeline.Schedule.Groups.{
  Holds, collect_running-Holds, network-group, collect_task-cases,
}

-- A task that is not of the group leaves the group as it is.
add_other-Holds :
    (g : Text) (n : ℕ) (t : Task) (c : Collection)
    → is_group g t.group_id ≡ false
    → Holds g n c
    → (total g (add_schedulable t c.schedulable) ≤ n)
      × All (StandsApart g) (add_schedulable t c.schedulable)
add_other-Holds g n t c k h =
    (rw (total-add_other g t c.schedulable k) h.0, add_other-StandsApart g t c.schedulable k h.1)

-- The group is blocked, and nothing of it was collected.
abbrev Closed : Text → Collection → Type 0
Closed g c = (contains_text g c.blocked ≡ true) × Holds g 0 c

contains-block :
    (g : Text) (o : Option Text) (bs : List Text)
    → contains_text g bs ≡ true
    → contains_text g (block o bs) ≡ true
contains-block g none bs h = h
contains-block g (some k) bs h = or_true (text_eq k g) h
  where
    or_true : (a : Bool) {b : Bool} → b ≡ true → (a || b) ≡ true
    or_true true e = refl
    or_true false e = e

-- What a collection keeps of a task that is not of the group, or not pending.
record Keeps (g : Text) (P : Collection → Type 0) : Type 0 where
  ends : (c : Collection) (p : Pipeline) → P c → P (record c { pipeline = p })
  blocks : (o : Option Text) (c : Collection) → P c → P (record c { blocked = block o c.blocked })
  adds :
      (t : Task) (c : Collection) (p : Pipeline)
      → is_group g t.group_id ≡ false
      → P c
      → P (record c { schedulable = add_schedulable t c.schedulable; pipeline = p })
  runs : (o : Option Text) (c : Collection) → P c → P (collect_running o c)
  processes : (m : ProcessManager) (c : Collection) → P c → P (record c { processes = m })

empty-Keeps : (g : Text) → Keeps g (Holds g 0)
empty-Keeps g = record {
  ends = λ c p h. h;
  blocks = λ o c h. h;
  adds = λ t c p k h. add_other-Holds g 0 t c k h;
  runs = collect_running-Holds g 0;
  processes = λ m c h. h;
}

Closed-remove :
    (g : Text) (o : Option Text) (c : Collection) → Closed g c → Closed g (collect_running o c)
Closed-remove g none c h = h
Closed-remove g (some k) c h =
    (contains-block g (some k) c.blocked h.0, collect_running-Holds g 0 (some k) c h.1)

Closed-Keeps : (g : Text) → Keeps g (Closed g)
Closed-Keeps g = record {
  ends = λ c p h. h;
  blocks = λ o c h. (contains-block g o c.blocked h.0, h.1);
  adds = λ t c p k h. (h.0, add_other-Holds g 0 t c k h.1);
  runs = Closed-remove g;
  processes = λ m c h. h;
}

module _ (g : Text) (P : Collection → Type 0) (keeps : Keeps g P) (s : Surroundings) where
  collect_pending-Keeps :
      (a : Bool × Option NsError) (t : Task) (c : Collection)
      → is_group g t.group_id ≡ false
      → P c
      → P (collect_pending s a t c)
  collect_pending-Keeps (true, e) t c k h =
      by_network (network s t) (network-group s t t.request.required_cellular_switch)
    where
      by_network : (a : Bool × Task) → a.1.group_id ≡ t.group_id → P (collect_allowed a c)
      by_network (true, u) same = keeps.adds u c _ (ap (is_group g) same ∙ k) h
      by_network (false, u) same = keeps.blocks u.group_id c h
  collect_pending-Keeps (false, none) t c k h = keeps.blocks t.group_id c h
  collect_pending-Keeps (false, some e) t c k h = keeps.ends c _ h

  collect_by_state-Keeps :
      (d : Option PartitionHandler) (t : Task) (c : Collection) (state : TaskState)
      → (is_pending state ≡ true → is_group g t.group_id ≡ false)
      → P c
      → P (collect_by_state state s d t c)
  collect_by_state-Keeps d t c pending k h = collect_pending-Keeps (signals d t) t c (k refl) h
  collect_by_state-Keeps d t c running k h = keeps.runs t.group_id c h
  collect_by_state-Keeps d t c completed k h = h

  collect_task-Keeps :
      (t : Task) (c : Collection)
      → (is_blocked t.group_id c.blocked ≡ false
          → is_pending t.state ≡ true
          → is_group g t.group_id ≡ false)
      → P c
      → P (collect_task s t c)
  collect_task-Keeps t c k h = collect_task-cases P s t c h (keeps.processes _ c h) (λ e.
      collect_by_state-Keeps (partition_handler_for_partition_id t.partition_id c.pipeline) t _
        t.state (k e) (keeps.processes _ c h))

-- In a closed group a pending task is blocked.
is_blocked_Closed :
    (g : Text) (o : Option Text) (bs : List Text)
    → contains_text g bs ≡ true
    → is_blocked o bs ≡ false
    → is_group g o ≡ false
is_blocked_Closed g none bs h k = refl
is_blocked_Closed g (some l) bs h k = elim (Bool-cases (text_eq l g)) [
  | inl e ↦ cc (h, k, ap (λ x. contains_text x bs) (text_eq→eq l g e))
  | inr e ↦ e
]

collect_tasks-Closed :
    (g : Text) (s : Surroundings) (ts : List Task) (c : Collection)
    → Closed g c
    → Closed g (collect_tasks s ts c)
collect_tasks-Closed g s [] c h = h
collect_tasks-Closed g s (t ∷ ts) c h = collect_tasks-Closed g s ts (collect_task s t c) (
    collect_task-Keeps g (Closed g) (Closed-Keeps g) s t c
      (λ free state. is_blocked_Closed g t.group_id c.blocked h.0 free) h)

abbrev pub IsIdle : Text → Task → Type 0
IsIdle g t = is_pending t.state ≡ true → is_group g t.group_id ≡ false

collect_tasks-empty :
    (g : Text) (s : Surroundings) (ts : List Task) (c : Collection)
    → All (IsIdle g) ts
    → Holds g 0 c
    → Holds g 0 (collect_tasks s ts c)
collect_tasks-empty g s [] c a h = h
collect_tasks-empty g s (t ∷ ts) c a h =
    collect_tasks-empty g s ts (collect_task s t c) a.1
      (collect_task-Keeps g (Holds g 0) (empty-Keeps g) s t c (λ free. a.0) h)

-- A task is looked at: its partition is attached or it can do without, and no other process has it.
abbrev pub IsLookedAt : Task → Collection → Type 0
IsLookedAt t c =
    (is_considered c.pipeline t ≡ true)
    × ((belongs_elsewhere t.bundle_id c.pipeline.bundle_identifier c.processes).0 ≡ false)

collect_running-Closed :
    (g : Text) (s : Surroundings) (t : Task) (c : Collection)
    → is_group g t.group_id ≡ true
    → t.state ≡ running
    → IsLookedAt t c
    → Holds g 0 c
    → Closed g (collect_task s t c)
unfolding collect_task
collect_running-Closed g s t c own state seen h =
    rw (seen.0, seen.1) (by_block (is_blocked t.group_id c.blocked) refl)
  where
    c' : Collection
    c' = record c {
      processes = (belongs_elsewhere t.bundle_id c.pipeline.bundle_identifier c.processes).1;
    }

    d : Option PartitionHandler
    d = partition_handler_for_partition_id t.partition_id c.pipeline

    name : (o : Option Text) → is_group g o ≡ true → o ≡ some g
    name none k = cc
    name (some l) k = ap (λ x. some x) (text_eq→eq l g k)

    by_block :
        (b : Bool)
        → is_blocked t.group_id c.blocked ≡ b
        → Closed g (if b then c' else collect_by_state t.state s d t c')
    by_block true e = (sym (ap (λ o. is_blocked o c.blocked) (name t.group_id own)) ∙ e, h)
    by_block false e =
        subst (λ state. Closed g (collect_by_state state s d t c')) (sym state)
          (subst (λ o. Closed g (collect_running o c')) (sym (name t.group_id own))
            (
              ap (λ b. b || contains_text g c.blocked) (text_eq_refl g),
              collect_running-Holds g 0 (some g) c' h,
            ))

collect_tasks-append :
    (s : Surroundings) (ts us : List Task) (c : Collection)
    → collect_tasks s (ts ++ us) c ≡ collect_tasks s us (collect_tasks s ts c)
collect_tasks-append s [] us c = refl
collect_tasks-append s (t ∷ ts) us c = collect_tasks-append s ts us (collect_task s t c)

abbrev pub start : ProcessManager → Pipeline → Collection
start m p = record { schedulable = []; blocked = []; processes = m; pipeline = p }

-- Beside a task of a group that runs and is looked at, no task of the group is taken up, if none that stands
-- before it in the database is pending.
pub picked_tasks_none_beside_running :
    (s : Surroundings) (m : ProcessManager) (p : Pipeline) (g : Text) (recent : List Text)
    (before after : List Task) (t : Task)
    → p.tasks ≡ before ++ (t ∷ after)
    → is_group g t.group_id ≡ true
    → t.state ≡ running
    → All (IsIdle g) before
    → IsLookedAt t (collect_tasks s before (start m p))
    → members g (picked_tasks recent (collected s m p).schedulable) ≡ 0
unfolding collected
picked_tasks_none_beside_running s m p g recent before after t split own state idle seen =
    let empty = collect_tasks-empty g s before (start m p) idle (omega arith, tt) in
    let reached = collect_tasks s before (start m p) in
    let closed =
      collect_tasks-Closed g s after (collect_task s t reached)
        (collect_running-Closed g s t reached own state seen empty) in
    let whole =
      ap (λ ts. collect_tasks s ts (start m p)) split
      ∙ collect_tasks-append s before (t ∷ after) (start m p) in
    let none_held = subst (λ c. total g c.schedulable ≤ 0) (sym whole) closed.1.0 in
    omega (arith, members-picked_tasks g recent (collected s m p).schedulable, none_held)

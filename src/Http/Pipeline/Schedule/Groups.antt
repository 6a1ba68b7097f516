-- ===== src/Http/Pipeline/Schedule/Groups.antt =====
-- How many tasks of a group are taken up.
use ios_sdk_develop.Prelude.{
  ℕ, ◌≤◌, ◌≡◌, refl, Bool, true, false, Option, none, some, List, [], ◌∷◌, if◌then◌else◌, arith,
  Bool-cases, if-both, inl, inr, Text, All,
}
use ios_sdk_develop.Process.{ProcessManager}
use ios_sdk_develop.Errors.{NsError}
use ios_sdk_develop.Http.Pipeline.{
  TaskState, pending, running, completed, Task, PartitionHandler, Pipeline,
  partition_handler_for_partition_id,
}
use ios_sdk_develop.Http.Pipeline.Collect.{
  Surroundings, Collection, add_schedulable, is_blocked, collect_allowed, collect_pending,
  collect_running, collect_by_state, collect_task, collect_tasks, belongs_elsewhere, is_considered,
  signals, network, collected, network_by, access_for,
}
use ios_sdk_develop.Http.Pipeline.Order.{picked_tasks}
use ios_sdk_develop.Http.Pipeline.Order.Members.{is_group, members, members-picked_tasks, total}
use ios_sdk_develop.Http.Pipeline.Collect.Added.{
  StandsApart, add_other-StandsApart, add_own-StandsApart, remove_group-StandsApart,
  total-add_other, total-add_own, total-remove_group,
}

-- At most so many tasks of the group were collected, under its key.
abbrev pub Holds : Text → ℕ → Collection → Type 0
Holds g n c = (total g c.schedulable ≤ n) × All (StandsApart g) c.schedulable

add_schedulable-Holds :
    (g : Text) (t : Task) (c : Collection)
    → Holds g 1 c
    → (total g (add_schedulable t c.schedulable) ≤ 1)
      × All (StandsApart g) (add_schedulable t c.schedulable)
add_schedulable-Holds g t c h = elim (Bool-cases (is_group g t.group_id)) [
  | inl k ↦ (total-add_own g t c.schedulable k h.1 h.0, add_own-StandsApart g t c.schedulable k h.1)
  | inr k ↦
      (rw (total-add_other g t c.schedulable k) h.0, add_other-StandsApart g t c.schedulable k h.1)
]

pub collect_running-Holds :
    (g : Text) (n : ℕ) (o : Option Text) (c : Collection)
    → Holds g n c
    → Holds g n (collect_running o c)
collect_running-Holds g n none c h = h
collect_running-Holds g n (some k) c h = (
  omega (arith, h.0, total-remove_group g k c.schedulable),
  remove_group-StandsApart g k c.schedulable h.1,
)

pub network-group :
    (s : Surroundings) (t : Task) (o : Option Text) → (network_by s t o).1.group_id ≡ t.group_id
network-group s t none = refl
network-group s t (some i) =
    if-both (λ (u : Task). u.group_id ≡ t.group_id) (access_for s t i).0 refl refl

collect_pending-Holds :
    (g : Text) (s : Surroundings) (a : Bool × Option NsError) (t : Task) (c : Collection)
    → Holds g 1 c
    → Holds g 1 (collect_pending s a t c)
collect_pending-Holds g s (true, e) t c h = by_network (network s t)
  where
    by_network : (a : Bool × Task) → Holds g 1 (collect_allowed a c)
    by_network (true, u) = add_schedulable-Holds g u c h
    by_network (false, u) = h
collect_pending-Holds g s (false, none) t c h = h
collect_pending-Holds g s (false, some e) t c h = h

collect_by_state-Holds :
    (g : Text) (s : Surroundings) (d : Option PartitionHandler) (t : Task) (c : Collection)
    (state : TaskState)
    → Holds g 1 c
    → Holds g 1 (collect_by_state state s d t c)
collect_by_state-Holds g s d t c pending h = collect_pending-Holds g s (signals d t) t c h
collect_by_state-Holds g s d t c running h = collect_running-Holds g 1 t.group_id c h
collect_by_state-Holds g s d t c completed h = h

-- What a step for a task can make of a collection: nothing but the processes, or what the task's state
-- makes of it.
pub collect_task-cases :
    (P : Collection → Type 0) (s : Surroundings) (t : Task) (c : Collection)
    → P c
    → P (record c {
      processes = (belongs_elsewhere t.bundle_id c.pipeline.bundle_identifier c.processes).1;
    })
    → (is_blocked t.group_id c.blocked ≡ false
        → P (
            collect_by_state t.state s
              (partition_handler_for_partition_id t.partition_id c.pipeline)
              t
              (record c {
                processes =
                    (belongs_elsewhere t.bundle_id c.pipeline.bundle_identifier c.processes).1;
              })))
    → P (collect_task s t c)
unfolding collect_task
collect_task-cases P s t c skipped other taken =
    let elsewhere = belongs_elsewhere t.bundle_id c.pipeline.bundle_identifier c.processes in
    if-both P (is_considered c.pipeline t)
      (if-both P elsewhere.0 other (by_block (is_blocked t.group_id c.blocked) refl)) skipped
  where
    c' : Collection
    c' = record c {
      processes = (belongs_elsewhere t.bundle_id c.pipeline.bundle_identifier c.processes).1;
    }

    next : Collection
    next =
        collect_by_state t.state s (partition_handler_for_partition_id t.partition_id c.pipeline) t
          c'

    by_block : (b : Bool) → is_blocked t.group_id c.blocked ≡ b → P (if b then c' else next)
    by_block true e = other
    by_block false e = taken e

collect_tasks-Holds :
    (g : Text) (s : Surroundings) (ts : List Task) (c : Collection)
    → Holds g 1 c
    → Holds g 1 (collect_tasks s ts c)
collect_tasks-Holds g s [] c h = h
collect_tasks-Holds g s (t ∷ ts) c h = collect_tasks-Holds g s ts (collect_task s t c) (
    collect_task-cases (Holds g 1) s t c h h (λ e.
      collect_by_state-Holds g s (partition_handler_for_partition_id t.partition_id c.pipeline) t
        (record c {
          processes = (belongs_elsewhere t.bundle_id c.pipeline.bundle_identifier c.processes).1;
        })
        t.state h))

-- Of each group, at most one task is taken up at a time, whatever tasks there are.
pub picked_tasks_one_in_group :
    (s : Surroundings) (m : ProcessManager) (p : Pipeline) (g : Text) (recent : List Text)
    → members g (picked_tasks recent (collected s m p).schedulable) ≤ 1
unfolding collected
picked_tasks_one_in_group s m p g recent =
    let start : Collection = record {
      schedulable = [];
      blocked = [];
      processes = m;
      pipeline = p;
    } in
    omega (
      arith,
      members-picked_tasks g recent (collected s m p).schedulable,
      (collect_tasks-Holds g s p.tasks start (omega arith, tt)).0,
    )

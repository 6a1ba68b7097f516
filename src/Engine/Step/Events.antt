-- ===== src/Engine/Step/Events.antt =====
-- The delivery of events to a sync record.
use ios_sdk_develop.Prelude.{
  ℕ, zero, suc, ◌<◌, ◌≤◌, ◌≡◌, refl, ap, ◌∙◌, inl, inr, Bool, true, false, not, none, some, List,
  [], ◌∷◌, arith, ◌==◌, Bool-cases, Option-cases, ==_refl, if◌then◌else◌, length, keep,
}
use ios_sdk_develop.EventQueue.{remove_event_record}
use ios_sdk_develop.Record.{SyncRecord}
use ios_sdk_develop.Engine.{Event, World, no_instruction}
use ios_sdk_develop.Engine.Context.{
  SyncContext, event_handling_context_with, perform_sync_context_actions, handle_sync_record,
}
use ios_sdk_develop.Engine.Context.Kept.{Kept, Kept-trans, perform_sync_context_actions-Kept}
use ios_sdk_develop.Engine.Action.{Methods, Method, process_with_context}
use ios_sdk_develop.Engine.Pass.Loops.{some_eq}
use ios_sdk_develop.Engine.Step.{
  EventRun, first_event, events_for, next_event, remove_event, deliver_event, deliver_events,
}

-- The method leaves the events of the database, and those that are queued, alone.
abbrev pub Leaves : {A : Type 0} → Method A → Type 0
Leaves block = (w : World) (c : SyncContext) → Kept w (block w c).0

-- What a context that was run on an action leaves.
abbrev performed : {A : Type 0} → Method A → World → SyncContext → World
performed block w c =
    (perform_sync_context_actions (block w c).1 (
      if (block w c).1.error
      then record (block w c).0 { errors_sent = suc (block w c).0.errors_sent }
      else (block w c).0)).0

performed-Kept :
    {A : Type 0} (block : Method A)
    → Leaves block
    → (w : World) (c : SyncContext) → Kept w (performed block w c)
performed-Kept block leaves w c =
    let (w₁, c₁, a) = block w c in
    let w₂ = if c₁.error then record w₁ { errors_sent = suc w₁.errors_sent } else w₁ in
    Kept-trans w w₁ (perform_sync_context_actions c₁ w₂).0 (leaves w c) (
      Kept-trans w₁ w₂ (perform_sync_context_actions c₁ w₂).0
        (ground arith, ground arith, ground arith, ground arith)
        (perform_sync_context_actions-Kept c₁ w₂))

pub process_with_context-Kept :
    {A : Type 0} (block : Method A) (a : A)
    → Leaves block
    → (w : World) (c : SyncContext) → Kept w (process_with_context block a w c).0
unfolding process_with_context handle_sync_record
process_with_context-Kept {A = A} block a leaves w c =
    elim c.sync_record.action
      as (λ o.
        Kept w
          (elim o as (λ _. World × SyncRecord × A × Bool) [
            | none ↦ (w, c.sync_record, a, true)
            | some x ↦ (
              performed block w c,
              (perform_sync_context_actions (block w c).1 (
                  if (block w c).1.error
                  then record (block w c).0 { errors_sent = suc (block w c).0.errors_sent }
                  else (block w c).0)).1,
              (block w c).2,
              (block w c).1.error,
            )
          ]).0) [ none ↦ (refl, refl, refl, refl) | some x ↦ performed-Kept block leaves w c ]

-- The events but the one that was handled.
unfoldable pub without : Event → List Event → List Event
without e = keep (λ x. not (x.database_id == e.database_id))

module _ (e : Event) (i : ℕ) where
  no_longer : (es : List Event) → length (events_for i (without e es)) ≤ length (events_for i es)
  unfolding without
  no_longer [] = omega arith
  no_longer (x ∷ xs) =
      let rest = no_longer xs in
      elim (Bool-cases (x.record_id == i)) [
        | inl a ↦ elim (Bool-cases (x.database_id == e.database_id)) [
          | inl b ↦ rw (a, b) (omega (arith, rest))
          | inr b ↦ rw (a, b) (rw a (omega (arith, rest)))
        ]
        | inr a ↦ elim (Bool-cases (x.database_id == e.database_id)) [
          | inl b ↦ rw (a, b) rest
          | inr b ↦ rw (a, b) (rw a rest)
        ]
      ]

  shorter :
      (es : List Event)
      → first_event (events_for i es) ≡ some e
      → length (events_for i (without e es)) < length (events_for i es)
  unfolding without first_event
  shorter [] h = ground arith
  shorter (x ∷ xs) h = elim (Bool-cases (x.record_id == i)) [
    | inl a ↦
        let same : x ≡ e = some_eq (rw a at h) in
        let gone : (x.database_id == e.database_id) ≡ true = rw same (==_refl e.database_id) in
        rw (a, gone) (omega (arith, no_longer xs))
    | inr a ↦ elim (Bool-cases (x.database_id == e.database_id)) [
      | inl b ↦ rw (a, b) (shorter xs (rw a at h))
      | inr b ↦ rw (a, b) (rw a (shorter xs (rw a at h)))
    ]
  ]

none_left : (es : List Event) → first_event es ≡ none → es ≡ []
unfolding first_event
none_left [] h = refl
none_left (x ∷ xs) h = ground arith

pub deliver_event-events :
    (m : Methods) (s : EventRun) (e : Event)
    → Leaves m.handle_event
    → s.world.write_error ≡ false
    → ((deliver_event m s e).world.events ≡ without e s.world.events)
      × ((deliver_event m s e).world.read_error ≡ s.world.read_error)
      × ((deliver_event m s e).world.write_error ≡ false)
      × ((deliver_event m s e).world.events_queue
          ≡ (remove_event_record s.world.events_queue e.uuid).0)
unfolding deliver_event remove_event without
deliver_event-events m s e leaves writes =
    let w = record s.world { events_queue = (remove_event_record s.world.events_queue e.uuid).0 } in
    let c = event_handling_context_with s.sync_record e in
    let kept = process_with_context-Kept m.handle_event no_instruction leaves w c in
    let writes' : (process_with_context m.handle_event no_instruction w c).0.write_error ≡ false =
      kept.2 ∙ writes in
    (
      rw writes' (ap (keep (λ x. not (x.database_id == e.database_id))) kept.0),
      rw writes' kept.1,
      rw writes' refl,
      rw writes' kept.3,
    )

next_event-reads :
    (w : World) (i : ℕ)
    → w.read_error ≡ false
    → next_event w i ≡ first_event (events_for i w.events)
unfolding next_event
next_event-reads w i reads = ground arith

deliver_events-end :
    (fuel : ℕ) (m : Methods) (i : ℕ) (s : EventRun)
    → next_event s.world i ≡ none
    → deliver_events (suc fuel) m i s ≡ some s
unfolding deliver_events next_event
deliver_events-end fuel m i s e = ground arith

deliver_events-more :
    (fuel : ℕ) (m : Methods) (i : ℕ) (s : EventRun) (x : Event)
    → next_event s.world i ≡ some x
    → deliver_events (suc fuel) m i s ≡ deliver_events fuel m i (deliver_event m s x)
unfolding deliver_events next_event
deliver_events-more fuel m i s x e = ground arith

-- Where the database can be read and written, and the method that handles events leaves its events
-- alone, the loop ends: with one round more than there are events for the record as fuel it has a
-- result, in which no event for the record is left.
pub deliver_events_delivers :
    (fuel : ℕ) (m : Methods) (i : ℕ) (s : EventRun)
    → Leaves m.handle_event
    → s.world.read_error ≡ false
    → s.world.write_error ≡ false
    → length (events_for i s.world.events) < fuel
    → (s' : EventRun) × (deliver_events fuel m i s ≡ some s') × (events_for i s'.world.events ≡ [])
deliver_events_delivers zero m i s leaves reads writes enough = absurd (omega (arith, enough))
deliver_events_delivers (suc fuel) m i s leaves reads writes enough =
    elim (Option-cases (first_event (events_for i s.world.events))) [
      | inl e ↦ (
        s,
        deliver_events-end fuel m i s (next_event-reads s.world i reads ∙ e),
        none_left (events_for i s.world.events) e,
      )
      | inr (x, e) ↦
          let (events, reads', writes', queue) = deliver_event-events m s x leaves writes in
          let fewer : length (events_for i (deliver_event m s x).world.events)
              < length (events_for i s.world.events) =
            rw events (shorter x i s.world.events e) in
          let (s', run, done) =
            deliver_events_delivers fuel m i (deliver_event m s x) leaves (reads' ∙ reads) writes'
              (omega (arith, enough, fewer)) in
          (s', deliver_events-more fuel m i s x (next_event-reads s.world i reads ∙ e) ∙ run, done)
    ]

-- ===== src/Engine/Context/Kept.antt =====
-- What the changes of a context leave alone.
use ios_sdk_develop.Prelude.{
  ℕ, ◌≡◌, refl, ◌∙◌, inl, inr, Option, none, some, List, [], ◌∷◌, arith, Bool-cases, false,
}
use ios_sdk_develop.Record.{SyncRecord, conditions, WaitCondition}
use ios_sdk_develop.Engine.{World, update_sync_record}
use ios_sdk_develop.Engine.Context.{
  SyncContext, schedule_date, schedule_optional, schedule_dates, schedule_next_wait_condition_run,
  remove_context_records, perform_sync_context_actions,
}

-- What the database says of events, whether it can be read and written, and the queue of events, is
-- the same.
abbrev pub Kept : World → World → Type 0
Kept w w' =
    (w'.events ≡ w.events)
    × (w'.read_error ≡ w.read_error)
    × (w'.write_error ≡ w.write_error)
    × (w'.events_queue ≡ w.events_queue)

pub Kept-trans : (u v w : World) → Kept u v → Kept v w → Kept u w
Kept-trans u v w h k = (k.0 ∙ h.0, k.1 ∙ h.1, k.2 ∙ h.2, k.3 ∙ h.3)

schedule_dates-Kept : (cs : List WaitCondition) (w : World) → Kept w (schedule_dates cs w)
unfolding schedule_dates schedule_date
schedule_dates-Kept [] w = (refl, refl, refl, refl)
schedule_dates-Kept (c ∷ cs) w =
    Kept-trans w (schedule_optional c.next_retry_date w)
      (schedule_dates cs (schedule_optional c.next_retry_date w)) (one c.next_retry_date)
      (schedule_dates-Kept cs (schedule_optional c.next_retry_date w))
  where
    one : (d : Option ℕ) → Kept w (schedule_optional d w)
    one none = (refl, refl, refl, refl)
    one (some d) = (ground arith, ground arith, ground arith, ground arith)

remove_context_records-Kept :
    (ids : List ℕ) (w : World) (r : SyncRecord) → Kept w (remove_context_records ids w r).0
unfolding remove_context_records
remove_context_records-Kept ids w r = (ground arith, ground arith, ground arith, ground arith)

update_sync_record-Kept : (w : World) (r : SyncRecord) → Kept w (update_sync_record w r).0
unfolding update_sync_record
update_sync_record-Kept w r = (ground arith, ground arith, ground arith, ground arith)

pub perform_sync_context_actions-Kept :
    (c : SyncContext) (w : World) → Kept w (perform_sync_context_actions c w).0
unfolding perform_sync_context_actions schedule_next_wait_condition_run
perform_sync_context_actions-Kept c w =
    let w₁ = schedule_dates (conditions c.sync_record) w in
    let x = remove_context_records c.remove_records w₁ c.sync_record in
    let h =
      Kept-trans w w₁ x.0 (schedule_dates-Kept (conditions c.sync_record) w)
        (remove_context_records-Kept c.remove_records w₁ c.sync_record) in
    elim (Bool-cases c.update_stored_sync_record) [
      | inl e ↦
          rw e (Kept-trans w x.0 (update_sync_record x.0 x.1).0 h (update_sync_record-Kept x.0 x.1))
      | inr e ↦ rw e h
    ]

schedule_dates-journal :
    (cs : List WaitCondition) (w : World)
    → ((schedule_dates cs w).journal ≡ w.journal)
      × ((schedule_dates cs w).errors_sent ≡ w.errors_sent)
unfolding schedule_dates schedule_date
schedule_dates-journal [] w = (refl, refl)
schedule_dates-journal (c ∷ cs) w =
    let next = schedule_optional c.next_retry_date w in
    let (journal, errors) = schedule_dates-journal cs next in
    let (journal', errors') = one c.next_retry_date in (journal ∙ journal', errors ∙ errors')
  where
    one :
        (d : Option ℕ)
        → ((schedule_optional d w).journal ≡ w.journal)
          × ((schedule_optional d w).errors_sent ≡ w.errors_sent)
    one none = (refl, refl)
    one (some d) = (ground arith, ground arith)

nothing :
    (w : World) (r : SyncRecord)
    → ((remove_context_records [] w r).0.journal ≡ w.journal)
      × ((remove_context_records [] w r).0.errors_sent ≡ w.errors_sent)
      × ((remove_context_records [] w r).1 ≡ r)
unfolding remove_context_records
nothing w r = (ground arith, ground arith, ground arith)

-- A context with nothing to remove and to store leaves the journal and the record.
pub perform_sync_context_actions-idle :
    (c : SyncContext) (w : World)
    → c.remove_records ≡ []
    → c.update_stored_sync_record ≡ false
    → ((perform_sync_context_actions c w).0.journal ≡ w.journal)
      × ((perform_sync_context_actions c w).0.errors_sent ≡ w.errors_sent)
      × ((perform_sync_context_actions c w).1 ≡ c.sync_record)
unfolding perform_sync_context_actions schedule_next_wait_condition_run remove_context_records
perform_sync_context_actions-idle c w removes stores =
    let w₁ = schedule_dates (conditions c.sync_record) w in
    let (journal, errors) = schedule_dates-journal (conditions c.sync_record) w in
    let (journal', errors', same) = nothing w₁ c.sync_record in
    simp (removes, stores) (journal' ∙ journal, errors' ∙ errors, same)

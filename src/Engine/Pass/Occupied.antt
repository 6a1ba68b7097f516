-- ===== src/Engine/Pass/Occupied.antt =====
-- The records that a pass leaves at work in a category, counted from the records that it processed.
use ios_sdk_develop.Prelude.{
  not, ◌&&◌, ◌||◌, ℕ, ◌+◌, ◌-◌, ◌≡◌, refl, sym, ap, ◌∙◌, inl, inr, Bool, true, false, Option, none,
  some, List, [], ◌∷◌, arith, Bool-cases, if◌then◌else◌,
}
use ios_sdk_develop.Lane.{Lane}
use ios_sdk_develop.Record.{SyncRecord}
use ios_sdk_develop.Engine.{
  World, Instruction, no_instruction, stop, stop_and_sideline, repeat_last, delete_last,
  process_next,
}
use ios_sdk_develop.Engine.Pass.Loops.{
  run_lane_keeps, run_lanes_keeps, pass_start, process_lanes_runs,
}
use ios_sdk_develop.Engine.Pass.{
  Counts, Process, LaneRun, PassRun, categories, is_ready, start_categories, should_run, perform,
  delete_record, run_record, handle_record, round, lane_start, end_lane, process_lanes,
}
use ios_sdk_develop.Engine.Pass.Budget.{uses, start_categories_lem, end_categories_lem}

-- The action is not at work any more: it was set aside or deleted.
abbrev pub ends_work : Instruction → Bool
ends_work stop_and_sideline = true
ends_work delete_last = true
ends_work _ = false

-- How often the category is mentioned by the records that are still at work.
abbrev pub occupied : (SyncRecord → Instruction) → ℕ → List SyncRecord → ℕ
occupied answer c [] = 0
occupied answer c (r ∷ rs) =
    (if ends_work (answer r) then 0 else uses c (categories r)) + occupied answer c rs

pub perform_running :
    (i : Instruction) (cs : List ℕ) (s : LaneRun) (r : SyncRecord) (c : ℕ)
    → ((perform i cs s r).running c
        ≡ (if ends_work i then s.running c - uses c cs else s.running c))
      × ((perform i cs s r).processed ≡ s.processed)
unfolding perform delete_record
perform_running no_instruction cs s r c = (refl, refl)
perform_running stop cs s r c = (refl, refl)
perform_running stop_and_sideline cs s r c = (end_categories_lem cs s.running c, refl)
perform_running repeat_last cs s r c = (refl, refl)
perform_running delete_last cs s r c = (end_categories_lem cs s.running c, refl)
perform_running process_next cs s r c = (refl, refl)

module _ (budgets : Counts) (process : Process) (answer : SyncRecord → Instruction)
    (answers : (w : World) (r : SyncRecord) → (process w r).instruction ≡ answer r) (c : ℕ) where
  abbrev Counted : LaneRun → Type 0
  Counted s = s.running c ≡ occupied answer c s.processed

  run_record-Counted : (s : LaneRun) (r : SyncRecord) → Counted s → Counted (run_record process s r)
  unfolding run_record
  run_record-Counted s r h =
      let cs = categories r in
      let started = record s {
        world = (process s.world r).world;
        running = start_categories cs s.running;
        error = s.error || (process s.world r).error;
        processed = r ∷ s.processed;
      } in
      let k =
        perform_running (process s.world r).instruction cs started (process s.world r).sync_record
          c in
      let n = start_categories_lem cs s.running c in
      k.0
      ∙ (ap
            (λ i.
              if ends_work i
              then start_categories cs s.running c - uses c cs
              else start_categories cs s.running c)
            (answers s.world r)
          ∙ after n
          ∙ ap (occupied answer c) (sym k.1))
    where
      after :
          start_categories (categories r) s.running c ≡ s.running c + uses c (categories r)
          → (if ends_work (answer r)
              then start_categories (categories r) s.running c - uses c (categories r)
              else start_categories (categories r) s.running c)
            ≡ occupied answer c (r ∷ s.processed)
      after n = elim (Bool-cases (ends_work (answer r))) [
        | inl e ↦ rw (e, n, h) (omega arith)
        | inr e ↦ rw (e, n, h) (omega arith)
      ]

  handle_record-Counted :
      (s : LaneRun) (o : Option SyncRecord)
      → Counted s
      → Counted (handle_record budgets process s o)
  unfolding handle_record
  handle_record-Counted s none h = h
  handle_record-Counted s (some r) h =
      elim (Bool-cases (is_ready r.state && not (should_run budgets s.running (categories r)))) [
        | inl e ↦ rw e h
        | inr e ↦ rw e (run_record-Counted _ r h)
      ]

  round-Counted : (lane : ℕ) (s : LaneRun) → Counted s → Counted (round budgets process lane s)
  unfolding round
  round-Counted lane s h = handle_record-Counted s _ h

  abbrev PassCounted : PassRun → Type 0
  PassCounted p = p.running c ≡ occupied answer c p.processed

  end_lane-Counted :
      (maximum : ℕ) (l : Lane) (p : PassRun) (s : LaneRun)
      → Counted s
      → PassCounted (end_lane maximum l p s).0
  unfolding end_lane
  end_lane-Counted maximum l p s h = ground arith

  -- What the engine counts as running in a category is what is still at work in it.
  pub running-occupied :
      (fuel maximum : ℕ) (w : World) (p : PassRun) (idle : Bool)
      → process_lanes fuel maximum budgets process w ≡ some (p, idle)
      → p.running c ≡ occupied answer c p.processed
  running-occupied fuel maximum w p idle e =
      run_lanes_keeps fuel maximum budgets process PassCounted
        (λ l q s r h. end_lane-Counted maximum l q s (
          run_lane_keeps fuel budgets process l.identifier Counted (round-Counted l.identifier)
            (lane_start q) s r h))
        _ (pass_start w) p (process_lanes_runs fuel maximum budgets process w p idle e) refl

-- ===== src/Engine/Pass/Budget.antt =====
-- The concurrency budgets of a pass.
use ios_sdk_develop.Prelude.{
  ℕ, ◌+◌, ◌-◌, ◌≤◌, ◌<◌, ◌≡◌, ◌∙◌, inl, inr, Bool, true, false, not, ◌&&◌, Option, none, some, List,
  [], ◌∷◌, arith, ◌==◌, Bool-cases, if◌then◌else◌,
}
use ios_sdk_develop.Lane.{Lane}
use ios_sdk_develop.Record.{SyncRecord}
use ios_sdk_develop.Engine.{
  World, Instruction, no_instruction, stop, stop_and_sideline, repeat_last, delete_last,
  process_next,
}
use ios_sdk_develop.Engine.Pass.Loops.{
  run_lane_keeps, run_lanes_keeps, pass_start, process_lanes_runs,
}
use ios_sdk_develop.Engine.Pass.{
  Counts, Process, LaneRun, PassRun, categories, is_ready, start_categories, end_categories,
  should_run, perform, delete_record, run_record, handle_record, round, lane_start, end_lane,
  run_lanes, process_lanes,
}

-- How often the category stands in the list.
abbrev pub uses : ℕ → List ℕ → ℕ
uses c [] = 0
uses c (d ∷ ds) = (if c == d then 1 else 0) + uses c ds

pub start_categories_lem :
    (cs : List ℕ) (running : Counts) (c : ℕ) → start_categories cs running c ≡ running c + uses c cs
unfolding start_categories
start_categories_lem [] running c = omega arith
start_categories_lem (d ∷ ds) running c =
    start_categories_lem ds (λ x. if x == d then running x + 1 else running x) c ∙ ground arith

pub end_categories_lem :
    (cs : List ℕ) (running : Counts) (c : ℕ) → end_categories cs running c ≡ running c - uses c cs
unfolding end_categories
end_categories_lem [] running c = omega arith
end_categories_lem (d ∷ ds) running c =
    end_categories_lem ds (λ x. if x == d then running x - 1 else running x) c ∙ ground arith

-- Taking a record's categories back restores the counts: no count falls below zero.
pub end-start_categories :
    (cs : List ℕ) (running : Counts) (c : ℕ)
    → end_categories cs (start_categories cs running) c ≡ running c
end-start_categories cs running c = omega (
  arith,
  end_categories_lem cs (start_categories cs running) c,
  start_categories_lem cs running c,
)

should_run_lem :
    (budgets running : Counts) (cs : List ℕ) (c : ℕ)
    → should_run budgets running cs ≡ true
    → 0 < budgets c
    → 0 < uses c cs
    → running c < budgets c
unfolding should_run
should_run_lem budgets running [] c h b u = absurd (omega arith)
should_run_lem budgets running (d ∷ ds) c h b u = elim (Bool-cases (c == d)) [
  | inl e ↦ let p : c ≡ d = ground arith in rw p (first (rw p at b))
  | inr e ↦ should_run_lem budgets running ds c (ground arith) b (ground arith)
]
  where
    first : 0 < budgets d → running d < budgets d
    first q = ground arith

-- What a record that is processed may add to a category beyond the check of its budget: a ready
-- record is checked once, and any other is not checked.
abbrev pub unchecked : ℕ → SyncRecord → ℕ
unchecked c r = if is_ready r.state then uses c (categories r) - 1 else uses c (categories r)

abbrev pub all_unchecked : ℕ → List SyncRecord → ℕ
all_unchecked c [] = 0
all_unchecked c (r ∷ rs) = unchecked c r + all_unchecked c rs

module _ (budgets : Counts) (process : Process) (c : ℕ) (limited : 0 < budgets c) where
  abbrev Within : LaneRun → Type 0
  Within s = s.running c ≤ budgets c + all_unchecked c s.processed

  perform-Within :
      (i : Instruction) (cs : List ℕ) (s : LaneRun) (r : SyncRecord)
      → Within s
      → Within (perform i cs s r)
  unfolding perform delete_record
  perform-Within no_instruction cs s r h = h
  perform-Within stop cs s r h = h
  perform-Within stop_and_sideline cs s r h = omega (arith, end_categories_lem cs s.running c)
  perform-Within repeat_last cs s r h = h
  perform-Within delete_last cs s r h = omega (arith, end_categories_lem cs s.running c)
  perform-Within process_next cs s r h = h

  run_record-Within :
      (s : LaneRun) (r : SyncRecord)
      → (is_ready r.state && not (should_run budgets s.running (categories r))) ≡ false
      → Within s
      → Within (run_record process s r)
  unfolding run_record
  run_record-Within s r g h =
      perform-Within (process s.world r).instruction (categories r) _
        (process s.world r).sync_record
        (ground (
          arith,
          start_categories_lem (categories r) s.running c,
          should_run_lem budgets s.running (categories r) c,
        ))

  handle_record-Within :
      (s : LaneRun) (o : Option SyncRecord) → Within s → Within (handle_record budgets process s o)
  unfolding handle_record
  handle_record-Within s none h = h
  handle_record-Within s (some r) h =
      elim (Bool-cases (is_ready r.state && not (should_run budgets s.running (categories r)))) [
        | inl e ↦ rw e h
        | inr e ↦ rw e (run_record-Within _ r e h)
      ]

  round-Within : (lane : ℕ) (s : LaneRun) → Within s → Within (round budgets process lane s)
  unfolding round
  round-Within lane s h = handle_record-Within s _ h

  abbrev PassWithin : PassRun → Type 0
  PassWithin p = p.running c ≤ budgets c + all_unchecked c p.processed

  end_lane-Within :
      (maximum : ℕ) (l : Lane) (p : PassRun) (s : LaneRun)
      → Within s
      → PassWithin (end_lane maximum l p s).0
  unfolding end_lane
  end_lane-Within maximum l p s h = ground arith

  run_lanes-Within :
      (fuel maximum : ℕ) (ls : List Lane) (p p' : PassRun)
      → run_lanes fuel maximum budgets process ls p ≡ some p'
      → PassWithin p
      → PassWithin p'
  run_lanes-Within fuel maximum =
      run_lanes_keeps fuel maximum budgets process PassWithin λ l p s e h.
        end_lane-Within maximum l p s (
          run_lane_keeps fuel budgets process l.identifier Within (round-Within l.identifier)
            (lane_start p) s e h)

-- Over a whole pass, whatever the actions do, the number of actions that count as running in a
-- category with a budget stays within the budget and what was never checked against it: the records
-- that were processed without being ready, and a second mention of a category in one record.
pub running_within_budget :
    (fuel maximum : ℕ) (budgets : Counts) (process : Process) (w : World) (p : PassRun)
    (idle : Bool) (c : ℕ)
    → process_lanes fuel maximum budgets process w ≡ some (p, idle)
    → 0 < budgets c
    → p.running c ≤ budgets c + all_unchecked c p.processed
running_within_budget fuel maximum budgets process w p idle c e limited =
    run_lanes-Within budgets process c limited fuel maximum _ (pass_start w) p
      (process_lanes_runs fuel maximum budgets process w p idle e) (omega arith)

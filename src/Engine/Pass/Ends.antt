-- ===== src/Engine/Pass/Ends.antt =====
-- A pass over records that are gone on from ends.
use ios_sdk_develop.Prelude.{
  ℕ, zero, suc, ◌<◌, ◌≡◌, ◌⊎◌, refl, ap, ◌∙◌, inl, inr, Bool, true, false, not, ◌&&◌, Option, none,
  some, List, [], ◌∷◌, arith, ◌==◌, length, Bool-cases, if◌then◌else◌,
}
use ios_sdk_develop.Lane.{Lane}
use ios_sdk_develop.Record.{SyncRecord}
use ios_sdk_develop.Engine.{
  World, Instruction, no_instruction, stop, stop_and_sideline, repeat_last, delete_last,
  process_next, is_after, retrieve_sync_record_after,
}
use ios_sdk_develop.Engine.Pass.{
  Counts, Process, LaneRun, PassRun, is_ready, categories, should_run, perform, run_record,
  handle_record, round, run_lane, lane_start, end_lane, is_blocked, run_lanes, process_lanes,
}
use ios_sdk_develop.Engine.Pass.Loops.{
  pass_start, run_lane-done, run_lane-more, run_lanes-blocked, run_lanes-open,
}
use ios_sdk_develop.Engine.Pass.Rows.{
  HaveIds, remaining, remaining-length, first_row_lem, has_id_lem, fewer, retrieved, keys,
  remaining_same, length_same, same-HaveIds,
}

-- The instruction does not go back to a record: it is neither repeated nor deleted.
abbrev pub moves_on : Instruction → Bool
moves_on no_instruction = true
moves_on stop = true
moves_on stop_and_sideline = true
moves_on repeat_last = false
moves_on delete_last = false
moves_on process_next = true

-- What the engine does with a record: its instruction is the given one, and it may change the record
-- and the rows of the journal, but not their IDs and lanes, nor which rows there are.
abbrev pub Answers : Process → (SyncRecord → Instruction) → Type 0
Answers process answer =
    (w : World) (r : SyncRecord)
    → ((process w r).instruction ≡ answer r)
      × (keys (process w r).world.journal ≡ keys w.journal)
      × ((process w r).sync_record.record_id ≡ r.record_id)

abbrev pub MovesOn : (SyncRecord → Instruction) → Type 0
MovesOn answer = (r : SyncRecord) → moves_on (answer r) ≡ true

end_lane_lem :
    (maximum : ℕ) (l : Lane) (p : PassRun) (s : LaneRun)
    → (end_lane maximum l p s).0.world.journal ≡ s.world.journal
unfolding end_lane
end_lane_lem maximum l p s = ground arith

runs_process_lanes :
    (fuel maximum : ℕ) (budgets : Counts) (process : Process) (w : World) (p : PassRun)
    → run_lanes fuel maximum budgets process
        (if w.read_error then [] else w.table.lanes)
        (pass_start w)
      ≡ some p
    → process_lanes fuel maximum budgets process w ≡ some (p, length p.active_lane_ids == 0)
unfolding process_lanes
runs_process_lanes fuel maximum budgets process w p e = ground arith

module _ (budgets : Counts) (process : Process) (answer : SyncRecord → Instruction)
    (answers : Answers process answer) (moves : MovesOn answer) where
  -- The rows are the same, and there are fewer rows ahead unless the loop stops.
  abbrev Advances : ℕ → LaneRun → LaneRun → Type 0
  Advances lane s s' =
      (keys s'.world.journal ≡ keys s.world.journal)
      × ((s'.stop_processing ≡ true)
          ⊎ (remaining s'.last_id lane s'.world.journal < remaining s.last_id lane s.world.journal))

  perform_lem :
      (i : Instruction) (cs : List ℕ) (s : LaneRun) (r : SyncRecord)
      → moves_on i ≡ true
      → ((perform i cs s r).world.journal ≡ s.world.journal)
        × (((perform i cs s r).stop_processing ≡ true) ⊎ ((perform i cs s r).last_id ≡ r.record_id))
  unfolding perform
  perform_lem no_instruction cs s r m = (refl, inl refl)
  perform_lem stop cs s r m = (refl, inl refl)
  perform_lem stop_and_sideline cs s r m = (refl, inl refl)
  perform_lem repeat_last cs s r m = absurd (false_true m)
    where
      false_true : false ≡ true → ⊥
      false_true q = cc
  perform_lem delete_last cs s r m = absurd (false_true m)
    where
      false_true : false ≡ true → ⊥
      false_true q = cc
  perform_lem process_next cs s r m = (refl, inr refl)

  run_record_lem :
      (s : LaneRun) (r : SyncRecord)
      → (keys (run_record process s r).world.journal ≡ keys s.world.journal)
        × (((run_record process s r).stop_processing ≡ true)
            ⊎ ((run_record process s r).last_id ≡ r.record_id))
  unfolding run_record
  run_record_lem s r =
      let a = answers s.world r in
      let k =
        perform_lem (process s.world r).instruction (categories r) _ (process s.world r).sync_record
          (ap moves_on a.0 ∙ moves r) in
      (ap keys k.0 ∙ a.1, elim k.1 [ inl e ↦ inl e | inr e ↦ inr (e ∙ a.2) ])

  handle_record_lem :
      (s : LaneRun) (r : SyncRecord)
      → (keys (handle_record budgets process s (some r)).world.journal ≡ keys s.world.journal)
        × (((handle_record budgets process s (some r)).stop_processing ≡ true)
            ⊎ ((handle_record budgets process s (some r)).last_id ≡ r.record_id))
  unfolding handle_record
  handle_record_lem s r =
      elim (Bool-cases (is_ready r.state && not (should_run budgets s.running (categories r)))) [
        | inl e ↦ rw e (refl, inl refl)
        | inr e ↦ rw e (run_record_lem _ r)
      ]

  handled :
      (lane : ℕ) (s : LaneRun) (o : Option SyncRecord)
      → HaveIds s.world.journal
      → (retrieve_sync_record_after s.world s.last_id lane).0 ≡ o
      → Advances lane s (handle_record budgets process s o)
  handled lane s none v e = unfold handle_record in (refl, inl refl)
  handled lane s (some r) v e =
      let f = retrieved s.world s.last_id lane r e in
      let k = handle_record_lem s r in
      let at_row = first_row_lem (is_after s.last_id lane) s.world.journal r v f in
      let i = has_id_lem r.record_id at_row.1 in
      (
        k.0,
        elim k.1 [
          | inl h ↦ inl h
          | inr h ↦
              let n = handle_record budgets process s (some r) in
              inr (
                rw (remaining_same s.world.journal n.world.journal k.0 n.last_id lane, h, i.1)
                  (fewer s.last_id lane i.0 r i.1 at_row.0 s.world.journal f))
        ],
      )

  round_lem :
      (lane : ℕ) (s : LaneRun)
      → HaveIds s.world.journal
      → Advances lane s (round budgets process lane s)
  unfolding round
  round_lem lane s v = handled lane s (retrieve_sync_record_after s.world s.last_id lane).0 v refl

  run_lane_ends :
      (lane fuel : ℕ) (s : LaneRun)
      → HaveIds s.world.journal
      → remaining s.last_id lane s.world.journal < fuel
      → (s' : LaneRun) × (run_lane fuel budgets process lane s ≡ some s')
        × (keys s'.world.journal ≡ keys s.world.journal)
  run_lane_ends lane zero s v h = absurd (omega arith)
  run_lane_ends lane (suc fuel) s v h = elim (Bool-cases s.stop_processing) [
    | inl done ↦ (s, run_lane-done budgets process lane (suc fuel) s done, refl)
    | inr more ↦
        let k = round_lem lane s v in
        let n = round budgets process lane s in
        elim k.1 [
          | inl done ↦ (
            n,
            run_lane-more budgets process lane fuel s more
                ∙ run_lane-done budgets process lane fuel n done,
            k.0,
          )
          | inr less ↦
              let rest =
                run_lane_ends lane fuel n (same-HaveIds s.world.journal n.world.journal k.0 v)
                  (omega arith) in
              (rest.0, run_lane-more budgets process lane fuel s more ∙ rest.1, rest.2 ∙ k.0)
        ]
  ]

  run_lanes_ends :
      (fuel maximum : ℕ) (ls : List Lane) (p : PassRun)
      → HaveIds p.world.journal
      → length p.world.journal < fuel
      → (p' : PassRun) × (run_lanes fuel maximum budgets process ls p ≡ some p')
  run_lanes_ends fuel maximum [] p v h = (p, unfold run_lanes in refl)
  run_lanes_ends fuel maximum (l ∷ ls) p v h = elim (Bool-cases (is_blocked p l)) [
    | inl b ↦
        let rest = run_lanes_ends fuel maximum ls p v h in
        (rest.0, run_lanes-blocked fuel maximum budgets process l ls p b ∙ rest.1)
    | inr b ↦
        let k =
          run_lane_ends l.identifier fuel (lane_start p) v
            (omega (arith, remaining-length none l.identifier p.world.journal)) in
        let p' = (end_lane maximum l p k.0).0 in
        let same : keys p'.world.journal ≡ keys p.world.journal =
          ap keys (end_lane_lem maximum l p k.0) ∙ k.2 in
        let rest =
          run_lanes_ends fuel maximum ls p' (same-HaveIds p.world.journal p'.world.journal same v)
            (omega (arith, length_same p.world.journal p'.world.journal same)) in
        let open_ = run_lanes-open fuel maximum budgets process l ls p k.0 b k.1 in
        elim (Bool-cases (end_lane maximum l p k.0).1) [
          | inl limit ↦ (p', open_ ∙ rw limit refl)
          | inr on ↦ (rest.0, open_ ∙ rw on rest.1)
        ]
  ]

  -- A pass ends: the fuel is enough if it is more than there are rows in the journal.
  pub process_lanes_ends :
      (fuel maximum : ℕ) (w : World)
      → HaveIds w.journal
      → length w.journal < fuel
      → (p : PassRun) × (idle : Bool) × (process_lanes fuel maximum budgets process w
          ≡ some (p, idle))
  process_lanes_ends fuel maximum w v h =
      let lanes = if w.read_error then [] else w.table.lanes in
      let k = run_lanes_ends fuel maximum lanes (pass_start w) v h in
      (
        k.0,
        length k.0.active_lane_ids == 0,
        runs_process_lanes fuel maximum budgets process w k.0 k.1,
      )

-- ===== src/Engine/Pass/Limit.antt =====
-- The limit of active lanes.
use ios_sdk_develop.Prelude.{
  ℕ, ◌+◌, ◌≤◌, ◌<◌, ◌≡◌, sym, ◌∙◌, inl, inr, Bool, false, none, some, List, [], ◌∷◌, arith,
  Bool-cases, Option-cases,
}
use ios_sdk_develop.Lane.{Lane}
use ios_sdk_develop.Engine.{World}
use ios_sdk_develop.Engine.Pass.{
  Counts, Process, LaneRun, PassRun, lane_start, run_lane, end_lane, is_blocked, run_lanes,
  process_lanes,
}
use ios_sdk_develop.Engine.Pass.Loops.{
  pass_start, process_lanes_runs, run_lanes-blocked, run_lanes-open, run_lanes-stuck, some_eq,
}

-- A lane that does not meet the limit leaves at most `maximum` active lanes; one that meets it is
-- the first beyond.
end_lane_active :
    (maximum : ℕ) (l : Lane) (p : PassRun) (s : LaneRun)
    → 0 < maximum
    → p.active_lanes ≤ maximum
    → ((end_lane maximum l p s).1 ≡ false → (end_lane maximum l p s).0.active_lanes ≤ maximum)
      × ((end_lane maximum l p s).0.active_lanes ≤ maximum + 1)
unfolding end_lane
end_lane_active maximum l p s m h = ground arith

run_lanes_active :
    (fuel maximum : ℕ) (budgets : Counts) (process : Process) (ls : List Lane) (p p' : PassRun)
    → 0 < maximum
    → p.active_lanes ≤ maximum
    → run_lanes fuel maximum budgets process ls p ≡ some p'
    → p'.active_lanes ≤ maximum + 1
run_lanes_active fuel maximum budgets process [] p p' m h e =
    let same : p ≡ p' = unfold run_lanes in some_eq e in rw (← same) (omega arith)
run_lanes_active fuel maximum budgets process (l ∷ ls) p p' m h e =
    elim (Bool-cases (is_blocked p l)) [
      | inl b ↦
          run_lanes_active fuel maximum budgets process ls p p' m h
            (sym (run_lanes-blocked fuel maximum budgets process l ls p b) ∙ e)
      | inr b ↦ elim (Option-cases (run_lane fuel budgets process l.identifier (lane_start p))) [
        | inl stuck ↦
            absurd
              (none_some (sym (run_lanes-stuck fuel maximum budgets process l ls p b stuck) ∙ e))
        | inr (s, run) ↦
            let e' = sym (run_lanes-open fuel maximum budgets process l ls p s b run) ∙ e in
            let (below, at_most) = end_lane_active maximum l p s m h in
            elim (Bool-cases (end_lane maximum l p s).1) [
              | inl limit ↦
                  let same : (end_lane maximum l p s).0 ≡ p' = some_eq (rw limit at e') in
                  rw (← same) at_most
              | inr on ↦
                  run_lanes_active fuel maximum budgets process ls (end_lane maximum l p s).0 p' m
                    (below on) (rw on at e')
            ]
      ]
    ]
  where
    none_some : none ≡ some p' → ⊥
    none_some q = cc

-- With a limit of sync lanes, a pass leaves at most one lane more than the limit active.
pub active_lanes_limit :
    (fuel maximum : ℕ) (budgets : Counts) (process : Process) (w : World) (p : PassRun)
    (idle : Bool)
    → 0 < maximum
    → process_lanes fuel maximum budgets process w ≡ some (p, idle)
    → p.active_lanes ≤ maximum + 1
active_lanes_limit fuel maximum budgets process w p idle m e =
    run_lanes_active fuel maximum budgets process _ (pass_start w) p m (omega arith)
      (process_lanes_runs fuel maximum budgets process w p idle e)

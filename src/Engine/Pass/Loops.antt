-- ===== src/Engine/Pass/Loops.antt =====
-- What each round keeps, the loops of a pass keep.
use ios_sdk_develop.Prelude.{
  ℕ, zero, suc, ◌≡◌, sym, ◌∙◌, inl, inr, Bool, true, false, none, some, List, [], ◌∷◌, arith,
  Bool-cases, Option-cases, if◌then◌else◌,
}
use mathlib.Core.Path.{subst}
use ios_sdk_develop.Lane.{Lane}
use ios_sdk_develop.Engine.{World}
use ios_sdk_develop.Engine.Pass.{
  Counts, Process, LaneRun, PassRun, round, run_lane, lane_start, end_lane, is_blocked, run_lanes,
  process_lanes, lane_ids,
}

module _ (budgets : Counts) (process : Process) (lane : ℕ) where
  run_lane-zero :
      (s s' : LaneRun)
      → run_lane zero budgets process lane s ≡ some s'
      → (s.stop_processing ≡ true) × (s ≡ s')
  unfolding run_lane
  run_lane-zero s s' e = ground arith

  pub run_lane-done :
      (fuel : ℕ) (s : LaneRun)
      → s.stop_processing ≡ true
      → run_lane fuel budgets process lane s ≡ some s
  unfolding run_lane
  run_lane-done zero s h = rw h
  run_lane-done (suc fuel) s h = rw h

  pub run_lane-more :
      (fuel : ℕ) (s : LaneRun)
      → s.stop_processing ≡ false
      → run_lane (suc fuel) budgets process lane s
        ≡ run_lane fuel budgets process lane (round budgets process lane s)
  unfolding run_lane
  run_lane-more fuel s h = ground arith

pub some_eq {ℓ} : {A : Type ℓ} {a b : A} → some a ≡ some b → a ≡ b
some_eq e = cc

-- The loop over the records of a lane.
pub run_lane_keeps {ℓ} :
    (fuel : ℕ) (budgets : Counts) (process : Process) (lane : ℕ) (P : LaneRun → Type ℓ)
    → ((s : LaneRun) → P s → P (round budgets process lane s))
    → (s s' : LaneRun) → run_lane fuel budgets process lane s ≡ some s'
    → P s
    → P s'
run_lane_keeps zero budgets process lane P step s s' e h =
    subst P (run_lane-zero budgets process lane s s' e).1 h
run_lane_keeps (suc fuel) budgets process lane P step s s' e h =
    elim (Bool-cases s.stop_processing) [
      | inl done ↦
          subst P (some_eq (sym (run_lane-done budgets process lane (suc fuel) s done) ∙ e)) h
      | inr more ↦
          run_lane_keeps fuel budgets process lane P step (round budgets process lane s) s'
            (sym (run_lane-more budgets process lane fuel s more) ∙ e) (step s h)
    ]

pub run_lanes-blocked :
    (fuel maximum : ℕ) (budgets : Counts) (process : Process) (l : Lane) (ls : List Lane)
    (p : PassRun)
    → is_blocked p l ≡ true
    → run_lanes fuel maximum budgets process (l ∷ ls) p
      ≡ run_lanes fuel maximum budgets process ls p
unfolding run_lanes
run_lanes-blocked fuel maximum budgets process l ls p b = rw b

pub run_lanes-stuck :
    (fuel maximum : ℕ) (budgets : Counts) (process : Process) (l : Lane) (ls : List Lane)
    (p : PassRun)
    → is_blocked p l ≡ false
    → run_lane fuel budgets process l.identifier (lane_start p) ≡ none
    → run_lanes fuel maximum budgets process (l ∷ ls) p ≡ none
unfolding run_lanes
run_lanes-stuck fuel maximum budgets process l ls p b e = rw (b, e)

pub run_lanes-open :
    (fuel maximum : ℕ) (budgets : Counts) (process : Process) (l : Lane) (ls : List Lane)
    (p : PassRun) (s : LaneRun)
    → is_blocked p l ≡ false
    → run_lane fuel budgets process l.identifier (lane_start p) ≡ some s
    → run_lanes fuel maximum budgets process (l ∷ ls) p ≡ (
        if (end_lane maximum l p s).1
        then some (end_lane maximum l p s).0
        else run_lanes fuel maximum budgets process ls (end_lane maximum l p s).0)
unfolding run_lanes
run_lanes-open fuel maximum budgets process l ls p s b e = rw (b, e)

-- The loop over the lanes: what holds at the start of a lane's run holds after the lane.
pub run_lanes_keeps {ℓ} :
    (fuel maximum : ℕ) (budgets : Counts) (process : Process) (P : PassRun → Type ℓ)
    → ((l : Lane) (p : PassRun) (s : LaneRun)
        → run_lane fuel budgets process l.identifier (lane_start p) ≡ some s
        → P p
        → P (end_lane maximum l p s).0)
    → (ls : List Lane) (p p' : PassRun) → run_lanes fuel maximum budgets process ls p ≡ some p'
    → P p
    → P p'
run_lanes_keeps fuel maximum budgets process P step [] p p' e h =
    let same : p ≡ p' = unfold run_lanes in some_eq e in subst P same h
run_lanes_keeps fuel maximum budgets process P step (l ∷ ls) p p' e h =
    elim (Bool-cases (is_blocked p l)) [
      | inl b ↦
          run_lanes_keeps fuel maximum budgets process P step ls p p'
            (sym (run_lanes-blocked fuel maximum budgets process l ls p b) ∙ e) h
      | inr b ↦ elim (Option-cases (run_lane fuel budgets process l.identifier (lane_start p))) [
        | inl stuck ↦
            absurd
              (none_some (sym (run_lanes-stuck fuel maximum budgets process l ls p b stuck) ∙ e))
        | inr (s, run) ↦
            let e' = sym (run_lanes-open fuel maximum budgets process l ls p s b run) ∙ e in
            elim (Bool-cases (end_lane maximum l p s).1) [
              | inl limit ↦ subst P (some_eq (rw limit at e')) (step l p s run h)
              | inr on ↦
                  run_lanes_keeps fuel maximum budgets process P step ls (end_lane maximum l p s).0
                    p' (rw on at e') (step l p s run h)
            ]
      ]
    ]
  where
    none_some : none ≡ some p' → ⊥
    none_some q = cc

abbrev pub pass_start : World → PassRun
pass_start w = record {
  world = w;
  running = λ c. 0;
  active_lane_ids = lane_ids (if w.read_error then [] else w.table.lanes);
  active_lanes = 0;
  processed = [];
}

-- A pass is a run over the lanes from the start.
pub process_lanes_runs :
    (fuel maximum : ℕ) (budgets : Counts) (process : Process) (w : World) (p : PassRun)
    (idle : Bool)
    → process_lanes fuel maximum budgets process w ≡ some (p, idle)
    → run_lanes fuel maximum budgets process
        (if w.read_error then [] else w.table.lanes)
        (pass_start w)
      ≡ some p
unfolding process_lanes
process_lanes_runs fuel maximum budgets process w p idle e =
    elim (Option-cases (
      run_lanes fuel maximum budgets process (if w.read_error then [] else w.table.lanes)
        (pass_start w))) [ inl n ↦ ground arith | inr (q, r) ↦ ground arith ]

-- ===== src/Engine/Pass/Used.antt =====
-- The lanes on which a pass processes records, counted from the records that it processed.
use ios_sdk_develop.Prelude.{
  ℕ, ◌+◌, ◌≤◌, ◌<◌, ◌≡◌, ◌⊎◌, Bool, true, false, Option, none, some, List, [], ◌∷◌, any, opt_is,
  if◌then◌else◌,
}
use ios_sdk_develop.Lane.{Lane}
use ios_sdk_develop.Record.{SyncRecord}
use ios_sdk_develop.Engine.{Instruction}
use ios_sdk_develop.Engine.Pass.{Counts, Process}
use ios_sdk_develop.Engine.Pass.Ends.{Answers, MovesOn}

abbrev on_lane : Option ℕ → List SyncRecord → Bool
on_lane none rs = false
on_lane (some i) rs = any (λ r. opt_is r.lane_id i) rs

-- The number of lanes that the records are on.
abbrev pub lanes_used : List SyncRecord → ℕ
lanes_used [] = 0
lanes_used (r ∷ rs) = (if on_lane r.lane_id rs then 0 else 1) + lanes_used rs

module _ (budgets : Counts) (process : Process) (answer : SyncRecord → Instruction)
    (answers : Answers process answer) (moves : MovesOn answer) where
  -- Of the lanes that records were processed on, only the present one is not counted yet.
  abbrev Used : ℕ → ℕ → ℕ → List SyncRecord → Type 0
  Used active lane records processed =
      (lanes_used processed ≤ active)
      ⊎ ((0 < records)
          × (lanes_used processed ≤ active + 1)
          × (on_lane (some lane) processed ≡ true))

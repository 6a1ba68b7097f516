-- ===== src/Engine/Pass/Spared.antt =====
-- No record of a lane is processed while an older lane is active that it has a conflict with.
use mathlib.Core.List.{Memᴰ}
use mathlib.Core.Path.{subst}
use ios_sdk_develop.Prelude.{
  ℕ, ◌≡◌, ◌⊎◌, sym, inl, inr, Bool, true, false, none, some, List, [], ◌∷◌, ◌==◌, All, contains,
  opt_is, Bool-cases,
}
use ios_sdk_develop.Lane.{Lane}
use ios_sdk_develop.Lane.Order.{conflict, Before}
use ios_sdk_develop.Record.{SyncRecord}
use ios_sdk_develop.Engine.{first_row}
use ios_sdk_develop.Engine.Pass.{Counts, Process, PassRun}
use ios_sdk_develop.Engine.Pass.Loops.{some_eq}
use ios_sdk_develop.Engine.Pass.Exclusion.{implied, All-Memᴰ}

pub first_row_holds :
    (q : SyncRecord → Bool) (rows : List SyncRecord) (r : SyncRecord)
    → first_row q rows ≡ some r
    → q r ≡ true
unfolding first_row
first_row_holds q [] r e = absurd (none_some e)
  where
    none_some : none ≡ some r → ⊥
    none_some k = cc
first_row_holds q (x ∷ xs) r e = elim (Bool-cases (q x)) [
  | inl k ↦ let same : x ≡ r = some_eq (rw k at e) in subst (λ y. q y ≡ true) same k
  | inr k ↦ first_row_holds q xs r (rw k at e)
]

-- The records are not on the lane.
abbrev pub NoneOn : ℕ → List SyncRecord → Type 0
NoneOn i = All (λ r. opt_is r.lane_id i ≡ false)

module _ (fuel maximum : ℕ) (budgets : Counts) (process : Process) (l m : Lane) where
  abbrev is_active : List ℕ → Bool
  is_active ids = contains l.identifier ids

  -- The older lane is not active any more, or nothing on the other lane was processed.
  abbrev Spares : PassRun → Type 0
  Spares p = (is_active p.active_lane_ids ≡ false) ⊎ NoneOn m.identifier p.processed

  -- Another lane, or one that waits for the older lane.
  abbrev Waits : Lane → Type 0
  Waits x = ((x.identifier == m.identifier) ≡ false) ⊎ (contains l.identifier x.after_lanes ≡ true)

  waiting :
      (x : Lane) (ls : List Lane)
      → All (Before x) ls
      → l ≡ x
      → conflict l m ≡ true
      → Memᴰ m ls
      → contains l.identifier m.after_lanes ≡ true
  waiting x ls h same c k =
      implied (conflict l m) (contains l.identifier m.after_lanes)
        (subst (λ y. Before y m) (sym same) (All-Memᴰ (Before x) h k)).1 c

-- ===== src/Engine/Context/Retry.antt =====
-- The next run of the engine that wait conditions with a retry date ask for.
use ios_sdk_develop.Prelude.{
  ℕ, ◌≤◌, ◌≡◌, Bool, true, false, ◌&&◌, Option, none, some, ltb, if◌then◌else◌,
}
use ios_sdk_develop.Engine.Context.{is_better}

-- A run is planned, from now on and no later than the date.
abbrev pub Planned : ℕ → Option ℕ → ℕ → Type 0
Planned now next date = (n : ℕ) × (next ≡ some n) × (now ≤ n) × (n ≤ date)

abbrev pub PlannedIf : Bool → ℕ → Option ℕ → ℕ → Type 0
PlannedIf true now next date = Planned now next date
PlannedIf false now next date = Unit

-- If the retry date of the condition is still to come, a run is planned by then.
abbrev pub Covered : ℕ → Option ℕ → Option ℕ → Type 0
Covered now next none = Unit
Covered now next (some date) = PlannedIf (ltb now date) now next date

module _ (now : ℕ) where
  next_after : ℕ → Option ℕ → Option ℕ
  next_after date next = if ltb now date && is_better now date next then some date else next

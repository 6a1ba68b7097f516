-- ===== src/EventQueue.antt =====
-- ownCloudSDK/Events/Internal/OCEventQueue.m: events that wait for the sync engine, with the UUIDs of
-- the latest ones that it took. UUIDs and sync record identifiers are numbers; `address` is the
-- identity of a record object, by which `removeObjectIdenticalTo:` compares; the last two fields are
-- those of the event that the sync engine reads.
pub mod Trim
pub mod Duplicates
pub mod Window
use ios_sdk_develop.Prelude.{
  ℕ, zero, suc, Bool, true, false, ◌||◌, Option, none, some, List, [], ◌∷◌, ◌++◌, ◌==◌, ltb, length,
  contains, if◌then◌else◌,
}

pub record EventRecord : Type 0 where
  pub address : ℕ
  pub event_uuid : ℕ
  pub sync_record_id : ℕ
  pub is_wakeup : Bool
  pub wait_condition_uuid : Option ℕ

pub record EventQueue : Type 0 where
  pub records : List EventRecord
  pub used_uuids : List ℕ

unfoldable pub init : EventQueue
init = record { records = []; used_uuids = [] }

-- The search that both methods make.
unfoldable pub find_uuid : ℕ → List EventRecord → Option EventRecord
find_uuid u [] = none
find_uuid u (r ∷ rs) = if r.event_uuid == u then some r else find_uuid u rs

abbrev pub is_some {ℓ} : {A : Type ℓ} → Option A → Bool
is_some none = false
is_some (some a) = true

unfoldable pub add_event_record : EventQueue → EventRecord → EventQueue × Bool
unfolding find_uuid
add_event_record q r =
    if contains r.event_uuid q.used_uuids
    then (q, false)
    else (if is_some (find_uuid r.event_uuid q.records)
        then (q, false)
        else (record q { records = q.records ++ (r ∷ []) }, true))

unfoldable pub remove_identical : ℕ → List EventRecord → List EventRecord
remove_identical a [] = []
remove_identical a (r ∷ rs) =
    let rest = remove_identical a rs in if r.address == a then rest else r ∷ rest

unfoldable pub remove_last : List ℕ → List ℕ
remove_last [] = []
remove_last (x ∷ []) = []
remove_last (x ∷ (y ∷ ys)) = x ∷ remove_last (y ∷ ys)

-- `while (_usedUUIDs.count > 100)`; the fuel is the number of entries.
unfoldable pub trim_loop : ℕ → List ℕ → List ℕ
unfolding remove_last
trim_loop zero xs = xs
trim_loop (suc fuel) xs =
    let shorter = trim_loop fuel (remove_last xs) in if ltb 100 (length xs) then shorter else xs

unfoldable pub trim : List ℕ → List ℕ
unfolding trim_loop
trim xs = trim_loop (length xs) xs

unfoldable pub remove_event_record : EventQueue → ℕ → EventQueue × Bool
unfolding find_uuid remove_identical
remove_event_record q u = elim (find_uuid u q.records) [
  | none ↦ (q, false)
  | some r ↦ (
    record { records = remove_identical r.address q.records; used_uuids = trim (u ∷ q.used_uuids) },
    true,
  )
]

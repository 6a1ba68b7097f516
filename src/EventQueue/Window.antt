-- ===== src/EventQueue/Window.antt =====
-- For how long an event that was taken is refused.
use mathlib.Core.Path.{subst}
use ios_sdk_develop.Prelude.{
  ℕ, zero, suc, ◌+◌, ◌≤◌, ◌≡◌, sym, inl, inr, true, false, some, List, [], ◌∷◌, arith, take,
  contains, Option-cases, ==_refl,
}
use ios_sdk_develop.EventQueue.{
  EventRecord, EventQueue, find_uuid, add_event_record, remove_event_record,
}
use ios_sdk_develop.EventQueue.Trim.{take-trim, contains-take}

pub data Op : Type 0 where
  add : EventRecord → Op
  remove : ℕ → Op

unfoldable pub step : EventQueue → Op → EventQueue
step q (add r) = (add_event_record q r).0
step q (remove u) = (remove_event_record q u).0

unfoldable pub run : EventQueue → List Op → EventQueue
unfolding step
run q [] = q
run q (o ∷ os) = run (step q o) os

abbrev pub removals : List Op → ℕ
removals [] = 0
removals (add r ∷ os) = removals os
removals (remove u ∷ os) = suc (removals os)

-- The UUID is among the `n` latest that were used.
abbrev Recent : ℕ → ℕ → EventQueue → Type 0
Recent n u q = contains u (take n q.used_uuids) ≡ true

contains-take-suc :
    (u n : ℕ) (xs : List ℕ) → contains u (take n xs) ≡ true → contains u (take (suc n) xs) ≡ true
contains-take-suc u zero xs h = cc
contains-take-suc u (suc n) [] h = h
contains-take-suc u (suc n) (x ∷ xs) h = ground (arith, contains-take-suc u n xs)

add-Recent :
    (n u : ℕ) (q : EventQueue) (r : EventRecord) → Recent n u q → Recent n u (step q (add r))
unfolding step add_event_record
add-Recent n u q r h = ground arith

remove-Recent :
    (n u v : ℕ) (q : EventQueue) → suc n ≤ 100 → Recent n u q → Recent (suc n) u (step q (remove v))
unfolding step remove_event_record
remove-Recent n u v q b h = elim (Option-cases (find_uuid v q.records)) [
  | inl e ↦ rw (e, step, remove_event_record) (contains-take-suc u n q.used_uuids h)
  | inr (r, e) ↦
      rw (e, step, remove_event_record)
        (subst (λ l. contains u l ≡ true) (sym (take-trim (suc n) (v ∷ q.used_uuids) b))
          (ground arith))
]

run-Recent :
    (n u : ℕ) (q : EventQueue) (os : List Op)
    → removals os + n ≤ 100
    → Recent n u q
    → contains u (run q os).used_uuids ≡ true
unfolding run
run-Recent n u q [] b h = contains-take u n q.used_uuids h
run-Recent n u q (add r ∷ os) b h = run-Recent n u (step q (add r)) os b (add-Recent n u q r h)
run-Recent n u q (remove v ∷ os) b h =
    run-Recent (suc n) u (step q (remove v)) os (omega arith)
      (remove-Recent n u v q (omega arith) h)

taken-Recent :
    (u : ℕ) (q : EventQueue) (r : EventRecord)
    → find_uuid u q.records ≡ some r
    → Recent 1 u (step q (remove u))
unfolding step remove_event_record
taken-Recent u q r e =
    rw (e, step, remove_event_record)
      (subst (λ l. contains u l ≡ true) (sym (take-trim 1 (u ∷ q.used_uuids) (omega arith)))
        (ground (arith, ==_refl u)))

-- Once an event was taken from the queue, its UUID is refused through any sequence of further calls
-- with at most 99 removals among them, and refusing it leaves the queue as it is.
pub add_event_record-taken :
    (q : EventQueue) (r again : EventRecord) (os : List Op)
    → find_uuid again.event_uuid q.records ≡ some r
    → removals os ≤ 99
    → let q' = run q (remove again.event_uuid ∷ os) in add_event_record q' again ≡ (q', false)
unfolding run add_event_record
add_event_record-taken q r again os e b = rw (
    run-Recent 1 again.event_uuid (step q (remove again.event_uuid)) os (omega arith)
      (taken-Recent again.event_uuid q r e))

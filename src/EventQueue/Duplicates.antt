-- ===== src/EventQueue/Duplicates.antt =====
-- No event is queued twice, and an event that was taken is refused for as long as its UUID is kept.
use mathlib.Core.Path.{subst}
use ios_sdk_develop.Prelude.{
  ℕ, ◌≤◌, ◌≡◌, refl, inl, inr, false, none, some, List, [], ◌∷◌, ◌++◌, arith, ◌==◌, All, length,
  contains, Bool-cases, Option-cases, if◌then◌else◌, All-snoc,
}
use ios_sdk_develop.EventQueue.{
  EventRecord, EventQueue, find_uuid, add_event_record, remove_identical, remove_event_record, trim,
  is_some,
}
use ios_sdk_develop.EventQueue.Trim.{trim-take, length-take_le}

abbrev NoUuid : ℕ → List EventRecord → Type 0
NoUuid u = All (λ r. (r.event_uuid == u) ≡ false)

abbrev pub NoAddress : ℕ → List EventRecord → Type 0
NoAddress a = All (λ r. (r.address == a) ≡ false)

-- The queued records are different objects for different events.
abbrev Unique : List EventRecord → Type 0
Unique [] = Unit {0}
Unique (r ∷ rs) = NoUuid r.event_uuid rs × NoAddress r.address rs × Unique rs

pub record Inv (q : EventQueue) : Type 0 where
  pub unique : Unique q.records
  pub bounded : length q.used_uuids ≤ 100

find_uuid-NoUuid : (u : ℕ) (rs : List EventRecord) → find_uuid u rs ≡ none → NoUuid u rs
unfolding find_uuid
find_uuid-NoUuid u [] h = tt
find_uuid-NoUuid u (r ∷ rs) h = ground (arith, find_uuid-NoUuid u rs)

NoUuid-find_uuid : (u : ℕ) (rs : List EventRecord) → NoUuid u rs → find_uuid u rs ≡ none
unfolding find_uuid
NoUuid-find_uuid u [] h = refl
NoUuid-find_uuid u (r ∷ rs) h = ground (arith, NoUuid-find_uuid u rs h.1)

All-find_uuid {ℓ} :
    (P : EventRecord → Type ℓ) (u : ℕ) (rs : List EventRecord) {r : EventRecord}
    → find_uuid u rs ≡ some r
    → All P rs
    → P r
unfolding find_uuid
All-find_uuid P u [] h a = cc
All-find_uuid P u (x ∷ xs) {r} h a = elim (Bool-cases (x.event_uuid == u)) [
  | inl e ↦ let same : x ≡ r = ground arith in subst P same a.0
  | inr e ↦ All-find_uuid P u xs (rw e at h) a.1
]

remove_identical-NoAddress :
    (a : ℕ) (rs : List EventRecord) → NoAddress a rs → remove_identical a rs ≡ rs
unfolding remove_identical
remove_identical-NoAddress a [] h = refl
remove_identical-NoAddress a (r ∷ rs) h = ground (arith, remove_identical-NoAddress a rs h.1)

-- Removing the record of one event leaves the records of the others.
find_uuid-remove_identical :
    (u v : ℕ) (rs : List EventRecord) (r : EventRecord)
    → Unique rs
    → find_uuid u rs ≡ some r
    → find_uuid v (remove_identical r.address rs) ≡ (if v == u then none else find_uuid v rs)
unfolding find_uuid remove_identical
find_uuid-remove_identical u v [] r h f = cc
find_uuid-remove_identical u v (x ∷ xs) r h f = ground (
  arith,
  remove_identical-NoAddress x.address xs h.1,
  NoUuid-find_uuid x.event_uuid xs h.0,
  find_uuid-remove_identical u v xs r h.2,
  λ (g : find_uuid u xs ≡ some r). All-find_uuid (λ y. (y.address == x.address) ≡ false) u xs g h.1,
)

All-remove_identical {ℓ} :
    (P : EventRecord → Type ℓ) (a : ℕ) (rs : List EventRecord)
    → All P rs
    → All P (remove_identical a rs)
unfolding remove_identical
All-remove_identical P a [] h = tt
All-remove_identical P a (r ∷ rs) h = elim (Bool-cases (r.address == a)) [
  | inl e ↦ rw e (All-remove_identical P a rs h.1)
  | inr e ↦ rw e (h.0, All-remove_identical P a rs h.1)
]

remove_identical-Unique :
    (a : ℕ) (rs : List EventRecord) → Unique rs → Unique (remove_identical a rs)
unfolding remove_identical
remove_identical-Unique a [] h = tt
remove_identical-Unique a (r ∷ rs) h = elim (Bool-cases (r.address == a)) [
  | inl e ↦ rw e (remove_identical-Unique a rs h.2)
  | inr e ↦ rw e (
    All-remove_identical _ a rs h.0,
    All-remove_identical _ a rs h.1,
    remove_identical-Unique a rs h.2,
  )
]

==_false_sym : (a b : ℕ) → (a == b) ≡ false → (b == a) ≡ false
==_false_sym a b h = ground arith

append-Unique :
    (rs : List EventRecord) (r : EventRecord)
    → Unique rs
    → NoUuid r.event_uuid rs
    → NoAddress r.address rs
    → Unique (rs ++ (r ∷ []))
append-Unique [] r h u a = (tt, tt, tt)
append-Unique (x ∷ xs) r h u a = (
  All-snoc _ xs r h.0 (==_false_sym x.event_uuid r.event_uuid u.0),
  All-snoc _ xs r h.1 (==_false_sym x.address r.address a.0),
  append-Unique xs r h.2 u.1 a.1,
)

length-trim_le : (xs : List ℕ) → length (trim xs) ≤ 100
length-trim_le xs = rw (trim-take xs) (length-take_le 100 xs)

-- Queueing a record that is a new object keeps the queued events distinct, and at most a hundred
-- used UUIDs.
pub add_event_record-Inv :
    (q : EventQueue) (r : EventRecord)
    → NoAddress r.address q.records
    → Inv q
    → Inv (add_event_record q r).0
unfolding add_event_record
add_event_record-Inv q r a v = elim (Bool-cases (contains r.event_uuid q.used_uuids)) [
  | inl used ↦ rw used v
  | inr new ↦ elim (Option-cases (find_uuid r.event_uuid q.records)) [
    | inr (x, e) ↦ rw (new, e) v
    | inl e ↦
        rw (new, e)
          (record {
            unique = append-Unique q.records r v.unique (find_uuid-NoUuid _ q.records e) a;
            bounded = v.bounded;
          })
  ]
]

-- Taking an event keeps the queued events distinct, and at most a hundred used UUIDs.
pub remove_event_record-Inv : (q : EventQueue) (u : ℕ) → Inv q → Inv (remove_event_record q u).0
unfolding remove_event_record
remove_event_record-Inv q u v = elim (Option-cases (find_uuid u q.records)) [
  | inl e ↦ rw (e, remove_event_record) v
  | inr (r, e) ↦
      rw (e, remove_event_record)
        (record {
          unique = remove_identical-Unique r.address q.records v.unique;
          bounded = length-trim_le (u ∷ q.used_uuids);
        })
]

-- Taking an event says whether it was queued; afterwards it is not queued any more, and every other
-- event is queued as before.
pub remove_event_record_lem :
    (q : EventQueue) (u v : ℕ)
    → Inv q
    → ((remove_event_record q u).1 ≡ is_some (find_uuid u q.records))
      × (find_uuid v (remove_event_record q u).0.records
          ≡ (if v == u then none else find_uuid v q.records))
unfolding remove_event_record
remove_event_record_lem q u v i = elim (Option-cases (find_uuid u q.records)) [
  | inr (r, e) ↦
      rw (e, remove_event_record) (refl, find_uuid-remove_identical u v q.records r i.unique e)
  | inl e ↦ rw (e, remove_event_record) (refl, missing e)
]
  where
    missing :
        find_uuid u q.records ≡ none
        → find_uuid v q.records ≡ (if v == u then none else find_uuid v q.records)
    missing e = elim (Bool-cases (v == u)) [
      | inl same ↦ let p : v ≡ u = ground arith in rw (same, p) e
      | inr other ↦ rw other
    ]

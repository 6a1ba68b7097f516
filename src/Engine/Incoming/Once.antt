-- ===== src/Engine/Incoming/Once.antt =====
-- Each event is in the database once.
use ios_sdk_develop.Prelude.{
  ℕ, suc, ◌+◌, ◌≡◌, refl, sym, ap, ◌∙◌, inl, inr, ◌⊎◌, Bool, true, false, ◌||◌, List, [], ◌∷◌, ◌++◌,
  arith, ◌==◌, any, ltb, Bool-cases, if◌then◌else◌,
}
use mathlib.Core.Path.{subst}
use ios_sdk_develop.EventQueue.{EventRecord, find_uuid, is_some}
use ios_sdk_develop.Engine.{Event, World}
use ios_sdk_develop.Engine.Incoming.{
  event_of, transfer_record, transfer_records, transfer_incoming_events,
}

-- How many events have the UUID.
abbrev pub copies : ℕ → List Event → ℕ
copies u [] = 0
copies u (e ∷ es) = let rest = copies u es in if e.uuid == u then suc rest else rest

abbrev pub has_uuid : ℕ → List Event → Bool
has_uuid u es = any (λ e. e.uuid == u) es

copies-append : (u : ℕ) (es fs : List Event) → copies u (es ++ fs) ≡ copies u es + copies u fs
copies-append u [] fs = omega arith
copies-append u (e ∷ es) fs = ground (arith, copies-append u es fs)

pub has_uuid-copies : (u : ℕ) (es : List Event) → has_uuid u es ≡ ltb 0 (copies u es)
has_uuid-copies u [] = refl
has_uuid-copies u (e ∷ es) = ground (arith, has_uuid-copies u es)

-- What a transfer leaves of the copies, of those in the database before and whether one is queued.
abbrev transferred : ℕ → Bool → ℕ
transferred n queued = if ltb 0 n then n else (if queued then 1 else 0)

transferred-some : (n : ℕ) (queued : Bool) → ltb 0 n ≡ true → transferred n queued ≡ n
transferred-some n queued h = rw h refl

transferred-false : (n : ℕ) → transferred n false ≡ n
transferred-false n = ground arith

transferred-none : (n : ℕ) → ltb 0 n ≡ false → suc n ≡ transferred n true
transferred-none n h = ground arith

transferred_twice : (n : ℕ) (a b : Bool) → transferred (transferred n a) b ≡ transferred n (a || b)
transferred_twice n true b = ground arith
transferred_twice n false b = rw (transferred-false n) refl

module _ (u : ℕ) (w : World) (r : EventRecord) (reads : w.read_error ≡ false)
    (writes : w.write_error ≡ false) where
  transfer_record-old : has_uuid r.event_uuid w.events ≡ true → transfer_record w r ≡ w
  unfolding transfer_record
  transfer_record-old h = ground arith

  transfer_record-new :
      has_uuid r.event_uuid w.events ≡ false
      → copies u (transfer_record w r).events
        ≡ (if r.event_uuid == u then suc (copies u w.events) else copies u w.events)
  unfolding transfer_record
  transfer_record-new h =
      let added : (transfer_record w r).events ≡ w.events ++ (event_of w.next_event_id r ∷ []) =
        ground arith in
      ap (copies u) added
      ∙ copies-append u w.events (event_of w.next_event_id r ∷ [])
      ∙ ground arith

  transfer_record-copies :
      copies u (transfer_record w r).events ≡ transferred (copies u w.events) (r.event_uuid == u)
  transfer_record-copies = elim (Bool-cases (has_uuid r.event_uuid w.events)) [
    | inl h ↦
        ap (λ x. copies u x.events) (transfer_record-old h) ∙ old (Bool-cases (r.event_uuid == u)) h
    | inr h ↦ transfer_record-new h ∙ new (Bool-cases (r.event_uuid == u)) h
  ]
    where
      counted :
          (r.event_uuid == u) ≡ true
          → (b : Bool) → has_uuid r.event_uuid w.events ≡ b
          → ltb 0 (copies u w.events) ≡ b
      counted e b h =
          let same : r.event_uuid ≡ u = ground arith in
          sym (has_uuid-copies u w.events) ∙ subst (λ v. has_uuid v w.events ≡ b) same h

      old :
          ((r.event_uuid == u) ≡ true) ⊎ ((r.event_uuid == u) ≡ false)
          → has_uuid r.event_uuid w.events ≡ true
          → copies u w.events ≡ transferred (copies u w.events) (r.event_uuid == u)
      old (inl e) h = rw e (sym (transferred-some (copies u w.events) true (counted e true h)))
      old (inr e) h = rw e (sym (transferred-false (copies u w.events)))

      new :
          ((r.event_uuid == u) ≡ true) ⊎ ((r.event_uuid == u) ≡ false)
          → has_uuid r.event_uuid w.events ≡ false
          → (if r.event_uuid == u then suc (copies u w.events) else copies u w.events)
            ≡ transferred (copies u w.events) (r.event_uuid == u)
      new (inl e) h = rw e (transferred-none (copies u w.events) (counted e false h))
      new (inr e) h = rw e (sym (transferred-false (copies u w.events)))

  transfer_record-errors :
      ((transfer_record w r).read_error ≡ false) × ((transfer_record w r).write_error ≡ false)
  unfolding transfer_record
  transfer_record-errors = (ground arith, ground arith)

transfer_records-copies :
    (u : ℕ) (rs : List EventRecord) (w : World)
    → w.read_error ≡ false
    → w.write_error ≡ false
    → copies u (transfer_records rs w).events
      ≡ transferred (copies u w.events) (is_some (find_uuid u rs))
unfolding transfer_records find_uuid
transfer_records-copies u [] w reads writes = sym (transferred-false (copies u w.events))
transfer_records-copies u (r ∷ rs) w reads writes =
    let (reads', writes') = transfer_record-errors u w r reads writes in
    transfer_records-copies u rs (transfer_record w r) reads' writes'
    ∙ ap (λ n. transferred n (is_some (find_uuid u rs))) (transfer_record-copies u w r reads writes)
    ∙ transferred_twice (copies u w.events) (r.event_uuid == u) (is_some (find_uuid u rs))
    ∙ ap (transferred (copies u w.events)) (ground arith)

-- Where the database can be read and written, a transfer leaves each event in the database that was
-- there, adds those that are queued and were not there once, and adds no other.
pub transfer_incoming_events_once :
    (u : ℕ) (w : World)
    → w.read_error ≡ false
    → w.write_error ≡ false
    → copies u (transfer_incoming_events w).events ≡ (
        if has_uuid u w.events
        then copies u w.events
        else (if is_some (find_uuid u w.events_queue.records) then 1 else 0))
unfolding transfer_incoming_events
transfer_incoming_events_once u w reads writes =
    transfer_records-copies u w.events_queue.records w reads writes
    ∙ ap
        (λ b.
          if b
          then copies u w.events
          else (if is_some (find_uuid u w.events_queue.records) then 1 else 0))
        (sym (has_uuid-copies u w.events))

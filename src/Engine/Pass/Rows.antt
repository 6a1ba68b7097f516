-- ===== src/Engine/Pass/Rows.antt =====
-- The rows of the journal that the loop over a lane has still to fetch.
use ios_sdk_develop.Prelude.{
  ℕ, ◌≤◌, ◌<◌, ◌≡◌, refl, sym, ap, ◌∙◌, inl, inr, Bool, true, false, ◌&&◌, Option, none, some, List,
  [], ◌∷◌, arith, ltb, keep, length, All, Bool-cases, opt_is, map,
}
use ios_sdk_develop.Record.{SyncRecord}
use ios_sdk_develop.Engine.{World, id_after, is_after, first_row, retrieve_sync_record_after}
use mathlib.Core.Path.{subst}
use ios_sdk_develop.Engine.Pass.Loops.{some_eq}

abbrev pub has_id : Option ℕ → Bool
has_id none = false
has_id (some i) = true

-- Every row has its ID.
abbrev pub HaveIds : List SyncRecord → Type 0
HaveIds = All (λ r. has_id r.record_id ≡ true)

-- The rows of a lane behind a record.
abbrev pub remaining : Option ℕ → ℕ → List SyncRecord → ℕ
remaining last lane rows = length (keep (is_after last lane) rows)

pub remaining-length :
    (last : Option ℕ) (lane : ℕ) (rows : List SyncRecord) → remaining last lane rows ≤ length rows
remaining-length last lane [] = omega arith
remaining-length last lane (r ∷ rs) = elim (Bool-cases (is_after last lane r)) [
  | inl e ↦ rw e (omega (arith, remaining-length last lane rs))
  | inr e ↦ rw e (omega (arith, remaining-length last lane rs))
]

-- What is behind a row is behind everything that the row is behind.
behind :
    (last : Option ℕ) (lane i : ℕ) (r x : SyncRecord)
    → r.record_id ≡ some i
    → is_after last lane r ≡ true
    → is_after (some i) lane x ≡ true
    → is_after last lane x ≡ true
behind none lane i r x id h k = ground arith
behind (some a) lane i r x id h k = by_id x.record_id (rw id at h) k
  where
    by_id :
        (o : Option ℕ)
        → (opt_is r.lane_id lane && ltb a i) ≡ true
        → (opt_is x.lane_id lane && (elim o [ none ↦ false | some j ↦ ltb i j ])) ≡ true
        → (opt_is x.lane_id lane && (elim o [ none ↦ false | some j ↦ ltb a j ])) ≡ true
    by_id none p q = q
    by_id (some j) p q = ground arith

not_behind_itself :
    (lane i : ℕ) (r : SyncRecord) → r.record_id ≡ some i → is_after (some i) lane r ≡ false
not_behind_itself lane i r id = rw id (ground arith)

module _ (last : Option ℕ) (lane i : ℕ) (r : SyncRecord) (id : r.record_id ≡ some i)
    (h : is_after last lane r ≡ true) where
  fewer_or_same : (rows : List SyncRecord) → remaining (some i) lane rows ≤ remaining last lane rows
  fewer_or_same [] = omega arith
  fewer_or_same (x ∷ xs) = elim (Bool-cases (is_after (some i) lane x)) [
    | inl e ↦ rw (e, behind last lane i r x id h e) (omega (arith, fewer_or_same xs))
    | inr e ↦ elim (Bool-cases (is_after last lane x)) [
      | inl f ↦ rw (e, f) (omega (arith, fewer_or_same xs))
      | inr f ↦ rw (e, f) (fewer_or_same xs)
    ]
  ]

  pub fewer :
      (rows : List SyncRecord)
      → first_row (is_after last lane) rows ≡ some r
      → remaining (some i) lane rows < remaining last lane rows
  unfolding first_row
  fewer [] e = absurd (none_some e)
    where
      none_some : none ≡ some r → ⊥
      none_some q = cc
  fewer (x ∷ xs) e = elim (Bool-cases (is_after last lane x)) [
    | inl k ↦
        let same : x ≡ r = some_eq (rw k at e) in
        let itself : is_after (some i) lane x ≡ false =
          not_behind_itself lane i x (ap (λ y. y.record_id) same ∙ id) in
        rw (k, itself) (omega (arith, fewer_or_same xs))
    | inr k ↦ elim (Bool-cases (is_after (some i) lane x)) [
      | inl f ↦ absurd (true_false (sym (behind last lane i r x id h f) ∙ k))
      | inr f ↦ rw (k, f) (fewer xs (rw k at e))
    ]
  ]
    where
      true_false : true ≡ false → ⊥
      true_false q = cc

-- The first row of those asked for is one of them, and is as all rows are.
pub first_row_lem :
    (q : SyncRecord → Bool) (rows : List SyncRecord) (r : SyncRecord)
    → HaveIds rows
    → first_row q rows ≡ some r
    → (q r ≡ true) × (has_id r.record_id ≡ true)
unfolding first_row
first_row_lem q [] r v e = absurd (none_some e)
  where
    none_some : none ≡ some r → ⊥
    none_some k = cc
first_row_lem q (x ∷ xs) r v e = elim (Bool-cases (q x)) [
  | inl k ↦
      let same : x ≡ r = some_eq (rw k at e) in
      (subst (λ y. q y ≡ true) same k, subst (λ y. has_id y.record_id ≡ true) same v.0)
  | inr k ↦ first_row_lem q xs r v.1 (rw k at e)
]

pub has_id_lem : (o : Option ℕ) → has_id o ≡ true → (i : ℕ) × (o ≡ some i)
has_id_lem none h = absurd (false_true h)
  where
    false_true : false ≡ true → ⊥
    false_true q = cc
has_id_lem (some i) h = (i, refl)

-- What the loops read of the rows: their IDs and lanes.
abbrev pub keys : List SyncRecord → List (Option ℕ × Option ℕ)
keys = map (λ r. (r.record_id, r.lane_id))

abbrev ahead : Option ℕ → ℕ → List (Option ℕ × Option ℕ) → ℕ
ahead last lane ks = length (keep (λ k. opt_is k.1 lane && id_after last k.0) ks)

remaining-keys :
    (last : Option ℕ) (lane : ℕ) (rows : List SyncRecord)
    → remaining last lane rows ≡ ahead last lane (keys rows)
remaining-keys last lane [] = refl
remaining-keys last lane (r ∷ rs) = elim (Bool-cases (is_after last lane r)) [
  | inl e ↦ rw (e, remaining-keys last lane rs) refl
  | inr e ↦ rw (e, remaining-keys last lane rs) refl
]

length-keys : (rows : List SyncRecord) → length rows ≡ length (keys rows)
length-keys [] = refl
length-keys (r ∷ rs) = omega (arith, length-keys rs)

abbrev KeysHaveIds : List (Option ℕ × Option ℕ) → Type 0
KeysHaveIds = All (λ k. has_id k.0 ≡ true)

HaveIds-keys : (rows : List SyncRecord) → HaveIds rows → KeysHaveIds (keys rows)
HaveIds-keys [] v = tt
HaveIds-keys (r ∷ rs) v = (v.0, HaveIds-keys rs v.1)

keys-HaveIds : (rows : List SyncRecord) → KeysHaveIds (keys rows) → HaveIds rows
keys-HaveIds [] v = tt
keys-HaveIds (r ∷ rs) v = (v.0, keys-HaveIds rs v.1)

module _ (rows rows' : List SyncRecord) (same : keys rows' ≡ keys rows) where
  pub remaining_same :
      (last : Option ℕ) (lane : ℕ) → remaining last lane rows' ≡ remaining last lane rows
  remaining_same last lane =
      remaining-keys last lane rows'
      ∙ ap (ahead last lane) same
      ∙ sym (remaining-keys last lane rows)

  pub length_same : length rows' ≡ length rows
  length_same = length-keys rows' ∙ ap length same ∙ sym (length-keys rows)

  pub same-HaveIds : HaveIds rows → HaveIds rows'
  same-HaveIds v = keys-HaveIds rows' (subst KeysHaveIds (sym same) (HaveIds-keys rows v))

pub retrieved :
    (w : World) (last : Option ℕ) (lane : ℕ) (r : SyncRecord)
    → (retrieve_sync_record_after w last lane).0 ≡ some r
    → first_row (is_after last lane) w.journal ≡ some r
unfolding retrieve_sync_record_after
retrieved w last lane r e = ground arith

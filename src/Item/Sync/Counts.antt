-- ===== src/Item/Sync/Counts.antt =====
-- How many sync records there are for each activity of an item.
use ios_sdk_develop.Prelude.{
  ℕ, suc, ◌-◌, ◌≡◌, refl, ap, ◌∙◌, Bool, true, false, Option, none, some, List, [], ◌∷◌, ◌==◌, ltb,
  arith, if◌then◌else◌, bit, set_bit, bit-set_bit, bit-set_bit_other, Bool-cases, inl, inr, ==_iff,
  Text,
}
use mathlib.Core.Path.{subst}
use ios_sdk_develop.Item.{Item, new_item, Activity, activity_bit}
use ios_sdk_develop.Item.Sync.{
  count_of, counted, remove_once, add_count, nil_if_none, remove_count, add_activity,
  remove_activity, Activities, activities, count, add_sync_record_id, remove_sync_record_id,
  count_of_sync_records_with_sync_activity,
}

counted-add :
    (a b : ℕ) (o : Option (List ℕ))
    → counted b (add_count a o) ≡ (if a == b then suc (counted b o) else counted b o)
counted-add a b none = refl
counted-add a b (some bs) = refl

count_of-remove_once :
    (a b : ℕ) (bs : List ℕ)
    → count_of b (remove_once a bs) ≡ (if a == b then count_of b bs - 1 else count_of b bs)
count_of-remove_once a b [] = ground arith
count_of-remove_once a b (c ∷ cs) = let rest = count_of-remove_once a b cs in ground (arith, rest)

counted-nil_if_none : (b : ℕ) (bs : List ℕ) → counted b (nil_if_none bs) ≡ count_of b bs
counted-nil_if_none b [] = refl
counted-nil_if_none b (c ∷ cs) = refl

counted-remove :
    (a b : ℕ) (o : Option (List ℕ))
    → counted b (remove_count a o) ≡ (if a == b then counted b o - 1 else counted b o)
counted-remove a b none = ground arith
counted-remove a b (some bs) =
    counted-nil_if_none b (remove_once a bs) ∙ count_of-remove_once a b bs

bit-set : (a b : ℕ) (v : Bool) (m : ℕ) → bit b (set_bit a v m) ≡ (if a == b then v else bit b m)
bit-set a b v m = elim (Bool-cases (a == b)) [
  | inl e ↦ rw e (subst (λ j. bit j (set_bit a v m) ≡ v) ((==_iff a b).0 e) (bit-set_bit a v m))
  | inr e ↦ rw e (bit-set_bit_other a b v m e)
]

count-add_same : (a : ℕ) (s : Activities) → count a (add_activity a s) ≡ suc (count a s)
unfolding count add_activity
count-add_same a s =
    let c = counted-add a a s.counts in let d = bit-set_bit a true s.mask in ground (arith, c, d)

count-add_other :
    (a b : ℕ) (s : Activities) → (a == b) ≡ false → count b (add_activity a s) ≡ count b s
unfolding count add_activity
count-add_other a b s other =
    let c = counted-add a b s.counts in
    let d = bit-set_bit_other a b true s.mask other in
    elim (Bool-cases (bit a s.mask)) [
      | inl e ↦ rw e (rw (c, other) refl)
      | inr e ↦ rw e (rw d refl)
    ]

count-remove_same : (a : ℕ) (s : Activities) → count a (remove_activity a s) ≡ count a s - 1
unfolding count remove_activity
count-remove_same a s =
    let c = counted-remove a a s.counts in
    let d = bit-set_bit a false s.mask in ground (arith, c, d)

count-remove_other :
    (a b : ℕ) (s : Activities) → (a == b) ≡ false → count b (remove_activity a s) ≡ count b s
unfolding count remove_activity
count-remove_other a b s other =
    let c = counted-remove a b s.counts in
    let d = bit-set_bit_other a b false s.mask other in
    elim (Bool-cases (ltb 0 (counted a s.counts))) [
      | inl e ↦ rw e (rw (c, other) refl)
      | inr e ↦ rw e (rw d refl)
    ]

-- A sync record that starts or ends its work on an item.
pub data SyncStep : Type 0 where
  starts : Option ℕ → Activity → SyncStep
  ends : Option ℕ → Activity → SyncStep

-- The steps on an item.
unfoldable pub run : List SyncStep → Item → Item
run [] i = i
run (starts id a ∷ steps) i = run steps (add_sync_record_id id a i)
run (ends id a ∷ steps) i = run steps (remove_sync_record_id id a i)

-- The steps on a function that counts: one more, or one less, for the activity of the step.
unfoldable pub tally : List SyncStep → (ℕ → ℕ) → ℕ → ℕ
tally [] f b = f b
tally (starts id a ∷ steps) f b =
    tally steps (λ c. if activity_bit a == c then suc (f c) else f c) b
tally (ends id a ∷ steps) f b = tally steps (λ c. if activity_bit a == c then f c - 1 else f c) b

tally-ext :
    (steps : List SyncStep) (f g : ℕ → ℕ)
    → ((c : ℕ) → f c ≡ g c)
    → (b : ℕ) → tally steps f b ≡ tally steps g b
unfolding tally
tally-ext [] f g h b = h b
tally-ext (starts id a ∷ steps) f g h b =
    tally-ext steps _ _ (λ c. ap (λ n. if activity_bit a == c then suc n else n) (h c)) b
tally-ext (ends id a ∷ steps) f g h b =
    tally-ext steps _ _ (λ c. ap (λ n. if activity_bit a == c then n - 1 else n) (h c)) b

count-add :
    (a b : ℕ) (s : Activities)
    → count b (add_activity a s) ≡ (if a == b then suc (count b s) else count b s)
count-add a b s = elim (Bool-cases (a == b)) [
  | inl e ↦ rw e (
      subst (λ c. count c (add_activity a s) ≡ suc (count c s)) ((==_iff a b).0 e)
        (count-add_same a s))
  | inr e ↦ rw e (count-add_other a b s e)
]

count-remove :
    (a b : ℕ) (s : Activities)
    → count b (remove_activity a s) ≡ (if a == b then count b s - 1 else count b s)
count-remove a b s = elim (Bool-cases (a == b)) [
  | inl e ↦ rw e (
      subst (λ c. count c (remove_activity a s) ≡ count c s - 1) ((==_iff a b).0 e)
        (count-remove_same a s))
  | inr e ↦ rw e (count-remove_other a b s e)
]

run-counts :
    (steps : List SyncStep) (i : Item) (b : ℕ)
    → count b (activities (run steps i)) ≡ tally steps (λ c. count c (activities i)) b
unfolding run tally add_sync_record_id remove_sync_record_id
run-counts [] i b = refl
run-counts (starts id a ∷ steps) i b =
    run-counts steps (add_sync_record_id id a i) b
    ∙ tally-ext steps _ _ (λ c. count-add (activity_bit a) c (activities i)) b
run-counts (ends id a ∷ steps) i b =
    run-counts steps (remove_sync_record_id id a i) b
    ∙ tally-ext steps _ _ (λ c. count-remove (activity_bit a) c (activities i)) b

-- Whatever sync records start and end their work on an item, the number of sync records that it gives
-- for an activity is the one that counting up and down gives; the mask, in which a flag stands for the first of
-- them, and the counted set, which holds the others, are not told apart.
pub count_of_sync_records-refines :
    (steps : List SyncStep) (i : Item) (b : Activity)
    → count_of_sync_records_with_sync_activity b (run steps i)
      ≡ tally steps (λ c. count c (activities i)) (activity_bit b)
unfolding count_of_sync_records_with_sync_activity
count_of_sync_records-refines steps i b = run-counts steps i (activity_bit b)

-- The counted set counts an activity only while its flag is set.
unfoldable pub IsMarked : Activities → Type 0
IsMarked s = (a : ℕ) → bit a s.mask ≡ false → counted a s.counts ≡ 0

same_bit : (a b m : ℕ) → (a == b) ≡ true → bit a m ≡ bit b m
same_bit a b m e = ap (λ c. bit c m) ((==_iff a b).0 e)

add_activity-IsMarked : (a : ℕ) (s : Activities) → IsMarked s → IsMarked (add_activity a s)
unfolding IsMarked add_activity
add_activity-IsMarked a s h b off =
    let c = counted-add a b s.counts in
    let d = bit-set a b true s.mask in
    let m = same_bit a b s.mask in let k = h b in ground (arith, c, d, m, k)

remove_activity-IsMarked : (a : ℕ) (s : Activities) → IsMarked s → IsMarked (remove_activity a s)
unfolding IsMarked remove_activity
remove_activity-IsMarked a s h b off =
    let c = counted-remove a b s.counts in
    let d = bit-set a b false s.mask in
    let k = h b in
    elim (Bool-cases (a == b)) [
      | inl e ↦
          let n : counted a s.counts ≡ counted b s.counts =
            ap (λ x. counted x s.counts) ((==_iff a b).0 e) in
          ground (arith, c, d, n, k)
      | inr e ↦ ground (arith, c, d, k)
    ]

run-IsMarked :
    (steps : List SyncStep) (i : Item)
    → IsMarked (activities i)
    → IsMarked (activities (run steps i))
unfolding run add_sync_record_id remove_sync_record_id
run-IsMarked [] i h = h
run-IsMarked (starts id a ∷ steps) i h =
    run-IsMarked steps _ (add_activity-IsMarked (activity_bit a) (activities i) h)
run-IsMarked (ends id a ∷ steps) i h =
    run-IsMarked steps _ (remove_activity-IsMarked (activity_bit a) (activities i) h)

-- After any steps from a new item, the flag of an activity is set exactly if some sync record works on
-- the item with it.
pub run-marks :
    (steps : List SyncStep) (local_id : Text) (b : Activity)
    → bit (activity_bit b) (run steps (new_item local_id)).sync_activity
      ≡ ltb 0 (count_of_sync_records_with_sync_activity b (run steps (new_item local_id)))
unfolding IsMarked count_of_sync_records_with_sync_activity count new_item
run-marks steps local_id b =
    let k = run-IsMarked steps (new_item local_id) (λ a h. refl) (activity_bit b) in
    ground (arith, k)

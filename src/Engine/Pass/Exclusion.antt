-- ===== src/Engine/Pass/Exclusion.antt =====
-- Lanes whose tags conflict do not run side by side, and the lanes never all wait.
use ios_sdk_develop.Prelude.{
  ℕ, ◌≤◌, ◌<◌, ◌≡◌, refl, sym, inl, inr, Bool, true, false, not, ◌||◌, List, [], ◌∷◌, arith, ◌==◌,
  ltb, All, contains, length, Bool-cases, All-map,
}
use mathlib.Core.List.{Memᴰ}
use mathlib.Core.Path.{subst}
use ios_sdk_develop.Lane.{Lane, LaneTable}
use ios_sdk_develop.Lane.Order.{conflict, Before, Chain, Older, Inv}
use ios_sdk_develop.Engine.{World}
use ios_sdk_develop.Engine.Pass.{PassRun, is_blocked, intersects, lane_ids}
use ios_sdk_develop.Engine.Pass.Loops.{pass_start}

pub any_contains :
    (a : ℕ) (ids after : List ℕ)
    → contains a after ≡ true
    → contains a ids ≡ true
    → intersects ids after ≡ true
any_contains a ids [] h k = cc
any_contains a ids (x ∷ xs) h k = elim (Bool-cases (x == a)) [
  | inl e ↦ let same : x ≡ a = ground arith in rw (same, k)
  | inr e ↦ ground (arith, any_contains a ids xs)
]

pub nonempty_contains :
    (a : ℕ) (after : List ℕ) → contains a after ≡ true → ltb 0 (length after) ≡ true
nonempty_contains a [] h = cc
nonempty_contains a (x ∷ xs) h = ground arith

-- The lanes `l` and `m` stand in the list in this order.
pub data Ordered (l m : Lane) : List Lane → Type 0 where
  first : {ls : List Lane} → Memᴰ m ls → Ordered l m (l ∷ ls)
  later : {x : Lane} {ls : List Lane} → Ordered l m ls → Ordered l m (x ∷ ls)

pub All-Memᴰ {ℓ κ} :
    {A : Type ℓ} (P : A → Type κ) {x : A} {xs : List A} → All P xs → Memᴰ x xs → P x
All-Memᴰ P h (Memᴰ.head e) = subst P (sym e) h.0
All-Memᴰ P h (Memᴰ.tail m) = All-Memᴰ P h.1 m

Ordered-Before : {l m : Lane} {ls : List Lane} → Chain ls → Ordered l m ls → Before l m
Ordered-Before {l} c (first k) = All-Memᴰ (Before l) c.0 k
Ordered-Before c (later o) = Ordered-Before c.1 o

pub implied : (a b : Bool) → (not a || b) ≡ true → a ≡ true → b ≡ true
implied a b h c = ground (arith, h, c)

-- Where the lanes are in order, a lane is passed over as long as an older lane is active that has a
-- conflicting tag.
pub is_blocked_by_conflict :
    (t : LaneTable) (l m : Lane) (p : PassRun)
    → Inv t
    → Ordered l m t.lanes
    → conflict l m ≡ true
    → contains l.identifier p.active_lane_ids ≡ true
    → is_blocked p m ≡ true
is_blocked_by_conflict t l m p v o c active =
    let waits =
      implied (conflict l m) (contains l.identifier m.after_lanes) (Ordered-Before v.chain o).1 c in
    rw (
      nonempty_contains l.identifier m.after_lanes waits,
      any_contains l.identifier p.active_lane_ids m.after_lanes waits active,
    )

none_below :
    (i : ℕ) (ids after : List ℕ)
    → All (λ x. i ≤ x) ids
    → All (λ a. a < i) after
    → intersects ids after ≡ false
none_below i ids [] h k = refl
none_below i ids (a ∷ as_) h k = rw (absent ids h) (none_below i ids as_ h k.1)
  where
    absent : (xs : List ℕ) → All (λ x. i ≤ x) xs → contains a xs ≡ false
    absent [] q = refl
    absent (x ∷ xs) q = ground (arith, absent xs q.1, k.0, q.0)

lane_ids_from :
    (i : ℕ) (ls : List Lane) → All (λ m. i < m.identifier) ls → All (λ x. i ≤ x) (lane_ids ls)
lane_ids_from i [] h = tt
lane_ids_from i (l ∷ ls) h = (omega arith, lane_ids_from i ls h.1)

-- Where the lanes are in order and can be read, the oldest one is not passed over: the pass begins
-- with the records on it.
pub oldest_is_not_blocked :
    (w : World) (l : Lane) (ls : List Lane)
    → w.read_error ≡ false
    → w.table.lanes ≡ l ∷ ls
    → Inv w.table
    → is_blocked (pass_start w) l ≡ false
oldest_is_not_blocked w l ls r e v =
    let chain = subst Chain e v.chain in
    let older = subst (All Older) e v.older in
    let ids : All (λ x. l.identifier ≤ x) (lane_ids (l ∷ ls)) =
      (omega arith, lane_ids_from l.identifier ls (All-map ls (λ m h. h.0) chain.0)) in
    rw (r, e, none_below l.identifier (lane_ids (l ∷ ls)) l.after_lanes ids older.0) (ground arith)

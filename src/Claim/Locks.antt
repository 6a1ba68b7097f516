-- ===== src/Claim/Locks.antt =====
-- The lock that a group of claims stands for.
use ios_sdk_develop.Prelude.{◌≡◌, refl, sym, ◌∙◌, ◌⊎◌, inl, inr, ◌≤◌, true, arith, if◌then◌else◌}
use ios_sdk_develop.Claim.{
  group, LockType, no_lock, lock_level, Fields, Claim, Claims, claim, nil, cons, Env, is_valid,
  type_of_lock, max_lock, stronger,
}

-- `c` is a direct member of the group.
pub data In (c : Claim) : Claims → Type 0 where
  here : {cs : Claims} → In c (cons c cs)
  there : {d : Claim} {cs : Claims} → In c cs → In c (cons d cs)

abbrev next_lock : Env → LockType → Claim → LockType
next_lock e lock c = if is_valid e c then stronger (type_of_lock e c) lock else lock

next_lock-ge :
    (e : Env) (lock : LockType) (c : Claim) → lock_level lock ≤ lock_level (next_lock e lock c)
next_lock-ge e lock c = ground arith

next_lock-ge_valid :
    (e : Env) (lock : LockType) (c : Claim)
    → is_valid e c ≡ true
    → lock_level (type_of_lock e c) ≤ lock_level (next_lock e lock c)
next_lock-ge_valid e lock c h = ground arith

max_lock-ge :
    (e : Env) (lock : LockType) (cs : Claims) → lock_level lock ≤ lock_level (max_lock e lock cs)
unfolding max_lock
max_lock-ge e lock nil = omega arith
max_lock-ge e lock (cons c cs) =
    omega (arith, next_lock-ge e lock c, max_lock-ge e (next_lock e lock c) cs)

max_lock-ge_valid :
    (e : Env) (c : Claim) {cs : Claims} (lock : LockType)
    → In c cs
    → is_valid e c ≡ true
    → lock_level (type_of_lock e c) ≤ lock_level (max_lock e lock cs)
unfolding max_lock
max_lock-ge_valid e c lock (here {cs}) v =
    omega (arith, next_lock-ge_valid e lock c v, max_lock-ge e (next_lock e lock c) cs)
max_lock-ge_valid e c lock (there {d} m) v = max_lock-ge_valid e c (next_lock e lock d) m v

-- The lock is one of the group's valid members'.
abbrev pub Held : Env → LockType → Claims → Type 0
Held e lock cs = (c : Claim) × In c cs × (is_valid e c ≡ true) × (type_of_lock e c ≡ lock)

next_lock-cases :
    (e : Env) (lock : LockType) (c : Claim)
    → (next_lock e lock c ≡ lock)
      ⊎ ((is_valid e c ≡ true) × (type_of_lock e c ≡ next_lock e lock c))
next_lock-cases e lock c = ground arith

max_lock-Held :
    (e : Env) (lock : LockType) (cs : Claims)
    → (max_lock e lock cs ≡ lock) ⊎ Held e (max_lock e lock cs) cs
unfolding max_lock
max_lock-Held e lock nil = inl refl
max_lock-Held e lock (cons c cs) = elim (max_lock-Held e (next_lock e lock c) cs) [
  | inr (d, m, v, t) ↦ inr (d, there m, v, t)
  | inl same ↦ elim (next_lock-cases e lock c) [
    | inl kept ↦ inl (same ∙ kept)
    | inr (v, t) ↦ inr (c, here, v, t ∙ sym same)
  ]
]

-- The lock of a group is at least as strong as that of each of its valid members.
pub type_of_lock_group-ge :
    (e : Env) (f : Fields) (cs : Claims) (c : Claim)
    → f.type ≡ group
    → In c cs
    → is_valid e c ≡ true
    → lock_level (type_of_lock e c) ≤ lock_level (type_of_lock e (claim f cs))
unfolding type_of_lock
type_of_lock_group-ge e f cs c t m v = rw (t, type_of_lock) (max_lock-ge_valid e c no_lock m v)

-- The lock of a group is no lock or the lock of a valid member.
pub type_of_lock_group :
    (e : Env) (f : Fields) (cs : Claims)
    → f.type ≡ group
    → (type_of_lock e (claim f cs) ≡ no_lock) ⊎ Held e (type_of_lock e (claim f cs)) cs
unfolding type_of_lock
type_of_lock_group e f cs t = rw (t, type_of_lock) (max_lock-Held e no_lock cs)

-- ===== src/Prelude/Bits.antt =====
-- Flags of a bit mask: `flag` is a power of two.
use Prim.Native.Nat.{ℕ, zero, suc, ◌+◌, ◌-◌, ◌*◌, ◌/◌, ◌%◌, ◌<◌}
use mathlib.Core.Path.{◌≡◌, ap, ◌∙◌}
use native.Mathlib.Omega.{arith}
use mathlib.Core.Bool.{Bool, true, false}
use ios_sdk_develop.Prelude.Tests.{if◌then◌else◌, ◌==◌}

-- `(mask & flag) == flag`.
abbrev pub has_flag : ℕ → ℕ → Bool
has_flag mask flag = (mask / flag) % 2 == 1

-- `mask & ~flag`.
abbrev pub without_flag : ℕ → ℕ → ℕ
without_flag mask flag = if has_flag mask flag then mask - flag else mask

-- `mask | flag`.
abbrev pub with_flag : ℕ → ℕ → ℕ
with_flag mask flag = if has_flag mask flag then mask else mask + flag

abbrev digit_of : Bool → ℕ
digit_of true = 1
digit_of false = 0

-- `(mask & (1 << i)) == (1 << i)`.
unfoldable pub bit : ℕ → ℕ → Bool
bit zero mask = mask % 2 == 1
bit (suc i) mask = bit i (mask / 2)

-- `(mask & ~(1 << i)) | (b ? (1 << i) : 0)`.
unfoldable pub set_bit : ℕ → Bool → ℕ → ℕ
set_bit zero b mask = digit_of b + 2 * (mask / 2)
set_bit (suc i) b mask = mask % 2 + 2 * set_bit i b (mask / 2)

half : (d k : ℕ) → d < 2 → (d + 2 * k) / 2 ≡ k
half d k h = omega arith

pub bit-set_bit : (i : ℕ) (b : Bool) (mask : ℕ) → bit i (set_bit i b mask) ≡ b
unfolding bit set_bit
bit-set_bit zero true mask = ground arith
bit-set_bit zero false mask = ground arith
bit-set_bit (suc i) b mask =
    ap (bit i) (half (mask % 2) (set_bit i b (mask / 2)) (omega arith)) ∙ bit-set_bit i b (mask / 2)

-- The other bits stay.
pub bit-set_bit_other :
    (i j : ℕ) (b : Bool) (mask : ℕ) → (i == j) ≡ false → bit j (set_bit i b mask) ≡ bit j mask
unfolding bit set_bit
bit-set_bit_other zero zero b mask h = ground arith
bit-set_bit_other zero (suc j) true mask h = ap (bit j) (half 1 (mask / 2) (omega arith))
bit-set_bit_other zero (suc j) false mask h = ap (bit j) (half 0 (mask / 2) (omega arith))
bit-set_bit_other (suc i) zero b mask h = ground arith
bit-set_bit_other (suc i) (suc j) b mask h =
    ap (bit j) (half (mask % 2) (set_bit i b (mask / 2)) (omega arith))
    ∙ bit-set_bit_other i j b (mask / 2) (ground arith)

pub set_bit-bit : (i mask : ℕ) → set_bit i (bit i mask) mask ≡ mask
unfolding bit set_bit
set_bit-bit zero mask = ground arith
set_bit-bit (suc i) mask = let rest = set_bit-bit i (mask / 2) in rw rest (omega arith)

-- Setting twice is setting last.
pub set_bit_twice :
    (i : ℕ) (b c : Bool) (mask : ℕ) → set_bit i c (set_bit i b mask) ≡ set_bit i c mask
unfolding set_bit
set_bit_twice zero true c mask = ground arith
set_bit_twice zero false c mask = ground arith
set_bit_twice (suc i) b c mask =
    let rest = set_bit_twice i b c (mask / 2) in
    let h = half (mask % 2) (set_bit i b (mask / 2)) (omega arith) in rw (h, rest) (omega arith)

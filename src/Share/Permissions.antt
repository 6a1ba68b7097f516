-- ===== src/Share/Permissions.antt =====
-- The flags of a share.
use ios_sdk_develop.Prelude.{
  ◌≡◌, refl, Bool, true, false, ◌||◌, arith, ◌==◌, none, if◌then◌else◌, bit, set_bit, bit-set_bit,
  bit-set_bit_other, Bool-cases, inl, inr, ==_iff,
}
use mathlib.Core.Path.{subst}
use ios_sdk_develop.Share.{
  Share, SharePermission, share_permission_bit, can, set_can, protected_by_password,
  set_protected_by_password, has_password,
}

-- A permission that is set reads as it was set, and every other one as before.
pub can-set_can :
    (p q : SharePermission) (b : Bool) (s : Share)
    → can q (set_can p b s)
      ≡ (if share_permission_bit p == share_permission_bit q then b else can q s)
unfolding can set_can
can-set_can p q b s = elim (Bool-cases (share_permission_bit p == share_permission_bit q)) [
  | inl e ↦ rw e (
      subst (λ i. bit i (set_bit (share_permission_bit p) b s.permissions) ≡ b)
        ((==_iff (share_permission_bit p) (share_permission_bit q)).0 e)
        (bit-set_bit (share_permission_bit p) b s.permissions))
  | inr e ↦
      rw e (bit-set_bit_other (share_permission_bit p) (share_permission_bit q) b s.permissions e)
]

-- A share reads as protected as it was set to be, one that is set to be unprotected has no password any
-- more, and a share that is not set reads as protected if it has a password that is not empty or was
-- marked.
pub protected_by_password-set :
    (b : Bool) (s : Share)
    → ((protected_by_password (set_protected_by_password b s)).0 ≡ b)
      × ((set_protected_by_password false s).password ≡ none)
      × ((protected_by_password s).0 ≡ (has_password s.password || s.is_protected_by_password))
unfolding protected_by_password set_protected_by_password
protected_by_password-set true s = (ground arith, refl, ground arith)
protected_by_password-set false s = (refl, refl, ground arith)

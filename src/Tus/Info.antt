-- ===== src/Tus/Info.antt =====
-- What the packed number keeps.
use ios_sdk_develop.Prelude.{
  ℕ, ◌+◌, ◌%◌, ◌^◌, ◌<◌, ◌≡◌, refl, ◌∙◌, Bool, true, false, ◌||◌, Option, none, some, List, [], ◌∷◌,
  arith, ltb, if◌then◌else◌, has_flag, ap, Text,
}
use ios_sdk_develop.Tus.{
  info_get_support, info_set_support, info_get_maximum_size, info_set_maximum_size, Header,
  init_with_tus_info, support_flags, info, nil_if_empty, extension_creation,
  extension_creation_with_upload, extension_expiration, empty, is_available, support_none,
  size_or_zero,
}

-- The two fields of the number do not disturb each other: each is read as it was set, cut to its
-- width, and setting one leaves the other.
pub info_fields :
    (i flags size : ℕ)
    → (info_get_support (info_set_support i flags) ≡ flags % 2 ^ 8)
      × (info_get_maximum_size (info_set_maximum_size i size) ≡ size % 2 ^ 48)
      × (info_get_maximum_size (info_set_support i flags) ≡ info_get_maximum_size i)
      × (info_get_support (info_set_maximum_size i size) ≡ info_get_support i)
unfolding info_get_support info_set_support info_get_maximum_size info_set_maximum_size
info_fields i flags size = (omega arith, omega arith, omega arith, omega arith)

digit : Bool → ℕ → ℕ
digit b flag = if b then flag else 0

-- What the support flags become when they are expanded to extensions and collected again.
collected : Bool → Bool → Bool → ℕ
unfolding digit
collected creation upload expiration =
    if creation || (upload || expiration)
    then 1 + digit creation 2 + digit upload 4 + digit expiration 8
    else 0

expanded : Bool → Bool → Bool → Option (List Text)
unfolding nil_if_empty
expanded creation upload expiration = nil_if_empty (
    if creation
    then extension_creation
      ∷ (if upload
          then extension_creation_with_upload
            ∷ (if expiration then extension_expiration ∷ [] else [])
          else (if expiration then extension_expiration ∷ [] else []))
    else (if upload
        then extension_creation_with_upload ∷ (if expiration then extension_expiration ∷ [] else [])
        else (if expiration then extension_expiration ∷ [] else [])))

support_flags-expanded :
    (h : Header) (creation upload expiration : Bool)
    → support_flags (record h { versions = none; extensions = expanded creation upload expiration })
      ≡ collected creation upload expiration
unfolding support_flags expanded collected
support_flags-expanded h true true true = refl
support_flags-expanded h true true false = refl
support_flags-expanded h true false true = refl
support_flags-expanded h true false false = refl
support_flags-expanded h false true true = refl
support_flags-expanded h false true false = refl
support_flags-expanded h false false true = refl
support_flags-expanded h false false false = refl

module _ (i : ℕ) where
  size : ℕ
  size = info_get_maximum_size i

  support : ℕ
  support = info_get_support i

  init_with_tus_info-extensions : (init_with_tus_info i) ≡ record empty {
    extensions = expanded (has_flag support 2) (has_flag support 4) (has_flag support 8);
    maximum_size = (if ltb 0 size then some size else none);
  }
  unfolding init_with_tus_info expanded size support
  init_with_tus_info-extensions = ground arith

  support_flags-init :
      support_flags (init_with_tus_info i)
      ≡ collected (has_flag support 2) (has_flag support 4) (has_flag support 8)
  support_flags-init =
      ap support_flags init_with_tus_info-extensions
      ∙ support_flags-expanded
          (record empty { maximum_size = if ltb 0 size then some size else none })
          (has_flag support 2) (has_flag support 4) (has_flag support 8)

  maximum_size-init : (init_with_tus_info i).maximum_size ≡ (if ltb 0 size then some size else none)
  maximum_size-init = ap (λ h. h.maximum_size) init_with_tus_info-extensions

  collected-support :
      support < 16
      → has_flag support 1 ≡ true
      → (has_flag support 2 || (has_flag support 4 || has_flag support 8)) ≡ true
      → collected (has_flag support 2) (has_flag support 4) (has_flag support 8) ≡ support
  unfolding collected digit
  collected-support small available extends = ground arith

  size_or_zero-size : size_or_zero (init_with_tus_info i).maximum_size ≡ size
  size_or_zero-size = ap size_or_zero maximum_size-init ∙ ground arith

info-packed :
    (h : Header) (flags size : ℕ)
    → support_flags h ≡ flags
    → size_or_zero h.maximum_size ≡ size
    → info h ≡ info_set_maximum_size (info_set_support 0 flags) size
unfolding info
info-packed h flags size f s = rw (f, s) refl

packed_again :
    (i : ℕ)
    → i < 2 ^ 64
    → i % 2 ^ 8 ≡ 0
    → info_set_maximum_size (info_set_support 0 (info_get_support i)) (info_get_maximum_size i) ≡ i
unfolding info_get_support info_set_support info_get_maximum_size info_set_maximum_size
packed_again i fits reserved = omega arith

-- A number whose reserved bits are 0 and whose support flags are known ones, with the support as such
-- and at least one extension, is the same after it was expanded to a header and packed again.
pub info-init_with_tus_info :
    (i : ℕ)
    → i < 2 ^ 64
    → i % 2 ^ 8 ≡ 0
    → info_get_support i < 16
    → is_available (info_get_support i) ≡ true
    → (has_flag (info_get_support i) 2
        || (has_flag (info_get_support i) 4 || has_flag (info_get_support i) 8))
      ≡ true
    → info (init_with_tus_info i) ≡ i
unfolding support size
info-init_with_tus_info i fits reserved small available extends =
    let flags = support_flags-init i ∙ collected-support i small available extends in
    info-packed (init_with_tus_info i) (info_get_support i) (info_get_maximum_size i) flags
      (size_or_zero-size i)
    ∙ packed_again i fits reserved

collected-false : (b₁ b₂ b₃ : Bool) → (b₁ || (b₂ || b₃)) ≡ false → collected b₁ b₂ b₃ ≡ 0
unfolding collected
collected-false b₁ b₂ b₃ h = rw h refl

-- A number that names no extension, also one that says that the server supports uploads, is expanded
-- to a header that does not support them any more.
pub support_flags-init_with_tus_info :
    (i : ℕ)
    → (has_flag (info_get_support i) 2
        || (has_flag (info_get_support i) 4 || has_flag (info_get_support i) 8))
      ≡ false
    → support_flags (init_with_tus_info i) ≡ support_none
unfolding support
support_flags-init_with_tus_info i extends = support_flags-init i ∙ collected-false _ _ _ extends

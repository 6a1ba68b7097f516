-- ===== src/Share/Copies.antt =====
-- Copies of shares.
use ios_sdk_develop.Prelude.{
  ◌⊎◌, inl, inr, some, if◌then◌else◌, ◌||◌, ap, sym, arith, ℕ, ◌≡◌, refl, ◌∙◌, Bool, true, false,
  ◌==◌, ==_refl, Option, none, and_skip, compare_var, compare_var_refl, Text, text_eq, text_eq_refl,
}
use ios_sdk_develop.User.{user_is_equal, recipient_is_equal}
use ios_sdk_develop.User.Equal.{user_is_equal_refl, recipient_is_equal_refl}
use ios_sdk_develop.Item.{ItemType, file, collection}
use ios_sdk_develop.Share.{
  Share, is_equal, copy, read_back, decode_encoded, protected_by_password, has_password,
  item_type_eq, same_flag, share_type_value,
}

item_type_eq_refl : (t : ItemType) → item_type_eq t t ≡ true
item_type_eq_refl file = refl
item_type_eq_refl collection = refl

same_flag_refl : (b : Bool) → same_flag b b ≡ true
same_flag_refl true = refl
same_flag_refl false = refl

text_var : (o : Option Text) → compare_var text_eq o o ≡ true
text_var = compare_var_refl text_eq text_eq_refl

number_var : (o : Option ℕ) → compare_var (λ a b. a == b) o o ≡ true
number_var = compare_var_refl (λ a b. a == b) ==_refl

-- A share with the values of another but for those that `isEqual:` does not read and for the state.
like : Share → Bool → Bool → Option Text → Option Text → Share
like s read_write is_protected password state = record s {
  can_read_write = read_write;
  is_protected_by_password = is_protected;
  password = password;
  state = state;
}

is_equal-like :
    (s : Share) (read_write is_protected : Bool) (password state : Option Text)
    → same_flag
        (protected_by_password (like s read_write is_protected password state)).0
        (protected_by_password s).0
      ≡ true
    → is_equal s (like s read_write is_protected password state) ≡ compare_var text_eq state s.state
unfolding is_equal like
is_equal-like s read_write is_protected password state flags =
    and_skip _ _ _ (text_var s.identifier) (
      and_skip _ _ _ (==_refl (share_type_value s.type)) (
        and_skip _ _ _ (text_var s.item_path) (
          and_skip _ _ _ (item_type_eq_refl s.item_type) (
            and_skip _ _ _ (compare_var_refl user_is_equal user_is_equal_refl s.item_owner) (
              and_skip _ _ _ (text_var s.item_mime_type) (
                and_skip _ _ _ (text_var s.name) (
                  and_skip _ _ _ (text_var s.token) (
                    and_skip _ _ _ (text_var s.url) (
                      and_skip _ _ _ (==_refl s.permissions) (
                        and_skip _ _ _ (flags) (
                          and_skip _ _ _ (number_var s.creation_date) (
                            and_skip _ _ _ (number_var s.expiration_date) (
                              and_skip _ _ _
                                (compare_var_refl user_is_equal user_is_equal_refl s.owner)
                                (and_skip _ _ _
                                  (compare_var_refl recipient_is_equal recipient_is_equal_refl
                                    s.recipient)
                                  (and_skip _ _ _ (text_var s.mount_point)
                                    (and_skip _ _ _ (number_var s.accepted) (refl)))))))))))))))))

flags :
    (s : Share)
    → (protected_by_password s).0 ≡ (has_password s.password || s.is_protected_by_password)
unfolding protected_by_password
flags s = ground arith

flags-like :
    (s : Share) (read_write : Bool) (state : Option Text)
    → same_flag
        (protected_by_password (like s read_write s.is_protected_by_password s.password state)).0
        (protected_by_password s).0
      ≡ true
unfolding like
flags-like s read_write state =
    ap (λ b. same_flag b (protected_by_password s).0)
      (flags (like s read_write s.is_protected_by_password s.password state) ∙ sym (flags s))
    ∙ same_flag_refl (protected_by_password s).0

-- A copy is equal to the share and reads the same, but for `canReadWrite`, which is not copied.
pub is_equal-copy :
    (s : Share)
    → (is_equal s (copy s) ≡ true) × (record (copy s) { can_read_write = s.can_read_write } ≡ s)
unfolding copy like
is_equal-copy s = (
  is_equal-like s false s.is_protected_by_password s.password s.state (flags-like s false s.state)
      ∙ text_var s.state,
  refl,
)

is_equal-read_back :
    (s : Share)
    → (is_equal s (read_back s) ≡ true)
      × ((protected_by_password (read_back s)).0 ≡ (protected_by_password s).0)
      × ((read_back s).password ≡ none)
unfolding like protected_by_password
is_equal-read_back s = (
  is_equal-like s false (protected_by_password s).0 none s.state
        (same_flag_refl (protected_by_password s).0)
      ∙ text_var s.state,
  refl,
  refl,
)

-- What decoding makes of a share: nothing, which happens exactly where secure coding is required and the
-- share has a state; or a share that is equal to it and protected if it was, but without its password.
pub is_equal-decode_encoded :
    (secure : Bool) (s : Share)
    → ((decode_encoded secure s ≡ none)
        × (secure ≡ true)
        × ((state : Text) × (s.state ≡ some state)))
      ⊎ ((t : Share) × (decode_encoded secure s ≡ some t)
          × ((secure ≡ false) ⊎ (s.state ≡ none))
          × (is_equal s t ≡ true)
          × ((protected_by_password t).0 ≡ (protected_by_password s).0)
          × (t.password ≡ none))
unfolding decode_encoded
is_equal-decode_encoded secure s = by_state secure s.state refl
  where
    decoded : Bool → Option Text → Option Share
    decoded b o = elim o [
      | none ↦ some (read_back s)
      | some state ↦ if b then none else some (read_back s)
    ]

    by_state :
        (b : Bool) (o : Option Text)
        → s.state ≡ o
        → ((decode_encoded b s ≡ none) × (b ≡ true) × ((state : Text) × (s.state ≡ some state)))
          ⊎ ((t : Share) × (decode_encoded b s ≡ some t)
              × ((b ≡ false) ⊎ (s.state ≡ none))
              × (is_equal s t ≡ true)
              × ((protected_by_password t).0 ≡ (protected_by_password s).0)
              × (t.password ≡ none))
    by_state b none h =
        let (same, kept, gone) = is_equal-read_back s in
        inr (read_back s, ap (decoded b) h, inr h, same, kept, gone)
    by_state true (some state) h = inl (ap (decoded true) h, refl, (state, h))
    by_state false (some state) h =
        let (same, kept, gone) = is_equal-read_back s in
        inr (read_back s, ap (decoded false) h, inl refl, same, kept, gone)

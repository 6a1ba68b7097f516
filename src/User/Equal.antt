-- ===== src/User/Equal.antt =====
-- Users, groups and recipients are equal to themselves.
use ios_sdk_develop.Prelude.{
  ◌≡◌, refl, Bool, true, false, and_true, compare_var_refl, text_eq, text_eq_refl,
}
use ios_sdk_develop.User.{
  User, Group, Recipient, same_bool, user_is_equal, group_is_equal, recipient_is_equal,
  recipient_type_eq, RecipientType, user_type, group_type,
}

same_bool_refl : (b : Bool) → same_bool b b ≡ true
same_bool_refl true = refl
same_bool_refl false = refl

pub user_is_equal_refl : (u : User) → user_is_equal u u ≡ true
unfolding user_is_equal
user_is_equal_refl u = and_true _ _ (compare_var_refl text_eq text_eq_refl u.user_name) (
    and_true _ _ (compare_var_refl text_eq text_eq_refl u.display_name) (
      and_true _ _ (compare_var_refl text_eq text_eq_refl u.email_address) (
        and_true _ _ (compare_var_refl text_eq text_eq_refl u.avatar_data)
          (compare_var_refl same_bool same_bool_refl u.force_is_remote))))

group_is_equal_refl : (g : Group) → group_is_equal g g ≡ true
unfolding group_is_equal
group_is_equal_refl g =
    and_true _ _ (compare_var_refl text_eq text_eq_refl g.identifier)
      (compare_var_refl text_eq text_eq_refl g.name)

recipient_type_eq_refl : (t : RecipientType) → recipient_type_eq t t ≡ true
recipient_type_eq_refl user_type = refl
recipient_type_eq_refl group_type = refl

pub recipient_is_equal_refl : (r : Recipient) → recipient_is_equal r r ≡ true
unfolding recipient_is_equal
recipient_is_equal_refl r = and_true _ _ (recipient_type_eq_refl r.type) (
    and_true _ _ (compare_var_refl user_is_equal user_is_equal_refl r.user) (
      and_true _ _ (compare_var_refl group_is_equal group_is_equal_refl r.group)
        (compare_var_refl text_eq text_eq_refl r.search_result_name)))

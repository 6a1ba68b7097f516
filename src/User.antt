-- ===== src/User.antt =====
-- ownCloudSDK/Share/OCUser.h, OCUser.m, OCGroup.h, OCRecipient.h and OCRecipient.m: users, groups and
-- whoever a share is for.
pub mod Remote
pub mod Equal
use ios_sdk_develop.Prelude.{
  ℕ, zero, suc, Bool, true, false, not, ◌&&◌, ◌||◌, Option, none, some, List, [], ◌∷◌, ◌++◌, ◌==◌,
  length, take, if◌then◌else◌, Text, codes, text_eq, compare_var,
}

pub record User : Type 0 where
  pub display_name : Option Text
  pub user_name : Option Text
  pub email_address : Option Text
  pub avatar_data : Option Text
  pub force_is_remote : Option Bool

-- The place one further on, or this one.
abbrev pub last_step : ℕ → ℕ → Option ℕ → Option ℕ
last_step c x (some i) = some (suc i)
last_step c x none = if x == c then some 0 else none

-- `rangeOfString:options:NSBackwardsSearch` for one character: where it stands last.
unfoldable pub last_index : ℕ → Text → Option ℕ
last_index c [] = none
last_index c (x ∷ s) = last_step c x (last_index c s)

abbrev pub forced_local : Option Bool → Bool
forced_local none = false
forced_local (some is_remote) = not is_remote

-- Where the name splits: not at its ends, and not if the user is known to be local.
abbrev pub inner : ℕ → Option Bool → Option ℕ → Option ℕ
inner n forced none = none
inner n forced (some i) = if i == 0 || (suc i == n || forced_local forced) then none else some i

unfoldable pub at_remote_range : User → Option ℕ
unfolding last_index
at_remote_range u = elim u.user_name [
  | none ↦ none
  | some name ↦ inner (length name) u.force_is_remote (last_index b'@' name)
]

abbrev pub is_found : Option ℕ → Bool
is_found none = false
is_found (some i) = true

unfoldable pub is_remote : User → Bool
is_remote u = is_found (at_remote_range u)

-- `substringFromIndex:`.
abbrev pub substring_from : ℕ → Text → Text
substring_from zero s = s
substring_from (suc n) [] = []
substring_from (suc n) (x ∷ s) = substring_from n s

-- `substringToIndex:` on the name, nil on a nil name, and where there is no range.
abbrev pub part_of : (ℕ → Text → Text) → Option Text → Option ℕ → Option Text
part_of f none i = none
part_of f (some name) none = none
part_of f (some name) (some i) = some (f i name)

unfoldable pub remote_user_name : User → Option Text
remote_user_name u = part_of take u.user_name (at_remote_range u)

unfoldable pub remote_host : User → Option Text
remote_host u = part_of (λ i. substring_from (suc i)) u.user_name (at_remote_range u)

abbrev pub same_bool : Bool → Bool → Bool
same_bool true b = b
same_bool false b = not b

unfoldable pub user_is_equal : User → User → Bool
user_is_equal u v =
    compare_var text_eq u.user_name v.user_name
    && (compare_var text_eq u.display_name v.display_name
        && (compare_var text_eq u.email_address v.email_address
            && (compare_var text_eq u.avatar_data v.avatar_data
                && compare_var same_bool u.force_is_remote v.force_is_remote)))

pub record Group : Type 0 where
  pub identifier : Option Text
  pub name : Option Text

-- `OCRecipientType` and `OCRecipientMatchType`.
pub data RecipientType : Type 0 where
  user_type group_type : RecipientType

pub data MatchType : Type 0 where
  unknown exact additional : MatchType

pub record Recipient : Type 0 where
  pub type : RecipientType
  pub group : Option Group
  pub user : Option User
  pub search_result_name : Option Text
  pub match_type : MatchType

abbrev pub new_recipient : Recipient
new_recipient = record {
  type = user_type;
  group = none;
  user = none;
  search_result_name = none;
  match_type = unknown;
}

unfoldable pub recipient_with_user : User → Recipient
recipient_with_user u = record new_recipient { type = user_type; user = some u }

unfoldable pub recipient_with_group : Group → Recipient
recipient_with_group g = record new_recipient { type = group_type; group = some g }

unfoldable pub with_search_result_name : Option Text → Recipient → Recipient
with_search_result_name s r = record r { search_result_name = s }

-- `identifier` of a recipient.
unfoldable pub recipient_identifier : Recipient → Option Text
recipient_identifier r = elim r.type [
  | user_type ↦ elim r.user [ none ↦ none | some u ↦ u.user_name ]
  | group_type ↦ elim r.group [ none ↦ none | some g ↦ g.identifier ]
]

-- The name with the search result's in parentheses.
abbrev pub with_suffix : Option Text → Option Text → Option Text
with_suffix none s = none
with_suffix (some name) none = some name
with_suffix (some name) (some []) = some name
with_suffix (some name) (some (c ∷ s)) = some (name ++ (codes " (" ++ ((c ∷ s) ++ codes ")")))

unfoldable pub recipient_display_name : Recipient → Option Text
recipient_display_name r = elim r.type [
  | user_type ↦ elim r.user [
    | none ↦ none
    | some u ↦ with_suffix u.display_name r.search_result_name
  ]
  | group_type ↦ elim r.group [ none ↦ none | some g ↦ with_suffix g.name r.search_result_name ]
]

abbrev pub recipient_type_eq : RecipientType → RecipientType → Bool
recipient_type_eq user_type user_type = true
recipient_type_eq user_type group_type = false
recipient_type_eq group_type user_type = false
recipient_type_eq group_type group_type = true

unfoldable pub group_is_equal : Group → Group → Bool
group_is_equal g h =
    compare_var text_eq g.identifier h.identifier && compare_var text_eq g.name h.name

unfoldable pub recipient_is_equal : Recipient → Recipient → Bool
recipient_is_equal r o =
    recipient_type_eq o.type r.type
    && (compare_var user_is_equal o.user r.user
        && (compare_var group_is_equal o.group r.group
            && compare_var text_eq o.search_result_name r.search_result_name))

-- ===== src/Share.antt =====
-- ownCloudSDK/Share/OCShare.h and OCShare.m: shares of items with users, groups and by public links.
-- URLs and texts are lists of characters, dates and numbers are numbers.
pub mod Permissions
pub mod Copies
use ios_sdk_develop.Prelude.{
  ℕ, Bool, true, false, not, ◌&&◌, ◌||◌, Option, none, some, List, [], ◌∷◌, ◌==◌, if◌then◌else◌,
  Text, codes, text_eq, compare_var, bit, set_bit,
}
use ios_sdk_develop.Item.{ItemType, file, collection}
use ios_sdk_develop.User.{
  User, is_remote, user_is_equal, Recipient, recipient_is_equal, user_type, group_type,
}

-- `OCShareType`.
pub data ShareType : Type 0 where
  user_share group_share link guest remote unknown : ShareType

abbrev pub share_type_value : ShareType → ℕ
share_type_value user_share = 0
share_type_value group_share = 1
share_type_value link = 3
share_type_value guest = 4
share_type_value remote = 6
share_type_value unknown = 255

-- `OCSharePermissionsMask`: the flags and their positions.
pub data SharePermission : Type 0 where
  read update create delete share : SharePermission

abbrev pub share_permission_bit : SharePermission → ℕ
share_permission_bit read = 0
share_permission_bit update = 1
share_permission_bit create = 2
share_permission_bit delete = 3
share_permission_bit share = 4

pub record Share : Type 0 where
  pub identifier : Option Text
  pub type : ShareType
  pub item_path : Option Text
  pub item_type : ItemType
  pub item_owner : Option User
  pub item_mime_type : Option Text
  pub name : Option Text
  pub token : Option Text
  pub url : Option Text
  pub permissions : ℕ
  pub can_read_write : Bool
  pub creation_date : Option ℕ
  pub expiration_date : Option ℕ
  pub is_protected_by_password : Bool
  pub password : Option Text
  pub owner : Option User
  pub recipient : Option Recipient
  pub mount_point : Option Text
  pub state : Option Text
  pub accepted : Option ℕ

-- `OCShareState`.
abbrev pub state_accepted : Text
state_accepted = codes "0"

abbrev pub state_pending : Text
state_pending = codes "1"

abbrev pub state_rejected : Text
state_rejected = codes "2"

-- `[OCShare new]`.
abbrev pub new_share : Share
new_share = record {
  identifier = none;
  type = unknown;
  item_path = none;
  item_type = file;
  item_owner = none;
  item_mime_type = none;
  name = none;
  token = none;
  url = none;
  permissions = 0;
  can_read_write = false;
  creation_date = none;
  expiration_date = none;
  is_protected_by_password = false;
  password = none;
  owner = none;
  recipient = none;
  mount_point = none;
  state = none;
  accepted = none;
}

abbrev pub type_of_recipient : Recipient → ShareType
type_of_recipient r = elim r.type [
  | group_type ↦ group_share
  | user_type ↦ elim r.user [
    | none ↦ user_share
    | some u ↦ (if is_remote u then remote else user_share)
  ]
]

unfoldable pub share_with_recipient : Recipient → Text → ℕ → Option ℕ → Share
share_with_recipient recipient path permissions expiration_date = record new_share {
  type = type_of_recipient recipient;
  recipient = some recipient;
  item_path = some path;
  permissions = permissions;
  expiration_date = expiration_date;
}

unfoldable pub share_with_public_link_to_path :
    Text → Option Text → ℕ → Option Text → Option ℕ → Share
share_with_public_link_to_path path name permissions password expiration_date = record new_share {
  type = link;
  name = name;
  item_path = some path;
  password = password;
  permissions = permissions;
  expiration_date = expiration_date;
}

-- The accessors that `BIT_ACCESSOR` makes.
unfoldable pub can : SharePermission → Share → Bool
can p s = bit (share_permission_bit p) s.permissions

unfoldable pub set_can : SharePermission → Bool → Share → Share
set_can p flag_value s = record s {
  permissions = set_bit (share_permission_bit p) flag_value s.permissions;
}

abbrev pub has_password : Option Text → Bool
has_password none = false
has_password (some p) = not (text_eq p [])

-- `protectedByPassword`, which remembers that there was a password.
unfoldable pub protected_by_password : Share → Bool × Share
protected_by_password s =
    if has_password s.password
    then (true, record s { is_protected_by_password = true })
    else (s.is_protected_by_password, s)

unfoldable pub set_protected_by_password : Bool → Share → Share
set_protected_by_password b s =
    if b
    then record s { is_protected_by_password = true }
    else record s { password = none; is_protected_by_password = false }

abbrev pub item_type_eq : ItemType → ItemType → Bool
item_type_eq file file = true
item_type_eq file collection = false
item_type_eq collection file = false
item_type_eq collection collection = true

abbrev pub same_flag : Bool → Bool → Bool
same_flag true b = b
same_flag false b = not b

-- `isEqual:` on two shares.
unfoldable pub is_equal : Share → Share → Bool
is_equal s o =
    compare_var text_eq o.identifier s.identifier
    && ((share_type_value o.type == share_type_value s.type)
        && (compare_var text_eq o.item_path s.item_path
            && (item_type_eq o.item_type s.item_type
                && (compare_var user_is_equal o.item_owner s.item_owner
                    && (compare_var text_eq o.item_mime_type s.item_mime_type
                        && (compare_var text_eq o.name s.name
                            && (compare_var text_eq o.token s.token
                                && (compare_var text_eq o.url s.url
                                    && ((o.permissions == s.permissions)
                                        && (same_flag (protected_by_password o).0
                                              (protected_by_password s).0
                                            && (compare_var (λ a b. a == b) o.creation_date
                                                  s.creation_date
                                                && (compare_var (λ a b. a == b) o.expiration_date
                                                      s.expiration_date
                                                    && (compare_var user_is_equal o.owner s.owner
                                                        && (compare_var recipient_is_equal
                                                            o.recipient s.recipient
                                                            && (compare_var text_eq o.mount_point
                                                            s.mount_point
                                                            && (compare_var (λ a b. a == b)
                                                            o.accepted s.accepted
                                                            && compare_var text_eq o.state
                                                            s.state))))))))))))))))

unfoldable pub copy : Share → Share
copy s = record new_share {
  identifier = s.identifier;
  type = s.type;
  item_path = s.item_path;
  item_type = s.item_type;
  item_owner = s.item_owner;
  item_mime_type = s.item_mime_type;
  name = s.name;
  token = s.token;
  url = s.url;
  permissions = s.permissions;
  creation_date = s.creation_date;
  expiration_date = s.expiration_date;
  password = s.password;
  is_protected_by_password = s.is_protected_by_password;
  owner = s.owner;
  recipient = s.recipient;
  mount_point = s.mount_point;
  accepted = s.accepted;
  state = s.state;
}

-- What `initWithCoder:` reads back of what `encodeWithCoder:` wrote, where the classes are not looked at.
abbrev pub read_back : Share → Share
read_back s = record new_share {
  identifier = s.identifier;
  type = s.type;
  item_path = s.item_path;
  item_type = s.item_type;
  item_owner = s.item_owner;
  item_mime_type = s.item_mime_type;
  name = s.name;
  token = s.token;
  url = s.url;
  permissions = s.permissions;
  is_protected_by_password = (protected_by_password s).0;
  creation_date = s.creation_date;
  expiration_date = s.expiration_date;
  owner = s.owner;
  recipient = s.recipient;
  mount_point = s.mount_point;
  accepted = s.accepted;
  state = s.state;
}

-- Decoding what was encoded. The state, a text, is asked for as a number: a decoder that requires secure
-- coding then fails as a whole, and one that does not gives the text all the same.
unfoldable pub decode_encoded : Bool → Share → Option Share
decode_encoded secure s = elim s.state [
  | none ↦ some (read_back s)
  | some state ↦ if secure then none else some (read_back s)
]

-- ===== src/Bookmark.antt =====
-- ownCloudSDK/Bookmark/OCBookmark.h and OCBookmark.m: bookmarks, and where their authentication data are
-- kept. The keychain is an argument: its state, and how it is read and written. Notifications are not
-- modelled.
pub mod Storage
use ios_sdk_develop.Prelude.{
  ℕ, Bool, true, false, Option, none, some, List, [], ◌∷◌, Text, if◌then◌else◌,
}
use ios_sdk_develop.User.{User}

-- `OCBookmarkAuthenticationDataStorage`.
pub data DataStorage : Type 0 where
  keychain memory : DataStorage

-- `OCBookmark`; certificates and entries of the user info are known by their address.
pub record Bookmark : Type 0 where
  pub uuid : Text
  pub name : Option Text
  pub url : Option Text
  pub server_location_user_name : Option Text
  pub origin_url : Option Text
  pub last_user_name : Option Text
  pub user_display_name : Option Text
  pub user : Option User
  pub certificate : Option ℕ
  pub certificate_modification_date : Option ℕ
  pub authentication_method_identifier : Option Text
  pub cached_authentication_data : Option Text
  pub storage : DataStorage
  pub authentication_validation_date : Option ℕ
  pub database_version : ℕ
  pub user_info : List (Text × ℕ)

-- A keychain with states in K, by the account.
pub record Keychain (K : Type 0) : Type 0 where
  pub read_data : K → Text → Option Text
  pub write_data : Text → K → Text → K
  pub remove_item : K → Text → K

abbrev pub is_keychain : DataStorage → Bool
is_keychain keychain = true
is_keychain memory = false

abbrev pub or_read : Option Text → Option Text → Option Text
or_read (some d) read = some d
or_read none read = read

abbrev pub dated : Option Text → ℕ → Option ℕ
dated none now = none
dated (some d) now = some now

abbrev pub or_last : Option Text → Option Text → Option Text
or_last (some name) last = some name
or_last none last = last

-- `userName`, given what the registered method of authentication reads from the data; the method may
-- be nil.
abbrev pub name_from :
    Option Text → Option Text → Option (Text → Option Text) → Option Text → Option Text
name_from none data_there method last = last
name_from (some m) none method last = last
name_from (some m) (some d) none last = last
name_from (some m) (some d) (some read) last = read d

unfoldable pub user_name : Option (Text → Option Text) → Bookmark → Option Text
user_name method b =
    name_from b.authentication_method_identifier b.cached_authentication_data method
      b.last_user_name

abbrev pub data_of : DataStorage → Option Text → Option Text → Option Text
data_of keychain cached read = or_read cached read
data_of memory cached read = cached

abbrev pub same_storage : DataStorage → DataStorage → Bool
same_storage keychain s = is_keychain s
same_storage memory keychain = false
same_storage memory memory = true

module _ {K : Type 0} (c : Keychain K) where
  -- `authenticationData`, which is read from the keychain on demand and stored.
  unfoldable pub authentication_data : K → Bookmark → Option Text × Bookmark
  authentication_data k b =
      let d = data_of b.storage b.cached_authentication_data (c.read_data k b.uuid) in
      (d, record b { cached_authentication_data = d })

  abbrev pub saved : Option Text → K → Text → K
  saved none k uuid = c.remove_item k uuid
  saved (some d) k uuid = c.write_data d k uuid

  -- `setAuthenticationData:saveToKeychain:`.
  unfoldable pub set_and_save :
      Option (Text → Option Text) → ℕ → Option Text → Bool → K → Bookmark → K × Bookmark
  unfolding user_name
  set_and_save method now d save k b =
      let b' : Bookmark = record b {
        cached_authentication_data = d;
        authentication_validation_date = dated d now;
      } in
      if save
      then (
        saved d k b.uuid,
        record b' { last_user_name = or_last (user_name method b') b'.last_user_name },
      )
      else (k, b')

  unfoldable pub set_authentication_data :
      Option (Text → Option Text) → ℕ → Option Text → K → Bookmark → K × Bookmark
  unfolding set_and_save
  set_authentication_data method now d k b = set_and_save method now d (is_keychain b.storage) k b

  -- `setAuthenticationDataStorage:`.
  unfoldable pub set_authentication_data_storage :
      Option (Text → Option Text) → ℕ → DataStorage → K → Bookmark → K × Bookmark
  unfolding set_and_save authentication_data
  set_authentication_data_storage method now s k b = if same_storage b.storage s then (k, b) else (
    (set_and_save method now (authentication_data k b).0 (is_keychain s) k
        (authentication_data k b).1).0,
    record (set_and_save method now (authentication_data k b).0 (is_keychain s) k
        (authentication_data k b).1).1 { storage = s },
  )

  -- `setValuesFrom:`, with the source, which reads its data on demand.
  unfoldable pub set_values_from : K → Bookmark → Bookmark → Bookmark × Bookmark
  unfolding authentication_data
  set_values_from k source b = (
    (authentication_data k source).1,
    record b {
      uuid = source.uuid;
      database_version = source.database_version;
      name = source.name;
      url = source.url;
      origin_url = source.origin_url;
      certificate = source.certificate;
      certificate_modification_date = source.certificate_modification_date;
      authentication_method_identifier = source.authentication_method_identifier;
      cached_authentication_data = (authentication_data k source).0;
      storage = source.storage;
      authentication_validation_date = source.authentication_validation_date;
      last_user_name = source.last_user_name;
      user_display_name = source.user_display_name;
      user_info = source.user_info;
    },
  )

-- `considerAuthenticationDataFlush`.
unfoldable pub consider_authentication_data_flush : Bookmark → Bookmark
consider_authentication_data_flush b =
    if is_keychain b.storage then record b { cached_authentication_data = none } else b

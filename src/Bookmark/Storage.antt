-- ===== src/Bookmark/Storage.antt =====
-- Where the authentication data of a bookmark are, and that they stay.
use ios_sdk_develop.Prelude.{ℕ, ◌≡◌, refl, Option, none, some, Text}
use ios_sdk_develop.Bookmark.{
  DataStorage, keychain, memory, Bookmark, Keychain, or_read, authentication_data, saved,
  set_and_save, set_authentication_data, consider_authentication_data_flush,
}

module _ {K : Type 0} (c : Keychain K)
    (read-write : (d : Text) (k : K) (uuid : Text)
      → c.read_data (c.write_data d k uuid) uuid ≡ some d)
    (read-remove : (k : K) (uuid : Text) → c.read_data (c.remove_item k uuid) uuid ≡ none)
    (method : Option (Text → Option Text)) (now : ℕ) where
  read-saved : (d : Option Text) (k : K) (uuid : Text) → c.read_data (saved c d k uuid) uuid ≡ d
  read-saved none k uuid = read-remove k uuid
  read-saved (some d) k uuid = read-write d k uuid

  or_read-saved :
      (d : Option Text) (k : K) (uuid : Text) → or_read d (c.read_data (saved c d k uuid) uuid) ≡ d
  or_read-saved none k uuid = read-remove k uuid
  or_read-saved (some d) k uuid = refl

  -- The authentication data that are set are the ones that the bookmark then has, also after the copy in
  -- memory of data from the keychain was flushed.
  pub authentication_data-set :
      (d : Option Text) (k : K) (b : Bookmark)
      → ((authentication_data c
            (set_authentication_data c method now d k b).0
            (set_authentication_data c method now d k b).1).0
          ≡ d)
        × ((authentication_data c
              (set_authentication_data c method now d k b).0
              (consider_authentication_data_flush (set_authentication_data c method now d k b).1)).0
            ≡ d)
  unfolding authentication_data set_authentication_data set_and_save
      consider_authentication_data_flush
  authentication_data-set d k b = by_storage b.storage refl
    where
      by_storage :
          (s : DataStorage)
          → b.storage ≡ s
          → ((authentication_data c
                (set_authentication_data c method now d k b).0
                (set_authentication_data c method now d k b).1).0
              ≡ d)
            × ((authentication_data c (set_authentication_data c method now d k b).0 (
                  consider_authentication_data_flush
                    (set_authentication_data c method now d k b).1)).0
                ≡ d)
      by_storage keychain h = rw h (or_read-saved d k b.uuid, read-saved d k b.uuid)
      by_storage memory h = rw h (refl, refl)

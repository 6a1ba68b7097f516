-- ===== src/Examples/Locks.antt =====
-- Two requests for one resource, and a third one for another.
use ios_sdk_develop.Prelude.{◌≡◌, refl, none, some, true, List, [], ◌∷◌, codes, All}
use ios_sdk_develop.LockManager.{
  Lock, Request, LockDatabase, Fulfillment, Manager, acquired, refused, new_request,
  new_try_request, fulfill_requests, update_locks, modify_database, is_to_purge, lock_is_valid,
  new_lock, keep_alive, invalidate,
}
use ios_sdk_develop.LockManager.Exclusive.{IsHolder, Keeps, fulfill_requests_exclusive}

abbrev lock_a : Lock
lock_a = record { identifier = 1; resource_identifier = codes "a"; expiration_date = some 140 }

abbrev lock_b : Lock
lock_b = record { identifier = 7; resource_identifier = codes "b"; expiration_date = some 120 }

abbrev lock_requests : List Request
lock_requests =
    new_request (codes "a") 10
    ∷ (new_request (codes "a") 11 ∷ (new_try_request (codes "b") 12 ∷ []))

abbrev lock_database : LockDatabase
lock_database = (codes "b", lock_b) ∷ []

abbrev nothing_done : Fulfillment
nothing_done = record {
  database = lock_database;
  processed = [];
  waiting = [];
  next_expiration_date = none;
  did_modify = true;
  made = 1;
}

fulfill_requests_exclusive_example :
    Keeps lock_database (fulfill_requests 100 lock_requests nothing_done).database
    × All
        (IsHolder (fulfill_requests 100 lock_requests nothing_done).database)
        (fulfill_requests 100 lock_requests nothing_done).processed
unfolding new_request new_try_request
fulfill_requests_exclusive_example =
    fulfill_requests_exclusive 100 lock_requests nothing_done (refl, (refl, (refl, tt))) refl

abbrev lock_manager : Manager
lock_manager = record {
  requests = lock_requests;
  locks = [];
  lock_identifiers = [];
  released_lock_identifiers = [];
}

-- The first request for the resource gets its lock, the second waits, and the one for the held resource is
-- refused.
update_locks_notices :
    (update_locks 100 1 (some lock_database) lock_manager).notices
    ≡ acquired 10 lock_a ∷ (refused 12 ∷ [])
unfolding update_locks modify_database fulfill_requests is_to_purge lock_is_valid new_lock
    keep_alive new_request new_try_request invalidate
update_locks_notices = refl

-- A lock that has expired is purged, and the requests for its resource are fulfilled.
update_locks_expired :
    (update_locks 130 1 (some lock_database) lock_manager).manager.lock_identifiers ≡ 1 ∷ (2 ∷ [])
unfolding update_locks modify_database fulfill_requests is_to_purge lock_is_valid new_lock
    keep_alive new_request new_try_request invalidate
update_locks_expired = refl

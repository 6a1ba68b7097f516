-- ===== src/LockManager.antt =====
-- ownCloudSDK/Lock Manager: locks on resources that processes share through a key-value store. Times count
-- tenths of a second, identifiers that are made are counted, and a dictionary is gone through in the order
-- of its list. The timers of the manager are not modelled.
pub mod Exclusive
use ios_sdk_develop.Prelude.{
  ℕ, suc, ◌+◌, Bool, true, false, not, ◌&&◌, ◌||◌, Option, none, some, List, [], ◌∷◌, ◌++◌, ltb,
  ◌==◌, contains, any, keep, map, if◌then◌else◌, Text, text_eq, lookup, with_key,
}

abbrev pub expiration_interval : ℕ
expiration_interval = 40

-- `OCLock`, without its manager and the handler of its expiration.
pub record Lock : Type 0 where
  pub identifier : ℕ
  pub resource_identifier : Text
  pub expiration_date : Option ℕ

abbrev pub is_after : Option ℕ → ℕ → Bool
is_after none now = false
is_after (some date) now = ltb now date

unfoldable pub lock_is_valid : ℕ → Lock → Bool
lock_is_valid now l = is_after l.expiration_date now

-- `keepAlive:`: the lock, and whether it changed; 32 is 0.8 times the interval.
unfoldable pub keep_alive : ℕ → Bool → Lock → Lock × Bool
keep_alive now force l =
    if force || not (is_after l.expiration_date (now + 31))
    then (record l { expiration_date = some (now + expiration_interval) }, true)
    else (l, false)

unfoldable pub new_lock : ℕ → ℕ → Text → Lock
unfolding keep_alive
new_lock now identifier resource =
    let made : Lock = record {
      identifier = identifier;
      resource_identifier = resource;
      expiration_date = none;
    } in
    (keep_alive now true made).0

-- `OCLockRequest`; the handler that says whether the lock is still needed is its answer, and the handler
-- of the result an address.
pub record Request : Type 0 where
  pub resource_identifier : Text
  pub lock_needed_handler : Option Bool
  pub acquired_handler : Option ℕ
  pub lock : Option Lock
  pub return_after_first_attempt : Bool
  pub invalidated : Bool

unfoldable pub new_request : Text → ℕ → Request
new_request resource handler = record {
  resource_identifier = resource;
  lock_needed_handler = none;
  acquired_handler = some handler;
  lock = none;
  return_after_first_attempt = false;
  invalidated = false;
}

unfoldable pub new_try_request : Text → ℕ → Request
unfolding new_request
new_try_request resource handler = record (new_request resource handler) {
  return_after_first_attempt = true;
}

unfoldable pub invalidate : Request → Request
invalidate q = record q { invalidated = true }

-- `OCLockDatabase`.
abbrev pub LockDatabase : Type 0
LockDatabase = List (Text × Lock)

pub record Manager : Type 0 where
  pub requests : List Request
  pub locks : List Lock
  pub lock_identifiers : List ℕ
  pub released_lock_identifiers : List ℕ

abbrev pub has_identifier : ℕ → Lock → Bool
has_identifier n l = l.identifier == n

abbrev pub except : ℕ → List ℕ → List ℕ
except n = keep (λ m. not (m == n))

unfoldable pub request_lock : Request → Manager → Manager
request_lock q m = record m { requests = m.requests ++ (q ∷ []) }

-- `releaseLock:`; a lock is known by its identifier.
unfoldable pub release_lock : Lock → Manager → Manager
release_lock l m =
    if any (has_identifier l.identifier) m.locks
    then record m {
      released_lock_identifiers = m.released_lock_identifiers ++ (l.identifier ∷ []);
      lock_identifiers = except l.identifier m.lock_identifiers;
      locks = keep (λ k. not (has_identifier l.identifier k)) m.locks;
    }
    else m

-- What the look at the locks of the database has found so far.
pub record Purge : Type 0 where
  pub invalidated_lock_identifiers : List ℕ
  pub invalidated_resource_identifiers : List Text
  pub did_modify : Bool
  pub seen : LockDatabase

unfoldable pub is_to_purge : ℕ → List ℕ → List ℕ → Lock → Bool
unfolding lock_is_valid
is_to_purge now ours released l =
    (not (lock_is_valid now l) && not (contains l.identifier ours))
    || contains l.identifier released

abbrev pub purge_lock : ℕ → List ℕ → List ℕ → Text → Lock → Purge → Purge
purge_lock now ours released key l p =
    if is_to_purge now ours released l
    then record p {
      invalidated_lock_identifiers = p.invalidated_lock_identifiers ++ (l.identifier ∷ []);
      invalidated_resource_identifiers =
          p.invalidated_resource_identifiers ++ (l.resource_identifier ∷ []);
      seen = p.seen ++ ((key, l) ∷ []);
    }
    else if contains l.identifier p.invalidated_lock_identifiers
    then record p {
      invalidated_lock_identifiers = except l.identifier p.invalidated_lock_identifiers;
      did_modify = p.did_modify || (keep_alive now p.did_modify l).1;
      seen = p.seen ++ ((key, (keep_alive now p.did_modify l).0) ∷ []);
    }
    else record p { seen = p.seen ++ ((key, l) ∷ []) }

abbrev pub purge_locks : ℕ → List ℕ → List ℕ → LockDatabase → Purge → Purge
purge_locks now ours released [] p = p
purge_locks now ours released (e ∷ es) p =
    purge_locks now ours released es (purge_lock now ours released e.0 e.1 p)

abbrev pub without_resources : List Text → LockDatabase → LockDatabase
without_resources resources = keep (λ e. not (any (text_eq e.0) resources))

-- What the requests have led to so far.
pub record Fulfillment : Type 0 where
  pub database : LockDatabase
  pub processed : List Request
  pub waiting : List Request
  pub next_expiration_date : Option ℕ
  pub did_modify : Bool
  pub made : ℕ

abbrev pub is_refused : Option Bool → Bool
is_refused none = false
is_refused (some needed) = not needed

abbrev pub earlier_date : Option ℕ → Option ℕ → Option ℕ
earlier_date none date = date
earlier_date (some first) none = if ltb 0 first then none else some first
earlier_date (some first) (some date) = if ltb date first then some date else some first

-- A request for a resource without a lock.
abbrev pub acquire : ℕ → Request → Fulfillment → Fulfillment
acquire now q f =
    if q.invalidated || is_refused q.lock_needed_handler
    then record f { processed = f.processed ++ (q ∷ []) }
    else let l = new_lock now f.made q.resource_identifier in
      record f {
        database = with_key text_eq q.resource_identifier l f.database;
        processed = f.processed ++ (record q { lock = some l } ∷ []);
        did_modify = true;
        made = suc f.made;
      }

-- A request for a resource that has one.
abbrev pub attempt : Request → Lock → Fulfillment → Fulfillment
attempt q l f =
    let next = earlier_date f.next_expiration_date l.expiration_date in
    if q.return_after_first_attempt
    then record f { processed = f.processed ++ (invalidate q ∷ []); next_expiration_date = next }
    else record f { waiting = f.waiting ++ (q ∷ []); next_expiration_date = next }

abbrev pub fulfill_by : Option Lock → ℕ → Request → Fulfillment → Fulfillment
fulfill_by none now q f = acquire now q f
fulfill_by (some l) now q f = attempt q l f

unfoldable pub fulfill_requests : ℕ → List Request → Fulfillment → Fulfillment
fulfill_requests now [] f = f
fulfill_requests now (q ∷ qs) f =
    fulfill_requests now qs (fulfill_by (lookup text_eq q.resource_identifier f.database) now q f)

-- Who hears of an update: a handler that has its lock, a handler whose request was invalidated, and the
-- handler of the expiration of a lock.
pub data Notice : Type 0 where
  acquired : ℕ → Lock → Notice
  refused : ℕ → Notice
  expired : Lock → Notice

abbrev pub lock_of : Option Lock → List Lock
lock_of none = []
lock_of (some l) = l ∷ []

abbrev pub notice_to : ℕ → Option Lock → Bool → List Notice
notice_to handler (some l) gave_up = acquired handler l ∷ []
notice_to handler none true = refused handler ∷ []
notice_to handler none false = []

abbrev pub notice_of : Option ℕ → Option Lock → Bool → List Notice
notice_of none l gave_up = []
notice_of (some handler) l gave_up = notice_to handler l gave_up

abbrev pub granted_locks : List Request → List Lock
granted_locks [] = []
granted_locks (q ∷ qs) = lock_of q.lock ++ granted_locks qs

abbrev pub request_notices : List Request → List Notice
request_notices [] = []
request_notices (q ∷ qs) = notice_of q.acquired_handler q.lock q.invalidated ++ request_notices qs

abbrev pub some_removed : List Text → Bool
some_removed [] = false
some_removed (r ∷ rs) = true

abbrev pub no_database : Option LockDatabase → Bool
no_database none = true
no_database (some db) = false

abbrev pub stored_locks : Option LockDatabase → LockDatabase
stored_locks none = []
stored_locks (some db) = db

-- The block that changes the database: what it found, and what the requests led to.
unfoldable pub modify_database : ℕ → ℕ → Option LockDatabase → Manager → Purge × Fulfillment
unfolding fulfill_requests
modify_database now made stored m =
    let p =
      purge_locks now m.lock_identifiers m.released_lock_identifiers (stored_locks stored) (record {
        invalidated_lock_identifiers = m.lock_identifiers;
        invalidated_resource_identifiers = [];
        did_modify = no_database stored;
        seen = [];
      }) in
    (
      p,
      fulfill_requests now m.requests (record {
        database = without_resources p.invalidated_resource_identifiers p.seen;
        processed = [];
        waiting = [];
        next_expiration_date = none;
        did_modify = p.did_modify || some_removed p.invalidated_resource_identifiers;
        made = made;
      }),
    )

abbrev pub is_lock_in : List ℕ → Lock → Bool
is_lock_in identifiers l = contains l.identifier identifiers

abbrev pub forget : List Lock → Manager → Manager
forget gone m = record m {
  locks = keep (λ l. not (any (has_identifier l.identifier) gone)) m.locks;
  lock_identifiers = keep (λ n. not (any (has_identifier n) gone)) m.lock_identifiers;
}

-- `_updateLocks`: the manager, the database, and the handlers that are called, in order.
pub record Update : Type 0 where
  pub manager : Manager
  pub database : LockDatabase
  pub notices : List Notice

unfoldable pub update_locks : ℕ → ℕ → Option LockDatabase → Manager → Update
unfolding modify_database
update_locks now made stored m =
    let c = modify_database now made stored m in
    let granted = granted_locks c.1.processed in
    let m' : Manager = record {
      requests = c.1.waiting;
      locks = m.locks ++ granted;
      lock_identifiers = m.lock_identifiers ++ map (λ l. l.identifier) granted;
      released_lock_identifiers = [];
    } in
    let gone = keep (is_lock_in c.0.invalidated_lock_identifiers) m'.locks in
    record {
      manager = forget gone m';
      database = c.1.database;
      notices = request_notices c.1.processed ++ map expired gone;
    }

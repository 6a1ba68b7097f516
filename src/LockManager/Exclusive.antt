-- ===== src/LockManager/Exclusive.antt =====
-- A resource has one lock.
use ios_sdk_develop.Prelude.{
  ℕ, ◌≢◌, ◌≡◌, refl, ap, sym, ◌∙◌, Bool, true, false, ◌||◌, Option, none, some, List, [], ◌∷◌, ◌++◌,
  if◌then◌else◌, Bool-cases, inl, inr, Text, text_eq, text_eq_refl, text_eq→eq, lookup, with_key,
  lookup-set_key, All, All-snoc, All-map,
}
use mathlib.Core.Path.{subst}
use ios_sdk_develop.LockManager.{
  Lock, Request, LockDatabase, Fulfillment, new_lock, acquire, attempt, is_refused, fulfill_by,
  fulfill_requests, invalidate, earlier_date,
}

abbrev pub HeldBy : Option Lock → Text → LockDatabase → Type 0
HeldBy none resource db = Unit
HeldBy (some l) resource db = lookup text_eq resource db ≡ some l

-- The lock of a request, where it has one, is the lock of its resource.
abbrev pub IsHolder : LockDatabase → Request → Type 0
IsHolder db q = HeldBy q.lock q.resource_identifier db

-- The locks of the one database are locks of the other.
abbrev pub Keeps : LockDatabase → LockDatabase → Type 0
Keeps before after =
    (r : Text) (l : Lock) → lookup text_eq r before ≡ some l → lookup text_eq r after ≡ some l

held-Keeps :
    (o : Option Lock) (r : Text) (before after : LockDatabase)
    → Keeps before after
    → HeldBy o r before
    → HeldBy o r after
held-Keeps none r before after k h = tt
held-Keeps (some l) r before after k h = k r l h

with_key-Keeps :
    (r : Text) (l : Lock) (db : LockDatabase)
    → lookup text_eq r db ≡ none
    → Keeps db (with_key text_eq r l db)
with_key-Keeps r l db free s k h = elim (Bool-cases (text_eq r s)) [
  | inl e ↦ absurd (no_lock (sym free ∙ (ap (λ t. lookup text_eq t db) (text_eq→eq r s e) ∙ h)))
  | inr e ↦
      lookup-set_key text_eq text_eq→eq text_eq_refl r s (some l) db
      ∙ (ap (λ b. if b then some l else lookup text_eq s db) e ∙ h)
]
  where
    no_lock : none ≢ some k
    no_lock p = cc

with_key-holds :
    (r : Text) (l : Lock) (db : LockDatabase) → lookup text_eq r (with_key text_eq r l db) ≡ some l
with_key-holds r l db =
    lookup-set_key text_eq text_eq→eq text_eq_refl r r (some l) db
    ∙ ap (λ b. if b then some l else lookup text_eq r db) (text_eq_refl r)

-- The invariant of the requests that were processed.
abbrev Inv : LockDatabase → Fulfillment → Type 0
Inv before f = Keeps before f.database × All (IsHolder f.database) f.processed

unlocked-IsHolder : (q : Request) (db : LockDatabase) → q.lock ≡ none → IsHolder db q
unlocked-IsHolder q db h = subst (λ o. HeldBy o q.resource_identifier db) (sym h) tt

acquire-Inv :
    (now : ℕ) (q : Request) (before : LockDatabase) (f : Fulfillment)
    → lookup text_eq q.resource_identifier f.database ≡ none
    → q.lock ≡ none
    → Inv before f
    → Inv before (acquire now q f)
acquire-Inv now q before f free unlocked h =
    elim (Bool-cases (q.invalidated || is_refused q.lock_needed_handler)) [
      | inl e ↦ rw e (
        h.0,
        All-snoc (IsHolder f.database) f.processed q h.1 (unlocked-IsHolder q f.database unlocked),
      )
      | inr e ↦ rw e (
        (λ r l p. keeps r l (h.0 r l p)),
        All-snoc (IsHolder after) f.processed (record q { lock = some made })
            (All-map f.processed
              (λ p. held-Keeps p.lock p.resource_identifier f.database after keeps) h.1)
            (with_key-holds q.resource_identifier made f.database),
      )
    ]
  where
    made : Lock
    made = new_lock now f.made q.resource_identifier

    after : LockDatabase
    after = with_key text_eq q.resource_identifier made f.database

    keeps : Keeps f.database after
    keeps = with_key-Keeps q.resource_identifier made f.database free

attempt-Inv :
    (q : Request) (l : Lock) (before : LockDatabase) (f : Fulfillment)
    → q.lock ≡ none
    → Inv before f
    → Inv before (attempt q l f)
unfolding invalidate
attempt-Inv q l before f unlocked h = by_attempt q.return_after_first_attempt (
  h.0,
  All-snoc (IsHolder f.database) f.processed (invalidate q) h.1
      (unlocked-IsHolder q f.database unlocked),
)
  where
    next : Option ℕ
    next = earlier_date f.next_expiration_date l.expiration_date

    gives_up : Fulfillment
    gives_up = record f {
      processed = f.processed ++ (invalidate q ∷ []);
      next_expiration_date = next;
    }

    waits : Fulfillment
    waits = record f { waiting = f.waiting ++ (q ∷ []); next_expiration_date = next }

    by_attempt : (b : Bool) → Inv before gives_up → Inv before (if b then gives_up else waits)
    by_attempt true k = k
    by_attempt false k = h

fulfill_by-Inv :
    (o : Option Lock) (now : ℕ) (q : Request) (before : LockDatabase) (f : Fulfillment)
    → lookup text_eq q.resource_identifier f.database ≡ o
    → q.lock ≡ none
    → Inv before f
    → Inv before (fulfill_by o now q f)
fulfill_by-Inv none now q before f e unlocked h = acquire-Inv now q before f e unlocked h
fulfill_by-Inv (some l) now q before f e unlocked h = attempt-Inv q l before f unlocked h

fulfill_requests-Inv :
    (now : ℕ) (qs : List Request) (before : LockDatabase) (f : Fulfillment)
    → All (λ q. q.lock ≡ none) qs
    → Inv before f
    → Inv before (fulfill_requests now qs f)
unfolding fulfill_requests
fulfill_requests-Inv now [] before f unlocked h = h
fulfill_requests-Inv now (q ∷ qs) before f unlocked h =
    let o = lookup text_eq q.resource_identifier f.database in
    fulfill_requests-Inv now qs before (fulfill_by o now q f) unlocked.1
      (fulfill_by-Inv o now q before f refl unlocked.0 h)

-- Requests that have no lock yet are gone through: every lock of the database stays the lock of its
-- resource, and every request that is processed and has a lock then has the one that the database holds
-- for its resource.
pub fulfill_requests_exclusive :
    (now : ℕ) (qs : List Request) (f : Fulfillment)
    → All (λ q. q.lock ≡ none) qs
    → f.processed ≡ []
    → Keeps f.database (fulfill_requests now qs f).database
      × All (IsHolder (fulfill_requests now qs f).database) (fulfill_requests now qs f).processed
fulfill_requests_exclusive now qs f unlocked e =
    fulfill_requests-Inv now qs f.database f unlocked
      ((λ r l h. h), subst (All (IsHolder f.database)) (sym e) tt)

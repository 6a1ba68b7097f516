-- ===== src/Activity/Coalesced.antt =====
-- An activity that is gone before anyone heard of it.
use ios_sdk_develop.Prelude.{
  ℕ, ◌≡◌, refl, ap, sym, ◌∙◌, Bool, true, false, not, none, some, List, [], ◌∷◌, ◌++◌, ==_refl, any,
  keep, if◌then◌else◌, Bool-cases, inl, inr, Text, text_eq, text_eq_refl, text_eq→eq, lookup,
  with_key, without_key, lookup-set_key, All, arith,
}
use mathlib.Core.Path.{subst}
use ios_sdk_develop.Activity.{
  Activity, UpdateType, publish, unpublish, publish_as, unpublish_at, activity_at, ActivityManager,
  is_at, is_about, publishes, sort_by_ranking, publishing_activity,
  unpublish_activity_for_identifier, update, activity_for_identifier,
}

All-kept {ℓ} : {A : Type ℓ} (p : A → Bool) (xs : List A) → All (λ x. p x ≡ true) (keep p xs)
All-kept p [] = tt
All-kept p (x ∷ xs) = elim (Bool-cases (p x)) [
  | inl e ↦ rw e (e, All-kept p xs)
  | inr e ↦ rw e (All-kept p xs)
]

-- The update that publishes is found.
any-publishes :
    (address : ℕ) (qs : List (UpdateType × ℕ))
    → any (publishes address) (qs ++ ((publish, address) ∷ [])) ≡ true
any-publishes address [] = rw (==_refl address) refl
any-publishes address (q ∷ qs) = rw (any-publishes address qs) (ground arith)

-- The others are what was there before, when nothing was about the activity.
keep-others :
    (address : ℕ) (qs : List (UpdateType × ℕ))
    → any (is_about address) qs ≡ false
    → keep (λ q. not (is_about address q)) (qs ++ ((publish, address) ∷ [])) ≡ qs
keep-others address [] h = rw (==_refl address) refl
keep-others address (q ∷ qs) h = elim (Bool-cases (is_about address q)) [
  | inl e ↦ absurd (ground arith)
  | inr e ↦ rw e (ap (λ l. q ∷ l) (keep-others address qs (ground arith)))
]

-- The manager after an activity was published under an identifier, and after it was unpublished.
abbrev pub published_and_gone : Activity → Text → ActivityManager → ActivityManager
unfolding update publishing_activity unpublish_activity_for_identifier
published_and_gone a identifier m =
    update (unpublish_activity_for_identifier (some identifier))
      (update (publishing_activity (some a)) m)

-- The manager that has the activity at the address unpublished.
abbrev gone : Activity → Text → ActivityManager → ActivityManager
gone a identifier m =
    unpublish_at (some identifier) (some a.address) (publish_as (some identifier) a m)

published_and_gone_lem :
    (a : Activity) (identifier : Text) (m : ActivityManager)
    → a.identifier ≡ some identifier
    → published_and_gone a identifier m ≡ gone a identifier m
unfolding update publishing_activity unpublish_activity_for_identifier
published_and_gone_lem a identifier m h =
    ap
      (λ o.
        unpublish_at (some identifier) (activity_at (some identifier) (publish_as o a m))
          (publish_as o a m))
      h
    ∙ ap
        (λ b.
          unpublish_at (some identifier)
            (if b
              then some a.address
              else lookup text_eq identifier
                  (without_key text_eq identifier m.activity_by_identifier))
            (publish_as (some identifier) a m))
        (text_eq_refl identifier)

lookup-gone :
    (identifier l : Text) (address : ℕ) (ps : List (Text × ℕ))
    → lookup text_eq identifier ps ≡ none
    → lookup text_eq l (without_key text_eq identifier (with_key text_eq identifier address ps))
      ≡ lookup text_eq l ps
lookup-gone identifier l address ps free = elim (Bool-cases (text_eq identifier l)) [
  | inl e ↦
      removed
      ∙ (ap (λ b. if b then none else lookup text_eq l set) e
          ∙ sym (ap (λ t. lookup text_eq t ps) (sym (text_eq→eq identifier l e)) ∙ free))
  | inr e ↦
      removed
      ∙ (ap (λ b. if b then none else lookup text_eq l set) e
          ∙ (lookup-set_key text_eq text_eq→eq text_eq_refl identifier l (some address) ps
              ∙ ap (λ b. if b then some address else lookup text_eq l ps) e))
]
  where
    set : List (Text × ℕ)
    set = with_key text_eq identifier address ps

    removed :
        lookup text_eq l (without_key text_eq identifier set)
        ≡ (if text_eq identifier l then none else lookup text_eq l set)
    removed = lookup-set_key text_eq text_eq→eq text_eq_refl identifier l none set

-- An activity that is published under an identifier that is free, and unpublished before a notification was
-- sent, leaves no update in the queue and no activity with its address in the list, and each identifier
-- has the activity that it had.
pub update-unpublish_published :
    (a : Activity) (identifier : Text) (m : ActivityManager)
    → a.identifier ≡ some identifier
    → any (is_about a.address) m.queued_activity_updates ≡ false
    → activity_for_identifier identifier m ≡ none
    → ((published_and_gone a identifier m).queued_activity_updates ≡ m.queued_activity_updates)
      × All (λ x. not (is_at a.address x) ≡ true) (published_and_gone a identifier m).activities
      × ((l : Text)
          → activity_for_identifier l (published_and_gone a identifier m)
            ≡ activity_for_identifier l m)
unfolding activity_for_identifier
update-unpublish_published a identifier m h unheard free =
    subst
      (λ n.
        (n.queued_activity_updates ≡ m.queued_activity_updates)
        × All (λ x. not (is_at a.address x) ≡ true) n.activities
        × ((l : Text)
            → lookup text_eq l n.activity_by_identifier
              ≡ lookup text_eq l m.activity_by_identifier))
      (sym (published_and_gone_lem a identifier m h))
      (
        ap (λ b. if b then others else others ++ ((unpublish, a.address) ∷ []))
              (any-publishes a.address m.queued_activity_updates)
            ∙ keep-others a.address m.queued_activity_updates unheard,
        All-kept (λ x. not (is_at a.address x)) (sort_by_ranking (m.activities ++ (a ∷ []))),
        λ l. lookup-gone identifier l a.address m.activity_by_identifier free,
      )
  where
    others : List (UpdateType × ℕ)
    others =
        keep (λ q. not (is_about a.address q))
          (m.queued_activity_updates ++ ((publish, a.address) ∷ []))

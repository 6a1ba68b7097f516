-- ===== src/User/Remote.antt =====
-- How the name of a remote user splits.
use ios_sdk_develop.Prelude.{
  ℕ, zero, suc, ◌<◌, ◌≤◌, ◌≡◌, refl, ap, ◌∙◌, sym, Bool, true, false, Option, none, some, [], ◌∷◌,
  ◌++◌, ◌==◌, length, take, Text, Lacks, arith, ==_iff,
}
use ios_sdk_develop.User.{
  User, last_index, inner, at_remote_range, is_remote, remote_user_name, remote_host,
  substring_from, is_found, forced_local, last_step,
}

last_step-none : (c x : ℕ) (o : Option ℕ) → last_step c x o ≡ none → ((x == c) ≡ false) × (o ≡ none)
last_step-none c x none h = ground arith
last_step-none c x (some i) h = cc

last_index-none : (c : ℕ) (s : Text) → last_index c s ≡ none → Lacks c s
unfolding last_index
last_index-none c [] h = tt
last_index-none c (x ∷ s) h =
    let step = last_step-none c x (last_index c s) h in (step.0, last_index-none c s step.1)

IsParted : ℕ → Text → ℕ → Type 0
IsParted c s i =
    (take i s ++ (c ∷ substring_from (suc i) s) ≡ s)
    × Lacks c (substring_from (suc i) s)
    × (i < length s)

last_step-IsParted :
    (c x : ℕ) (s : Text) (o : Option ℕ) (i : ℕ)
    → ((j : ℕ) → o ≡ some j → IsParted c s j)
    → (o ≡ none → Lacks c s)
    → last_step c x o ≡ some i
    → IsParted c (x ∷ s) i
unfolding IsParted
last_step-IsParted c x s none zero found absent h =
    (ap (λ y. y ∷ s) (sym ((==_iff x c).0 (ground arith))), absent refl, omega arith)
last_step-IsParted c x s none (suc i) found absent h = ground arith
last_step-IsParted c x s (some j) zero found absent h = ground arith
last_step-IsParted c x s (some j) (suc i) found absent h =
    let (joined, rest, bound) = found i (ground arith) in
    (ap (λ t. x ∷ t) joined, rest, omega (arith, bound))

-- Where the character is found, the text splits around it, and the rest does not hold it.
last_index-IsParted : (c : ℕ) (s : Text) (i : ℕ) → last_index c s ≡ some i → IsParted c s i
unfolding last_index
last_index-IsParted c [] i h = cc
last_index-IsParted c (x ∷ s) i h =
    last_step-IsParted c x s (last_index c s) i (last_index-IsParted c s) (last_index-none c s) h

inner-some :
    (n : ℕ) (forced : Option Bool) (o : Option ℕ) (i : ℕ)
    → inner n forced o ≡ some i
    → (o ≡ some i) × ((i == 0) ≡ false) × ((suc i == n) ≡ false) × (forced_local forced ≡ false)
inner-some n forced none i h = cc
inner-some n forced (some j) i h = ground arith

at_remote_range-known :
    (u : User) (name : Text)
    → u.user_name ≡ some name
    → at_remote_range u ≡ inner (length name) u.force_is_remote (last_index b'@' name)
unfolding at_remote_range
at_remote_range-known u name known = rw known refl

found : (o : Option ℕ) → is_found o ≡ true → (i : ℕ) × (o ≡ some i)
found none h = cc
found (some i) h = (i, refl)

length-take :
    (i : ℕ) (s : Text) → (i == 0) ≡ false → i < length s → (length (take i s) == 0) ≡ false
length-take zero s h k = h
length-take (suc i) [] h k = absurd (omega arith)
length-take (suc i) (x ∷ s) h k = ground arith

length-substring_from :
    (i : ℕ) (s : Text)
    → (i == length s) ≡ false
    → i ≤ length s
    → (length (substring_from i s) == 0) ≡ false
length-substring_from zero [] h k = h
length-substring_from zero (x ∷ s) h k = ground arith
length-substring_from (suc i) [] h k = absurd (omega arith)
length-substring_from (suc i) (x ∷ s) h k = length-substring_from i s (ground arith) (omega arith)

-- The parts before and after the last at sign, both not empty, and nothing that says that the user is
-- local.
unfoldable pub IsSplit : User → Text → Type 0
IsSplit u name =
    (user : Text) × (host : Text) × (remote_user_name u ≡ some user)
    × (remote_host u ≡ some host)
    × (name ≡ user ++ (b'@' ∷ host))
    × Lacks b'@' host
    × ((length user == 0) ≡ false)
    × ((length host == 0) ≡ false)
    × (forced_local u.force_is_remote ≡ false)

splits_at :
    (u : User) (name : Text) (i : ℕ)
    → u.user_name ≡ some name
    → at_remote_range u ≡ some i
    → IsSplit u name
unfolding remote_user_name remote_host last_index IsParted IsSplit
splits_at u name i known at =
    let (last, start, end, forced) =
      inner-some (length name) u.force_is_remote (last_index b'@' name) i
        (sym (at_remote_range-known u name known) ∙ at) in
    let (joined, lacks, bound) = last_index-IsParted b'@' name i last in
    (
      take i name,
      substring_from (suc i) name,
      rw (at, known) refl,
      rw (at, known) refl,
      sym joined,
      lacks,
      length-take i name start bound,
      length-substring_from (suc i) name end (omega (arith, bound)),
      forced,
    )

-- A user with a name is remote only if the name is the remote user name, an at sign and the remote
-- host, the host has no at sign, neither is empty, and nothing says that the user is local.
pub is_remote-splits :
    (u : User) (name : Text) → u.user_name ≡ some name → is_remote u ≡ true → IsSplit u name
unfolding is_remote
is_remote-splits u name known remote =
    let (i, at) = found (at_remote_range u) remote in splits_at u name i known at

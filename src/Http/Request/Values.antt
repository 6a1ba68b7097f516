-- ===== src/Http/Request/Values.antt =====
-- Parameters, header fields and policies of a request.
use ios_sdk_develop.Prelude.{
  ℕ, ◌≡◌, refl, ap, ◌∙◌, Bool, not, Option, none, some, List, [], ◌∷◌, ◌==◌, ==_iff, ==_refl, Text,
  text_eq, text_eq_refl, text_eq→eq, lookup, lookup-set_key, if◌then◌else◌, Bool-cases, inl, inr,
  keep, arith,
}
use ios_sdk_develop.Http.Names.{field_name, x_request_id, original_request_id}
use ios_sdk_develop.Http.Request.{
  Request, StatusPolicy, default_policy, value_for_parameter, set_value_for_parameter,
  set_value_array, belongs_to, value_for_header_field, set_value_for_header_field,
  policy_for_status, set_policy_for_status, with_policy, or_default, recreate_request_id, renamed,
  replaced,
}

-- A parameter or a header field that is set, or removed by nil, reads as it was set; every other one
-- reads as before, and the two kinds do not disturb each other.
pub value_for_parameter-set :
    (v : Option Text) (k l : Text) (r : Request)
    → (value_for_parameter l (set_value_for_parameter v k r)
        ≡ (if text_eq k l then v else value_for_parameter l r))
      × (value_for_header_field l (set_value_for_header_field v k r)
          ≡ (if text_eq k l then v else value_for_header_field l r))
      × (value_for_header_field l (set_value_for_parameter v k r) ≡ value_for_header_field l r)
unfolding value_for_parameter set_value_for_parameter value_for_header_field
    set_value_for_header_field
value_for_parameter-set v k l r = (
  lookup-set_key text_eq text_eq→eq text_eq_refl k l v r.parameters,
  lookup-set_key text_eq text_eq→eq text_eq_refl k l v r.header_fields,
  refl,
)

lookup-keep :
    (p : Text → Bool) (l : Text) (ps : List (Text × Text))
    → lookup text_eq l (keep (λ e. not (p e.0)) ps) ≡ (if p l then none else lookup text_eq l ps)
lookup-keep p l [] = ground arith
lookup-keep p l (e ∷ es) =
    let rest = lookup-keep p l es in
    elim (Bool-cases (text_eq e.0 l)) [
      | inl same ↦
          let h : p e.0 ≡ p l = ap p (text_eq→eq e.0 l same) in
          elim (Bool-cases (p l)) [
            | inl q ↦ rw (h, q) (rest ∙ rw q refl)
            | inr q ↦ rw (h, q) (rw same refl)
          ]
      | inr other ↦ elim (Bool-cases (p e.0)) [
        | inl q ↦ rw (q, other) rest
        | inr q ↦ rw q (rw other rest)
      ]
    ]

-- Setting an empty array removes the parameter and all entries of its array, and no other parameter.
pub set_value_array-empty :
    (digits : ℕ → Text) (p l : Text) (r : Request)
    → value_for_parameter l (set_value_array digits [] p r)
      ≡ (if belongs_to p l then none else value_for_parameter l r)
unfolding value_for_parameter set_value_array
set_value_array-empty digits p l r = lookup-keep (belongs_to p) l r.parameters

stored_policy : ℕ → Option (List (ℕ × StatusPolicy)) → StatusPolicy
stored_policy code none = default_policy
stored_policy code (some ps) = or_default (lookup (λ a b. a == b) code ps)

policy-set :
    (p : StatusPolicy) (code other : ℕ) (ps : Option (List (ℕ × StatusPolicy)))
    → or_default (lookup (λ a b. a == b) other (with_policy p code ps))
      ≡ (if code == other then p else stored_policy other ps)
unfolding stored_policy
policy-set p code other none = ground arith
policy-set p code other (some ps) =
    ap or_default
      (lookup-set_key (λ a b. a == b) (λ a b. (==_iff a b).0) ==_refl code other (some p) ps)
    ∙ ground arith

-- The policy for a status reads as it was set last, and that for every other status as before.
pub policy_for_status-set :
    (p : StatusPolicy) (code other : ℕ) (r : Request)
    → policy_for_status other (set_policy_for_status p code r)
      ≡ (if code == other then p else policy_for_status other r)
unfolding policy_for_status set_policy_for_status stored_policy
policy_for_status-set p code other r = policy-set p code other r.status_policies

lookup-renamed :
    (new_id : Text) (o : Option Text) (fields : List (Text × Text))
    → lookup text_eq (field_name x_request_id) fields ≡ o
    → (lookup text_eq (field_name x_request_id) (renamed new_id o fields) ≡ replaced o new_id)
      × (lookup text_eq (field_name original_request_id) (renamed new_id o fields)
          ≡ lookup text_eq (field_name original_request_id) fields)
lookup-renamed new_id none fields h = (h, refl)
lookup-renamed new_id (some old) fields h = (
  lookup-set_key text_eq text_eq→eq text_eq_refl (field_name x_request_id) (field_name x_request_id)
      (some new_id) fields,
  lookup-set_key text_eq text_eq→eq text_eq_refl (field_name x_request_id)
      (field_name original_request_id) (some new_id) fields,
)

-- A request that gets a new identifier has it, also as its header field if it had that field; the field
-- with the original identifier stays.
pub recreate_request_id-fields :
    (new_id : Text) (r : Request)
    → ((recreate_request_id new_id r).identifier ≡ new_id)
      × (value_for_header_field (field_name x_request_id) (recreate_request_id new_id r)
          ≡ replaced (value_for_header_field (field_name x_request_id) r) new_id)
      × (value_for_header_field (field_name original_request_id) (recreate_request_id new_id r)
          ≡ value_for_header_field (field_name original_request_id) r)
unfolding recreate_request_id value_for_header_field set_value_for_header_field
recreate_request_id-fields new_id r =
    let fields =
      lookup-renamed new_id (value_for_header_field (field_name x_request_id) r) r.header_fields
        refl in
    (refl, fields.0, fields.1)

-- ===== src/Http/Request/Scheduling.antt =====
-- What is done to a request before it is scheduled, and before it is scheduled again.
use ios_sdk_develop.Prelude.{
  ◌≡◌, refl, Bool, true, false, ◌||◌, ◌&&◌, not, Option, none, some, List, [], ◌∷◌, Text, codes,
  text_eq, lookup, with_key, if◌then◌else◌,
}
use ios_sdk_develop.Http.Names.{post_method, put_method, method_name, field_name, content_type}
use ios_sdk_develop.Http.Request.{Request}

-- What Foundation makes of parameters: the body of a form, and a URL with them.
pub record Encoding : Type 0 where
  pub form : List (Text × Text) → Text
  pub appending_query_parameters : Option Text → List (Text × Text) → Option Text

abbrev pub or_url : Option Text → Option Text → Option Text
or_url none url = url
or_url (some effective) url = some effective

abbrev pub sends_form : Text → Bool
sends_form method =
    text_eq method (method_name post_method) || text_eq method (method_name put_method)

abbrev pub form_type : Text
form_type = codes "application/x-www-form-urlencoded"

abbrev pub or_form_type : Option Text → List (Text × Text) → List (Text × Text)
or_form_type none fields = with_key text_eq (field_name content_type) form_type fields
or_form_type (some there) fields = fields

abbrev pub has_parameters : List (Text × Text) → Bool
has_parameters [] = false
has_parameters (p ∷ ps) = true

-- Whether the parameters go into the body, or into the URL.
abbrev pub has_form : Request → Bool
has_form r = has_parameters r.parameters && sends_form r.method

abbrev pub has_query : Request → Bool
has_query r = has_parameters r.parameters && not (sends_form r.method)

abbrev pub prepared_body : Encoding → Bool → List (Text × Text) → Option Text → Option Text
prepared_body e true ps body = some (e.form ps)
prepared_body e false ps body = body

abbrev pub prepared_fields : Bool → List (Text × Text) → List (Text × Text)
prepared_fields true fields = or_form_type (lookup text_eq (field_name content_type) fields) fields
prepared_fields false fields = fields

abbrev pub prepared_url :
    Encoding → Bool → List (Text × Text) → Option Text → Option Text → Option Text
prepared_url e true ps url effective = or_url (e.appending_query_parameters url ps) url
prepared_url e false ps url effective = or_url effective url

unfoldable pub prepare_for_scheduling : Encoding → Request → Request
prepare_for_scheduling e r = record r {
  body_data = prepared_body e (has_form r) r.parameters r.body_data;
  header_fields = prepared_fields (has_form r) r.header_fields;
  effective_url = prepared_url e (has_query r) r.parameters r.url r.effective_url;
}

-- `scrubForRescheduling`; the file that was downloaded is removed besides.
unfoldable pub scrub_for_rescheduling : Request → Request
scrub_for_rescheduling r = record r {
  http_response = none;
  effective_url = none;
  downloaded_file_url = if r.downloaded_file_is_temporary then none else r.downloaded_file_url;
}

or_url_twice : (a b : Option Text) → or_url (or_url a b) b ≡ or_url a b
or_url_twice none none = refl
or_url_twice none (some b) = refl
or_url_twice (some a) b = refl

content_type-or_form_type :
    (o : Option Text) (fields : List (Text × Text))
    → lookup text_eq (field_name content_type) fields ≡ o
    → or_form_type
        (lookup text_eq (field_name content_type) (or_form_type o fields))
        (or_form_type o fields)
      ≡ or_form_type o fields
content_type-or_form_type none fields h = refl
content_type-or_form_type (some t) fields h = rw h refl

prepared_body_twice :
    (e : Encoding) (b : Bool) (ps : List (Text × Text)) (body : Option Text)
    → prepared_body e b ps (prepared_body e b ps body) ≡ prepared_body e b ps body
prepared_body_twice e true ps body = refl
prepared_body_twice e false ps body = refl

prepared_fields_twice :
    (b : Bool) (fields : List (Text × Text))
    → prepared_fields b (prepared_fields b fields) ≡ prepared_fields b fields
prepared_fields_twice true fields =
    content_type-or_form_type (lookup text_eq (field_name content_type) fields) fields refl
prepared_fields_twice false fields = refl

prepared_url_twice :
    (e : Encoding) (b : Bool) (ps : List (Text × Text)) (url effective : Option Text)
    → prepared_url e b ps url (prepared_url e b ps url effective)
      ≡ prepared_url e b ps url effective
prepared_url_twice e true ps url effective = refl
prepared_url_twice e false ps url effective = or_url_twice effective url

-- Preparing a request that was prepared makes no difference, and one that was scrubbed after it was
-- prepared gets the URL of one that never had an effective URL.
pub prepare_for_scheduling_twice :
    (e : Encoding) (r : Request)
    → (prepare_for_scheduling e (prepare_for_scheduling e r) ≡ prepare_for_scheduling e r)
      × ((prepare_for_scheduling e
            (scrub_for_rescheduling (prepare_for_scheduling e r))).effective_url
          ≡ (prepare_for_scheduling e (record r { effective_url = none })).effective_url)
unfolding prepare_for_scheduling scrub_for_rescheduling
prepare_for_scheduling_twice e r =
    let body = prepared_body_twice e (has_form r) r.parameters r.body_data in
    let fields = prepared_fields_twice (has_form r) r.header_fields in
    let url = prepared_url_twice e (has_query r) r.parameters r.url r.effective_url in
    (λ i. record r { body_data = body i; header_fields = fields i; effective_url = url i }, refl)

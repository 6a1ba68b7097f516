-- ===== src/Errors/Dated.antt =====
-- The date of an error.
use ios_sdk_develop.Prelude.{
  ℕ, ◌≡◌, refl, sym, ◌∙◌, false, Option, none, some, Text, text_eq, text_eq_refl, text_eq→eq,
  lookup, lookup-set_key, if◌then◌else◌,
}
use ios_sdk_develop.Errors.{
  NsError, error_date, error_date_key, with_error_date, embedded_issue, dated, dated_again,
}

abbrev pub or_date : Option ℕ → Option ℕ → Option ℕ
or_date none old = old
or_date (some date) old = some date

lookup-dated :
    (e : NsError) (date : ℕ) (k : Text)
    → lookup text_eq k (dated e date).user_info
      ≡ (if text_eq error_date_key k then some date else lookup text_eq k e.user_info)
lookup-dated e date k =
    lookup-set_key text_eq text_eq→eq text_eq_refl error_date_key k (some date) e.user_info

dated_again-keeps :
    (o : Option ℕ) (e : NsError) (k : Text)
    → error_date e ≡ o
    → text_eq error_date_key k ≡ false
    → (error_date (dated_again e o) ≡ error_date e)
      × ((dated_again e o).domain ≡ e.domain)
      × ((dated_again e o).code ≡ e.code)
      × (embedded_issue (dated_again e o) ≡ embedded_issue e)
      × (lookup text_eq k (dated_again e o).user_info ≡ lookup text_eq k e.user_info)
unfolding error_date embedded_issue
dated_again-keeps none e k h other = (refl, refl, refl, refl, refl)
dated_again-keeps (some date) e k h other = (
  lookup-dated e date error_date_key ∙ sym h,
  refl,
  refl,
  refl,
  lookup-dated e date k ∙ rw other refl,
)

-- An error that is given a date has this date, or the date that it had if it is given none. Its domain,
-- its code, its issue and everything else that it tells stay.
pub with_error_date-keeps :
    (d : Option ℕ) (e : NsError) (k : Text)
    → text_eq error_date_key k ≡ false
    → (error_date (with_error_date d e) ≡ or_date d (error_date e))
      × ((with_error_date d e).domain ≡ e.domain)
      × ((with_error_date d e).code ≡ e.code)
      × (embedded_issue (with_error_date d e) ≡ embedded_issue e)
      × (lookup text_eq k (with_error_date d e).user_info ≡ lookup text_eq k e.user_info)
unfolding error_date with_error_date embedded_issue
with_error_date-keeps none e k other = dated_again-keeps (error_date e) e k refl other
with_error_date-keeps (some date) e k other =
    (lookup-dated e date error_date_key, refl, refl, refl, lookup-dated e date k ∙ rw other refl)

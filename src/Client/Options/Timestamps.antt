-- ===== src/Client/Options/Timestamps.antt =====
-- Which timestamps are taken: the texts of calendar times.
use teslatlas_sdk_typescript.Prelude.{
  ℕ, ◌≡◌, ◌↔◌, refl, sym, ◌∙◌, ap, subst, true, Option, none, some, inl, inr, arith, Bool-cases,
}
use teslatlas_sdk_typescript.Js.Text.{Text, text_eq, text_eq_iff, text_eq_refl}
use teslatlas_sdk_typescript.Js.Json.{string}
use teslatlas_sdk_typescript.Js.Date.{
  DateTime, date_of, iso_text, to_iso_string, long_form, time_of, date_parse,
}
use teslatlas_sdk_typescript.Js.Date.Calendar.{IsCalendar}
use teslatlas_sdk_typescript.Js.Date.RoundTrip.{
  date_of-time_value, date_parse-iso_text, date_of-IsCalendar, long_form_year,
}
use teslatlas_sdk_typescript.Core.Errors.{ok}
use teslatlas_sdk_typescript.Client.Options.{prints_as, is_round_trip, normalize_timestamp}

-- The text of a calendar time.
pub IsCalendarText : Text → Type 0
IsCalendarText value = (t : DateTime) × IsCalendar t × (value ≡ iso_text t)

iso_text-is_round_trip : (t : DateTime) → IsCalendar t → is_round_trip (iso_text t) ≡ true
unfolding is_round_trip
iso_text-is_round_trip t c =
    ap (prints_as (iso_text t)) (date_parse-iso_text t c)
    ∙ (ap (λ u. text_eq (iso_text u) (iso_text t)) (date_of-time_value t c)
        ∙ text_eq_refl (iso_text t))

parsed_time : (o : Option DateTime) {ms : ℕ} → time_of o ≡ some ms → (u : DateTime) × (o ≡ some u)
parsed_time none h = ground (arith, h)
parsed_time (some u) h = (u, refl)

prints_as-IsCalendarText :
    (value : Text) (time : Option ℕ)
    → date_parse value ≡ time
    → prints_as value time ≡ true
    → IsCalendarText value
unfolding date_parse IsCalendarText
prints_as-IsCalendarText value none e h = ground (arith, h)
prints_as-IsCalendarText value (some ms) e h =
    let same : iso_text (date_of ms) ≡ value = (text_eq_iff (to_iso_string ms) value).0 h in
    let (u, f) = parsed_time (long_form value) e in
    let g : long_form (iso_text (date_of ms)) ≡ some u = ap long_form same ∙ f in
    (date_of ms, date_of-IsCalendar ms (long_form_year (date_of ms) u g), sym same)

is_round_trip_iff : (value : Text) → (is_round_trip value ≡ true) ↔ IsCalendarText value
is_round_trip_iff value = (
  λ h. prints_as-IsCalendarText value (date_parse value) refl (unfold is_round_trip in h),
  λ c.
      unfold IsCalendarText in
      subst (λ v. is_round_trip v ≡ true) (sym c.2) (iso_text-is_round_trip c.0 c.1),
)

-- A text is taken as a timestamp exactly if it is the text of a calendar time in the years 0 to 9999.
pub normalize_timestamp_iff :
    (value : Text)
    → (normalize_timestamp (some (string value)) ≡ ok (some value)) ↔ IsCalendarText value
unfolding normalize_timestamp
normalize_timestamp_iff value = elim (Bool-cases (is_round_trip value)) [
  | inl e ↦ rw e (λ h. (is_round_trip_iff value).0 e, λ c. refl)
  | inr e ↦ rw e (λ h. cc, λ c. let k = (is_round_trip_iff value).1 c in ground (arith, k, e))
]

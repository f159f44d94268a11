-- ===== src/Js/Date/RoundTrip.antt =====
-- Calendar times go through their time value and their text and come back.
use teslatlas_sdk_typescript.Prelude.{
  ℕ, zero, suc, ◌+◌, ◌-◌, ◌*◌, ◌/◌, ◌%◌, ◌≤◌, ◌<◌, ◌≡◌, refl, ◌∙◌, ap, Bool, true, none, some, List,
  [], ◌∷◌, leb, ltb, if◌then◌else◌, arith, inl, inr, Bool-cases, lt→ltb, ltb→lt, not_ltb→le, length,
  all,
}
use teslatlas_sdk_typescript.Js.Text.{is_digit}
use teslatlas_sdk_typescript.Js.Date.{
  DateTime, days_in_year, month_lengths, days_before_year, days_of_months, time_value, year_of,
  month_of, with_clock, with_month, date_of, digits, year_text, iso_text, two, long_form,
  is_in_format, time_of, date_parse,
}
use teslatlas_sdk_typescript.Js.Date.Calendar.{
  IsCalendar, month_length, year_of-before, month_of-months, DateTime-ext, days_positive,
  time_value-days, time_value-clock,
}

sum : List ℕ → ℕ
sum [] = 0
sum (l ∷ lengths) = l + sum lengths

days_of_months-le :
    (n : ℕ) (lengths : List ℕ) → days_of_months n lengths + month_length n lengths ≤ sum lengths
unfolding days_of_months month_length sum
days_of_months-le zero [] = omega arith
days_of_months-le (suc n) [] = omega arith
days_of_months-le zero (l ∷ lengths) = omega arith
days_of_months-le (suc n) (l ∷ lengths) = omega (arith, days_of_months-le n lengths)

sum-month_lengths : (y : ℕ) → sum (month_lengths y) ≡ days_in_year y
unfolding sum
sum-month_lengths y = ground arith

date_of-fields :
    (ms year in_year month in_month : ℕ)
    → year_of (ms / 86400000 + 1) 0 (ms / 86400000) ≡ (year, in_year)
    → month_of 1 (month_lengths year) in_year ≡ (month, in_month)
    → date_of ms ≡ with_clock (ms % 86400000) year (month, in_month)
unfolding date_of
date_of-fields ms year in_year month in_month e f =
    ap (λ p. with_month (ms % 86400000) p) e ∙ ap (λ p. with_clock (ms % 86400000) year p) f

in_year_lt :
    (t : DateTime)
    → IsCalendar t
    → days_of_months (t.month - 1) (month_lengths t.year) + (t.day - 1) < days_in_year t.year
in_year_lt t c = omega (
  arith,
  days_of_months-le (t.month - 1) (month_lengths t.year),
  sum-month_lengths t.year,
  c.day,
  c.in_month,
)

days_before_zero : days_before_year 0 ≡ 0
unfolding days_before_year
days_before_zero = refl

pub date_of-time_value : (t : DateTime) → IsCalendar t → date_of (time_value t) ≡ t
date_of-time_value t c =
    let n = t.month - 1 in
    let d = t.day - 1 in
    let in_year = days_of_months n (month_lengths t.year) + d in
    date_of-fields (time_value t) t.year in_year (1 + n) d
      (year_of-before _ 0 (time_value t / 86400000) t.year in_year (omega arith) (omega arith)
        (omega (arith, days_before_zero, time_value-days t c)) (in_year_lt t c))
      (month_of-months (month_lengths t.year) 1 n d (omega (arith, c.day, c.in_month)))
    ∙ DateTime-ext _ t refl (omega (arith, c.month)) (omega (arith, c.day))
        (rw (time_value-clock t c) (omega (arith, c.hour, c.minute, c.second, c.millisecond)))
        (rw (time_value-clock t c) (omega (arith, c.hour, c.minute, c.second, c.millisecond)))
        (rw (time_value-clock t c) (omega (arith, c.hour, c.minute, c.second, c.millisecond)))
        (rw (time_value-clock t c) (omega (arith, c.hour, c.minute, c.second, c.millisecond)))

is_digit_last : (n : ℕ) → is_digit (b'0' + n % 10) ≡ true
is_digit_last n = ground arith

year_text-digits : (t : DateTime) → IsCalendar t → year_text t.year ≡ digits 4 t.year
year_text-digits t c = rw (lt→ltb t.year 10000 c.year) refl

month_length-lt : (n : ℕ) (lengths : List ℕ) → 1 ≤ month_length n lengths → n < length lengths
unfolding month_length
month_length-lt zero [] h = ground arith
month_length-lt (suc n) [] h = ground arith
month_length-lt zero (l ∷ lengths) h = omega arith
month_length-lt (suc n) (l ∷ lengths) h = omega (arith, month_length-lt n lengths h)

month_length-le :
    (n : ℕ) (lengths : List ℕ) → all (λ l. leb l 31) lengths ≡ true → month_length n lengths ≤ 31
unfolding month_length
month_length-le zero [] h = omega arith
month_length-le (suc n) [] h = omega arith
month_length-le zero (l ∷ lengths) h = ground (arith, h)
month_length-le (suc n) (l ∷ lengths) h = month_length-le n lengths (ground (arith, h))

month_lengths_le : (y : ℕ) → all (λ l. leb l 31) (month_lengths y) ≡ true
month_lengths_le y = ground arith

month_le : (t : DateTime) → IsCalendar t → t.month ≤ 12
month_le t c =
    omega (
      arith,
      month_length-lt (t.month - 1) (month_lengths t.year) (omega (arith, c.day, c.in_month)),
    )

day_le : (t : DateTime) → IsCalendar t → t.day ≤ 31
day_le t c = omega (
  arith,
  month_length-le (t.month - 1) (month_lengths t.year) (month_lengths_le t.year),
  c.in_month,
)

two_digits : (n : ℕ) → n < 100 → two (b'0' + n / 10 % 10) (b'0' + n % 10) ≡ n
two_digits n h = omega (arith, h)

three_digits :
    (n : ℕ)
    → n < 1000
    → two (b'0' + n / 10 / 10 % 10) (b'0' + n / 10 % 10) * 10 + (b'0' + n % 10 - b'0') ≡ n
three_digits n h = omega (arith, h)

four_digits :
    (n : ℕ)
    → n < 10000
    → two (b'0' + n / 10 / 10 / 10 % 10) (b'0' + n / 10 / 10 % 10) * 100
        + two (b'0' + n / 10 % 10) (b'0' + n % 10)
      ≡ n
four_digits n h = omega (arith, h)

-- The text of a calendar time has the long form, with its fields.
long_form-iso_text : (t : DateTime) → IsCalendar t → long_form (iso_text t) ≡ some t
unfolding long_form iso_text digits
long_form-iso_text t c = rw (lt→ltb t.year 10000 c.year) (
    simp is_digit_last (
      ap some (
        DateTime-ext _ t (four_digits t.year c.year)
          (two_digits t.month (omega (arith, month_le t c)))
          (two_digits t.day (omega (arith, day_le t c))) (two_digits t.hour (omega (arith, c.hour)))
          (two_digits t.minute (omega (arith, c.minute)))
          (two_digits t.second (omega (arith, c.second)))
          (three_digits t.millisecond c.millisecond))))

is_in_format_calendar : (t : DateTime) → IsCalendar t → is_in_format t ≡ true
unfolding is_in_format
is_in_format_calendar t c =
    ground (arith, c.month, c.day, c.hour, c.minute, c.second, month_le t c, day_le t c)

if_same : {n : ℕ} (b : Bool) → b ≡ true → (if b then some n else none) ≡ some n
if_same b h = rw h refl

pub date_parse-iso_text :
    (t : DateTime) → IsCalendar t → date_parse (iso_text t) ≡ some (time_value t)
unfolding date_parse
date_parse-iso_text t c =
    ap time_of (long_form-iso_text t c) ∙ if_same (is_in_format t) (is_in_format_calendar t c)

-- The year of a day, and the month of a day in a year, have it inside.
year_of-inside :
    (fuel y s : ℕ) → s < fuel → (year_of fuel y s).1 < days_in_year (year_of fuel y s).0
unfolding year_of
year_of-inside zero y s h = ground (arith, h)
year_of-inside (suc fuel) y s h = elim (Bool-cases (ltb s (days_in_year y))) [
  | inl e ↦ rw e (ltb→lt s (days_in_year y) e)
  | inr e ↦ rw e (
      year_of-inside fuel (y + 1) (s - days_in_year y)
        (omega (arith, h, days_positive y, not_ltb→le s (days_in_year y) e)))
]

month_length_same : (m l : ℕ) (lengths : List ℕ) → month_length (m - m) (l ∷ lengths) ≡ l
unfolding month_length
month_length_same m l lengths = let e : m - m ≡ 0 = omega arith in rw e refl

month_length_next :
    (k m l : ℕ) (lengths : List ℕ)
    → m + 1 ≤ k
    → month_length (k - m) (l ∷ lengths) ≡ month_length (k - (m + 1)) lengths
unfolding month_length
month_length_next k m l lengths h =
    let e : k - m ≡ suc (k - (m + 1)) = omega (arith, h) in rw e refl

month_of-inside :
    (lengths : List ℕ) (m d : ℕ)
    → d < sum lengths
    → (m ≤ (month_of m lengths d).0)
      × ((month_of m lengths d).1 < month_length ((month_of m lengths d).0 - m) lengths)
unfolding month_of month_length sum
month_of-inside [] m d h = ground (arith, h)
month_of-inside (l ∷ lengths) m d h = elim (Bool-cases (ltb d l)) [
  | inl e ↦ rw e (omega arith, omega (arith, month_length_same m l lengths, ltb→lt d l e))
  | inr e ↦
      let later = month_of-inside lengths (m + 1) (d - l) (omega (arith, h, not_ltb→le d l e)) in
      rw e (
        omega (arith, later.0),
        omega (
          arith,
          month_length_next (month_of (m + 1) lengths (d - l)).0 m l lengths later.0,
          later.1,
        ),
      )
]

-- Every time value, in the years of four digits, is a calendar time.
pub date_of-IsCalendar : (ms : ℕ) → (date_of ms).year < 10000 → IsCalendar (date_of ms)
unfolding date_of
date_of-IsCalendar ms year =
    let days = ms / 86400000 in
    let found = year_of (days + 1) 0 days in
    let inside =
      month_of-inside (month_lengths found.0) 1 found.1 (
        omega (arith, year_of-inside (days + 1) 0 days (omega arith), sum-month_lengths found.0)) in
    record {
      year = year;
      month = inside.0;
      day = omega arith;
      in_month = omega (arith, inside.1);
      hour = omega arith;
      minute = omega arith;
      second = omega arith;
      millisecond = omega arith;
    }

-- A year of five digits or more does not fit the long form.
pub long_form_year :
    (t : DateTime) → (u : DateTime) → long_form (iso_text t) ≡ some u → t.year < 10000
unfolding long_form iso_text digits
long_form_year t u h = elim (Bool-cases (ltb t.year 10000)) [
  | inl e ↦ ltb→lt t.year 10000 e
  | inr e ↦ let bad = rw e at h in ground (arith, bad)
]

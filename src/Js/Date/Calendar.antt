-- ===== src/Js/Date/Calendar.antt =====
-- The texts that a `Date` gives back as they are, are those of calendar times.
use native.Mathlib.Numerals.{add-one}
use teslatlas_sdk_typescript.Prelude.{
  ℕ, zero, suc, ◌+◌, ◌-◌, ◌/◌, ◌%◌, ◌≤◌, ◌<◌, ◌≡◌, refl, ◌∙◌, ap, true, false, List, [], ◌∷◌, ltb,
  ◌==◌, if◌then◌else◌, arith, inl, inr, Bool-cases, lt→ltb, ltb→lt, not_ltb→le, ==_iff,
}
use teslatlas_sdk_typescript.Js.Date.{
  DateTime, days_in_year, month_lengths, days_before_year, days_of_months, clock, time_value,
  year_of, month_of,
}

-- The length of the month behind the first ones.
unfoldable pub month_length : ℕ → List ℕ → ℕ
month_length n [] = 0
month_length zero (l ∷ lengths) = l
month_length (suc n) (l ∷ lengths) = month_length n lengths

-- A time of the calendar, in the years of four digits.
pub record IsCalendar (t : DateTime) : Type 0 where
  pub year : t.year < 10000
  pub month : 1 ≤ t.month
  pub day : 1 ≤ t.day
  pub in_month : t.day ≤ month_length (t.month - 1) (month_lengths t.year)
  pub hour : t.hour < 24
  pub minute : t.minute < 60
  pub second : t.second < 60
  pub millisecond : t.millisecond < 1000

pub days_positive : (y : ℕ) → 365 ≤ days_in_year y
days_positive y = ground arith

days_before_step : (y : ℕ) → days_before_year (y + 1) ≡ days_before_year y + days_in_year y
unfolding days_before_year
days_before_step y = rw add-one refl

days_before_later : (a b : ℕ) → a < b → days_before_year a + days_in_year a ≤ days_before_year b
unfolding days_before_year
days_before_later a zero h = ground (arith, h)
days_before_later a (suc b) h = elim (Bool-cases (a == b)) [
  | inl e ↦ rw ((==_iff a b).0 e) (omega arith)
  | inr e ↦ omega (arith, days_before_later a b (ground (arith, h, e)), days_positive b)
]

year_pair : (y target s d : ℕ) → y ≡ target → s ≡ d → ◌≡◌ {A = ℕ × ℕ} (y, s) (target, d)
year_pair y target s d e f = rw (e, f) refl

same_rest :
    (y target s d : ℕ) → y ≡ target → days_before_year y + s ≡ days_before_year target + d → s ≡ d
same_rest y target s d same e = let f = rw same at e in omega (arith, f)

later_year :
    (y target s d : ℕ)
    → y ≤ target
    → days_before_year y + s ≡ days_before_year target + d
    → d < days_in_year target
    → days_in_year y ≤ s
    → y + 1 ≤ target
later_year y target s d le e inside over = elim (Bool-cases (y == target)) [
  | inl same ↦
      let eq : y ≡ target = (==_iff y target).0 same in
      let f : s ≡ d = same_rest y target s d eq e in
      let g = rw eq at over in absurd (omega (arith, f, g, inside))
  | inr other ↦ ground (arith, le, other)
]

year_pair_if :
    (later : ℕ × ℕ) (m d l : ℕ)
    → ltb d l ≡ true
    → (if ltb (0 + d) l then (m, 0 + d) else later) ≡ (m + 0, d)
year_pair_if later m d l h = ground (arith, h)

-- The year of a day that lies in it.
pub year_of-before :
    (fuel y s target d : ℕ)
    → s < fuel
    → y ≤ target
    → days_before_year y + s ≡ days_before_year target + d
    → d < days_in_year target
    → year_of fuel y s ≡ (target, d)
unfolding year_of
year_of-before zero y s target d h le e inside = ground (arith, h)
year_of-before (suc fuel) y s target d h le e inside = elim (Bool-cases (ltb s (days_in_year y))) [
  | inl now ↦ elim (Bool-cases (y == target)) [
    | inl same ↦
        let eq : y ≡ target = (==_iff y target).0 same in
        rw now (year_pair y target s d eq (same_rest y target s d eq e))
    | inr other ↦ absurd (
        omega (
          arith,
          e,
          days_before_later y target (ground (arith, le, other)),
          ltb→lt s (days_in_year y) now,
        ))
  ]
  | inr later ↦ rw later (
      year_of-before fuel (y + 1) (s - days_in_year y) target d
        (omega (arith, h, days_positive y, not_ltb→le s (days_in_year y) later))
        (later_year y target s d le e inside (not_ltb→le s (days_in_year y) later))
        (omega (arith, e, days_before_step y, not_ltb→le s (days_in_year y) later)) inside)
]

month_now :
    (l : ℕ) (lengths : List ℕ) (m d : ℕ)
    → ltb d l ≡ true
    → month_of m (l ∷ lengths) (0 + d) ≡ (m + 0, d)
unfolding month_of
month_now l lengths m d h = year_pair_if (month_of (m + 1) lengths (0 + d - l)) m d l h

pub month_of-months :
    (lengths : List ℕ) (m n d : ℕ)
    → d < month_length n lengths
    → month_of m lengths (days_of_months n lengths + d) ≡ (m + n, d)
unfolding month_of days_of_months month_length
month_of-months [] m n d h = ground (arith, h)
month_of-months (l ∷ lengths) m zero d h = month_now l lengths m d (lt→ltb d l h)
month_of-months (l ∷ lengths) m (suc n) d h = rw (over l (days_of_months n lengths) d) (
    rw (rest l (days_of_months n lengths) d)
      (month_of-months lengths (m + 1) n d h ∙ ap (λ k. (k, d)) (omega arith)))
  where
    over : (l b d : ℕ) → ltb (l + b + d) l ≡ false
    over l b d = ground arith

    rest : (l b d : ℕ) → l + b + d - l ≡ b + d
    rest l b d = omega arith

pub DateTime-ext :
    (a b : DateTime)
    → a.year ≡ b.year
    → a.month ≡ b.month
    → a.day ≡ b.day
    → a.hour ≡ b.hour
    → a.minute ≡ b.minute
    → a.second ≡ b.second
    → a.millisecond ≡ b.millisecond
    → a ≡ b
DateTime-ext a b e1 e2 e3 e4 e5 e6 e7 = cc

-- The fields of the time value of a calendar time.
pub time_value-days :
    (t : DateTime)
    → IsCalendar t
    → time_value t / 86400000
      ≡ days_before_year t.year
        + (days_of_months (t.month - 1) (month_lengths t.year) + (t.day - 1))
unfolding time_value
time_value-days t c = omega (arith, c.hour, c.minute, c.second, c.millisecond)

pub time_value-clock : (t : DateTime) → IsCalendar t → time_value t % 86400000 ≡ clock t
unfolding time_value
time_value-clock t c = omega (arith, c.hour, c.minute, c.second, c.millisecond)

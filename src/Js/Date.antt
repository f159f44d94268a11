-- ===== src/Js/Date.antt =====
-- `Date.parse` of the long UTC form and `toISOString`. A time value is counted in milliseconds from
-- the start of the year 0: the sources take only differences of two of them. As engines do, the parse
-- takes any day up to the 31st and the hour 24, and carries what is over into the next month or day.
pub mod Calendar
pub mod RoundTrip
use teslatlas_sdk_typescript.Prelude.{
  ℕ, zero, suc, ◌+◌, ◌-◌, ◌*◌, ◌/◌, ◌%◌, Bool, true, false, ◌&&◌, ◌||◌, not, Option, none, some,
  List, [], ◌∷◌, ◌++◌, leb, ltb, ◌==◌, if◌then◌else◌,
}
use teslatlas_sdk_typescript.Js.Text.{Text, is_digit}

pub record DateTime : Type 0 where
  pub year : ℕ
  pub month : ℕ
  pub day : ℕ
  pub hour : ℕ
  pub minute : ℕ
  pub second : ℕ
  pub millisecond : ℕ

abbrev pub is_leap : ℕ → Bool
is_leap y = (y % 4 == 0) && (not (y % 100 == 0) || (y % 400 == 0))

abbrev pub days_in_year : ℕ → ℕ
days_in_year y = if is_leap y then 366 else 365

-- The lengths of the months of a year, January first.
abbrev pub month_lengths : ℕ → List ℕ
month_lengths y =
    31 ∷ (if is_leap y then 29 else 28) ∷ 31 ∷ 30 ∷ 31 ∷ 30 ∷ 31 ∷ 31 ∷ 30 ∷ 31 ∷ 30 ∷ 31 ∷ []

-- The days from the start of year 0 to that of the year.
unfoldable pub days_before_year : ℕ → ℕ
days_before_year zero = 0
days_before_year (suc y) = days_before_year y + days_in_year y

-- The days of the first months.
unfoldable pub days_of_months : ℕ → List ℕ → ℕ
days_of_months zero lengths = 0
days_of_months (suc n) [] = 0
days_of_months (suc n) (l ∷ lengths) = l + days_of_months n lengths

abbrev pub clock : DateTime → ℕ
clock t = ((t.hour * 60 + t.minute) * 60 + t.second) * 1000 + t.millisecond

unfoldable pub time_value : DateTime → ℕ
unfolding days_before_year days_of_months
time_value t =
    (days_before_year t.year + (days_of_months (t.month - 1) (month_lengths t.year) + (t.day - 1)))
      * 86400000
    + clock t

-- The year in which the day lies, counted from the start of year `y`, and the day in it.
unfoldable pub year_of : ℕ → ℕ → ℕ → ℕ × ℕ
year_of zero y d = (y, d)
year_of (suc fuel) y d =
    let later = year_of fuel (y + 1) (d - days_in_year y) in
    if ltb d (days_in_year y) then (y, d) else later

-- The month in which the day of a year lies, and the day in it.
unfoldable pub month_of : ℕ → List ℕ → ℕ → ℕ × ℕ
month_of m [] d = (m, d)
month_of m (l ∷ lengths) d =
    let later = month_of (m + 1) lengths (d - l) in if ltb d l then (m, d) else later

abbrev pub with_clock : ℕ → ℕ → ℕ × ℕ → DateTime
with_clock rest year (month, in_month) = record {
  year = year;
  month = month;
  day = in_month + 1;
  hour = rest / 3600000;
  minute = rest / 60000 % 60;
  second = rest / 1000 % 60;
  millisecond = rest % 1000;
}

abbrev pub with_month : ℕ → ℕ × ℕ → DateTime
with_month rest (year, in_year) = with_clock rest year (month_of 1 (month_lengths year) in_year)

-- The calendar fields of a time value. Each year takes a day at least, so the days are fuel enough.
unfoldable pub date_of : ℕ → DateTime
unfolding year_of month_of
date_of ms = with_month (ms % 86400000) (year_of (ms / 86400000 + 1) 0 (ms / 86400000))

-- The last digits of a number.
unfoldable pub digits : ℕ → ℕ → Text
digits zero n = []
digits (suc w) n = digits w (n / 10) ++ (b'0' + n % 10) ∷ []

-- The year in four digits; one from 10000 on in six behind a sign.
abbrev pub year_text : ℕ → Text
year_text y = if ltb y 10000 then digits 4 y else b'+' ∷ digits 6 y

unfoldable pub iso_text : DateTime → Text
unfolding digits
iso_text t =
    year_text t.year
    ++ (b'-'
        ∷ (digits 2 t.month
            ++ (b'-'
                ∷ (digits 2 t.day
                    ++ (b'T'
                        ∷ (digits 2 t.hour
                            ++ (b':'
                                ∷ (digits 2 t.minute
                                    ++ (b':'
                                        ∷ (digits 2 t.second
                                            ++ (b'.'
                                                ∷ (digits 3 t.millisecond ++ b'Z' ∷ []))))))))))))

-- `new Date(ms).toISOString()`
abbrev pub to_iso_string : ℕ → Text
to_iso_string ms = iso_text (date_of ms)

abbrev pub two : ℕ → ℕ → ℕ
two a b = (a - b'0') * 10 + (b - b'0')

-- `\d{4}-\d{2}-\d{2}T\d{2}:\d{2}:\d{2}\.\d{3}Z`, with the numbers that its parts are.
unfoldable pub long_form : Text → Option DateTime
long_form
      (a ∷ b ∷ c ∷ d ∷ e ∷ f ∷ g ∷ h ∷ i ∷ j ∷ k ∷ l ∷ m ∷ n ∷ o ∷ p ∷ q ∷ r ∷ s ∷ t ∷ u ∷ v ∷ w ∷ x
        ∷ []) =
    if (is_digit a && (is_digit b && (is_digit c && (is_digit d && e == b'-'))))
      && ((is_digit f && (is_digit g && h == b'-'))
          && ((is_digit i && (is_digit j && k == b'T'))
              && ((is_digit l && (is_digit m && n == b':'))
                  && ((is_digit o && (is_digit p && q == b':'))
                      && ((is_digit r && (is_digit s && t == b'.'))
                          && (is_digit u && (is_digit v && (is_digit w && x == b'Z'))))))))
    then some (record {
      year = two a b * 100 + two c d;
      month = two f g;
      day = two i j;
      hour = two l m;
      minute = two o p;
      second = two r s;
      millisecond = two u v * 10 + (w - b'0');
    })
    else none
long_form _ = none

-- The fields are in the ranges of the format.
unfoldable pub is_in_format : DateTime → Bool
is_in_format t =
    (leb 1 t.month && leb t.month 12)
    && ((leb 1 t.day && leb t.day 31)
        && ((leb t.minute 59 && leb t.second 59)
            && (leb t.hour 23
                || (t.hour == 24 && (t.minute == 0 && (t.second == 0 && t.millisecond == 0))))))

abbrev pub time_of : Option DateTime → Option ℕ
time_of none = none
time_of (some t) = if is_in_format t then some (time_value t) else none

-- `Date.parse(value)` of a text in the long form: `none` stands for `NaN`.
unfoldable pub date_parse : Text → Option ℕ
unfolding long_form is_in_format time_value
date_parse value = time_of (long_form value)

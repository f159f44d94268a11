-- ===== src/Client/Options/Ranges.antt =====
-- Which options are taken: bounded limits, and ranges of calendar times that are not empty and no
-- longer than the hub allows.
use teslatlas_sdk_typescript.Prelude.{
  ℕ, ◌+◌, ◌*◌, ◌≤◌, ◌<◌, ◌≡◌, refl, true, false, ◌||◌, Option, none, some, ltb, pos, negsuc, arith,
}
use teslatlas_sdk_typescript.Js.Text.{Text}
use teslatlas_sdk_typescript.Js.Json.{
  Json, null, boolean, number, string, array, object, integer, fraction, infinite,
}
use teslatlas_sdk_typescript.Js.Date.{date_parse}
use teslatlas_sdk_typescript.Core.Errors.{
  ok, err, invalid_read_options, AllOk, AllOk-if, AllOk-bind, AllOk-guard, AllOk-ok,
}
use teslatlas_sdk_typescript.Protocol.Models.{Limits}
use teslatlas_sdk_typescript.Client.Options.{
  PageReadOptions, PageOptions, HistoryOptions, RangeLimit, normalize_entity_tag, normalize_cursor,
  normalize_limit, is_round_trip, prints_as, normalize_timestamp, is_bad_id, validate_id,
  maximum_days, is_bad_range, millis, normalize_page_options, normalize_history_options,
}

pub validate_id_same : (id : Text) → AllOk (λ valid. valid ≡ id) (validate_id (string id))
unfolding validate_id
validate_id_same id =
    AllOk-if (λ valid. valid ≡ id) (is_bad_id id) (err invalid_read_options) (ok id) (λ h. tt)
      (λ h. refl)

-- A limit, where there is one, is from 1 to the maximum.
pub IsLimit : ℕ → Option ℕ → Type 0
IsLimit maximum none = Unit
IsLimit maximum (some limit) = (1 ≤ limit) × (limit ≤ maximum)

normalize_limit-IsLimit :
    (value : Option Json) (maximum : ℕ) → AllOk (IsLimit maximum) (normalize_limit value maximum)
unfolding normalize_limit IsLimit
normalize_limit-IsLimit none maximum = tt
normalize_limit-IsLimit (some (number (integer (pos value)))) maximum =
    AllOk-if (IsLimit maximum) (ltb value 1 || ltb maximum value) (err invalid_read_options)
      (ok (some value)) (λ h. tt) (λ h. (ground (arith, h), ground (arith, h)))
normalize_limit-IsLimit (some (number (integer (negsuc value)))) maximum = tt
normalize_limit-IsLimit (some (number (fraction n))) maximum = tt
normalize_limit-IsLimit (some (number (infinite n))) maximum = tt
normalize_limit-IsLimit (some null) maximum = tt
normalize_limit-IsLimit (some (boolean b)) maximum = tt
normalize_limit-IsLimit (some (string s)) maximum = tt
normalize_limit-IsLimit (some (array ms)) maximum = tt
normalize_limit-IsLimit (some (object ms)) maximum = tt

-- A timestamp, where there is one, is the text that its time prints as.
pub IsTimestamp : Option Text → Type 0
IsTimestamp none = Unit
IsTimestamp (some value) = is_round_trip value ≡ true

normalize_timestamp-IsTimestamp :
    (value : Option Json) → AllOk IsTimestamp (normalize_timestamp value)
unfolding normalize_timestamp IsTimestamp
normalize_timestamp-IsTimestamp none = tt
normalize_timestamp-IsTimestamp (some (string value)) =
    AllOk-if IsTimestamp (is_round_trip value) (ok (some value)) (err invalid_read_options) (λ h. h)
      (λ h. tt)
normalize_timestamp-IsTimestamp (some null) = tt
normalize_timestamp-IsTimestamp (some (boolean b)) = tt
normalize_timestamp-IsTimestamp (some (number n)) = tt
normalize_timestamp-IsTimestamp (some (array ms)) = tt
normalize_timestamp-IsTimestamp (some (object ms)) = tt

-- The times of a range that has both ends: the first is earlier, by at most the days.
pub IsRange : ℕ → Option Text → Option Text → Type 0
IsRange days (some from) (some to) =
    (a : ℕ) × (b : ℕ) × (date_parse from ≡ some a)
    × (date_parse to ≡ some b)
    × (a < b)
    × (b ≤ a + days * 86400000)
IsRange days _ _ = Unit

prints_as-time :
    (value : Text) (time : Option ℕ) → prints_as value time ≡ true → (ms : ℕ) × (time ≡ some ms)
prints_as-time value none h = ground arith
prints_as-time value (some ms) h = (ms, refl)

round_trip_parse :
    (value : Text) → is_round_trip value ≡ true → (ms : ℕ) × (date_parse value ≡ some ms)
unfolding is_round_trip
round_trip_parse value h = prints_as-time value (date_parse value) h

is_bad_range-IsRange :
    (days : ℕ) (from to : Option Text)
    → IsTimestamp from
    → IsTimestamp to
    → is_bad_range days (millis from) (millis to) ≡ false
    → IsRange days from to
unfolding is_bad_range millis IsRange IsTimestamp
is_bad_range-IsRange days (some from) (some to) p q h =
    let (a, e) = round_trip_parse from p in
    let (b, f) = round_trip_parse to q in
    let k = rw f at (rw e at h) in (a, b, e, f, ground (arith, k), ground (arith, k))
is_bad_range-IsRange days none to p q h = tt
is_bad_range-IsRange days (some from) none p q h = tt

pub record IsHistory (limits : Limits) (range_limit : RangeLimit) (options : HistoryOptions)
    : Type 0 where
  pub limit : IsLimit limits.max_page_size options.page.limit
  pub from : IsTimestamp options.from
  pub to : IsTimestamp options.to
  pub range : IsRange (maximum_days limits range_limit) options.from options.to

PageHasLimit : Limits → PageOptions → Type 0
PageHasLimit limits page = IsLimit limits.max_page_size page.limit

normalize_page_options-limit :
    (limits : Limits) (options : PageReadOptions)
    → AllOk (PageHasLimit limits) (normalize_page_options limits options)
unfolding normalize_page_options PageHasLimit
normalize_page_options-limit limits options =
    let P = PageHasLimit limits in
    AllOk-bind P (normalize_entity_tag options.if_none_match) _ λ tag _.
      AllOk-bind P (normalize_cursor options.cursor) _ λ cursor _.
        AllOk-bind P (normalize_limit options.limit limits.max_page_size) _ λ limit e.
          AllOk-ok (IsLimit limits.max_page_size) _
            (normalize_limit-IsLimit options.limit limits.max_page_size) e

-- Options of a history that are taken have a limit from 1 to the hub's maximum, timestamps that print
-- as themselves, and, where both ends are given, a range that is not empty and no longer than the
-- hub's number of days.
pub normalize_history_options-IsHistory :
    (limits : Limits) (options : PageReadOptions) (range_limit : RangeLimit)
    → AllOk (IsHistory limits range_limit) (normalize_history_options limits options range_limit)
unfolding normalize_history_options PageHasLimit
normalize_history_options-IsHistory limits options range_limit =
    let P = IsHistory limits range_limit in
    AllOk-bind P (normalize_page_options limits options) _ λ page p.
      AllOk-bind P (normalize_timestamp options.from) _ λ from f.
        AllOk-bind P (normalize_timestamp options.to) _ λ to t.
          AllOk-guard P (is_bad_range (maximum_days limits range_limit) (millis from) (millis to)) _
            _
            λ h.
              let first = AllOk-ok IsTimestamp _ (normalize_timestamp-IsTimestamp options.from) f in
              let second = AllOk-ok IsTimestamp _ (normalize_timestamp-IsTimestamp options.to) t in
              record {
                limit =
                    AllOk-ok (PageHasLimit limits) _ (normalize_page_options-limit limits options)
                      p;
                from = first;
                to = second;
                range = is_bad_range-IsRange _ from to first second h;
              }

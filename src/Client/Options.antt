-- ===== src/Client/Options.antt =====
-- The options of the methods of src/client/client.ts. An option is what the caller gave, of any type:
-- `none` stands for `undefined`. A value that is none of JSON's is refused as one of another type is.
pub mod Ranges
pub mod Timestamps
use teslatlas_sdk_typescript.Prelude.{
  ℕ, ◌-◌, ◌*◌, Bool, true, false, ◌&&◌, ◌||◌, not, Option, none, some, List, [], ◌∷◌, ◌++◌, ltb,
  leb, if◌then◌else◌, length, pos,
}
use teslatlas_sdk_typescript.Js.Text.{Text, codes, text_eq}
use teslatlas_sdk_typescript.Js.Json.{Json, string, number, integer}
use teslatlas_sdk_typescript.Js.Date.{date_parse, to_iso_string}
use teslatlas_sdk_typescript.Core.Errors.{
  Result, ok, err, ◌>>=◌, ◌>>◌, throw_if, invalid_read_options, contains_control_characters,
}
use teslatlas_sdk_typescript.Core.OpaqueValues.{as_entity_tag, as_opaque_cursor}
use teslatlas_sdk_typescript.Http.RequestBuilder.{QueryValue, QueryValues, undefined, text}
use teslatlas_sdk_typescript.Protocol.Models.{Limits}

pub record PageReadOptions : Type 0 where
  pub if_none_match : Option Json
  pub cursor : Option Json
  pub limit : Option Json
  -- Of a list of metadata.
  pub kind : Option Json
  -- Of a history.
  pub from : Option Json
  pub to : Option Json

-- What a method goes on with.
pub record PageOptions : Type 0 where
  pub if_none_match : Option Text
  pub cursor : Option Text
  pub limit : Option ℕ

pub record HistoryOptions : Type 0 where
  pub page : PageOptions
  pub from : Option Text
  pub to : Option Text

pub data RangeLimit : Type 0 where
  history dense : RangeLimit

abbrev pub maximum_if_none_match_length : ℕ
maximum_if_none_match_length = 512

abbrev pub or_invalid_options {ℓ} : {A : Type ℓ} → Result A → Result A
or_invalid_options (ok value) = ok value
or_invalid_options (err e) = err invalid_read_options

abbrev pub some_of {ℓ} : {A : Type ℓ} → Result A → Result (Option A)
some_of (ok value) = ok (some value)
some_of (err e) = err e

unfoldable pub normalize_entity_tag : Option Json → Result (Option Text)
normalize_entity_tag none = ok none
normalize_entity_tag (some (string value)) =
    if ltb maximum_if_none_match_length (length value)
    then err invalid_read_options
    else some_of (or_invalid_options (as_entity_tag value))
normalize_entity_tag (some _) = err invalid_read_options

unfoldable pub normalize_cursor : Option Json → Result (Option Text)
normalize_cursor none = ok none
normalize_cursor (some (string value)) = some_of (or_invalid_options (as_opaque_cursor value))
normalize_cursor (some _) = err invalid_read_options

unfoldable pub normalize_limit : Option Json → ℕ → Result (Option ℕ)
normalize_limit none maximum = ok none
normalize_limit (some (number (integer (pos value)))) maximum =
    if ltb value 1 || ltb maximum value then err invalid_read_options else ok (some value)
normalize_limit (some _) maximum = err invalid_read_options

-- `new Date(value).toISOString() === value`, of a date that is finite.
abbrev pub prints_as : Text → Option ℕ → Bool
prints_as value none = false
prints_as value (some ms) = text_eq (to_iso_string ms) value

unfoldable pub is_round_trip : Text → Bool
unfolding date_parse
is_round_trip value = prints_as value (date_parse value)

unfoldable pub normalize_timestamp : Option Json → Result (Option Text)
unfolding is_round_trip
normalize_timestamp none = ok none
normalize_timestamp (some (string value)) =
    if is_round_trip value then ok (some value) else err invalid_read_options
normalize_timestamp (some _) = err invalid_read_options

unfoldable pub is_bad_id : Text → Bool
unfolding contains_control_characters
is_bad_id value =
    ltb (length value) 3 || (ltb 128 (length value) || contains_control_characters value)

unfoldable pub validate_id : Json → Result Text
unfolding is_bad_id
validate_id (string value) = if is_bad_id value then err invalid_read_options else ok value
validate_id _ = err invalid_read_options

-- Not a text and not `undefined`.
unfoldable pub normalize_kind : Option Json → Result (Option Text)
normalize_kind none = ok none
normalize_kind (some (string value)) = ok (some value)
normalize_kind (some _) = err invalid_read_options

abbrev pub maximum_days : Limits → RangeLimit → ℕ
maximum_days limits dense = limits.max_dense_range_days
maximum_days limits history = limits.max_history_range_days

-- The range is empty, turned round or too long. Both ends have a time, since both were normalised.
unfoldable pub is_bad_range : ℕ → Option ℕ → Option ℕ → Bool
is_bad_range days (some from) (some to) = leb to from || ltb (days * 86400000) (to - from)
is_bad_range days _ _ = false

-- `value === undefined ? undefined : Date.parse(value)`
unfoldable pub millis : Option Text → Option ℕ
millis none = none
millis (some value) = date_parse value

module _ (limits : Limits) where
  unfoldable pub normalize_page_options : PageReadOptions → Result PageOptions
  normalize_page_options options = do
    if_none_match ← normalize_entity_tag options.if_none_match
    cursor ← normalize_cursor options.cursor
    limit ← normalize_limit options.limit limits.max_page_size
    ok (record { if_none_match = if_none_match; cursor = cursor; limit = limit })

  unfoldable pub normalize_metadata_page_options :
      PageReadOptions → Result (PageOptions × Option Text)
  normalize_metadata_page_options options = do
    page ← normalize_page_options options
    kind ← normalize_kind options.kind
    ok (page, kind)

  unfoldable pub normalize_history_options : PageReadOptions → RangeLimit → Result HistoryOptions
  normalize_history_options options range_limit = do
    page ← normalize_page_options options
    from ← normalize_timestamp options.from
    to ← normalize_timestamp options.to
    throw_if (is_bad_range (maximum_days limits range_limit) (millis from) (millis to))
        invalid_read_options
    ok (record { page = page; from = from; to = to })

abbrev optional : Option Text → QueryValue
optional none = undefined
optional (some value) = text value

abbrev optional_number : Option ℕ → QueryValue
optional_number none = undefined
optional_number (some value) = QueryValue.number value

unfoldable pub page_query : PageOptions → QueryValues
page_query options =
    (codes "cursor", optional options.cursor) ∷ (codes "limit", optional_number options.limit) ∷ []

unfoldable pub metadata_query : PageOptions × Option Text → QueryValues
unfolding page_query
metadata_query (options, kind) = page_query options ++ (codes "kind", optional kind) ∷ []

unfoldable pub history_query : HistoryOptions → QueryValues
unfolding page_query
history_query options =
    page_query options.page
    ++ ((codes "from", optional options.from) ∷ (codes "to", optional options.to) ∷ [])

unfoldable pub data_quality_query : HistoryOptions → Option Text → QueryValues
unfolding history_query
data_quality_query options vehicle_id =
    history_query options ++ (codes "vehicle_id", optional vehicle_id) ∷ []

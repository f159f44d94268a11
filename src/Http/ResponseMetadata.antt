-- ===== src/Http/ResponseMetadata.antt =====
-- `readResponseMetadata` and `asSafeLocation` of src/http/response-decoder.ts. The parameter gives the
-- parts of a URL that is resolved at the base for locations (`new URL`), or that it has none.
pub mod Laws
use teslatlas_sdk_typescript.Prelude.{
  ℕ, ℤ, pos, negsuc, Bool, true, false, ◌&&◌, ◌||◌, not, Option, none, some, String, List, [], ◌∷◌,
  ltb, leb, ◌==◌, if◌then◌else◌, length,
}
use teslatlas_sdk_typescript.Js.Text.{
  Text, codes, text_eq, starts_with, includes, has_unit, split, is_digit, decimal_from,
}
use teslatlas_sdk_typescript.Js.Json.{
  Json, Number, null, boolean, number, string, array, object, integer, fraction, infinite, field,
}
use teslatlas_sdk_typescript.Core.Errors.{
  SdkError, Result, ok, err, ◌>>=◌, ◌>>◌, throw_if, dotted, protocol_validation, protocol_http,
  aborted, foreign, HttpProblem, is_protocol_validation, contains_control_characters, is_empty,
  as_protocol_error_code, as_safe_request_id,
}
use teslatlas_sdk_typescript.Core.OpaqueValues.{
  as_entity_tag, is_strong_entity_tag, strip_weak, is_hex,
}
use teslatlas_sdk_typescript.Core.Version.{is_numeral}
use teslatlas_sdk_typescript.Http.BoundedBody.{Bytes, read_bounded, require_empty_response_body}
use teslatlas_sdk_typescript.Http.JsonWalk.{assert_finite_numbers, decode_protocol_value}
use teslatlas_sdk_typescript.Http.Response.{Response, Headers, Aborts, require_media_type}

pub record ResponseMetadata : Type 0 where
  pub status : ℕ
  pub etag : Option Text
  pub location : Option Text
  pub request_id : Option Text
  pub protocol_version : Option Text

pub record Requirements : Type 0 where
  pub entity_tag : Bool
  pub strong_entity_tag : Bool
  pub location : Bool
  pub accepted_versions : Option (List Text)

-- The parts of a parsed URL that the check of a location reads.
pub record LocationUrl : Type 0 where
  pub origin : Text
  pub username : Text
  pub password : Text
  pub search : Text
  pub hash : Text

abbrev pub safe_location_base : Text
safe_location_base = codes "https://teslatlas-location.invalid"

-- `/%(?![0-9a-f]{2})/iu.test(value)`
unfoldable pub has_bad_escape : Text → Bool
has_bad_escape [] = false
has_bad_escape (c ∷ []) = c == b'%'
has_bad_escape (c ∷ d ∷ []) = c == b'%' || d == b'%'
has_bad_escape (c ∷ d ∷ e ∷ s) =
    (c == b'%' && not (is_hex d && is_hex e)) || has_bad_escape (d ∷ e ∷ s)

three_numerals : List Text → Bool
three_numerals (a ∷ b ∷ c ∷ []) = is_numeral a && (is_numeral b && is_numeral c)
three_numerals _ = false

-- `protocolVersionPattern.test(value)`
unfoldable pub is_plain_version : Text → Bool
unfolding three_numerals is_numeral
is_plain_version value = three_numerals (split b'.' value)

-- What a `catch` does that keeps validation errors and gives all others one name.
abbrev pub or_validation {ℓ} : {A : Type ℓ} → Result A → String → Result A
or_validation (ok a) name = ok a
or_validation (err e) name =
    if is_protocol_validation e then err e else err (protocol_validation name)

traverse_header : (Text → Result Text) → Option Text → Result (Option Text)
traverse_header check none = ok none
traverse_header check (some value) = do checked ← check value; ok (some checked)

pub is_missing_tag : Option Text → Requirements → Bool
is_missing_tag none needed = needed.entity_tag || needed.strong_entity_tag
is_missing_tag (some tag) needed = needed.strong_entity_tag && not (is_strong_entity_tag tag)

is_malformed_version : Option Text → Bool
is_malformed_version none = false
is_malformed_version (some version) = not (is_plain_version version)

pub is_unaccepted : Option (List Text) → Option Text → Bool
is_unaccepted none version = false
is_unaccepted (some versions) none = true
is_unaccepted (some versions) (some version) = not (includes versions version)

is_missing_location : Option Text → Requirements → Bool
is_missing_location none needed = needed.location
is_missing_location (some location) needed = false

module _ (resolve_location : Text → Option LocationUrl) where
  is_elsewhere : Option LocationUrl → Bool
  is_elsewhere none = true
  is_elsewhere (some url) =
      not (text_eq url.origin safe_location_base)
      || (not (is_empty url.username)
          || (not (is_empty url.password)
              || (not (is_empty url.search) || not (is_empty url.hash))))

  unfoldable pub is_unsafe_location : Text → Bool
  unfolding is_elsewhere has_bad_escape contains_control_characters
  is_unsafe_location value =
      is_empty value
      || (contains_control_characters value
          || (not (starts_with value (codes "/"))
              || (starts_with value (codes "//")
                  || (has_unit value b'?'
                      || (has_unit value b'#'
                          || (has_bad_escape value || is_elsewhere (resolve_location value)))))))

  unfoldable pub as_safe_location : Text → Result Text
  unfolding is_unsafe_location
  as_safe_location value =
      if is_unsafe_location value then err (protocol_validation "response.location") else ok value

  metadata_of : Response → String → Requirements → Result ResponseMetadata
  metadata_of response name needed = do
    throw_if (is_missing_tag response.headers.etag needed)
        (protocol_validation (dotted name ".etag"))
    etag ← traverse_header as_entity_tag response.headers.etag
    request_id ← traverse_header as_safe_request_id response.headers.request_id
    throw_if (is_malformed_version response.headers.protocol_version)
        (protocol_validation (dotted name ".protocolVersion"))
    throw_if (is_unaccepted needed.accepted_versions response.headers.protocol_version)
        (protocol_validation (dotted name ".protocolVersion"))
    throw_if (is_missing_location response.headers.location needed)
        (protocol_validation (dotted name ".location"))
    location ← traverse_header as_safe_location response.headers.location
    ok (record {
      status = response.status;
      etag = etag;
      location = location;
      request_id = request_id;
      protocol_version = response.headers.protocol_version;
    })

  unfoldable pub read_response_metadata : Response → String → Requirements → Result ResponseMetadata
  unfolding metadata_of is_missing_tag traverse_header is_malformed_version is_unaccepted
      is_missing_location
  read_response_metadata response name needed =
      or_validation (metadata_of response name needed) (dotted name ".metadata")

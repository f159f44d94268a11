-- ===== src/Events/ProtocolEvents.antt =====
-- src/events/protocol-subscription.ts: the options of a stream of protocol events, the classes of its
-- responses and the decoding of its events. Parameters: the catalog of events that is generated (each
-- with the profile that introduced it), the generated validator and `JSON.parse`.
pub mod Types
use teslatlas_sdk_typescript.Prelude.{
  ℕ, ◌+◌, ℤ, pos, negsuc, Bool, true, false, ◌&&◌, ◌||◌, not, Option, none, some, String, List, [],
  ◌∷◌, ◌++◌, ltb, leb, ◌==◌, if◌then◌else◌, length,
}
use teslatlas_sdk_typescript.Js.Text.{Text, codes, text_eq, includes, join}
use teslatlas_sdk_typescript.Js.Uri.{form_encode}
use teslatlas_sdk_typescript.Js.Json.{
  Json, Number, null, boolean, number, string, array, object, integer, fraction, infinite, field,
}
use teslatlas_sdk_typescript.Core.Errors.{
  SdkError, Result, ok, err, ◌>>=◌, ◌>>◌, throw_if, protocol_validation, protocol_http, replay_gap,
  transport_error, invalid_stream_events_options, unsupported_stream_event_type,
  contains_control_characters, is_empty,
}
use teslatlas_sdk_typescript.Http.RequestBuilder.{lookup, query_text}
use teslatlas_sdk_typescript.Http.BoundedBody.{Bytes}
use teslatlas_sdk_typescript.Http.JsonWalk.{assert_finite_numbers, decode_protocol_value}
use teslatlas_sdk_typescript.Http.Response.{Response, Headers, Aborts}
use teslatlas_sdk_typescript.Http.ResponseDecoder.{decode_protocol_problem_response}
use teslatlas_sdk_typescript.Events.SseParser.{SseEvent}
use teslatlas_sdk_typescript.Events.Subscription.{
  ResponseAction, proceed, terminal, fail, ReconnectContext, Reason, eof, error,
}

-- `SupportedProtocolVersion`
pub data Profile : Type 0 where
  v1_0_0 v1_1_0 v1_2_0 : Profile

-- Its numbers: major, minor and patch.
unfoldable pub numbers_of : Profile → ℕ × ℕ × ℕ
numbers_of v1_0_0 = (1, 0, 0)
numbers_of v1_1_0 = (1, 1, 0)
numbers_of v1_2_0 = (1, 2, 0)

-- `compareProfiles(left, right) > 0`
unfoldable pub is_newer : Profile → Profile → Bool
unfolding numbers_of
is_newer left right =
    let (a, b, c) = numbers_of left in
    let (x, y, z) = numbers_of right in ltb x a || (a == x && (ltb y b || (b == y && ltb z c)))

unfoldable pub is_supported_profile : Text → Option Profile
is_supported_profile value =
    if text_eq value (codes "1.0.0")
    then some v1_0_0
    else if text_eq value (codes "1.1.0")
    then some v1_1_0
    else if text_eq value (codes "1.2.0")
    then some v1_2_0
    else none

abbrev pub Catalog : Type 0
Catalog = List (Text × Profile)

-- `generatedEventCatalog` on the names and profiles of the entries: `none` is its error.
unfoldable pub generated_event_catalog : List (Text × Text) → Catalog → Option Catalog
unfolding is_supported_profile lookup
generated_event_catalog [] catalog = some catalog
generated_event_catalog ((name, introduced_in) ∷ entries) catalog =
    elim (is_supported_profile introduced_in) [
      | none ↦ none
      | some profile ↦ elim (lookup name catalog) [
        | some other ↦ none
        | none ↦ generated_event_catalog entries (catalog ++ (name, profile) ∷ [])
      ]
    ]

unfoldable pub normalize_vehicle_id : Option Text → Result (Option Text)
unfolding contains_control_characters
normalize_vehicle_id none = ok none
normalize_vehicle_id (some value) =
    if ltb (length value) 3 || (ltb 128 (length value) || contains_control_characters value)
    then err invalid_stream_events_options
    else ok (some value)

module _ (catalog : Catalog) where
  -- One round of the loop: the profile of the type, and its first occurrence.
  check_event_type : Profile → List Text → Text → Option Profile → Result (Unit {0})
  check_event_type version normalized event_type none = err invalid_stream_events_options
  check_event_type version normalized event_type (some introduced_in) = do
    throw_if (includes normalized event_type) invalid_stream_events_options
    throw_if (is_newer introduced_in version) unsupported_stream_event_type
    ok tt

  -- The loop, whose set has the same members as its list.
  normalize_each : Profile → List Text → List Text → Result (List Text)
  normalize_each version normalized [] = ok normalized
  normalize_each version normalized (event_type ∷ rest) = do
    check_event_type version normalized event_type (lookup event_type catalog)
    normalize_each version (normalized ++ event_type ∷ []) rest

  unfoldable pub normalize_event_types : Option (List Text) → Profile → Result (List Text)
  unfolding normalize_each check_event_type lookup includes is_newer
  normalize_event_types none version = ok []
  normalize_event_types (some value) version =
      if ltb 32 (length value)
      then err invalid_stream_events_options
      else normalize_each version [] value

vehicle_query : Option Text → List (Text × Text)
vehicle_query none = []
vehicle_query (some id) = (codes "vehicle_id", id) ∷ []

types_query : List Text → List (Text × Text)
types_query [] = []
types_query (t ∷ ts) = (codes "event_type", join (codes ",") (t ∷ ts)) ∷ []

events_path : Text → Text
events_path [] = codes "/v1/events"
events_path (c ∷ s) = codes "/v1/events?" ++ (c ∷ s)

unfoldable pub event_path : Option Text → List Text → Text
unfolding vehicle_query types_query events_path query_text
event_path vehicle_id event_types =
    events_path (query_text (vehicle_query vehicle_id ++ types_query event_types))

-- The replay gap that a problem shows.
unfoldable pub replay_error : SdkError → SdkError
replay_error (protocol_http problem) =
    if problem.status == 410 && text_eq problem.code (codes "event_replay_expired")
    then replay_gap problem.status problem.request_id
    else protocol_http problem
replay_error e = e

unfoldable pub classify_protocol_response :
    (Bytes → Option Json) → (Json → Bool) → Response → Aborts → ResponseAction
unfolding replay_error
classify_protocol_response parse_json validate_problem response aborts =
    if response.status == 200
    then proceed
    else if response.status == 204
    then elim response.body [
      | none ↦ terminal
      | some stream ↦ fail (protocol_validation "streamEvents.204")
    ]
    else fail (
        replay_error (decode_protocol_problem_response parse_json validate_problem response aborts))

-- The policy of `streamProtocolEvents`.
unfoldable pub reconnect_delay : ReconnectContext → Option Number
reconnect_delay context = elim context.reason [
  | eof ↦ some (integer (pos 3000))
  | error transport_error ↦ some (integer (pos 3000))
  | error _ ↦ none
]

-- ===== src/Hub/Reads.antt =====
-- `#read` of src/hub/client.ts and the methods that are built on it: `health`, `readiness`, `vehicles`
-- and `current`. What `#ensureDiscovery`, the store and `fetch` do are values. Parameters: the
-- transport, those of the decoders, and the generated validators.
pub mod Vehicle
use teslatlas_sdk_typescript.Prelude.{
  ℕ, Bool, true, false, not, Option, none, some, String, List, [], ◌∷◌, ◌++◌, ◌==◌, if◌then◌else◌,
  any,
}
use teslatlas_sdk_typescript.Js.Text.{Text, codes, text_eq}
use teslatlas_sdk_typescript.Js.Json.{Json, string, field}
use teslatlas_sdk_typescript.Core.Errors.{
  SdkError, Result, ok, err, ◌>>=◌, ◌>>◌, throw_if, protocol_validation, vehicle_identity_mismatch,
}
use teslatlas_sdk_typescript.Http.BoundedBody.{Bytes}
use teslatlas_sdk_typescript.Http.Response.{Response, require_media_type}
use teslatlas_sdk_typescript.Http.FetchTransport.{FetchEnvironment, request}
use teslatlas_sdk_typescript.Client.Session.{Transport}
use teslatlas_sdk_typescript.Hub.Sessions.{
  Operation, Discovery, begin_operation, require_hub_capability,
}
use teslatlas_sdk_typescript.Hub.Validate.{decode_hub_json}
use teslatlas_sdk_typescript.Hub.Failures.{
  Instant, assert_at, BodyInstants, Route, other_route, read_body, hub_error_code, thrown_code,
}
use teslatlas_sdk_typescript.Hub.Credentials.{
  Credential, Loading, load_credential, validate_credential, is_lower_uuid,
}
use teslatlas_sdk_typescript.Hub.Claims.{HubMetadata, Answering, bearer, response_metadata}

-- What happens around a read, in its order.
pub record Reading : Type 0 where
  pub begun : Instant
  -- The look of `#requireCapability`, what it finds, and the look behind that.
  pub before_discovery : Instant
  pub discovery_outcome : Result Discovery
  pub after_discovery : Instant
  pub before_request : Instant
  pub loading : Loading
  pub authorized_at : ℕ
  pub dispatched : Instant
  pub fetching : FetchEnvironment
  pub answering : Answering

-- What is read: the path, the validator with its name, the statuses of a success and the route.
pub record HubRead : Type 0 where
  pub path : Text
  pub validator : Json → Bool
  pub name : String
  pub statuses : List ℕ
  pub route : Route

-- The `authorization` of a transport that loads the credential.
unfoldable pub loaded_bearer : Option Credential → ℕ → Result (Option Text)
unfolding bearer
loaded_bearer none now = ok none
loaded_bearer (some credential) now = bearer credential now

unfoldable pub authorization_of : Bool → Operation → Reading → Result (Option Text)
unfolding loaded_bearer load_credential
authorization_of false operation reading = ok none
authorization_of true operation reading =
    load_credential operation reading.loading >>= λ found. loaded_bearer found reading.authorized_at

unfoldable pub hub_response : Transport → Bool → Operation → HubRead → Reading → Result Response
unfolding authorization_of assert_at
hub_response transport is_authenticated operation wanted reading = do
  assert_at operation reading.before_request
  (request transport.base_origin transport.resolve transport.is_abort_error wanted.path
      transport.failure [] none
      (record reading.fetching {
        authorization = authorization_of is_authenticated operation reading;
        on_dispatch = assert_at operation reading.dispatched;
      })).1

module _ (parse : Text → Option Json) (decode_text : Bytes → Text)
    (validate_error : Json → Bool) where
  unfoldable pub decode_value :
      HubRead → Response → Operation → BodyInstants → Result (Json × HubMetadata)
  unfolding read_body assert_at response_metadata
  decode_value wanted response operation moments = do
    require_media_type response (codes "application/json") wanted.name
    body ← read_body parse decode_text response moments.at_body wanted.name
    value ← decode_hub_json parse body wanted.validator wanted.name
    assert_at operation moments.after_body
    metadata ← response_metadata response
    ok (value, metadata)

  unfoldable pub decode_hub_response :
      HubRead → Response → Operation → Answering → Result (Json × HubMetadata)
  unfolding decode_value hub_error_code thrown_code
  decode_hub_response wanted response operation answering = do
    assert_at operation answering.before
    if any (λ status. status == response.status) wanted.statuses
        then decode_value wanted response operation answering.body
        else err (
            thrown_code response (
              hub_error_code parse decode_text validate_error response wanted.route operation
                answering.body))

-- `encodeURIComponent` of a UUID is its text.
abbrev pub current_read : (Json → Bool) → Text → HubRead
current_read validate_current vehicle_id = record {
  path = codes "/v1/vehicles/" ++ (vehicle_id ++ codes "/current");
  validator = validate_current;
  name = "HubCurrent";
  statuses = 200 ∷ [];
  route = other_route;
}

unfoldable pub is_vehicle : Option Json → Text → Bool
is_vehicle (some (string found)) vehicle_id = text_eq found vehicle_id
is_vehicle _ vehicle_id = false

module _ (transport : Transport) (parse : Text → Option Json) (decode_text : Bytes → Text)
    (validate_error : Json → Bool) where
  -- `#read` with its transport.
  unfoldable pub hub_read : Bool → Operation → HubRead → Reading → Result (Json × HubMetadata)
  unfolding hub_response decode_hub_response
  hub_read is_authenticated operation wanted reading = do
    response ← hub_response transport is_authenticated operation wanted reading
    decode_hub_response parse decode_text validate_error wanted response operation reading.answering

  unfoldable pub health : (Json → Bool) → Reading → Result (Json × HubMetadata)
  unfolding hub_read
  health validate_health reading = do
    operation ← begin_operation reading.begun.session reading.begun.aborted
    hub_read false operation
        (record {
          path = codes "/healthz";
          validator = validate_health;
          name = "HubHealth";
          statuses = 200 ∷ [];
          route = other_route;
        })
        reading

  unfoldable pub readiness : (Json → Bool) → Reading → Result (Json × HubMetadata)
  unfolding hub_read
  readiness validate_ready reading = do
    operation ← begin_operation reading.begun.session reading.begun.aborted
    hub_read false operation
        (record {
          path = codes "/readyz";
          validator = validate_ready;
          name = "HubReadiness";
          statuses = 200 ∷ 503 ∷ [];
          route = other_route;
        })
        reading

  -- `#requireCapability`, and then `#read` with the credential.
  unfoldable pub capable_read : Text → Operation → HubRead → Reading → Result (Json × HubMetadata)
  unfolding hub_read require_hub_capability assert_at
  capable_read capability operation wanted reading = do
    assert_at operation reading.before_discovery
    found ← reading.discovery_outcome
    require_hub_capability reading.after_discovery.session operation reading.after_discovery.aborted
        found capability
    hub_read true operation wanted reading

  unfoldable pub vehicles : (Json → Bool) → Reading → Result (Json × HubMetadata)
  unfolding capable_read
  vehicles validate_vehicles reading = do
    operation ← begin_operation reading.begun.session reading.begun.aborted
    capable_read (codes "query.vehicles") operation
        (record {
          path = codes "/v1/vehicles";
          validator = validate_vehicles;
          name = "HubVehicles";
          statuses = 200 ∷ [];
          route = other_route;
        })
        reading

  unfoldable pub current : (Json → Bool) → Text → Reading → Result (Json × HubMetadata)
  unfolding capable_read is_vehicle is_lower_uuid
  current validate_current vehicle_id reading = do
    throw_if (not (is_lower_uuid vehicle_id)) (protocol_validation "vehicleId")
    operation ← begin_operation reading.begun.session reading.begun.aborted
    answer ←
        capable_read (codes "query.current") operation (current_read validate_current vehicle_id)
          reading
    throw_if (not (is_vehicle (field answer.0 (codes "vehicleId")) vehicle_id))
        vehicle_identity_mismatch
    ok answer

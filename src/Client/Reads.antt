-- ===== src/Client/Reads.antt =====
-- `#read` of src/client/client.ts. The generated validators are a parameter, by their names.
pub mod Answers
pub mod Drives
use teslatlas_sdk_typescript.Prelude.{
  ℕ, Bool, true, false, ◌||◌, Option, none, some, String, List, [], ◌∷◌, if◌then◌else◌,
}
use teslatlas_sdk_typescript.Js.Text.{Text, codes}
use teslatlas_sdk_typescript.Js.Json.{Json}
use teslatlas_sdk_typescript.Core.Errors.{SdkError, Result, ok, err, ◌>>=◌, ◌>>◌, throw_if, aborted}
use teslatlas_sdk_typescript.Http.BoundedBody.{Bytes}
use teslatlas_sdk_typescript.Http.Response.{Response, Aborts}
use teslatlas_sdk_typescript.Http.ResponseMetadata.{Requirements, LocationUrl}
use teslatlas_sdk_typescript.Http.ResponseDecoder.{
  ReadResult, modified, not_modified, decode_read_response,
}
use teslatlas_sdk_typescript.Http.RequestBuilder.{
  Values, QueryValues, BuiltRequest, ReadDescriptor, build_read_request,
}
use teslatlas_sdk_typescript.Http.RequestBuilder.Operations.{
  ReadOperation, discover_hub, list_vehicles, get_vehicle_current_state, list_vehicle_drives,
  get_drive, list_drive_positions, list_vehicle_charges, get_charge, list_charge_samples,
  list_vehicle_states, list_vehicle_updates, list_data_quality, list_vehicle_metadata, get_metadata,
  get_command, read_descriptor,
}
use teslatlas_sdk_typescript.Http.FetchTransport.{Dispatched, unsent, FetchEnvironment}
use teslatlas_sdk_typescript.Protocol.Models.{HubDescriptor}
use teslatlas_sdk_typescript.Protocol.Capabilities.{require_capability}
use teslatlas_sdk_typescript.Client.Session.{
  Transport, ClientSession, transport_request, accepted_response_versions,
}
use teslatlas_sdk_typescript.Client.Options.{
  PageReadOptions, PageOptions, HistoryOptions, RangeLimit, history, dense, normalize_entity_tag,
  normalize_page_options, normalize_metadata_page_options, normalize_history_options, validate_id,
  page_query, metadata_query, history_query, data_quality_query,
}
use teslatlas_sdk_typescript.Client.Identity.{validate_read_identity}
use teslatlas_sdk_typescript.Client.ReadCalls.{ReadCall}

-- What happens around one call.
pub record CallEnvironment : Type 0 where
  pub fetching : FetchEnvironment
  pub aborts : Aborts
  -- What the signal shows at the last look.
  pub aborted_last : Bool

pub data Schema : Type 0 where
  discovery vehicle_page current_state drive_page drive position_page charge_page charge : Schema
  charge_sample_page state_page update_page data_quality_page metadata_page : Schema
  metadata_record metadata_tombstone command_job : Schema
  metadata_create metadata_replace command_request : Schema

unfoldable pub validator_name : ReadOperation → String
validator_name discover_hub = "validateDiscovery"
validator_name list_vehicles = "validateVehiclePage"
validator_name get_vehicle_current_state = "validateCurrentState"
validator_name list_vehicle_drives = "validateDrivePage"
validator_name get_drive = "validateDrive"
validator_name list_drive_positions = "validatePositionPage"
validator_name list_vehicle_charges = "validateChargePage"
validator_name get_charge = "validateCharge"
validator_name list_charge_samples = "validateChargeSamplePage"
validator_name list_vehicle_states = "validateStatePage"
validator_name list_vehicle_updates = "validateUpdatePage"
validator_name list_data_quality = "validateDataQualityPage"
validator_name list_vehicle_metadata = "validateMetadataPage"
validator_name get_metadata = "validateMetadataEntity"
validator_name get_command = "validateCommandJob"

unfoldable pub needed_of : Bool → Option (List Text) → Requirements
needed_of strong accepted = record {
  entity_tag = false;
  strong_entity_tag = strong;
  location = false;
  accepted_versions = accepted;
}

unfoldable pub requirements_of : ClientSession → ReadCall → Requirements
unfolding needed_of
requirements_of session call = needed_of call.strong_entity_tag (
    if (read_descriptor call.operation).versioned
    then some (accepted_response_versions session)
    else none)

unfoldable pub transport_of : ClientSession → ReadOperation → Transport
transport_of session discover_hub = session.discovery_transport
transport_of session _ = session.api_transport

-- The platform's and the generated code that a decoded answer rests on.
pub record Decoding : Type 0 where
  pub parse_json : Bytes → Option Json
  pub resolve_location : Text → Option LocationUrl
  pub validate_problem : Json → Bool
  pub validate : Schema → Json → Bool

module _ (decoding : Decoding) where
  -- `validateMetadataEntity`
  unfoldable pub validate_metadata_entity : Json → Bool
  validate_metadata_entity value =
      decoding.validate metadata_record value || decoding.validate metadata_tombstone value

  unfoldable pub read_validator : ReadOperation → Json → Bool
  read_validator discover_hub = decoding.validate discovery
  read_validator list_vehicles = decoding.validate vehicle_page
  read_validator get_vehicle_current_state = decoding.validate current_state
  read_validator list_vehicle_drives = decoding.validate drive_page
  read_validator get_drive = decoding.validate drive
  read_validator list_drive_positions = decoding.validate position_page
  read_validator list_vehicle_charges = decoding.validate charge_page
  read_validator get_charge = decoding.validate charge
  read_validator list_charge_samples = decoding.validate charge_sample_page
  read_validator list_vehicle_states = decoding.validate state_page
  read_validator list_vehicle_updates = decoding.validate update_page
  read_validator list_data_quality = decoding.validate data_quality_page
  read_validator list_vehicle_metadata = decoding.validate metadata_page
  read_validator get_metadata = validate_metadata_entity
  read_validator get_command = decoding.validate command_job

  unfoldable pub check_identity : ReadCall → ReadResult → Result (Unit {0})
  check_identity call (not_modified metadata) = ok tt
  check_identity call (modified value metadata) =
      validate_read_identity call.operation value call.path_values call.query
        (validator_name call.operation)

  unfoldable pub read_answer :
      ClientSession → CallEnvironment → ReadCall → Response → Result ReadResult
  unfolding check_identity
  read_answer session environment call response = do
    result ←
        decode_read_response decoding.parse_json decoding.resolve_location decoding.validate_problem
          response (read_validator call.operation) (validator_name call.operation)
          environment.aborts (requirements_of session call) call.if_none_match
    check_identity call result
    throw_if environment.aborted_last aborted
    ok result

  unfoldable pub built_read : ClientSession → ReadCall → Result BuiltRequest
  built_read session call =
      build_read_request (read_descriptor call.operation) call.path_values call.query
        session.protocol_version call.if_none_match

  unfoldable pub read_sent :
      ClientSession
      → CallEnvironment
      → ReadCall
      → Dispatched × Result Response
      → Dispatched × Result ReadResult
  read_sent session environment call (dispatched, response) =
      (dispatched, response >>= read_answer session environment call)

  unfoldable pub read_built :
      ClientSession
      → CallEnvironment
      → ReadCall
      → Result BuiltRequest
      → Dispatched × Result ReadResult
  read_built session environment call (err e) = (unsent, err e)
  read_built session environment call (ok built) =
      read_sent session environment call
        (transport_request (transport_of session call.operation) environment.fetching built)

  -- A method: the arguments, and `#read` with them.
  unfoldable pub read :
      ClientSession → CallEnvironment → Result ReadCall → Dispatched × Result ReadResult
  unfolding read_built read_sent read_answer built_read
  read session environment (err e) = (unsent, err e)
  read session environment (ok call) = read_built session environment call (built_read session call)

-- ===== src/Client/Commands.antt =====
-- `createCommand` and `#writeCommand` of src/client/client.ts. `onDispatch` notes that the transport
-- came to `fetch`: that there is a dispatch.
pub mod Outcome
pub mod Accepted
use teslatlas_sdk_typescript.Prelude.{
  ℕ, Bool, true, false, if◌then◌else◌, Option, none, some, String, List, [], ◌∷◌,
}
use teslatlas_sdk_typescript.Js.Text.{Text, codes}
use teslatlas_sdk_typescript.Js.Json.{Json, Number, string, field}
use teslatlas_sdk_typescript.Core.Errors.{
  SdkError, Result, ok, err, ◌>>=◌, ◌>>◌, throw_if, aborted, invalid_idempotency_key_value,
  invalid_request_body, protocol_validation, protocol_http, command_uncertain, HttpProblem,
}
use teslatlas_sdk_typescript.Core.OpaqueValues.{as_idempotency_key}
use teslatlas_sdk_typescript.Http.JsonWalk.{decode_protocol_value}
use teslatlas_sdk_typescript.Http.Response.{Response}
use teslatlas_sdk_typescript.Http.ResponseMetadata.{ResponseMetadata}
use teslatlas_sdk_typescript.Http.RequestSnapshot.{Value, Snapshot}
use teslatlas_sdk_typescript.Http.RequestBuilder.{BuiltRequest, snapshot}
use teslatlas_sdk_typescript.Http.RequestBuilder.Operations.{create_command}
use teslatlas_sdk_typescript.Http.FetchTransport.{Dispatched, unsent, FetchEnvironment}
use teslatlas_sdk_typescript.Protocol.Models.{HubDescriptor}
use teslatlas_sdk_typescript.Protocol.Capabilities.{require_capability}
use teslatlas_sdk_typescript.Commands.Advertised.{Heap, Caches, validate_advertised_command}
use teslatlas_sdk_typescript.Client.Session.{ClientSession, transport_request}
use teslatlas_sdk_typescript.Client.Identity.{property, require_identity, require_location_identity}
use teslatlas_sdk_typescript.Client.Reads.{Decoding, CallEnvironment, command_job, command_request}
use teslatlas_sdk_typescript.Client.Writes.{
  WriteCall, needed, request_snapshot, built_write, decoded_write,
}

-- The call, and the command that was asked for.
pub record CommandCall : Type 0 where
  pub call : WriteCall
  pub expected : Json

-- `asIdempotencyKey(options?.idempotencyKey)`
unfoldable pub key_option : Option Json → Result Text
key_option (some (string value)) = as_idempotency_key value
key_option _ = err invalid_idempotency_key_value

-- `snapshotCommandRequest`
unfoldable pub snapshot_command_request : Result Snapshot → Result Snapshot
snapshot_command_request (ok copy) = ok copy
snapshot_command_request (err invalid_request_body) =
    err (protocol_validation "validateCommandRequest")
snapshot_command_request (err e) = err e

unfoldable pub command_call : Text → Snapshot → Json → CommandCall
command_call key copy value = record {
  call = record {
    operation = create_command;
    path_values = [];
    body = snapshot copy.body;
    if_match = none;
    idempotency_key = some key;
    answer = command_job;
    validator_name = "validateCommandJob";
    success_status = 202;
    requirements = needed true false true;
  };
  expected = value;
}

-- A check with its caches, and what the call is if it passes.
unfoldable pub checked_call : CommandCall → Result (Unit {0}) × Caches → Result CommandCall × Caches
checked_call call (checked, caches) = (checked >> ok call, caches)

module _ (number_text : Number → Text) (compile : Json → Option (Option Json → Bool))
    (decoding : Decoding) (descriptor : HubDescriptor) where
  -- Up to the check of the advertised schemas: the key, the snapshot and the value of the body.
  unfoldable pub command_body : Heap → Value → Option Json → Bool → Result CommandCall
  unfolding key_option snapshot_command_request command_call
  command_body heap body idempotency_key aborted_first = do
    found ← require_capability descriptor (codes "commands.async")
    key ← key_option idempotency_key
    throw_if aborted_first aborted
    copy ←
        snapshot_command_request
          (request_snapshot number_text compile decoding descriptor heap body)
    value ←
        decode_protocol_value copy.value (decoding.validate command_request)
          "validateCommandRequest"
    ok (command_call key copy value)

  unfoldable pub advertised_call : Heap → Caches → Result CommandCall → Result CommandCall × Caches
  unfolding checked_call
  advertised_call heap caches (err e) = (err e, caches)
  advertised_call heap caches (ok call) =
      checked_call call
        (validate_advertised_command number_text compile heap caches descriptor call.expected)

  unfoldable pub create_command_call :
      Heap → Caches → Value → Option Json → Bool → Result CommandCall × Caches
  unfolding advertised_call command_body
  create_command_call heap caches body idempotency_key aborted_first =
      advertised_call heap caches (command_body heap body idempotency_key aborted_first)

-- The `onDispatch` of a command only sets `dispatchStarted`: it does not throw.
abbrev pub flagging : FetchEnvironment → FetchEnvironment
flagging fetching = record fetching { on_dispatch = ok tt }

-- `error instanceof ProtocolHttpError`
unfoldable pub is_protocol_http : SdkError → Bool
is_protocol_http (protocol_http problem) = true
is_protocol_http _ = false

-- Every other error leaves it open what became of the command.
unfoldable pub settled_error : SdkError → SdkError
settled_error e = if is_protocol_http e then e else command_uncertain

unfoldable pub settled {ℓ} : {A : Type ℓ} → Result A → Result A
settled (ok value) = ok value
settled (err e) = err (settled_error e)

-- The error of a request that failed, by the flag that its `onDispatch` sets.
unfoldable pub failed_error : Bool → SdkError → SdkError
failed_error dispatch_started e = if dispatch_started then command_uncertain else e

unfoldable pub require_same : CommandCall → Json → String → Result (Unit {0})
require_same asked entity key =
    require_identity entity key (field asked.expected (codes key)) asked.call.validator_name

unfoldable pub check_job : CommandCall → Json → ResponseMetadata → Result (Unit {0})
check_job asked entity metadata = do
  require_same asked entity "vehicle_id"
  require_same asked entity "command"
  require_same asked entity "command_class"
  id ← property entity (codes "command_id")
  require_location_identity metadata.location "/v1/commands/" id asked.call.validator_name

module _ (decoding : Decoding) (session : ClientSession) (environment : CallEnvironment) where
  unfoldable pub command_answer : CommandCall → Response → Result (Json × ResponseMetadata)
  unfolding check_job require_same
  command_answer asked response = do
    result ← decoded_write decoding session environment asked.call response
    check_job asked result.0 result.1
    throw_if environment.aborted_last aborted
    ok result

  unfoldable pub command_sent :
      CommandCall → Dispatched × Result Response → Dispatched × Result (Json × ResponseMetadata)
  unfolding command_answer settled settled_error failed_error
  command_sent asked (sent, err e) = (sent, err (failed_error sent.notified e))
  command_sent asked (sent, ok response) = (sent, settled (command_answer asked response))

  unfoldable pub command_built :
      CommandCall → Result BuiltRequest → Dispatched × Result (Json × ResponseMetadata)
  unfolding command_sent
  command_built asked (err e) = (unsent, err e)
  command_built asked (ok built) =
      command_sent asked
        (transport_request session.api_transport (flagging environment.fetching) built)

  unfoldable pub write_command : Result CommandCall → Dispatched × Result (Json × ResponseMetadata)
  unfolding command_built
  write_command (err e) = (unsent, err e)
  write_command (ok asked) = command_built asked (built_write session asked.call)

-- ===== src/Client/Writes.antt =====
-- The methods of src/client/client.ts that change metadata, and `#write`. A body is a value in the
-- caller's objects, of which a snapshot is taken.
pub mod Written
use teslatlas_sdk_typescript.Prelude.{
  ℕ, Bool, true, false, not, Option, none, some, String, List, [], ◌∷◌,
}
use teslatlas_sdk_typescript.Js.Text.{Text, codes}
use teslatlas_sdk_typescript.Js.Json.{Json, Number, string, field, strict_eq}
use teslatlas_sdk_typescript.Core.Errors.{
  SdkError, Result, ok, err, ◌>>=◌, ◌>>◌, throw_if, aborted, invalid_read_options,
  invalid_strong_entity_tag, protocol_validation,
}
use teslatlas_sdk_typescript.Core.OpaqueValues.{as_strong_entity_tag}
use teslatlas_sdk_typescript.Http.JsonWalk.{decode_protocol_value}
use teslatlas_sdk_typescript.Http.Response.{Response}
use teslatlas_sdk_typescript.Http.ResponseMetadata.{Requirements, ResponseMetadata}
use teslatlas_sdk_typescript.Http.ResponseDecoder.{decode_write_response}
use teslatlas_sdk_typescript.Http.RequestSnapshot.{Value, Snapshot}
use teslatlas_sdk_typescript.Http.RequestBuilder.{
  Values, BuiltRequest, RequestBody, absent, snapshot, build_write_request, lookup,
}
use teslatlas_sdk_typescript.Http.RequestBuilder.Operations.{
  WriteOperation, create_metadata, replace_metadata, delete_metadata, create_command,
  write_descriptor,
}
use teslatlas_sdk_typescript.Http.FetchTransport.{Dispatched, unsent}
use teslatlas_sdk_typescript.Protocol.Models.{HubDescriptor}
use teslatlas_sdk_typescript.Protocol.Capabilities.{require_capability}
use teslatlas_sdk_typescript.Commands.Advertised.{Heap, snapshot_of}
use teslatlas_sdk_typescript.Client.Session.{
  ClientSession, transport_request, accepted_response_versions,
}
use teslatlas_sdk_typescript.Client.Options.{validate_id}
use teslatlas_sdk_typescript.Client.Identity.{
  property, require_identity, require_location_identity, path_json,
}
use teslatlas_sdk_typescript.Client.Reads.{
  Decoding, CallEnvironment, Schema, metadata_record, metadata_tombstone, metadata_create,
  metadata_replace,
}

-- The options of `#write` and `#writeCommand`.
pub record WriteCall : Type 0 where
  pub operation : WriteOperation
  pub path_values : Values
  pub body : RequestBody
  pub if_match : Option Text
  pub idempotency_key : Option Text
  pub answer : Schema
  pub validator_name : String
  pub success_status : ℕ
  pub requirements : Requirements

-- The caller's options: whether they are an object, and what the signal shows at the first look.
pub record RequestOptions : Type 0 where
  pub is_object : Bool
  pub aborted_first : Bool

unfoldable pub needed : Bool → Bool → Bool → Requirements
needed entity_tag strong_entity_tag location = record {
  entity_tag = entity_tag;
  strong_entity_tag = strong_entity_tag;
  location = location;
  accepted_versions = none;
}

-- `asStrongEntityTag(options?.ifMatch)`
unfoldable pub if_match_option : Option Json → Result Text
if_match_option (some (string value)) = as_strong_entity_tag value
if_match_option _ = err invalid_strong_entity_tag

abbrev metadata_path : Text → Values
metadata_path id = (codes "metadata_id", id) ∷ []

module _ (number_text : Number → Text) (compile : Json → Option (Option Json → Bool))
    (decoding : Decoding) (descriptor : HubDescriptor) where
  unfoldable pub request_snapshot : Heap → Value → Result Snapshot
  request_snapshot heap body =
      snapshot_of number_text compile heap body (some descriptor.limits.max_request_body_bytes)

  unfoldable pub create_metadata_call : Heap → Json → Value → RequestOptions → Result WriteCall
  unfolding needed request_snapshot
  create_metadata_call heap vehicle_id body options = do
    found ← require_capability descriptor (codes "metadata.mutable")
    throw_if (not options.is_object) invalid_read_options
    throw_if options.aborted_first aborted
    id ← validate_id vehicle_id
    copy ← request_snapshot heap body
    value ←
        decode_protocol_value copy.value (decoding.validate metadata_create)
          "validateMetadataCreate"
    vehicle ← property value (codes "vehicle_id")
    throw_if (not (strict_eq vehicle (some (string id))))
        (protocol_validation "validateMetadataCreate.vehicle_id")
    ok (record {
      operation = create_metadata;
      path_values = (codes "vehicle_id", id) ∷ [];
      body = snapshot copy.body;
      if_match = none;
      idempotency_key = none;
      answer = metadata_record;
      validator_name = "validateMetadataRecord";
      success_status = 201;
      requirements = needed false true true;
    })

  unfoldable pub replace_metadata_call : Heap → Json → Value → Option Json → Bool → Result WriteCall
  unfolding needed request_snapshot if_match_option
  replace_metadata_call heap metadata_id body if_match aborted_first = do
    found ← require_capability descriptor (codes "metadata.mutable")
    tag ← if_match_option if_match
    throw_if aborted_first aborted
    copy ← request_snapshot heap body
    value ←
        decode_protocol_value copy.value (decoding.validate metadata_replace)
          "validateMetadataReplace"
    id ← validate_id metadata_id
    ok (record {
      operation = replace_metadata;
      path_values = metadata_path id;
      body = snapshot copy.body;
      if_match = some tag;
      idempotency_key = none;
      answer = metadata_record;
      validator_name = "validateMetadataRecord";
      success_status = 200;
      requirements = needed false true false;
    })

  unfoldable pub delete_metadata_call : Json → Option Json → Bool → Result WriteCall
  unfolding needed if_match_option
  delete_metadata_call metadata_id if_match aborted_first = do
    found ← require_capability descriptor (codes "metadata.mutable")
    tag ← if_match_option if_match
    throw_if aborted_first aborted
    id ← validate_id metadata_id
    ok (record {
      operation = delete_metadata;
      path_values = metadata_path id;
      body = absent;
      if_match = some tag;
      idempotency_key = none;
      answer = metadata_tombstone;
      validator_name = "validateMetadataTombstone";
      success_status = 200;
      requirements = needed false true false;
    })

unfoldable pub with_versions : ClientSession → Requirements → Requirements
with_versions session wanted = record {
  entity_tag = wanted.entity_tag;
  strong_entity_tag = wanted.strong_entity_tag;
  location = wanted.location;
  accepted_versions = some (accepted_response_versions session);
}

unfoldable pub built_write : ClientSession → WriteCall → Result BuiltRequest
built_write session call =
    build_write_request (write_descriptor call.operation) call.path_values session.protocol_version
      call.body call.if_match call.idempotency_key

module _ (decoding : Decoding) where
  unfoldable pub decoded_write :
      ClientSession → CallEnvironment → WriteCall → Response → Result (Json × ResponseMetadata)
  unfolding with_versions
  decoded_write session environment call response =
      decode_write_response decoding.parse_json decoding.resolve_location decoding.validate_problem
        response (decoding.validate call.answer) call.validator_name environment.aborts
        (with_versions session call.requirements) call.success_status

-- The parameter of the path that the entity has to have.
unfoldable pub require_path_identity : WriteCall → Json → String → Result (Unit {0})
require_path_identity call entity key =
    require_identity entity key (path_json (lookup (codes key) call.path_values))
      call.validator_name

unfoldable pub check_created : WriteCall → Json → ResponseMetadata → Result (Unit {0})
check_created call entity metadata = do
  require_path_identity call entity "vehicle_id"
  id ← property entity (codes "metadata_id")
  require_location_identity metadata.location "/v1/metadata/" id call.validator_name

unfoldable pub check_written :
    WriteOperation → WriteCall → Json → ResponseMetadata → Result (Unit {0})
check_written create_metadata call entity metadata = check_created call entity metadata
check_written _ call entity metadata = require_path_identity call entity "metadata_id"

module _ (decoding : Decoding) (session : ClientSession) (environment : CallEnvironment) where
  unfoldable pub write_answer : WriteCall → Response → Result (Json × ResponseMetadata)
  unfolding decoded_write check_written check_created require_path_identity
  write_answer call response = do
    result ← decoded_write decoding session environment call response
    check_written call.operation call result.0 result.1
    throw_if environment.aborted_last aborted
    ok result

  unfoldable pub write_sent :
      WriteCall → Dispatched × Result Response → Dispatched × Result (Json × ResponseMetadata)
  unfolding write_answer
  write_sent call (dispatched, response) = (dispatched, response >>= write_answer call)

  unfoldable pub write_built :
      WriteCall → Result BuiltRequest → Dispatched × Result (Json × ResponseMetadata)
  unfolding write_sent
  write_built call (err e) = (unsent, err e)
  write_built call (ok built) =
      write_sent call (transport_request session.api_transport environment.fetching built)

  -- A method: the arguments, and `#write` with them.
  unfoldable pub write : Result WriteCall → Dispatched × Result (Json × ResponseMetadata)
  unfolding write_built built_write
  write (err e) = (unsent, err e)
  write (ok call) = write_built call (built_write session call)

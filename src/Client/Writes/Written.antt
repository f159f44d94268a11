-- ===== src/Client/Writes/Written.antt =====
-- A change of metadata that returns has checked the response and whose it is.
use teslatlas_sdk_typescript.Prelude.{◌≡◌, refl, false, String}
use teslatlas_sdk_typescript.Js.Text.{codes}
use teslatlas_sdk_typescript.Js.Json.{Json, field}
use teslatlas_sdk_typescript.Core.Errors.{
  Result, ok, err, aborted, AllOk, AllOk-bind, AllOk-guard, AllOk-ok, AllOk-map,
}
use teslatlas_sdk_typescript.Http.Response.{Response}
use teslatlas_sdk_typescript.Http.ResponseMetadata.{ResponseMetadata}
use teslatlas_sdk_typescript.Http.ResponseDecoder.Laws.{IsWritten, decode_write_response-IsWritten}
use teslatlas_sdk_typescript.Http.RequestBuilder.{BuiltRequest, lookup}
use teslatlas_sdk_typescript.Http.RequestBuilder.Operations.{
  WriteOperation, create_metadata, replace_metadata, delete_metadata, create_command,
}
use teslatlas_sdk_typescript.Client.Session.{ClientSession, transport_request}
use teslatlas_sdk_typescript.Client.Identity.{path_json}
use teslatlas_sdk_typescript.Client.Identity.Checked.{Has, require_identity-Has}
use teslatlas_sdk_typescript.Client.Identity.Locations.{IsLocation, located-IsLocation}
use teslatlas_sdk_typescript.Client.Reads.{Decoding, CallEnvironment}
use teslatlas_sdk_typescript.Client.Writes.{
  WriteCall, with_versions, built_write, decoded_write, require_path_identity, check_created,
  check_written, write_answer, write_sent, write_built, write,
}

-- The parameter of the path stands in the entity.
pub HasPathValue : WriteCall → Json → String → Type 0
HasPathValue call entity key = Has entity key (path_json (lookup (codes key) call.path_values))

-- A record that was created is of the vehicle of the path, and its location names it; another is
-- the one of the path.
pub IsOwnRecord : WriteOperation → WriteCall → Json → ResponseMetadata → Type 0
IsOwnRecord create_metadata call entity metadata =
    HasPathValue call entity "vehicle_id"
    × IsLocation metadata.location "/v1/metadata/" (field entity (codes "metadata_id"))
IsOwnRecord _ call entity metadata = HasPathValue call entity "metadata_id"

require_path_identity-HasPathValue :
    (call : WriteCall) (entity : Json) (key : String)
    → AllOk (λ done. HasPathValue call entity key) (require_path_identity call entity key)
unfolding require_path_identity HasPathValue
require_path_identity-HasPathValue call entity key =
    require_identity-Has entity key _ call.validator_name

check_created-IsOwnRecord :
    (call : WriteCall) (entity : Json) (metadata : ResponseMetadata)
    → AllOk
        (λ done. IsOwnRecord create_metadata call entity metadata)
        (check_created call entity metadata)
unfolding check_created IsOwnRecord
check_created-IsOwnRecord call entity metadata =
    let P : Unit {0} → Type 0 = λ done. IsOwnRecord create_metadata call entity metadata in
    AllOk-bind P (require_path_identity call entity "vehicle_id") _ λ done e.
      AllOk-map
        (λ x. IsLocation metadata.location "/v1/metadata/" (field entity (codes "metadata_id"))) P _
        (λ x h.
          unfold IsOwnRecord in
          (
            AllOk-ok (λ y. HasPathValue call entity "vehicle_id") _
                (require_path_identity-HasPathValue call entity "vehicle_id") e,
            h,
          ))
        (located-IsLocation entity "metadata_id" metadata.location "/v1/metadata/"
          call.validator_name)

check_written-IsOwnRecord :
    (operation : WriteOperation) (call : WriteCall) (entity : Json) (metadata : ResponseMetadata)
    → AllOk
        (λ done. IsOwnRecord operation call entity metadata)
        (check_written operation call entity metadata)
unfolding check_written IsOwnRecord
check_written-IsOwnRecord create_metadata call entity metadata =
    unfold IsOwnRecord in check_created-IsOwnRecord call entity metadata
check_written-IsOwnRecord replace_metadata call entity metadata =
    require_path_identity-HasPathValue call entity "metadata_id"
check_written-IsOwnRecord delete_metadata call entity metadata =
    require_path_identity-HasPathValue call entity "metadata_id"
check_written-IsOwnRecord create_command call entity metadata =
    require_path_identity-HasPathValue call entity "metadata_id"

pub decoded_write-IsWritten :
    (decoding : Decoding) (session : ClientSession) (environment : CallEnvironment)
    (call : WriteCall) (response : Response)
    → AllOk
        (IsWritten decoding.parse_json response
          (decoding.validate call.answer)
          (with_versions session call.requirements)
          call.success_status)
        (decoded_write decoding session environment call response)
unfolding decoded_write
decoded_write-IsWritten decoding session environment call response =
    decode_write_response-IsWritten decoding.parse_json decoding.resolve_location
      decoding.validate_problem response (decoding.validate call.answer) call.validator_name
      environment.aborts (with_versions session call.requirements) call.success_status

module _ (decoding : Decoding) (session : ClientSession) (environment : CallEnvironment) where
  -- The result of a write that was decoded from a response, with nothing aborted at the end.
  pub record IsRecordOf (call : WriteCall) (response : Response) (result : Json × ResponseMetadata)
      : Type 0 where
    pub written :
        IsWritten decoding.parse_json response
          (decoding.validate call.answer)
          (with_versions session call.requirements)
          call.success_status
          result
    pub own : IsOwnRecord call.operation call result.0 result.1
    pub not_aborted : environment.aborted_last ≡ false

  write_answer-IsRecordOf :
      (call : WriteCall) (response : Response)
      → AllOk (IsRecordOf call response) (write_answer decoding session environment call response)
  unfolding write_answer
  write_answer-IsRecordOf call response =
      let P = IsRecordOf call response in
      AllOk-bind P (decoded_write decoding session environment call response) _ λ result e.
        AllOk-bind P (check_written call.operation call result.0 result.1) _ λ done i.
          AllOk-guard P environment.aborted_last aborted (ok result) λ last. record {
            written =
                AllOk-ok
                  (IsWritten decoding.parse_json response (decoding.validate call.answer)
                    (with_versions session call.requirements) call.success_status)
                  _ (decoded_write-IsWritten decoding session environment call response) e;
            own =
                AllOk-ok (λ d. IsOwnRecord call.operation call result.0 result.1) _
                  (check_written-IsOwnRecord call.operation call result.0 result.1) i;
            not_aborted = last;
          }

  -- What a method returns: the record of the call that it made of its arguments, decoded from the
  -- response that the transport gave to the request built of it.
  pub record IsStored (arguments : Result WriteCall) (result : Json × ResponseMetadata)
      : Type 0 where
    pub call : WriteCall
    pub made : arguments ≡ ok call
    pub built : BuiltRequest
    pub was_built : built_write session call ≡ ok built
    pub response : Response
    pub came : (transport_request session.api_transport environment.fetching built).1 ≡ ok response
    pub stored : IsRecordOf call response result

  write_built-IsStored :
      (arguments : Result WriteCall) (call : WriteCall) (request : Result BuiltRequest)
      → arguments ≡ ok call
      → built_write session call ≡ request
      → AllOk (IsStored arguments) (write_built decoding session environment call request).1
  unfolding write_built write_sent
  write_built-IsStored arguments call (err e) made same = tt
  write_built-IsStored arguments call (ok built) made same =
      let P = IsStored arguments in
      let sent = transport_request session.api_transport environment.fetching built in
      AllOk-bind P sent.1 _ λ response came.
        AllOk-map (IsRecordOf call response) P
          (write_answer decoding session environment call response)
          (λ result stored. record {
            call = call;
            made = made;
            built = built;
            was_built = same;
            response = response;
            came = came;
            stored = stored;
          })
          (write_answer-IsRecordOf call response)

  -- A change of metadata that returns was decoded from the response to the request built of its
  -- arguments: its value is the parse of the whole body, with the status and the validator it needs,
  -- and is the record that they named.
  pub write-IsStored :
      (arguments : Result WriteCall)
      → AllOk (IsStored arguments) (write decoding session environment arguments).1
  unfolding write
  write-IsStored (err e) = tt
  write-IsStored (ok call) = write_built-IsStored (ok call) call _ refl refl

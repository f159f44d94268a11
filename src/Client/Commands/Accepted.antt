-- ===== src/Client/Commands/Accepted.antt =====
-- A command that is reported as accepted is the one that was asked for.
use teslatlas_sdk_typescript.Prelude.{◌≡◌, refl, ap, false, String}
use teslatlas_sdk_typescript.Js.Text.{codes}
use teslatlas_sdk_typescript.Js.Json.{Json, field}
use teslatlas_sdk_typescript.Core.Errors.{
  Result, ok, err, aborted, AllOk, AllOk-bind, AllOk-guard, AllOk-ok, AllOk-map,
}
use teslatlas_sdk_typescript.Http.Response.{Response}
use teslatlas_sdk_typescript.Http.ResponseMetadata.{ResponseMetadata}
use teslatlas_sdk_typescript.Http.ResponseDecoder.Laws.{IsWritten}
use teslatlas_sdk_typescript.Http.RequestBuilder.{BuiltRequest}
use teslatlas_sdk_typescript.Http.FetchTransport.{Dispatched}
use teslatlas_sdk_typescript.Client.Session.{ClientSession, transport_request}
use teslatlas_sdk_typescript.Client.Identity.Checked.{Has, require_identity-Has}
use teslatlas_sdk_typescript.Client.Identity.Locations.{IsLocation, located-IsLocation}
use teslatlas_sdk_typescript.Client.Reads.{Decoding, CallEnvironment}
use teslatlas_sdk_typescript.Client.Writes.{with_versions, built_write, decoded_write}
use teslatlas_sdk_typescript.Client.Writes.Written.{decoded_write-IsWritten}
use teslatlas_sdk_typescript.Client.Commands.{
  CommandCall, flagging, settled, require_same, check_job, command_answer, command_sent,
  command_built, write_command,
}

-- The job has the command's own member.
pub IsSame : CommandCall → Json → String → Type 0
IsSame asked entity key = Has entity key (field asked.expected (codes key))

-- The job is for the vehicle, the command and the class that were asked for, and the location names it.
pub record IsJob (asked : CommandCall) (entity : Json) (metadata : ResponseMetadata) : Type 0 where
  pub vehicle : IsSame asked entity "vehicle_id"
  pub command : IsSame asked entity "command"
  pub command_class : IsSame asked entity "command_class"
  pub location : IsLocation metadata.location "/v1/commands/" (field entity (codes "command_id"))

require_same-IsSame :
    (asked : CommandCall) (entity : Json) (key : String) {done : Unit {0}}
    → require_same asked entity key ≡ ok done
    → IsSame asked entity key
unfolding require_same IsSame
require_same-IsSame asked entity key e =
    AllOk-ok (λ x. Has entity key (field asked.expected (codes key))) _
      (require_identity-Has entity key (field asked.expected (codes key)) asked.call.validator_name)
      e

check_job-IsJob :
    (asked : CommandCall) (entity : Json) (metadata : ResponseMetadata)
    → AllOk (λ done. IsJob asked entity metadata) (check_job asked entity metadata)
unfolding check_job
check_job-IsJob asked entity metadata =
    let P : Unit {0} → Type 0 = λ done. IsJob asked entity metadata in
    AllOk-bind P (require_same asked entity "vehicle_id") _ λ a vehicle.
      AllOk-bind P (require_same asked entity "command") _ λ b command.
        AllOk-bind P (require_same asked entity "command_class") _ λ c class.
          AllOk-map
            (λ x. IsLocation metadata.location "/v1/commands/" (field entity (codes "command_id")))
            P _
            (λ x h. record {
              vehicle = require_same-IsSame asked entity "vehicle_id" vehicle;
              command = require_same-IsSame asked entity "command" command;
              command_class = require_same-IsSame asked entity "command_class" class;
              location = h;
            })
            (located-IsLocation entity "command_id" metadata.location "/v1/commands/"
              asked.call.validator_name)

settled-AllOk : {A : Type 0} (P : A → Type 0) (r : Result A) → AllOk P r → AllOk P (settled r)
unfolding settled
settled-AllOk P (ok value) h = h
settled-AllOk P (err e) h = tt

module _ (decoding : Decoding) (session : ClientSession) (environment : CallEnvironment) where
  -- The job that was decoded from a response to the request, with nothing aborted at the end.
  pub record IsAccepted (asked : CommandCall) (result : Json × ResponseMetadata) : Type 0 where
    pub built : BuiltRequest
    pub was_built : built_write session asked.call ≡ ok built
    pub response : Response
    pub came :
        (transport_request session.api_transport (flagging environment.fetching) built).1
        ≡ ok response
    pub written :
        IsWritten decoding.parse_json response
          (decoding.validate asked.call.answer)
          (with_versions session asked.call.requirements)
          asked.call.success_status
          result
    pub job : IsJob asked result.0 result.1
    pub not_aborted : environment.aborted_last ≡ false

  command_answer-IsAccepted :
      (asked : CommandCall) (built : BuiltRequest) (response : Response)
      → built_write session asked.call ≡ ok built
      → (transport_request session.api_transport (flagging environment.fetching) built).1
        ≡ ok response
      → AllOk (IsAccepted asked) (command_answer decoding session environment asked response)
  unfolding command_answer
  command_answer-IsAccepted asked built response was_built came =
      let P = IsAccepted asked in
      AllOk-bind P (decoded_write decoding session environment asked.call response) _ λ result e.
        AllOk-bind P (check_job asked result.0 result.1) _ λ done i.
          AllOk-guard P environment.aborted_last aborted (ok result) λ last. record {
            built = built;
            was_built = was_built;
            response = response;
            came = came;
            written =
                AllOk-ok
                  (IsWritten decoding.parse_json response (decoding.validate asked.call.answer)
                    (with_versions session asked.call.requirements) asked.call.success_status)
                  _ (decoded_write-IsWritten decoding session environment asked.call response) e;
            job =
                AllOk-ok (λ d. IsJob asked result.0 result.1) _
                  (check_job-IsJob asked result.0 result.1) i;
            not_aborted = last;
          }

  command_sent-IsAccepted :
      (asked : CommandCall) (built : BuiltRequest) (sent : Dispatched × Result Response)
      → built_write session asked.call ≡ ok built
      → transport_request session.api_transport (flagging environment.fetching) built ≡ sent
      → AllOk (IsAccepted asked) (command_sent decoding session environment asked sent).1
  unfolding command_sent
  command_sent-IsAccepted asked built (dispatched, err e) was_built came = tt
  command_sent-IsAccepted asked built (dispatched, ok response) was_built came =
      settled-AllOk (IsAccepted asked) _
        (command_answer-IsAccepted asked built response was_built (ap (λ s. s.1) came))

  command_built-IsAccepted :
      (asked : CommandCall) (request : Result BuiltRequest)
      → built_write session asked.call ≡ request
      → AllOk (IsAccepted asked) (command_built decoding session environment asked request).1
  unfolding command_built
  command_built-IsAccepted asked (err e) same = tt
  command_built-IsAccepted asked (ok built) same = command_sent-IsAccepted asked built _ same refl

  -- A command that returns was decoded from the response to the request built of it: its value is the
  -- parse of the whole body, with the status and the validator it needs. Its job has the vehicle, the
  -- command and the class that were asked for and the location of its own identifier.
  pub write_command-IsAccepted :
      (asked : CommandCall)
      → AllOk (IsAccepted asked) (write_command decoding session environment (ok asked)).1
  unfolding write_command
  write_command-IsAccepted asked = command_built-IsAccepted asked _ refl

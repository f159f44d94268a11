-- ===== src/Tests/ClientTests.antt =====
-- The client's options, session, reads and writes on concrete inputs.
use teslatlas_sdk_typescript.Prelude.{pos, ◌≡◌, ◌↔◌, true, false, Option, none, some, [], ◌∷◌}
use teslatlas_sdk_typescript.Js.Text.{Text, codes}
use teslatlas_sdk_typescript.Js.Json.{Json, string, number, integer, array, object, end, member}
use teslatlas_sdk_typescript.Core.Errors.{ok, foreign, AllOk}
use teslatlas_sdk_typescript.Http.BoundedBody.{Bytes, closed, chunk}
use teslatlas_sdk_typescript.Http.Response.{Response, Aborts}
use teslatlas_sdk_typescript.Http.ResponseMetadata.{LocationUrl}
use teslatlas_sdk_typescript.Http.FetchTransport.{Target, FetchEnvironment}
use teslatlas_sdk_typescript.Protocol.Models.{Limits, HubDescriptor}
use teslatlas_sdk_typescript.Client.Options.{
  PageReadOptions, history, normalize_timestamp, normalize_history_options,
}
use teslatlas_sdk_typescript.Client.Options.Ranges.{IsHistory, normalize_history_options-IsHistory}
use teslatlas_sdk_typescript.Client.Options.Timestamps.{IsCalendarText, normalize_timestamp_iff}
use teslatlas_sdk_typescript.Client.Session.{Transport, ClientSession, WebUrl, Platform}
use teslatlas_sdk_typescript.Client.Session.Create.{create_client_session}
use teslatlas_sdk_typescript.Client.Session.Create.Secure.{
  IsSecureSession, create_client_session-IsSecureSession,
}
use teslatlas_sdk_typescript.Client.ReadCalls.{list_vehicle_drives_call}
use teslatlas_sdk_typescript.Client.Reads.{Decoding, CallEnvironment, read}
use teslatlas_sdk_typescript.Client.Reads.Drives.{IsOfVehicle, list_vehicle_drives-IsOfVehicle}
use teslatlas_sdk_typescript.Client.Writes.{delete_metadata_call, write}
use teslatlas_sdk_typescript.Client.Writes.Written.{IsStored, write-IsStored}
use teslatlas_sdk_typescript.Client.Commands.{CommandCall, command_call, write_command}
use teslatlas_sdk_typescript.Client.Commands.Outcome.{IsSettled, write_command-IsSettled}
use teslatlas_sdk_typescript.Client.Commands.Accepted.{IsAccepted, write_command-IsAccepted}

abbrev limits : Limits
limits = record {
  max_page_size = 100;
  max_history_range_days = 31;
  max_dense_range_days = 7;
  max_request_body_bytes = 4096;
}

abbrev descriptor : HubDescriptor
descriptor = record {
  current_version = codes "1.2.0";
  minimum_client_version = codes "1.0.0";
  supported_versions = codes "1.2.0" ∷ [];
  capabilities =
      record { id = codes "query.history"; commands = none }
      ∷ record { id = codes "metadata.mutable"; commands = none }
      ∷ [];
  limits = limits;
  endpoints = record {
    well_known = codes "https://hub.test";
    api = codes "https://hub.test";
    events = codes "https://hub.test";
    openapi = codes "https://hub.test";
  };
}

abbrev options : PageReadOptions
options = record {
  if_none_match = none;
  cursor = none;
  limit = some (number (integer (pos 10)));
  kind = none;
  from = some (string (codes "2024-02-28T00:00:00.000Z"));
  to = some (string (codes "2024-03-01T00:00:00.000Z"));
}

history_example :
    AllOk (IsHistory limits history) (normalize_history_options limits options history)
history_example = normalize_history_options-IsHistory limits options history

timestamp_example :
    (normalize_timestamp (some (string (codes "2024-02-29T23:59:59.999Z")))
      ≡ ok (some (codes "2024-02-29T23:59:59.999Z")))
    ↔ IsCalendarText (codes "2024-02-29T23:59:59.999Z")
timestamp_example = normalize_timestamp_iff (codes "2024-02-29T23:59:59.999Z")

abbrev origin : Text
origin = codes "https://hub.test"

abbrev resolve : Text → Option Target
resolve path = some (record { origin = origin; href = path })

abbrev url : WebUrl
url = record {
  protocol = codes "https:";
  hostname = codes "hub.test";
  username = [];
  password = [];
  origin = origin;
  resolve = resolve;
}

abbrev platform : Platform
platform = record {
  parse_url = λ text. some url;
  has_fetch = true;
  is_abort_error = λ e. false;
  failure = foreign 3;
}

abbrev transport : Transport
transport = record {
  base_origin = origin;
  resolve = resolve;
  is_abort_error = λ e. false;
  failure = foreign 3;
}

abbrev session : ClientSession
session = record {
  descriptor = descriptor;
  protocol_version = codes "1.2.0";
  discovery_transport = transport;
  api_transport = transport;
  event_transport = transport;
}

abbrev response : Response
response = record {
  status = 200;
  headers = record {
    content_type = some (codes "application/json");
    etag = some (codes "\"tag\"");
    request_id = none;
    protocol_version = some (codes "1.2.0");
    location = none;
    retry_after = none;
    cache_control = none;
  };
  body = some (chunk false (1 ∷ 2 ∷ []) (closed false));
}

abbrev fetching : FetchEnvironment
fetching = record {
  aborted_first = false;
  authorization = ok (some (codes "Bearer t"));
  aborted_authorized = false;
  on_dispatch = ok tt;
  fetched = ok response;
  aborted_failure = false;
}

abbrev not_aborted : Aborts
not_aborted = record { at_start = false; at_body = false; after_failure = false; at_end = false }

abbrev environment : CallEnvironment
environment = record { fetching = fetching; aborts = not_aborted; aborted_last = false }

-- One entity stands for every body, and the validators take all values.
abbrev parse_body : Bytes → Option Json
parse_body bytes = some (
    object (
      member (codes "drive_id") (string (codes "d-1"))
        (member (codes "metadata_id") (string (codes "m-1")) end)))

abbrev no_location : Text → Option LocationUrl
no_location text = none

abbrev decoding : Decoding
decoding = record {
  parse_json = parse_body;
  resolve_location = no_location;
  validate_problem = λ json. true;
  validate = λ schema json. true;
}

session_example :
    AllOk
      (IsSecureSession platform parse_body
        (λ json. true)
        (λ json. descriptor)
        (record { base_url = origin; requested_protocol_version = none }))
      (create_client_session platform parse_body
        (λ json. true)
        (λ json. descriptor)
        (record { base_url = origin; requested_protocol_version = none })
        (record { fetching = fetching; aborts = not_aborted }))
session_example =
    create_client_session-IsSecureSession platform parse_body (λ json. true) (λ json. descriptor)
      (record { base_url = origin; requested_protocol_version = none })
      (record { fetching = fetching; aborts = not_aborted })

-- Two drives of the vehicle.
abbrev parse_drives : Bytes → Option Json
parse_drives bytes = some (
    object (
      member (codes "items")
        (array (
          member (codes "0") (object (member (codes "vehicle_id") (string (codes "v-1")) end)) (
            member (codes "1") (object (member (codes "vehicle_id") (string (codes "v-1")) end))
              end)))
        end))

abbrev drives_decoding : Decoding
drives_decoding = record {
  parse_json = parse_drives;
  resolve_location = no_location;
  validate_problem = λ json. true;
  validate = λ schema json. true;
}

drives_example :
    AllOk
      (IsOfVehicle (codes "v-1"))
      (read drives_decoding session environment
        (list_vehicle_drives_call descriptor (string (codes "v-1")) options)).1
drives_example =
    list_vehicle_drives-IsOfVehicle drives_decoding session environment (codes "v-1") options

abbrev deleted_id : Json
deleted_id = string (codes "m-1")

deleted_example :
    AllOk
      (IsStored decoding session environment (
        delete_metadata_call
          (λ n. [])
          (λ schema. none)
          decoding
          descriptor
          deleted_id
          (some (string (codes "\"tag\"")))
          false))
      (write decoding session environment (
        delete_metadata_call
          (λ n. [])
          (λ schema. none)
          decoding
          descriptor
          deleted_id
          (some (string (codes "\"tag\"")))
          false)).1
deleted_example = write-IsStored decoding session environment (
    delete_metadata_call (λ n. []) (λ schema. none) decoding descriptor deleted_id
      (some (string (codes "\"tag\""))) false)

abbrev command : Json
command = object (
    member (codes "vehicle_id") (string (codes "v-1")) (
      member (codes "command") (string (codes "lock"))
        (member (codes "command_class") (string (codes "safe")) end)))

abbrev asked : CommandCall
asked =
    command_call (codes "0f8fad5b-d9cb-469f-a165-70867728950e")
      (record { value = command; body = codes "{}" }) command

-- The answer to it: a job for the command, at its location.
abbrev job : Bytes → Option Json
job bytes = some (
    object (
      member (codes "command_id") (string (codes "c-1")) (
        member (codes "vehicle_id") (string (codes "v-1")) (
          member (codes "command") (string (codes "lock"))
            (member (codes "command_class") (string (codes "safe")) end)))))

abbrev job_response : Response
job_response = record response {
  status = 202;
  headers = record {
    content_type = some (codes "application/json");
    etag = some (codes "\"tag\"");
    request_id = none;
    protocol_version = some (codes "1.2.0");
    location = some (codes "/v1/commands/c-1");
    retry_after = none;
    cache_control = none;
  };
}

abbrev job_environment : CallEnvironment
job_environment = record {
  fetching = record fetching { fetched = ok job_response };
  aborts = not_aborted;
  aborted_last = false;
}

abbrev job_location : Text → Option LocationUrl
job_location text = some (record {
  origin = codes "https://teslatlas-location.invalid";
  username = [];
  password = [];
  search = [];
  hash = [];
})

abbrev job_decoding : Decoding
job_decoding = record {
  parse_json = job;
  resolve_location = job_location;
  validate_problem = λ json. true;
  validate = λ schema json. true;
}

settled_example : IsSettled (write_command job_decoding session job_environment (ok asked))
settled_example = write_command-IsSettled job_decoding session job_environment (ok asked)

accepted_example :
    AllOk
      (IsAccepted job_decoding session job_environment asked)
      (write_command job_decoding session job_environment (ok asked)).1
accepted_example = write_command-IsAccepted job_decoding session job_environment asked

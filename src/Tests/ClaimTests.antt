-- ===== src/Tests/ClaimTests.antt =====
-- The rotation of a credential, the claim of a pairing and a read of the Hub on concrete inputs.
use teslatlas_sdk_typescript.Prelude.{
  pos, true, false, Option, none, some, [], ◌∷◌, replicate, ◌==◌,
}
use teslatlas_sdk_typescript.Js.Text.{Text, codes}
use teslatlas_sdk_typescript.Js.Json.{Json, number, string, object, integer, end, member}
use teslatlas_sdk_typescript.Core.Errors.{ok, foreign, AllOk}
use teslatlas_sdk_typescript.Http.BoundedBody.{closed, chunk}
use teslatlas_sdk_typescript.Http.Response.{Response}
use teslatlas_sdk_typescript.Client.Session.{Transport}
use teslatlas_sdk_typescript.Hub.Failures.{Instant}
use teslatlas_sdk_typescript.Hub.Credentials.{Credential}
use teslatlas_sdk_typescript.Hub.Claims.{Answering, Keeping, Rotation, rotate_device}
use teslatlas_sdk_typescript.Hub.Claims.Saved.{IsRotated, rotate_device-IsRotated}
use teslatlas_sdk_typescript.Hub.Reads.{Reading, current}
use teslatlas_sdk_typescript.Hub.Reads.Vehicle.{IsCurrent, current-IsCurrent}
use teslatlas_sdk_typescript.Hub.Pairing.{HubUrl, Invitation, PairingRun, claim_pairing}
use teslatlas_sdk_typescript.Hub.Pairing.Saved.{IsPaired, claim_pairing-IsPaired}

abbrev origin : Text
origin = codes "https://h"

abbrev device : Text
device = codes "00000000-0000-0000-0000-000000000000"

abbrev moment : Instant
moment = record {
  session = record {
    expected_hub_id = codes "h";
    discovery = none;
    disposed = false;
    generation = 4;
    cursor_bindings = [];
  };
  aborted = false;
}

abbrev credential : Credential
credential = record {
  access_token = replicate 64 b'a';
  device_id = device;
  expires_at_ms = integer (pos 9);
}

-- The claim that the answer holds, whatever the text.
abbrev parse : Text → Option Json
parse text = some (
    object (
      member (codes "access_token") (string (codes "b")) (
        member (codes "device_id") (string device)
          (member (codes "expires_at_ms") (number (integer (pos 20))) end))))

abbrev response : Response
response = record {
  status = 200;
  headers = record {
    content_type = some (codes "application/json");
    etag = none;
    request_id = none;
    protocol_version = none;
    location = none;
    retry_after = none;
    cache_control = none;
  };
  body = some (chunk false (codes "{}") (closed false));
}

abbrev transport : Transport
transport = record {
  base_origin = origin;
  resolve = λ path. some (record { origin = origin; href = path });
  is_abort_error = λ e. false;
  failure = foreign 3;
}

abbrev answering : Answering
answering = record { before = moment; body = record { at_body = false; after_body = moment } }

abbrev keeping : Keeping
keeping = record {
  before = moment;
  now = 7;
  saving = record { queued = moment; saved = ok tt; after = moment; failed = moment };
  at_end = moment;
}

abbrev rotation : Rotation
rotation = record {
  begun = moment;
  discovery_outcome = ok tt;
  loading = record {
    before = moment;
    loaded = ok (some credential);
    after = moment;
    failed = moment;
  };
  after_load = moment;
  now = 5;
  before_request = moment;
  authorized_at = 6;
  dispatched = moment;
  fetching = record {
    aborted_first = false;
    authorization = ok none;
    aborted_authorized = false;
    on_dispatch = ok tt;
    fetched = ok response;
    aborted_failure = false;
  };
  answering = answering;
  keeping = keeping;
}

rotation_example :
    IsRotated transport parse
      (λ bytes. bytes)
      rotation
      (rotate_device transport parse (λ bytes. bytes) (λ j. true) (λ j. true) rotation)
rotation_example =
    rotate_device-IsRotated transport parse (λ bytes. bytes) (λ j. true) (λ j. true) rotation

abbrev invitation : Invitation
invitation = record {
  pairing_id = codes "p";
  secret = codes "s";
  expires_at_ms = integer (pos 9);
  endpoint = origin;
  tls_pin = codes "t";
  pairing_uri = codes "u";
}

abbrev endpoint : HubUrl
endpoint = record {
  protocol = codes "https:";
  hostname = codes "h";
  username = [];
  password = [];
  pathname = codes "/";
  search = [];
  hash = [];
  origin = origin;
  search_params = [];
}

abbrev pairing_url : HubUrl
pairing_url = record {
  protocol = codes "teslatlas-hub:";
  hostname = codes "pair";
  username = [];
  password = [];
  pathname = [];
  search = codes "?";
  hash = [];
  origin = codes "null";
  search_params =
      (codes "endpoint", origin)
      ∷ (codes "pairing_id", codes "p")
      ∷ (codes "secret", codes "s")
      ∷ (codes "tls_pin", codes "t")
      ∷ [];
}

-- The two URLs of the invitation, told apart by their first letter.
abbrev parse_url : Text → Option HubUrl
parse_url [] = none
parse_url (c ∷ text) = elim (c == b'h') [ true ↦ some endpoint | false ↦ some pairing_url ]

abbrev run : PairingRun
run = record {
  begun = moment;
  now = 5;
  claim_transport = some (λ request. ok response);
  discovery_outcome = ok tt;
  after_discovery = moment;
  aborted_failure = false;
  is_abort_error = λ e. false;
  answering = answering;
  keeping = keeping;
}

pairing_example :
    IsPaired parse_url parse
      (λ bytes. bytes)
      invitation
      run
      (claim_pairing parse_url
        (λ i. true)
        endpoint
        parse
        (λ bytes. bytes)
        (λ j. true)
        (λ j. true)
        invitation
        (codes "phone")
        run)
pairing_example =
    claim_pairing-IsPaired parse_url (λ i. true) endpoint parse (λ bytes. bytes) (λ j. true)
      (λ j. true) invitation (codes "phone") run

abbrev reading : Reading
reading = record {
  begun = moment;
  before_discovery = moment;
  discovery_outcome = ok (record { hub_id = codes "h"; capabilities = codes "query.current" ∷ [] });
  after_discovery = moment;
  before_request = moment;
  loading = rotation.loading;
  authorized_at = 6;
  dispatched = moment;
  fetching = rotation.fetching;
  answering = answering;
}

-- The state that the answer holds, whatever the text.
abbrev parse_state : Text → Option Json
parse_state text = some (object (member (codes "vehicle_id") (string device) end))

current_example :
    AllOk
      (IsCurrent device reading)
      (current transport parse_state (λ bytes. bytes) (λ j. true) (λ j. true) device reading)
current_example =
    current-IsCurrent transport parse_state (λ bytes. bytes) (λ j. true) (λ j. true) device reading

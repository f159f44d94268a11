-- ===== src/Hub/Claims.antt =====
-- `rotateDevice` and the part of `claimPairing` behind its request, in src/hub/client.ts. What
-- `#ensureDiscovery`, the store, `fetch` and the claim transport do are values, and so is each moment
-- at which the operation is asserted. Parameters: those of the decoders, and the generated validators.
pub mod Answers
pub mod Saved
use teslatlas_sdk_typescript.Prelude.{
  ℕ, Bool, true, false, ◌&&◌, ◌||◌, not, Option, none, some, [], ◌∷◌, ◌++◌, ◌==◌, if◌then◌else◌,
}
use teslatlas_sdk_typescript.Js.Text.{Text, codes, text_eq}
use teslatlas_sdk_typescript.Js.Json.{Json, Number, number, string, field}
use teslatlas_sdk_typescript.Core.Errors.{
  SdkError, Result, ok, err, ◌>>=◌, ◌>>◌, throw_if, protocol_validation, hub_http_error, foreign,
  map_ok, as_safe_request_id,
}
use teslatlas_sdk_typescript.Http.BoundedBody.{Bytes}
use teslatlas_sdk_typescript.Http.Response.{Response, require_media_type}
use teslatlas_sdk_typescript.Http.FetchTransport.{FetchEnvironment, request}
use teslatlas_sdk_typescript.Client.Session.{Transport}
use teslatlas_sdk_typescript.Hub.Sessions.{Operation, begin_operation}
use teslatlas_sdk_typescript.Hub.Validate.{decode_hub_json}
use teslatlas_sdk_typescript.Hub.Failures.{
  Instant, assert_at, BodyInstants, other_route, read_body, hub_error_code, claim_extractor_code,
  thrown_code,
}
use teslatlas_sdk_typescript.Hub.Credentials.{
  Credential, Loading, Saving, is_unexpired, validate_credential, load_credential, save_credential,
}

-- The fields of a `HubClaim` that are read, and the metadata of its response.
pub record Claim : Type 0 where
  pub access_token : Text
  pub device_id : Text
  pub expires_at_ms : Number

pub record HubMetadata : Type 0 where
  pub status : ℕ
  pub etag : Option Text
  pub request_id : Option Text

pub data ClaimRoute : Type 0 where
  claims rotates : ClaimRoute

unfoldable pub as_credential : Claim → Credential
as_credential claim = record {
  access_token = claim.access_token;
  device_id = claim.device_id;
  expires_at_ms = claim.expires_at_ms;
}

-- `responseMetadata(response, false)`
unfoldable pub response_metadata : Response → Result HubMetadata
response_metadata response = do
  request_id ← elim response.headers.request_id [
    | none ↦ ok none
    | some value ↦ map_ok some (as_safe_request_id value)
  ]
  ok (record { status = response.status; etag = response.headers.etag; request_id = request_id })

-- The claim of a value that the validator let through.
unfoldable pub claim_of : Option Json → Option Json → Option Json → Result Claim
claim_of (some (string token)) (some (string device)) (some (number expires)) =
    ok (record { access_token = token; device_id = device; expires_at_ms = expires })
claim_of _ _ _ = err (foreign 0)

unfoldable pub is_claim_extractor_status : ℕ → Bool
is_claim_extractor_status status = status == 400 || (status == 415 || status == 422)

pub record Answering : Type 0 where
  pub before : Instant
  pub body : BodyInstants

module _ (parse : Text → Option Json) (decode_text : Bytes → Text)
    (validate_error validate_claim : Json → Bool) where
  unfoldable pub decode_claim : Response → Operation → BodyInstants → Result (Claim × HubMetadata)
  unfolding read_body assert_at claim_of response_metadata
  decode_claim response operation moments = do
    require_media_type response (codes "application/json") "HubClaim"
    body ← read_body parse decode_text response moments.at_body "HubClaim"
    value ← decode_hub_json parse body validate_claim "HubClaim"
    claim ←
        claim_of (field value (codes "accessToken")) (field value (codes "deviceId"))
          (field value (codes "expiresAtMs"))
    assert_at operation moments.after_body
    metadata ← response_metadata response
    ok (claim, metadata)

  unfoldable pub claim_failure : ClaimRoute → Response → Operation → BodyInstants → SdkError
  unfolding hub_error_code claim_extractor_code thrown_code is_claim_extractor_status
  claim_failure claims response operation moments =
      if is_claim_extractor_status response.status
      then thrown_code response (claim_extractor_code parse decode_text response operation moments)
      else thrown_code response
          (hub_error_code parse decode_text validate_error response other_route operation moments)
  claim_failure rotates response operation moments =
      thrown_code response
        (hub_error_code parse decode_text validate_error response other_route operation moments)

  unfoldable pub decode_claim_response :
      ClaimRoute → Response → Operation → Answering → Result (Claim × HubMetadata)
  unfolding decode_claim claim_failure
  decode_claim_response route response operation answering = do
    assert_at operation answering.before
    if response.status == 200
        then decode_claim response operation answering.body
        else err (claim_failure route response operation answering.body)

-- What is handed to the store, and how the call ends.
abbrev pub Kept : Type 0
Kept = Option Credential × Result (Claim × HubMetadata)

-- The moments at which a claim is looked at and saved.
pub record Keeping : Type 0 where
  pub before : Instant
  pub now : ℕ
  pub saving : Saving
  pub at_end : Instant

unfoldable pub require_unexpired_claim : Claim → ℕ → Result (Unit {0})
unfolding is_unexpired
require_unexpired_claim claim now =
    throw_if (not (is_unexpired claim.expires_at_ms now)) (protocol_validation "HubClaim.expiry")

-- The end of both methods: save, assert, return.
unfoldable pub kept_of :
    Operation → Keeping → Claim × HubMetadata → Option Credential × Result (Unit {0}) → Kept
unfolding assert_at
kept_of operation keeping answer (written, saved) =
    (written, saved >> (assert_at operation keeping.at_end >> ok answer))

unfoldable pub keep_claim : Operation → Keeping → Claim × HubMetadata → Kept
unfolding kept_of save_credential as_credential
keep_claim operation keeping answer =
    kept_of operation keeping answer
      (save_credential operation keeping.saving (as_credential answer.0))

abbrev pub or_unsaved : Result Kept → Kept
or_unsaved (ok kept) = kept
or_unsaved (err e) = (none, err e)

-- `claimPairing` from the claim transport's response on.
unfoldable pub keep_pairing : Operation → Keeping → Claim × HubMetadata → Result Kept
unfolding keep_claim require_unexpired_claim
keep_pairing operation keeping answer = do
  assert_at operation keeping.before
  require_unexpired_claim answer.0 keeping.now
  ok (keep_claim operation keeping answer)

unfoldable pub keep_rotation : Operation → Keeping → Credential → Claim × HubMetadata → Result Kept
unfolding keep_claim require_unexpired_claim
keep_rotation operation keeping previous answer = do
  assert_at operation keeping.before
  require_unexpired_claim answer.0 keeping.now
  throw_if (not (text_eq answer.0.device_id previous.device_id))
      (protocol_validation "HubClaim.deviceId")
  ok (keep_claim operation keeping answer)

-- What happens around a rotation, in its order.
pub record Rotation : Type 0 where
  pub begun : Instant
  pub discovery_outcome : Result (Unit {0})
  pub loading : Loading
  pub after_load : Instant
  pub now : ℕ
  pub before_request : Instant
  -- The time at which the authorization is asked for, and the moment of the dispatch.
  pub authorized_at : ℕ
  pub dispatched : Instant
  pub fetching : FetchEnvironment
  pub answering : Answering
  pub keeping : Keeping

unfoldable pub require_credential : Option Credential → Result Credential
require_credential none = err (hub_http_error 401 (codes "hub_http_error"))
require_credential (some credential) = ok credential

-- The `authorization` of a transport with a snapshot of the credential.
unfoldable pub bearer : Credential → ℕ → Result (Option Text)
unfolding validate_credential
bearer credential now = do
  validate_credential credential now
  ok (some (codes "Bearer " ++ credential.access_token))

unfoldable pub rotation_response : Transport → Operation → Credential → Rotation → Result Response
unfolding bearer assert_at
rotation_response transport operation previous rotation = do
  assert_at operation rotation.before_request
  (request transport.base_origin transport.resolve transport.is_abort_error
      (codes "/v1/device/rotate") transport.failure [] none
      (record rotation.fetching {
        authorization = bearer previous rotation.authorized_at;
        on_dispatch = assert_at operation rotation.dispatched;
      })).1

module _ (transport : Transport) (parse : Text → Option Json) (decode_text : Bytes → Text)
    (validate_error validate_claim : Json → Bool) where
  unfoldable pub rotated : Rotation → Result Kept
  unfolding rotation_response keep_rotation load_credential require_credential validate_credential
  rotated rotation = do
    operation ← begin_operation rotation.begun.session rotation.begun.aborted
    rotation.discovery_outcome
    loaded ← load_credential operation rotation.loading
    assert_at operation rotation.after_load
    previous ← require_credential loaded
    validate_credential previous rotation.now
    response ← rotation_response transport operation previous rotation
    answer ←
        decode_claim_response parse decode_text validate_error validate_claim rotates response
          operation rotation.answering
    keep_rotation operation rotation.keeping previous answer

  unfoldable pub rotate_device : Rotation → Kept
  unfolding rotated
  rotate_device rotation = or_unsaved (rotated rotation)

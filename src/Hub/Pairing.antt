-- ===== src/Hub/Pairing.antt =====
-- `claimPairing`, `parseEndpoint` and `validateInvitation` of src/hub/client.ts. Parameters: the URL
-- parser, the generated validators, and those of the decoders. The claim transport is a function of
-- what it is given; what `#ensureDiscovery` and the store do are values.
pub mod Saved
use teslatlas_sdk_typescript.Prelude.{
  ℕ, Bool, true, false, ◌&&◌, ◌||◌, not, Option, none, some, List, [], ◌∷◌, ◌++◌, ltb, leb, ◌==◌,
  if◌then◌else◌, all, any, length,
}
use teslatlas_sdk_typescript.Js.Text.{Text, codes, text_eq, split, is_digits}
use teslatlas_sdk_typescript.Js.Utf8.{utf8_length}
use teslatlas_sdk_typescript.Js.Uri.{encode_uri_component}
use teslatlas_sdk_typescript.Js.Json.{Json, Number}
use teslatlas_sdk_typescript.Core.Errors.{
  SdkError, Result, ok, err, ◌>>=◌, ◌>>◌, throw_if, protocol_validation, hub_tls_pin_unavailable,
  transport_error, aborted, is_teslatlas, is_empty,
}
use teslatlas_sdk_typescript.Http.BoundedBody.{Bytes}
use teslatlas_sdk_typescript.Http.Response.{Response}
use teslatlas_sdk_typescript.Http.RequestBuilder.{Values, lookup, or_throw, uri_error}
use teslatlas_sdk_typescript.Http.RequestSnapshot.{quoted}
use teslatlas_sdk_typescript.Hub.Sessions.{Operation, begin_operation}
use teslatlas_sdk_typescript.Hub.Failures.{Instant, assert_at}
use teslatlas_sdk_typescript.Hub.Credentials.{is_unexpired}
use teslatlas_sdk_typescript.Hub.Claims.{
  Kept, Keeping, Answering, claims, decode_claim_response, keep_pairing, or_unsaved,
}

pub record HubUrl : Type 0 where
  pub protocol : Text
  pub hostname : Text
  pub username : Text
  pub password : Text
  pub pathname : Text
  pub search : Text
  pub hash : Text
  pub origin : Text
  pub search_params : Values

pub record Invitation : Type 0 where
  pub pairing_id : Text
  pub secret : Text
  pub expires_at_ms : Number
  pub endpoint : Text
  pub tls_pin : Text
  pub pairing_uri : Text

-- `\.[0-9]{1,3}`
is_short_digits : Text → Bool
is_short_digits s = is_digits s && leb (length s) 3

is_loopback_octets : List Text → Bool
unfolding is_short_digits
is_loopback_octets (a ∷ b ∷ c ∷ d ∷ []) =
    text_eq a (codes "127") && all is_short_digits (b ∷ c ∷ d ∷ [])
is_loopback_octets _ = false

unfoldable pub is_loopback : Text → Bool
unfolding is_loopback_octets
is_loopback hostname =
    text_eq hostname (codes "localhost")
    || (text_eq hostname (codes "[::1]") || is_loopback_octets (split b'.' hostname))

unfoldable pub is_endpoint : HubUrl → Bool
unfolding is_loopback
is_endpoint url =
    (text_eq url.protocol (codes "https:")
      || (text_eq url.protocol (codes "http:") && is_loopback url.hostname))
    && (is_empty url.username
        && (is_empty url.password
            && (text_eq url.pathname (codes "/") && (is_empty url.search && is_empty url.hash))))

unfoldable pub parse_endpoint : Option HubUrl → Result HubUrl
unfolding is_endpoint
parse_endpoint none = err (protocol_validation "endpoint")
parse_endpoint (some url) = if is_endpoint url then ok url else err (protocol_validation "endpoint")

-- The parameters that a pairing URI has, and no others.
unfoldable pub expected_params : Invitation → Values
expected_params invitation =
    (codes "endpoint", invitation.endpoint)
    ∷ (codes "pairing_id", invitation.pairing_id)
    ∷ (codes "secret", invitation.secret)
    ∷ (codes "tls_pin", invitation.tls_pin)
    ∷ []

-- `searchParams.get(key) !== value`
unfoldable pub is_other_param : Values → Text × Text → Bool
unfolding lookup
is_other_param params (key, value) = elim (lookup key params) [
  | none ↦ true
  | some found ↦ not (text_eq found value)
]

unfoldable pub is_bad_pairing_uri : Invitation → Option HubUrl → Bool
unfolding expected_params is_other_param
is_bad_pairing_uri invitation none = true
is_bad_pairing_uri invitation (some uri) =
    not (text_eq uri.protocol (codes "teslatlas-hub:"))
    || (not (text_eq uri.hostname (codes "pair"))
        || (not (length uri.search_params == 4)
            || any (is_other_param uri.search_params) (expected_params invitation)))

module _ (parse_url : Text → Option HubUrl) (validate_wire : Invitation → Bool) where
  unfoldable pub validate_invitation : Invitation → HubUrl → ℕ → Result (Unit {0})
  unfolding parse_endpoint is_unexpired is_bad_pairing_uri
  validate_invitation invitation endpoint now = do
    throw_if (not (validate_wire invitation)) (protocol_validation "HubInvitation")
    throw_if (not (is_unexpired invitation.expires_at_ms now))
        (protocol_validation "HubInvitation.expiry")
    url ← parse_endpoint (parse_url invitation.endpoint)
    throw_if (not (text_eq url.origin endpoint.origin))
        (protocol_validation "HubInvitation.endpoint")
    throw_if (is_bad_pairing_uri invitation (parse_url invitation.pairing_uri))
        (protocol_validation "HubInvitation.pairingUri")

-- What the claim transport is given; its URL is this path at the endpoint.
pub record ClaimRequest : Type 0 where
  pub path : Text
  pub body : Text
  pub tls_pin : Text

-- `JSON.stringify({ secret, device_name })`
unfoldable pub claim_body : Invitation → Text → Text
unfolding quoted
claim_body invitation device_name =
    codes "{\"secret\":"
    ++ (quoted invitation.secret
        ++ (codes ",\"device_name\":" ++ (quoted device_name ++ codes "}")))

abbrev pub maximum_claim_request_bytes : ℕ
maximum_claim_request_bytes = 4096

unfoldable pub checked_body : Invitation → Text → Result Text
unfolding claim_body utf8_length
checked_body invitation device_name = do
  throw_if (is_empty device_name || ltb 65536 (length device_name))
      (protocol_validation "HubClaimRequest.deviceName")
  let body = claim_body invitation device_name
  throw_if (ltb maximum_claim_request_bytes (utf8_length body))
      (protocol_validation "HubClaimRequest.size")
  ok body

-- The `catch` around the claim transport.
unfoldable pub claim_transport_error : (SdkError → Bool) → Bool → SdkError → SdkError
unfolding is_teslatlas
claim_transport_error is_abort_error aborted_failure e =
    if is_teslatlas e
    then e
    else if aborted_failure
    then aborted
    else if is_abort_error e
    then e
    else transport_error

-- What happens around a claim, in its order.
pub record PairingRun : Type 0 where
  pub begun : Instant
  pub now : ℕ
  pub claim_transport : Option (ClaimRequest → Result Response)
  pub discovery_outcome : Result (Unit {0})
  pub after_discovery : Instant
  pub aborted_failure : Bool
  pub is_abort_error : SdkError → Bool
  pub answering : Answering
  pub keeping : Keeping

unfoldable pub require_transport :
    Option (ClaimRequest → Result Response) → Result (ClaimRequest → Result Response)
require_transport none = err hub_tls_pin_unavailable
require_transport (some send) = ok send

unfoldable pub sent_claim : (ClaimRequest → Result Response) → Invitation → Text → Result Response
unfolding encode_uri_component
sent_claim send invitation body = do
  pairing_id ← or_throw (encode_uri_component invitation.pairing_id) uri_error
  send (record {
    path = codes "/v1/pairings/" ++ (pairing_id ++ codes "/claim");
    body = body;
    tls_pin = invitation.tls_pin;
  })

unfoldable pub claim_answer : PairingRun → Result Response → Result Response
unfolding claim_transport_error
claim_answer run (ok response) = ok response
claim_answer run (err e) = err (claim_transport_error run.is_abort_error run.aborted_failure e)

module _ (parse_url : Text → Option HubUrl) (validate_wire : Invitation → Bool) (endpoint : HubUrl)
    (parse : Text → Option Json) (decode_text : Bytes → Text)
    (validate_error validate_claim : Json → Bool) where
  unfoldable pub paired : Invitation → Text → PairingRun → Result Kept
  unfolding validate_invitation checked_body require_transport sent_claim claim_answer keep_pairing
      assert_at
  paired invitation device_name run = do
    operation ← begin_operation run.begun.session run.begun.aborted
    validate_invitation parse_url validate_wire invitation endpoint run.now
    body ← checked_body invitation device_name
    send ← require_transport run.claim_transport
    run.discovery_outcome
    assert_at operation run.after_discovery
    response ← claim_answer run (sent_claim send invitation body)
    answer ←
        decode_claim_response parse decode_text validate_error validate_claim claims response
          operation run.answering
    keep_pairing operation run.keeping answer

  unfoldable pub claim_pairing : Invitation → Text → PairingRun → Kept
  unfolding paired
  claim_pairing invitation device_name run = or_unsaved (paired invitation device_name run)

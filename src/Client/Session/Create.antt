-- ===== src/Client/Session/Create.antt =====
-- `createClientSession` of src/client/session.ts. Parameters: the platform, the generated validator,
-- and the typed view of a discovery that it accepts.
pub mod Secure
use teslatlas_sdk_typescript.Prelude.{
  ℕ, Bool, true, false, ◌&&◌, ◌||◌, not, Option, none, some, List, [], ◌∷◌, leb, ltb, ◌==◌,
  if◌then◌else◌, all, length,
}
use teslatlas_sdk_typescript.Js.Text.{Text, codes, text_eq, split, is_digits, decimal_from}
use teslatlas_sdk_typescript.Js.Json.{Json}
use teslatlas_sdk_typescript.Core.Errors.{
  SdkError, Result, ok, err, ◌>>=◌, ◌>>◌, throw_if, aborted, is_empty, is_protocol_validation,
  invalid_base_url, protocol_validation,
}
use teslatlas_sdk_typescript.Core.OpaqueValues.{as_entity_tag}
use teslatlas_sdk_typescript.Http.BoundedBody.{Bytes}
use teslatlas_sdk_typescript.Http.JsonWalk.{decode_protocol_value}
use teslatlas_sdk_typescript.Http.Response.{Response, Aborts, require_media_type}
use teslatlas_sdk_typescript.Http.ResponseDecoder.{read_json}
use teslatlas_sdk_typescript.Http.RequestBuilder.{BuiltRequest, get}
use teslatlas_sdk_typescript.Http.FetchTransport.{Dispatch, FetchEnvironment}
use teslatlas_sdk_typescript.Protocol.Models.{HubDescriptor, Endpoints}
use teslatlas_sdk_typescript.Protocol.Negotiation.{negotiate_protocol_version}
use teslatlas_sdk_typescript.Client.Session.{
  Transport, ClientSession, WebUrl, Platform, new_fetch_transport, transport_request,
}

-- `/^\d{1,3}$/u.test(octet) && Number(octet) <= 255`
is_octet : Text → Bool
is_octet octet = is_digits octet && (leb (length octet) 3 && leb (decimal_from 0 octet) 255)

is_loopback_address : List Text → Bool
unfolding is_octet
is_loopback_address (a ∷ b ∷ c ∷ d ∷ []) =
    text_eq a (codes "127") && all is_octet (a ∷ b ∷ c ∷ d ∷ [])
is_loopback_address _ = false

unfoldable pub is_loopback_host : Text → Bool
unfolding is_loopback_address
is_loopback_host hostname =
    text_eq hostname (codes "localhost")
    || (text_eq hostname (codes "[::1]")
        || (text_eq hostname (codes "::1") || is_loopback_address (split b'.' hostname)))

unfoldable pub is_secure_url : Option WebUrl → Bool
unfolding is_loopback_host
is_secure_url none = false
is_secure_url (some url) =
    if not (is_empty url.username) || not (is_empty url.password)
    then false
    else text_eq url.protocol (codes "https:")
      || (text_eq url.protocol (codes "http:") && is_loopback_host url.hostname)

pub record CreateClientOptions : Type 0 where
  pub base_url : Text
  pub requested_protocol_version : Option Text

-- What happens around the discovery.
pub record DiscoveryEnvironment : Type 0 where
  pub fetching : FetchEnvironment
  pub aborts : Aborts

abbrev pub discovery_request : BuiltRequest
discovery_request = record {
  path = codes "/.well-known/teslatlas-hub";
  method = get;
  headers = [];
  body = none;
  if_none_match = none;
}

abbrev requested_version : Option Text → Text
requested_version none = codes "1.2.0"
requested_version (some version) = version

-- `requireDiscoveryEntityTag`: missing and malformed tags are one error.
unfoldable pub require_discovery_entity_tag : Option Text → Result (Unit {0})
require_discovery_entity_tag none = err (protocol_validation "Discovery.etag")
require_discovery_entity_tag (some value) = elim (as_entity_tag value) [
  | ok tag ↦ ok tt
  | err e ↦ err (protocol_validation "Discovery.etag")
]

-- `Object.values(descriptor.endpoints)`
abbrev pub endpoint_values : Endpoints → List Text
endpoint_values endpoints =
    endpoints.well_known ∷ endpoints.api ∷ endpoints.events ∷ endpoints.openapi ∷ []

module _ (platform : Platform) (parse_json : Bytes → Option Json) (validate_discovery : Json → Bool)
    (as_descriptor : Json → HubDescriptor) where
  unfoldable pub is_secure_endpoint_url : Text → Bool
  is_secure_endpoint_url value = is_secure_url (platform.parse_url value)

  unfoldable pub validate_endpoint_urls : HubDescriptor → Result (Unit {0})
  validate_endpoint_urls descriptor =
      throw_if (not (all is_secure_endpoint_url (endpoint_values descriptor.endpoints)))
        (protocol_validation "Discovery.endpoints")

  unfoldable pub discovered : DiscoveryEnvironment → Response → Result HubDescriptor
  unfolding require_discovery_entity_tag
  discovered environment response = do
    throw_if (not (response.status == 200)) (protocol_validation "Discovery.status")
    require_media_type response (codes "application/json") "validateDiscovery"
    require_discovery_entity_tag response.headers.etag
    body ← read_json parse_json response environment.aborts "validateDiscovery"
    value ← decode_protocol_value body validate_discovery "validateDiscovery"
    ok (as_descriptor value)

  -- What follows the discovery.
  unfoldable pub session_of : CreateClientOptions → Transport → HubDescriptor → Result ClientSession
  session_of options discovery_transport descriptor = do
    validate_endpoint_urls descriptor
    version ←
        negotiate_protocol_version descriptor (requested_version options.requested_protocol_version)
    api ← new_fetch_transport platform descriptor.endpoints.api
    events ← new_fetch_transport platform descriptor.endpoints.events
    ok (record {
      descriptor = descriptor;
      protocol_version = version;
      discovery_transport = discovery_transport;
      api_transport = api;
      event_transport = events;
    })

  unfoldable pub create_client_session :
      CreateClientOptions → DiscoveryEnvironment → Result ClientSession
  unfolding discovered session_of
  create_client_session options environment = do
    throw_if (not (is_secure_endpoint_url options.base_url)) invalid_base_url
    transport ← new_fetch_transport platform options.base_url
    response ← (transport_request transport environment.fetching discovery_request).1
    descriptor ← discovered environment response
    session_of options transport descriptor

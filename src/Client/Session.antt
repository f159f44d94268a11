-- ===== src/Client/Session.antt =====
-- `ClientSession` of src/client/types.ts with its transports, and `acceptedResponseVersions` of
-- src/client/client.ts. A transport has the parameters of `FetchTransport`.
pub mod Create
use teslatlas_sdk_typescript.Prelude.{
  ℕ, suc, Bool, true, false, ◌&&◌, ◌||◌, not, Option, none, some, List, [], ◌∷◌, ltb, if◌then◌else◌,
}
use teslatlas_sdk_typescript.Js.Text.{Text, codes, text_eq}
use teslatlas_sdk_typescript.Js.Json.{Json}
use teslatlas_sdk_typescript.Core.Errors.{
  SdkError, Result, ok, err, ◌>>=◌, ◌>>◌, throw_if, is_empty, invalid_base_url, missing_fetch,
}
use teslatlas_sdk_typescript.Http.RequestBuilder.{BuiltRequest}
use teslatlas_sdk_typescript.Http.Response.{Response}
use teslatlas_sdk_typescript.Http.FetchTransport.{
  Target, Dispatched, unsent, FetchEnvironment, request,
}
use teslatlas_sdk_typescript.Protocol.Models.{HubDescriptor}
use teslatlas_sdk_typescript.Protocol.Negotiation.{negotiate_protocol_version}

pub record Transport : Type 0 where
  pub base_origin : Text
  pub resolve : Text → Option Target
  pub is_abort_error : SdkError → Bool
  -- What the platform throws for a path that does not resolve.
  pub failure : SdkError

-- What the sources read of a `URL`, with the resolution of a path against it.
pub record WebUrl : Type 0 where
  pub protocol : Text
  pub hostname : Text
  pub username : Text
  pub password : Text
  pub origin : Text
  pub resolve : Text → Option Target

-- `parseBaseUrl` of src/http/fetch-transport.ts
unfoldable pub is_base_url : WebUrl → Bool
is_base_url url =
    (text_eq url.protocol (codes "http:") || text_eq url.protocol (codes "https:"))
    && (is_empty url.username && is_empty url.password)

unfoldable pub parse_base_url : Option WebUrl → Result WebUrl
parse_base_url none = err invalid_base_url
parse_base_url (some url) = if is_base_url url then ok url else err invalid_base_url

-- The platform: whether there is a `fetch`, given or global, and its errors.
pub record Platform : Type 0 where
  pub parse_url : Text → Option WebUrl
  pub has_fetch : Bool
  pub is_abort_error : SdkError → Bool
  pub failure : SdkError

-- `new FetchTransport({ baseUrl, fetch })`
unfoldable pub new_fetch_transport : Platform → Text → Result Transport
unfolding parse_base_url is_base_url
new_fetch_transport platform base_url = do
  url ← parse_base_url (platform.parse_url base_url)
  throw_if (not platform.has_fetch) missing_fetch
  ok (record {
    base_origin = url.origin;
    resolve = url.resolve;
    is_abort_error = platform.is_abort_error;
    failure = platform.failure;
  })

pub record ClientSession : Type 0 where
  pub descriptor : HubDescriptor
  pub protocol_version : Text
  pub discovery_transport : Transport
  pub api_transport : Transport
  pub event_transport : Transport

-- `transport.request(request.path, request.init)`
unfoldable pub transport_request :
    Transport → FetchEnvironment → BuiltRequest → Dispatched × Result Response
transport_request transport environment built =
    request transport.base_origin transport.resolve transport.is_abort_error built.path
      transport.failure built.headers built.if_none_match environment

-- `versions.indexOf(version)`, plus one.
unfoldable pub position : List Text → Text → ℕ
position [] version = 0
position (candidate ∷ rest) version =
    let later = position rest version in
    if text_eq candidate version then 1 else (if ltb 0 later then suc later else 0)

abbrev pub response_versions : List Text
response_versions = codes "1.0.0" ∷ codes "1.1.0" ∷ codes "1.2.0" ∷ []

abbrev pub is_itself : Result Text → Text → Bool
is_itself (ok chosen) version = text_eq chosen version
is_itself (err e) version = false

unfoldable pub is_accepted : ClientSession → Text → Bool
unfolding position
is_accepted session version =
    not (
      ltb (position response_versions session.protocol_version)
        (position response_versions version))
    && is_itself (negotiate_protocol_version session.descriptor version) version

filtered : (Text → Bool) → List Text → List Text
filtered keep [] = []
filtered keep (version ∷ rest) =
    let others = filtered keep rest in if keep version then version ∷ others else others

unfoldable pub accepted_response_versions : ClientSession → List Text
unfolding filtered is_accepted
accepted_response_versions session = filtered (is_accepted session) response_versions

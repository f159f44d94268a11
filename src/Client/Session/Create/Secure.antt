-- ===== src/Client/Session/Create/Secure.antt =====
-- A session that is created is secure and speaks a negotiated version.
use teslatlas_sdk_typescript.Prelude.{
  ◌≡◌, refl, ◌⊎◌, inl, inr, Bool, true, not, Option, none, some, List, [], ◌∷◌, all, All, arith,
  not_false_lem, Bool-cases,
}
use teslatlas_sdk_typescript.Js.Text.{Text, codes, text_eq, text_eq_iff}
use teslatlas_sdk_typescript.Js.Json.{Json}
use teslatlas_sdk_typescript.Core.Errors.{
  ok, is_empty, invalid_base_url, AllOk, AllOk-bind, AllOk-guard, AllOk-ok, throw_if-AllOk,
}
use teslatlas_sdk_typescript.Http.BoundedBody.{Bytes}
use teslatlas_sdk_typescript.Protocol.Models.{HubDescriptor}
use teslatlas_sdk_typescript.Protocol.Negotiation.{negotiate_protocol_version}
use teslatlas_sdk_typescript.Client.Session.{
  Transport, ClientSession, WebUrl, Platform, new_fetch_transport, transport_request,
}
use teslatlas_sdk_typescript.Client.Session.Create.{
  is_loopback_host, is_secure_url, is_secure_endpoint_url, endpoint_values, validate_endpoint_urls,
  CreateClientOptions, DiscoveryEnvironment, requested_version, discovery_request, discovered,
  session_of, create_client_session,
}

-- Without credentials, and over TLS or to the loopback host.
pub record IsSecure (url : WebUrl) : Type 0 where
  pub no_username : is_empty url.username ≡ true
  pub no_password : is_empty url.password ≡ true
  pub guarded :
      (url.protocol ≡ codes "https:")
      ⊎ ((url.protocol ≡ codes "http:") × (is_loopback_host url.hostname ≡ true))

is_secure_url-IsSecure : (url : WebUrl) → is_secure_url (some url) ≡ true → IsSecure url
unfolding is_secure_url
is_secure_url-IsSecure url h = record {
  no_username = ground (arith, h);
  no_password = ground (arith, h);
  guarded = elim (Bool-cases (text_eq url.protocol (codes "https:"))) [
    | inl e ↦ inl ((text_eq_iff url.protocol (codes "https:")).0 e)
    | inr e ↦
        inr (
          (text_eq_iff url.protocol (codes "http:")).0 (ground (arith, h, e)),
          ground (arith, h, e),
        )
  ];
}

module _ (platform : Platform) where
  -- The text is a URL, and a secure one.
  pub IsSecureText : Text → Type 0
  IsSecureText value = (url : WebUrl) × (platform.parse_url value ≡ some url) × IsSecure url

  parsed-IsSecure :
      (o : Option WebUrl) → is_secure_url o ≡ true → (url : WebUrl) × (o ≡ some url) × IsSecure url
  parsed-IsSecure none h = unfold is_secure_url in ground (arith, h)
  parsed-IsSecure (some url) h = (url, refl, is_secure_url-IsSecure url h)

  module _ (parse_json : Bytes → Option Json) (validate_discovery : Json → Bool)
      (as_descriptor : Json → HubDescriptor) where
    endpoint-IsSecureText :
        (value : Text)
        → is_secure_endpoint_url platform parse_json validate_discovery as_descriptor value ≡ true
        → IsSecureText value
    unfolding is_secure_endpoint_url IsSecureText
    endpoint-IsSecureText value h = parsed-IsSecure (platform.parse_url value) h

    endpoints-AreSecure :
        (values : List Text)
        → all (is_secure_endpoint_url platform parse_json validate_discovery as_descriptor) values
          ≡ true
        → All IsSecureText values
    endpoints-AreSecure [] h = tt
    endpoints-AreSecure (value ∷ rest) h = (
      endpoint-IsSecureText value (ground (arith, h)),
      endpoints-AreSecure rest (ground (arith, h)),
    )

    -- The base URL and every endpoint are secure, the version was negotiated with the descriptor,
    -- and the transports go to the base URL and to the endpoints of the descriptor.
    pub record IsSecureSession (options : CreateClientOptions) (session : ClientSession)
        : Type 0 where
      pub base : IsSecureText options.base_url
      pub endpoints : All IsSecureText (endpoint_values session.descriptor.endpoints)
      pub negotiated :
          negotiate_protocol_version session.descriptor
            (requested_version options.requested_protocol_version)
          ≡ ok session.protocol_version
      pub discovery : new_fetch_transport platform options.base_url ≡ ok session.discovery_transport
      pub api :
          new_fetch_transport platform session.descriptor.endpoints.api ≡ ok session.api_transport
      pub events :
          new_fetch_transport platform session.descriptor.endpoints.events
          ≡ ok session.event_transport

    validate_endpoint_urls-AreSecure :
        (descriptor : HubDescriptor)
        → AllOk
            (λ done. All IsSecureText (endpoint_values descriptor.endpoints))
            (validate_endpoint_urls platform parse_json validate_discovery as_descriptor descriptor)
    unfolding validate_endpoint_urls
    validate_endpoint_urls-AreSecure descriptor =
        let values = endpoint_values descriptor.endpoints in
        throw_if-AllOk (λ done. All IsSecureText values)
          (not (
            all (is_secure_endpoint_url platform parse_json validate_discovery as_descriptor)
              values))
          _ λ h. endpoints-AreSecure values (not_false_lem _ h)

    session_of-IsSecureSession :
        (options : CreateClientOptions) (transport : Transport) (descriptor : HubDescriptor)
        → IsSecureText options.base_url
        → new_fetch_transport platform options.base_url ≡ ok transport
        → AllOk (IsSecureSession options) (
            session_of platform parse_json validate_discovery as_descriptor options transport
              descriptor)
    unfolding session_of
    session_of-IsSecureSession options transport descriptor base made =
        let P = IsSecureSession options in
        AllOk-bind P
          (validate_endpoint_urls platform parse_json validate_discovery as_descriptor descriptor) _
          λ done secure.
            AllOk-bind P
              (negotiate_protocol_version descriptor
                (requested_version options.requested_protocol_version))
              _
              λ version negotiated.
                AllOk-bind P (new_fetch_transport platform descriptor.endpoints.api) _ λ api a.
                  AllOk-bind P (new_fetch_transport platform descriptor.endpoints.events) _
                    λ events e. record {
                      base = base;
                      endpoints =
                          AllOk-ok (λ d. All IsSecureText (endpoint_values descriptor.endpoints)) _
                            (validate_endpoint_urls-AreSecure descriptor) secure;
                      negotiated = negotiated;
                      discovery = made;
                      api = a;
                      events = e;
                    }

    -- A session that is created has a base URL and endpoints without credentials that are HTTPS or
    -- loopback, a version negotiated with the descriptor, and transports to exactly those URLs.
    pub create_client_session-IsSecureSession :
        (options : CreateClientOptions) (environment : DiscoveryEnvironment)
        → AllOk (IsSecureSession options) (
            create_client_session platform parse_json validate_discovery as_descriptor options
              environment)
    unfolding create_client_session
    create_client_session-IsSecureSession options environment =
        let P = IsSecureSession options in
        AllOk-guard P
          (not (
            is_secure_endpoint_url platform parse_json validate_discovery as_descriptor
              options.base_url))
          invalid_base_url _
          λ h. AllOk-bind P (new_fetch_transport platform options.base_url) _ λ transport made.
            AllOk-bind P (transport_request transport environment.fetching discovery_request).1 _
              λ response _.
                AllOk-bind P
                  (discovered platform parse_json validate_discovery as_descriptor environment
                    response)
                  _
                  λ descriptor _.
                    session_of-IsSecureSession options transport descriptor
                      (endpoint-IsSecureText options.base_url (not_false_lem _ h)) made

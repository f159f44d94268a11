-- ===== src/Hub/Claims/Answers.antt =====
-- The claim of a response in src/hub/client.ts, told from the body of the response.
use teslatlas_sdk_typescript.Prelude.{
  ◌≡◌, ◌≤◌, refl, sym, ◌∙◌, ap, subst, Bool, not, Option, none, some, String, ◌==◌, ==_iff, length,
}
use teslatlas_sdk_typescript.Js.Text.{Text, codes}
use teslatlas_sdk_typescript.Js.Json.{Json, number, string, field}
use teslatlas_sdk_typescript.Core.Errors.{AllOk, AllOk-bind, AllOk-guard, AllOk-if, AllOk-ok}
use teslatlas_sdk_typescript.Http.BoundedBody.{Bytes, read_bounded}
use teslatlas_sdk_typescript.Http.Response.{Response, require_media_type}
use teslatlas_sdk_typescript.Http.ResponseDecoder.Laws.{body_bytes, read_bounded-all}
use teslatlas_sdk_typescript.Http.JsonWalk.{assert_finite_numbers}
use teslatlas_sdk_typescript.Http.ProtocolJson.{Wire, numeric_mirror, or_name, parse_protocol_json}
use teslatlas_sdk_typescript.Hub.Validate.{camelize, decode_hub_json, reject_inexact_integer_fields}
use teslatlas_sdk_typescript.Hub.Sessions.{Operation}
use teslatlas_sdk_typescript.Hub.Failures.{
  BodyInstants, assert_at, read_body, maximum_response_bytes,
}
use teslatlas_sdk_typescript.Hub.Credentials.{Credential}
use teslatlas_sdk_typescript.Hub.Claims.{
  Claim, HubMetadata, ClaimRoute, Answering, as_credential, claim_of, decode_claim,
  decode_claim_response, response_metadata,
}

-- The fields that a credential is made of, in a value with the SDK's names.
pub IsCredentialOf : Json → Credential → Type 0
IsCredentialOf value c =
    (field value (codes "accessToken") ≡ some (string c.access_token))
    × (field value (codes "deviceId") ≡ some (string c.device_id))
    × (field value (codes "expiresAtMs") ≡ some (number c.expires_at_ms))

claim_of-same :
    (token device expires : Option Json)
    → AllOk
        (λ claim.
          (token ≡ some (string claim.access_token))
          × (device ≡ some (string claim.device_id))
          × (expires ≡ some (number claim.expires_at_ms)))
        (claim_of token device expires)
unfolding claim_of
claim_of-same (some (string token)) (some (string device)) (some (number expires)) =
    (refl, refl, refl)
claim_of-same _ _ _ = tt

or_name-same :
    (found : Option Json) (name : String) → AllOk (λ v. found ≡ some v) (or_name found name)
unfolding or_name
or_name-same none name = tt
or_name-same (some v) name = refl

module _ (parse : Text → Option Json) (decode_text : Bytes → Text) where
  -- The response is a success, and the credential stands in the parse of its whole body.
  pub IsGranted : Response → Credential → Type 0
  IsGranted response c =
      (response.status ≡ 200)
      × ((value : Json) × (parse (decode_text (body_bytes response.body)) ≡ some value)
          × IsCredentialOf (camelize value) c)

  parse_protocol_json-same :
      (source : Text) (name : String)
      → AllOk (λ found. parse source ≡ some found.0) (parse_protocol_json parse source name)
  unfolding parse_protocol_json
  parse_protocol_json-same source name =
      let P : Json × Wire → Type 0 = λ found. parse source ≡ some found.0 in
      AllOk-bind P (or_name (parse (numeric_mirror source)) name) _ λ lexical _.
        AllOk-bind P (or_name (parse source) name) _ λ value e.
          AllOk-bind P (assert_finite_numbers value name) _
            λ x _. AllOk-ok (λ v. parse source ≡ some v) _ (or_name-same (parse source) name) e

  abbrev IsDecoded : Text → Json → Type 0
  IsDecoded source value = (found : Json) × (parse source ≡ some found) × (value ≡ camelize found)

  decode_hub_json-IsDecoded :
      (source : Text) (validator : Json → Bool) (name : String)
      → AllOk (IsDecoded source) (decode_hub_json parse source validator name)
  unfolding decode_hub_json
  decode_hub_json-IsDecoded source validator name =
      let P = IsDecoded source in
      AllOk-bind P (parse_protocol_json parse source name) _ λ found e.
        AllOk-bind P (reject_inexact_integer_fields found.1 name) _ λ x _.
          AllOk-guard P (not (validator found.0)) _ _ λ _. (
            found.0,
            AllOk-ok (λ f. parse source ≡ some f.0) _ (parse_protocol_json-same source name) e,
            refl,
          )

  read_body-same :
      (response : Response) (at_body : Bool) (name : String)
      → AllOk
          (λ text. text ≡ decode_text (body_bytes response.body))
          (read_body parse decode_text response at_body name)
  unfolding read_body
  read_body-same response at_body name =
      AllOk-bind (λ text. text ≡ decode_text (body_bytes response.body))
        (read_bounded name maximum_response_bytes at_body response.body) _
        λ bytes e.
          ap decode_text
            (AllOk-ok (λ b. (b ≡ body_bytes response.body) × (length b ≤ maximum_response_bytes)) _
              (read_bounded-all name maximum_response_bytes at_body response.body) e).0

  module _ (validate_error validate_claim : Json → Bool) where
    decode_claim-IsGranted :
        (response : Response) (operation : Operation) (moments : BodyInstants)
        → response.status ≡ 200
        → AllOk
            (λ answer. IsGranted response (as_credential answer.0))
            (decode_claim parse decode_text validate_error validate_claim response operation
              moments)
    unfolding decode_claim IsGranted IsCredentialOf as_credential
    decode_claim-IsGranted response operation moments status =
        let P : Claim × HubMetadata → Type 0 =
          λ answer. IsGranted response (as_credential answer.0) in
        AllOk-bind P (require_media_type response (codes "application/json") "HubClaim") _ λ x _.
          AllOk-bind P (read_body parse decode_text response moments.at_body "HubClaim") _ λ body a.
            AllOk-bind P (decode_hub_json parse body validate_claim "HubClaim") _ λ value b.
              AllOk-bind P
                (claim_of (field value (codes "accessToken")) (field value (codes "deviceId"))
                  (field value (codes "expiresAtMs")))
                _
                λ claim c. AllOk-bind P (assert_at operation moments.after_body) _ λ y _.
                  AllOk-bind P (response_metadata response) _ λ metadata _.
                    let text =
                      AllOk-ok (λ t. t ≡ decode_text (body_bytes response.body)) _
                        (read_body-same response moments.at_body "HubClaim") a in
                    let (found, parsed, camel) =
                      AllOk-ok (IsDecoded body) _
                        (decode_hub_json-IsDecoded body validate_claim "HubClaim") b in
                    (
                      status,
                      (
                        found,
                        ap parse (sym text) ∙ parsed,
                        subst (λ v. IsCredentialOf v (as_credential claim)) camel
                            (AllOk-ok _ _
                              (claim_of-same (field value (codes "accessToken"))
                                (field value (codes "deviceId"))
                                (field value (codes "expiresAtMs")))
                              c),
                      ),
                    )

    pub decode_claim_response-IsGranted :
        (route : ClaimRoute) (response : Response) (operation : Operation) (answering : Answering)
        → AllOk
            (λ answer. IsGranted response (as_credential answer.0))
            (decode_claim_response parse decode_text validate_error validate_claim route response
              operation answering)
    unfolding decode_claim_response
    decode_claim_response-IsGranted route response operation answering =
        let P : Claim × HubMetadata → Type 0 =
          λ answer. IsGranted response (as_credential answer.0) in
        AllOk-bind P (assert_at operation answering.before) _ λ x _.
          AllOk-if P (response.status == 200) _ _
            (λ e.
              decode_claim-IsGranted response operation answering.body
                ((==_iff response.status 200).0 e))
            (λ _. tt)

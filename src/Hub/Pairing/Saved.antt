-- ===== src/Hub/Pairing/Saved.antt =====
-- What a claim of src/hub/client.ts leaves in the caller's store.
use teslatlas_sdk_typescript.Prelude.{◌≡◌, refl, arith, Bool, true, false, not, Option, none, some}
use teslatlas_sdk_typescript.Js.Text.{Text, text_eq}
use teslatlas_sdk_typescript.Js.Json.{Json}
use teslatlas_sdk_typescript.Core.Errors.{
  Result, ok, err, AllOk, AllOk-bind, AllOk-guard, AllOk-map, AllOk-ok, throw_if-AllOk,
}
use teslatlas_sdk_typescript.Http.BoundedBody.{Bytes}
use teslatlas_sdk_typescript.Hub.Sessions.{Operation, begin_operation}
use teslatlas_sdk_typescript.Hub.Failures.{assert_at}
use teslatlas_sdk_typescript.Hub.Credentials.{Credential, is_unexpired}
use teslatlas_sdk_typescript.Http.Response.{Response}
use teslatlas_sdk_typescript.Hub.Claims.Answers.{IsGranted, decode_claim_response-IsGranted}
use teslatlas_sdk_typescript.Hub.Claims.{
  Claim, HubMetadata, Kept, Keeping, as_credential, require_unexpired_claim, keep_pairing,
  decode_claim_response, claims, or_unsaved,
}
use teslatlas_sdk_typescript.Hub.Claims.Saved.{
  Failed, IsKept, IsSameSession, assert_at-IsSameSession, keep_claim-IsKept,
}
use teslatlas_sdk_typescript.Hub.Pairing.{
  HubUrl, Invitation, PairingRun, ClaimRequest, parse_endpoint, is_bad_pairing_uri,
  validate_invitation, checked_body, require_transport, sent_claim, claim_answer, paired,
  claim_pairing,
}

-- The invitation was not expired, and its pairing URI has its fields and no others.
pub IsInvited : (Text → Option HubUrl) → Invitation → PairingRun → Type 0
IsInvited parse_url invitation run =
    (is_unexpired invitation.expires_at_ms run.now ≡ true)
    × (is_bad_pairing_uri invitation (parse_url invitation.pairing_uri) ≡ false)

-- The credential stands in the response that the claim transport gave to the invitation.
IsClaimed : (Text → Option Json) → (Bytes → Text) → Invitation → PairingRun → Credential → Type 0
IsClaimed parse decode_text invitation run c =
    (send : ClaimRequest → Result Response) × (run.claim_transport ≡ some send)
    × ((body : Text) × (response : Response) × (sent_claim send invitation body ≡ ok response)
        × IsGranted parse decode_text response c)

pub IsPaired :
    (Text → Option HubUrl)
    → (Text → Option Json)
    → (Bytes → Text)
    → Invitation
    → PairingRun
    → Kept
    → Type 0
IsPaired parse_url parse decode_text invitation run (none, r) = Failed r
IsPaired parse_url parse decode_text invitation run (some c, r) =
    (is_unexpired c.expires_at_ms run.keeping.now ≡ true)
    × IsSameSession run.begun run.keeping.saving.queued
    × IsInvited parse_url invitation run
    × IsClaimed parse decode_text invitation run c
    × AllOk (λ answer. as_credential answer.0 ≡ c) r

validate_invitation-AllOk :
    (parse_url : Text → Option HubUrl) (validate_wire : Invitation → Bool) (invitation : Invitation)
    (endpoint : HubUrl) (run : PairingRun)
    → AllOk
        (λ x. IsInvited parse_url invitation run)
        (validate_invitation parse_url validate_wire invitation endpoint run.now)
unfolding validate_invitation IsInvited
validate_invitation-AllOk parse_url validate_wire invitation endpoint run =
    let P : Unit {0} → Type 0 = λ x. IsInvited parse_url invitation run in
    AllOk-guard P (not (validate_wire invitation)) _ _ λ wire.
      AllOk-guard P (not (is_unexpired invitation.expires_at_ms run.now)) _ _ λ fresh.
        AllOk-bind P (parse_endpoint (parse_url invitation.endpoint)) _ λ url parsed.
          AllOk-guard P (not (text_eq url.origin endpoint.origin)) _ _ λ origin.
            throw_if-AllOk P (is_bad_pairing_uri invitation (parse_url invitation.pairing_uri)) _
              (λ agrees. (ground (arith, fresh), agrees))

keep_pairing-IsKept :
    (operation : Operation) (keeping : Keeping) (answer : Claim × HubMetadata)
    (P : Credential → Type 0)
    → P (as_credential answer.0)
    → AllOk (IsKept operation keeping P) (keep_pairing operation keeping answer)
unfolding keep_pairing require_unexpired_claim
keep_pairing-IsKept operation keeping answer P p =
    AllOk-bind (IsKept operation keeping P) (assert_at operation keeping.before) _ λ x live.
      AllOk-guard (IsKept operation keeping P)
        (not (is_unexpired answer.0.expires_at_ms keeping.now)) _ _
        λ fresh. keep_claim-IsKept operation keeping P answer (ground (arith, fresh)) p

claim_answer-same :
    (run : PairingRun) (r : Result Response)
    → AllOk (λ response. r ≡ ok response) (claim_answer run r)
unfolding claim_answer
claim_answer-same run (ok response) = refl
claim_answer-same run (err e) = tt

require_transport-same :
    (found : Option (ClaimRequest → Result Response))
    → AllOk (λ send. found ≡ some send) (require_transport found)
unfolding require_transport
require_transport-same none = tt
require_transport-same (some send) = refl

module _ (parse_url : Text → Option HubUrl) (validate_wire : Invitation → Bool) (endpoint : HubUrl)
    (parse : Text → Option Json) (decode_text : Bytes → Text)
    (validate_error validate_claim : Json → Bool) where
  abbrev Paired : Invitation → PairingRun → Kept → Type 0
  Paired invitation run = IsPaired parse_url parse decode_text invitation run

  IsKept-IsPaired :
      (invitation : Invitation) (run : PairingRun) (operation : Operation) (kept : Kept)
      → begin_operation run.begun.session run.begun.aborted ≡ ok operation
      → IsInvited parse_url invitation run
      → IsKept operation run.keeping (IsClaimed parse decode_text invitation run) kept
      → Paired invitation run kept
  unfolding IsKept IsPaired
  IsKept-IsPaired invitation run operation (none, r) begun invited h = h
  IsKept-IsPaired invitation run operation (some c, r) begun invited (fresh, live, claimed, last) =
      (fresh, assert_at-IsSameSession run.begun _ operation begun live, invited, claimed, last)

  paired-IsPaired :
      (invitation : Invitation) (device_name : Text) (run : PairingRun)
      → AllOk (Paired invitation run) (
          paired parse_url validate_wire endpoint parse decode_text validate_error validate_claim
            invitation device_name run)
  unfolding paired IsClaimed
  paired-IsPaired invitation device_name run =
      let P : Kept → Type 0 = Paired invitation run in
      AllOk-bind P (begin_operation run.begun.session run.begun.aborted) _ λ operation begun.
        AllOk-bind P (validate_invitation parse_url validate_wire invitation endpoint run.now) _
          λ x valid. AllOk-bind P (checked_body invitation device_name) _ λ body sized.
            AllOk-bind P (require_transport run.claim_transport) _ λ send given.
              AllOk-bind P run.discovery_outcome _ λ y e.
                AllOk-bind P (assert_at operation run.after_discovery) _ λ z d.
                  AllOk-bind P (claim_answer run (sent_claim send invitation body)) _
                    λ response sent.
                      AllOk-bind P
                        (decode_claim_response parse decode_text validate_error validate_claim
                          claims response operation run.answering)
                        _
                        λ answer decoded.
                          AllOk-map
                            (IsKept operation run.keeping
                              (IsClaimed parse decode_text invitation run))
                            P (keep_pairing operation run.keeping answer)
                            (λ kept. IsKept-IsPaired invitation run operation kept begun (
                              AllOk-ok (λ u. IsInvited parse_url invitation run) _
                                (validate_invitation-AllOk parse_url validate_wire invitation
                                  endpoint run)
                                valid))
                            (keep_pairing-IsKept operation run.keeping answer
                              (IsClaimed parse decode_text invitation run)
                              (
                                send,
                                AllOk-ok (λ f. run.claim_transport ≡ some f) _
                                    (require_transport-same run.claim_transport) given,
                                (
                                  body,
                                  response,
                                  AllOk-ok (λ r. sent_claim send invitation body ≡ ok r) _
                                      (claim_answer-same run (sent_claim send invitation body))
                                      sent,
                                  AllOk-ok
                                      (λ a.
                                        IsGranted parse decode_text response (as_credential a.0))
                                      _
                                      (decode_claim_response-IsGranted parse decode_text
                                        validate_error validate_claim claims response operation
                                        run.answering)
                                      decoded,
                                ),
                              ))

  or_unsaved-IsPaired :
      (invitation : Invitation) (run : PairingRun) (r : Result Kept)
      → AllOk (Paired invitation run) r
      → Paired invitation run (or_unsaved r)
  unfolding IsPaired
  or_unsaved-IsPaired invitation run (ok kept) h = h
  or_unsaved-IsPaired invitation run (err e) h = tt

  -- A claim either throws with nothing handed to the store, or hands it the credential that stands in
  -- the body of the response that the claim transport gave: unexpired at the look at it, under an
  -- invitation that was not expired and whose pairing URI agrees with it, and with the client still in
  -- the session of the call and not disposed. If the call then returns, it returns that claim.
  pub claim_pairing-IsPaired :
      (invitation : Invitation) (device_name : Text) (run : PairingRun)
      → IsPaired parse_url parse decode_text invitation run (
          claim_pairing parse_url validate_wire endpoint parse decode_text validate_error
            validate_claim invitation device_name run)
  unfolding claim_pairing
  claim_pairing-IsPaired invitation device_name run =
      or_unsaved-IsPaired invitation run
        (paired parse_url validate_wire endpoint parse decode_text validate_error validate_claim
          invitation device_name run)
        (paired-IsPaired invitation device_name run)

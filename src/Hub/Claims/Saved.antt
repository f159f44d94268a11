-- ===== src/Hub/Claims/Saved.antt =====
-- What a rotation of src/hub/client.ts leaves in the caller's store.
use teslatlas_sdk_typescript.Prelude.{
  ◌≡◌, refl, ap, sym, ◌∙◌, arith, Bool, true, false, ◌||◌, not, Option, none, some, ◌==◌,
}
use teslatlas_sdk_typescript.Js.Text.{Text, text_eq, text_eq_iff}
use teslatlas_sdk_typescript.Js.Json.{Json}
use teslatlas_sdk_typescript.Core.Errors.{
  AllOk-ok, SdkError, Result, ok, err, ◌>>=◌, ◌>>◌, throw_if, AllOk, AllOk-bind, AllOk-guard,
  AllOk-map, err≢ok, Fails, >>=-eq-ok, throw_if-eq-ok, aborted, client_disposed,
}
use teslatlas_sdk_typescript.Http.BoundedBody.{Bytes}
use teslatlas_sdk_typescript.Client.Session.{Transport}
use teslatlas_sdk_typescript.Hub.Sessions.{Operation, is_expired, assert_operation, begin_operation}
use teslatlas_sdk_typescript.Hub.Failures.{Instant, assert_at}
use teslatlas_sdk_typescript.Hub.Credentials.{
  Credential, Loading, is_unexpired, or_over, load_credential, save_credential, save_turn,
  validate_credential,
}
use teslatlas_sdk_typescript.Http.Response.{Response}
use teslatlas_sdk_typescript.Hub.Claims.Answers.{IsGranted, decode_claim_response-IsGranted}
use teslatlas_sdk_typescript.Hub.Claims.{
  Claim, HubMetadata, Kept, Keeping, Rotation, as_credential, require_unexpired_claim, keep_claim,
  rotates, decode_claim_response, rotation_response, keep_rotation, kept_of, or_unsaved,
  require_credential, rotated, rotate_device,
}

abbrev pub Failed {ℓ} : {A : Type ℓ} → Result A → Type 0
Failed r = Fails (λ e. Unit) r

-- Nothing is handed to the store and the call throws, or the claim is, in the turn of an operation
-- that is not over.
unfoldable pub IsKept : Operation → Keeping → (Credential → Type 0) → Kept → Type 0
IsKept operation keeping P (none, r) = Failed r
IsKept operation keeping P (some c, r) =
    (is_unexpired c.expires_at_ms keeping.now ≡ true)
    × (assert_at operation keeping.saving.queued ≡ ok tt)
    × P c
    × AllOk (λ answer. as_credential answer.0 ≡ c) r

then-Failed :
    {A B : Type 0} (first : Result A) (next : A → Result B) → Failed first → Failed (first >>= next)
then-Failed (ok a) next h = elim h [ ]
then-Failed (err e) next h = tt

over-Failed : (first : Result (Unit {0})) (e : SdkError) → Failed (first >> throw_if true e)
over-Failed (ok x) e = tt
over-Failed (err d) e = tt

or_over-Failed :
    (operation : Operation) (moment : Instant) (e : SdkError)
    → Failed (or_over operation moment (throw_if true e))
unfolding or_over
or_over-Failed operation moment e = over-Failed (assert_at operation moment) e

answered :
    (P : Claim × HubMetadata → Type 0) (answer : Claim × HubMetadata) (r s : Result (Unit {0}))
    → P answer
    → AllOk P (r >> (s >> ok answer))
answered P answer (ok x) (ok y) h = h
answered P answer (ok x) (err e) h = tt
answered P answer (err e) s h = tt

save_turn-IsKept :
    (operation : Operation) (keeping : Keeping) (P : Credential → Type 0)
    (answer : Claim × HubMetadata) (turn : Result (Unit {0}))
    → assert_at operation keeping.saving.queued ≡ turn
    → is_unexpired answer.0.expires_at_ms keeping.now ≡ true
    → P (as_credential answer.0)
    → IsKept operation keeping P (
        kept_of operation keeping answer
          (save_turn operation keeping.saving (as_credential answer.0) turn))
unfolding kept_of save_turn IsKept as_credential
save_turn-IsKept operation keeping P answer (ok x) e h p =
    (h, e, p, answered (λ a. as_credential a.0 ≡ as_credential answer.0) answer _ _ refl)
save_turn-IsKept operation keeping P answer (err d) e h p =
    then-Failed (or_over operation keeping.saving.failed (err d)) _
      (or_over-Failed operation keeping.saving.failed d)

pub keep_claim-IsKept :
    (operation : Operation) (keeping : Keeping) (P : Credential → Type 0)
    (answer : Claim × HubMetadata)
    → is_unexpired answer.0.expires_at_ms keeping.now ≡ true
    → P (as_credential answer.0)
    → IsKept operation keeping P (keep_claim operation keeping answer)
unfolding keep_claim save_credential
keep_claim-IsKept operation keeping P answer h p =
    save_turn-IsKept operation keeping P answer _ refl h p

-- The client still is in the session of the call.
pub IsSameSession : Instant → Instant → Type 0
IsSameSession begun now =
    (now.session.generation ≡ begun.session.generation) × (now.session.disposed ≡ false)

-- The credential is for the device of the earlier one, and stands in the response to the request that
-- was made with the earlier one.
IsRenewal :
    Transport
    → (Text → Option Json)
    → (Bytes → Text)
    → Rotation
    → Operation
    → Credential
    → Credential
    → Type 0
IsRenewal transport parse decode_text rotation operation previous c =
    (c.device_id ≡ previous.device_id)
    × ((response : Response) × (rotation_response transport operation previous rotation
          ≡ ok response)
        × IsGranted parse decode_text response c)

pub IsRotated : Transport → (Text → Option Json) → (Bytes → Text) → Rotation → Kept → Type 0
IsRotated transport parse decode_text rotation (none, r) = Failed r
IsRotated transport parse decode_text rotation (some c, r) =
    (is_unexpired c.expires_at_ms rotation.keeping.now ≡ true)
    × IsSameSession rotation.begun rotation.keeping.saving.queued
    × ((previous : Credential) × (rotation.loading.loaded ≡ ok (some previous))
        × ((operation : Operation) × IsRenewal transport parse decode_text rotation operation
              previous c))
    × AllOk (λ answer. as_credential answer.0 ≡ c) r

or_over-eq-ok :
    {A : Type 0} (operation : Operation) (moment : Instant) (r : Result A) {a : A}
    → or_over operation moment r ≡ ok a
    → r ≡ ok a
unfolding or_over
or_over-eq-ok operation moment (ok b) h = h
or_over-eq-ok operation moment (err e) h =
    let (x, d, over) = >>=-eq-ok (assert_at operation moment) _ h in elim (err≢ok e _ over) [ ]

load_credential-eq-ok :
    (operation : Operation) (loading : Loading) {found : Option Credential}
    → load_credential operation loading ≡ ok found
    → loading.loaded ≡ ok found
unfolding load_credential
load_credential-eq-ok operation loading h =
    let (x, d, inner) = >>=-eq-ok (assert_at operation loading.before) _ h in
    let (found, e, rest) =
      >>=-eq-ok loading.loaded _ (or_over-eq-ok operation loading.failed _ inner) in
    let (y, f, last) = >>=-eq-ok (assert_at operation loading.after) _ rest in e ∙ last

require_credential-eq-ok :
    (found : Option Credential) {previous : Credential}
    → require_credential found ≡ ok previous
    → found ≡ some previous
unfolding require_credential
require_credential-eq-ok none h = elim (err≢ok _ _ h) [ ]
require_credential-eq-ok (some c) h = cc

pub assert_at-IsSameSession :
    (begun now : Instant) (operation : Operation)
    → begin_operation begun.session begun.aborted ≡ ok operation
    → assert_at operation now ≡ ok tt
    → IsSameSession begun now
unfolding begin_operation assert_at assert_operation is_expired IsSameSession
assert_at-IsSameSession begun now operation h k =
    let (active, rest) = throw_if-eq-ok begun.session.disposed client_disposed _ h in
    let (x, asserted, made) = >>=-eq-ok (assert_operation begun.session _ begun.aborted) _ rest in
    let current =
      throw_if-eq-ok (not (operation.generation == now.session.generation) || now.session.disposed)
        aborted _ k in
    let owner : operation.generation ≡ begun.session.generation = sym (cc made) in
    (sym (ground (arith, current.0)) ∙ owner, ground (arith, current.0))

keep_rotation-IsKept :
    (operation : Operation) (keeping : Keeping) (previous : Credential)
    (answer : Claim × HubMetadata) (P : Credential → Type 0)
    → P (as_credential answer.0)
    → AllOk
        (IsKept operation keeping (λ c. (c.device_id ≡ previous.device_id) × P c))
        (keep_rotation operation keeping previous answer)
unfolding keep_rotation require_unexpired_claim as_credential
keep_rotation-IsKept operation keeping previous answer P p =
    let Q : Credential → Type 0 = λ c. (c.device_id ≡ previous.device_id) × P c in
    AllOk-bind (IsKept operation keeping Q) (assert_at operation keeping.before) _ λ x live.
      AllOk-guard (IsKept operation keeping Q)
        (not (is_unexpired answer.0.expires_at_ms keeping.now)) _ _
        λ fresh.
          AllOk-guard (IsKept operation keeping Q)
            (not (text_eq answer.0.device_id previous.device_id)) _ _
            λ same.
              keep_claim-IsKept operation keeping Q answer (ground (arith, fresh))
                ((text_eq_iff answer.0.device_id previous.device_id).0 (ground (arith, same)), p)

module _ (transport : Transport) (parse : Text → Option Json) (decode_text : Bytes → Text)
    (validate_error validate_claim : Json → Bool) where
  IsKept-IsRotated :
      (rotation : Rotation) (operation : Operation) (previous : Credential) (kept : Kept)
      → begin_operation rotation.begun.session rotation.begun.aborted ≡ ok operation
      → rotation.loading.loaded ≡ ok (some previous)
      → IsKept operation rotation.keeping
          (IsRenewal transport parse decode_text rotation operation previous)
          kept
      → IsRotated transport parse decode_text rotation kept
  unfolding IsKept IsRotated
  IsKept-IsRotated rotation operation previous (none, r) begun loaded h = h
  IsKept-IsRotated rotation operation previous (some c, r) begun loaded (fresh, live, given, last) =
      (
        fresh,
        assert_at-IsSameSession rotation.begun _ operation begun live,
        (previous, loaded, (operation, given)),
        last,
      )

  rotated-IsRotated :
      (rotation : Rotation)
      → AllOk
          (IsRotated transport parse decode_text rotation)
          (rotated transport parse decode_text validate_error validate_claim rotation)
  unfolding rotated IsRenewal
  rotated-IsRotated rotation =
      let P : Kept → Type 0 = IsRotated transport parse decode_text rotation in
      AllOk-bind P (begin_operation rotation.begun.session rotation.begun.aborted) _
        λ operation begun. AllOk-bind P rotation.discovery_outcome _ λ x e.
          AllOk-bind P (load_credential operation rotation.loading) _ λ found loaded.
            AllOk-bind P (assert_at operation rotation.after_load) _ λ y d.
              AllOk-bind P (require_credential found) _ λ previous needed.
                AllOk-bind P (validate_credential previous rotation.now) _ λ z valid.
                  AllOk-bind P (rotation_response transport operation previous rotation) _
                    λ response sent.
                      AllOk-bind P
                        (decode_claim_response parse decode_text validate_error validate_claim
                          rotates response operation rotation.answering)
                        _
                        λ answer decoded.
                          let Given : Credential → Type 0 = λ c.
                            (found : Response) × (rotation_response transport operation previous
                                rotation
                              ≡ ok found)
                            × IsGranted parse decode_text found c in
                          AllOk-map
                            (IsKept operation rotation.keeping
                              (λ c. (c.device_id ≡ previous.device_id) × Given c))
                            P (keep_rotation operation rotation.keeping previous answer)
                            (λ kept. IsKept-IsRotated rotation operation previous kept begun (
                              load_credential-eq-ok operation rotation.loading loaded
                              ∙ ap ok (require_credential-eq-ok found needed)))
                            (keep_rotation-IsKept operation rotation.keeping previous answer Given (
                              response,
                              sent,
                              AllOk-ok
                                  (λ a. IsGranted parse decode_text response (as_credential a.0)) _
                                  (decode_claim_response-IsGranted parse decode_text validate_error
                                    validate_claim rotates response operation rotation.answering)
                                  decoded,
                            ))

  or_unsaved-IsRotated :
      (rotation : Rotation) (r : Result Kept)
      → AllOk (IsRotated transport parse decode_text rotation) r
      → IsRotated transport parse decode_text rotation (or_unsaved r)
  unfolding IsRotated
  or_unsaved-IsRotated rotation (ok kept) h = h
  or_unsaved-IsRotated rotation (err e) h = tt

  -- A rotation either throws with nothing handed to the store, or hands it the credential that stands in
  -- the body of the response to the request made with the credential that was loaded: unexpired at the
  -- look at it, for the device of the loaded one, and with the client still in the session of the call
  -- and not disposed. If the call then returns, it returns that claim.
  pub rotate_device-IsRotated :
      (rotation : Rotation)
      → IsRotated transport parse decode_text rotation
          (rotate_device transport parse decode_text validate_error validate_claim rotation)
  unfolding rotate_device
  rotate_device-IsRotated rotation =
      or_unsaved-IsRotated rotation
        (rotated transport parse decode_text validate_error validate_claim rotation)
        (rotated-IsRotated rotation)

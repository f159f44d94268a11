-- ===== src/Core/Errors.antt =====
-- src/core/errors.ts and the error classes that the other files declare. A function that may throw
-- returns a `Result`; each class is a constructor, with the fields that tell its values apart.
use Prim.Native.String
use teslatlas_sdk_typescript.Prelude.{
  ℕ, ℤ, ◌≡◌, ◌≢◌, refl, ◌⊎◌, inl, inr, Bool, true, false, ◌||◌, Option, String, List, [], ◌∷◌, leb,
  ltb, ◌==◌, if◌then◌else◌, any, length,
}
use teslatlas_sdk_typescript.Js.Text.{Text}

-- The reasons of `CommandSafetyError`.
pub data CommandSafetyFailure : Type 0 where
  missing_idempotency_key invalid_idempotency_key automatic_retry_forbidden : CommandSafetyFailure

-- The fields of `ProtocolHttpError`.
pub record HttpProblem : Type 0 where
  pub code : Text
  pub status : ℕ
  pub request_id : Text
  pub retryable : Bool
  pub retry_after_seconds : Option ℤ

pub data SdkError : Type 0 where
  -- src/core
  invalid_capability : SdkError
  missing_capabilities : List Text → SdkError
  missing_capability : Text → SdkError
  invalid_protocol_error_code invalid_safe_request_id incompatible_protocol : SdkError
  protocol_validation : String → SdkError
  protocol_http : HttpProblem → SdkError
  replay_gap : ℕ → Text → SdkError
  command_uncertain transport_error : SdkError
  invalid_opaque_cursor invalid_entity_tag : SdkError
  invalid_protocol_version invalid_compatibility_window : SdkError
  -- src/http
  invalid_strong_entity_tag invalid_query_parameter_name invalid_request_body : SdkError
  invalid_base_url invalid_request_path reserved_authorization_header : SdkError
  invalid_authorization_value missing_fetch : SdkError
  -- src/commands and src/client
  invalid_idempotency_key_value invalid_read_options : SdkError
  unsafe_command_submission : CommandSafetyFailure → SdkError
  -- src/events; `sse_limit` is the subclass of `ProtocolValidationError`
  sse_limit : String → SdkError
  sse_http_error : ℕ → SdkError
  sse_content_type_error sse_body_error sse_stream_read : SdkError
  invalid_sse_checkpoint invalid_sse_protocol_version invalid_sse_retry_configuration : SdkError
  invalid_stream_events_options unsupported_stream_event_type : SdkError
  -- src/hub
  hub_identity_mismatch vehicle_identity_mismatch client_disposed : SdkError
  hub_tls_pin_unavailable hub_tls_pin_mismatch : SdkError
  unsupported_method : Text → SdkError
  hub_http_error : ℕ → Text → SdkError
  -- the reason of an aborted signal, and what the platform or a caller's function throws
  aborted : SdkError
  foreign : ℕ → SdkError

-- `error instanceof ProtocolValidationError`
unfoldable pub is_protocol_validation : SdkError → Bool
is_protocol_validation (protocol_validation name) = true
is_protocol_validation (sse_limit name) = true
is_protocol_validation _ = false

-- `error instanceof TeslatlasError`: every class but the platform's. `SseStreamReadError` extends
-- `Error` alone.
unfoldable pub is_teslatlas : SdkError → Bool
is_teslatlas aborted = false
is_teslatlas (foreign n) = false
is_teslatlas sse_stream_read = false
is_teslatlas _ = true

pub data Result {ℓ} (A : Type ℓ) : Type ℓ where
  ok : A → Result A
  err : SdkError → Result A

-- What follows a call runs on its value, and is passed over where it throws.
infixl 5 ◌>>=◌
abbrev pub ◌>>=◌ {ℓ κ} : {V : Type ℓ} {W : Type κ} → Result V → (V → Result W) → Result W
err thrown >>= next = err thrown
ok value >>= next = next value

infixl 5 ◌>>◌
abbrev pub ◌>>◌ {ℓ} : {W : Type ℓ} → Result (Unit {0}) → Result W → Result W
first >> second = first >>= λ done. second

-- `if (failed) throw error;`
abbrev pub throw_if : Bool → SdkError → Result (Unit {0})
throw_if true e = err e
throw_if false e = ok tt

abbrev pub map_ok {ℓ κ} : {A : Type ℓ} {B : Type κ} → (A → B) → Result A → Result B
map_ok f (ok a) = ok (f a)
map_ok f (err e) = err e

pub Result-cases {ℓ} :
    {A : Type ℓ} (r : Result A) → ((a : A) × (r ≡ ok a)) ⊎ ((e : SdkError) × (r ≡ err e))
Result-cases (ok a) = inl (a, refl)
Result-cases (err e) = inr (e, refl)

-- A control character has a code of at most 31, or 127. The source goes by code points; one above
-- U+FFFF is no control character, and nor are its two code units.
abbrev pub is_control : ℕ → Bool
is_control c = leb c 31 || c == 127

unfoldable pub contains_control_characters : Text → Bool
contains_control_characters value = any is_control value

abbrev pub is_empty : Text → Bool
is_empty [] = true
is_empty (c ∷ s) = false

-- `${name}.suffix`
abbrev pub dotted : String → String → String
dotted name suffix = String.◌++◌ name suffix

abbrev pub max_safe_request_id_length : ℕ
max_safe_request_id_length = 256

unfoldable pub as_protocol_error_code : Text → Result Text
unfolding contains_control_characters
as_protocol_error_code value =
    if is_empty value || contains_control_characters value
    then err invalid_protocol_error_code
    else ok value

unfoldable pub as_safe_request_id : Text → Result Text
unfolding contains_control_characters
as_safe_request_id value =
    if is_empty value
      || (ltb max_safe_request_id_length (length value) || contains_control_characters value)
    then err invalid_safe_request_id
    else ok value

pub bind_assoc {ℓ κ μ} :
    {A : Type ℓ} {B : Type κ} {C : Type μ} (m : Result A) (f : A → Result B) (g : B → Result C)
    → ((m >>= f) >>= g) ≡ (m >>= λ a. f a >>= g)
bind_assoc (ok a) f g = refl
bind_assoc (err e) f g = refl

pub bind_congr {ℓ κ} :
    {A : Type ℓ} {B : Type κ} (m : Result A) {f g : A → Result B}
    → ((a : A) → f a ≡ g a)
    → (m >>= f) ≡ (m >>= g)
bind_congr (ok a) h = h a
bind_congr (err e) h = refl

pub bind_ok {ℓ κ} :
    {A : Type ℓ} {B : Type κ} (m : Result A) {f g : A → Result B}
    → ((a : A) → m ≡ ok a → f a ≡ g a)
    → (m >>= f) ≡ (m >>= g)
bind_ok (ok a) h = h a refl
bind_ok (err e) h = refl

-- A bind on both sides of a map.
pub map_ok-bind {ℓ κ μ ν} :
    {A : Type ℓ} {B : Type κ} {C : Type μ} {D : Type ν} (v : A → B) (w : C → D) (m : Result A)
    (f : A → Result C) (g : B → Result D)
    → ((a : A) → m ≡ ok a → map_ok w (f a) ≡ g (v a))
    → map_ok w (m >>= f) ≡ (map_ok v m >>= g)
map_ok-bind v w (ok a) f g h = h a refl
map_ok-bind v w (err e) f g h = refl

-- What holds of the value if the call returns one.
abbrev pub AllOk {ℓ κ} : {A : Type ℓ} → (A → Type κ) → Result A → Type κ
AllOk P (ok a) = P a
AllOk P (err e) = Unit

pub AllOk-if {ℓ κ} :
    {A : Type ℓ} (P : A → Type κ) (b : Bool) (m n : Result A)
    → (b ≡ true → AllOk P m)
    → (b ≡ false → AllOk P n)
    → AllOk P (if b then m else n)
AllOk-if P true m n h k = h refl
AllOk-if P false m n h k = k refl

pub AllOk-bind {ℓ κ μ} :
    {A : Type ℓ} {B : Type κ} (P : B → Type μ) (m : Result A) (f : A → Result B)
    → ((a : A) → m ≡ ok a → AllOk P (f a))
    → AllOk P (m >>= f)
AllOk-bind P (ok a) f h = h a refl
AllOk-bind P (err e) f h = tt

pub AllOk-ok {ℓ κ} :
    {A : Type ℓ} (P : A → Type κ) (r : Result A) {a : A} → AllOk P r → r ≡ ok a → P a
AllOk-ok P r h e = rw e at h

pub AllOk-intro {ℓ κ} :
    {A : Type ℓ} (P : A → Type κ) (r : Result A) → ((a : A) → r ≡ ok a → P a) → AllOk P r
AllOk-intro P (ok a) h = h a refl
AllOk-intro P (err e) h = tt

pub AllOk-map {ℓ κ μ} :
    {A : Type ℓ} (P : A → Type κ) (Q : A → Type μ) (r : Result A)
    → ((a : A) → P a → Q a)
    → AllOk P r
    → AllOk Q r
AllOk-map P Q (ok a) f h = f a h
AllOk-map P Q (err e) f h = tt

-- The parts of a call that returns.
pub >>=-eq-ok {ℓ κ} :
    {V : Type ℓ} {W : Type κ} (call : Result V) (next : V → Result W) {w : W}
    → (call >>= next) ≡ ok w
    → (value : V) × (call ≡ ok value) × (next value ≡ ok w)
>>=-eq-ok (err thrown) next e = cc
>>=-eq-ok (ok value) next e = (value, refl, e)

pub err≢ok {ℓ} : {A : Type ℓ} (e : SdkError) (a : A) → ◌≢◌ {A = Result A} (err e) (ok a)
err≢ok e a h = cc

-- A guard that lets the rest of the block return did not throw.
pub throw_if-eq-ok {ℓ} :
    {A : Type ℓ} (b : Bool) (e : SdkError) (m : Result A) {a : A}
    → (throw_if b e >> m) ≡ ok a
    → (b ≡ false) × (m ≡ ok a)
throw_if-eq-ok true e m h = cc
throw_if-eq-ok false e m h = (refl, h)

pub AllOk-guard {ℓ κ} :
    {A : Type ℓ} (P : A → Type κ) (b : Bool) (e : SdkError) (m : Result A)
    → (b ≡ false → AllOk P m)
    → AllOk P (throw_if b e >> m)
AllOk-guard P true e m h = tt
AllOk-guard P false e m h = h refl

-- What holds of the error if the call throws one.
abbrev pub AllErr {ℓ κ} : {A : Type ℓ} → (SdkError → Type κ) → Result A → Type κ
AllErr P (ok a) = Unit
AllErr P (err e) = P e

pub AllErr-bind {ℓ κ μ} :
    {A : Type ℓ} {B : Type κ} (P : SdkError → Type μ) (m : Result A) (f : A → Result B)
    → AllErr P m
    → ((a : A) → m ≡ ok a → AllErr P (f a))
    → AllErr P (m >>= f)
AllErr-bind P (ok a) f h k = k a refl
AllErr-bind P (err e) f h k = h

pub AllErr-guard {ℓ κ} :
    {A : Type ℓ} (P : SdkError → Type κ) (b : Bool) (e : SdkError) (m : Result A)
    → P e
    → (b ≡ false → AllErr P m)
    → AllErr P (throw_if b e >> m)
AllErr-guard P true e m h k = h
AllErr-guard P false e m h k = k refl

pub AllErr-throw_if {ℓ} :
    (P : SdkError → Type ℓ) (b : Bool) (e : SdkError) → P e → AllErr P (throw_if b e)
AllErr-throw_if P true e h = h
AllErr-throw_if P false e h = tt

-- The call throws an error of which the predicate holds.
abbrev pub Fails {ℓ} : {A : Type ℓ} → (SdkError → Type 0) → Result A → Type 0
Fails P (ok a) = ⊥
Fails P (err e) = P e

pub Fails-bind {ℓ κ} :
    {A : Type ℓ} {B : Type κ} (P : SdkError → Type 0) (m : Result A) (f : A → Result B)
    → AllErr P m
    → ((a : A) → m ≡ ok a → Fails P (f a))
    → Fails P (m >>= f)
Fails-bind P (ok a) f h k = k a refl
Fails-bind P (err e) f h k = h

-- A guard at the end of a block.
pub throw_if-AllOk {ℓ} :
    (P : Unit {0} → Type ℓ) (b : Bool) (e : SdkError) → (b ≡ false → P tt) → AllOk P (throw_if b e)
throw_if-AllOk P true e h = tt
throw_if-AllOk P false e h = h refl

-- ===== src/Hub/Credentials.antt =====
-- The credentials of src/hub/client.ts: `validateCredential`, `requireUnexpiredClaim`, `asCredential`,
-- `#loadCredential` and `#saveCredential`. What the caller's store does is a value.
use teslatlas_sdk_typescript.Prelude.{
  ℕ, pos, negsuc, Bool, false, ◌&&◌, ◌||◌, not, Option, none, some, List, [], ◌∷◌, leb, ltb, ◌==◌,
  all, length,
}
use teslatlas_sdk_typescript.Js.Text.{Text, split, is_digit, max_safe_integer}
use teslatlas_sdk_typescript.Js.Json.{Number, integer}
use teslatlas_sdk_typescript.Core.Errors.{
  Result, ok, err, ◌>>=◌, ◌>>◌, throw_if, protocol_validation,
}
use teslatlas_sdk_typescript.Hub.Sessions.{Operation}
use teslatlas_sdk_typescript.Hub.Failures.{Instant, assert_at}

pub record Credential : Type 0 where
  pub access_token : Text
  pub device_id : Text
  pub expires_at_ms : Number

-- `Number.isSafeInteger(expiresAtMs) && expiresAtMs > now`, where the time is not negative.
unfoldable pub is_unexpired : Number → ℕ → Bool
is_unexpired (integer (pos n)) now = leb n max_safe_integer && ltb now n
is_unexpired _ now = false

unfoldable pub is_safe_number : Number → Bool
is_safe_number (integer (pos n)) = leb n max_safe_integer
is_safe_number (integer (negsuc n)) = ltb n max_safe_integer
is_safe_number _ = false

-- `[0-9a-f]`
abbrev is_lower_hex : ℕ → Bool
is_lower_hex c = is_digit c || (leb b'a' c && leb c b'f')

is_hex_run : ℕ → Text → Bool
is_hex_run count s = length s == count && all is_lower_hex s

is_uuid_groups : List Text → Bool
unfolding is_hex_run
is_uuid_groups (a ∷ b ∷ c ∷ d ∷ e ∷ []) =
    is_hex_run 8 a && (is_hex_run 4 b && (is_hex_run 4 c && (is_hex_run 4 d && is_hex_run 12 e)))
is_uuid_groups _ = false

-- `uuidPattern.test(value)`
unfoldable pub is_lower_uuid : Text → Bool
unfolding is_uuid_groups
is_lower_uuid value = is_uuid_groups (split b'-' value)

-- `tokenPattern.test(value)`
unfoldable pub is_token : Text → Bool
unfolding is_hex_run
is_token value = is_hex_run 64 value

unfoldable pub validate_credential : Credential → ℕ → Result (Unit {0})
unfolding is_token is_lower_uuid is_safe_number is_unexpired
validate_credential credential now = do
  throw_if
      (not (
        is_token credential.access_token
        && (is_lower_uuid credential.device_id && is_safe_number credential.expires_at_ms)))
      (protocol_validation "HubCredential")
  throw_if (not (is_unexpired credential.expires_at_ms now))
      (protocol_validation "HubCredential.expiry")

-- The `catch` around the store: an operation that is over hides the store's error.
unfoldable pub or_over {ℓ} : {A : Type ℓ} → Operation → Instant → Result A → Result A
unfolding assert_at
or_over operation moment (ok a) = ok a
or_over operation moment (err e) = assert_at operation moment >> err e

pub record Loading : Type 0 where
  pub before : Instant
  pub loaded : Result (Option Credential)
  pub after : Instant
  pub failed : Instant

unfoldable pub load_credential : Operation → Loading → Result (Option Credential)
unfolding or_over
load_credential operation loading = do
  assert_at operation loading.before
  or_over operation loading.failed
      (do credential ← loading.loaded; assert_at operation loading.after; ok credential)

-- The turn of the mutation in the queue, what `save` does, and the moments behind it.
pub record Saving : Type 0 where
  pub queued : Instant
  pub saved : Result (Unit {0})
  pub after : Instant
  pub failed : Instant

-- What is handed to the store, and how the call ends.
unfoldable pub save_turn :
    Operation → Saving → Credential → Result (Unit {0}) → Option Credential × Result (Unit {0})
unfolding or_over
save_turn operation saving credential (err e) = (none, or_over operation saving.failed (err e))
save_turn operation saving credential (ok x) = (
  some credential,
  or_over operation saving.failed (saving.saved >> assert_at operation saving.after),
)

unfoldable pub save_credential :
    Operation → Saving → Credential → Option Credential × Result (Unit {0})
unfolding save_turn
save_credential operation saving credential =
    save_turn operation saving credential (assert_at operation saving.queued)

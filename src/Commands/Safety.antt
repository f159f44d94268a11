-- ===== src/Commands/Safety.antt =====
-- src/commands/safety.ts
use teslatlas_sdk_typescript.Prelude.{◌≡◌, false, not, Option, some, not_false_lem}
use teslatlas_sdk_typescript.Js.Text.{Text, codes}
use teslatlas_sdk_typescript.Js.Json.{Json, string, strict_eq, strict_eq-string}
use teslatlas_sdk_typescript.Js.Trim.{trim}
use teslatlas_sdk_typescript.Core.Errors.{
  Result, ◌>>◌, throw_if, is_empty, contains_control_characters, unsafe_command_submission,
  missing_idempotency_key, invalid_idempotency_key, automatic_retry_forbidden, AllOk, AllOk-guard,
  throw_if-AllOk,
}

pub record UncheckedCommandSafety : Type 0 where
  pub idempotency_key : Text
  pub retry : Option Json

unfoldable pub assert_command_safety : UncheckedCommandSafety → Result (Unit {0})
assert_command_safety safety = do
  throw_if (is_empty (trim safety.idempotency_key))
      (unsafe_command_submission missing_idempotency_key)
  throw_if (contains_control_characters safety.idempotency_key)
      (unsafe_command_submission invalid_idempotency_key)
  throw_if (not (strict_eq safety.retry (some (string (codes "never")))))
      (unsafe_command_submission automatic_retry_forbidden)

-- A submission that passes has a key that is not blank and holds no control character, and asks for
-- no retry.
pub record IsSafe (safety : UncheckedCommandSafety) : Type 0 where
  pub has_key : is_empty (trim safety.idempotency_key) ≡ false
  pub has_plain_key : contains_control_characters safety.idempotency_key ≡ false
  pub never_retries : safety.retry ≡ some (string (codes "never"))

-- The check passes only for a key that is not blank and holds no control character, with the retry
-- mode "never".
pub assert_command_safety-IsSafe :
    (safety : UncheckedCommandSafety) → AllOk (λ done. IsSafe safety) (assert_command_safety safety)
unfolding assert_command_safety
assert_command_safety-IsSafe safety =
    let P : Unit {0} → Type 0 = λ done. IsSafe safety in
    AllOk-guard P (is_empty (trim safety.idempotency_key)) _ _ λ key.
      AllOk-guard P (contains_control_characters safety.idempotency_key) _ _ λ plain.
        throw_if-AllOk P (not (strict_eq safety.retry (some (string (codes "never"))))) _ λ never.
          record {
            has_key = key;
            has_plain_key = plain;
            never_retries = strict_eq-string safety.retry (codes "never") (not_false_lem _ never);
          }

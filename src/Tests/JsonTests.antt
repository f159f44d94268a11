-- ===== src/Tests/JsonTests.antt =====
-- The numbers of JSON texts and the fields of the Hub on concrete inputs.
use teslatlas_sdk_typescript.Prelude.{◌≡◌, ◌⊎◌, refl, true, some, pos}
use teslatlas_sdk_typescript.Js.Text.{codes, decimal_from, is_digits}
use teslatlas_sdk_typescript.Js.Json.{integer}
use teslatlas_sdk_typescript.Core.Errors.{throw_if, dotted, protocol_validation}
use teslatlas_sdk_typescript.Core.Version.{span}
use teslatlas_sdk_typescript.Http.ProtocolJson.{Wire, numeral, items, fields, done, entry}
use teslatlas_sdk_typescript.Http.JsonIntegers.{
  Parts, read_parts, are_parts_exact, are_digits_exact, is_scaled, scale_of, strip_leading,
  strip_trailing, is_exact_json_integer,
}
use teslatlas_sdk_typescript.Http.JsonIntegers.Tokens.{IsToken}
use teslatlas_sdk_typescript.Http.JsonIntegers.Exact.{
  mantissa, IsExactly, is_exact_json_integer-IsExactly,
}
use teslatlas_sdk_typescript.Hub.Validate.{reject_inexact_integer_fields}
use teslatlas_sdk_typescript.Hub.Validate.Fields.{
  has_bad_field, reject_inexact_integer_fields-eq-has_bad_field,
}

is_exact : is_exact_json_integer (integer (pos 150)) (some (codes "1.50e2")) ≡ true
unfolding is_exact_json_integer are_parts_exact are_digits_exact is_scaled scale_of strip_leading
    strip_trailing read_parts span is_digits decimal_from
is_exact = refl

exact_example :
    (parts : Parts) × IsToken (codes "1.50e2") parts
    × ((mantissa parts ≡ 0) ⊎ IsExactly (pos 150) parts)
exact_example = is_exact_json_integer-IsExactly (pos 150) (codes "1.50e2") is_exact

-- One drive whose speed was rounded.
abbrev rounded : Wire
rounded = items (
    entry (codes "0")
      (fields (
        entry (codes "speed")
          (numeral (integer (pos 9007199254740992)) (some (codes "9007199254740993"))) done))
      done)

rounded_example :
    reject_inexact_integer_fields rounded "HubDrives"
    ≡ throw_if (has_bad_field rounded) (protocol_validation (dotted "HubDrives" ".integer"))
rounded_example = reject_inexact_integer_fields-eq-has_bad_field rounded "HubDrives"

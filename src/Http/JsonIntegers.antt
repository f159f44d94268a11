-- ===== src/Http/JsonIntegers.antt =====
-- `isExactJsonInteger` of src/http/bounded-json.ts: whether a number that was read is exactly what its
-- token says.
pub mod Tokens
pub mod Exact
use teslatlas_sdk_typescript.Prelude.{
  ℕ, zero, suc, ◌+◌, ◌-◌, ◌*◌, ◌^◌, ℤ, pos, negsuc, int_eq, Bool, true, false, ◌&&◌, ◌||◌, not,
  Option, none, some, String, List, [], ◌∷◌, ◌++◌, ltb, leb, ◌==◌, if◌then◌else◌, length,
}
use teslatlas_sdk_typescript.Js.Text.{Text, codes, is_digit, is_digits, decimal_from}
use teslatlas_sdk_typescript.Js.Json.{
  Json, Members, Number, null, boolean, number, string, array, object, integer, fraction, infinite,
  end, member, member_of,
}
use teslatlas_sdk_typescript.Core.Errors.{
  Result, ok, err, ◌>>=◌, ◌>>◌, throw_if, protocol_validation, is_empty,
}
use teslatlas_sdk_typescript.Core.Version.{span, ◌>>=?◌}
use teslatlas_sdk_typescript.Http.JsonWalk.{assert_finite_numbers}
use teslatlas_sdk_typescript.Http.ProtocolJson.{exponent_digits}

-- The captures of `/^(-?)([0-9]+)(?:\.([0-9]+))?(?:[eE]([+-]?[0-9]+))?$/`.
pub record Parts : Type 0 where
  pub negative : Bool
  pub whole : Text
  pub decimals : Text
  pub exponent : ℤ

-- `Number` of `[+-]?[0-9]+`.
pub signed : Bool → ℕ → ℤ
signed true zero = pos 0
signed true (suc n) = negsuc n
signed false n = pos n

-- Behind the letter of the exponent.
exponent_value : Text × Text → Option ℤ
unfolding signed
exponent_value (sign, digits) =
    if is_digits digits
    then some (signed (elim sign [ [] ↦ false | c ∷ rest ↦ c == b'-' ]) (decimal_from 0 digits))
    else none

read_exponent : Text → Option ℤ
unfolding exponent_value exponent_digits
read_exponent [] = some (pos 0)
read_exponent (c ∷ s) = if c == b'e' || c == b'E' then exponent_value (exponent_digits s) else none

read_fraction : Text → Option (Text × ℤ)
unfolding read_exponent
read_fraction [] = some ([], pos 0)
read_fraction (c ∷ s) =
    if c == b'.'
    then (let (run, rest) = span is_digit s in
        if is_empty run then none else read_exponent rest >>=? λ exponent. some (run, exponent))
    else read_exponent (c ∷ s) >>=? λ exponent. some ([], exponent)

read_unsigned : Bool → Text → Option Parts
unfolding read_fraction
read_unsigned negative s =
    let (whole, rest) = span is_digit s in
    if is_empty whole
    then none
    else read_fraction rest >>=? λ (decimals, exponent).
        some
          (record { negative = negative; whole = whole; decimals = decimals; exponent = exponent })

unfoldable pub read_parts : Text → Option Parts
unfolding read_unsigned
read_parts [] = none
read_parts (c ∷ s) = if c == b'-' then read_unsigned true s else read_unsigned false (c ∷ s)

-- `replace(/^0+/u, "")` and `replace(/0+$/u, "")`
unfoldable pub strip_leading : Text → Text
strip_leading [] = []
strip_leading (c ∷ s) = if c == b'0' then strip_leading s else c ∷ s

keep_unless_zero : ℕ → Text → Text
keep_unless_zero c [] = if c == b'0' then [] else c ∷ []
keep_unless_zero c (d ∷ s) = c ∷ d ∷ s

unfoldable pub strip_trailing : Text → Text
unfolding keep_unless_zero
strip_trailing [] = []
strip_trailing (c ∷ s) = keep_unless_zero c (strip_trailing s)

-- `scale`, where it is not negative. An exponent that a `Number` rounds is far outside the bounds.
unfoldable pub scale_of : ℤ → ℕ → ℕ → Option ℕ
scale_of (pos e) trailing decimals =
    if ltb (e + trailing) decimals then none else some (e + trailing - decimals)
scale_of (negsuc e) trailing decimals =
    if ltb trailing (e + 1 + decimals) then none else some (trailing - (e + 1 + decimals))

unfoldable pub is_scaled : ℤ → Bool → Text → Option ℕ → Bool
unfolding signed
is_scaled value negative significant none = false
is_scaled value negative significant (some scale) =
    not (ltb 309 (length significant + scale))
    && int_eq (signed negative (decimal_from 0 significant * 10 ^ scale)) value

unfoldable pub are_digits_exact : ℤ → Parts → Text → Bool
unfolding is_scaled scale_of strip_trailing
are_digits_exact value parts [] = true
are_digits_exact value parts (c ∷ s) =
    let significant = strip_trailing (c ∷ s) in
    is_scaled value parts.negative significant
      (scale_of parts.exponent (length (c ∷ s) - length significant) (length parts.decimals))

unfoldable pub are_parts_exact : ℤ → Option Parts → Bool
unfolding are_digits_exact strip_leading
are_parts_exact value none = false
are_parts_exact value (some parts) =
    are_digits_exact value parts (strip_leading (parts.whole ++ parts.decimals))

-- A number that was not parsed has no token, and counts as it is.
unfoldable pub is_exact_json_integer : Number → Option Text → Bool
unfolding are_parts_exact read_parts
is_exact_json_integer (integer value) none = true
is_exact_json_integer (integer value) (some token) = are_parts_exact value (read_parts token)
is_exact_json_integer (fraction n) token = false
is_exact_json_integer (infinite n) token = false

-- ===== src/Core/Version.antt =====
-- src/core/version.ts. The pattern of semantic versions is matched by hand: a run of digits or of
-- identifier characters ends where the pattern's next literal has to stand, so nothing backtracks.
pub mod Pattern
pub mod Window
use teslatlas_sdk_typescript.Prelude.{
  ℕ, ◌≤◌, Bool, true, false, ◌&&◌, ◌||◌, not, Option, none, some, List, [], ◌∷◌, ◌++◌, leb, ltb,
  ◌==◌, if◌then◌else◌, any, all,
}
use teslatlas_sdk_typescript.Js.Text.{
  Text, codes, is_digit, is_digits, decimal_from, max_safe_integer, split,
}
use teslatlas_sdk_typescript.Core.Errors.{
  Result, ok, err, ◌>>=◌, ◌>>◌, throw_if, invalid_protocol_version, invalid_compatibility_window,
  is_empty,
}

pub record ProtocolVersion : Type 0 where
  pub major : ℕ
  pub minor : ℕ
  pub patch : ℕ
  pub prerelease : Option Text
  pub build : Option Text

pub record CompatibilityWindow : Type 0 where
  pub major : ℕ
  pub minimum_minor : ℕ
  pub maximum_minor : ℕ

pub data Compatibility : Type 0 where
  compatible unsupported_major below_minimum_minor above_maximum_minor : Compatibility

-- The captures of the pattern.
pub record Captures : Type 0 where
  pub major : Text
  pub minor : Text
  pub patch : Text
  pub prerelease : Option Text
  pub build : Option Text

-- `[0-9A-Za-z-]`
abbrev pub is_identifier_unit : ℕ → Bool
is_identifier_unit c =
    is_digit c || (leb b'a' c && leb c b'z' || (leb b'A' c && leb c b'Z' || c == b'-'))

abbrev pub is_tag_unit : ℕ → Bool
is_tag_unit c = is_identifier_unit c || c == b'.'

-- The longest prefix of units that pass the test, and the rest.
unfoldable pub span : (ℕ → Bool) → Text → Text × Text
span test [] = ([], [])
span test (c ∷ s) = let (run, rest) = span test s in if test c then (c ∷ run, rest) else ([], c ∷ s)

-- `0|[1-9]\d*`, of a run of digits.
unfoldable pub is_numeral : Text → Bool
is_numeral [] = false
is_numeral (c ∷ []) = is_digit c
is_numeral (c ∷ d ∷ s) = (is_digit c && not (c == b'0')) && all is_digit (d ∷ s)

-- `[0-9A-Za-z-]+(?:\.[0-9A-Za-z-]+)*`, of a run of tag units.
unfoldable pub is_tag : Text → Bool
is_tag s = all is_tag_unit s && not (any is_empty (split b'.' s))

pub expect : ℕ → Text → Option Text
expect c [] = none
expect c (d ∷ s) = if d == c then some s else none

-- `(?:\+(…))?$`
pub match_build : Text → Option (Option Text)
match_build [] = some none
match_build (c ∷ s) = if c == b'+' && is_tag s then some (some s) else none

-- `(?:-(…))?(?:\+(…))?$`
pub match_tags : Text → Option (Option Text × Option Text)
match_tags [] = some (none, none)
match_tags (c ∷ s) =
    let (tag, rest) = span is_tag_unit s in
    if c == b'-'
    then (if is_tag tag
        then (elim (match_build rest) [ none ↦ none | some build ↦ some (some tag, build) ])
        else none)
    else elim (match_build (c ∷ s)) [ none ↦ none | some build ↦ some (none, build) ]

-- A numeral and the text behind it.
pub match_numeral : Text → Option (Text × Text)
match_numeral s =
    let (run, rest) = span is_digit s in if is_numeral run then some (run, rest) else none

infixl 5 ◌>>=?◌
abbrev pub ◌>>=?◌ {ℓ κ} : {A : Type ℓ} {B : Type κ} → Option A → (A → Option B) → Option B
none >>=? f = none
some a >>=? f = f a

-- `semanticVersionPattern.exec(value)`
unfoldable pub match_version : Text → Option Captures
unfolding expect match_build match_tags match_numeral span is_numeral is_tag
match_version value = match_numeral value >>=? λ (major, a). expect b'.' a >>=? λ b.
    match_numeral b >>=? λ (minor, c). expect b'.' c >>=? λ d. match_numeral d >>=? λ (patch, e).
    match_tags e >>=? λ (prerelease, build).
    some (record {
      major = major;
      minor = minor;
      patch = patch;
      prerelease = prerelease;
      build = build;
    })

-- `Number` of a numeral is exact up to 2 ** 53 - 1, and unsafe above.
unfoldable pub parse_safe_integer : Text → Option ℕ
parse_safe_integer value =
    let parsed = decimal_from 0 value in if leb parsed max_safe_integer then some parsed else none

-- `/^0\d+/u.test(identifier)`, of digits alone.
abbrev has_leading_zero : Text → Bool
has_leading_zero [] = false
has_leading_zero (c ∷ []) = false
has_leading_zero (c ∷ d ∷ s) = c == b'0' && is_digit d

unfoldable pub has_invalid_numeric_prerelease : Option Text → Bool
has_invalid_numeric_prerelease none = false
has_invalid_numeric_prerelease (some value) =
    any (λ identifier. is_digits identifier && has_leading_zero identifier) (split b'.' value)

abbrev or_invalid {ℓ} : {A : Type ℓ} → Option A → Result A
or_invalid none = err invalid_protocol_version
or_invalid (some a) = ok a

unfoldable pub parse_protocol_version : Text → Result ProtocolVersion
unfolding match_version parse_safe_integer has_invalid_numeric_prerelease
parse_protocol_version value = do
  found ← or_invalid (match_version value)
  major ← or_invalid (parse_safe_integer found.major)
  minor ← or_invalid (parse_safe_integer found.minor)
  patch ← or_invalid (parse_safe_integer found.patch)
  throw_if (has_invalid_numeric_prerelease found.prerelease) invalid_protocol_version
  ok (record {
    major = major;
    minor = minor;
    patch = patch;
    prerelease = found.prerelease;
    build = found.build;
  })

unfoldable pub assert_compatibility_window : CompatibilityWindow → Result (Unit {0})
assert_compatibility_window window =
    throw_if
      (ltb max_safe_integer window.major
        || (ltb max_safe_integer window.minimum_minor
            || (ltb max_safe_integer window.maximum_minor
                || ltb window.maximum_minor window.minimum_minor)))
      invalid_compatibility_window

compare_window : ProtocolVersion → CompatibilityWindow → Compatibility
compare_window version window =
    if not (version.major == window.major)
    then unsupported_major
    else if ltb version.minor window.minimum_minor
    then below_minimum_minor
    else if ltb window.maximum_minor version.minor
    then above_maximum_minor
    else compatible

unfoldable pub check_protocol_version : ProtocolVersion → CompatibilityWindow → Result Compatibility
unfolding assert_compatibility_window compare_window
check_protocol_version version window = do
  assert_compatibility_window window
  ok (compare_window version window)

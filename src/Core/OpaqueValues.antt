-- ===== src/Core/OpaqueValues.antt =====
-- src/core/opaque-values.ts, src/http/strong-etag.ts and src/commands: texts that are checked once
-- and then carried as they are.
use teslatlas_sdk_typescript.Prelude.{
  ℕ, Bool, true, false, ◌&&◌, ◌||◌, not, [], ◌∷◌, ltb, leb, ◌==◌, if◌then◌else◌, length,
}
use teslatlas_sdk_typescript.Js.Text.{Text, is_digit, split}
use teslatlas_sdk_typescript.Core.Errors.{
  Result, ok, err, invalid_opaque_cursor, invalid_entity_tag, invalid_strong_entity_tag,
  invalid_idempotency_key_value, contains_control_characters, is_empty,
}

unfoldable pub as_opaque_cursor : Text → Result Text
unfolding contains_control_characters
as_opaque_cursor value =
    if is_empty value || contains_control_characters value
    then err invalid_opaque_cursor
    else ok value

-- `[^"]+"$`: one unit or more with no quote, then a quote that ends the text.
unfoldable pub is_quoted_tail : Text → Bool
is_quoted_tail [] = false
is_quoted_tail (c ∷ []) = false
is_quoted_tail (c ∷ d ∷ []) = not (c == b'"') && d == b'"'
is_quoted_tail (c ∷ d ∷ e ∷ s) = not (c == b'"') && is_quoted_tail (d ∷ e ∷ s)

-- `/^"[^"]+"$/u.test(value)`
unfoldable pub is_quoted : Text → Bool
unfolding is_quoted_tail
is_quoted [] = false
is_quoted (c ∷ s) = c == b'"' && is_quoted_tail s

-- `value.replace(/^W\//u, "")`
unfoldable pub strip_weak : Text → Text
strip_weak [] = []
strip_weak (c ∷ []) = c ∷ []
strip_weak (c ∷ d ∷ s) = if c == b'W' && d == b'/' then s else c ∷ d ∷ s

-- `/^(?:W\/)?"[^"]+"$/u.test(value)`: a quoted text does not begin with `W/`.
unfoldable pub is_entity_tag : Text → Bool
unfolding is_quoted strip_weak
is_entity_tag value = is_quoted (strip_weak value)

unfoldable pub as_entity_tag : Text → Result Text
unfolding contains_control_characters is_entity_tag
as_entity_tag value =
    if contains_control_characters value || not (is_entity_tag value)
    then err invalid_entity_tag
    else ok value

abbrev pub max_strong_entity_tag_length : ℕ
max_strong_entity_tag_length = 512

unfoldable pub is_strong_entity_tag : Text → Bool
unfolding contains_control_characters is_quoted
is_strong_entity_tag value = not (contains_control_characters value) && is_quoted value

unfoldable pub as_strong_entity_tag : Text → Result Text
unfolding is_strong_entity_tag
as_strong_entity_tag value =
    if ltb max_strong_entity_tag_length (length value) || not (is_strong_entity_tag value)
    then err invalid_strong_entity_tag
    else ok value

-- `[0-9a-f]` with the flag `i`.
abbrev pub is_hex : ℕ → Bool
is_hex c = is_digit c || (leb b'a' c && leb c b'f' || leb b'A' c && leb c b'F')

all_hex : Text → Bool
all_hex [] = true
all_hex (c ∷ s) = is_hex c && all_hex s

-- Groups of 8, 4, 4, 4 and 12 hexadecimal digits between dashes.
unfoldable pub is_uuid : Text → Bool
unfolding all_hex
is_uuid value = elim (split b'-' value) [
  | a ∷ b ∷ c ∷ d ∷ e ∷ [] ↦
      (all_hex a && length a == 8)
      && ((all_hex b && length b == 4)
          && ((all_hex c && length c == 4)
              && ((all_hex d && length d == 4) && (all_hex e && length e == 12))))
  | _ ↦ false
]

unfoldable pub as_idempotency_key : Text → Result Text
unfolding is_uuid
as_idempotency_key value =
    if not (is_uuid value) then err invalid_idempotency_key_value else ok value

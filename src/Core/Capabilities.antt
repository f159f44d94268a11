-- ===== src/Core/Capabilities.antt =====
-- src/core/capabilities.ts. A `Set` of texts is the list of its members in insertion order.
pub mod Laws
use teslatlas_sdk_typescript.Prelude.{
  ℕ, Bool, true, false, ◌&&◌, ◌||◌, List, [], ◌∷◌, ◌++◌, ltb, ◌==◌, if◌then◌else◌,
}
use teslatlas_sdk_typescript.Js.Text.{Text, includes}
use teslatlas_sdk_typescript.Core.Errors.{
  Result, ok, err, ◌>>=◌, invalid_capability, missing_capabilities, contains_control_characters,
  is_empty,
}

unfoldable pub as_capability_id : Text → Result Text
unfolding contains_control_characters
as_capability_id value =
    if is_empty value || contains_control_characters value then err invalid_capability else ok value

-- `set.add(value)`
unfoldable pub set_add : List Text → Text → List Text
set_add set value = if includes set value then set else set ++ value ∷ []

add_capabilities : List Text → List Text → Result (List Text)
add_capabilities set [] = ok set
add_capabilities set (value ∷ values) = do
  id ← as_capability_id value
  add_capabilities (set_add set id) values

unfoldable pub create_capability_set : List Text → Result (List Text)
unfolding add_capabilities as_capability_id set_add
create_capability_set values = add_capabilities [] values

-- `left < right` on texts: by code units.
unfoldable pub text_ltb : Text → Text → Bool
text_ltb s [] = false
text_ltb [] (d ∷ t) = true
text_ltb (c ∷ s) (d ∷ t) = ltb c d || (c == d && text_ltb s t)

insert_sorted : Text → List Text → List Text
insert_sorted x [] = x ∷ []
insert_sorted x (y ∷ ys) = if text_ltb y x then y ∷ insert_sorted x ys else x ∷ y ∷ ys

-- `[...set].sort(compareOpaqueStrings)`
unfoldable pub sort_texts : List Text → List Text
unfolding insert_sorted text_ltb
sort_texts [] = []
sort_texts (x ∷ xs) = insert_sorted x (sort_texts xs)

missing_from : List Text → List Text → List Text → Result (List Text)
missing_from available missing [] = ok missing
missing_from available missing (value ∷ values) = do
  id ← as_capability_id value
  missing_from available (if includes available id then missing else set_add missing id) values

unfoldable pub find_missing_capabilities : List Text → List Text → Result (List Text)
unfolding missing_from as_capability_id set_add sort_texts
find_missing_capabilities available required = do
  missing ← missing_from available [] required
  ok (sort_texts missing)

abbrev or_missing : List Text → Result (Unit {0})
or_missing [] = ok tt
or_missing (id ∷ ids) = err (missing_capabilities (id ∷ ids))

unfoldable pub require_capabilities : List Text → List Text → Result (Unit {0})
unfolding find_missing_capabilities
require_capabilities available required = do
  missing ← find_missing_capabilities available required
  or_missing missing

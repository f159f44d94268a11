-- ===== src/Http/RequestSnapshot.antt =====
-- src/http/json-request-snapshot.ts. The caller's objects are a store: a value is a primitive or a
-- reference, and an object may be reached twice or from itself. The parameters are the store and the
-- text of a number (`JSON.stringify`). Objects whose traps answer differently each time are not
-- modelled.
pub mod Copies
pub mod Mirrors
pub mod Fuel
use teslatlas_sdk_typescript.Prelude.{
  ℕ, zero, suc, ◌+◌, ◌-◌, ◌*◌, ◌/◌, ◌%◌, Bool, true, false, ◌&&◌, ◌||◌, not, Option, none, some,
  List, [], ◌∷◌, ◌++◌, ltb, leb, ◌==◌, if◌then◌else◌, length, any, map,
}
use teslatlas_sdk_typescript.Js.Text.{Text, codes, join, decimal_from}
use teslatlas_sdk_typescript.Js.Utf8.{
  utf8_length, is_high_surrogate, is_low_surrogate, is_surrogate,
}
use teslatlas_sdk_typescript.Js.Json.{
  Json, Number, Members, null, boolean, number, string, array, object, end, member, is_finite,
}
use teslatlas_sdk_typescript.Core.Errors.{
  SdkError, Result, ok, err, ◌>>=◌, ◌>>◌, throw_if, invalid_request_body, protocol_validation,
  foreign,
}
use teslatlas_sdk_typescript.Core.Version.{is_numeral}

pub data Value : Type 0 where
  primitive : Json → Value
  reference : ℕ → Value
  -- `undefined`, a function, a symbol or a big integer.
  other : Value

pub data Key : Type 0 where
  named : Text → Key
  symbol : Key

-- A property descriptor: `none` stands for an accessor.
pub record Property : Type 0 where
  pub key : Key
  pub enumerable : Bool
  pub content : Option Value

pub record Object : Type 0 where
  -- The length of an array, whose property `length` is not among the properties.
  pub array_length : Option ℕ
  -- `Array.prototype` for an array; `Object.prototype` or none for another.
  pub has_plain_prototype : Bool
  -- In the order of `Reflect.ownKeys`, in which the indices ascend.
  pub properties : List Property

pub record Snapshot : Type 0 where
  pub value : Json
  pub body : Text

hex_unit : ℕ → ℕ
hex_unit n = if ltb n 10 then b'0' + n else b'a' + (n - 10)

unicode_escape : ℕ → Text
unfolding hex_unit
unicode_escape c =
    codes "\\u"
    ++ (hex_unit (c / 4096 % 16)
        ∷ hex_unit (c / 256 % 16)
        ∷ hex_unit (c / 16 % 16)
        ∷ hex_unit (c % 16)
        ∷ [])

escape_unit : ℕ → Text
unfolding unicode_escape
escape_unit c =
    if c == b'"'
    then codes "\\\""
    else if c == b'\\'
    then codes "\\\\"
    else if c == 8
    then codes "\\b"
    else if c == 9
    then codes "\\t"
    else if c == 10
    then codes "\\n"
    else if c == 12
    then codes "\\f"
    else if c == 13
    then codes "\\r"
    else if ltb c 32 || is_surrogate c
    then unicode_escape c
    else c ∷ []

-- A pair of surrogates stands for itself; a lone one is escaped.
escaped : Text → Text
unfolding escape_unit
escaped [] = []
escaped (c ∷ []) = escape_unit c
escaped (c ∷ d ∷ s) = elim (is_high_surrogate c && is_low_surrogate d) [
  | true ↦ c ∷ d ∷ escaped s
  | false ↦ escape_unit c ++ escaped (d ∷ s)
]

-- `JSON.stringify` of a text.
unfoldable pub quoted : Text → Text
unfolding escaped
quoted s = b'"' ∷ (escaped s ++ b'"' ∷ [])

-- `{${members.join(",")}}` and `[${…}]`
unfoldable pub object_body : List (Text × Snapshot) → Text
object_body copies =
    b'{'
    ∷ (join (codes ",") (map (λ copy. quoted copy.0 ++ (b':' ∷ copy.1.body)) copies) ++ b'}' ∷ [])

unfoldable pub array_body : List (Text × Snapshot) → Text
array_body copies = b'[' ∷ (join (codes ",") (map (λ copy. copy.1.body) copies) ++ b']' ∷ [])

unfoldable pub members_of : List (Text × Snapshot) → Members
members_of [] = end
members_of ((key, copy) ∷ copies) = member key copy.value (members_of copies)

-- `String(index) === key` for an index below the length.
unfoldable pub is_index : ℕ → Text → Bool
is_index bound key = is_numeral key && ltb (decimal_from 0 key) bound

unfoldable pub is_bad_key : Option ℕ → Text → Bool
is_bad_key none key = false
is_bad_key (some bound) key = not (is_index bound key)

-- `ancestors.has(value)`
unfoldable pub is_ancestor : List ℕ → ℕ → Bool
is_ancestor ancestors id = any (λ ancestor. ancestor == id) ancestors

unfoldable pub is_bad_shape : Object → Bool
is_bad_shape found = elim found.array_length [
  | none ↦ not found.has_plain_prototype
  | some bound ↦ not found.has_plain_prototype || not (length found.properties == bound)
]

unfoldable pub key_text : Key → Result Text
key_text (named key) = ok key
key_text symbol = err invalid_request_body

unfoldable pub content_of : Bool → Option Value → Result Value
content_of true (some value) = ok value
content_of _ _ = err invalid_request_body

unfoldable pub data_value : Property → Result Value
data_value property = content_of property.enumerable property.content

unfoldable pub copy_properties :
    (Value → Result Snapshot) → Option ℕ → List Property → Result (List (Text × Snapshot))
unfolding is_bad_key
copy_properties copy bound [] = ok []
copy_properties copy bound (property ∷ rest) = do
  key ← key_text property.key
  throw_if (is_bad_key bound key) invalid_request_body
  content ← data_value property
  child ← copy content
  copies ← copy_properties copy bound rest
  ok ((key, child) ∷ copies)

unfoldable pub composed : Option ℕ → List (Text × Snapshot) → Snapshot
composed none copies = record { value = object (members_of copies); body = object_body copies }
composed (some bound) copies = record {
  value = array (members_of copies);
  body = array_body copies;
}

-- Everything that is thrown on the way is the one error.
unfoldable pub or_invalid_body : Result Snapshot → Result Snapshot
or_invalid_body (ok snapshot) = ok snapshot
or_invalid_body (err e) = err invalid_request_body

unfoldable pub is_too_large : Option ℕ → Text → Bool
is_too_large none body = false
is_too_large (some maximum) body = ltb maximum (utf8_length body)

module _ (number_text : Number → Text) (store : ℕ → Object) where
  unfoldable pub copy_primitive : Json → Result Snapshot
  copy_primitive null = ok (record { value = null; body = codes "null" })
  copy_primitive (boolean true) = ok (record { value = boolean true; body = codes "true" })
  copy_primitive (boolean false) = ok (record { value = boolean false; body = codes "false" })
  copy_primitive (string s) = ok (record { value = string s; body = quoted s })
  copy_primitive (number n) =
      if is_finite n
      then ok (record { value = number n; body = number_text n })
      else err invalid_request_body
  copy_primitive _ = err invalid_request_body

  -- `copyJsonValue` on fuel, which `foreign 0` shows to be out.
  unfoldable pub copy_value : ℕ → List ℕ → Value → Result Snapshot
  unfolding is_bad_shape is_ancestor
  copy_value fuel ancestors (primitive value) = copy_primitive value
  copy_value fuel ancestors other = err invalid_request_body
  copy_value zero ancestors (reference id) = err (foreign 0)
  copy_value (suc fuel) ancestors (reference id) = do
    throw_if (is_ancestor ancestors id) invalid_request_body
    throw_if (is_bad_shape (store id)) invalid_request_body
    copies ←
        copy_properties (copy_value fuel (id ∷ ancestors)) (store id).array_length
          (store id).properties
    ok (composed (store id).array_length copies)

  unfoldable pub snapshot_json_request : ℕ → Value → Option ℕ → Result Snapshot
  unfolding or_invalid_body is_too_large copy_value
  snapshot_json_request fuel value maximum = do
    snapshot ← or_invalid_body (copy_value fuel [] value)
    throw_if (is_too_large maximum snapshot.body) (protocol_validation "request.body.size")
    ok snapshot

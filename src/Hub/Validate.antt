-- ===== src/Hub/Validate.antt =====
-- src/hub/validate.ts: the decoding of the Hub's JSON, which bounds the integer fields by their tokens
-- and gives the wire's names the form of the SDK's. Parameters: `JSON.parse` and the generated
-- validators.
pub mod Fields
use teslatlas_sdk_typescript.Prelude.{
  ℕ, zero, suc, ◌+◌, ◌-◌, ℤ, pos, negsuc, Bool, true, false, ◌&&◌, ◌||◌, not, Option, none, some,
  String, List, [], ◌∷◌, ◌++◌, ltb, leb, ◌==◌, if◌then◌else◌, map,
}
use teslatlas_sdk_typescript.Js.Text.{Text, codes, text_eq, includes}
use teslatlas_sdk_typescript.Js.Json.{
  Json, Members, Number, null, boolean, number, string, array, object, integer, fraction, infinite,
  end, member,
}
use teslatlas_sdk_typescript.Core.Errors.{
  SdkError, Result, ok, err, ◌>>=◌, ◌>>◌, throw_if, dotted, protocol_validation, foreign,
}
use teslatlas_sdk_typescript.Http.ProtocolJson.{
  Wire, Entries, leaf, numeral, items, fields, done, entry, parse_protocol_json,
}
use teslatlas_sdk_typescript.Http.JsonIntegers.{is_exact_json_integer}

abbrev pub integer_fields : List Text
integer_fields = map codes (
    "ascent" ∷ "battery_level" ∷ "center_display_state" ∷ "charge_current_request"
    ∷ "charge_current_request_max" ∷ "charge_limit_soc" ∷ "charger_phases" ∷ "descent"
    ∷ "download_perc" ∷ "duration_min" ∷ "end_date_ms" ∷ "end_soc" ∷ "expires_at_ms" ∷ "expiresAtMs"
    ∷ "id" ∷ "install_perc" ∷ "observed_at_ms" ∷ "protocol_major" ∷ "scheduled_charging_start_time"
    ∷ "since" ∷ "source_eid" ∷ "source_vid" ∷ "speed" ∷ "speed_max" ∷ "start_date_ms" ∷ "start_soc"
    ∷ "sun_roof_percent_open" ∷ "suspend_after_idle_min" ∷ "suspend_min" ∷ "usable_battery_level"
    ∷ [])

-- Within the signed 64-bit integers; no number that is not an integer comes so far.
unfoldable pub is_outside_i64 : Number → Bool
is_outside_i64 (integer (pos n)) = ltb 9223372036854775807 n
is_outside_i64 (integer (negsuc n)) = ltb 9223372036854775807 n
is_outside_i64 _ = true

unfoldable pub is_bad_number : Number → Option Text → Bool
unfolding is_outside_i64
is_bad_number value token = not (is_exact_json_integer value token) || is_outside_i64 value

-- A number in an integer field that is not an exact 64-bit integer.
unfoldable pub is_bad_field : Text → Wire → Bool
unfolding is_bad_number
is_bad_field key (numeral value token) = includes integer_fields key && is_bad_number value token
is_bad_field key _ = false

module _ (failure : SdkError) where
  -- The loop over the entries of one object or array, which pushes each value.
  unfoldable pub push_entries : Entries → List Wire → Result (List Wire)
  push_entries done pending = ok pending
  push_entries (entry key value rest) pending = do
    throw_if (is_bad_field key value) failure
    push_entries rest (value ∷ pending)

  -- The loop over what is pending, the last one first, on fuel.
  unfoldable pub reject_loop : ℕ → List Wire → Result (Unit {0})
  unfolding push_entries
  reject_loop fuel [] = ok tt
  reject_loop zero (current ∷ pending) = err (foreign 0)
  reject_loop (suc fuel) (leaf value ∷ pending) = reject_loop fuel pending
  reject_loop (suc fuel) (numeral value token ∷ pending) = reject_loop fuel pending
  reject_loop (suc fuel) (items entries ∷ pending) =
      push_entries entries pending >>= reject_loop fuel
  reject_loop (suc fuel) (fields entries ∷ pending) =
      push_entries entries pending >>= reject_loop fuel

unfoldable mutual
  -- The values in a tree, of which the loop takes one in each round.
  pub wire_size : Wire → ℕ
  wire_size (items entries) = suc (entries_size entries)
  wire_size (fields entries) = suc (entries_size entries)
  wire_size _ = 1

  pub entries_size : Entries → ℕ
  entries_size done = 0
  entries_size (entry key value rest) = wire_size value + entries_size rest

unfoldable pub reject_inexact_integer_fields : Wire → String → Result (Unit {0})
unfolding reject_loop wire_size
reject_inexact_integer_fields value name =
    reject_loop (protocol_validation (dotted name ".integer")) (wire_size value) (value ∷ [])

abbrev is_lower : ℕ → Bool
is_lower c = leb b'a' c && leb c b'z'

-- `key.replace(/_([a-z])/gu, (_match, letter) => letter.toUpperCase())`
unfoldable pub camel_key : Text → Text
camel_key [] = []
camel_key (c ∷ []) = c ∷ []
camel_key (c ∷ d ∷ s) =
    let joined = camel_key s in
    let kept = camel_key (d ∷ s) in if c == b'_' && is_lower d then (d - 32) ∷ joined else c ∷ kept

-- A later entry of a name takes the place of an earlier one.
unfoldable pub put : Members → Text → Json → Members
put end key value = member key value end
put (member name old rest) key value =
    let later = put rest key value in
    if text_eq name key then member name value rest else member name old later

unfoldable mutual
  pub camelize : Json → Json
  camelize (array members) = array (camelize_items members)
  camelize (object members) = object (camelize_fields members end)
  camelize null = null
  camelize (boolean b) = boolean b
  camelize (number n) = number n
  camelize (string s) = string s

  camelize_items : Members → Members
  camelize_items end = end
  camelize_items (member key value rest) = member key (camelize value) (camelize_items rest)

  camelize_fields : Members → Members → Members
  camelize_fields end copy = copy
  camelize_fields (member key value rest) copy =
      camelize_fields rest (put copy (camel_key key) (camelize value))

unfoldable pub decode_hub_json : (Text → Option Json) → Text → (Json → Bool) → String → Result Json
unfolding reject_inexact_integer_fields camelize
decode_hub_json parse source validator name = do
  (value, wire) ← parse_protocol_json parse source name
  reject_inexact_integer_fields wire name
  throw_if (not (validator value)) (protocol_validation name)
  ok (camelize value)

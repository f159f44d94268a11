-- ===== src/Http/JsonWalk.antt =====
-- `visitJson` of src/http/bounded-json.ts: a walk with a stack of frames, each an object or array
-- with the children that are left. A value of `JSON.parse` is a tree, so that no object is its own
-- ancestor and the set of the objects on the stack never stops the walk. `assertFiniteNumbers` and
-- `decodeProtocolValue` of src/protocol/validate.ts use it.
pub mod Enough
use teslatlas_sdk_typescript.Prelude.{
  ℕ, zero, suc, ◌+◌, Bool, true, false, not, Option, none, some, String, List, [], ◌∷◌,
  if◌then◌else◌,
}
use teslatlas_sdk_typescript.Core.Errors.{
  Result, ok, err, ◌>>◌, ◌>>=◌, throw_if, dotted, protocol_validation, foreign,
}
use teslatlas_sdk_typescript.Js.Json.{
  Number, Json, Members, null, boolean, number, string, array, object, end, member, is_finite,
}

mutual
  -- The rounds that the walk takes inside a value, and over the children of a frame.
  pub json_rounds : Json → ℕ
  json_rounds (array members) = rounds members
  json_rounds (object members) = rounds members
  json_rounds _ = 0

  pub rounds : Members → ℕ
  rounds end = 1
  rounds (member key value rest) = suc (json_rounds value + rounds rest)

pub after : Result (Unit {0}) → Option (Result (Unit {0})) → Option (Result (Unit {0}))
after (ok x) next = next
after (err e) next = some (err e)

module _ (callback : Number → Result (Unit {0})) where
  -- The loop on fuel, which is out at `none`.
  pub loop : ℕ → List Members → Option (Result (Unit {0}))
  loop fuel [] = some (ok tt)
  loop zero (frame ∷ frames) = none
  loop (suc fuel) (end ∷ frames) = loop fuel frames
  loop (suc fuel) (member key (number value) rest ∷ frames) =
      after (callback value) (loop fuel (rest ∷ frames))
  loop (suc fuel) (member key (array members) rest ∷ frames) = loop fuel (members ∷ rest ∷ frames)
  loop (suc fuel) (member key (object members) rest ∷ frames) = loop fuel (members ∷ rest ∷ frames)
  loop (suc fuel) (member key null rest ∷ frames) = loop fuel (rest ∷ frames)
  loop (suc fuel) (member key (boolean b) rest ∷ frames) = loop fuel (rest ∷ frames)
  loop (suc fuel) (member key (string s) rest ∷ frames) = loop fuel (rest ∷ frames)

  unfoldable pub visit_json : Json → Option (Result (Unit {0}))
  unfolding loop json_rounds rounds after
  visit_json (number value) = some (callback value)
  visit_json (array members) = loop (rounds members) (members ∷ [])
  visit_json (object members) = loop (rounds members) (members ∷ [])
  visit_json _ = some (ok tt)

require_finite : String → Number → Result (Unit {0})
require_finite name value =
    throw_if (not (is_finite value)) (protocol_validation (dotted name ".number"))

-- The walk is never out of fuel, which the value `foreign 0` would show.
unfoldable pub assert_finite_numbers : Json → String → Result (Unit {0})
unfolding require_finite visit_json is_finite
assert_finite_numbers value name = elim (visit_json (require_finite name) value) [
  | none ↦ err (foreign 0)
  | some result ↦ result
]

unfoldable pub decode_protocol_value : Json → (Json → Bool) → String → Result Json
decode_protocol_value value validator name = do
  assert_finite_numbers value name
  throw_if (not (validator value)) (protocol_validation name)
  ok value

-- ===== src/Tests/CommandTests.antt =====
-- Snapshots of request values and the caches of schemas on concrete inputs.
use teslatlas_sdk_typescript.Prelude.{
  ℕ, pos, ◌≡◌, ◌≢◌, refl, ap, Bool, true, Option, none, some, List, [], ◌∷◌, arith, map,
}
use teslatlas_sdk_typescript.Js.Text.{Text, codes, text_eq, join}
use teslatlas_sdk_typescript.Js.Utf8.{utf8_length}
use teslatlas_sdk_typescript.Js.Json.{
  Json, Number, string, number, integer, boolean, object, end, member, is_finite,
}
use teslatlas_sdk_typescript.Core.Errors.{ok, foreign, AllErr}
use teslatlas_sdk_typescript.Http.RequestSnapshot.{
  primitive, reference, named, Object, Snapshot, quoted, object_body, members_of, is_bad_key,
  is_bad_shape, is_ancestor, key_text, content_of, data_value, copy_properties, composed,
  copy_primitive, copy_value, or_invalid_body, is_too_large, snapshot_json_request,
}
use teslatlas_sdk_typescript.Http.RequestSnapshot.Mirrors.{Mirrors}
use teslatlas_sdk_typescript.Http.RequestSnapshot.Copies.{stringify}
use teslatlas_sdk_typescript.Http.RequestSnapshot.Fuel.{
  IsBelow, IsContentBelow, ArePropertiesBelow, copy_value_ends,
}
use teslatlas_sdk_typescript.Commands.Advertised.{Heap}
use teslatlas_sdk_typescript.Commands.Advertised.Cache.{
  Question, no_caches, uncached, answers, answers-eq-uncached,
}

abbrev number_text : Number → Text
number_text n = codes "1"

-- The first object holds a number and a text.
abbrev store : ℕ → Object
store id = record {
  array_length = none;
  has_plain_prototype = true;
  properties =
      record {
        key = named (codes "a");
        enumerable = true;
        content = some (primitive (number (integer (pos 1))));
      }
      ∷ record {
        key = named (codes "b");
        enumerable = true;
        content = some (primitive (string (codes "x\"y")));
      }
      ∷ [];
}

abbrev copied : Snapshot
copied = record {
  value = object (
      member (codes "a") (number (integer (pos 1)))
        (member (codes "b") (string (codes "x\"y")) end));
  body = codes "{\"a\":1,\"b\":\"x\\\"y\"}";
}

is_copied : snapshot_json_request number_text store 2 (reference 0) (some 100) ≡ ok copied
unfolding snapshot_json_request copy_value copy_properties is_ancestor is_bad_shape key_text
    is_bad_key data_value content_of composed copy_primitive members_of object_body quoted
    or_invalid_body is_too_large join utf8_length is_finite
is_copied = refl

-- An object that is reached from itself.
abbrev cycle : ℕ → Object
cycle id = record {
  array_length = none;
  has_plain_prototype = true;
  properties =
      record { key = named (codes "self"); enumerable = true; content = some (reference 0) } ∷ [];
}

cycle-IsBelow : (id : ℕ) → ArePropertiesBelow 1 (cycle id).properties
unfolding ArePropertiesBelow IsContentBelow IsBelow
cycle-IsBelow id = (omega arith, tt)

reference-IsBelow : IsBelow 1 (reference 0)
unfolding IsBelow
reference-IsBelow = omega arith

cycle_example : AllErr (λ e. e ≢ foreign 0) (copy_value number_text cycle 2 [] (reference 0))
cycle_example =
    copy_value_ends number_text cycle 1 cycle-IsBelow 2 (reference 0) (omega arith)
      reference-IsBelow

abbrev compile : Json → Option (Option Json → Bool)
compile schema = some (λ value. text_eq (stringify number_text schema) (codes "true"))

by_text : (v w : Json) → stringify number_text v ≡ stringify number_text w → compile v ≡ compile w
by_text v w e = ap (λ s. some (λ (value : Option Json). text_eq s (codes "true"))) e

abbrev heap : Heap
heap = record { objects = store; size = 1 }

abbrev questions : List Question
questions =
    record { heap = heap; schema = reference 0; value = none }
    ∷ record { heap = heap; schema = reference 0; value = some (boolean true) }
    ∷ record { heap = heap; schema = primitive (boolean true); value = none }
    ∷ []

cache_example :
    answers number_text compile no_caches questions ≡ map (uncached number_text compile) questions
cache_example = answers-eq-uncached number_text compile by_text questions

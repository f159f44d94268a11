-- ===== src/Http/JsonWalk/Enough.antt =====
-- The walk with frames has fuel enough, and its callback is given the numbers of the tree in order.
use teslatlas_sdk_typescript.Prelude.{
  ℕ, zero, suc, ◌+◌, ◌≤◌, ◌≡◌, refl, ap, not, some, String, List, [], ◌∷◌, ◌++◌, arith,
  append_assoc, append-nil, all, Bool-cases, inl, inr,
}
use teslatlas_sdk_typescript.Core.Errors.{
  Result, ok, err, ◌>>◌, throw_if, dotted, protocol_validation,
}
use teslatlas_sdk_typescript.Js.Json.{
  Number, Json, Members, null, boolean, number, string, array, object, end, member, is_finite,
}
use teslatlas_sdk_typescript.Http.JsonWalk.{
  json_rounds, rounds, after, loop, visit_json, require_finite, assert_finite_numbers,
}

unfoldable mutual
  -- The numbers of a value, depth first.
  pub json_numbers : Json → List Number
  json_numbers (number value) = value ∷ []
  json_numbers (array members) = numbers members
  json_numbers (object members) = numbers members
  json_numbers _ = []

  pub numbers : Members → List Number
  numbers end = []
  numbers (member key value rest) = json_numbers value ++ numbers rest

all_rounds : List Members → ℕ
all_rounds [] = 0
all_rounds (frame ∷ frames) = rounds frame + all_rounds frames

all_numbers : List Members → List Number
all_numbers [] = []
all_numbers (frame ∷ frames) = numbers frame ++ all_numbers frames

module _ (callback : Number → Result (Unit {0})) where
  -- The callback on each number in turn, up to the first that it throws for.
  pub each : List Number → Result (Unit {0})
  each [] = ok tt
  each (value ∷ values) = callback value >> each values

  after-some :
      (r : Result (Unit {0})) (values : List Number)
      → after r (some (each values)) ≡ some (r >> each values)
  unfolding after
  after-some (ok x) values = refl
  after-some (err e) values = refl

  loop-each :
      (fuel : ℕ) (frames : List Members)
      → all_rounds frames ≤ fuel
      → loop callback fuel frames ≡ some (each (all_numbers frames))
  unfolding loop all_rounds all_numbers rounds json_rounds numbers json_numbers each
  loop-each zero [] h = refl
  loop-each (suc fuel) [] h = refl
  loop-each zero (end ∷ frames) h = ground (arith, h)
  loop-each zero (member key value rest ∷ frames) h = ground (arith, h)
  loop-each (suc fuel) (end ∷ frames) h = loop-each fuel frames (omega (arith, h))
  loop-each (suc fuel) (member key (number value) rest ∷ frames) h =
      rw (loop-each fuel (rest ∷ frames) (omega (arith, h)))
        (after-some (callback value) (all_numbers (rest ∷ frames)))
  loop-each (suc fuel) (member key (array members) rest ∷ frames) h =
      rw (append_assoc (numbers members) (numbers rest) (all_numbers frames))
        (loop-each fuel (members ∷ rest ∷ frames) (omega (arith, h)))
  loop-each (suc fuel) (member key (object members) rest ∷ frames) h =
      rw (append_assoc (numbers members) (numbers rest) (all_numbers frames))
        (loop-each fuel (members ∷ rest ∷ frames) (omega (arith, h)))
  loop-each (suc fuel) (member key null rest ∷ frames) h =
      loop-each fuel (rest ∷ frames) (omega (arith, h))
  loop-each (suc fuel) (member key (boolean b) rest ∷ frames) h =
      loop-each fuel (rest ∷ frames) (omega (arith, h))
  loop-each (suc fuel) (member key (string s) rest ∷ frames) h =
      loop-each fuel (rest ∷ frames) (omega (arith, h))

>>-ok : (r : Result (Unit {0})) → r ≡ (r >> ok tt)
>>-ok (ok x) = refl
>>-ok (err e) = refl

-- The walk from one frame.
frame-each :
    (callback : Number → Result (Unit {0})) (members : Members)
    → loop callback (rounds members) (members ∷ []) ≡ some (each callback (numbers members))
unfolding all_rounds all_numbers
frame-each callback members =
    rw (append-nil (numbers members)) at
      (loop-each callback (rounds members) (members ∷ []) (omega arith))

-- The walk never runs out of fuel, and is the callback on the numbers of the value in order.
pub visit_json-each :
    (callback : Number → Result (Unit {0})) (value : Json)
    → visit_json callback value ≡ some (each callback (json_numbers value))
unfolding visit_json json_numbers each
visit_json-each callback null = refl
visit_json-each callback (boolean b) = refl
visit_json-each callback (number n) = ap some (>>-ok (callback n))
visit_json-each callback (string s) = refl
visit_json-each callback (array members) = frame-each callback members
visit_json-each callback (object members) = frame-each callback members

each-require_finite :
    (name : String) (values : List Number)
    → each (require_finite name) values
      ≡ throw_if (not (all is_finite values)) (protocol_validation (dotted name ".number"))
unfolding each require_finite
each-require_finite name [] = refl
each-require_finite name (n ∷ ns) = elim (Bool-cases (is_finite n)) [
  | inl e ↦ rw e (each-require_finite name ns)
  | inr e ↦ rw e refl
]

-- The check of the numbers throws exactly if some number anywhere in the value is infinite.
pub assert_finite_numbers-eq-all :
    (value : Json) (name : String)
    → assert_finite_numbers value name
      ≡ throw_if
          (not (all is_finite (json_numbers value)))
          (protocol_validation (dotted name ".number"))
unfolding assert_finite_numbers
assert_finite_numbers-eq-all value name =
    rw (assert_finite_numbers, visit_json-each (require_finite name) value)
      (each-require_finite name (json_numbers value))

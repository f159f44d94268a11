-- ===== src/Http/RequestSnapshot/Fuel.antt =====
-- The copy of a finite store ends: an object that is reached from itself stops it.
use teslatlas_sdk_typescript.Prelude.{
  ℕ, zero, suc, ◌+◌, ◌<◌, ◌≤◌, ◌≡◌, ◌≢◌, Bool, true, false, Option, none, some, List, [], ◌∷◌, ◌==◌,
  if◌then◌else◌, All, arith, inl, inr, Bool-cases,
}
use teslatlas_sdk_typescript.Js.Text.{Text}
use teslatlas_sdk_typescript.Js.Json.{
  Json, Number, null, boolean, number, string, array, object, is_finite,
}
use teslatlas_sdk_typescript.Core.Errors.{
  SdkError, Result, ok, invalid_request_body, foreign, AllErr, AllErr-bind, AllErr-guard,
}
use teslatlas_sdk_typescript.Http.RequestSnapshot.{
  Value, primitive, reference, other, Key, named, symbol, Property, Object, Snapshot, is_bad_key,
  is_bad_shape, is_ancestor, key_text, content_of, data_value, copy_properties, copy_primitive,
  copy_value,
}

-- The objects below `n` that are no ancestors.
free : ℕ → List ℕ → ℕ
free zero ancestors = 0
free (suc n) ancestors = (if is_ancestor ancestors n then 0 else 1) + free n ancestors

free-cons_le : (n id : ℕ) (ancestors : List ℕ) → free n (id ∷ ancestors) ≤ free n ancestors
unfolding free is_ancestor
free-cons_le zero id ancestors = omega arith
free-cons_le (suc n) id ancestors = ground (arith, free-cons_le n id ancestors)

free-cons_lt :
    (n id : ℕ) (ancestors : List ℕ)
    → id < n
    → is_ancestor ancestors id ≡ false
    → free n (id ∷ ancestors) < free n ancestors
unfolding free is_ancestor
free-cons_lt zero id ancestors h new = ground arith
free-cons_lt (suc n) id ancestors h new = elim (Bool-cases (id == n)) [
  | inl e ↦ ground (arith, e, free-cons_le n id ancestors)
  | inr e ↦ ground (arith, e, free-cons_lt n id ancestors)
]

free-nil : (n : ℕ) → free n [] ≤ n
unfolding free is_ancestor
free-nil zero = omega arith
free-nil (suc n) = ground (arith, free-nil n)

-- A reference is to one of the first `n` objects.
unfoldable pub IsBelow : ℕ → Value → Type 0
IsBelow n (reference id) = id < n
IsBelow n _ = Unit

unfoldable pub IsContentBelow : ℕ → Option Value → Type 0
IsContentBelow n none = Unit
IsContentBelow n (some value) = IsBelow n value

unfoldable pub ArePropertiesBelow : ℕ → List Property → Type 0
ArePropertiesBelow n properties = All (λ property. IsContentBelow n property.content) properties

abbrev Ends : SdkError → Type 0
Ends e = e ≢ foreign 0

invalid_Ends : Ends invalid_request_body
invalid_Ends p = cc

key_text-Ends : (key : Key) → AllErr Ends (key_text key)
unfolding key_text
key_text-Ends (named key) = tt
key_text-Ends symbol = invalid_Ends

content_of-Ends :
    (enumerable : Bool) (content : Option Value) → AllErr Ends (content_of enumerable content)
unfolding content_of
content_of-Ends true (some value) = tt
content_of-Ends true none = invalid_Ends
content_of-Ends false content = invalid_Ends

content_of-IsBelow :
    (n : ℕ) (enumerable : Bool) (content : Option Value) {value : Value}
    → IsContentBelow n content
    → content_of enumerable content ≡ ok value
    → IsBelow n value
unfolding content_of IsContentBelow
content_of-IsBelow n true (some v) h e = let same : v ≡ _ = cc in rw same at h
content_of-IsBelow n true none h e = cc
content_of-IsBelow n false content h e = cc

copy_properties-Ends :
    (n : ℕ) (copy : Value → Result Snapshot) (bound : Option ℕ) (properties : List Property)
    → ((value : Value) → IsBelow n value → AllErr Ends (copy value))
    → ArePropertiesBelow n properties
    → AllErr Ends (copy_properties copy bound properties)
unfolding copy_properties ArePropertiesBelow data_value
copy_properties-Ends n copy bound [] h k = tt
copy_properties-Ends n copy bound (property ∷ rest) h (k, ks) =
    AllErr-bind Ends (key_text property.key) _ (key_text-Ends property.key) λ key _.
      AllErr-guard Ends (is_bad_key bound key) _ _ invalid_Ends λ _.
        AllErr-bind Ends (data_value property) _
          (content_of-Ends property.enumerable property.content)
          λ content e.
            AllErr-bind Ends (copy content) _
              (h content (content_of-IsBelow n property.enumerable property.content k e))
              λ child _.
                AllErr-bind Ends (copy_properties copy bound rest) _
                  (copy_properties-Ends n copy bound rest h ks) λ copies _. tt

module _ (number_text : Number → Text) (store : ℕ → Object) (n : ℕ) where
  copy_primitive-Ends : (value : Json) → AllErr Ends (copy_primitive number_text store value)
  unfolding copy_primitive
  copy_primitive-Ends null = tt
  copy_primitive-Ends (boolean true) = tt
  copy_primitive-Ends (boolean false) = tt
  copy_primitive-Ends (string s) = tt
  copy_primitive-Ends (number k) = elim (Bool-cases (is_finite k)) [
    | inl e ↦ rw e tt
    | inr e ↦ rw e invalid_Ends
  ]
  copy_primitive-Ends (array ms) = invalid_Ends
  copy_primitive-Ends (object ms) = invalid_Ends

  copy_value-Ends :
      ((id : ℕ) → ArePropertiesBelow n (store id).properties)
      → (fuel : ℕ) (ancestors : List ℕ) (value : Value) → free n ancestors < fuel
      → IsBelow n value
      → AllErr Ends (copy_value number_text store fuel ancestors value)
  unfolding copy_value IsBelow
  copy_value-Ends below fuel ancestors (primitive value) h k = copy_primitive-Ends value
  copy_value-Ends below fuel ancestors other h k = invalid_Ends
  copy_value-Ends below zero ancestors (reference id) h k = ground arith
  copy_value-Ends below (suc fuel) ancestors (reference id) h k =
      AllErr-guard Ends (is_ancestor ancestors id) _ _ invalid_Ends λ new.
        AllErr-guard Ends (is_bad_shape (store id)) _ _ invalid_Ends λ _.
          AllErr-bind Ends
            (copy_properties (copy_value number_text store fuel (id ∷ ancestors))
              (store id).array_length (store id).properties)
            _
            (copy_properties-Ends n (copy_value number_text store fuel (id ∷ ancestors)) _
              (store id).properties
              (λ value inside.
                copy_value-Ends below fuel (id ∷ ancestors) value
                  (omega (arith, free-cons_lt n id ancestors k new)) inside)
              (below id))
            λ copies _. tt

  -- If the references are among the first `n` objects, the copy of a value never runs out of more
  -- than `n` units of fuel: a cycle or a shared object does not keep it going.
  pub copy_value_ends :
      ((id : ℕ) → ArePropertiesBelow n (store id).properties)
      → (fuel : ℕ) (value : Value) → n < fuel
      → IsBelow n value
      → AllErr (λ e. e ≢ foreign 0) (copy_value number_text store fuel [] value)
  copy_value_ends below fuel value h k =
      copy_value-Ends below fuel [] value (omega (arith, free-nil n)) k

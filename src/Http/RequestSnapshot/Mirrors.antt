-- ===== src/Http/RequestSnapshot/Mirrors.antt =====
-- What a snapshot keeps of the caller's value: all of it, in its order.
use teslatlas_sdk_typescript.Prelude.{
  ℕ, zero, suc, ◌≡◌, refl, Bool, true, false, Option, none, some, List, [], ◌∷◌,
}
use teslatlas_sdk_typescript.Js.Text.{Text}
use teslatlas_sdk_typescript.Js.Json.{
  Json, Number, Members, null, boolean, number, string, array, object, end, member, is_finite,
}
use teslatlas_sdk_typescript.Core.Errors.{
  Result, ok, err, AllOk, AllOk-bind, AllOk-guard, AllOk-ok, AllOk-if, err≢ok,
}
use teslatlas_sdk_typescript.Http.RequestSnapshot.{
  Key, named, symbol, Value, primitive, reference, other, Property, Object, Snapshot, members_of,
  is_bad_key, is_bad_shape, is_ancestor, key_text, content_of, data_value, copy_properties,
  composed, copy_primitive, copy_value, or_invalid_body,
}

module _ (store : ℕ → Object) where
  unfoldable mutual
    -- A tree is the value's: a primitive value as it is, an array or an object member by member.
    pub Mirrors : Json → Value → Type 0
    Mirrors (array members) value =
        (id : ℕ) × (value ≡ reference id)
        × ((bound : ℕ) × ((store id).array_length ≡ some bound))
        × MirrorsAll members (store id).properties
    Mirrors (object members) value =
        (id : ℕ) × (value ≡ reference id)
        × ((store id).array_length ≡ none)
        × MirrorsAll members (store id).properties
    Mirrors null value = value ≡ primitive null
    Mirrors (boolean b) value = value ≡ primitive (boolean b)
    Mirrors (number n) value = value ≡ primitive (number n)
    Mirrors (string s) value = value ≡ primitive (string s)

    -- Each member is the property at its place, which is enumerable and holds data under that name.
    pub MirrorsAll : Members → List Property → Type 0
    MirrorsAll end [] = Unit
    MirrorsAll end (property ∷ properties) = ⊥
    MirrorsAll (member key value rest) [] = ⊥
    MirrorsAll (member key value rest) (property ∷ properties) =
        (property.key ≡ named key)
        × ((content : Value) × (property.enumerable ≡ true)
            × (property.content ≡ some content)
            × Mirrors value content)
        × MirrorsAll rest properties

  key_text-named : (key : Key) {text : Text} → key_text key ≡ ok text → key ≡ named text
  unfolding key_text
  key_text-named (named key) h = cc
  key_text-named symbol h = elim (err≢ok _ _ h) [ ]

  content_of-data :
      (enumerable : Bool) (found : Option Value) {content : Value}
      → content_of enumerable found ≡ ok content
      → (enumerable ≡ true) × (found ≡ some content)
  unfolding content_of
  content_of-data true (some value) h = (refl, cc)
  content_of-data true none h = elim (err≢ok _ _ h) [ ]
  content_of-data false found h = elim (err≢ok _ _ h) [ ]

  abbrev IsOf : Value → Snapshot → Type 0
  IsOf value snapshot = Mirrors snapshot.value value

  abbrev AreOf : List Property → List (Text × Snapshot) → Type 0
  AreOf properties copies = MirrorsAll (members_of copies) properties

  copy_properties-AreOf :
      (copy : Value → Result Snapshot) (bound : Option ℕ) (properties : List Property)
      → ((value : Value) → AllOk (IsOf value) (copy value))
      → AllOk (AreOf properties) (copy_properties copy bound properties)
  unfolding copy_properties members_of MirrorsAll data_value
  copy_properties-AreOf copy bound [] h = tt
  copy_properties-AreOf copy bound (property ∷ rest) h =
      let P = AreOf (property ∷ rest) in
      AllOk-bind P (key_text property.key) _ λ key a. AllOk-guard P (is_bad_key bound key) _ _ λ _.
        AllOk-bind P (content_of property.enumerable property.content) _ λ content b.
          AllOk-bind P (copy content) _ λ child e.
            AllOk-bind P (copy_properties copy bound rest) _ λ copies f.
              let held = content_of-data property.enumerable property.content b in
              (
                key_text-named property.key a,
                (content, held.0, held.1, AllOk-ok (IsOf content) _ (h content) e),
                AllOk-ok (AreOf rest) _ (copy_properties-AreOf copy bound rest h) f,
              )

  composed-IsOf :
      (id : ℕ) (bound : Option ℕ) (copies : List (Text × Snapshot))
      → (store id).array_length ≡ bound
      → AreOf (store id).properties copies
      → IsOf (reference id) (composed bound copies)
  unfolding composed Mirrors
  composed-IsOf id none copies e h = (id, refl, e, h)
  composed-IsOf id (some bound) copies e h = (id, refl, (bound, e), h)

  module _ (number_text : Number → Text) where
    copy_primitive-IsOf :
        (value : Json) → AllOk (IsOf (primitive value)) (copy_primitive number_text store value)
    unfolding copy_primitive Mirrors
    copy_primitive-IsOf null = refl
    copy_primitive-IsOf (boolean true) = refl
    copy_primitive-IsOf (boolean false) = refl
    copy_primitive-IsOf (string s) = refl
    copy_primitive-IsOf (number n) =
        AllOk-if (IsOf (primitive (number n))) (is_finite n) _ _ (λ e. refl) (λ _. tt)
    copy_primitive-IsOf (array ms) = tt
    copy_primitive-IsOf (object ms) = tt

    copy_value-IsOf :
        (fuel : ℕ) (ancestors : List ℕ) (value : Value)
        → AllOk (IsOf value) (copy_value number_text store fuel ancestors value)
    unfolding copy_value
    copy_value-IsOf fuel ancestors (primitive value) = copy_primitive-IsOf value
    copy_value-IsOf fuel ancestors other = tt
    copy_value-IsOf zero ancestors (reference id) = tt
    copy_value-IsOf (suc fuel) ancestors (reference id) =
        let P = IsOf (reference id) in
        let copy = copy_value number_text store fuel (id ∷ ancestors) in
        AllOk-guard P (is_ancestor ancestors id) _ _ λ _.
          AllOk-guard P (is_bad_shape (store id)) _ _ λ _.
            AllOk-bind P (copy_properties copy (store id).array_length (store id).properties) _
              λ copies e. composed-IsOf id (store id).array_length copies refl (
                AllOk-ok (AreOf (store id).properties) _
                  (copy_properties-AreOf copy _ (store id).properties
                    (copy_value-IsOf fuel (id ∷ ancestors)))
                  e)

    or_invalid_body-IsOf :
        (value : Value) (r : Result Snapshot)
        → AllOk (IsOf value) r
        → AllOk (IsOf value) (or_invalid_body r)
    unfolding or_invalid_body
    or_invalid_body-IsOf value (ok snapshot) h = h
    or_invalid_body-IsOf value (err e) h = tt

    pub or_invalid_body-Mirrors :
        (fuel : ℕ) (value : Value)
        → AllOk
            (λ snapshot. Mirrors snapshot.value value)
            (or_invalid_body (copy_value number_text store fuel [] value))
    or_invalid_body-Mirrors fuel value =
        or_invalid_body-IsOf value (copy_value number_text store fuel [] value)
          (copy_value-IsOf fuel [] value)

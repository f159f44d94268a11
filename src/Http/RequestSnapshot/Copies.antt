-- ===== src/Http/RequestSnapshot/Copies.antt =====
-- A snapshot is what it says: its body is the text of its value, and within the limit.
use teslatlas_sdk_typescript.Prelude.{
  ℕ, zero, suc, ◌≡◌, refl, ◌≤◌, Bool, true, false, Option, none, some, List, [], ◌∷◌, ◌++◌, map,
  all, All, arith, not_ltb→le,
}
use teslatlas_sdk_typescript.Js.Text.{Text, codes, join}
use teslatlas_sdk_typescript.Js.Utf8.{utf8_length}
use teslatlas_sdk_typescript.Js.Json.{
  Json, Number, Members, null, boolean, number, string, array, object, end, member, is_finite,
}
use teslatlas_sdk_typescript.Core.Errors.{
  Result, ok, err, AllOk, AllOk-bind, AllOk-guard, AllOk-ok, AllOk-if,
}
use teslatlas_sdk_typescript.Http.JsonWalk.Enough.{json_numbers, numbers}
use teslatlas_sdk_typescript.Http.RequestSnapshot.Mirrors.{Mirrors, or_invalid_body-Mirrors}
use teslatlas_sdk_typescript.Http.RequestSnapshot.{
  Value, primitive, reference, other, Property, Object, Snapshot, quoted, object_body, array_body,
  members_of, is_bad_key, is_bad_shape, is_ancestor, key_text, data_value, copy_properties,
  composed, copy_primitive, copy_value, or_invalid_body, is_too_large, snapshot_json_request,
}

all-append :
    (p : Number → Bool) (xs ys : List Number)
    → all p xs ≡ true
    → all p ys ≡ true
    → all p (xs ++ ys) ≡ true
all-append p [] ys h k = k
all-append p (x ∷ xs) ys h k = ground (arith, all-append p xs ys)

module _ (number_text : Number → Text) where
  unfoldable mutual
    -- `JSON.stringify` of a tree.
    pub stringify : Json → Text
    stringify null = codes "null"
    stringify (boolean true) = codes "true"
    stringify (boolean false) = codes "false"
    stringify (string s) = quoted s
    stringify (number n) = number_text n
    stringify (array members) = b'[' ∷ (join (codes ",") (element_texts members) ++ b']' ∷ [])
    stringify (object members) = b'{' ∷ (join (codes ",") (member_texts members) ++ b'}' ∷ [])

    element_texts : Members → List Text
    element_texts end = []
    element_texts (member key value rest) = stringify value ∷ element_texts rest

    member_texts : Members → List Text
    member_texts end = []
    member_texts (member key value rest) =
        (quoted key ++ (b':' ∷ stringify value)) ∷ member_texts rest

  -- The body is the text of the value, all of whose numbers are finite.
  unfoldable pub IsCopy : Snapshot → Type 0
  IsCopy snapshot =
      (snapshot.body ≡ stringify snapshot.value)
      × (all is_finite (json_numbers snapshot.value) ≡ true)

  AreCopies : List (Text × Snapshot) → Type 0
  AreCopies copies = All (λ copy. IsCopy copy.1) copies

  member_texts-members_of :
      (copies : List (Text × Snapshot))
      → AreCopies copies
      → map (λ copy. quoted copy.0 ++ (b':' ∷ copy.1.body)) copies
        ≡ member_texts (members_of copies)
  unfolding member_texts members_of AreCopies IsCopy
  member_texts-members_of [] h = refl
  member_texts-members_of ((key, copy) ∷ copies) ((e, f), h) =
      rw (e, member_texts-members_of copies h) refl

  element_texts-members_of :
      (copies : List (Text × Snapshot))
      → AreCopies copies
      → map (λ copy. copy.1.body) copies ≡ element_texts (members_of copies)
  unfolding element_texts members_of AreCopies IsCopy
  element_texts-members_of [] h = refl
  element_texts-members_of ((key, copy) ∷ copies) ((e, f), h) =
      rw (e, element_texts-members_of copies h) refl

  numbers-members_of :
      (copies : List (Text × Snapshot))
      → AreCopies copies
      → all is_finite (numbers (members_of copies)) ≡ true
  unfolding numbers members_of AreCopies IsCopy
  numbers-members_of [] h = refl
  numbers-members_of ((key, copy) ∷ copies) ((e, f), h) =
      all-append is_finite (json_numbers copy.value) _ f (numbers-members_of copies h)

  composed-IsCopy :
      (bound : Option ℕ) (copies : List (Text × Snapshot))
      → AreCopies copies
      → IsCopy (composed bound copies)
  unfolding composed IsCopy json_numbers stringify object_body array_body
  composed-IsCopy none copies h =
      (rw (member_texts-members_of copies h) refl, numbers-members_of copies h)
  composed-IsCopy (some bound) copies h =
      (rw (element_texts-members_of copies h) refl, numbers-members_of copies h)

  copy_properties-AreCopies :
      (copy : Value → Result Snapshot) (bound : Option ℕ) (properties : List Property)
      → ((value : Value) → AllOk IsCopy (copy value))
      → AllOk AreCopies (copy_properties copy bound properties)
  unfolding copy_properties AreCopies
  copy_properties-AreCopies copy bound [] h = tt
  copy_properties-AreCopies copy bound (property ∷ rest) h =
      AllOk-bind AreCopies (key_text property.key) _ λ key _.
        AllOk-guard AreCopies (is_bad_key bound key) _ _ λ _.
          AllOk-bind AreCopies (data_value property) _ λ content _.
            AllOk-bind AreCopies (copy content) _ λ child e.
              AllOk-bind AreCopies (copy_properties copy bound rest) _ λ copies f. (
                AllOk-ok IsCopy _ (h content) e,
                AllOk-ok AreCopies _ (copy_properties-AreCopies copy bound rest h) f,
              )

  module _ (store : ℕ → Object) where
    copy_primitive-IsCopy : (value : Json) → AllOk IsCopy (copy_primitive number_text store value)
    unfolding copy_primitive IsCopy stringify json_numbers
    copy_primitive-IsCopy null = (refl, refl)
    copy_primitive-IsCopy (boolean true) = (refl, refl)
    copy_primitive-IsCopy (boolean false) = (refl, refl)
    copy_primitive-IsCopy (string s) = (refl, refl)
    copy_primitive-IsCopy (number n) =
        AllOk-if IsCopy (is_finite n) _ _ (λ e. (refl, ground (arith, e))) (λ _. tt)
    copy_primitive-IsCopy (array ms) = tt
    copy_primitive-IsCopy (object ms) = tt

    copy_value-IsCopy :
        (fuel : ℕ) (ancestors : List ℕ) (value : Value)
        → AllOk IsCopy (copy_value number_text store fuel ancestors value)
    unfolding copy_value
    copy_value-IsCopy fuel ancestors (primitive value) = copy_primitive-IsCopy value
    copy_value-IsCopy fuel ancestors other = tt
    copy_value-IsCopy zero ancestors (reference id) = tt
    copy_value-IsCopy (suc fuel) ancestors (reference id) =
        AllOk-guard IsCopy (is_ancestor ancestors id) _ _ λ _.
          AllOk-guard IsCopy (is_bad_shape (store id)) _ _ λ _.
            AllOk-bind IsCopy
              (copy_properties (copy_value number_text store fuel (id ∷ ancestors))
                (store id).array_length (store id).properties)
              _
              λ copies e. composed-IsCopy (store id).array_length copies (
                AllOk-ok AreCopies _
                  (copy_properties-AreCopies (copy_value number_text store fuel (id ∷ ancestors)) _
                    (store id).properties (copy_value-IsCopy fuel (id ∷ ancestors)))
                  e)

    -- The bytes of the text are within the maximum, where there is one.
    unfoldable pub IsWithin : Option ℕ → Text → Type 0
    IsWithin none body = Unit
    IsWithin (some maximum) body = utf8_length body ≤ maximum

    is_too_large-IsWithin :
        (maximum : Option ℕ) (body : Text)
        → is_too_large maximum body ≡ false
        → IsWithin maximum body
    unfolding is_too_large IsWithin
    is_too_large-IsWithin none body h = tt
    is_too_large-IsWithin (some maximum) body h = not_ltb→le maximum (utf8_length body) h

    or_invalid_body-IsCopy :
        (r : Result Snapshot) → AllOk IsCopy r → AllOk IsCopy (or_invalid_body r)
    unfolding or_invalid_body
    or_invalid_body-IsCopy (ok snapshot) h = h
    or_invalid_body-IsCopy (err e) h = tt

    pub snapshot_json_request-IsCopy :
        (fuel : ℕ) (value : Value) (maximum : Option ℕ)
        → AllOk
            (λ snapshot.
              IsCopy snapshot × IsWithin maximum snapshot.body × Mirrors store snapshot.value value)
            (snapshot_json_request number_text store fuel value maximum)
    unfolding snapshot_json_request
    snapshot_json_request-IsCopy fuel value maximum =
        let P : Snapshot → Type 0 = λ snapshot.
          IsCopy snapshot × IsWithin maximum snapshot.body × Mirrors store snapshot.value value in
        AllOk-bind P (or_invalid_body (copy_value number_text store fuel [] value)) _ λ snapshot e.
          AllOk-guard P (is_too_large maximum snapshot.body) _ _ λ h. (
            AllOk-ok IsCopy _ (or_invalid_body-IsCopy _ (copy_value-IsCopy fuel [] value)) e,
            is_too_large-IsWithin maximum snapshot.body h,
            AllOk-ok (λ s. Mirrors store s.value value) _
                (or_invalid_body-Mirrors store number_text fuel value) e,
          )

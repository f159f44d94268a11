-- ===== src/Http/RequestBuilder/Paths.antt =====
-- Values cannot change the shape of a path.
use teslatlas_sdk_typescript.Prelude.{
  ℕ, zero, suc, ◌+◌, ◌≡◌, refl, sym, ◌∙◌, true, false, inl, inr, none, some, List, [], ◌∷◌, ◌++◌,
  arith, ◌==◌, if◌then◌else◌, all, length, Option-cases,
}
use teslatlas_sdk_typescript.Js.Text.{Text}
use teslatlas_sdk_typescript.Js.Uri.{
  encode_uri_component, is_encoded_unit, encode_uri_component-encoded,
}
use teslatlas_sdk_typescript.Core.Errors.{
  ok, ◌>>=◌, invalid_request_path, AllOk, AllOk-guard, AllOk-bind, AllOk-map, AllOk-ok,
}
use teslatlas_sdk_typescript.Http.RequestBuilder.{
  Values, placeholder, or_throw, or_throw-eq-ok, uri_error, lookup, substitute, is_unusable,
  interpolate_path,
}

-- How often a unit stands in a text.
unfoldable pub count_unit : ℕ → Text → ℕ
count_unit u [] = 0
count_unit u (c ∷ s) = (if c == u then 1 else 0) + count_unit u s

count_unit-append : (u : ℕ) (s t : Text) → count_unit u (s ++ t) ≡ count_unit u s + count_unit u t
unfolding count_unit
count_unit-append u [] t = omega arith
count_unit-append u (c ∷ s) t = omega (arith, count_unit-append u s t)

count_unit-encoded :
    (u : ℕ) (s : Text)
    → is_encoded_unit u ≡ false
    → all is_encoded_unit s ≡ true
    → count_unit u s ≡ 0
unfolding count_unit
count_unit-encoded u [] h k = refl
count_unit-encoded u (c ∷ s) h k = ground (arith, count_unit-encoded u s h)

-- The units of the template that are no part of a placeholder.
literal_count : ℕ → ℕ → Text → ℕ
literal_count zero u template = 0
literal_count (suc fuel) u [] = 0
literal_count (suc fuel) u (c ∷ s) = elim (if c == b'{' then placeholder s else none) [
  | none ↦ (if c == u then 1 else 0) + literal_count fuel u s
  | some (name, after) ↦ literal_count fuel u after
]

literal_count-literal :
    (fuel u c : ℕ) (s : Text)
    → (if c == b'{' then placeholder s else none) ≡ none
    → literal_count (suc fuel) u (c ∷ s) ≡ (if c == u then 1 else 0) + literal_count fuel u s
unfolding literal_count
literal_count-literal fuel u c s e = rw (e, literal_count) refl

literal_count-placeholder :
    (fuel u c : ℕ) (s name after : Text)
    → (if c == b'{' then placeholder s else none) ≡ some (name, after)
    → literal_count (suc fuel) u (c ∷ s) ≡ literal_count fuel u after
unfolding literal_count
literal_count-placeholder fuel u c s name after e = rw (e, literal_count) refl

module _ (u : ℕ) (values : Values) (h : is_encoded_unit u ≡ false) where
  abbrev Has : ℕ → Text × List Text → Type 0
  Has n r = count_unit u r.0 ≡ n

  abbrev Counts : ℕ → Text → Text × List Text → Type 0
  Counts fuel template r = count_unit u r.0 ≡ literal_count fuel u template

  count_unit-literal :
      (fuel c : ℕ) (s : Text)
      → AllOk (Counts fuel s) (substitute fuel values s)
      → AllOk
          (Has ((if c == u then 1 else 0) + literal_count fuel u s))
          (substitute fuel values s >>= λ r. ok (c ∷ r.0, r.1))
  count_unit-literal fuel c s ih = AllOk-bind _ (substitute fuel values s) _ λ r e.
      let counted : Counts fuel s r = AllOk-ok (Counts fuel s) _ ih e in
      unfold count_unit in omega (arith, counted)

  count_unit-placeholder :
      (fuel : ℕ) (name after : Text)
      → AllOk (Counts fuel after) (substitute fuel values after)
      → AllOk (Has (literal_count fuel u after)) (do
        value ← or_throw (lookup name values) invalid_request_path
        encoded ← or_throw (encode_uri_component value) uri_error
        (path, used) ← substitute fuel values after
        ok (encoded ++ path, name ∷ used))
  count_unit-placeholder fuel name after ih =
      AllOk-bind _ (or_throw (lookup name values) invalid_request_path) _ λ value _.
        AllOk-bind _ (or_throw (encode_uri_component value) uri_error) _ λ encoded e.
          AllOk-bind _ (substitute fuel values after) _ λ r f.
            let counted : Counts fuel after r = AllOk-ok (Counts fuel after) _ ih f in
            let none_there : count_unit u encoded ≡ 0 =
              count_unit-encoded u encoded h
                (encode_uri_component-encoded value encoded (or_throw-eq-ok _ uri_error e)) in
            omega (arith, counted, none_there, count_unit-append u encoded r.0)

  count_unit-substitute :
      (fuel : ℕ) (template : Text) → AllOk (Counts fuel template) (substitute fuel values template)
  unfolding substitute
  count_unit-substitute zero template = unfold count_unit literal_count in refl
  count_unit-substitute (suc fuel) [] = unfold count_unit literal_count in refl
  count_unit-substitute (suc fuel) (c ∷ s) =
      elim (Option-cases (if c == b'{' then placeholder s else none)) [
        | inl plain ↦
            rw (plain, substitute)
              (AllOk-map (Has _) (Counts (suc fuel) (c ∷ s)) _
                (λ r e. e ∙ sym (literal_count-literal fuel u c s plain))
                (count_unit-literal fuel c s (count_unit-substitute fuel s)))
        | inr ((name, after), found) ↦
            rw (found, substitute)
              (AllOk-map (Has _) (Counts (suc fuel) (c ∷ s)) _
                (λ r e. e ∙ sym (literal_count-placeholder fuel u c s name after found))
                (count_unit-placeholder fuel name after (count_unit-substitute fuel after)))
      ]

  abbrev CountsPath : Text → Text → Type 0
  CountsPath template path = count_unit u path ≡ literal_count (length template) u template

  count_unit-interpolate_path :
      (template : Text) → AllOk (CountsPath template) (interpolate_path template values)
  unfolding interpolate_path
  count_unit-interpolate_path template =
      AllOk-bind (CountsPath template) (substitute (length template) values template) _ λ r e.
        AllOk-guard (CountsPath template) (is_unusable r.0 r.1 values) invalid_request_path (ok r.0)
          λ _.
            AllOk-ok (Counts (length template) template) _
              (count_unit-substitute (length template) template) e

-- A delimiter, such as `/`, `?` or `#`, stands as often in the paths of two calls for one template,
-- whatever the values: a value adds no segment, no query and no fragment.
pub interpolate_path_shape :
    (u : ℕ) (template : Text) (v w : Values) (p q : Text)
    → is_encoded_unit u ≡ false
    → interpolate_path template v ≡ ok p
    → interpolate_path template w ≡ ok q
    → count_unit u p ≡ count_unit u q
interpolate_path_shape u template v w p q h e f =
    AllOk-ok (CountsPath u v h template) _ (count_unit-interpolate_path u v h template) e
    ∙ sym (AllOk-ok (CountsPath u w h template) _ (count_unit-interpolate_path u w h template) f)

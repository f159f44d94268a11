-- ===== src/Events/ProtocolEvents/Types.antt =====
-- The event types that a stream may ask for.
use teslatlas_sdk_typescript.Prelude.{
  ◌≡◌, ◌≤◌, refl, sym, ◌∙◌, false, Option, none, some, List, [], ◌∷◌, ◌++◌, ltb, length, arith,
  append_assoc, append-nil,
}
use teslatlas_sdk_typescript.Js.Text.{Text, includes}
use teslatlas_sdk_typescript.Core.Errors.{
  AllOk, AllOk-bind, AllOk-guard, AllOk-if, AllOk-map, AllOk-ok,
}
use teslatlas_sdk_typescript.Http.RequestBuilder.{lookup}
use teslatlas_sdk_typescript.Events.ProtocolEvents.{
  Profile, Catalog, is_newer, check_event_type, normalize_each, normalize_event_types,
}

module _ (catalog : Catalog) (version : Profile) where
  -- Each type is of the catalog, introduced no later than the version, and not among those before it.
  pub IsSelection : List Text → List Text → Type 0
  IsSelection before [] = Unit
  IsSelection before (t ∷ ts) =
      (includes before t ≡ false)
      × ((profile : Profile) × (lookup t catalog ≡ some profile)
          × (is_newer profile version ≡ false))
      × IsSelection (before ++ t ∷ []) ts

  abbrev IsAvailable : List Text → Text → Option Profile → Unit {0} → Type 0
  IsAvailable before t found x =
      (includes before t ≡ false)
      × ((profile : Profile) × (found ≡ some profile) × (is_newer profile version ≡ false))

  check-IsAvailable :
      (before : List Text) (t : Text) (found : Option Profile)
      → AllOk (IsAvailable before t found) (check_event_type catalog version before t found)
  unfolding check_event_type
  check-IsAvailable before t none = tt
  check-IsAvailable before t (some profile) =
      AllOk-guard (IsAvailable before t (some profile)) (includes before t) _ _ λ fresh.
        AllOk-guard (IsAvailable before t (some profile)) (is_newer profile version) _ _
          λ available. (fresh, (profile, refl, available))

  normalize_each-IsSelection :
      (before value : List Text)
      → AllOk
          (λ r. (r ≡ before ++ value) × IsSelection before value)
          (normalize_each catalog version before value)
  unfolding normalize_each IsSelection
  normalize_each-IsSelection before [] = (sym (append-nil before), tt)
  normalize_each-IsSelection before (t ∷ ts) =
      let P : List Text → Type 0 = λ r. (r ≡ before ++ t ∷ ts) × IsSelection before (t ∷ ts) in
      AllOk-bind P (check_event_type catalog version before t (lookup t catalog)) _ λ x a.
        let here =
          AllOk-ok (IsAvailable before t (lookup t catalog)) _
            (check-IsAvailable before t (lookup t catalog)) a in
        AllOk-map (λ r. (r ≡ (before ++ t ∷ []) ++ ts) × IsSelection (before ++ t ∷ []) ts) P _
          (λ r k. (k.0 ∙ append_assoc before (t ∷ []) ts, (here.0, here.1, k.1)))
          (normalize_each-IsSelection (before ++ t ∷ []) ts)

  -- The types that are asked for are kept as they are, in order; they are at most 32, all of the
  -- catalog, none newer than the negotiated version, and all different.
  pub normalize_event_types-IsSelection :
      (value : List Text)
      → AllOk
          (λ r. (r ≡ value) × (length value ≤ 32) × IsSelection [] value)
          (normalize_event_types catalog (some value) version)
  unfolding normalize_event_types
  normalize_event_types-IsSelection value =
      let P : List Text → Type 0 = λ r. (r ≡ value) × (length value ≤ 32) × IsSelection [] value in
      AllOk-if P (ltb 32 (length value)) _ _ (λ _. tt)
        (λ short.
          AllOk-map (λ r. (r ≡ value) × IsSelection [] value) P _
            (λ r k. (k.0, ground (arith, short), k.1)) (normalize_each-IsSelection [] value))

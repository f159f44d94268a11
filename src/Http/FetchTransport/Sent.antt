-- ===== src/Http/FetchTransport/Sent.antt =====
-- What is handed to `fetch`, if anything.
use teslatlas_sdk_typescript.Prelude.{
  ◌≡◌, refl, Bool, true, false, ◌||◌, Option, none, some, List, [], ◌∷◌, ◌++◌, if◌then◌else◌, map,
  any, arith, inl, inr, Bool-cases, subst,
}
use teslatlas_sdk_typescript.Js.Text.{Text, codes, text_eq, text_eq_iff, text_eq_refl}
use teslatlas_sdk_typescript.Core.Errors.{
  SdkError, Result, ok, err, contains_control_characters, is_empty, AllOk, AllOk-bind, AllOk-guard,
  AllOk-if, AllOk-map, AllOk-ok,
}
use teslatlas_sdk_typescript.Http.HeaderValue.{is_bad_header_unit, header_value, checked_value}
use teslatlas_sdk_typescript.Http.RequestBuilder.{Values}
use teslatlas_sdk_typescript.Js.Trim.{lower}
use teslatlas_sdk_typescript.Http.FetchTransport.{
  Target, Dispatch, FetchEnvironment, same_name, has_header, remove_header, set_header,
  apply_if_none_match, authorized, authorization_header, at_origin, resolve_request_url,
  prepare_dispatch, checked_request, new_headers, notified_dispatch, fetch_dispatch, send_checked,
  request, is_root_relative,
}

-- The values of a header, in order.
pub values_of : Values → Text → List Text
values_of [] name = []
values_of ((key, value) ∷ rest) name =
    let others = values_of rest name in if same_name key name then value ∷ others else others

values_of-append :
    (xs ys : Values) (name : Text)
    → values_of (xs ++ ys) name ≡ values_of xs name ++ values_of ys name
unfolding values_of
values_of-append [] ys name = refl
values_of-append ((key, value) ∷ rest) ys name = elim (Bool-cases (same_name key name)) [
  | inl e ↦ rw (e, values_of-append rest ys name) refl
  | inr e ↦ rw (e, values_of-append rest ys name) refl
]

values_of-remove :
    (headers : Values) (name : Text) → values_of (remove_header headers name) name ≡ []
unfolding values_of remove_header
values_of-remove [] name = refl
values_of-remove ((key, value) ∷ rest) name = elim (Bool-cases (same_name key name)) [
  | inl e ↦ rw (e, values_of-remove rest name) refl
  | inr e ↦ rw (e, e, values_of-remove rest name) refl
]

same_name_refl : (name : Text) → same_name name name ≡ true
unfolding same_name
same_name_refl name = text_eq_refl (map lower name)

values_of-added :
    (headers : Values) (name value : Text)
    → values_of (remove_header headers name ++ (name, value) ∷ []) name ≡ value ∷ []
unfolding values_of
values_of-added headers name value =
    rw
      (
        values_of-append (remove_header headers name) ((name, value) ∷ []) name,
        values_of-remove headers name,
        same_name_refl name,
      )
      refl

-- A value that can be set is the only one then, without the white space at its ends.
IsSetTo : Text → List Text → Type 0
IsSetTo value values =
    (values ≡ header_value value ∷ []) × (any is_bad_header_unit (header_value value) ≡ false)

set_header-IsSetTo :
    (headers : Values) (name value : Text)
    → AllOk (λ final. IsSetTo value (values_of final name)) (set_header headers name value)
unfolding set_header checked_value IsSetTo
set_header-IsSetTo headers name value =
    let P : Values → Type 0 = λ final. IsSetTo value (values_of final name) in
    elim (Bool-cases (any is_bad_header_unit (header_value value))) [
      | inl e ↦ rw e tt
      | inr e ↦ rw e (values_of-added headers name (header_value value), refl)
    ]

-- Without the header, it has no values.
has_header-values_of :
    (headers : Values) (name : Text) → has_header headers name ≡ false → values_of headers name ≡ []
unfolding has_header values_of
has_header-values_of [] name h = refl
has_header-values_of ((key, value) ∷ rest) name h = elim (Bool-cases (same_name key name)) [
  | inl e ↦ ground (arith, e, h)
  | inr e ↦ rw (e, has_header-values_of rest name (ground (arith, e, h))) refl
]

values_of-remove_other :
    (headers : Values) (name other : Text)
    → values_of headers name ≡ []
    → values_of (remove_header headers other) name ≡ []
unfolding values_of remove_header
values_of-remove_other [] name other h = refl
values_of-remove_other ((key, value) ∷ rest) name other h = elim (Bool-cases (same_name key name)) [
  | inl e ↦ (let k : value ∷ values_of rest name ≡ [] = rw e at h in cc)
  | inr e ↦
      (let k : values_of rest name ≡ [] = rw e at h in
        elim (Bool-cases (same_name key other)) [
          | inl d ↦ rw d (values_of-remove_other rest name other k)
          | inr d ↦ rw (d, e) (values_of-remove_other rest name other k)
        ])
]

-- The tag of a conditional request leaves the authorization out.
apply_if_none_match-unauthorized :
    (headers : Values) (tag : Option Text)
    → values_of headers authorization_header ≡ []
    → AllOk (λ final. values_of final authorization_header ≡ []) (apply_if_none_match headers tag)
unfolding apply_if_none_match set_header values_of same_name text_eq lower
apply_if_none_match-unauthorized headers none h = h
apply_if_none_match-unauthorized headers (some tag) h =
    AllOk-bind (λ final. values_of final authorization_header ≡ []) (checked_value tag) _
      λ checked e.
        rw
          (values_of-append (remove_header headers (codes "If-None-Match"))
            ((codes "If-None-Match", checked) ∷ []) authorization_header)
          (rw (values_of-remove_other headers authorization_header (codes "If-None-Match") h) refl)

-- How a provider's answer shows in the values of the header: without the white space at its ends, all
-- of it units that a header can have.
pub IsSentAs : Option Text → List Text → Type 0
IsSentAs none values = values ≡ []
IsSentAs (some value) values =
    (is_empty value ≡ false)
    × (contains_control_characters value ≡ false)
    × (values ≡ header_value value ∷ [])
    × (any is_bad_header_unit (header_value value) ≡ false)

authorized-IsSentAs :
    (headers : Values) (answer : Option Text)
    → values_of headers authorization_header ≡ []
    → AllOk
        (λ final. IsSentAs answer (values_of final authorization_header))
        (authorized headers answer)
unfolding authorized IsSentAs IsSetTo
authorized-IsSentAs headers none h = h
authorized-IsSentAs headers (some value) h =
    AllOk-if (λ final. IsSentAs (some value) (values_of final authorization_header))
      (is_empty value || contains_control_characters value) _ _ (λ e. tt)
      (λ e.
        AllOk-map (λ final. IsSetTo value (values_of final authorization_header))
          (λ final. IsSentAs (some value) (values_of final authorization_header)) _
          (λ final k. (ground (arith, e), ground (arith, e), k.0, k.1))
          (set_header-IsSetTo headers authorization_header value))

module _ (base_origin : Text) (resolve : Text → Option Target)
    (is_abort_error : SdkError → Bool) where
  abbrev IsUnauthorized : Target × Values → Type 0
  IsUnauthorized checked =
      (checked.0.origin ≡ base_origin) × (values_of checked.1 authorization_header ≡ [])

  resolve-origin :
      (path : Text) (failure : SdkError)
      → AllOk
          (λ target. target.origin ≡ base_origin)
          (resolve_request_url base_origin resolve is_abort_error path failure)
  unfolding resolve_request_url at_origin
  resolve-origin path failure =
      let P : Target → Type 0 = λ target. target.origin ≡ base_origin in
      AllOk-if P (is_root_relative base_origin resolve is_abort_error path) _ _
        (λ _.
          elim (resolve path)
            as (λ o. AllOk P (at_origin base_origin resolve is_abort_error o failure)) [
              | none ↦ tt
              | some target ↦
                  AllOk-if P (text_eq target.origin base_origin) _ _
                    (λ e. (text_eq_iff target.origin base_origin).0 e) (λ _. tt)
            ])
        (λ _. tt)

  checked-IsUnauthorized :
      (path : Text) (failure : SdkError) (headers : Values) (tag : Option Text)
      → AllOk IsUnauthorized
          (checked_request base_origin resolve is_abort_error path failure headers tag)
  unfolding checked_request
  checked-IsUnauthorized path failure headers tag =
      AllOk-bind IsUnauthorized
        (resolve_request_url base_origin resolve is_abort_error path failure) _
        λ target a. AllOk-bind IsUnauthorized (new_headers headers) _ λ given _.
          AllOk-guard IsUnauthorized (has_header given authorization_header) _ _ λ absent.
            AllOk-bind IsUnauthorized (apply_if_none_match given tag) _ λ conditional b. (
              AllOk-ok (λ t. t.origin ≡ base_origin) _ (resolve-origin path failure) a,
              AllOk-ok (λ final. values_of final authorization_header ≡ []) _
                  (apply_if_none_match-unauthorized given tag
                    (has_header-values_of given authorization_header absent))
                  b,
            )

  abbrev IsAuthorized : FetchEnvironment → Dispatch → Type 0
  IsAuthorized environment dispatch =
      (dispatch.target.origin ≡ base_origin)
      × (environment.aborted_first ≡ false)
      × (environment.aborted_authorized ≡ false)
      × ((answer : Option Text) × (environment.authorization ≡ ok answer)
          × IsSentAs answer (values_of dispatch.headers authorization_header))

  prepare-IsAuthorized :
      (environment : FetchEnvironment) (target : Target) (headers : Values)
      → IsUnauthorized (target, headers)
      → AllOk
          (IsAuthorized environment)
          (prepare_dispatch base_origin resolve is_abort_error target headers environment)
  unfolding prepare_dispatch
  prepare-IsAuthorized environment target headers h =
      let P = IsAuthorized environment in
      AllOk-guard P environment.aborted_first _ _ λ first.
        AllOk-bind P environment.authorization _ λ answer a.
          AllOk-bind P (authorized headers answer) _ λ final b.
            AllOk-guard P environment.aborted_authorized _ _ λ second. (
              h.0,
              first,
              second,
              (
                answer,
                a,
                AllOk-ok (λ f. IsSentAs answer (values_of f authorization_header)) _
                    (authorized-IsSentAs headers answer h.1) b,
              ),
            )

  notified_sent :
      (environment : FetchEnvironment) (d : Dispatch) (r : Result (Unit {0})) (dispatch : Dispatch)
      → IsAuthorized environment d
      → (notified_dispatch base_origin resolve is_abort_error environment d r).0.dispatch
        ≡ some dispatch
      → IsAuthorized environment dispatch
  unfolding notified_dispatch
  notified_sent environment d (err e) dispatch h k = cc
  notified_sent environment d (ok x) dispatch h k =
      let same : d ≡ dispatch = cc in subst (IsAuthorized environment) same h

  sent :
      (environment : FetchEnvironment) (r : Result Dispatch) (dispatch : Dispatch)
      → AllOk (IsAuthorized environment) r
      → (fetch_dispatch base_origin resolve is_abort_error environment r).0.dispatch ≡ some dispatch
      → IsAuthorized environment dispatch
  unfolding fetch_dispatch
  sent environment (err e) dispatch h k = cc
  sent environment (ok d) dispatch h k =
      notified_sent environment d environment.on_dispatch dispatch h k

  sent_checked :
      (environment : FetchEnvironment) (r : Result (Target × Values)) (dispatch : Dispatch)
      → AllOk IsUnauthorized r
      → (send_checked base_origin resolve is_abort_error environment r).0.dispatch ≡ some dispatch
      → IsAuthorized environment dispatch
  unfolding send_checked
  sent_checked environment (err e) dispatch h k = cc
  sent_checked environment (ok (target, headers)) dispatch h k =
      sent environment _ dispatch (prepare-IsAuthorized environment target headers h) k

  -- What is handed to `fetch` goes to the base URL's origin, after both looks at the signal found it
  -- not aborted, and carries as its only `Authorization` the provider's answer, without the white space
  -- at its ends, or none where the provider gave none. The answer is neither empty nor has control
  -- characters, and what is carried has only units that a header can have.
  pub request-IsAuthorized :
      (path : Text) (failure : SdkError) (headers : Values) (tag : Option Text)
      (environment : FetchEnvironment) (dispatch : Dispatch)
      → (request base_origin resolve is_abort_error path failure headers tag environment).0.dispatch
        ≡ some dispatch
      → IsAuthorized environment dispatch
  unfolding request
  request-IsAuthorized path failure headers tag environment dispatch h =
      sent_checked environment _ dispatch (checked-IsUnauthorized path failure headers tag) h

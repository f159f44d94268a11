-- ===== src/Http/ResponseMetadata/Laws.antt =====
-- What the metadata of a response are, where they are read.
use teslatlas_sdk_typescript.Prelude.{
  ◌≡◌, refl, sym, ap, subst, true, false, Option, none, some, String,
}
use teslatlas_sdk_typescript.Js.Text.{Text}
use teslatlas_sdk_typescript.Core.Errors.{
  Result, ok, err, AllOk, AllOk-bind, AllOk-guard, AllOk-if, AllOk-ok, dotted,
  is_protocol_validation, as_safe_request_id,
}
use teslatlas_sdk_typescript.Core.OpaqueValues.{as_entity_tag}
use teslatlas_sdk_typescript.Http.Response.{Response}
use teslatlas_sdk_typescript.Http.ResponseMetadata.{
  ResponseMetadata, Requirements, LocationUrl, read_response_metadata, metadata_of, traverse_header,
  as_safe_location, is_unsafe_location, or_validation, is_missing_tag, is_unaccepted,
  is_missing_location, is_malformed_version,
}

pub IsPresent : Option Text → Type 0
IsPresent none = ⊥
IsPresent (some value) = Unit

located-IsPresent :
    (header location : Option Text) (needed : Requirements)
    → location ≡ header
    → is_missing_location header needed ≡ false
    → needed.location ≡ true
    → IsPresent location
unfolding is_missing_location IsPresent
located-IsPresent (some value) location needed e h k = subst IsPresent (sym e) tt
located-IsPresent none location needed e h k = cc

-- The metadata are the response's, and meet the requirements.
pub record IsMetadata (response : Response) (needed : Requirements) (metadata : ResponseMetadata)
    : Type 0 where
  pub same_status : metadata.status ≡ response.status
  pub same_tag : metadata.etag ≡ response.headers.etag
  pub same_version : metadata.protocol_version ≡ response.headers.protocol_version
  pub same_location : metadata.location ≡ response.headers.location
  pub has_tag : is_missing_tag metadata.etag needed ≡ false
  pub has_location : needed.location ≡ true → IsPresent metadata.location
  pub is_accepted : is_unaccepted needed.accepted_versions metadata.protocol_version ≡ false

-- A check of a header that returns, returns the header.
traverse_header-same :
    (check : Text → Result Text)
    → ((value : Text) → AllOk (λ checked. checked ≡ value) (check value))
    → (header : Option Text) → AllOk (λ checked. checked ≡ header) (traverse_header check header)
unfolding traverse_header
traverse_header-same check h none = refl
traverse_header-same check h (some value) =
    AllOk-bind (λ checked. checked ≡ some value) (check value) _
      λ checked e. ap some (AllOk-ok (λ c. c ≡ value) (check value) (h value) e)

as_entity_tag-same : (value : Text) → AllOk (λ checked. checked ≡ value) (as_entity_tag value)
unfolding as_entity_tag
as_entity_tag-same value =
    AllOk-if (λ checked. checked ≡ value) _ (err _) (ok value) (λ _. tt) (λ _. refl)

or_validation-AllOk :
    {A : Type 0} (P : A → Type 0) (r : Result A) (name : String)
    → AllOk P r
    → AllOk P (or_validation r name)
or_validation-AllOk P (ok a) name h = h
or_validation-AllOk P (err e) name h =
    AllOk-if P (is_protocol_validation e) (err e) (err _) (λ _. tt) (λ _. tt)

module _ (resolve_location : Text → Option LocationUrl) where
  as_safe_location-same :
      (value : Text) → AllOk (λ checked. checked ≡ value) (as_safe_location resolve_location value)
  unfolding as_safe_location
  as_safe_location-same value =
      AllOk-if (λ checked. checked ≡ value) (is_unsafe_location resolve_location value) (err _)
        (ok value) (λ _. tt) (λ _. refl)

  metadata_of-IsMetadata :
      (response : Response) (name : String) (needed : Requirements)
      → AllOk (IsMetadata response needed) (metadata_of resolve_location response name needed)
  unfolding metadata_of
  metadata_of-IsMetadata response name needed =
      let P = IsMetadata response needed in
      AllOk-guard P (is_missing_tag response.headers.etag needed) _ _ λ tagged.
        AllOk-bind P (traverse_header as_entity_tag response.headers.etag) _ λ etag a.
          AllOk-bind P (traverse_header as_safe_request_id response.headers.request_id) _
            λ request_id _.
              AllOk-guard P (is_malformed_version response.headers.protocol_version) _ _ λ _.
                AllOk-guard P
                  (is_unaccepted needed.accepted_versions response.headers.protocol_version) _ _
                  λ accepted.
                    AllOk-guard P (is_missing_location response.headers.location needed) _ _
                      λ located.
                        AllOk-bind P
                          (traverse_header (as_safe_location resolve_location)
                            response.headers.location)
                          _
                          λ location b.
                            let same =
                              AllOk-ok (λ c. c ≡ response.headers.etag) _
                                (traverse_header-same as_entity_tag as_entity_tag-same
                                  response.headers.etag)
                                a in
                            let place =
                              AllOk-ok (λ c. c ≡ response.headers.location) _
                                (traverse_header-same (as_safe_location resolve_location)
                                  as_safe_location-same response.headers.location)
                                b in
                            record {
                              same_status = refl;
                              same_tag = same;
                              same_version = refl;
                              same_location = place;
                              has_location =
                                  located-IsPresent response.headers.location location needed place
                                    located;
                              has_tag =
                                  subst (λ t. is_missing_tag t needed ≡ false) (sym same) tagged;
                              is_accepted = accepted;
                            }

  pub read_response_metadata-IsMetadata :
      (response : Response) (name : String) (needed : Requirements)
      → AllOk
          (IsMetadata response needed)
          (read_response_metadata resolve_location response name needed)
  unfolding read_response_metadata
  read_response_metadata-IsMetadata response name needed =
      or_validation-AllOk (IsMetadata response needed)
        (metadata_of resolve_location response name needed) (dotted name ".metadata")
        (metadata_of-IsMetadata response name needed)

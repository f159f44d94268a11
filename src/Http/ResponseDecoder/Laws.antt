-- ===== src/Http/ResponseDecoder/Laws.antt =====
-- What a read that returns has checked.
use teslatlas_sdk_typescript.Prelude.{
  ℕ, ◌≡◌, ◌≤◌, refl, sym, ◌∙◌, ap, subst, inl, inr, Bool, true, false, none, some, [], length, not,
  Option, String, ◌==◌, all, arith, ==_iff,
}
use teslatlas_sdk_typescript.Js.Text.{Text, codes}
use teslatlas_sdk_typescript.Js.Json.{Json, is_finite}
use teslatlas_sdk_typescript.Core.Errors.{
  Result, ok, err, aborted, is_protocol_validation, Result-cases, AllOk, AllOk-bind, AllOk-guard,
  AllOk-if, AllOk-map, AllOk-ok, dotted,
}
use teslatlas_sdk_typescript.Http.BoundedBody.{
  Bytes, Stream, read_bounded, require_empty_response_body,
}
use teslatlas_sdk_typescript.Http.BoundedBody.Refines.{contents, read_bounded_sound}
use teslatlas_sdk_typescript.Http.JsonWalk.{assert_finite_numbers, decode_protocol_value}
use teslatlas_sdk_typescript.Http.Response.{Response, Aborts, require_media_type}
use teslatlas_sdk_typescript.Http.ResponseMetadata.{
  ResponseMetadata, Requirements, LocationUrl, read_response_metadata,
}
use teslatlas_sdk_typescript.Http.ResponseMetadata.Laws.{
  IsMetadata, read_response_metadata-IsMetadata,
}
use teslatlas_sdk_typescript.Http.JsonWalk.Enough.{json_numbers, assert_finite_numbers-eq-all}
use teslatlas_sdk_typescript.Http.ResponseDecoder.{
  ReadResult, modified, not_modified, decode_read_response, decode_modified, decode_not_modified,
  decode_json_success, is_same_tag, with_entity_tag, read_json, read_bounded_json, parsed, or_abort,
  max_json_response_bytes, decode_write_response,
}

-- The bytes of a body: none where there is no body.
pub body_bytes : Option Stream → Bytes
body_bytes none = []
body_bytes (some stream) = contents stream

-- The value is the parse of all the bytes of the body, in order, which are within the maximum.
pub IsBody : (Bytes → Option Json) → Response → Json → Type 0
IsBody parse_json response value =
    (parse_json (body_bytes response.body) ≡ some value)
    × (length (body_bytes response.body) ≤ max_json_response_bytes)

-- A value is given for a 200 alone: it is the body's and passed the validator and its numbers are finite. No value is
-- given for a 304 alone, whose tag is, weak or strong, the one that the caller asked with.
pub IsRead :
    (Bytes → Option Json)
    → Response
    → (Json → Bool)
    → Requirements
    → Option Text
    → ReadResult
    → Type 0
IsRead parse_json response validator needed if_none_match (modified value metadata) =
    (response.status ≡ 200)
    × IsBody parse_json response value
    × (validator value ≡ true)
    × (all is_finite (json_numbers value) ≡ true)
    × IsMetadata response (with_entity_tag needed) metadata
IsRead parse_json response validator needed if_none_match (not_modified metadata) =
    (response.status ≡ 304)
    × (is_same_tag if_none_match metadata.etag ≡ true)
    × IsMetadata response (with_entity_tag needed) metadata

abbrev IsValid : (Json → Bool) → Json → Type 0
IsValid validator value = (validator value ≡ true) × (all is_finite (json_numbers value) ≡ true)

decode_value-same :
    (value : Json) (validator : Json → Bool) (name : String)
    → AllOk (λ decoded. decoded ≡ value) (decode_protocol_value value validator name)
unfolding decode_protocol_value
decode_value-same value validator name =
    let P : Json → Type 0 = λ decoded. decoded ≡ value in
    AllOk-bind P (assert_finite_numbers value name) _
      λ x _. AllOk-guard P (not (validator value)) _ (ok value) λ _. refl

or_abort-AllOk :
    (P : Json → Type 0) (late : Bool) (name : String) (r : Result Json)
    → AllOk P r
    → AllOk P (or_abort late name r)
unfolding or_abort
or_abort-AllOk P late name (ok value) h = h
or_abort-AllOk P true name (err e) h = tt
or_abort-AllOk P false name (err e) h =
    AllOk-if P (is_protocol_validation e) (err e) (err _) (λ _. tt) (λ _. tt)

pub read_bounded-all :
    (name : String) (maximum : ℕ) (abort_first : Bool) (body : Option Stream)
    → AllOk
        (λ bytes. (bytes ≡ body_bytes body) × (length bytes ≤ maximum))
        (read_bounded name maximum abort_first body)
unfolding read_bounded body_bytes
read_bounded-all name maximum abort_first none =
    AllOk-guard (λ bytes. (bytes ≡ []) × (length bytes ≤ maximum)) abort_first aborted (ok [])
      (λ _. (refl, omega arith))
read_bounded-all name maximum abort_first (some stream) =
    read_bounded_sound name maximum abort_first stream

module _ (parse_json : Bytes → Option Json) (response : Response) where
  parsed-IsBody :
      (bytes : Bytes) (name : String) (found : Option Json)
      → parse_json bytes ≡ found
      → bytes ≡ body_bytes response.body
      → length bytes ≤ max_json_response_bytes
      → AllOk (IsBody parse_json response) (parsed parse_json found name)
  unfolding parsed IsBody
  parsed-IsBody bytes name none e same h = tt
  parsed-IsBody bytes name (some value) e same h =
      elim (Result-cases (assert_finite_numbers value name)) [
        | inl (x, k) ↦
            rw (k, AllOk)
              (ap parse_json (sym same) ∙ e, subst (λ b. length b ≤ max_json_response_bytes) same h)
        | inr (d, k) ↦ rw (k, AllOk) tt
      ]

  read_json-IsBody :
      (aborts : Aborts) (name : String)
      → AllOk (IsBody parse_json response) (read_json parse_json response aborts name)
  unfolding read_json read_bounded_json
  read_json-IsBody aborts name =
      or_abort-AllOk (IsBody parse_json response) aborts.after_failure name _ (
        AllOk-bind (IsBody parse_json response)
          (read_bounded name max_json_response_bytes aborts.at_body response.body) _
          λ bytes e.
            let all_bytes =
              AllOk-ok (λ b. (b ≡ body_bytes response.body) × (length b ≤ max_json_response_bytes))
                _ (read_bounded-all name max_json_response_bytes aborts.at_body response.body) e in
            parsed-IsBody bytes name (parse_json bytes) refl all_bytes.0 all_bytes.1)

decode_value-IsValid :
    (value : Json) (validator : Json → Bool) (name : String)
    → AllOk (IsValid validator) (decode_protocol_value value validator name)
unfolding decode_protocol_value
decode_value-IsValid value validator name = rw (assert_finite_numbers-eq-all value name) (
    AllOk-guard (IsValid validator) (not (all is_finite (json_numbers value))) _ _ λ finite.
      AllOk-guard (IsValid validator) (not (validator value)) _ _
        λ valid. (ground (arith, valid), ground (arith, finite)))

module _ (parse_json : Bytes → Option Json) (resolve_location : Text → Option LocationUrl)
    (validate_problem : Json → Bool) (response : Response) (validator : Json → Bool) (name : String)
    (aborts : Aborts) (needed : Requirements) where
  abbrev IsSuccess : Requirements → Json × ResponseMetadata → Type 0
  IsSuccess wanted result =
      IsBody parse_json response result.0
      × IsValid validator result.0
      × IsMetadata response wanted result.1

  decode_json_success-IsSuccess :
      (wanted : Requirements)
      → AllOk (IsSuccess wanted) (
          decode_json_success parse_json resolve_location validate_problem response validator name
            aborts wanted)
  unfolding decode_json_success
  decode_json_success-IsSuccess wanted =
      let P = IsSuccess wanted in
      AllOk-guard P aborts.at_start aborted _ λ _.
        AllOk-bind P (require_media_type response (codes "application/json") name) _ λ _ _.
          AllOk-bind P (read_response_metadata resolve_location response name wanted) _
            λ metadata a. AllOk-bind P (read_json parse_json response aborts name) _ λ body c.
              AllOk-bind P (decode_protocol_value body validator name) _ λ value b.
                AllOk-guard P aborts.at_end aborted _ λ _. (
                  subst (IsBody parse_json response)
                      (sym (AllOk-ok (λ v. v ≡ body) _ (decode_value-same body validator name) b))
                      (AllOk-ok (IsBody parse_json response) _
                        (read_json-IsBody parse_json response aborts name) c),
                  AllOk-ok (IsValid validator) _ (decode_value-IsValid body validator name) b,
                  AllOk-ok (IsMetadata response wanted) _
                      (read_response_metadata-IsMetadata resolve_location response name wanted) a,
                )

  -- A read that returns has checked what it returns: the status, the validator, the numbers, the
  -- required metadata, and for "not modified" that the tag is the one asked with. A value is the parse
  -- of all the bytes of the body, which are within the maximum.
  pub decode_read_response-IsRead :
      (if_none_match : Option Text)
      → AllOk (IsRead parse_json response validator needed if_none_match) (
          decode_read_response parse_json resolve_location validate_problem response validator name
            aborts needed if_none_match)
  unfolding decode_read_response decode_not_modified decode_modified IsRead
  decode_read_response-IsRead if_none_match =
      let P = IsRead parse_json response validator needed if_none_match in
      let wanted = with_entity_tag needed in
      AllOk-if P (response.status == 304) _ _
        (λ e.
          AllOk-bind P
            (require_empty_response_body (dotted name ".304") aborts.at_body response.body) _
            λ _ _.
              AllOk-bind P (read_response_metadata resolve_location response name wanted) _
                λ metadata a.
                  AllOk-guard P (not (is_same_tag if_none_match metadata.etag)) _ _ λ same.
                    AllOk-guard P aborts.at_end aborted _ λ _. (
                      (==_iff response.status 304).0 e,
                      ground (arith, same),
                      AllOk-ok (IsMetadata response wanted) _
                          (read_response_metadata-IsMetadata resolve_location response name wanted)
                          a,
                    ))
        (λ _.
          AllOk-if P (response.status == 200) _ _
            (λ e.
              AllOk-bind P
                (decode_json_success parse_json resolve_location validate_problem response validator
                  name aborts wanted)
                _
                λ result a.
                  let good =
                    AllOk-ok (IsSuccess wanted) _ (decode_json_success-IsSuccess wanted) a in
                  ((==_iff response.status 200).0 e, good.0, good.1.0, good.1.1, good.2))
            (λ _. tt))

-- A write that returns had the status of success; its value is the body's and passed the validator, with finite
-- numbers, and its metadata is what was required.
unfoldable pub IsWritten :
    (Bytes → Option Json)
    → Response
    → (Json → Bool)
    → Requirements
    → ℕ
    → Json × ResponseMetadata
    → Type 0
IsWritten parse_json response validator needed success_status (value, metadata) =
    (response.status ≡ success_status)
    × IsBody parse_json response value
    × (validator value ≡ true)
    × (all is_finite (json_numbers value) ≡ true)
    × IsMetadata response needed metadata

pub decode_write_response-IsWritten :
    (parse_json : Bytes → Option Json) (resolve_location : Text → Option LocationUrl)
    (validate_problem : Json → Bool) (response : Response) (validator : Json → Bool) (name : String)
    (aborts : Aborts) (needed : Requirements) (success_status : ℕ)
    → AllOk (IsWritten parse_json response validator needed success_status) (
        decode_write_response parse_json resolve_location validate_problem response validator name
          aborts needed success_status)
unfolding decode_write_response IsWritten
decode_write_response-IsWritten parse_json resolve_location validate_problem response validator name
      aborts needed success_status =
    let P = IsWritten parse_json response validator needed success_status in
    AllOk-if P (response.status == success_status) _ _
      (λ e.
        AllOk-map
          (IsSuccess parse_json resolve_location validate_problem response validator name aborts
            needed needed)
          P _
          (λ result good.
            ((==_iff response.status success_status).0 e, good.0, good.1.0, good.1.1, good.2))
          (decode_json_success-IsSuccess parse_json resolve_location validate_problem response
            validator name aborts needed needed))
      (λ _. tt)

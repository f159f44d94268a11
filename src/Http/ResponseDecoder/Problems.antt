-- ===== src/Http/ResponseDecoder/Problems.antt =====
-- The error that a response other than the expected one becomes.
use teslatlas_sdk_typescript.Prelude.{
  ℕ, ==_iff, ℤ, pos, ◌≡◌, ◌≤◌, refl, Bool, true, false, ◌&&◌, ◌||◌, not, Option, none, some, String,
  leb, all, arith, inl, inr, Bool-cases, Option-cases,
}
use teslatlas_sdk_typescript.Js.Text.{Text, codes, decimal_from}
use teslatlas_sdk_typescript.Js.Json.{Json, boolean, number, string, integer, field, is_finite}
use teslatlas_sdk_typescript.Core.Errors.{
  SdkError, Result, ok, err, throw_if, protocol_validation, protocol_http, aborted, HttpProblem,
  contains_control_characters, is_protocol_validation, as_protocol_error_code, as_safe_request_id,
  AllErr, AllErr-bind, AllErr-guard, AllErr-throw_if, Fails, Fails-bind, AllOk, AllOk-if, AllOk-map,
  AllOk-ok, is_empty, Result-cases,
}
use teslatlas_sdk_typescript.Core.Version.{is_numeral}
use teslatlas_sdk_typescript.Http.BoundedBody.{Bytes}
use teslatlas_sdk_typescript.Http.JsonWalk.{assert_finite_numbers, decode_protocol_value}
use teslatlas_sdk_typescript.Http.JsonWalk.Enough.{json_numbers, assert_finite_numbers-eq-all}
use teslatlas_sdk_typescript.Http.Response.{Response, Aborts, require_media_type}
use teslatlas_sdk_typescript.Http.ResponseDecoder.{
  read_retry_after_seconds, retry_after_header, text_field, bool_field, seconds_field, is_status,
  status_number, problem_error, thrown, or_abort, read_json, decode_problem,
  decode_protocol_problem_response, max_retry_after_seconds, safe_fields_error,
}

-- Where the header is read, the delay is its value and at most a day.
pub IsDelay : Response → Bool → Option ℤ → Type 0
IsDelay response false seconds = seconds ≡ none
IsDelay response true seconds =
    (header : Text)
    → response.headers.retry_after ≡ some header
    → (seconds ≡ some (pos (decimal_from 0 header)))
      × (decimal_from 0 header ≤ max_retry_after_seconds)

-- An error that carries a problem has the response's status, a code with no control character and a
-- delay as above; any other is an abort or a validation error.
pub IsResponseError : Response → SdkError → Type 0
IsResponseError response (protocol_http problem) =
    (problem.status ≡ response.status)
    × (contains_control_characters problem.code ≡ false)
    × IsDelay response problem.retryable problem.retry_after_seconds
IsResponseError response aborted = Unit
IsResponseError response e = is_protocol_validation e ≡ true

IsDelayOf : Text → Option ℤ → Type 0
IsDelayOf header seconds =
    (seconds ≡ some (pos (decimal_from 0 header)))
    × (decimal_from 0 header ≤ max_retry_after_seconds)

header-IsDelayOf : (header : Text) → AllOk (IsDelayOf header) (retry_after_header header)
unfolding retry_after_header IsDelayOf
header-IsDelayOf header =
    AllOk-if (IsDelayOf header)
      (is_numeral header && leb (decimal_from 0 header) max_retry_after_seconds) _ _
      (λ e. (refl, ground (arith, e))) (λ e. tt)

module _ (response : Response) where
  read_retry_after_seconds-IsDelay :
      (retryable : Bool) (fallback : Option ℤ)
      → AllOk (IsDelay response retryable) (read_retry_after_seconds response retryable fallback)
  unfolding read_retry_after_seconds IsDelay IsDelayOf
  read_retry_after_seconds-IsDelay false fallback = refl
  read_retry_after_seconds-IsDelay true fallback =
      elim (Option-cases response.headers.retry_after) [
        | inl e ↦ rw e (λ header h. cc)
        | inr (found, e) ↦
            AllOk-map (IsDelayOf found) (IsDelay response true) _
              (λ s k header h. let same : found ≡ header = cc in rw same at k)
              (rw e (header-IsDelayOf found))
      ]

  validation : (name : String) → IsResponseError response (protocol_validation name)
  unfolding IsResponseError is_protocol_validation
  validation name = refl

  validated-IsResponseError :
      (e : SdkError) → is_protocol_validation e ≡ true → IsResponseError response e
  unfolding IsResponseError is_protocol_validation
  validated-IsResponseError (protocol_http problem) h = cc
  validated-IsResponseError aborted h = tt
  validated-IsResponseError e h = h

  or_abort-IsResponseError :
      (late : Bool) (name : String) (r : Result Json)
      → AllErr (IsResponseError response) (or_abort late name r)
  unfolding or_abort IsResponseError
  or_abort-IsResponseError late name (ok value) = tt
  or_abort-IsResponseError true name (err e) = tt
  or_abort-IsResponseError false name (err e) = elim (Bool-cases (is_protocol_validation e)) [
    | inl h ↦ rw h (validated-IsResponseError e h)
    | inr h ↦ rw h (validation name)
  ]

  decode_value-IsResponseError :
      (value : Json) (validator : Json → Bool) (name : String)
      → AllErr (IsResponseError response) (decode_protocol_value value validator name)
  unfolding decode_protocol_value
  decode_value-IsResponseError value validator name =
      AllErr-bind (IsResponseError response) (assert_finite_numbers value name) _
        (rw (assert_finite_numbers-eq-all value name) (
          AllErr-throw_if (IsResponseError response) (not (all is_finite (json_numbers value))) _
            (validation _)))
        (λ x _.
          AllErr-guard (IsResponseError response) (not (validator value)) _ (ok value)
            (validation name) (λ _. tt))

  text_field-IsResponseError : (o : Option Json) → AllErr (IsResponseError response) (text_field o)
  unfolding text_field safe_fields_error
  text_field-IsResponseError (some (string s)) = tt
  text_field-IsResponseError o = validation "validateProblem.safeFields"

  bool_field-IsResponseError : (o : Option Json) → AllErr (IsResponseError response) (bool_field o)
  unfolding bool_field safe_fields_error
  bool_field-IsResponseError (some (boolean b)) = tt
  bool_field-IsResponseError o = validation "validateProblem.safeFields"

  seconds_field-IsResponseError :
      (o : Option Json) → AllErr (IsResponseError response) (seconds_field o)
  unfolding seconds_field safe_fields_error
  seconds_field-IsResponseError none = tt
  seconds_field-IsResponseError (some (number (integer n))) = tt
  seconds_field-IsResponseError o = validation "validateProblem.safeFields"

  code-clean :
      (code : Text)
      → AllOk (λ safe. contains_control_characters safe ≡ false) (as_protocol_error_code code)
  unfolding as_protocol_error_code
  code-clean code =
      AllOk-if (λ safe. contains_control_characters safe ≡ false)
        (is_empty code || contains_control_characters code) _ _ (λ e. tt) (λ e. ground arith)

  status_number-same :
      (found : Option Json)
      → is_status found response.status ≡ true
      → status_number found ≡ response.status
  unfolding is_status status_number
  status_number-same (some (number (integer (pos n)))) h = (==_iff n response.status).0 h
  status_number-same _ h = cc

  thrown-IsResponseError :
      (status : ℕ) (code request_id : Text) (retryable : Bool) (seconds : Option ℤ)
      → status ≡ response.status
      → IsResponseError response
          (thrown (problem_error response status code request_id retryable seconds))
  unfolding IsResponseError thrown problem_error safe_fields_error
  thrown-IsResponseError status code request_id retryable seconds same =
      elim (Result-cases (read_retry_after_seconds response retryable seconds)) [
        | inr (e, h) ↦ rw h (validation _)
        | inl (delay, h) ↦ rw h (elim (Result-cases (as_protocol_error_code code)) [
          | inr (e, k) ↦ rw k (validation _)
          | inl (safe, k) ↦ rw k (elim (Result-cases (as_safe_request_id request_id)) [
            | inr (e, l) ↦ rw l (validation _)
            | inl (id, l) ↦ rw l (
              same,
              AllOk-ok _ _ (code-clean code) k,
              AllOk-ok _ _ (read_retry_after_seconds-IsDelay retryable seconds) h,
            )
          ])
        ])
      ]

passed : (b : Bool) (e : SdkError) {x : Unit {0}} → throw_if (not b) e ≡ ok x → b ≡ true
passed true e h = refl
passed false e h = cc

module _ (parse_json : Bytes → Option Json) (validate_problem : Json → Bool) (response : Response)
    (aborts : Aborts) where
  decode_problem-Fails :
      Fails (IsResponseError response) (decode_problem parse_json validate_problem response aborts)
  unfolding decode_problem require_media_type read_json
  decode_problem-Fails =
      let P = IsResponseError response in
      Fails-bind P
        (require_media_type response (codes "application/problem+json") "validateProblem") _
        (AllErr-throw_if P _ _ (validation response _))
        λ _ _.
          Fails-bind P (read_json parse_json response aborts "validateProblem") _
            (or_abort-IsResponseError response _ _ _)
            λ body _.
              Fails-bind P (decode_protocol_value body validate_problem "validateProblem") _
                (decode_value-IsResponseError response body validate_problem _)
                λ problem _.
                  Fails-bind P
                    (throw_if (not (is_status (field problem (codes "status")) response.status))
                      (protocol_validation "validateProblem.status"))
                    _ (AllErr-throw_if P _ _ (validation response _))
                    λ _ agreed.
                      Fails-bind P (text_field (field problem (codes "code"))) _
                        (text_field-IsResponseError response (field problem (codes "code")))
                        λ code _.
                          Fails-bind P (text_field (field problem (codes "request_id"))) _
                            (text_field-IsResponseError response
                              (field problem (codes "request_id")))
                            λ request_id _.
                              Fails-bind P (bool_field (field problem (codes "retryable"))) _
                                (bool_field-IsResponseError response
                                  (field problem (codes "retryable")))
                                λ retryable _.
                                  Fails-bind P
                                    (seconds_field (field problem (codes "retry_after_seconds"))) _
                                    (seconds_field-IsResponseError response
                                      (field problem (codes "retry_after_seconds")))
                                    λ seconds _.
                                      thrown-IsResponseError response
                                        (status_number (field problem (codes "status"))) code
                                        request_id retryable seconds
                                        (status_number-same response
                                          (field problem (codes "status")) (passed _ _ agreed))

unwrapped :
    (P : SdkError → Type 0) (r : Result HttpProblem)
    → Fails P r
    → P (elim r [ ok problem ↦ protocol_http problem | err e ↦ e ])
unwrapped P (ok problem) h = elim h [ ]
unwrapped P (err e) h = h

-- Whatever the response is, its decoding as a problem ends with an abort, a validation error or an
-- error with the response's own status, a code free of control characters, no delay unless it can be
-- retried, and the delay of the header, of at most a day, where there is one.
pub decode_protocol_problem_response-IsResponseError :
    (parse_json : Bytes → Option Json) (validate_problem : Json → Bool) (response : Response)
    (aborts : Aborts)
    → IsResponseError response
        (decode_protocol_problem_response parse_json validate_problem response aborts)
unfolding decode_protocol_problem_response
decode_protocol_problem_response-IsResponseError parse_json validate_problem response aborts =
    unwrapped (IsResponseError response)
      (decode_problem parse_json validate_problem response aborts)
      (decode_problem-Fails parse_json validate_problem response aborts)

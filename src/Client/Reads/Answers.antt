-- ===== src/Client/Reads/Answers.antt =====
-- A read that returns has checked the response and whose it is.
use teslatlas_sdk_typescript.Prelude.{◌≡◌, refl, false}
use teslatlas_sdk_typescript.Core.Errors.{
  Result, ok, err, aborted, AllOk, AllOk-bind, AllOk-guard, AllOk-ok, AllOk-map,
}
use teslatlas_sdk_typescript.Http.Response.{Response}
use teslatlas_sdk_typescript.Http.ResponseDecoder.{ReadResult, modified, not_modified}
use teslatlas_sdk_typescript.Http.ResponseDecoder.Laws.{IsRead, decode_read_response-IsRead}
use teslatlas_sdk_typescript.Http.RequestBuilder.{BuiltRequest}
use teslatlas_sdk_typescript.Client.Session.{ClientSession, transport_request}
use teslatlas_sdk_typescript.Client.Identity.{singleton_key}
use teslatlas_sdk_typescript.Client.Identity.Checked.{
  IsIdentified, validate_read_identity-IsIdentified,
}
use teslatlas_sdk_typescript.Client.ReadCalls.{ReadCall}
use teslatlas_sdk_typescript.Client.Reads.{
  Decoding, CallEnvironment, requirements_of, transport_of, read_validator, validator_name,
  check_identity, read_answer, built_read, read_sent, read_built, read,
}

-- What is returned belongs to what was asked for.
unfoldable pub IsOwn : ReadCall → ReadResult → Type 0
IsOwn call (not_modified metadata) = Unit
IsOwn call (modified value metadata) =
    IsIdentified call.path_values call.query value call.operation (singleton_key call.operation)

check_identity-IsOwn :
    (decoding : Decoding) (call : ReadCall) (result : ReadResult)
    → AllOk (λ done. IsOwn call result) (check_identity decoding call result)
unfolding check_identity IsOwn
check_identity-IsOwn decoding call (not_modified metadata) = tt
check_identity-IsOwn decoding call (modified value metadata) =
    validate_read_identity-IsIdentified call.operation value call.path_values call.query
      (validator_name call.operation)

module _ (decoding : Decoding) (session : ClientSession) (environment : CallEnvironment) where
  -- The answer to a call that was decoded from a response, with nothing aborted at the end.
  pub record IsAnswerTo (call : ReadCall) (response : Response) (result : ReadResult) : Type 0 where
    pub checked :
        IsRead decoding.parse_json response
          (read_validator decoding call.operation)
          (requirements_of session call)
          call.if_none_match
          result
    pub own : IsOwn call result
    pub not_aborted : environment.aborted_last ≡ false

  pub read_answer-IsAnswerTo :
      (call : ReadCall) (response : Response)
      → AllOk (IsAnswerTo call response) (read_answer decoding session environment call response)
  unfolding read_answer
  read_answer-IsAnswerTo call response =
      let P = IsAnswerTo call response in
      let good =
        decode_read_response-IsRead decoding.parse_json decoding.resolve_location
          decoding.validate_problem response (read_validator decoding call.operation)
          (validator_name call.operation) environment.aborts (requirements_of session call)
          call.if_none_match in
      AllOk-bind P _ _ λ result e. AllOk-bind P (check_identity decoding call result) _ λ done i.
        AllOk-guard P environment.aborted_last aborted (ok result) λ last. record {
          checked = AllOk-ok (IsRead decoding.parse_json response _ _ call.if_none_match) _ good e;
          own = AllOk-ok (λ d. IsOwn call result) _ (check_identity-IsOwn decoding call result) i;
          not_aborted = last;
        }

  -- What a method returns: the answer to the call that it made of its arguments, decoded from the
  -- response that the operation's transport gave to the request built of it.
  pub record IsReturned (arguments : Result ReadCall) (result : ReadResult) : Type 0 where
    pub call : ReadCall
    pub made : arguments ≡ ok call
    pub built : BuiltRequest
    pub was_built : built_read decoding session call ≡ ok built
    pub response : Response
    pub came :
        (transport_request (transport_of session call.operation) environment.fetching built).1
        ≡ ok response
    pub answer : IsAnswerTo call response result

  read_built-IsReturned :
      (arguments : Result ReadCall) (call : ReadCall) (request : Result BuiltRequest)
      → arguments ≡ ok call
      → built_read decoding session call ≡ request
      → AllOk (IsReturned arguments) (read_built decoding session environment call request).1
  unfolding read_built read_sent
  read_built-IsReturned arguments call (err e) made same = tt
  read_built-IsReturned arguments call (ok built) made same =
      let P = IsReturned arguments in
      let sent =
        transport_request (transport_of session call.operation) environment.fetching built in
      AllOk-bind P sent.1 _ λ response came.
        AllOk-map (IsAnswerTo call response) P
          (read_answer decoding session environment call response)
          (λ result answer. record {
            call = call;
            made = made;
            built = built;
            was_built = same;
            response = response;
            came = came;
            answer = answer;
          })
          (read_answer-IsAnswerTo call response)

  pub read-IsReturned :
      (arguments : Result ReadCall)
      → AllOk (IsReturned arguments) (read decoding session environment arguments).1
  unfolding read
  read-IsReturned (err e) = tt
  read-IsReturned (ok call) = read_built-IsReturned (ok call) call _ refl refl

-- ===== src/Http/FetchTransport.antt =====
-- `FetchTransport.request` of src/http/fetch-transport.ts, and `applyIfNoneMatch` of
-- src/http/conditional.ts. Parameters: the origin of the base URL, a path resolved at it (`new URL`),
-- and whether a platform error is an `AbortError`. What the provider, the signal and `fetch` do is a
-- value; what is given to `fetch` is part of the result.
pub mod Sent
use teslatlas_sdk_typescript.Prelude.{
  Bool, true, false, ◌||◌, ◌&&◌, not, Option, none, some, String, List, [], ◌∷◌, ◌++◌,
  if◌then◌else◌, map,
}
use teslatlas_sdk_typescript.Js.Text.{Text, codes, text_eq, starts_with}
use teslatlas_sdk_typescript.Core.Errors.{
  SdkError, Result, ok, err, ◌>>=◌, ◌>>◌, throw_if, aborted, transport_error, invalid_request_path,
  reserved_authorization_header, invalid_authorization_value, is_teslatlas,
  contains_control_characters, is_empty,
}
use teslatlas_sdk_typescript.Http.HeaderValue.{checked_value}
use teslatlas_sdk_typescript.Http.RequestBuilder.{Values}
use teslatlas_sdk_typescript.Http.Response.{Response}
use teslatlas_sdk_typescript.Js.Trim.{lower}

pub record Target : Type 0 where
  pub origin : Text
  pub href : Text

-- What is handed to `fetch`.
pub record Dispatch : Type 0 where
  pub target : Target
  pub headers : Values

-- What became of a request: whether `onDispatch` was called, and what was handed to `fetch`.
pub record Dispatched : Type 0 where
  pub notified : Bool
  pub dispatch : Option Dispatch

abbrev pub unsent : Dispatched
unsent = record { notified = false; dispatch = none }

pub record FetchEnvironment : Type 0 where
  pub aborted_first : Bool
  -- The provider, where there is one, and the race with the signal.
  pub authorization : Result (Option Text)
  pub aborted_authorized : Bool
  pub on_dispatch : Result (Unit {0})
  pub fetched : Result Response
  pub aborted_failure : Bool

pub same_name : Text → Text → Bool
same_name s t = text_eq (map lower s) (map lower t)

-- `headers.has(name)`
unfoldable pub has_header : Values → Text → Bool
unfolding same_name
has_header [] name = false
has_header ((key, value) ∷ rest) name = same_name key name || has_header rest name

remove_header : Values → Text → Values
remove_header [] name = []
remove_header ((key, value) ∷ rest) name =
    let others = remove_header rest name in
    if same_name key name then others else (key, value) ∷ others

-- `new Headers(headers)` of a record
unfoldable pub new_headers : Values → Result Values
unfolding checked_value
new_headers [] = ok []
new_headers ((key, value) ∷ rest) = do
  checked ← checked_value value
  others ← new_headers rest
  ok ((key, checked) ∷ others)

-- `headers.set(name, value)`
unfoldable pub set_header : Values → Text → Text → Result Values
unfolding remove_header same_name checked_value
set_header headers name value = do
  checked ← checked_value value
  ok (remove_header headers name ++ (name, checked) ∷ [])

unfoldable pub apply_if_none_match : Values → Option Text → Result Values
unfolding set_header
apply_if_none_match headers none = ok headers
apply_if_none_match headers (some tag) = set_header headers (codes "If-None-Match") tag

abbrev pub authorization_header : Text
authorization_header = codes "Authorization"

unfoldable pub authorized : Values → Option Text → Result Values
unfolding set_header contains_control_characters
authorized headers none = ok headers
authorized headers (some value) =
    if is_empty value || contains_control_characters value
    then err invalid_authorization_value
    else set_header headers authorization_header value

module _ (base_origin : Text) (resolve : Text → Option Target)
    (is_abort_error : SdkError → Bool) where
  is_root_relative : Text → Bool
  is_root_relative path =
      starts_with path (codes "/")
      && (not (starts_with path (codes "//")) && not (contains_control_characters path))

  -- A path that does not resolve is a platform error.
  at_origin : Option Target → SdkError → Result Target
  at_origin none failure = err failure
  at_origin (some target) failure =
      if text_eq target.origin base_origin then ok target else err invalid_request_path

  unfoldable pub resolve_request_url : Text → SdkError → Result Target
  unfolding is_root_relative at_origin
  resolve_request_url path failure =
      if is_root_relative path then at_origin (resolve path) failure else err invalid_request_path

  -- The `catch` of `request`.
  unfoldable pub as_transport_error : Bool → SdkError → SdkError
  unfolding is_teslatlas
  as_transport_error aborted_failure e =
      if is_teslatlas e
      then e
      else if aborted_failure
      then aborted
      else if is_abort_error e
      then e
      else transport_error

  -- The block under `try`, up to the call of `onDispatch`.
  unfoldable pub prepare_dispatch : Target → Values → FetchEnvironment → Result Dispatch
  unfolding authorized
  prepare_dispatch target headers environment = do
    throw_if environment.aborted_first aborted
    authorization ← environment.authorization
    final_headers ← authorized headers authorization
    throw_if environment.aborted_authorized aborted
    ok (record { target = target; headers = final_headers })

  -- The checks before it.
  unfoldable pub checked_request : Text → SdkError → Values → Option Text → Result (Target × Values)
  unfolding resolve_request_url new_headers has_header apply_if_none_match
  checked_request path failure headers if_none_match = do
    target ← resolve_request_url path failure
    given ← new_headers headers
    throw_if (has_header given authorization_header) reserved_authorization_header
    conditional ← apply_if_none_match given if_none_match
    ok (target, conditional)

  -- From the call of `onDispatch` on, by what the callback does.
  unfoldable pub notified_dispatch :
      FetchEnvironment → Dispatch → Result (Unit {0}) → Dispatched × Result Response
  unfolding as_transport_error
  notified_dispatch environment dispatch (err e) = (
    record { notified = true; dispatch = none },
    err (as_transport_error environment.aborted_failure e),
  )
  notified_dispatch environment dispatch (ok x) = (
    record { notified = true; dispatch = some dispatch },
    elim environment.fetched [
      | ok response ↦ ok response
      | err e ↦ err (as_transport_error environment.aborted_failure e)
    ],
  )

  unfoldable pub fetch_dispatch : FetchEnvironment → Result Dispatch → Dispatched × Result Response
  unfolding as_transport_error notified_dispatch
  fetch_dispatch environment (err e) =
      (unsent, err (as_transport_error environment.aborted_failure e))
  fetch_dispatch environment (ok dispatch) =
      notified_dispatch environment dispatch environment.on_dispatch

  unfoldable pub send_checked :
      FetchEnvironment → Result (Target × Values) → Dispatched × Result Response
  unfolding prepare_dispatch fetch_dispatch
  send_checked environment (err e) = (unsent, err e)
  send_checked environment (ok (target, headers)) =
      fetch_dispatch environment (prepare_dispatch target headers environment)

  unfoldable pub request :
      Text → SdkError → Values → Option Text → FetchEnvironment → Dispatched × Result Response
  unfolding checked_request send_checked
  request path failure headers if_none_match environment =
      send_checked environment (checked_request path failure headers if_none_match)

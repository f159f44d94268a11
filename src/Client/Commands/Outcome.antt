-- ===== src/Client/Commands/Outcome.antt =====
-- What the caller of `createCommand` can learn from its outcome.
use teslatlas_sdk_typescript.Prelude.{
  ◌≡◌, refl, ◌⊎◌, inl, inr, Bool, true, false, Bool-cases, Option, none, some,
}
use teslatlas_sdk_typescript.Js.Text.{Text}
use teslatlas_sdk_typescript.Core.Errors.{SdkError, Result, ok, err, command_uncertain, Fails}
use teslatlas_sdk_typescript.Http.RequestBuilder.{BuiltRequest, Values}
use teslatlas_sdk_typescript.Http.Response.{Response}
use teslatlas_sdk_typescript.Http.FetchTransport.{
  Target, Dispatch, Dispatched, FetchEnvironment, prepare_dispatch, notified_dispatch,
  checked_request, fetch_dispatch, send_checked, request,
}
use teslatlas_sdk_typescript.Client.Session.{Transport, ClientSession, transport_request}
use teslatlas_sdk_typescript.Client.Reads.{Decoding, CallEnvironment}
use teslatlas_sdk_typescript.Client.Commands.{
  CommandCall, flagging, is_protocol_http, settled_error, settled, failed_error, command_answer,
  command_sent, command_built, write_command,
}

-- The two errors that say what became of a command that was sent: the Hub refused it, or no one
-- knows.
pub IsDefinite : SdkError → Type 0
IsDefinite e = (is_protocol_http e ≡ true) ⊎ (e ≡ command_uncertain)

-- Nothing was sent, and an error says so; or something was, and a success or a definite error is
-- reported.
pub IsSettledBy {ℓ} : {A : Type ℓ} → Option Dispatch → Result A → Type 0
IsSettledBy none (ok value) = ⊥
IsSettledBy none (err e) = Unit
IsSettledBy (some dispatch) (ok value) = Unit
IsSettledBy (some dispatch) (err e) = IsDefinite e

pub IsSettled {ℓ} : {A : Type ℓ} → Dispatched × Result A → Type 0
IsSettled (sent, r) = IsSettledBy sent.dispatch r

settled_error-IsDefinite : (e : SdkError) → IsDefinite (settled_error e)
unfolding settled_error IsDefinite
settled_error-IsDefinite e = elim (Bool-cases (is_protocol_http e)) [
  | inl h ↦ rw h (inl h)
  | inr h ↦ rw h (inr refl)
]

IsMarked : Bool → Option Dispatch → Result Response → Type 0
IsMarked notified none r = (notified ≡ false) × Fails (λ e. Unit) r
IsMarked notified (some dispatch) r = notified ≡ true

-- What is handed to `fetch` was announced before by `onDispatch`, which nothing else follows where it
-- does not throw; and a transport gives a response only behind a dispatch.
IsAnnounced : Dispatched × Result Response → Type 0
IsAnnounced (sent, r) = IsMarked sent.notified sent.dispatch r

module _ (base_origin : Text) (resolve : Text → Option Target)
    (is_abort_error : SdkError → Bool) where
  fetch_dispatch-IsAnnounced :
      (fetching : FetchEnvironment) (prepared : Result Dispatch)
      → IsAnnounced (fetch_dispatch base_origin resolve is_abort_error (flagging fetching) prepared)
  unfolding fetch_dispatch notified_dispatch IsAnnounced IsMarked
  fetch_dispatch-IsAnnounced fetching (err e) = (refl, tt)
  fetch_dispatch-IsAnnounced fetching (ok dispatch) = refl

  send_checked-IsAnnounced :
      (fetching : FetchEnvironment) (checked : Result (Target × Values))
      → IsAnnounced (send_checked base_origin resolve is_abort_error (flagging fetching) checked)
  unfolding send_checked IsAnnounced IsMarked
  send_checked-IsAnnounced fetching (err e) = (refl, tt)
  send_checked-IsAnnounced fetching (ok (target, headers)) =
      fetch_dispatch-IsAnnounced fetching
        (prepare_dispatch base_origin resolve is_abort_error target headers (flagging fetching))

transport_request-IsAnnounced :
    (transport : Transport) (fetching : FetchEnvironment) (built : BuiltRequest)
    → IsAnnounced (transport_request transport (flagging fetching) built)
unfolding transport_request request
transport_request-IsAnnounced transport fetching built =
    send_checked-IsAnnounced transport.base_origin transport.resolve transport.is_abort_error
      fetching
      (checked_request transport.base_origin transport.resolve transport.is_abort_error built.path
        transport.failure built.headers built.if_none_match)

failed_error-IsSettledBy :
    (A : Type 0) (dispatch : Option Dispatch) (notified : Bool) (e : SdkError)
    → IsMarked notified dispatch (err e)
    → IsSettledBy {A = A} dispatch (err (failed_error notified e))
unfolding failed_error IsSettledBy IsDefinite IsMarked
failed_error-IsSettledBy A none notified e h = tt
failed_error-IsSettledBy A (some dispatch) notified e h = rw h (inr refl)

module _ (decoding : Decoding) (session : ClientSession) (environment : CallEnvironment) where
  settled-IsSettledBy :
      {A : Type 0} (dispatch : Dispatch) (r : Result A) → IsSettledBy (some dispatch) (settled r)
  unfolding settled IsSettledBy
  settled-IsSettledBy dispatch (ok value) = tt
  settled-IsSettledBy dispatch (err e) = settled_error-IsDefinite e

  answer-IsSettledBy :
      (asked : CommandCall) (notified : Bool) (dispatch : Option Dispatch) (response : Response)
      → IsMarked notified dispatch (ok response)
      → IsSettledBy dispatch (settled (command_answer decoding session environment asked response))
  unfolding IsMarked
  answer-IsSettledBy asked notified none response h = elim h.1 [ ]
  answer-IsSettledBy asked notified (some dispatch) response h =
      settled-IsSettledBy dispatch (command_answer decoding session environment asked response)

  command_sent-IsSettled :
      (asked : CommandCall) (sent : Dispatched × Result Response)
      → IsAnnounced sent
      → IsSettled (command_sent decoding session environment asked sent)
  unfolding command_sent IsSettled IsAnnounced IsMarked
  command_sent-IsSettled asked (sent, err e) h =
      failed_error-IsSettledBy _ sent.dispatch sent.notified e h
  command_sent-IsSettled asked (sent, ok response) h =
      answer-IsSettledBy asked sent.notified sent.dispatch response h

  command_built-IsSettled :
      (asked : CommandCall) (built : Result BuiltRequest)
      → IsSettled (command_built decoding session environment asked built)
  unfolding command_built IsSettled IsSettledBy
  command_built-IsSettled asked (err e) = tt
  command_built-IsSettled asked (ok built) =
      unfold IsSettled in
      command_sent-IsSettled asked _
        (transport_request-IsAnnounced session.api_transport environment.fetching built)

  -- If nothing was handed to `fetch`, a command ends with an error; if something was, it ends with a
  -- success, with the Hub's refusal or with the error that its outcome is uncertain.
  pub write_command-IsSettled :
      (arguments : Result CommandCall)
      → IsSettled (write_command decoding session environment arguments)
  unfolding write_command IsSettled IsSettledBy
  write_command-IsSettled (err e) = tt
  write_command-IsSettled (ok asked) = unfold IsSettled in command_built-IsSettled asked _

-- ===== src/Events/Subscription/Rounds.antt =====
-- The rounds of `subscribeToSse`: a connection, its stream, and the wait for the next.
use teslatlas_sdk_typescript.Prelude.{
  ℕ, zero, suc, ◌+◌, Bool, true, false, ◌&&◌, not, Option, none, some, List, [], ◌∷◌, ◌++◌, leb,
  if◌then◌else◌,
}
use teslatlas_sdk_typescript.Js.Text.{Text, codes}
use teslatlas_sdk_typescript.Core.Errors.{
  Result, ok, err, ◌>>=◌, ◌>>◌, throw_if, aborted, invalid_sse_checkpoint, sse_http_error,
  sse_content_type_error, sse_body_error,
}
use teslatlas_sdk_typescript.Http.Response.{Response, has_essence}
use teslatlas_sdk_typescript.Events.SseStream.{parse_sse_stream}
use teslatlas_sdk_typescript.Events.Subscription.{
  validate_checkpoint, validate_protocol_version, is_safe_delay, safe_delay, retry_bounds, clamp,
  ResponseAction, proceed, terminal, fail, Reason, ReconnectContext, Connection, Action, requested,
  slept, Ending, returned, running, threw, Progress, Options, stop, act, resume_header, or_empty,
  Settled, over, again, settle, at_end,
}
use teslatlas_sdk_typescript.Events.Subscription.Stream.{consume}

module _ {E : Type 0} (options : Options E) where
  unfoldable pub is_success : ℕ → Bool
  is_success status = leb 200 status && leb status 299

  unfoldable pub classified : Response → Result ResponseAction
  classified response = elim options.classifier [
    | none ↦
        ok (if is_success response.status then proceed else fail (sse_http_error response.status))
    | some classify ↦ classify response
  ]

  unfoldable pub has_body : Response → Bool
  has_body response = elim response.body [ none ↦ false | some stream ↦ true ]

  unfoldable pub act_on : Response → ResponseAction → Result Bool
  act_on response terminal = ok false
  act_on response (fail e) = err e
  act_on response proceed = do
    throw_if (not (is_success response.status)) (sse_http_error response.status)
    throw_if (not (has_essence response.headers.content_type (codes "text/event-stream")))
        sse_content_type_error
    throw_if (not (has_body response)) sse_body_error
    ok true

  -- Whether the body is read, or the stream is over for good.
  unfoldable pub admit : Connection → Result Bool
  admit connection = do
    response ← connection.response
    throw_if connection.aborted_response aborted
    action ← classified response
    throw_if connection.aborted_action aborted
    act_on response action

  unfoldable pub run_stream : Connection → Option Text → Result Bool → Progress E
  run_stream connection last_id (err e) = stop last_id none (threw e)
  run_stream connection last_id (ok false) = stop last_id none returned
  run_stream connection last_id (ok true) =
      consume options
        (parse_sse_stream (or_empty last_id) connection.aborted_stream connection.reads)
        connection.moment 0 last_id none

  unfoldable pub connect : Connection → Option Text → Progress E
  connect connection last_id =
      act (requested (resume_header last_id)) (run_stream connection last_id (admit connection))

  unfoldable pub decide_reconnect_delay : ReconnectContext → Result (Option ℕ)
  decide_reconnect_delay context = elim options.reconnect [
    | none ↦ ok none
    | some policy ↦ policy context >>= safe_delay
  ]

  -- The policy's delay, or the server's within the bounds.
  unfoldable pub chosen_delay : ℕ × ℕ → Option ℕ → ℕ → ℕ
  chosen_delay bounds none policy_delay = policy_delay
  chosen_delay bounds (some milliseconds) policy_delay = clamp milliseconds bounds.0 bounds.1

  unfoldable pub sleep_then : Connection → ℕ → List (Action E) × Ending → List (Action E) × Ending
  sleep_then connection delay next = elim connection.sleep [
    | err e ↦ (slept delay ∷ [], threw e)
    | ok x ↦
        if connection.aborted_slept
        then (slept delay ∷ [], threw aborted)
        else (slept delay ∷ next.0, next.1)
  ]

  unfoldable pub reconnect_with :
      Connection
      → ℕ × ℕ
      → Reason
      → Option ℕ
      → Result (Option ℕ)
      → List (Action E) × Ending
      → List (Action E) × Ending
  reconnect_with connection bounds reason server_retry (err e) next = ([], threw e)
  reconnect_with connection bounds reason server_retry (ok delay) next =
      if connection.aborted_policy then ([], threw aborted) else elim delay [
        | none ↦ ([], at_end reason)
        | some policy_delay ↦
            sleep_then connection (chosen_delay bounds server_retry policy_delay) next
      ]

  unfoldable pub after_settled :
      Connection
      → ℕ × ℕ
      → ℕ
      → Progress E
      → List (Action E) × Ending
      → Settled
      → List (Action E) × Ending
  after_settled connection bounds attempt p next (over ending) = (p.actions, ending)
  after_settled connection bounds attempt p next (again reason) =
      let context : ReconnectContext = record {
        attempt = attempt;
        reason = reason;
        server_retry = p.server_retry;
      } in
      let (actions, ending) =
        reconnect_with connection bounds reason p.server_retry (decide_reconnect_delay context)
          next in
      (p.actions ++ actions, ending)

  unfoldable pub after_round :
      Connection → ℕ × ℕ → ℕ → Progress E → List (Action E) × Ending → List (Action E) × Ending
  unfolding after_settled
  after_round connection bounds attempt p next =
      after_settled connection bounds attempt p next (settle connection.aborted_failure p.ending)

  -- The rounds that are observed: the attempts from the given one.
  unfoldable pub rounds : ℕ → (ℕ → Connection) → ℕ × ℕ → ℕ → Option Text → List (Action E) × Ending
  rounds zero connections bounds attempt last_id = ([], running)
  rounds (suc observed) connections bounds attempt last_id =
      let p = connect (connections attempt) last_id in
      let next = rounds observed connections bounds (attempt + 1) p.last_id in
      if (connections attempt).aborted_before
      then ([], threw aborted)
      else after_round (connections attempt) bounds attempt p next

  -- The store's `load`, whose failure is the SDK's own error.
  unfoldable pub load_checkpoint : Result (Option Text) → Result (Option Text)
  load_checkpoint loaded =
      if options.has_store
      then elim loaded [ ok value ↦ ok value | err e ↦ err invalid_sse_checkpoint ]
      else ok none

  unfoldable pub prepare : Bool → Result (Option Text) → Bool → Result ((ℕ × ℕ) × Option Text)
  prepare aborted_first loaded aborted_loaded = do
    bounds ←
        retry_bounds (is_safe_delay options.minimum_retry) (is_safe_delay options.maximum_retry)
    validate_protocol_version options.protocol_version
    throw_if aborted_first aborted
    last_id ← load_checkpoint loaded
    throw_if aborted_loaded aborted
    validate_checkpoint last_id
    ok (bounds, last_id)

  unfoldable pub start :
      ℕ → (ℕ → Connection) → Result ((ℕ × ℕ) × Option Text) → List (Action E) × Ending
  start observed connections (err e) = ([], threw e)
  start observed connections (ok (bounds, last_id)) = rounds observed connections bounds 1 last_id

  unfoldable pub subscribe_to_sse :
      Bool → Result (Option Text) → Bool → ℕ → (ℕ → Connection) → List (Action E) × Ending
  unfolding start prepare load_checkpoint rounds connect run_stream admit classified act_on
      is_success has_body after_round reconnect_with sleep_then chosen_delay decide_reconnect_delay
      consume
  subscribe_to_sse aborted_first loaded aborted_loaded observed connections =
      start observed connections (prepare aborted_first loaded aborted_loaded)

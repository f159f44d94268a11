-- ===== src/Events/Subscription/Stream.antt =====
-- The loop of `subscribeToSse` over the items of one stream.
use teslatlas_sdk_typescript.Prelude.{ℕ, ◌+◌, ◌&&◌, Option, none, some, if◌then◌else◌}
use teslatlas_sdk_typescript.Js.Text.{Text}
use teslatlas_sdk_typescript.Core.Errors.{
  Result, ok, err, ◌>>=◌, ◌>>◌, throw_if, aborted, invalid_sse_checkpoint,
}
use teslatlas_sdk_typescript.Events.SseParser.{event, retry, checkpoint}
use teslatlas_sdk_typescript.Events.SseStream.{Items, finished, failed, item}
use teslatlas_sdk_typescript.Events.Subscription.{
  validate_checkpoint, normalize_checkpoint, Moment, yielded, committed, drained, left, threw,
  Progress, Options, stop, act,
}

module _ {E : Type 0} (options : Options E) where
  unfoldable pub commit : Moment → Text → Result (Option Text)
  commit moment id = do
    value ← normalize_checkpoint id
    validate_checkpoint value
    throw_if (options.has_store && moment.save_fails) invalid_sse_checkpoint
    ok value

  unfoldable pub commit_then :
      Option Text → Option ℕ → Result (Option Text) → (Option Text → Progress E) → Progress E
  commit_then last_id server_retry (err e) next = stop last_id server_retry (threw e)
  commit_then last_id server_retry (ok value) next = act (committed value) (next value)

  unfoldable pub deliver :
      Moment → Option Text → Option ℕ → Option E → (Unit {0} → Progress E) → Progress E
  deliver moment last_id server_retry none next = next tt
  deliver moment last_id server_retry (some value) next = act (yielded value) (
      if moment.leaves
      then stop last_id server_retry left
      else if moment.aborted_resumed
      then stop last_id server_retry (threw aborted)
      else next tt)

  unfoldable pub handle_mapped :
      Moment → Option Text → Option ℕ → Result (Option E) → (Unit {0} → Progress E) → Progress E
  handle_mapped moment last_id server_retry (err e) next = stop last_id server_retry (threw e)
  handle_mapped moment last_id server_retry (ok mapped) next =
      if moment.aborted_mapped
      then stop last_id server_retry (threw aborted)
      else deliver moment last_id server_retry mapped next

  -- The loop over the items of a stream.
  unfoldable pub consume : Items → (ℕ → Moment) → ℕ → Option Text → Option ℕ → Progress E
  unfolding commit commit_then deliver handle_mapped
  consume finished moment n last_id server_retry = stop last_id server_retry drained
  consume (failed e) moment n last_id server_retry = stop last_id server_retry (threw e)
  consume (item (retry milliseconds) rest) moment n last_id server_retry =
      if (moment n).aborted_before
      then stop last_id server_retry (threw aborted)
      else consume rest moment (n + 1) last_id (some milliseconds)
  consume (item (checkpoint id) rest) moment n last_id server_retry =
      if (moment n).aborted_before
      then stop last_id server_retry (threw aborted)
      else commit_then last_id server_retry (commit (moment n) id)
          (λ value. consume rest moment (n + 1) value server_retry)
  consume (item (event e) rest) moment n last_id server_retry =
      if (moment n).aborted_before
      then stop last_id server_retry (threw aborted)
      else handle_mapped (moment n) last_id server_retry (options.event_mapper e) (λ _.
        commit_then last_id server_retry (commit (moment n) e.last_event_id)
          (λ value. consume rest moment (n + 1) value server_retry))

-- ===== src/Events/Subscription.antt =====
-- `subscribeToSse` of src/events/sse-subscription.ts: an endless loop of connections, here for as many
-- of them as are observed. What the environment does is a value: a `Connection` for each round, and a
-- `Moment` for each item that the stream of the round gives. What the generator does is a trace of
-- actions, and how the rounds end.
pub mod Stream
pub mod Rounds
pub mod Commits
pub mod Delays
use teslatlas_sdk_typescript.Prelude.{
  ℕ, zero, suc, ◌+◌, pos, Bool, true, false, ◌&&◌, ◌||◌, not, Option, none, some, List, [], ◌∷◌,
  ◌++◌, min, max, leb, ltb, if◌then◌else◌, length, any,
}
use teslatlas_sdk_typescript.Js.Text.{Text, codes}
use teslatlas_sdk_typescript.Js.Json.{Number, integer, fraction, infinite}
use teslatlas_sdk_typescript.Core.Errors.{
  SdkError, Result, ok, err, ◌>>=◌, ◌>>◌, throw_if, aborted, invalid_sse_checkpoint, sse_limit,
  sse_stream_read, transport_error, sse_http_error, sse_content_type_error, sse_body_error,
  invalid_sse_retry_configuration, invalid_sse_protocol_version, contains_control_characters,
  is_empty,
}
use teslatlas_sdk_typescript.Http.HeaderValue.{header_value}
use teslatlas_sdk_typescript.Http.Response.{Response, Headers, has_essence}
use teslatlas_sdk_typescript.Events.SseParser.{SseEvent, SseStreamItem, event, retry, checkpoint}
use teslatlas_sdk_typescript.Events.SseStream.{
  Items, finished, failed, item, Reads, parse_sse_stream,
}

abbrev pub max_checkpoint_length : ℕ
max_checkpoint_length = 2048

abbrev is_wide : ℕ → Bool
is_wide c = ltb 255 c

unfoldable pub is_checkpoint : Text → Bool
unfolding contains_control_characters
is_checkpoint value = not (
    ltb max_checkpoint_length (length value)
    || (contains_control_characters value || any is_wide value))

unfoldable pub validate_checkpoint : Option Text → Result (Unit {0})
unfolding is_checkpoint
validate_checkpoint none = ok tt
validate_checkpoint (some value) = throw_if (not (is_checkpoint value)) invalid_sse_checkpoint

unfoldable pub normalize_checkpoint : Text → Result (Option Text)
unfolding validate_checkpoint
normalize_checkpoint value = do
  validate_checkpoint (some value)
  ok (if is_empty value then none else some value)

unfoldable pub validate_protocol_version : Option Text → Result (Unit {0})
unfolding contains_control_characters
validate_protocol_version none = ok tt
validate_protocol_version (some value) =
    throw_if (is_empty value || (contains_control_characters value || any is_wide value))
      invalid_sse_protocol_version

unfoldable pub is_safe_delay : Number → Option ℕ
is_safe_delay (integer (pos n)) = if leb n 9007199254740991 then some n else none
is_safe_delay _ = none

unfoldable pub safe_delay : Option Number → Result (Option ℕ)
unfolding is_safe_delay
safe_delay none = ok none
safe_delay (some value) = elim (is_safe_delay value) [
  | none ↦ err invalid_sse_retry_configuration
  | some delay ↦ ok (some delay)
]

-- The bounds, where they are safe and in order.
unfoldable pub retry_bounds : Option ℕ → Option ℕ → Result (ℕ × ℕ)
retry_bounds (some minimum) (some maximum) =
    if ltb maximum minimum then err invalid_sse_retry_configuration else ok (minimum, maximum)
retry_bounds _ _ = err invalid_sse_retry_configuration

unfoldable pub clamp : ℕ → ℕ → ℕ → ℕ
clamp value minimum maximum = min maximum (max minimum value)

pub data ResponseAction : Type 0 where
  proceed terminal : ResponseAction
  fail : SdkError → ResponseAction

-- Why a round ended.
pub data Reason : Type 0 where
  eof : Reason
  error : SdkError → Reason

pub record ReconnectContext : Type 0 where
  pub attempt : ℕ
  pub reason : Reason
  pub server_retry : Option ℕ

-- What the signal, the consumer and the store do while an item is handled.
pub record Moment : Type 0 where
  pub aborted_before : Bool
  pub aborted_mapped : Bool
  -- The consumer returns from the generator in place of asking for more.
  pub leaves : Bool
  pub aborted_resumed : Bool
  pub save_fails : Bool

pub record Connection : Type 0 where
  pub aborted_before : Bool
  pub response : Result Response
  pub aborted_response : Bool
  pub aborted_action : Bool
  pub aborted_stream : Bool
  pub reads : Option Reads
  pub moment : ℕ → Moment
  pub aborted_failure : Bool
  pub aborted_policy : Bool
  pub sleep : Result (Unit {0})
  pub aborted_slept : Bool

pub data Action (E : Type 0) : Type 0 where
  -- The request, with its `Last-Event-ID`.
  requested : Option Text → Action E
  yielded : E → Action E
  -- `committedLastEventId` is set and the store has saved it.
  committed : Option Text → Action E
  slept : ℕ → Action E

-- How the handling of a stream, or of all rounds, ends. `running` stands for rounds still to come.
pub data Ending : Type 0 where
  drained returned left running : Ending
  threw : SdkError → Ending

pub record Progress (E : Type 0) : Type 0 where
  pub actions : List (Action E)
  pub last_id : Option Text
  pub server_retry : Option ℕ
  pub ending : Ending

pub record Options (E : Type 0) : Type 0 where
  pub has_store : Bool
  pub protocol_version : Option Text
  -- With the defaults, 0 and 30000, filled in.
  pub minimum_retry : Number
  pub maximum_retry : Number
  pub classifier : Option (Response → Result ResponseAction)
  -- Where there is none, each event is given as it is.
  pub event_mapper : SseEvent → Result (Option E)
  pub reconnect : Option (ReconnectContext → Result (Option Number))

abbrev pub stop : {E : Type 0} → Option Text → Option ℕ → Ending → Progress E
stop last_id server_retry ending = record {
  actions = [];
  last_id = last_id;
  server_retry = server_retry;
  ending = ending;
}

abbrev pub act : {E : Type 0} → Action E → Progress E → Progress E
act action p = record p { actions = action ∷ p.actions }

-- `Last-Event-ID` is left out where there is no checkpoint, or an empty one. A checkpoint is checked
-- before to have only units that a header can have.
abbrev pub resume_header : Option Text → Option Text
resume_header none = none
resume_header (some []) = none
resume_header (some (c ∷ s)) = some (header_value (c ∷ s))

abbrev pub or_empty : Option Text → Text
or_empty none = []
or_empty (some s) = s

-- Errors that end the subscription at once.
unfoldable pub is_final : SdkError → Bool
is_final invalid_sse_checkpoint = true
is_final (sse_limit name) = true
is_final _ = false

unfoldable pub shown : SdkError → SdkError
shown sse_stream_read = transport_error
shown e = e

-- The `catch` of a round, and the flow that goes on behind it. The reason of the signal is only
-- thrown while it is aborted.
pub data Settled : Type 0 where
  over : Ending → Settled
  again : Reason → Settled

unfoldable pub settle : Bool → Ending → Settled
unfolding is_final shown
settle aborted_failure drained = again eof
settle aborted_failure (threw aborted) = over (threw aborted)
settle true (threw e) = over (threw aborted)
settle false (threw e) = if is_final e then over (threw e) else again (error (shown e))
settle aborted_failure ending = over ending

unfoldable pub at_end : Reason → Ending
at_end eof = returned
at_end (error e) = threw e

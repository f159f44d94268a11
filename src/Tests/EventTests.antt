-- ===== src/Tests/EventTests.antt =====
-- Event streams on concrete inputs.
use teslatlas_sdk_typescript.Prelude.{
  pos, ◌≡◌, ◌≤◌, refl, Bool, true, false, Option, none, some, [], ◌∷◌, ◌++◌, arith, length,
}
use teslatlas_sdk_typescript.Js.Text.{Text, codes}
use teslatlas_sdk_typescript.Js.Utf8.{is_well_formed}
use teslatlas_sdk_typescript.Js.Json.{Json, object, string, integer, end, member}
use teslatlas_sdk_typescript.Core.Errors.{ok, ◌>>=◌, map_ok, AllOk, contains_control_characters}
use teslatlas_sdk_typescript.Http.BoundedBody.{Stream}
use teslatlas_sdk_typescript.Http.Response.{Response}
use teslatlas_sdk_typescript.Events.SseParser.{
  SseEvent, Parser, no_segments, new_parser, feed, strip_mark,
}
use teslatlas_sdk_typescript.Events.SseParser.Machine.{view, run}
use teslatlas_sdk_typescript.Events.SseParser.Buffers.{IsBuffer}
use teslatlas_sdk_typescript.Events.SseParser.Keeps.{new_parser-IsParser}
use teslatlas_sdk_typescript.Events.SseParser.Bounded.{
  IsBounded, feed-IsBounded, new_parser-IsBounded,
}
use teslatlas_sdk_typescript.Events.SseParser.Chunks.{started, view-feed, feed-append}
use teslatlas_sdk_typescript.Events.SseStream.{Reads}
use teslatlas_sdk_typescript.Events.Subscription.{
  Options, Connection, Moment, validate_checkpoint, is_checkpoint, validate_protocol_version,
  retry_bounds, is_safe_delay,
}
use teslatlas_sdk_typescript.Events.Subscription.Rounds.{prepare, load_checkpoint, subscribe_to_sse}
use teslatlas_sdk_typescript.Events.Subscription.Commits.{IsResumed, subscribe_to_sse-IsResumed}
use teslatlas_sdk_typescript.Events.ProtocolEvents.{Catalog, v1_0_0, v1_1_0, normalize_event_types}
use teslatlas_sdk_typescript.Events.ProtocolEvents.Types.{
  IsSelection, normalize_event_types-IsSelection,
}
use teslatlas_sdk_typescript.Events.EventDecoder.{decode_protocol_event}
use teslatlas_sdk_typescript.Events.EventDecoder.Laws.{IsEvent, decode_protocol_event-IsEvent}

abbrev parser : Parser
parser = new_parser (codes "7")

abbrev head_text : Text
head_text = codes "id: 8\r"

abbrev tail_text : Text
tail_text = codes "\ndata: a\n\n"

head_well_formed : is_well_formed head_text ≡ true
unfolding is_well_formed
head_well_formed = refl

tail_well_formed : is_well_formed tail_text ≡ true
unfolding is_well_formed
tail_well_formed = refl

view-feed_example :
    map_ok view (feed head_text parser)
    ≡ run (view (started head_text parser)) (strip_mark parser head_text)
view-feed_example = view-feed head_text parser (new_parser-IsParser (codes "7")) head_well_formed

chunks_example :
    map_ok view (feed (head_text ++ tail_text) parser)
    ≡ map_ok view (feed head_text parser >>= feed tail_text)
chunks_example =
    feed-append head_text tail_text parser (new_parser-IsParser (codes "7")) head_well_formed
      tail_well_formed

keeps_example : AllOk IsBounded (feed head_text parser)
keeps_example = feed-IsBounded head_text parser (new_parser-IsBounded (codes "7"))

no_segments-IsBuffer : IsBuffer no_segments
no_segments-IsBuffer = omega arith

abbrev options : Options SseEvent
options = record {
  has_store = true;
  protocol_version = none;
  minimum_retry = integer (pos 100);
  maximum_retry = integer (pos 30000);
  classifier = none;
  event_mapper = λ e. ok (some e);
  reconnect = some (λ context. ok (some (integer (pos 3000))));
}

abbrev moment : Moment
moment = record {
  aborted_before = false;
  aborted_mapped = false;
  leaves = false;
  aborted_resumed = false;
  save_fails = false;
}

abbrev stream_response : Response
stream_response = record {
  status = 200;
  headers = record {
    content_type = some (codes "text/event-stream");
    etag = none;
    request_id = none;
    protocol_version = none;
    location = none;
    retry_after = none;
    cache_control = none;
  };
  body = some (Stream.closed false);
}

-- A stream gives an event and ends, and the next round asks again.
abbrev connection : Connection
connection = record {
  aborted_before = false;
  response = ok stream_response;
  aborted_response = false;
  aborted_action = false;
  aborted_stream = false;
  reads = some (Reads.chunk false (codes "id: 8\ndata: a\n\n" ∷ []) (Reads.closed false []));
  moment = λ n. moment;
  aborted_failure = false;
  aborted_policy = false;
  sleep = ok tt;
  aborted_slept = false;
}

prepared : prepare options false (ok (some (codes "7"))) false ≡ ok ((100, 30000), some (codes "7"))
unfolding prepare load_checkpoint validate_checkpoint is_checkpoint validate_protocol_version
    retry_bounds is_safe_delay contains_control_characters
prepared = refl

subscription_example :
    IsResumed
      (some (codes "7"))
      (subscribe_to_sse options false (ok (some (codes "7"))) false 3 (λ n. connection)).0
subscription_example =
    subscribe_to_sse-IsResumed options false (ok (some (codes "7"))) false 3 (λ n. connection)
      (some (codes "7")) (100, 30000) prepared

abbrev catalog : Catalog
catalog = (codes "drive.started", v1_0_0) ∷ (codes "command.changed", v1_1_0) ∷ []

types_example :
    AllOk
      (λ r.
        (r ≡ codes "drive.started" ∷ [])
        × (length (codes "drive.started" ∷ []) ≤ 32)
        × IsSelection catalog v1_0_0 [] (codes "drive.started" ∷ []))
      (normalize_event_types catalog (some (codes "drive.started" ∷ [])) v1_0_0)
types_example = normalize_event_types-IsSelection catalog v1_0_0 (codes "drive.started" ∷ [])

-- An event whose payload is empty.
abbrev parse_event : Text → Option Json
parse_event text = some (
    object (
      member (codes "event_id") (string (codes "8")) (
        member (codes "event_type") (string (codes "drive.started"))
          (member (codes "data") (object end) end))))

abbrev accepts : Json → Bool
accepts json = true

abbrev started_event : SseEvent
started_event = record {
  event = codes "drive.started";
  data_text = codes "{}";
  last_event_id = codes "8";
}

event_example :
    AllOk
      (IsEvent catalog parse_event accepts started_event v1_0_0)
      (decode_protocol_event catalog parse_event accepts started_event v1_0_0)
event_example = decode_protocol_event-IsEvent catalog parse_event accepts started_event v1_0_0

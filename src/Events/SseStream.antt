-- ===== src/Events/SseStream.antt =====
-- `parseSseStream` of src/events/sse-parser.ts. A chunk is given as the texts that the `TextDecoder`
-- makes of its windows of 4096 bytes; each read notes whether the signal is aborted when it settles.
use teslatlas_sdk_typescript.Prelude.{
  Bool, true, false, Option, none, some, List, [], ◌∷◌, if◌then◌else◌,
}
use teslatlas_sdk_typescript.Js.Text.{Text}
use teslatlas_sdk_typescript.Core.Errors.{SdkError, Result, ok, err, aborted, sse_stream_read}
use teslatlas_sdk_typescript.Events.SseParser.{Parser, SseStreamItem, new_parser, feed, take_items}

pub data Reads : Type 0 where
  -- The end, with what the decoder has left.
  closed : Bool → Text → Reads
  broken : Bool → Reads
  chunk : Bool → List Text → Reads → Reads

-- What the generator does: the items that it yields, then its end or what it throws.
pub data Items : Type 0 where
  finished : Items
  failed : SdkError → Items
  item : SseStreamItem → Items → Items

items_then : List SseStreamItem → Items → Items
items_then [] rest = rest
items_then (i ∷ is) rest = item i (items_then is rest)

-- A feed and its items, and what comes next for the parser that is left.
feed_window : Result Parser → (Parser → Items) → Items
unfolding items_then take_items
feed_window (err e) next = failed e
feed_window (ok p) next = let (items, q) = take_items p in items_then items (next q)

parse_windows : List Text → Parser → (Parser → Items) → Items
parse_windows [] p next = next p
parse_windows (window ∷ windows) p next =
    feed_window (feed window p) (λ q. parse_windows windows q next)

parse_reads : Reads → Parser → Items
unfolding parse_windows feed_window
parse_reads (closed true rest) p = failed aborted
parse_reads (closed false rest) p = feed_window (feed rest p) (λ q. finished)
parse_reads (broken true) p = failed aborted
parse_reads (broken false) p = failed sse_stream_read
parse_reads (chunk true windows rest) p = failed aborted
parse_reads (chunk false windows rest) p = parse_windows windows p (λ q. parse_reads rest q)

-- `none` stands for a stream that is locked.
unfoldable pub parse_sse_stream : Text → Bool → Option Reads → Items
unfolding parse_reads
parse_sse_stream initial abort_first none = failed sse_stream_read
parse_sse_stream initial abort_first (some reads) =
    if abort_first then failed aborted else parse_reads reads (new_parser initial)

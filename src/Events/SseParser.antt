-- ===== src/Events/SseParser.antt =====
-- `IncrementalSseParser` of src/events/sse-parser.ts. A method returns the parser that it leaves, or
-- the error that it throws. The two fragment buffers share a shape and their append loop.
pub mod Machine
pub mod Buffers
pub mod Refines
pub mod Keeps
pub mod Bounded
pub mod Lines
pub mod Chunks
use teslatlas_sdk_typescript.Prelude.{
  ℕ, zero, suc, ◌+◌, ◌-◌, ◌*◌, ◌≡◌, Bool, true, false, ◌&&◌, ◌||◌, Option, none, some, String, List,
  [], ◌∷◌, ◌++◌, min, leb, ltb, ◌==◌, if◌then◌else◌, length, take, drop, replicate,
}
use teslatlas_sdk_typescript.Js.Text.{
  Text, codes, text_eq, starts_with, has_unit, cut_at, is_digits, decimal_from, max_safe_integer,
  concat,
}
use teslatlas_sdk_typescript.Js.Utf8.{utf8_length}
use teslatlas_sdk_typescript.Core.Errors.{Result, ok, err, ◌>>=◌, sse_limit, is_empty}

abbrev pub max_event_data_bytes : ℕ
max_event_data_bytes = 8388608

abbrev pub max_line_bytes : ℕ
max_line_bytes = 8388614

abbrev pub segment_size : ℕ
segment_size = 4096

pub record SseEvent : Type 0 where
  pub event : Text
  pub data_text : Text
  pub last_event_id : Text

pub data SseStreamItem : Type 0 where
  event : SseEvent → SseStreamItem
  retry : ℕ → SseStreamItem
  checkpoint : Text → SseStreamItem

-- `#lineFragments` with `#pendingLine`, or `#dataFragments` with `#pendingData`.
pub record Segments : Type 0 where
  pub fragments : List Text
  pub pending : Text

abbrev pub no_segments : Segments
no_segments = record { fragments = []; pending = [] }

pub record Parser : Type 0 where
  pub items : List SseStreamItem
  pub data_segments : Segments
  pub line_segments : Segments
  pub empty_data_lines : ℕ
  pub line_bytes : ℕ
  pub event_data_bytes : ℕ
  pub skip_line_feed : Bool
  pub at_start : Bool
  pub event_type : Text
  pub last_event_id : Text
  pub block_id_changed : Bool

abbrev pub new_parser : Text → Parser
new_parser initial = record {
  items = [];
  data_segments = no_segments;
  line_segments = no_segments;
  empty_data_lines = 0;
  line_bytes = 0;
  event_data_bytes = 0;
  skip_line_feed = false;
  at_start = true;
  event_type = [];
  last_event_id = initial;
  block_id_changed = false;
}

-- One round of the append loops: `piece` goes to the pending segment, and a full one is closed.
pub close_full : List Text → Text → Segments
close_full fragments pending =
    if length pending == segment_size
    then record { fragments = fragments ++ pending ∷ []; pending = [] }
    else record { fragments = fragments; pending = pending }

-- The loops of `#appendLine` and `#appendData`, over what is left of the value, on fuel.
pub append_from : ℕ → Segments → Text → Segments
append_from zero s value = s
append_from (suc fuel) s [] = s
append_from (suc fuel) s (c ∷ rest) =
    let value = c ∷ rest in
    let taken = min (segment_size - length s.pending) (length value) in
    append_from fuel (close_full s.fragments (s.pending ++ take taken value)) (drop taken value)

-- Each round takes a unit, so the value's length is fuel enough.
unfoldable pub append_segments : Segments → Text → Segments
unfolding append_from close_full
append_segments s value = append_from (length value) s value

-- `fragments.join("") + pending`
unfoldable pub segments_text : Segments → Text
segments_text s = concat s.fragments ++ s.pending

-- A count that is not positive is 0 already.
pub flush_empty_data : Parser → Parser
flush_empty_data p = record p {
  data_segments =
      if ltb 0 p.empty_data_lines
      then append_segments p.data_segments (replicate p.empty_data_lines b'\n')
      else p.data_segments;
  empty_data_lines = 0;
}

-- `text.slice(0, -1)`
unfoldable pub drop_last : Text → Text
drop_last [] = []
drop_last (c ∷ []) = []
drop_last (c ∷ d ∷ s) = c ∷ drop_last (d ∷ s)

abbrev pub event_name : Text → Text
event_name t = if is_empty t then codes "message" else t

pub block_items : Parser → List SseStreamItem
block_items p =
    if ltb 0 p.event_data_bytes
    then event (record {
      event = event_name p.event_type;
      data_text = drop_last (segments_text (flush_empty_data p).data_segments);
      last_event_id = p.last_event_id;
    })
      ∷ []
    else if p.block_id_changed
    then checkpoint p.last_event_id ∷ []
    else []

unfoldable pub dispatch_block : Parser → Parser
unfolding block_items flush_empty_data
dispatch_block p = record p {
  items = p.items ++ block_items p;
  data_segments = no_segments;
  empty_data_lines = 0;
  event_data_bytes = 0;
  event_type = [];
  block_id_changed = false;
}

pub strip_space : Text → Text
strip_space [] = []
strip_space (c ∷ s) = if c == b' ' then s else c ∷ s

-- The field name and the value of a line.
unfoldable pub split_field : Text → Text × Text
unfolding strip_space
split_field line = elim (cut_at b':' line) [
  | none ↦ (line, [])
  | some (field, value) ↦ (field, strip_space value)
]

abbrev pub value_bytes : Text → ℕ
value_bytes value = (if is_empty value then 0 else utf8_length value) + 1

pub add_data : Text → Parser → Parser
add_data [] p = record p { empty_data_lines = p.empty_data_lines + 1 }
add_data (c ∷ s) p =
    let q = flush_empty_data p in
    record q { data_segments = append_segments q.data_segments ((c ∷ s) ++ b'\n' ∷ []) }

pub on_data : Text → Parser → Result Parser
on_data value p =
    let bytes = p.event_data_bytes + value_bytes value in
    if ltb max_event_data_bytes bytes
    then err (sse_limit "Sse.eventSize")
    else ok (add_data value (record p { event_data_bytes = bytes }))

pub on_retry : Text → Parser → Parser
on_retry value p =
    let milliseconds = decimal_from 0 value in
    if is_digits value && leb milliseconds max_safe_integer
    then record p { items = p.items ++ retry milliseconds ∷ [] }
    else p

unfoldable pub handle_field : Text → Text → Parser → Result Parser
unfolding on_data add_data on_retry flush_empty_data
handle_field field value p =
    if text_eq field (codes "data")
    then on_data value p
    else if text_eq field (codes "event")
    then ok (record p { event_type = value })
    else if text_eq field (codes "id")
    then (if has_unit value 0
        then ok p
        else ok (record p { last_event_id = value; block_id_changed = true }))
    else if text_eq field (codes "retry")
    then ok (on_retry value p)
    else ok p

unfoldable pub handle_line : Text → Parser → Result Parser
unfolding handle_field split_field dispatch_block
handle_line [] p = ok (dispatch_block p)
handle_line (c ∷ s) p =
    if c == b':'
    then ok p
    else let (field, value) = split_field (c ∷ s) in handle_field field value p

abbrev pub is_delimiter : ℕ → Bool
is_delimiter c = c == b'\r' || c == b'\n'

-- The text up to the first `\r` or `\n`, and that delimiter with what follows it.
unfoldable pub next_line : Text → Text × Option (ℕ × Text)
next_line [] = ([], none)
next_line (c ∷ s) =
    let (fragment, found) = next_line s in
    if is_delimiter c then ([], some (c, s)) else (c ∷ fragment, found)

pub add_fragment : Text → Parser → Result Parser
add_fragment fragment p =
    let bytes = p.line_bytes + (if is_empty fragment then 0 else utf8_length fragment) in
    if ltb max_line_bytes bytes
    then err (sse_limit "Sse.lineSize")
    else ok
        (record p { line_bytes = bytes; line_segments = append_segments p.line_segments fragment })

pub end_line : ℕ → Parser → Result Parser
end_line delimiter p = do
  q ← handle_line (segments_text p.line_segments) p
  ok (record q { line_segments = no_segments; line_bytes = 0; skip_line_feed = delimiter == b'\r' })

-- What follows the fragment: the end of the text, or a delimiter and the next round.
pub feed_line : (Parser → Text → Result Parser) → Text × Option (ℕ × Text) → Parser → Result Parser
feed_line next (fragment, none) p = add_fragment fragment p
feed_line next (fragment, some (delimiter, rest)) p = do
  q ← add_fragment fragment p
  r ← end_line delimiter q
  next r rest

-- The loop of `feed` over what is left of the text, on fuel. A line feed after a `\r` is skipped.
pub feed_loop : ℕ → Parser → Text → Result Parser
feed_loop zero p text = ok p
feed_loop (suc fuel) p [] = ok p
feed_loop (suc fuel) p (c ∷ s) =
    let q = record p { skip_line_feed = false } in
    elim (p.skip_line_feed && c == b'\n') [
      | true ↦ feed_loop fuel q s
      | false ↦ feed_line (feed_loop fuel) (next_line (c ∷ s)) q
    ]

-- One leading U+FEFF of the stream is dropped.
pub strip_mark : Parser → Text → Text
strip_mark p [] = []
strip_mark p (c ∷ s) = if p.at_start && c == 0xFEFF then s else c ∷ s

-- Each round of the loop takes a unit of the text, so its length is fuel enough.
unfoldable pub feed : Text → Parser → Result Parser
unfolding feed_loop feed_line end_line add_fragment strip_mark handle_line next_line
feed decoded p =
    let text = strip_mark p decoded in
    feed_loop (length text) (record p { at_start = p.at_start && is_empty decoded }) text

-- `takeItems`: the items queued, in order, and the parser with an empty queue.
unfoldable pub take_items : Parser → List SseStreamItem × Parser
take_items p = (p.items, record p { items = [] })

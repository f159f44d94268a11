-- ===== src/Events/SseParser/Machine.antt =====
-- What the parser promises, apart from its buffers: a machine that takes one code unit at a time and
-- holds the line and the data of the block as plain texts.
use teslatlas_sdk_typescript.Prelude.{
  ℕ, arith, ◌+◌, ◌≡◌, refl, subst, sym, ◌∙◌, Bool, true, false, ◌&&◌, List, [], ◌∷◌, ◌++◌, ltb, leb,
  ◌==◌, if◌then◌else◌,
}
use teslatlas_sdk_typescript.Js.Text.{
  Text, codes, text_eq, has_unit, is_digits, decimal_from, max_safe_integer,
}
use teslatlas_sdk_typescript.Js.Utf8.{unit_share}
use teslatlas_sdk_typescript.Core.Errors.{
  Result, ok, err, ◌>>=◌, sse_limit, bind_assoc, bind_congr, AllOk, AllOk-if, AllOk-bind, AllOk-ok,
}
use teslatlas_sdk_typescript.Events.SseParser.{
  SseStreamItem, event, retry, checkpoint, Parser, max_event_data_bytes, max_line_bytes,
  segments_text, drop_last, event_name, split_field, value_bytes, is_delimiter,
}
use teslatlas_sdk_typescript.Events.SseParser.Buffers.{block_data}

pub record Machine : Type 0 where
  pub items : List SseStreamItem
  pub data_text : Text
  pub line : Text
  pub line_bytes : ℕ
  pub event_data_bytes : ℕ
  pub skip_line_feed : Bool
  pub at_start : Bool
  pub event_type : Text
  pub last_event_id : Text
  pub block_id_changed : Bool

-- The machine's state that a parser stands for.
unfoldable pub view : Parser → Machine
unfolding segments_text block_data
view p = record {
  items = p.items;
  data_text = block_data p;
  line = segments_text p.line_segments;
  line_bytes = p.line_bytes;
  event_data_bytes = p.event_data_bytes;
  skip_line_feed = p.skip_line_feed;
  at_start = p.at_start;
  event_type = p.event_type;
  last_event_id = p.last_event_id;
  block_id_changed = p.block_id_changed;
}

unfoldable pub block : Machine → List SseStreamItem
block m =
    if ltb 0 m.event_data_bytes
    then event (record {
      event = event_name m.event_type;
      data_text = drop_last m.data_text;
      last_event_id = m.last_event_id;
    })
      ∷ []
    else if m.block_id_changed
    then checkpoint m.last_event_id ∷ []
    else []

unfoldable pub dispatch : Machine → Machine
unfolding block
dispatch m = record m {
  items = m.items ++ block m;
  data_text = [];
  event_data_bytes = 0;
  event_type = [];
  block_id_changed = false;
}

unfoldable pub take_data : Text → Machine → Result Machine
take_data value m =
    let bytes = m.event_data_bytes + value_bytes value in
    if ltb max_event_data_bytes bytes
    then err (sse_limit "Sse.eventSize")
    else ok
        (record m { data_text = m.data_text ++ (value ++ b'\n' ∷ []); event_data_bytes = bytes })

unfoldable pub take_retry : Text → Machine → Machine
take_retry value m =
    let milliseconds = decimal_from 0 value in
    if is_digits value && leb milliseconds max_safe_integer
    then record m { items = m.items ++ retry milliseconds ∷ [] }
    else m

unfoldable pub take_field : Text → Text → Machine → Result Machine
take_field field value m =
    if text_eq field (codes "data")
    then take_data value m
    else if text_eq field (codes "event")
    then ok (record m { event_type = value })
    else if text_eq field (codes "id")
    then (if has_unit value 0
        then ok m
        else ok (record m { last_event_id = value; block_id_changed = true }))
    else if text_eq field (codes "retry")
    then ok (take_retry value m)
    else ok m

unfoldable pub take_line : Text → Machine → Result Machine
take_line [] m = ok (dispatch m)
take_line (c ∷ s) m =
    if c == b':' then ok m else let (field, value) = split_field (c ∷ s) in take_field field value m

-- One more unit of the line, within the byte budget.
unfoldable pub extend : ℕ → Machine → Result Machine
extend c m =
    if ltb max_line_bytes (m.line_bytes + unit_share c)
    then err (sse_limit "Sse.lineSize")
    else ok (record m { line = m.line ++ c ∷ []; line_bytes = m.line_bytes + unit_share c })

unfoldable pub finish : ℕ → Machine → Result Machine
finish delimiter m = do
  n ← take_line m.line m
  ok (record n { line = []; line_bytes = 0; skip_line_feed = delimiter == b'\r' })

unfoldable pub step : Machine → ℕ → Result Machine
step m c =
    let ready = record m { skip_line_feed = false } in
    if m.skip_line_feed && c == b'\n'
    then ok ready
    else if is_delimiter c
    then finish c ready
    else extend c ready

unfoldable pub run : Machine → Text → Result Machine
run m [] = ok m
run m (c ∷ s) = step m c >>= λ n. run n s

pub run-append : (m : Machine) (s t : Text) → run m (s ++ t) ≡ (run m s >>= λ n. run n t)
unfolding run
run-append m [] t = refl
run-append m (c ∷ s) t =
    bind_congr (step m c) (λ n. run-append n s t) ∙ sym (bind_assoc (step m c) _ _)

-- A field that no unit changes.
abbrev KeepsStart : Machine → Machine → Type 0
KeepsStart m n = n.at_start ≡ m.at_start

take_field-at_start :
    (field value : Text) (m : Machine) → AllOk (KeepsStart m) (take_field field value m)
unfolding take_field take_data take_retry
take_field-at_start field value m =
    AllOk-if (KeepsStart m) (text_eq field (codes "data")) _ _
      (λ _.
        AllOk-if (KeepsStart m) (ltb max_event_data_bytes (m.event_data_bytes + _)) _ _ (λ _. tt)
          (λ _. refl))
      λ _.
        AllOk-if (KeepsStart m) (text_eq field (codes "event")) _ _ (λ _. refl)
          λ _.
            AllOk-if (KeepsStart m) (text_eq field (codes "id")) _ _
              (λ _. AllOk-if (KeepsStart m) (has_unit value 0) _ _ (λ _. refl) (λ _. refl))
              λ _.
                AllOk-if (KeepsStart m) (text_eq field (codes "retry")) _ _ (λ _. ground arith)
                  (λ _. refl)

take_line-at_start : (line : Text) (m : Machine) → AllOk (KeepsStart m) (take_line line m)
unfolding take_line
take_line-at_start [] m = unfold dispatch in refl
take_line-at_start (c ∷ s) m =
    AllOk-if (KeepsStart m) (c == b':') _ _ (λ _. refl)
      (λ _. take_field-at_start (split_field (c ∷ s)).0 (split_field (c ∷ s)).1 m)

step-at_start : (m : Machine) (c : ℕ) → AllOk (KeepsStart m) (step m c)
unfolding step finish extend
step-at_start m c =
    let ready = record m { skip_line_feed = false } in
    AllOk-if (KeepsStart m) (m.skip_line_feed && c == b'\n') _ _ (λ _. refl)
      λ _.
        AllOk-if (KeepsStart m) (is_delimiter c) _ _
          (λ _.
            AllOk-bind (KeepsStart m) (take_line m.line ready) _
              λ n e. AllOk-ok (KeepsStart m) _ (take_line-at_start m.line ready) e)
          λ _.
            AllOk-if (KeepsStart m) (ltb max_line_bytes (m.line_bytes + unit_share c)) _ _ (λ _. tt)
              (λ _. refl)

pub run-at_start : (m : Machine) (s : Text) → AllOk (KeepsStart m) (run m s)
unfolding run
run-at_start m [] = refl
run-at_start m (c ∷ s) = AllOk-bind (KeepsStart m) (step m c) _ λ n e.
    let same : n.at_start ≡ m.at_start = AllOk-ok (KeepsStart m) _ (step-at_start m c) e in
    subst (λ b. AllOk (λ (k : Machine). k.at_start ≡ b) (run n s)) same (run-at_start n s)

-- ===== src/Events/SseParser/Keeps.antt =====
-- Every operation of the parser keeps its invariant: the pending segments are not full, and the bytes
-- counted for the line and for the data stay within the budgets.
use teslatlas_sdk_typescript.Prelude.{
  ℕ, zero, suc, ◌+◌, false, ◌&&◌, inl, inr, Option, none, some, [], ◌∷◌, arith, ◌==◌, ltb,
  Bool-cases, not_ltb→le,
}
use teslatlas_sdk_typescript.Js.Text.{Text, codes, text_eq, has_unit}
use teslatlas_sdk_typescript.Core.Errors.{Result, AllOk, AllOk-if, AllOk-bind, AllOk-ok}
use teslatlas_sdk_typescript.Events.SseParser.{
  Parser, max_line_bytes, max_event_data_bytes, value_bytes, new_parser, segments_text,
  flush_empty_data, dispatch_block, add_data, on_data, on_retry, handle_field, handle_line,
  split_field, next_line, add_fragment, end_line, feed_line, feed_loop, strip_mark, feed,
}
use teslatlas_sdk_typescript.Events.SseParser.Buffers.{
  append_segments-IsBuffer, flush_empty_data-IsBuffer,
}
use teslatlas_sdk_typescript.Events.SseParser.Refines.{IsParser}

add_data-IsParser : (value : Text) (p : Parser) → IsParser p → IsParser (add_data value p)
unfolding add_data
add_data-IsParser [] p h = ground arith
add_data-IsParser (c ∷ s) p h = record {
  line_buffer = unfold flush_empty_data in h.line_buffer;
  data_buffer =
      append_segments-IsBuffer (flush_empty_data p).data_segments _
        (flush_empty_data-IsBuffer p h.data_buffer);
  line_bound = unfold flush_empty_data in h.line_bound;
  data_bound = unfold flush_empty_data in h.data_bound;
}

on_data-IsParser : (value : Text) (p : Parser) → IsParser p → AllOk IsParser (on_data value p)
unfolding on_data
on_data-IsParser value p h =
    let bytes = p.event_data_bytes + value_bytes value in
    AllOk-if IsParser (ltb max_event_data_bytes bytes) _ _ (λ _. tt)
      λ fits.
        add_data-IsParser value (record p { event_data_bytes = bytes })
          (record {
            line_buffer = h.line_buffer;
            data_buffer = h.data_buffer;
            line_bound = h.line_bound;
            data_bound = not_ltb→le max_event_data_bytes bytes fits;
          })

on_retry-IsParser : (value : Text) (p : Parser) → IsParser p → IsParser (on_retry value p)
unfolding on_retry
on_retry-IsParser value p h = ground arith

handle_field-IsParser :
    (field value : Text) (p : Parser) → IsParser p → AllOk IsParser (handle_field field value p)
unfolding handle_field
handle_field-IsParser field value p h =
    AllOk-if IsParser (text_eq field (codes "data")) _ _ (λ _. on_data-IsParser value p h)
      λ _.
        AllOk-if IsParser (text_eq field (codes "event")) _ _ (λ _. omega arith)
          λ _.
            AllOk-if IsParser (text_eq field (codes "id")) _ _
              (λ _. AllOk-if IsParser (has_unit value 0) _ _ (λ _. h) (λ _. omega arith))
              λ _.
                AllOk-if IsParser (text_eq field (codes "retry")) _ _
                  (λ _. on_retry-IsParser value p h) (λ _. h)

handle_line-IsParser : (line : Text) (p : Parser) → IsParser p → AllOk IsParser (handle_line line p)
unfolding handle_line
handle_line-IsParser [] p h = unfold dispatch_block in omega arith
handle_line-IsParser (c ∷ s) p h =
    AllOk-if IsParser (c == b':') _ _ (λ _. h)
      (λ _. handle_field-IsParser (split_field (c ∷ s)).0 (split_field (c ∷ s)).1 p h)

pub add_fragment-IsParser :
    (fragment : Text) (p : Parser) → IsParser p → AllOk IsParser (add_fragment fragment p)
unfolding add_fragment
add_fragment-IsParser fragment p h =
    AllOk-if IsParser (ltb max_line_bytes (p.line_bytes + _)) _ _ (λ _. tt)
      λ fits. record {
        line_buffer = append_segments-IsBuffer p.line_segments fragment h.line_buffer;
        data_buffer = h.data_buffer;
        line_bound = not_ltb→le max_line_bytes _ fits;
        data_bound = h.data_bound;
      }

pub end_line-IsParser :
    (delimiter : ℕ) (p : Parser) → IsParser p → AllOk IsParser (end_line delimiter p)
unfolding end_line
end_line-IsParser delimiter p h =
    AllOk-bind IsParser (handle_line (segments_text p.line_segments) p) _
      λ q e. let k : IsParser q = AllOk-ok IsParser _ (handle_line-IsParser _ p h) e in omega arith

feed_line-IsParser :
    (next : Parser → Text → Result Parser) (found : Text × Option (ℕ × Text)) (p : Parser)
    → ((q : Parser) (rest : Text) → IsParser q → AllOk IsParser (next q rest))
    → IsParser p
    → AllOk IsParser (feed_line next found p)
unfolding feed_line
feed_line-IsParser next (fragment, none) p later h = add_fragment-IsParser fragment p h
feed_line-IsParser next (fragment, some (delimiter, rest)) p later h =
    AllOk-bind IsParser (add_fragment fragment p) _ λ q e.
      let kq : IsParser q = AllOk-ok IsParser _ (add_fragment-IsParser fragment p h) e in
      AllOk-bind IsParser (end_line delimiter q) _
        λ r f. later r rest (AllOk-ok IsParser _ (end_line-IsParser delimiter q kq) f)

feed_loop-IsParser :
    (fuel : ℕ) (p : Parser) (text : Text) → IsParser p → AllOk IsParser (feed_loop fuel p text)
unfolding feed_loop
feed_loop-IsParser zero p text h = h
feed_loop-IsParser (suc fuel) p [] h = h
feed_loop-IsParser (suc fuel) p (c ∷ s) h =
    let q = record p { skip_line_feed = false } in
    let hq : IsParser q = omega arith in
    elim (Bool-cases (p.skip_line_feed && c == b'\n')) [
      | inl skip ↦ rw (skip, feed_loop) (feed_loop-IsParser fuel q s hq)
      | inr line ↦
          rw (line, feed_loop)
            (feed_line-IsParser (feed_loop fuel) (next_line (c ∷ s)) q (feed_loop-IsParser fuel) hq)
    ]

-- Feeding a text keeps the invariant, whatever the text, unless it throws.
pub feed-IsParser : (decoded : Text) (p : Parser) → IsParser p → AllOk IsParser (feed decoded p)
unfolding feed
feed-IsParser decoded p h = feed_loop-IsParser _ _ (strip_mark p decoded) (omega arith)

pub new_parser-IsParser : (initial : Text) → IsParser (new_parser initial)
new_parser-IsParser initial = omega arith

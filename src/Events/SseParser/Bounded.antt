-- ===== src/Events/SseParser/Bounded.antt =====
-- What `IncrementalSseParser` holds is bounded: the pending line and the data of the block have no more
-- units than bytes were counted for them, and the counts stay within the budgets.
use teslatlas_sdk_typescript.Prelude.{
  ℕ, Bool, zero, suc, ◌+◌, ◌≤◌, ◌≡◌, refl, true, false, ◌&&◌, inl, inr, Option, none, some, [], ◌∷◌,
  arith, ◌==◌, ltb, leb, Bool-cases, length, length-append, if◌then◌else◌,
}
use teslatlas_sdk_typescript.Js.Text.{
  Text, codes, text_eq, has_unit, is_digits, decimal_from, max_safe_integer, concat,
}
use teslatlas_sdk_typescript.Js.Utf8.{utf8_length, is_high_surrogate, is_low_surrogate}
use teslatlas_sdk_typescript.Core.Errors.{
  Result, ok, err, AllOk, AllOk-if, AllOk-bind, AllOk-ok, is_empty,
}
use teslatlas_sdk_typescript.Events.SseParser.{
  Parser, max_line_bytes, max_event_data_bytes, value_bytes, new_parser, segments_text,
  flush_empty_data, dispatch_block, add_data, on_data, on_retry, handle_field, handle_line,
  split_field, next_line, add_fragment, end_line, feed_line, feed_loop, strip_mark, feed,
}
use teslatlas_sdk_typescript.Events.SseParser.Buffers.{block_data, segments_text-append_segments}
use teslatlas_sdk_typescript.Events.SseParser.Refines.{IsParser, block_data-add_data}
use teslatlas_sdk_typescript.Events.SseParser.Keeps.{
  add_fragment-IsParser, end_line-IsParser, new_parser-IsParser,
}

-- The units of the line and of the data, with the line feeds that are still owed, are counted.
pub record IsSized (p : Parser) : Type 0 where
  pub line_size : length (segments_text p.line_segments) ≤ p.line_bytes
  pub data_size : length (block_data p) ≤ p.event_data_bytes

-- A unit takes a byte at least, and a pair of surrogates four.
length-utf8_length : (s : Text) → length s ≤ utf8_length s
unfolding utf8_length
length-utf8_length [] = omega arith
length-utf8_length (c ∷ []) = ground arith
length-utf8_length (c ∷ d ∷ s) = elim (Bool-cases (is_high_surrogate c && is_low_surrogate d)) [
  | inl e ↦ rw (e, utf8_length) (omega (arith, length-utf8_length s))
  | inr e ↦ rw (e, utf8_length) (ground (arith, length-utf8_length (d ∷ s)))
]

counted : (s : Text) → length s ≤ (if is_empty s then 0 else utf8_length s)
counted [] = omega arith
counted (c ∷ s) = length-utf8_length (c ∷ s)

add_data_line :
    (value : Text) (p : Parser)
    → length (segments_text p.line_segments) ≤ p.line_bytes
    → length (segments_text (add_data value p).line_segments) ≤ (add_data value p).line_bytes
unfolding add_data
add_data_line [] p h = h
add_data_line (c ∷ s) p h = unfold flush_empty_data in h

add_data_bytes :
    (value : Text) (p : Parser) → (add_data value p).event_data_bytes ≡ p.event_data_bytes
unfolding add_data
add_data_bytes [] p = refl
add_data_bytes (c ∷ s) p = unfold flush_empty_data in refl

on_data-IsSized :
    (value : Text) (p : Parser) → IsParser p → IsSized p → AllOk IsSized (on_data value p)
unfolding on_data
on_data-IsSized value p h k =
    let bytes = p.event_data_bytes + value_bytes value in
    let q = record p { event_data_bytes = bytes } in
    AllOk-if IsSized (ltb max_event_data_bytes bytes) _ _ (λ _. tt)
      λ fits. record {
        line_size = add_data_line value q k.line_size;
        data_size =
            let same : block_data q ≡ block_data p = unfold block_data in refl in
            rw
              (
                block_data-add_data value q h.data_buffer,
                add_data_bytes value q,
                same,
                length-append,
              )
              (rw length-append (omega (arith, counted value, k.data_size)));
      }

on_retry-IsSized : (value : Text) (p : Parser) → IsSized p → IsSized (on_retry value p)
unfolding on_retry
on_retry-IsSized value p k =
    elim (Bool-cases (is_digits value && leb (decimal_from 0 value) max_safe_integer)) [
      | inl e ↦
          rw e record { line_size = k.line_size; data_size = unfold block_data in k.data_size }
      | inr e ↦ rw e k
    ]

handle_field-IsSized :
    (field value : Text) (p : Parser)
    → IsParser p
    → IsSized p
    → AllOk IsSized (handle_field field value p)
unfolding handle_field
handle_field-IsSized field value p h k =
    AllOk-if IsSized (text_eq field (codes "data")) _ _ (λ _. on_data-IsSized value p h k)
      λ _.
        AllOk-if IsSized (text_eq field (codes "event")) _ _ (λ _. renamed)
          λ _.
            AllOk-if IsSized (text_eq field (codes "id")) _ _
              (λ _. AllOk-if IsSized (has_unit value 0) _ _ (λ _. k) (λ _. identified))
              λ _.
                AllOk-if IsSized (text_eq field (codes "retry")) _ _
                  (λ _. on_retry-IsSized value p k) (λ _. k)
  where
    renamed : IsSized (record p { event_type = value })
    renamed = record { line_size = k.line_size; data_size = unfold block_data in k.data_size }

    identified : IsSized (record p { last_event_id = value; block_id_changed = true })
    identified = record { line_size = k.line_size; data_size = unfold block_data in k.data_size }

handle_line-IsSized :
    (line : Text) (p : Parser) → IsParser p → IsSized p → AllOk IsSized (handle_line line p)
unfolding handle_line segments_text concat
handle_line-IsSized [] p h k =
    unfold dispatch_block in
    record { line_size = k.line_size; data_size = unfold block_data in omega arith }
handle_line-IsSized (c ∷ s) p h k =
    AllOk-if IsSized (c == b':') _ _ (λ _. k)
      (λ _. handle_field-IsSized (split_field (c ∷ s)).0 (split_field (c ∷ s)).1 p h k)

add_fragment-IsSized :
    (fragment : Text) (p : Parser)
    → IsParser p
    → IsSized p
    → AllOk IsSized (add_fragment fragment p)
unfolding add_fragment
add_fragment-IsSized fragment p h k =
    AllOk-if IsSized (ltb max_line_bytes (p.line_bytes + _)) _ _ (λ _. tt)
      λ fits. record {
        line_size =
            rw (segments_text-append_segments p.line_segments fragment h.line_buffer, length-append)
              (omega (arith, counted fragment, k.line_size));
        data_size = unfold block_data in k.data_size;
      }

end_line-IsSized :
    (delimiter : ℕ) (p : Parser) → IsParser p → IsSized p → AllOk IsSized (end_line delimiter p)
unfolding end_line concat
end_line-IsSized delimiter p h k =
    AllOk-bind IsSized (handle_line (segments_text p.line_segments) p) _ λ q e.
      let kq : IsSized q = AllOk-ok IsSized _ (handle_line-IsSized _ p h k) e in
      record {
        line_size = unfold segments_text in omega arith;
        data_size = unfold block_data in kq.data_size;
      }

-- The invariant of `IsParser`, and counters that count what is held.
pub record IsBounded (p : Parser) : Type 0 where
  pub parser : IsParser p
  pub sized : IsSized p

AllOk-both : (r : Result Parser) → AllOk IsParser r → AllOk IsSized r → AllOk IsBounded r
AllOk-both (ok p) h k = record { parser = h; sized = k }
AllOk-both (err e) h k = tt

add_fragment-IsBounded :
    (fragment : Text) (p : Parser) → IsBounded p → AllOk IsBounded (add_fragment fragment p)
add_fragment-IsBounded fragment p h =
    AllOk-both (add_fragment fragment p) (add_fragment-IsParser fragment p h.parser)
      (add_fragment-IsSized fragment p h.parser h.sized)

end_line-IsBounded :
    (delimiter : ℕ) (p : Parser) → IsBounded p → AllOk IsBounded (end_line delimiter p)
end_line-IsBounded delimiter p h =
    AllOk-both (end_line delimiter p) (end_line-IsParser delimiter p h.parser)
      (end_line-IsSized delimiter p h.parser h.sized)

feed_line-IsBounded :
    (next : Parser → Text → Result Parser) (found : Text × Option (ℕ × Text)) (p : Parser)
    → ((q : Parser) (rest : Text) → IsBounded q → AllOk IsBounded (next q rest))
    → IsBounded p
    → AllOk IsBounded (feed_line next found p)
unfolding feed_line
feed_line-IsBounded next (fragment, none) p later h = add_fragment-IsBounded fragment p h
feed_line-IsBounded next (fragment, some (delimiter, rest)) p later h =
    AllOk-bind IsBounded (add_fragment fragment p) _ λ q e.
      let kq : IsBounded q = AllOk-ok IsBounded _ (add_fragment-IsBounded fragment p h) e in
      AllOk-bind IsBounded (end_line delimiter q) _
        λ r f. later r rest (AllOk-ok IsBounded _ (end_line-IsBounded delimiter q kq) f)

flagged-IsBounded :
    (p : Parser) (skip start : Bool)
    → IsBounded p
    → IsBounded (record p { skip_line_feed = skip; at_start = start })
flagged-IsBounded p skip start h = record {
  parser = record {
    line_buffer = h.parser.line_buffer;
    data_buffer = h.parser.data_buffer;
    line_bound = h.parser.line_bound;
    data_bound = h.parser.data_bound;
  };
  sized = record {
    line_size = h.sized.line_size;
    data_size = unfold block_data in h.sized.data_size;
  };
}

feed_loop-IsBounded :
    (fuel : ℕ) (p : Parser) (text : Text) → IsBounded p → AllOk IsBounded (feed_loop fuel p text)
unfolding feed_loop
feed_loop-IsBounded zero p text h = h
feed_loop-IsBounded (suc fuel) p [] h = h
feed_loop-IsBounded (suc fuel) p (c ∷ s) h =
    let q = record p { skip_line_feed = false } in
    let hq : IsBounded q = flagged-IsBounded p false p.at_start h in
    elim (Bool-cases (p.skip_line_feed && c == b'\n')) [
      | inl skip ↦ rw (skip, feed_loop) (feed_loop-IsBounded fuel q s hq)
      | inr line ↦
          rw (line, feed_loop)
            (feed_line-IsBounded (feed_loop fuel) (next_line (c ∷ s)) q (feed_loop-IsBounded fuel)
              hq)
    ]

-- Feeding any text, unless it throws, keeps the bounds on what is held: the segments are not full, the
-- pending line and the data of the block have no more units than bytes were counted for them, and
-- these counts are within the two budgets.
pub feed-IsBounded : (decoded : Text) (p : Parser) → IsBounded p → AllOk IsBounded (feed decoded p)
unfolding feed
feed-IsBounded decoded p h =
    feed_loop-IsBounded _ _ (strip_mark p decoded)
      (flagged-IsBounded p p.skip_line_feed (p.at_start && is_empty decoded) h)

pub new_parser-IsBounded : (initial : Text) → IsBounded (new_parser initial)
unfolding concat segments_text block_data
new_parser-IsBounded initial = record {
  parser = new_parser-IsParser initial;
  sized = record { line_size = omega arith; data_size = omega arith };
}

-- ===== src/Events/SseParser/Refines.antt =====
-- The parser refines the machine.
use teslatlas_sdk_typescript.Prelude.{
  ◌+◌, ◌≤◌, ◌≡◌, refl, sym, ap, ◌∙◌, false, inl, inr, [], ◌∷◌, ◌++◌, arith, append_assoc,
  append-nil, ◌==◌, ltb, Bool-cases, replicate-suc,
}
use teslatlas_sdk_typescript.Js.Text.{Text, codes, text_eq, has_unit, concat}
use teslatlas_sdk_typescript.Core.Errors.{ok, map_ok}
use teslatlas_sdk_typescript.Events.SseParser.{
  Parser, max_event_data_bytes, max_line_bytes, segments_text, flush_empty_data, block_items,
  dispatch_block, add_data, on_data, on_retry, handle_field, handle_line, split_field, value_bytes,
}
use teslatlas_sdk_typescript.Events.SseParser.Buffers.{
  IsBuffer, block_data, segments_text-append_segments, flush_empty_data-IsBuffer,
  segments_text-flush_empty_data,
}
use teslatlas_sdk_typescript.Events.SseParser.Machine.{
  Machine, view, block, dispatch, take_data, take_retry, take_field, take_line,
}

-- What holds of the parser between two calls.
pub record IsParser (p : Parser) : Type 0 where
  pub line_buffer : IsBuffer p.line_segments
  pub data_buffer : IsBuffer p.data_segments
  pub line_bound : p.line_bytes ≤ max_line_bytes
  pub data_bound : p.event_data_bytes ≤ max_event_data_bytes

block_items-view : (p : Parser) → IsBuffer p.data_segments → block_items p ≡ block (view p)
unfolding block_items block view
block_items-view p h = rw (segments_text-flush_empty_data p h)

view-dispatch_block :
    (p : Parser) → IsBuffer p.data_segments → view (dispatch_block p) ≡ dispatch (view p)
unfolding view dispatch_block dispatch concat
view-dispatch_block p h = λ i. record {
  items = p.items ++ block_items-view p h i;
  data_text = [];
  line = segments_text p.line_segments;
  line_bytes = p.line_bytes;
  event_data_bytes = 0;
  skip_line_feed = p.skip_line_feed;
  at_start = p.at_start;
  event_type = [];
  last_event_id = p.last_event_id;
  block_id_changed = false;
}

view-on_retry : (value : Text) (p : Parser) → view (on_retry value p) ≡ take_retry value (view p)
unfolding view on_retry take_retry
view-on_retry value p = ground arith

pub block_data-add_data :
    (value : Text) (p : Parser)
    → IsBuffer p.data_segments
    → block_data (add_data value p) ≡ block_data p ++ (value ++ b'\n' ∷ [])
unfolding add_data flush_empty_data
block_data-add_data [] p h =
    unfold block_data in rw replicate-suc (sym (append_assoc (segments_text p.data_segments) _ _))
block_data-add_data (c ∷ s) p h =
    unfold block_data in
    append-nil _
    ∙ segments_text-append_segments _ _ (flush_empty_data-IsBuffer p h)
    ∙ ap (λ (t : Text). t ++ ((c ∷ s) ++ b'\n' ∷ [])) (segments_text-flush_empty_data p h)

view-add_data :
    (value : Text) (p : Parser)
    → IsBuffer p.data_segments
    → view (add_data value p)
      ≡ record (view p) { data_text = (view p).data_text ++ (value ++ b'\n' ∷ []) }
unfolding view add_data flush_empty_data
view-add_data [] p h =
    ap (λ (d : Text). record (view p) { data_text = d }) (block_data-add_data [] p h)
view-add_data (c ∷ s) p h =
    ap (λ (d : Text). record (view p) { data_text = d }) (block_data-add_data (c ∷ s) p h)

view-on_data :
    (value : Text) (p : Parser)
    → IsBuffer p.data_segments
    → map_ok view (on_data value p) ≡ take_data value (view p)
unfolding on_data take_data
view-on_data value p h =
    elim (Bool-cases (ltb max_event_data_bytes (p.event_data_bytes + value_bytes value))) [
      | inl over ↦ unfold view in rw over
      | inr fits ↦
          let bytes = p.event_data_bytes + value_bytes value in
          unfold view in
          rw fits (
            ap (λ (m : Machine). ok m)
              (view-add_data value (record p { event_data_bytes = bytes }) h))
    ]

view-handle_field :
    (field value : Text) (p : Parser)
    → IsBuffer p.data_segments
    → map_ok view (handle_field field value p) ≡ take_field field value (view p)
unfolding handle_field take_field
view-handle_field field value p h = elim (Bool-cases (text_eq field (codes "data"))) [
  | inl e ↦ rw e (view-on_data value p h)
  | inr not_data ↦ elim (Bool-cases (text_eq field (codes "event"))) [
    | inl e ↦ unfold view in rw (not_data, e) refl
    | inr not_event ↦ elim (Bool-cases (text_eq field (codes "id"))) [
      | inl e ↦ elim (Bool-cases (has_unit value 0)) [
        | inl z ↦ unfold view in rw (not_data, not_event, e, z) refl
        | inr z ↦ unfold view in rw (not_data, not_event, e, z) refl
      ]
      | inr not_id ↦ elim (Bool-cases (text_eq field (codes "retry"))) [
        | inl e ↦
            rw (not_data, not_event, not_id, e) (ap (λ (m : Machine). ok m) (view-on_retry value p))
        | inr other ↦ rw (not_data, not_event, not_id, other) refl
      ]
    ]
  ]
]

pub view-handle_line :
    (line : Text) (p : Parser)
    → IsBuffer p.data_segments
    → map_ok view (handle_line line p) ≡ take_line line (view p)
unfolding handle_line take_line
view-handle_line [] p h = ap (λ (m : Machine). ok m) (view-dispatch_block p h)
view-handle_line (c ∷ s) p h = elim (Bool-cases (c == b':')) [
  | inl e ↦ rw e refl
  | inr e ↦ rw e (view-handle_field (split_field (c ∷ s)).0 (split_field (c ∷ s)).1 p h)
]

-- ===== src/Events/SseParser/Buffers.antt =====
-- The fragment buffers: `append_segments` appends, whatever the sizes, and keeps the pending
-- segment shorter than a full one.
use teslatlas_sdk_typescript.Prelude.{
  ℕ, zero, suc, ◌-◌, ◌≤◌, ◌<◌, ◌≡◌, refl, sym, ap, ◌∙◌, inl, inr, List, [], ◌∷◌, ◌++◌, arith,
  append_assoc, append-nil, ◌==◌, ltb, length, take, drop, min, replicate, Bool-cases,
  length-append, length-take, length-drop, take-append-drop,
}
use teslatlas_sdk_typescript.Js.Text.{Text, concat}
use teslatlas_sdk_typescript.Events.SseParser.{
  Segments, Parser, segment_size, close_full, append_from, append_segments, segments_text,
  flush_empty_data,
}

-- The pending segment is not full.
abbrev pub IsBuffer : Segments → Type 0
IsBuffer s = length s.pending < segment_size

concat-append_one : (xs : List Text) (t : Text) → concat (xs ++ t ∷ []) ≡ concat xs ++ t
unfolding concat
concat-append_one [] t = append-nil t
concat-append_one (x ∷ xs) t = rw (concat-append_one xs t) (sym (append_assoc x (concat xs) t))

segments_text-close_full :
    (fragments : List Text) (pending : Text)
    → segments_text (close_full fragments pending) ≡ concat fragments ++ pending
unfolding segments_text close_full
segments_text-close_full fragments pending = elim (Bool-cases (length pending == segment_size)) [
  | inl full ↦ rw full (append-nil _ ∙ concat-append_one fragments pending)
  | inr room ↦ rw room
]

close_full-IsBuffer :
    (fragments : List Text) (pending : Text)
    → length pending ≤ segment_size
    → IsBuffer (close_full fragments pending)
unfolding close_full
close_full-IsBuffer fragments pending h = ground arith

length-grown :
    (pending value : Text)
    → length pending < segment_size
    → length (pending ++ take (min (segment_size - length pending) (length value)) value)
      ≤ segment_size
length-grown pending value h = omega (
  arith,
  length-append pending (take (min (segment_size - length pending) (length value)) value),
  length-take (min (segment_size - length pending) (length value)) value,
)

append_from-IsBuffer :
    (fuel : ℕ) (s : Segments) (value : Text) → IsBuffer s → IsBuffer (append_from fuel s value)
unfolding append_from
append_from-IsBuffer zero s value h = h
append_from-IsBuffer (suc fuel) s [] h = h
append_from-IsBuffer (suc fuel) s (c ∷ rest) h =
    let taken = min (segment_size - length s.pending) (length (c ∷ rest)) in
    append_from-IsBuffer fuel (close_full s.fragments (s.pending ++ take taken (c ∷ rest)))
      (drop taken (c ∷ rest))
      (close_full-IsBuffer s.fragments _ (length-grown s.pending (c ∷ rest) h))

segments_text-append_from :
    (fuel : ℕ) (s : Segments) (value : Text)
    → IsBuffer s
    → length value ≤ fuel
    → segments_text (append_from fuel s value) ≡ segments_text s ++ value
unfolding append_from
segments_text-append_from zero s [] h f = sym (append-nil _)
segments_text-append_from zero s (c ∷ rest) h f = absurd (omega arith)
segments_text-append_from (suc fuel) s [] h f = sym (append-nil _)
segments_text-append_from (suc fuel) s (c ∷ rest) h f =
    let taken = min (segment_size - length s.pending) (length (c ∷ rest)) in
    let grown = s.pending ++ take taken (c ∷ rest) in
    segments_text-append_from fuel (close_full s.fragments grown) (drop taken (c ∷ rest))
      (close_full-IsBuffer s.fragments grown (length-grown s.pending (c ∷ rest) h))
      (omega (arith, length-drop taken (c ∷ rest)))
    ∙ (rw segments_text-close_full
        (unfold segments_text in simp append_assoc (rw take-append-drop refl)))

pub append_segments-IsBuffer :
    (s : Segments) (value : Text) → IsBuffer s → IsBuffer (append_segments s value)
unfolding append_segments
append_segments-IsBuffer s value = append_from-IsBuffer (length value) s value

-- Appending to a buffer appends to its text: the segmentation loses and moves nothing.
pub segments_text-append_segments :
    (s : Segments) (value : Text)
    → IsBuffer s
    → segments_text (append_segments s value) ≡ segments_text s ++ value
unfolding append_segments
segments_text-append_segments s value h =
    segments_text-append_from (length value) s value h (omega arith)

-- The data of the block, with the empty lines that are only counted.
unfoldable pub block_data : Parser → Text
block_data p = segments_text p.data_segments ++ replicate p.empty_data_lines b'\n'

pub flush_empty_data-IsBuffer :
    (p : Parser) → IsBuffer p.data_segments → IsBuffer (flush_empty_data p).data_segments
unfolding flush_empty_data
flush_empty_data-IsBuffer p h =
    ground (arith, append_segments-IsBuffer p.data_segments (replicate p.empty_data_lines b'\n') h)

pub segments_text-flush_empty_data :
    (p : Parser)
    → IsBuffer p.data_segments
    → segments_text (flush_empty_data p).data_segments ≡ block_data p
unfolding flush_empty_data block_data
segments_text-flush_empty_data p h = elim (Bool-cases (ltb 0 p.empty_data_lines)) [
  | inl some_lines ↦ rw some_lines (segments_text-append_segments p.data_segments _ h)
  | inr no_lines ↦
      let e : p.empty_data_lines ≡ 0 = ground arith in
      rw no_lines
        (sym (ap (λ n. segments_text p.data_segments ++ replicate n b'\n') e ∙ append-nil _))
]

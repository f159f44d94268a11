-- ===== src/Events/SseParser/Chunks.antt =====
-- `feed` refines the machine, so that the way in which the stream is cut into texts does not matter.
use teslatlas_sdk_typescript.Prelude.{
  ℕ, zero, suc, ◌+◌, ◌≤◌, ◌≡◌, refl, sym, ap, ◌∙◌, Bool, true, false, ◌&&◌, inl, inr, Option, none,
  some, [], ◌∷◌, ◌++◌, arith, ◌==◌, ltb, if◌then◌else◌, length, Bool-cases,
}
use teslatlas_sdk_typescript.Js.Text.{Text, concat}
use teslatlas_sdk_typescript.Js.Utf8.{
  utf8_length, is_well_formed, is_well_formed-tail, is_well_formed-append, shares,
  utf8_length-eq-shares,
}
use teslatlas_sdk_typescript.Core.Errors.{
  Result, ok, ◌>>=◌, map_ok, is_empty, map_ok-bind, AllOk-ok,
}
use teslatlas_sdk_typescript.Events.SseParser.{
  Parser, max_line_bytes, segments_text, handle_line, next_line, add_fragment, end_line, feed_line,
  feed_loop, strip_mark, feed,
}
use teslatlas_sdk_typescript.Events.SseParser.Buffers.{segments_text-append_segments}
use teslatlas_sdk_typescript.Events.SseParser.Machine.{
  Machine, view, finish, step, run, run-append, run-at_start,
}
use teslatlas_sdk_typescript.Events.SseParser.Refines.{IsParser, view-handle_line}
use teslatlas_sdk_typescript.Events.SseParser.Keeps.{
  add_fragment-IsParser, end_line-IsParser, feed-IsParser,
}
use teslatlas_sdk_typescript.Events.SseParser.Lines.{
  SplitIsWellFormed, next_line-IsWellFormed, SplitIsShorter, SplitIsShorter-le, next_line-IsShorter,
  extend_all, run_split, run-split,
}

fragment_bytes :
    (s : Text) → is_well_formed s ≡ true → (if is_empty s then 0 else utf8_length s) ≡ shares s
fragment_bytes [] h = unfold shares in refl
fragment_bytes (c ∷ s) h = utf8_length-eq-shares (c ∷ s) h

view-add_fragment :
    (fragment : Text) (p : Parser)
    → IsParser p
    → is_well_formed fragment ≡ true
    → map_ok view (add_fragment fragment p) ≡ extend_all fragment (view p)
unfolding add_fragment extend_all view
view-add_fragment fragment p h w =
    rw (fragment_bytes fragment w)
      (elim (Bool-cases (ltb max_line_bytes (p.line_bytes + shares fragment))) [
        | inl over ↦ rw over refl
        | inr fits ↦ rw fits (
            ap
              (λ (t : Text).
                ok (record (view p) { line = t; line_bytes = p.line_bytes + shares fragment }))
              (segments_text-append_segments p.line_segments fragment h.line_buffer))
      ])

view-end_line :
    (delimiter : ℕ) (p : Parser)
    → IsParser p
    → map_ok view (end_line delimiter p) ≡ finish delimiter (view p)
unfolding end_line finish view concat
view-end_line delimiter p h =
    rw (← view-handle_line (segments_text p.line_segments) p h.data_buffer)
      (map_ok-bind view view (handle_line (segments_text p.line_segments) p) _ _ λ q _. refl)

abbrev Later : ℕ → (Parser → Text → Result Parser) → Type 0
Later fuel next =
    (r : Parser) (rest : Text)
    → IsParser r
    → is_well_formed rest ≡ true
    → length rest ≤ fuel
    → map_ok view (next r rest) ≡ run (view r) rest

view-feed_line :
    (next : Parser → Text → Result Parser) (fuel : ℕ) (found : Text × Option (ℕ × Text))
    (q : Parser)
    → Later fuel next
    → IsParser q
    → SplitIsWellFormed found
    → SplitIsShorter (suc fuel) found
    → map_ok view (feed_line next found q) ≡ run_split found (view q)
unfolding feed_line run_split
view-feed_line next fuel (fragment, none) q later h w short = view-add_fragment fragment q h w
view-feed_line next fuel (fragment, some (delimiter, rest)) q later h (w, w') short =
    rw (← view-add_fragment fragment q h w) (
      map_ok-bind view view (add_fragment fragment q) _ _ λ r e.
        let kr : IsParser r = AllOk-ok IsParser _ (add_fragment-IsParser fragment q h) e in
        rw (← view-end_line delimiter r kr) (
          map_ok-bind view view (end_line delimiter r) _ _ λ l f.
            later l rest (AllOk-ok IsParser _ (end_line-IsParser delimiter r kr) f) w'
              (omega arith)))

-- A line feed that is not skipped is read as if no `\r` had come before.
step-clear :
    (m : Machine) (c : ℕ)
    → (m.skip_line_feed && c == b'\n') ≡ false
    → step m c ≡ step (record m { skip_line_feed = false }) c
unfolding step
step-clear m c h = rw h refl

step-skip :
    (m : Machine) (c : ℕ)
    → (m.skip_line_feed && c == b'\n') ≡ true
    → step m c ≡ ok (record m { skip_line_feed = false })
unfolding step
step-skip m c h = rw h refl

view-feed_loop : (fuel : ℕ) → Later fuel (feed_loop fuel)
unfolding feed_loop run view
view-feed_loop zero p [] h w f = refl
view-feed_loop zero p (c ∷ s) h w f = absurd (omega arith)
view-feed_loop (suc fuel) p [] h w f = refl
view-feed_loop (suc fuel) p (c ∷ s) h w f =
    let q = record p { skip_line_feed = false } in
    elim (Bool-cases (p.skip_line_feed && c == b'\n')) [
      | inl skip ↦
          rw (skip, feed_loop)
            (rw (step-skip (view p) c skip) (
              view-feed_loop fuel q s (omega arith) (is_well_formed-tail c s (ground arith) w)
                (omega arith)))
      | inr line ↦
          rw (line, feed_loop)
            (view-feed_line (feed_loop fuel) fuel (next_line (c ∷ s)) q (view-feed_loop fuel)
                (omega arith) (next_line-IsWellFormed (c ∷ s) w)
                (SplitIsShorter-le _ _ (next_line (c ∷ s)) f (next_line-IsShorter (c ∷ s)))
              ∙ sym (run-split (c ∷ s) (view q) refl h.line_bound)
              ∙ sym (ap (λ (r : Result Machine). r >>= λ n. run n s) (step-clear (view p) c line)))
    ]

is_well_formed-strip_mark :
    (p : Parser) (text : Text)
    → is_well_formed text ≡ true
    → is_well_formed (strip_mark p text) ≡ true
unfolding strip_mark
is_well_formed-strip_mark p [] w = w
is_well_formed-strip_mark p (c ∷ s) w = elim (Bool-cases (p.at_start && c == 0xFEFF)) [
  | inl mark ↦ rw mark (is_well_formed-tail c s (ground arith) w)
  | inr plain ↦ rw plain w
]

-- The parser after the first text.
abbrev pub started : Text → Parser → Parser
started decoded p = record p { at_start = p.at_start && is_empty decoded }

-- Feeding a well-formed text does what the machine does with its units one by one, the mark at the
-- start of the stream left out; both throw the same error or neither does.
pub view-feed :
    (decoded : Text) (p : Parser)
    → IsParser p
    → is_well_formed decoded ≡ true
    → map_ok view (feed decoded p) ≡ run (view (started decoded p)) (strip_mark p decoded)
unfolding feed
view-feed decoded p h w =
    view-feed_loop (length (strip_mark p decoded)) (started decoded p) (strip_mark p decoded)
      (omega arith) (is_well_formed-strip_mark p decoded w) (omega arith)

and-true : (b : Bool) → (b && true) ≡ b
and-true true = refl
and-true false = refl

feed-nil : (p : Parser) → feed [] p ≡ ok p
unfolding feed
feed-nil p = λ i. ok (record p { at_start = and-true p.at_start i })

strip_mark-later : (p : Parser) (text : Text) → p.at_start ≡ false → strip_mark p text ≡ text
unfolding strip_mark
strip_mark-later p [] h = refl
strip_mark-later p (c ∷ s) h = rw h refl

-- A parser past the start of the stream takes a text as it stands.
view-feed_later :
    (decoded : Text) (p : Parser)
    → IsParser p
    → p.at_start ≡ false
    → is_well_formed decoded ≡ true
    → map_ok view (feed decoded p) ≡ run (view p) decoded
view-feed_later decoded p h late w =
    let still : (p.at_start && is_empty decoded) ≡ p.at_start = rw late refl in
    view-feed decoded p h w
    ∙ ap (run (view (started decoded p))) (strip_mark-later p decoded late)
    ∙ ap (λ b. run (view (record p { at_start = b })) decoded) still

strip_mark-append :
    (p : Parser) (c : ℕ) (s b : Text) → strip_mark p ((c ∷ s) ++ b) ≡ strip_mark p (c ∷ s) ++ b
unfolding strip_mark
strip_mark-append p c s b = elim (Bool-cases (p.at_start && c == 0xFEFF)) [
  | inl mark ↦ rw mark refl
  | inr plain ↦ rw plain refl
]

-- After a text that is not empty, the parser is past the start.
and-false : (b : Bool) → (b && false) ≡ false
and-false true = refl
and-false false = refl

feed-at_start :
    (c : ℕ) (s : Text) (p q : Parser)
    → IsParser p
    → is_well_formed (c ∷ s) ≡ true
    → feed (c ∷ s) p ≡ ok q
    → q.at_start ≡ false
unfolding view
feed-at_start c s p q h w e =
    let m = view (started (c ∷ s) p) in
    let ran : run m (strip_mark p (c ∷ s)) ≡ ok (view q) =
      sym (view-feed (c ∷ s) p h w) ∙ ap (map_ok view) e in
    AllOk-ok (λ n. n.at_start ≡ m.at_start) _ (run-at_start m (strip_mark p (c ∷ s))) ran
    ∙ and-false p.at_start

-- Cutting a text in two at a place that keeps both parts well formed changes neither the items that
-- are queued nor any later behaviour, nor whether and how the parser throws.
pub feed-append :
    (a b : Text) (p : Parser)
    → IsParser p
    → is_well_formed a ≡ true
    → is_well_formed b ≡ true
    → map_ok view (feed (a ++ b) p) ≡ map_ok view (feed a p >>= feed b)
feed-append [] b p h wa wb = rw feed-nil refl
feed-append (c ∷ s) b p h wa wb =
    view-feed ((c ∷ s) ++ b) p h (is_well_formed-append (c ∷ s) b wa wb)
    ∙ ap (run (view (started (c ∷ s) p))) (strip_mark-append p c s b)
    ∙ run-append _ (strip_mark p (c ∷ s)) b
    ∙ ap (λ (r : Result Machine). r >>= λ n. run n b) (sym (view-feed (c ∷ s) p h wa))
    ∙ sym (
        map_ok-bind view view (feed (c ∷ s) p) (feed b) (λ n. run n b)
          λ q e.
            view-feed_later b q (AllOk-ok IsParser _ (feed-IsParser (c ∷ s) p h) e)
              (feed-at_start c s p q h wa e) wb)

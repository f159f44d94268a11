-- ===== src/Events/SseParser/Lines.antt =====
-- The machine over one line of text does what the parser does with the line at once.
use teslatlas_sdk_typescript.Prelude.{
  ℕ, suc, ◌+◌, ◌≤◌, ◌<◌, ◌≡◌, refl, sym, ap, ◌∙◌, true, false, inl, inr, Option, none, some, [],
  ◌∷◌, ◌++◌, arith, ltb, if◌then◌else◌, append-nil, append_assoc, length, Bool-cases,
}
use teslatlas_sdk_typescript.Js.Text.{Text}
use teslatlas_sdk_typescript.Js.Utf8.{
  is_well_formed, is_high_surrogate, is_low_surrogate, is_surrogate, is_well_formed-cons, shares,
}
use teslatlas_sdk_typescript.Core.Errors.{Result, ok, err, ◌>>=◌, sse_limit, bind_assoc, bind_ok}
use teslatlas_sdk_typescript.Events.SseParser.{max_line_bytes, is_delimiter, next_line}
use teslatlas_sdk_typescript.Events.SseParser.Machine.{Machine, extend, finish, step, run}

-- A whole fragment at once.
unfoldable pub extend_all : Text → Machine → Result Machine
extend_all fragment m =
    if ltb max_line_bytes (m.line_bytes + shares fragment)
    then err (sse_limit "Sse.lineSize")
    else ok (record m { line = m.line ++ fragment; line_bytes = m.line_bytes + shares fragment })

extend_all-nil : (m : Machine) → m.line_bytes ≤ max_line_bytes → extend_all [] m ≡ ok m
unfolding extend_all shares
extend_all-nil m h = ground (arith, append-nil m.line)

extend_all-cons :
    (c : ℕ) (s : Text) (m : Machine) → extend_all (c ∷ s) m ≡ (extend c m >>= extend_all s)
unfolding extend_all extend shares
extend_all-cons c s m = ground (arith, append_assoc m.line (c ∷ []) s)

abbrev pub Split : Type 0
Split = Text × Option (ℕ × Text)

-- The pieces of a well-formed text between its delimiters are well formed.
abbrev pub SplitIsWellFormed : Split → Type 0
SplitIsWellFormed (fragment, none) = is_well_formed fragment ≡ true
SplitIsWellFormed (fragment, some (d, rest)) =
    (is_well_formed fragment ≡ true) × (is_well_formed rest ≡ true)

split-cons :
    (c : ℕ) (f : Text) (found : Option (ℕ × Text))
    → is_surrogate c ≡ false
    → SplitIsWellFormed (f, found)
    → SplitIsWellFormed (c ∷ f, found)
split-cons c f none h k = is_well_formed-cons c f h k
split-cons c f (some (d, rest)) h (k, w) = (is_well_formed-cons c f h k, w)

split-pair :
    (c d : ℕ) (f : Text) (found : Option (ℕ × Text))
    → is_high_surrogate c ≡ true
    → is_low_surrogate d ≡ true
    → SplitIsWellFormed (f, found)
    → SplitIsWellFormed (c ∷ d ∷ f, found)
split-pair c d f none h l k = unfold is_well_formed in ground arith
split-pair c d f (some (e, rest)) h l (k, w) = (unfold is_well_formed in ground arith, w)

delimiter_plain : (c : ℕ) → is_delimiter c ≡ true → is_surrogate c ≡ false
delimiter_plain c h = ground arith

-- One unit that is no half of a pair.
next_line-plain :
    (c : ℕ) (s : Text)
    → is_surrogate c ≡ false
    → is_well_formed s ≡ true
    → SplitIsWellFormed (next_line s)
    → SplitIsWellFormed (next_line (c ∷ s))
unfolding next_line is_well_formed
next_line-plain c s h w k = elim (Bool-cases (is_delimiter c)) [
  | inl d ↦ rw d (refl, w)
  | inr n ↦ rw n (split-cons c (next_line s).0 (next_line s).1 h k)
]

surrogate_not_delimiter : (c : ℕ) → is_surrogate c ≡ true → is_delimiter c ≡ false
surrogate_not_delimiter c h = ground arith

next_line-pair :
    (c d : ℕ) (s : Text)
    → is_high_surrogate c ≡ true
    → is_low_surrogate d ≡ true
    → SplitIsWellFormed (next_line s)
    → SplitIsWellFormed (next_line (c ∷ d ∷ s))
unfolding next_line
next_line-pair c d s h l k =
    rw (surrogate_not_delimiter c (ground arith), surrogate_not_delimiter d (ground arith))
      (split-pair c d (next_line s).0 (next_line s).1 h l k)

pub next_line-IsWellFormed :
    (text : Text) → is_well_formed text ≡ true → SplitIsWellFormed (next_line text)
unfolding is_well_formed
next_line-IsWellFormed [] h = unfold next_line in refl
next_line-IsWellFormed (c ∷ []) h =
    next_line-plain c [] (ground arith) refl (unfold next_line in refl)
next_line-IsWellFormed (c ∷ d ∷ s) h = elim (Bool-cases (is_high_surrogate c)) [
  | inl pair ↦ next_line-pair c d s pair (ground arith) (next_line-IsWellFormed s (ground arith))
  | inr single ↦
      next_line-plain c (d ∷ s) (ground arith) (ground arith)
        (next_line-IsWellFormed (d ∷ s) (ground arith))
]

abbrev pub SplitIsShorter : ℕ → Split → Type 0
SplitIsShorter n (fragment, none) = Unit
SplitIsShorter n (fragment, some (d, rest)) = length rest < n

SplitIsShorter-suc :
    (n : ℕ) (f g : Text) (found : Option (ℕ × Text))
    → SplitIsShorter n (f, found)
    → SplitIsShorter (suc n) (g, found)
SplitIsShorter-suc n f g none h = tt
SplitIsShorter-suc n f g (some (d, rest)) h = omega arith

pub SplitIsShorter-le :
    (n k : ℕ) (found : Split) → n ≤ k → SplitIsShorter n found → SplitIsShorter k found
SplitIsShorter-le n k (f, none) h s = tt
SplitIsShorter-le n k (f, some (d, rest)) h s = omega arith

pub next_line-IsShorter : (text : Text) → SplitIsShorter (length text) (next_line text)
unfolding next_line
next_line-IsShorter [] = tt
next_line-IsShorter (c ∷ s) = elim (Bool-cases (is_delimiter c)) [
  | inl d ↦ rw d (omega arith)
  | inr n ↦ rw n (
      SplitIsShorter-suc (length s) (next_line s).0 (c ∷ (next_line s).0) (next_line s).1
        (next_line-IsShorter s))
]

-- What the machine does with a line that is already cut off.
unfoldable pub run_split : Split → Machine → Result Machine
unfolding extend_all
run_split (fragment, none) m = extend_all fragment m
run_split (fragment, some (delimiter, rest)) m =
    extend_all fragment m >>= λ n. (finish delimiter n >>= λ l. run l rest)

run_split-cons :
    (c : ℕ) (f : Text) (found : Option (ℕ × Text)) (m : Machine)
    → run_split (c ∷ f, found) m ≡ (extend c m >>= run_split (f, found))
unfolding run_split
run_split-cons c f none m = extend_all-cons c f m
run_split-cons c f (some (d, rest)) m =
    ap (λ (r : Result Machine). r >>= λ n. (finish d n >>= λ l. run l rest)) (extend_all-cons c f m)
    ∙ bind_assoc (extend c m) (extend_all f) _

extend-ready :
    (c : ℕ) (m n : Machine)
    → m.skip_line_feed ≡ false
    → extend c m ≡ ok n
    → (n.skip_line_feed ≡ false) × (n.line_bytes ≤ max_line_bytes)
unfolding extend
extend-ready c m n h e = ground arith

step-ready :
    (m : Machine) (c : ℕ)
    → m.skip_line_feed ≡ false
    → step m c ≡ (if is_delimiter c then finish c m else extend c m)
unfolding step
step-ready m c h =
    let same : record m { skip_line_feed = false } ≡ m =
      λ i. record m { skip_line_feed = sym h i } in
    rw (h, same) refl

pub run-split :
    (text : Text) (m : Machine)
    → m.skip_line_feed ≡ false
    → m.line_bytes ≤ max_line_bytes
    → run m text ≡ run_split (next_line text) m
unfolding run next_line
run-split [] m h b = unfold run_split in sym (extend_all-nil m b)
run-split (c ∷ s) m h b = elim (Bool-cases (is_delimiter c)) [
  | inl d ↦ rw (step-ready m c h, d) (unfold run_split in rw (extend_all-nil m b))
  | inr n ↦
      rw (step-ready m c h, n)
        (bind_ok (extend c m)
            (λ k e. let (skip, fits) = extend-ready c m k h e in run-split s k skip fits)
          ∙ sym (run_split-cons c (next_line s).0 (next_line s).1 m))
]

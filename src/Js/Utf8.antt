-- ===== src/Js/Utf8.antt =====
-- The length in bytes of what `new TextEncoder().encode(value)` gives. A surrogate pair takes four
-- bytes; a lone surrogate is encoded as U+FFFD, in three.
use teslatlas_sdk_typescript.Prelude.{
  ℕ, ◌+◌, ◌≡◌, refl, Bool, true, false, ◌&&◌, ◌||◌, not, inl, inr, Bool-cases, ◌++◌, [], ◌∷◌, arith,
  leb, ltb, if◌then◌else◌,
}
use teslatlas_sdk_typescript.Js.Text.{Text}

abbrev pub is_high_surrogate : ℕ → Bool
is_high_surrogate c = leb 0xD800 c && leb c 0xDBFF

abbrev pub is_low_surrogate : ℕ → Bool
is_low_surrogate c = leb 0xDC00 c && leb c 0xDFFF

abbrev pub unit_bytes : ℕ → ℕ
unit_bytes c = if ltb c 0x80 then 1 else if ltb c 0x800 then 2 else 3

unfoldable pub utf8_length : Text → ℕ
utf8_length [] = 0
utf8_length (c ∷ []) = unit_bytes c
utf8_length (c ∷ d ∷ s) = elim (is_high_surrogate c && is_low_surrogate d) [
  | true ↦ 4 + utf8_length s
  | false ↦ unit_bytes c + utf8_length (d ∷ s)
]

-- Every surrogate stands in a pair, as in each text that a `TextDecoder` gives.
unfoldable pub is_well_formed : Text → Bool
is_well_formed [] = true
is_well_formed (c ∷ []) = not (is_high_surrogate c || is_low_surrogate c)
is_well_formed (c ∷ d ∷ s) = elim (is_high_surrogate c) [
  | true ↦ is_low_surrogate d && is_well_formed s
  | false ↦ not (is_low_surrogate c) && is_well_formed (d ∷ s)
]

-- The share of one code unit in a well-formed text: each half of a pair counts for two bytes.
unfoldable pub unit_share : ℕ → ℕ
unit_share c = if is_high_surrogate c || is_low_surrogate c then 2 else unit_bytes c

unfoldable pub shares : Text → ℕ
shares [] = 0
shares (c ∷ s) = unit_share c + shares s

-- In a well-formed text the bytes are the sum of the units' shares.
pub utf8_length-eq-shares : (s : Text) → is_well_formed s ≡ true → utf8_length s ≡ shares s
unfolding utf8_length is_well_formed shares unit_share
utf8_length-eq-shares [] h = refl
utf8_length-eq-shares (c ∷ []) h = ground arith
utf8_length-eq-shares (c ∷ d ∷ s) h =
    ground (arith, utf8_length-eq-shares s, utf8_length-eq-shares (d ∷ s))

-- A surrogate of either kind.
abbrev pub is_surrogate : ℕ → Bool
is_surrogate c = is_high_surrogate c || is_low_surrogate c

pub is_well_formed-cons :
    (c : ℕ) (s : Text)
    → is_surrogate c ≡ false
    → is_well_formed s ≡ true
    → is_well_formed (c ∷ s) ≡ true
unfolding is_well_formed
is_well_formed-cons c [] h k = ground arith
is_well_formed-cons c (d ∷ s) h k = ground arith

pub is_well_formed-tail :
    (c : ℕ) (s : Text)
    → is_surrogate c ≡ false
    → is_well_formed (c ∷ s) ≡ true
    → is_well_formed s ≡ true
unfolding is_well_formed
is_well_formed-tail c [] h k = refl
is_well_formed-tail c (d ∷ s) h k = ground arith

module _ (c d : ℕ) (s : Text) where
  is_well_formed-pair :
      is_high_surrogate c ≡ true
      → is_low_surrogate d ≡ true
      → is_well_formed s ≡ true
      → is_well_formed (c ∷ d ∷ s) ≡ true
  unfolding is_well_formed
  is_well_formed-pair h l w = ground arith

  is_well_formed_low :
      is_high_surrogate c ≡ true → is_well_formed (c ∷ d ∷ s) ≡ true → is_low_surrogate d ≡ true
  unfolding is_well_formed
  is_well_formed_low h w = ground arith

  is_well_formed_rest :
      is_high_surrogate c ≡ true → is_well_formed (c ∷ d ∷ s) ≡ true → is_well_formed s ≡ true
  unfolding is_well_formed
  is_well_formed_rest h w = ground arith

  is_well_formed_single :
      is_high_surrogate c ≡ false → is_well_formed (c ∷ d ∷ s) ≡ true → is_surrogate c ≡ false
  unfolding is_well_formed
  is_well_formed_single h w = ground arith

  is_well_formed_later :
      is_high_surrogate c ≡ false
      → is_well_formed (c ∷ d ∷ s) ≡ true
      → is_well_formed (d ∷ s) ≡ true
  unfolding is_well_formed
  is_well_formed_later h w = ground arith

pub is_well_formed-append :
    (s t : Text)
    → is_well_formed s ≡ true
    → is_well_formed t ≡ true
    → is_well_formed (s ++ t) ≡ true
is_well_formed-append [] t h k = k
is_well_formed-append (c ∷ []) t h k =
    is_well_formed-cons c t (unfold is_well_formed in ground arith) k
is_well_formed-append (c ∷ d ∷ s) t h k = elim (Bool-cases (is_high_surrogate c)) [
  | inl pair ↦
      is_well_formed-pair c d (s ++ t) pair (is_well_formed_low c d s pair h)
        (is_well_formed-append s t (is_well_formed_rest c d s pair h) k)
  | inr single ↦
      is_well_formed-cons c (d ∷ (s ++ t)) (is_well_formed_single c d s single h)
        (is_well_formed-append (d ∷ s) t (is_well_formed_later c d s single h) k)
]

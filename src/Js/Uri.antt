-- ===== src/Js/Uri.antt =====
-- Percent encoding: `encodeURIComponent`, and the form encoding of `URLSearchParams.toString`.
pub mod Decimals
use teslatlas_sdk_typescript.Prelude.{
  ℕ, zero, suc, ◌+◌, ◌-◌, ◌*◌, ◌/◌, ◌%◌, ◌≡◌, refl, Bool, true, false, ◌&&◌, ◌||◌, inl, inr, Option,
  none, some, List, [], ◌∷◌, ◌++◌, arith, leb, ltb, ◌==◌, if◌then◌else◌, any, all, Bool-cases,
}
use teslatlas_sdk_typescript.Js.Text.{Text, codes, is_digit, has_unit}
use teslatlas_sdk_typescript.Js.Utf8.{is_high_surrogate, is_low_surrogate, is_surrogate}

-- The code points of a text; a lone surrogate stands for itself.
unfoldable pub code_points : Text → List ℕ
code_points [] = []
code_points (c ∷ []) = c ∷ []
code_points (c ∷ d ∷ s) = elim (is_high_surrogate c && is_low_surrogate d) [
  | true ↦ (0x10000 + (c - 0xD800) * 1024 + (d - 0xDC00)) ∷ code_points s
  | false ↦ c ∷ code_points (d ∷ s)
]

utf8_bytes : ℕ → List ℕ
utf8_bytes p =
    if ltb p 0x80
    then p ∷ []
    else if ltb p 0x800
    then (0xC0 + p / 64) ∷ (0x80 + p % 64) ∷ []
    else if ltb p 0x10000
    then (0xE0 + p / 4096) ∷ (0x80 + p / 64 % 64) ∷ (0x80 + p % 64) ∷ []
    else (0xF0 + p / 262144) ∷ (0x80 + p / 4096 % 64) ∷ (0x80 + p / 64 % 64) ∷ (0x80 + p % 64) ∷ []

hex_digit : ℕ → ℕ
hex_digit n = if ltb n 10 then b'0' + n else b'A' + (n - 10)

percent_bytes : List ℕ → Text
percent_bytes [] = []
percent_bytes (b ∷ bs) = b'%' ∷ hex_digit (b / 16 % 16) ∷ hex_digit (b % 16) ∷ percent_bytes bs

abbrev pub is_alphanumeric : ℕ → Bool
is_alphanumeric c = is_digit c || (leb b'a' c && leb c b'z' || leb b'A' c && leb c b'Z')

-- What `encodeURIComponent` leaves as it is.
unfoldable pub is_unreserved : ℕ → Bool
is_unreserved c = is_alphanumeric c || has_unit (codes "-_.!~*'()") c

encode_points : (ℕ → Bool) → List ℕ → Text
encode_points keep [] = []
encode_points keep (p ∷ ps) =
    (if keep p then p ∷ [] else percent_bytes (utf8_bytes p)) ++ encode_points keep ps

-- A lone surrogate is a `URIError`.
unfoldable pub encode_uri_component : Text → Option Text
unfolding code_points encode_points percent_bytes utf8_bytes hex_digit is_unreserved has_unit
encode_uri_component value =
    let points = code_points value in
    if any is_surrogate points then none else some (encode_points is_unreserved points)

-- What the form encoding leaves as it is, and the space, which it writes as `+`.
abbrev is_form_unit : ℕ → Bool
is_form_unit c = is_alphanumeric c || has_unit (codes "*-._") c

form_points : List ℕ → Text
form_points [] = []
form_points (p ∷ ps) =
    (if p == b' '
      then b'+' ∷ []
      else if is_form_unit p
      then p ∷ []
      else percent_bytes (utf8_bytes (if is_surrogate p then 0xFFFD else p)))
    ++ form_points ps

unfoldable pub form_encode : Text → Text
unfolding code_points form_points percent_bytes utf8_bytes hex_digit has_unit
form_encode value = form_points (code_points value)

-- The units of an encoded component.
abbrev pub is_encoded_unit : ℕ → Bool
is_encoded_unit c = is_unreserved c || c == b'%'

hex_digit-encoded : (n : ℕ) → is_encoded_unit (hex_digit (n % 16)) ≡ true
unfolding hex_digit is_unreserved has_unit
hex_digit-encoded n = ground arith

all-append : (p : ℕ → Bool) (s t : Text) → all p s ≡ true → all p t ≡ true → all p (s ++ t) ≡ true
all-append p [] t h k = k
all-append p (c ∷ s) t h k = ground (arith, all-append p s t)

percent_bytes-encoded : (bs : List ℕ) → all is_encoded_unit (percent_bytes bs) ≡ true
unfolding percent_bytes
percent_bytes-encoded [] = refl
percent_bytes-encoded (b ∷ bs) =
    ground (arith, hex_digit-encoded (b / 16), hex_digit-encoded b, percent_bytes-encoded bs)

encode_points-encoded : (ps : List ℕ) → all is_encoded_unit (encode_points is_unreserved ps) ≡ true
unfolding encode_points
encode_points-encoded [] = refl
encode_points-encoded (p ∷ ps) =
    all-append is_encoded_unit _ (encode_points is_unreserved ps)
      (elim (Bool-cases (is_unreserved p)) [
        | inl e ↦ rw e (rw e refl)
        | inr e ↦ rw e (percent_bytes-encoded (utf8_bytes p))
      ])
      (encode_points-encoded ps)

-- An encoded component holds no delimiter of a path or a query.
pub encode_uri_component-encoded :
    (value encoded : Text)
    → encode_uri_component value ≡ some encoded
    → all is_encoded_unit encoded ≡ true
unfolding encode_uri_component
encode_uri_component-encoded value encoded h =
    ground (arith, encode_points-encoded (code_points value))

digits_onto : ℕ → ℕ → Text → Text
digits_onto zero n acc = acc
digits_onto (suc fuel) n acc =
    let longer = (b'0' + n % 10) ∷ acc in
    let rest = digits_onto fuel (n / 10) longer in if ltb n 10 then longer else rest

-- `String(n)` of a natural number; a number has no more digits than its size and one.
unfoldable pub decimal_text : ℕ → Text
unfolding digits_onto
decimal_text n = digits_onto (suc n) n []

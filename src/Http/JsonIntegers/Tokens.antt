-- ===== src/Http/JsonIntegers/Tokens.antt =====
-- What the parts of a number's token say of its text.
use teslatlas_sdk_typescript.Prelude.{
  ℕ, zero, suc, ◌≡◌, refl, sym, subst, ◌∙◌, ap, if◌then◌else◌, ℤ, pos, negsuc, ◌⊎◌, inl, inr, Bool,
  true, false, ◌||◌, Option, none, some, [], ◌∷◌, ◌++◌, ◌==◌, all, arith, ==_iff, Bool-cases,
}
use teslatlas_sdk_typescript.Js.Text.{Text, is_digit, is_digits, decimal_from}
use teslatlas_sdk_typescript.Core.Errors.{is_empty}
use teslatlas_sdk_typescript.Core.Version.{span, ◌>>=?◌}
use teslatlas_sdk_typescript.Core.Version.Pattern.{span-text}
use teslatlas_sdk_typescript.Http.ProtocolJson.{exponent_digits}
use teslatlas_sdk_typescript.Http.JsonIntegers.{
  Parts, signed, exponent_value, read_exponent, read_fraction, read_unsigned, read_parts,
}

-- The number of a size, above or below zero.
pub with_sign : Bool → ℕ → ℤ
with_sign true zero = pos 0
with_sign true (suc n) = negsuc n
with_sign false n = pos n

pub signed-with_sign : (negative : Bool) (n : ℕ) → signed negative n ≡ with_sign negative n
unfolding signed with_sign
signed-with_sign true zero = refl
signed-with_sign true (suc n) = refl
signed-with_sign false n = refl

-- `-digits`, `+digits` or `digits`.
IsSigned : Text → ℤ → Type 0
IsSigned s e =
    (digits : Text) × (is_digits digits ≡ true)
    × (((s ≡ b'-' ∷ digits) × (e ≡ with_sign true (decimal_from 0 digits)))
        ⊎ (((s ≡ b'+' ∷ digits) ⊎ (s ≡ digits)) × (e ≡ pos (decimal_from 0 digits))))

-- Nothing, for the exponent 0, or `e` or `E` with a signed number behind it.
pub IsExponent : Text → ℤ → Type 0
IsExponent [] e = e ≡ pos 0
IsExponent (c ∷ s) e = ((c ≡ b'e') ⊎ (c ≡ b'E')) × IsSigned s e

-- Nothing, for no decimals, or a point with digits behind it.
pub IsFraction : Text → Text → Type 0
IsFraction [] decimals = decimals ≡ []
IsFraction (c ∷ s) decimals = (c ≡ b'.') × (s ≡ decimals) × (is_digits decimals ≡ true)

pub sign_text : Bool → Text
sign_text true = b'-' ∷ []
sign_text false = []

-- The token is the sign, the digits, the fraction and the exponent, one behind the other.
pub IsToken : Text → Parts → Type 0
IsToken token parts =
    (fraction : Text) × (exponent : Text) × (token
      ≡ sign_text parts.negative ++ (parts.whole ++ (fraction ++ exponent)))
    × (is_digits parts.whole ≡ true)
    × IsFraction fraction parts.decimals
    × IsExponent exponent parts.exponent

span-all : (test : ℕ → Bool) (s : Text) → all test (span test s).0 ≡ true
unfolding span
span-all test [] = refl
span-all test (c ∷ s) = elim (Bool-cases (test c)) [
  | inl e ↦ rw (e, e) (span-all test s)
  | inr e ↦ rw e refl
]

run-is_digits : (run : Text) → is_empty run ≡ false → all is_digit run ≡ true → is_digits run ≡ true
unfolding is_digits
run-is_digits [] h k = cc
run-is_digits (c ∷ run) h k = k

value-with_sign :
    (negative : Bool) (digits : Text) (e : ℤ)
    → (if is_digits digits then some (signed negative (decimal_from 0 digits)) else none) ≡ some e
    → (is_digits digits ≡ true) × (e ≡ with_sign negative (decimal_from 0 digits))
value-with_sign negative digits e h = elim (Bool-cases (is_digits digits)) [
  | inl k ↦
      let same : signed negative (decimal_from 0 digits) ≡ e = some_injective (rw k at h) in
      (k, sym same ∙ signed-with_sign negative (decimal_from 0 digits))
  | inr k ↦ let bad = rw k at h in cc
]
  where
    some_injective : {x y : ℤ} → ◌≡◌ {A = Option ℤ} (some x) (some y) → x ≡ y
    some_injective h = cc

minus-IsSigned :
    (t : Text) (e : ℤ)
    → exponent_value (exponent_digits (b'-' ∷ t)) ≡ some e
    → IsSigned (b'-' ∷ t) e
unfolding exponent_value exponent_digits IsSigned
minus-IsSigned t e h = let (k, same) = value-with_sign true t e h in (t, k, inl (refl, same))

plus-IsSigned :
    (t : Text) (e : ℤ)
    → exponent_value (exponent_digits (b'+' ∷ t)) ≡ some e
    → IsSigned (b'+' ∷ t) e
unfolding exponent_value exponent_digits IsSigned with_sign
plus-IsSigned t e h = let (k, same) = value-with_sign false t e h in (t, k, inr (inl refl, same))

exponent_value-IsSigned :
    (s : Text) (e : ℤ) → exponent_value (exponent_digits s) ≡ some e → IsSigned s e
unfolding IsSigned with_sign
exponent_value-IsSigned [] e h = unfold exponent_value exponent_digits is_digits in cc
exponent_value-IsSigned (d ∷ t) e h = elim (Bool-cases (d == b'-')) [
  | inl a ↦
      let same : d ≡ b'-' = (==_iff d b'-').0 a in
      subst (λ c. IsSigned (c ∷ t) e) (sym same)
        (minus-IsSigned t e (subst (λ c. exponent_value (exponent_digits (c ∷ t)) ≡ some e) same h))
  | inr a ↦ elim (Bool-cases (d == b'+')) [
    | inl b ↦
        let same : d ≡ b'+' = (==_iff d b'+').0 b in
        subst (λ c. IsSigned (c ∷ t) e) (sym same)
          (plus-IsSigned t e
            (subst (λ c. exponent_value (exponent_digits (c ∷ t)) ≡ some e) same h))
    | inr b ↦
        let (k, same) =
          value-with_sign false (d ∷ t) e
            (unfold exponent_value exponent_digits in rw (a, b) at h) in
        (d ∷ t, k, inr (inr refl, same))
  ]
]

read_exponent-IsExponent : (s : Text) (e : ℤ) → read_exponent s ≡ some e → IsExponent s e
unfolding read_exponent IsExponent
read_exponent-IsExponent [] e h = cc
read_exponent-IsExponent (c ∷ s) e h = elim (Bool-cases (c == b'e' || c == b'E')) [
  | inl k ↦ (ground (arith, k), exponent_value-IsSigned s e (rw k at h))
  | inr k ↦ let bad = rw k at h in cc
]

-- The result of a chain is that of its last step.
chained :
    {A B : Type 0} (first : Option A) (next : A → Option B) {b : B}
    → (first >>=? next) ≡ some b
    → (a : A) × (first ≡ some a) × (next a ≡ some b)
chained none next h = cc
chained (some a) next h = (a, refl, h)

-- A fraction and the exponent behind it.
IsRest : Text → Text × ℤ → Type 0
IsRest s (decimals, e) =
    (fraction : Text) × (exponent : Text) × (s ≡ fraction ++ exponent)
    × IsFraction fraction decimals
    × IsExponent exponent e

fraction_run-IsRest :
    (s : Text) (found : Text × ℤ)
    → (if is_empty (span is_digit s).0
        then none
        else read_exponent (span is_digit s).1 >>=? λ exponent.
            some ((span is_digit s).0, exponent))
      ≡ some found
    → IsRest (b'.' ∷ s) found
unfolding IsRest IsFraction
fraction_run-IsRest s found h = elim (Bool-cases (is_empty (span is_digit s).0)) [
  | inl k ↦ let bad = rw k at h in cc
  | inr k ↦
      let (e, read, made) = chained (read_exponent (span is_digit s).1) _ (rw k at h) in
      let same : ((span is_digit s).0, e) ≡ found = cc in
      subst (IsRest (b'.' ∷ s)) same (
        b'.' ∷ (span is_digit s).0,
        (span is_digit s).1,
        ap (λ (t : Text). b'.' ∷ t) (sym (span-text is_digit s)),
        (refl, refl, run-is_digits (span is_digit s).0 k (span-all is_digit s)),
        read_exponent-IsExponent (span is_digit s).1 e read,
      )
]

read_fraction-IsRest : (s : Text) (found : Text × ℤ) → read_fraction s ≡ some found → IsRest s found
unfolding IsRest IsFraction read_fraction
read_fraction-IsRest [] found h =
    let same : ([], pos 0) ≡ found = cc in
    subst (IsRest []) same ([], [], refl, refl, unfold IsExponent in refl)
read_fraction-IsRest (c ∷ s) found h = elim (Bool-cases (c == b'.')) [
  | inl k ↦
      let dot : c ≡ b'.' = (==_iff c b'.').0 k in
      subst (λ d. IsRest (d ∷ s) found) (sym dot) (fraction_run-IsRest s found (rw k at h))
  | inr k ↦
      let (e, read, made) = chained (read_exponent (c ∷ s)) _ (rw k at h) in
      let same : ([], e) ≡ found = cc in
      subst (IsRest (c ∷ s)) same ([], c ∷ s, refl, refl, read_exponent-IsExponent (c ∷ s) e read)
]

read_unsigned-IsToken :
    (negative : Bool) (s : Text) (parts : Parts)
    → read_unsigned negative s ≡ some parts
    → IsToken (sign_text negative ++ s) parts
unfolding read_unsigned IsToken IsRest
read_unsigned-IsToken negative s parts h = elim (Bool-cases (is_empty (span is_digit s).0)) [
  | inl k ↦ let bad = rw k at h in cc
  | inr k ↦
      let (found, read, made) = chained (read_fraction (span is_digit s).1) _ (rw k at h) in
      let (fraction, exponent, cut, decimal, power) =
        read_fraction-IsRest (span is_digit s).1 found read in
      let whole = (span is_digit s).0 in
      let same : ◌≡◌ {A = Parts}
          record { negative = negative; whole = whole; decimals = found.0; exponent = found.1 }
          parts =
        cc in
      subst (IsToken (sign_text negative ++ s)) same (
        fraction,
        exponent,
        ap (λ t. sign_text negative ++ t) (sym (span-text is_digit s) ∙ ap (λ t. whole ++ t) cut),
        run-is_digits whole k (span-all is_digit s),
        decimal,
        power,
      )
]

-- A token that is read is the text of its parts.
pub read_parts-IsToken :
    (token : Text) (parts : Parts) → read_parts token ≡ some parts → IsToken token parts
unfolding read_parts sign_text
read_parts-IsToken [] parts h = cc
read_parts-IsToken (c ∷ s) parts h = elim (Bool-cases (c == b'-')) [
  | inl k ↦
      let dash : c ≡ b'-' = (==_iff c b'-').0 k in
      subst (λ d. IsToken (d ∷ s) parts) (sym dash) (read_unsigned-IsToken true s parts (rw k at h))
  | inr k ↦ read_unsigned-IsToken false (c ∷ s) parts (rw k at h)
]

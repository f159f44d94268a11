-- ===== src/Http/JsonIntegers/Exact.antt =====
-- What it means that a number is exactly what its token says.
use native.Mathlib.Nat.{pow-succ', mul_assoc}
use teslatlas_sdk_typescript.Prelude.{
  ℕ, zero, suc, ◌+◌, ◌-◌, ◌*◌, ◌^◌, ◌≡◌, refl, sym, ◌∙◌, ap, ℤ, pos, negsuc, int_eq-eq, ◌⊎◌, inl,
  inr, true, Option, none, some, [], ◌∷◌, ◌++◌, ◌==◌, length, arith, Bool-cases,
}
use teslatlas_sdk_typescript.Js.Text.{Text, decimal_from}
use teslatlas_sdk_typescript.Js.Json.{integer}
use teslatlas_sdk_typescript.Http.JsonIntegers.Tokens.{
  with_sign, signed-with_sign, IsToken, read_parts-IsToken,
}
use teslatlas_sdk_typescript.Http.JsonIntegers.{
  Parts, signed, read_parts, strip_leading, keep_unless_zero, strip_trailing, scale_of, is_scaled,
  are_digits_exact, are_parts_exact, is_exact_json_integer,
}

ten_pow_add : (a b : ℕ) → 10 ^ (a + b) ≡ 10 ^ a * 10 ^ b
ten_pow_add zero b = rw (zero_add b) (omega arith)
  where
    zero_add : (b : ℕ) → 0 + b ≡ b
    zero_add b = omega arith
ten_pow_add (suc a) b = rw (suc_add a b) (
    pow-succ' 10 (a + b)
    ∙ (ap (λ k. 10 * k) (ten_pow_add a b)
        ∙ (sym (mul_assoc 10 (10 ^ a) (10 ^ b)) ∙ ap (λ k. k * 10 ^ b) (sym (pow-succ' 10 a)))))
  where
    suc_add : (a b : ℕ) → suc a + b ≡ suc (a + b)
    suc_add a b = omega arith

strip_leading-decimal_from : (s : Text) → decimal_from 0 (strip_leading s) ≡ decimal_from 0 s
unfolding strip_leading decimal_from
strip_leading-decimal_from [] = refl
strip_leading-decimal_from (c ∷ s) = elim (Bool-cases (c == b'0')) [
  | inl e ↦ rw e (strip_leading-decimal_from s ∙ ap (λ n. decimal_from n s) (ground (arith, e)))
  | inr e ↦ rw e refl
]

shifted : (x y n k : ℕ) → x ≡ (n * 10 + y) * 10 ^ k → y ≡ 0 → x ≡ n * 10 ^ suc k
shifted x y n k e z =
    e
    ∙ (ap (λ m. m * 10 ^ k) (omega (arith, z))
        ∙ (mul_assoc n 10 (10 ^ k) ∙ ap (λ m. n * m) (sym (pow-succ' 10 k))))

same_power : (x y a b : ℕ) → x ≡ y * 10 ^ a → a ≡ b → x ≡ y * 10 ^ b
same_power x y a b e f = e ∙ ap (λ k. y * 10 ^ k) f

kept :
    (t : Text) (c n k x : ℕ)
    → x ≡ decimal_from (n * 10 + (c - b'0')) t * 10 ^ (k - length t)
    → x ≡ decimal_from n (keep_unless_zero c t) * 10 ^ (suc k - length (keep_unless_zero c t))
unfolding decimal_from keep_unless_zero
kept [] c n k x e = elim (Bool-cases (c == b'0')) [
  | inl z ↦ rw z (
      same_power x n (suc k) (suc k - 0)
        (shifted x (c - b'0') n k (same_power x (n * 10 + (c - b'0')) (k - 0) k e (omega arith))
          (ground (arith, z)))
        (omega arith))
  | inr z ↦ rw z (same_power x (n * 10 + (c - b'0')) (k - 0) (suc k - suc 0) e (omega arith))
]
kept (d ∷ t) c n k x e =
    same_power x _ (k - suc (length t)) (suc k - suc (suc (length t))) e (omega arith)

-- The zeros at the end are a power of ten.
strip_trailing-decimal_from :
    (n : ℕ) (s : Text)
    → decimal_from n s
      ≡ decimal_from n (strip_trailing s) * 10 ^ (length s - length (strip_trailing s))
unfolding decimal_from strip_trailing
strip_trailing-decimal_from n [] = omega arith
strip_trailing-decimal_from n (c ∷ s) =
    kept (strip_trailing s) c n (length s) _ (strip_trailing-decimal_from (n * 10 + (c - b'0')) s)

-- The exponent above and below zero.
pub up : ℤ → ℕ
up (pos e) = e
up (negsuc e) = 0

pub down : ℤ → ℕ
down (pos e) = 0
down (negsuc e) = e + 1

-- The digits of the token, without its point.
pub mantissa : Parts → ℕ
mantissa parts = decimal_from 0 (parts.whole ++ parts.decimals)

-- The value is the mantissa, shifted by the digits behind the point and the exponent, with the sign.
pub IsExactly : ℤ → Parts → Type 0
IsExactly value parts =
    (m : ℕ) × (value ≡ with_sign parts.negative m)
    × (m * 10 ^ (length parts.decimals + down parts.exponent)
        ≡ mantissa parts * 10 ^ up parts.exponent)

scale_of-sum :
    (e : ℤ) (trailing decimals k : ℕ)
    → scale_of e trailing decimals ≡ some k
    → k + (decimals + down e) ≡ trailing + up e
unfolding scale_of up down
scale_of-sum (pos e) trailing decimals k h = ground (arith, h)
scale_of-sum (negsuc e) trailing decimals k h = ground (arith, h)

-- A product with powers of ten, put together in another way.
regrouped : (x n k a t u : ℕ) → n ≡ x * 10 ^ t → k + a ≡ t + u → x * 10 ^ k * 10 ^ a ≡ n * 10 ^ u
regrouped x n k a t u e f =
    mul_assoc x (10 ^ k) (10 ^ a)
    ∙ (ap (λ p. x * p) (sym (ten_pow_add k a) ∙ (ap (λ j. 10 ^ j) f ∙ ten_pow_add t u))
        ∙ (sym (mul_assoc x (10 ^ t) (10 ^ u)) ∙ ap (λ m. m * 10 ^ u) (sym e)))

is_scaled-IsExactly :
    (value : ℤ) (parts : Parts) (significant : Text) (trailing : ℕ) (scale : Option ℕ)
    → mantissa parts ≡ decimal_from 0 significant * 10 ^ trailing
    → scale_of parts.exponent trailing (length parts.decimals) ≡ scale
    → is_scaled value parts.negative significant scale ≡ true
    → IsExactly value parts
unfolding is_scaled IsExactly
is_scaled-IsExactly value parts significant trailing none e f h = ground (arith, h)
is_scaled-IsExactly value parts significant trailing (some k) e f h =
    let x = decimal_from 0 significant in
    (
      x * 10 ^ k,
      sym (int_eq-eq (signed parts.negative (x * 10 ^ k)) value (ground (arith, h)))
          ∙ signed-with_sign parts.negative (x * 10 ^ k),
      regrouped x (mantissa parts) k _ trailing (up parts.exponent) e
          (scale_of-sum parts.exponent trailing (length parts.decimals) k f),
    )

are_digits_exact-IsExactly :
    (value : ℤ) (parts : Parts) (digits : Text)
    → mantissa parts ≡ decimal_from 0 digits
    → are_digits_exact value parts digits ≡ true
    → (mantissa parts ≡ 0) ⊎ IsExactly value parts
unfolding are_digits_exact
are_digits_exact-IsExactly value parts [] e h = inl (unfold decimal_from in e)
are_digits_exact-IsExactly value parts (c ∷ s) e h =
    let significant = strip_trailing (c ∷ s) in
    inr (
      is_scaled-IsExactly value parts significant (length (c ∷ s) - length significant) _
        (e ∙ strip_trailing-decimal_from 0 (c ∷ s)) refl h)

are_parts_exact-IsExactly :
    (value : ℤ) (found : Option Parts)
    → are_parts_exact value found ≡ true
    → (parts : Parts) × (found ≡ some parts) × ((mantissa parts ≡ 0) ⊎ IsExactly value parts)
unfolding are_parts_exact mantissa
are_parts_exact-IsExactly value none h = ground (arith, h)
are_parts_exact-IsExactly value (some parts) h = (
  parts,
  refl,
  unfold mantissa in
      are_digits_exact-IsExactly value parts (strip_leading (parts.whole ++ parts.decimals))
        (unfold mantissa in sym (strip_leading-decimal_from (parts.whole ++ parts.decimals))) h,
)

-- An integer that is taken as exact is what its token says: the token is a sign, digits, a fraction and
-- an exponent, and the value is the digits before and behind the point, shifted by the exponent, with
-- the sign. A token without a digit above 0 is taken as it is.
pub is_exact_json_integer-IsExactly :
    (value : ℤ) (token : Text)
    → is_exact_json_integer (integer value) (some token) ≡ true
    → (parts : Parts) × IsToken token parts × ((mantissa parts ≡ 0) ⊎ IsExactly value parts)
unfolding is_exact_json_integer
is_exact_json_integer-IsExactly value token h =
    let (parts, found, exact) = are_parts_exact-IsExactly value (read_parts token) h in
    (parts, read_parts-IsToken token parts found, exact)

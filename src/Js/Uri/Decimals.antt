-- ===== src/Js/Uri/Decimals.antt =====
-- The text of a natural number: it can be read back, and is made of digits.
use teslatlas_sdk_typescript.Prelude.{
  ℕ, zero, suc, ◌+◌, ◌/◌, ◌%◌, ◌≡◌, ◌<◌, refl, ap, ◌∙◌, inl, inr, false, [], ◌∷◌, ltb, arith,
  Bool-cases,
}
use teslatlas_sdk_typescript.Js.Text.{Text, has_unit, decimal_from}
use teslatlas_sdk_typescript.Js.Uri.{digits_onto, decimal_text}

digits_onto-decimal_from :
    (fuel n : ℕ) (acc : Text)
    → n < fuel
    → decimal_from 0 (digits_onto fuel n acc) ≡ decimal_from n acc
unfolding digits_onto decimal_from
digits_onto-decimal_from zero n acc h = absurd (omega (arith, h))
digits_onto-decimal_from (suc fuel) n acc h = elim (Bool-cases (ltb n 10)) [
  | inl e ↦ rw e (ap (λ k. decimal_from k acc) (ground (arith, e)))
  | inr e ↦ rw e (
      digits_onto-decimal_from fuel (n / 10) ((b'0' + n % 10) ∷ acc) (ground (arith, e, h))
      ∙ ap (λ k. decimal_from k acc) (omega arith))
]

pub decimal_from-decimal_text : (n : ℕ) → decimal_from 0 (decimal_text n) ≡ n
unfolding decimal_text
decimal_from-decimal_text n =
    digits_onto-decimal_from (suc n) n [] (omega arith) ∙ unfold decimal_from in refl

digits_onto-has_unit :
    (fuel n c : ℕ) (acc : Text) → c < b'0' → has_unit (digits_onto fuel n acc) c ≡ has_unit acc c
unfolding digits_onto has_unit
digits_onto-has_unit zero n c acc h = refl
digits_onto-has_unit (suc fuel) n c acc h = elim (Bool-cases (ltb n 10)) [
  | inl e ↦ rw e (ground (arith, h))
  | inr e ↦ rw e (
      digits_onto-has_unit fuel (n / 10) c ((b'0' + n % 10) ∷ acc) h
      ∙ (unfold has_unit in ground (arith, h)))
]

-- A unit before the digits is not in the text.
pub decimal_text-has_unit : (n c : ℕ) → c < b'0' → has_unit (decimal_text n) c ≡ false
unfolding decimal_text
decimal_text-has_unit n c h = digits_onto-has_unit (suc n) n c [] h ∙ unfold has_unit in refl

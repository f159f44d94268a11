-- ===== src/Hub/Drives/Bindings.antt =====
-- The text that src/hub/client.ts binds a cursor to tells queries of another vehicle or range apart.
use teslatlas_sdk_typescript.Prelude.{
  ℕ, ◌+◌, ℤ, pos, negsuc, ◌≡◌, refl, sym, subst, ap, ◌∙◌, false, [], ◌∷◌, ◌++◌, arith, append_assoc,
}
use teslatlas_sdk_typescript.Js.Text.{Text, has_unit, decimal_from}
use teslatlas_sdk_typescript.Js.Uri.{decimal_text}
use teslatlas_sdk_typescript.Js.Uri.Decimals.{decimal_from-decimal_text, decimal_text-has_unit}
use teslatlas_sdk_typescript.Hub.Drives.{DrivesQuery, int_text, first_ms, end_ms, cursor_binding}

-- The same vehicle and range, with the bounds that are not given filled in.
unfoldable pub IsSameScope : DrivesQuery → DrivesQuery → Type 0
IsSameScope query other =
    (query.vehicle_id ≡ other.vehicle_id)
    × (first_ms query ≡ first_ms other)
    × (end_ms query ≡ end_ms other)

-- Two texts are cut at the first of a unit in one way alone.
cut_once :
    (c : ℕ) (a b s t : Text)
    → has_unit a c ≡ false
    → has_unit b c ≡ false
    → a ++ (c ∷ s) ≡ b ++ (c ∷ t)
    → (a ≡ b) × (s ≡ t)
unfolding has_unit
cut_once c [] [] s t h k e = (refl, cc)
cut_once c [] (y ∷ b) s t h k e = let same : c ≡ y = cc in absurd (ground (arith, same, k))
cut_once c (x ∷ a) [] s t h k e = let same : x ≡ c = cc in absurd (ground (arith, same, h))
cut_once c (x ∷ a) (y ∷ b) s t h k e =
    let same : x ≡ y = cc in
    let (front, back) = cut_once c a b s t (ground (arith, h)) (ground (arith, k)) cc in
    (cc (same, front), back)

int_text-has_unit : (i : ℤ) → has_unit (int_text i) 0 ≡ false
unfolding int_text has_unit
int_text-has_unit (pos n) = decimal_text-has_unit n 0 (omega arith)
int_text-has_unit (negsuc n) = decimal_text-has_unit (n + 1) 0 (omega arith)

decimal_text_injective : (m n : ℕ) → decimal_text m ≡ decimal_text n → m ≡ n
decimal_text_injective m n e =
    sym (decimal_from-decimal_text m) ∙ (ap (decimal_from 0) e ∙ decimal_from-decimal_text n)

-- A text without the sign is not one with it.
signless : (n : ℕ) (s : Text) → decimal_text n ≡ b'-' ∷ s → ⊥
unfolding has_unit
signless n s e =
    let bad : has_unit (b'-' ∷ s) b'-' ≡ false =
      subst (λ t. has_unit t b'-' ≡ false) e (decimal_text-has_unit n b'-' (omega arith)) in
    ground (arith, bad)

int_text_injective : (i j : ℤ) → int_text i ≡ int_text j → i ≡ j
unfolding int_text
int_text_injective (pos m) (pos n) e = ap pos (decimal_text_injective m n e)
int_text_injective (pos m) (negsuc n) e = absurd (signless m (decimal_text (n + 1)) e)
int_text_injective (negsuc m) (pos n) e = absurd (signless n (decimal_text (m + 1)) (sym e))
int_text_injective (negsuc m) (negsuc n) e =
    let same : m + 1 ≡ n + 1 = decimal_text_injective (m + 1) (n + 1) cc in
    ap negsuc (omega (arith, same))

-- An identifier of a vehicle has no unit 0, which ends it in the binding.
pub cursor_binding-IsSameScope :
    (query other : DrivesQuery)
    → has_unit query.vehicle_id 0 ≡ false
    → has_unit other.vehicle_id 0 ≡ false
    → cursor_binding query ≡ cursor_binding other
    → IsSameScope query other
unfolding cursor_binding IsSameScope
cursor_binding-IsSameScope query other h k e =
    let (vehicle, range) =
      cut_once 0 query.vehicle_id other.vehicle_id
        (int_text (first_ms query) ++ (0 ∷ int_text (end_ms query)))
        (int_text (first_ms other) ++ (0 ∷ int_text (end_ms other))) h k
        (sym (
            append_assoc query.vehicle_id (0 ∷ int_text (first_ms query))
              (0 ∷ int_text (end_ms query)))
          ∙ (e
              ∙ append_assoc other.vehicle_id (0 ∷ int_text (first_ms other))
                  (0 ∷ int_text (end_ms other)))) in
    let (first, last) =
      cut_once 0 (int_text (first_ms query)) (int_text (first_ms other)) (int_text (end_ms query))
        (int_text (end_ms other)) (int_text-has_unit (first_ms query))
        (int_text-has_unit (first_ms other)) range in
    (
      vehicle,
      int_text_injective (first_ms query) (first_ms other) first,
      int_text_injective (end_ms query) (end_ms other) last,
    )

-- ===== src/Js/Text.antt =====
-- Texts: lists of UTF-16 code units, and the string methods that the sources call on them.
use Prim.Native.Char.{code}
use Prim.Native.String.{String}
use teslatlas_sdk_typescript.Prelude.{
  ℕ, ◌+◌, ◌-◌, ◌*◌, ◌≡◌, refl, ◌↔◌, Bool, true, false, ◌&&◌, ◌||◌, Option, none, some, List, [],
  ◌∷◌, ◌++◌, arith, leb, ◌==◌, if◌then◌else◌, all,
}

abbrev pub Text : Type 0
Text = List ℕ

-- A literal of the source.
abbrev pub codes : String → Text
codes String.[] = []
codes (String.◌∷◌ c s) = code c ∷ codes s

-- `left === right`.
unfoldable pub text_eq : Text → Text → Bool
text_eq [] [] = true
text_eq [] (y ∷ ys) = false
text_eq (x ∷ xs) [] = false
text_eq (x ∷ xs) (y ∷ ys) = x == y && text_eq xs ys

pub text_eq_iff : (s t : Text) → (text_eq s t ≡ true) ↔ (s ≡ t)
unfolding text_eq
text_eq_iff [] [] = ground arith
text_eq_iff [] (y ∷ ys) = ground arith
text_eq_iff (x ∷ xs) [] = ground arith
text_eq_iff (x ∷ xs) (y ∷ ys) = ground (arith, text_eq_iff xs ys)

pub text_eq_refl : (s : Text) → text_eq s s ≡ true
text_eq_refl s = (text_eq_iff s s).1 refl

-- `value.startsWith(prefix)`.
unfoldable pub starts_with : Text → Text → Bool
starts_with s [] = true
starts_with [] (p ∷ ps) = false
starts_with (c ∷ s) (p ∷ ps) = c == p && starts_with s ps

-- `values.includes(value)`, over texts; `value.includes(character)` over code units.
unfoldable pub includes : List Text → Text → Bool
unfolding text_eq
includes [] t = false
includes (s ∷ ss) t = text_eq s t || includes ss t

unfoldable pub has_unit : Text → ℕ → Bool
has_unit [] c = false
has_unit (x ∷ s) c = x == c || has_unit s c

-- `value.indexOf(character)` with the slices on its two sides: `none` stands for -1.
unfoldable pub cut_at : ℕ → Text → Option (Text × Text)
cut_at c [] = none
cut_at c (x ∷ s) =
    if x == c
    then some ([], s)
    else (elim (cut_at c s) [ none ↦ none | some (before, after) ↦ some (x ∷ before, after) ])

-- `value.split(separator)` for a separator of one code unit.
unfoldable pub split : ℕ → Text → List Text
split c [] = [] ∷ []
split c (x ∷ s) =
    let rest = split c s in
    if x == c
    then [] ∷ rest
    else elim rest [ [] ↦ (x ∷ []) ∷ [] | part ∷ parts ↦ (x ∷ part) ∷ parts ]

-- `pieces.join(separator)`.
unfoldable pub join : Text → List Text → Text
join sep [] = []
join sep (s ∷ []) = s
join sep (s ∷ t ∷ ts) = s ++ (sep ++ join sep (t ∷ ts))

abbrev pub is_digit : ℕ → Bool
is_digit c = leb b'0' c && leb c b'9'

-- `/^\d+$/u.test(value)`
unfoldable pub is_digits : Text → Bool
is_digits [] = false
is_digits (c ∷ s) = all is_digit (c ∷ s)

-- `Number(value)` of a run of digits, as the exact number.
unfoldable pub decimal_from : ℕ → Text → ℕ
decimal_from n [] = n
decimal_from n (c ∷ s) = decimal_from (n * 10 + (c - b'0')) s

-- The value that `Number.isSafeInteger` bounds: 2 ** 53 - 1.
abbrev pub max_safe_integer : ℕ
max_safe_integer = 9007199254740991

-- `pieces.join("")`.
unfoldable pub concat : List Text → Text
concat [] = []
concat (s ∷ ss) = s ++ concat ss

pub includes-append_one :
    (xs : List Text) (t u : Text) → includes (xs ++ t ∷ []) u ≡ (includes xs u || text_eq t u)
unfolding includes
includes-append_one [] t u = ground arith
includes-append_one (x ∷ xs) t u = ground (arith, includes-append_one xs t u)

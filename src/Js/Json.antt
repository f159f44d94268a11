-- ===== src/Js/Json.antt =====
-- JSON values, as `JSON.parse` gives them: trees, whose numbers say what the sources ask of them. The
-- members of an object have the order of `Object.keys`.
use teslatlas_sdk_typescript.Prelude.{
  ℕ, ℤ, pos, negsuc, ◌≡◌, ap, Bool, true, false, not, Option, none, some, ◌==◌, if◌then◌else◌,
}
use teslatlas_sdk_typescript.Js.Text.{Text, text_eq, text_eq_iff}

pub data Number : Type 0 where
  integer : ℤ → Number
  -- By what tells two of them apart.
  fraction infinite : ℕ → Number

mutual
  pub data Json : Type 0 where
    null : Json
    boolean : Bool → Json
    number : Number → Json
    string : Text → Json
    array object : Members → Json

  -- The children of an array, whose keys are its indices, or of an object.
  pub data Members : Type 0 where
    end : Members
    member : Text → Json → Members → Members

-- `Number.isFinite(value)`
unfoldable pub is_finite : Number → Bool
is_finite (infinite n) = false
is_finite _ = true

unfoldable pub member_of : Members → Text → Option Json
member_of end key = none
member_of (member name value rest) key = if text_eq name key then some value else member_of rest key

-- `value.key`: `none` stands for `undefined`.
unfoldable pub field : Json → Text → Option Json
unfolding member_of
field (object members) key = member_of members key
field _ key = none

same_integer : ℤ → ℤ → Bool
same_integer (pos m) (pos n) = m == n
same_integer (negsuc m) (negsuc n) = m == n
same_integer _ _ = false

same_number : Number → Number → Bool
unfolding same_integer
same_number (integer m) (integer n) = same_integer m n
same_number (fraction m) (fraction n) = m == n
same_number (infinite m) (infinite n) = m == n
same_number _ _ = false

-- `left === right` on two parts of values: an array or an object equals only itself, and no part
-- is given twice.
unfoldable pub strict_eq : Option Json → Option Json → Bool
unfolding same_number
strict_eq none none = true
strict_eq (some null) (some null) = true
strict_eq (some (boolean true)) (some (boolean b)) = b
strict_eq (some (boolean false)) (some (boolean b)) = not b
strict_eq (some (number m)) (some (number n)) = same_number m n
strict_eq (some (string s)) (some (string t)) = text_eq s t
strict_eq _ _ = false

pub strict_eq-string :
    (o : Option Json) (t : Text) → strict_eq o (some (string t)) ≡ true → o ≡ some (string t)
unfolding strict_eq
strict_eq-string (some (string s)) t h = ap (λ x. some (string x)) ((text_eq_iff s t).0 h)
strict_eq-string none t h = cc
strict_eq-string (some null) t h = cc
strict_eq-string (some (boolean true)) t h = cc
strict_eq-string (some (boolean false)) t h = cc
strict_eq-string (some (number m)) t h = cc
strict_eq-string (some (array m)) t h = cc
strict_eq-string (some (object m)) t h = cc

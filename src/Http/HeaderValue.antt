-- ===== src/Http/HeaderValue.antt =====
-- What `Headers` of the Fetch API makes of a value: the white space at its two ends is left off, and a
-- value that is no byte string, or has a unit that no header can have, is a `TypeError`.
use teslatlas_sdk_typescript.Prelude.{ℕ, Bool, ◌||◌, [], ◌∷◌, ltb, ◌==◌, if◌then◌else◌, any}
use teslatlas_sdk_typescript.Js.Text.{Text}
use teslatlas_sdk_typescript.Core.Errors.{SdkError, Result, ok, ◌>>◌, throw_if, foreign}

abbrev pub header_type_error : SdkError
header_type_error = foreign 2

abbrev pub is_header_space : ℕ → Bool
is_header_space c = c == 32 || (c == 9 || (c == 10 || c == 13))

drop_spaces : Text → Text
drop_spaces [] = []
drop_spaces (c ∷ s) = if is_header_space c then drop_spaces s else c ∷ s

unless_space : ℕ → Text → Text
unless_space c [] = if is_header_space c then [] else c ∷ []
unless_space c (d ∷ s) = c ∷ d ∷ s

drop_last_spaces : Text → Text
unfolding unless_space
drop_last_spaces [] = []
drop_last_spaces (c ∷ s) = unless_space c (drop_last_spaces s)

unfoldable pub header_value : Text → Text
unfolding drop_spaces drop_last_spaces
header_value value = drop_last_spaces (drop_spaces value)

abbrev pub is_bad_header_unit : ℕ → Bool
is_bad_header_unit c = ltb 255 c || (c == 0 || (c == 10 || c == 13))

unfoldable pub checked_value : Text → Result Text
unfolding header_value
checked_value value = do
  throw_if (any is_bad_header_unit (header_value value)) header_type_error
  ok (header_value value)

-- ===== src/Http/ProtocolJson.antt =====
-- `parseProtocolJson` and `numericMirror` of src/http/bounded-json.ts. The
-- parameter is `JSON.parse`. The tokens of the numbers, which the source keeps by the object and the
-- key that hold them, stand in the tree.
use teslatlas_sdk_typescript.Prelude.{
  ℕ, zero, suc, Bool, true, false, ◌&&◌, ◌||◌, not, Option, none, some, String, [], ◌∷◌, ◌++◌, ◌==◌,
  if◌then◌else◌, length,
}
use teslatlas_sdk_typescript.Js.Text.{Text, is_digit}
use teslatlas_sdk_typescript.Js.Json.{
  Json, Members, Number, null, boolean, number, string, array, object, end, member, member_of,
}
use teslatlas_sdk_typescript.Core.Errors.{Result, ok, err, ◌>>=◌, ◌>>◌, protocol_validation}
use teslatlas_sdk_typescript.Core.Version.{span, ◌>>=?◌}
use teslatlas_sdk_typescript.Http.JsonWalk.{assert_finite_numbers}

-- `[eE][+-]?[0-9]+` behind the letter: the sign and the digits.
unfoldable pub exponent_digits : Text → Text × Text
exponent_digits [] = ([], [])
exponent_digits (c ∷ s) = if c == b'+' || c == b'-' then (c ∷ [], s) else ([], c ∷ s)

-- What a group that may be absent takes of the text, and the rest.
or_nothing : Text → Text → Text × Text → Text × Text
or_nothing head whole ([], rest) = ([], whole)
or_nothing head whole (c ∷ run, rest) = (head ++ (c ∷ run), rest)

pub fraction_part : Text → Text × Text
unfolding or_nothing
fraction_part [] = ([], [])
fraction_part (c ∷ s) =
    if c == b'.' then or_nothing (c ∷ []) (c ∷ s) (span is_digit s) else ([], c ∷ s)

exponent_tail : ℕ → Text → Text × Text → Text × Text
unfolding or_nothing
exponent_tail c s (sign, rest) = or_nothing (c ∷ sign) (c ∷ s) (span is_digit rest)

pub exponent_part : Text → Text × Text
unfolding exponent_tail
exponent_part [] = ([], [])
exponent_part (c ∷ s) =
    if c == b'e' || c == b'E' then exponent_tail c s (exponent_digits s) else ([], c ∷ s)

-- `0|[1-9][0-9]*`
pub whole_part : Text → Option (Text × Text)
whole_part [] = none
whole_part (c ∷ s) =
    if c == b'0'
    then some (c ∷ [], s)
    else if is_digit c
    then (let (run, rest) = span is_digit s in some (c ∷ run, rest))
    else none

with_tail : Text → Text × Text → Text × Text
unfolding exponent_part
with_tail whole (decimals, rest) =
    let (exponent, after) = exponent_part rest in (whole ++ (decimals ++ exponent), after)

unsigned : Text → Option (Text × Text)
unfolding with_tail fraction_part whole_part
unsigned s = whole_part s >>=? λ (whole, rest). some (with_tail whole (fraction_part rest))

-- `token.exec(source)` at an index: the token, and what follows it.
unfoldable pub match_token : Text → Option (Text × Text)
unfolding unsigned
match_token [] = none
match_token (c ∷ s) =
    if c == b'-'
    then (unsigned s >>=? λ (token, rest). some (c ∷ token, rest))
    else unsigned (c ∷ s)

prepend : ℕ → Text × Text → Text × Text
prepend c (run, rest) = (c ∷ run, rest)

-- The text of a string up to its closing quote, and what follows. A quote closes it if the run of
-- backslashes right before it is of even length.
string_part : Bool → Text → Text × Text
unfolding prepend
string_part escaped [] = ([], [])
string_part escaped (c ∷ s) = elim (c == b'"' && not escaped) [
  | true ↦ (c ∷ [], s)
  | false ↦ prepend c (string_part (c == b'\\' && not escaped) s)
]

-- On fuel: each round takes a unit at least.
mirror : ℕ → Text → Text
unfolding string_part match_token
mirror zero s = s
mirror (suc fuel) [] = []
mirror (suc fuel) (c ∷ s) = elim (c == b'"') [
  | true ↦ let (run, rest) = string_part false s in c ∷ (run ++ mirror fuel rest)
  | false ↦ elim (match_token (c ∷ s)) [
    | none ↦ c ∷ mirror fuel s
    | some (token, rest) ↦ b'"' ∷ (token ++ (b'"' ∷ mirror fuel rest))
  ]
]

unfoldable pub numeric_mirror : Text → Text
unfolding mirror string_part
numeric_mirror source = mirror (length source) source

mutual
  -- A parsed value, with the token of each number that has a parent.
  pub data Wire : Type 0 where
    leaf : Json → Wire
    numeral : Number → Option Text → Wire
    items fields : Entries → Wire

  pub data Entries : Type 0 where
    done : Entries
    entry : Text → Wire → Entries → Entries

unfoldable pub child_of : Option Json → Text → Option Json
child_of (some (object members)) key = member_of members key
child_of (some (array members)) key = member_of members key
child_of _ key = none

unfoldable pub token_of : Option Json → Option Text
token_of (some (string token)) = some token
token_of _ = none

unfoldable mutual
  pub with_tokens : Json → Option Json → Wire
  with_tokens (number n) lexical = numeral n (token_of lexical)
  with_tokens (array members) lexical = items (entries_of members lexical)
  with_tokens (object members) lexical = fields (entries_of members lexical)
  with_tokens null lexical = leaf null
  with_tokens (boolean b) lexical = leaf (boolean b)
  with_tokens (string s) lexical = leaf (string s)

  pub entries_of : Members → Option Json → Entries
  entries_of end lexical = done
  entries_of (member key value rest) lexical =
      entry key (with_tokens value (child_of lexical key)) (entries_of rest lexical)

unfoldable pub or_name : Option Json → String → Result Json
or_name none name = err (protocol_validation name)
or_name (some value) name = ok value

-- The value, and the same with its tokens.
unfoldable pub parse_protocol_json : (Text → Option Json) → Text → String → Result (Json × Wire)
unfolding with_tokens or_name
parse_protocol_json parse source name = do
  lexical ← or_name (parse (numeric_mirror source)) name
  value ← or_name (parse source) name
  assert_finite_numbers value name
  ok (value, with_tokens value (some lexical))

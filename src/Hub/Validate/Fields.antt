-- ===== src/Hub/Validate/Fields.antt =====
-- The walk over the fields reaches every one of them, at every depth.
use teslatlas_sdk_typescript.Prelude.{
  ℕ, zero, suc, ◌+◌, ◌≤◌, ◌≡◌, refl, ◌∙◌, ap, Bool, true, false, ◌||◌, String, List, [], ◌∷◌, arith,
  inl, inr, Bool-cases,
}
use teslatlas_sdk_typescript.Core.Errors.{
  SdkError, Result, ok, ◌>>=◌, ◌>>◌, throw_if, dotted, protocol_validation,
}
use teslatlas_sdk_typescript.Http.ProtocolJson.{
  Wire, Entries, leaf, numeral, items, fields, done, entry,
}
use teslatlas_sdk_typescript.Hub.Validate.{
  is_bad_field, push_entries, reject_loop, wire_size, entries_size, reject_inexact_integer_fields,
}

unfoldable mutual
  -- Some integer field, anywhere in the tree, holds a number that is not an exact 64-bit integer.
  pub has_bad_field : Wire → Bool
  has_bad_field (items entries) = has_bad_entry entries
  has_bad_field (fields entries) = has_bad_entry entries
  has_bad_field _ = false

  pub has_bad_entry : Entries → Bool
  has_bad_entry done = false
  has_bad_entry (entry key value rest) =
      is_bad_field key value || (has_bad_field value || has_bad_entry rest)

-- The same of the pending values.
any_bad : List Wire → Bool
any_bad [] = false
any_bad (value ∷ pending) = has_bad_field value || any_bad pending

sizes : List Wire → ℕ
sizes [] = 0
sizes (value ∷ pending) = wire_size value + sizes pending

-- What is pushed.
pushed : Entries → List Wire → List Wire
pushed done pending = pending
pushed (entry key value rest) pending = pushed rest (value ∷ pending)

has_bad_here : Entries → Bool
has_bad_here done = false
has_bad_here (entry key value rest) = is_bad_field key value || has_bad_here rest

push_entries-pushed :
    (failure : SdkError) (entries : Entries) (pending : List Wire)
    → push_entries failure entries pending
      ≡ (throw_if (has_bad_here entries) failure >> ok (pushed entries pending))
unfolding push_entries pushed has_bad_here
push_entries-pushed failure done pending = refl
push_entries-pushed failure (entry key value rest) pending =
    elim (Bool-cases (is_bad_field key value)) [
      | inl e ↦ rw e refl
      | inr e ↦ rw e (push_entries-pushed failure rest (value ∷ pending))
    ]

sizes-pushed :
    (entries : Entries) (pending : List Wire)
    → sizes (pushed entries pending) ≡ entries_size entries + sizes pending
unfolding sizes pushed entries_size
sizes-pushed done pending = omega arith
sizes-pushed (entry key value rest) pending = omega (arith, sizes-pushed rest (value ∷ pending))

or_moved : (d e p : Bool) → (e || (d || p)) ≡ ((d || e) || p)
or_moved true true p = refl
or_moved true false p = refl
or_moved false e p = refl

or_regroup :
    (b h a d e p : Bool) → (h || a) ≡ (e || (d || p)) → ((b || h) || a) ≡ ((b || (d || e)) || p)
or_regroup true h a d e p eq = refl
or_regroup false h a d e p eq = eq ∙ or_moved d e p

any_bad-pushed :
    (entries : Entries) (pending : List Wire)
    → (has_bad_here entries || any_bad (pushed entries pending))
      ≡ (has_bad_entry entries || any_bad pending)
unfolding any_bad pushed has_bad_here has_bad_entry
any_bad-pushed done pending = refl
any_bad-pushed (entry key value rest) pending =
    or_regroup (is_bad_field key value) (has_bad_here rest) _ (has_bad_field value)
      (has_bad_entry rest) (any_bad pending) (any_bad-pushed rest (value ∷ pending))

-- A level, and then what was pushed.
level-eq-throw_if :
    (failure : SdkError) (here deep : Bool) (pending : List Wire)
    (next : List Wire → Result (Unit {0}))
    → next pending ≡ throw_if deep failure
    → ((throw_if here failure >> ok pending) >>= next) ≡ throw_if (here || deep) failure
level-eq-throw_if failure true deep pending next e = refl
level-eq-throw_if failure false deep pending next e = e

-- One round on an object or an array.
level-eq-any_bad :
    (failure : SdkError) (entries : Entries) (pending : List Wire)
    (next : List Wire → Result (Unit {0}))
    → next (pushed entries pending) ≡ throw_if (any_bad (pushed entries pending)) failure
    → (push_entries failure entries pending >>= next)
      ≡ throw_if (has_bad_entry entries || any_bad pending) failure
level-eq-any_bad failure entries pending next e =
    ap (λ r. r >>= next) (push_entries-pushed failure entries pending)
    ∙ (level-eq-throw_if failure (has_bad_here entries) (any_bad (pushed entries pending))
          (pushed entries pending) next e
        ∙ ap (λ b. throw_if b failure) (any_bad-pushed entries pending))

reject_loop-eq-any_bad :
    (failure : SdkError) (fuel : ℕ) (pending : List Wire)
    → sizes pending ≤ fuel
    → reject_loop failure fuel pending ≡ throw_if (any_bad pending) failure
unfolding reject_loop sizes any_bad has_bad_field wire_size
reject_loop-eq-any_bad failure zero [] h = refl
reject_loop-eq-any_bad failure (suc fuel) [] h = refl
reject_loop-eq-any_bad failure zero (leaf v ∷ pending) h = ground (arith, h)
reject_loop-eq-any_bad failure zero (numeral v t ∷ pending) h = ground (arith, h)
reject_loop-eq-any_bad failure zero (items es ∷ pending) h = ground (arith, h)
reject_loop-eq-any_bad failure zero (fields es ∷ pending) h = ground (arith, h)
reject_loop-eq-any_bad failure (suc fuel) (leaf v ∷ pending) h =
    reject_loop-eq-any_bad failure fuel pending (omega (arith, h))
reject_loop-eq-any_bad failure (suc fuel) (numeral v t ∷ pending) h =
    reject_loop-eq-any_bad failure fuel pending (omega (arith, h))
reject_loop-eq-any_bad failure (suc fuel) (items es ∷ pending) h =
    level-eq-any_bad failure es pending (reject_loop failure fuel) (
      reject_loop-eq-any_bad failure fuel (pushed es pending)
        (omega (arith, h, sizes-pushed es pending)))
reject_loop-eq-any_bad failure (suc fuel) (fields es ∷ pending) h =
    level-eq-any_bad failure es pending (reject_loop failure fuel) (
      reject_loop-eq-any_bad failure fuel (pushed es pending)
        (omega (arith, h, sizes-pushed es pending)))

one_size : (value : Wire) → sizes (value ∷ []) ≤ wire_size value
unfolding sizes
one_size value = omega arith

one_bad : (value : Wire) → any_bad (value ∷ []) ≡ has_bad_field value
unfolding any_bad
one_bad value = ground arith

-- The walk throws exactly if some integer field, at any depth, holds a number that is not an exact
-- 64-bit integer, and it never runs out of fuel.
pub reject_inexact_integer_fields-eq-has_bad_field :
    (value : Wire) (name : String)
    → reject_inexact_integer_fields value name
      ≡ throw_if (has_bad_field value) (protocol_validation (dotted name ".integer"))
unfolding reject_inexact_integer_fields
reject_inexact_integer_fields-eq-has_bad_field value name =
    let failure = protocol_validation (dotted name ".integer") in
    reject_loop-eq-any_bad failure (wire_size value) (value ∷ []) (one_size value)
    ∙ ap (λ b. throw_if b failure) (one_bad value)

-- ===== src/Client/Pages.antt =====
-- `iteratePages` of src/client/operations.ts. The caller's `load` is a parameter: it is given the
-- number of the call, since it may answer differently each time, and the cursor, the one option that
-- the loop changes. The generator is run to its end; a trace holds what it asked for and yielded.
pub mod Laws
use teslatlas_sdk_typescript.Prelude.{
  ℕ, zero, suc, ◌+◌, Bool, true, false, String, Option, none, some, List, [], ◌∷◌, ◌++◌,
  if◌then◌else◌,
}
use teslatlas_sdk_typescript.Js.Text.{Text, includes}
use teslatlas_sdk_typescript.Core.Errors.{SdkError, Result, ok, err, protocol_validation}

pub data ReadResult {ℓ} (A : Type ℓ) : Type ℓ where
  modified : A → ReadResult A
  not_modified : ReadResult A

-- `unfinished`: the fuel ran out.
pub data Ending : Type 0 where
  returned unfinished : Ending
  threw : SdkError → Ending

pub record Trace {ℓ} (A : Type ℓ) : Type ℓ where
  pub requested : List (Option Text)
  pub yielded : List A
  pub ending : Ending

abbrev one {ℓ} : {A : Type ℓ} → Option Text → List A → Ending → Trace A
one cursor pages ending = record { requested = cursor ∷ []; yielded = pages; ending = ending }

abbrev then_trace {ℓ} : {A : Type ℓ} → Option Text → A → Trace A → Trace A
then_trace cursor page t = record {
  requested = cursor ∷ t.requested;
  yielded = page ∷ t.yielded;
  ending = t.ending;
}

-- The cursors seen before the first call.
abbrev pub start : Option Text → List Text
start none = []
start (some cursor) = cursor ∷ []

module _ {ℓ} {A : Type ℓ} (load : ℕ → Option Text → Result (ReadResult A))
    (next_cursor : A → Option Text) where
  -- The loop, on fuel, at call `n`.
  pub iterate_from : ℕ → ℕ → Option Text → List Text → Trace A
  iterate_from zero n cursor seen = record { requested = []; yielded = []; ending = unfinished }
  iterate_from (suc fuel) n cursor seen = elim (load n cursor) [
    | err e ↦ one cursor [] (threw e)
    | ok not_modified ↦ one cursor [] returned
    | ok (modified page) ↦ elim (next_cursor page) [
      | none ↦ one cursor (page ∷ []) returned
      | some next ↦ elim (includes seen next) [
        | true ↦ one cursor (page ∷ []) (threw (protocol_validation "pagination.next_cursor"))
        | false ↦ then_trace cursor page (iterate_from fuel (n + 1) (some next) (seen ++ next ∷ []))
      ]
    ]
  ]

  unfoldable pub iterate_pages : ℕ → Option Text → Trace A
  unfolding iterate_from
  iterate_pages fuel cursor = iterate_from fuel 0 cursor (start cursor)

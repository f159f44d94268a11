-- ===== src/Protocol/Capabilities.antt =====
-- src/protocol/capabilities.ts
use teslatlas_sdk_typescript.Prelude.{
  ◌≡◌, refl, ◌⊎◌, true, false, inl, inr, Option, none, some, List, [], ◌∷◌, if◌then◌else◌, map,
  Bool-cases,
}
use teslatlas_sdk_typescript.Js.Text.{Text, text_eq, text_eq_iff, includes}
use teslatlas_sdk_typescript.Core.Errors.{Result, ok, err, ◌>>=◌, missing_capability}
use teslatlas_sdk_typescript.Core.Capabilities.{as_capability_id}
use teslatlas_sdk_typescript.Protocol.Models.{Capability, HubDescriptor}

find_capability : List Capability → Text → Option Capability
find_capability [] id = none
find_capability (candidate ∷ rest) id =
    if text_eq candidate.id id then some candidate else find_capability rest id

or_missing : Text → Option Capability → Result Capability
or_missing id none = err (missing_capability id)
or_missing id (some found) = ok found

unfoldable pub require_capability : HubDescriptor → Text → Result Capability
unfolding find_capability or_missing
require_capability descriptor capability = do
  id ← as_capability_id capability
  or_missing id (find_capability descriptor.capabilities id)

abbrev pub ids : List Capability → List Text
ids cs = map (λ c. c.id) cs

find_capability-ids :
    (cs : List Capability) (id : Text)
    → ((found : Capability) × (find_capability cs id ≡ some found)
        × (found.id ≡ id)
        × (includes (ids cs) id ≡ true))
      ⊎ ((find_capability cs id ≡ none) × (includes (ids cs) id ≡ false))
unfolding find_capability includes
find_capability-ids [] id = inr (refl, refl)
find_capability-ids (c ∷ cs) id = elim (Bool-cases (text_eq c.id id)) [
  | inl e ↦ inl (c, rw e refl, (text_eq_iff c.id id).0 e, rw e refl)
  | inr e ↦ elim (find_capability-ids cs id) [
    | inl (found, a, b, d) ↦ inl (found, rw e a, b, rw e d)
    | inr (a, d) ↦ inr (rw e a, rw e d)
  ]
]

-- A valid identifier is required with success exactly when the descriptor advertises it; what is
-- returned has that identifier, and otherwise the error names it.
pub require_capability_cases :
    (descriptor : HubDescriptor) (capability : Text)
    → as_capability_id capability ≡ ok capability
    → ((found : Capability) × (require_capability descriptor capability ≡ ok found)
        × (found.id ≡ capability)
        × (includes (ids descriptor.capabilities) capability ≡ true))
      ⊎ ((require_capability descriptor capability ≡ err (missing_capability capability))
          × (includes (ids descriptor.capabilities) capability ≡ false))
unfolding require_capability
require_capability_cases descriptor capability h =
    elim (find_capability-ids descriptor.capabilities capability) [
      | inl (found, a, b, c) ↦ inl (found, rw h (rw a refl), b, c)
      | inr (a, c) ↦ inr (rw h (rw a refl), c)
    ]

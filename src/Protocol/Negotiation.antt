-- ===== src/Protocol/Negotiation.antt =====
-- src/protocol/negotiation.ts. A comparison gives the sign of the first difference that is not 0.
pub mod Order
pub mod Best
use Prim.Native.Nat.{compare, Ordering}
use teslatlas_sdk_typescript.Prelude.{
  ℕ, Bool, true, false, ◌&&◌, ◌||◌, not, List, [], ◌∷◌, ◌==◌, if◌then◌else◌, String,
}
use teslatlas_sdk_typescript.Js.Text.{Text, codes, includes}
use teslatlas_sdk_typescript.Core.Errors.{
  Result, ok, err, ◌>>=◌, ◌>>◌, throw_if, incompatible_protocol,
}
use teslatlas_sdk_typescript.Core.Version.{ProtocolVersion, parse_protocol_version}
use teslatlas_sdk_typescript.Protocol.Models.{HubDescriptor}

-- `lockedProtocolVersions.toReversed()`
abbrev pub newest_first : List Text
newest_first = codes "1.2.0" ∷ codes "1.1.0" ∷ codes "1.0.0" ∷ []

abbrev then_by : Ordering → Ordering → Ordering
then_by Ordering.eq next = next
then_by first next = first

unfoldable pub compare_versions : ProtocolVersion → ProtocolVersion → Ordering
compare_versions left right =
    then_by (compare left.major right.major)
      (then_by (compare left.minor right.minor) (compare left.patch right.patch))

abbrev pub at_most : ProtocolVersion → ProtocolVersion → Bool
at_most left right = elim (compare_versions left right) [ Ordering.gt ↦ false | _ ↦ true ]

pub first_usable : HubDescriptor → ProtocolVersion → ProtocolVersion → List Text → Result Text
first_usable descriptor requested minimum [] = err incompatible_protocol
first_usable descriptor requested minimum (version ∷ versions) = do
  candidate ← parse_protocol_version version
  let rest = first_usable descriptor requested minimum versions
  if includes descriptor.supported_versions version
        && (at_most candidate requested && at_most minimum candidate)
      then ok version
      else rest

unfoldable pub negotiate_protocol_version : HubDescriptor → Text → Result Text
unfolding first_usable compare_versions
negotiate_protocol_version descriptor requested_version = do
  requested ← parse_protocol_version requested_version
  current ← parse_protocol_version descriptor.current_version
  minimum ← parse_protocol_version descriptor.minimum_client_version
  locked ← parse_protocol_version (codes "1.0.0")
  throw_if
      (not (requested.major == locked.major)
        || (not (current.major == locked.major) || not (at_most minimum requested)))
      incompatible_protocol
  first_usable descriptor requested minimum newest_first

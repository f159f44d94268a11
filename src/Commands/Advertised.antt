-- ===== src/Commands/Advertised.antt =====
-- src/commands/advertised-command.ts. The two caches are association lists whose first entry of a key
-- counts; the schema compiler is a parameter, which gives nothing where it throws. A validator that
-- throws is one that refuses.
pub mod Cache
use teslatlas_sdk_typescript.Prelude.{
  ℕ, ◌+◌, Bool, true, false, ◌&&◌, ◌||◌, not, Option, none, some, List, [], ◌∷◌, ◌==◌,
  if◌then◌else◌,
}
use teslatlas_sdk_typescript.Js.Text.{Text, codes, text_eq}
use teslatlas_sdk_typescript.Js.Json.{
  Json, Number, null, boolean, number, string, array, object, field, strict_eq,
}
use teslatlas_sdk_typescript.Core.Errors.{
  Result, ok, err, ◌>>=◌, ◌>>◌, throw_if, protocol_validation,
}
use teslatlas_sdk_typescript.Http.RequestSnapshot.{
  Value, primitive, reference, other, Object, Snapshot, snapshot_json_request,
}
use teslatlas_sdk_typescript.Protocol.Models.{CommandDescriptor, Capability, HubDescriptor}
use teslatlas_sdk_typescript.Protocol.Capabilities.{require_capability}

pub record CachedSchema : Type 0 where
  pub body : Text
  pub validate : Option Json → Bool

-- `booleanValidators` and `schemaValidators`.
pub record Caches : Type 0 where
  pub booleans : List (Bool × CachedSchema)
  pub objects : List (ℕ × CachedSchema)

-- The caller's objects at a call: the store, and a bound on those that are reached.
pub record Heap : Type 0 where
  pub objects : ℕ → Object
  pub size : ℕ

unfoldable pub same_bool : Bool → Bool → Bool
same_bool true b = b
same_bool false b = not b

unfoldable pub boolean_entry : List (Bool × CachedSchema) → Bool → Option CachedSchema
boolean_entry [] key = none
boolean_entry ((other_key, entry) ∷ rest) key =
    if same_bool other_key key then some entry else boolean_entry rest key

unfoldable pub object_entry : List (ℕ × CachedSchema) → ℕ → Option CachedSchema
object_entry [] key = none
object_entry ((other_key, entry) ∷ rest) key =
    if other_key == key then some entry else object_entry rest key

unfoldable pub cached : Caches → Value → Option CachedSchema
cached caches (primitive (boolean b)) = boolean_entry caches.booleans b
cached caches (reference id) = object_entry caches.objects id
cached caches _ = none

unfoldable pub remember : Caches → Value → CachedSchema → Caches
remember caches (primitive (boolean b)) entry = record {
  booleans = (b, entry) ∷ caches.booleans;
  objects = caches.objects;
}
remember caches (reference id) entry = record {
  booleans = caches.booleans;
  objects = (id, entry) ∷ caches.objects;
}
remember caches _ entry = caches

unfoldable pub as_synchronous_schema : Json → Option Json
as_synchronous_schema (boolean b) = some (boolean b)
as_synchronous_schema (object members) =
    if strict_eq (field (object members) (codes "$async")) (some (boolean true))
    then none
    else some (object members)
as_synchronous_schema _ = none

-- The entry that the schema's body has, if it is current.
unfoldable pub current_entry : Option CachedSchema → Text → Option CachedSchema
current_entry none body = none
current_entry (some entry) body = if text_eq entry.body body then some entry else none

-- `capability.commands?.find(({ name }) => name === command.command)`
unfoldable pub find_command : List CommandDescriptor → Json → Option CommandDescriptor
find_command [] command = none
find_command (descriptor ∷ rest) command =
    if strict_eq (some (string descriptor.name)) (field command (codes "command"))
    then some descriptor
    else find_command rest command

unfoldable pub advertised : Option (List CommandDescriptor) → Json → Option CommandDescriptor
advertised none command = none
advertised (some descriptors) command = find_command descriptors command

abbrev is_missing : Option Json → Bool
is_missing none = true
is_missing (some value) = false

unfoldable pub is_unlike : CommandDescriptor → Json → Bool
is_unlike descriptor command =
    not (strict_eq (some (string descriptor.command_class)) (field command (codes "command_class")))
    || (descriptor.confirmation_required && is_missing (field command (codes "confirmation")))

abbrev descriptor_error : Result (Unit {0})
descriptor_error = err (protocol_validation "command.descriptor")

module _ (number_text : Number → Text) (compile : Json → Option (Option Json → Bool)) where
  unfoldable pub compiled :
      Caches → Value → Text → Option (Option Json → Bool) → Option Json → Bool × Caches
  compiled caches schema body none value = (false, caches)
  compiled caches schema body (some validate) value =
      (validate value, remember caches schema (record { body = body; validate = validate }))

  unfoldable pub match_schema :
      Caches → Value → Text → Json → Option CachedSchema → Option Json → Bool × Caches
  match_schema caches schema body synchronous (some entry) value = (entry.validate value, caches)
  match_schema caches schema body synchronous none value =
      compiled caches schema body (compile synchronous) value

  unfoldable pub match_synchronous :
      Caches → Value → Text → Option Json → Option Json → Bool × Caches
  match_synchronous caches schema body none value = (false, caches)
  match_synchronous caches schema body (some synchronous) value =
      match_schema caches schema body synchronous (current_entry (cached caches schema) body) value

  unfoldable pub match_snapshot : Caches → Value → Result Snapshot → Option Json → Bool × Caches
  match_snapshot caches schema (err e) value = (false, caches)
  match_snapshot caches schema (ok snapshot) value =
      match_synchronous caches schema snapshot.body (as_synchronous_schema snapshot.value) value

  unfoldable pub snapshot_of : Heap → Value → Option ℕ → Result Snapshot
  snapshot_of heap value maximum =
      snapshot_json_request number_text heap.objects (heap.size + 1) value maximum

  unfoldable pub matches_json_schema : Heap → Caches → Value → Option Json → Bool × Caches
  unfolding match_snapshot match_synchronous match_schema compiled current_entry cached remember
  matches_json_schema heap caches schema value =
      match_snapshot caches schema (snapshot_of heap schema none) value

  -- The second schema is looked at only if the first matches.
  unfoldable pub check_state :
      Heap → CommandDescriptor → Json → Bool × Caches → Result (Unit {0}) × Caches
  check_state heap descriptor command (false, caches) = (descriptor_error, caches)
  check_state heap descriptor command (true, caches) =
      let (good, later) =
        matches_json_schema heap caches descriptor.expected_state_schema
          (field command (codes "expected_state")) in
      (if good then ok tt else descriptor_error, later)

  unfoldable pub check_advertised :
      Heap → Caches → Option CommandDescriptor → Json → Result (Unit {0}) × Caches
  check_advertised heap caches none command = (descriptor_error, caches)
  check_advertised heap caches (some descriptor) command =
      if is_unlike descriptor command
      then (descriptor_error, caches)
      else check_state heap descriptor command (
          matches_json_schema heap caches descriptor.parameters_schema
            (field command (codes "parameters")))

  unfoldable pub check_capability :
      Heap → Caches → Result Capability → Json → Result (Unit {0}) × Caches
  check_capability heap caches (err e) command = (err e, caches)
  check_capability heap caches (ok capability) command =
      check_advertised heap caches (advertised capability.commands command) command

  unfoldable pub validate_advertised_command :
      Heap → Caches → HubDescriptor → Json → Result (Unit {0}) × Caches
  unfolding check_capability check_advertised check_state advertised find_command is_unlike
  validate_advertised_command heap caches descriptor command =
      check_capability heap caches (require_capability descriptor (codes "commands.async")) command

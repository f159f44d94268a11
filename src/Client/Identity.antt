-- ===== src/Client/Identity.antt =====
-- The identity checks of src/client/client.ts: an answer belongs to what the request asked for.
pub mod Checked
pub mod Locations
use teslatlas_sdk_typescript.Prelude.{
  ℕ, Bool, true, false, not, Option, none, some, String, List, [], ◌∷◌, ◌++◌, if◌then◌else◌, map,
  pos,
}
use teslatlas_sdk_typescript.Js.Text.{Text, codes, text_eq}
use teslatlas_sdk_typescript.Js.Uri.{code_points, encode_uri_component}
use teslatlas_sdk_typescript.Js.Json.{
  Json, Members, null, string, number, integer, array, object, end, member, field, strict_eq,
}
use teslatlas_sdk_typescript.Core.Errors.{
  SdkError, Result, ok, err, ◌>>=◌, ◌>>◌, throw_if, dotted, protocol_validation, foreign,
}
use teslatlas_sdk_typescript.Http.RequestBuilder.{
  Values, QueryValue, QueryValues, undefined, text, texts, lookup, or_throw, uri_error,
}
use teslatlas_sdk_typescript.Http.RequestBuilder.Operations.{
  ReadOperation, get_vehicle_current_state, get_drive, get_charge, get_metadata, get_command,
  list_vehicle_drives, list_drive_positions, list_vehicle_charges, list_charge_samples,
  list_vehicle_states, list_vehicle_updates, list_vehicle_metadata, list_data_quality,
}

-- What a property of `null`, and a loop over a value without an iterator, throw.
abbrev pub type_error : SdkError
type_error = foreign 2

-- `entity[key]`
unfoldable pub property : Json → Text → Result (Option Json)
property null key = err type_error
property value key = ok (field value key)

unfoldable pub require_identity : Json → String → Option Json → String → Result (Unit {0})
require_identity entity key expected name = do
  found ← property entity (codes key)
  throw_if (not (strict_eq found expected)) (protocol_validation (dotted name (dotted "." key)))

-- `location !== prefix + encodeURIComponent(id)`
unfoldable pub is_location_of : Option Text → String → Text → Bool
is_location_of none prefix encoded = false
is_location_of (some location) prefix encoded = text_eq location (codes prefix ++ encoded)

unfoldable pub require_location_identity :
    Option Text → String → Option Json → String → Result (Unit {0})
unfolding is_location_of
require_location_identity location prefix (some (string id)) name = do
  encoded ← or_throw (encode_uri_component id) uri_error
  throw_if (not (is_location_of location prefix encoded))
      (protocol_validation (dotted name ".location"))
require_location_identity location prefix _ name =
    err (protocol_validation (dotted name ".location"))

unfoldable pub singleton_key : ReadOperation → Option String
singleton_key get_vehicle_current_state = some "vehicle_id"
singleton_key get_drive = some "drive_id"
singleton_key get_charge = some "charge_id"
singleton_key get_metadata = some "metadata_id"
singleton_key get_command = some "command_id"
singleton_key _ = none

unfoldable pub owner_key : ReadOperation → Option String
owner_key list_vehicle_drives = some "vehicle_id"
owner_key list_drive_positions = some "drive_id"
owner_key list_vehicle_charges = some "vehicle_id"
owner_key list_charge_samples = some "charge_id"
owner_key list_vehicle_states = some "vehicle_id"
owner_key list_vehicle_updates = some "vehicle_id"
owner_key list_vehicle_metadata = some "vehicle_id"
owner_key _ = none

-- A value of a path or a query, as what an entity's member is compared with. A list is a new object,
-- which equals nothing.
unfoldable pub query_json : QueryValue → Option Json
query_json undefined = none
query_json (text value) = some (string value)
query_json (QueryValue.number value) = some (number (integer (pos value)))
query_json (texts values) = some (array end)

unfoldable pub optional_query : Option QueryValue → Option Json
optional_query none = none
optional_query (some value) = query_json value

unfoldable pub or_query : Option Text → Option Json → Option Json
or_query none later = later
or_query (some value) later = some (string value)

-- `pathValues[ownerKey] ?? query[ownerKey]`
unfoldable pub expected_owner : Values → QueryValues → String → Option Json
expected_owner path_values query key =
    or_query (lookup (codes key) path_values) (optional_query (lookup (codes key) query))

unfoldable pub children : Members → List Json
children end = []
children (member key value rest) = value ∷ children rest

-- What a loop over the value goes through: the code points of a text.
unfoldable pub items_of : Option Json → Result (List Json)
items_of (some (array members)) = ok (children members)
items_of (some (string s)) = ok (map (λ p. string (p ∷ [])) (code_points s))
items_of _ = err type_error

unfoldable pub for_each : (Json → Result (Unit {0})) → List Json → Result (Unit {0})
for_each check [] = ok tt
for_each check (item ∷ rest) = check item >> for_each check rest

-- The loop over `entity.items`, where something is expected of them.
unfoldable pub check_items : (Json → Result (Unit {0})) → Json → Result (Unit {0})
check_items check entity = do
  found ← property entity (codes "items")
  items ← items_of found
  for_each check items

unfoldable pub check_subject : Option Json → String → Json → Result (Unit {0})
check_subject expected name item = do
  subject ← property item (codes "subject_type")
  if strict_eq subject (some (string (codes "vehicle")))
      then require_identity item "subject_id" expected (dotted name ".items")
      else ok tt

unfoldable pub when_expected : Option Json → Result (Unit {0}) → Result (Unit {0})
when_expected none check = ok tt
when_expected (some value) check = check

-- What the items of a list are expected to belong to, where it has an owner.
unfoldable pub expected_of : Option String → Values → QueryValues → Option Json
expected_of none path_values query = none
expected_of (some key) path_values query = expected_owner path_values query key

unfoldable pub owner_name : Option String → String
owner_name none = ""
owner_name (some key) = key

-- The vehicle that a list of data quality is restricted to.
unfoldable pub expected_subject : ReadOperation → QueryValues → Option Json
expected_subject list_data_quality query = optional_query (lookup (codes "vehicle_id") query)
expected_subject _ query = none

-- The checks of a list.
unfoldable pub validate_items :
    ReadOperation → Option String → Values → QueryValues → Json → String → Result (Unit {0})
validate_items operation key path_values query entity name = do
  let owner = expected_of key path_values query
  when_expected owner (
      check_items (λ item. require_identity item (owner_name key) owner (dotted name ".items"))
        entity)
  let subject = expected_subject operation query
  when_expected subject (check_items (check_subject subject name) entity)

unfoldable pub path_json : Option Text → Option Json
path_json none = none
path_json (some value) = some (string value)

unfoldable pub validate_entity :
    ReadOperation → Option String → Values → QueryValues → Json → String → Result (Unit {0})
validate_entity operation none path_values query entity name =
    validate_items operation (owner_key operation) path_values query entity name
validate_entity operation (some key) path_values query entity name =
    require_identity entity key (path_json (lookup (codes key) path_values)) name

unfoldable pub validate_read_identity :
    ReadOperation → Json → Values → QueryValues → String → Result (Unit {0})
unfolding validate_entity
validate_read_identity operation entity path_values query name =
    validate_entity operation (singleton_key operation) path_values query entity name

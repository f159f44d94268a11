-- ===== src/Events/EventDecoder.antt =====
-- `decodeProtocolEvent` and `assertEventSemantics` of src/events/protocol-subscription.ts. Parameters:
-- the catalog of events, the generated validator and `JSON.parse`.
pub mod Laws
use teslatlas_sdk_typescript.Prelude.{
  Bool, true, false, ◌&&◌, ◌||◌, not, Option, none, some, List, [], ◌∷◌, if◌then◌else◌,
}
use teslatlas_sdk_typescript.Js.Text.{Text, codes, text_eq}
use teslatlas_sdk_typescript.Js.Json.{
  Json, null, boolean, number, string, array, object, field, strict_eq,
}
use teslatlas_sdk_typescript.Core.Errors.{
  Result, ok, err, ◌>>=◌, ◌>>◌, throw_if, protocol_validation,
}
use teslatlas_sdk_typescript.Http.RequestBuilder.{lookup}
use teslatlas_sdk_typescript.Http.JsonWalk.{assert_finite_numbers, decode_protocol_value}
use teslatlas_sdk_typescript.Events.SseParser.{SseEvent}
use teslatlas_sdk_typescript.Events.ProtocolEvents.{Profile, Catalog, is_newer}

unfoldable pub as_record : Option Json → Option Json
as_record (some (object members)) = some (object members)
as_record _ = none

-- `record?.key`
unfoldable pub optional_field : Option Json → Text → Option Json
optional_field none key = none
optional_field (some value) key = field value key

is_defined : Option Json → Bool
is_defined none = false
is_defined (some value) = true

unfoldable pub event_revision : Json → Option Json
unfolding as_record optional_field is_defined
event_revision payload =
    if is_defined (field payload (codes "revision"))
    then field payload (codes "revision")
    else optional_field
        (as_record (optional_field (as_record (field payload (codes "audit"))) (codes "deletion")))
        (codes "revision")

identifier_fields : List (Text × Text)
identifier_fields =
    (codes "observation.admitted", codes "observation_id")
    ∷ (codes "vehicle.current.changed", codes "vehicle_id")
    ∷ (codes "drive.started", codes "drive_id")
    ∷ (codes "drive.updated", codes "drive_id")
    ∷ (codes "drive.ended", codes "drive_id")
    ∷ (codes "charge.started", codes "charge_id")
    ∷ (codes "charge.updated", codes "charge_id")
    ∷ (codes "charge.ended", codes "charge_id")
    ∷ (codes "state.changed", codes "state_id")
    ∷ (codes "software_update.changed", codes "update_id")
    ∷ (codes "data_quality.changed", codes "subject_id")
    ∷ (codes "command.changed", codes "command_id")
    ∷ (codes "metadata.changed", codes "metadata_id")
    ∷ []

-- `resourceIdentifierField[event_type]`: a key that is not there is the key "undefined" to `hasOwn`.
unfoldable pub resource_identifier_field : Text → Text
unfolding identifier_fields lookup
resource_identifier_field event_type = elim (lookup event_type identifier_fields) [
  | none ↦ codes "undefined"
  | some name ↦ name
]

-- The payload has the key, and the event's own field says otherwise.
unfoldable pub contradicts : Json → Json → Text → Text → Bool
unfolding is_defined
contradicts event payload key own_key =
    is_defined (field payload key) && not (strict_eq (field event own_key) (field payload key))

unfoldable pub is_revision_wrong : Json → Json → Bool
unfolding is_defined event_revision
is_revision_wrong event payload =
    is_defined (event_revision payload)
    && not (strict_eq (field event (codes "revision")) (event_revision payload))

unfoldable pub assert_payload_semantics : Json → Text → Option Json → Result (Unit {0})
unfolding is_revision_wrong contradicts
assert_payload_semantics event event_type none = err (protocol_validation "validateEvent.data")
assert_payload_semantics event event_type (some payload) = do
  throw_if (is_revision_wrong event payload) (protocol_validation "validateEvent.revision")
  throw_if (contradicts event payload (codes "vehicle_id") (codes "vehicle_id"))
      (protocol_validation "validateEvent.vehicle_id")
  throw_if (contradicts event payload (resource_identifier_field event_type) (codes "resource_id"))
      (protocol_validation "validateEvent.resource_id")

-- The `try` around the parse, which gives one name to whatever fails in it.
parsed_event : Option Json → Result Json
parsed_event none = err (protocol_validation "validateEvent.json")
parsed_event (some value) = elim (assert_finite_numbers value "validateEvent.json") [
  | ok x ↦ ok value
  | err e ↦ err (protocol_validation "validateEvent.json")
]

module _ (catalog : Catalog) (parse_json : Text → Option Json) (validate_event : Json → Bool) where
  decode_known : SseEvent → Profile → Profile → Result Json
  decode_known event introduced_in version = do
    throw_if (is_newer introduced_in version) (protocol_validation "validateEvent.profile")
    raw ← parsed_event (parse_json event.data_text)
    value ← decode_protocol_value raw validate_event "validateEvent"
    throw_if (not (strict_eq (field value (codes "event_id")) (some (string event.last_event_id))))
        (protocol_validation "validateEvent.id")
    throw_if (not (strict_eq (field value (codes "event_type")) (some (string event.event))))
        (protocol_validation "validateEvent.type")
    assert_payload_semantics value event.event (as_record (field value (codes "data")))
    ok value

  decode_looked_up : SseEvent → Profile → Option Profile → Result (Option Json)
  decode_looked_up event version none = ok none
  decode_looked_up event version (some introduced_in) = do
    value ← decode_known event introduced_in version
    ok (some value)

  -- `none` stands for an event that the catalog does not know, which is passed over.
  unfoldable pub decode_protocol_event : SseEvent → Profile → Result (Option Json)
  unfolding decode_looked_up decode_known parsed_event lookup
  decode_protocol_event event version = decode_looked_up event version (lookup event.event catalog)

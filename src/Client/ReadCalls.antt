-- ===== src/Client/ReadCalls.antt =====
-- The arguments with which the methods of src/client/client.ts that read call `#read`, or what they
-- throw before.
use teslatlas_sdk_typescript.Prelude.{Bool, true, false, Option, none, some, String, [], ◌∷◌}
use teslatlas_sdk_typescript.Js.Text.{Text, codes}
use teslatlas_sdk_typescript.Js.Json.{Json}
use teslatlas_sdk_typescript.Core.Errors.{Result, ok, ◌>>=◌}
use teslatlas_sdk_typescript.Http.RequestBuilder.{Values, QueryValues}
use teslatlas_sdk_typescript.Http.RequestBuilder.Operations.{
  ReadOperation, discover_hub, list_vehicles, get_vehicle_current_state, list_vehicle_drives,
  get_drive, list_drive_positions, list_vehicle_charges, get_charge, list_charge_samples,
  list_vehicle_states, list_vehicle_updates, list_data_quality, list_vehicle_metadata, get_metadata,
  get_command,
}
use teslatlas_sdk_typescript.Protocol.Models.{HubDescriptor}
use teslatlas_sdk_typescript.Protocol.Capabilities.{require_capability}
use teslatlas_sdk_typescript.Client.Options.{
  PageReadOptions, RangeLimit, history, dense, normalize_entity_tag, normalize_page_options,
  normalize_metadata_page_options, normalize_history_options, validate_id, page_query,
  metadata_query, history_query, data_quality_query,
}

pub record ReadCall : Type 0 where
  pub operation : ReadOperation
  pub path_values : Values
  pub query : QueryValues
  pub if_none_match : Option Text
  pub strong_entity_tag : Bool

abbrev plain_call : ReadOperation → Values → QueryValues → Option Text → ReadCall
plain_call operation path_values query tag = record {
  operation = operation;
  path_values = path_values;
  query = query;
  if_none_match = tag;
  strong_entity_tag = false;
}

abbrev one_value : String → Text → Values
one_value key value = (codes key, value) ∷ []

-- `validateId` of an optional vehicle.
optional_id : Option Json → Result (Option Text)
optional_id none = ok none
optional_id (some value) = do id ← validate_id value; ok (some id)

module _ (descriptor : HubDescriptor) where
  -- The methods that read one entity.
  unfoldable pub entity_call :
      String → ReadOperation → String → Json → Option Json → Result ReadCall
  entity_call capability operation key id if_none_match = do
    found ← require_capability descriptor (codes capability)
    valid ← validate_id id
    tag ← normalize_entity_tag if_none_match
    ok (plain_call operation (one_value key valid) [] tag)

  -- `#historyRead`, with the check of the identifier before it.
  unfoldable pub history_call :
      ReadOperation → String → Json → PageReadOptions → RangeLimit → Result ReadCall
  history_call operation key id options range_limit = do
    valid ← validate_id id
    found ← require_capability descriptor (codes "query.history")
    normalized ← normalize_history_options descriptor.limits options range_limit
    ok (
        plain_call operation (one_value key valid) (history_query normalized)
          normalized.page.if_none_match)

  unfoldable pub discover_hub_call : Option Json → Result ReadCall
  discover_hub_call if_none_match = do
    tag ← normalize_entity_tag if_none_match
    ok (plain_call discover_hub [] [] tag)

  unfoldable pub list_vehicles_call : PageReadOptions → Result ReadCall
  list_vehicles_call options = do
    found ← require_capability descriptor (codes "query.vehicles")
    normalized ← normalize_page_options descriptor.limits options
    ok (plain_call list_vehicles [] (page_query normalized) normalized.if_none_match)

  unfoldable pub get_vehicle_current_state_call : Json → Option Json → Result ReadCall
  unfolding entity_call
  get_vehicle_current_state_call =
      entity_call "query.vehicles" get_vehicle_current_state "vehicle_id"

  unfoldable pub list_vehicle_drives_call : Json → PageReadOptions → Result ReadCall
  unfolding history_call
  list_vehicle_drives_call id options =
      history_call list_vehicle_drives "vehicle_id" id options history

  unfoldable pub get_drive_call : Json → Option Json → Result ReadCall
  get_drive_call = entity_call "query.history" get_drive "drive_id"

  unfoldable pub list_drive_positions_call : Json → PageReadOptions → Result ReadCall
  list_drive_positions_call id options =
      history_call list_drive_positions "drive_id" id options dense

  unfoldable pub list_vehicle_charges_call : Json → PageReadOptions → Result ReadCall
  list_vehicle_charges_call id options =
      history_call list_vehicle_charges "vehicle_id" id options history

  unfoldable pub get_charge_call : Json → Option Json → Result ReadCall
  get_charge_call = entity_call "query.history" get_charge "charge_id"

  unfoldable pub list_charge_samples_call : Json → PageReadOptions → Result ReadCall
  list_charge_samples_call id options =
      history_call list_charge_samples "charge_id" id options dense

  unfoldable pub list_vehicle_states_call : Json → PageReadOptions → Result ReadCall
  list_vehicle_states_call id options =
      history_call list_vehicle_states "vehicle_id" id options history

  unfoldable pub list_vehicle_updates_call : Json → PageReadOptions → Result ReadCall
  list_vehicle_updates_call id options =
      history_call list_vehicle_updates "vehicle_id" id options history

  unfoldable pub list_data_quality_call : PageReadOptions → Option Json → Result ReadCall
  unfolding optional_id
  list_data_quality_call options vehicle_id = do
    found ← require_capability descriptor (codes "data-quality")
    normalized ← normalize_history_options descriptor.limits options history
    vehicle ← optional_id vehicle_id
    ok (
        plain_call list_data_quality [] (data_quality_query normalized vehicle)
          normalized.page.if_none_match)

  unfoldable pub list_vehicle_metadata_call : Json → PageReadOptions → Result ReadCall
  list_vehicle_metadata_call id options = do
    found ← require_capability descriptor (codes "metadata.mutable")
    normalized ← normalize_metadata_page_options descriptor.limits options
    valid ← validate_id id
    ok (
        plain_call list_vehicle_metadata (one_value "vehicle_id" valid) (metadata_query normalized)
          normalized.0.if_none_match)

  unfoldable pub get_metadata_call : Json → Option Json → Result ReadCall
  get_metadata_call id if_none_match = do
    found ← require_capability descriptor (codes "metadata.mutable")
    valid ← validate_id id
    tag ← normalize_entity_tag if_none_match
    ok (record {
      operation = get_metadata;
      path_values = one_value "metadata_id" valid;
      query = [];
      if_none_match = tag;
      strong_entity_tag = true;
    })

  unfoldable pub get_command_call : Json → Option Json → Result ReadCall
  get_command_call = entity_call "commands.async" get_command "command_id"

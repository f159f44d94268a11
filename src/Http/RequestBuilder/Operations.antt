-- ===== src/Http/RequestBuilder/Operations.antt =====
-- `readOperationDescriptors` and `writeOperationDescriptors`.
use teslatlas_sdk_typescript.Prelude.{true, false, String, List, [], ◌∷◌}
use teslatlas_sdk_typescript.Js.Text.{Text, codes}
use teslatlas_sdk_typescript.Http.RequestBuilder.{
  ReadDescriptor, WriteDescriptor, Method, post, put, delete,
}

pub data ReadOperation : Type 0 where
  discover_hub list_vehicles get_vehicle_current_state list_vehicle_drives : ReadOperation
  get_drive list_drive_positions list_vehicle_charges get_charge : ReadOperation
  list_charge_samples list_vehicle_states list_vehicle_updates list_data_quality : ReadOperation
  list_vehicle_metadata get_metadata get_command : ReadOperation

pub data WriteOperation : Type 0 where
  create_metadata replace_metadata delete_metadata create_command : WriteOperation

abbrev descriptor : String → List Text → ReadDescriptor
descriptor path names = record { path_template = codes path; query_names = names; versioned = true }

abbrev history_names : List Text
history_names = codes "cursor" ∷ codes "limit" ∷ codes "from" ∷ codes "to" ∷ []

unfoldable pub read_descriptor : ReadOperation → ReadDescriptor
read_descriptor discover_hub = record {
  path_template = codes "/.well-known/teslatlas-hub";
  query_names = [];
  versioned = false;
}
read_descriptor list_vehicles = descriptor "/v1/vehicles" (codes "cursor" ∷ codes "limit" ∷ [])
read_descriptor get_vehicle_current_state = descriptor "/v1/vehicles/{vehicle_id}/current" []
read_descriptor list_vehicle_drives = descriptor "/v1/vehicles/{vehicle_id}/drives" history_names
read_descriptor get_drive = descriptor "/v1/drives/{drive_id}" []
read_descriptor list_drive_positions = descriptor "/v1/drives/{drive_id}/positions" history_names
read_descriptor list_vehicle_charges = descriptor "/v1/vehicles/{vehicle_id}/charges" history_names
read_descriptor get_charge = descriptor "/v1/charges/{charge_id}" []
read_descriptor list_charge_samples = descriptor "/v1/charges/{charge_id}/samples" history_names
read_descriptor list_vehicle_states = descriptor "/v1/vehicles/{vehicle_id}/states" history_names
read_descriptor list_vehicle_updates = descriptor "/v1/vehicles/{vehicle_id}/updates" history_names
read_descriptor list_data_quality =
    descriptor "/v1/data-quality"
      (codes "cursor" ∷ codes "limit" ∷ codes "from" ∷ codes "to" ∷ codes "vehicle_id" ∷ [])
read_descriptor list_vehicle_metadata =
    descriptor "/v1/vehicles/{vehicle_id}/metadata"
      (codes "cursor" ∷ codes "limit" ∷ codes "kind" ∷ [])
read_descriptor get_metadata = descriptor "/v1/metadata/{metadata_id}" []
read_descriptor get_command = descriptor "/v1/commands/{command_id}" []

abbrev write : String → Method → WriteDescriptor
write path method = record { path_template = codes path; method = method; has_json_body = true }

unfoldable pub write_descriptor : WriteOperation → WriteDescriptor
write_descriptor create_metadata = write "/v1/vehicles/{vehicle_id}/metadata" post
write_descriptor replace_metadata = write "/v1/metadata/{metadata_id}" put
write_descriptor delete_metadata = record {
  path_template = codes "/v1/metadata/{metadata_id}";
  method = delete;
  has_json_body = false;
}
write_descriptor create_command = write "/v1/commands" post

-- ===== src/Protocol/Models.antt =====
-- The part of the discovery descriptor (src/protocol/models.ts) that the SDK's code reads. A JSON
-- schema is a value in the store of the caller.
use teslatlas_sdk_typescript.Prelude.{ℕ, Bool, Option, List}
use teslatlas_sdk_typescript.Js.Text.{Text}
use teslatlas_sdk_typescript.Http.RequestSnapshot.{Value}

pub record CommandDescriptor : Type 0 where
  pub name : Text
  pub command_class : Text
  pub confirmation_required : Bool
  pub parameters_schema : Value
  pub expected_state_schema : Value

pub record Capability : Type 0 where
  pub id : Text
  pub commands : Option (List CommandDescriptor)

pub record Limits : Type 0 where
  pub max_page_size : ℕ
  pub max_history_range_days : ℕ
  pub max_dense_range_days : ℕ
  pub max_request_body_bytes : ℕ

pub record Endpoints : Type 0 where
  pub well_known : Text
  pub api : Text
  pub events : Text
  pub openapi : Text

pub record HubDescriptor : Type 0 where
  pub current_version : Text
  pub minimum_client_version : Text
  pub supported_versions : List Text
  pub capabilities : List Capability
  pub limits : Limits
  pub endpoints : Endpoints

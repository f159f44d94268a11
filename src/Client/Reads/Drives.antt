-- ===== src/Client/Reads/Drives.antt =====
-- The composition for one method: a page of drives that is returned is of the vehicle asked for.
use teslatlas_sdk_typescript.Prelude.{◌≡◌, refl, none, some, [], ◌∷◌}
use teslatlas_sdk_typescript.Js.Text.{Text, codes, text_eq}
use teslatlas_sdk_typescript.Js.Json.{string, field}
use teslatlas_sdk_typescript.Core.Errors.{AllOk, AllOk-bind, AllOk-ok, AllOk-map}
use teslatlas_sdk_typescript.Http.ResponseDecoder.{ReadResult, modified, not_modified}
use teslatlas_sdk_typescript.Http.RequestBuilder.{lookup}
use teslatlas_sdk_typescript.Http.RequestBuilder.Operations.{list_vehicle_drives}
use teslatlas_sdk_typescript.Protocol.Models.{HubDescriptor}
use teslatlas_sdk_typescript.Protocol.Capabilities.{require_capability}
use teslatlas_sdk_typescript.Client.Session.{ClientSession}
use teslatlas_sdk_typescript.Client.Options.{
  PageReadOptions, history, normalize_history_options, validate_id,
}
use teslatlas_sdk_typescript.Client.Options.Ranges.{validate_id_same}
use teslatlas_sdk_typescript.Client.Identity.{singleton_key, owner_key}
use teslatlas_sdk_typescript.Client.Identity.Checked.{ItemsAre, IsIdentified-ItemsAre}
use teslatlas_sdk_typescript.Client.ReadCalls.{ReadCall, list_vehicle_drives_call}
use teslatlas_sdk_typescript.Client.Reads.{Decoding, CallEnvironment, read}
use teslatlas_sdk_typescript.Client.Reads.Answers.{IsOwn, IsReturned, read-IsReturned}

-- Every item of a page that is given names the vehicle.
pub IsOfVehicle : Text → ReadResult → Type 0
IsOfVehicle id (not_modified metadata) = Unit
IsOfVehicle id (modified value metadata) =
    ItemsAre (λ item. field item (codes "vehicle_id") ≡ some (string id)) value

IsDrivesCall : Text → ReadCall → Type 0
IsDrivesCall id call =
    (call.operation ≡ list_vehicle_drives) × (call.path_values ≡ (codes "vehicle_id", id) ∷ [])

list_vehicle_drives_call-IsDrivesCall :
    (descriptor : HubDescriptor) (id : Text) (options : PageReadOptions)
    → AllOk (IsDrivesCall id) (list_vehicle_drives_call descriptor (string id) options)
unfolding list_vehicle_drives_call IsDrivesCall
list_vehicle_drives_call-IsDrivesCall descriptor id options =
    let P = IsDrivesCall id in
    AllOk-bind P (validate_id (string id)) _ λ valid e.
      AllOk-bind P (require_capability descriptor (codes "query.history")) _ λ found _.
        AllOk-bind P (normalize_history_options descriptor.limits options history) _ λ normalized _.
          let same : valid ≡ id = AllOk-ok (λ v. v ≡ id) _ (validate_id_same id) e in
          (refl, rw same refl)

no_singleton : singleton_key list_vehicle_drives ≡ none
unfolding singleton_key
no_singleton = refl

owner_vehicle : owner_key list_vehicle_drives ≡ some "vehicle_id"
unfolding owner_key
owner_vehicle = refl

found_vehicle : (id : Text) → lookup (codes "vehicle_id") ((codes "vehicle_id", id) ∷ []) ≡ some id
unfolding lookup text_eq
found_vehicle id = refl

IsOwn-IsOfVehicle :
    (id : Text) (call : ReadCall) (result : ReadResult)
    → IsDrivesCall id call
    → IsOwn call result
    → IsOfVehicle id result
unfolding IsDrivesCall IsOfVehicle
IsOwn-IsOfVehicle id call (not_modified metadata) h own = tt
IsOwn-IsOfVehicle id call (modified value metadata) (operation, values) own =
    IsIdentified-ItemsAre call.path_values call.query value call.operation "vehicle_id" id
      (rw operation no_singleton) (rw operation owner_vehicle) (rw values (found_vehicle id))
      (unfold IsOwn in own)

-- Every item of a page of drives that is returned names the vehicle that was asked for.
pub list_vehicle_drives-IsOfVehicle :
    (decoding : Decoding) (session : ClientSession) (environment : CallEnvironment) (id : Text)
    (options : PageReadOptions)
    → AllOk
        (IsOfVehicle id)
        (read decoding session environment
          (list_vehicle_drives_call session.descriptor (string id) options)).1
list_vehicle_drives-IsOfVehicle decoding session environment id options =
    let arguments = list_vehicle_drives_call session.descriptor (string id) options in
    AllOk-map (IsReturned decoding session environment arguments) (IsOfVehicle id) _
      (λ result returned.
        IsOwn-IsOfVehicle id returned.call result
          (AllOk-ok (IsDrivesCall id) _
            (list_vehicle_drives_call-IsDrivesCall session.descriptor id options) returned.made)
          returned.answer.own)
      (read-IsReturned decoding session environment arguments)

-- ===== src/Hub/Reads/Vehicle.antt =====
-- What a read of a vehicle's current state in src/hub/client.ts has found when it returns.
use teslatlas_sdk_typescript.Prelude.{◌≡◌, arith, Bool, true, not, Option}
use teslatlas_sdk_typescript.Js.Text.{Text, codes, includes}
use teslatlas_sdk_typescript.Js.Json.{Json, field}
use teslatlas_sdk_typescript.Core.Errors.{
  ok, unsupported_method, AllOk, AllOk-bind, AllOk-guard, AllOk-intro, AllOk-ok, throw_if-AllOk,
}
use teslatlas_sdk_typescript.Http.BoundedBody.{Bytes}
use teslatlas_sdk_typescript.Client.Session.{Transport}
use teslatlas_sdk_typescript.Hub.Sessions.{
  Operation, Discovery, assert_operation, begin_operation, require_hub_capability,
}
use teslatlas_sdk_typescript.Hub.Failures.{Instant, assert_at}
use teslatlas_sdk_typescript.Hub.Credentials.{is_lower_uuid}
use teslatlas_sdk_typescript.Hub.Claims.{HubMetadata}
use teslatlas_sdk_typescript.Hub.Reads.{
  Reading, HubRead, hub_read, capable_read, current_read, is_vehicle, current,
}

-- The Hub that was found advertises the capability.
pub IsAdvertised : Text → Reading → Type 0
IsAdvertised capability reading =
    (found : Discovery) × (reading.discovery_outcome ≡ ok found)
    × (includes found.capabilities capability ≡ true)

pub IsCurrent : Text → Reading → Json × HubMetadata → Type 0
IsCurrent vehicle_id reading answer =
    (is_lower_uuid vehicle_id ≡ true)
    × IsAdvertised (codes "query.current") reading
    × (is_vehicle (field answer.0 (codes "vehicleId")) vehicle_id ≡ true)

require_hub_capability-AllOk :
    (operation : Operation) (moment : Instant) (found : Discovery) (capability : Text)
    → AllOk
        (λ x. includes found.capabilities capability ≡ true)
        (require_hub_capability moment.session operation moment.aborted found capability)
unfolding require_hub_capability
require_hub_capability-AllOk operation moment found capability =
    let P : Unit {0} → Type 0 = λ x. includes found.capabilities capability ≡ true in
    AllOk-bind P (assert_operation moment.session operation moment.aborted) _ λ x live.
      throw_if-AllOk P (not (includes found.capabilities capability))
        (unsupported_method capability) (λ given. ground (arith, given))

module _ (transport : Transport) (parse : Text → Option Json) (decode_text : Bytes → Text)
    (validate_error : Json → Bool) where
  capable_read-IsAdvertised :
      (capability : Text) (operation : Operation) (wanted : HubRead) (reading : Reading)
      → AllOk
          (λ answer. IsAdvertised capability reading)
          (capable_read transport parse decode_text validate_error capability operation wanted
            reading)
  unfolding capable_read IsAdvertised
  capable_read-IsAdvertised capability operation wanted reading =
      let P : Json × HubMetadata → Type 0 = λ answer. IsAdvertised capability reading in
      AllOk-bind P (assert_at operation reading.before_discovery) _ λ x live.
        AllOk-bind P reading.discovery_outcome _ λ found e.
          AllOk-bind P
            (require_hub_capability reading.after_discovery.session operation
              reading.after_discovery.aborted found capability)
            _
            λ y given.
              AllOk-intro P
                (hub_read transport parse decode_text validate_error true operation wanted reading)
                (λ answer returned. (
                  found,
                  e,
                  AllOk-ok (λ z. includes found.capabilities capability ≡ true) _
                      (require_hub_capability-AllOk operation reading.after_discovery found
                        capability)
                      given,
                ))

  -- A read of the current state that returns was for a UUID, found a Hub that advertises the
  -- capability, and gives a state that names the vehicle asked for.
  pub current-IsCurrent :
      (validate_current : Json → Bool) (vehicle_id : Text) (reading : Reading)
      → AllOk
          (IsCurrent vehicle_id reading)
          (current transport parse decode_text validate_error validate_current vehicle_id reading)
  unfolding current IsCurrent
  current-IsCurrent validate_current vehicle_id reading =
      let P : Json × HubMetadata → Type 0 = IsCurrent vehicle_id reading in
      let wanted = current_read validate_current vehicle_id in
      AllOk-guard P (not (is_lower_uuid vehicle_id)) _ _ λ uuid.
        AllOk-bind P (begin_operation reading.begun.session reading.begun.aborted) _
          λ operation begun.
            AllOk-bind P
              (capable_read transport parse decode_text validate_error (codes "query.current")
                operation wanted reading)
              _
              λ answer returned.
                AllOk-guard P (not (is_vehicle (field answer.0 (codes "vehicleId")) vehicle_id)) _ _
                  λ same. (
                    ground (arith, uuid),
                    AllOk-ok (λ a. IsAdvertised (codes "query.current") reading) _
                        (capable_read-IsAdvertised (codes "query.current") operation wanted reading)
                        returned,
                    ground (arith, same),
                  )

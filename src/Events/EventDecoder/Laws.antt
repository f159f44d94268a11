-- ===== src/Events/EventDecoder/Laws.antt =====
-- What holds of an event that is given.
use teslatlas_sdk_typescript.Prelude.{
  ◌≡◌, refl, Bool, true, false, not, Option, none, some, String, arith,
}
use teslatlas_sdk_typescript.Js.Text.{Text, codes}
use teslatlas_sdk_typescript.Js.Json.{Json, string, field, strict_eq, strict_eq-string}
use teslatlas_sdk_typescript.Core.Errors.{AllOk, AllOk-bind, AllOk-guard, AllOk-ok, throw_if-AllOk}
use teslatlas_sdk_typescript.Http.RequestBuilder.{lookup}
use teslatlas_sdk_typescript.Http.JsonWalk.{assert_finite_numbers, decode_protocol_value}
use teslatlas_sdk_typescript.Events.SseParser.{SseEvent}
use teslatlas_sdk_typescript.Events.ProtocolEvents.{Profile, Catalog, is_newer}
use teslatlas_sdk_typescript.Events.EventDecoder.{
  as_record, is_revision_wrong, contradicts, resource_identifier_field, assert_payload_semantics,
  parsed_event, decode_known, decode_looked_up, decode_protocol_event,
}

-- The payload agrees with the event on the revision, the vehicle and the resource, as far as it names
-- them.
pub IsConsistent : Json → Text → Json → Type 0
IsConsistent value event_type payload =
    (is_revision_wrong value payload ≡ false)
    × (contradicts value payload (codes "vehicle_id") (codes "vehicle_id") ≡ false)
    × (contradicts value payload (resource_identifier_field event_type) (codes "resource_id")
        ≡ false)

module _ (catalog : Catalog) (parse_json : Text → Option Json) (validate_event : Json → Bool) where
  pub IsEvent : SseEvent → Profile → Option Json → Type 0
  IsEvent event version none = lookup event.event catalog ≡ none
  IsEvent event version (some value) =
      ((profile : Profile) × (lookup event.event catalog ≡ some profile)
        × (is_newer profile version ≡ false))
      × (validate_event value ≡ true)
      × (field value (codes "event_id") ≡ some (string event.last_event_id))
      × (field value (codes "event_type") ≡ some (string event.event))
      × ((payload : Json) × (as_record (field value (codes "data")) ≡ some payload)
          × IsConsistent value event.event payload)

  abbrev HasPayload : Json → Text → Option Json → Unit {0} → Type 0
  HasPayload value event_type found x =
      (payload : Json) × (found ≡ some payload) × IsConsistent value event_type payload

  payload-IsConsistent :
      (value : Json) (event_type : Text) (found : Option Json)
      → AllOk (HasPayload value event_type found) (assert_payload_semantics value event_type found)
  unfolding assert_payload_semantics IsConsistent
  payload-IsConsistent value event_type none = tt
  payload-IsConsistent value event_type (some payload) =
      let P = HasPayload value event_type (some payload) in
      AllOk-guard P (is_revision_wrong value payload) _ _ λ a.
        AllOk-guard P (contradicts value payload (codes "vehicle_id") (codes "vehicle_id")) _ _ λ b.
          throw_if-AllOk P
            (contradicts value payload (resource_identifier_field event_type) (codes "resource_id"))
            _ λ c. (payload, refl, (a, b, c))

  value-validated :
      (raw : Json) (name : String)
      → AllOk (λ value. validate_event value ≡ true) (decode_protocol_value raw validate_event name)
  unfolding decode_protocol_value
  value-validated raw name =
      let P : Json → Type 0 = λ value. validate_event value ≡ true in
      AllOk-bind P (assert_finite_numbers raw name) _
        λ x _. AllOk-guard P (not (validate_event raw)) _ _ λ valid. ground (arith, valid)

  abbrev IsKnown : SseEvent → Profile → Profile → Json → Type 0
  IsKnown event introduced_in version value =
      (is_newer introduced_in version ≡ false)
      × (validate_event value ≡ true)
      × (field value (codes "event_id") ≡ some (string event.last_event_id))
      × (field value (codes "event_type") ≡ some (string event.event))
      × ((payload : Json) × (as_record (field value (codes "data")) ≡ some payload)
          × IsConsistent value event.event payload)

  decode_known-IsKnown :
      (event : SseEvent) (introduced_in version : Profile)
      → AllOk
          (IsKnown event introduced_in version)
          (decode_known catalog parse_json validate_event event introduced_in version)
  unfolding decode_known
  decode_known-IsKnown event introduced_in version =
      let P = IsKnown event introduced_in version in
      AllOk-guard P (is_newer introduced_in version) _ _ λ available.
        AllOk-bind P (parsed_event (parse_json event.data_text)) _ λ raw _.
          AllOk-bind P (decode_protocol_value raw validate_event "validateEvent") _ λ value a.
            AllOk-guard P
              (not (strict_eq (field value (codes "event_id")) (some (string event.last_event_id))))
              _ _
              λ b.
                AllOk-guard P
                  (not (strict_eq (field value (codes "event_type")) (some (string event.event)))) _
                  _
                  λ c.
                    AllOk-bind P
                      (assert_payload_semantics value event.event
                        (as_record (field value (codes "data"))))
                      _
                      λ x d. (
                        available,
                        AllOk-ok (λ v. validate_event v ≡ true) _
                            (value-validated raw "validateEvent") a,
                        strict_eq-string _ _ (ground (arith, b)),
                        strict_eq-string _ _ (ground (arith, c)),
                        AllOk-ok
                            (HasPayload value event.event (as_record (field value (codes "data"))))
                            _ (payload-IsConsistent value event.event _) d,
                      )

  looked_up-IsEvent :
      (event : SseEvent) (version : Profile) (found : Option Profile)
      → lookup event.event catalog ≡ found
      → AllOk
          (IsEvent event version)
          (decode_looked_up catalog parse_json validate_event event version found)
  unfolding decode_looked_up IsEvent
  looked_up-IsEvent event version none h = h
  looked_up-IsEvent event version (some introduced_in) h =
      AllOk-bind (IsEvent event version)
        (decode_known catalog parse_json validate_event event introduced_in version) _
        λ value a.
          let k =
            AllOk-ok (IsKnown event introduced_in version) _
              (decode_known-IsKnown event introduced_in version) a in
          ((introduced_in, h, k.0), k.1, k.2, k.3, k.4)

  -- An event that is given is of a known type that the negotiated profile has, passed the validator,
  -- has the identifier and the type of the stream's own fields, and agrees with its payload. One that
  -- is passed over is of no known type.
  pub decode_protocol_event-IsEvent :
      (event : SseEvent) (version : Profile)
      → AllOk
          (IsEvent event version)
          (decode_protocol_event catalog parse_json validate_event event version)
  unfolding decode_protocol_event
  decode_protocol_event-IsEvent event version = looked_up-IsEvent event version _ refl

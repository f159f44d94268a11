-- ===== src/Tests/HubTests.antt =====
-- The Hub client on concrete inputs.
use teslatlas_sdk_typescript.Prelude.{ℕ, pos, ◌≡◌, arith, refl, true, false, none, some, [], ◌∷◌}
use teslatlas_sdk_typescript.Js.Text.{codes, text_eq, has_unit}
use teslatlas_sdk_typescript.Core.Errors.{ok, err, aborted, AllOk, protocol_validation}
use teslatlas_sdk_typescript.Hub.Drives.{
  DrivesPage, DrivesQuery, accept_drives_page, drives_path, check_drives_page, is_outside,
  is_disordered, or_else, bind_next, cursor_binding,
}
use teslatlas_sdk_typescript.Hub.Drives.Bindings.{IsSameScope}
use teslatlas_sdk_typescript.Hub.Drives.Order.{
  IsPage, accept_drives_page-IsPage, drives_path-accept_drives_page,
}
use teslatlas_sdk_typescript.Hub.Sessions.{
  Session, Operation, begin_operation, assert_operation, is_expired, disposes, logs_out, fails,
  step, steps, fail_discovery,
}
use teslatlas_sdk_typescript.Hub.Sessions.Expiry.{by_logout, assert_operation-after_end}

abbrev query : DrivesQuery
query = record {
  vehicle_id = codes "v";
  from_ms = some (pos 5);
  to_ms = none;
  limit = some (pos 2);
  cursor = none;
}

abbrev other : DrivesQuery
other = record {
  vehicle_id = codes "w";
  from_ms = none;
  to_ms = none;
  limit = none;
  cursor = some (codes "c");
}

abbrev page : DrivesPage
page = record {
  items =
      record { id = pos 8; vehicle_id = codes "v"; start_date_ms = pos 9 }
      ∷ record { id = pos 3; vehicle_id = codes "v"; start_date_ms = pos 9 }
      ∷ [];
  next_cursor = some (codes "c");
}

page_example : AllOk (λ next. IsPage query page) (accept_drives_page [] query page)
page_example = accept_drives_page-IsPage [] query page

accepted : accept_drives_page [] query page ≡ ok ((codes "c", cursor_binding query) ∷ [])
unfolding accept_drives_page check_drives_page is_outside is_disordered or_else bind_next text_eq
accepted = refl

differs : ¬ IsSameScope query other
unfolding IsSameScope
differs (vehicle, first, last) = let bad : ◌≡◌ {A = ℕ} 118 119 = cc in omega (arith, bad)

no_zero : has_unit query.vehicle_id 0 ≡ false
unfolding has_unit
no_zero = refl

other_no_zero : has_unit other.vehicle_id 0 ≡ false
unfolding has_unit
other_no_zero = refl

binding_example :
    drives_path ((codes "c", cursor_binding query) ∷ []) other
    ≡ err (protocol_validation "HubDrives.cursorBinding")
binding_example =
    drives_path-accept_drives_page [] ((codes "c", cursor_binding query) ∷ []) query other page
      (codes "c") accepted refl refl no_zero other_no_zero differs

abbrev session : Session
session = record {
  expected_hub_id = codes "h";
  discovery = none;
  disposed = false;
  generation = 4;
  cursor_bindings = [];
}

abbrev operation : Operation
operation = record { generation = 4 }

begun : begin_operation session false ≡ ok operation
unfolding begin_operation assert_operation is_expired
begun = refl

still_active : (steps session (fails operation true ∷ [])).disposed ≡ false
unfolding steps step fail_discovery
still_active = refl

expired_example :
    assert_operation
      (steps (step (steps session (fails operation true ∷ [])) logs_out) (disposes ∷ []))
      operation
      false
    ≡ err aborted
expired_example =
    assert_operation-after_end session operation false false (fails operation true ∷ [])
      (disposes ∷ []) logs_out begun
      (by_logout (steps session (fails operation true ∷ [])) still_active)

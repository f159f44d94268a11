-- ===== src/Hub/Drives.antt =====
-- `drives` of src/hub/client.ts: the checks on the query before the request, and on the page that the
-- Hub gives. `encodeURIComponent` of the vehicle is its text, which is a UUID.
pub mod Bindings
pub mod Order
use teslatlas_sdk_typescript.Prelude.{
  ℕ, ℤ, pos, negsuc, suc, ◌+◌, Bool, true, false, ◌&&◌, ◌||◌, not, Option, none, some, String, List,
  [], ◌∷◌, ◌++◌, ltb, ◌==◌, leb, if◌then◌else◌, length, any, all, int_ltb, int_eq,
}
use teslatlas_sdk_typescript.Js.Text.{Text, codes, text_eq, is_digit, split, max_safe_integer}
use teslatlas_sdk_typescript.Js.Uri.{decimal_text, form_encode}
use teslatlas_sdk_typescript.Core.Errors.{
  Result, ok, err, ◌>>=◌, ◌>>◌, throw_if, dotted, protocol_validation, vehicle_identity_mismatch,
  unsupported_method, hub_http_error, SdkError,
}
use teslatlas_sdk_typescript.Http.RequestBuilder.{lookup, query_text}

pub record Drive : Type 0 where
  pub id : ℤ
  pub vehicle_id : Text
  pub start_date_ms : ℤ

pub record DrivesPage : Type 0 where
  pub items : List Drive
  pub next_cursor : Option Text

pub record DrivesQuery : Type 0 where
  pub vehicle_id : Text
  pub from_ms : Option ℤ
  pub to_ms : Option ℤ
  pub limit : Option ℤ
  pub cursor : Option Text

unfoldable pub int_text : ℤ → Text
int_text (pos n) = decimal_text n
int_text (negsuc n) = b'-' ∷ decimal_text (n + 1)

unfoldable pub or_else {ℓ} : {A : Type ℓ} → Option A → A → A
or_else none default = default
or_else (some a) default = a

abbrev pub first_ms : DrivesQuery → ℤ
first_ms query = or_else query.from_ms (pos 0)

abbrev pub end_ms : DrivesQuery → ℤ
end_ms query = or_else query.to_ms (pos max_safe_integer)

unfoldable pub cursor_binding : DrivesQuery → Text
unfolding int_text or_else
cursor_binding query =
    query.vehicle_id ++ (0 ∷ int_text (first_ms query)) ++ (0 ∷ int_text (end_ms query))

-- The cursor was given for another query.
unfoldable pub is_bound_elsewhere : List (Text × Text) → DrivesQuery → Bool
unfolding lookup cursor_binding
is_bound_elsewhere bindings query = elim query.cursor [
  | none ↦ false
  | some cursor ↦ elim (lookup cursor bindings) [
    | none ↦ false
    | some binding ↦ not (text_eq binding (cursor_binding query))
  ]
]

-- `Number.isSafeInteger` of a value that is an integer.
is_safe : ℤ → Bool
is_safe (pos n) = leb n max_safe_integer
is_safe (negsuc n) = ltb n max_safe_integer

append_integer : String → Option ℤ → Result (List (Text × Text))
unfolding is_safe int_text
append_integer name none = ok []
append_integer name (some value) =
    if is_safe value
    then ok ((codes name, int_text value) ∷ [])
    else err (protocol_validation (dotted "HubDrives." name))

append_cursor : Option Text → List (Text × Text)
append_cursor none = []
append_cursor (some cursor) = (codes "cursor", cursor) ∷ []

with_query : Text → Text → Text
with_query path [] = path
with_query path (c ∷ s) = path ++ (b'?' ∷ c ∷ s)

-- The path of the request.
unfoldable pub drives_path : List (Text × Text) → DrivesQuery → Result Text
unfolding is_bound_elsewhere append_integer append_cursor with_query query_text
drives_path bindings query = do
  throw_if (is_bound_elsewhere bindings query) (protocol_validation "HubDrives.cursorBinding")
  from_ms ← append_integer "from_ms" query.from_ms
  to_ms ← append_integer "to_ms" query.to_ms
  limit ← append_integer "limit" query.limit
  ok (
      with_query (codes "/v1/vehicles/" ++ (query.vehicle_id ++ codes "/drives"))
        (query_text (from_ms ++ (to_ms ++ (limit ++ append_cursor query.cursor)))))

unfoldable pub is_outside : DrivesQuery → Drive → Bool
unfolding or_else
is_outside query drive =
    int_ltb drive.start_date_ms (first_ms query) || not (int_ltb drive.start_date_ms (end_ms query))

-- The earlier item of the page does not come before the drive: newest first, then by identifier.
unfoldable pub is_misplaced : Drive → Drive → Bool
is_misplaced earlier drive =
    int_ltb earlier.start_date_ms drive.start_date_ms
    || (int_eq earlier.start_date_ms drive.start_date_ms && not (int_ltb drive.id earlier.id))

-- Whether some item is misplaced behind the one before it.
unfoldable pub is_disordered : List Drive → Bool
unfolding is_misplaced
is_disordered [] = false
is_disordered (drive ∷ []) = false
is_disordered (earlier ∷ drive ∷ rest) = is_misplaced earlier drive || is_disordered (drive ∷ rest)

unfoldable pub check_drives_page : DrivesQuery → DrivesPage → Result (Unit {0})
unfolding is_outside is_disordered or_else
check_drives_page query page = do
  throw_if (any (λ drive. not (text_eq drive.vehicle_id query.vehicle_id)) page.items)
      vehicle_identity_mismatch
  throw_if (int_ltb (or_else query.limit (pos 100)) (pos (length page.items)))
      (protocol_validation "HubDrives.limit")
  throw_if (any (is_outside query) page.items) (protocol_validation "HubDrives.timeRange")
  throw_if (is_disordered page.items) (protocol_validation "HubDrives.order")

set_binding : List (Text × Text) → Text → Text → List (Text × Text)
set_binding [] cursor binding = (cursor, binding) ∷ []
set_binding ((key, value) ∷ rest) cursor binding =
    let others = set_binding rest cursor binding in
    if text_eq key cursor then (cursor, binding) ∷ rest else (key, value) ∷ others

unfoldable pub bind_next : List (Text × Text) → DrivesQuery → DrivesPage → List (Text × Text)
unfolding set_binding cursor_binding
bind_next bindings query page = elim page.next_cursor [
  | none ↦ bindings
  | some cursor ↦ set_binding bindings cursor (cursor_binding query)
]

-- The bindings that an accepted page leaves.
unfoldable pub accept_drives_page :
    List (Text × Text) → DrivesQuery → DrivesPage → Result (List (Text × Text))
unfolding check_drives_page bind_next
accept_drives_page bindings query page = do
  check_drives_page query page
  ok (bind_next bindings query page)

-- ===== src/Hub/Drives/Order.antt =====
-- What holds of an accepted page, and of the cursors that the client has been given.
use teslatlas_sdk_typescript.Prelude.{
  pos, ◌≡◌, refl, sym, subst, ◌∙◌, ◌⊎◌, inl, inr, Bool, true, false, not, some, List, [], ◌∷◌,
  length, any, All, int_ltb, int_eq, int_ltb_trans, int_eq-eq, int_total, arith, Bool-cases,
}
use teslatlas_sdk_typescript.Js.Text.{Text, has_unit, text_eq, text_eq_iff, text_eq_refl}
use teslatlas_sdk_typescript.Core.Errors.{
  ok, err, AllOk, AllOk-bind, AllOk-guard, AllOk-ok, throw_if-AllOk, >>=-eq-ok, protocol_validation,
}
use teslatlas_sdk_typescript.Http.RequestBuilder.{lookup}
use teslatlas_sdk_typescript.Hub.Drives.Bindings.{IsSameScope, cursor_binding-IsSameScope}
use teslatlas_sdk_typescript.Hub.Drives.{
  Drive, DrivesPage, DrivesQuery, is_outside, is_misplaced, is_disordered, check_drives_page,
  set_binding, bind_next, accept_drives_page, or_else, first_ms, end_ms, is_bound_elsewhere,
  cursor_binding, drives_path,
}

-- Newest first, and the greater identifier first among those of one time.
pub IsBefore : Drive → Drive → Type 0
IsBefore a b =
    (int_ltb b.start_date_ms a.start_date_ms ≡ true)
    ⊎ ((a.start_date_ms ≡ b.start_date_ms) × (int_ltb b.id a.id ≡ true))

-- Each item comes before every later one.
pub IsDescending : List Drive → Type 0
IsDescending [] = Unit
IsDescending (drive ∷ rest) = All (IsBefore drive) rest × IsDescending rest

placed-IsBefore : (a b : Drive) → is_misplaced a b ≡ false → IsBefore a b
unfolding is_misplaced IsBefore
placed-IsBefore a b h = elim (Bool-cases (int_eq a.start_date_ms b.start_date_ms)) [
  | inl e ↦ inr (int_eq-eq a.start_date_ms b.start_date_ms e, ground (arith, e, h))
  | inr e ↦ inl (int_total a.start_date_ms b.start_date_ms (ground (arith, e, h)) e)
]

IsBefore-trans : (a b c : Drive) → IsBefore a b → IsBefore b c → IsBefore a c
unfolding IsBefore
IsBefore-trans a b c (inl h) (inl k) =
    inl (int_ltb_trans c.start_date_ms b.start_date_ms a.start_date_ms k h)
IsBefore-trans a b c (inl h) (inr (k, l)) = inl (rw k at h)
IsBefore-trans a b c (inr (h, l)) (inl k) = inl (rw (sym h) at k)
IsBefore-trans a b c (inr (h, l)) (inr (k, m)) = inr (h ∙ k, int_ltb_trans c.id b.id a.id m l)

All-IsBefore :
    (a b : Drive) (rest : List Drive) → IsBefore a b → All (IsBefore b) rest → All (IsBefore a) rest
All-IsBefore a b [] h k = tt
All-IsBefore a b (c ∷ rest) h (k, l) = (IsBefore-trans a b c h k, All-IsBefore a b rest h l)

ordered-IsDescending : (drives : List Drive) → is_disordered drives ≡ false → IsDescending drives
unfolding is_disordered IsDescending
ordered-IsDescending [] h = tt
ordered-IsDescending (drive ∷ []) h = (tt, tt)
ordered-IsDescending (a ∷ b ∷ rest) h =
    let here = placed-IsBefore a b (ground (arith, h)) in
    let (after, more) = ordered-IsDescending (b ∷ rest) (ground (arith, h)) in
    ((here, All-IsBefore a b rest here after), (after, more))

any-none :
    (p : Drive → Bool) (P : Drive → Type 0)
    → ((d : Drive) → p d ≡ false → P d)
    → (drives : List Drive) → any p drives ≡ false
    → All P drives
any-none p P f [] h = tt
any-none p P f (d ∷ ds) h = (f d (ground (arith, h)), any-none p P f ds (ground (arith, h)))

abbrev IsOf : DrivesQuery → Drive → Type 0
IsOf query drive = (drive.vehicle_id ≡ query.vehicle_id)

abbrev IsWithin : DrivesQuery → Drive → Type 0
IsWithin query drive =
    (int_ltb drive.start_date_ms (first_ms query) ≡ false)
    × (int_ltb drive.start_date_ms (end_ms query) ≡ true)

outside-none :
    (query : DrivesQuery) (drive : Drive) → is_outside query drive ≡ false → IsWithin query drive
unfolding is_outside
outside-none query drive h = (ground (arith, h), ground (arith, h))

-- What the client promises of a page.
pub IsPage : DrivesQuery → DrivesPage → Type 0
IsPage query page =
    All (IsOf query) page.items
    × (int_ltb (or_else query.limit (pos 100)) (pos (length page.items)) ≡ false)
    × All (IsWithin query) page.items
    × IsDescending page.items

-- An accepted page has drives of the vehicle alone, at most the limit of them (100 by default), all
-- starting in the range asked for, each before every later one: newest first, and the greater
-- identifier first at one time. So no drive is there twice.
pub accept_drives_page-IsPage :
    (bindings : List (Text × Text)) (query : DrivesQuery) (page : DrivesPage)
    → AllOk (λ next. IsPage query page) (accept_drives_page bindings query page)
unfolding accept_drives_page check_drives_page IsPage
accept_drives_page-IsPage bindings query page =
    AllOk-bind (λ next. IsPage query page) (check_drives_page query page) _
      λ x checked.
        AllOk-ok (λ x. IsPage query page) (check_drives_page query page)
          (let P : Unit {0} → Type 0 = λ x. IsPage query page in
            AllOk-guard P
              (any (λ drive. not (text_eq drive.vehicle_id query.vehicle_id)) page.items) _ _
              λ a.
                AllOk-guard P (int_ltb (or_else query.limit (pos 100)) (pos (length page.items))) _
                  _
                  λ b. AllOk-guard P (any (is_outside query) page.items) _ _ λ c.
                    throw_if-AllOk P (is_disordered page.items) _ λ d. (
                      any-none (λ drive. not (text_eq drive.vehicle_id query.vehicle_id))
                          (IsOf query)
                          (λ drive e.
                            (text_eq_iff drive.vehicle_id query.vehicle_id).0 (ground (arith, e)))
                          page.items a,
                      b,
                      any-none (is_outside query) (IsWithin query) (outside-none query) page.items
                          c,
                      ordered-IsDescending page.items d,
                    ))
          checked

lookup-set_binding :
    (bindings : List (Text × Text)) (cursor binding : Text)
    → lookup cursor (set_binding bindings cursor binding) ≡ some binding
unfolding lookup set_binding
lookup-set_binding [] cursor binding = rw (text_eq_refl cursor) refl
lookup-set_binding ((key, value) ∷ rest) cursor binding = elim (Bool-cases (text_eq key cursor)) [
  | inl e ↦ rw (e, text_eq_refl cursor) refl
  | inr e ↦ rw (e, e) (lookup-set_binding rest cursor binding)
]

bindings-differ :
    (query other : DrivesQuery)
    → has_unit query.vehicle_id 0 ≡ false
    → has_unit other.vehicle_id 0 ≡ false
    → ¬ IsSameScope query other
    → text_eq (cursor_binding query) (cursor_binding other) ≡ false
bindings-differ query other h k differs =
    elim (Bool-cases (text_eq (cursor_binding query) (cursor_binding other))) [
      | inl e ↦ absurd (
          differs (
            cursor_binding-IsSameScope query other h k
              ((text_eq_iff (cursor_binding query) (cursor_binding other)).0 e)))
      | inr e ↦ e
    ]

-- The cursor that an accepted page gives continues a query of the same vehicle and range alone: with
-- another vehicle, or a range whose bounds differ once the absent ones are filled in, it is refused
-- before any request. A vehicle's identifier is a UUID, which has no unit 0.
pub drives_path-accept_drives_page :
    (bindings next : List (Text × Text)) (query other : DrivesQuery) (page : DrivesPage)
    (cursor : Text)
    → accept_drives_page bindings query page ≡ ok next
    → page.next_cursor ≡ some cursor
    → other.cursor ≡ some cursor
    → has_unit query.vehicle_id 0 ≡ false
    → has_unit other.vehicle_id 0 ≡ false
    → ¬ IsSameScope query other
    → drives_path next other ≡ err (protocol_validation "HubDrives.cursorBinding")
unfolding accept_drives_page bind_next drives_path is_bound_elsewhere
drives_path-accept_drives_page bindings next query other page cursor accepted given used h k apart =
    let differs = bindings-differ query other h k apart in
    let (x, checked, rest) = >>=-eq-ok (check_drives_page query page) _ accepted in
    let same : ok (set_binding bindings cursor (cursor_binding query)) ≡ ok next =
      rw given at rest in
    let bound : lookup cursor next ≡ some (cursor_binding query) =
      subst (λ b. lookup cursor b ≡ some (cursor_binding query)) (cc)
        (lookup-set_binding bindings cursor (cursor_binding query)) in
    rw used (rw (is_bound_elsewhere, bound) (rw (is_bound_elsewhere, differs) refl))

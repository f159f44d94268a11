-- ===== src/Client/Identity/Locations.antt =====
-- What a location that passes its check is.
use teslatlas_sdk_typescript.Prelude.{
  ◌≡◌, refl, ap, subst, true, not, Option, none, some, String, ◌++◌, arith, not_false_lem,
}
use teslatlas_sdk_typescript.Js.Text.{Text, codes, text_eq_iff}
use teslatlas_sdk_typescript.Js.Uri.{encode_uri_component}
use teslatlas_sdk_typescript.Js.Json.{Json, string, field}
use teslatlas_sdk_typescript.Core.Errors.{◌>>=◌, AllOk, AllOk-bind, AllOk-map, throw_if-AllOk}
use teslatlas_sdk_typescript.Http.RequestBuilder.{or_throw, or_throw-eq-ok, uri_error}
use teslatlas_sdk_typescript.Client.Identity.{property, is_location_of, require_location_identity}
use teslatlas_sdk_typescript.Client.Identity.Checked.{property-eq-ok}

-- The location is the prefix with the encoded identifier behind it.
pub IsLocation : Option Text → String → Option Json → Type 0
IsLocation location prefix id =
    (t : Text) × (encoded : Text) × (id ≡ some (string t))
    × (encode_uri_component t ≡ some encoded)
    × (location ≡ some (codes prefix ++ encoded))

is_location_of_same :
    (location : Option Text) (prefix : String) (encoded : Text)
    → is_location_of location prefix encoded ≡ true
    → location ≡ some (codes prefix ++ encoded)
unfolding is_location_of
is_location_of_same none prefix encoded h = ground (arith, h)
is_location_of_same (some location) prefix encoded h =
    ap some ((text_eq_iff location (codes prefix ++ encoded)).0 h)

pub require_location_identity-IsLocation :
    (location : Option Text) (prefix : String) (id : Option Json) (name : String)
    → AllOk
        (λ done. IsLocation location prefix id)
        (require_location_identity location prefix id name)
unfolding require_location_identity IsLocation
require_location_identity-IsLocation location prefix none name = tt
require_location_identity-IsLocation location prefix (some Json.null) name = tt
require_location_identity-IsLocation location prefix (some (Json.boolean b)) name = tt
require_location_identity-IsLocation location prefix (some (Json.number n)) name = tt
require_location_identity-IsLocation location prefix (some (Json.array ms)) name = tt
require_location_identity-IsLocation location prefix (some (Json.object ms)) name = tt
require_location_identity-IsLocation location prefix (some (string t)) name =
    let P : Unit {0} → Type 0 = λ done. IsLocation location prefix (some (string t)) in
    AllOk-bind P (or_throw (encode_uri_component t) uri_error) _ λ encoded e.
      throw_if-AllOk P (not (is_location_of location prefix encoded)) _ λ h.
        unfold IsLocation in
        (
          t,
          encoded,
          refl,
          or_throw-eq-ok (encode_uri_component t) uri_error e,
          is_location_of_same location prefix encoded (not_false_lem _ h),
        )

-- A member that is looked up before its location is checked.
pub located-IsLocation :
    (entity : Json) (key : String) (location : Option Text) (prefix : String) (name : String)
    → AllOk
        (λ done. IsLocation location prefix (field entity (codes key)))
        (property entity (codes key) >>= λ id. require_location_identity location prefix id name)
located-IsLocation entity key location prefix name =
    let P : Unit {0} → Type 0 = λ done. IsLocation location prefix (field entity (codes key)) in
    AllOk-bind P (property entity (codes key)) _ λ id e.
      AllOk-map (λ done. IsLocation location prefix id) P _
        (λ done h.
          subst (λ k. IsLocation location prefix k) (property-eq-ok entity (codes key) e) h)
        (require_location_identity-IsLocation location prefix id name)

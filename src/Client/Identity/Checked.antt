-- ===== src/Client/Identity/Checked.antt =====
-- What an answer that passes the checks of its identity has.
use teslatlas_sdk_typescript.Prelude.{
  ◌≡◌, refl, true, not, Option, none, some, String, List, [], ◌∷◌, All, arith, not_false_lem,
}
use teslatlas_sdk_typescript.Js.Text.{Text, codes}
use teslatlas_sdk_typescript.Js.Json.{Json, string, field, strict_eq, strict_eq-string}
use teslatlas_sdk_typescript.Core.Errors.{
  Result, ok, dotted, AllOk, AllOk-bind, AllOk-if, AllOk-ok, AllOk-map, throw_if-AllOk,
}
use teslatlas_sdk_typescript.Http.RequestBuilder.{Values, QueryValues, lookup}
use teslatlas_sdk_typescript.Http.RequestBuilder.Operations.{ReadOperation}
use teslatlas_sdk_typescript.Client.Identity.{
  property, require_identity, singleton_key, owner_key, expected_of, owner_name, expected_subject,
  expected_owner, or_query, for_each, items_of, check_items, check_subject, when_expected,
  validate_items, validate_entity, path_json, validate_read_identity,
}

-- The entity's member is what is expected.
abbrev pub Has : Json → String → Option Json → Type 0
Has entity key expected = strict_eq (field entity (codes key)) expected ≡ true

property-eq-field :
    (entity : Json) (key : Text) → AllOk (λ found. found ≡ field entity key) (property entity key)
unfolding property
property-eq-field Json.null key = tt
property-eq-field (Json.boolean b) key = refl
property-eq-field (Json.number n) key = refl
property-eq-field (string s) key = refl
property-eq-field (Json.array ms) key = refl
property-eq-field (Json.object ms) key = refl

pub property-eq-ok :
    (entity : Json) (key : Text) {found : Option Json}
    → property entity key ≡ ok found
    → found ≡ field entity key
property-eq-ok entity key e =
    AllOk-ok (λ found. found ≡ field entity key) _ (property-eq-field entity key) e

pub require_identity-Has :
    (entity : Json) (key : String) (expected : Option Json) (name : String)
    → AllOk (λ done. Has entity key expected) (require_identity entity key expected name)
unfolding require_identity
require_identity-Has entity key expected name =
    let P : Unit {0} → Type 0 = λ done. Has entity key expected in
    AllOk-bind P (property entity (codes key)) _ λ found e.
      throw_if-AllOk P (not (strict_eq found expected)) _ λ h.
        rw (property-eq-ok entity (codes key) e) at (not_false_lem (strict_eq found expected) h)

for_each-All :
    (P : Json → Type 0) (check : Json → Result (Unit {0})) (items : List Json)
    → ((item : Json) → AllOk (λ done. P item) (check item))
    → AllOk (λ done. All P items) (for_each check items)
unfolding for_each
for_each-All P check [] h = tt
for_each-All P check (item ∷ rest) h =
    let Q : Unit {0} → Type 0 = λ done. All P (item ∷ rest) in
    AllOk-bind Q (check item) _ λ done e.
      AllOk-map (λ x. All P rest) Q _ (λ x good. (AllOk-ok (λ y. P item) _ (h item) e, good))
        (for_each-All P check rest h)

-- Every item of the entity satisfies the predicate.
pub ItemsAre : (Json → Type 0) → Json → Type 0
ItemsAre P entity =
    (items : List Json) × (items_of (field entity (codes "items")) ≡ ok items) × All P items

check_items-ItemsAre :
    (P : Json → Type 0) (check : Json → Result (Unit {0})) (entity : Json)
    → ((item : Json) → AllOk (λ done. P item) (check item))
    → AllOk (λ done. ItemsAre P entity) (check_items check entity)
unfolding check_items ItemsAre
check_items-ItemsAre P check entity h =
    let Q : Unit {0} → Type 0 = λ done. ItemsAre P entity in
    AllOk-bind Q (property entity (codes "items")) _ λ found e.
      AllOk-bind Q (items_of found) _ λ items i.
        AllOk-map (λ x. All P items) Q _
          (λ x good. (items, (rw (property-eq-ok entity (codes "items") e) at i), good))
          (for_each-All P check items h)

-- A report on a vehicle is on the one that is expected.
pub IsSubject : Option Json → Json → Type 0
IsSubject expected item =
    strict_eq (field item (codes "subject_type")) (some (string (codes "vehicle"))) ≡ true
    → Has item "subject_id" expected

check_subject-IsSubject :
    (expected : Option Json) (name : String) (item : Json)
    → AllOk (λ done. IsSubject expected item) (check_subject expected name item)
unfolding check_subject IsSubject
check_subject-IsSubject expected name item =
    let Q : Unit {0} → Type 0 = λ done. IsSubject expected item in
    AllOk-bind Q (property item (codes "subject_type")) _ λ subject e.
      AllOk-if Q (strict_eq subject (some (string (codes "vehicle")))) _ _
        (λ h.
          AllOk-map (λ x. Has item "subject_id" expected) Q _ (λ x good same. good)
            (require_identity-Has item "subject_id" expected (dotted name ".items")))
        (λ h same.
          let other = rw (property-eq-ok item (codes "subject_type") e) at h in
          ground (arith, other, same))

-- What is checked where something is expected.
pub WhenExpected : Option Json → Type 0 → Type 0
WhenExpected none P = Unit
WhenExpected (some value) P = P

when_expected-WhenExpected :
    (expected : Option Json) (P : Type 0) (check : Result (Unit {0}))
    → AllOk (λ done. P) check
    → AllOk (λ done. WhenExpected expected P) (when_expected expected check)
unfolding when_expected WhenExpected
when_expected-WhenExpected none P check h = tt
when_expected-WhenExpected (some value) P check h = h

module _ (path_values : Values) (query : QueryValues) (entity : Json) where
  -- The items of a list belong to the owner in the path or the query, and those of data quality to
  -- the vehicle of the query.
  pub AreOwned : ReadOperation → Option String → Type 0
  AreOwned operation key =
      let owner = expected_of key path_values query in
      let subject = expected_subject operation query in
      WhenExpected owner (ItemsAre (λ item. Has item (owner_name key) owner) entity)
      × WhenExpected subject (ItemsAre (IsSubject subject) entity)

  -- A single entity has the identifier of the path.
  pub IsIdentified : ReadOperation → Option String → Type 0
  IsIdentified operation none = AreOwned operation (owner_key operation)
  IsIdentified operation (some key) = Has entity key (path_json (lookup (codes key) path_values))

  validate_items-AreOwned :
      (operation : ReadOperation) (key : Option String) (name : String)
      → AllOk
          (λ done. AreOwned operation key)
          (validate_items operation key path_values query entity name)
  unfolding validate_items AreOwned
  validate_items-AreOwned operation key name =
      let owner = expected_of key path_values query in
      let subject = expected_subject operation query in
      let P : Json → Type 0 = λ item. Has item (owner_name key) owner in
      let Q : Unit {0} → Type 0 = λ done. AreOwned operation key in
      AllOk-bind Q (when_expected owner _) _ λ done e.
        AllOk-map (λ x. WhenExpected subject (ItemsAre (IsSubject subject) entity)) Q _
          (λ x good. (
            AllOk-ok (λ y. WhenExpected owner (ItemsAre P entity)) _
                (when_expected-WhenExpected owner (ItemsAre P entity) _ (
                  check_items-ItemsAre P _ entity λ item.
                    require_identity-Has item (owner_name key) owner (dotted name ".items")))
                e,
            good,
          ))
          (when_expected-WhenExpected subject (ItemsAre (IsSubject subject) entity) _ (
            check_items-ItemsAre (IsSubject subject) _ entity
              (check_subject-IsSubject subject name)))

  validate_entity-IsIdentified :
      (operation : ReadOperation) (key : Option String) (name : String)
      → AllOk
          (λ done. IsIdentified operation key)
          (validate_entity operation key path_values query entity name)
  unfolding validate_entity IsIdentified
  validate_entity-IsIdentified operation none name =
      validate_items-AreOwned operation (owner_key operation) name
  validate_entity-IsIdentified operation (some key) name =
      require_identity-Has entity key (path_json (lookup (codes key) path_values)) name

-- An answer that passes is the entity that was asked for, or a list of what belongs to it.
pub validate_read_identity-IsIdentified :
    (operation : ReadOperation) (entity : Json) (path_values : Values) (query : QueryValues)
    (name : String)
    → AllOk
        (λ done. IsIdentified path_values query entity operation (singleton_key operation))
        (validate_read_identity operation entity path_values query name)
unfolding validate_read_identity
validate_read_identity-IsIdentified operation entity path_values query name =
    validate_entity-IsIdentified path_values query entity operation (singleton_key operation) name

All-weaken :
    (P Q : Json → Type 0) (items : List Json)
    → ((item : Json) → P item → Q item)
    → All P items
    → All Q items
All-weaken P Q [] f h = tt
All-weaken P Q (item ∷ rest) f (h, hs) = (f item h, All-weaken P Q rest f hs)

pub ItemsAre-weaken :
    (P Q : Json → Type 0) (entity : Json)
    → ((item : Json) → P item → Q item)
    → ItemsAre P entity
    → ItemsAre Q entity
unfolding ItemsAre
ItemsAre-weaken P Q entity f (items, e, h) = (items, e, All-weaken P Q items f h)

-- The items of a list whose path has an owner.
pub IsIdentified-ItemsAre :
    (path_values : Values) (query : QueryValues) (entity : Json) (operation : ReadOperation)
    (key : String) (owner : Text)
    → singleton_key operation ≡ none
    → owner_key operation ≡ some key
    → lookup (codes key) path_values ≡ some owner
    → IsIdentified path_values query entity operation (singleton_key operation)
    → ItemsAre (λ item. field item (codes key) ≡ some (string owner)) entity
unfolding IsIdentified AreOwned WhenExpected expected_of owner_name expected_owner ItemsAre or_query
IsIdentified-ItemsAre path_values query entity operation key owner single owned found h =
    let own = rw (found) at (rw owned at (rw single at h)) in
    ItemsAre-weaken (λ item. Has item key (some (string owner)))
      (λ item. field item (codes key) ≡ some (string owner)) entity
      (λ item same. strict_eq-string (field item (codes key)) owner same) own.0

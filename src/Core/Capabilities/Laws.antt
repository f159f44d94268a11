-- ===== src/Core/Capabilities/Laws.antt =====
-- What is missing is what is required and not available, once each and in order.
use teslatlas_sdk_typescript.Prelude.{
  ◌≡◌, refl, ap, ◌∙◌, Bool, true, ◌&&◌, ◌||◌, not, inl, inr, List, [], ◌∷◌, arith, if◌then◌else◌,
}
use teslatlas_sdk_typescript.Js.Text.{Text, text_eq, text_eq_iff, includes, includes-append_one}
use teslatlas_sdk_typescript.Core.Errors.{ok, AllOk, AllOk-bind, AllOk-ok, AllOk-map, Result-cases}
use teslatlas_sdk_typescript.Core.Capabilities.{
  as_capability_id, set_add, insert_sorted, sort_texts, missing_from, find_missing_capabilities,
  require_capabilities, or_missing,
}

pub includes-set_add :
    (xs : List Text) (t u : Text) → includes (set_add xs t) u ≡ (includes xs u || text_eq t u)
unfolding set_add
includes-set_add xs t u = ground (arith, includes-append_one xs t u, text_eq_iff t u)

includes-insert_sorted :
    (x : Text) (ys : List Text) (u : Text)
    → includes (insert_sorted x ys) u ≡ (text_eq x u || includes ys u)
unfolding includes insert_sorted
includes-insert_sorted x [] u = refl
includes-insert_sorted x (y ∷ ys) u = ground (arith, includes-insert_sorted x ys u)

includes-sort_texts : (xs : List Text) (u : Text) → includes (sort_texts xs) u ≡ includes xs u
unfolding includes sort_texts
includes-sort_texts [] u = refl
includes-sort_texts (x ∷ xs) u =
    includes-insert_sorted x (sort_texts xs) u
    ∙ ap (λ b. text_eq x u || b) (includes-sort_texts xs u)

as_capability_id-id : (t : Text) → AllOk (λ id. id ≡ t) (as_capability_id t)
unfolding as_capability_id
as_capability_id-id t = ground arith

abbrev IsMissing : List Text → List Text → List Text → List Text → Type 0
IsMissing available old required missing =
    (u : Text)
    → includes missing u ≡ (includes old u || (includes required u && not (includes available u)))

-- One round of the loop: the texts missing after it and after the rest.
missing_round :
    (available old vs : List Text) (v u : Text) (m : Bool)
    → m ≡ (
        includes (if includes available v then old else set_add old v) u
        || (includes vs u && not (includes available u)))
    → m ≡ (includes old u || (includes (v ∷ vs) u && not (includes available u)))
unfolding includes
missing_round available old vs v u m h = ground (arith, includes-set_add old v u, text_eq_iff v u)

includes-missing_from :
    (available old required : List Text)
    → AllOk (IsMissing available old required) (missing_from available old required)
unfolding missing_from
includes-missing_from available old [] = λ u. unfold includes in ground arith
includes-missing_from available old (v ∷ vs) =
    AllOk-bind (IsMissing available old (v ∷ vs)) (as_capability_id v) _ λ id e.
      let same : id ≡ v = AllOk-ok (λ id. id ≡ v) _ (as_capability_id-id v) e in
      let next = if includes available id then old else set_add old id in
      AllOk-map (IsMissing available next vs) (IsMissing available old (v ∷ vs)) _
        (λ m h u. missing_round available old vs v u (includes m u) (
          h u
          ∙ ap
              (λ (k : Text).
                includes (if includes available k then old else set_add old k) u
                || (includes vs u && not (includes available u)))
              same))
        (includes-missing_from available next vs)

-- The result holds exactly the texts that are required and not available.
pub includes-find_missing_capabilities :
    (available required : List Text)
    → AllOk
        (λ missing.
          (u : Text) → includes missing u ≡ (includes required u && not (includes available u)))
        (find_missing_capabilities available required)
unfolding find_missing_capabilities includes
includes-find_missing_capabilities available required =
    AllOk-bind _ (missing_from available [] required) _ λ missing e u.
      includes-sort_texts missing u
      ∙ AllOk-ok (IsMissing available [] required) _ (includes-missing_from available [] required) e
          u

or_missing-nil : (missing : List Text) → or_missing missing ≡ ok tt → missing ≡ []
or_missing-nil [] h = refl
or_missing-nil (x ∷ xs) h = cc

-- The check passes only if every required text is available, and an error lists those that are not.
pub require_capabilities_sound :
    (available required : List Text) (u : Text)
    → require_capabilities available required ≡ ok tt
    → includes required u ≡ true
    → includes available u ≡ true
unfolding require_capabilities
require_capabilities_sound available required u h r =
    elim (Result-cases (find_missing_capabilities available required)) [
      | inr (x, e) ↦ (cc (rw e at h))
      | inl (missing, e) ↦
          let none_left : missing ≡ [] = or_missing-nil missing (rw e at h) in
          let exact = AllOk-ok _ _ (includes-find_missing_capabilities available required) e u in
          unfold includes in ground (arith, exact, ap (λ (l : List Text). includes l u) none_left)
    ]

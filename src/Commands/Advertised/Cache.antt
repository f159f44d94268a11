-- ===== src/Commands/Advertised/Cache.antt =====
-- The caches of compiled schemas are transparent: no call can tell that an earlier one was made.
use teslatlas_sdk_typescript.Prelude.{
  ℕ, ◌+◌, ◌≡◌, refl, sym, ◌∙◌, ◌⊎◌, inl, inr, Bool, true, false, Option, none, some, List, [], ◌∷◌,
  ◌==◌, map, All, Bool-cases, Option-cases,
}
use teslatlas_sdk_typescript.Js.Text.{Text, codes, text_eq, text_eq_iff}
use teslatlas_sdk_typescript.Js.Json.{
  Json, Number, null, boolean, number, string, array, object, field, strict_eq,
}
use teslatlas_sdk_typescript.Core.Errors.{Result, ok, err, AllOk, AllOk-map}
use teslatlas_sdk_typescript.Http.RequestSnapshot.{Value, primitive, reference, other, Snapshot}
use teslatlas_sdk_typescript.Http.RequestSnapshot.Mirrors.{Mirrors}
use teslatlas_sdk_typescript.Http.RequestSnapshot.Copies.{
  stringify, IsCopy, IsWithin, snapshot_json_request-IsCopy,
}
use teslatlas_sdk_typescript.Commands.Advertised.{
  CachedSchema, Caches, Heap, same_bool, boolean_entry, object_entry, cached, remember,
  as_synchronous_schema, current_entry, compiled, match_schema, match_synchronous, match_snapshot,
  snapshot_of, matches_json_schema,
}

-- A question to the matcher, with the caller's objects at that moment.
pub record Question : Type 0 where
  pub heap : Heap
  pub schema : Value
  pub value : Option Json

abbrev pub no_caches : Caches
no_caches = record { booleans = []; objects = [] }

as_synchronous_schema_same : (v : Json) {w : Json} → as_synchronous_schema v ≡ some w → v ≡ w
unfolding as_synchronous_schema
as_synchronous_schema_same (boolean b) h = cc
as_synchronous_schema_same (object ms) h =
    elim (Bool-cases (strict_eq (field (object ms) (codes "$async")) (some (boolean true)))) [
      | inl e ↦ let bad = rw e at h in cc
      | inr e ↦ let good = rw e at h in cc
    ]
as_synchronous_schema_same null h = cc
as_synchronous_schema_same (number n) h = cc
as_synchronous_schema_same (string s) h = cc
as_synchronous_schema_same (array ms) h = cc

module _ (number_text : Number → Text) (compile : Json → Option (Option Json → Bool)) where
  -- The answer of a fresh compilation.
  fresh : Option (Option Json → Bool) → Option Json → Bool
  fresh none value = false
  fresh (some validate) value = validate value

  fresh_schema : Option Json → Option Json → Bool
  fresh_schema none value = false
  fresh_schema (some synchronous) value = fresh (compile synchronous) value

  fresh_snapshot : Result Snapshot → Option Json → Bool
  fresh_snapshot (err e) value = false
  fresh_snapshot (ok snapshot) value = fresh_schema (as_synchronous_schema snapshot.value) value

  -- What is answered without a cache.
  unfoldable pub uncached : Question → Bool
  unfolding fresh_snapshot fresh_schema fresh
  uncached question =
      fresh_snapshot (snapshot_of number_text compile question.heap question.schema none)
        question.value

  -- What is answered to questions one after the other, with the caches that the earlier ones left.
  unfoldable pub answers : Caches → List Question → List Bool
  answers caches [] = []
  answers caches (question ∷ questions) =
      let (answer, later) =
        matches_json_schema number_text compile question.heap caches question.schema
          question.value in
      answer ∷ answers later questions

  -- An entry holds the validator of a schema with its body.
  IsCompiled : CachedSchema → Type 0
  IsCompiled entry =
      (v : Json) × (entry.body ≡ stringify number_text v) × (compile v ≡ some entry.validate)

  IsCoherent : Caches → Type 0
  IsCoherent caches =
      All (λ pair. IsCompiled pair.1) caches.booleans
      × All (λ pair. IsCompiled pair.1) caches.objects

  IsEntry : Option CachedSchema → Type 0
  IsEntry none = Unit
  IsEntry (some entry) = IsCompiled entry

  boolean_entry-IsEntry :
      (entries : List (Bool × CachedSchema)) (key : Bool)
      → All (λ pair. IsCompiled pair.1) entries
      → IsEntry (boolean_entry entries key)
  unfolding boolean_entry IsEntry
  boolean_entry-IsEntry [] key h = tt
  boolean_entry-IsEntry ((k, entry) ∷ rest) key (h, hs) = elim (Bool-cases (same_bool k key)) [
    | inl e ↦ rw e h
    | inr e ↦ rw e (boolean_entry-IsEntry rest key hs)
  ]

  object_entry-IsEntry :
      (entries : List (ℕ × CachedSchema)) (key : ℕ)
      → All (λ pair. IsCompiled pair.1) entries
      → IsEntry (object_entry entries key)
  unfolding object_entry IsEntry
  object_entry-IsEntry [] key h = tt
  object_entry-IsEntry ((k, entry) ∷ rest) key (h, hs) = elim (Bool-cases (k == key)) [
    | inl e ↦ rw e h
    | inr e ↦ rw e (object_entry-IsEntry rest key hs)
  ]

  cached-IsEntry :
      (caches : Caches) (schema : Value) → IsCoherent caches → IsEntry (cached caches schema)
  unfolding cached IsCoherent IsEntry
  cached-IsEntry caches (primitive (boolean b)) h = boolean_entry-IsEntry caches.booleans b h.0
  cached-IsEntry caches (reference id) h = object_entry-IsEntry caches.objects id h.1
  cached-IsEntry caches (primitive null) h = tt
  cached-IsEntry caches (primitive (number n)) h = tt
  cached-IsEntry caches (primitive (string s)) h = tt
  cached-IsEntry caches (primitive (array ms)) h = tt
  cached-IsEntry caches (primitive (object ms)) h = tt
  cached-IsEntry caches other h = tt

  remember-IsCoherent :
      (caches : Caches) (schema : Value) (entry : CachedSchema)
      → IsCompiled entry
      → IsCoherent caches
      → IsCoherent (remember caches schema entry)
  unfolding remember IsCoherent
  remember-IsCoherent caches (primitive (boolean b)) entry e h = ((e, h.0), h.1)
  remember-IsCoherent caches (reference id) entry e h = (h.0, (e, h.1))
  remember-IsCoherent caches (primitive null) entry e h = h
  remember-IsCoherent caches (primitive (number n)) entry e h = h
  remember-IsCoherent caches (primitive (string s)) entry e h = h
  remember-IsCoherent caches (primitive (array ms)) entry e h = h
  remember-IsCoherent caches (primitive (object ms)) entry e h = h
  remember-IsCoherent caches other entry e h = h

  -- The entry found is of the body that is looked for.
  current_entry_body :
      (found : Option CachedSchema) (body : Text)
      → IsEntry found
      → (current_entry found body ≡ none)
        ⊎ ((entry : CachedSchema) × (current_entry found body ≡ some entry)
            × (entry.body ≡ body)
            × IsCompiled entry)
  unfolding current_entry IsEntry
  current_entry_body none body h = inl refl
  current_entry_body (some entry) body h = elim (Bool-cases (text_eq entry.body body)) [
    | inl e ↦ inr (entry, rw e refl, (text_eq_iff entry.body body).0 e, h)
    | inr e ↦ inl (rw e refl)
  ]

  -- The answer, and coherent caches.
  IsAnswer : Bool → Bool × Caches → Type 0
  IsAnswer expected result = (result.0 ≡ expected) × IsCoherent result.1

  compiled-IsAnswer :
      (caches : Caches) (schema : Value) (v : Json) (value : Option Json)
      → IsCoherent caches
      → IsAnswer
          (fresh (compile v) value)
          (compiled number_text compile caches schema (stringify number_text v) (compile v) value)
  unfolding compiled IsAnswer fresh
  compiled-IsAnswer caches schema v value h = elim (Option-cases (compile v)) [
    | inl e ↦ rw e (refl, h)
    | inr (validate, e) ↦
        rw e (refl, remember-IsCoherent caches schema _ (unfold IsCompiled in (v, refl, e)) h)
  ]

  -- The compiler goes by what a schema says.
  module _
      (by_text : (v w : Json)
        → stringify number_text v ≡ stringify number_text w
        → compile v ≡ compile w) where
    IsCompiled-validate :
        (entry : CachedSchema) (v : Json)
        → IsCompiled entry
        → entry.body ≡ stringify number_text v
        → compile v ≡ some entry.validate
    unfolding IsCompiled
    IsCompiled-validate entry v (w, body, e) same = by_text v w (sym same ∙ body) ∙ e

    match_schema-IsAnswer :
        (caches : Caches) (schema : Value) (v : Json) (value : Option Json)
        → IsCoherent caches
        → IsAnswer (fresh (compile v) value) (
            match_schema number_text compile caches schema
              (stringify number_text v)
              v
              (current_entry (cached caches schema) (stringify number_text v))
              value)
    unfolding match_schema IsAnswer fresh
    match_schema-IsAnswer caches schema v value h =
        elim (current_entry_body (cached caches schema) (stringify number_text v)
          (cached-IsEntry caches schema h)) [
            | inl e ↦ rw e (unfold IsAnswer in compiled-IsAnswer caches schema v value h)
            | inr (entry, e, same, c) ↦ rw e (rw (IsCompiled-validate entry v c same) (refl, h))
          ]

    match_synchronous-IsAnswer :
        (caches : Caches) (schema : Value) (v : Json) (value : Option Json)
        → IsCoherent caches
        → IsAnswer (fresh_schema (as_synchronous_schema v) value) (
            match_synchronous number_text compile caches schema
              (stringify number_text v)
              (as_synchronous_schema v)
              value)
    unfolding match_synchronous fresh_schema IsAnswer
    match_synchronous-IsAnswer caches schema v value h =
        elim (Option-cases (as_synchronous_schema v)) [
          | inl e ↦ rw e (refl, h)
          | inr (w, e) ↦
              let same : v ≡ w = as_synchronous_schema_same v e in
              rw e (rw same (unfold IsAnswer in match_schema-IsAnswer caches schema w value h))
        ]

    IsAnswer-answer :
        (expected : Bool) (result : Bool × Caches) → IsAnswer expected result → result.0 ≡ expected
    unfolding IsAnswer
    IsAnswer-answer expected result h = h.0

    IsAnswer-later :
        (expected : Bool) (result : Bool × Caches) → IsAnswer expected result → IsCoherent result.1
    unfolding IsAnswer
    IsAnswer-later expected result h = h.1

    -- The answer to a question does not depend on coherent caches, and keeps them so.
    match_snapshot-IsAnswer :
        (caches : Caches) (schema : Value) (r : Result Snapshot) (value : Option Json)
        → AllOk (IsCopy number_text) r
        → IsCoherent caches
        → IsAnswer
            (fresh_snapshot r value)
            (match_snapshot number_text compile caches schema r value)
    unfolding match_snapshot fresh_snapshot IsAnswer IsCopy
    match_snapshot-IsAnswer caches schema (err e) value copy h = (refl, h)
    match_snapshot-IsAnswer caches schema (ok snapshot) value copy h =
        rw copy.0
          (unfold IsAnswer in match_synchronous-IsAnswer caches schema snapshot.value value h)

    matches_json_schema-IsAnswer :
        (caches : Caches) (question : Question)
        → IsCoherent caches
        → IsAnswer (uncached question) (
            matches_json_schema number_text compile question.heap caches question.schema
              question.value)
    unfolding matches_json_schema uncached snapshot_of
    matches_json_schema-IsAnswer caches question h =
        match_snapshot-IsAnswer caches question.schema _ question.value
          (AllOk-map
            (λ s.
              IsCopy number_text s
              × IsWithin number_text question.heap.objects none s.body
              × Mirrors question.heap.objects s.value question.schema)
            (IsCopy number_text) _ (λ s good. good.0)
            (snapshot_json_request-IsCopy number_text question.heap.objects (question.heap.size + 1)
              question.schema none))
          h

    answers_coherent :
        (questions : List Question) (caches : Caches)
        → IsCoherent caches
        → answers caches questions ≡ map uncached questions
    unfolding answers
    answers_coherent [] caches h = refl
    answers_coherent (question ∷ questions) caches h =
        let good = matches_json_schema-IsAnswer caches question h in
        rw
          (
            IsAnswer-answer (uncached question) _ good,
            answers_coherent questions _ (IsAnswer-later (uncached question) _ good),
          )
          refl

    -- If the compiler gives schemas with the same text the same validator, the answers to any questions,
    -- asked one after the other with the caches that the earlier ones left, are those without a cache.
    pub answers-eq-uncached :
        (questions : List Question) → answers no_caches questions ≡ map uncached questions
    answers-eq-uncached questions =
        answers_coherent questions no_caches (unfold IsCoherent in (tt, tt))

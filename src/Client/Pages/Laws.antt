-- ===== src/Client/Pages/Laws.antt =====
-- A pagination asks for no cursor twice, and ends if the cursors that can come up are finitely many.
use teslatlas_sdk_typescript.Prelude.{
  ℕ, zero, suc, ◌+◌, ◌≤◌, ◌<◌, ◌≡◌, ◌≢◌, refl, subst, true, false, inl, inr, Option, none, some,
  List, [], ◌∷◌, ◌++◌, arith, if◌then◌else◌, length, Bool-cases, Option-cases,
}
use teslatlas_sdk_typescript.Js.Text.{Text, text_eq, text_eq_iff, includes, includes-append_one}
use teslatlas_sdk_typescript.Core.Errors.{Result, ok, Result-cases}
use teslatlas_sdk_typescript.Client.Pages.{
  ReadResult, modified, not_modified, unfinished, iterate_from, iterate_pages, start,
}

-- The cursors are new, one after the other: none is in `seen`, and none comes twice.
abbrev pub Fresh : List Text → List (Option Text) → Type 0
Fresh seen [] = Unit
Fresh seen (none ∷ cs) = ⊥
Fresh seen (some c ∷ cs) = (includes seen c ≡ false) × Fresh (seen ++ c ∷ []) cs

-- What follows the first request is fresh.
abbrev pub FreshAfter : List Text → List (Option Text) → Type 0
FreshAfter seen [] = Unit
FreshAfter seen (c ∷ cs) = Fresh seen cs

unseen : List Text → List Text → ℕ
unseen seen [] = 0
unseen seen (p ∷ ps) = (if includes seen p then 0 else 1) + unseen seen ps

unseen-append_le : (seen ps : List Text) (k : Text) → unseen (seen ++ k ∷ []) ps ≤ unseen seen ps
unfolding unseen
unseen-append_le seen [] k = omega arith
unseen-append_le seen (p ∷ ps) k =
    ground (arith, unseen-append_le seen ps k, includes-append_one seen k p)

-- Seeing a member of the pool for the first time leaves fewer.
unseen-append_lt :
    (seen ps : List Text) (k : Text)
    → includes ps k ≡ true
    → includes seen k ≡ false
    → unseen (seen ++ k ∷ []) ps < unseen seen ps
unfolding unseen
unseen-append_lt seen [] k h n = unfold includes in ground arith
unseen-append_lt seen (p ∷ ps) k h n = elim (Bool-cases (text_eq p k)) [
  | inl e ↦ ground (
    arith,
    text_eq_iff p k,
    text_eq_iff k p,
    unseen-append_le seen ps k,
    includes-append_one seen k p,
  )
  | inr e ↦ ground (
    arith,
    unseen-append_lt seen ps k (unfold includes in ground arith) n,
    includes-append_one seen k p,
  )
]

unseen-le-length : (seen ps : List Text) → unseen seen ps ≤ length ps
unfolding unseen
unseen-le-length seen [] = omega arith
unseen-le-length seen (p ∷ ps) = ground (arith, unseen-le-length seen ps)

-- The run asks for `cursor` first, and then for fresh cursors.
abbrev Starts : List Text → Option Text → List (Option Text) → Type 0
Starts seen cursor [] = Unit
Starts seen cursor (c ∷ cs) = (c ≡ cursor) × Fresh seen cs

Fresh-Starts :
    (seen : List Text) (next : Text) (cs : List (Option Text))
    → includes seen next ≡ false
    → Starts (seen ++ next ∷ []) (some next) cs
    → Fresh seen cs
Fresh-Starts seen next [] h s = tt
Fresh-Starts seen next (none ∷ cs) h (e, s) = cc
Fresh-Starts seen next (some c ∷ cs) h (e, s) =
    let same : next ≡ c = cc in
    subst (λ k. (includes seen k ≡ false) × Fresh (seen ++ k ∷ []) cs) same (h, s)

module _ {ℓ} {A : Type ℓ} (load : ℕ → Option Text → Result (ReadResult A))
    (next_cursor : A → Option Text) where
  iterate_from-Starts :
      (fuel n : ℕ) (cursor : Option Text) (seen : List Text)
      → Starts seen cursor (iterate_from load next_cursor fuel n cursor seen).requested
  unfolding iterate_from
  iterate_from-Starts zero n cursor seen = tt
  iterate_from-Starts (suc fuel) n cursor seen = elim (Result-cases (load n cursor)) [
    | inr (x, e) ↦ rw (e, iterate_from) (refl, tt)
    | inl (not_modified, e) ↦ rw (e, iterate_from) (refl, tt)
    | inl (modified page, e) ↦ elim (Option-cases (next_cursor page)) [
      | inl last ↦ rw (e, iterate_from) (rw (last, iterate_from) (refl, tt))
      | inr (next, more) ↦ elim (Bool-cases (includes seen next)) [
        | inl again ↦
            rw (e, iterate_from) (rw (more, iterate_from) (rw (again, iterate_from) (refl, tt)))
        | inr new ↦
            rw (e, iterate_from)
              (rw (more, iterate_from)
                (rw (new, iterate_from)
                  (
                    refl,
                    Fresh-Starts seen next _ new
                        (iterate_from-Starts fuel (n + 1) (some next) (seen ++ next ∷ [])),
                  )))
      ]
    ]
  ]

  -- After the first request each request is for a cursor that was not asked for before, and each
  -- that follows is another: no page is loaded twice by its cursor.
  pub iterate_pages-FreshAfter :
      (fuel : ℕ) (cursor : Option Text)
      → FreshAfter (start cursor) (iterate_pages load next_cursor fuel cursor).requested
  unfolding iterate_pages
  iterate_pages-FreshAfter fuel cursor =
      after _ cursor _ (iterate_from-Starts fuel 0 cursor (start cursor))
    where
      after :
          (seen : List Text) (c : Option Text) (cs : List (Option Text))
          → Starts seen c cs
          → FreshAfter seen cs
      after seen c [] h = tt
      after seen c (d ∷ cs) (e, h) = h

  iterate_from-ends :
      (pool : List Text)
      → ((n : ℕ) (cursor : Option Text) (page : A) (next : Text)
          → load n cursor ≡ ok (modified page)
          → next_cursor page ≡ some next
          → includes pool next ≡ true)
      → (fuel n : ℕ) (cursor : Option Text) (seen : List Text) → unseen seen pool < fuel
      → (iterate_from load next_cursor fuel n cursor seen).ending ≢ unfinished
  unfolding iterate_from
  iterate_from-ends pool inside zero n cursor seen h = absurd (omega arith)
  iterate_from-ends pool inside (suc fuel) n cursor seen h = elim (Result-cases (load n cursor)) [
    | inr (x, e) ↦ rw (e, iterate_from) (λ p. cc)
    | inl (not_modified, e) ↦ rw (e, iterate_from) (λ p. cc)
    | inl (modified page, e) ↦ elim (Option-cases (next_cursor page)) [
      | inl last ↦ rw (e, iterate_from) (rw (last, iterate_from) (λ p. cc))
      | inr (next, more) ↦ elim (Bool-cases (includes seen next)) [
        | inl again ↦
            rw (e, iterate_from) (rw (more, iterate_from) (rw (again, iterate_from) (λ p. cc)))
        | inr new ↦
            rw (e, iterate_from)
              (rw (more, iterate_from)
                (rw (new, iterate_from)
                  (iterate_from-ends pool inside fuel (n + 1) (some next) (seen ++ next ∷ []) (
                    omega (
                      arith,
                      unseen-append_lt seen pool next (inside n cursor page next e more) new,
                    )))))
      ]
    ]
  ]

  -- If every cursor that the pages name lies in a finite pool, the pagination ends within one round
  -- more than the pool has members: a hub that repeats cursors cannot keep it going.
  pub iterate_pages-ends :
      (pool : List Text)
      → ((n : ℕ) (cursor : Option Text) (page : A) (next : Text)
          → load n cursor ≡ ok (modified page)
          → next_cursor page ≡ some next
          → includes pool next ≡ true)
      → (fuel : ℕ) (cursor : Option Text) → length pool < fuel
      → (iterate_pages load next_cursor fuel cursor).ending ≢ unfinished
  unfolding iterate_pages
  iterate_pages-ends pool inside fuel cursor h =
      let seen = start cursor in
      iterate_from-ends pool inside fuel 0 cursor seen (omega (arith, unseen-le-length seen pool))

-- ===== src/Hub/Sessions/Expiry.antt =====
-- Operations of a session that is over.
use teslatlas_sdk_typescript.Prelude.{
  ℕ, ◌+◌, ◌≤◌, ◌<◌, ◌≡◌, refl, sym, subst, Bool, true, false, ◌&&◌, not, List, [], ◌∷◌, ◌==◌,
  if◌then◌else◌, arith, ◌⊎◌, inl, inr, Bool-cases,
}
use teslatlas_sdk_typescript.Js.Text.{text_eq}
use teslatlas_sdk_typescript.Core.Errors.{
  Result, ok, err, aborted, AllOk, AllOk-bind, AllOk-guard, AllOk-ok,
}
use teslatlas_sdk_typescript.Hub.Sessions.{
  Session, Operation, is_expired, assert_operation, begin_operation, dispose, logout,
  store_discovery, fail_discovery, store_cursor, or_same, Step, disposes, logs_out, discovers,
  fails, stores, step, steps,
}

-- The session's generation has passed the given one, or the client is disposed.
pub IsOver : ℕ → Session → Type 0
IsOver generation session = (generation < session.generation) ⊎ (session.disposed ≡ true)

-- What the generation and the disposal keep, every step keeps.
module _ (P : ℕ → Bool → Type 0) (disposed_keeps : (g : ℕ) → P g false → P (g + 1) true)
    (logout_keeps : (g : ℕ) → P g false → P (g + 1) false) where
  abbrev Holds : Session → Type 0
  Holds session = P session.generation session.disposed

  if-Holds :
      (b : Bool) (x y : Session)
      → (b ≡ true → Holds x)
      → (b ≡ false → Holds y)
      → Holds (if b then x else y)
  if-Holds true x y h k = h refl
  if-Holds false x y h k = k refl

  or_same-Holds :
      (session : Session) (r : Result Session)
      → Holds session
      → AllOk Holds r
      → Holds (or_same session r)
  or_same-Holds session (ok next) h k = k
  or_same-Holds session (err e) h k = h

  step-Holds : (session : Session) (s : Step) → Holds session → Holds (step session s)
  unfolding step dispose logout store_discovery store_cursor fail_discovery
  step-Holds session disposes h =
      if-Holds session.disposed _ _ (λ _. h)
        λ e. disposed_keeps session.generation (subst (P session.generation) e h)
  step-Holds session logs_out h = or_same-Holds session (logout session) h (
      AllOk-guard Holds session.disposed _ _ λ e.
        subst (P (session.generation + 1)) (sym e)
          (logout_keeps session.generation (subst (P session.generation) e h)))
  step-Holds session (discovers operation aborted_now found) h =
      or_same-Holds session (store_discovery session operation aborted_now found) h (
        AllOk-bind Holds (assert_operation session operation aborted_now) _
          λ x _. AllOk-guard Holds (not (text_eq found.hub_id session.expected_hub_id)) _ _ λ _. h)
  step-Holds session (fails operation is_pending) h =
      if-Holds (is_pending && (operation.generation == session.generation && not session.disposed))
        _ _ (λ _. h) (λ _. h)
  step-Holds session (stores operation aborted_now query page) h =
      or_same-Holds session (store_cursor session operation aborted_now query page) h
        (AllOk-bind Holds (assert_operation session operation aborted_now) _ λ x _. h)

  steps-Holds : (session : Session) (rest : List Step) → Holds session → Holds (steps session rest)
  unfolding steps
  steps-Holds session [] h = h
  steps-Holds session (s ∷ rest) h = steps-Holds (step session s) rest (step-Holds session s h)

IsOverAt : ℕ → ℕ → Bool → Type 0
IsOverAt g generation disposed = (g < generation) ⊎ (disposed ≡ true)

steps-IsOver :
    (g : ℕ) (session : Session) (rest : List Step)
    → IsOver g session
    → IsOver g (steps session rest)
unfolding IsOver IsOverAt
steps-IsOver g =
    steps-Holds (IsOverAt g) (λ n h. inr refl)
      (λ n h. elim h [ inl k ↦ inl (omega (arith, k)) | inr k ↦ cc ])

steps-generation :
    (session : Session) (rest : List Step) → session.generation ≤ (steps session rest).generation
steps-generation session rest =
    steps-Holds (λ n d. session.generation ≤ n) (λ n h. omega (arith, h)) (λ n h. omega (arith, h))
      session rest (omega arith)

over-expired :
    (session : Session) (operation : Operation) (aborted_now : Bool)
    → IsOver operation.generation session
    → assert_operation session operation aborted_now ≡ err aborted
unfolding assert_operation is_expired IsOver
over-expired session operation aborted_now (inl h) =
    let e : (operation.generation == session.generation) ≡ false = ground (arith, h) in rw e refl
over-expired session operation aborted_now (inr h) =
    elim (Bool-cases (operation.generation == session.generation)) [
      | inl e ↦ rw (e, h) refl
      | inr e ↦ rw e refl
    ]

-- The steps that end a session.
pub data IsEnding : Session → Step → Type 0 where
  by_dispose : (session : Session) → IsEnding session disposes
  by_logout : (session : Session) → session.disposed ≡ false → IsEnding session logs_out

ending-IsOver :
    (session : Session) (s : Step) (g : ℕ)
    → g ≤ session.generation
    → IsEnding session s
    → IsOver g (step session s)
unfolding step dispose logout IsOver
ending-IsOver session disposes g h (by_dispose _) = elim (Bool-cases session.disposed) [
  | inl e ↦ rw e (inr refl)
  | inr e ↦ rw e (inr refl)
]
ending-IsOver session logs_out g h (by_logout _ e) = rw e (inl (omega (arith, h)))
ending-IsOver session (discovers operation aborted_now found) g h e = elim e [ ]
ending-IsOver session (fails operation is_pending) g h e = elim e [ ]
ending-IsOver session (stores operation aborted_now query page) g h e = elim e [ ]

begun-generation :
    (session : Session) (aborted_first : Bool)
    → AllOk
        (λ operation. operation.generation ≡ session.generation)
        (begin_operation session aborted_first)
unfolding begin_operation
begun-generation session aborted_first =
    let P : Operation → Type 0 = λ operation. operation.generation ≡ session.generation in
    let operation : Operation = record { generation = session.generation } in
    AllOk-guard P session.disposed _ _
      λ _. AllOk-bind P (assert_operation session operation aborted_first) _ λ x _. refl

-- An operation that was begun before a logout or a disposal fails with an abort whenever it is asserted
-- afterwards, whatever steps of other operations come before or after.
pub assert_operation-after_end :
    (session : Session) (operation : Operation) (aborted_first aborted_now : Bool)
    (before after : List Step) (last : Step)
    → begin_operation session aborted_first ≡ ok operation
    → IsEnding (steps session before) last
    → assert_operation (steps (step (steps session before) last) after) operation aborted_now
      ≡ err aborted
assert_operation-after_end session operation aborted_first aborted_now before after last begun
      ends =
    let started : operation.generation ≡ session.generation =
      AllOk-ok (λ o. o.generation ≡ session.generation) _ (begun-generation session aborted_first)
        begun in
    over-expired (steps (step (steps session before) last) after) operation aborted_now (
      steps-IsOver operation.generation (step (steps session before) last) after (
        ending-IsOver (steps session before) last operation.generation
          (omega (arith, started, steps-generation session before)) ends))

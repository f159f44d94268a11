-- ===== src/Events/Subscription/Delays.antt =====
-- The wait before the next connection.
use teslatlas_sdk_typescript.Prelude.{ℕ, ◌≡◌, ◌≤◌, Bool, Option, none, some, ltb, arith}
use teslatlas_sdk_typescript.Js.Text.{Text}
use teslatlas_sdk_typescript.Core.Errors.{
  Result, ok, aborted, AllOk, AllOk-bind, AllOk-guard, AllOk-if, AllOk-ok,
}
use teslatlas_sdk_typescript.Events.Subscription.{
  Options, retry_bounds, is_safe_delay, validate_protocol_version, validate_checkpoint, clamp,
}
use teslatlas_sdk_typescript.Events.Subscription.Rounds.{prepare, chosen_delay, load_checkpoint}

abbrev AreBounds : ℕ × ℕ → Type 0
AreBounds bounds = bounds.0 ≤ bounds.1

retry_bounds-AreBounds :
    (minimum maximum : Option ℕ) → AllOk AreBounds (retry_bounds minimum maximum)
unfolding retry_bounds
retry_bounds-AreBounds (some minimum) (some maximum) =
    AllOk-if AreBounds (ltb maximum minimum) _ _ (λ e. tt) (λ e. ground (arith, e))
retry_bounds-AreBounds (some minimum) none = tt
retry_bounds-AreBounds none maximum = tt

abbrev StartsWithBounds : (ℕ × ℕ) × Option Text → Type 0
StartsWithBounds start = AreBounds start.0

module _ {E : Type 0} (options : Options E) where
  prepare-StartsWithBounds :
      (aborted_first : Bool) (loaded : Result (Option Text)) (aborted_loaded : Bool)
      → AllOk StartsWithBounds (prepare options aborted_first loaded aborted_loaded)
  unfolding prepare
  prepare-StartsWithBounds aborted_first loaded aborted_loaded =
      AllOk-bind StartsWithBounds
        (retry_bounds (is_safe_delay options.minimum_retry) (is_safe_delay options.maximum_retry)) _
        λ bounds a.
          AllOk-bind StartsWithBounds (validate_protocol_version options.protocol_version) _ λ _ _.
            AllOk-guard StartsWithBounds aborted_first aborted _ λ _.
              AllOk-bind StartsWithBounds (load_checkpoint options loaded) _ λ last_id _.
                AllOk-guard StartsWithBounds aborted_loaded aborted _ λ _.
                  AllOk-bind StartsWithBounds (validate_checkpoint last_id) _
                    λ _ _. AllOk-ok AreBounds _ (retry_bounds-AreBounds _ _) a

  -- In a subscription that starts, a wait that the server asked for lies within the configured bounds,
  -- is what it asked for where that lies within them, and is a bound otherwise.
  pub chosen_delay-bounds :
      (aborted_first : Bool) (loaded : Result (Option Text)) (aborted_loaded : Bool)
      (minimum maximum : ℕ) (last_id : Option Text) (asked policy_delay : ℕ)
      → prepare options aborted_first loaded aborted_loaded ≡ ok ((minimum, maximum), last_id)
      → (minimum ≤ chosen_delay options (minimum, maximum) (some asked) policy_delay)
        × (chosen_delay options (minimum, maximum) (some asked) policy_delay ≤ maximum)
        × (minimum ≤ asked
            → asked ≤ maximum
            → chosen_delay options (minimum, maximum) (some asked) policy_delay ≡ asked)
        × (asked ≤ minimum
            → chosen_delay options (minimum, maximum) (some asked) policy_delay ≡ minimum)
        × (maximum ≤ asked
            → chosen_delay options (minimum, maximum) (some asked) policy_delay ≡ maximum)
  unfolding chosen_delay clamp
  chosen_delay-bounds aborted_first loaded aborted_loaded minimum maximum last_id asked policy_delay
        h =
      let order : minimum ≤ maximum =
        AllOk-ok StartsWithBounds _ (prepare-StartsWithBounds aborted_first loaded aborted_loaded)
          h in
      (
        omega (arith, order),
        omega (arith, order),
        λ a b. omega (arith, a, b),
        λ a. omega (arith, a, order),
        λ a. omega (arith, a, order),
      )

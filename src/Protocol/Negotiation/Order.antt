-- ===== src/Protocol/Negotiation/Order.antt =====
-- The order of versions that src/protocol/negotiation.ts compares by.
use native.Mathlib.Omega.{compare-lt, compare-eq, compare-gt}
use Prim.Native.Nat.{compare, Ordering}
use teslatlas_sdk_typescript.Prelude.{ℕ, ◌≡◌, ◌<◌, ◌≤◌, refl, ◌⊎◌, inl, inr, true, false, arith}
use teslatlas_sdk_typescript.Core.Version.{ProtocolVersion}
use teslatlas_sdk_typescript.Protocol.Negotiation.{compare_versions, at_most}

-- By major, minor and patch: the first difference counts.
pub IsAtMost : ProtocolVersion → ProtocolVersion → Type 0
IsAtMost left right =
    (left.major < right.major)
    ⊎ ((left.major ≡ right.major)
        × ((left.minor < right.minor) ⊎ ((left.minor ≡ right.minor) × (left.patch ≤ right.patch))))

abbrev Compared : ℕ → ℕ → Type 0
Compared a b =
    ((compare a b ≡ Ordering.lt) × (a < b))
    ⊎ (((compare a b ≡ Ordering.eq) × (a ≡ b)) ⊎ ((compare a b ≡ Ordering.gt) × (b < a)))

compared : (a b : ℕ) → Compared a b
compared a b = by_answer (compare a b) refl
  where
    by_answer : (o : Ordering) → compare a b ≡ o → Compared a b
    by_answer Ordering.lt e = inl (e, compare-lt a b e)
    by_answer Ordering.eq e = inr (inl (e, compare-eq a b e))
    by_answer Ordering.gt e = inr (inr (e, compare-gt a b e))

-- The comparison decides the order.
pub at_most_cases :
    (left right : ProtocolVersion)
    → ((at_most left right ≡ true) × IsAtMost left right)
      ⊎ ((at_most left right ≡ false) × (IsAtMost left right → ⊥))
unfolding compare_versions IsAtMost
at_most_cases left right = elim (compared left.major right.major) [
  | inl (a, p) ↦ inl (rw (a, at_most, compare_versions) refl, inl p)
  | inr (inr (a, p)) ↦ inr (rw (a, at_most, compare_versions) refl, λ h. omega (arith, p, h))
  | inr (inl (a, p)) ↦ elim (compared left.minor right.minor) [
    | inl (b, q) ↦ inl (rw (a, b, at_most, compare_versions) refl, inr (p, inl q))
    | inr (inr (b, q)) ↦
        inr (rw (a, b, at_most, compare_versions) refl, λ h. omega (arith, p, q, h))
    | inr (inl (b, q)) ↦ elim (compared left.patch right.patch) [
      | inl (c, r) ↦
          inl (rw (a, b, c, at_most, compare_versions) refl, inr (p, inr (q, omega (arith, r))))
      | inr (inl (c, r)) ↦
          inl (rw (a, b, c, at_most, compare_versions) refl, inr (p, inr (q, omega (arith, r))))
      | inr (inr (c, r)) ↦
          inr (rw (a, b, c, at_most, compare_versions) refl, λ h. omega (arith, p, q, r, h))
    ]
  ]
]

pub at_most-IsAtMost :
    (left right : ProtocolVersion) → at_most left right ≡ true → IsAtMost left right
at_most-IsAtMost left right h = elim (at_most_cases left right) [ inl (a, p) ↦ p | inr (a, n) ↦ cc ]

pub IsAtMost-at_most :
    (left right : ProtocolVersion) → IsAtMost left right → at_most left right ≡ true
IsAtMost-at_most left right h = elim (at_most_cases left right) [
  | inl (a, p) ↦ a
  | inr (a, n) ↦ absurd (n h)
]

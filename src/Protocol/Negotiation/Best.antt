-- ===== src/Protocol/Negotiation/Best.antt =====
-- The negotiated version is the newest of the locked ones that may be used, and one is found when
-- there is one.
use teslatlas_sdk_typescript.Prelude.{
  ℕ, ◌≡◌, refl, sym, ◌∙◌, subst, ◌⊎◌, inl, inr, Bool, true, false, ◌&&◌, ◌||◌, not, none, List, [],
  ◌∷◌, ◌==◌, if◌then◌else◌, All, Bool-cases, arith,
}
use teslatlas_sdk_typescript.Js.Text.{
  Text, codes, includes, text_eq, text_eq_iff, is_digits, decimal_from, split,
}
use teslatlas_sdk_typescript.Core.Errors.{
  Result, Result-cases, ok, err, incompatible_protocol, >>=-eq-ok, throw_if-eq-ok, err≢ok,
}
use teslatlas_sdk_typescript.Core.Version.{ProtocolVersion, parse_protocol_version}
use teslatlas_sdk_typescript.Protocol.Models.{HubDescriptor}
use teslatlas_sdk_typescript.Protocol.Negotiation.Order.{
  IsAtMost, at_most-IsAtMost, IsAtMost-at_most,
}
use teslatlas_sdk_typescript.Protocol.Negotiation.{
  newest_first, compare_versions, at_most, first_usable, negotiate_protocol_version,
}

abbrev number : ℕ → ProtocolVersion
number minor = record { major = 1; minor = minor; patch = 0; prerelease = none; build = none }

parse_1_0 : parse_protocol_version (codes "1.0.0") ≡ ok (number 0)
unfolding parse_protocol_version is_digits decimal_from split
parse_1_0 = refl

parse_1_1 : parse_protocol_version (codes "1.1.0") ≡ ok (number 1)
unfolding parse_protocol_version is_digits decimal_from split
parse_1_1 = refl

parse_1_2 : parse_protocol_version (codes "1.2.0") ≡ ok (number 2)
unfolding parse_protocol_version is_digits decimal_from split
parse_1_2 = refl

-- Advertised, not above the requested version and not below the hub's minimum.
abbrev pub is_usable : HubDescriptor → ProtocolVersion → ProtocolVersion → Text → Bool
is_usable d requested minimum version = elim (parse_protocol_version version) [
  | err e ↦ false
  | ok candidate ↦
      includes d.supported_versions version
      && (at_most candidate requested && at_most minimum candidate)
]

abbrev pub is_not_above : Text → Text → Bool
is_not_above version chosen = elim (parse_protocol_version version) [
  | err e ↦ false
  | ok v ↦ elim (parse_protocol_version chosen) [ err e ↦ false | ok c ↦ at_most v c ]
]

-- The first of the locked versions that is usable, in the code's own terms.
record IsFirst (d : HubDescriptor) (requested minimum : ProtocolVersion) (v : Text) : Type 0 where
  pub is_locked : includes newest_first v ≡ true
  pub usable : is_usable d requested minimum v ≡ true
  pub newest :
      All (λ w. is_usable d requested minimum w ≡ true → is_not_above w v ≡ true) newest_first

first_usable-cons :
    (d : HubDescriptor) (requested minimum : ProtocolVersion) (w : Text) (ws : List Text)
    {c : ProtocolVersion}
    → parse_protocol_version w ≡ ok c
    → first_usable d requested minimum (w ∷ ws)
      ≡ (if is_usable d requested minimum w then ok w else first_usable d requested minimum ws)
unfolding first_usable
first_usable-cons d requested minimum w ws e = rw (e, is_usable) refl

is_not_above_of :
    (v w : Text) {a b : ProtocolVersion}
    → parse_protocol_version v ≡ ok a
    → parse_protocol_version w ≡ ok b
    → at_most a b ≡ true
    → is_not_above v w ≡ true
is_not_above_of v w p q h = rw (p, q, is_not_above) h

-- What cannot be used is not newer in vain.
chosen :
    (d : HubDescriptor) (requested minimum : ProtocolVersion) (w v : Text)
    → IsFirst d requested minimum w
    → w ≡ v
    → IsFirst d requested minimum v
chosen d requested minimum w v c e = subst (IsFirst d requested minimum) e c

never :
    (d : HubDescriptor) (requested minimum : ProtocolVersion) (v w : Text)
    → is_usable d requested minimum w ≡ false
    → is_usable d requested minimum w ≡ true
    → is_not_above w v ≡ true
never d requested minimum v w no_use use_it = cc

module _ (d : HubDescriptor) (requested minimum : ProtocolVersion) where
  abbrev usable : Text → Bool
  usable = is_usable d requested minimum

  IsFirst-1_2 : usable (codes "1.2.0") ≡ true → IsFirst d requested minimum (codes "1.2.0")
  unfolding compare_versions
  IsFirst-1_2 h = record {
    is_locked = unfold includes text_eq in refl;
    usable = h;
    newest = (
      λ _. is_not_above_of (codes "1.2.0") (codes "1.2.0") parse_1_2 parse_1_2 refl,
      (
        λ _. is_not_above_of (codes "1.1.0") (codes "1.2.0") parse_1_1 parse_1_2 refl,
        (λ _. is_not_above_of (codes "1.0.0") (codes "1.2.0") parse_1_0 parse_1_2 refl, tt),
      ),
    );
  }

  IsFirst-1_1 :
      usable (codes "1.2.0") ≡ false
      → usable (codes "1.1.0") ≡ true
      → IsFirst d requested minimum (codes "1.1.0")
  unfolding compare_versions
  IsFirst-1_1 n h = record {
    is_locked = unfold includes text_eq in refl;
    usable = h;
    newest = (
      never d requested minimum (codes "1.1.0") (codes "1.2.0") n,
      (
        λ _. is_not_above_of (codes "1.1.0") (codes "1.1.0") parse_1_1 parse_1_1 refl,
        (λ _. is_not_above_of (codes "1.0.0") (codes "1.1.0") parse_1_0 parse_1_1 refl, tt),
      ),
    );
  }

  IsFirst-1_0 :
      usable (codes "1.2.0") ≡ false
      → usable (codes "1.1.0") ≡ false
      → usable (codes "1.0.0") ≡ true
      → IsFirst d requested minimum (codes "1.0.0")
  unfolding compare_versions
  IsFirst-1_0 n k h = record {
    is_locked = unfold includes text_eq in refl;
    usable = h;
    newest = (
      never d requested minimum (codes "1.0.0") (codes "1.2.0") n,
      (
        never d requested minimum (codes "1.0.0") (codes "1.1.0") k,
        (λ _. is_not_above_of (codes "1.0.0") (codes "1.0.0") parse_1_0 parse_1_0 refl, tt),
      ),
    );
  }

  -- A version is chosen, or none of the locked ones is usable.
  abbrev Outcome : Result Text → Type 0
  Outcome r =
      ((v : Text) × (r ≡ ok v) × IsFirst d requested minimum v)
      ⊎ ((r ≡ err incompatible_protocol) × All (λ w. usable w ≡ false) newest_first)

  first_usable-cases : Outcome (first_usable d requested minimum newest_first)
  first_usable-cases =
      rw
        (first_usable-cons d requested minimum (codes "1.2.0") (codes "1.1.0" ∷ codes "1.0.0" ∷ [])
          parse_1_2)
        (elim (Bool-cases (usable (codes "1.2.0"))) [
          | inl a ↦ rw a (inl (codes "1.2.0", refl, IsFirst-1_2 a))
          | inr a ↦
              rw
                (
                  a,
                  first_usable-cons d requested minimum (codes "1.1.0") (codes "1.0.0" ∷ [])
                      parse_1_1,
                )
                (elim (Bool-cases (usable (codes "1.1.0"))) [
                  | inl b ↦ rw b (inl (codes "1.1.0", refl, IsFirst-1_1 a b))
                  | inr b ↦
                      rw (b, first_usable-cons d requested minimum (codes "1.0.0") [] parse_1_0)
                        (elim (Bool-cases (usable (codes "1.0.0"))) [
                          | inl c ↦ rw c (inl (codes "1.0.0", refl, IsFirst-1_0 a b c))
                          | inr c ↦
                              rw c (inr (unfold first_usable in refl, (refl, (refl, (refl, tt)))))
                        ])
                ])
        ])

-- The choice of a version for a hub and a request: a locked one that the hub advertises, in the
-- bounds, and no other such version is newer.
pub record IsChoice (d : HubDescriptor) (requested minimum : ProtocolVersion) (v : Text)
    : Type 0 where
  pub version : ProtocolVersion
  pub is_parsed : parse_protocol_version v ≡ ok version
  pub is_locked : includes newest_first v ≡ true
  pub is_advertised : includes d.supported_versions v ≡ true
  pub not_above : IsAtMost version requested
  pub not_below : IsAtMost minimum version
  pub newest :
      (w : Text) (other : ProtocolVersion)
      → includes newest_first w ≡ true
      → parse_protocol_version w ≡ ok other
      → includes d.supported_versions w ≡ true
      → IsAtMost other requested
      → IsAtMost minimum other
      → IsAtMost other version

All-includes :
    (P : Text → Type 0) (xs : List Text) (w : Text) → All P xs → includes xs w ≡ true → P w
unfolding includes
All-includes P [] w h k = cc
All-includes P (x ∷ xs) w (p, h) k = elim (Bool-cases (text_eq x w)) [
  | inl e ↦ subst P ((text_eq_iff x w).0 e) p
  | inr e ↦ All-includes P xs w h (ground (arith, e, k))
]

is_usable-parsed :
    (d : HubDescriptor) (requested minimum : ProtocolVersion) (v : Text) (version : ProtocolVersion)
    → parse_protocol_version v ≡ ok version
    → is_usable d requested minimum v
      ≡ (includes d.supported_versions v && (at_most version requested && at_most minimum version))
is_usable-parsed d requested minimum v version e = rw (e, is_usable) refl

is_not_above-parsed :
    (v w : Text) (a b : ProtocolVersion)
    → parse_protocol_version v ≡ ok a
    → parse_protocol_version w ≡ ok b
    → is_not_above v w ≡ at_most a b
is_not_above-parsed v w a b p q = rw (p, q, is_not_above) refl

IsFirst-IsChoice :
    (d : HubDescriptor) (requested minimum : ProtocolVersion) (v : Text)
    → IsFirst d requested minimum v
    → IsChoice d requested minimum v
IsFirst-IsChoice d requested minimum v first = elim (Result-cases (parse_protocol_version v)) [
  | inr (e, failed) ↦ (let bad = rw (failed, is_usable) at first.usable in cc)
  | inl (version, parsed) ↦
      let used = sym (is_usable-parsed d requested minimum v version parsed) ∙ first.usable in
      record {
        version = version;
        is_parsed = parsed;
        is_locked = first.is_locked;
        is_advertised = ground (arith, used);
        not_above = at_most-IsAtMost version requested (ground (arith, used));
        not_below = at_most-IsAtMost minimum version (ground (arith, used));
        newest = λ w other locked parse_w offered above below. at_most-IsAtMost other version (
            sym (is_not_above-parsed w v other version parse_w parsed)
            ∙ All-includes (λ u. is_usable d requested minimum u ≡ true → is_not_above u v ≡ true)
                newest_first w first.newest locked
                (is_usable-parsed d requested minimum w other parse_w
                  ∙ both offered (IsAtMost-at_most other requested above)
                      (IsAtMost-at_most minimum other below)));
      }
]
  where
    both : {a b c : Bool} → a ≡ true → b ≡ true → c ≡ true → (a && (b && c)) ≡ true
    both p q r = ground (arith, p, q, r)

-- A negotiation that succeeds gives a locked version that the hub advertises, neither above the
-- requested version nor below the hub's minimum, and no such version is newer.
pub negotiate_sound :
    (d : HubDescriptor) (r v : Text)
    → negotiate_protocol_version d r ≡ ok v
    → (requested : ProtocolVersion) × (minimum : ProtocolVersion) × (parse_protocol_version r
        ≡ ok requested)
      × (parse_protocol_version d.minimum_client_version ≡ ok minimum)
      × IsChoice d requested minimum v
unfolding negotiate_protocol_version
negotiate_sound d r v h =
    let (requested, er, hr) = >>=-eq-ok (parse_protocol_version r) _ h in
    let (current, ec, hc) = >>=-eq-ok (parse_protocol_version d.current_version) _ hr in
    let (minimum, em, hm) = >>=-eq-ok (parse_protocol_version d.minimum_client_version) _ hc in
    let (locked, el, hl) = >>=-eq-ok (parse_protocol_version (codes "1.0.0")) _ hm in
    let (_, hu) =
      throw_if-eq-ok
        (not (requested.major == locked.major)
          || (not (current.major == locked.major) || not (at_most minimum requested)))
        incompatible_protocol (first_usable d requested minimum newest_first) hl in
    elim (first_usable-cases d requested minimum) [
      | inl (w, e, c) ↦ (
        requested,
        minimum,
        er,
        em,
        IsFirst-IsChoice d requested minimum v (chosen d requested minimum w v c (cc (sym e, hu))),
      )
      | inr (e, _) ↦ absurd (err≢ok incompatible_protocol v (sym e ∙ hu))
    ]

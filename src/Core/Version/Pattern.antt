-- ===== src/Core/Version/Pattern.antt =====
-- The match of a semantic version loses nothing: its captures and the pattern's literals make up the
-- text, and the captures of a well-formed text are found again.
use teslatlas_sdk_typescript.Prelude.{
  ℕ, ◌≡◌, refl, ap, Bool, true, false, inl, inr, Option, none, some, [], ◌∷◌, ◌++◌, arith, all,
  Bool-cases,
}
use teslatlas_sdk_typescript.Js.Text.{Text, is_digit}
use teslatlas_sdk_typescript.Core.Version.{
  Captures, is_tag_unit, span, is_numeral, is_tag, expect, match_build, match_tags, match_numeral,
  match_version, ◌>>=?◌,
}

tag_text : ℕ → Option Text → Text
tag_text c none = []
tag_text c (some t) = c ∷ t

-- The text with the given captures.
unfoldable pub version_text : Captures → Text
unfolding tag_text
version_text c =
    c.major
    ++ (b'.'
        ∷ (c.minor ++ (b'.' ∷ (c.patch ++ (tag_text b'-' c.prerelease ++ tag_text b'+' c.build)))))

>>=?-eq-some {ℓ κ} :
    {A : Type ℓ} {B : Type κ} (m : Option A) (f : A → Option B) {b : B}
    → (m >>=? f) ≡ some b
    → (a : A) × (m ≡ some a) × (f a ≡ some b)
>>=?-eq-some none f h = cc
>>=?-eq-some (some a) f h = (a, refl, h)

pub span-text : (test : ℕ → Bool) (s : Text) → (span test s).0 ++ (span test s).1 ≡ s
unfolding span
span-text test [] = refl
span-text test (c ∷ s) = elim (Bool-cases (test c)) [
  | inl e ↦ rw e (ap (λ (t : Text). c ∷ t) (span-text test s))
  | inr e ↦ rw e refl
]

match_numeral_sound : (s run rest : Text) → match_numeral s ≡ some (run, rest) → run ++ rest ≡ s
unfolding match_numeral
match_numeral_sound s run rest h = ground (arith, span-text is_digit s)

expect_sound : (c : ℕ) (s rest : Text) → expect c s ≡ some rest → c ∷ rest ≡ s
unfolding expect
expect_sound c [] rest h = cc
expect_sound c (d ∷ s) rest h = ground arith

match_build_sound :
    (s : Text) (build : Option Text) → match_build s ≡ some build → tag_text b'+' build ≡ s
unfolding match_build tag_text
match_build_sound [] build h = ground arith
match_build_sound (c ∷ s) build h = ground arith

match_tags_sound :
    (s : Text) (prerelease build : Option Text)
    → match_tags s ≡ some (prerelease, build)
    → tag_text b'-' prerelease ++ tag_text b'+' build ≡ s
unfolding match_tags tag_text
match_tags_sound [] prerelease build h = ground arith
match_tags_sound (c ∷ s) prerelease build h = ground (
  arith,
  span-text is_tag_unit s,
  match_build_sound (span is_tag_unit s).1 build,
  match_build_sound (c ∷ s) build,
)

-- The captures and the literals of the pattern make up the text that was matched.
pub version_text-match_version :
    (value : Text) (c : Captures) → match_version value ≡ some c → version_text c ≡ value
unfolding match_version version_text
version_text-match_version value c h =
    let ((major, a), ea, ha) = >>=?-eq-some (match_numeral value) _ h in
    let (b, eb, hb) = >>=?-eq-some (expect b'.' a) _ ha in
    let ((minor, d), ed, hd) = >>=?-eq-some (match_numeral b) _ hb in
    let (e, ee, he) = >>=?-eq-some (expect b'.' d) _ hd in
    let ((patch, f), ef, hf) = >>=?-eq-some (match_numeral e) _ he in
    let ((prerelease, build), et, ht) = >>=?-eq-some (match_tags f) _ hf in
    ground (
      arith,
      match_numeral_sound value major a ea,
      expect_sound b'.' a b eb,
      match_numeral_sound b minor d ed,
      expect_sound b'.' d e ee,
      match_numeral_sound e patch f ef,
      match_tags_sound f prerelease build et,
    )

abbrev Stops : (ℕ → Bool) → Text → Type 0
Stops test [] = Unit
Stops test (c ∷ s) = test c ≡ false

span-append :
    (test : ℕ → Bool) (s t : Text) → all test s ≡ true → Stops test t → span test (s ++ t) ≡ (s, t)
unfolding span
span-append test [] [] h stop = refl
span-append test [] (c ∷ t) h stop = rw stop refl
span-append test (c ∷ s) t h stop = ground (arith, span-append test s t)

all-numeral : (s : Text) → is_numeral s ≡ true → all is_digit s ≡ true
unfolding is_numeral
all-numeral [] h = refl
all-numeral (c ∷ []) h = ground arith
all-numeral (c ∷ d ∷ s) h = ground arith

match_numeral-append :
    (s t : Text) → is_numeral s ≡ true → Stops is_digit t → match_numeral (s ++ t) ≡ some (s, t)
unfolding match_numeral
match_numeral-append s t h stop = rw (span-append is_digit s t (all-numeral s h) stop) (rw h refl)

-- The build tag, if any, is one that the pattern takes.
abbrev pub IsTagged : Option Text → Type 0
IsTagged none = Unit
IsTagged (some t) = is_tag t ≡ true

match_build-text :
    (build : Option Text) → IsTagged build → match_build (tag_text b'+' build) ≡ some build
unfolding match_build tag_text
match_build-text none h = refl
match_build-text (some t) h = rw h refl

tag_text-Stops : (build : Option Text) → Stops is_tag_unit (tag_text b'+' build)
unfolding tag_text
tag_text-Stops none = tt
tag_text-Stops (some t) = refl

all-tag : (s : Text) → is_tag s ≡ true → all is_tag_unit s ≡ true
unfolding is_tag
all-tag s h = ground arith

match_tags-text :
    (prerelease build : Option Text)
    → IsTagged prerelease
    → IsTagged build
    → match_tags (tag_text b'-' prerelease ++ tag_text b'+' build) ≡ some (prerelease, build)
unfolding match_tags tag_text
match_tags-text none none h k = refl
match_tags-text none (some t) h k = unfold match_build in rw k refl
match_tags-text (some p) build h k = ground (
  arith,
  span-append is_tag_unit p (tag_text b'+' build) (all-tag p h) (tag_text-Stops build),
  match_build-text build k,
)

-- Captures that the pattern takes.
pub record IsCaptures (c : Captures) : Type 0 where
  pub major : is_numeral c.major ≡ true
  pub minor : is_numeral c.minor ≡ true
  pub patch : is_numeral c.patch ≡ true
  pub prerelease : IsTagged c.prerelease
  pub build : IsTagged c.build

tags-stop :
    (prerelease build : Option Text)
    → Stops is_digit (tag_text b'-' prerelease ++ tag_text b'+' build)
unfolding tag_text
tags-stop none none = tt
tags-stop none (some t) = refl
tags-stop (some p) build = refl

-- The text of well-formed captures is matched, with those captures.
pub match_version-version_text :
    (c : Captures) → IsCaptures c → match_version (version_text c) ≡ some c
unfolding match_version version_text
match_version-version_text c h =
    let tags = tag_text b'-' c.prerelease ++ tag_text b'+' c.build in
    let third = c.patch ++ tags in
    let second = c.minor ++ (b'.' ∷ third) in
    simp (
      match_numeral-append c.major (b'.' ∷ second) h.major refl,
      match_numeral-append c.minor (b'.' ∷ third) h.minor refl,
      match_numeral-append c.patch tags h.patch (tags-stop c.prerelease c.build),
      match_tags-text c.prerelease c.build h.prerelease h.build,
    )

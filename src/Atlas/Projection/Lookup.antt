-- ===== src/Atlas/Projection/Lookup.antt =====
-- What the facts of a node say of one locale: what the resolver answers for it.
use taha_mohammadi_platform.Prelude.{
  ℕ, String, Option, none, some, List, [], ◌∷◌, Bool, true, false, ◌&&◌, ◌||◌, ◌==◌, ◌≡◌, refl, ◌∙◌,
  inl, inr, arith, if◌then◌else◌, Result, ok, err, Bool-cases, eq_iff,
}
use taha_mohammadi_platform.Prelude.Lists.{contains, text_eq}
use taha_mohammadi_platform.Atlas.Canonical.{
  CanonicalRow, CanonicalResolution, CanonicalError, unlisted, ambiguous, canonical_sources,
  public_rows, sole, resolve_canonical,
}
use taha_mohammadi_platform.Atlas.Projection.{resolved_at, note, resolve_each}

-- An ambiguity is reported for the locale that was asked for.
sole-locale :
    (source : String) (key : ℕ) (locale : String) (rows : List CanonicalRow) (s l : String)
    (k c : ℕ)
    → sole source key locale rows ≡ err (ambiguous s k l c)
    → l ≡ locale
sole-locale source key locale [] s l k c h = cc h
sole-locale source key locale (row ∷ []) s l k c h = cc h
sole-locale source key locale (row ∷ another ∷ rows) s l k c h = cc h

resolve_canonical-locale :
    (rows : List CanonicalRow) (source : String) (key : ℕ) (locale s l : String) (k c : ℕ)
    → resolve_canonical rows source (some key) locale ≡ err (ambiguous s k l c)
    → l ≡ locale
unfolding resolve_canonical
resolve_canonical-locale rows source key locale s l k c h =
    elim (Bool-cases (contains canonical_sources source)) [
      | inr not_listed ↦ cc (rw not_listed at h)
      | inl listed ↦
          sole-locale source key locale (public_rows rows source key locale) s l k c
            (rw listed at h)
    ]

abbrev pub answer : Result CanonicalError (Option CanonicalResolution) → Option CanonicalResolution
answer (ok r) = r
answer (err _) = none

abbrev pub is_ambiguous : Result CanonicalError (Option CanonicalResolution) → Bool
is_ambiguous (err (ambiguous _ _ _ _)) = true
is_ambiguous _ = false

either_none : (b : Bool) → if◌then◌else◌ {A = Option CanonicalResolution} b none none ≡ none
either_none true = refl
either_none false = refl

or_and : (a b : Bool) → (a || (b && a)) ≡ a
or_and true b = refl
or_and false b = ground arith

abbrev is_ok : Result CanonicalError (Option CanonicalResolution) → Bool
is_ok (ok _) = true
is_ok (err _) = false

resolved_at-note :
    (locale l : String) (m : Result CanonicalError (Option CanonicalResolution))
    (acc : List (String × Option CanonicalResolution) × List String)
    → resolved_at (note locale m acc).0 l
      ≡ (if l == locale && is_ok m then answer m else resolved_at (acc.0) l)
unfolding resolved_at
resolved_at-note locale l (ok r) acc = ground (arith, eq_iff l locale, eq_iff locale l)
resolved_at-note locale l (err (unlisted s)) acc = ground arith
resolved_at-note locale l (err (ambiguous s k l' c)) acc = ground arith

contains-note :
    (locale l : String) (m : Result CanonicalError (Option CanonicalResolution))
    (acc : List (String × Option CanonicalResolution) × List String)
    → ((s l' : String) (k c : ℕ) → m ≡ err (ambiguous s k l' c) → l' ≡ locale)
    → contains (note locale m acc).1 l ≡ (l == locale && is_ambiguous m || contains (acc.1) l)
unfolding contains
contains-note locale l (ok r) acc h = ground arith
contains-note locale l (err (unlisted s)) acc h = ground arith
contains-note locale l (err (ambiguous s k l' c)) acc h = rw (h s l' k c refl) (ground arith)

failed-none :
    (m : Result CanonicalError (Option CanonicalResolution)) → is_ok m ≡ false → answer m ≡ none
failed-none (ok r) h = cc h
failed-none (err e) h = refl

module _ (rows : List CanonicalRow) (source : String) (key : ℕ) where
  pub resolved_at-resolve_each :
      (locales : List String) (l : String)
      → resolved_at (resolve_each rows source key locales).0 l
        ≡ (if contains locales l then answer (resolve_canonical rows source (some key) l) else none)
  unfolding resolve_each resolved_at contains
  resolved_at-resolve_each [] l = refl
  resolved_at-resolve_each (locale ∷ locales) l =
      let rest = resolved_at-resolve_each locales l in
      let m = resolve_canonical rows source (some key) locale in
      let step = resolved_at-note locale l m (resolve_each rows source key locales) in
      elim (Bool-cases (l == locale)) [
        | inr other ↦ step ∙ rw other rest
        | inl same ↦
            let e = (eq_iff l locale).0 same in
            elim (Bool-cases (is_ok m)) [
              | inl good ↦ step ∙ rw (same, good, e) refl
              | inr bad ↦
                  let nothing : answer (resolve_canonical rows source (some key) l) ≡ none =
                    rw e (failed-none m bad) in
                  step ∙ rw (same, bad, rest, nothing) (either_none (contains locales l))
            ]
      ]

  pub contains-resolve_each :
      (locales : List String) (l : String)
      → contains (resolve_each rows source key locales).1 l
        ≡ (contains locales l && is_ambiguous (resolve_canonical rows source (some key) l))
  unfolding resolve_each contains
  contains-resolve_each [] l = refl
  contains-resolve_each (locale ∷ locales) l =
      let rest = contains-resolve_each locales l in
      let m = resolve_canonical rows source (some key) locale in
      let step =
        contains-note locale l m (resolve_each rows source key locales)
          (λ s l' k c h. resolve_canonical-locale rows source key locale s l' k c h) in
      elim (Bool-cases (l == locale)) [
        | inr other ↦ step ∙ rw other rest
        | inl same ↦
            let e = (eq_iff l locale).0 same in
            step ∙ rw (same, rest, e) (or_and (is_ambiguous m) (contains locales locale))
      ]

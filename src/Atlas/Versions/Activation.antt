-- ===== src/Atlas/Versions/Activation.antt =====
-- What an activation asks for, and what it leaves of the table.
use taha_mohammadi_platform.Prelude.{
  ℕ, String, Option, some, List, [], ◌∷◌, true, false, ◌==◌, ◌≡◌, refl, sym, ap, ◌∙◌, inl, inr,
  arith, eqb, if◌then◌else◌, Bool-cases, Option-cases, ok,
}
use taha_mohammadi_platform.Prelude.Lists.{Distinct, nat_eq}
use taha_mohammadi_platform.Atlas.Issues.{Issue}
use taha_mohammadi_platform.Atlas.Versions.{
  VersionStatus, draft, active, archived, Version, is_active, is_draft, no_issues, version_revision,
  find_version, locked_rows, put_version, other_active, save_version, archive_active, activated_row,
  activate_version,
}
use taha_mohammadi_platform.Atlas.Versions.Archiving.{
  version_pks, find-put, find-pk, retired, retired-other, retired-pk, archive_active-retired,
  find-locked_rows,
}

draft-of : (s : VersionStatus) → is_draft s ≡ true → s ≡ draft
draft-of draft h = refl
draft-of active h = cc
draft-of archived h = cc

empty-of : (l : List Issue) → no_issues l ≡ true → l ≡ []
empty-of [] h = refl
empty-of (x ∷ l) h = cc

module _ {L : Type 0} where
  module _ (isoformat : ℕ → String) (blocking : Version L → List Issue) (now i : ℕ)
      (expected : String) (rows : List (Version L)) where
    activate-ok :
        (t : Version L) (others : List (Version L))
        → find_version i rows ≡ some t
        → t.status ≡ draft
        → (expected == version_revision isoformat t) ≡ true
        → blocking t ≡ []
        → archive_active now i (locked_rows i rows) rows ≡ ok others
        → other_active i others ≡ false
        → activate_version isoformat blocking now i expected rows
          ≡ ok (activated_row now t, put_version (activated_row now t) others)
    unfolding activate_version save_version
    activate-ok t others here is revision clean ran alone =
        let own = find-pk rows i t here in
        let waits : is_active t.status ≡ false = rw is refl in
        let drafted : is_draft t.status ≡ true = rw is refl in
        rw (find-locked_rows i rows, here, waits, drafted, revision, clean, ran, own.0, alone) refl

    draft-retired :
        (t : Version L) (j : ℕ)
        → find_version i rows ≡ some t
        → t.status ≡ draft
        → j ≡ i
        → retired now i (find_version j rows) ≡ some t
    draft-retired t j here is at =
        let waits : is_active t.status ≡ false = rw is refl in
        let stays : retired now i (some t) ≡ some t = ground arith in
        ap (λ k. retired now i (find_version k rows)) at ∙ ap (retired now i) here ∙ stays

    -- Every version of the table after an activation, by its key.
    abbrev pub after_activation : Version L → ℕ → Option (Version L)
    after_activation t j =
        if eqb i j then some (activated_row now t) else retired now i (find_version j rows)

    -- A draft whose revision is the one the caller expects and whose report has no blocking issue is
    -- activated: the call never violates the constraint that one version is active. Afterwards the
    -- draft is active and published now, every other version that was active is archived, and every
    -- remaining version is as it was. Primary keys are distinct.
    pub activate_version_publishes :
        (t : Version L)
        → Distinct (version_pks rows)
        → find_version i rows ≡ some t
        → t.status ≡ draft
        → (expected == version_revision isoformat t) ≡ true
        → blocking t ≡ []
        → (after : List (Version L)) × (activate_version isoformat blocking now i expected rows
            ≡ ok (activated_row now t, after))
          × ((j : ℕ) → find_version j after ≡ after_activation t j)
    activate_version_publishes t d here is revision clean =
        let (others, ran, alone, found) = archive_active-retired now i rows d in
        let own = find-pk rows i t here in
        (
          put_version (activated_row now t) others,
          activate-ok t others here is revision clean ran alone,
          λ j.
              find-put (activated_row now t) others j
              ∙ rw (found j) (elim (Bool-cases (eqb i j)) [
                | inr other ↦
                    let missed : eqb t.pk j ≡ false = ground (arith, own) in rw (missed, other) refl
                | inl same ↦
                    let kept = draft-retired t j here is (ground arith) in
                    let hit : eqb t.pk j ≡ true = ground (arith, own) in rw (hit, kept, same) refl
              ]),
        )

    -- What a successful activation has checked.
    abbrev Checked : Version L → Type 0
    Checked t =
        (find_version i rows ≡ some t)
        × (t.status ≡ draft)
        × ((expected == version_revision isoformat t) ≡ true)
        × (blocking t ≡ [])

    activate-Checked :
        (v : Version L) (after : List (Version L))
        → activate_version isoformat blocking now i expected rows ≡ ok (v, after)
        → (t : Version L) × Checked t
    unfolding activate_version
    activate-Checked v after h = elim (Option-cases (find_version i rows)) [
      | inl missing ↦ cc (rw (find-locked_rows i rows, missing) at h)
      | inr (t, here) ↦
          let h₁ = rw (find-locked_rows i rows, here) at h in
          elim (Bool-cases (is_active t.status)) [
            | inl on ↦ cc (rw on at h₁)
            | inr off ↦ elim (Bool-cases (is_draft t.status)) [
              | inr old ↦ cc (rw (off, old) at h₁)
              | inl is ↦ elim (Bool-cases (expected == version_revision isoformat t)) [
                | inr stale ↦ cc (rw (off, is, stale) at h₁)
                | inl revision ↦ elim (Bool-cases (no_issues (blocking t))) [
                  | inr blocked ↦ cc (rw (off, is, revision, blocked) at h₁)
                  | inl clean ↦
                      (t, (here, draft-of t.status is, revision, empty-of (blocking t) clean))
                ]
              ]
            ]
          ]
    ]

    after-only :
        (t : Version L) (j : ℕ) (u : Version L)
        → after_activation t j ≡ some u
        → u.status ≡ active
        → j ≡ i
    after-only t j u h on = elim (Bool-cases (eqb i j)) [
      | inl same ↦ ground arith
      | inr other ↦
          let g = rw other at h in
          let out = retired-other now i j (find_version j rows) u g in
          let pk = retired-pk now i j rows u g in ground (arith, out, pk)
    ]

    -- An activation that succeeds was asked of a draft at the expected revision whose report has no
    -- blocking issue, and returns that draft as the active version. It leaves the table of
    -- `after_activation`, in which no other version is active. Primary keys are distinct.
    pub activate_version_only :
        (v : Version L) (after : List (Version L))
        → Distinct (version_pks rows)
        → activate_version isoformat blocking now i expected rows ≡ ok (v, after)
        → (t : Version L) × (find_version i rows ≡ some t)
          × (t.status ≡ draft)
          × ((expected == version_revision isoformat t) ≡ true)
          × (blocking t ≡ [])
          × (v ≡ activated_row now t)
          × ((j : ℕ) → find_version j after ≡ after_activation t j)
          × ((j : ℕ) (u : Version L) → find_version j after ≡ some u → u.status ≡ active → j ≡ i)
    activate_version_only v after d h =
        let (t, (here, is, revision, clean)) = activate-Checked v after h in
        let (table, runs, rows_after) = activate_version_publishes t d here is revision clean in
        let result : activated_row now t ≡ v = cc (h, runs) in
        let same : table ≡ after = cc (h, runs) in
        let finds : (j : ℕ) → find_version j after ≡ after_activation t j =
          λ j. ap (find_version j) (sym same) ∙ rows_after j in
        (
          t,
          here,
          is,
          revision,
          clean,
          sym result,
          finds,
          λ j u found on. after-only t j u (sym (finds j) ∙ found) on,
        )

-- ===== src/Atlas/Versions/Archiving.antt =====
-- The loop of `activate_version` over the locked rows.
use taha_mohammadi_platform.Prelude.{
  ℕ, Option, none, some, List, [], ◌∷◌, true, false, not, ◌&&◌, ◌||◌, ◌≡◌, refl, sym, subst, ◌∙◌,
  inl, inr, arith, eqb, eqb_iff, eqb_refl, if◌then◌else◌, Bool-cases, Option-cases, ok, map,
}
use taha_mohammadi_platform.Prelude.Lists.{All, contains, Distinct, nat_eq}
use taha_mohammadi_platform.Atlas.Versions.{
  Version, is_active, find_version, locked_rows, put_version, other_active, save_version,
  archived_row, archive_active,
}

module _ {L : Type 0} where
  abbrev pub version_pks : List (Version L) → List ℕ
  version_pks rows = map (λ (v : Version L). v.pk) rows

  pub find-put :
      (new : Version L) (rows : List (Version L)) (j : ℕ)
      → find_version j (put_version new rows) ≡ (
          if eqb new.pk j
          then elim (find_version j rows) [ none ↦ none | some _ ↦ some new ]
          else find_version j rows)
  unfolding find_version put_version
  find-put new [] j = ground arith
  find-put new (v ∷ rows) j = ground (arith, find-put new rows j)

  pks-put :
      (new : Version L) (rows : List (Version L))
      → version_pks (put_version new rows) ≡ version_pks rows
  unfolding put_version
  pks-put new [] = refl
  pks-put new (v ∷ rows) = elim (Bool-cases (eqb v.pk new.pk)) [
    | inl same ↦ rw same (cc ((eqb_iff v.pk new.pk).0 same))
    | inr other ↦ rw other (cc (pks-put new rows))
  ]

  pub find-pk :
      (rows : List (Version L)) (j : ℕ) (v : Version L)
      → find_version j rows ≡ some v
      → (v.pk ≡ j) × (contains (version_pks rows) j ≡ true)
  unfolding find_version contains
  find-pk [] j v h = cc
  find-pk (r ∷ rows) j v h = ground (arith, find-pk rows j v)

  -- Every row of the table but `i`, when it is active, is archived.
  abbrev pub row_after : ℕ → ℕ → List ℕ → Option (Version L) → Option (Version L)
  row_after now i locked none = none
  row_after now i locked (some v) =
      if contains locked v.pk && (not (eqb v.pk i) && is_active v.status)
      then some (archived_row now v)
      else some v

  stored_put :
      (rows locked : List (Version L)) (new : Version L)
      → contains (version_pks locked) new.pk ≡ false
      → All (λ v. find_version v.pk rows ≡ some v) locked
      → All (λ v. find_version v.pk (put_version new rows) ≡ some v) locked
  unfolding contains
  stored_put rows [] new out h = tt
  stored_put rows (v ∷ locked) new out h = (
    ground (arith, find-put new rows v.pk, h.0, eqb_iff new.pk v.pk, eqb_iff v.pk new.pk),
    stored_put rows locked new (ground arith) h.1,
  )

  step-archived :
      (now i : ℕ) (v : Version L) (locked rows : List (Version L)) (j : ℕ)
      → find_version v.pk rows ≡ some v
      → contains (version_pks locked) v.pk ≡ false
      → (not (eqb v.pk i) && is_active v.status) ≡ true
      → row_after now i
          (version_pks locked)
          (find_version j (put_version (archived_row now v) rows))
        ≡ row_after now i (version_pks (v ∷ locked)) (find_version j rows)
  unfolding contains
  step-archived now i v locked rows j here out yes' = elim (Option-cases (find_version j rows)) [
    | inl missing ↦ rw (find-put (archived_row now v) rows j) (ground (arith, missing))
    | inr (w, found) ↦
        let pk = find-pk rows j w found in
        elim (Bool-cases (eqb v.pk j)) [
          | inl same ↦
              let at : j ≡ v.pk = ground arith in
              let alike : w ≡ v = cc (found, here, at) in
              rw (find-put (archived_row now v) rows j, found, same, alike) (ground arith)
          | inr other ↦ rw (find-put (archived_row now v) rows j, found, other) (ground (arith, pk))
        ]
  ]

  step-kept :
      (now i : ℕ) (v : Version L) (locked rows : List (Version L)) (j : ℕ)
      → find_version v.pk rows ≡ some v
      → contains (version_pks locked) v.pk ≡ false
      → (not (eqb v.pk i) && is_active v.status) ≡ false
      → row_after now i (version_pks locked) (find_version j rows)
        ≡ row_after now i (version_pks (v ∷ locked)) (find_version j rows)
  unfolding contains
  step-kept now i v locked rows j here out no' = elim (Option-cases (find_version j rows)) [
    | inl missing ↦ rw missing refl
    | inr (w, found) ↦
        let pk = find-pk rows j w found in
        elim (Bool-cases (eqb v.pk j)) [
          | inl same ↦
              let at : j ≡ v.pk = ground arith in
              let alike : w ≡ v = cc (found, here, at) in rw (found, alike) (ground arith)
          | inr other ↦ rw found (ground (arith, pk))
        ]
  ]

  archive_active-rows :
      (now i : ℕ) (locked rows : List (Version L))
      → Distinct (version_pks locked)
      → All (λ v. find_version v.pk rows ≡ some v) locked
      → (after : List (Version L)) × (archive_active now i locked rows ≡ ok after)
        × (version_pks after ≡ version_pks rows)
        × ((j : ℕ)
            → find_version j after ≡ row_after now i (version_pks locked) (find_version j rows))
  unfolding archive_active save_version contains
  archive_active-rows now i [] rows distinct stored = (rows, refl, refl, λ j. ground arith)
  archive_active-rows now i (v ∷ locked) rows distinct stored =
      elim (Bool-cases (not (eqb v.pk i) && is_active v.status)) [
        | inl yes' ↦
            let (after, ran, pks, finds) =
              archive_active-rows now i locked (put_version (archived_row now v) rows) distinct.1
                (stored_put rows locked (archived_row now v) distinct.0 stored.1) in
            (
              after,
              rw yes' ran,
              pks ∙ pks-put (archived_row now v) rows,
              λ j. finds j ∙ step-archived now i v locked rows j stored.0 distinct.0 yes',
            )
        | inr no' ↦
            let (after, ran, pks, finds) =
              archive_active-rows now i locked rows distinct.1 stored.1 in
            (
              after,
              rw no' ran,
              pks,
              λ j. finds j ∙ step-kept now i v locked rows j stored.0 distinct.0 no',
            )
      ]

  pub find-locked_rows :
      (i : ℕ) (rows : List (Version L)) → find_version i (locked_rows i rows) ≡ find_version i rows
  unfolding find_version locked_rows
  find-locked_rows i [] = refl
  find-locked_rows i (v ∷ rows) = ground (arith, find-locked_rows i rows)

  contains-locked_rows :
      (i j : ℕ) (rows : List (Version L))
      → contains (version_pks rows) j ≡ false
      → contains (version_pks (locked_rows i rows)) j ≡ false
  unfolding contains locked_rows
  contains-locked_rows i j [] out = refl
  contains-locked_rows i j (v ∷ rows) out = elim (Bool-cases (eqb v.pk i || is_active v.status)) [
    | inl kept ↦ rw kept (ground (arith, contains-locked_rows i j rows))
    | inr gone ↦ rw gone (contains-locked_rows i j rows (ground arith))
  ]

  Distinct-locked_rows :
      (i : ℕ) (rows : List (Version L))
      → Distinct (version_pks rows)
      → Distinct (version_pks (locked_rows i rows))
  unfolding locked_rows
  Distinct-locked_rows i [] d = tt
  Distinct-locked_rows i (v ∷ rows) d = elim (Bool-cases (eqb v.pk i || is_active v.status)) [
    | inl kept ↦ rw kept (contains-locked_rows i v.pk rows d.0, Distinct-locked_rows i rows d.1)
    | inr gone ↦ rw gone (Distinct-locked_rows i rows d.1)
  ]

  locks :
      (i j : ℕ) (rows : List (Version L)) (v : Version L)
      → find_version j rows ≡ some v
      → is_active v.status ≡ true
      → contains (version_pks (locked_rows i rows)) j ≡ true
  unfolding find_version contains locked_rows
  locks i j [] v h a = cc
  locks i j (r ∷ rows) v h a = elim (Bool-cases (eqb r.pk i || is_active r.status)) [
    | inl kept ↦ rw kept (ground (arith, locks i j rows v))
    | inr gone ↦ rw gone (ground (arith, locks i j rows v))
  ]

  stored_more :
      (v : Version L) (rows locked : List (Version L))
      → contains (version_pks locked) v.pk ≡ false
      → All (λ w. find_version w.pk rows ≡ some w) locked
      → All (λ w. find_version w.pk (v ∷ rows) ≡ some w) locked
  unfolding find_version contains
  stored_more v rows [] out h = tt
  stored_more v rows (w ∷ locked) out h = (
    ground (arith, h.0, eqb_iff v.pk w.pk, eqb_iff w.pk v.pk),
    stored_more v rows locked (ground arith) h.1,
  )

  stored_locked_rows :
      (i : ℕ) (rows : List (Version L))
      → Distinct (version_pks rows)
      → All (λ w. find_version w.pk rows ≡ some w) (locked_rows i rows)
  unfolding locked_rows find_version
  stored_locked_rows i [] d = tt
  stored_locked_rows i (v ∷ rows) d =
      let rest =
        stored_more v rows (locked_rows i rows) (contains-locked_rows i v.pk rows d.0)
          (stored_locked_rows i rows d.1) in
      elim (Bool-cases (eqb v.pk i || is_active v.status)) [
        | inl kept ↦ rw kept (rw (eqb_refl v.pk) refl, rest)
        | inr gone ↦ rw gone rest
      ]

  other_active-find :
      (i : ℕ) (rows : List (Version L))
      → Distinct (version_pks rows)
      → other_active i rows ≡ true
      → (v : Version L) × (find_version v.pk rows ≡ some v)
        × ((not (eqb v.pk i) && is_active v.status) ≡ true)
        × (contains (version_pks rows) v.pk ≡ true)
  unfolding other_active find_version contains
  other_active-find i [] d h = cc
  other_active-find i (r ∷ rows) d h = elim (Bool-cases (not (eqb r.pk i) && is_active r.status)) [
    | inl here ↦ (r, rw (eqb_refl r.pk) refl, here, rw (eqb_refl r.pk) refl)
    | inr not_here ↦
        let (v, found, other, within) = other_active-find i rows d.1 (ground arith) in
        (v, ground (arith, found, within, d.0, eqb_iff r.pk v.pk), other, ground (arith, within))
  ]

  -- A row of the table once every other active version than `i` is archived.
  abbrev pub retired : ℕ → ℕ → Option (Version L) → Option (Version L)
  retired now i none = none
  retired now i (some v) =
      if not (eqb v.pk i) && is_active v.status then some (archived_row now v) else some v

  retired-row_after :
      (now i j : ℕ) (rows : List (Version L))
      → row_after now i (version_pks (locked_rows i rows)) (find_version j rows)
        ≡ retired now i (find_version j rows)
  retired-row_after now i j rows = elim (Option-cases (find_version j rows)) [
    | inl missing ↦ rw missing refl
    | inr (v, found) ↦
        let pk = find-pk rows j v found in
        let locked = locks i j rows v found in rw found (ground (arith, pk, locked))
  ]

  pub retired-other :
      (now i j : ℕ) (o : Option (Version L)) (v : Version L)
      → retired now i o ≡ some v
      → (not (eqb v.pk i) && is_active v.status) ≡ false
  retired-other now i j none v h = cc
  retired-other now i j (some w) v h = ground arith

  pub retired-pk :
      (now i j : ℕ) (rows : List (Version L)) (v : Version L)
      → retired now i (find_version j rows) ≡ some v
      → v.pk ≡ j
  retired-pk now i j rows v h = elim (Option-cases (find_version j rows)) [
    | inl missing ↦ cc (rw missing at h)
    | inr (w, found) ↦ let pk = find-pk rows j w found in ground (arith, pk, rw found at h)
  ]

  -- The loop archives every other active version and never meets the constraint.
  pub archive_active-retired :
      (now i : ℕ) (rows : List (Version L))
      → Distinct (version_pks rows)
      → (after : List (Version L)) × (archive_active now i (locked_rows i rows) rows ≡ ok after)
        × (other_active i after ≡ false)
        × ((j : ℕ) → find_version j after ≡ retired now i (find_version j rows))
  archive_active-retired now i rows d =
      let (after, ran, pks, finds) =
        archive_active-rows now i (locked_rows i rows) rows (Distinct-locked_rows i rows d)
          (stored_locked_rows i rows d) in
      let found : (j : ℕ) → find_version j after ≡ retired now i (find_version j rows) =
        λ j. finds j ∙ retired-row_after now i j rows in
      (
        after,
        ran,
        elim (Bool-cases (other_active i after)) [
          | inr alone ↦ alone
          | inl bad ↦
              let (v, here, other, _) =
                other_active-find i after (subst (λ l. Distinct l) (sym pks) d) bad in
              let not_other =
                retired-other now i v.pk (find_version v.pk rows) v (sym (found v.pk) ∙ here) in
              cc (other, not_other)
        ],
        found,
      )

-- ===== src/Content/Lifecycle/Bulk/Effects.antt =====
-- What the bulk archive leaves of every row, and what it reports.
use taha_mohammadi_platform.Prelude.{
  ℕ, suc, ◌+◌, ◌≤◌, String, Option, none, some, List, [], ◌∷◌, ◌++◌, Bool, true, false, not, ◌&&◌,
  ◌≡◌, refl, sym, subst, ap, ◌∙◌, inl, inr, arith, eqb_iff, ltb, if◌then◌else◌, Bool-cases,
  Option-cases, Result, ok, Result-cases,
}
use taha_mohammadi_platform.Prelude.Lists.{
  dedup, length, length-append, contains, contains_iff, append_nil, append_assoc, In-dedup,
  Distinct, dedup-Distinct, nat_eq,
}
use taha_mohammadi_platform.Rebuild.Jobs.{Fresh}
use taha_mohammadi_platform.Content.Lifecycle.{
  archived, Row, Clock, Request, Store, LifecycleError, find_row, put_row,
  invalidate_published_snapshots, allowed, save_row, schedule_of, apply_lifecycle_side_effects,
  bulk_archive_max_ids,
}
use taha_mohammadi_platform.Content.Lifecycle.Rows.{find_row-put_row, find_row_pk}
use taha_mohammadi_platform.Content.Lifecycle.Transitions.{moved_row, changed_row, save_row-eq-ok}
use taha_mohammadi_platform.Content.Lifecycle.Bulk.{
  Progress, skip, bulk_audit, archive_row, archive_one, archive_all, enqueue_archived,
  summary_audit, BulkResult, start, finish, bulk_archive_items, is_empty,
}

-- The row of the table under the given id may be archived.
abbrev pub is_target : List Row → ℕ → Bool
is_target rows pk = elim (find_row pk rows) [
  | none ↦ false
  | some item ↦ allowed item.status archived
]

-- The ids whose rows may be archived, in order.
unfoldable pub targets : List Row → List ℕ → List ℕ
targets rows [] = []
targets rows (pk ∷ rest) =
    let others = targets rows rest in if is_target rows pk then pk ∷ others else others

-- The row that an id has once the given ids are archived.
abbrev pub row_after : Clock → List Row → List ℕ → ℕ → Option Row
row_after c rows ids j = elim (find_row j rows) [
  | none ↦ none
  | some item ↦
      if contains ids j && allowed item.status archived
      then some (moved_row c archived none item)
      else some item
]

-- One round of the loop, as far as rows and reports go.
record Round (c : Clock) (pk : ℕ) (p r : Progress) : Type 0 where
  rows : (j : ℕ) → find_row j r.store.rows ≡ row_after c p.store.rows (pk ∷ []) j
  ids : r.archived_ids ≡ p.archived_ids ++ targets p.store.rows (pk ∷ [])
  skips : r.skipped + length r.archived_ids ≡ suc (p.skipped + length p.archived_ids)

module _ (c : Clock) (q : Request) where
  -- What the loop's variables are after a row was archived.
  abbrev progressed : Row → Progress → Progress
  progressed item p = record {
    store = record p.store {
      rows = put_row (moved_row c archived none item) p.store.rows;
      audit = p.store.audit ++ bulk_audit q item.status item.pk ∷ [];
      snapshots = invalidate_published_snapshots q.entity item.pk p.store.snapshots;
    };
    archived_ids = p.archived_ids ++ item.pk ∷ [];
    archived_items = p.archived_items ++ moved_row c archived none item ∷ [];
    skipped = p.skipped;
  }

  progressed-row :
      (pk : ℕ) (item : Row) (p : Progress)
      → find_row pk p.store.rows ≡ some item
      → allowed item.status archived ≡ true
      → (j : ℕ)
      → find_row j (put_row (moved_row c archived none item) p.store.rows)
        ≡ row_after c p.store.rows (pk ∷ []) j
  unfolding contains
  progressed-row pk item p here may j =
      let same = find_row_pk pk p.store.rows item here in
      ground (arith, find_row-put_row (moved_row c archived none item) p.store.rows j)

  progressed-Round :
      (pk : ℕ) (item : Row) (p : Progress)
      → find_row pk p.store.rows ≡ some item
      → allowed item.status archived ≡ true
      → Round c pk p (progressed item p)
  unfolding targets
  progressed-Round pk item p here may =
      let same = find_row_pk pk p.store.rows item here in
      record {
        rows = progressed-row pk item p here may;
        ids = ground arith;
        skips = omega (arith, length-append p.archived_ids (item.pk ∷ []));
      }

  archive_row-eq-ok :
      (item : Row) (p r : Progress) → archive_row c q item p ≡ ok r → progressed item p ≡ r
  unfolding archive_row apply_lifecycle_side_effects schedule_of
  archive_row-eq-ok item p r h =
      elim (Result-cases (save_row c.now (changed_row c archived none item) p.store.rows)) [
        | inr (e, bad) ↦ cc (rw bad at h)
        | inl (saved, kept) ↦
            let (_, _, is) = save_row-eq-ok c archived none item p.store.rows saved kept in
            cc (rw kept at h, is)
      ]

  skipped-Round :
      (pk : ℕ) (p : Progress) → is_target p.store.rows pk ≡ false → Round c pk p (skip p)
  unfolding targets contains
  skipped-Round pk p bad = record {
    rows = λ j. ground arith;
    ids = rw bad (sym (append_nil p.archived_ids));
    skips = omega arith;
  }

  archive_one-Round : (pk : ℕ) (p r : Progress) → archive_one c q pk p ≡ ok r → Round c pk p r
  unfolding archive_one
  archive_one-Round pk p r h = elim (Option-cases (find_row pk p.store.rows)) [
    | inl missing ↦
        subst (Round c pk p) (cc (rw (missing, archive_one) at h))
          (skipped-Round pk p (ground arith))
    | inr (item, here) ↦ elim (Bool-cases (allowed item.status archived)) [
      | inl may ↦
          subst (Round c pk p)
            (archive_row-eq-ok item p r (rw may at (rw (here, archive_one) at h)))
            (progressed-Round pk item p here may)
      | inr may ↦
          subst (Round c pk p) (cc (rw may at (rw (here, archive_one) at h)))
            (skipped-Round pk p (ground arith))
    ]
  ]

module _ (c : Clock) (q : Request) where
  -- The ids that were archived before do not matter to the rest, whose ids are others.
  targets-skip :
      (rows later : List Row) (pk : ℕ) (ids : List ℕ)
      → ((j : ℕ) → find_row j later ≡ row_after c rows (pk ∷ []) j)
      → contains ids pk ≡ false
      → targets later ids ≡ targets rows ids
  unfolding targets contains
  targets-skip rows later pk [] same out = refl
  targets-skip rows later pk (i ∷ ids) same out =
      ground (arith, same i, targets-skip rows later pk ids same)

  row_after-skip :
      (rows later : List Row) (pk : ℕ) (ids : List ℕ) (j : ℕ)
      → ((j : ℕ) → find_row j later ≡ row_after c rows (pk ∷ []) j)
      → contains ids pk ≡ false
      → row_after c later ids j ≡ row_after c rows (pk ∷ ids) j
  unfolding contains
  row_after-skip rows later pk ids j same out = ground (arith, same j, eqb_iff pk j)

  targets-cons :
      (rows : List Row) (pk : ℕ) (ids : List ℕ)
      → targets rows (pk ∷ ids) ≡ targets rows (pk ∷ []) ++ targets rows ids
  unfolding targets
  targets-cons rows pk ids = ground arith

  -- The whole loop.
  archive_all-rows :
      (ids : List ℕ) (p r : Progress)
      → Distinct ids
      → archive_all c q ids p ≡ ok r
      → ((j : ℕ) → find_row j r.store.rows ≡ row_after c p.store.rows ids j)
        × (r.archived_ids ≡ p.archived_ids ++ targets p.store.rows ids)
        × (r.skipped + length r.archived_ids ≡ length ids + (p.skipped + length p.archived_ids))
  unfolding archive_all targets contains
  archive_all-rows [] p r d h =
      let same : p ≡ r = cc h in
      (
        λ j. ground (arith, same),
        ground (arith, same, append_nil p.archived_ids),
        ground (arith, same),
      )
  archive_all-rows (pk ∷ ids) p r d h = elim (Result-cases (archive_one c q pk p)) [
    | inr (e, bad) ↦ cc (rw bad at h)
    | inl (s, once) ↦
        let round = archive_one-Round c q pk p s once in
        let rest = archive_all-rows ids s r d.1 (rw once at h) in
        (
          λ j. rest.0 j ∙ row_after-skip p.store.rows s.store.rows pk ids j round.rows d.0,
          rest.1
              ∙ rw
                  (
                    round.ids,
                    targets-cons p.store.rows pk ids,
                    targets-skip p.store.rows s.store.rows pk ids round.rows d.0,
                  )
                  (append_assoc p.archived_ids (targets p.store.rows (pk ∷ []))
                    (targets p.store.rows ids)),
          omega (arith, rest.2, round.skips),
        )
  ]

contains-dedup : (ids : List ℕ) (j : ℕ) → contains (dedup ids) j ≡ contains ids j
contains-dedup ids j =
    ground (arith, contains_iff ids j, contains_iff (dedup ids) j, In-dedup ids j)

is_empty-length : (ids : List ℕ) → not (is_empty ids) ≡ true → 1 ≤ length ids
is_empty-length [] h = cc
is_empty-length (i ∷ ids) h = omega arith

ok-injective :
    {a b : BulkResult × Store}
    → Path (Result LifecycleError (BulkResult × Store)) (ok a) (ok b)
    → a ≡ b
ok-injective h = cc h

finish-eq-ok :
    (q : Request) (fresh : Option String → Fresh) (p : Progress) (result : BulkResult)
    (after : Store)
    → finish q fresh p ≡ ok (result, after)
    → (after.rows ≡ p.store.rows)
      × (after.audit ≡ p.store.audit ++ summary_audit q p ∷ [])
      × (result.ids ≡ p.archived_ids)
      × (result.archived ≡ length p.archived_ids)
      × (result.skipped ≡ p.skipped)
unfolding finish
finish-eq-ok q fresh p result after h =
    elim (Result-cases (enqueue_archived fresh q.entity p.archived_items p.store.jobs)) [
      | inr (e, bad) ↦ cc (rw bad at h)
      | inl (jobs, good) ↦
          let e = ok-injective (rw good at h) in
          (
            ap (λ (x : BulkResult × Store). x.1.rows) (sym e),
            ap (λ (x : BulkResult × Store). x.1.audit) (sym e),
            ap (λ (x : BulkResult × Store). x.0.ids) (sym e),
            ap (λ (x : BulkResult × Store). x.0.archived) (sym e),
            ap (λ (x : BulkResult × Store). x.0.skipped) (sym e),
          )
    ]

module _ (c : Clock) (q : Request) (fresh : Option String → Fresh) (ids : List ℕ)
    (store : Store) where
  -- A bulk archive that succeeds was given from 1 to 50 ids, repeats aside. It archives the row of
  -- each of them whose status allows it, the way a single transition to `archived` does, and leaves
  -- every other row as it was. The result lists the ids of the archived rows in the order of the
  -- request, counts them, and counts every other id once as skipped.
  pub bulk_archive_items_effect :
      (result : BulkResult) (after : Store)
      → bulk_archive_items c q fresh ids store ≡ ok (result, after)
      → (1 ≤ length (dedup ids))
        × (length (dedup ids) ≤ 50)
        × ((j : ℕ) → find_row j after.rows ≡ row_after c store.rows ids j)
        × (result.ids ≡ targets store.rows (dedup ids))
        × (result.archived ≡ length result.ids)
        × (result.archived + result.skipped ≡ length (dedup ids))
  unfolding bulk_archive_items
  bulk_archive_items_effect result after h = elim (Bool-cases (not (is_empty (dedup ids)))) [
    | inr none' ↦ cc (rw none' at h)
    | inl some' ↦ elim (Bool-cases (not (ltb bulk_archive_max_ids (length (dedup ids))))) [
      | inr many ↦ cc (rw many at (rw some' at h))
      | inl few ↦ elim (Result-cases (archive_all c q (dedup ids) (start store))) [
        | inr (e, bad) ↦ cc (rw bad at (rw few at (rw some' at h)))
        | inl (p, all) ↦
            let loop = archive_all-rows c q (dedup ids) (start store) p (dedup-Distinct ids) all in
            let ends =
              finish-eq-ok q fresh p result after (rw all at (rw few at (rw some' at h))) in
            (
              is_empty-length (dedup ids) some',
              ground arith,
              λ j. ground (arith, ends.0, loop.0 j, contains-dedup ids j),
              cc (ends.2, loop.1),
              cc (ends.2, ends.3),
              ground (arith, ends.3, ends.4, loop.2),
            )
      ]
    ]
  ]

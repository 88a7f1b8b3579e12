-- ===== src/Atlas/Relations/Gate.antt =====
-- What `validate_relations` reports of a version.
use taha_mohammadi_platform.Prelude.{
  ℕ, String, some, List, [], ◌∷◌, ◌++◌, map, ◌≡◌, ◌↔◌, ◌⊎◌, refl, sym, subst, inl, inr, arith, eqb,
  eqb_iff, Bool-cases, ok,
}
use taha_mohammadi_platform.Prelude.Lists.{
  In, All, All-of_In, In-map, map-In, In-append_left, In-append_right, In-append_cases, In-sort_by,
  In-dedup, dedup, sort_by, nat_eq, text_eq,
}
use taha_mohammadi_platform.Prelude.Groups.{grouped, shared_values, AllDistinct}
use taha_mohammadi_platform.Prelude.Groups.Shared.{Clash, SharesKey, shared_values-grouped}
use taha_mohammadi_platform.Atlas.Issues.{Code, Issue, issue_le, relation_issue, duplicate_relation}
use taha_mohammadi_platform.Atlas.Graph.{AtlasRelation, composed_key}
use taha_mohammadi_platform.Atlas.Relations.{
  AllowedTypes, through, allowed_types_by_relation_type, allowed_of, Identity, identity_eq,
  identities, key_le, duplicate_issues, row_issues, judge, relation_rule_issues, validate_relations,
}
use taha_mohammadi_platform.Atlas.Relations.Clashes.{
  SaysTheSame, identities-Distinct, identities-SharesKey,
}
use taha_mohammadi_platform.Atlas.Relations.Rules.{Breaks, row_issues-Breaks}

abbrev judged : AtlasRelation → String × List Identity
judged r = (composed_key r, identities r)

-- The key is that of one of two relations that say the same.
abbrev pub Doubled : String → List AtlasRelation → Type 0
Doubled key [] = ⊥
Doubled key (r ∷ relations) =
    ((q : AtlasRelation) × In q relations
      × SaysTheSame r q
      × ((key ≡ composed_key r) ⊎ (key ≡ composed_key q)))
    ⊎ Doubled key relations

Clash-Doubled :
    (relations : List AtlasRelation) (key : String)
    → Clash key (map judged relations) ↔ Doubled key relations
Clash-Doubled [] key = (λ h. h, λ h. h)
Clash-Doubled (r ∷ relations) key =
    let (down, up) = Clash-Doubled relations key in
    (
      λ h. elim h [
        | inr later ↦ inr (down later)
        | inl (other, others, here, shared, which) ↦
            let (q, m, e) = In-map judged relations (other, others) here in
            let same : SharesKey (identities r) (identities q) =
              subst (λ (x : String × List Identity). SharesKey (identities r) (x.1)) e shared in
            let key_of : (key ≡ composed_key r) ⊎ (key ≡ composed_key q) =
              subst (λ (x : String × List Identity). (key ≡ composed_key r) ⊎ (key ≡ x.0)) e
                which in
            inl (q, m, (identities-SharesKey r q).0 same, key_of)
      ],
      λ h. elim h [
        | inr later ↦ inr (up later)
        | inl (q, m, same, which) ↦ inl (
          composed_key q,
          identities q,
          map-In judged relations q m,
          (identities-SharesKey r q).1 same,
          which,
        )
      ],
    )

module _ (version_id : ℕ) (sources targets : List (ℕ × ℕ)) where
  abbrev pub allowed_for : AtlasRelation → AllowedTypes
  allowed_for r = record {
    sources = through sources r.relation_type.pk;
    targets = through targets r.relation_type.pk;
  }

  allowed_of-covers :
      (ids : List ℕ) (pk : ℕ)
      → In pk ids
      → allowed_of (allowed_types_by_relation_type sources targets ids) pk
        ≡ ok (record { sources = through sources pk; targets = through targets pk })
  unfolding allowed_of allowed_types_by_relation_type
  allowed_of-covers [] pk m = absurd m
  allowed_of-covers (id ∷ ids) pk m = elim (Bool-cases (eqb id pk)) [
    | inl same ↦ rw (same, (eqb_iff id pk).0 same) refl
    | inr other ↦
        rw other (allowed_of-covers ids pk (elim m [ inl e ↦ ground (arith) | inr m' ↦ m' ]))
  ]

  abbrev all_row_issues : List AtlasRelation → List Issue
  all_row_issues [] = []
  all_row_issues (r ∷ relations) =
      row_issues version_id (allowed_for r) r ++ all_row_issues relations

  In-all_row_issues :
      (relations : List AtlasRelation) (i : Issue)
      → In i (all_row_issues relations) ↔ (
          (r : AtlasRelation) × In r relations
          × (c : Code) × Breaks version_id (allowed_for r) r c
          × (i ≡ relation_issue c (composed_key r)))
  In-all_row_issues [] i = (λ m. absurd m, λ (r, m, c, b, e). absurd m)
  In-all_row_issues (r ∷ relations) i =
      let (down, up) = In-all_row_issues relations i in
      let (found, back) = row_issues-Breaks version_id (allowed_for r) r i in
      (
        λ m.
            elim (In-append_cases i (row_issues version_id (allowed_for r) r)
              (all_row_issues relations) m) [
                | inl here ↦ let (c, b, e) = found here in (r, inl refl, c, b, e)
                | inr later ↦ let (q, m', c, b, e) = down later in (q, inr m', c, b, e)
              ],
        λ (q, m, c, b, is). elim m [
          | inl e ↦
              In-append_left i (row_issues version_id (allowed_for r) r) (all_row_issues relations)
                (back (
                  subst
                    (λ x.
                      (c : Code) × Breaks version_id (allowed_for x) x c
                      × (i ≡ relation_issue c (composed_key x)))
                    e (c, b, is)))
          | inr m' ↦
              In-append_right i (row_issues version_id (allowed_for r) r) (all_row_issues relations)
                (up (q, m', c, b, is))
        ],
      )

  judge-covered :
      (table : List (ℕ × AllowedTypes)) (relations : List AtlasRelation)
      → All (λ r. allowed_of table r.relation_type.pk ≡ ok (allowed_for r)) relations
      → judge version_id table (map (λ r. some r) relations)
        ≡ ok (all_row_issues relations, map judged relations)
  unfolding judge
  judge-covered table [] h = refl
  judge-covered table (r ∷ relations) (here, h) = rw (here, judge-covered table relations h) refl

  AllDistinct-judged : (relations : List AtlasRelation) → AllDistinct (map judged relations)
  AllDistinct-judged [] = tt
  AllDistinct-judged (r ∷ relations) = (identities-Distinct r, AllDistinct-judged relations)

  In-duplicate_issues :
      (relations : List AtlasRelation) (i : Issue)
      → In i (duplicate_issues (map judged relations))
        ↔ ((key : String) × Doubled key relations × (i ≡ relation_issue duplicate_relation key))
  unfolding duplicate_issues
  In-duplicate_issues relations i =
      let rows = map judged relations in
      let keys = shared_values (grouped [] rows) in
      let sorted = sort_by key_le (dedup keys) in
      let shared =
        λ (key : String). shared_values-grouped rows key (AllDistinct-judged relations) in
      (
        λ m.
            let (key, here, e) = In-map (λ key. relation_issue duplicate_relation key) sorted i m in
            let there = (In-dedup keys key).0 ((In-sort_by key_le (dedup keys) key).0 here) in
            (key, (Clash-Doubled relations key).0 ((shared key).0 there), e),
        λ (key, h, e).
            let there = (shared key).1 ((Clash-Doubled relations key).1 h) in
            let here = (In-sort_by key_le (dedup keys) key).1 ((In-dedup keys key).1 there) in
            subst (λ x. In x (map (λ key. relation_issue duplicate_relation key) sorted)) (sym e)
              (map-In (λ key. relation_issue duplicate_relation key) sorted key here),
      )

  -- An issue of the relations, stated without the code.
  abbrev pub IsRelationIssue : List AtlasRelation → Issue → Type 0
  IsRelationIssue relations i =
      ((r : AtlasRelation) × In r relations
        × (c : Code) × Breaks version_id (allowed_for r) r c
        × (i ≡ relation_issue c (composed_key r)))
      ⊎ ((key : String) × Doubled key relations × (i ≡ relation_issue duplicate_relation key))

  -- The rules on relations never fail on a missing table of allowed types. They report exactly the
  -- codes of the rules that some relation breaks, under its key, and, under either key, each two
  -- relations that say the same.
  pub validate_relations_iff :
      (relations : List AtlasRelation)
      → (issues : List Issue) × (validate_relations version_id relations sources targets
          ≡ ok issues)
        × ((i : Issue) → In i issues ↔ IsRelationIssue relations i)
  unfolding validate_relations relation_rule_issues
  validate_relations_iff relations =
      let ids = map (λ (r : AtlasRelation). r.relation_type.pk) relations in
      let table = allowed_types_by_relation_type sources targets (dedup ids) in
      let found = judge-covered table relations (
        All-of_In (λ r. allowed_of table r.relation_type.pk ≡ ok (allowed_for r)) relations
          (λ r m. allowed_of-covers (dedup ids) r.relation_type.pk (
            (In-dedup ids r.relation_type.pk).1
              (map-In (λ (r : AtlasRelation). r.relation_type.pk) relations r m)))) in
      let issues = all_row_issues relations ++ duplicate_issues (map judged relations) in
      (
        sort_by issue_le issues,
        rw found refl,
        λ i.
            let (kept, back) = In-sort_by issue_le issues i in
            (
              λ m.
                  elim (In-append_cases i (all_row_issues relations)
                    (duplicate_issues (map judged relations)) (kept m)) [
                      | inl one ↦ inl ((In-all_row_issues relations i).0 one)
                      | inr two ↦ inr ((In-duplicate_issues relations i).0 two)
                    ],
              λ h. back (elim h [
                | inl one ↦
                    In-append_left i (all_row_issues relations)
                      (duplicate_issues (map judged relations))
                      ((In-all_row_issues relations i).1 one)
                | inr two ↦
                    In-append_right i (all_row_issues relations)
                      (duplicate_issues (map judged relations))
                      ((In-duplicate_issues relations i).1 two)
              ]),
            ),
      )

-- ===== src/Atlas/Projection/Sharing.antt =====
-- The facts that `validate_version` resolves once and hands to the rules, beside those that each rule
-- resolves by itself.
use taha_mohammadi_platform.Prelude.{
  ℕ, String, Option, none, some, List, [], ◌∷◌, map, Bool, true, false, not, ◌&&◌, ◌≡◌, refl, sym,
  ap, ◌∙◌, subst, inl, inr, arith, eqb, eqb_refl, if◌then◌else◌, Bool-cases, Option-cases,
}
use taha_mohammadi_platform.Prelude.Lists.{
  contains, contains_iff, nat_eq, text_eq, In, Distinct, map-In,
}
use taha_mohammadi_platform.Atlas.Issues.{Issue, node_issue, missing_locale_projection}
use taha_mohammadi_platform.Atlas.Graph.{AtlasNode, AtlasGroup}
use taha_mohammadi_platform.Prelude.Filtered.{those, In-those, those-same}
use taha_mohammadi_platform.Atlas.Canonical.{
  CanonicalRow, CanonicalResolution, canonical_sources, default_locales, resolve_canonical,
}
use taha_mohammadi_platform.Atlas.Projection.{
  NodeCanonicalFacts, resolved_at, is_none, covered_locales, node_facts, canonical_facts,
  shared_facts, facts_for, missing_locales, node_gaps, of_visible, validate_locale_projection,
  defects_by, reference_defects, validate_canonical_refs,
}
use taha_mohammadi_platform.Atlas.Projection.Lookup.{
  answer, is_ambiguous, resolved_at-resolve_each, contains-resolve_each,
}

-- What the resolver answers of a node in a locale, and whether it finds two rows. A node without a
-- listed source and a key has no reference.
abbrev pub verdict : List CanonicalRow → AtlasNode → String → Option CanonicalResolution
verdict rows n l = elim n.canonical_translation_key [
  | none ↦ none
  | some key ↦
      if contains canonical_sources n.canonical_model
      then answer (resolve_canonical rows n.canonical_model (some key) l)
      else none
]

abbrev pub doubt : List CanonicalRow → AtlasNode → String → Bool
doubt rows n l = elim n.canonical_translation_key [
  | none ↦ false
  | some key ↦
      contains canonical_sources n.canonical_model
      && is_ambiguous (resolve_canonical rows n.canonical_model (some key) l)
]

resolved_at-nothing :
    (locales : List String) (l : String) → resolved_at (map (λ l. (l, none)) locales) l ≡ none
unfolding resolved_at
resolved_at-nothing [] l = refl
resolved_at-nothing (locale ∷ locales) l = ground (arith, resolved_at-nothing locales l)

apart : (i j : ℕ) (ids : List ℕ) → contains ids i ≡ false → In j ids → eqb i j ≡ false
apart i j ids fresh m = ground (arith, contains_iff ids j)

first_shared :
    (b : Bool) (i : ℕ) (f : NodeCanonicalFacts) (facts : List (ℕ × NodeCanonicalFacts)) (pk : ℕ)
    → b ≡ true
    → eqb i pk ≡ true
    → shared_facts (if b then (i, f) ∷ facts else facts) pk ≡ some f
unfolding shared_facts
first_shared true i f facts pk _ h = rw h refl
first_shared false i f facts pk h _ = cc h

later_shared :
    (b : Bool) (i : ℕ) (f : NodeCanonicalFacts) (facts : List (ℕ × NodeCanonicalFacts)) (pk : ℕ)
    → eqb i pk ≡ false
    → shared_facts (if b then (i, f) ∷ facts else facts) pk ≡ shared_facts facts pk
unfolding shared_facts
later_shared true i f facts pk h = rw h refl
later_shared false i f facts pk h = refl

module _ (rows : List CanonicalRow) where
  resolved_at-node_facts :
      (n : AtlasNode) (locales : List String) (check : Bool) (l : String)
      → contains locales l ≡ true
      → resolved_at (node_facts rows n locales check).resolved l ≡ verdict rows n l
  unfolding node_facts
  resolved_at-node_facts n locales check l asked = elim (Option-cases n.canonical_translation_key) [
    | inl e ↦ rw e (resolved_at-nothing locales l)
    | inr (key, e) ↦ elim (Bool-cases (contains canonical_sources n.canonical_model)) [
      | inr not_listed ↦ rw (e, not_listed) (resolved_at-nothing locales l)
      | inl listed ↦
          rw (e, listed, resolved_at-resolve_each rows n.canonical_model key locales l, asked) refl
    ]
  ]

  doubt-node_facts :
      (n : AtlasNode) (locales : List String) (check : Bool) (l : String)
      → contains locales l ≡ true
      → contains (node_facts rows n locales check).ambiguous_in l ≡ doubt rows n l
  unfolding node_facts contains
  doubt-node_facts n locales check l asked = elim (Option-cases n.canonical_translation_key) [
    | inl e ↦ rw e refl
    | inr (key, e) ↦ elim (Bool-cases (contains canonical_sources n.canonical_model)) [
      | inr not_listed ↦ rw (e, not_listed) refl
      | inl listed ↦
          rw (e, listed, contains-resolve_each rows n.canonical_model key locales l, asked) refl
    ]
  ]

  -- The gaps, by the resolver's answers.
  abbrev pub plain_gaps : AtlasNode → List Issue
  plain_gaps n =
      those (λ l. not (doubt rows n l) && is_none (verdict rows n l))
        (λ l. node_issue missing_locale_projection n.public_key) (missing_locales n)

  missing-asked :
      (n : AtlasNode) (l : String) → In l (missing_locales n) → contains default_locales l ≡ true
  missing-asked n l m =
      let (x, here, kept, e) =
        (In-those (λ l. not (contains (covered_locales n) l)) (λ l. l) default_locales l).0 m in
      (contains_iff default_locales l).1 (subst (λ y. In y default_locales) (sym e) here)

  gaps_from :
      (n : AtlasNode) (locales : List String) (check : Bool)
      → ((l : String) → In l (missing_locales n) → contains locales l ≡ true)
      → those
          (λ l.
            not (contains (node_facts rows n locales check).ambiguous_in l)
            && is_none (resolved_at (node_facts rows n locales check).resolved l))
          (λ l. node_issue missing_locale_projection n.public_key)
          (missing_locales n)
        ≡ plain_gaps n
  gaps_from n locales check asked =
      those-same
        (λ l.
          not (contains (node_facts rows n locales check).ambiguous_in l)
          && is_none (resolved_at (node_facts rows n locales check).resolved l))
        (λ l. not (doubt rows n l) && is_none (verdict rows n l))
        (λ l. node_issue missing_locale_projection n.public_key) (missing_locales n)
        (λ l m.
          rw
            (
              doubt-node_facts n locales check l (asked l m),
              resolved_at-node_facts n locales check l (asked l m),
            )
            refl)

  pub node_gaps-alone : (n : AtlasNode) → node_gaps rows none n ≡ plain_gaps n
  unfolding node_gaps facts_for
  node_gaps-alone n =
      gaps_from n (missing_locales n) false (λ l m. (contains_iff (missing_locales n) l).1 m)

  facts_for-shared :
      (n : AtlasNode) (facts : List (ℕ × NodeCanonicalFacts)) (locales : List String) (check : Bool)
      → shared_facts facts n.pk ≡ some (node_facts rows n default_locales true)
      → facts_for rows (some facts) n locales check ≡ node_facts rows n default_locales true
  unfolding facts_for
  facts_for-shared n facts locales check found = rw (facts_for, found) refl

  facts_for-alone :
      (n : AtlasNode) (locales : List String) (check : Bool)
      → facts_for rows none n locales check ≡ node_facts rows n locales check
  unfolding facts_for
  facts_for-alone n locales check = refl

  node_gaps-shared :
      (n : AtlasNode) (facts : List (ℕ × NodeCanonicalFacts))
      → shared_facts facts n.pk ≡ some (node_facts rows n default_locales true)
      → node_gaps rows (some facts) n ≡ plain_gaps n
  unfolding node_gaps
  node_gaps-shared n facts found =
      rw (facts_for-shared n facts (missing_locales n) false found)
        (gaps_from n default_locales true (missing-asked n))

  reference_defects-shared :
      (n : AtlasNode) (facts : List (ℕ × NodeCanonicalFacts))
      → shared_facts facts n.pk ≡ some (node_facts rows n default_locales true)
      → reference_defects rows (some facts) n ≡ reference_defects rows none n
  unfolding reference_defects
  reference_defects-shared n facts found =
      ap (λ known. defects_by known n)
        (facts_for-shared n facts default_locales true found
          ∙ sym (facts_for-alone n default_locales true))

  -- The facts of a visible node are found.
  shared_facts-canonical_facts :
      (nodes : List AtlasNode) (n : AtlasNode)
      → Distinct (map (λ (x : AtlasNode). x.pk) nodes)
      → In n nodes
      → n.visible ≡ true
      → shared_facts (canonical_facts rows nodes) n.pk
        ≡ some (node_facts rows n default_locales true)
  unfolding shared_facts canonical_facts contains
  shared_facts-canonical_facts [] n once m seen = absurd m
  shared_facts-canonical_facts (x ∷ nodes) n (fresh, once) (inl is) seen =
      let shown : x.visible ≡ true = subst (λ (y : AtlasNode). y.visible ≡ true) is seen in
      subst
        (λ (y : AtlasNode).
          shared_facts (canonical_facts rows (x ∷ nodes)) y.pk
          ≡ some (node_facts rows y default_locales true))
        (sym is)
        (first_shared x.visible x.pk (node_facts rows x default_locales true)
          (canonical_facts rows nodes) x.pk shown (eqb_refl x.pk))
  shared_facts-canonical_facts (x ∷ nodes) n (fresh, once) (inr m) seen =
      let rest = shared_facts-canonical_facts nodes n once m seen in
      let listed = map-In (λ (y : AtlasNode). y.pk) nodes n m in
      later_shared x.visible x.pk (node_facts rows x default_locales true)
        (canonical_facts rows nodes) n.pk
        (apart x.pk n.pk (map (λ (y : AtlasNode). y.pk) nodes) fresh listed)
      ∙ rest

  of_visible-same :
      (f g : AtlasNode → List Issue) (nodes : List AtlasNode)
      → ((n : AtlasNode) → In n nodes → n.visible ≡ true → f n ≡ g n)
      → of_visible f nodes ≡ of_visible g nodes
  unfolding of_visible
  of_visible-same f g [] h = refl
  of_visible-same f g (n ∷ nodes) h =
      let rest = of_visible-same f g nodes (λ x m seen. h x (inr m) seen) in
      elim (Bool-cases n.visible) [
        | inl seen ↦ rw (h n (inl refl) seen, rest) refl
        | inr hidden ↦ rw (rest, hidden) refl
      ]

  -- The rule on locales and the rule on references report the same with the shared facts of the
  -- version as on their own. The nodes have different keys.
  pub sharing_changes_nothing :
      (nodes : List AtlasNode) (groups : List AtlasGroup)
      → Distinct (map (λ (x : AtlasNode). x.pk) nodes)
      → (validate_locale_projection rows (some (canonical_facts rows nodes)) nodes groups
          ≡ validate_locale_projection rows none nodes groups)
        × (validate_canonical_refs rows (some (canonical_facts rows nodes)) nodes
            ≡ validate_canonical_refs rows none nodes)
  unfolding validate_locale_projection validate_canonical_refs
  sharing_changes_nothing nodes groups once =
      let facts = canonical_facts rows nodes in
      let gaps =
        of_visible-same (node_gaps rows (some facts)) (node_gaps rows none) nodes (λ n m seen.
          node_gaps-shared n facts (shared_facts-canonical_facts nodes n once m seen)
          ∙ sym (node_gaps-alone n)) in
      let defects =
        of_visible-same (reference_defects rows (some facts)) (reference_defects rows none) nodes
          (λ n m seen.
            reference_defects-shared n facts (shared_facts-canonical_facts nodes n once m seen)) in
      (rw gaps refl, rw defects refl)

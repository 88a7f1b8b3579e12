-- ===== src/Atlas/Hierarchy/Gate.antt =====
-- The verdict of `hierarchy_rule_issues`.
use taha_mohammadi_platform.Prelude.{
  ℕ, suc, String, none, List, [], ◌∷◌, ◌≡◌, ◌≢◌, ◌↔◌, ◌⊎◌, refl, sym, ap, subst, ◌∙◌, inl, inr,
  Option-cases, map,
}
use taha_mohammadi_platform.Prelude.Lists.{
  In-map, map-In, All, All-of_In, In, In-dedup, In-sort_by, dedup, Distinct, nat_eq, text_eq,
}
use taha_mohammadi_platform.Atlas.Issues.{Issue, issue_le}
use taha_mohammadi_platform.Atlas.Hierarchy.{
  Node, Relation, key_of, hierarchy_rows, arcs_of, witness_walk, first_key, directions, fuel_for,
  reported_keys, cycle_issue, hierarchy_rule_issues,
}
use taha_mohammadi_platform.Atlas.Hierarchy.Walks.{
  IsWalk-imp, Listed, Follows, Avoids, Avoids-iff, nodes_of, IsCycle, walk-Distinct,
}
use taha_mohammadi_platform.Atlas.Hierarchy.Arcs.{
  In-arcs_of, pks_of, Distinct-HasOneOf, In-hierarchy_rows, Follows-ends,
}
use taha_mohammadi_platform.Atlas.Hierarchy.Search.{witness_walk_complete}
use taha_mohammadi_platform.Atlas.Hierarchy.Witness.{witness_walk-Led}
use taha_mohammadi_platform.Atlas.Hierarchy.Keys.{
  node_pks, known-In, length-node_pks, directions-Gives, Gives-directions, first_key-In, no_member,
  Reported, keys_through-found, reported_keys-found, reported_keys-Reported,
}

module _ (nodes : List Node) (relations : List Relation) where
  abbrev rows : List Relation
  rows = hierarchy_rows nodes relations

  issue-cases :
      (issue : Issue)
      → In issue (hierarchy_rule_issues nodes relations)
      → (key : String) × Reported nodes rows rows key × (issue ≡ cycle_issue key)
  unfolding hierarchy_rule_issues
  issue-cases issue m =
      let keys = dedup (reported_keys nodes rows rows) in
      let (key, here, e) =
        In-map cycle_issue keys issue ((In-sort_by issue_le (map cycle_issue keys) issue).0 m) in
      (
        key,
        reported_keys-Reported nodes rows rows key
            ((In-dedup (reported_keys nodes rows rows) key).0 here),
        e,
      )

  key-issue :
      (key : String)
      → In key (reported_keys nodes rows rows)
      → In (cycle_issue key) (hierarchy_rule_issues nodes relations)
  unfolding hierarchy_rule_issues
  key-issue key m =
      let keys = dedup (reported_keys nodes rows rows) in
      (In-sort_by issue_le (map cycle_issue keys) (cycle_issue key)).1
        (map-In cycle_issue keys key ((In-dedup (reported_keys nodes rows rows) key).1 m))

  Listed-ends :
      Distinct (pks_of relations)
      → (x y : ℕ) (a b : ℕ × ℕ) → Listed (arcs_of nodes rows) x a
      → Listed (arcs_of nodes rows) y b
      → a.1 ≡ b.1
      → (x ≡ y) ⊎ (x ≡ b.0)
  Listed-ends distinct x y a b m n same =
      Follows-ends rows
        (λ r s here there.
          Distinct-HasOneOf relations distinct r s (In-hierarchy_rows nodes relations r here).0
            (In-hierarchy_rows nodes relations s there).0)
        x y a b ((In-arcs_of nodes rows x a).0 m) ((In-arcs_of nodes rows y b).0 n) same

  -- Every issue is `HIERARCHY_CYCLE` and names a node that stands on a cycle of the subgraph: a
  -- closed walk that follows no relation twice. The relations' primary keys are distinct.
  pub hierarchy_rule_issues_name :
      (issue : Issue)
      → Distinct (pks_of relations)
      → In issue (hierarchy_rule_issues nodes relations)
      → (x : ℕ) × (w : List (ℕ × ℕ)) × IsCycle rows x w
        × ((i : ℕ) × In i (nodes_of w) × (issue ≡ cycle_issue (key_of nodes i)))
  hierarchy_rule_issues_name issue distinct m =
      let (key, k, e) = issue-cases issue m in
      let gave = directions-Gives k.relation k.direction k.way in
      let (known, a, b) = In-hierarchy_rows nodes relations k.relation k.here in
      let led =
        witness_walk-Led (arcs_of nodes rows) k.relation.pk (k.direction.0) (fuel_for nodes)
          (k.direction.1) k.walk k.found in
      let (i, on, named) = first_key-In nodes (k.direction.0) (nodes_of led.walk) in
      (
        k.direction.1,
        (k.direction.0, k.relation.pk) ∷ led.walk,
        (
          λ e. cc e,
          (
            (k.relation, k.here, gave.0, gave.1),
            IsWalk-imp (Listed (arcs_of nodes rows)) (Follows rows) (k.direction.0) led.walk
                (k.direction.1) (λ x a. (In-arcs_of nodes rows x a).0) led.leads,
          ),
          (
            (Avoids-iff k.relation.pk led.walk).0 led.avoids,
            walk-Distinct (Listed (arcs_of nodes rows)) (Listed-ends distinct) (k.direction.0)
                led.walk (k.direction.1) led.leads led.distinct,
          ),
        ),
        (i, on, e ∙ ap cycle_issue (k.named ∙ ap (first_key nodes) led.spelled ∙ named)),
      )

  known-target : (x : ℕ) (a : ℕ × ℕ) → Follows rows x a → In (a.0) (node_pks nodes)
  known-target x a (r, m, same, way) =
      let (known, source, target) = In-hierarchy_rows nodes relations r m in
      elim way [
        | inl (leaves, arrives) ↦
            subst (λ i. In i (node_pks nodes)) arrives (known-In nodes r.target target)
        | inr (both, leaves, arrives) ↦
            subst (λ i. In i (node_pks nodes)) arrives (known-In nodes r.source source)
      ]

  Listed-inside : (x : ℕ) → All (λ (a : ℕ × ℕ). In (a.0) (node_pks nodes)) (arcs_of nodes rows x)
  Listed-inside x =
      All-of_In (λ (a : ℕ × ℕ). In (a.0) (node_pks nodes)) (arcs_of nodes rows x)
        (λ a m. known-target x a ((In-arcs_of nodes rows x a).0 m))

  cycle-issue :
      (x : ℕ) (w : List (ℕ × ℕ)) → IsCycle rows x w → hierarchy_rule_issues nodes relations ≢ []
  cycle-issue x [] (some_arc, walk, once) none' = some_arc refl
  cycle-issue x (a ∷ w) (some_arc, ((r, here, same, way), walk), once) none' =
      let search = witness_walk (fuel_for nodes) (arcs_of nodes rows) (a.0) x r.pk in
      let rest =
        IsWalk-imp (Follows rows) (Listed (arcs_of nodes rows)) (a.0) w x
          (λ y b. (In-arcs_of nodes rows y b).1) walk in
      let avoids : Avoids r.pk w =
        subst (λ p. Avoids p w) (sym same) ((Avoids-iff (a.1) w).1 once.0) in
      let there = known-target x a (r, here, same, way) in
      let runs : search ≢ none =
        subst (λ n. witness_walk (suc n) (arcs_of nodes rows) (a.0) x r.pk ≢ none)
          (length-node_pks nodes)
          (witness_walk_complete (arcs_of nodes rows) r.pk (node_pks nodes) Listed-inside x (a.0) w
            there rest avoids) in
      elim (Option-cases search) [
        | inl missing ↦ runs missing
        | inr (found, e) ↦
            let key =
              keys_through-found nodes rows r.pk (directions r) (a.0, x) found
                (Gives-directions r x a (same, way)) e in
            let issue =
              key-issue (first_key nodes found)
                (reported_keys-found nodes rows rows r (first_key nodes found) here key) in
            subst (In (cycle_issue (first_key nodes found))) none' issue
      ]

  -- The rule reports nothing if and only if the subgraph has no cycle: no closed walk that follows
  -- no relation twice. The relations' primary keys are distinct.
  pub hierarchy_rule_issues_iff :
      Distinct (pks_of relations)
      → (hierarchy_rule_issues nodes relations ≡ [])
        ↔ ((x : ℕ) (w : List (ℕ × ℕ)) → IsCycle rows x w → ⊥)
  hierarchy_rule_issues_iff distinct = (
    λ clean x w cycle. cycle-issue x w cycle clean,
    λ free. no_member (hierarchy_rule_issues nodes relations) (λ issue m.
        let (x, w, cycle, _) = hierarchy_rule_issues_name issue distinct m in free x w cycle),
  )

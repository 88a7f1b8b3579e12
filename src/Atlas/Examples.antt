-- ===== src/Atlas/Examples.antt =====
-- The theorems of the hierarchy rule, at a chain of pages that is closed by an undirected relation,
-- and those of the activation, at a table with one active version and one draft.
mod Gates
mod Payload
use taha_mohammadi_platform.Prelude.{
  ℕ, List, [], ◌∷◌, Bool, true, false, ◌≡◌, ◌↔◌, refl, sym, subst, inl,
}
use taha_mohammadi_platform.Prelude.Lists.{
  In, dedup, contains, Distinct, nat_eq, text_eq, sort_by, insert_by,
}
use taha_mohammadi_platform.Prelude.Text.{or_else}
use taha_mohammadi_platform.Atlas.Issues.{Issue, code_text, issue_le}
use taha_mohammadi_platform.Atlas.Hierarchy.{
  reported_keys, is_known, keys_through, witness_walk, search_walk, scan, arcs_of, unsorted_arcs,
  visited, first_key, reverse_onto, previous_of, walk_back, Node, Relation, hierarchy_rows,
  cycle_issue, key_of, hierarchy_rule_issues,
}
use taha_mohammadi_platform.Atlas.Hierarchy.Walks.{IsCycle, nodes_of}
use taha_mohammadi_platform.Atlas.Hierarchy.Arcs.{pks_of}
use taha_mohammadi_platform.Atlas.Hierarchy.Gate.{
  hierarchy_rule_issues_name, hierarchy_rule_issues_iff,
}
use taha_mohammadi_platform.Prelude.{String, some, none, ok, ◌==◌}
use taha_mohammadi_platform.Atlas.Versions.{
  locked_rows, save_version, put_version, other_active, archive_active, archived_row, VersionStatus,
  draft, active, Version, version_revision, find_version, activated_row, activate_version,
}
use taha_mohammadi_platform.Atlas.Versions.Archiving.{version_pks}
use taha_mohammadi_platform.Atlas.Versions.Activation.{
  after_activation, activate_version_publishes, activate_version_only,
}

abbrev nodes : List Node
nodes =
    record { pk = 1; public_key = "c" }
    ∷ record { pk = 2; public_key = "a" }
    ∷ record { pk = 3; public_key = "b" }
    ∷ []

abbrev arc : ℕ → ℕ → ℕ → Bool → Relation
arc pk source target directed = record {
  pk = pk;
  source = source;
  target = target;
  directed = directed;
  hierarchy_role = true;
}

-- 1 → 2 → 3, and an edge between 3 and 1.
abbrev loop : List Relation
loop = arc 10 1 2 true ∷ arc 11 2 3 true ∷ arc 12 1 3 false ∷ []

-- Two parents are no cycle.
abbrev diamond : List Relation
diamond = arc 10 1 2 true ∷ arc 11 1 3 true ∷ arc 12 3 2 true ∷ []

loop-Distinct : Distinct (pks_of loop)
unfolding contains
loop-Distinct = (refl, (refl, (refl, tt)))

diamond-Distinct : Distinct (pks_of diamond)
unfolding contains
diamond-Distinct = (refl, (refl, (refl, tt)))

loop_issues : hierarchy_rule_issues nodes loop ≡ cycle_issue "a" ∷ []
unfolding hierarchy_rule_issues sort_by insert_by dedup contains reported_keys hierarchy_rows
    is_known keys_through witness_walk search_walk scan arcs_of unsorted_arcs visited key_of
    first_key reverse_onto previous_of walk_back code_text issue_le or_else
loop_issues = refl

hierarchy_rule_issues_name_example :
    (x : ℕ) × (w : List (ℕ × ℕ)) × IsCycle (hierarchy_rows nodes loop) x w
    × ((i : ℕ) × In i (nodes_of w) × (cycle_issue "a" ≡ cycle_issue (key_of nodes i)))
hierarchy_rule_issues_name_example =
    hierarchy_rule_issues_name nodes loop (cycle_issue "a") loop-Distinct
      (subst (In (cycle_issue "a")) (sym loop_issues) (inl refl))

hierarchy_rule_issues_iff_example :
    (hierarchy_rule_issues nodes diamond ≡ [])
    ↔ ((x : ℕ) (w : List (ℕ × ℕ)) → IsCycle (hierarchy_rows nodes diamond) x w → ⊥)
hierarchy_rule_issues_iff_example = hierarchy_rule_issues_iff nodes diamond diamond-Distinct

-- Versions whose stored layout is a number.
abbrev version : ℕ → VersionStatus → Version ℕ
version pk status = record {
  pk = pk;
  status = status;
  label = "v";
  published_at = none;
  created_from = none;
  layout_revision = 1;
  layout = 0;
  created_at = 1;
  updated_at = 2;
}

abbrev versions : List (Version ℕ)
versions = version 1 active ∷ version 2 draft ∷ []

abbrev iso : ℕ → String
iso t = "t"

abbrev clean : Version ℕ → List Issue
clean v = []

versions-Distinct : Distinct (version_pks versions)
unfolding contains
versions-Distinct = (refl, (refl, tt))

activate_version_publishes_example :
    (after : List (Version ℕ)) × (activate_version iso clean 9 2 "2-t" versions
      ≡ ok (activated_row 9 (version 2 draft), after))
    × ((j : ℕ)
        → find_version j after ≡ after_activation iso clean 9 2 "2-t" versions (version 2 draft) j)
unfolding find_version version_revision
activate_version_publishes_example =
    activate_version_publishes iso clean 9 2 "2-t" versions (version 2 draft) versions-Distinct refl
      refl refl refl

abbrev versions_after : List (Version ℕ)
versions_after = archived_row 9 (version 1 active) ∷ activated_row 9 (version 2 draft) ∷ []

activation :
    activate_version iso clean 9 2 "2-t" versions
    ≡ ok (activated_row 9 (version 2 draft), versions_after)
unfolding activate_version find_version version_revision locked_rows archive_active save_version
    put_version other_active
activation = refl

activate_version_only_example :
    (t : Version ℕ) × (find_version 2 versions ≡ some t)
    × (t.status ≡ draft)
    × (("2-t" == version_revision iso t) ≡ true)
    × (clean t ≡ [])
    × (activated_row 9 (version 2 draft) ≡ activated_row 9 t)
    × ((j : ℕ) → find_version j versions_after ≡ after_activation iso clean 9 2 "2-t" versions t j)
    × ((j : ℕ) (u : Version ℕ) → find_version j versions_after ≡ some u → u.status ≡ active → j ≡ 2)
activate_version_only_example =
    activate_version_only iso clean 9 2 "2-t" versions (activated_row 9 (version 2 draft))
      versions_after versions-Distinct activation

-- ===== src/Atlas/Hierarchy.antt =====
-- apps/atlas/validation.py, `hierarchy_rule_issues` and `_witness_walk`: the cycles of the
-- hierarchy, found by one breadth-first search for each relation and direction.
pub mod Walks
pub mod Search
pub mod Witness
pub mod Arcs
pub mod Keys
pub mod Gate
use Prim.Native.String.{compare}
use taha_mohammadi_platform.Prelude.{
  ℕ, zero, suc, String, Option, none, some, List, [], ◌∷◌, ◌++◌, Bool, true, false, not, ◌&&◌, ◌||◌,
  ltb, leb, eqb, if◌then◌else◌, map,
}
use taha_mohammadi_platform.Prelude.Lists.{dedup, length, sort_by, text_eq}
use taha_mohammadi_platform.Atlas.Issues.{Issue, hierarchy_cycle, node_issue, text_le, issue_le}

-- The columns of AtlasNode and AtlasRelation that the rule reads; `hierarchy_role` is the column of
-- the relation's type.
pub record Node : Type 0 where
  pub pk : ℕ
  pub public_key : String

pub record Relation : Type 0 where
  pub pk : ℕ
  pub source : ℕ
  pub target : ℕ
  pub directed : Bool
  pub hierarchy_role : Bool

-- `pk in known`
unfoldable pub is_known : ℕ → List Node → Bool
is_known i [] = false
is_known i (node ∷ rest) = eqb node.pk i || is_known i rest

-- `known[pk].public_key`, asked of known nodes alone.
unfoldable pub key_of : List Node → ℕ → String
key_of [] i = ""
key_of (node ∷ rest) i = if eqb node.pk i then node.public_key else key_of rest i

-- `rows`: the subgraph.
unfoldable pub hierarchy_rows : List Node → List Relation → List Relation
hierarchy_rows nodes [] = []
hierarchy_rows nodes (r ∷ rest) =
    let others = hierarchy_rows nodes rest in
    if r.hierarchy_role && (is_known r.source nodes && is_known r.target nodes)
    then r ∷ others
    else others

-- The arcs of a node: a neighbour and the relation that leads to it.
unfoldable pub unsorted_arcs : List Relation → ℕ → List (ℕ × ℕ)
unsorted_arcs [] i = []
unsorted_arcs (r ∷ rest) i =
    (if eqb r.source i then (r.target, r.pk) ∷ [] else [])
    ++ ((if not r.directed && eqb r.target i then (r.source, r.pk) ∷ [] else [])
        ++ unsorted_arcs rest i)

abbrev pub arc_le : List Node → ℕ × ℕ → ℕ × ℕ → Bool
arc_le nodes a b = text_le (key_of nodes (a.0)) (key_of nodes (b.0)) (leb (a.1) (b.1))

-- `arcs`
unfoldable pub arcs_of : List Node → List Relation → ℕ → List (ℕ × ℕ)
arcs_of nodes rows i = sort_by (arc_le nodes) (unsorted_arcs rows i)

-- `neighbour_pk in previous`; the newest entry comes first.
unfoldable pub visited : ℕ → List (ℕ × ℕ) → Bool
visited i [] = false
visited i ((node, _) ∷ rest) = eqb node i || visited i rest

-- `previous[i]`, asked of visited nodes alone.
unfoldable pub previous_of : ℕ → List (ℕ × ℕ) → ℕ
previous_of i [] = i
previous_of i ((node, before) ∷ rest) = if eqb node i then before else previous_of i rest

-- How the inner loop ends: at the goal, or with what it added.
pub data Scan : Type 0 where
  found : List (ℕ × ℕ) → Scan
  scanned : List (ℕ × ℕ) → List ℕ → Scan

-- The loop over the arcs of one node.
unfoldable pub scan : (goal relation node : ℕ) → List (ℕ × ℕ) → List (ℕ × ℕ) → List ℕ → Scan
scan goal relation node [] previous queue = scanned previous queue
scan goal relation node ((next, by) ∷ arcs) previous queue =
    elim (eqb by relation || visited next previous) [
      | true ↦ scan goal relation node arcs previous queue
      | false ↦ elim (eqb next goal) [
        | true ↦ found ((next, node) ∷ previous)
        | false ↦ scan goal relation node arcs ((next, node) ∷ previous) (queue ++ next ∷ [])
      ]
    ]

-- The walk back from a visited node to the origin, on fuel: the number of visited nodes.
unfoldable pub walk_back : ℕ → List (ℕ × ℕ) → (origin node : ℕ) → List ℕ
walk_back zero previous origin node = node ∷ []
walk_back (suc fuel) previous origin node =
    let rest = walk_back fuel previous origin (previous_of node previous) in
    if eqb node origin then node ∷ [] else node ∷ rest

-- `walk.reverse()`
unfoldable pub reverse_onto : List ℕ → List ℕ → List ℕ
reverse_onto done [] = done
reverse_onto done (x ∷ xs) = reverse_onto (x ∷ done) xs

-- The loop over the queue, on fuel: one more than the number of nodes.
unfoldable pub search_walk :
    ℕ → (ℕ → List (ℕ × ℕ)) → (origin goal relation : ℕ) → List (ℕ × ℕ) → List ℕ → Option (List ℕ)
search_walk zero arcs origin goal relation previous queue = none
search_walk (suc fuel) arcs origin goal relation previous [] = none
search_walk (suc fuel) arcs origin goal relation previous (node ∷ queue) =
    elim (scan goal relation node (arcs node) previous queue) [
      | found seen ↦ some (reverse_onto [] (walk_back (length seen) seen origin goal))
      | scanned seen later ↦ search_walk fuel arcs origin goal relation seen later
    ]

-- `_witness_walk`
unfoldable pub witness_walk : ℕ → (ℕ → List (ℕ × ℕ)) → (origin goal relation : ℕ) → Option (List ℕ)
witness_walk fuel arcs origin goal relation =
    if eqb origin goal
    then some (origin ∷ [])
    else search_walk fuel arcs origin goal relation ((origin, origin) ∷ []) (origin ∷ [])

-- `min(known[node_pk].public_key for node_pk in walk)`; a walk is never empty.
unfoldable pub first_key : List Node → List ℕ → String
first_key nodes [] = ""
first_key nodes (i ∷ []) = key_of nodes i
first_key nodes (i ∷ j ∷ rest) =
    let other = first_key nodes (j ∷ rest) in
    if text_le (key_of nodes i) other true then key_of nodes i else other

-- `directions`
abbrev pub directions : Relation → List (ℕ × ℕ)
directions r = (r.target, r.source) ∷ (if r.directed then [] else (r.source, r.target) ∷ [])

abbrev pub fuel_for : List Node → ℕ
fuel_for nodes = suc (length nodes)

-- The keys that one relation adds to `reported`.
unfoldable pub keys_through : List Node → List Relation → ℕ → List (ℕ × ℕ) → List String
keys_through nodes rows relation [] = []
keys_through nodes rows relation ((origin, goal) ∷ rest) =
    let others = keys_through nodes rows relation rest in
    elim (witness_walk (fuel_for nodes) (arcs_of nodes rows) origin goal relation) [
      | none ↦ others
      | some walk ↦ first_key nodes walk ∷ others
    ]

unfoldable pub reported_keys : List Node → List Relation → List Relation → List String
reported_keys nodes rows [] = []
reported_keys nodes rows (r ∷ rest) =
    keys_through nodes rows r.pk (directions r) ++ reported_keys nodes rows rest

abbrev pub cycle_issue : String → Issue
cycle_issue key = node_issue hierarchy_cycle key

unfoldable pub hierarchy_rule_issues : List Node → List Relation → List Issue
hierarchy_rule_issues nodes relations =
    let rows = hierarchy_rows nodes relations in
    sort_by issue_le (map cycle_issue (dedup (reported_keys nodes rows rows)))

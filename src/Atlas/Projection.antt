-- ===== src/Atlas/Projection.antt =====
-- apps/atlas/validation.py: the canonical facts of a node, and the rules on locales and references
-- that read them.
pub mod Lookup
pub mod Sharing
pub mod Gaps
use taha_mohammadi_platform.Prelude.{
  ℕ, String, Option, none, some, List, [], ◌∷◌, ◌++◌, map, Bool, true, false, not, ◌&&◌, ◌||◌, ◌==◌,
  eqb, if◌then◌else◌, Result, ok, err,
}
use taha_mohammadi_platform.Prelude.Lists.{contains, sort_by, text_eq}
use taha_mohammadi_platform.Prelude.Text.{is_blank}
use taha_mohammadi_platform.Atlas.Issues.{
  Issue, issue_le, node_issue, group_issue, missing_locale_projection, group_locale_missing,
  canonical_source_missing, ambiguous_canonical_ref, canonical_source_unpublished,
}
use taha_mohammadi_platform.Atlas.Graph.{AtlasNode, AtlasGroup, NodeTranslation, GroupTranslation}
use taha_mohammadi_platform.Prelude.Filtered.{those}
use taha_mohammadi_platform.Atlas.Canonical.{
  CanonicalRow, CanonicalResolution, CanonicalError, unlisted, ambiguous, canonical_sources,
  default_locales, resolve_canonical, canonical_row_exists,
}

pub record NodeCanonicalFacts : Type 0 where
  pub covered : List String
  pub resolved : List (String × Option CanonicalResolution)
  pub ambiguous_in : List String
  pub unpublished : List String

-- `_covered_locales`
unfoldable pub covered_locales : AtlasNode → List String
covered_locales n = those (λ t. not (is_blank t.label_override)) (λ t. t.locale) n.translations

-- `resolved.get(locale)`
unfoldable pub resolved_at :
    List (String × Option CanonicalResolution) → String → Option CanonicalResolution
resolved_at [] locale = none
resolved_at ((l, r) ∷ resolved) locale =
    let later = resolved_at resolved locale in if l == locale then r else later

-- What one resolution adds: to the resolutions, or to the locales where it was ambiguous.
abbrev pub note :
    String
    → Result CanonicalError (Option CanonicalResolution)
    → List (String × Option CanonicalResolution) × List String
    → List (String × Option CanonicalResolution) × List String
note locale (ok r) (resolved, doubtful) = ((locale, r) ∷ resolved, doubtful)
note locale (err (ambiguous _ _ l _)) (resolved, doubtful) = (resolved, l ∷ doubtful)
note locale (err (unlisted _)) (resolved, doubtful) = (resolved, doubtful)

-- The first loop.
unfoldable pub resolve_each :
    List CanonicalRow
    → String
    → ℕ
    → List String
    → List (String × Option CanonicalResolution) × List String
resolve_each rows source key [] = ([], [])
resolve_each rows source key (locale ∷ locales) =
    note locale (resolve_canonical rows source (some key) locale)
      (resolve_each rows source key locales)

abbrev pub is_none : {A : Type 0} → Option A → Bool
is_none none = true
is_none (some _) = false

-- The second loop.
abbrev pub unpublished_in :
    List CanonicalRow
    → String
    → ℕ
    → List String
    → List (String × Option CanonicalResolution)
    → List String
    → List String
    → List String
unpublished_in rows source key covered resolved doubtful locales =
    those
      (λ l.
        not (contains doubtful l || (contains covered l || not (is_none (resolved_at resolved l))))
        && canonical_row_exists rows source key l)
      (λ l. l) locales

-- `_node_facts`; a source is asked for only when it is listed.
unfoldable pub node_facts : List CanonicalRow → AtlasNode → List String → Bool → NodeCanonicalFacts
node_facts rows n locales check_exists =
    let covered = covered_locales n in
    let absent : NodeCanonicalFacts = record {
      covered = covered;
      resolved = map (λ l. (l, none)) locales;
      ambiguous_in = [];
      unpublished = [];
    } in
    elim n.canonical_translation_key [
      | none ↦ absent
      | some key ↦
          let (resolved, doubtful) = resolve_each rows n.canonical_model key locales in
          if contains canonical_sources n.canonical_model
          then record {
            covered = covered;
            resolved = resolved;
            ambiguous_in = doubtful;
            unpublished =
                if check_exists
                then unpublished_in rows n.canonical_model key covered resolved doubtful locales
                else [];
          }
          else absent
    ]

-- `canonical_facts`
unfoldable pub canonical_facts : List CanonicalRow → List AtlasNode → List (ℕ × NodeCanonicalFacts)
canonical_facts rows nodes =
    those (λ n. n.visible) (λ n. (n.pk, node_facts rows n default_locales true)) nodes

-- `facts.get(pk)`
unfoldable pub shared_facts : List (ℕ × NodeCanonicalFacts) → ℕ → Option NodeCanonicalFacts
shared_facts [] pk = none
shared_facts ((i, f) ∷ facts) pk =
    let later = shared_facts facts pk in if eqb i pk then some f else later

-- `_facts_for`
unfoldable pub facts_for :
    List CanonicalRow
    → Option (List (ℕ × NodeCanonicalFacts))
    → AtlasNode
    → List String
    → Bool
    → NodeCanonicalFacts
facts_for rows none n locales check_exists = node_facts rows n locales check_exists
facts_for rows (some facts) n locales check_exists = elim (shared_facts facts n.pk) [
  | some shared ↦ shared
  | none ↦ node_facts rows n locales check_exists
]

-- `missing_locales`
abbrev pub missing_locales : AtlasNode → List String
missing_locales n = those (λ l. not (contains (covered_locales n) l)) (λ l. l) default_locales

-- The gaps of one node: one issue for each locale.
unfoldable pub node_gaps :
    List CanonicalRow → Option (List (ℕ × NodeCanonicalFacts)) → AtlasNode → List Issue
node_gaps rows facts n =
    let known = facts_for rows facts n (missing_locales n) false in
    those (λ l. not (contains known.ambiguous_in l) && is_none (resolved_at known.resolved l))
      (λ l. node_issue missing_locale_projection n.public_key) (missing_locales n)

-- The loop over the visible nodes.
unfoldable pub of_visible : (AtlasNode → List Issue) → List AtlasNode → List Issue
of_visible f [] = []
of_visible f (n ∷ nodes) = let rest = of_visible f nodes in if n.visible then f n ++ rest else rest

abbrev pub labelled : AtlasGroup → List String
labelled g = those (λ t. not (is_blank t.label)) (λ t. t.locale) g.translations

-- `set(DEFAULT_LOCALES) - labelled`
abbrev pub lacks_label : AtlasGroup → Bool
lacks_label g = not (contains (labelled g) "en" && contains (labelled g) "fa")

unfoldable pub validate_locale_projection :
    List CanonicalRow
    → Option (List (ℕ × NodeCanonicalFacts))
    → List AtlasNode
    → List AtlasGroup
    → List Issue
validate_locale_projection rows facts nodes groups = sort_by issue_le (
    of_visible (node_gaps rows facts) nodes
    ++ those lacks_label (λ g. group_issue group_locale_missing g.public_key) groups)

abbrev pub when_any : List String → Issue → List Issue
when_any [] i = []
when_any (_ ∷ _) i = i ∷ []

-- The defects of one node's reference, by its facts.
unfoldable pub defects_by : NodeCanonicalFacts → AtlasNode → List Issue
defects_by known n =
    if contains canonical_sources n.canonical_model
    then elim n.canonical_translation_key [
      | none ↦ node_issue canonical_source_missing n.public_key ∷ []
      | some _ ↦
          when_any known.ambiguous_in (node_issue ambiguous_canonical_ref n.public_key)
          ++ when_any known.unpublished (node_issue canonical_source_unpublished n.public_key)
    ]
    else []

unfoldable pub reference_defects :
    List CanonicalRow → Option (List (ℕ × NodeCanonicalFacts)) → AtlasNode → List Issue
reference_defects rows facts n = defects_by (facts_for rows facts n default_locales true) n

unfoldable pub validate_canonical_refs :
    List CanonicalRow → Option (List (ℕ × NodeCanonicalFacts)) → List AtlasNode → List Issue
validate_canonical_refs rows facts nodes =
    sort_by issue_le (of_visible (reference_defects rows facts) nodes)

-- ===== src/Atlas/Examples/Gates.antt =====
-- The theorems on relations, pins, visibility and locales, at two pages and two relations between
-- them, of which one is undirected.
use taha_mohammadi_platform.Prelude.{
  ℕ, String, Option, none, some, List, [], ◌∷◌, Bool, true, false, ◌≡◌, ◌↔◌, ◌⊎◌, refl, ok, map,
}
use taha_mohammadi_platform.Prelude.Lists.{In, contains, nat_eq, Distinct}
use taha_mohammadi_platform.Prelude.Split.{lacks}
use taha_mohammadi_platform.Prelude.Decimal.{pos}
use taha_mohammadi_platform.Prelude.Json.{Float, finite}
use taha_mohammadi_platform.Atlas.Issues.{
  duplicate_relation, Issue, node_issue, relation_issue, group_issue, invalid_pin,
  dangling_node_hidden_relation, missing_locale_projection, group_locale_missing,
}
use taha_mohammadi_platform.Atlas.Graph.{
  AtlasNode, AtlasRelation, AtlasRelationType, AtlasGroup, forbid, composed_key,
  relation_public_key,
}
use taha_mohammadi_platform.Atlas.Relations.{identity_eq, validate_relations}
use taha_mohammadi_platform.Atlas.Relations.Naming.{HasPlainKeys, composed_key-reported}
use taha_mohammadi_platform.Atlas.Relations.Gate.{IsRelationIssue, validate_relations_iff}
use taha_mohammadi_platform.Atlas.Gates.{validate_pins, validate_visibility}
use taha_mohammadi_platform.Atlas.Gates.Pins.{IsPinValid}
use taha_mohammadi_platform.Atlas.Gates.Verdicts.{
  IsHiddenNode, validate_pins_iff, validate_visibility_iff,
}
use taha_mohammadi_platform.Atlas.Canonical.{CanonicalRow}
use taha_mohammadi_platform.Atlas.Projection.{
  canonical_facts, validate_locale_projection, validate_canonical_refs,
}
use taha_mohammadi_platform.Atlas.Projection.Sharing.{sharing_changes_nothing}
use taha_mohammadi_platform.Atlas.Projection.Gaps.{
  IsGap, LacksLabel, validate_locale_projection_iff,
}

abbrev page : ℕ → String → Bool → Option Float → AtlasNode
page pk key visible x = record {
  pk = pk;
  version_id = 1;
  public_key = key;
  node_type = record { pk = 5; key = "page"; active = true };
  visible = visible;
  canonical_model = "project";
  canonical_translation_key = some 40;
  translations = record { locale = "fa"; label_override = "x"; summary_override = "" } ∷ [];
  pin_x = x;
  pin_y = x;
  pin_z = none;
}

abbrev first : AtlasNode
first = page 1 "a" true none

-- Its pin is 3 · 2 ^ 10, which is beyond 1000.
abbrev second : AtlasNode
second = page 2 "b" false (some (finite false 3 (pos 10)))

abbrev pages : List AtlasNode
pages = first ∷ second ∷ []

abbrev part_of : AtlasRelationType
part_of = record {
  pk = 7;
  key = "part";
  active = true;
  self_loop_policy = forbid;
  directed_default = true;
  overridable_direction = true;
  hierarchy_role = false;
}

abbrev forward : AtlasRelation
forward = record {
  pk = 1;
  source = first;
  target = second;
  relation_type = part_of;
  directed = true;
  visible = true;
}

-- The same pair, undirected and authored the other way.
abbrev backward : AtlasRelation
backward = record {
  pk = 2;
  source = second;
  target = first;
  relation_type = part_of;
  directed = false;
  visible = true;
}

abbrev links : List AtlasRelation
links = forward ∷ backward ∷ []

abbrev project : CanonicalRow
project = record {
  pk = 9;
  source = "project";
  translation_key = 40;
  locale = "en";
  is_public = true;
  title = "T";
  slug = "t";
  values = [];
}

abbrev group : AtlasGroup
group = record { public_key = "g"; translations = record { locale = "en"; label = "G" } ∷ [] }

pages-Distinct : Distinct (map (λ (n : AtlasNode). n.pk) pages)
unfolding contains
pages-Distinct = (refl, (refl, tt))

plain : HasPlainKeys forward × HasPlainKeys backward
unfolding lacks
plain = ((refl, refl, refl), (refl, refl, refl))

one_key : composed_key forward ≡ composed_key backward
unfolding composed_key relation_public_key
one_key = refl

validate_relations_iff_example :
    (issues : List Issue) × (validate_relations 1 links ((7, 5) ∷ []) [] ≡ ok issues)
    × ((i : Issue) → In i issues ↔ IsRelationIssue 1 ((7, 5) ∷ []) [] links i)
validate_relations_iff_example = validate_relations_iff 1 ((7, 5) ∷ []) [] links

composed_key-reported_example :
    (issues : List Issue) × (validate_relations 1 (forward ∷ backward ∷ []) [] [] ≡ ok issues)
    × In (relation_issue duplicate_relation (composed_key forward)) issues
composed_key-reported_example =
    composed_key-reported 1 [] [] [] [] [] forward backward (plain.0) (plain.1) one_key

validate_pins_iff_example : In (node_issue invalid_pin "b") (validate_pins pages) ↔ (
    (n : AtlasNode) × In n pages
    × ¬ (IsPinValid n.pin_x n.pin_y n.pin_z)
    × (node_issue invalid_pin "b" ≡ node_issue invalid_pin n.public_key))
validate_pins_iff_example = validate_pins_iff pages (node_issue invalid_pin "b")

abbrev dangling : Issue
dangling = relation_issue dangling_node_hidden_relation (composed_key forward)

validate_visibility_iff_example : In dangling (validate_visibility pages links) ↔ (
    (r : AtlasRelation) × In r links
    × (r.visible ≡ true)
    × (IsHiddenNode pages r.source.pk ⊎ IsHiddenNode pages r.target.pk)
    × (dangling ≡ relation_issue dangling_node_hidden_relation (composed_key r)))
validate_visibility_iff_example = validate_visibility_iff pages links dangling pages-Distinct

sharing_changes_nothing_example :
    (validate_locale_projection
        (project ∷ [])
        (some (canonical_facts (project ∷ []) pages))
        pages
        (group ∷ [])
      ≡ validate_locale_projection (project ∷ []) none pages (group ∷ []))
    × (validate_canonical_refs (project ∷ []) (some (canonical_facts (project ∷ []) pages)) pages
        ≡ validate_canonical_refs (project ∷ []) none pages)
sharing_changes_nothing_example =
    sharing_changes_nothing (project ∷ []) pages (group ∷ []) pages-Distinct

validate_locale_projection_iff_example :
    In
      (group_issue group_locale_missing "g")
      (validate_locale_projection (project ∷ []) none pages (group ∷ []))
    ↔ (((n : AtlasNode) × In n pages
          × (n.visible ≡ true)
          × ((l : String) × IsGap (project ∷ []) n l
              × (group_issue group_locale_missing "g"
                  ≡ node_issue missing_locale_projection n.public_key)))
        ⊎ ((g : AtlasGroup) × In g (group ∷ [])
            × LacksLabel g
            × (group_issue group_locale_missing "g"
                ≡ group_issue group_locale_missing g.public_key)))
validate_locale_projection_iff_example =
    validate_locale_projection_iff (project ∷ []) pages (group ∷ [])
      (group_issue group_locale_missing "g")

-- ===== src/Atlas/Gates.antt =====
-- apps/atlas/validation.py: the rules on visibility, retired types, stored coordinates and pins.
pub mod Pins
pub mod Verdicts
use taha_mohammadi_platform.Prelude.{
  ℕ, String, Option, none, some, List, [], ◌∷◌, map, Bool, true, false, not, ◌&&◌, ◌||◌, eqb,
  if◌then◌else◌,
}
use taha_mohammadi_platform.Prelude.Lists.{sort_by}
use taha_mohammadi_platform.Prelude.Filtered.{those}
use taha_mohammadi_platform.Prelude.Json.{
  Float, isfinite, beyond, Json, null, boolean, integer, number, text, array, object, Items, Fields,
  items, get,
}
use taha_mohammadi_platform.Atlas.Issues.{
  Issue, issue_le, node_issue, relation_issue, dangling_node_hidden_relation, node_type_inactive,
  missing_layout, invalid_pin,
}
use taha_mohammadi_platform.Atlas.Graph.{AtlasNode, AtlasRelation, composed_key}

-- `visibility.get(pk)`
unfoldable pub visibility_of : List AtlasNode → ℕ → Option Bool
visibility_of [] pk = none
visibility_of (node ∷ nodes) pk =
    let later = visibility_of nodes pk in if eqb node.pk pk then some node.visible else later

-- `endpoint.pk in visibility and not visibility[endpoint.pk]`
abbrev pub is_hidden : List AtlasNode → ℕ → Bool
is_hidden nodes pk = elim (visibility_of nodes pk) [ none ↦ false | some v ↦ not v ]

unfoldable pub validate_visibility : List AtlasNode → List AtlasRelation → List Issue
validate_visibility nodes relations = sort_by issue_le (
    those (λ r. r.visible && (is_hidden nodes r.source.pk || is_hidden nodes r.target.pk))
      (λ r. relation_issue dangling_node_hidden_relation (composed_key r)) relations)

unfoldable pub validate_taxonomy : List AtlasNode → List Issue
validate_taxonomy nodes =
    sort_by issue_le
      (those (λ n. not n.node_type.active) (λ n. node_issue node_type_inactive n.public_key) nodes)

-- One item of a stored coordinate is a finite number. Integers are within the range of a float.
abbrev pub is_axis : Json → Bool
is_axis (integer _) = true
is_axis (number v) = isfinite v
is_axis _ = false

abbrev pub is_coordinate : List Json → Bool
is_coordinate (x ∷ y ∷ z ∷ []) = is_axis x && (is_axis y && is_axis z)
is_coordinate _ = false

-- `_stored_coordinate(layout, key) is not None`
abbrev pub has_coordinate : Option Json → Bool
unfolding items
has_coordinate (some (array values)) = is_coordinate (items values)
has_coordinate _ = false

-- `version.layout if isinstance(version.layout, Mapping) else {}`, asked for a key.
abbrev pub layout_get : Json → String → Option Json
unfolding get
layout_get (object fields) key = get fields key
layout_get _ key = none

unfoldable pub validate_layout : List AtlasNode → Json → List Issue
validate_layout nodes layout = sort_by issue_le (
    those (λ n. n.visible && not (has_coordinate (layout_get layout n.public_key)))
      (λ n. node_issue missing_layout n.public_key) nodes)

abbrev pub pin_bound : ℕ
pin_bound = 1000

abbrev pub is_some : Option Float → Bool
is_some none = false
is_some (some _) = true

-- `not math.isfinite(value) or abs(value) > PIN_BOUND`, of a value that is set.
abbrev pub off_scene : Option Float → Bool
off_scene none = false
off_scene (some v) = not (isfinite v) || beyond pin_bound v

abbrev pub xor : Bool → Bool → Bool
xor true b = not b
xor false b = b

-- `_pin_defect`
unfoldable pub pin_defect : AtlasNode → Bool
pin_defect n =
    if xor (is_some n.pin_x) (is_some n.pin_y)
    then true
    else if not (is_some n.pin_x) && is_some n.pin_z
    then true
    else off_scene n.pin_x || (off_scene n.pin_y || off_scene n.pin_z)

unfoldable pub validate_pins : List AtlasNode → List Issue
validate_pins nodes =
    sort_by issue_le (those (λ n. pin_defect n) (λ n. node_issue invalid_pin n.public_key) nodes)

-- ===== src/Atlas/Issues.antt =====
-- apps/atlas/validation.py: the issue codes, their message tokens, and the issues in their stable
-- order.
use Prim.Native.String.{compare}
use Prim.Native.Nat.{Ordering}
use taha_mohammadi_platform.Prelude.{String, Option, none, some, Bool, true, false}
use taha_mohammadi_platform.Prelude.Text.{or_else}

-- BLOCKING_CODES, then WARNING_CODES
pub data Code : Type 0 where
  dangling_node_hidden_relation : Code
  dangling_relation_endpoint : Code
  canonical_source_missing : Code
  canonical_source_unpublished : Code
  missing_locale_projection : Code
  ambiguous_canonical_ref : Code
  node_type_inactive : Code
  relation_type_inactive : Code
  relation_type_not_allowed : Code
  hierarchy_cycle : Code
  self_loop_forbidden : Code
  duplicate_public_key : Code
  duplicate_relation : Code
  invalid_pin : Code
  missing_layout : Code
  group_locale_missing : Code
  payload_contract_invalid : Code
  direction_not_overridable : Code
  isolated_node : Code
  no_inbound_relations : Code
  no_outbound_relations : Code
  high_degree_hub : Code
  summary_missing : Code
  unused_node_type : Code
  unused_relation_type : Code
  overlapping_pins : Code
  scale_nodes : Code
  scale_relations : Code
  single_level_hierarchy : Code

unfoldable pub code_text : Code → String
code_text dangling_node_hidden_relation = "DANGLING_NODE_HIDDEN_RELATION"
code_text dangling_relation_endpoint = "DANGLING_RELATION_ENDPOINT"
code_text canonical_source_missing = "CANONICAL_SOURCE_MISSING"
code_text canonical_source_unpublished = "CANONICAL_SOURCE_UNPUBLISHED"
code_text missing_locale_projection = "MISSING_LOCALE_PROJECTION"
code_text ambiguous_canonical_ref = "AMBIGUOUS_CANONICAL_REF"
code_text node_type_inactive = "NODE_TYPE_INACTIVE"
code_text relation_type_inactive = "RELATION_TYPE_INACTIVE"
code_text relation_type_not_allowed = "RELATION_TYPE_NOT_ALLOWED"
code_text hierarchy_cycle = "HIERARCHY_CYCLE"
code_text self_loop_forbidden = "SELF_LOOP_FORBIDDEN"
code_text duplicate_public_key = "DUPLICATE_PUBLIC_KEY"
code_text duplicate_relation = "DUPLICATE_RELATION"
code_text invalid_pin = "INVALID_PIN"
code_text missing_layout = "MISSING_LAYOUT"
code_text group_locale_missing = "GROUP_LOCALE_MISSING"
code_text payload_contract_invalid = "PAYLOAD_CONTRACT_INVALID"
code_text direction_not_overridable = "DIRECTION_NOT_OVERRIDABLE"
code_text isolated_node = "ISOLATED_NODE"
code_text no_inbound_relations = "NO_INBOUND_RELATIONS"
code_text no_outbound_relations = "NO_OUTBOUND_RELATIONS"
code_text high_degree_hub = "HIGH_DEGREE_HUB"
code_text summary_missing = "SUMMARY_MISSING"
code_text unused_node_type = "UNUSED_NODE_TYPE"
code_text unused_relation_type = "UNUSED_RELATION_TYPE"
code_text overlapping_pins = "OVERLAPPING_PINS"
code_text scale_nodes = "SCALE_NODES"
code_text scale_relations = "SCALE_RELATIONS"
code_text single_level_hierarchy = "SINGLE_LEVEL_HIERARCHY"

-- _MESSAGE_TOKENS
unfoldable pub message_token_of : Code → String
message_token_of dangling_node_hidden_relation = "atlas.danglingNodeHiddenRelation"
message_token_of dangling_relation_endpoint = "atlas.danglingRelationEndpoint"
message_token_of canonical_source_missing = "atlas.canonicalSourceMissing"
message_token_of canonical_source_unpublished = "atlas.canonicalSourceUnpublished"
message_token_of missing_locale_projection = "atlas.missingLocaleProjection"
message_token_of ambiguous_canonical_ref = "atlas.ambiguousCanonicalRef"
message_token_of node_type_inactive = "atlas.nodeTypeInactive"
message_token_of relation_type_inactive = "atlas.relationTypeInactive"
message_token_of relation_type_not_allowed = "atlas.relationTypeNotAllowed"
message_token_of hierarchy_cycle = "atlas.hierarchyCycle"
message_token_of self_loop_forbidden = "atlas.selfLoopForbidden"
message_token_of duplicate_public_key = "atlas.duplicatePublicKey"
message_token_of duplicate_relation = "atlas.duplicateRelation"
message_token_of invalid_pin = "atlas.invalidPin"
message_token_of missing_layout = "atlas.missingLayout"
message_token_of group_locale_missing = "atlas.groupLocaleMissing"
message_token_of payload_contract_invalid = "atlas.payloadContractInvalid"
message_token_of direction_not_overridable = "atlas.directionNotOverridable"
message_token_of isolated_node = "atlas.isolatedNode"
message_token_of no_inbound_relations = "atlas.noInboundRelations"
message_token_of no_outbound_relations = "atlas.noOutboundRelations"
message_token_of high_degree_hub = "atlas.highDegreeHub"
message_token_of summary_missing = "atlas.summaryMissing"
message_token_of unused_node_type = "atlas.unusedNodeType"
message_token_of unused_relation_type = "atlas.unusedRelationType"
message_token_of overlapping_pins = "atlas.overlappingPins"
message_token_of scale_nodes = "atlas.scaleNodes"
message_token_of scale_relations = "atlas.scaleRelations"
message_token_of single_level_hierarchy = "atlas.singleLevelHierarchy"

pub record Issue : Type 0 where
  pub code : Code
  pub node_key : Option String
  pub relation_key : Option String
  pub group_key : Option String
  pub message_token : String

-- `_issue` with a node key
abbrev pub node_issue : Code → String → Issue
node_issue c key = record {
  code = c;
  node_key = some key;
  relation_key = none;
  group_key = none;
  message_token = message_token_of c;
}

-- One text after another, as Python compares a tuple: `then` decides when the two are equal.
abbrev pub text_le : String → String → Bool → Bool
text_le a b then = elim (compare a b) [
  | Ordering.lt ↦ true
  | Ordering.gt ↦ false
  | Ordering.eq ↦ then
]

-- The order of `_sort_key`.
unfoldable pub issue_le : Issue → Issue → Bool
unfolding code_text or_else
issue_le a b = text_le (code_text a.code) (code_text b.code) (
    text_le (or_else a.relation_key "") (or_else b.relation_key "") (
      text_le (or_else a.node_key "") (or_else b.node_key "")
        (text_le (or_else a.group_key "") (or_else b.group_key "") true)))

-- `_issue` with a relation key, with a group key, and with none.
abbrev pub relation_issue : Code → String → Issue
relation_issue c key = record {
  code = c;
  node_key = none;
  relation_key = some key;
  group_key = none;
  message_token = message_token_of c;
}

abbrev pub group_issue : Code → String → Issue
group_issue c key = record {
  code = c;
  node_key = none;
  relation_key = none;
  group_key = some key;
  message_token = message_token_of c;
}

abbrev pub bare_issue : Code → Issue
bare_issue c = record {
  code = c;
  node_key = none;
  relation_key = none;
  group_key = none;
  message_token = message_token_of c;
}

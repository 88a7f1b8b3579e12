-- ===== src/Atlas/Examples/Payload.antt =====
-- The theorems on payloads, at a payload with one node and one relation.
use taha_mohammadi_platform.Prelude.{String, some, [], true, ◌≡◌, refl, ok, err}
use taha_mohammadi_platform.Prelude.Lists.{contains, text_eq, sort_by}
use taha_mohammadi_platform.Prelude.Split.{split, lacks}
use taha_mohammadi_platform.Prelude.Decimal.{pos}
use taha_mohammadi_platform.Prelude.Json.{
  Json, integer, text, array, object, no_items, item, Fields, no_fields, field, items, get,
}
use taha_mohammadi_platform.Atlas.Keys.{
  all_key_chars, is_valid_public_key, all_taxonomy_chars, is_valid_relation_public_key,
  is_payload_entity_key,
}
use taha_mohammadi_platform.Atlas.Payload.{
  unhashable, absent_fields, entity_key, collect, payload_collection, coordinate_defect,
  known_entry, node_defects, all_in, relation_defects, group_defects, over, over_list, equals_count,
  count_issues, envelope_issues, payload_issues, validate_payload_contract,
}
use taha_mohammadi_platform.Atlas.Payload.Contract.{IsServable}
use taha_mohammadi_platform.Atlas.Payload.Served.{validate_payload_contract-IsServable}
use taha_mohammadi_platform.Atlas.Payload.Unhashable.{type_list_raises}

abbrev one : Json → Json
one v = array (item v no_items)

abbrev keyed : String → Fields → Json
keyed key rest = object (field "key" (text key) rest)

abbrev zero_point : Json
zero_point = object (
    field "x" (integer (pos 0))
      (field "y" (integer (pos 0)) (field "z" (integer (pos 0)) no_fields)))

abbrev node : Json
node = keyed "page-1" (field "type" (text "page") (field "position" zero_point no_fields))

abbrev relation : Json
relation = keyed "page-1~links~page-1" (
    field "type" (text "links")
      (field "source" (text "page-1") (field "target" (text "page-1") no_fields)))

abbrev version : Json
version = object (
    field "id" (integer (pos 3))
      (field "nodeCount" (integer (pos 1)) (field "relationCount" (integer (pos 1)) no_fields)))

abbrev payload : Json → Fields
payload n = field "contractVersion" (text "1") (
    field "locale" (text "fa") (
      field "version" version (
        field "nodeTypes" (one (keyed "page" no_fields)) (
          field "relationTypes" (one (keyed "links" no_fields)) (
            field "groups" (array no_items)
              (field "nodes" (one n) (field "relations" (one relation) no_fields)))))))

accepted : validate_payload_contract (object (payload node)) ≡ ok []
unfolding validate_payload_contract payload_issues envelope_issues absent_fields payload_collection
    collect entity_key over_list over node_defects relation_defects group_defects known_entry all_in
    count_issues equals_count coordinate_defect get items contains sort_by is_payload_entity_key
    is_valid_relation_public_key is_valid_public_key all_key_chars all_taxonomy_chars lacks split
accepted = refl

validate_payload_contract-IsServable_example : IsServable (payload node)
validate_payload_contract-IsServable_example =
    validate_payload_contract-IsServable (payload node) accepted

abbrev odd_fields : Fields
odd_fields = field "key" (text "page-1") (field "type" (array no_items) no_fields)

odd_key : (entity_key (object odd_fields) ≡ some "page-1") × (is_payload_entity_key "page-1" ≡ true)
unfolding entity_key get is_payload_entity_key is_valid_public_key all_key_chars lacks
odd_key = (refl, refl)

odd_nodes :
    (get (payload (object odd_fields)) "nodes" ≡ some (array (item (object odd_fields) no_items)))
    × (get odd_fields "type" ≡ some (array no_items))
unfolding get
odd_nodes = (refl, refl)

type_list_raises_example :
    validate_payload_contract (object (payload (object odd_fields))) ≡ err unhashable
type_list_raises_example =
    type_list_raises (payload (object odd_fields)) odd_fields no_items no_items "page-1"
      (odd_nodes.0) (odd_key.0) (odd_key.1) (odd_nodes.1)

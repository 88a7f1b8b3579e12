-- ===== src/Atlas/Payload/Unhashable.antt =====
-- A node whose type is a list, in `validate_payload_contract`.
use taha_mohammadi_platform.Prelude.{
  String, Option, some, List, [], ◌∷◌, Bool, true, ◌≡◌, refl, inl, inr, Bool-cases, Option-cases,
  Result, err,
}
use taha_mohammadi_platform.Prelude.Lists.{In, contains, text_eq}
use taha_mohammadi_platform.Prelude.Json.{Json, array, object, Items, item, Fields, items, get}
use taha_mohammadi_platform.Atlas.Issues.{Issue}
use taha_mohammadi_platform.Atlas.Keys.{is_payload_entity_key}
use taha_mohammadi_platform.Atlas.Payload.{
  TypeError, unhashable, Attribute, no_attribute, node_key, entity_key, usable, collect,
  payload_collection, node_defects, over, over_list, payload_issues, validate_payload_contract,
}
use taha_mohammadi_platform.Atlas.Payload.Contract.{entry-known}

collect-keeps :
    (grammar : String → Bool) (kind : Attribute) (keys : List String) (entries : List Json)
    (k : String)
    → In k keys
    → In k (collect grammar kind keys entries).0
unfolding collect
collect-keeps grammar kind keys [] k m = m
collect-keeps grammar kind keys (e ∷ entries) k m =
    elim (Option-cases (usable grammar (entity_key e))) [
      | inl unusable ↦ rw (collect, unusable) (collect-keeps grammar kind keys entries k m)
      | inr (j, is) ↦ elim (Bool-cases (contains keys j)) [
        | inl twice ↦ rw (collect, is, twice) (collect-keeps grammar kind keys entries k m)
        | inr fresh ↦
            rw (collect, is, fresh) (collect-keeps grammar kind (j ∷ keys) entries k (inr m))
      ]
    ]

-- The key of the first node is found.
first_found :
    (grammar : String → Bool) (kind : Attribute) (e : Json) (entries : List Json) (k : String)
    → entity_key e ≡ some k
    → grammar k ≡ true
    → In k (collect grammar kind [] (e ∷ entries)).0
unfolding collect contains
first_found grammar kind e entries k named good =
    rw (collect, named, good) (collect-keeps grammar kind (k ∷ []) entries k (inl refl))

node_defects-raises :
    (type_keys keys : List String) (e : Fields) (k : String) (types : Items)
    → entity_key (object e) ≡ some k
    → In k keys
    → get e "type" ≡ some (array types)
    → node_defects type_keys keys (object e) ≡ err unhashable
unfolding node_defects
node_defects-raises type_keys keys e k types named m listed =
    let (n, is, known) = entry-known keys (object e) k named m in
    let same : n ≡ e = cc is in rw (node_defects, known, same, listed) refl

over_list-raises :
    (f : Json → Result TypeError (List Issue)) (o : Option Json) (e : Json) (rest : Items)
    → o ≡ some (array (item e rest))
    → f e ≡ err unhashable
    → over_list f o ≡ err unhashable
unfolding over_list over items
over_list-raises f o e rest is raised = rw (is, raised) refl

-- The exception. A payload whose first node has a key of the grammar, and a list where its type
-- should be, is not reported as malformed: the check raises TypeError.
pub type_list_raises :
    (p e : Fields) (rest types : Items) (k : String)
    → get p "nodes" ≡ some (array (item (object e) rest))
    → entity_key (object e) ≡ some k
    → is_payload_entity_key k ≡ true
    → get e "type" ≡ some (array types)
    → validate_payload_contract (object p) ≡ err unhashable
unfolding validate_payload_contract payload_issues payload_collection items
type_list_raises p e rest types k nodes named good listed =
    let type_keys = (payload_collection is_payload_entity_key no_attribute (get p "nodeTypes")).0 in
    let keys = (payload_collection is_payload_entity_key node_key (get p "nodes")).0 in
    let known : In k keys =
      rw nodes (first_found is_payload_entity_key node_key (object e) (items rest) k named good) in
    let raised =
      over_list-raises (node_defects type_keys keys) (get p "nodes") (object e) rest nodes
        (node_defects-raises type_keys keys e k types named known listed) in
    rw raised refl

-- ===== src/Atlas/Payload.antt =====
-- apps/atlas/validation.py: `validate_payload_contract`, the check of a payload before it is served.
pub mod Collections
pub mod Contract
pub mod Served
pub mod Unhashable
use taha_mohammadi_platform.Prelude.{
  ℕ, zero, suc, ◌*◌, String, Option, none, some, List, [], ◌∷◌, ◌++◌, Bool, true, false, not, ◌&&◌,
  ◌||◌, ◌==◌, eqb, if◌then◌else◌, Result, ok, err, ◌>>=◌,
}
use taha_mohammadi_platform.Prelude.Lists.{contains, length, sort_by, text_eq}
use taha_mohammadi_platform.Prelude.Decimal.{ℤ, pos, negsuc}
use taha_mohammadi_platform.Prelude.Json.{
  Float, nan, infinite, finite, isfinite, power_of_two, Json, null, boolean, integer, number, text,
  array, object, Items, Fields, items, get,
}
use taha_mohammadi_platform.Atlas.Issues.{
  Issue, issue_le, node_issue, relation_issue, group_issue, bare_issue, payload_contract_invalid,
  duplicate_public_key, missing_layout,
}
use taha_mohammadi_platform.Atlas.Canonical.{default_locales}
use taha_mohammadi_platform.Atlas.Gates.{is_axis}
use taha_mohammadi_platform.Atlas.Relations.{when}
use taha_mohammadi_platform.Atlas.Keys.{is_payload_entity_key, is_valid_relation_public_key}

-- A list or a mapping is asked for in a set.
pub data TypeError : Type 0 where
  unhashable : TypeError

-- `value in keys`, of what `get` answered.
abbrev pub in_keys : Option Json → List String → Result TypeError Bool
in_keys (some (text t)) keys = ok (contains keys t)
in_keys (some (array _)) keys = err unhashable
in_keys (some (object _)) keys = err unhashable
in_keys _ keys = ok false

-- `_PAYLOAD_FIELDS`
abbrev pub payload_fields : List String
payload_fields =
    "contractVersion" ∷ "locale" ∷ "version" ∷ "nodeTypes" ∷ "relationTypes" ∷ "groups" ∷ "nodes"
    ∷ "relations" ∷ []

abbrev pub defect : Issue
defect = bare_issue payload_contract_invalid

abbrev pub is_absent : Option Json → Bool
is_absent none = true
is_absent (some _) = false

unfoldable pub absent_fields : Fields → List String → List Issue
absent_fields p [] = []
absent_fields p (required ∷ rest) = when (is_absent (get p required)) defect ++ absent_fields p rest

abbrev pub is_word : Option Json → Bool
is_word (some (text t)) = not (t == "")
is_word _ = false

abbrev pub is_locale : Option Json → Bool
is_locale (some (text t)) = contains default_locales t
is_locale _ = false

-- `value.get(…) is not None`
abbrev pub is_given : Option Json → Bool
is_given none = false
is_given (some null) = false
is_given (some _) = true

abbrev pub has_id : Option Json → Bool
unfolding get
has_id (some (object block)) = is_given (get block "id")
has_id _ = false

-- `_payload_entity_key`
abbrev pub word_of : Option Json → Option String
word_of (some (text t)) = if t == "" then none else some t
word_of _ = none

unfoldable pub entity_key : Json → Option String
entity_key (object entry) = word_of (get entry "key")
entity_key _ = none

-- The attribute of an issue that a collection's keys belong to.
pub data Attribute : Type 0 where
  no_attribute node_key relation_key group_key : Attribute

unfoldable pub repeated : Attribute → String → Issue
repeated no_attribute key = defect
repeated node_key key = node_issue duplicate_public_key key
repeated relation_key key = relation_issue duplicate_public_key key
repeated group_key key = group_issue duplicate_public_key key

-- The key of an entry, when it has one of the grammar.
abbrev pub usable : (String → Bool) → Option String → Option String
usable grammar none = none
usable grammar (some key) = if grammar key then some key else none

-- The loop of `_payload_collection`: the keys found, the newest first, and the issues.
unfoldable pub collect :
    (String → Bool) → Attribute → List String → List Json → List String × List Issue
collect grammar kind keys [] = (keys, [])
collect grammar kind keys (entry ∷ entries) =
    let (bad_keys, bad) = collect grammar kind keys entries in
    elim (usable grammar (entity_key entry)) [
      | none ↦ (bad_keys, defect ∷ bad)
      | some key ↦
          let (new_keys, new) = collect grammar kind (key ∷ keys) entries in
          if contains keys key then (bad_keys, repeated kind key ∷ bad) else (new_keys, new)
    ]

-- `_payload_collection`
unfoldable pub payload_collection :
    (String → Bool) → Attribute → Option Json → List String × List Issue
payload_collection grammar kind (some (array entries)) = collect grammar kind [] (items entries)
payload_collection grammar kind _ = ([], defect ∷ [])

pub data Position : Type 0 where
  fine missing broken : Position

abbrev pub has_axis : Option Json → Bool
has_axis none = false
has_axis (some v) = is_axis v

-- `_coordinate_defect`
unfoldable pub coordinate_defect : Option Json → Position
coordinate_defect none = missing
coordinate_defect (some null) = missing
coordinate_defect (some (object position)) =
    if has_axis (get position "x") && (has_axis (get position "y") && has_axis (get position "z"))
    then fine
    else broken
coordinate_defect (some _) = broken

abbrev pub position_issues : Position → String → List Issue
position_issues fine key = []
position_issues missing key = node_issue missing_layout key ∷ []
position_issues broken key = node_issue payload_contract_invalid key ∷ []

-- An entry that the loops look at: a mapping whose key is among those found.
unfoldable pub known_entry : List String → Json → Option (String × Fields)
known_entry keys (object entry) = elim (word_of (get entry "key")) [
  | none ↦ none
  | some key ↦ if contains keys key then some (key, entry) else none
]
known_entry keys _ = none

-- What is said of one node.
unfoldable pub node_defects : List String → List String → Json → Result TypeError (List Issue)
node_defects types keys entry = elim (known_entry keys entry) [
  | none ↦ ok []
  | some (key, e) ↦ do
    typed ← in_keys (get e "type") types
    ok (
        if typed
        then position_issues (coordinate_defect (get e "position")) key
        else node_issue payload_contract_invalid key ∷ [])
]

-- `a not in x or b not in y or …`, which stops at the first that is not.
unfoldable pub all_in : List (Option Json × List String) → Result TypeError Bool
all_in [] = ok true
all_in ((value, keys) ∷ rest) = do
  here ← in_keys value keys
  elim here [ true ↦ all_in rest | false ↦ ok false ]

unfoldable pub relation_defects :
    List String → List String → List String → Json → Result TypeError (List Issue)
relation_defects types nodes keys entry = elim (known_entry keys entry) [
  | none ↦ ok []
  | some (key, e) ↦ do
    fit ← all_in ((get e "type", types) ∷ (get e "source", nodes) ∷ (get e "target", nodes) ∷ [])
    ok (when (not fit) (relation_issue payload_contract_invalid key))
]

abbrev pub asked_in : List String → List Json → List (Option Json × List String)
asked_in keys [] = []
asked_in keys (m ∷ members) = (some m, keys) ∷ asked_in keys members

unfoldable pub members_in : List String → Option Json → Result TypeError Bool
members_in nodes (some (array members)) = all_in (asked_in nodes (items members))
members_in nodes _ = ok false

unfoldable pub group_defects : List String → List String → Json → Result TypeError (List Issue)
group_defects nodes keys entry = elim (known_entry keys entry) [
  | none ↦ ok []
  | some (key, e) ↦ do
    fit ← members_in nodes (get e "nodeKeys")
    ok (when (not fit) (group_issue payload_contract_invalid key))
]

-- A loop over the entries of a collection.
unfoldable pub over :
    (Json → Result TypeError (List Issue)) → List Json → Result TypeError (List Issue)
over f [] = ok []
over f (entry ∷ entries) = do here ← f entry; later ← over f entries; ok (here ++ later)

unfoldable pub over_list :
    (Json → Result TypeError (List Issue)) → Option Json → Result TypeError (List Issue)
over_list f (some (array entries)) = over f (items entries)
over_list f _ = ok []

abbrev pub length_of : Option Json → Option ℕ
unfolding items
length_of (some (array entries)) = some (length (items entries))
length_of _ = none

-- `value == count` of Python: a truth value is a number, and so is a whole floating-point number.
unfoldable pub equals_count : Option Json → Option ℕ → Bool
equals_count none none = true
equals_count (some null) none = true
equals_count (some (boolean true)) (some n) = eqb n 1
equals_count (some (boolean false)) (some n) = eqb n 0
equals_count (some (integer (pos m))) (some n) = eqb m n
equals_count (some (number (finite negative m (pos e)))) (some n) =
    (not negative || eqb m 0) && eqb (m * power_of_two e) n
equals_count (some (number (finite negative m (negsuc e)))) (some n) =
    (not negative || eqb m 0) && eqb m (n * power_of_two (suc e))
equals_count _ _ = false

unfoldable pub count_issues : Fields → List Issue
count_issues p = elim (get p "version") [
  | some (object block) ↦
      when
        (not (
          equals_count (get block "nodeCount") (length_of (get p "nodes"))
          && equals_count (get block "relationCount") (length_of (get p "relations"))))
        defect
  | _ ↦ []
]

-- The checks of the envelope.
unfoldable pub envelope_issues : Fields → List Issue
envelope_issues p =
    absent_fields p payload_fields
    ++ (when (not (is_word (get p "contractVersion"))) defect
        ++ (when (not (is_locale (get p "locale"))) defect
            ++ when (not (has_id (get p "version"))) defect))

unfoldable pub payload_issues : Fields → Result TypeError (List Issue)
payload_issues p =
    let (node_types, type_issues) =
      payload_collection is_payload_entity_key no_attribute (get p "nodeTypes") in
    let (relation_types, type_issues') =
      payload_collection is_payload_entity_key no_attribute (get p "relationTypes") in
    let (nodes, node_issues) = payload_collection is_payload_entity_key node_key (get p "nodes") in
    let (groups, group_issues) =
      payload_collection is_payload_entity_key group_key (get p "groups") in
    let (relations, relation_issues) =
      payload_collection is_valid_relation_public_key relation_key (get p "relations") in
    do
      of_nodes ← over_list (node_defects node_types nodes) (get p "nodes")
      of_relations ← over_list (relation_defects relation_types nodes relations) (get p "relations")
      of_groups ← over_list (group_defects nodes groups) (get p "groups")
      ok (
          envelope_issues p
          ++ (type_issues
              ++ (type_issues'
                  ++ (node_issues
                      ++ (group_issues
                          ++ (relation_issues
                              ++ (of_nodes ++ (of_relations ++ (of_groups ++ count_issues p)))))))))

unfoldable pub validate_payload_contract : Json → Result TypeError (List Issue)
validate_payload_contract (object p) = do issues ← payload_issues p; ok (sort_by issue_le issues)
validate_payload_contract _ = ok (defect ∷ [])

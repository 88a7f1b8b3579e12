-- ===== src/Atlas/Payload/Served.antt =====
-- The verdict of `validate_payload_contract` on a payload in which nothing is found.
use taha_mohammadi_platform.Prelude.{String, List, [], ◌++◌, ◌≡◌, ap, ◌∙◌, ok, ◌>>=◌, bind-eq-ok}
use taha_mohammadi_platform.Prelude.Lists.{All-In, All-of_In, sort_by}
use taha_mohammadi_platform.Prelude.Json.{object, Fields, items, get}
use taha_mohammadi_platform.Atlas.Issues.{Issue, issue_le}
use taha_mohammadi_platform.Atlas.Keys.{is_payload_entity_key, is_valid_relation_public_key}
use taha_mohammadi_platform.Atlas.Payload.{
  no_attribute, node_key, relation_key, group_key, payload_collection, node_defects,
  relation_defects, group_defects, over_list, envelope_issues, count_issues, payload_issues,
  validate_payload_contract,
}
use taha_mohammadi_platform.Atlas.Payload.Collections.{append-nil, sort_by-nil, key_texts, HasKey}
use taha_mohammadi_platform.Atlas.Payload.Contract.{
  NodeFits, RelationFits, IsServable, Resolves-imp, node_defects-clean, relation_defects-clean,
  over_array, collection-Clean, key-In,
}

module _ (p : Fields) where
  abbrev node_types : List String × List Issue
  node_types = payload_collection is_payload_entity_key no_attribute (get p "nodeTypes")

  abbrev relation_types : List String × List Issue
  relation_types = payload_collection is_payload_entity_key no_attribute (get p "relationTypes")

  abbrev nodes : List String × List Issue
  nodes = payload_collection is_payload_entity_key node_key (get p "nodes")

  abbrev groups : List String × List Issue
  groups = payload_collection is_payload_entity_key group_key (get p "groups")

  abbrev relations : List String × List Issue
  relations = payload_collection is_valid_relation_public_key relation_key (get p "relations")

  -- The parts of a payload without a finding that concern its nodes and relations.
  parts :
      payload_issues p ≡ ok []
      → (node_types.1 ≡ [])
        × (relation_types.1 ≡ [])
        × (nodes.1 ≡ [])
        × (relations.1 ≡ [])
        × (over_list (node_defects (node_types.0) (nodes.0)) (get p "nodes") ≡ ok [])
        × (over_list
              (relation_defects (relation_types.0) (nodes.0) (relations.0))
              (get p "relations")
            ≡ ok [])
  unfolding payload_issues
  parts h =
      let rest = λ (of_nodes of_relations of_groups : List Issue).
        envelope_issues p
        ++ (node_types.1
            ++ (relation_types.1
                ++ (nodes.1
                    ++ (groups.1
                        ++ (relations.1
                            ++ (of_nodes ++ (of_relations ++ (of_groups ++ count_issues p)))))))) in
      let second =
        over_list (relation_defects (relation_types.0) (nodes.0) (relations.0))
          (get p "relations") in
      let third = over_list (group_defects (nodes.0) (groups.0)) (get p "groups") in
      let (a, ea, h₁) =
        bind-eq-ok (over_list (node_defects (node_types.0) (nodes.0)) (get p "nodes"))
          (λ of_nodes. second >>= λ of_relations.
            third >>= λ of_groups. ok (rest of_nodes of_relations of_groups))
          [] h in
      let (b, eb, h₂) =
        bind-eq-ok second
          (λ of_relations. third >>= λ of_groups. ok (rest a of_relations of_groups)) [] h₁ in
      let (c, ec, h₃) = bind-eq-ok third (λ of_groups. ok (rest a b of_groups)) [] h₂ in
      let all : rest a b c ≡ [] = cc h₃ in
      let (_, n₁) = append-nil (envelope_issues p) _ all in
      let (z₁, n₂) = append-nil (node_types.1) _ n₁ in
      let (z₂, n₃) = append-nil (relation_types.1) _ n₂ in
      let (z₃, n₄) = append-nil (nodes.1) _ n₃ in
      let (_, n₅) = append-nil (groups.1) _ n₄ in
      let (z₄, n₆) = append-nil (relations.1) _ n₅ in
      let (z₅, n₇) = append-nil a _ n₆ in
      let (z₆, _) = append-nil b _ n₇ in (z₁, z₂, z₃, z₄, ea ∙ ap ok z₅, eb ∙ ap ok z₆)

  -- A payload in which nothing is found has its catalogs, nodes and relations as lists; the keys of
  -- the nodes, and those of the relations, are of the grammar and all different; each node has a
  -- type of the catalog and three finite coordinates; and each relation has a type of the catalog
  -- and two nodes of the payload as its ends.
  pub validate_payload_contract-IsServable :
      validate_payload_contract (object p) ≡ ok [] → IsServable p
  unfolding validate_payload_contract
  validate_payload_contract-IsServable h =
      let (issues, found, h₁) =
        bind-eq-ok (payload_issues p) (λ issues. ok (sort_by issue_le issues)) [] h in
      let empty = sort_by-nil issue_le issues (cc h₁) in
      let (t₁, t₂, t₃, t₄, over_nodes, over_relations) = parts (found ∙ ap ok empty) in
      let (types, is_types, _, _, types_found) =
        collection-Clean is_payload_entity_key no_attribute (get p "nodeTypes") t₁ in
      let (types', is_types', _, _, types'_found) =
        collection-Clean is_payload_entity_key no_attribute (get p "relationTypes") t₂ in
      let (ns, is_ns, keyed, fresh, ns_found) =
        collection-Clean is_payload_entity_key node_key (get p "nodes") t₃ in
      let (rs, is_rs, keyed', fresh', rs_found) =
        collection-Clean is_valid_relation_public_key relation_key (get p "relations") t₄ in
      let clean_nodes =
        over_array (node_defects (node_types.0) (nodes.0)) (get p "nodes") ns is_ns over_nodes in
      let clean_relations =
        over_array (relation_defects (relation_types.0) (nodes.0) (relations.0)) (get p "relations")
          rs is_rs over_relations in
      (
        types,
        types',
        ns,
        rs,
        is_types,
        is_types',
        is_ns,
        is_rs,
        fresh,
        fresh',
        All-of_In (NodeFits types) (items ns) (λ e m.
            let (k, named, good) = All-In (HasKey is_payload_entity_key) e (items ns) keyed m in
            let (n, is, typed, placed) =
              node_defects-clean (node_types.0) (nodes.0) e k named
                ((ns_found k).1 (key-In e (items ns) k m named))
                (All-In (λ e. node_defects (node_types.0) (nodes.0) e ≡ ok []) e (items ns)
                  clean_nodes m) in
            (
              k,
              n,
              is,
              named,
              good,
              Resolves-imp (get n "type") (node_types.0) (key_texts (items types))
                  (λ t x. (types_found t).0 x) typed,
              placed,
            )),
        All-of_In (RelationFits types' ns) (items rs) (λ e m.
            let (k, named, good) =
              All-In (HasKey is_valid_relation_public_key) e (items rs) keyed' m in
            let (r, is, typed, source, target) =
              relation_defects-clean (relation_types.0) (nodes.0) (relations.0) e k named
                ((rs_found k).1 (key-In e (items rs) k m named))
                (All-In (λ e. relation_defects (relation_types.0) (nodes.0) (relations.0) e ≡ ok [])
                  e (items rs) clean_relations m) in
            (
              k,
              r,
              is,
              named,
              good,
              Resolves-imp (get r "type") (relation_types.0) (key_texts (items types'))
                  (λ t x. (types'_found t).0 x) typed,
              Resolves-imp (get r "source") (nodes.0) (key_texts (items ns))
                  (λ t x. (ns_found t).0 x) source,
              Resolves-imp (get r "target") (nodes.0) (key_texts (items ns))
                  (λ t x. (ns_found t).0 x) target,
            )),
      )

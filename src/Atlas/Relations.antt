-- ===== src/Atlas/Relations.antt =====
-- apps/atlas/validation.py: the rules on one relation, the relations that say the same, and the
-- allowed types they are judged by.
pub mod Clashes
pub mod Naming
pub mod Rules
pub mod Gate
use taha_mohammadi_platform.Prelude.{
  ℕ, ◌<◌, String, Option, none, some, List, [], ◌∷◌, ◌++◌, map, Bool, true, false, not, ◌&&◌, ◌||◌,
  ◌==◌, ◌≡◌, ◌↔◌, arith, ltb, eqb, eq_iff, if◌then◌else◌, Result, ok, err, ◌>>=◌,
}
use taha_mohammadi_platform.Prelude.Lists.{contains, dedup, length, sort_by, nat_eq, text_eq, Eq}
use taha_mohammadi_platform.Prelude.Groups.{grouped, shared_values}
use taha_mohammadi_platform.Atlas.Issues.{
  Code, Issue, text_le, issue_le, relation_issue, bare_issue, dangling_relation_endpoint,
  relation_type_inactive, relation_type_not_allowed, self_loop_forbidden, direction_not_overridable,
  duplicate_relation,
}
use taha_mohammadi_platform.Atlas.Graph.{
  AtlasNode, AtlasRelation, AtlasRelationType, SelfLoopPolicy, forbid, allow, composed_key,
}

-- The allowed types of the ends, by key; none means any.
pub record AllowedTypes : Type 0 where
  pub sources : List ℕ
  pub targets : List ℕ

abbrev pub is_empty : List ℕ → Bool
is_empty [] = true
is_empty (x ∷ xs) = false

-- `AllowedTypes.allows`
unfoldable pub allows : AllowedTypes → ℕ → ℕ → Bool
allows a source_type target_type =
    (is_empty a.sources || contains a.sources source_type)
    && (is_empty a.targets || contains a.targets target_type)

-- The second members of the rows of a many-to-many table whose first one is given.
unfoldable pub through : List (ℕ × ℕ) → ℕ → List ℕ
through [] type_id = []
through ((t, n) ∷ rows) type_id =
    let others = through rows type_id in if eqb t type_id then n ∷ others else others

-- `allowed_types_by_relation_type`, from the two tables.
unfoldable pub allowed_types_by_relation_type :
    (sources targets : List (ℕ × ℕ)) → List ℕ → List (ℕ × AllowedTypes)
allowed_types_by_relation_type sources targets [] = []
allowed_types_by_relation_type sources targets (id ∷ ids) =
    (id, record { sources = through sources id; targets = through targets id })
    ∷ allowed_types_by_relation_type sources targets ids

pub data KeyError : Type 0 where
  key_error : ℕ → KeyError

-- `allowed_types[pk]`
unfoldable pub allowed_of : List (ℕ × AllowedTypes) → ℕ → Result KeyError AllowedTypes
allowed_of [] pk = err (key_error pk)
allowed_of ((id, a) ∷ rest) pk = let later = allowed_of rest pk in if eqb id pk then ok a else later

-- The key of a source, of a type and of a target.
abbrev pub Identity : Type 0
Identity = String × String × String

abbrev pub same_identity : Identity → Identity → Bool
same_identity (a, t, b) (a', t', b') = a == a' && (t == t' && b == b')

pub same_identity_iff : (i j : Identity) → (same_identity i j ≡ true) ↔ (i ≡ j)
same_identity_iff (a, t, b) (a', t', b') = ground (arith, eq_iff a a', eq_iff t t', eq_iff b b')

instance abbrev pub identity_eq : Eq Identity
identity_eq = record { beq = same_identity; beq_iff = same_identity_iff }

-- `min` and `max` of two texts
abbrev pub least : String → String → String
least a b = if text_le a b true then a else b

abbrev pub greatest : String → String → String
greatest a b = if text_le a b true then b else a

-- `_identities`
unfoldable pub identities : AtlasRelation → List Identity
identities r =
    let source = r.source.public_key in
    let target = r.target.public_key in
    let authored : Identity = (source, r.relation_type.key, target) in
    if r.directed
    then authored ∷ []
    else dedup (
        authored
        ∷ (least source target, r.relation_type.key, greatest source target)
        ∷ (greatest source target, r.relation_type.key, least source target)
        ∷ [])

abbrev pub key_le : String → String → Bool
key_le a b = text_le a b true

-- `_duplicate_issues`
unfoldable pub duplicate_issues : List (String × List Identity) → List Issue
duplicate_issues judged =
    map (λ key. relation_issue duplicate_relation key)
      (sort_by key_le (dedup (shared_values (grouped [] judged))))

abbrev pub when : Bool → Issue → List Issue
when true i = i ∷ []
when false i = []

abbrev pub is_allow : SelfLoopPolicy → Bool
is_allow forbid = false
is_allow allow = true

abbrev pub differ : Bool → Bool → Bool
differ true b = not b
differ false b = b

-- What the rules say of one relation.
unfoldable pub row_issues : ℕ → AllowedTypes → AtlasRelation → List Issue
row_issues version_id allowed r =
    let key = composed_key r in
    when (not r.relation_type.active) (relation_issue relation_type_inactive key)
    ++ (when (not (allows allowed r.source.node_type.pk r.target.node_type.pk))
          (relation_issue relation_type_not_allowed key)
        ++ (when (eqb r.source.pk r.target.pk && not (is_allow r.relation_type.self_loop_policy))
              (relation_issue self_loop_forbidden key)
            ++ (when
                  (differ r.directed r.relation_type.directed_default
                    && not r.relation_type.overridable_direction)
                  (relation_issue direction_not_overridable key)
                ++ when
                    (not (eqb r.source.version_id version_id)
                      || not (eqb r.target.version_id version_id))
                    (relation_issue dangling_relation_endpoint key))))

-- The loop over the relations. `none` is a row without one of its ends or its type.
unfoldable pub judge :
    ℕ
    → List (ℕ × AllowedTypes)
    → List (Option AtlasRelation)
    → Result KeyError (List Issue × List (String × List Identity))
judge version_id allowed_types [] = ok ([], [])
judge version_id allowed_types (none ∷ rest) = do
  (issues, judged) ← judge version_id allowed_types rest
  ok (bare_issue dangling_relation_endpoint ∷ issues, judged)
judge version_id allowed_types (some r ∷ rest) = do
  allowed ← allowed_of allowed_types r.relation_type.pk
  (issues, judged) ← judge version_id allowed_types rest
  ok (row_issues version_id allowed r ++ issues, (composed_key r, identities r) ∷ judged)

unfoldable pub relation_rule_issues :
    List (Option AtlasRelation) → ℕ → List (ℕ × AllowedTypes) → Result KeyError (List Issue)
relation_rule_issues relations version_id allowed_types = do
  (issues, judged) ← judge version_id allowed_types relations
  ok (sort_by issue_le (issues ++ duplicate_issues judged))

-- `validate_relations`, of the relations of a version and the two tables of allowed types.
unfoldable pub validate_relations :
    ℕ → List AtlasRelation → (sources targets : List (ℕ × ℕ)) → Result KeyError (List Issue)
validate_relations version_id relations sources targets =
    relation_rule_issues (map (λ r. some r) relations) version_id (
      allowed_types_by_relation_type sources targets
        (dedup (map (λ r. r.relation_type.pk) relations)))

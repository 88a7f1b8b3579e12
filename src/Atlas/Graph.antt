-- ===== src/Atlas/Graph.antt =====
-- apps/atlas/models.py: the rows of one version of the Atlas, with the columns that the validation
-- reads, and the composed key of a relation (apps/atlas/keys.py).
use taha_mohammadi_platform.Prelude.{ℕ, String, Option, List, Bool, true, ◌||◌, ◌<>◌, if◌then◌else◌}
use taha_mohammadi_platform.Prelude.Json.{Float}
use taha_mohammadi_platform.Atlas.Issues.{text_le}

pub record AtlasNodeType : Type 0 where
  pub pk : ℕ
  pub key : String
  pub active : Bool

pub record NodeTranslation : Type 0 where
  pub locale : String
  pub label_override : String
  pub summary_override : String

pub record AtlasNode : Type 0 where
  pub pk : ℕ
  pub version_id : ℕ
  pub public_key : String
  pub node_type : AtlasNodeType
  pub visible : Bool
  pub canonical_model : String
  pub canonical_translation_key : Option ℕ
  pub translations : List NodeTranslation
  pub pin_x : Option Float
  pub pin_y : Option Float
  pub pin_z : Option Float

pub record GroupTranslation : Type 0 where
  pub locale : String
  pub label : String

pub record AtlasGroup : Type 0 where
  pub public_key : String
  pub translations : List GroupTranslation

pub data SelfLoopPolicy : Type 0 where
  forbid allow : SelfLoopPolicy

pub record AtlasRelationType : Type 0 where
  pub pk : ℕ
  pub key : String
  pub active : Bool
  pub self_loop_policy : SelfLoopPolicy
  pub directed_default : Bool
  pub overridable_direction : Bool
  pub hierarchy_role : Bool

pub record AtlasRelation : Type 0 where
  pub pk : ℕ
  pub source : AtlasNode
  pub target : AtlasNode
  pub relation_type : AtlasRelationType
  pub directed : Bool
  pub visible : Bool

-- `relation_public_key`
unfoldable pub relation_public_key : String → String → String → Bool → String
relation_public_key source relation_type target directed =
    if directed || text_le source target true
    then source <> ("~" <> (relation_type <> ("~" <> target)))
    else target <> ("~" <> (relation_type <> ("~" <> source)))

-- `AtlasRelation.public_key`
unfoldable pub composed_key : AtlasRelation → String
composed_key r =
    relation_public_key r.source.public_key r.relation_type.key r.target.public_key r.directed

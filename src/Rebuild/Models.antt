-- ===== src/Rebuild/Models.antt =====
-- apps/rebuild/models.py: the rows of publication jobs and of machine nonces. A UUID is the number
-- that it stands for, and a time is a number of clock ticks.
use taha_mohammadi_platform.Prelude.{ℕ, String, Option, List}

-- PublicationJobState
pub data JobState : Type 0 where
  queued running succeeded failed : JobState

pub JobState-discrete : Discrete JobState
JobState-discrete = hlevel

-- RemovalState
pub data RemovalState : Type 0 where
  not_requested pending effective failed : RemovalState

pub record PublicationJob : Type 0 where
  pub id : ℕ
  pub idempotency_key : Option String
  pub state : JobState
  pub locale : Option String
  pub requested_revision : String
  pub deployed_revision : Option String
  pub affected_paths : List String
  pub revoked_paths : List String
  pub removal_state : RemovalState
  pub error_code : Option String
  pub created_at : ℕ
  pub started_at : Option ℕ
  pub finished_at : Option ℕ
  pub updated_at : ℕ

-- What `to_dict` puts on the wire. The times stay numbers: the ISO spelling is not modelled.
pub record JobDict : Type 0 where
  pub id : ℕ
  pub state : JobState
  pub locale : Option String
  pub requested_revision : String
  pub deployed_revision : Option String
  pub affected_paths : List String
  pub revoked_paths : List String
  pub removal_state : RemovalState
  pub created_at : ℕ
  pub started_at : Option ℕ
  pub finished_at : Option ℕ
  pub error_code : Option String
  pub updated_at : ℕ

unfoldable pub to_dict : PublicationJob → JobDict
to_dict job = record {
  id = job.id;
  state = job.state;
  locale = job.locale;
  requested_revision = job.requested_revision;
  deployed_revision = job.deployed_revision;
  affected_paths = job.affected_paths;
  revoked_paths = job.revoked_paths;
  removal_state = job.removal_state;
  created_at = job.created_at;
  started_at = job.started_at;
  finished_at = job.finished_at;
  error_code = job.error_code;
  updated_at = job.updated_at;
}

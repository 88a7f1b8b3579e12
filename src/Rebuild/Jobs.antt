-- ===== src/Rebuild/Jobs.antt =====
-- apps/rebuild/services.py: the table of publication jobs, `enqueue_publication_job`,
-- `enqueue_content_invalidation` and the result callback `record_job_result`.
pub mod Steps
pub mod Claims
pub mod Replay
pub mod Validity
pub mod Enqueue
pub mod Refinement
use taha_mohammadi_platform.Prelude.{
  ℕ, String, Option, none, some, List, [], ◌∷◌, ◌++◌, Bool, true, false, not, ◌&&◌, ◌||◌, ◌==◌,
  ◌<>◌, if◌then◌else◌, eqb, Result, ok, err, ◌>>=◌, ◌>>◌, require,
}
use taha_mohammadi_platform.Prelude.Lists.{contains, text_eq}
use taha_mohammadi_platform.Prelude.Text.{or_else, truthy, is_blank}
use taha_mohammadi_platform.Rebuild.Models.{
  JobState, queued, running, succeeded, RemovalState, not_requested, pending, effective,
  PublicationJob, JobDict, to_dict,
}
use taha_mohammadi_platform.Rebuild.Paths.{Item, compute_affected_paths, compute_revoked_paths}

-- The job table in the order of creation, and the job ids whose build was handed to
-- `transaction.on_commit`.
pub record Jobs : Type 0 where
  pub rows : List PublicationJob
  pub dispatched : List ℕ

-- `objects.get(id=...)`, `objects.filter(idempotency_key=...).first()`
unfoldable pub find_job : ℕ → List PublicationJob → Option PublicationJob
find_job i [] = none
find_job i (job ∷ rest) = if eqb job.id i then some job else find_job i rest

abbrev pub key_is : String → Option String → Bool
key_is k none = false
key_is k (some j) = j == k

unfoldable pub find_key : String → List PublicationJob → Option PublicationJob
find_key k [] = none
find_key k (job ∷ rest) = if key_is k job.idempotency_key then some job else find_key k rest

-- `job.save()`: the row of that primary key is written.
unfoldable pub save_job : PublicationJob → List PublicationJob → List PublicationJob
save_job job [] = []
save_job job (row ∷ rest) =
    let others = save_job job rest in if eqb row.id job.id then job ∷ rest else row ∷ others

-- SAFE_ERROR_CODES
abbrev pub safe_error_codes : List String
safe_error_codes =
    "BUILD_FAILED" ∷ "PAGEFIND_FAILED" ∷ "SITEMAP_FAILED" ∷ "EDGE_DENY_FAILED" ∷ "REMOVAL_FAILED"
    ∷ "TIMEOUT" ∷ "VALIDATION_FAILED" ∷ []

-- The arguments of `record_job_result` besides the job's id.
pub record ResultReport : Type 0 where
  pub state : String
  pub artifact_revision : Option String
  pub error_code : Option String
  pub removal_state : Option String

-- The error codes of the responses; the message texts are not modelled.
pub data ErrorCode : Type 0 where
  not_found validation_failed conflict : ErrorCode

pub data Body : Type 0 where
  job_body : JobDict → Body
  error_body : ErrorCode → Body

pub record Response : Type 0 where
  pub status : ℕ
  pub body : Body

abbrev pub reply_error : ℕ → ErrorCode → Response
reply_error status code = record { status = status; body = error_body code }

abbrev pub reply_job : PublicationJob → Response
reply_job job = record { status = 200; body = job_body (to_dict job) }

-- `state not in (RUNNING, SUCCEEDED, FAILED)` is `none`.
unfoldable pub result_state : String → Option JobState
result_state s =
    if s == "running"
    then some running
    else if s == "succeeded"
    then some succeeded
    else if s == "failed"
    then some JobState.failed
    else none

abbrev pub is_terminal : JobState → Bool
is_terminal succeeded = true
is_terminal JobState.failed = true
is_terminal _ = false

-- The equality of a nullable column with a nullable argument.
abbrev pub same_text : Option String → Option String → Bool
same_text none none = true
same_text (some a) (some b) = a == b
same_text _ _ = false

-- The idempotent replay of a terminal result.
unfoldable pub is_replay : PublicationJob → JobState → JobState → ResultReport → Bool
is_replay job succeeded succeeded r =
    not (truthy r.artifact_revision) || same_text job.deployed_revision r.artifact_revision
is_replay job JobState.failed JobState.failed r =
    not (truthy r.error_code) || same_text job.error_code r.error_code
is_replay job _ _ r = false

-- `if not job.started_at: job.started_at = timezone.now()`
abbrev pub or_now : Option ℕ → ℕ → Option ℕ
or_now none now = some now
or_now (some t) now = some t

-- `(artifact_revision or "").strip()`
abbrev pub is_set : Option String → Bool
is_set s = not (is_blank (or_else s ""))

-- `if not error_code or error_code not in SAFE_ERROR_CODES: error_code = "BUILD_FAILED"`
unfoldable pub safe_code : Option String → String
safe_code none = "BUILD_FAILED"
safe_code (some c) = if contains safe_error_codes c then c else "BUILD_FAILED"

-- The branch of the reported state. It changes the job in memory, or returns a response.
unfoldable pub advance :
    ℕ → PublicationJob → JobState → JobState → ResultReport → Result Response PublicationJob
advance now job queued running r =
    ok (record job { state = running; started_at = or_now job.started_at now })
advance now job _ running r = err (reply_error 409 conflict)
advance now job running succeeded r = do
  require (is_set r.artifact_revision) (reply_error 400 validation_failed)
  require (job.requested_revision == "" || job.requested_revision == or_else r.artifact_revision "")
      (reply_error 400 validation_failed)
  ok (record job {
    state = succeeded;
    deployed_revision = some (or_else r.artifact_revision job.requested_revision);
    started_at = or_now job.started_at now;
    finished_at = some now;
  })
advance now job _ succeeded r = err (reply_error 409 conflict)
advance now job running JobState.failed r = ok (record job {
  state = JobState.failed;
  error_code = some (safe_code r.error_code);
  started_at = or_now job.started_at now;
  finished_at = some now;
})
advance now job _ JobState.failed r = err (reply_error 409 conflict)
-- `record_job_result` has refused this state before.
advance now job _ queued r = err (reply_error 400 validation_failed)

-- `if removal_state in (EFFECTIVE, FAILED): if job.removal_state != PENDING: return 400 ...`
abbrev pub outcome_of_removal :
    RemovalState → RemovalState → PublicationJob → Result Response PublicationJob
outcome_of_removal pending new job = ok (record job { removal_state = new })
outcome_of_removal _ new job = err (reply_error 400 validation_failed)

-- The `if removal_state:` block; other texts are passed over.
unfoldable pub apply_removal : String → PublicationJob → Result Response PublicationJob
apply_removal s job =
    if s == "effective"
    then outcome_of_removal job.removal_state effective job
    else if s == "failed"
    then outcome_of_removal job.removal_state RemovalState.failed job
    else if s == "pending"
    then ok (record job { removal_state = pending })
    else if s == "not_requested"
    then ok (record job { removal_state = not_requested })
    else ok job

abbrev pub known_state : Option JobState → Result Response JobState
known_state none = err (reply_error 400 validation_failed)
known_state (some new) = ok new

-- The response for a job that has its terminal state already.
abbrev pub terminal_reply : PublicationJob → JobState → ResultReport → Response
terminal_reply job new r =
    if is_replay job job.state new r then reply_job job else reply_error 409 conflict

-- What the callback does with the locked row: the row to save, or the response that it returns
-- without saving.
unfoldable pub settle : ℕ → PublicationJob → ResultReport → Result Response PublicationJob
settle now job r = do
  new ← known_state (result_state r.state)
  require (not (is_terminal job.state)) (terminal_reply job new r)
  moved ← advance now job job.state new r
  apply_removal (or_else r.removal_state "") moved

abbrev pub commit : ℕ → Jobs → Result Response PublicationJob → Response × Jobs
commit now db (ok job) =
    let saved = record job { updated_at = now } in
    (reply_job saved, record db { rows = save_job saved db.rows })
commit now db (err response) = (response, db)

unfoldable pub record_job_result : ℕ → Jobs → ℕ → ResultReport → Response × Jobs
record_job_result now db job_id r = elim (find_job job_id db.rows) [
  | none ↦ (reply_error 404 not_found, db)
  | some job ↦ commit now db (settle now job r)
]

-- What `enqueue_publication_job` takes from outside: the clock, the UUID of the row, and the
-- timestamp and random part of `new_job_revision`.
pub record Fresh : Type 0 where
  pub now : ℕ
  pub uuid : ℕ
  pub stamp : String
  pub hex : String

unfoldable pub new_job_revision : Fresh → String
new_job_revision f = "rev-" <> (f.stamp <> ("-" <> f.hex))

pub record JobRequest : Type 0 where
  pub locale : Option String
  pub requested_revision : String
  pub affected_paths : List String
  pub revoked_paths : List String
  pub idempotency_key : Option String
  pub removal_state : RemovalState

unfoldable pub new_job : Fresh → JobRequest → PublicationJob
new_job f q = record {
  id = f.uuid;
  idempotency_key = q.idempotency_key;
  state = queued;
  locale = q.locale;
  requested_revision =
      if is_blank q.requested_revision then new_job_revision f else q.requested_revision;
  deployed_revision = none;
  affected_paths = q.affected_paths;
  revoked_paths = q.revoked_paths;
  removal_state = q.removal_state;
  error_code = none;
  created_at = f.now;
  started_at = none;
  finished_at = none;
  updated_at = f.now;
}

-- `existing` for a non-empty key.
unfoldable pub existing_job : Option String → List PublicationJob → Option PublicationJob
existing_job none rows = none
existing_job (some k) rows = if k == "" then none else find_key k rows

-- The primary key, and the unique index on the key, which holds for the empty key too.
abbrev pub id_taken : ℕ → List PublicationJob → Bool
id_taken i rows = elim (find_job i rows) [ none ↦ false | some _ ↦ true ]

abbrev pub key_taken : Option String → List PublicationJob → Bool
key_taken none rows = false
key_taken (some k) rows = elim (find_key k rows) [ none ↦ false | some _ ↦ true ]

pub data IntegrityError : Type 0 where
  integrity_error : IntegrityError

unfoldable pub enqueue_publication_job :
    Fresh → JobRequest → Jobs → Result IntegrityError (PublicationJob × Jobs)
enqueue_publication_job f q db = elim (existing_job q.idempotency_key db.rows) [
  | some job ↦ ok (job, db)
  | none ↦
      if id_taken f.uuid db.rows || key_taken q.idempotency_key db.rows
      then err integrity_error
      else ok (
        new_job f q,
        record { rows = db.rows ++ new_job f q ∷ []; dispatched = db.dispatched ++ f.uuid ∷ [] },
      )
]

-- The `action` values that ask for a removal.
unfoldable pub removal_of_action : String → RemovalState
unfolding contains
removal_of_action action =
    if contains ("archive" ∷ "unpublish" ∷ "delete" ∷ "restore_draft" ∷ []) action
    then pending
    else not_requested

abbrev pub revoked_for : RemovalState → String → Item → List String
revoked_for pending entity item = compute_revoked_paths entity item
revoked_for _ entity item = []

abbrev pub chosen_removal : Option RemovalState → String → RemovalState
chosen_removal none action = removal_of_action action
chosen_removal (some r) action = r

-- `rev_str`: the given revision, or the row's `updated_at` in ISO spelling, given as a text.
abbrev pub chosen_revision : String → Option String → String
chosen_revision revision updated_at = if revision == "" then or_else updated_at "" else revision

unfoldable pub invalidation_request :
    String → Item → String → String → Option RemovalState → Option String → JobRequest
invalidation_request entity item action revision removal updated_at = record {
  locale = item.locale;
  requested_revision = chosen_revision revision updated_at;
  affected_paths = compute_affected_paths entity item;
  revoked_paths = revoked_for (chosen_removal removal action) entity item;
  idempotency_key = none;
  removal_state = chosen_removal removal action;
}

unfoldable pub enqueue_content_invalidation :
    Fresh
    → String
    → Item
    → String
    → String
    → Option RemovalState
    → Option String
    → Jobs
    → Result IntegrityError (PublicationJob × Jobs)
enqueue_content_invalidation f entity item action revision removal updated_at db =
    enqueue_publication_job f (invalidation_request entity item action revision removal updated_at)
      db

-- ===== src/Rebuild/Examples.antt =====
-- The theorems of the publication jobs, at concrete jobs, callbacks and requests.
use taha_mohammadi_platform.Prelude.{
  ◌≤◌, String, none, some, List, [], ◌∷◌, true, ◌<>◌, ◌≡◌, ◌≢◌, ◌↔◌, refl, inl, arith, ok,
}
use taha_mohammadi_platform.Prelude.Lists.{In, contains, text_eq}
use taha_mohammadi_platform.Prelude.Text.{or_else, truthy, normalize, spells, is_blank}
use taha_mohammadi_platform.Rebuild.Models.{queued, running, not_requested, pending, PublicationJob}
use taha_mohammadi_platform.Rebuild.Paths.{
  item_slug, family_revoked, absent, Item, family, item_locale, home_path, path₁,
  compute_affected_paths, compute_revoked_paths,
}
use taha_mohammadi_platform.Rebuild.Paths.Coverage.{affected_of_revoked}
use taha_mohammadi_platform.Rebuild.Paths.Shared.{revoked_not_shared}
use taha_mohammadi_platform.Rebuild.Jobs.Refinement.{Reaches, board, run-Reaches}
use taha_mohammadi_platform.Rebuild.Jobs.{
  settle, advance, apply_removal, is_replay, reply_error, conflict, removal_of_action, Jobs, Fresh,
  JobRequest, ResultReport, find_job, result_state, record_job_result, enqueue_publication_job,
  invalidation_request, find_key, new_job, existing_job,
}
use taha_mohammadi_platform.Rebuild.Jobs.Steps.{
  Moved, record_job_result_moves, record_job_result_atomic,
}
use taha_mohammadi_platform.Rebuild.Jobs.Claims.{Call, enqueue, report, run, claims, claimed_once}
use taha_mohammadi_platform.Rebuild.Jobs.Enqueue.{enqueue_twice, invalidation_denies}
use taha_mohammadi_platform.Rebuild.Jobs.Validity.{IsTableValid, run-IsTableValid}
use taha_mohammadi_platform.Rebuild.Jobs.Replay.{record_job_result_repeats, unsafe_code_conflicts}
use taha_mohammadi_platform.Rebuild.Auth.{
  header_value, Digests, MachineSettings, Header, MachineRequest, accepted,
  validate_machine_request,
}
use taha_mohammadi_platform.Rebuild.Auth.Nonces.{
  IsAuthentic, validate_machine_request_decides, uses, accepted_once,
}
use taha_mohammadi_platform.Rebuild.Auth.Views.{Tables}

abbrev post : Item
post = record { locale = some "fa"; slug = some "first"; series = absent; course = none }

abbrev blog_page : Item
blog_page = record { locale = some "fa"; slug = some "blog"; series = absent; course = none }

abbrev running_job : PublicationJob
running_job = record {
  id = 7;
  idempotency_key = some "k";
  state = running;
  locale = some "fa";
  requested_revision = "r1";
  deployed_revision = none;
  affected_paths = [];
  revoked_paths = [];
  removal_state = not_requested;
  error_code = none;
  created_at = 1;
  started_at = some 2;
  finished_at = none;
  updated_at = 2;
}

abbrev one_job : Jobs
one_job = record { rows = running_job ∷ []; dispatched = [] }

abbrev no_jobs : Jobs
no_jobs = record { rows = []; dispatched = [] }

abbrev claim_report : ResultReport
claim_report = record {
  state = "running";
  artifact_revision = none;
  error_code = none;
  removal_state = none;
}

abbrev success_report : ResultReport
success_report = record {
  state = "succeeded";
  artifact_revision = some "r1";
  error_code = none;
  removal_state = none;
}

abbrev failure_report : ResultReport
failure_report = record {
  state = "failed";
  artifact_revision = none;
  error_code = some "OUT_OF_DISK";
  removal_state = none;
}

abbrev fresh : Fresh
fresh = record { now = 5; uuid = 9; stamp = "20260101"; hex = "ab" }

abbrev request : JobRequest
request = record {
  locale = some "fa";
  requested_revision = "";
  affected_paths = "/fa/" ∷ [];
  revoked_paths = [];
  idempotency_key = some "key";
  removal_state = not_requested;
}

abbrev after_enqueue : Jobs
after_enqueue = record { rows = new_job fresh request ∷ []; dispatched = 9 ∷ [] }

abbrev history : List Call
history = enqueue fresh request ∷ report 6 9 claim_report ∷ report 7 9 claim_report ∷ []

-- Stand-ins for the digests of hmac and hashlib.
abbrev digests : Digests
digests = record { hmac_sha256 = λ key message. key <> (":" <> message); sha256 = λ body. body }

abbrev hex_digests : Digests
hex_digests = record { hmac_sha256 = λ key message. "ab"; sha256 = λ body. "ab" }

abbrev settings : MachineSettings
settings = record { publication_machine_secret = "s"; rebuild_trigger_secret = "" }

abbrev header : String → Header
header text = record { headers = some text; meta = none }

abbrev signed : MachineRequest
signed = record {
  method = "post";
  path = "/p";
  timestamp = header "1000";
  nonce = header "n1";
  signature = header "s:POST\n/p\n1000\nn1\n{}";
  body = "{}";
}

abbrev unsigned : MachineRequest
unsigned = record signed { method = "POST"; signature = header "" }

abbrev tables : Tables
tables = record { jobs = one_job; nonces = [] }

affected_of_revoked_example : In "/fa/blog/first/" (compute_affected_paths "article" post)
unfolding compute_revoked_paths family family_revoked normalize spells or_else item_slug
affected_of_revoked_example = affected_of_revoked "article" post "/fa/blog/first/" (inl refl)

revoked_not_shared_example :
    (¬ In (home_path (item_locale post)) (compute_revoked_paths "article" post))
    × (¬ In (path₁ (item_locale post) "blog") (compute_revoked_paths "article" post))
unfolding family normalize spells
revoked_not_shared_example = revoked_not_shared "article" post "blog" (λ e. cc e) refl

record_job_result_moves_example :
    (new : PublicationJob) × (find_job 7 (record_job_result 9 one_job 7 success_report).1.rows
      ≡ some new)
    × Moved running_job new
unfolding find_job
record_job_result_moves_example =
    record_job_result_moves 9 one_job 7 success_report 7 running_job refl

record_job_result_atomic_example : (record_job_result 9 one_job 8 success_report).1 ≡ one_job
unfolding record_job_result find_job
record_job_result_atomic_example =
    record_job_result_atomic 9 one_job 8 success_report (λ e. omega (arith, e))

claimed_once_example :
    (claims 9 no_jobs history ≤ 1)
    × ((job : PublicationJob)
        → find_job 9 no_jobs.rows ≡ some job
        → job.state ≢ queued
        → claims 9 no_jobs history ≡ 0)
claimed_once_example = claimed_once 9 no_jobs history

one_job-IsTableValid : IsTableValid one_job
unfolding is_blank
one_job-IsTableValid = (record { revision_set = refl; columns = (tt, refl, refl, refl) }, tt)

run-IsTableValid_example : IsTableValid (run one_job history)
run-IsTableValid_example = run-IsTableValid one_job history (one_job-IsTableValid)

record_job_result_repeats_example :
    record_job_result 10 (record_job_result 9 one_job 7 success_report).1 7 success_report
    ≡ record_job_result 9 one_job 7 success_report
unfolding record_job_result find_job settle result_state advance apply_removal or_else is_replay
    is_blank
record_job_result_repeats_example =
    record_job_result_repeats 9 10 one_job 7 success_report (refl, λ e. cc e) refl

unsafe_code_conflicts_example :
    ((record_job_result 9 one_job 7 failure_report).0.status ≡ 200)
    × (record_job_result 10 (record_job_result 9 one_job 7 failure_report).1 7 failure_report
        ≡ (reply_error 409 conflict, (record_job_result 9 one_job 7 failure_report).1))
unfolding find_job result_state contains truthy or_else
unsafe_code_conflicts_example =
    unsafe_code_conflicts 9 10 one_job 7 failure_report running_job refl refl refl refl refl

enqueue_twice_example :
    enqueue_publication_job fresh request after_enqueue ≡ ok (new_job fresh request, after_enqueue)
unfolding enqueue_publication_job existing_job find_key find_job
enqueue_twice_example =
    enqueue_twice fresh fresh request request no_jobs after_enqueue (new_job fresh request) "key"
      refl refl refl refl

validate_machine_request_decides_example :
    (((validate_machine_request digests settings 1100 signed []).0 ≡ accepted)
      ↔ IsAuthentic digests settings 1100 signed [])
    × (IsAuthentic digests settings 1100 signed []
        → (validate_machine_request digests settings 1100 signed []).1 ≡ "n1" ∷ [])
    × ((validate_machine_request digests settings 1100 signed []).0 ≢ accepted
        → (validate_machine_request digests settings 1100 signed []).1 ≡ [])
unfolding header_value
validate_machine_request_decides_example =
    validate_machine_request_decides digests settings 1100 signed []

accepted_once_example :
    (uses digests settings "n1" [] ((1100, signed) ∷ (1101, signed) ∷ []) ≤ 1)
    × (contains {A = String} [] "n1" ≡ true
        → uses digests settings "n1" [] ((1100, signed) ∷ (1101, signed) ∷ []) ≡ 0)
accepted_once_example =
    accepted_once digests settings "n1" [] ((1100, signed) ∷ (1101, signed) ∷ [])

invalidation_denies_example :
    In "/fa/blog/first/" (compute_affected_paths "article" post) × (pending ≡ pending)
unfolding invalidation_request removal_of_action contains compute_revoked_paths family
    family_revoked normalize spells or_else item_slug
invalidation_denies_example =
    invalidation_denies "article" post "archive" "" none none "/fa/blog/first/" (inl refl)

run-Reaches_example : Reaches (board no_jobs) (board (run no_jobs history))
run-Reaches_example = run-Reaches no_jobs history

-- ===== src/Rebuild/Auth/Views.antt =====
-- apps/rebuild/views.py: the two machine endpoints. A body that was parsed is given by the fields
-- that the view reads.
use taha_mohammadi_platform.Prelude.{
  ℕ, String, Option, none, some, List, true, false, ◌≡◌, ◌⊎◌, ◌==◌, if◌then◌else◌,
}
use taha_mohammadi_platform.Prelude.Text.{or_else, is_blank, is_ascii}
use taha_mohammadi_platform.Prelude.Lists.{text_eq}
use taha_mohammadi_platform.Rebuild.Models.{JobDict, to_dict}
use taha_mohammadi_platform.Rebuild.Jobs.{Jobs, ResultReport, Body, find_job, record_job_result}
use taha_mohammadi_platform.Rebuild.Auth.{
  Digests, MachineSettings, MachineRequest, Verdict, Refusal, accepted, refused, raised, no_secret,
  status_of, get_publication_machine_secret, header_value, validate_machine_request,
}

pub record Tables : Type 0 where
  pub jobs : Jobs
  pub nonces : List String

pub data ViewBody : Type 0 where
  auth_failed : Refusal → ViewBody
  invalid_json missing_state not_found not_allowed server_error : ViewBody
  job_data : JobDict → ViewBody
  result_body : Body → ViewBody

pub record ViewResponse : Type 0 where
  pub status : ℕ
  pub body : ViewBody

-- The fields of a JSON object, which are texts or null; `state` may be missing.
pub record Payload : Type 0 where
  pub state : Option String
  pub artifact_revision : Option String
  pub error_code : Option String
  pub removal_state : Option String

-- A body as it is decoded: no JSON, some other JSON value, which has no `get`, or an object.
pub data PostBody : Type 0 where
  malformed other_value : PostBody
  object : Payload → PostBody

-- What `require_http_methods` answers, and what an exception that leaves the view becomes.
abbrev not_allowed_response : ViewResponse
not_allowed_response = record { status = 405; body = not_allowed }

abbrev error_response : ViewResponse
error_response = record { status = 500; body = server_error }

abbrev report_of : Payload → ResultReport
report_of p = record {
  state = or_else p.state "";
  artifact_revision = p.artifact_revision;
  error_code = p.error_code;
  removal_state = p.removal_state;
}

module _ (d : Digests) (s : MachineSettings) where
  -- What the detail view answers behind the authentication.
  abbrev detail_response : Jobs → ℕ → Verdict → ViewResponse
  detail_response jobs job_id (refused why) = record {
    status = status_of (refused why);
    body = auth_failed why;
  }
  detail_response jobs job_id raised = error_response
  detail_response jobs job_id accepted = elim (find_job job_id jobs.rows) [
    | none ↦ record { status = 404; body = not_found }
    | some job ↦ record { status = 200; body = job_data (to_dict job) }
  ]

  unfoldable pub internal_publication_job_detail :
      ℕ → MachineRequest → ℕ → Tables → ViewResponse × Tables
  internal_publication_job_detail now q job_id t =
      let (verdict, nonces) = validate_machine_request d s now q t.nonces in
      if q.method == "GET"
      then (detail_response t.jobs job_id verdict, record t { nonces = nonces })
      else (not_allowed_response, t)

  -- What the result view does behind the authentication.
  abbrev result_response : ℕ → PostBody → ℕ → Jobs → Verdict → ViewResponse × Jobs
  result_response now payload job_id jobs (refused why) =
      (record { status = status_of (refused why); body = auth_failed why }, jobs)
  result_response now payload job_id jobs raised = (error_response, jobs)
  result_response now malformed job_id jobs accepted =
      (record { status = 400; body = invalid_json }, jobs)
  result_response now other_value job_id jobs accepted = (error_response, jobs)
  result_response now (object p) job_id jobs accepted =
      if or_else p.state "" == ""
      then (record { status = 400; body = missing_state }, jobs)
      else let (response, jobs') = record_job_result now jobs job_id (report_of p) in
        (record { status = response.status; body = result_body response.body }, jobs')

  unfoldable pub internal_publication_job_result :
      ℕ → MachineRequest → PostBody → ℕ → Tables → ViewResponse × Tables
  internal_publication_job_result now q payload job_id t =
      let (verdict, nonces) = validate_machine_request d s now q t.nonces in
      let (response, jobs) = result_response now payload job_id t.jobs verdict in
      if q.method == "POST"
      then (response, record { jobs = jobs; nonces = nonces })
      else (not_allowed_response, t)

  -- The answer to a request that is not authenticated: 403 if no secret is set, 401 for every other
  -- refusal, and 500 for a signature that is not an ASCII text.
  abbrev pub IsDenial : MachineRequest → ViewResponse → Type 0
  IsDenial q r =
      ((is_blank (get_publication_machine_secret s) ≡ true)
        × (r ≡ record { status = 403; body = auth_failed no_secret }))
      ⊎ ((is_blank (get_publication_machine_secret s) ≡ false)
          × ((why : Refusal) × (r ≡ record { status = 401; body = auth_failed why })))
      ⊎ ((is_ascii (header_value q.signature) ≡ false)
          × (r ≡ record { status = 500; body = server_error }))

  -- The verdicts of `IsDenial`.
  abbrev IsRefusal : MachineRequest → Verdict → Type 0
  IsRefusal q v =
      ((is_blank (get_publication_machine_secret s) ≡ true) × (v ≡ refused no_secret))
      ⊎ ((is_blank (get_publication_machine_secret s) ≡ false)
          × ((why : Refusal) × (v ≡ refused why) × (status_of (refused why) ≡ 401)))
      ⊎ ((is_ascii (header_value q.signature) ≡ false) × (v ≡ raised))

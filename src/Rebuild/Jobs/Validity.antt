-- ===== src/Rebuild/Jobs/Validity.antt =====
-- What holds of every row of the job table, in every history.
use taha_mohammadi_platform.Prelude.{
  subst, ℕ, String, Option, none, some, List, [], ◌∷◌, true, false, ◌==◌, ◌≡◌, refl, inl, inr,
  arith, eqb, ok, Bool-cases, eq_iff,
}
use taha_mohammadi_platform.Prelude.Lists.{All, All-append, contains, text_eq}
use taha_mohammadi_platform.Prelude.Text.{is_blank, or_else}
use taha_mohammadi_platform.Rebuild.Models.{JobState, queued, running, succeeded, PublicationJob}
use taha_mohammadi_platform.Rebuild.Jobs.{
  Jobs, Fresh, JobRequest, find_job, save_job, ResultReport, safe_error_codes, safe_code, advance,
  apply_removal, settle, record_job_result, new_job, enqueue_publication_job,
}
use taha_mohammadi_platform.Rebuild.Jobs.Steps.{settle-eq-ok, stamped, record_job_result_cases}
use taha_mohammadi_platform.Rebuild.Jobs.Enqueue.{enqueue_cases, new_job_revision_set}
use taha_mohammadi_platform.Rebuild.Jobs.Claims.{Call, enqueue, report, enqueued, perform, run}

abbrev pub IsSafe : Option String → Type 0
IsSafe none = ⊥
IsSafe (some c) = contains safe_error_codes c ≡ true

abbrev pub IsStarted : Option ℕ → Type 0
IsStarted none = ⊥
IsStarted (some t) = Unit

-- The nullable columns that each state fills. A succeeded job has deployed the revision that was
-- requested, and a failed one has a code that may be shown.
abbrev pub Columns : JobState → PublicationJob → Type 0
Columns queued job =
    (job.started_at ≡ none)
    × (job.finished_at ≡ none)
    × (job.deployed_revision ≡ none)
    × (job.error_code ≡ none)
Columns running job =
    IsStarted job.started_at
    × (job.finished_at ≡ none)
    × (job.deployed_revision ≡ none)
    × (job.error_code ≡ none)
Columns succeeded job =
    IsStarted job.started_at
    × IsStarted job.finished_at
    × (job.deployed_revision ≡ some job.requested_revision)
    × (job.error_code ≡ none)
Columns JobState.failed job =
    IsStarted job.started_at
    × IsStarted job.finished_at
    × (job.deployed_revision ≡ none)
    × IsSafe job.error_code

pub record IsJobValid (job : PublicationJob) : Type 0 where
  pub revision_set : is_blank job.requested_revision ≡ false
  pub columns : Columns job.state job

pub build_failed_safe : contains safe_error_codes "BUILD_FAILED" ≡ true
unfolding contains
build_failed_safe = refl

stamped-Columns :
    (now : ℕ) (job : PublicationJob) → Columns job.state job → Columns job.state (stamped now job)
stamped-Columns now job c = ground arith

safe_code-IsSafe : (c : Option String) → IsSafe (some (safe_code c))
unfolding safe_code
safe_code-IsSafe none = build_failed_safe
safe_code-IsSafe (some c) = elim (Bool-cases (contains safe_error_codes c)) [
  | inl safe ↦ rw safe safe
  | inr other ↦ rw other build_failed_safe
]

set_of_not-blank : (s : String) → is_blank s ≡ false → (s == "") ≡ false
unfolding is_blank
set_of_not-blank s h = elim (Bool-cases (s == "")) [
  | inl e ↦ cc (rw ((eq_iff s "").0 e) at h)
  | inr e ↦ e
]

advance-IsJobValid :
    (now : ℕ) (job moved : PublicationJob) (s new : JobState) (r : ResultReport)
    → job.state ≡ s
    → is_blank job.requested_revision ≡ false
    → Columns s job
    → advance now job s new r ≡ ok moved
    → IsJobValid moved
unfolding advance or_else
advance-IsJobValid now job moved queued running r e b c h = ground arith
advance-IsJobValid now job moved running succeeded r e b c h = ground (
  arith,
  set_of_not-blank job.requested_revision b,
  eq_iff job.requested_revision (or_else r.artifact_revision ""),
)
advance-IsJobValid now job moved running JobState.failed r e b c h =
    ground (arith, safe_code-IsSafe r.error_code)
advance-IsJobValid now job moved s new r e b c h = ground arith

apply_removal-IsJobValid :
    (s : String) (job moved : PublicationJob)
    → IsJobValid job
    → apply_removal s job ≡ ok moved
    → IsJobValid moved
unfolding apply_removal
apply_removal-IsJobValid s job moved v h = ground arith

settle-IsJobValid :
    (now : ℕ) (job saved : PublicationJob) (r : ResultReport)
    → IsJobValid job
    → settle now job r ≡ ok saved
    → IsJobValid (stamped now saved)
settle-IsJobValid now job saved r v h =
    let s = settle-eq-ok now job saved r h in
    let moved =
      advance-IsJobValid now job s.moved job.state s.new r refl v.revision_set v.columns
        s.advanced in
    let after = apply_removal-IsJobValid _ s.moved saved moved s.removed in
    record { revision_set = after.revision_set; columns = stamped-Columns now saved after.columns }

new_job-IsJobValid : (f : Fresh) (q : JobRequest) → IsJobValid (new_job f q)
unfolding new_job
new_job-IsJobValid f q = ground (arith, new_job_revision_set f)

-- Every row of the table is valid.
abbrev pub IsTableValid : Jobs → Type 0
IsTableValid db = All IsJobValid db.rows

All-save_job :
    (job : PublicationJob) (rows : List PublicationJob)
    → IsJobValid job
    → All IsJobValid rows
    → All IsJobValid (save_job job rows)
unfolding save_job
All-save_job job [] v h = tt
All-save_job job (row ∷ rest) v h = elim (Bool-cases (eqb row.id job.id)) [
  | inl same ↦ rw same (v, h.1)
  | inr other ↦ rw other (h.0, All-save_job job rest v h.1)
]

All-find_job :
    (i : ℕ) (rows : List PublicationJob) (job : PublicationJob)
    → All IsJobValid rows
    → find_job i rows ≡ some job
    → IsJobValid job
unfolding find_job
All-find_job i [] job h e = cc
All-find_job i (row ∷ rest) job h e = elim (Bool-cases (eqb row.id i)) [
  | inl same ↦ let is_row : row ≡ job = ground arith in subst IsJobValid is_row h.0
  | inr other ↦ All-find_job i rest job h.1 (rw other at e)
]

report-IsTableValid :
    (now : ℕ) (db : Jobs) (i : ℕ) (r : ResultReport)
    → IsTableValid db
    → IsTableValid (record_job_result now db i r).1
report-IsTableValid now db i r h = elim (record_job_result_cases now db i r) [
  | inl same ↦ rw same h
  | inr w ↦
      let valid = All-find_job i db.rows w.job h w.found in
      rw (w.result) (
        All-save_job (stamped now w.saved) db.rows
          (settle-IsJobValid now w.job w.saved r valid w.settled) h)
]

enqueue-IsTableValid :
    (f : Fresh) (q : JobRequest) (db : Jobs)
    → IsTableValid db
    → IsTableValid (enqueued db (enqueue_publication_job f q db))
enqueue-IsTableValid f q db h = elim (enqueue_cases f q db) [
  | inl (job, _, same) ↦ rw same h
  | inr (inl (_, _, _, longer)) ↦
      rw longer (All-append IsJobValid db.rows _ h (new_job-IsJobValid f q, tt))
  | inr (inr refused) ↦ rw refused h
]

perform-IsTableValid : (db : Jobs) (c : Call) → IsTableValid db → IsTableValid (perform db c)
unfolding perform
perform-IsTableValid db (enqueue f q) h = enqueue-IsTableValid f q db h
perform-IsTableValid db (report now i r) h = report-IsTableValid now db i r h

-- In every history from a valid table, such as the empty one, every row is valid: the nullable
-- columns are those of its state, a succeeded job has deployed exactly the revision that was
-- requested, a failed one shows one of the safe codes, and no revision is blank.
pub run-IsTableValid : (db : Jobs) (cs : List Call) → IsTableValid db → IsTableValid (run db cs)
unfolding run
run-IsTableValid db [] h = h
run-IsTableValid db (c ∷ cs) h = run-IsTableValid (perform db c) cs (perform-IsTableValid db c h)

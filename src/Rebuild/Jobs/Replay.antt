-- ===== src/Rebuild/Jobs/Replay.antt =====
-- A runner that repeats its callback.
use taha_mohammadi_platform.Prelude.{
  ℕ, String, Option, none, some, List, Bool, true, false, not, ◌||◌, ◌==◌, ◌≡◌, ◌∙◌, ap, ◌≢◌, refl,
  inl, inr, arith, ok, err, Option-cases, Result-cases, eq_iff, eq_refl,
}
use taha_mohammadi_platform.Prelude.Lists.{contains, text_eq}
use taha_mohammadi_platform.Prelude.Text.{or_else, truthy}
use taha_mohammadi_platform.Rebuild.Models.{JobState, running, succeeded, PublicationJob}
use taha_mohammadi_platform.Rebuild.Jobs.{
  Jobs, find_job, save_job, ResultReport, Response, reply_job, reply_error, conflict, not_found,
  or_now, result_state, is_replay, is_terminal, advance, apply_removal, settle, record_job_result,
  safe_error_codes, safe_code,
}
use taha_mohammadi_platform.Rebuild.Jobs.Validity.{build_failed_safe}
use taha_mohammadi_platform.Rebuild.Jobs.Steps.{
  settle-eq-ok, settle-Moved, stamped, apply_removal_keeps, find_job-save_job, find_job_id,
}

-- The error code of a failure report is one that the job keeps as it is.
abbrev pub keeps_code : Option String → Bool
keeps_code c = not (truthy c) || contains safe_error_codes (or_else c "")

advance_replays :
    (now : ℕ) (job moved : PublicationJob) (s new : JobState) (r : ResultReport)
    → advance now job s new r ≡ ok moved
    → is_terminal new ≡ true
    → (new ≡ JobState.failed → keeps_code r.error_code ≡ true)
    → (moved.state ≡ new) × (is_replay moved new new r ≡ true)
unfolding advance is_replay or_else truthy safe_code
advance_replays now job moved running succeeded r h t k =
    ground (arith, eq_refl (or_else r.artifact_revision ""))
advance_replays now job moved running JobState.failed r h t k =
    ground (arith, k refl, eq_refl (or_else r.error_code ""))
advance_replays now job moved s new r h t k = ground arith

-- A job that has reached the reported terminal state answers with itself, at any time.
settle-replay :
    (now : ℕ) (job : PublicationJob) (new : JobState) (r : ResultReport)
    → result_state r.state ≡ some new
    → job.state ≡ new
    → is_terminal new ≡ true
    → is_replay job new new r ≡ true
    → settle now job r ≡ err (reply_job job)
unfolding settle
settle-replay now job new r named e t again = ground (arith)

-- A 200 that saves nothing is such an answer.
settle_200 :
    (now now' : ℕ) (job : PublicationJob) (r : ResultReport) (response : Response)
    → settle now job r ≡ err response
    → response.status ≡ 200
    → settle now' job r ≡ err response
unfolding settle advance apply_removal
settle_200 now now' job r response h e = ground arith

apply_removal-is_replay :
    (s : String) (job moved : PublicationJob) (r : ResultReport) (new : JobState)
    → apply_removal s job ≡ ok moved
    → is_replay job new new r ≡ true
    → is_replay moved new new r ≡ true
unfolding apply_removal is_replay
apply_removal-is_replay s job moved r succeeded h e = ground arith
apply_removal-is_replay s job moved r new h e = ground arith

-- The reports that a job answers again as it did.
abbrev pub Repeatable : ResultReport → Type 0
Repeatable r =
    ((r.state == "running") ≡ false)
    × (result_state r.state ≡ some JobState.failed → keeps_code r.error_code ≡ true)

is_replay-stamped :
    (now : ℕ) (job : PublicationJob) (r : ResultReport) (new : JobState)
    → is_replay job new new r ≡ true
    → is_replay (stamped now job) new new r ≡ true
unfolding is_replay
is_replay-stamped now job r succeeded h = h
is_replay-stamped now job r JobState.failed h = h
is_replay-stamped now job r new h = h

settle_repeats :
    (now now' : ℕ) (job saved : PublicationJob) (r : ResultReport)
    → Repeatable r
    → settle now job r ≡ ok saved
    → settle now' (stamped now saved) r ≡ err (reply_job (stamped now saved))
unfolding result_state
settle_repeats now now' job saved r rep h =
    let s = settle-eq-ok now job saved r h in
    let terminal : is_terminal s.new ≡ true = ground (arith, s.named) in
    let (state, again) =
      advance_replays now job s.moved job.state s.new r s.advanced terminal
        (λ e. rep.1 (s.named ∙ ap some e)) in
    let after = apply_removal-is_replay _ s.moved saved r s.new s.removed again in
    settle-replay now' (stamped now saved) s.new r s.named
      (cc ((apply_removal_keeps _ s.moved saved s.removed).0)) terminal
      (is_replay-stamped now saved r s.new after)

find_written :
    (now : ℕ) (rows : List PublicationJob) (i : ℕ) (job saved : PublicationJob)
    → find_job i rows ≡ some job
    → saved.id ≡ job.id
    → find_job i (save_job (stamped now saved) rows) ≡ some (stamped now saved)
find_written now rows i job saved found same =
    ground (arith, find_job-save_job (stamped now saved) rows i, find_job_id i rows job)

answer_of_find :
    (now : ℕ) (db : Jobs) (i : ℕ) (r : ResultReport) (job : PublicationJob) (response : Response)
    → find_job i db.rows ≡ some job
    → settle now job r ≡ err response
    → record_job_result now db i r ≡ (response, db)
unfolding record_job_result
answer_of_find now db i r job response found h = rw (found, record_job_result) (rw h)

save_of_find :
    (now : ℕ) (db : Jobs) (i : ℕ) (r : ResultReport) (job saved : PublicationJob)
    → find_job i db.rows ≡ some job
    → settle now job r ≡ ok saved
    → record_job_result now db i r
      ≡ (reply_job (stamped now saved), record db { rows = save_job (stamped now saved) db.rows })
unfolding record_job_result
save_of_find now db i r job saved found h = rw (found, record_job_result) (rw h)

answer_of_absent :
    (now : ℕ) (db : Jobs) (i : ℕ) (r : ResultReport)
    → find_job i db.rows ≡ none
    → record_job_result now db i r ≡ (reply_error 404 not_found, db)
unfolding record_job_result
answer_of_absent now db i r absent = rw (absent, record_job_result)

not_404 : ◌≢◌ {A = ℕ} 404 200
not_404 e = omega arith

-- A callback with a terminal state that was answered 200 can be sent again, at any later time and
-- as often as wanted: it gets the same answer and changes nothing. For a failure the reported code
-- must be blank or one of the safe codes.
pub record_job_result_repeats :
    (now now' : ℕ) (db : Jobs) (i : ℕ) (r : ResultReport)
    → Repeatable r
    → (record_job_result now db i r).0.status ≡ 200
    → record_job_result now' (record_job_result now db i r).1 i r ≡ record_job_result now db i r
record_job_result_repeats now now' db i r rep h = elim (Option-cases (find_job i db.rows)) [
  | inl absent ↦ absurd (not_404 (rw (answer_of_absent now db i r absent) at h))
  | inr (job, found) ↦ elim (Result-cases (settle now job r)) [
    | inl (saved, settled) ↦
        let same = (settle-Moved now job saved r settled).same_id in
        rw (save_of_find now db i r job saved found settled) (
          answer_of_find now' _ i r (stamped now saved) _
            (find_written now db.rows i job saved found same)
            (settle_repeats now now' job saved r rep settled))
    | inr (response, settled) ↦
        let first = answer_of_find now db i r job response found settled in
        rw first (
          answer_of_find now' db i r job response found
            (settle_200 now now' job r response settled (rw first at h)))
  ]
]

-- The row of a running job after a failure report.
abbrev failed_row : ℕ → PublicationJob → ResultReport → PublicationJob
failed_row now job r = record job {
  state = JobState.failed;
  error_code = some (safe_code r.error_code);
  started_at = or_now job.started_at now;
  finished_at = some now;
}

advance_failure :
    (now : ℕ) (job : PublicationJob) (r : ResultReport)
    → job.state ≡ running
    → advance now job job.state JobState.failed r ≡ ok (failed_row now job r)
unfolding advance
advance_failure now job r state = ground arith

no_removal : (job : PublicationJob) → apply_removal "" job ≡ ok job
unfolding apply_removal
no_removal job = refl

settle_failure :
    (now : ℕ) (job : PublicationJob) (r : ResultReport)
    → job.state ≡ running
    → result_state r.state ≡ some JobState.failed
    → r.removal_state ≡ none
    → settle now job r ≡ ok (failed_row now job r)
unfolding settle or_else
settle_failure now job r state named quiet =
    let still_open : is_terminal job.state ≡ false = ground arith in
    rw (settle, named, still_open, advance_failure now job r state, quiet)
      (no_removal (failed_row now job r))

unsafe_kept :
    (now : ℕ) (job : PublicationJob) (r : ResultReport)
    → keeps_code r.error_code ≡ false
    → is_replay (stamped now (failed_row now job r)) JobState.failed JobState.failed r ≡ false
unfolding is_replay truthy or_else safe_code
unsafe_kept now job r unsafe = elim (Option-cases r.error_code) [
  | inl blank ↦ cc (rw (keeps_code, blank) at unsafe)
  | inr (c, given) ↦ ground (arith, eq_iff "BUILD_FAILED" c, eq_iff c "", build_failed_safe)
]

settle_conflict :
    (now : ℕ) (job : PublicationJob) (r : ResultReport)
    → job.state ≡ JobState.failed
    → result_state r.state ≡ some JobState.failed
    → is_replay job JobState.failed JobState.failed r ≡ false
    → settle now job r ≡ err (reply_error 409 conflict)
unfolding settle
settle_conflict now job r state named other = ground arith

-- The exception. A failure reported for a running job with a code that is set and not safe, and
-- with no removal state, is answered 200, and the same callback sent again is answered 409.
pub unsafe_code_conflicts :
    (now now' : ℕ) (db : Jobs) (i : ℕ) (r : ResultReport) (job : PublicationJob)
    → find_job i db.rows ≡ some job
    → job.state ≡ running
    → result_state r.state ≡ some JobState.failed
    → r.removal_state ≡ none
    → keeps_code r.error_code ≡ false
    → ((record_job_result now db i r).0.status ≡ 200)
      × (record_job_result now' (record_job_result now db i r).1 i r
          ≡ (reply_error 409 conflict, (record_job_result now db i r).1))
unsafe_code_conflicts now now' db i r job found state named quiet unsafe =
    let saved = failed_row now job r in
    let written = find_written now db.rows i job saved found refl in
    let conflicts =
      settle_conflict now' (stamped now saved) r refl named (unsafe_kept now job r unsafe) in
    rw (save_of_find now db i r job saved found (settle_failure now job r state named quiet))
      (refl, answer_of_find now' _ i r (stamped now saved) _ written conflicts)

-- ===== src/Rebuild/Jobs/Refinement.antt =====
-- A board that knows of each job only its phase, as the specification of the job table.
use taha_mohammadi_platform.Prelude.{
  ℕ, Option, none, some, List, [], ◌∷◌, Bool, true, false, ◌≡◌, ◌≢◌, refl, ap, ◌∙◌, inl, inr, arith,
  eqb, eqb_iff, if◌then◌else◌, Option-cases,
}
use taha_mohammadi_platform.Rebuild.Models.{JobState, queued, PublicationJob}
use taha_mohammadi_platform.Rebuild.Jobs.{
  Jobs, Fresh, JobRequest, find_job, ResultReport, record_job_result, id_taken, new_job,
  enqueue_publication_job,
}
use taha_mohammadi_platform.Rebuild.Jobs.Steps.{
  JobStep, settle-Moved, stamped, record_job_result_cases, find_job-save_job, find_job_id,
}
use taha_mohammadi_platform.Rebuild.Jobs.Enqueue.{enqueue_cases, extended}
use taha_mohammadi_platform.Rebuild.Jobs.Claims.{
  Call, enqueue, report, enqueued, perform, run, find_job-append,
}

-- A board: the phase of each job, by id.
abbrev pub Board : Type 0
Board = ℕ → Option JobState

-- The two boards agree but at one job.
abbrev pub SameBut : ℕ → Board → Board → Type 0
SameBut i f g = (j : ℕ) → j ≢ i → g j ≡ f j

-- What the specification allows in one step: nothing, a new job in the queue, or one job that takes
-- one step of its life.
pub data Advances (f g : Board) : Type 0 where
  idle : ((j : ℕ) → g j ≡ f j) → Advances f g
  added : (i : ℕ) → f i ≡ none → g i ≡ some queued → SameBut i f g → Advances f g
  moved :
      (i : ℕ) (s t : JobState)
      → f i ≡ some s
      → g i ≡ some t
      → JobStep s t
      → SameBut i f g
      → Advances f g

-- A run of the specification.
pub data Reaches : Board → Board → Type 0 where
  done : (f : Board) → Reaches f f
  onward : (f g h : Board) → Advances f g → Reaches g h → Reaches f h

-- The board that a table stands for.
abbrev pub phase : Option PublicationJob → Option JobState
phase none = none
phase (some job) = some job.state

abbrev pub board : Jobs → Board
board db i = phase (find_job i db.rows)

eqb_self : (n : ℕ) → eqb n n ≡ true
eqb_self n = ground arith

other-id : (i j : ℕ) → j ≢ i → eqb i j ≡ false
other-id i j apart = ground (arith, eqb_iff i j)

report-Advances :
    (now : ℕ) (db : Jobs) (i : ℕ) (r : ResultReport)
    → Advances (board db) (board (record_job_result now db i r).1)
report-Advances now db i r = elim (record_job_result_cases now db i r) [
  | inl same ↦ rw same (idle (λ j. refl))
  | inr w ↦
      let step = settle-Moved now w.job w.saved r w.settled in
      let id : w.saved.id ≡ i = cc (step.same_id, find_job_id i db.rows w.job w.found) in
      let new = stamped now w.saved in
      rw (w.result) (
        moved i w.job.state w.saved.state (rw (w.found) refl)
          (rw (find_job-save_job new db.rows i, id, w.found, eqb_self i) refl) step.step
          (λ j apart. rw (find_job-save_job new db.rows j, id, other-id i j apart) refl))
]

phase_new :
    (f : Fresh) (q : JobRequest)
    → (phase (some (new_job f q)) ≡ some queued) × ((new_job f q).id ≡ f.uuid)
unfolding new_job
phase_new f q = (refl, refl)

-- What a lookup in the longer table answers.
abbrev or_new : Option PublicationJob → Bool → PublicationJob → Option PublicationJob
or_new o b job = elim o [ some k ↦ some k | none ↦ if b then some job else none ]

or_new-here :
    (o : Option PublicationJob) (b : Bool) (job : PublicationJob)
    → o ≡ none
    → b ≡ true
    → phase (or_new o b job) ≡ phase (some job)
or_new-here none b job _ h = rw h refl
or_new-here (some k) b job e h = cc e

or_new-other :
    (o : Option PublicationJob) (b : Bool) (job : PublicationJob)
    → b ≡ false
    → phase (or_new o b job) ≡ phase o
or_new-other none b job h = rw h refl
or_new-other (some k) b job h = refl

appended-Advances :
    (f : Fresh) (q : JobRequest) (db : Jobs)
    → id_taken f.uuid db.rows ≡ false
    → Advances (board db) (board (extended f q db))
appended-Advances f q db free =
    let job = new_job f q in
    let (queued_new, id) = phase_new f q in
    let grown = find_job-append db.rows job in
    elim (Option-cases (find_job f.uuid db.rows)) [
      | inr (row, found) ↦ cc (rw (id_taken, found) at free)
      | inl new ↦
          let same : eqb job.id f.uuid ≡ true = rw id (eqb_self f.uuid) in
          added f.uuid (rw new refl)
            (ap phase (grown f.uuid)
              ∙ or_new-here (find_job f.uuid db.rows) (eqb job.id f.uuid) job new same
              ∙ queued_new)
            (λ j apart.
              let other : eqb job.id j ≡ false = rw id (other-id f.uuid j apart) in
              ap phase (grown j) ∙ or_new-other (find_job j db.rows) (eqb job.id j) job other)
    ]

enqueue-Advances :
    (f : Fresh) (q : JobRequest) (db : Jobs)
    → Advances (board db) (board (enqueued db (enqueue_publication_job f q db)))
enqueue-Advances f q db = elim (enqueue_cases f q db) [
  | inl (job, found, e) ↦ rw e (idle (λ j. refl))
  | inr (inl (_, free, _, e)) ↦ rw e (appended-Advances f q db free)
  | inr (inr e) ↦ rw e (idle (λ j. refl))
]

perform-Advances : (db : Jobs) (c : Call) → Advances (board db) (board (perform db c))
unfolding perform
perform-Advances db (enqueue f q) = enqueue-Advances f q db
perform-Advances db (report now i r) = report-Advances now db i r

-- Any history of enqueues and callbacks is, seen through the board of the table, a run of the
-- specification: jobs appear in the queue, under an id that was free, and each later change is one
-- step of one job's life.
pub run-Reaches : (db : Jobs) (cs : List Call) → Reaches (board db) (board (run db cs))
unfolding run
run-Reaches db [] = done (board db)
run-Reaches db (c ∷ cs) =
    onward (board db) (board (perform db c)) (board (run (perform db c) cs)) (perform-Advances db c)
      (run-Reaches (perform db c) cs)

-- ===== src/Rebuild/Jobs/Claims.antt =====
-- Histories of calls on the job table, and the claims of one job in them.
use taha_mohammadi_platform.Prelude.{
  ℕ, ◌+◌, ◌≤◌, Option, none, some, List, [], ◌∷◌, ◌++◌, true, false, ◌&&◌, ◌==◌, ◌≡◌, ◌≢◌, refl,
  inl, inr, arith, if◌then◌else◌, eqb, eqb_iff, Result, ok, err, Option-cases, Result-cases,
}
use taha_mohammadi_platform.Rebuild.Models.{JobState, queued, running, PublicationJob}
use taha_mohammadi_platform.Rebuild.Jobs.{
  is_replay, apply_removal, Jobs, Fresh, JobRequest, IntegrityError, find_job, ResultReport,
  Response, result_state, advance, settle, record_job_result, new_job, enqueue_publication_job,
}
use taha_mohammadi_platform.Rebuild.Jobs.Steps.{
  JobStep, stay, claim, succeed, fail, Moved, settle-Moved, stamped, record_job_result_moves,
  find_job-save_job, find_job_id,
}

-- What happens to the job table: an enqueue, or a callback at a time. The calls of concurrent
-- runners are serialised by the row lock, so a history is a list of calls.
pub data Call : Type 0 where
  enqueue : Fresh → JobRequest → Call
  report : ℕ → ℕ → ResultReport → Call

abbrev pub enqueued : Jobs → Result IntegrityError (PublicationJob × Jobs) → Jobs
enqueued db (ok (job, db')) = db'
enqueued db (err e) = db

unfoldable pub perform : Jobs → Call → Jobs
perform db (enqueue f q) = enqueued db (enqueue_publication_job f q db)
perform db (report now i r) = (record_job_result now db i r).1

unfoldable pub run : Jobs → List Call → Jobs
run db [] = db
run db (c ∷ cs) = run (perform db c) cs

-- One, if the call is a claim of `j` that is answered 200.
unfoldable pub claims_of : ℕ → Jobs → Call → ℕ
claims_of j db (enqueue f q) = 0
claims_of j db (report now i r) =
    if eqb i j && (r.state == "running" && eqb (record_job_result now db i r).0.status 200)
    then 1
    else 0

unfoldable pub claims : ℕ → Jobs → List Call → ℕ
claims j db [] = 0
claims j db (c ∷ cs) = claims_of j db c + claims j (perform db c) cs

-- Whether `j` can still be claimed: it is queued, or not there yet.
abbrev claimable : Option PublicationJob → ℕ
claimable none = 1
claimable (some job) = elim job.state [ queued ↦ 1 | _ ↦ 0 ]

claimable-step :
    {s t : JobState} (a b : PublicationJob)
    → JobStep s t
    → a.state ≡ s
    → b.state ≡ t
    → claimable (some b) ≤ claimable (some a)
claimable-step a b stay p q = ground arith
claimable-step a b claim p q = ground arith
claimable-step a b succeed p q = ground arith
claimable-step a b fail p q = ground arith

pub find_job-append :
    (rows : List PublicationJob) (job : PublicationJob) (i : ℕ)
    → find_job i (rows ++ job ∷ [])
      ≡ elim (find_job i rows) [ some k ↦ some k | none ↦ if eqb job.id i then some job else none ]
unfolding find_job
find_job-append [] job i = refl
find_job-append (row ∷ rest) job i = ground (arith, find_job-append rest job i)

-- A claim is refused unless the job is queued, and a refusal is no 200.
claim_refused :
    (now : ℕ) (job : PublicationJob) (r : ResultReport) (response : Response)
    → (r.state == "running") ≡ true
    → settle now job r ≡ err response
    → eqb response.status 200 ≡ false
unfolding settle result_state is_replay advance apply_removal
claim_refused now job r response h e = ground arith

claim_granted :
    (now : ℕ) (job saved : PublicationJob) (r : ResultReport)
    → (r.state == "running") ≡ true
    → settle now job r ≡ ok saved
    → (job.state ≡ queued) × (saved.state ≡ running)
unfolding settle result_state advance apply_removal
claim_granted now job saved r h e = ground arith

-- A claim that is answered 200 takes its job from queued to running.
claim_won :
    (now : ℕ) (db : Jobs) (i : ℕ) (r : ResultReport)
    → (r.state == "running") ≡ true
    → eqb (record_job_result now db i r).0.status 200 ≡ true
    → (claimable (find_job i db.rows) ≡ 1)
      × (claimable (find_job i (record_job_result now db i r).1.rows) ≡ 0)
unfolding record_job_result
claim_won now db i r h won = elim (Option-cases (find_job i db.rows)) [
  | inl absent ↦ cc (rw (absent, record_job_result) at won)
  | inr (job, found) ↦ elim (Result-cases (settle now job r)) [
    | inl (saved, settled) ↦
        let (was, now_running) = claim_granted now job saved r h settled in
        rw (found, record_job_result)
          (rw settled (
            ground (
              arith,
              find_job_id i db.rows job,
              find_job-save_job (stamped now saved) db.rows i,
              (settle-Moved now job saved r settled).same_id,
            )))
    | inr (response, settled) ↦
        cc (
          claim_refused now job r response h settled,
          rw (found, record_job_result, settled) at won,
        )
  ]
]

claimable-Moved :
    (old new : PublicationJob) → Moved old new → claimable (some new) ≤ claimable (some old)
claimable-Moved old new m = claimable-step old new m.step refl refl

claimable-le-one : (o : Option PublicationJob) → claimable o ≤ 1
claimable-le-one o = ground arith

-- A new row is queued, and takes no id that is there.
claimable-enqueue :
    (j : ℕ) (f : Fresh) (q : JobRequest) (db : Jobs)
    → 0 + claimable (find_job j (enqueued db (enqueue_publication_job f q db)).rows)
      ≤ claimable (find_job j db.rows)
unfolding enqueue_publication_job new_job
claimable-enqueue j f q db = ground (arith, find_job-append db.rows (new_job f q) j)

-- A call that claims `j` uses up its claim; no call brings one back.
claims_step :
    (j : ℕ) (db : Jobs) (c : Call)
    → claims_of j db c + claimable (find_job j (perform db c).rows) ≤ claimable (find_job j db.rows)
unfolding claims_of perform
claims_step j db (enqueue f q) = claimable-enqueue j f q db
claims_step j db (report now i r) = elim (Option-cases (find_job j db.rows)) [
  | inl absent ↦ ground (
    arith,
    claim_won now db i r,
    claimable-le-one (find_job j (record_job_result now db i r).1.rows),
    eqb_iff i j,
  )
  | inr (old, found) ↦
      let (new, found', moved) = record_job_result_moves now db i r j old found in
      ground (arith, claim_won now db i r, claimable-Moved old new moved, eqb_iff i j)
]

claims-le-claimable :
    (j : ℕ) (db : Jobs) (cs : List Call)
    → claims j db cs + claimable (find_job j (run db cs).rows) ≤ claimable (find_job j db.rows)
unfolding claims run
claims-le-claimable j db [] = omega arith
claims-le-claimable j db (c ∷ cs) =
    omega (arith, claims_step j db c, claims-le-claimable j (perform db c) cs)

-- In any history of enqueues and callbacks, from any table, at most one call claims the job `j`
-- and is answered 200, and none does if `j` is in the table at the start and not queued.
pub claimed_once :
    (j : ℕ) (db : Jobs) (cs : List Call)
    → (claims j db cs ≤ 1)
      × ((job : PublicationJob)
          → find_job j db.rows ≡ some job
          → job.state ≢ queued
          → claims j db cs ≡ 0)
claimed_once j db cs = (
  omega (arith, claims-le-claimable j db cs, claimable-le-one (find_job j db.rows)),
  λ job found other. ground (arith, claims-le-claimable j db cs),
)

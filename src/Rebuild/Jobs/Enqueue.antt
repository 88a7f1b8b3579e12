-- ===== src/Rebuild/Jobs/Enqueue.antt =====
-- What an enqueue does to the table.
use text.Mathlib.TextLemmas.{cons-append}
use taha_mohammadi_platform.Prelude.{
  String, Option, none, some, List, [], ◌∷◌, ◌++◌, false, ◌==◌, ◌<>◌, ◌≡◌, ◌⊎◌, refl, inl, inr,
  arith, if◌then◌else◌, ◌||◌, ok, err, Bool-cases, Option-cases, eq_refl,
}
use taha_mohammadi_platform.Prelude.Text.{is_blank}
use taha_mohammadi_platform.Prelude.Lists.{In}
use taha_mohammadi_platform.Rebuild.Models.{PublicationJob, RemovalState, pending}
use taha_mohammadi_platform.Rebuild.Paths.{Item}
use taha_mohammadi_platform.Rebuild.Paths.Coverage.{affected_of_revoked}
use taha_mohammadi_platform.Rebuild.Jobs.{
  Jobs, invalidation_request, Fresh, JobRequest, integrity_error, find_key, existing_job, key_is,
  key_taken, id_taken, new_job, new_job_revision, enqueue_publication_job,
}

-- The table with the new row, whose build is dispatched on commit.
abbrev pub extended : Fresh → JobRequest → Jobs → Jobs
extended f q db = record {
  rows = db.rows ++ new_job f q ∷ [];
  dispatched = db.dispatched ++ f.uuid ∷ [];
}

pub enqueue_cases :
    (f : Fresh) (q : JobRequest) (db : Jobs)
    → ((job : PublicationJob) × (existing_job q.idempotency_key db.rows ≡ some job)
        × (enqueue_publication_job f q db ≡ ok (job, db)))
      ⊎ ((existing_job q.idempotency_key db.rows ≡ none)
          × (id_taken f.uuid db.rows ≡ false)
          × (key_taken q.idempotency_key db.rows ≡ false)
          × (enqueue_publication_job f q db ≡ ok (new_job f q, extended f q db)))
      ⊎ (enqueue_publication_job f q db ≡ err integrity_error)
unfolding enqueue_publication_job
enqueue_cases f q db = elim (Option-cases (existing_job q.idempotency_key db.rows)) [
  | inr (job, old) ↦ inl (job, old, rw (old, enqueue_publication_job))
  | inl new ↦
      inr (elim (Bool-cases (id_taken f.uuid db.rows || key_taken q.idempotency_key db.rows)) [
        | inl taken ↦ inr (rw (new, enqueue_publication_job) (rw taken))
        | inr free ↦
            inl (new, ground arith, ground arith, rw (new, enqueue_publication_job) (rw free))
      ])
]

-- A generated revision is not blank.
pub new_job_revision_set : (f : Fresh) → is_blank (new_job_revision f) ≡ false
unfolding new_job_revision is_blank
new_job_revision_set f = rw (cons-append "r" "ev-" (f.stamp <> ("-" <> f.hex))) refl

find_key-append :
    (k : String) (rows : List PublicationJob) (job : PublicationJob)
    → find_key k (rows ++ job ∷ []) ≡ elim (find_key k rows) [
      | some old ↦ some old
      | none ↦ if key_is k job.idempotency_key then some job else none
    ]
unfolding find_key
find_key-append k [] job = refl
find_key-append k (row ∷ rest) job = ground (arith, find_key-append k rest job)

existing_new :
    (f : Fresh) (q : JobRequest) (rows : List PublicationJob) (k : String)
    → (k == "") ≡ false
    → q.idempotency_key ≡ some k
    → existing_job (some k) rows ≡ none
    → existing_job (some k) (rows ++ new_job f q ∷ []) ≡ some (new_job f q)
unfolding existing_job new_job
existing_new f q rows k set key absent =
    ground (arith, find_key-append k rows (new_job f q), eq_refl k)

enqueue-existing :
    (f : Fresh) (q : JobRequest) (db : Jobs) (job : PublicationJob)
    → existing_job q.idempotency_key db.rows ≡ some job
    → enqueue_publication_job f q db ≡ ok (job, db)
unfolding enqueue_publication_job
enqueue-existing f q db job old = rw (old, enqueue_publication_job)

-- Enqueueing is idempotent under a non-empty key: after a successful enqueue, any further one under
-- the same key returns that job, whatever else it asks for, adds no row and dispatches no build.
pub enqueue_twice :
    (f f' : Fresh) (q q' : JobRequest) (db db' : Jobs) (job : PublicationJob) (k : String)
    → (k == "") ≡ false
    → q.idempotency_key ≡ some k
    → q'.idempotency_key ≡ some k
    → enqueue_publication_job f q db ≡ ok (job, db')
    → enqueue_publication_job f' q' db' ≡ ok (job, db')
enqueue_twice f f' q q' db db' job k set key key' h = enqueue-existing f' q' db' job (rw key' known)
  where
    known : existing_job (some k) db'.rows ≡ some job
    known = elim (enqueue_cases f q db) [
      | inl (old, found, same) ↦ cc
      | inr (inl (absent, _, _, longer)) ↦
          cc (existing_new f q db.rows k set key (rw key at absent))
      | inr (inr refused) ↦ cc
    ]

-- Whatever the action and the removal asked for: the paths that a content invalidation denies are
-- among those that it rebuilds, and it denies none unless the removal is pending.
pub invalidation_denies :
    (entity : String) (item : Item) (action revision : String) (removal : Option RemovalState)
    (updated_at : Option String) (p : String)
    → let q = invalidation_request entity item action revision removal updated_at in
      In p q.revoked_paths → In p q.affected_paths × (q.removal_state ≡ pending)
unfolding invalidation_request
invalidation_denies entity item action revision removal updated_at p m =
    ground (arith, affected_of_revoked entity item p)

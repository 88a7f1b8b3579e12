-- ===== src/Rebuild/Jobs/Steps.antt =====
-- Which rows a result callback changes, and how.
use taha_mohammadi_platform.Prelude.{
  subst, Result-cases, not, bind-eq-ok, require, ℕ, String, none, some, List, [], ◌∷◌, true, false,
  ◌≡◌, ◌≢◌, refl, ◌⊎◌, inl, inr, arith, if◌then◌else◌, eqb, ok, Bool-cases, Option-cases,
}
use taha_mohammadi_platform.Prelude.Text.{or_else}
use taha_mohammadi_platform.Rebuild.Models.{JobState, queued, running, succeeded, PublicationJob}
use taha_mohammadi_platform.Rebuild.Jobs.{
  reply_job, known_state, terminal_reply, Jobs, find_job, save_job, ResultReport, result_state,
  is_terminal, advance, apply_removal, settle, record_job_result,
}

-- The life of a job.
pub data JobStep : JobState → JobState → Type 0 where
  stay : {s : JobState} → JobStep s s
  claim : JobStep queued running
  succeed : JobStep running succeeded
  fail : JobStep running JobState.failed

-- What a callback may do to a row.
pub record Moved (old new : PublicationJob) : Type 0 where
  pub step : JobStep old.state new.state
  pub frozen : is_terminal old.state ≡ true → new ≡ old
  pub same_id : new.id ≡ old.id
  pub same_key : new.idempotency_key ≡ old.idempotency_key
  pub same_locale : new.locale ≡ old.locale
  pub same_request : new.requested_revision ≡ old.requested_revision
  pub same_affected : new.affected_paths ≡ old.affected_paths
  pub same_revoked : new.revoked_paths ≡ old.revoked_paths
  pub same_creation : new.created_at ≡ old.created_at

pub Moved-refl : (job : PublicationJob) → Moved job job
Moved-refl job = record {
  step = stay;
  frozen = λ _. refl;
  same_id = refl;
  same_key = refl;
  same_locale = refl;
  same_request = refl;
  same_affected = refl;
  same_revoked = refl;
  same_creation = refl;
}

ruleset edges = (stay, claim, succeed, fail)

advance_step :
    (now : ℕ) (job moved : PublicationJob) (s new : JobState) (r : ResultReport)
    → advance now job s new r ≡ ok moved
    → JobStep s moved.state
unfolding advance
advance_step now job moved queued running r h = grind (arith, edges)
advance_step now job moved s new r h = grind (arith, edges)

-- What the branches of the callback leave alone.
abbrev Kept : PublicationJob → PublicationJob → Type 0
Kept old new =
    (new.id ≡ old.id)
    × (new.idempotency_key ≡ old.idempotency_key)
    × (new.locale ≡ old.locale)
    × (new.requested_revision ≡ old.requested_revision)
    × (new.affected_paths ≡ old.affected_paths)
    × (new.revoked_paths ≡ old.revoked_paths)
    × (new.created_at ≡ old.created_at)

advance_keeps :
    (now : ℕ) (job moved : PublicationJob) (s new : JobState) (r : ResultReport)
    → advance now job s new r ≡ ok moved
    → Kept job moved
unfolding advance
advance_keeps now job moved queued running r h = ground arith
advance_keeps now job moved s new r h = ground arith

pub apply_removal_keeps :
    (s : String) (job moved : PublicationJob)
    → apply_removal s job ≡ ok moved
    → (moved.state ≡ job.state) × Kept job moved
unfolding apply_removal
apply_removal_keeps s job moved h = ground arith

-- The parts of a callback that saves its row.
pub record Settled (now : ℕ) (job saved : PublicationJob) (r : ResultReport) : Type 0 where
  pub new : JobState
  pub moved : PublicationJob
  pub named : result_state r.state ≡ some new
  pub open_job : is_terminal job.state ≡ false
  pub advanced : advance now job job.state new r ≡ ok moved
  pub removed : apply_removal (or_else r.removal_state "") moved ≡ ok saved

pub settle-eq-ok :
    (now : ℕ) (job saved : PublicationJob) (r : ResultReport)
    → settle now job r ≡ ok saved
    → Settled now job saved r
unfolding settle
settle-eq-ok now job saved r h =
    let (new, known, rest) = bind-eq-ok (known_state (result_state r.state)) _ _ h in
    let (_, still_open, rest') =
      bind-eq-ok (require (not (is_terminal job.state)) (terminal_reply job new r)) _ _ rest in
    let (moved, advanced, removed) = bind-eq-ok (advance now job job.state new r) _ _ rest' in
    record {
      new = new;
      moved = moved;
      named = ground arith;
      open_job = ground arith;
      advanced = advanced;
      removed = removed;
    }

pub settle-Moved :
    (now : ℕ) (job saved : PublicationJob) (r : ResultReport)
    → settle now job r ≡ ok saved
    → Moved job saved
settle-Moved now job saved r h =
    let s = settle-eq-ok now job saved r h in
    let (state, kept) = apply_removal_keeps _ s.moved saved s.removed in
    let before = advance_keeps now job s.moved job.state s.new r s.advanced in
    record {
      step = rw state (advance_step now job s.moved job.state s.new r s.advanced);
      frozen = λ t. cc (s.open_job);
      same_id = cc;
      same_key = cc;
      same_locale = cc;
      same_request = cc;
      same_affected = cc;
      same_revoked = cc;
      same_creation = cc;
    }

-- A write changes the row of its id and no other.
pub find_job-save_job :
    (job : PublicationJob) (rows : List PublicationJob) (i : ℕ)
    → find_job i (save_job job rows) ≡ (
        if eqb job.id i
        then elim (find_job i rows) [ none ↦ none | some _ ↦ some job ]
        else find_job i rows)
unfolding find_job save_job
find_job-save_job job [] i = ground arith
find_job-save_job job (row ∷ rest) i = ground (arith, find_job-save_job job rest i)

pub find_job_id :
    (i : ℕ) (rows : List PublicationJob) (job : PublicationJob)
    → find_job i rows ≡ some job
    → job.id ≡ i
unfolding find_job
find_job_id i [] job h = cc
find_job_id i (row ∷ rest) job h = ground (arith, find_job_id i rest job)

-- The row that a callback writes.
abbrev pub stamped : ℕ → PublicationJob → PublicationJob
stamped now saved = record saved { updated_at = now }

-- A callback that changed something.
pub record Wrote (now : ℕ) (db : Jobs) (i : ℕ) (r : ResultReport) : Type 0 where
  pub job : PublicationJob
  pub saved : PublicationJob
  pub found : find_job i db.rows ≡ some job
  pub settled : settle now job r ≡ ok saved
  pub result :
      record_job_result now db i r
      ≡ (reply_job (stamped now saved), record db { rows = save_job (stamped now saved) db.rows })

pub record_job_result_cases :
    (now : ℕ) (db : Jobs) (i : ℕ) (r : ResultReport)
    → ((record_job_result now db i r).1 ≡ db) ⊎ Wrote now db i r
unfolding record_job_result
record_job_result_cases now db i r = elim (Option-cases (find_job i db.rows)) [
  | inl absent ↦ inl (rw (absent, record_job_result))
  | inr (job, found) ↦ elim (Result-cases (settle now job r)) [
    | inl (saved, settled) ↦ inr (record {
      job = job;
      saved = saved;
      found = found;
      settled = settled;
      result = rw (found, record_job_result) (rw settled);
    })
    | inr (response, settled) ↦ inl (rw (found, record_job_result) (rw settled))
  ]
]

Moved-stamped :
    {old saved : PublicationJob} (now : ℕ)
    → Moved old saved
    → is_terminal old.state ≡ false
    → Moved old (stamped now saved)
Moved-stamped now m still_open = record {
  step = m.step;
  frozen = λ t. cc still_open;
  same_id = m.same_id;
  same_key = m.same_key;
  same_locale = m.same_locale;
  same_request = m.same_request;
  same_affected = m.same_affected;
  same_revoked = m.same_revoked;
  same_creation = m.same_creation;
}

-- The row of `j` after the row of `i` has been written.
row_after :
    (now : ℕ) (rows : List PublicationJob) (i j : ℕ) (job saved old : PublicationJob)
    → find_job i rows ≡ some job
    → find_job j rows ≡ some old
    → Moved job saved
    → is_terminal job.state ≡ false
    → (new : PublicationJob) × (find_job j (save_job (stamped now saved) rows) ≡ some new)
      × Moved old new
row_after now rows i j job saved old here found moved still_open =
    elim (Bool-cases (eqb job.id j)) [
      | inl same ↦
          let is_old : job ≡ old = ground (arith, find_job_id i rows job) in
          (
            stamped now saved,
            ground (arith, find_job-save_job (stamped now saved) rows j, moved.same_id),
            subst (λ o. Moved o (stamped now saved)) is_old (Moved-stamped now moved still_open),
          )
      | inr other ↦ (
        old,
        ground (arith, find_job-save_job (stamped now saved) rows j, moved.same_id),
        Moved-refl old,
      )
    ]

-- Whatever a callback reports about whichever job, each row of the table stays, moves along the
-- diagram at most, keeps its identity, its request and its paths, and does not change at all once
-- it has a terminal state.
pub record_job_result_moves :
    (now : ℕ) (db : Jobs) (i : ℕ) (r : ResultReport) (j : ℕ) (old : PublicationJob)
    → find_job j db.rows ≡ some old
    → (new : PublicationJob) × (find_job j (record_job_result now db i r).1.rows ≡ some new)
      × Moved old new
record_job_result_moves now db i r j old found = elim (record_job_result_cases now db i r) [
  | inl same ↦ (old, rw same found, Moved-refl old)
  | inr w ↦ rw (w.result) (
      row_after now db.rows i j w.job w.saved old w.found found
        (settle-Moved now w.job w.saved r w.settled)
        (settle-eq-ok now w.job w.saved r w.settled).open_job)
]

-- A callback that does not answer 200 changes nothing, also where it had changed the row in memory.
pub record_job_result_atomic :
    (now : ℕ) (db : Jobs) (i : ℕ) (r : ResultReport)
    → (record_job_result now db i r).0.status ≢ 200
    → (record_job_result now db i r).1 ≡ db
unfolding record_job_result
record_job_result_atomic now db i r h = ground arith

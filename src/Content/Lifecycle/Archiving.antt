-- ===== src/Content/Lifecycle/Archiving.antt =====
-- What an archiving leaves of the snapshots and the job table.
use taha_mohammadi_platform.Prelude.{
  ℕ, String, Option, none, some, List, [], ◌∷◌, ◌++◌, false, ◌&&◌, ◌==◌, ◌≡◌, subst, refl, sym, ap,
  inl, inr, eqb, Bool-cases, ok,
}
use taha_mohammadi_platform.Prelude.Lists.{All}
use taha_mohammadi_platform.Rebuild.Models.{PublicationJob, queued, pending}
use taha_mohammadi_platform.Rebuild.Paths.{compute_affected_paths, compute_revoked_paths}
use taha_mohammadi_platform.Rebuild.Jobs.{
  Jobs, JobRequest, new_job, existing_job, enqueue_content_invalidation, invalidation_request,
  removal_of_action,
}
use taha_mohammadi_platform.Rebuild.Jobs.Enqueue.{enqueue_cases, extended}
use taha_mohammadi_platform.Content.Lifecycle.{
  Snapshot, invalidate_published_snapshots, Status, archived, parse_status, Row, Moment, Clock,
  Request, Store, announce, drop_snapshots, transition_item,
}
use taha_mohammadi_platform.Content.Lifecycle.Transitions.{transitioned, moved_row}

invalidated :
    (entity : String) (i : ℕ) (snapshots : List Snapshot)
    → All
        (λ s. (s.entity_key == entity && eqb s.object_id i) ≡ false)
        (invalidate_published_snapshots entity i snapshots)
unfolding invalidate_published_snapshots
invalidated entity i [] = tt
invalidated entity i (s ∷ rest) = elim (Bool-cases (s.entity_key == entity && eqb s.object_id i)) [
  | inl gone ↦ rw gone (invalidated entity i rest)
  | inr kept ↦ rw kept (kept, invalidated entity i rest)
]

abbrev archive_request : Clock → Request → Row → JobRequest
archive_request c q row =
    invalidation_request q.entity row.page "archive" "" none (some (c.isoformat row.updated_at))

-- The job that an archiving appends.
archive_job :
    (c : Clock) (q : Request) (row : Row) (jobs after : Jobs)
    → announce c q row archived jobs ≡ ok after
    → (job : PublicationJob) × (after.rows ≡ jobs.rows ++ job ∷ [])
      × (after.dispatched ≡ jobs.dispatched ++ job.id ∷ [])
      × (job.state ≡ queued)
      × (job.removal_state ≡ pending)
      × (job.locale ≡ row.page.locale)
      × (job.affected_paths ≡ compute_affected_paths q.entity row.page)
      × (job.revoked_paths ≡ compute_revoked_paths q.entity row.page)
unfolding announce enqueue_content_invalidation invalidation_request removal_of_action existing_job
    new_job
archive_job c q row jobs after h = elim (enqueue_cases q.fresh (archive_request c q row) jobs) [
  | inl (job, old, _) ↦ cc
  | inr (inl (_, _, _, longer)) ↦
      let same : extended q.fresh (archive_request c q row) jobs ≡ after = cc (rw longer at h) in
      (
        new_job q.fresh (archive_request c q row),
        ap (λ (j : Jobs). j.rows) (sym same),
        ap (λ (j : Jobs). j.dispatched) (sym same),
        refl,
        refl,
        refl,
        refl,
        refl,
      )
  | inr (inr refused) ↦ cc (rw refused at h)
]

-- An archiving leaves no publication snapshot with its entity and its row's key, and appends one
-- queued job, with a pending removal and the row's locale, that carries the affected paths of the
-- row and its revoked ones; the job's build is dispatched on commit.
pub archiving_revokes :
    (c : Clock) (q : Request) (m : Option Moment) (item : Row) (store : Store) (old : Status)
    (after : Store)
    → transition_item c q "archived" m item store ≡ ok (old, after)
    → All (λ s. (s.entity_key == q.entity && eqb s.object_id item.pk) ≡ false) after.snapshots
      × ((job : PublicationJob) × (after.jobs.rows ≡ store.jobs.rows ++ job ∷ [])
          × (after.jobs.dispatched ≡ store.jobs.dispatched ++ job.id ∷ [])
          × (job.state ≡ queued)
          × (job.removal_state ≡ pending)
          × (job.locale ≡ item.page.locale)
          × (job.affected_paths ≡ compute_affected_paths q.entity item.page)
          × (job.revoked_paths ≡ compute_revoked_paths q.entity item.page))
unfolding parse_status
archiving_revokes c q m item store old after h =
    let t = transitioned c q "archived" m item store old after h in
    let is_archived : archived ≡ t.new = cc (t.named) in
    (
      rw (t.snapshots) (
          subst
            (λ s.
              All (λ r. (r.entity_key == q.entity && eqb r.object_id item.pk) ≡ false)
                (drop_snapshots s q.entity item.pk store.snapshots))
            is_archived (invalidated q.entity item.pk store.snapshots)),
      archive_job c q (moved_row c t.new t.at item) store.jobs after.jobs (
          subst (λ s. announce c q (moved_row c t.new t.at item) s store.jobs ≡ ok after.jobs)
            (sym is_archived) t.announced),
    )

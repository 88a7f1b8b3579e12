-- ===== src/Content/Lifecycle.antt =====
-- apps/content/services/lifecycle.py: transitions of a content row and their side effects, and the
-- bulk archive. The rows of one model, the audit log, the publication snapshots
-- (apps/content/published.py, `invalidate_published_snapshots`) and the job table are one store.
-- A raised error ends the caller's transaction, so a failed call has no store.
pub mod Rows
pub mod Transitions
pub mod Archiving
pub mod Bulk
use Prim.Native.String.{count}
use taha_mohammadi_platform.Prelude.{
  ℕ, String, Option, none, some, List, [], ◌∷◌, ◌++◌, Bool, true, false, not, ◌&&◌, ◌||◌, ◌==◌,
  ◌<>◌, ltb, leb, eqb, if◌then◌else◌, Result, ok, err, ◌>>=◌, ◌>>◌, require,
}
use taha_mohammadi_platform.Prelude.Lists.{contains, dedup, length, text_eq, nat_eq}
use taha_mohammadi_platform.Prelude.Text.{or_else, strip, clip}
use taha_mohammadi_platform.Prelude.Decimal.{show_nat}
use taha_mohammadi_platform.Rebuild.Models.{pending, PublicationJob}
use taha_mohammadi_platform.Rebuild.Paths.{Item}
use taha_mohammadi_platform.Rebuild.Jobs.{Jobs, Fresh, enqueue_content_invalidation}

-- LifecycleStatus
pub data Status : Type 0 where
  draft review scheduled published archived : Status

unfoldable pub status_text : Status → String
status_text draft = "draft"
status_text review = "review"
status_text scheduled = "scheduled"
status_text published = "published"
status_text archived = "archived"

unfoldable pub parse_status : String → Option Status
parse_status s =
    if s == "draft"
    then some draft
    else if s == "review"
    then some review
    else if s == "scheduled"
    then some scheduled
    else if s == "published"
    then some published
    else if s == "archived"
    then some archived
    else none

-- ALLOWED_TRANSITIONS
unfoldable pub allowed : Status → Status → Bool
allowed draft review = true
allowed draft scheduled = true
allowed draft published = true
allowed draft archived = true
allowed review draft = true
allowed review scheduled = true
allowed review published = true
allowed review archived = true
allowed scheduled draft = true
allowed scheduled published = true
allowed scheduled archived = true
allowed published archived = true
allowed archived draft = true
allowed _ _ = false

abbrev pub transition_reason_max : ℕ
transition_reason_max = 500

abbrev pub bulk_archive_max_ids : ℕ
bulk_archive_max_ids = 50

-- A row: its lifecycle columns, the attributes that its pages depend on, and the course of a lesson.
-- `cleaned` is what `full_clean` says of the row's other fields, in a model whose `save` runs it on
-- published rows (Project); in other models it is absent.
pub record Row : Type 0 where
  pub pk : ℕ
  pub status : Status
  pub published_at : Option ℕ
  pub scheduled_for : Option ℕ
  pub updated_at : ℕ
  pub page : Item
  pub course_id : Option ℕ
  pub cleaned : Option Bool

-- LifecycleError by its code, an IntegrityError of the job table, and the ValidationError that
-- `full_clean` raises in a `save`.
pub data LifecycleError : Type 0 where
  validation duplicate job_integrity unclean : LifecycleError

-- A datetime argument: aware, as an instant, or naive, as a wall clock reading.
pub data Moment : Type 0 where
  aware naive : ℕ → Moment

-- The clock, the current time zone, and the ISO spelling of an instant.
pub record Clock : Type 0 where
  pub now : ℕ
  pub make_aware : ℕ → ℕ
  pub isoformat : ℕ → String

pub record AuditRow : Type 0 where
  pub user : ℕ
  pub action : String
  pub model_name : String
  pub object_id : String
  pub ip : String
  pub detail : String

pub record Snapshot : Type 0 where
  pub entity_key : String
  pub object_id : ℕ

pub record Store : Type 0 where
  pub rows : List Row
  pub audit : List AuditRow
  pub snapshots : List Snapshot
  pub jobs : Jobs

-- `objects.get(pk=...)`
unfoldable pub find_row : ℕ → List Row → Option Row
find_row i [] = none
find_row i (row ∷ rest) = if eqb row.pk i then some row else find_row i rest

unfoldable pub put_row : Row → List Row → List Row
put_row new [] = []
put_row new (row ∷ rest) =
    let others = put_row new rest in if eqb row.pk new.pk then new ∷ rest else row ∷ others

-- Two rows are equal in a column that both have.
abbrev pub same_text : Option String → Option String → Bool
same_text (some a) (some b) = a == b
same_text _ _ = false

-- The third column of the constraint on lessons; other models do not have it.
abbrev pub same_course : Option ℕ → Option ℕ → Bool
same_course none none = true
same_course (some a) (some b) = eqb a b
same_course _ _ = false

-- Another row has the same locale and slug, and the same course if it is a lesson.
unfoldable pub identity_taken : Row → List Row → Bool
identity_taken new [] = false
identity_taken new (row ∷ rest) =
    not (eqb row.pk new.pk)
      && (same_text row.page.locale new.page.locale
          && (same_text row.page.slug new.page.slug && same_course row.course_id new.course_id))
    || identity_taken new rest

abbrev pub is_published : Status → Bool
is_published published = true
is_published _ = false

abbrev pub rejects : Option Bool → Bool → Bool
rejects none taken = false
rejects (some good) taken = not good || taken

-- `Project.save`: a published row goes through `full_clean`, which looks at the constraint too.
unfoldable pub full_clean_raises : Row → List Row → Bool
full_clean_raises item rows =
    is_published item.status && rejects item.cleaned (identity_taken item rows)

-- `item.save()`, with IntegrityError caught and raised again as DUPLICATE.
unfoldable pub save_row : ℕ → Row → List Row → Result LifecycleError (Row × List Row)
save_row now item rows =
    let stamped = record item { updated_at = now } in
    if full_clean_raises item rows
    then err unclean
    else if identity_taken item rows
    then err duplicate
    else ok (stamped, put_row stamped rows)

-- `invalidate_published_snapshots`
unfoldable pub invalidate_published_snapshots : String → ℕ → List Snapshot → List Snapshot
invalidate_published_snapshots entity i [] = []
invalidate_published_snapshots entity i (s ∷ rest) =
    let others = invalidate_published_snapshots entity i rest in
    if s.entity_key == entity && eqb s.object_id i then others else s ∷ others

unfoldable pub instant : Clock → Moment → ℕ
instant c (aware t) = t
instant c (naive t) = c.make_aware t

-- `if new_status == "published" and item.published_at is None`
abbrev pub first_publication : ℕ → Status → Option ℕ → Option ℕ
first_publication now published none = some now
first_publication now _ at = at

-- The `scheduled_for` of the target status.
unfoldable pub schedule_of : Clock → Status → Option Moment → Result LifecycleError (Option ℕ)
schedule_of c scheduled none = err validation
schedule_of c scheduled (some m) =
    if leb (instant c m) c.now then err validation else ok (some (instant c m))
schedule_of c _ m = ok none

unfoldable pub apply_lifecycle_side_effects :
    Clock → Status → Option Moment → Row → Result LifecycleError Row
apply_lifecycle_side_effects c new m item = do
  at ← schedule_of c new m
  ok (record item {
    scheduled_for = at;
    published_at = first_publication c.now new item.published_at;
  })

-- Who asks for a transition, of which entity and why, and what the job row takes from outside.
pub record Request : Type 0 where
  pub entity : String
  pub reason : Option String
  pub user : ℕ
  pub ip : String
  pub fresh : Fresh

unfoldable pub clipped_reason : Request → String
unfolding or_else strip clip
clipped_reason q = clip transition_reason_max (strip (or_else q.reason ""))

abbrev pub schedule_note : Clock → Status → Option ℕ → String → String
schedule_note c scheduled (some t) detail = detail <> ("; scheduledFor=" <> c.isoformat t)
schedule_note c _ at detail = detail

unfoldable pub transition_audit : Clock → Request → Status → Row → AuditRow
unfolding status_text clipped_reason show_nat
transition_audit c q old item = record {
  user = q.user;
  action = "lifecycle." <> (status_text old <> ("->" <> status_text item.status));
  model_name = q.entity;
  object_id = show_nat item.pk;
  ip = q.ip;
  detail = schedule_note c item.status item.scheduled_for ("reason=" <> clipped_reason q);
}

abbrev pub job_of : {A : Type 0} → Result A (PublicationJob × Jobs) → Result LifecycleError Jobs
job_of (ok (job, jobs)) = ok jobs
job_of (err e) = err job_integrity

-- `enqueue_content_invalidation`, for the statuses that change what the site shows.
unfoldable pub announce : Clock → Request → Row → Status → Jobs → Result LifecycleError Jobs
announce c q item published jobs = job_of (
    enqueue_content_invalidation q.fresh q.entity item.page "publish" "" none
      (some (c.isoformat item.updated_at)) jobs)
announce c q item archived jobs = job_of (
    enqueue_content_invalidation q.fresh q.entity item.page "archive" "" none
      (some (c.isoformat item.updated_at)) jobs)
announce c q item _ jobs = ok jobs

abbrev pub drop_snapshots : Status → String → ℕ → List Snapshot → List Snapshot
drop_snapshots archived entity pk snapshots = invalidate_published_snapshots entity pk snapshots
drop_snapshots _ entity pk snapshots = snapshots

-- `to_status not in ALLOWED_TRANSITIONS.get(old_status, set())`; a text that names no status is in
-- no set.
unfoldable pub target_status : Status → String → Result LifecycleError Status
unfolding allowed parse_status
target_status old s = elim (parse_status s) [
  | none ↦ err validation
  | some new ↦ if allowed old new then ok new else err validation
]

unfoldable pub transition_item :
    Clock → Request → String → Option Moment → Row → Store → Result LifecycleError (Status × Store)
transition_item c q to_status m item store = do
  new ← target_status item.status to_status
  changed ← apply_lifecycle_side_effects c new m item
  saved ← save_row c.now (record changed { status = new }) store.rows
  jobs ← announce c q saved.0 new store.jobs
  ok (
    item.status,
    record {
      rows = saved.1;
      audit = store.audit ++ transition_audit c q item.status saved.0 ∷ [];
      snapshots = drop_snapshots new q.entity item.pk store.snapshots;
      jobs = jobs;
    },
  )

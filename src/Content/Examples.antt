-- ===== src/Content/Examples.antt =====
-- The theorems of the content lifecycle, at a store of two rows.
use taha_mohammadi_platform.Prelude.{
  ℕ, ◌<◌, ◌≤◌, ◌+◌, String, Option, none, some, List, [], ◌∷◌, ◌++◌, true, false, ◌&&◌, ◌==◌, ◌≡◌,
  ◌≢◌, refl, eqb, Result, ok, err,
}
use taha_mohammadi_platform.Prelude.Lists.{All, contains, dedup, length, nat_eq, text_eq}
use taha_mohammadi_platform.Rebuild.Models.{PublicationJob, queued, pending}
use taha_mohammadi_platform.Rebuild.Paths.{
  Item, absent, compute_affected_paths, compute_revoked_paths,
}
use taha_mohammadi_platform.Rebuild.Jobs.{
  Fresh, enqueue_content_invalidation, enqueue_publication_job, invalidation_request,
  removal_of_action, existing_job, find_job,
}
use taha_mohammadi_platform.Content.Lifecycle.{
  LifecycleError, target_status, apply_lifecycle_side_effects, schedule_of, instant,
  first_publication, save_row, full_clean_raises, identity_taken, announce, draft, scheduled,
  published, archived, Row, aware, Clock, Request, Store, Snapshot, find_row, put_row, parse_status,
  allowed, transition_audit, transition_item,
}
use taha_mohammadi_platform.Content.Lifecycle.Rows.{IsRowValid}
use taha_mohammadi_platform.Content.Lifecycle.Transitions.{
  transition_item_writes, transition_item-IsRowValid,
}
use taha_mohammadi_platform.Content.Lifecycle.Archiving.{archiving_revokes}
use taha_mohammadi_platform.Content.Lifecycle.Bulk.{
  archive_all, archive_one, archive_row, finish, enqueue_archived, paths_by_locale, extend_at,
  sort_locales, insert_locale, enqueue_locales, locale_request, BulkResult, bulk_archive_items,
}
use taha_mohammadi_platform.Content.Lifecycle.Bulk.Effects.{
  targets, row_after, bulk_archive_items_effect,
}

abbrev clock : Clock
clock = record { now = 100; make_aware = λ t. t; isoformat = λ t. "t" }

abbrev page : String → Item
page slug = record { locale = some "fa"; slug = some slug; series = absent; course = none }

abbrev first : Row
first = record {
  pk = 1;
  status = draft;
  published_at = none;
  scheduled_for = none;
  updated_at = 1;
  page = page "a";
  course_id = none;
  cleaned = none;
}

abbrev second : Row
second = record {
  pk = 2;
  status = archived;
  published_at = none;
  scheduled_for = none;
  updated_at = 1;
  page = page "b";
  course_id = none;
  cleaned = none;
}

abbrev fresh : Fresh
fresh = record { now = 100; uuid = 1; stamp = "s"; hex = "h" }

abbrev store : Store
store = record {
  rows = first ∷ second ∷ [];
  audit = [];
  snapshots = record { entity_key = "article"; object_id = 1 } ∷ [];
  jobs = record { rows = []; dispatched = [] };
}

abbrev request : Request
request = record { entity = "article"; reason = some " why "; user = 3; ip = "::1"; fresh = fresh }

first_valid : All IsRowValid store.rows
first_valid = (refl, (refl, tt))

-- The store that a successful call leaves.
abbrev store_of : {A : Type 0} → Result LifecycleError (A × Store) → Store
store_of (ok (_, after)) = after
store_of (err _) = store

abbrev after_schedule : Store
after_schedule = store_of (transition_item clock request "scheduled" (some (aware 200)) first store)

scheduling :
    transition_item clock request "scheduled" (some (aware 200)) first store
    ≡ ok (draft, after_schedule)
unfolding transition_item target_status parse_status allowed apply_lifecycle_side_effects
    schedule_of instant first_publication save_row full_clean_raises identity_taken put_row announce
scheduling = refl

abbrev after_archive : Store
after_archive = store_of (transition_item clock request "archived" none first store)

archiving : transition_item clock request "archived" none first store ≡ ok (draft, after_archive)
unfolding transition_item target_status parse_status allowed apply_lifecycle_side_effects
    schedule_of instant first_publication save_row full_clean_raises identity_taken put_row announce
    enqueue_content_invalidation enqueue_publication_job invalidation_request removal_of_action
    existing_job find_job contains
archiving = refl

abbrev ids : List ℕ
ids = 1 ∷ 2 ∷ 1 ∷ 9 ∷ []

abbrev fresh_of : Option String → Fresh
fresh_of _ = fresh

abbrev result : BulkResult
result = record { archived = 1; skipped = 2; ids = 1 ∷ [] }

abbrev after_bulk : Store
after_bulk = store_of (bulk_archive_items clock request fresh_of ids store)

bulk : bulk_archive_items clock request fresh_of ids store ≡ ok (result, after_bulk)
unfolding bulk_archive_items dedup contains archive_all archive_one archive_row find_row allowed
    apply_lifecycle_side_effects schedule_of save_row full_clean_raises identity_taken put_row
    finish enqueue_archived paths_by_locale extend_at sort_locales insert_locale enqueue_locales
    locale_request enqueue_publication_job existing_job find_job
bulk = refl

transition_item_writes_example :
    (new : Row) × (find_row 1 after_schedule.rows ≡ some new)
    × (draft ≡ draft)
    × (parse_status "scheduled" ≡ some new.status)
    × (allowed draft new.status ≡ true)
    × (new.status ≡ scheduled → (t : ℕ) × (new.scheduled_for ≡ some t) × (100 < t))
    × (new.status ≢ scheduled → new.scheduled_for ≡ none)
    × ((t : ℕ) → none ≡ some t → new.published_at ≡ some t)
    × (new.status ≡ published → first.published_at ≡ none → new.published_at ≡ some 100)
    × ((j : ℕ) → j ≢ 1 → find_row j after_schedule.rows ≡ find_row j store.rows)
    × (after_schedule.audit ≡ store.audit ++ transition_audit clock request draft new ∷ [])
unfolding find_row
transition_item_writes_example =
    transition_item_writes clock request "scheduled" (some (aware 200)) first store draft
      after_schedule refl scheduling

transition_item-IsRowValid_example : All IsRowValid after_schedule.rows
transition_item-IsRowValid_example =
    transition_item-IsRowValid clock request "scheduled" (some (aware 200)) first store draft
      after_schedule scheduling first_valid

archiving_revokes_example :
    All
      (λ (s : Snapshot). (s.entity_key == "article" && eqb s.object_id 1) ≡ false)
      after_archive.snapshots
    × ((job : PublicationJob) × (after_archive.jobs.rows ≡ store.jobs.rows ++ job ∷ [])
        × (after_archive.jobs.dispatched ≡ store.jobs.dispatched ++ job.id ∷ [])
        × (job.state ≡ queued)
        × (job.removal_state ≡ pending)
        × (job.locale ≡ some "fa")
        × (job.affected_paths ≡ compute_affected_paths "article" first.page)
        × (job.revoked_paths ≡ compute_revoked_paths "article" first.page))
archiving_revokes_example =
    archiving_revokes clock request none first store draft after_archive archiving

bulk_archive_items_effect_example :
    (1 ≤ length (dedup ids))
    × (length (dedup ids) ≤ 50)
    × ((j : ℕ) → find_row j after_bulk.rows ≡ row_after clock store.rows ids j)
    × (result.ids ≡ targets store.rows (dedup ids))
    × (1 ≡ length result.ids)
    × (1 + 2 ≡ length (dedup ids))
bulk_archive_items_effect_example =
    bulk_archive_items_effect clock request fresh_of ids store result after_bulk bulk

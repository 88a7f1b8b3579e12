-- ===== src/Content/Lifecycle/Bulk.antt =====
-- `bulk_archive_items`: the loop over the ids, and the jobs that follow it.
pub mod Effects
use Prim.Native.String.{compare}
use Prim.Native.Nat.{Ordering}
use taha_mohammadi_platform.Prelude.{
  ℕ, suc, String, Option, none, some, List, [], ◌∷◌, ◌++◌, Bool, true, false, not, ◌==◌, ◌<>◌, ltb,
  if◌then◌else◌, Result, ok, err, ◌>>=◌, ◌>>◌, require,
}
use taha_mohammadi_platform.Prelude.Lists.{dedup, length, text_eq, nat_eq}
use taha_mohammadi_platform.Prelude.Text.{or_else}
use taha_mohammadi_platform.Prelude.Decimal.{show_nat}
use taha_mohammadi_platform.Rebuild.Models.{pending}
use taha_mohammadi_platform.Rebuild.Paths.{compute_affected_paths, compute_revoked_paths}
use taha_mohammadi_platform.Rebuild.Jobs.{Jobs, Fresh, JobRequest, enqueue_publication_job}
use taha_mohammadi_platform.Content.Lifecycle.{
  Status, archived, Row, AuditRow, Clock, Request, Store, LifecycleError, validation, find_row,
  allowed, save_row, apply_lifecycle_side_effects, clipped_reason, status_text,
  bulk_archive_max_ids, invalidate_published_snapshots, same_text, job_of,
}

-- The variables of the loop.
pub record Progress : Type 0 where
  pub store : Store
  pub archived_ids : List ℕ
  pub archived_items : List Row
  pub skipped : ℕ

unfoldable pub bulk_audit : Request → Status → ℕ → AuditRow
unfolding status_text clipped_reason show_nat
bulk_audit q old pk = record {
  user = q.user;
  action = "lifecycle." <> (status_text old <> "->archived");
  model_name = q.entity;
  object_id = show_nat pk;
  ip = q.ip;
  detail = "reason=" <> (clipped_reason q <> "; bulk=1");
}

-- `skipped += 1; continue`
abbrev pub skip : Progress → Progress
skip p = record p { skipped = suc p.skipped }

-- The rest of the loop's body, for a row that may be archived.
unfoldable pub archive_row : Clock → Request → Row → Progress → Result LifecycleError Progress
archive_row c q item p = do
  changed ← apply_lifecycle_side_effects c archived none item
  saved ← save_row c.now (record changed { status = archived }) p.store.rows
  ok (record {
    store = record p.store {
      rows = saved.1;
      audit = p.store.audit ++ bulk_audit q item.status item.pk ∷ [];
      snapshots = invalidate_published_snapshots q.entity item.pk p.store.snapshots;
    };
    archived_ids = p.archived_ids ++ item.pk ∷ [];
    archived_items = p.archived_items ++ saved.0 ∷ [];
    skipped = p.skipped;
  })

-- One round of the loop.
unfoldable pub archive_one : Clock → Request → ℕ → Progress → Result LifecycleError Progress
archive_one c q pk p = elim (find_row pk p.store.rows) [
  | none ↦ ok (skip p)
  | some item ↦ if allowed item.status archived then archive_row c q item p else ok (skip p)
]

unfoldable pub archive_all : Clock → Request → List ℕ → Progress → Result LifecycleError Progress
archive_all c q [] p = ok p
archive_all c q (pk ∷ rest) p = archive_one c q pk p >>= archive_all c q rest

-- `paths.setdefault(loc, []).extend(new)`, in the order in which the keys came.
unfoldable pub extend_at :
    Option String
    → List String
    → List (Option String × List String)
    → List (Option String × List String)
extend_at loc new [] = (loc, new) ∷ []
extend_at loc new ((key, paths) ∷ rest) =
    let others = extend_at loc new rest in
    if same_text key loc then (key, paths ++ new) ∷ rest else (key, paths) ∷ others

unfoldable pub paths_by_locale :
    (Row → List String)
    → List Row
    → List (Option String × List String)
    → List (Option String × List String)
paths_by_locale f [] acc = acc
paths_by_locale f (row ∷ rest) acc = paths_by_locale f rest (extend_at row.page.locale (f row) acc)

-- `d.get(loc, [])`
unfoldable pub paths_at : Option String → List (Option String × List String) → List String
paths_at loc [] = []
paths_at loc ((key, paths) ∷ rest) = if same_text key loc then paths else paths_at loc rest

-- The order of `(v is None, v or "")`.
abbrev pub locale_le : Option String → Option String → Bool
locale_le none none = true
locale_le none (some b) = false
locale_le (some a) none = true
locale_le (some a) (some b) = elim (compare a b) [ Ordering.gt ↦ false | _ ↦ true ]

unfoldable pub insert_locale :
    Option String × List String
    → List (Option String × List String)
    → List (Option String × List String)
insert_locale e [] = e ∷ []
insert_locale e (f ∷ rest) =
    let others = insert_locale e rest in if locale_le e.0 f.0 then e ∷ f ∷ rest else f ∷ others

unfoldable pub sort_locales :
    List (Option String × List String) → List (Option String × List String)
unfolding insert_locale
sort_locales [] = []
sort_locales (e ∷ rest) = insert_locale e (sort_locales rest)

-- The request of one locale's job.
unfoldable pub locale_request :
    List (Option String × List String) → Option String × List String → JobRequest
unfolding paths_at
locale_request revoked e = record {
  locale = e.0;
  requested_revision = "";
  affected_paths = dedup (e.1);
  revoked_paths = dedup (paths_at e.0 revoked);
  idempotency_key = none;
  removal_state = pending;
}

-- One job for each locale; `fresh` gives the row id and the revision parts of the job of a locale.
unfoldable pub enqueue_locales :
    (Option String → Fresh)
    → List (Option String × List String)
    → List (Option String × List String)
    → Jobs
    → Result LifecycleError Jobs
unfolding locale_request
enqueue_locales fresh revoked [] jobs = ok jobs
enqueue_locales fresh revoked (e ∷ rest) jobs =
    job_of (enqueue_publication_job (fresh e.0) (locale_request revoked e) jobs)
    >>= enqueue_locales fresh revoked rest

unfoldable pub enqueue_archived :
    (Option String → Fresh) → String → List Row → Jobs → Result LifecycleError Jobs
unfolding sort_locales paths_by_locale extend_at
enqueue_archived fresh entity items jobs =
    enqueue_locales fresh (paths_by_locale (λ row. compute_revoked_paths entity row.page) items [])
      (sort_locales (paths_by_locale (λ row. compute_affected_paths entity row.page) items [])) jobs

-- str(list of ints)
abbrev ids_tail : List ℕ → String
ids_tail [] = "]"
ids_tail (i ∷ rest) = ", " <> (show_nat i <> ids_tail rest)

abbrev ids_text : List ℕ → String
ids_text [] = "[]"
ids_text (i ∷ rest) = "[" <> (show_nat i <> ids_tail rest)

unfoldable pub summary_audit : Request → Progress → AuditRow
unfolding clipped_reason show_nat
summary_audit q p = record {
  user = q.user;
  action = "lifecycle.bulk_archive";
  model_name = q.entity;
  object_id = "";
  ip = q.ip;
  detail =
      "reason="
      <> (clipped_reason q
          <> ("; count="
              <> (show_nat (length p.archived_ids)
                  <> ("; skipped="
                      <> (show_nat p.skipped <> ("; ids=" <> ids_text p.archived_ids))))));
}

pub record BulkResult : Type 0 where
  pub archived : ℕ
  pub skipped : ℕ
  pub ids : List ℕ

abbrev pub start : Store → Progress
start store = record { store = store; archived_ids = []; archived_items = []; skipped = 0 }

-- What follows the loop.
unfoldable pub finish :
    Request → (Option String → Fresh) → Progress → Result LifecycleError (BulkResult × Store)
finish q fresh p = do
  jobs ← enqueue_archived fresh q.entity p.archived_items p.store.jobs
  ok (
    record { archived = length p.archived_ids; skipped = p.skipped; ids = p.archived_ids },
    record p.store { audit = p.store.audit ++ summary_audit q p ∷ []; jobs = jobs },
  )

abbrev pub is_empty : List ℕ → Bool
is_empty [] = true
is_empty (_ ∷ _) = false

unfoldable pub bulk_archive_items :
    Clock
    → Request
    → (Option String → Fresh)
    → List ℕ
    → Store
    → Result LifecycleError (BulkResult × Store)
bulk_archive_items c q fresh ids store = do
  require (not (is_empty (dedup ids))) validation
  require (not (ltb bulk_archive_max_ids (length (dedup ids)))) validation
  p ← archive_all c q (dedup ids) (start store)
  finish q fresh p

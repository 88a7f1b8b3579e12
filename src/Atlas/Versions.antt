-- ===== src/Atlas/Versions.antt =====
-- apps/atlas/services.py, `activate_version`: a draft becomes the active version. The table lists
-- the versions by primary key. The report of `validate_version` and the ISO spelling of an instant
-- are arguments.
pub mod Archiving
pub mod Activation
use taha_mohammadi_platform.Prelude.{
  ℕ, String, Option, none, some, List, [], ◌∷◌, Bool, true, false, not, ◌&&◌, ◌||◌, ◌==◌, ◌<>◌, eqb,
  if◌then◌else◌, Result, ok, err, ◌>>=◌, ◌>>◌, require,
}
use taha_mohammadi_platform.Prelude.Decimal.{show_nat}
use taha_mohammadi_platform.Atlas.Issues.{Issue}

-- VERSION_STATUSES
pub data VersionStatus : Type 0 where
  draft active archived : VersionStatus

-- A row of AtlasVersion; `L` is the type of a stored layout.
pub record Version (L : Type 0) : Type 0 where
  pub pk : ℕ
  pub status : VersionStatus
  pub label : String
  pub published_at : Option ℕ
  pub created_from : Option ℕ
  pub layout_revision : ℕ
  pub layout : L
  pub created_at : ℕ
  pub updated_at : ℕ

pub data VersionError : Type 0 where
  does_not_exist already_active precondition_failed unique_violation : VersionError
  validation_failed : List Issue → VersionError

abbrev pub is_active : VersionStatus → Bool
is_active active = true
is_active _ = false

abbrev pub is_draft : VersionStatus → Bool
is_draft draft = true
is_draft _ = false

abbrev pub no_issues : List Issue → Bool
no_issues [] = true
no_issues (_ ∷ _) = false

module _ {L : Type 0} where
  -- `version_revision`
  unfoldable pub version_revision : (ℕ → String) → Version L → String
  unfolding show_nat
  version_revision isoformat v = show_nat v.pk <> ("-" <> isoformat v.updated_at)

  -- `rows[version_id]`
  unfoldable pub find_version : ℕ → List (Version L) → Option (Version L)
  find_version i [] = none
  find_version i (v ∷ rest) = if eqb v.pk i then some v else find_version i rest

  -- `_locked_rows`
  unfoldable pub locked_rows : ℕ → List (Version L) → List (Version L)
  locked_rows i [] = []
  locked_rows i (v ∷ rest) =
      let others = locked_rows i rest in
      if eqb v.pk i || is_active v.status then v ∷ others else others

  abbrev pub found_target : Option (Version L) → Result VersionError (Version L)
  found_target none = err does_not_exist
  found_target (some v) = ok v

  unfoldable pub put_version : Version L → List (Version L) → List (Version L)
  put_version new [] = []
  put_version new (v ∷ rest) =
      let others = put_version new rest in if eqb v.pk new.pk then new ∷ rest else v ∷ others

  -- Another row than `i` is active.
  unfoldable pub other_active : ℕ → List (Version L) → Bool
  other_active i [] = false
  other_active i (v ∷ rest) = not (eqb v.pk i) && is_active v.status || other_active i rest

  -- `row.save()` under the constraint `atlas_version_unique_active`.
  unfoldable pub save_version :
      Version L → List (Version L) → Result VersionError (List (Version L))
  save_version new rows =
      if is_active new.status && other_active new.pk rows
      then err unique_violation
      else ok (put_version new rows)

  abbrev pub archived_row : ℕ → Version L → Version L
  archived_row now v = record v { status = archived; updated_at = now }

  -- The loop over the locked rows.
  unfoldable pub archive_active :
      ℕ → ℕ → List (Version L) → List (Version L) → Result VersionError (List (Version L))
  archive_active now i [] rows = ok rows
  archive_active now i (v ∷ locked) rows =
      (if not (eqb v.pk i) && is_active v.status
        then save_version (archived_row now v) rows
        else ok rows)
      >>= archive_active now i locked

  abbrev pub activated_row : ℕ → Version L → Version L
  activated_row now v = record v { status = active; published_at = some now; updated_at = now }

  unfoldable pub activate_version :
      (ℕ → String)
      → (Version L → List Issue)
      → ℕ
      → ℕ
      → String
      → List (Version L)
      → Result VersionError (Version L × List (Version L))
  activate_version isoformat blocking now i expected_revision rows = do
    target ← found_target (find_version i (locked_rows i rows))
    require (not (is_active target.status)) already_active
    require (is_draft target.status) precondition_failed
    require (expected_revision == version_revision isoformat target) precondition_failed
    require (no_issues (blocking target)) (validation_failed (blocking target))
    others ← archive_active now i (locked_rows i rows) rows
    saved ← save_version (activated_row now target) others
    ok (activated_row now target, saved)

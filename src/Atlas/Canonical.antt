-- ===== src/Atlas/Canonical.antt =====
-- apps/atlas/canonical.py: the records that nodes refer to, resolved in one locale. The rows of the
-- six models are one list; of `objects.public()` a row says whether it passes. The model class and
-- the route family of a resolution are left out.
use taha_mohammadi_platform.Prelude.{
  ℕ, String, Option, none, some, List, [], ◌∷◌, Bool, false, ◌&&◌, ◌||◌, ◌==◌, eqb, if◌then◌else◌,
  Result, ok, err,
}
use taha_mohammadi_platform.Prelude.Lists.{contains, length, text_eq}
use taha_mohammadi_platform.Prelude.Text.{strip}

pub record CanonicalRow : Type 0 where
  pub pk : ℕ
  pub source : String
  pub translation_key : ℕ
  pub locale : String
  pub is_public : Bool
  pub title : String
  pub slug : String
  pub values : List (String × String)

abbrev pub canonical_sources : List String
canonical_sources =
    "profile" ∷ "research_topic" ∷ "project" ∷ "publication" ∷ "method" ∷ "technology" ∷ []

abbrev pub default_locales : List String
default_locales = "en" ∷ "fa" ∷ []

-- `SUMMARY_FIELDS[source]`
unfoldable pub summary_fields : String → List String
summary_fields source =
    if source == "profile"
    then "short_bio" ∷ "summary" ∷ []
    else if source == "research_topic"
    then "summary" ∷ []
    else if source == "project"
    then "summary" ∷ "objective" ∷ []
    else if source == "publication"
    then "abstract" ∷ []
    else "short_description" ∷ "description" ∷ []

-- `getattr(row, field, "")`
unfoldable pub value_of : List (String × String) → String → String
value_of [] field = ""
value_of ((name, v) ∷ values) field =
    let later = value_of values field in if name == field then v else later

-- `_summary`
unfoldable pub first_text : List (String × String) → List String → String
first_text values [] = ""
first_text values (field ∷ fields) =
    let later = first_text values fields in
    let now = strip (value_of values field) in if now == "" then later else now

pub record CanonicalResolution : Type 0 where
  pub row : CanonicalRow
  pub locale : String
  pub title : String
  pub summary : String
  pub slug : String
  pub source_key : String

unfoldable pub as_resolution : String → CanonicalRow → String → CanonicalResolution
as_resolution source row locale = record {
  row = row;
  locale = locale;
  title = row.title;
  summary = first_text row.values (summary_fields source);
  slug = row.slug;
  source_key = source;
}

pub data CanonicalError : Type 0 where
  unlisted : String → CanonicalError
  ambiguous : (source : String) (translation_key : ℕ) (locale : String) (count : ℕ) → CanonicalError

abbrev pub refers : String → ℕ → String → CanonicalRow → Bool
refers source key locale row =
    row.source == source && (eqb row.translation_key key && row.locale == locale)

-- `model.objects.public().filter(translation_key=…, locale=…)`
unfoldable pub public_rows : List CanonicalRow → String → ℕ → String → List CanonicalRow
public_rows [] source key locale = []
public_rows (row ∷ rows) source key locale =
    let others = public_rows rows source key locale in
    if row.is_public && refers source key locale row then row ∷ others else others

-- What is made of the rows that were found.
abbrev pub sole :
    String → ℕ → String → List CanonicalRow → Result CanonicalError (Option CanonicalResolution)
sole source key locale [] = ok none
sole source key locale (row ∷ []) = ok (some (as_resolution source row locale))
sole source key locale (row ∷ another ∷ rows) =
    err (ambiguous source key locale (length (row ∷ another ∷ rows)))

unfoldable pub resolve_canonical :
    List CanonicalRow
    → String
    → Option ℕ
    → String
    → Result CanonicalError (Option CanonicalResolution)
resolve_canonical rows source none locale = ok none
resolve_canonical rows source (some key) locale =
    if contains canonical_sources source
    then sole source key locale (public_rows rows source key locale)
    else err (unlisted source)

-- `_canonical_row_exists`
unfoldable pub canonical_row_exists : List CanonicalRow → String → ℕ → String → Bool
canonical_row_exists [] source key locale = false
canonical_row_exists (row ∷ rows) source key locale =
    refers source key locale row || canonical_row_exists rows source key locale

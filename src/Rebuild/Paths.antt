-- ===== src/Rebuild/Paths.antt =====
-- apps/rebuild/services.py, `compute_affected_paths` and `compute_revoked_paths`: the site's pages
-- that a content record touches, and those that its archiving takes down.
pub mod Coverage
pub mod Shared
use taha_mohammadi_platform.Prelude.{
  String, Option, none, some, List, [], ◌∷◌, ◌++◌, ◌==◌, ◌<>◌, ◌||◌, Bool, if◌then◌else◌,
}
use taha_mohammadi_platform.Prelude.Lists.{dedup, text_eq}
use taha_mohammadi_platform.Prelude.Text.{or_else, normalize, spells}

-- The `series` attribute of an item: absent, a related manager, or one related row.
pub data SeriesRel : Type 0 where
  absent : SeriesRel
  manager : List (Option String) → SeriesRel
  row : Option String → SeriesRel

-- The attributes of a content row that the path functions read; `none` where the model lacks one.
-- `course` is the slug of the related course.
pub record Item : Type 0 where
  pub locale : Option String
  pub slug : Option String
  pub series : SeriesRel
  pub course : Option String

-- What the `elif` chain over the normalized entity distinguishes.
pub data Family : Type 0 where
  landing profile article series research_topic research_statement project publication : Family
  book talk download course creative_work collection lesson unknown : Family

unfoldable pub family : String → Family
family entity =
    let n = normalize entity in
    if spells n "landing"
    then landing
    else if spells n "profile"
    then profile
    else if spells n "article"
    then article
    else if spells n "series"
    then series
    else if spells n "research-topic" || spells n "researchtopic"
    then research_topic
    else if spells n "research-statement" || spells n "researchstatement"
    then research_statement
    else if spells n "project"
    then project
    else if spells n "publication"
    then publication
    else if spells n "book"
    then book
    else if spells n "talk"
    then talk
    else if spells n "download"
    then download
    else if spells n "course"
    then course
    else if spells n "creative-work" || spells n "creativework"
    then creative_work
    else if spells n "collection"
    then collection
    else if spells n "lesson"
    then lesson
    else unknown

-- f"/{locale}/", f"/{locale}/{a}/" and so on. An argument is a literal segment or a slug.
abbrev pub home_path : String → String
home_path l = "/" <> (l <> "/")

abbrev pub path₁ : String → String → String
path₁ l a = "/" <> (l <> ("/" <> (a <> "/")))

abbrev pub path₂ : String → String → String → String
path₂ l a b = "/" <> (l <> ("/" <> (a <> ("/" <> (b <> "/")))))

abbrev pub path₃ : String → String → String → String → String
path₃ l a b c = "/" <> (l <> ("/" <> (a <> ("/" <> (b <> ("/" <> (c <> "/")))))))

abbrev pub path₄ : String → String → String → String → String → String
path₄ l a b c d = "/" <> (l <> ("/" <> (a <> ("/" <> (b <> ("/" <> (c <> ("/" <> (d <> "/")))))))))

-- `if slug: paths.append(...)`
abbrev pub when_set : String → List String → List String
when_set slug paths = if slug == "" then [] else paths

-- `for s in series_rel.all()`: one page for each series that has a slug.
unfoldable pub series_pages : String → List (Option String) → List String
series_pages l [] = []
series_pages l (s ∷ rest) =
    let slug = or_else s "" in
    when_set slug (path₃ l "blog" "series" slug ∷ []) ++ series_pages l rest

unfoldable pub series_paths : String → SeriesRel → List String
unfolding series_pages
series_paths l absent = []
series_paths l (manager rows) = series_pages l rows
series_paths l (row s) = series_pages l (s ∷ [])

-- The paths that each branch appends behind the locale's home page.
unfoldable pub family_paths : Family → String → String → Item → List String
unfolding series_paths or_else
family_paths landing l slug item = when_set slug (if slug == "home" then [] else path₁ l slug ∷ [])
family_paths profile l slug item =
    path₁ l "about" ∷ when_set slug (if slug == "index" then [] else path₂ l "about" slug ∷ [])
family_paths article l slug item =
    path₁ l "blog" ∷ (when_set slug (path₂ l "blog" slug ∷ []) ++ series_paths l item.series)
family_paths series l slug item = path₁ l "blog" ∷ when_set slug (path₃ l "blog" "series" slug ∷ [])
family_paths research_topic l slug item =
    path₁ l "research" ∷ when_set slug (path₂ l "research" slug ∷ [])
family_paths research_statement l slug item =
    path₁ l "research" ∷ when_set slug (path₃ l "research" "statements" slug ∷ [])
family_paths project l slug item = path₁ l "projects" ∷ when_set slug (path₂ l "projects" slug ∷ [])
family_paths publication l slug item =
    path₁ l "publications" ∷ when_set slug (path₂ l "publications" slug ∷ [])
family_paths book l slug item = path₁ l "books" ∷ when_set slug (path₂ l "books" slug ∷ [])
family_paths talk l slug item = path₁ l "talks" ∷ when_set slug (path₂ l "talks" slug ∷ [])
family_paths download l slug item =
    path₁ l "resources"
    ∷ when_set slug (path₂ l "resources" slug ∷ path₃ l "resources" slug "file" ∷ [])
family_paths course l slug item =
    path₁ l "education" ∷ when_set slug (path₂ l "education" slug ∷ [])
family_paths creative_work l slug item =
    path₁ l "gallery" ∷ when_set slug (path₂ l "gallery" slug ∷ [])
family_paths collection l slug item =
    path₁ l "collections" ∷ when_set slug (path₂ l "collections" slug ∷ [])
family_paths lesson l slug item =
    let c = or_else item.course "" in
    path₁ l "education"
    ∷ when_set c (path₂ l "education" c ∷ when_set slug (path₄ l "education" c "lessons" slug ∷ []))
family_paths unknown l slug item = []

-- `getattr(item, "locale", "en") or "en"` and `getattr(item, "slug", "") or ""`
abbrev pub item_locale : Item → String
item_locale item = or_else item.locale "en"

abbrev pub item_slug : Item → String
item_slug item = or_else item.slug ""

unfoldable pub compute_affected_paths : String → Item → List String
compute_affected_paths entity item =
    let l = item_locale item in
    dedup (home_path l ∷ family_paths (family entity) l (item_slug item) item)

-- The `return` of each branch, for an item with a slug.
unfoldable pub family_revoked : Family → String → String → Item → List String
unfolding or_else
family_revoked landing l slug item = if slug == "home" then [] else path₁ l slug ∷ []
family_revoked profile l slug item = if slug == "index" then [] else path₂ l "about" slug ∷ []
family_revoked article l slug item = path₂ l "blog" slug ∷ []
family_revoked series l slug item = path₃ l "blog" "series" slug ∷ []
family_revoked research_topic l slug item = path₂ l "research" slug ∷ []
family_revoked research_statement l slug item = path₃ l "research" "statements" slug ∷ []
family_revoked project l slug item = path₂ l "projects" slug ∷ []
family_revoked publication l slug item = path₂ l "publications" slug ∷ []
family_revoked book l slug item = path₂ l "books" slug ∷ []
family_revoked talk l slug item = path₂ l "talks" slug ∷ []
family_revoked download l slug item =
    path₂ l "resources" slug ∷ path₃ l "resources" slug "file" ∷ []
family_revoked course l slug item = path₂ l "education" slug ∷ []
family_revoked creative_work l slug item = path₂ l "gallery" slug ∷ []
family_revoked collection l slug item = path₂ l "collections" slug ∷ []
family_revoked lesson l slug item =
    let c = or_else item.course "" in when_set c (path₄ l "education" c "lessons" slug ∷ [])
family_revoked unknown l slug item = []

unfoldable pub compute_revoked_paths : String → Item → List String
compute_revoked_paths entity item =
    let slug = item_slug item in
    if slug == "" then [] else family_revoked (family entity) (item_locale item) slug item

-- ===== src/Rebuild/Paths/Coverage.antt =====
-- The revoked paths of a record beside its affected ones.
use taha_mohammadi_platform.Prelude.{String, ◌≡◌, false, ◌∷◌, arith, ◌==◌, Bool-cases, inl, inr}
use taha_mohammadi_platform.Prelude.Lists.{In, In-dedup, text_eq}
use taha_mohammadi_platform.Rebuild.Paths.{
  Item, Family, home_path, family, family_paths, family_revoked, item_locale, item_slug,
  compute_affected_paths, compute_revoked_paths,
}

In-family_paths :
    (f : Family) (l slug : String) (item : Item) (p : String)
    → (slug == "") ≡ false
    → In p (family_revoked f l slug item)
    → In p (family_paths f l slug item)
unfolding family_paths family_revoked
In-family_paths Family.landing l slug item p h m = ground arith
In-family_paths _ l slug item p h m = ground arith

-- Every path that archiving a record revokes is among the paths that its change rebuilds.
pub affected_of_revoked :
    (entity : String) (item : Item) (p : String)
    → In p (compute_revoked_paths entity item)
    → In p (compute_affected_paths entity item)
unfolding compute_affected_paths compute_revoked_paths
affected_of_revoked entity item p m = elim (Bool-cases (item_slug item == "")) [
  | inl empty ↦ absurd (rw empty at m)
  | inr slug ↦
      (In-dedup
          (home_path (item_locale item)
            ∷ family_paths (family entity) (item_locale item) (item_slug item) item)
          p).1
        (inr (
          In-family_paths (family entity) (item_locale item) (item_slug item) item p slug
            (rw slug at m)))
]

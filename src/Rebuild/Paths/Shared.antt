-- ===== src/Rebuild/Paths/Shared.antt =====
-- The paths of a record's own pages, split at their slashes, beside those of the sections.
use Prim.Native.Char.{Char, code}
use text.Mathlib.TextLemmas.{
  nil-append, cons-append, cons≢nil, head-eq_of_cons-eq, tail-eq_of_cons-eq, append_cancel_left,
  append-ne-nil_of_right_ne-nil,
}
use taha_mohammadi_platform.Prelude.{
  String, ◌≡◌, ◌≢◌, refl, sym, ap, ◌∙◌, Bool, true, false, not, ◌&&◌, List, [], ◌∷◌, arith, ◌==◌,
  ◌<>◌, eqb, inl, inr, if◌then◌else◌,
}
use taha_mohammadi_platform.Prelude.Lists.{In, In-dedup, All, All-In, text_eq}
use taha_mohammadi_platform.Prelude.Text.{or_else, normalize, spells}
use taha_mohammadi_platform.Rebuild.Paths.{
  Item, Family, home_path, path₁, path₂, path₃, path₄, family, family_paths, family_revoked,
  item_locale, item_slug, compute_affected_paths, compute_revoked_paths,
}

-- The text holds no slash.
abbrev pub slash_free : String → Bool
slash_free String.[] = true
slash_free (String.◌∷◌ c s) = not (eqb (code c) b'/') && slash_free s

slash-append : (x : String) → ("/" <> x) ≡ String.◌∷◌ "/" x
slash-append x = cons-append "/" "" x ∙ ap (String.◌∷◌ "/") (nil-append x)

head_is_slash :
    (c : Char) (s x y : String)
    → slash_free (String.◌∷◌ c s) ≡ true
    → (String.◌∷◌ c x) ≢ (String.◌∷◌ "/" y)
head_is_slash c s x y h e = ground (arith, ap code (head-eq_of_cons-eq e))

-- Two texts that go on behind their first slash are equal in both parts.
segment :
    (a b x y : String)
    → slash_free a ≡ true
    → slash_free b ≡ true
    → (a <> ("/" <> x)) ≡ (b <> ("/" <> y))
    → (a ≡ b) × (x ≡ y)
segment String.[] String.[] x y h k e = (
  refl,
  tail-eq_of_cons-eq
      (sym (slash-append x) ∙ (sym (nil-append _) ∙ e ∙ nil-append _) ∙ slash-append y),
)
segment String.[] (String.◌∷◌ d b) x y h k e =
    absurd
      (head_is_slash d b _ x k (sym (cons-append d b _) ∙ sym e ∙ nil-append _ ∙ slash-append x))
segment (String.◌∷◌ c a) String.[] x y h k e =
    absurd (head_is_slash c a _ y h (sym (cons-append c a _) ∙ e ∙ nil-append _ ∙ slash-append y))
segment (String.◌∷◌ c a) (String.◌∷◌ d b) x y h k e =
    let e' = sym (cons-append c a ("/" <> x)) ∙ e ∙ cons-append d b ("/" <> y) in
    let (s, t) = segment a b x y (ground arith) (ground arith) (tail-eq_of_cons-eq e') in
    (cc (head-eq_of_cons-eq e', s), t)

ending : (b : String) → (b <> "/") ≢ ""
ending b = append-ne-nil_of_right_ne-nil b (λ e. cons≢nil e)

-- A page below a section of its locale.
record Deep (l p : String) : Type 0 where
  section : String
  rest : String
  section_free : slash_free section ≡ true
  rest_set : rest ≢ ""
  spelled : p ≡ "/" <> (l <> ("/" <> (section <> ("/" <> rest))))

Deep-path₂ : (l a b : String) → slash_free a ≡ true → Deep l (path₂ l a b)
Deep-path₂ l a b h = record {
  section = a;
  rest = b <> "/";
  section_free = h;
  rest_set = ending b;
  spelled = refl;
}

continues : (b r : String) → (b <> ("/" <> r)) ≢ ""
continues b r = append-ne-nil_of_right_ne-nil b (λ e. cons≢nil (sym (slash-append r) ∙ e))

Deep-path₃ : (l a b c : String) → slash_free a ≡ true → Deep l (path₃ l a b c)
Deep-path₃ l a b c h = record {
  section = a;
  rest = b <> ("/" <> (c <> "/"));
  section_free = h;
  rest_set = continues b _;
  spelled = refl;
}

Deep-path₄ : (l a b c d : String) → slash_free a ≡ true → Deep l (path₄ l a b c d)
Deep-path₄ l a b c d h = record {
  section = a;
  rest = b <> ("/" <> (c <> ("/" <> (d <> "/"))));
  section_free = h;
  rest_set = continues b _;
  spelled = refl;
}

section_ne : (l p s : String) → Deep l p → slash_free s ≡ true → p ≢ path₁ l s
section_ne l p s d h e =
    d.rest_set
      (segment d.section s d.rest "" d.section_free h (
        append_cancel_left "/" _ _
          (append_cancel_left l _ _ (append_cancel_left "/" _ _ (sym d.spelled ∙ e))))).1

home_ne : (l p : String) → Deep l p → p ≢ home_path l
home_ne l p d e = continues d.section d.rest (
    append_cancel_left "/" _ _
      (append_cancel_left l _ _ (append_cancel_left "/" _ _ (sym d.spelled ∙ e))))

All-unless :
    (P : String → Type 0) (b : Bool) (xs : List String) → All P xs → All P (if b then [] else xs)
All-unless P true xs h = tt
All-unless P false xs h = h

Deep-family_revoked :
    (f : Family) (l slug : String) (item : Item)
    → f ≢ Family.landing
    → All (Deep l) (family_revoked f l slug item)
unfolding family_revoked
Deep-family_revoked Family.landing l slug item n = absurd (n refl)
Deep-family_revoked Family.profile l slug item n =
    All-unless (Deep l) (slug == "index") (path₂ l "about" slug ∷ [])
      (Deep-path₂ l "about" slug refl, tt)
Deep-family_revoked Family.series l slug item n = (Deep-path₃ l "blog" "series" slug refl, tt)
Deep-family_revoked Family.research_statement l slug item n =
    (Deep-path₃ l "research" "statements" slug refl, tt)
Deep-family_revoked Family.download l slug item n =
    (Deep-path₂ l "resources" slug refl, (Deep-path₃ l "resources" slug "file" refl, tt))
Deep-family_revoked Family.lesson l slug item n =
    let c = or_else item.course "" in
    All-unless (Deep l) (c == "") (path₄ l "education" c "lessons" slug ∷ [])
      (Deep-path₄ l "education" c "lessons" slug refl, tt)
Deep-family_revoked Family.unknown l slug item n = tt
Deep-family_revoked _ l slug item n = (Deep-path₂ l _ _ refl, tt)

Deep-revoked :
    (entity : String) (item : Item)
    → family entity ≢ Family.landing
    → All (Deep (item_locale item)) (compute_revoked_paths entity item)
unfolding compute_revoked_paths
Deep-revoked entity item n =
    All-unless (Deep (item_locale item)) _ _ (Deep-family_revoked (family entity) _ _ item n)

-- Archiving any record but a landing page revokes neither the locale's home page nor a page
-- directly below it (`/{locale}/{section}/` for a section without a slash): the list pages.
pub revoked_not_shared :
    (entity : String) (item : Item) (section : String)
    → family entity ≢ Family.landing
    → slash_free section ≡ true
    → (¬ In (home_path (item_locale item)) (compute_revoked_paths entity item))
      × (¬ In (path₁ (item_locale item) section) (compute_revoked_paths entity item))
revoked_not_shared entity item section n h =
    let l = item_locale item in
    let deep = Deep-revoked entity item n in
    (
      λ m. home_ne l _ (All-In (Deep l) _ _ deep m) refl,
      λ m. section_ne l _ section (All-In (Deep l) _ _ deep m) h refl,
    )

-- The exception. A landing page whose slug is `blog` revokes, when it is archived, the very page
-- that every article of its locale rebuilds as its list page.
landing_revokes_list :
    (page post : Item)
    → item_slug page ≡ "blog"
    → item_locale post ≡ item_locale page
    → In (path₁ (item_locale page) "blog") (compute_revoked_paths "landing" page)
      × In (path₁ (item_locale page) "blog") (compute_affected_paths "article" post)
unfolding compute_revoked_paths compute_affected_paths family family_revoked family_paths normalize
    spells
landing_revokes_list page post s l = (rw s (inl refl), rw (← l) ((In-dedup _ _).1 (inr (inl refl))))

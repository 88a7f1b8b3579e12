-- ===== src/Atlas/Projection/Gaps.antt =====
-- What the rules on locales and references report of the visible nodes.
use taha_mohammadi_platform.Prelude.{
  ℕ, String, none, some, List, [], ◌∷◌, ◌++◌, Bool, true, false, not, ◌&&◌, ◌≡◌, ◌↔◌, ◌⊎◌, refl,
  sym, subst, inl, inr, arith, if◌then◌else◌, Bool-cases, Option-cases,
}
use taha_mohammadi_platform.Prelude.Lists.{
  contains, text_eq, In, In-sort_by, In-append_left, In-append_right, In-append_cases,
}
use taha_mohammadi_platform.Prelude.Filtered.{those, In-those}
use taha_mohammadi_platform.Atlas.Issues.{
  Issue, issue_le, node_issue, group_issue, missing_locale_projection, group_locale_missing,
}
use taha_mohammadi_platform.Atlas.Graph.{AtlasNode, AtlasGroup}
use taha_mohammadi_platform.Atlas.Canonical.{
  CanonicalRow, canonical_sources, default_locales, public_rows, sole, resolve_canonical,
}
use taha_mohammadi_platform.Atlas.Projection.{
  is_none, covered_locales, missing_locales, node_gaps, of_visible, labelled, lacks_label,
  validate_locale_projection,
}
use taha_mohammadi_platform.Atlas.Projection.Lookup.{answer, is_ambiguous}
use taha_mohammadi_platform.Atlas.Projection.Sharing.{verdict, doubt, node_gaps-alone}

-- The public rows that a node's reference has in a locale.
abbrev pub own_rows : List CanonicalRow → AtlasNode → String → List CanonicalRow
own_rows rows n l = elim n.canonical_translation_key [
  | none ↦ []
  | some key ↦
      if contains canonical_sources n.canonical_model
      then public_rows rows n.canonical_model key l
      else []
]

-- A locale in which nothing stands for the node: no label of its own, and no public row.
abbrev pub IsGap : List CanonicalRow → AtlasNode → String → Type 0
IsGap rows n l =
    In l default_locales × (contains (covered_locales n) l ≡ false) × (own_rows rows n l ≡ [])

sole-empty :
    (source : String) (key : ℕ) (l : String) (found : List CanonicalRow)
    → ((not (is_ambiguous (sole source key l found)) && is_none (answer (sole source key l found)))
        ≡ true)
      ↔ (found ≡ [])
sole-empty source key l [] = (λ _. refl, λ _. refl)
sole-empty source key l (row ∷ []) = (λ h. cc h, λ h. cc h)
sole-empty source key l (row ∷ another ∷ found) = (λ h. cc h, λ h. cc h)

gap-own_rows :
    (rows : List CanonicalRow) (n : AtlasNode) (l : String)
    → ((not (doubt rows n l) && is_none (verdict rows n l)) ≡ true) ↔ (own_rows rows n l ≡ [])
unfolding resolve_canonical
gap-own_rows rows n l = elim (Option-cases n.canonical_translation_key) [
  | inl e ↦ rw e (λ _. refl, λ _. refl)
  | inr (key, e) ↦ elim (Bool-cases (contains canonical_sources n.canonical_model)) [
    | inr not_listed ↦ rw (e, not_listed) (λ _. refl, λ _. refl)
    | inl listed ↦
        rw (e, resolve_canonical, listed)
          (sole-empty n.canonical_model key l (public_rows rows n.canonical_model key l))
  ]
]

In-of_visible :
    (f : AtlasNode → List Issue) (nodes : List AtlasNode) (i : Issue)
    → In i (of_visible f nodes) ↔ ((n : AtlasNode) × In n nodes × (n.visible ≡ true) × In i (f n))
unfolding of_visible
In-of_visible f [] i = (λ m. absurd m, λ (n, m, _, _). absurd m)
In-of_visible f (x ∷ nodes) i =
    let (down, up) = In-of_visible f nodes i in
    (
      λ m. elim (shown-cases x.visible (f x) (of_visible f nodes) m) [
        | inl (seen, here) ↦ (x, inl refl, seen, here)
        | inr m' ↦ let (n, here, seen, is) = down m' in (n, inr here, seen, is)
      ],
      λ (n, m, seen, here). elim m [
        | inl is ↦
            shown x.visible (f x) (of_visible f nodes)
              (inl (subst (λ (y : AtlasNode). (y.visible ≡ true) × In i (f y)) is (seen, here)))
        | inr m' ↦ shown x.visible (f x) (of_visible f nodes) (inr (up (n, m', seen, here)))
      ],
    )
  where
    shown-cases :
        (b : Bool) (xs ys : List Issue)
        → In i (if b then xs ++ ys else ys)
        → ((b ≡ true) × In i xs) ⊎ In i ys
    shown-cases true xs ys m = elim (In-append_cases i xs ys m) [
      | inl h ↦ inl (refl, h)
      | inr h ↦ inr h
    ]
    shown-cases false xs ys m = inr m

    shown :
        (b : Bool) (xs ys : List Issue)
        → ((b ≡ true) × In i xs) ⊎ In i ys
        → In i (if b then xs ++ ys else ys)
    shown true xs ys (inl (_, h)) = In-append_left i xs ys h
    shown true xs ys (inr h) = In-append_right i xs ys h
    shown false xs ys (inl (e, h)) = cc e
    shown false xs ys (inr h) = h

In-node_gaps :
    (rows : List CanonicalRow) (n : AtlasNode) (i : Issue)
    → In i (node_gaps rows none n)
      ↔ ((l : String) × IsGap rows n l × (i ≡ node_issue missing_locale_projection n.public_key))
In-node_gaps rows n i =
    let (down, up) =
      In-those (λ l. not (doubt rows n l) && is_none (verdict rows n l))
        (λ l. node_issue missing_locale_projection n.public_key) (missing_locales n) i in
    let asked = λ (l : String).
      In-those (λ l. not (contains (covered_locales n) l)) (λ l. l) default_locales l in
    rw (node_gaps-alone rows n) (
      λ m.
          let (l, here, h, e) = down m in
          let (x, listed, bare, is) = (asked l).0 here in
          let bare' : contains (covered_locales n) l ≡ false =
            ground
              (arith, subst (λ y. not (contains (covered_locales n) y) ≡ true) (sym is) bare) in
          (
            l,
            (subst (λ y. In y default_locales) (sym is) listed, bare', (gap-own_rows rows n l).0 h),
            e,
          ),
      λ (l, (listed, bare, empty), e).
          up (l, (asked l).1 (l, listed, rw bare refl, refl), (gap-own_rows rows n l).1 empty, e),
    )

-- A group without a label in one of the two locales.
abbrev pub LacksLabel : AtlasGroup → Type 0
LacksLabel g = (contains (labelled g) "en" ≡ false) ⊎ (contains (labelled g) "fa" ≡ false)

-- The rule on locales reports a visible node exactly if, in one of the two locales, it has no label
-- of its own and its reference has no public row, and a group exactly if it lacks a label in one of
-- the two locales. A node that has two public rows in a locale is not reported for it.
pub validate_locale_projection_iff :
    (rows : List CanonicalRow) (nodes : List AtlasNode) (groups : List AtlasGroup) (i : Issue)
    → In i (validate_locale_projection rows none nodes groups) ↔ (
        ((n : AtlasNode) × In n nodes
          × (n.visible ≡ true)
          × ((l : String) × IsGap rows n l
              × (i ≡ node_issue missing_locale_projection n.public_key)))
        ⊎ ((g : AtlasGroup) × In g groups
            × LacksLabel g
            × (i ≡ group_issue group_locale_missing g.public_key)))
unfolding validate_locale_projection
validate_locale_projection_iff rows nodes groups i =
    let gaps = of_visible (node_gaps rows none) nodes in
    let bare = those lacks_label (λ g. group_issue group_locale_missing g.public_key) groups in
    let (kept, back) = In-sort_by issue_le (gaps ++ bare) i in
    let (down, up) = In-of_visible (node_gaps rows none) nodes i in
    let (down', up') =
      In-those lacks_label (λ g. group_issue group_locale_missing g.public_key) groups i in
    (
      λ m. elim (In-append_cases i gaps bare (kept m)) [
        | inl h ↦
            let (n, here, seen, is) = down h in inl (n, here, seen, (In-node_gaps rows n i).0 is)
        | inr h ↦ let (g, here, is, e) = down' h in inr (g, here, lacking g is, e)
      ],
      λ h. elim h [
        | inl (n, here, seen, is) ↦
            back (In-append_left i gaps bare (up (n, here, seen, (In-node_gaps rows n i).1 is)))
        | inr (g, here, is, e) ↦ back (In-append_right i gaps bare (up' (g, here, ground arith, e)))
      ],
    )
  where
    lacking : (g : AtlasGroup) → lacks_label g ≡ true → LacksLabel g
    lacking g h = ground arith

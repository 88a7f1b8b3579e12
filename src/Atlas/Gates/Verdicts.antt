-- ===== src/Atlas/Gates/Verdicts.antt =====
-- What the rules on pins and on visibility report.
use taha_mohammadi_platform.Prelude.{
  ℕ, none, List, [], ◌∷◌, map, Bool, true, false, ◌&&◌, ◌||◌, ◌≡◌, ◌↔◌, ◌⊎◌, refl, subst, inl, inr,
  arith, eqb, eqb_iff, Bool-cases,
}
use taha_mohammadi_platform.Prelude.Lists.{
  In, In-sort_by, sort_by, contains, contains_iff, Distinct, nat_eq, map-In,
}
use taha_mohammadi_platform.Prelude.Filtered.{those, In-those}
use taha_mohammadi_platform.Atlas.Issues.{
  Issue, issue_le, node_issue, relation_issue, dangling_node_hidden_relation, invalid_pin,
}
use taha_mohammadi_platform.Atlas.Graph.{AtlasNode, AtlasRelation, composed_key}
use taha_mohammadi_platform.Atlas.Gates.{
  visibility_of, is_hidden, validate_visibility, pin_defect, validate_pins,
}
use taha_mohammadi_platform.Atlas.Gates.Pins.{IsPinValid, pin_defect-IsPinValid}

-- A sorted list of issues has those of the elements that the test picks.
pub In-sorted_those :
    {A : Type 0} (p : A → Bool) (f : A → Issue) (xs : List A) (i : Issue)
    → In i (sort_by issue_le (those p f xs)) ↔ ((x : A) × In x xs × (p x ≡ true) × (i ≡ f x))
In-sorted_those p f xs i =
    let (a, b) = In-sort_by issue_le (those p f xs) i in
    let (c, d) = In-those p f xs i in (λ m. c (a m), λ h. b (d h))

-- A pin is reported exactly if it is neither absent nor a point of the scene: half of it is set, it
-- has a height alone, or a coordinate is infinite, not a number or beyond 1000. Hidden nodes are
-- judged too.
pub validate_pins_iff :
    (nodes : List AtlasNode) (i : Issue)
    → In i (validate_pins nodes) ↔ (
        (n : AtlasNode) × In n nodes
        × ¬ (IsPinValid n.pin_x n.pin_y n.pin_z)
        × (i ≡ node_issue invalid_pin n.public_key))
unfolding validate_pins
validate_pins_iff nodes i =
    let (down, up) =
      In-sorted_those (λ (n : AtlasNode). pin_defect n) (λ n. node_issue invalid_pin n.public_key)
        nodes i in
    (
      λ m.
          let (n, here, bad, e) = down m in
          (n, here, λ good. cc (bad, (pin_defect-IsPinValid n).1 good), e),
      λ (n, here, bad, e). up (
        n,
        here,
        elim (Bool-cases (pin_defect n)) [
          | inl h ↦ h
          | inr h ↦ absurd (bad ((pin_defect-IsPinValid n).0 h))
        ],
        e,
      ),
    )

-- A node of the version is hidden.
abbrev pub IsHiddenNode : List AtlasNode → ℕ → Type 0
IsHiddenNode nodes pk = (n : AtlasNode) × In n nodes × (n.pk ≡ pk) × (n.visible ≡ false)

visibility_of-absent :
    (nodes : List AtlasNode) (pk : ℕ)
    → contains (map (λ (n : AtlasNode). n.pk) nodes) pk ≡ false
    → visibility_of nodes pk ≡ none
unfolding visibility_of contains
visibility_of-absent [] pk h = refl
visibility_of-absent (n ∷ nodes) pk h = ground (arith, visibility_of-absent nodes pk)

is_hidden_iff :
    (nodes : List AtlasNode) (pk : ℕ)
    → Distinct (map (λ (n : AtlasNode). n.pk) nodes)
    → (is_hidden nodes pk ≡ true) ↔ IsHiddenNode nodes pk
unfolding visibility_of
is_hidden_iff [] pk once = (λ h. cc h, λ (n, m, _, _). absurd m)
is_hidden_iff (n ∷ nodes) pk (fresh, once) =
    let (down, up) = is_hidden_iff nodes pk once in
    elim (Bool-cases (eqb n.pk pk)) [
      | inl same ↦
          let e = (eqb_iff n.pk pk).0 same in
          rw (is_hidden, same)
            (
              λ h. (n, inl refl, e, ground arith),
              λ (x, m, ex, hidden). elim m [
                | inl is ↦ rw (subst (λ (y : AtlasNode). y.visible ≡ false) is hidden) refl
                | inr m' ↦
                    let listed =
                      (contains_iff (map (λ (y : AtlasNode). y.pk) nodes) x.pk).1
                        (map-In (λ (y : AtlasNode). y.pk) nodes x m') in
                    cc (fresh, listed, ex, e)
              ],
            )
      | inr other ↦
          rw (is_hidden, other)
            (
              λ h. let (x, m, ex, hidden) = down h in (x, inr m, ex, hidden),
              λ (x, m, ex, hidden). elim m [
                | inl is ↦ ground (arith, subst (λ (y : AtlasNode). y.pk ≡ pk) is ex)
                | inr m' ↦ up (x, m', ex, hidden)
              ],
            )
    ]

-- A relation is reported as dangling exactly if it is visible and one of its ends is a hidden node
-- of the version. The nodes of the version have different primary keys.
pub validate_visibility_iff :
    (nodes : List AtlasNode) (relations : List AtlasRelation) (i : Issue)
    → Distinct (map (λ (n : AtlasNode). n.pk) nodes)
    → In i (validate_visibility nodes relations) ↔ (
        (r : AtlasRelation) × In r relations
        × (r.visible ≡ true)
        × (IsHiddenNode nodes r.source.pk ⊎ IsHiddenNode nodes r.target.pk)
        × (i ≡ relation_issue dangling_node_hidden_relation (composed_key r)))
unfolding validate_visibility
validate_visibility_iff nodes relations i once =
    let test = λ (r : AtlasRelation).
      r.visible && (is_hidden nodes r.source.pk || is_hidden nodes r.target.pk) in
    let (down, up) =
      In-sorted_those test (λ r. relation_issue dangling_node_hidden_relation (composed_key r))
        relations i in
    (
      λ m.
          let (r, here, h, e) = down m in
          let b = is_hidden nodes r.source.pk || is_hidden nodes r.target.pk in
          (r, here, and_left r.visible b h, ends r (and_right r.visible b h), e),
      λ (r, here, seen, hidden, e). up (r, here, rw seen (either r hidden), e),
    )
  where
    or_true : (b : Bool) → (b || true) ≡ true
    or_true b = ground arith

    and_left : (a b : Bool) → (a && b) ≡ true → a ≡ true
    and_left a b h = ground arith

    and_right : (a b : Bool) → (a && b) ≡ true → b ≡ true
    and_right a b h = ground arith

    ends :
        (r : AtlasRelation)
        → (is_hidden nodes r.source.pk || is_hidden nodes r.target.pk) ≡ true
        → IsHiddenNode nodes r.source.pk ⊎ IsHiddenNode nodes r.target.pk
    ends r h = elim (Bool-cases (is_hidden nodes r.source.pk)) [
      | inl a ↦ inl ((is_hidden_iff nodes r.source.pk once).0 a)
      | inr a ↦ inr ((is_hidden_iff nodes r.target.pk once).0 (rw a at h))
    ]

    either :
        (r : AtlasRelation)
        → IsHiddenNode nodes r.source.pk ⊎ IsHiddenNode nodes r.target.pk
        → (is_hidden nodes r.source.pk || is_hidden nodes r.target.pk) ≡ true
    either r (inl a) = rw ((is_hidden_iff nodes r.source.pk once).1 a) refl
    either r (inr a) =
        rw ((is_hidden_iff nodes r.target.pk once).1 a) (or_true (is_hidden nodes r.source.pk))

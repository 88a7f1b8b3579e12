-- ===== src/Atlas/Hierarchy/Arcs.antt =====
-- The arcs of the hierarchy, and the relations that they come from.
use taha_mohammadi_platform.Prelude.{
  ℕ, List, [], ◌∷◌, ◌++◌, Bool, true, false, not, ◌&&◌, ◌≡◌, ◌↔◌, ◌⊎◌, refl, sym, ap, subst, ◌∙◌,
  inl, inr, arith, eqb, eqb_refl, if◌then◌else◌, Bool-cases, map,
}
use taha_mohammadi_platform.Prelude.Lists.{
  In-append_cases, In, In-append_left, In-append_right, In-sort_by, contains, Distinct, nat_eq,
  text_eq,
}
use taha_mohammadi_platform.Atlas.Hierarchy.{
  Node, Relation, is_known, hierarchy_rows, unsorted_arcs, arc_le, arcs_of,
}
use taha_mohammadi_platform.Atlas.Hierarchy.Walks.{Follows}

pair_of : {a : ℕ × ℕ} {x y : ℕ} → x ≡ a.0 → y ≡ a.1 → a ≡ (x, y)
pair_of e f = cc (e, f)

-- A relation gives the arcs that the specification gives it.
abbrev pub Gives : Relation → ℕ → ℕ × ℕ → Type 0
Gives r x a =
    (r.pk ≡ a.1)
    × (((r.source ≡ x) × (r.target ≡ a.0))
        ⊎ ((r.directed ≡ false) × (r.target ≡ x) × (r.source ≡ a.0)))

In-when :
    {A : Type 0} (b : Bool) (a c : A) → In a (if b then c ∷ [] else []) ↔ ((b ≡ true) × (a ≡ c))
In-when true a c = (λ m. elim m [ inl e ↦ (refl, e) | inr m ↦ absurd m ], λ e. inl e.1)
In-when false a c = (λ m. absurd m, λ e. cc (e.0))

arcs-Follows :
    (rows : List Relation) (x : ℕ) (a : ℕ × ℕ) → In a (unsorted_arcs rows x) → Follows rows x a
unfolding unsorted_arcs
arcs-Follows [] x a m = absurd m
arcs-Follows (r ∷ rows) x a m =
    elim (In-append_cases a (if eqb r.source x then (r.target, r.pk) ∷ [] else [])
      ((if not r.directed && eqb r.target x then (r.source, r.pk) ∷ [] else [])
        ++ unsorted_arcs rows x)
      m) [
        | inl m ↦
            let (leaves, e) = (In-when (eqb r.source x) a (r.target, r.pk)).0 m in
            (
              r,
              inl refl,
              ap (λ (b : ℕ × ℕ). b.1) (sym e),
              inl (ground arith, ap (λ (b : ℕ × ℕ). b.0) (sym e)),
            )
        | inr m ↦
            elim (In-append_cases a
              (if not r.directed && eqb r.target x then (r.source, r.pk) ∷ [] else [])
              (unsorted_arcs rows x) m) [
                | inl m ↦
                    let (leaves, e) =
                      (In-when (not r.directed && eqb r.target x) a (r.source, r.pk)).0 m in
                    (
                      r,
                      inl refl,
                      ap (λ (b : ℕ × ℕ). b.1) (sym e),
                      inr (ground arith, ground arith, ap (λ (b : ℕ × ℕ). b.0) (sym e)),
                    )
                | inr m ↦
                    let (s, here, same, way) = arcs-Follows rows x a m in (s, inr here, same, way)
              ]
      ]

-- The arcs that one relation gives.
Gives-arcs :
    (r : Relation) (rows : List Relation) (x : ℕ) (a : ℕ × ℕ)
    → Gives r x a
    → In a (unsorted_arcs (r ∷ rows) x)
unfolding unsorted_arcs
Gives-arcs r rows x a (same, inl (leaves, arrives)) =
    In-append_left a (if eqb r.source x then (r.target, r.pk) ∷ [] else [])
      ((if not r.directed && eqb r.target x then (r.source, r.pk) ∷ [] else [])
        ++ unsorted_arcs rows x)
      ((In-when (eqb r.source x) a (r.target, r.pk)).1 (ground arith, pair_of arrives same))
Gives-arcs r rows x a (same, inr (both, leaves, arrives)) =
    In-append_right a (if eqb r.source x then (r.target, r.pk) ∷ [] else [])
      ((if not r.directed && eqb r.target x then (r.source, r.pk) ∷ [] else [])
        ++ unsorted_arcs rows x)
      (In-append_left a (if not r.directed && eqb r.target x then (r.source, r.pk) ∷ [] else [])
        (unsorted_arcs rows x)
        ((In-when (not r.directed && eqb r.target x) a (r.source, r.pk)).1
          (ground arith, pair_of arrives same)))

arcs-more :
    (r : Relation) (rows : List Relation) (x : ℕ) (a : ℕ × ℕ)
    → In a (unsorted_arcs rows x)
    → In a (unsorted_arcs (r ∷ rows) x)
unfolding unsorted_arcs
arcs-more r rows x a m =
    In-append_right a (if eqb r.source x then (r.target, r.pk) ∷ [] else [])
      ((if not r.directed && eqb r.target x then (r.source, r.pk) ∷ [] else [])
        ++ unsorted_arcs rows x)
      (In-append_right a (if not r.directed && eqb r.target x then (r.source, r.pk) ∷ [] else [])
        (unsorted_arcs rows x) m)

Follows-arcs :
    (rows : List Relation) (x : ℕ) (a : ℕ × ℕ) → Follows rows x a → In a (unsorted_arcs rows x)
Follows-arcs [] x a f = absurd f.1
Follows-arcs (s ∷ rows) x a (r, inl e, same, way) =
    Gives-arcs s rows x a (subst (λ t. Gives t x a) e (same, way))
Follows-arcs (s ∷ rows) x a (r, inr m, same, way) =
    arcs-more s rows x a (Follows-arcs rows x a (r, m, same, way))

pub In-arcs_of :
    (nodes : List Node) (rows : List Relation) (x : ℕ) (a : ℕ × ℕ)
    → (In a (arcs_of nodes rows x) → Follows rows x a)
      × (Follows rows x a → In a (arcs_of nodes rows x))
unfolding arcs_of
In-arcs_of nodes rows x a =
    let sorted = In-sort_by (arc_le nodes) (unsorted_arcs rows x) a in
    (λ m. arcs-Follows rows x a (sorted.0 m), λ f. sorted.1 (Follows-arcs rows x a f))

-- A primary key names one relation.
abbrev pub HasOneOf : List Relation → Type 0
HasOneOf rows = (r s : Relation) → In r rows → In s rows → r.pk ≡ s.pk → r ≡ s

abbrev pub pks_of : List Relation → List ℕ
pks_of rows = map (λ (r : Relation). r.pk) rows

contains-pk : (rows : List Relation) (r : Relation) → In r rows → contains (pks_of rows) r.pk ≡ true
unfolding contains
contains-pk [] r m = absurd m
contains-pk (s ∷ rows) r (inl e) = ground (arith, eqb_refl s.pk, ap (λ (t : Relation). t.pk) e)
contains-pk (s ∷ rows) r (inr m) = ground (arith, contains-pk rows r m)

pub Distinct-HasOneOf : (rows : List Relation) → Distinct (pks_of rows) → HasOneOf rows
Distinct-HasOneOf [] d r s m n e = absurd m
Distinct-HasOneOf (t ∷ rows) d r s (inl e) (inl f) same = cc (e, f)
Distinct-HasOneOf (t ∷ rows) d r s (inl e) (inr n) same =
    let here = contains-pk rows s n in absurd (cc (here, d.0, ap (λ (u : Relation). u.pk) e, same))
Distinct-HasOneOf (t ∷ rows) d r s (inr m) (inl f) same =
    let here = contains-pk rows r m in absurd (cc (here, d.0, ap (λ (u : Relation). u.pk) f, same))
Distinct-HasOneOf (t ∷ rows) d r s (inr m) (inr n) same = Distinct-HasOneOf rows d.1 r s m n same

pub In-hierarchy_rows :
    (nodes : List Node) (relations : List Relation) (r : Relation)
    → In r (hierarchy_rows nodes relations)
    → In r relations × (is_known r.source nodes ≡ true) × (is_known r.target nodes ≡ true)
unfolding hierarchy_rows
In-hierarchy_rows nodes [] r m = absurd m
In-hierarchy_rows nodes (s ∷ rest) r m =
    elim (Bool-cases (s.hierarchy_role && (is_known s.source nodes && is_known s.target nodes))) [
      | inl kept ↦ elim (rw kept at m) [
        | inl e ↦ (
          inl e,
          subst (λ (t : Relation). is_known t.source nodes ≡ true) (sym e) (ground arith),
          subst (λ (t : Relation). is_known t.target nodes ≡ true) (sym e) (ground arith),
        )
        | inr m ↦ let (here, a, b) = In-hierarchy_rows nodes rest r m in (inr here, a, b)
      ]
      | inr out ↦
          let (here, a, b) = In-hierarchy_rows nodes rest r (rw out at m) in (inr here, a, b)
    ]

-- Two arcs of one relation share the ends.
pub Follows-ends :
    (rows : List Relation)
    → HasOneOf rows
    → (x y : ℕ) (a b : ℕ × ℕ) → Follows rows x a
    → Follows rows y b
    → a.1 ≡ b.1
    → (x ≡ y) ⊎ (x ≡ b.0)
Follows-ends rows one x y a b (r, m, e, way) (s, n, f, back) same =
    let alike : r ≡ s = one r s m n (e ∙ same ∙ sym f) in
    let sources = ap (λ (t : Relation). t.source) alike in
    let targets = ap (λ (t : Relation). t.target) alike in
    ground (arith, sources, targets, way, back)

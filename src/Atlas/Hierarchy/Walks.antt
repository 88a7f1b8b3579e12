-- ===== src/Atlas/Hierarchy/Walks.antt =====
-- Walks over arcs, and the cycles of the hierarchy: closed walks of distinct relations.
use taha_mohammadi_platform.Prelude.{
  ℕ, List, [], ◌∷◌, false, ◌≡◌, ◌≢◌, ◌⊎◌, refl, sym, inl, inr, arith, eqb_iff, map,
}
use taha_mohammadi_platform.Prelude.Lists.{All, In, contains, Distinct, nat_eq}
use taha_mohammadi_platform.Atlas.Hierarchy.{Relation}

-- A walk as its arcs: the node each of them leads to and the relation it follows. `E x a` says that
-- the arc `a` leaves `x`.
abbrev pub IsWalk : (ℕ → ℕ × ℕ → Type 0) → ℕ → List (ℕ × ℕ) → ℕ → Type 0
IsWalk E x [] z = x ≡ z
IsWalk E x (a ∷ w) z = E x a × IsWalk E (a.0) w z

-- The arcs that a table of arcs lists.
abbrev pub Listed : (ℕ → List (ℕ × ℕ)) → ℕ → ℕ × ℕ → Type 0
Listed arcs x a = In a (arcs x)

-- The arcs of relations: along each one, and against each one that is undirected.
abbrev pub Follows : List Relation → ℕ → ℕ × ℕ → Type 0
Follows rows x a =
    (r : Relation) × In r rows
    × (r.pk ≡ a.1)
    × (((r.source ≡ x) × (r.target ≡ a.0))
        ⊎ ((r.directed ≡ false) × (r.target ≡ x) × (r.source ≡ a.0)))

-- No arc of the walk follows the given relation.
abbrev pub Avoids : ℕ → List (ℕ × ℕ) → Type 0
Avoids relation w = All (λ (a : ℕ × ℕ). a.1 ≢ relation) w

abbrev pub nodes_of : List (ℕ × ℕ) → List ℕ
nodes_of w = map (λ (a : ℕ × ℕ). a.0) w

abbrev pub relations_of : List (ℕ × ℕ) → List ℕ
relations_of w = map (λ (a : ℕ × ℕ). a.1) w

-- A cycle through `x`: a closed walk of at least one arc that follows no relation twice.
abbrev pub IsCycle : List Relation → ℕ → List (ℕ × ℕ) → Type 0
IsCycle rows x w = (w ≢ []) × IsWalk (Follows rows) x w x × Distinct (relations_of w)

pub IsWalk-imp :
    (E F : ℕ → ℕ × ℕ → Type 0) (x : ℕ) (w : List (ℕ × ℕ)) (z : ℕ)
    → ((x : ℕ) (a : ℕ × ℕ) → E x a → F x a)
    → IsWalk E x w z
    → IsWalk F x w z
IsWalk-imp E F x [] z f walk = walk
IsWalk-imp E F x (a ∷ w) z f walk = (f x a walk.0, IsWalk-imp E F (a.0) w z f walk.1)

pub Avoids-iff :
    (p : ℕ) (w : List (ℕ × ℕ))
    → (Avoids p w → contains (relations_of w) p ≡ false)
      × (contains (relations_of w) p ≡ false → Avoids p w)
unfolding contains
Avoids-iff p [] = (λ a. refl, λ c. tt)
Avoids-iff p (a ∷ w) =
    let (to, from) = Avoids-iff p w in
    (
      λ h. ground (arith, to h.1, h.0, eqb_iff (a.1) p),
      λ c. (λ e. ground (arith, eqb_iff (a.1) p), from (ground arith)),
    )

module _ (E : ℕ → ℕ × ℕ → Type 0)
    (ends : (x y : ℕ) (a b : ℕ × ℕ) → E x a → E y b → a.1 ≡ b.1 → (x ≡ y) ⊎ (x ≡ b.0)) where
  -- A walk that stays away from one end of an arc does not follow the arc's relation.
  away :
      (x : ℕ) (a : ℕ × ℕ) (y : ℕ) (w : List (ℕ × ℕ)) (z : ℕ)
      → E x a
      → IsWalk E y w z
      → contains (y ∷ nodes_of w) x ≡ false
      → Avoids (a.1) w
  unfolding contains
  away x a y [] z arc walk out = tt
  away x a y (b ∷ w) z arc walk out = (
    λ same. elim (ends x y a b arc walk.0 (sym same)) [
      | inl e ↦ ground (arith, eqb_iff y x)
      | inr e ↦ ground (arith, eqb_iff (b.0) x)
    ],
    away x a (b.0) w z arc walk.1 (ground arith),
  )

  -- A walk that visits no node twice follows no relation twice.
  pub walk-Distinct :
      (x : ℕ) (w : List (ℕ × ℕ)) (z : ℕ)
      → IsWalk E x w z
      → Distinct (x ∷ nodes_of w)
      → Distinct (relations_of w)
  walk-Distinct x [] z walk d = tt
  walk-Distinct x (a ∷ w) z walk d = (
    (Avoids-iff (a.1) w).0 (away x a (a.0) w z walk.0 walk.1 d.0),
    walk-Distinct (a.0) w z walk.1 d.1,
  )

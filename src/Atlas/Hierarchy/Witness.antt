-- ===== src/Atlas/Hierarchy/Witness.antt =====
-- The walk that `_witness_walk` returns, read off the entries of `previous`.
use taha_mohammadi_platform.Prelude.{
  ℕ, zero, suc, ◌≤◌, some, List, [], ◌∷◌, ◌++◌, true, false, ◌||◌, ◌≡◌, ◌≢◌, refl, ap, subst, inl,
  inr, arith, eqb, eqb_iff, eqb_refl, Bool-cases,
}
use taha_mohammadi_platform.Prelude.Lists.{All, In, All-imp, length, contains, Distinct, nat_eq}
use taha_mohammadi_platform.Atlas.Hierarchy.Walks.{IsWalk, Avoids, Listed, nodes_of}
use taha_mohammadi_platform.Atlas.Hierarchy.{
  visited, previous_of, Scan, found, scanned, scan, walk_back, reverse_onto, search_walk,
  witness_walk,
}
use taha_mohammadi_platform.Atlas.Hierarchy.Search.{Scan-cases}

module _ (arcs : ℕ → List (ℕ × ℕ)) (relation origin : ℕ) where
  -- An arc between two nodes that does not follow the relation.
  abbrev Edge : ℕ → ℕ → Type 0
  Edge x y = (p : ℕ) × In (y, p) (arcs x) × (p ≢ relation)

  -- Every entry was visited once, from a node that was visited before.
  abbrev IsTree : List (ℕ × ℕ) → Type 0
  IsTree [] = ⊥
  IsTree ((node, before) ∷ []) = node ≡ origin
  IsTree ((node, before) ∷ e ∷ rest) =
      (visited node (e ∷ rest) ≡ false)
      × (visited before (e ∷ rest) ≡ true)
      × Edge before node
      × IsTree (e ∷ rest)

  previous-visited :
      (seen : List (ℕ × ℕ)) (i : ℕ)
      → IsTree seen
      → visited i seen ≡ true
      → i ≢ origin
      → visited (previous_of i seen) seen ≡ true
  unfolding visited previous_of
  previous-visited [] i tree here other = absurd tree
  previous-visited ((node, before) ∷ []) i tree here other = ground (arith, eqb_iff node i)
  previous-visited ((node, before) ∷ e ∷ rest) i tree here other = elim (Bool-cases (eqb node i)) [
    | inl same ↦
        let step : before ≡ previous_of i ((node, before) ∷ e ∷ rest) = rw same refl in
        subst (λ k. visited k ((node, before) ∷ e ∷ rest) ≡ true) step (ground (arith, tree.1))
    | inr new ↦
        let step : previous_of i (e ∷ rest) ≡ previous_of i ((node, before) ∷ e ∷ rest) =
          rw new refl in
        let older = previous-visited (e ∷ rest) i tree.3 (ground arith) other in
        subst (λ k. visited k ((node, before) ∷ e ∷ rest) ≡ true) step (ground (arith, older))
  ]

  -- The walk back from an older node does not see the newest entry.
  walk_back-older :
      (fuel node before : ℕ) (seen : List (ℕ × ℕ)) (i : ℕ)
      → IsTree seen
      → visited node seen ≡ false
      → visited i seen ≡ true
      → walk_back fuel ((node, before) ∷ seen) origin i ≡ walk_back fuel seen origin i
  unfolding walk_back previous_of
  walk_back-older zero node before seen i tree new here = refl
  walk_back-older (suc fuel) node before seen i tree new here = elim (Bool-cases (eqb i origin)) [
    | inl same ↦ rw same refl
    | inr other ↦ elim (Bool-cases (eqb node i)) [
      | inl clash ↦ ground (arith, eqb_iff node i)
      | inr older ↦
          rw (older, other)
            (ap (λ w. i ∷ w)
              (walk_back-older fuel node before seen (previous_of i seen) tree new
                (previous-visited seen i tree here (ground arith))))
    ]
  ]

  -- What the walk back adds in front of a walk from a visited node.
  pub record Led (z : ℕ) (nodes : List ℕ) : Type 0 where
    pub walk : List (ℕ × ℕ)
    pub spelled : nodes ≡ origin ∷ nodes_of walk
    pub leads : IsWalk (Listed arcs) origin walk z
    pub avoids : Avoids relation walk
    pub distinct : Distinct (origin ∷ nodes_of walk)

  absent :
      (seen : List (ℕ × ℕ)) (l : List ℕ) (i : ℕ)
      → visited i seen ≡ true
      → All (λ k. visited k seen ≡ false) l
      → contains l i ≡ false
  unfolding contains
  absent seen [] i here new = refl
  absent seen (k ∷ l) i here new = ground (arith, absent seen l i here new.1, eqb_iff k i, new.0)

  home-Led :
      (i z : ℕ) (w : List (ℕ × ℕ))
      → i ≡ origin
      → IsWalk (Listed arcs) i w z
      → Avoids relation w
      → Distinct (i ∷ nodes_of w)
      → Led z (i ∷ nodes_of w)
  home-Led i z w home walk avoids distinct = record {
    walk = w;
    spelled = ap (λ k. k ∷ nodes_of w) home;
    leads = subst (λ k. IsWalk (Listed arcs) k w z) home walk;
    avoids = avoids;
    distinct = subst (λ k. Distinct (k ∷ nodes_of w)) home distinct;
  }

  walk_back-home :
      (fuel i : ℕ) (seen : List (ℕ × ℕ))
      → eqb i origin ≡ true
      → walk_back fuel seen origin i ≡ i ∷ []
  unfolding walk_back
  walk_back-home zero i seen home = refl
  walk_back-home (suc fuel) i seen home = rw home refl

  walk_back-newest :
      (fuel before i : ℕ) (seen : List (ℕ × ℕ))
      → IsTree seen
      → visited i seen ≡ false
      → visited before seen ≡ true
      → eqb i origin ≡ false
      → walk_back (suc fuel) ((i, before) ∷ seen) origin i ≡ i ∷ walk_back fuel seen origin before
  unfolding walk_back previous_of
  walk_back-newest fuel before i seen tree new old other =
      rw (other, eqb_refl i)
        (ap (λ w. i ∷ w) (walk_back-older fuel i before seen before tree new old))

  reverse-walk_back :
      (seen : List (ℕ × ℕ)) (fuel i z : ℕ) (w : List (ℕ × ℕ))
      → length seen ≤ fuel
      → IsTree seen
      → visited i seen ≡ true
      → IsWalk (Listed arcs) i w z
      → Avoids relation w
      → Distinct (nodes_of w)
      → All (λ k. visited k seen ≡ false) (nodes_of w)
      → Led z (reverse_onto (nodes_of w) (walk_back fuel seen origin i))
  unfolding reverse_onto visited
  reverse-walk_back [] fuel i z w enough tree here walk avoids distinct new = absurd tree
  reverse-walk_back ((node, before) ∷ []) fuel i z w enough tree here walk avoids distinct new =
      let home : eqb i origin ≡ true = ground (arith, eqb_iff node i) in
      rw (walk_back-home fuel i ((node, before) ∷ []) home) (
        home-Led i z w (ground arith) walk avoids
          (absent ((node, before) ∷ []) (nodes_of w) i here new, distinct))
  reverse-walk_back ((node, before) ∷ e ∷ rest) zero i z w enough tree here walk avoids distinct
        new =
      absurd (omega arith)
  reverse-walk_back ((node, before) ∷ e ∷ rest) (suc fuel) i z w enough tree here walk avoids
        distinct new =
      let out = absent ((node, before) ∷ e ∷ rest) (nodes_of w) i here new in
      let older =
        All-imp (λ k. visited k ((node, before) ∷ e ∷ rest) ≡ false)
          (λ k. visited k (e ∷ rest) ≡ false) (nodes_of w) (λ k v. ground arith) new in
      elim (Bool-cases (eqb i origin)) [
        | inl home ↦
            rw (walk_back-home (suc fuel) i ((node, before) ∷ e ∷ rest) home)
              (home-Led i z w (ground arith) walk avoids (out, distinct))
        | inr other ↦ elim (Bool-cases (eqb node i)) [
          | inl same ↦
              let (p, arc, free) = tree.2 in
              let at : node ≡ i = ground arith in
              let unseen = subst (λ k. visited k (e ∷ rest) ≡ false) at tree.0 in
              let back = walk_back-newest fuel before i (e ∷ rest) tree.3 unseen tree.1 other in
              rw (at, back)
                (reverse-walk_back (e ∷ rest) fuel before z ((i, p) ∷ w) (omega arith) tree.3 tree.1
                  (subst (λ k. In (k, p) (arcs before)) at arc, walk) (free, avoids) (out, distinct)
                  (unseen, older))
          | inr new_one ↦
              rw (walk_back-older (suc fuel) node before (e ∷ rest) i tree.3 tree.0 (ground arith))
                (reverse-walk_back (e ∷ rest) (suc fuel) i z w (omega arith) tree.3 (ground arith)
                  walk avoids distinct older)
        ]
      ]

  IsTree-visit :
      (seen : List (ℕ × ℕ)) (node next : ℕ)
      → IsTree seen
      → visited node seen ≡ true
      → visited next seen ≡ false
      → Edge node next
      → IsTree ((next, node) ∷ seen)
  IsTree-visit [] node next tree here new edge = absurd tree
  IsTree-visit (e ∷ rest) node next tree here new edge = (new, here, edge, tree)

  abbrev AllVisited : List (ℕ × ℕ) → List ℕ → Type 0
  AllVisited seen queue = All (λ k. visited k seen ≡ true) queue

  AllVisited-visit :
      (seen : List (ℕ × ℕ)) (queue : List ℕ) (node next : ℕ)
      → AllVisited seen queue
      → AllVisited ((next, node) ∷ seen) (queue ++ next ∷ [])
  unfolding visited
  AllVisited-visit seen [] node next h = (rw (eqb_refl next) refl, tt)
  AllVisited-visit seen (k ∷ queue) node next h =
      (ground (arith, h.0), AllVisited-visit seen queue node next h.1)

  -- What a scan leaves, whichever way it ends.
  abbrev Sound : ℕ → Scan → Type 0
  Sound goal (found seen) = IsTree seen × (visited goal seen ≡ true)
  Sound goal (scanned seen later) = IsTree seen × AllVisited seen later

  scan-Sound :
      (goal node : ℕ) (l previous : List (ℕ × ℕ)) (queue : List ℕ)
      → ((a : ℕ × ℕ) → In a l → In a (arcs node))
      → IsTree previous
      → visited node previous ≡ true
      → AllVisited previous queue
      → Sound goal (scan goal relation node l previous queue)
  unfolding scan visited
  scan-Sound goal node [] previous queue inside tree here waiting = (tree, waiting)
  scan-Sound goal node (a ∷ l) previous queue inside tree here waiting =
      elim (Bool-cases (eqb (a.1) relation || visited (a.0) previous)) [
        | inl skip ↦
            rw (skip, scan)
              (scan-Sound goal node l previous queue (λ b m. inside b (inr m)) tree here waiting)
        | inr follow ↦
            let edge : Edge node (a.0) =
              (a.1, inside a (inl refl), ground (arith, eqb_iff (a.1) relation)) in
            let grown = IsTree-visit previous node (a.0) tree here (ground arith) edge in
            elim (Bool-cases (eqb (a.0) goal)) [
              | inl hit ↦ rw (follow, hit, scan) (grown, ground arith)
              | inr other ↦
                  rw (follow, other, scan)
                    (scan-Sound goal node l ((a.0, node) ∷ previous) (queue ++ a.0 ∷ [])
                      (λ b m. inside b (inr m)) grown (ground (arith, here))
                      (AllVisited-visit previous queue node (a.0) waiting))
            ]
      ]

  search_walk-Led :
      (fuel goal : ℕ) (previous : List (ℕ × ℕ)) (queue walk : List ℕ)
      → IsTree previous
      → AllVisited previous queue
      → search_walk fuel arcs origin goal relation previous queue ≡ some walk
      → Led goal walk
  unfolding search_walk
  search_walk-Led zero goal previous queue walk tree waiting h = cc
  search_walk-Led (suc fuel) goal previous [] walk tree waiting h = cc
  search_walk-Led (suc fuel) goal previous (node ∷ queue) walk tree waiting h =
      let sound =
        scan-Sound goal node (arcs node) previous queue (λ a m. m) tree waiting.0 waiting.1 in
      elim (Scan-cases (scan goal relation node (arcs node) previous queue)) [
        | inl (seen, e) ↦
            let (grown, hit) = subst (Sound goal) e sound in
            subst (Led goal) (cc (rw (e, search_walk) at h)) (
              reverse-walk_back seen (length seen) goal goal [] (omega arith) grown hit refl tt tt
                tt)
        | inr (seen, later, e) ↦
            let (grown, next) = subst (Sound goal) e sound in
            search_walk-Led fuel goal seen later walk grown next (rw (e, search_walk) at h)
      ]

  -- The walk that the search returns leads from the origin to the goal without the relation, and
  -- visits no node twice.
  pub witness_walk-Led :
      (fuel goal : ℕ) (walk : List ℕ)
      → witness_walk fuel arcs origin goal relation ≡ some walk
      → Led goal walk
  unfolding witness_walk visited contains
  witness_walk-Led fuel goal walk h = elim (Bool-cases (eqb origin goal)) [
    | inl same ↦
        subst (Led goal) (cc (rw same at h))
          (home-Led origin goal [] refl (ground arith) tt (refl, tt))
    | inr other ↦
        search_walk-Led fuel goal ((origin, origin) ∷ []) (origin ∷ []) walk refl
          (rw (eqb_refl origin) refl, tt) (rw other at h)
  ]

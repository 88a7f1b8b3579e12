-- ===== src/Atlas/Hierarchy/Search.antt =====
-- The breadth-first search of `_witness_walk`, over any arcs between the given nodes, and its fuel.
use taha_mohammadi_platform.Prelude.{
  ℕ, zero, suc, ◌+◌, ◌≤◌, ◌<◌, none, List, [], ◌∷◌, ◌++◌, true, false, ◌||◌, ◌≡◌, ◌≢◌, ◌⊎◌, refl,
  sym, subst, inl, inr, arith, eqb, eqb_iff, eqb_refl, if◌then◌else◌, Bool-cases,
}
use taha_mohammadi_platform.Prelude.Lists.{
  All, In, All-In, In-append_left, In-append_right, length, length-append,
}
use taha_mohammadi_platform.Atlas.Hierarchy.Walks.{IsWalk, Avoids, Listed}
use taha_mohammadi_platform.Atlas.Hierarchy.{
  visited, Scan, found, scanned, scan, search_walk, witness_walk,
}

pub Scan-cases :
    (s : Scan)
    → ((seen : List (ℕ × ℕ)) × (s ≡ found seen))
      ⊎ ((seen : List (ℕ × ℕ)) × (later : List ℕ) × (s ≡ scanned seen later))
Scan-cases (found seen) = inl (seen, refl)
Scan-cases (scanned seen later) = inr (seen, later, refl)

-- The nodes of the list that are not visited.
abbrev unvisited : List ℕ → List (ℕ × ℕ) → ℕ
unvisited [] previous = 0
unvisited (i ∷ nodes) previous =
    let rest = unvisited nodes previous in if visited i previous then rest else suc rest

unvisited-le :
    (nodes : List ℕ) (next node : ℕ) (previous : List (ℕ × ℕ))
    → unvisited nodes ((next, node) ∷ previous) ≤ unvisited nodes previous
unfolding visited
unvisited-le [] next node previous = omega arith
unvisited-le (i ∷ nodes) next node previous = ground (arith, unvisited-le nodes next node previous)

unvisited-visit :
    (nodes : List ℕ) (next node : ℕ) (previous : List (ℕ × ℕ))
    → In next nodes
    → visited next previous ≡ false
    → suc (unvisited nodes ((next, node) ∷ previous)) ≤ unvisited nodes previous
unfolding visited
unvisited-visit [] next node previous here new = absurd here
unvisited-visit (i ∷ nodes) next node previous (inl e) new =
    ground (arith, unvisited-le nodes next node previous, eqb_refl next)
unvisited-visit (i ∷ nodes) next node previous (inr m) new =
    ground (arith, unvisited-visit nodes next node previous m new)

module _ (goal relation node : ℕ) (nodes : List ℕ) where
  -- What a scan leaves when it does not meet the goal.
  record Scanned (arcs : List (ℕ × ℕ)) (previous : List (ℕ × ℕ)) (queue : List ℕ)
      (seen : List (ℕ × ℕ)) (later : List ℕ) : Type 0 where
    keeps : (i : ℕ) → visited i previous ≡ true → visited i seen ≡ true
    grows : (i : ℕ) → In i queue → In i later
    queues : (i : ℕ) → visited i seen ≡ true → (visited i previous ≡ true) ⊎ In i later
    reaches : All (λ (a : ℕ × ℕ). a.1 ≢ relation → visited (a.0) seen ≡ true) arcs
    without : visited goal seen ≡ false
    pays : unvisited nodes seen + length later ≤ unvisited nodes previous + length queue

  -- An arc that is not followed.
  passed :
      (a : ℕ × ℕ) (arcs previous : List (ℕ × ℕ)) (queue : List ℕ) (seen : List (ℕ × ℕ))
      (later : List ℕ)
      → (eqb (a.1) relation || visited (a.0) previous) ≡ true
      → Scanned arcs previous queue seen later
      → Scanned (a ∷ arcs) previous queue seen later
  passed a arcs previous queue seen later skip s = record {
    keeps = s.keeps;
    grows = s.grows;
    queues = s.queues;
    reaches = (λ other. ground (arith, s.keeps (a.0), eqb_iff (a.1) relation), s.reaches);
    without = s.without;
    pays = s.pays;
  }

  -- An arc that visits a node.
  visits :
      (a : ℕ × ℕ) (arcs previous : List (ℕ × ℕ)) (queue : List ℕ) (seen : List (ℕ × ℕ))
      (later : List ℕ)
      → In (a.0) nodes
      → visited (a.0) previous ≡ false
      → Scanned arcs ((a.0, node) ∷ previous) (queue ++ a.0 ∷ []) seen later
      → Scanned (a ∷ arcs) previous queue seen later
  unfolding visited
  visits a arcs previous queue seen later inside new s = record {
    keeps = λ i. ground (arith, s.keeps i);
    grows = λ i m. s.grows i (In-append_left i queue (a.0 ∷ []) m);
    queues = λ i. ground (
      arith,
      s.queues i,
      eqb_iff (a.0) i,
      s.grows (a.0) (In-append_right (a.0) queue (a.0 ∷ []) (inl refl)),
    );
    reaches = (λ other. s.keeps (a.0) (rw (eqb_refl (a.0)) refl), s.reaches);
    without = s.without;
    pays = omega (
      arith,
      s.pays,
      unvisited-visit nodes (a.0) node previous inside new,
      length-append queue (a.0 ∷ []),
    );
  }

  scan-Scanned :
      (arcs previous : List (ℕ × ℕ)) (queue : List ℕ) (seen : List (ℕ × ℕ)) (later : List ℕ)
      → All (λ (a : ℕ × ℕ). In (a.0) nodes) arcs
      → visited goal previous ≡ false
      → scan goal relation node arcs previous queue ≡ scanned seen later
      → Scanned arcs previous queue seen later
  unfolding scan visited
  scan-Scanned [] previous queue seen later inside miss h =
      subst (λ s. Scanned [] previous queue s later) (cc h)
        (subst (λ l. Scanned [] previous queue previous l) (cc h)
          (record {
            keeps = λ i v. v;
            grows = λ i m. m;
            queues = λ i v. inl v;
            reaches = tt;
            without = miss;
            pays = omega arith;
          }))
  scan-Scanned (a ∷ arcs) previous queue seen later inside miss h =
      elim (Bool-cases (eqb (a.1) relation || visited (a.0) previous)) [
        | inl skip ↦
            passed a arcs previous queue seen later skip
              (scan-Scanned arcs previous queue seen later inside.1 miss (rw (skip, scan) at h))
        | inr follow ↦ elim (Bool-cases (eqb (a.0) goal)) [
          | inl hit ↦ cc (rw hit at (rw (follow, scan) at h))
          | inr other ↦ visits a arcs previous queue seen later inside.0 (ground arith) (
              scan-Scanned arcs ((a.0, node) ∷ previous) (queue ++ a.0 ∷ []) seen later inside.1
                (ground arith) (rw other at (rw (follow, scan) at h)))
        ]
      ]

module _ (arcs : ℕ → List (ℕ × ℕ)) (relation : ℕ) where
  -- Every arc of the node, other than those of the relation, leads to a visited node.
  abbrev Served : List (ℕ × ℕ) → ℕ → Type 0
  Served seen x = All (λ (a : ℕ × ℕ). a.1 ≢ relation → visited (a.0) seen ≡ true) (arcs x)

  abbrev Closed : List (ℕ × ℕ) → Type 0
  Closed seen = (x : ℕ) → visited x seen ≡ true → Served seen x

  -- Every visited node is served or waits in the queue.
  abbrev Pending : List (ℕ × ℕ) → List ℕ → Type 0
  Pending seen queue = (x : ℕ) → visited x seen ≡ true → In x queue ⊎ Served seen x

  Served-grows :
      (previous seen l : List (ℕ × ℕ))
      → ((i : ℕ) → visited i previous ≡ true → visited i seen ≡ true)
      → All (λ (a : ℕ × ℕ). a.1 ≢ relation → visited (a.0) previous ≡ true) l
      → All (λ (a : ℕ × ℕ). a.1 ≢ relation → visited (a.0) seen ≡ true) l
  Served-grows previous seen [] keeps s = tt
  Served-grows previous seen (a ∷ l) keeps s =
      (λ other. keeps (a.0) (s.0 other), Served-grows previous seen l keeps s.1)

  Closed-walk :
      (seen w : List (ℕ × ℕ)) (x z : ℕ)
      → Closed seen
      → visited x seen ≡ true
      → IsWalk (Listed arcs) x w z
      → Avoids relation w
      → visited z seen ≡ true
  Closed-walk seen [] x z closed here walk avoids = subst (λ i. visited i seen ≡ true) walk here
  Closed-walk seen (a ∷ w) x z closed here walk avoids =
      Closed-walk seen w (a.0) z closed
        (All-In (λ (b : ℕ × ℕ). b.1 ≢ relation → visited (b.0) seen ≡ true) a (arcs x)
          (closed x here) walk.0 avoids.0)
        walk.1 avoids.1

  module _ (nodes : List ℕ) (inside : (x : ℕ) → All (λ (a : ℕ × ℕ). In (a.0) nodes) (arcs x))
      (goal : ℕ) where
    scan-Pending :
        (node : ℕ) (previous : List (ℕ × ℕ)) (queue : List ℕ) (seen : List (ℕ × ℕ)) (later : List ℕ)
        → Scanned goal relation node nodes (arcs node) previous queue seen later
        → Pending previous (node ∷ queue)
        → Pending seen later
    scan-Pending node previous queue seen later s pending x here = elim (s.queues x here) [
      | inr m ↦ inl m
      | inl old ↦ elim (pending x old) [
        | inl (inl e) ↦ inr (subst (Served seen) (sym e) s.reaches)
        | inl (inr m) ↦ inl (s.grows x m)
        | inr served ↦ inr (Served-grows previous seen (arcs x) s.keeps served)
      ]
    ]

    search-none :
        (fuel origin : ℕ) (previous : List (ℕ × ℕ)) (queue : List ℕ)
        → unvisited nodes previous + length queue < fuel
        → visited goal previous ≡ false
        → Pending previous queue
        → search_walk fuel arcs origin goal relation previous queue ≡ none
        → (seen : List (ℕ × ℕ)) × ((i : ℕ) → visited i previous ≡ true → visited i seen ≡ true)
          × (visited goal seen ≡ false)
          × Closed seen
    unfolding search_walk
    search-none zero origin previous queue enough miss pending h = absurd (omega arith)
    search-none (suc fuel) origin previous [] enough miss pending h = (
      previous,
      λ i v. v,
      miss,
      λ x here. elim (pending x here) [ inl m ↦ absurd m | inr served ↦ served ],
    )
    search-none (suc fuel) origin previous (node ∷ queue) enough miss pending h =
        elim (Scan-cases (scan goal relation node (arcs node) previous queue)) [
          | inl (seen, e) ↦ cc (rw (e, search_walk) at h)
          | inr (seen, later, e) ↦
              let s =
                scan-Scanned goal relation node nodes (arcs node) previous queue seen later
                  (inside node) miss e in
              let (last, keeps, out, closed) =
                search-none fuel origin seen later (omega (arith, s.pays)) s.without
                  (scan-Pending node previous queue seen later s pending)
                  (rw (e, search_walk) at h) in
              (last, λ i v. keeps i (s.keeps i v), out, closed)
        ]

    unvisited_all : (l : List ℕ) → unvisited l [] ≡ length l
    unfolding visited
    unvisited_all [] = refl
    unvisited_all (i ∷ l) = omega (arith, unvisited_all l)

    -- The search finds a walk whenever there is one.
    pub witness_walk_complete :
        (origin : ℕ) (w : List (ℕ × ℕ))
        → In origin nodes
        → IsWalk (Listed arcs) origin w goal
        → Avoids relation w
        → witness_walk (suc (length nodes)) arcs origin goal relation ≢ none
    unfolding witness_walk visited
    witness_walk_complete origin w here walk avoids missing = elim (Bool-cases (eqb origin goal)) [
      | inl same ↦ cc (rw same at missing)
      | inr other ↦
          let fits : unvisited nodes ((origin, origin) ∷ []) + 1 < suc (length nodes) =
            omega (arith, unvisited-visit nodes origin origin [] here refl, unvisited_all nodes) in
          let (seen, keeps, out, closed) =
            search-none (suc (length nodes)) origin ((origin, origin) ∷ []) (origin ∷ []) fits
              (ground arith) (λ x v. inl (inl (ground (arith, eqb_iff origin x))))
              (rw other at missing) in
          let reached =
            Closed-walk seen w origin goal closed (keeps origin (rw (eqb_refl origin) refl)) walk
              avoids in
          cc (reached, out)
    ]

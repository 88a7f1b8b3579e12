-- ===== src/Atlas/Hierarchy/Keys.antt =====
-- The keys that `hierarchy_rule_issues` collects, each with the walk behind it.
use taha_mohammadi_platform.Prelude.{
  ℕ, String, none, some, List, [], ◌∷◌, true, ◌≡◌, refl, sym, ap, subst, inl, inr, arith, eqb_iff,
  Bool-cases, Option-cases, map,
}
use taha_mohammadi_platform.Prelude.Lists.{
  In-append_cases, In, In-append_left, In-append_right, length, nat_eq, text_eq,
}
use taha_mohammadi_platform.Atlas.Issues.{text_le}
use taha_mohammadi_platform.Atlas.Hierarchy.{
  Node, Relation, is_known, key_of, arcs_of, witness_walk, first_key, directions, fuel_for,
  keys_through, reported_keys,
}
use taha_mohammadi_platform.Atlas.Hierarchy.Arcs.{Gives}

abbrev pub node_pks : List Node → List ℕ
node_pks nodes = map (λ (n : Node). n.pk) nodes

pub known-In : (nodes : List Node) (i : ℕ) → is_known i nodes ≡ true → In i (node_pks nodes)
unfolding is_known
known-In [] i h = cc
known-In (n ∷ nodes) i h = ground (arith, known-In nodes i, eqb_iff n.pk i)

pub length-node_pks : (nodes : List Node) → length (node_pks nodes) ≡ length nodes
length-node_pks [] = refl
length-node_pks (n ∷ nodes) = omega (arith, length-node_pks nodes)

-- The two directions of a relation are its arcs, each from the goal to the origin.
pub directions-Gives : (r : Relation) (d : ℕ × ℕ) → In d (directions r) → Gives r (d.1) (d.0, r.pk)
directions-Gives r d (inl e) =
    (refl, inl (ap (λ (x : ℕ × ℕ). x.1) (sym e), ap (λ (x : ℕ × ℕ). x.0) (sym e)))
directions-Gives r d (inr m) = elim (Bool-cases r.directed) [
  | inl one ↦ absurd (rw one at m)
  | inr both ↦ elim (rw both at m) [
    | inl e ↦ (refl, inr (both, ap (λ (x : ℕ × ℕ). x.1) (sym e), ap (λ (x : ℕ × ℕ). x.0) (sym e)))
    | inr m ↦ absurd m
  ]
]

pub Gives-directions : (r : Relation) (x : ℕ) (a : ℕ × ℕ) → Gives r x a → In (a.0, x) (directions r)
Gives-directions r x a (same, inl (leaves, arrives)) = inl (cc (leaves, arrives))
Gives-directions r x a (same, inr (both, leaves, arrives)) =
    rw both (inr (inl (cc (leaves, arrives))))

pub first_key-In :
    (nodes : List Node) (i : ℕ) (walk : List ℕ)
    → (j : ℕ) × In j (i ∷ walk) × (first_key nodes (i ∷ walk) ≡ key_of nodes j)
unfolding first_key
first_key-In nodes i [] = (i, inl refl, refl)
first_key-In nodes i (k ∷ walk) =
    let (j, here, e) = first_key-In nodes k walk in
    elim (Bool-cases (text_le (key_of nodes i) (first_key nodes (k ∷ walk)) true)) [
      | inl less ↦ (i, inl refl, rw less refl)
      | inr more ↦ (j, inr here, rw more e)
    ]

pub no_member : {A : Type 0} (xs : List A) → ((a : A) → In a xs → ⊥) → xs ≡ []
no_member [] f = refl
no_member (x ∷ xs) f = absurd (f x (inl refl))

-- What stands behind a key that was reported.
pub record Reported (nodes : List Node) (rows among : List Relation) (key : String) : Type 0 where
  pub relation : Relation
  pub here : In relation among
  pub direction : ℕ × ℕ
  pub way : In direction (directions relation)
  pub walk : List ℕ
  pub found :
      witness_walk (fuel_for nodes) (arcs_of nodes rows) direction.0 direction.1 relation.pk
      ≡ some walk
  pub named : key ≡ first_key nodes walk

module _ (nodes : List Node) (rows : List Relation) where
  keys_through-hit :
      (p : ℕ) (d : ℕ × ℕ) (ds : List (ℕ × ℕ)) (walk : List ℕ)
      → witness_walk (fuel_for nodes) (arcs_of nodes rows) d.0 d.1 p ≡ some walk
      → keys_through nodes rows p (d ∷ ds) ≡ first_key nodes walk ∷ keys_through nodes rows p ds
  unfolding keys_through
  keys_through-hit p d ds walk hit = rw (hit, keys_through) refl

  keys_through-off :
      (p : ℕ) (d : ℕ × ℕ) (ds : List (ℕ × ℕ))
      → witness_walk (fuel_for nodes) (arcs_of nodes rows) d.0 d.1 p ≡ none
      → keys_through nodes rows p (d ∷ ds) ≡ keys_through nodes rows p ds
  unfolding keys_through
  keys_through-off p d ds off = rw (off, keys_through) refl

  pub keys_through-found :
      (p : ℕ) (ds : List (ℕ × ℕ)) (d : ℕ × ℕ) (walk : List ℕ)
      → In d ds
      → witness_walk (fuel_for nodes) (arcs_of nodes rows) d.0 d.1 p ≡ some walk
      → In (first_key nodes walk) (keys_through nodes rows p ds)
  unfolding keys_through
  keys_through-found p [] d walk m e = absurd m
  keys_through-found p (c ∷ ds) d walk (inl same) e =
      let hit : witness_walk (fuel_for nodes) (arcs_of nodes rows) c.0 c.1 p ≡ some walk =
        subst (λ t. witness_walk (fuel_for nodes) (arcs_of nodes rows) t.0 t.1 p ≡ some walk) same
          e in
      rw (keys_through-hit p c ds walk hit) (inl refl)
  keys_through-found p (c ∷ ds) d walk (inr m) e =
      let later = keys_through-found p ds d walk m e in
      elim (Option-cases (witness_walk (fuel_for nodes) (arcs_of nodes rows) c.0 c.1 p)) [
        | inl off ↦ rw (keys_through-off p c ds off) later
        | inr (other, hit) ↦ rw (keys_through-hit p c ds other hit) (inr later)
      ]

  keys_through-some :
      (p : ℕ) (ds : List (ℕ × ℕ)) (key : String)
      → In key (keys_through nodes rows p ds)
      → (d : ℕ × ℕ) × In d ds
        × (walk : List ℕ) × (witness_walk (fuel_for nodes) (arcs_of nodes rows) d.0 d.1 p
            ≡ some walk)
        × (key ≡ first_key nodes walk)
  unfolding keys_through
  keys_through-some p [] key m = absurd m
  keys_through-some p (c ∷ ds) key m =
      elim (Option-cases (witness_walk (fuel_for nodes) (arcs_of nodes rows) c.0 c.1 p)) [
        | inl off ↦
            let (d, here, walk, e, named) =
              keys_through-some p ds key (rw (keys_through-off p c ds off) at m) in
            (d, inr here, walk, e, named)
        | inr (first, hit) ↦ elim (rw (keys_through-hit p c ds first hit) at m) [
          | inl same ↦ (c, inl refl, first, hit, same)
          | inr m ↦
              let (d, here, walk, e, named) = keys_through-some p ds key m in
              (d, inr here, walk, e, named)
        ]
      ]

  pub reported_keys-found :
      (among : List Relation) (r : Relation) (key : String)
      → In r among
      → In key (keys_through nodes rows r.pk (directions r))
      → In key (reported_keys nodes rows among)
  unfolding reported_keys
  reported_keys-found [] r key m k = absurd m
  reported_keys-found (s ∷ among) r key (inl e) k =
      In-append_left key (keys_through nodes rows s.pk (directions s))
        (reported_keys nodes rows among)
        (subst (λ (t : Relation). In key (keys_through nodes rows t.pk (directions t))) e k)
  reported_keys-found (s ∷ among) r key (inr m) k =
      In-append_right key (keys_through nodes rows s.pk (directions s))
        (reported_keys nodes rows among) (reported_keys-found among r key m k)

  pub reported_keys-Reported :
      (among : List Relation) (key : String)
      → In key (reported_keys nodes rows among)
      → Reported nodes rows among key
  unfolding reported_keys
  reported_keys-Reported [] key m = absurd m
  reported_keys-Reported (r ∷ among) key m =
      elim (In-append_cases key (keys_through nodes rows r.pk (directions r))
        (reported_keys nodes rows among) m) [
          | inl k ↦
              let (d, way, walk, found, named) = keys_through-some r.pk (directions r) key k in
              record {
                relation = r;
                here = inl refl;
                direction = d;
                way = way;
                walk = walk;
                found = found;
                named = named;
              }
          | inr k ↦
              let q = reported_keys-Reported among key k in
              record {
                relation = q.relation;
                here = inr q.here;
                direction = q.direction;
                way = q.way;
                walk = q.walk;
                found = q.found;
                named = q.named;
              }
        ]

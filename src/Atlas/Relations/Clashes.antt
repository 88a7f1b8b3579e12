-- ===== src/Atlas/Relations/Clashes.antt =====
-- When two relations answer to a common identity.
use taha_mohammadi_platform.Prelude.{
  String, List, [], ◌∷◌, true, false, ◌≡◌, ◌↔◌, ◌⊎◌, refl, inl, inr, Bool-cases,
}
use taha_mohammadi_platform.Prelude.Lists.{In, In-dedup, contains, Distinct, dedup-Distinct}
use taha_mohammadi_platform.Prelude.Groups.Shared.{SharesKey}
use taha_mohammadi_platform.Atlas.Issues.{text_le}
use taha_mohammadi_platform.Atlas.Graph.{AtlasRelation}
use taha_mohammadi_platform.Atlas.Relations.{Identity, identity_eq, least, greatest, identities}

-- Two relations of one type say the same: they have the same ends, or one of them is undirected and
-- the ends are swapped.
abbrev pub SaysTheSame : AtlasRelation → AtlasRelation → Type 0
SaysTheSame r q =
    (r.relation_type.key ≡ q.relation_type.key)
    × (((r.source.public_key ≡ q.source.public_key) × (r.target.public_key ≡ q.target.public_key))
        ⊎ (((r.directed ≡ false) ⊎ (q.directed ≡ false))
            × (r.source.public_key ≡ q.target.public_key)
            × (r.target.public_key ≡ q.source.public_key)))

-- A row answers to the pair as authored and, when it is undirected, to the swapped one.
abbrev Answers : AtlasRelation → Identity → Type 0
Answers r i =
    (i ≡ (r.source.public_key, r.relation_type.key, r.target.public_key))
    ⊎ ((r.directed ≡ false) × (i ≡ (r.target.public_key, r.relation_type.key, r.source.public_key)))

ends :
    (a b : String) → ((least a b ≡ a) × (greatest a b ≡ b)) ⊎ ((least a b ≡ b) × (greatest a b ≡ a))
ends a b = elim (Bool-cases (text_le a b true)) [
  | inl up ↦ rw up (inl (refl, refl))
  | inr down ↦ rw down (inr (refl, refl))
]

-- Whichever end comes first, the three triples are two.
three-In :
    (s k t lo hi : String) (i : Identity)
    → ((lo ≡ s) × (hi ≡ t)) ⊎ ((lo ≡ t) × (hi ≡ s))
    → In i ((s, k, t) ∷ (lo, k, hi) ∷ (hi, k, lo) ∷ []) ↔ ((i ≡ (s, k, t)) ⊎ (i ≡ (t, k, s)))
three-In s k t lo hi i (inl (e, e')) =
    rw (e, e')
      (
        λ m. elim m [
          | inl a ↦ inl a
          | inr (inl a) ↦ inl a
          | inr (inr (inl a)) ↦ inr a
          | inr (inr (inr no_more)) ↦ absurd no_more
        ],
        λ h. elim h [ inl a ↦ inl a | inr a ↦ inr (inr (inl a)) ],
      )
three-In s k t lo hi i (inr (e, e')) =
    rw (e, e')
      (
        λ m. elim m [
          | inl a ↦ inl a
          | inr (inl a) ↦ inr a
          | inr (inr (inl a)) ↦ inl a
          | inr (inr (inr no_more)) ↦ absurd no_more
        ],
        λ h. elim h [ inl a ↦ inl a | inr a ↦ inr (inl a) ],
      )

In-identities : (r : AtlasRelation) (i : Identity) → In i (identities r) ↔ Answers r i
unfolding identities
In-identities r i =
    let s = r.source.public_key in
    let k = r.relation_type.key in
    let t = r.target.public_key in
    let three : List Identity =
      (s, k, t) ∷ (least s t, k, greatest s t) ∷ (greatest s t, k, least s t) ∷ [] in
    let (kept, listed) = In-dedup three i in
    let (pair, back) = three-In s k t (least s t) (greatest s t) i (ends s t) in
    elim (Bool-cases r.directed) [
      | inl one_way ↦ rw one_way (
        λ m. elim m [ inl a ↦ inl a | inr no_more ↦ absurd no_more ],
        λ h. elim h [ inl a ↦ inl a | inr (flag, _) ↦ cc ],
      )
      | inr both ↦ rw both (
        λ m. elim (pair (kept m)) [ inl a ↦ inl a | inr a ↦ inr (refl, a) ],
        λ h. listed (back (elim h [ inl a ↦ inl a | inr (_, a) ↦ inr a ])),
      )
    ]

pub identities-Distinct : (r : AtlasRelation) → Distinct (identities r)
unfolding identities contains
identities-Distinct r =
    let s = r.source.public_key in
    let k = r.relation_type.key in
    let t = r.target.public_key in
    elim (Bool-cases r.directed) [
      | inl one_way ↦ rw one_way (refl, tt)
      | inr both ↦ rw both (
          dedup-Distinct
            ((s, k, t) ∷ (least s t, k, greatest s t) ∷ (greatest s t, k, least s t) ∷ []))
    ]

-- Two relations answer to a common identity if and only if they are of one type and have the same
-- ends, or one of them is undirected and the ends are swapped: the order in which the ends of an
-- undirected relation were authored does not matter.
pub identities-SharesKey :
    (r q : AtlasRelation) → SharesKey (identities r) (identities q) ↔ SaysTheSame r q
identities-SharesKey r q = (
  λ (i, m, m'). both ((In-identities r i).0 m) ((In-identities q i).0 m'),
  λ (k, h). elim h [
    | inl (s, t) ↦
        let i : Identity = (r.source.public_key, r.relation_type.key, r.target.public_key) in
        (i, (In-identities r i).1 (inl refl), (In-identities q i).1 (inl (cc (k, s, t))))
    | inr (inl undirected, s, t) ↦
        let i : Identity = (q.source.public_key, q.relation_type.key, q.target.public_key) in
        (
          i,
          (In-identities r i).1 (inr (undirected, cc (k, s, t))),
          (In-identities q i).1 (inl refl),
        )
    | inr (inr undirected, s, t) ↦
        let i : Identity = (r.source.public_key, r.relation_type.key, r.target.public_key) in
        (
          i,
          (In-identities r i).1 (inl refl),
          (In-identities q i).1 (inr (undirected, cc (k, s, t))),
        )
  ],
)
  where
    both : {i : Identity} → Answers r i → Answers q i → SaysTheSame r q
    both (inl a) (inl b) = (cc (a, b), inl (cc (a, b), cc (a, b)))
    both (inl a) (inr (u, b)) = (cc (a, b), inr (inr u, cc (a, b), cc (a, b)))
    both (inr (u, a)) (inl b) = (cc (a, b), inr (inl u, cc (a, b), cc (a, b)))
    both (inr (u, a)) (inr (v, b)) = (cc (a, b), inl (cc (a, b), cc (a, b)))

-- ===== src/Atlas/Relations/Naming.antt =====
-- The composed key of a relation, split at its tildes.
use taha_mohammadi_platform.Prelude.{
  ℕ, String, List, [], ◌∷◌, ◌++◌, ok, true, false, ◌≡◌, ◌⊎◌, refl, sym, ap, ◌∙◌, ◌<>◌, inl, inr,
  Bool-cases,
}
use taha_mohammadi_platform.Prelude.Split.{split, lacks, split-lacks, tilded}
use taha_mohammadi_platform.Prelude.Lists.{In, In-append_right}
use taha_mohammadi_platform.Atlas.Issues.{text_le, Issue, relation_issue, duplicate_relation}
use taha_mohammadi_platform.Atlas.Graph.{AtlasRelation, relation_public_key, composed_key}
use taha_mohammadi_platform.Atlas.Relations.{validate_relations}
use taha_mohammadi_platform.Atlas.Relations.Clashes.{SaysTheSame}
use taha_mohammadi_platform.Atlas.Relations.Gate.{Doubled, validate_relations_iff}

-- The keys of the ends and of the type have no "~".
abbrev pub HasPlainKeys : AtlasRelation → Type 0
HasPlainKeys r =
    (lacks b'~' r.source.public_key ≡ true)
    × (lacks b'~' r.relation_type.key ≡ true)
    × (lacks b'~' r.target.public_key ≡ true)

-- The pieces of a composed key, of the ends in one order or, for an undirected relation, the other.
split-composed_key :
    (r : AtlasRelation)
    → HasPlainKeys r
    → (split b'~' (composed_key r)
        ≡ r.source.public_key ∷ r.relation_type.key ∷ r.target.public_key ∷ [])
      ⊎ ((r.directed ≡ false)
          × (split b'~' (composed_key r)
              ≡ r.target.public_key ∷ r.relation_type.key ∷ r.source.public_key ∷ []))
unfolding composed_key relation_public_key
split-composed_key r (plain_s, plain_k, plain_t) =
    let s = r.source.public_key in
    let k = r.relation_type.key in
    let t = r.target.public_key in
    elim (Bool-cases r.directed) [
      | inl one_way ↦ rw one_way (inl (pieces s k t plain_s plain_k plain_t))
      | inr both ↦ elim (Bool-cases (text_le s t true)) [
        | inl up ↦ rw (both, up) (inl (pieces s k t plain_s plain_k plain_t))
        | inr down ↦ rw (both, down) (inr (refl, pieces t k s plain_t plain_k plain_s))
      ]
    ]
  where
    pieces :
        (a b c : String)
        → lacks b'~' a ≡ true
        → lacks b'~' b ≡ true
        → lacks b'~' c ≡ true
        → split b'~' (a <> ("~" <> (b <> ("~" <> c)))) ≡ a ∷ b ∷ c ∷ []
    pieces a b c ha hb hc =
        rw (tilded a (b <> ("~" <> c)) ha, tilded b c hb, split-lacks b'~' c hc) refl

-- Two relations with one composed key say the same, whichever way their ends were authored.
composed_key-SaysTheSame :
    (r q : AtlasRelation)
    → HasPlainKeys r
    → HasPlainKeys q
    → composed_key r ≡ composed_key q
    → SaysTheSame r q
composed_key-SaysTheSame r q plain plain' same =
    let e = ap (split b'~') same in
    elim (split-composed_key r plain) [
      | inl a ↦ elim (split-composed_key q plain') [
        | inl b ↦ let h = sym a ∙ e ∙ b in (cc h, inl (cc h, cc h))
        | inr (u, b) ↦ let h = sym a ∙ e ∙ b in (cc h, inr (inr u, cc h, cc h))
      ]
      | inr (u, a) ↦ elim (split-composed_key q plain') [
        | inl b ↦ let h = sym a ∙ e ∙ b in (cc h, inr (inl u, cc h, cc h))
        | inr (v, b) ↦ let h = sym a ∙ e ∙ b in (cc h, inl (cc h, cc h))
      ]
    ]

Doubled-append :
    (key : String) (before relations : List AtlasRelation)
    → Doubled key relations
    → Doubled key (before ++ relations)
Doubled-append key [] relations h = h
Doubled-append key (r ∷ before) relations h = inr (Doubled-append key before relations h)

-- Two relations of a version with one composed key are reported as duplicates under that key,
-- whichever way their ends were authored and wherever they stand among the others. The keys of
-- their ends and types have no "~".
pub composed_key-reported :
    (version_id : ℕ) (sources targets : List (ℕ × ℕ)) (before between later : List AtlasRelation)
    (r q : AtlasRelation)
    → HasPlainKeys r
    → HasPlainKeys q
    → composed_key r ≡ composed_key q
    → (issues : List Issue) × (validate_relations version_id
          (before ++ (r ∷ (between ++ (q ∷ later))))
          sources
          targets
        ≡ ok issues)
      × In (relation_issue duplicate_relation (composed_key r)) issues
composed_key-reported version_id sources targets before between later r q plain plain' same =
    let (issues, found, exact) =
      validate_relations_iff version_id sources targets
        (before ++ (r ∷ (between ++ (q ∷ later)))) in
    let there = In-append_right q between (q ∷ later) (inl refl) in
    let twice =
      Doubled-append (composed_key r) before (r ∷ (between ++ (q ∷ later)))
        (inl (q, there, composed_key-SaysTheSame r q plain plain' same, inl refl)) in
    (
      issues,
      found,
      (exact (relation_issue duplicate_relation (composed_key r))).1
          (inr (composed_key r, twice, refl)),
    )

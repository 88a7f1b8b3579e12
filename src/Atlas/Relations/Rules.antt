-- ===== src/Atlas/Relations/Rules.antt =====
-- The rules on one relation, stated by themselves, and what `row_issues` reports of it.
use taha_mohammadi_platform.Prelude.{
  ℕ, List, [], ◌∷◌, ◌++◌, Bool, true, false, not, ◌&&◌, ◌||◌, ◌≡◌, ◌≢◌, ◌↔◌, ◌⊎◌, refl, inl, inr,
  arith, eqb,
}
use taha_mohammadi_platform.Prelude.Lists.{In, contains, contains_iff, nat_eq}
use taha_mohammadi_platform.Atlas.Issues.{
  Code, Issue, relation_issue, dangling_relation_endpoint, relation_type_inactive,
  relation_type_not_allowed, self_loop_forbidden, direction_not_overridable,
}
use taha_mohammadi_platform.Atlas.Graph.{AtlasRelation, SelfLoopPolicy, forbid, allow, composed_key}
use taha_mohammadi_platform.Atlas.Relations.{
  AllowedTypes, allows, is_empty, when, is_allow, differ, row_issues,
}

-- A type is permitted: the list is empty, or has it.
abbrev pub Permitted : List ℕ → ℕ → Type 0
Permitted types t = (types ≡ []) ⊎ In t types

-- A relation breaks a rule of the version.
pub data Breaks (version_id : ℕ) (a : AllowedTypes) (r : AtlasRelation) : Code → Type 0 where
  retired : r.relation_type.active ≡ false → Breaks version_id a r relation_type_inactive
  not_allowed :
      ¬ (Permitted a.sources r.source.node_type.pk × Permitted a.targets r.target.node_type.pk)
      → Breaks version_id a r relation_type_not_allowed
  self_loop :
      r.source.pk ≡ r.target.pk
      → r.relation_type.self_loop_policy ≡ forbid
      → Breaks version_id a r self_loop_forbidden
  turned :
      r.directed ≢ r.relation_type.directed_default
      → r.relation_type.overridable_direction ≡ false
      → Breaks version_id a r direction_not_overridable
  foreign :
      (r.source.version_id ≢ version_id) ⊎ (r.target.version_id ≢ version_id)
      → Breaks version_id a r dangling_relation_endpoint

In-when :
    (b : Bool) (i j : Issue) (rest : List Issue)
    → In i (when b j ++ rest) ↔ (((b ≡ true) × (i ≡ j)) ⊎ In i rest)
In-when true i j rest = ground arith
In-when false i j rest = ground arith

In-when_last : (b : Bool) (i j : Issue) → In i (when b j) ↔ ((b ≡ true) × (i ≡ j))
In-when_last true i j = ground arith
In-when_last false i j = ground arith

iff_sum : {A B C D : Type 0} → A ↔ (B ⊎ C) → C ↔ D → A ↔ (B ⊎ D)
iff_sum (f, g) (h, k) = (
  λ a. elim (f a) [ inl b ↦ inl b | inr c ↦ inr (h c) ],
  λ s. elim s [ inl b ↦ g (inl b) | inr d ↦ g (inr (k d)) ],
)

differ_iff : (a b : Bool) → (differ a b ≡ true) ↔ (a ≢ b)
differ_iff true true = (λ h. cc, λ h. absurd (h refl))
differ_iff true false = (λ h e. cc, λ h. refl)
differ_iff false true = (λ h e. cc, λ h. refl)
differ_iff false false = (λ h. cc, λ h. absurd (h refl))

is_allow_iff : (p : SelfLoopPolicy) → (not (is_allow p) ≡ true) ↔ (p ≡ forbid)
is_allow_iff forbid = (λ h. refl, λ h. refl)
is_allow_iff allow = (λ h. cc, λ h. cc)

Permitted-iff :
    (types : List ℕ) (t : ℕ) → ((is_empty types || contains types t) ≡ true) ↔ Permitted types t
unfolding contains
Permitted-iff [] t = (λ _. inl refl, λ _. refl)
Permitted-iff (x ∷ xs) t =
    let (found, listed) = contains_iff (x ∷ xs) t in
    (λ h. inr (found h), λ h. elim h [ inl e ↦ cc e | inr m ↦ listed m ])

allows_iff :
    (a : AllowedTypes) (s t : ℕ)
    → (allows a s t ≡ true) ↔ (Permitted a.sources s × Permitted a.targets t)
unfolding allows
allows_iff a s t = ground (arith, Permitted-iff a.sources s, Permitted-iff a.targets t)

module _ (version_id : ℕ) (a : AllowedTypes) (r : AtlasRelation) where
  -- The test of the rule of each code.
  fails : Code → Bool
  unfolding allows
  fails relation_type_inactive = not r.relation_type.active
  fails relation_type_not_allowed = not (allows a r.source.node_type.pk r.target.node_type.pk)
  fails self_loop_forbidden =
      eqb r.source.pk r.target.pk && not (is_allow r.relation_type.self_loop_policy)
  fails direction_not_overridable =
      differ r.directed r.relation_type.directed_default
      && not r.relation_type.overridable_direction
  fails dangling_relation_endpoint =
      not (eqb r.source.version_id version_id) || not (eqb r.target.version_id version_id)
  fails _ = false

  Breaks-fails : {c : Code} → Breaks version_id a r c → fails c ≡ true
  unfolding fails
  Breaks-fails (retired h) = rw h refl
  Breaks-fails (not_allowed h) =
      ground (arith, allows_iff a r.source.node_type.pk r.target.node_type.pk)
  Breaks-fails (self_loop e p) = ground (arith, is_allow_iff r.relation_type.self_loop_policy)
  Breaks-fails (turned d o) = ground (arith, differ_iff r.directed r.relation_type.directed_default)
  Breaks-fails (foreign h) = ground arith

  retired-Breaks :
      fails relation_type_inactive ≡ true → Breaks version_id a r relation_type_inactive
  unfolding fails
  retired-Breaks h = retired (ground arith)

  not_allowed-Breaks :
      fails relation_type_not_allowed ≡ true → Breaks version_id a r relation_type_not_allowed
  unfolding fails
  not_allowed-Breaks h =
      not_allowed (λ p. ground (arith, allows_iff a r.source.node_type.pk r.target.node_type.pk))

  self_loop-Breaks : fails self_loop_forbidden ≡ true → Breaks version_id a r self_loop_forbidden
  unfolding fails
  self_loop-Breaks h =
      self_loop (ground (arith, is_allow_iff r.relation_type.self_loop_policy))
        (ground (arith, is_allow_iff r.relation_type.self_loop_policy))

  turned-Breaks :
      fails direction_not_overridable ≡ true → Breaks version_id a r direction_not_overridable
  unfolding fails
  turned-Breaks h =
      turned ((differ_iff r.directed r.relation_type.directed_default).0 (ground arith))
        (ground arith)

  foreign-Breaks :
      fails dangling_relation_endpoint ≡ true → Breaks version_id a r dangling_relation_endpoint
  unfolding fails
  foreign-Breaks h = foreign (ground arith)

  abbrev pub Reported : Issue → Type 0
  Reported i = (c : Code) × Breaks version_id a r c × (i ≡ relation_issue c (composed_key r))

  abbrev Failed : Issue → Code → Type 0
  Failed i c = (fails c ≡ true) × (i ≡ relation_issue c (composed_key r))

  row_issues-Failed :
      (i : Issue)
      → In i (row_issues version_id a r) ↔ (
          Failed i relation_type_inactive
          ⊎ (Failed i relation_type_not_allowed
              ⊎ (Failed i self_loop_forbidden
                  ⊎ (Failed i direction_not_overridable ⊎ Failed i dangling_relation_endpoint))))
  unfolding row_issues fails
  row_issues-Failed i =
      let key = composed_key r in
      let l₅ =
        when (fails dangling_relation_endpoint) (relation_issue dangling_relation_endpoint key) in
      let l₄ =
        when (fails direction_not_overridable) (relation_issue direction_not_overridable key)
        ++ l₅ in
      let l₃ = when (fails self_loop_forbidden) (relation_issue self_loop_forbidden key) ++ l₄ in
      let l₂ =
        when (fails relation_type_not_allowed) (relation_issue relation_type_not_allowed key)
        ++ l₃ in
      iff_sum
        (In-when (fails relation_type_inactive) i (relation_issue relation_type_inactive key) l₂)
        (iff_sum
          (In-when (fails relation_type_not_allowed) i
            (relation_issue relation_type_not_allowed key) l₃)
          (iff_sum
            (In-when (fails self_loop_forbidden) i (relation_issue self_loop_forbidden key) l₄)
            (iff_sum
              (In-when (fails direction_not_overridable) i
                (relation_issue direction_not_overridable key) l₅)
              (In-when_last (fails dangling_relation_endpoint) i
                (relation_issue dangling_relation_endpoint key)))))

  Breaks-listed :
      {c : Code} (i : Issue)
      → Breaks version_id a r c
      → i ≡ relation_issue c (composed_key r)
      → In i (row_issues version_id a r)
  Breaks-listed i (retired h) e = (row_issues-Failed i).1 (inl (Breaks-fails (retired h), e))
  Breaks-listed i (not_allowed h) e =
      (row_issues-Failed i).1 (inr (inl (Breaks-fails (not_allowed h), e)))
  Breaks-listed i (self_loop h p) e =
      (row_issues-Failed i).1 (inr (inr (inl (Breaks-fails (self_loop h p), e))))
  Breaks-listed i (turned d o) e =
      (row_issues-Failed i).1 (inr (inr (inr (inl (Breaks-fails (turned d o), e)))))
  Breaks-listed i (foreign h) e =
      (row_issues-Failed i).1 (inr (inr (inr (inr (Breaks-fails (foreign h), e)))))

  -- `row_issues` reports a code exactly if the relation breaks the rule of the code.
  pub row_issues-Breaks : (i : Issue) → In i (row_issues version_id a r) ↔ Reported i
  row_issues-Breaks i = (
    λ m. elim ((row_issues-Failed i).0 m) [
      | inl (h, e) ↦ (relation_type_inactive, retired-Breaks h, e)
      | inr (inl (h, e)) ↦ (relation_type_not_allowed, not_allowed-Breaks h, e)
      | inr (inr (inl (h, e))) ↦ (self_loop_forbidden, self_loop-Breaks h, e)
      | inr (inr (inr (inl (h, e)))) ↦ (direction_not_overridable, turned-Breaks h, e)
      | inr (inr (inr (inr (h, e)))) ↦ (dangling_relation_endpoint, foreign-Breaks h, e)
    ],
    λ (c, broken, e). Breaks-listed i broken e,
  )

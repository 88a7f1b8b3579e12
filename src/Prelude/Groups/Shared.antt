-- ===== src/Prelude/Groups/Shared.antt =====
-- The values that share a key in the table.
use taha_mohammadi_platform.Prelude.{
  ◌≤◌, ◌<◌, List, [], ◌∷◌, true, false, ◌≡◌, ◌↔◌, ◌⊎◌, refl, sym, ap, subst, inl, inr, arith, ltb,
  Bool-cases,
}
use taha_mohammadi_platform.Prelude.Lists.{
  In, contains, contains_iff, Eq, length, In-append_left, In-append_right, In-append_cases,
}
use taha_mohammadi_platform.Prelude.Groups.{
  values_at, has_key, KeysDistinct, grouped, claimants, AllDistinct, values_at-grouped,
  grouped-KeysDistinct, shared_values,
}

-- Two rows have a key in common.
abbrev pub SharesKey : {A : Type 0} → List A → List A → Type 0
SharesKey {A} xs ys = (k : A) × In k xs × In k ys

first-In : {B : Type 0} (xs : List B) → 1 ≤ length xs → (b : B) × In b xs
first-In [] h = absurd (omega arith)
first-In (x ∷ xs) h = (x, inl refl)

In-length : {B : Type 0} (xs : List B) (b : B) → In b xs → 1 ≤ length xs
In-length [] b m = absurd m
In-length (x ∷ xs) b m = omega arith

module _ {A B : Type 0} ⦃e : Eq A⦄ where
  values_at-has_key :
      (table : List (A × List B)) (k : A) (b : B)
      → In b (values_at table k)
      → has_key table k ≡ true
  unfolding values_at has_key
  values_at-has_key [] k b m = absurd m
  values_at-has_key ((j, values) ∷ table) k b m = elim (Bool-cases (e.beq k j)) [
    | inl same ↦ rw same refl
    | inr other ↦ rw other (values_at-has_key table k b (rw other at m))
  ]

  shared_values-key :
      (table : List (A × List B)) (b : B)
      → KeysDistinct table
      → In b (shared_values table)
      → (k : A) × (1 < length (values_at table k)) × In b (values_at table k)
  unfolding values_at shared_values
  shared_values-key [] b h m = absurd m
  shared_values-key ((j, values) ∷ table) b (fresh, h) m =
      let later : In b (shared_values table)
          → (k : A) × (1 < length (values_at ((j, values) ∷ table) k))
            × In b (values_at ((j, values) ∷ table) k) =
        λ m'.
          let (k, many, here) = shared_values-key table b h m' in
          let other : e.beq k j ≡ false = elim (Bool-cases (e.beq k j)) [
            | inr no_match ↦ no_match
            | inl same ↦
                let k≡j = (e.beq_iff k j).0 same in
                cc (
                  fresh,
                  values_at-has_key table j b (subst (λ x. In b (values_at table x)) k≡j here),
                )
          ] in
          (k, rw other many, rw other here) in
      elim (Bool-cases (ltb 1 (length values))) [
        | inr few ↦ later (rw few at m)
        | inl many ↦ elim (In-append_cases b values (shared_values table) (rw many at m)) [
          | inr m' ↦ later m'
          | inl here ↦
              let self = (e.beq_iff j j).1 refl in (j, rw self (ground arith), rw self here)
        ]
      ]

  key-shared_values :
      (table : List (A × List B)) (b : B) (k : A)
      → 1 < length (values_at table k)
      → In b (values_at table k)
      → In b (shared_values table)
  unfolding values_at shared_values
  key-shared_values [] b k many m = absurd m
  key-shared_values ((j, values) ∷ table) b k many m = elim (Bool-cases (e.beq k j)) [
    | inl same ↦
        let more : ltb 1 (length values) ≡ true = ground (arith, rw same at many) in
        rw more (In-append_left b values (shared_values table) (rw same at m))
    | inr other ↦
        let there = key-shared_values table b k (rw other at many) (rw other at m) in
        elim (Bool-cases (ltb 1 (length values))) [
          | inl more ↦ rw more (In-append_right b values (shared_values table) there)
          | inr few ↦ rw few there
        ]
  ]

  -- The value is that of one of two rows with a key in common.
  abbrev pub Clash : B → List (B × List A) → Type 0
  Clash b [] = ⊥
  Clash b ((value, keys) ∷ rows) =
      ((other : B) × (others : List A) × In (other, others) rows
        × SharesKey keys others
        × ((b ≡ value) ⊎ (b ≡ other)))
      ⊎ Clash b rows

  claimants-row :
      (rows : List (B × List A)) (k : A) (b : B)
      → In b (claimants rows k)
      → (keys : List A) × In (b, keys) rows × In k keys
  claimants-row [] k b m = absurd m
  claimants-row ((value, keys) ∷ rows) k b m =
      let later : In b (claimants rows k)
          → (ks : List A) × In (b, ks) ((value, keys) ∷ rows) × In k ks =
        λ m'. let (ks, here, has) = claimants-row rows k b m' in (ks, inr here, has) in
      elim (Bool-cases (contains keys k)) [
        | inr lacks ↦ later (rw lacks at m)
        | inl has ↦
            let m₁ : In b (value ∷ claimants rows k) = rw has at m in
            elim m₁ [
              | inl is ↦ (keys, inl (ap (λ v. (v, keys)) is), (contains_iff keys k).0 has)
              | inr m' ↦ later m'
            ]
      ]

  row-claimants :
      (rows : List (B × List A)) (k : A) (b : B) (keys : List A)
      → In (b, keys) rows
      → In k keys
      → In b (claimants rows k)
  row-claimants [] k b keys m has = absurd m
  row-claimants ((value, ks) ∷ rows) k b keys (inl is) has =
      let at : contains ks k ≡ true = (contains_iff ks k).1 (subst (λ r. In k (r.1)) is has) in
      rw at (inl (ap (λ r. r.0) is))
  row-claimants ((value, ks) ∷ rows) k b keys (inr m) has =
      let there = row-claimants rows k b keys m has in
      elim (Bool-cases (contains ks k)) [ inl at ↦ rw at (inr there) | inr lacks ↦ rw lacks there ]

  claimants-Clash :
      (rows : List (B × List A)) (k : A) (b : B)
      → 1 < length (claimants rows k)
      → In b (claimants rows k)
      → Clash b rows
  claimants-Clash [] k b many m = absurd m
  claimants-Clash ((value, keys) ∷ rows) k b many m = elim (Bool-cases (contains keys k)) [
    | inr lacks ↦ inr (claimants-Clash rows k b (rw lacks at many) (rw lacks at m))
    | inl has ↦
        let held = (contains_iff keys k).0 has in
        let more : 1 < length (value ∷ claimants rows k) = rw has at many in
        let m₁ : In b (value ∷ claimants rows k) = rw has at m in
        elim m₁ [
          | inl is ↦
              let (other, m') = first-In (claimants rows k) (omega (arith, more)) in
              let (ks, here, has') = claimants-row rows k other m' in
              inl (other, ks, here, (k, held, has'), inl is)
          | inr m' ↦
              let (ks, here, has') = claimants-row rows k b m' in
              inl (b, ks, here, (k, held, has'), inr refl)
        ]
  ]

  Clash-claimants :
      (rows : List (B × List A)) (b : B)
      → Clash b rows
      → (k : A) × (1 < length (claimants rows k)) × In b (claimants rows k)
  Clash-claimants [] b h = absurd h
  Clash-claimants ((value, keys) ∷ rows) b (inl (other, others, here, (k, held, held'), which)) =
      let has = (contains_iff keys k).1 held in
      let there = row-claimants rows k other others here held' in
      let m : In b (value ∷ claimants rows k) = elim which [
        | inl is ↦ inl is
        | inr is ↦ inr (subst (λ x. In x (claimants rows k)) (sym is) there)
      ] in
      (k, rw has (omega (arith, In-length (claimants rows k) other there)), rw has m)
  Clash-claimants ((value, keys) ∷ rows) b (inr h) =
      let (k, many, m) = Clash-claimants rows b h in
      elim (Bool-cases (contains keys k)) [
        | inl has ↦ (k, rw has (omega (arith, many)), rw has (inr m))
        | inr lacks ↦ (k, rw lacks many, rw lacks m)
      ]

  -- The values that the table of the rows shares are those of two rows with a common key.
  pub shared_values-grouped :
      (rows : List (B × List A)) (b : B)
      → AllDistinct rows
      → In b (shared_values (grouped [] rows)) ↔ Clash b rows
  unfolding values_at
  shared_values-grouped rows b once =
      let table = grouped [] rows in
      (
        λ m.
            let (k, many, here) = shared_values-key table b (grouped-KeysDistinct [] rows tt) m in
            let same = values_at-grouped [] rows k once in
            claimants-Clash rows k b (rw same at many) (rw same at here),
        λ h.
            let (k, many, here) = Clash-claimants rows b h in
            let same = values_at-grouped [] rows k once in
            key-shared_values table b k (rw same many) (rw same here),
      )

-- ===== src/Prelude/Groups.antt =====
-- The idiom `table.setdefault(key, []).append(value)` on a dictionary of lists.
pub mod Shared
use taha_mohammadi_platform.Prelude.{
  ℕ, ◌+◌, ◌≤◌, ◌<◌, List, [], ◌∷◌, ◌++◌, Bool, true, false, ◌||◌, ◌≡◌, ◌↔◌, ◌⊎◌, refl, sym, ap,
  subst, ◌∙◌, inl, inr, arith, ltb, if◌then◌else◌, Bool-cases,
}
use taha_mohammadi_platform.Prelude.Lists.{
  In, contains, contains_iff, Distinct, Eq, length, length-append, append_assoc, append_nil,
  In-append_left, In-append_right,
}

module _ {A B : Type 0} ⦃e : Eq A⦄ where
  -- `table.setdefault(key, []).append(value)`
  unfoldable pub append_at : List (A × List B) → A → B → List (A × List B)
  append_at [] key value = (key, value ∷ []) ∷ []
  append_at ((k, values) ∷ table) key value =
      let later = append_at table key value in
      if e.beq key k then (k, values ++ value ∷ []) ∷ table else (k, values) ∷ later

  -- The same value at each of the keys.
  unfoldable pub append_at_all : List (A × List B) → B → List A → List (A × List B)
  append_at_all table value [] = table
  append_at_all table value (key ∷ keys) = append_at_all (append_at table key value) value keys

  -- `table.get(key, [])`
  unfoldable pub values_at : List (A × List B) → A → List B
  values_at [] key = []
  values_at ((k, values) ∷ table) key =
      let later = values_at table key in if e.beq key k then values else later

  unfoldable pub has_key : List (A × List B) → A → Bool
  has_key [] key = false
  has_key ((k, values) ∷ table) key = e.beq key k || has_key table key

  -- No key stands twice.
  abbrev pub KeysDistinct : List (A × List B) → Type 0
  KeysDistinct [] = Unit
  KeysDistinct ((k, values) ∷ table) = (has_key table k ≡ false) × KeysDistinct table

  pub values_at-append_at :
      (table : List (A × List B)) (key : A) (value : B) (k : A)
      → values_at (append_at table key value) k
        ≡ (if e.beq k key then values_at table k ++ value ∷ [] else values_at table k)
  unfolding values_at append_at
  values_at-append_at [] key value k = ground arith
  values_at-append_at ((j, values) ∷ table) key value k = ground (
    arith,
    values_at-append_at table key value k,
    e.beq_iff k key,
    e.beq_iff k j,
    e.beq_iff key j,
    e.beq_iff j j,
    e.beq_iff key key,
  )

  has_key-append_at :
      (table : List (A × List B)) (key : A) (value : B) (k : A)
      → has_key (append_at table key value) k ≡ (e.beq k key || has_key table k)
  unfolding has_key append_at
  has_key-append_at [] key value k = ground arith
  has_key-append_at ((j, values) ∷ table) key value k = ground (
    arith,
    has_key-append_at table key value k,
    e.beq_iff k key,
    e.beq_iff k j,
    e.beq_iff key j,
    e.beq_iff j j,
  )

  append_at-KeysDistinct :
      (table : List (A × List B)) (key : A) (value : B)
      → KeysDistinct table
      → KeysDistinct (append_at table key value)
  unfolding has_key append_at
  append_at-KeysDistinct [] key value h = (refl, tt)
  append_at-KeysDistinct ((j, values) ∷ table) key value (fresh, h) =
      elim (Bool-cases (e.beq key j)) [
        | inl same ↦ rw same (fresh, h)
        | inr other ↦ rw other (
          ground (arith, has_key-append_at table key value j, e.beq_iff key j, e.beq_iff j key),
          append_at-KeysDistinct table key value h,
        )
      ]

  append_at_all-KeysDistinct :
      (table : List (A × List B)) (value : B) (keys : List A)
      → KeysDistinct table
      → KeysDistinct (append_at_all table value keys)
  unfolding append_at_all
  append_at_all-KeysDistinct table value [] h = h
  append_at_all-KeysDistinct table value (key ∷ keys) h =
      append_at_all-KeysDistinct (append_at table key value) value keys
        (append_at-KeysDistinct table key value h)

  values_at-append_at_all :
      (table : List (A × List B)) (value : B) (keys : List A) (k : A)
      → Distinct keys
      → values_at (append_at_all table value keys) k
        ≡ (if contains keys k then values_at table k ++ value ∷ [] else values_at table k)
  unfolding append_at_all contains
  values_at-append_at_all table value [] k h = refl
  values_at-append_at_all table value (key ∷ keys) k (fresh, h) = ground (
    arith,
    values_at-append_at_all (append_at table key value) value keys k h,
    values_at-append_at table key value k,
    e.beq_iff k key,
  )

  -- A value at each of its keys, for all rows.
  unfoldable pub grouped : List (A × List B) → List (B × List A) → List (A × List B)
  grouped table [] = table
  grouped table ((value, keys) ∷ rows) = grouped (append_at_all table value keys) rows

  -- The values of the rows that have a key.
  abbrev pub claimants : List (B × List A) → A → List B
  claimants [] k = []
  claimants ((value, keys) ∷ rows) k =
      if contains keys k then value ∷ claimants rows k else claimants rows k

  -- Each row names a key once.
  abbrev pub AllDistinct : List (B × List A) → Type 0
  AllDistinct [] = Unit
  AllDistinct ((value, keys) ∷ rows) = Distinct keys × AllDistinct rows

  pub values_at-grouped :
      (table : List (A × List B)) (rows : List (B × List A)) (k : A)
      → AllDistinct rows
      → values_at (grouped table rows) k ≡ values_at table k ++ claimants rows k
  unfolding grouped
  values_at-grouped table [] k h = sym (append_nil (values_at table k))
  values_at-grouped table ((value, keys) ∷ rows) k (once, h) =
      let rest = values_at-grouped (append_at_all table value keys) rows k h in
      let now = values_at-append_at_all table value keys k once in
      elim (Bool-cases (contains keys k)) [
        | inl here ↦
            rw (here, rest, now, here)
              (append_assoc (values_at table k) (value ∷ []) (claimants rows k))
        | inr not_here ↦ rw (not_here, rest, now, not_here) refl
      ]

  pub grouped-KeysDistinct :
      (table : List (A × List B)) (rows : List (B × List A))
      → KeysDistinct table
      → KeysDistinct (grouped table rows)
  unfolding grouped
  grouped-KeysDistinct table [] h = h
  grouped-KeysDistinct table ((value, keys) ∷ rows) h =
      grouped-KeysDistinct (append_at_all table value keys) rows
        (append_at_all-KeysDistinct table value keys h)

  -- The values that share their key with another one.
  unfoldable pub shared_values : List (A × List B) → List B
  shared_values [] = []
  shared_values ((k, values) ∷ table) =
      let others = shared_values table in if ltb 1 (length values) then values ++ others else others

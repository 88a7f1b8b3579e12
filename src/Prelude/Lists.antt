-- ===== src/Prelude/Lists.antt =====
-- Lists measured by native numbers, membership by recursion, and the two Python idioms on lists
-- that the program uses: `list(dict.fromkeys(l))` and `x in l`.
use Prim.Native.Nat.{ℕ, zero, suc, ◌+◌, ◌≤◌}
use mathlib.Core.Path.{◌≡◌, refl, sym, ap, subst}
use mathlib.Core.Logic.{◌⊎◌, inl, inr, ◌↔◌}
use mathlib.Core.Bool.{Bool, true, false, ◌||◌}
use mathlib.Core.List.{List, [], ◌∷◌, ◌++◌, map}
use native.Mathlib.Omega.{arith}
use text.Mathlib.Text.{◌==◌ as str_eq}
use text.Mathlib.TextEquality.{eq_iff}
use Prim.Native.String.{String}
use taha_mohammadi_platform.Prelude.Tests.{if◌then◌else◌, eqb, eqb_iff, Bool-cases}

module _ {ℓ} {A : Type ℓ} where
  abbrev pub length : List A → ℕ
  length [] = 0
  length (x ∷ xs) = suc (length xs)

  pub length-append : (xs ys : List A) → length (xs ++ ys) ≡ length xs + length ys
  length-append [] ys = omega arith
  length-append (x ∷ xs) ys = omega (arith, length-append xs ys)

  pub append_nil : (xs : List A) → xs ++ [] ≡ xs
  append_nil [] = refl
  append_nil (x ∷ xs) = cc (append_nil xs)

  pub append_assoc : (xs ys zs : List A) → (xs ++ ys) ++ zs ≡ xs ++ (ys ++ zs)
  append_assoc [] ys zs = refl
  append_assoc (x ∷ xs) ys zs = cc (append_assoc xs ys zs)

  abbrev pub take : ℕ → List A → List A
  take zero xs = []
  take (suc n) [] = []
  take (suc n) (x ∷ xs) = x ∷ take n xs

  -- Every element satisfies the predicate.
  abbrev pub All {κ} : (A → Type κ) → List A → Type κ
  All P [] = Unit
  All P (x ∷ xs) = P x × All P xs

  pub All-append {κ} : (P : A → Type κ) (xs ys : List A) → All P xs → All P ys → All P (xs ++ ys)
  All-append P [] ys p q = q
  All-append P (x ∷ xs) ys p q = (p.0, All-append P xs ys p.1 q)

  pub All-imp {κ μ} :
      (P : A → Type κ) (Q : A → Type μ) (xs : List A) → ((x : A) → P x → Q x) → All P xs → All Q xs
  All-imp P Q [] f h = tt
  All-imp P Q (x ∷ xs) f h = (f x h.0, All-imp P Q xs f h.1)

-- The given element stands in the list.
abbrev pub In : {A : Type 0} → A → List A → Type 0
In a [] = ⊥
In a (x ∷ xs) = (a ≡ x) ⊎ In a xs

module _ {A : Type 0} where
  pub In-append_left : (a : A) (xs ys : List A) → In a xs → In a (xs ++ ys)
  In-append_left a [] ys h = absurd h
  In-append_left a (x ∷ xs) ys (inl e) = inl e
  In-append_left a (x ∷ xs) ys (inr h) = inr (In-append_left a xs ys h)

  pub In-append_right : (a : A) (xs ys : List A) → In a ys → In a (xs ++ ys)
  In-append_right a [] ys h = h
  In-append_right a (x ∷ xs) ys h = inr (In-append_right a xs ys h)

  pub All-In {κ} : (P : A → Type κ) (a : A) (xs : List A) → All P xs → In a xs → P a
  All-In P a [] h m = absurd m
  All-In P a (x ∷ xs) h (inl e) = subst P (sym e) h.0
  All-In P a (x ∷ xs) h (inr m) = All-In P a xs h.1 m

  pub All-of_In {κ} : (P : A → Type κ) (xs : List A) → ((a : A) → In a xs → P a) → All P xs
  All-of_In P [] f = tt
  All-of_In P (x ∷ xs) f = (f x (inl refl), All-of_In P xs (λ a m. f a (inr m)))

pub In-map :
    {A B : Type 0} (f : A → B) (xs : List A) (b : B)
    → In b (map f xs)
    → (a : A) × In a xs × (b ≡ f a)
In-map f [] b m = absurd m
In-map f (x ∷ xs) b (inl e) = (x, inl refl, e)
In-map f (x ∷ xs) b (inr m) = let (a, here, e) = In-map f xs b m in (a, inr here, e)

pub map-In : {A B : Type 0} (f : A → B) (xs : List A) (a : A) → In a xs → In (f a) (map f xs)
map-In f [] a m = absurd m
map-In f (x ∷ xs) a (inl e) = inl (ap f e)
map-In f (x ∷ xs) a (inr m) = inr (map-In f xs a m)

pub In-append_cases : {A : Type 0} (a : A) (xs ys : List A) → In a (xs ++ ys) → In a xs ⊎ In a ys
In-append_cases a [] ys m = inr m
In-append_cases a (x ∷ xs) ys (inl e) = inl (inl e)
In-append_cases a (x ∷ xs) ys (inr m) = elim (In-append_cases a xs ys m) [
  | inl h ↦ inl (inr h)
  | inr h ↦ inr h
]

-- The equality tests of Python that the program relies on: texts and numbers.
pub record Eq (A : Type 0) : Type 0 where
  pub beq : A → A → Bool
  pub beq_iff : (a b : A) → (beq a b ≡ true) ↔ (a ≡ b)

instance abbrev pub nat_eq : Eq ℕ
nat_eq = record { beq = eqb; beq_iff = eqb_iff }

instance abbrev pub text_eq : Eq String
text_eq = record { beq = str_eq; beq_iff = eq_iff }

module _ {A : Type 0} ⦃e : Eq A⦄ where
  -- `a in l`
  unfoldable pub contains : List A → A → Bool
  contains [] a = false
  contains (x ∷ xs) a = e.beq a x || contains xs a

  -- `list(dict.fromkeys(l))`: the first occurrence of each element, in order. `seen` holds what
  -- has been kept so far.
  unfoldable pub dedup_from : List A → List A → List A
  dedup_from seen [] = []
  dedup_from seen (x ∷ xs) =
      if contains seen x then dedup_from seen xs else x ∷ dedup_from (x ∷ seen) xs

  unfoldable pub dedup : List A → List A
  unfolding dedup_from
  dedup xs = dedup_from [] xs

  pub contains_iff : (xs : List A) (a : A) → (contains xs a ≡ true) ↔ In a xs
  unfolding contains
  contains_iff [] a = (λ h. cc, λ h. absurd h)
  contains_iff (x ∷ xs) a = ground (arith, contains_iff xs a, e.beq_iff a x)

  pub contains-append :
      (xs ys : List A) (a : A) → contains (xs ++ ys) a ≡ (contains xs a || contains ys a)
  unfolding contains
  contains-append [] ys a = refl
  contains-append (x ∷ xs) ys a = ground (arith, contains-append xs ys a)

  -- No element stands twice.
  abbrev pub Distinct : List A → Type 0
  Distinct [] = Unit
  Distinct (x ∷ xs) = (contains xs x ≡ false) × Distinct xs

  In-dedup_from :
      (seen xs : List A) (a : A) → In a (dedup_from seen xs) ↔ (In a xs × (contains seen a ≡ false))
  unfolding dedup_from contains
  In-dedup_from seen [] a = (λ h. absurd h, λ h. absurd h.0)
  In-dedup_from seen (x ∷ xs) a =
      ground (arith, In-dedup_from seen xs a, In-dedup_from (x ∷ seen) xs a, e.beq_iff a x)

  -- `dict.fromkeys` keeps exactly the elements of its list.
  pub In-dedup : (xs : List A) (a : A) → In a (dedup xs) ↔ In a xs
  unfolding dedup contains
  In-dedup xs a = ground (arith, In-dedup_from [] xs a)

  dedup_from_fresh : (seen xs : List A) (x : A) → contains (dedup_from (x ∷ seen) xs) x ≡ false
  unfolding contains
  dedup_from_fresh seen xs x = ground (
    arith,
    contains_iff (dedup_from (x ∷ seen) xs) x,
    In-dedup_from (x ∷ seen) xs x,
    e.beq_iff x x,
  )

  dedup_from-Distinct : (seen xs : List A) → Distinct (dedup_from seen xs)
  unfolding dedup_from
  dedup_from-Distinct seen [] = tt
  dedup_from-Distinct seen (x ∷ xs) = elim (Bool-cases (contains seen x)) [
    | inl old ↦ rw old (dedup_from-Distinct seen xs)
    | inr new ↦ rw new (dedup_from_fresh seen xs x, dedup_from-Distinct (x ∷ seen) xs)
  ]

  pub dedup-Distinct : (xs : List A) → Distinct (dedup xs)
  unfolding dedup
  dedup-Distinct xs = dedup_from-Distinct [] xs

  length-dedup_from-le : (seen xs : List A) → length (dedup_from seen xs) ≤ length xs
  unfolding dedup_from
  length-dedup_from-le seen [] = omega arith
  length-dedup_from-le seen (x ∷ xs) =
      ground (arith, length-dedup_from-le seen xs, length-dedup_from-le (x ∷ seen) xs)

  pub length-dedup-le : (xs : List A) → length (dedup xs) ≤ length xs
  unfolding dedup
  length-dedup-le xs = length-dedup_from-le [] xs

-- `sorted(l)`: the insertion sort, which keeps equal elements in their order.
module _ {A : Type 0} (le : A → A → Bool) where
  unfoldable pub insert_by : A → List A → List A
  insert_by x [] = x ∷ []
  insert_by x (y ∷ ys) = let rest = insert_by x ys in if le x y then x ∷ y ∷ ys else y ∷ rest

  unfoldable pub sort_by : List A → List A
  sort_by [] = []
  sort_by (x ∷ xs) = insert_by x (sort_by xs)

  pub In-insert_by : (x : A) (ys : List A) (a : A) → In a (insert_by x ys) ↔ ((a ≡ x) ⊎ In a ys)
  unfolding insert_by
  In-insert_by x [] a = ground arith
  In-insert_by x (y ∷ ys) a = ground (arith, In-insert_by x ys a)

  -- Sorting keeps the elements.
  pub In-sort_by : (xs : List A) (a : A) → In a (sort_by xs) ↔ In a xs
  unfolding sort_by
  In-sort_by [] a = ground arith
  In-sort_by (x ∷ xs) a = ground (arith, In-insert_by x (sort_by xs) a, In-sort_by xs a)

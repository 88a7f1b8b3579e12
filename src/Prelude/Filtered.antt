-- ===== src/Prelude/Filtered.antt =====
-- A list comprehension with a test, and what it contains.
use taha_mohammadi_platform.Prelude.{
  List, [], ◌∷◌, Bool, true, ◌≡◌, ◌↔◌, inl, inr, refl, if◌then◌else◌, Bool-cases,
}
use taha_mohammadi_platform.Prelude.Lists.{In}

-- `[f(x) for x in xs if p(x)]`
abbrev pub those : {A B : Type 0} → (A → Bool) → (A → B) → List A → List B
those p f [] = []
those p f (x ∷ xs) = let rest = those p f xs in if p x then f x ∷ rest else rest

pub In-those :
    {A B : Type 0} (p : A → Bool) (f : A → B) (xs : List A) (b : B)
    → In b (those p f xs) ↔ ((x : A) × In x xs × (p x ≡ true) × (b ≡ f x))
In-those p f [] b = (λ m. absurd m, λ (x, m, h, e). absurd m)
In-those p f (x ∷ xs) b =
    let (down, up) = In-those p f xs b in
    elim (Bool-cases (p x)) [
      | inl kept ↦ rw kept (
        λ m. elim m [
          | inl e ↦ (x, inl refl, kept, e)
          | inr m' ↦ let (y, here, h, e) = down m' in (y, inr here, h, e)
        ],
        λ (y, m, h, e). elim m [ inl is ↦ inl (cc (e, is)) | inr m' ↦ inr (up (y, m', h, e)) ],
      )
      | inr left_out ↦ rw left_out (
        λ m. let (y, here, h, e) = down m in (y, inr here, h, e),
        λ (y, m, h, e). elim m [ inl is ↦ cc (h, is, left_out) | inr m' ↦ up (y, m', h, e) ],
      )
    ]

pub those-same :
    {A B : Type 0} (p q : A → Bool) (f : A → B) (xs : List A)
    → ((x : A) → In x xs → p x ≡ q x)
    → those p f xs ≡ those q f xs
those-same p q f [] h = refl
those-same p q f (x ∷ xs) h = rw (h x (inl refl), those-same p q f xs (λ y m. h y (inr m))) refl

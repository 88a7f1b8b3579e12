-- ===== src/Atlas/Payload/Collections.antt =====
-- What a collection without an issue is.
use taha_mohammadi_platform.Prelude.{
  String, Option, none, some, List, [], ◌∷◌, ◌++◌, Bool, true, false, ◌≡◌, ◌↔◌, ◌⊎◌, refl, sym, ◌∙◌,
  subst, inl, inr, Bool-cases, Option-cases, Result, ok, ◌>>=◌, bind-eq-ok,
}
use taha_mohammadi_platform.Prelude.Lists.{In, All, contains, text_eq, sort_by, insert_by}
use taha_mohammadi_platform.Prelude.Json.{Json}
use taha_mohammadi_platform.Atlas.Issues.{Issue}
use taha_mohammadi_platform.Atlas.Payload.{TypeError, Attribute, entity_key, usable, collect, over}

pub append-nil : {A : Type 0} (xs ys : List A) → xs ++ ys ≡ [] → (xs ≡ []) × (ys ≡ [])
append-nil [] ys h = (refl, h)
append-nil (x ∷ xs) ys h = cc h

insert_by-cons :
    {A : Type 0} (le : A → A → Bool) (x : A) (ys : List A)
    → (y : A) × (zs : List A) × (insert_by le x ys ≡ y ∷ zs)
unfolding insert_by
insert_by-cons le x [] = (x, [], refl)
insert_by-cons le x (y ∷ ys) = elim (Bool-cases (le x y)) [
  | inl h ↦ (x, y ∷ ys, rw h refl)
  | inr h ↦ (y, insert_by le x ys, rw h refl)
]

pub sort_by-nil : {A : Type 0} (le : A → A → Bool) (xs : List A) → sort_by le xs ≡ [] → xs ≡ []
unfolding sort_by
sort_by-nil le [] h = refl
sort_by-nil le (x ∷ xs) h =
    let (y, zs, e) = insert_by-cons le x (sort_by le xs) in
    let bad : y ∷ zs ≡ [] = sym e ∙ h in cc bad

-- The keys of the entries.
abbrev pub key_texts : List Json → List String
key_texts [] = []
key_texts (e ∷ entries) = elim (entity_key e) [
  | none ↦ key_texts entries
  | some k ↦ k ∷ key_texts entries
]

pub key_texts-cons :
    (e : Json) (entries : List Json) (k : String)
    → entity_key e ≡ some k
    → key_texts (e ∷ entries) ≡ k ∷ key_texts entries
key_texts-cons e entries k h = rw (key_texts, h) refl

-- An entry has a key of the grammar.
abbrev pub HasKey : (String → Bool) → Json → Type 0
HasKey grammar e = (k : String) × (entity_key e ≡ some k) × (grammar k ≡ true)

usable-some :
    (grammar : String → Bool) (o : Option String) (k : String)
    → usable grammar o ≡ some k
    → (o ≡ some k) × (grammar k ≡ true)
usable-some grammar none k h = cc h
usable-some grammar (some j) k h = elim (Bool-cases (grammar j)) [
  | inr bad ↦ cc (rw bad at h)
  | inl good ↦
      let e : some j ≡ some k = rw good at h in (e, subst (λ x. grammar x ≡ true) (cc e) good)
]

-- The fresh keys of a list: none is among those before.
abbrev pub FreshIn : List String → List String → Type 0
FreshIn keys [] = Unit
FreshIn keys (k ∷ ks) = (contains keys k ≡ false) × FreshIn (k ∷ keys) ks

module _ (grammar : String → Bool) (kind : Attribute) where
  pub collect-clean :
      (keys : List String) (entries : List Json)
      → (collect grammar kind keys entries).1 ≡ []
      → All (HasKey grammar) entries
        × FreshIn keys (key_texts entries)
        × ((t : String)
            → In t (collect grammar kind keys entries).0 ↔ (In t keys ⊎ In t (key_texts entries)))
  unfolding collect
  collect-clean keys [] h =
      (tt, tt, λ t. (λ m. inl m, λ m. elim m [ inl a ↦ a | inr b ↦ absurd b ]))
  collect-clean keys (e ∷ entries) h = elim (Option-cases (usable grammar (entity_key e))) [
    | inl unusable ↦ cc (rw (collect, unusable) at h)
    | inr (k, is) ↦ elim (Bool-cases (contains keys k)) [
      | inl twice ↦ cc (rw (collect, is, twice) at h)
      | inr fresh ↦
          let (named, good) = usable-some grammar (entity_key e) k is in
          let (keyed, rest, found) =
            collect-clean (k ∷ keys) entries (rw (collect, is, fresh) at h) in
          (
            ((k, named, good), keyed),
            rw (key_texts-cons e entries k named) (fresh, rest),
            λ t.
                rw (collect, is, fresh, key_texts-cons e entries k named)
                  (
                    λ m. elim ((found t).0 m) [
                      | inl (inl e') ↦ inr (inl e')
                      | inl (inr m') ↦ inl m'
                      | inr m' ↦ inr (inr m')
                    ],
                    λ m. (found t).1 (elim m [
                      | inl m' ↦ inl (inr m')
                      | inr (inl e') ↦ inl (inl e')
                      | inr (inr m') ↦ inr m'
                    ]),
                  ),
          )
    ]
  ]

pub over-clean :
    (f : Json → Result TypeError (List Issue)) (entries : List Json)
    → over f entries ≡ ok []
    → All (λ e. f e ≡ ok []) entries
unfolding over
over-clean f [] h = tt
over-clean f (e ∷ entries) h =
    let (here, a, h₁) =
      bind-eq-ok (f e) (λ here. over f entries >>= λ later. ok (here ++ later)) [] h in
    let (later, b, h₂) = bind-eq-ok (over f entries) (λ later. ok (here ++ later)) [] h₁ in
    let both : here ++ later ≡ [] = cc h₂ in
    let (x, y) = append-nil here later both in (cc (a, x), over-clean f entries (cc (b, y)))

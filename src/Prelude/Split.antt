-- ===== src/Prelude/Split.antt =====
-- `s.split(c)` and `s.strip(c)` for one character, and texts without a character.
use Prim.Native.Char.{Char, code}
use taha_mohammadi_platform.Prelude.{
  ℕ, ◌+◌, ◌≤◌, String, List, [], ◌∷◌, Bool, true, not, ◌&&◌, ◌≡◌, refl, sym, ap, subst, ◌∙◌, arith,
  ◌<>◌, eqb, eqb_refl, if◌then◌else◌, Bool-cases, inl, inr,
}
use text.Mathlib.TextLemmas.{cons-append, nil-append}
use taha_mohammadi_platform.Prelude.Lists.{length}

-- The character of code `c` does not occur.
unfoldable pub lacks : ℕ → String → Bool
lacks c String.[] = true
lacks c (String.◌∷◌ x s) = not (eqb (code x) c) && lacks c s

abbrev onto_first : Char → List String → List String
onto_first x [] = String.◌∷◌ x "" ∷ []
onto_first x (p ∷ ps) = String.◌∷◌ x p ∷ ps

-- `s.split(c)`
unfoldable pub split : ℕ → String → List String
split c String.[] = "" ∷ []
split c (String.◌∷◌ x s) =
    let rest = split c s in if eqb (code x) c then "" ∷ rest else onto_first x rest

-- `s.strip(c)`
lstrip_char : ℕ → String → String
lstrip_char c String.[] = ""
lstrip_char c (String.◌∷◌ x s) =
    let rest = lstrip_char c s in if eqb (code x) c then rest else String.◌∷◌ x s

-- Every character is `c`.
unfoldable pub only : ℕ → String → Bool
only c String.[] = true
only c (String.◌∷◌ x s) = eqb (code x) c && only c s

rstrip_char : ℕ → String → String
unfolding only
rstrip_char c String.[] = ""
rstrip_char c (String.◌∷◌ x s) =
    let rest = rstrip_char c s in if eqb (code x) c && only c s then "" else String.◌∷◌ x rest

unfoldable pub strip_char : ℕ → String → String
unfolding lstrip_char rstrip_char
strip_char c s = rstrip_char c (lstrip_char c s)

pub lacks-append : (c : ℕ) (a b : String) → lacks c (a <> b) ≡ (lacks c a && lacks c b)
unfolding lacks
lacks-append c String.[] b = rw (nil-append b) refl
lacks-append c (String.◌∷◌ x a) b = rw (cons-append x a b) (ground (arith, lacks-append c a b))

pub split-lacks : (c : ℕ) (a : String) → lacks c a ≡ true → split c a ≡ a ∷ []
unfolding split lacks
split-lacks c String.[] h = refl
split-lacks c (String.◌∷◌ x a) h = ground (arith, split-lacks c a)

pub split-append :
    (sep : Char) (a b : String)
    → lacks (code sep) a ≡ true
    → split (code sep) (a <> String.◌∷◌ sep b) ≡ a ∷ split (code sep) b
unfolding split lacks
split-append sep String.[] b h =
    rw (nil-append (String.◌∷◌ sep b)) (ground (arith, eqb_refl (code sep)))
split-append sep (String.◌∷◌ x a) b h =
    rw (cons-append x a (String.◌∷◌ sep b)) (ground (arith, split-append sep a b))

lstrip_char-lacks : (c : ℕ) (a : String) → lacks c a ≡ true → lstrip_char c a ≡ a
unfolding lstrip_char lacks
lstrip_char-lacks c String.[] h = refl
lstrip_char-lacks c (String.◌∷◌ x a) h = ground arith

rstrip_char-lacks : (c : ℕ) (a : String) → lacks c a ≡ true → rstrip_char c a ≡ a
unfolding rstrip_char lacks
rstrip_char-lacks c String.[] h = refl
rstrip_char-lacks c (String.◌∷◌ x a) h = ground (arith, rstrip_char-lacks c a)

pub strip_char-lacks : (c : ℕ) (a : String) → lacks c a ≡ true → strip_char c a ≡ a
unfolding strip_char
strip_char-lacks c a h = rw (lstrip_char-lacks c a h) (rstrip_char-lacks c a h)

single : (x : Char) (b : String) → String.◌∷◌ x "" <> b ≡ String.◌∷◌ x b
single x b = cons-append x "" b ∙ ap (λ t. String.◌∷◌ x t) (nil-append b)

-- The pieces of a text that "." or ":" joins.
pub dotted : (a b : String) → lacks b'.' a ≡ true → split b'.' (a <> ("." <> b)) ≡ a ∷ split b'.' b
dotted a b h =
    subst (λ t. split b'.' (a <> t) ≡ a ∷ split b'.' b) (sym (single "." b))
      (split-append "." a b h)

pub coloned : (a b : String) → lacks b':' a ≡ true → split b':' (a <> (":" <> b)) ≡ a ∷ split b':' b
coloned a b h =
    subst (λ t. split b':' (a <> t) ≡ a ∷ split b':' b) (sym (single ":" b))
      (split-append ":" a b h)

pub tilded : (a b : String) → lacks b'~' a ≡ true → split b'~' (a <> ("~" <> b)) ≡ a ∷ split b'~' b
tilded a b h =
    subst (λ t. split b'~' (a <> t) ≡ a ∷ split b'~' b) (sym (single "~" b))
      (split-append "~" a b h)

-- A separator makes one piece more, whatever the texts are.
pub length-split_pos : (c : ℕ) (a : String) → 1 ≤ length (split c a)
unfolding split
length-split_pos c String.[] = omega arith
length-split_pos c (String.◌∷◌ x a) = elim (Bool-cases (eqb (code x) c)) [
  | inl cut ↦ rw cut (omega arith)
  | inr kept ↦ rw kept (onto_first-length x (split c a))
]
  where
    onto_first-length : (x : Char) (l : List String) → 1 ≤ length (onto_first x l)
    onto_first-length x [] = omega arith
    onto_first-length x (p ∷ l) = omega arith

length-onto_first : (x : Char) (l : List String) → 1 ≤ length l → length (onto_first x l) ≡ length l
length-onto_first x [] h = absurd (omega arith)
length-onto_first x (p ∷ l) h = refl

pub length-split_append :
    (sep : Char) (a b : String)
    → length (split (code sep) (a <> String.◌∷◌ sep b))
      ≡ length (split (code sep) a) + length (split (code sep) b)
unfolding split
length-split_append sep String.[] b =
    rw (nil-append (String.◌∷◌ sep b)) (ground (arith, eqb_refl (code sep)))
length-split_append sep (String.◌∷◌ x a) b =
    let rest = length-split_append sep a b in
    let some_left = length-split_pos (code sep) a in
    let some_all = length-split_pos (code sep) (a <> String.◌∷◌ sep b) in
    rw (cons-append x a (String.◌∷◌ sep b)) (elim (Bool-cases (eqb (code x) (code sep))) [
      | inl cut ↦ rw cut (omega (arith, rest))
      | inr kept ↦
          rw
            (
              kept,
              length-onto_first x (split (code sep) a) some_left,
              length-onto_first x (split (code sep) (a <> String.◌∷◌ sep b)) some_all,
            )
            rest
    ])

pub length-coloned :
    (a b : String)
    → length (split b':' (a <> (":" <> b))) ≡ length (split b':' a) + length (split b':' b)
length-coloned a b =
    subst (λ t. length (split b':' (a <> t)) ≡ length (split b':' a) + length (split b':' b))
      (sym (single ":" b)) (length-split_append ":" a b)

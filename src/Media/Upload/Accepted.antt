-- ===== src/Media/Upload/Accepted.antt =====
-- What an upload is that both validators accept.
use taha_mohammadi_platform.Prelude.{
  ℕ, ◌≤◌, String, Option, some, List, [], ◌∷◌, Bool, true, false, not, ◌&&◌, ◌==◌, ◌≡◌, refl, sym,
  eq_iff, inl, inr, arith, ltb, ok, ◌>>◌, require, bind-eq-ok, Bool-cases, Option-cases,
}
use taha_mohammadi_platform.Prelude.Lists.{In, contains, contains_iff, text_eq}
use taha_mohammadi_platform.Prelude.Text.{or_else}
use taha_mohammadi_platform.Prelude.Decimal.{lower}
use taha_mohammadi_platform.Media.Upload.{
  Upload, unsupported_type, extension_mismatch, has_token, any_token, svg_mime, svg_forbidden,
  svg_is_safe, allowed_mimes, extensions_of, is_av, limit_for_mime, sniff_mime, validate_file_type,
  validate_file_size,
}

or_else-some : (s : String) → or_else (some s) "" ≡ s
unfolding or_else
or_else-some s = elim (Bool-cases (s == "")) [
  | inl empty ↦ rw empty (sym ((eq_iff s "").0 empty))
  | inr other ↦ rw other refl
]

no_token :
    (tokens : List String) (s token : String)
    → any_token tokens s ≡ false
    → In token tokens
    → has_token token s ≡ false
unfolding any_token
no_token [] s token h m = absurd m
no_token (x ∷ tokens) s token h (inl e) = rw e (ground arith)
no_token (x ∷ tokens) s token h (inr m) = no_token tokens s token (ground arith) m

module _ (guess : String → Option String) (splitext : String → String) where
  -- An accepted upload, of a type.
  abbrev pub IsAccepted : Upload → String → Type 0
  IsAccepted u mime =
      (sniff_mime guess splitext u.content ≡ some mime)
      × In mime allowed_mimes
      × In (lower (splitext u.name)) (extensions_of mime)
      × (mime ≡ svg_mime
          → (token : String) → In token svg_forbidden
          → has_token token (lower u.content) ≡ false)
      × (u.size ≤ 52428800)
      × (is_av mime ≡ false → u.size ≤ 5242880)

  limit-bounds :
      (mime : String) (n : ℕ)
      → ltb (limit_for_mime mime) n ≡ false
      → (n ≤ 52428800) × (is_av mime ≡ false → n ≤ 5242880)
  unfolding limit_for_mime
  limit-bounds mime n h = elim (Bool-cases (is_av mime)) [
    | inl av ↦ (ground arith, λ other. cc (av, other))
    | inr other ↦ (ground arith, λ _. ground arith)
  ]

  required : (b : Bool) {E : Type 0} (e : E) (x : Unit {0}) → require b e ≡ ok x → b ≡ true
  required true e x h = refl
  required false e x h = cc h

  type_checks :
      (u : Upload) (mime : String)
      → require (contains allowed_mimes mime) unsupported_type
          >> (require (not (mime == svg_mime && not (svg_is_safe u.content))) unsupported_type
              >> require
                  (contains (extensions_of mime) (lower (splitext u.name)))
                  extension_mismatch)
        ≡ ok tt
      → (contains allowed_mimes mime ≡ true)
        × (not (mime == svg_mime && not (svg_is_safe u.content)) ≡ true)
        × (contains (extensions_of mime) (lower (splitext u.name)) ≡ true)
  type_checks u mime h =
      let listed = contains allowed_mimes mime in
      let safe = not (mime == svg_mime && not (svg_is_safe u.content)) in
      let named = contains (extensions_of mime) (lower (splitext u.name)) in
      let (x, a, h₁) =
        bind-eq-ok (require listed unsupported_type)
          (λ _. require safe unsupported_type >> require named extension_mismatch) tt h in
      let (y, b, c) =
        bind-eq-ok (require safe unsupported_type) (λ _. require named extension_mismatch) tt h₁ in
      (
        required listed unsupported_type x a,
        required safe unsupported_type y b,
        required named extension_mismatch tt c,
      )

  svg_clean :
      (u : Upload) (mime : String)
      → mime ≡ svg_mime
      → not (mime == svg_mime && not (svg_is_safe u.content)) ≡ true
      → any_token svg_forbidden (lower u.content) ≡ false
  unfolding svg_is_safe
  svg_clean u mime is h = ground (arith, rw is at h)

  size_checks :
      (u : Upload) (mime : String)
      → sniff_mime guess splitext u.content ≡ some mime
      → validate_file_size guess splitext u ≡ ok tt
      → (u.size ≤ 52428800) × (is_av mime ≡ false → u.size ≤ 5242880)
  unfolding validate_file_size
  size_checks u mime seen h = elim (Bool-cases (ltb (limit_for_mime mime) u.size)) [
    | inr fits ↦ limit-bounds mime u.size fits
    | inl large ↦ cc (rw (validate_file_size, seen, or_else-some mime, large) at h)
  ]

  -- An upload that passes both validators has a type that its content shows and that is on the list,
  -- an extension of that type, at most 50 MiB, or 5 MiB if it is neither audio nor video, and, if it
  -- is an SVG, none of the five forbidden texts in any case of its letters.
  pub validators-IsAccepted :
      (u : Upload)
      → validate_file_type guess splitext u ≡ ok tt
      → validate_file_size guess splitext u ≡ ok tt
      → (mime : String) × IsAccepted u mime
  unfolding validate_file_type
  validators-IsAccepted u typed sized = elim (Option-cases (sniff_mime guess splitext u.content)) [
    | inl unknown ↦ cc (rw (validate_file_type, unknown) at typed)
    | inr (mime, seen) ↦
        let (listed, unscripted, named) =
          type_checks u mime (rw (validate_file_type, seen) at typed) in
        let bounds = size_checks u mime seen sized in
        (
          mime,
          (
            seen,
            (contains_iff allowed_mimes mime).0 listed,
            (contains_iff (extensions_of mime) (lower (splitext u.name))).0 named,
            λ is token m.
                no_token svg_forbidden (lower u.content) token (svg_clean u mime is unscripted) m,
            bounds.0,
            bounds.1,
          ),
        )
  ]

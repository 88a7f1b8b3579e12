-- ===== src/Preview/Share/Laws.antt =====
-- Reading a shared preview token: tokens that were built, tokens that are accepted, and exceptions.
use taha_mohammadi_platform.Prelude.{
  ℕ, ◌+◌, ◌≤◌, String, Option, none, some, List, [], ◌∷◌, true, false, not, ◌||◌, ◌==◌, ◌<>◌, ◌≡◌,
  ◌⊎◌, refl, sym, ap, subst, ◌∙◌, inl, inr, arith, eq_iff, ltb, if◌then◌else◌, Bool-cases,
  Option-cases, ok, err,
}
use taha_mohammadi_platform.Prelude.Text.{
  is_ascii, compare_digest, compare_digest-true, compare_digest-same,
}
use taha_mohammadi_platform.Prelude.Split.{
  split, strip_char, lacks, lacks-append, split-lacks, dotted, strip_char-lacks,
}
use taha_mohammadi_platform.Prelude.Decimal.{show_nat}
use taha_mohammadi_platform.Prelude.Decimal.RoundTrip.{
  decimal_from, isdigit, isdigit-show_nat, decimal_from-show_nat, lacks-show_nat, lacks-squared,
  isdigit-squared, decimal_from-squared,
}
use taha_mohammadi_platform.Preview.Share.{
  PreviewTokenStatus, valid, expired, PreviewTokenPayload, PreviewSettings, value_error,
  preview_secret, share_message, chosen_ttl, four_parts, int_of, sign, build_preview_token, verdict,
  parse_parts, parse_preview_token,
}

-- The three outcomes of a comparison.
pub compared-cases :
    (a b : String)
    → (compare_digest a b ≡ none)
      ⊎ (compare_digest a b ≡ some false)
      ⊎ (compare_digest a b ≡ some true)
compared-cases a b = elim (Option-cases (compare_digest a b)) [
  | inl odd ↦ inl odd
  | inr (true, found) ↦ inr (inr found)
  | inr (false, found) ↦ inr (inl found)
]

-- What a hexadecimal digest looks like, as far as it matters here.
abbrev pub IsHexDigest : (String → String → String) → Type 0
IsHexDigest hmac =
    (key message : String)
    → ((hmac key message == "") ≡ false)
      × (lacks b'.' (hmac key message) ≡ true)
      × (lacks b'/' (hmac key message) ≡ true)
      × (is_ascii (hmac key message) ≡ true)

-- The token of four parts.
abbrev pub joined : String → String → String → String → String
joined a b c d = a <> ("." <> (b <> ("." <> (c <> ("." <> d)))))

pub split-joined :
    (a b c d : String)
    → lacks b'.' a ≡ true
    → lacks b'.' b ≡ true
    → lacks b'.' c ≡ true
    → lacks b'.' d ≡ true
    → split b'.' (joined a b c d) ≡ a ∷ b ∷ c ∷ d ∷ []
split-joined a b c d ha hb hc hd =
    rw
      (
        dotted a (b <> ("." <> (c <> ("." <> d)))) ha,
        dotted b (c <> ("." <> d)) hb,
        dotted c d hc,
        split-lacks b'.' d hd,
      )
      refl

lacks-joined :
    (k : ℕ) (a b c d : String)
    → lacks k "." ≡ true
    → lacks k a ≡ true
    → lacks k b ≡ true
    → lacks k c ≡ true
    → lacks k d ≡ true
    → lacks k (joined a b c d) ≡ true
lacks-joined k a b c d dot ha hb hc hd =
    rw
      (
        lacks-append k a ("." <> (b <> ("." <> (c <> ("." <> d))))),
        lacks-append k "." (b <> ("." <> (c <> ("." <> d)))),
        lacks-append k b ("." <> (c <> ("." <> d))),
        lacks-append k "." (c <> ("." <> d)),
        lacks-append k c ("." <> d),
        lacks-append k "." d,
        dot,
        ha,
        hb,
        hc,
        hd,
      )
      refl

not_empty :
    (a b c d : String)
    → split b'.' (joined a b c d) ≡ a ∷ b ∷ c ∷ d ∷ []
    → (joined a b c d == "") ≡ false
unfolding split
not_empty a b c d parts = elim (Bool-cases (joined a b c d == "")) [
  | inr other ↦ other
  | inl empty ↦
      let e : joined a b c d ≡ "" = (eq_iff (joined a b c d) "").0 empty in
      let one : "" ∷ [] ≡ a ∷ b ∷ c ∷ d ∷ [] = ap (split b'.') (sym e) ∙ parts in cc one
]

int_of-show_nat : (n : ℕ) → int_of (show_nat n) ≡ ok n
int_of-show_nat n = rw (decimal_from-show_nat n, int_of) refl

pub int_of-some : (raw : String) (n : ℕ) → decimal_from 0 raw ≡ some n → int_of raw ≡ ok n
int_of-some raw n h = rw (h, int_of) refl

pub int_of-none : (raw : String) → decimal_from 0 raw ≡ none → int_of raw ≡ err value_error
int_of-none raw h = rw (h, int_of) refl

four_parts-cases :
    (parts : List String)
    → (four_parts parts ≡ none)
      ⊎ ((a : String) × (b : String) × (c : String) × (d : String) × (parts ≡ a ∷ b ∷ c ∷ d ∷ []))
four_parts-cases [] = inl refl
four_parts-cases (a ∷ []) = inl refl
four_parts-cases (a ∷ b ∷ []) = inl refl
four_parts-cases (a ∷ b ∷ c ∷ []) = inl refl
four_parts-cases (a ∷ b ∷ c ∷ d ∷ []) = inr (a, b, c, d, refl)
four_parts-cases (a ∷ b ∷ c ∷ d ∷ e ∷ rest) = inl refl

slash_dot : lacks b'/' "." ≡ true
unfolding lacks
slash_dot = refl

module _ (hmac : String → String → String) (s : PreviewSettings) where
  -- The payload and its status at a time.
  abbrev pub reading : ℕ → PreviewTokenPayload → PreviewTokenStatus × Option PreviewTokenPayload
  reading now p = (if ltb p.exp now then expired else valid, some p)

  verdict-signed :
      (now pk exp : ℕ) (kind : String)
      → IsHexDigest hmac
      → verdict hmac (preview_secret s) now kind pk exp (sign hmac (preview_secret s) kind pk exp)
        ≡ ok (reading now (record { kind = kind; pk = pk; exp = exp }))
  unfolding verdict sign
  verdict-signed now pk exp kind hex =
      let (_, _, _, plain) = hex (preview_secret s) (share_message kind pk exp) in
      rw (verdict, compare_digest-same (sign hmac (preview_secret s) kind pk exp) plain)
        (ground arith)

  parse_parts-signed :
      (now pk exp : ℕ) (kind : String)
      → IsHexDigest hmac
      → (kind == "") ≡ false
      → parse_parts hmac
          (preview_secret s)
          now
          kind
          (show_nat pk)
          (show_nat exp)
          (sign hmac (preview_secret s) kind pk exp)
        ≡ ok (reading now (record { kind = kind; pk = pk; exp = exp }))
  unfolding parse_parts sign
  parse_parts-signed now pk exp kind hex set =
      rw
        (
          set,
          isdigit-show_nat pk,
          isdigit-show_nat exp,
          (hex (preview_secret s) (share_message kind pk exp)).0,
          int_of-show_nat pk,
          int_of-show_nat exp,
        )
        (verdict-signed now pk exp kind hex)

  -- A token reads back, at any time, as the kind, the key and the expiry it was built from, valid up
  -- to the second of its expiry and expired after it. The secret is set, the kind is a word without
  -- a dot or a slash, and the digest is hexadecimal.
  pub parse-build :
      (now later pk : ℕ) (kind token : String) (ttl : Option ℕ)
      → IsHexDigest hmac
      → (kind == "") ≡ false
      → lacks b'.' kind ≡ true
      → lacks b'/' kind ≡ true
      → build_preview_token hmac s now kind pk ttl ≡ ok token
      → parse_preview_token hmac s later token
        ≡ ok (reading later (record { kind = kind; pk = pk; exp = now + chosen_ttl s ttl }))
  unfolding build_preview_token parse_preview_token sign
  parse-build now later pk kind token ttl hex set dotless slashless built =
      elim (Bool-cases (preview_secret s == "")) [
        | inl missing ↦ cc (rw missing at built)
        | inr secret ↦
            let exp = now + chosen_ttl s ttl in
            let digest = hmac (preview_secret s) (share_message kind pk exp) in
            let (_, dots, slashes, _) = hex (preview_secret s) (share_message kind pk exp) in
            let parts =
              split-joined kind (show_nat pk) (show_nat exp) digest dotless
                (lacks-show_nat b'.' pk refl) (lacks-show_nat b'.' exp refl) dots in
            let whole = strip_char-lacks b'/' (joined kind (show_nat pk) (show_nat exp) digest) (
              lacks-joined b'/' kind (show_nat pk) (show_nat exp) digest (slash_dot) slashless
                (lacks-show_nat b'/' pk refl) (lacks-show_nat b'/' exp refl) slashes) in
            let e : joined kind (show_nat pk) (show_nat exp) digest ≡ token =
              cc (rw secret at built) in
            subst
              (λ t.
                parse_preview_token hmac s later t
                ≡ ok (reading later (record { kind = kind; pk = pk; exp = exp })))
              e
              (rw (secret, not_empty kind (show_nat pk) (show_nat exp) digest parts, whole, parts)
                (parse_parts-signed later pk exp kind hex set))
      ]

  -- A token that was built is its four parts, joined, and stripping slashes leaves it as it is.
  pub build-joined :
      (now pk : ℕ) (kind token : String) (ttl : Option ℕ)
      → IsHexDigest hmac
      → lacks b'.' kind ≡ true
      → lacks b'/' kind ≡ true
      → build_preview_token hmac s now kind pk ttl ≡ ok token
      → (signature : String) × (split b'.' (strip_char b'/' token)
          ≡ kind ∷ show_nat pk ∷ show_nat (now + chosen_ttl s ttl) ∷ signature ∷ [])
  unfolding build_preview_token sign
  build-joined now pk kind token ttl hex dotless slashless built =
      elim (Bool-cases (preview_secret s == "")) [
        | inl missing ↦ cc (rw missing at built)
        | inr secret ↦
            let exp = now + chosen_ttl s ttl in
            let digest = hmac (preview_secret s) (share_message kind pk exp) in
            let (_, dots, slashes, _) = hex (preview_secret s) (share_message kind pk exp) in
            let parts =
              split-joined kind (show_nat pk) (show_nat exp) digest dotless
                (lacks-show_nat b'.' pk refl) (lacks-show_nat b'.' exp refl) dots in
            let whole = strip_char-lacks b'/' (joined kind (show_nat pk) (show_nat exp) digest) (
              lacks-joined b'/' kind (show_nat pk) (show_nat exp) digest (slash_dot) slashless
                (lacks-show_nat b'/' pk refl) (lacks-show_nat b'/' exp refl) slashes) in
            let e : joined kind (show_nat pk) (show_nat exp) digest ≡ token =
              cc (rw secret at built) in
            (
              digest,
              subst
                  (λ t.
                    split b'.' (strip_char b'/' t)
                    ≡ kind ∷ show_nat pk ∷ show_nat exp ∷ digest ∷ [])
                  e (rw whole parts),
            )
      ]

  verdict-valid :
      (now pk exp : ℕ) (kind signature : String) (p : PreviewTokenPayload)
      → verdict hmac (preview_secret s) now kind pk exp signature ≡ ok (valid, some p)
      → (signature ≡ sign hmac (preview_secret s) kind pk exp)
        × (p ≡ record { kind = kind; pk = pk; exp = exp })
        × (now ≤ exp)
  unfolding verdict
  verdict-valid now pk exp kind signature p h =
      elim (compared-cases signature (sign hmac (preview_secret s) kind pk exp)) [
        | inl odd ↦ cc (rw (verdict, odd) at h)
        | inr (inl forged) ↦ cc (rw (verdict, forged) at h)
        | inr (inr signed) ↦ elim (Bool-cases (ltb exp now)) [
          | inl late ↦ cc (rw (verdict, signed, late) at h)
          | inr fresh ↦ (
            (compare_digest-true signature (sign hmac (preview_secret s) kind pk exp) signed).0,
            cc (rw (verdict, signed, fresh) at h),
            ground arith,
          )
        ]
      ]

  -- The four parts of an accepted token.
  abbrev pub SignedParts : List String → PreviewTokenPayload → Type 0
  SignedParts parts p =
      (pk_raw : String) × (exp_raw : String) × (parts
        ≡ p.kind ∷ pk_raw ∷ exp_raw ∷ sign hmac (preview_secret s) p.kind p.pk p.exp ∷ [])
      × (decimal_from 0 pk_raw ≡ some p.pk)
      × (decimal_from 0 exp_raw ≡ some p.exp)

  parse_parts-valid :
      (now : ℕ) (kind pk_raw exp_raw signature : String) (p : PreviewTokenPayload)
      → parse_parts hmac (preview_secret s) now kind pk_raw exp_raw signature ≡ ok (valid, some p)
      → SignedParts (kind ∷ pk_raw ∷ exp_raw ∷ signature ∷ []) p × (now ≤ p.exp)
  unfolding parse_parts
  parse_parts-valid now kind pk_raw exp_raw signature p h =
      elim (Bool-cases
        (kind == "" || (not (isdigit pk_raw) || (not (isdigit exp_raw) || signature == "")))) [
          | inl bad ↦ cc (rw bad at h)
          | inr good ↦ elim (Option-cases (decimal_from 0 pk_raw)) [
            | inl raised ↦ cc (rw (good, int_of-none pk_raw raised) at h)
            | inr (pk, read) ↦ elim (Option-cases (decimal_from 0 exp_raw)) [
              | inl raised ↦
                  cc (rw (good, int_of-some pk_raw pk read, int_of-none exp_raw raised) at h)
              | inr (exp, read') ↦
                  let h₁ : verdict hmac (preview_secret s) now kind pk exp signature
                      ≡ ok (valid, some p) =
                    cc
                      (rw (good, int_of-some pk_raw pk read, int_of-some exp_raw exp read') at h) in
                  let (signed, is, fresh) = verdict-valid now pk exp kind signature p h₁ in
                  (
                    (pk_raw, exp_raw, cc (signed, is), cc (read, is), cc (read', is)),
                    subst (λ q. now ≤ q.exp) (sym is) fresh,
                  )
            ]
          ]
        ]

  -- A token is accepted as valid only if, slashes at its ends aside, its four parts are a kind, two
  -- numerals and the signature of exactly that kind, key and expiry under the configured secret, and
  -- its expiry is not over. The secret is then set.
  pub parse-valid :
      (now : ℕ) (token : String) (p : PreviewTokenPayload)
      → parse_preview_token hmac s now token ≡ ok (valid, some p)
      → ((preview_secret s == "") ≡ false)
        × SignedParts (split b'.' (strip_char b'/' token)) p
        × (now ≤ p.exp)
  unfolding parse_preview_token
  parse-valid now token p h = elim (Bool-cases (preview_secret s == "" || token == "")) [
    | inl bad ↦ cc (rw bad at h)
    | inr good ↦ elim (four_parts-cases (split b'.' (strip_char b'/' token))) [
      | inl other ↦ cc (rw (good, other) at h)
      | inr (kind, pk_raw, exp_raw, signature, parts) ↦
          let (signed, fresh) =
            parse_parts-valid now kind pk_raw exp_raw signature p (rw (good, parts) at h) in
          (ground arith, rw parts signed, fresh)
    ]
  ]

  -- The exception. A token whose key is a numeral with a superscript two behind it makes the parser
  -- raise ValueError instead of answering that it is invalid, whatever its kind, its expiry and its
  -- signature are. The secret is set, and the kind and the signature are not empty and have no dot
  -- and no slash.
  pub parse-raises :
      (now pk exp : ℕ) (kind signature : String)
      → ((preview_secret s == "") ≡ false)
      → ((kind == "") ≡ false)
      → lacks b'.' kind ≡ true
      → lacks b'/' kind ≡ true
      → ((signature == "") ≡ false)
      → lacks b'.' signature ≡ true
      → lacks b'/' signature ≡ true
      → parse_preview_token hmac s now (joined kind (show_nat pk <> "²") (show_nat exp) signature)
        ≡ err value_error
  unfolding parse_preview_token parse_parts lacks
  parse-raises now pk exp kind signature secret some_kind dotless slashless some_signature dots
        slashes =
      let key = show_nat pk <> "²" in
      let parts =
        split-joined kind key (show_nat exp) signature dotless (lacks-squared b'.' pk refl refl)
          (lacks-show_nat b'.' exp refl) dots in
      let whole = strip_char-lacks b'/' (joined kind key (show_nat exp) signature) (
        lacks-joined b'/' kind key (show_nat exp) signature (slash_dot) slashless
          (lacks-squared b'/' pk refl refl) (lacks-show_nat b'/' exp refl) slashes) in
      rw
        (
          secret,
          not_empty kind key (show_nat exp) signature parts,
          whole,
          parts,
          some_kind,
          isdigit-squared pk,
          isdigit-show_nat exp,
          some_signature,
          int_of-none key (decimal_from-squared pk),
        )
        refl

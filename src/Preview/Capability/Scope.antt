-- ===== src/Preview/Capability/Scope.antt =====
-- What a capability of the Atlas preview is a signature of, and shared preview tokens beside it.
use taha_mohammadi_platform.Prelude.{
  ℕ, ◌+◌, String, Option, none, some, List, [], ◌∷◌, true, false, not, ◌||◌, ◌==◌, ◌<>◌, ◌≡◌, ◌≢◌,
  ◌⊎◌, refl, ap, subst, inl, inr, arith, Bool-cases, Option-cases, ok,
}
use taha_mohammadi_platform.Prelude.Lists.{length}
use taha_mohammadi_platform.Prelude.Split.{
  split, strip_char, lacks, length-split_pos, length-coloned,
}
use taha_mohammadi_platform.Prelude.Decimal.RoundTrip.{decimal_from, isdigit}
use taha_mohammadi_platform.Preview.Share.{
  PreviewSettings, preview_secret, share_message, chosen_ttl, build_preview_token,
}
use taha_mohammadi_platform.Preview.Share.Message.{split-share_message}
use taha_mohammadi_platform.Preview.Share.Laws.{
  int_of-some, int_of-none, compared-cases, IsHexDigest, build-joined,
}
use taha_mohammadi_platform.Prelude.Text.{compare_digest-true}
use taha_mohammadi_platform.Preview.Capability.{
  AtlasPreviewCapability, capability_message, five_parts, read_segments, parse_atlas_preview_token,
}

capability_message-share :
    (purpose version locale exp kind : String) (pk exp' : ℕ)
    → lacks b':' kind ≡ true
    → capability_message purpose version locale exp ≢ share_message kind pk exp'
unfolding capability_message
capability_message-share purpose version locale exp kind pk exp' free same =
    let pieces = ap (λ t. length (split b':' t)) same in
    let four = ap length (split-share_message kind pk exp' free) in
    absurd (
      omega (
        arith,
        pieces,
        four,
        length-coloned "preview"
            (purpose <> (":" <> (version <> (":" <> (locale <> (":" <> exp)))))),
        length-coloned purpose (version <> (":" <> (locale <> (":" <> exp)))),
        length-coloned version (locale <> (":" <> exp)),
        length-coloned locale exp,
        length-split_pos b':' "preview",
        length-split_pos b':' purpose,
        length-split_pos b':' version,
        length-split_pos b':' locale,
        length-split_pos b':' exp,
      ))

module _ (hmac : String → String → String) (s : PreviewSettings) where
  -- The five segments of a token that was verified.
  abbrev pub SignedSegments : List String → AtlasPreviewCapability → Type 0
  SignedSegments segments c =
      (version_raw : String) × (exp_raw : String) × (segments
        ≡ c.purpose
          ∷ version_raw
          ∷ c.locale
          ∷ exp_raw
          ∷ hmac (preview_secret s) (capability_message c.purpose version_raw c.locale exp_raw)
          ∷ [])
      × (decimal_from 0 version_raw ≡ some c.version_id)
      × (decimal_from 0 exp_raw ≡ some c.exp)

  read_segments-some :
      (purpose version_raw locale exp_raw signature : String) (c : AtlasPreviewCapability)
      → read_segments hmac s purpose version_raw locale exp_raw signature ≡ ok (some c)
      → ((preview_secret s == "") ≡ false)
        × SignedSegments (purpose ∷ version_raw ∷ locale ∷ exp_raw ∷ signature ∷ []) c
  unfolding read_segments
  read_segments-some purpose version_raw locale exp_raw signature c h =
      elim (Bool-cases (not (isdigit version_raw) || (not (isdigit exp_raw) || locale == ""))) [
        | inl bad ↦ cc (rw bad at h)
        | inr good ↦ elim (Bool-cases (preview_secret s == "")) [
          | inl missing ↦ cc (rw (good, missing) at h)
          | inr secret ↦ elim (Option-cases (decimal_from 0 version_raw)) [
            | inl raised ↦ cc (rw (good, secret, int_of-none version_raw raised) at h)
            | inr (v, read) ↦ elim (Option-cases (decimal_from 0 exp_raw)) [
              | inl raised ↦ cc (
                  rw (good, secret, int_of-some version_raw v read, int_of-none exp_raw raised) at
                    h)
              | inr (e, read') ↦
                  let h₁ =
                    rw (good, secret, int_of-some version_raw v read, int_of-some exp_raw e read')
                      at h in
                  let expected =
                    hmac (preview_secret s)
                      (capability_message purpose version_raw locale exp_raw) in
                  elim (compared-cases signature expected) [
                    | inl odd ↦ cc (rw odd at h₁)
                    | inr (inl forged) ↦ cc (rw forged at h₁)
                    | inr (inr signed) ↦
                        let is : record {
                          version_id = v;
                          locale = locale;
                          purpose = purpose;
                          exp = e;
                        }
                            ≡ c =
                          cc (rw signed at h₁) in
                        let by = (compare_digest-true signature expected signed).0 in
                        (
                          secret,
                          subst
                              (SignedSegments
                                (purpose ∷ version_raw ∷ locale ∷ exp_raw ∷ signature ∷ []))
                              is (version_raw, exp_raw, cc by, read, read'),
                        )
                  ]
            ]
          ]
        ]
      ]

  five_parts-cases :
      (parts : List String)
      → (five_parts parts ≡ none)
        ⊎ ((a : String) × (b : String) × (c : String) × (d : String) × (e : String) × (parts
              ≡ a ∷ b ∷ c ∷ d ∷ e ∷ []))
  five_parts-cases [] = inl refl
  five_parts-cases (a ∷ []) = inl refl
  five_parts-cases (a ∷ b ∷ []) = inl refl
  five_parts-cases (a ∷ b ∷ c ∷ []) = inl refl
  five_parts-cases (a ∷ b ∷ c ∷ d ∷ []) = inl refl
  five_parts-cases (a ∷ b ∷ c ∷ d ∷ e ∷ []) = inr (a, b, c, d, e, refl)
  five_parts-cases (a ∷ b ∷ c ∷ d ∷ e ∷ f ∷ rest) = inl refl

  -- A capability is returned only for a token whose segments carry the signature, under the
  -- configured secret, of exactly the purpose, version, locale and expiry that the capability states.
  pub parse_atlas_preview_token-some :
      (token : String) (c : AtlasPreviewCapability)
      → parse_atlas_preview_token hmac s token ≡ ok (some c)
      → ((preview_secret s == "") ≡ false) × SignedSegments (split b'.' (strip_char b'/' token)) c
  unfolding parse_atlas_preview_token
  parse_atlas_preview_token-some token c h = elim (Bool-cases (token == "")) [
    | inl empty ↦ cc (rw empty at h)
    | inr some_token ↦ elim (five_parts-cases (split b'.' (strip_char b'/' token))) [
      | inl other ↦ cc (rw (some_token, other) at h)
      | inr (purpose, version_raw, locale, exp_raw, signature, parts) ↦
          let (secret, signed) =
            read_segments-some purpose version_raw locale exp_raw signature c
              (rw (some_token, parts) at h) in
          (secret, rw parts signed)
    ]
  ]

  -- A token that was built for a shared content preview is never read as a capability of the Atlas:
  -- the parser answers None. And no capability, of whatever purpose, version, locale and expiry, has
  -- the signed text of that token. The digest is hexadecimal, and the kind of the preview has no
  -- dot, slash or colon.
  pub share_token-none :
      (now pk : ℕ) (kind token : String) (ttl : Option ℕ)
      → IsHexDigest hmac
      → lacks b'.' kind ≡ true
      → lacks b'/' kind ≡ true
      → lacks b':' kind ≡ true
      → build_preview_token hmac s now kind pk ttl ≡ ok token
      → (parse_atlas_preview_token hmac s token ≡ ok none)
        × ((purpose version locale exp : String)
            → capability_message purpose version locale exp
              ≢ share_message kind pk (now + chosen_ttl s ttl))
  unfolding parse_atlas_preview_token
  share_token-none now pk kind token ttl hex dotless slashless colonless built =
      let (signature, parts) =
        build-joined hmac s now pk kind token ttl hex dotless slashless built in
      (
        elim (Bool-cases (token == "")) [
          | inl empty ↦ rw empty refl
          | inr full ↦ rw (full, parts) refl
        ],
        λ purpose version locale exp.
            capability_message-share purpose version locale exp kind pk (now + chosen_ttl s ttl)
              colonless,
      )

-- ===== src/Preview/Share.antt =====
-- apps/content/preview_token.py: the token of a shared preview, `kind.pk.exp.signature`. Texts are
-- read as far as Latin-1.
pub mod Message
pub mod Laws
use taha_mohammadi_platform.Prelude.{
  ℕ, ◌+◌, String, Option, none, some, List, [], ◌∷◌, Bool, true, false, not, ◌&&◌, ◌||◌, ◌==◌, ◌<>◌,
  ltb, if◌then◌else◌, Result, ok, err, ◌>>=◌,
}
use taha_mohammadi_platform.Prelude.Text.{or_else, compare_digest}
use taha_mohammadi_platform.Prelude.Split.{split, strip_char}
use taha_mohammadi_platform.Prelude.Decimal.{show_nat}
use taha_mohammadi_platform.Prelude.Decimal.RoundTrip.{decimal_from, isdigit}

pub data PreviewTokenStatus : Type 0 where
  valid expired invalid : PreviewTokenStatus

pub record PreviewTokenPayload : Type 0 where
  pub kind : String
  pub pk : ℕ
  pub exp : ℕ

-- The settings that the module reads; an absent one is `none`.
pub record PreviewSettings : Type 0 where
  pub preview_share_secret : Option String
  pub secret_key : Option String
  pub preview_share_ttl_seconds : Option ℕ

-- An exception: Raised, or the TypeError of `hmac.compare_digest`.
pub data Raised : Type 0 where
  value_error type_error : Raised

-- `_preview_secret`
unfoldable pub preview_secret : PreviewSettings → String
preview_secret s = or_else s.preview_share_secret (or_else s.secret_key "")

abbrev pub default_ttl_seconds : ℕ
default_ttl_seconds = 900

unfoldable pub preview_ttl_seconds : PreviewSettings → ℕ
preview_ttl_seconds s = elim s.preview_share_ttl_seconds [
  | none ↦ default_ttl_seconds
  | some ttl ↦ ttl
]

-- The signed text of `_sign`.
unfoldable pub share_message : String → ℕ → ℕ → String
share_message kind pk exp =
    "preview" <> (":" <> (kind <> (":" <> (show_nat pk <> (":" <> show_nat exp)))))

abbrev pub chosen_ttl : PreviewSettings → Option ℕ → ℕ
chosen_ttl s none = preview_ttl_seconds s
chosen_ttl s (some ttl) = ttl

-- `len(parts) != 4`
abbrev pub four_parts : List String → Option (String × String × String × String)
four_parts (a ∷ b ∷ c ∷ d ∷ []) = some (a, b, c, d)
four_parts _ = none

-- `int(raw)` of a text that passed `isdigit`.
abbrev pub int_of : String → Result Raised ℕ
int_of raw = elim (decimal_from 0 raw) [ none ↦ err value_error | some n ↦ ok n ]

-- `hmac` is HMAC-SHA256 of a key and a message, in hexadecimal.
module _ (hmac : String → String → String) where
  unfoldable pub sign : String → String → ℕ → ℕ → String
  sign secret kind pk exp = hmac secret (share_message kind pk exp)

  unfoldable pub build_preview_token :
      PreviewSettings → ℕ → String → ℕ → Option ℕ → Result Raised String
  build_preview_token s now kind pk ttl_seconds =
      let exp = now + chosen_ttl s ttl_seconds in
      if preview_secret s == ""
      then err value_error
      else ok (
          kind
          <> ("."
              <> (show_nat pk
                  <> ("." <> (show_nat exp <> ("." <> sign (preview_secret s) kind pk exp))))))

  -- What is decided once the numbers are read.
  unfoldable pub verdict :
      String
      → ℕ
      → String
      → ℕ
      → ℕ
      → String
      → Result Raised (PreviewTokenStatus × Option PreviewTokenPayload)
  verdict secret now kind pk exp signature =
      elim (compare_digest signature (sign secret kind pk exp)) [
        | none ↦ err type_error
        | some same ↦
            if not same
            then ok (invalid, none)
            else if ltb exp now
            then ok (expired, some (record { kind = kind; pk = pk; exp = exp }))
            else ok (valid, some (record { kind = kind; pk = pk; exp = exp }))
      ]

  unfoldable pub parse_parts :
      String
      → ℕ
      → String
      → String
      → String
      → String
      → Result Raised (PreviewTokenStatus × Option PreviewTokenPayload)
  parse_parts secret now kind pk_raw exp_raw signature =
      if kind == "" || (not (isdigit pk_raw) || (not (isdigit exp_raw) || signature == ""))
      then ok (invalid, none)
      else do pk ← int_of pk_raw; exp ← int_of exp_raw; verdict secret now kind pk exp signature

  unfoldable pub parse_preview_token :
      PreviewSettings → ℕ → String → Result Raised (PreviewTokenStatus × Option PreviewTokenPayload)
  parse_preview_token s now token =
      if preview_secret s == "" || token == ""
      then ok (invalid, none)
      else elim (four_parts (split b'.' (strip_char b'/' token))) [
        | none ↦ ok (invalid, none)
        | some (kind, pk_raw, exp_raw, signature) ↦
            parse_parts (preview_secret s) now kind pk_raw exp_raw signature
      ]

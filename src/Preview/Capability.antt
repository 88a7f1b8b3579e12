-- ===== src/Preview/Capability.antt =====
-- apps/atlas/preview_tokens.py: the token of a draft preview of the Atlas,
-- `purpose.version.locale.exp.signature`. Texts are read as far as Latin-1.
pub mod Scope
use taha_mohammadi_platform.Prelude.{
  ℕ, ◌+◌, String, Option, none, some, List, [], ◌∷◌, Bool, true, false, not, ◌&&◌, ◌||◌, ◌==◌, ◌<>◌,
  if◌then◌else◌, Result, ok, err, ◌>>=◌,
}
use taha_mohammadi_platform.Prelude.Text.{compare_digest}
use taha_mohammadi_platform.Prelude.Split.{split, strip_char}
use taha_mohammadi_platform.Prelude.Decimal.{show_nat}
use taha_mohammadi_platform.Prelude.Decimal.RoundTrip.{isdigit}
use taha_mohammadi_platform.Preview.Share.{
  PreviewSettings, Raised, value_error, type_error, preview_secret, int_of,
}

abbrev pub atlas_preview_purpose : String
atlas_preview_purpose = "atlas-preview"

pub record AtlasPreviewCapability : Type 0 where
  pub version_id : ℕ
  pub locale : String
  pub purpose : String
  pub exp : ℕ

-- The signed text, of a purpose and the texts of the fields.
unfoldable pub capability_message : String → String → String → String → String
capability_message purpose version locale exp =
    "preview" <> (":" <> (purpose <> (":" <> (version <> (":" <> (locale <> (":" <> exp)))))))

-- `len(segments) != 5`
abbrev pub five_parts : List String → Option (String × String × String × String × String)
five_parts (a ∷ b ∷ c ∷ d ∷ e ∷ []) = some (a, b, c, d, e)
five_parts _ = none

module _ (hmac : String → String → String) where
  unfoldable pub build_atlas_preview_token :
      PreviewSettings → ℕ → ℕ → String → ℕ → Result Raised String
  build_atlas_preview_token s now version_id locale ttl_seconds =
      let exp = show_nat (now + ttl_seconds) in
      let signature =
        hmac (preview_secret s)
          (capability_message atlas_preview_purpose (show_nat version_id) locale exp) in
      if preview_secret s == ""
      then err value_error
      else ok (
          atlas_preview_purpose
          <> ("."
              <> (show_nat version_id
                  <> ("." <> (locale <> ("." <> (exp <> ("." <> signature))))))))

  unfoldable pub read_segments :
      PreviewSettings
      → String
      → String
      → String
      → String
      → String
      → Result Raised (Option AtlasPreviewCapability)
  read_segments s purpose version_raw locale exp_raw signature =
      if not (isdigit version_raw) || (not (isdigit exp_raw) || locale == "")
      then ok none
      else if preview_secret s == ""
      then ok none
      else do
        version_id ← int_of version_raw
        exp ← int_of exp_raw
        let expected =
            hmac (preview_secret s) (capability_message purpose version_raw locale exp_raw)
        elim (compare_digest signature expected) [
          | none ↦ err type_error
          | some same ↦ ok (
              if same
              then some (record {
                version_id = version_id;
                locale = locale;
                purpose = purpose;
                exp = exp;
              })
              else none)
        ]

  unfoldable pub parse_atlas_preview_token :
      PreviewSettings → String → Result Raised (Option AtlasPreviewCapability)
  parse_atlas_preview_token s token =
      if token == "" then ok none else elim (five_parts (split b'.' (strip_char b'/' token))) [
        | none ↦ ok none
        | some (purpose, version_raw, locale, exp_raw, signature) ↦
            read_segments s purpose version_raw locale exp_raw signature
      ]

-- ===== src/Preview/Examples.antt =====
-- The theorems of the preview tokens, at a digest that is the same two characters for every message.
use taha_mohammadi_platform.Prelude.{
  ◌≤◌, String, none, some, ◌≡◌, ◌≢◌, refl, ok, err, true, false, ◌==◌,
}
use taha_mohammadi_platform.Prelude.Text.{or_else, compare_digest, is_ascii}
use taha_mohammadi_platform.Prelude.Split.{split, strip_char, lacks}
use taha_mohammadi_platform.Prelude.Decimal.{show_nat}
use taha_mohammadi_platform.Prelude.Decimal.RoundTrip.{decimal_from, isdigit}
use taha_mohammadi_platform.Preview.Share.{
  PreviewSettings, PreviewTokenPayload, valid, value_error, type_error, preview_secret,
  preview_ttl_seconds, share_message, sign, build_preview_token, verdict, parse_parts,
  parse_preview_token,
}
use taha_mohammadi_platform.Preview.Share.Message.{share_message_injective}
use taha_mohammadi_platform.Preview.Share.Laws.{
  IsHexDigest, reading, SignedParts, parse-build, parse-valid, parse-raises,
}
use taha_mohammadi_platform.Preview.Capability.{
  AtlasPreviewCapability, capability_message, read_segments, parse_atlas_preview_token,
}
use taha_mohammadi_platform.Preview.Capability.Scope.{
  share_token-none, SignedSegments, parse_atlas_preview_token-some,
}

abbrev digest : String → String → String
digest key message = "ab"

abbrev settings : PreviewSettings
settings = record {
  preview_share_secret = none;
  secret_key = some "k";
  preview_share_ttl_seconds = none;
}

abbrev payload : PreviewTokenPayload
payload = record { kind = "hero"; pk = 7; exp = 905 }

abbrev capability : AtlasPreviewCapability
capability = record { version_id = 3; locale = "fa"; purpose = "atlas-preview"; exp = 905 }

hex : IsHexDigest digest
unfolding lacks is_ascii
hex key message = (refl, refl, refl, refl)

hero_lacks : (lacks b'.' "hero" ≡ true) × (lacks b'/' "hero" ≡ true) × (lacks b':' "hero" ≡ true)
unfolding lacks
hero_lacks = (refl, refl, refl)

built : build_preview_token digest settings 5 "hero" 7 none ≡ ok "hero.7.905.ab"
unfolding build_preview_token preview_secret or_else sign share_message show_nat preview_ttl_seconds
built = refl

accepted : parse_preview_token digest settings 905 "/hero.7.905.ab" ≡ ok (valid, some payload)
unfolding parse_preview_token parse_parts verdict preview_secret or_else sign split strip_char lacks
    isdigit decimal_from compare_digest is_ascii
accepted = refl

verified :
    parse_atlas_preview_token digest settings "atlas-preview.3.fa.905.ab" ≡ ok (some capability)
unfolding parse_atlas_preview_token read_segments preview_secret or_else split strip_char isdigit
    decimal_from compare_digest is_ascii
verified = refl

parse-build_example :
    parse_preview_token digest settings 906 "hero.7.905.ab"
    ≡ ok (reading digest settings 906 payload)
unfolding preview_ttl_seconds
parse-build_example =
    parse-build digest settings 5 906 7 "hero" "hero.7.905.ab" none hex refl (hero_lacks.0)
      (hero_lacks.1) built

parse-valid_example :
    ((preview_secret settings == "") ≡ false)
    × SignedParts digest settings (split b'.' (strip_char b'/' "/hero.7.905.ab")) payload
    × (905 ≤ 905)
parse-valid_example = parse-valid digest settings 905 "/hero.7.905.ab" payload accepted

secret_set : (preview_secret settings == "") ≡ false
unfolding preview_secret or_else
secret_set = refl

parse-raises_example : parse_preview_token digest settings 5 "hero.7².905.ab" ≡ err value_error
unfolding show_nat lacks
parse-raises_example =
    parse-raises digest settings 5 7 905 "hero" "ab" secret_set refl (hero_lacks.0) (hero_lacks.1)
      refl refl refl

-- A signature that is not ASCII makes `hmac.compare_digest` raise.
odd_signature : parse_preview_token digest settings 5 "hero.7.905.é" ≡ err type_error
unfolding parse_preview_token parse_parts verdict preview_secret or_else split strip_char lacks
    isdigit decimal_from compare_digest is_ascii
odd_signature = refl

odd_capability :
    parse_atlas_preview_token digest settings "atlas-preview.3.fa.905.é" ≡ err type_error
unfolding parse_atlas_preview_token read_segments preview_secret or_else split strip_char isdigit
    decimal_from compare_digest is_ascii
odd_capability = refl

abbrev hero_kind : String
hero_kind = "hero"

share_message_injective_example :
    (hero_kind ≡ hero_kind) × (payload.pk ≡ payload.pk) × (payload.exp ≡ payload.exp)
share_message_injective_example =
    share_message_injective "hero" "hero" 7 7 905 905 (hero_lacks.2) (hero_lacks.2) refl

share_token-none_example :
    (parse_atlas_preview_token digest settings "hero.7.905.ab" ≡ ok none)
    × ((purpose version locale exp : String)
        → capability_message purpose version locale exp ≢ share_message "hero" 7 905)
unfolding preview_ttl_seconds
share_token-none_example =
    share_token-none digest settings 5 7 "hero" "hero.7.905.ab" none hex (hero_lacks.0)
      (hero_lacks.1) (hero_lacks.2) built

parse_atlas_preview_token-some_example :
    ((preview_secret settings == "") ≡ false)
    × SignedSegments digest settings
        (split b'.' (strip_char b'/' "atlas-preview.3.fa.905.ab"))
        capability
parse_atlas_preview_token-some_example =
    parse_atlas_preview_token-some digest settings "atlas-preview.3.fa.905.ab" capability verified

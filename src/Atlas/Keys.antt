-- ===== src/Atlas/Keys.antt =====
-- The grammar of public keys: apps/atlas/keys.py, and for composed keys apps/atlas/models.py.
use Prim.Native.Char.{code}
use Prim.Native.String.{count}
use taha_mohammadi_platform.Prelude.{
  ℕ, String, List, [], ◌∷◌, Bool, true, false, not, ◌&&◌, ◌||◌, leb, eqb, ◌==◌,
}
use taha_mohammadi_platform.Prelude.Split.{split, lacks}

-- `[a-z0-9]`
abbrev pub is_plain : ℕ → Bool
is_plain c = leb b'a' c && leb c b'z' || leb b'0' c && leb c b'9'

-- `[a-z0-9._~-]`
abbrev pub is_key_char : ℕ → Bool
is_key_char c = is_plain c || (eqb c b'.' || (eqb c b'_' || (eqb c b'~' || eqb c b'-')))

unfoldable pub all_key_chars : String → Bool
all_key_chars String.[] = true
all_key_chars (String.◌∷◌ c s) = is_key_char (code c) && all_key_chars s

abbrev pub starts_plain : String → Bool
starts_plain String.[] = false
starts_plain (String.◌∷◌ c s) = is_plain (code c)

-- `is_valid_public_key`
unfoldable pub is_valid_public_key : String → Bool
is_valid_public_key s = starts_plain s && (all_key_chars s && (leb 2 (count s) && leb (count s) 80))

-- `[a-z0-9-]+`
unfoldable pub all_taxonomy_chars : String → Bool
all_taxonomy_chars String.[] = true
all_taxonomy_chars (String.◌∷◌ c s) =
    (is_plain (code c) || eqb (code c) b'-') && all_taxonomy_chars s

abbrev pub is_taxonomy_key : String → Bool
unfolding all_taxonomy_chars
is_taxonomy_key s = not (s == "") && all_taxonomy_chars s

abbrev pub three_segments : List String → Bool
unfolding is_valid_public_key all_taxonomy_chars
three_segments (source ∷ type ∷ target ∷ []) =
    is_valid_public_key source && (is_valid_public_key target && is_taxonomy_key type)
three_segments _ = false

-- `is_valid_relation_public_key`
unfoldable pub is_valid_relation_public_key : String → Bool
is_valid_relation_public_key s = three_segments (split b'~' s)

-- `_is_payload_entity_key`
unfoldable pub is_payload_entity_key : String → Bool
is_payload_entity_key s = lacks b'~' s && is_valid_public_key s

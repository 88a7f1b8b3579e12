-- ===== src/Media/Upload.antt =====
-- apps/media/sniff.py and apps/media/validators.py: the type of a file by its content, and the two
-- validators of an upload. The bytes of a file are a text of characters below 256. `guess` is
-- `filetype.guess` of the package filetype, and `splitext` the extension of `os.path.splitext`.
pub mod Accepted
use Prim.Native.Char.{code}
use taha_mohammadi_platform.Prelude.{
  ℕ, zero, suc, String, Option, none, some, List, [], ◌∷◌, ◌++◌, Bool, true, false, not, ◌&&◌, ◌||◌,
  ◌==◌, ltb, leb, eqb, if◌then◌else◌, Result, ok, err, ◌>>=◌, ◌>>◌, require,
}
use taha_mohammadi_platform.Prelude.Lists.{contains, text_eq}
use taha_mohammadi_platform.Prelude.Text.{clip, or_else}
use taha_mohammadi_platform.Prelude.Decimal.{lower}

-- `value`: its content, its name and its size.
pub record Upload : Type 0 where
  pub content : String
  pub name : String
  pub size : ℕ

pub data ValidationError : Type 0 where
  unsupported_type extension_mismatch too_large_av too_large : ValidationError

-- `s.startswith(prefix)`
unfoldable pub starts_with : String → String → Bool
starts_with s String.[] = true
starts_with String.[] (String.◌∷◌ c prefix) = false
starts_with (String.◌∷◌ d s) (String.◌∷◌ c prefix) = eqb (code d) (code c) && starts_with s prefix

-- `token in s`
unfoldable pub has_token : String → String → Bool
has_token token String.[] = starts_with "" token
has_token token (String.◌∷◌ c s) = starts_with (String.◌∷◌ c s) token || has_token token s

-- What stands after the first `?>`, if there is one.
unfoldable pub after_declaration : String → Option String
after_declaration String.[] = none
after_declaration (String.◌∷◌ c s) =
    let later = after_declaration s in
    if starts_with (String.◌∷◌ c s) "?>" then some (after_first s) else later
  where
    after_first : String → String
    after_first String.[] = ""
    after_first (String.◌∷◌ _ rest) = rest

-- `lstrip(chars)` of bytes, by the test of its characters.
unfoldable pub lstrip_by : (ℕ → Bool) → String → String
lstrip_by p String.[] = ""
lstrip_by p (String.◌∷◌ c s) =
    let rest = lstrip_by p s in if p (code c) then rest else String.◌∷◌ c s

-- The white space of bytes, and the bytes of a byte order mark.
abbrev pub is_byte_space : ℕ → Bool
is_byte_space c = leb 9 c && leb c 13 || eqb c 32

abbrev pub is_mark : ℕ → Bool
is_mark c = eqb c 0xef || (eqb c 0xbb || eqb c 0xbf)

-- `_looks_like_svg`
unfoldable pub looks_like_svg : String → Bool
looks_like_svg head =
    let t = lstrip_by is_byte_space (lstrip_by is_mark head) in
    if starts_with (lower t) "<?xml"
    then elim (after_declaration t) [
      | none ↦ false
      | some rest ↦ starts_with (lower (lstrip_by is_byte_space rest)) "<svg"
    ]
    else starts_with (lower t) "<svg"

abbrev pub svg_mime : String
svg_mime = "image/svg+xml"

-- `_SVG_FORBIDDEN`
abbrev pub svg_forbidden : List String
svg_forbidden = "<script" ∷ "javascript:" ∷ "onload=" ∷ "onerror=" ∷ "<foreignobject" ∷ []

unfoldable pub any_token : List String → String → Bool
any_token [] s = false
any_token (token ∷ tokens) s = has_token token s || any_token tokens s

unfoldable pub svg_is_safe : String → Bool
svg_is_safe payload = not (any_token svg_forbidden (lower payload))

-- ALLOWED_MIMES
abbrev pub allowed_mimes : List String
allowed_mimes =
    "image/jpeg" ∷ "image/png" ∷ "image/gif" ∷ "image/svg+xml" ∷ "application/pdf" ∷ "video/mp4"
    ∷ "video/webm" ∷ "audio/mpeg" ∷ "audio/mp4" ∷ "audio/ogg" ∷ "audio/wav" ∷ "audio/x-wav"
    ∷ "audio/webm" ∷ []

-- `MIME_TO_EXTENSIONS.get(mime, set())`
unfoldable pub extensions_of : String → List String
extensions_of mime =
    if mime == "image/jpeg"
    then ".jpg" ∷ ".jpeg" ∷ []
    else if mime == "image/png"
    then ".png" ∷ []
    else if mime == "image/gif"
    then ".gif" ∷ []
    else if mime == "image/svg+xml"
    then ".svg" ∷ []
    else if mime == "application/pdf"
    then ".pdf" ∷ []
    else if mime == "video/mp4"
    then ".mp4" ∷ ".m4v" ∷ []
    else if mime == "video/webm"
    then ".webm" ∷ []
    else if mime == "audio/mpeg"
    then ".mp3" ∷ []
    else if mime == "audio/mp4"
    then ".m4a" ∷ ".mp4" ∷ []
    else if mime == "audio/ogg"
    then ".ogg" ∷ ".oga" ∷ []
    else if mime == "audio/wav" || mime == "audio/x-wav"
    then ".wav" ∷ []
    else if mime == "audio/webm"
    then ".weba" ∷ ".webm" ∷ []
    else []

abbrev pub max_file_size : ℕ
max_file_size = 5242880

abbrev pub max_av_file_size : ℕ
max_av_file_size = 52428800

-- `mime in AV_MIMES`
unfoldable pub is_av : String → Bool
is_av mime = contains allowed_mimes mime && (starts_with mime "video/" || starts_with mime "audio/")

unfoldable pub limit_for_mime : String → ℕ
limit_for_mime mime = if is_av mime then max_av_file_size else max_file_size

module _ (guess : String → Option String) (splitext : String → String) where
  unfoldable pub sniff_mime : String → Option String
  sniff_mime content =
      let head = clip 2048 content in
      elim (guess head) [
        | some mime ↦ some mime
        | none ↦ if looks_like_svg head then some svg_mime else none
      ]

  unfoldable pub validate_file_type : Upload → Result ValidationError (Unit {0})
  validate_file_type u = elim (sniff_mime u.content) [
    | none ↦ err unsupported_type
    | some mime ↦
        require (contains allowed_mimes mime) unsupported_type
        >> (require (not (mime == svg_mime && not (svg_is_safe u.content))) unsupported_type
            >> require (contains (extensions_of mime) (lower (splitext u.name))) extension_mismatch)
  ]

  unfoldable pub validate_file_size : Upload → Result ValidationError (Unit {0})
  validate_file_size u =
      let mime = or_else (sniff_mime u.content) "" in
      if ltb (limit_for_mime mime) u.size
      then err (if is_av mime then too_large_av else too_large)
      else ok tt

-- `mime_family`
unfoldable pub mime_family : String → String
mime_family mime =
    let value = lower mime in
    if starts_with value "image/"
    then "image"
    else if starts_with value "video/"
    then "video"
    else if starts_with value "audio/"
    then "audio"
    else if value == "application/pdf"
    then "pdf"
    else "other"

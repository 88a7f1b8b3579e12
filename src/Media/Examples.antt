-- ===== src/Media/Examples.antt =====
-- The theorem on uploads, at a small SVG file.
use taha_mohammadi_platform.Prelude.{String, Option, none, ◌≡◌, refl, ok}
use taha_mohammadi_platform.Prelude.Lists.{contains}
use taha_mohammadi_platform.Prelude.Text.{clip, or_else}
use taha_mohammadi_platform.Prelude.Decimal.{lower}
use taha_mohammadi_platform.Media.Upload.{
  Upload, starts_with, has_token, any_token, lstrip_by, after_declaration, looks_like_svg,
  svg_is_safe, extensions_of, is_av, limit_for_mime, sniff_mime, validate_file_type,
  validate_file_size,
}
use taha_mohammadi_platform.Media.Upload.Accepted.{IsAccepted, validators-IsAccepted}

abbrev no_guess : String → Option String
no_guess head = none

abbrev extension : String → String
extension name = ".SVG"

-- The handler has a space before its equals sign, which no forbidden text covers.
abbrev drawing : Upload
drawing = record { content = " <SVG onload =x>"; name = "a.SVG"; size = 16 }

typed : validate_file_type no_guess extension drawing ≡ ok tt
unfolding validate_file_type sniff_mime looks_like_svg lstrip_by starts_with lower clip
    after_declaration contains svg_is_safe any_token has_token extensions_of
typed = refl

sized : validate_file_size no_guess extension drawing ≡ ok tt
unfolding validate_file_size sniff_mime looks_like_svg lstrip_by starts_with lower clip
    after_declaration contains limit_for_mime is_av or_else
sized = refl

validators-IsAccepted_example : (mime : String) × IsAccepted no_guess extension drawing mime
validators-IsAccepted_example = validators-IsAccepted no_guess extension drawing typed sized

-- ===== src/Prelude/Text.antt =====
-- Python's `str` operations that the program relies on, over the native texts.
use Prim.Native.Nat.{ℕ, zero, suc, ◌+◌, ◌≤◌}
use Prim.Native.Char.{code}
use Prim.Native.String.{String, count}
use mathlib.Core.Path.{◌≡◌, refl}
use mathlib.Core.Bool.{Bool, true, false, not, ◌&&◌, ◌||◌}
use mathlib.Core.Option.{Option, none, some}
use mathlib.Core.List.{List, [], ◌∷◌}
use native.Mathlib.Omega.{arith}
use text.Mathlib.Text.{◌==◌}
use text.Mathlib.TextEquality.{eq_iff}
use text.Mathlib.TextLemmas.{length-cons, length-nil}
use taha_mohammadi_platform.Prelude.Tests.{if◌then◌else◌, leb, eqb}

-- `x or default` where `x` may be `None` or empty.
unfoldable pub or_else : Option String → String → String
or_else none d = d
or_else (some s) d = if s == "" then d else s

-- `bool(x)` where `x` may be `None`.
unfoldable pub truthy : Option String → Bool
truthy none = false
truthy (some s) = not (s == "")

-- `str.isspace` of one character.
unfoldable pub is_space : ℕ → Bool
is_space c =
    leb 9 c && leb c 13
    || leb 28 c && leb c 32
    || eqb c 0x85
    || eqb c 0xa0
    || eqb c 0x1680
    || leb 0x2000 c && leb c 0x200a
    || eqb c 0x2028
    || eqb c 0x2029
    || eqb c 0x202f
    || eqb c 0x205f
    || eqb c 0x3000

-- `not s.strip()`
unfoldable pub is_blank : String → Bool
unfolding is_space
is_blank String.[] = true
is_blank (String.◌∷◌ c s) = is_space (code c) && is_blank s

lstrip : String → String
lstrip String.[] = ""
lstrip (String.◌∷◌ c s) = let rest = lstrip s in if is_space (code c) then rest else String.◌∷◌ c s

rstrip : String → String
rstrip String.[] = ""
rstrip (String.◌∷◌ c s) =
    let rest = rstrip s in if is_space (code c) && is_blank s then "" else String.◌∷◌ c rest

-- `s.strip()`
unfoldable pub strip : String → String
unfolding lstrip rstrip is_blank is_space
strip s = rstrip (lstrip s)

unfoldable pub is_ascii : String → Bool
is_ascii String.[] = true
is_ascii (String.◌∷◌ c s) = leb (code c) 127 && is_ascii s

-- `hmac.compare_digest(a, b)` of two texts; `none` is the TypeError of a text that is not ASCII.
unfoldable pub compare_digest : String → String → Option Bool
compare_digest a b = if is_ascii a && is_ascii b then some (a == b) else none

-- What a comparison that found its texts equal has shown.
pub compare_digest-true :
    (a b : String) → compare_digest a b ≡ some true → (a ≡ b) × (is_ascii a ≡ true)
unfolding compare_digest
compare_digest-true a b h = ground (arith, eq_iff a b)

pub compare_digest-none :
    (a b : String) → compare_digest a b ≡ none → is_ascii b ≡ true → is_ascii a ≡ false
unfolding compare_digest
compare_digest-none a b h plain = ground arith

pub compare_digest-same : (a : String) → is_ascii a ≡ true → compare_digest a a ≡ some true
unfolding compare_digest
compare_digest-same a h = ground (arith, eq_iff a a)

-- `s[:n]`, by characters.
unfoldable pub clip : ℕ → String → String
clip zero s = ""
clip (suc n) String.[] = ""
clip (suc n) (String.◌∷◌ c s) = String.◌∷◌ c (clip n s)

pub count-clip-le : (n : ℕ) (s : String) → count (clip n s) ≤ n
unfolding clip
count-clip-le zero s = omega (arith, length-nil)
count-clip-le (suc n) String.[] = omega (arith, length-nil)
count-clip-le (suc n) (String.◌∷◌ c s) = omega (arith, length-cons c (clip n s), count-clip-le n s)

-- The code points of a text.
unfoldable pub codes : String → List ℕ
codes String.[] = []
codes (String.◌∷◌ c s) = code c ∷ codes s

-- One character of `str.lower`, for ASCII letters.
abbrev lower_code : ℕ → ℕ
lower_code c = if leb b'A' c && leb c b'Z' then c + 32 else c

-- `s.lower()`, for ASCII letters; other characters are kept.
lower : String → List ℕ
lower String.[] = []
lower (String.◌∷◌ c s) = lower_code (code c) ∷ lower s

-- `replace("_", "-")`
dashes : List ℕ → List ℕ
dashes [] = []
dashes (c ∷ cs) = (if eqb c b'_' then b'-' else c) ∷ dashes cs

-- `str(s).lower().replace("_", "-")`
unfoldable pub normalize : String → List ℕ
unfolding lower dashes
normalize s = dashes (lower s)

codes_equal : List ℕ → List ℕ → Bool
codes_equal [] [] = true
codes_equal (c ∷ cs) (d ∷ ds) = eqb c d && codes_equal cs ds
codes_equal _ _ = false

-- Whether a list of code points spells the given text.
unfoldable pub spells : List ℕ → String → Bool
unfolding codes codes_equal
spells cs s = codes_equal cs (codes s)

normalize_runs : spells (normalize "Research_Topic") "research-topic" ≡ true
unfolding normalize spells
normalize_runs = refl

strip_runs : strip "  a b \n" ≡ "a b"
unfolding strip
strip_runs = refl

-- ===== src/Prelude/Decimal.antt =====
-- Python's `str(n)`, `int(s)` and `s.upper()`, as far as the signed requests use them. Only ASCII
-- digits and letters are read as such.
pub mod RoundTrip
use Prim.Native.Nat.{◌/◌, ◌%◌}
use Prim.Native.Char.{Char, code}
use taha_mohammadi_platform.Prelude.{
  ℕ, zero, suc, ◌+◌, ◌-◌, ◌*◌, String, Option, none, some, List, [], ◌∷◌, Bool, true, false, ◌&&◌,
  ◌≡◌, refl, ◌<>◌, ltb, leb, eqb, if◌then◌else◌,
}
use taha_mohammadi_platform.Prelude.Text.{codes, strip}

-- A Python integer: `negsuc n` is -(n + 1).
pub data ℤ : Type 0 where
  pos : ℕ → ℤ
  negsuc : ℕ → ℤ

abbrev pub negated : ℕ → ℤ
negated zero = pos zero
negated (suc n) = negsuc n

-- abs(n - i) for a natural n.
unfoldable pub distance : ℕ → ℤ → ℕ
distance n (pos t) = (n - t) + (t - n)
distance n (negsuc t) = n + suc t

abbrev is_digit : ℕ → Bool
is_digit c = leb b'0' c && leb c b'9'

-- Digits with single underscores between them. `after_digit` says what the last character was.
digits_value : ℕ → Bool → List ℕ → Option ℕ
digits_value acc after_digit [] = if after_digit then some acc else none
digits_value acc after_digit (c ∷ cs) = elim (is_digit c) [
  | true ↦ digits_value (acc * 10 + (c - b'0')) true cs
  | false ↦ elim (eqb c b'_' && after_digit) [ true ↦ digits_value acc false cs | false ↦ none ]
]

abbrev as_int : (ℕ → ℤ) → Option ℕ → Option ℤ
as_int f none = none
as_int f (some n) = some (f n)

signed_value : List ℕ → Option ℤ
unfolding digits_value
signed_value [] = none
signed_value (c ∷ cs) =
    if eqb c b'-'
    then as_int negated (digits_value 0 false cs)
    else if eqb c b'+'
    then as_int pos (digits_value 0 false cs)
    else as_int pos (digits_value 0 false (c ∷ cs))

-- `int(s)`; `none` is ValueError.
unfoldable pub parse_int : String → Option ℤ
unfolding signed_value strip codes
parse_int s = signed_value (codes (strip s))

-- The character of `to` at the place of `c` in `from`, or `c`.
translate : Char → String → String → Char
translate c String.[] to = c
translate c (String.◌∷◌ a from) String.[] = c
translate c (String.◌∷◌ a from) (String.◌∷◌ b to) =
    let rest = translate c from to in if eqb (code c) (code a) then b else rest

-- `s.upper()`
unfoldable pub upper : String → String
unfolding translate
upper String.[] = ""
upper (String.◌∷◌ c s) =
    String.◌∷◌ (translate c "abcdefghijklmnopqrstuvwxyz" "ABCDEFGHIJKLMNOPQRSTUVWXYZ") (upper s)

-- `s.lower()`
unfoldable pub lower : String → String
unfolding translate
lower String.[] = ""
lower (String.◌∷◌ c s) =
    String.◌∷◌ (translate c "ABCDEFGHIJKLMNOPQRSTUVWXYZ" "abcdefghijklmnopqrstuvwxyz") (lower s)

digit_text : ℕ → String
digit_text n =
    if eqb n 0
    then "0"
    else if eqb n 1
    then "1"
    else if eqb n 2
    then "2"
    else if eqb n 3
    then "3"
    else if eqb n 4
    then "4"
    else if eqb n 5
    then "5"
    else if eqb n 6
    then "6"
    else if eqb n 7
    then "7"
    else if eqb n 8
    then "8"
    else "9"

-- The digits of `n`, with fuel for its number of digits; `n + 1` is always enough.
digits_text : ℕ → ℕ → String
digits_text zero n = ""
digits_text (suc fuel) n =
    let front = digits_text fuel (n / 10) in
    if ltb n 10 then digit_text n else front <> digit_text (n % 10)

-- `str(n)` of a natural number, and of an integer.
unfoldable pub show_nat : ℕ → String
unfolding digits_text digit_text
show_nat n = digits_text (suc n) n

unfoldable pub show_int : ℤ → String
unfolding show_nat
show_int (pos n) = show_nat n
show_int (negsuc n) = "-" <> show_nat (suc n)

decimal_runs :
    (parse_int " 1_700\n" ≡ some (pos 1700))
    × (parse_int "1__7" ≡ none)
    × (show_nat 1700 ≡ "1700")
    × (upper "get /a" ≡ "GET /A")
unfolding parse_int show_nat upper
decimal_runs = (refl, refl, refl, refl)

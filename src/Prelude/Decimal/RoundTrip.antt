-- ===== src/Prelude/Decimal/RoundTrip.antt =====
-- `int(str(n))`, and what the digits of a number are made of.
use Prim.Native.Nat.{◌/◌, ◌%◌, ◌<◌, ◌≤◌}
use Prim.Native.Char.{code}
use text.Mathlib.TextLemmas.{cons-append, nil-append}
use taha_mohammadi_platform.Prelude.{
  ℕ, zero, suc, ◌+◌, ◌-◌, ◌*◌, String, Option, none, some, Bool, true, false, ◌&&◌, ◌||◌, not, ◌==◌,
  ◌≡◌, refl, sym, ap, ◌∙◌, eq_iff, arith, ◌<>◌, ltb, leb, eqb, if◌then◌else◌, Bool-cases, inl, inr,
}
use taha_mohammadi_platform.Prelude.Split.{lacks, lacks-append}
use taha_mohammadi_platform.Prelude.Decimal.{show_nat, digits_text, digit_text}

abbrev pub is_decimal : ℕ → Bool
is_decimal c = leb b'0' c && leb c b'9'

-- `int(s)` of a text of digits; `none` is ValueError. The superscripts of Latin-1 are digits to
-- `isdigit` and not to `int`.
unfoldable pub decimal_from : ℕ → String → Option ℕ
decimal_from acc String.[] = some acc
decimal_from acc (String.◌∷◌ c s) =
    let rest = decimal_from (acc * 10 + (code c - b'0')) s in
    if is_decimal (code c) then rest else none

-- `s.isdigit()` on Latin-1.
unfoldable pub all_digits : String → Bool
all_digits String.[] = true
all_digits (String.◌∷◌ c s) =
    (is_decimal (code c) || eqb (code c) 0xb2 || eqb (code c) 0xb3 || eqb (code c) 0xb9)
    && all_digits s

unfoldable pub isdigit : String → Bool
unfolding all_digits
isdigit s = not (s == "") && all_digits s

abbrev then_from : Option ℕ → String → Option ℕ
then_from none s = none
then_from (some v) s = decimal_from v s

decimal_from-append :
    (acc : ℕ) (s t : String) → decimal_from acc (s <> t) ≡ then_from (decimal_from acc s) t
unfolding decimal_from
decimal_from-append acc String.[] t = rw (nil-append t) refl
decimal_from-append acc (String.◌∷◌ c s) t =
    rw (cons-append c s t) (ground (arith, decimal_from-append (acc * 10 + (code c - b'0')) s t))

decimal_from-digit : (acc n : ℕ) → n < 10 → decimal_from acc (digit_text n) ≡ some (acc * 10 + n)
unfolding decimal_from digit_text
decimal_from-digit acc zero h = ap some (omega arith)
decimal_from-digit acc (suc zero) h = ap some (omega arith)
decimal_from-digit acc (suc (suc zero)) h = ap some (omega arith)
decimal_from-digit acc (suc (suc (suc zero))) h = ap some (omega arith)
decimal_from-digit acc (suc (suc (suc (suc zero)))) h = ap some (omega arith)
decimal_from-digit acc (suc (suc (suc (suc (suc zero))))) h = ap some (omega arith)
decimal_from-digit acc (suc (suc (suc (suc (suc (suc zero)))))) h = ap some (omega arith)
decimal_from-digit acc (suc (suc (suc (suc (suc (suc (suc zero))))))) h = ap some (omega arith)
decimal_from-digit acc (suc (suc (suc (suc (suc (suc (suc (suc zero)))))))) h =
    ap some (omega arith)
decimal_from-digit acc (suc (suc (suc (suc (suc (suc (suc (suc (suc zero))))))))) h =
    ap some (omega arith)
decimal_from-digit acc (suc (suc (suc (suc (suc (suc (suc (suc (suc (suc n)))))))))) h =
    absurd (omega arith)

-- Only the digits of ASCII.
decimals : String → Bool
decimals String.[] = true
decimals (String.◌∷◌ c s) = is_decimal (code c) && decimals s

decimals-append : (s t : String) → decimals (s <> t) ≡ (decimals s && decimals t)
unfolding decimals
decimals-append String.[] t = rw (nil-append t) refl
decimals-append (String.◌∷◌ c s) t = rw (cons-append c s t) (ground (arith, decimals-append s t))

decimals-digit : (n : ℕ) → n < 10 → decimals (digit_text n) ≡ true
unfolding decimals digit_text
decimals-digit zero h = refl
decimals-digit (suc zero) h = refl
decimals-digit (suc (suc zero)) h = refl
decimals-digit (suc (suc (suc zero))) h = refl
decimals-digit (suc (suc (suc (suc zero)))) h = refl
decimals-digit (suc (suc (suc (suc (suc zero))))) h = refl
decimals-digit (suc (suc (suc (suc (suc (suc zero)))))) h = refl
decimals-digit (suc (suc (suc (suc (suc (suc (suc zero))))))) h = refl
decimals-digit (suc (suc (suc (suc (suc (suc (suc (suc zero)))))))) h = refl
decimals-digit (suc (suc (suc (suc (suc (suc (suc (suc (suc zero))))))))) h = refl
decimals-digit (suc (suc (suc (suc (suc (suc (suc (suc (suc (suc n)))))))))) h =
    absurd (omega arith)

digits_text-step :
    (fuel n : ℕ)
    → (n < 10 → digits_text (suc fuel) n ≡ digit_text n)
      × (10 ≤ n → digits_text (suc fuel) n ≡ digits_text fuel (n / 10) <> digit_text (n % 10))
unfolding digits_text
digits_text-step fuel n = (λ h. ground arith, λ h. ground arith)

decimals-digits : (fuel n : ℕ) → decimals (digits_text fuel n) ≡ true
unfolding digits_text decimals
decimals-digits zero n = refl
decimals-digits (suc fuel) n = elim (Bool-cases (ltb n 10)) [
  | inl small ↦ rw small (decimals-digit n (ground arith))
  | inr big ↦
      rw
        (
          big,
          decimals-append (digits_text fuel (n / 10)) (digit_text (n % 10)),
          decimals-digits fuel (n / 10),
        )
        (decimals-digit (n % 10) (omega arith))
]

decimal_from-digits : (fuel n : ℕ) → n < fuel → decimal_from 0 (digits_text fuel n) ≡ some n
unfolding digits_text
decimal_from-digits zero n h = absurd (omega arith)
decimal_from-digits (suc fuel) n h = elim (Bool-cases (ltb n 10)) [
  | inl small ↦ rw small (decimal_from-digit 0 n (ground arith) ∙ ap some (omega arith))
  | inr big ↦
      let less : n / 10 < fuel = ground arith in
      rw
        (
          big,
          decimal_from-append 0 (digits_text fuel (n / 10)) (digit_text (n % 10)),
          decimal_from-digits fuel (n / 10) less,
        )
        (decimal_from-digit (n / 10) (n % 10) (omega arith) ∙ ap some (omega arith))
]

-- The number that a decimal numeral spells.
pub decimal_from-show_nat : (n : ℕ) → decimal_from 0 (show_nat n) ≡ some n
unfolding show_nat
decimal_from-show_nat n = decimal_from-digits (suc n) n (omega arith)

lacks-decimals : (c : ℕ) (s : String) → is_decimal c ≡ false → decimals s ≡ true → lacks c s ≡ true
unfolding lacks decimals
lacks-decimals c String.[] out h = refl
lacks-decimals c (String.◌∷◌ x s) out h = ground (arith, lacks-decimals c s)

all_digits-decimals : (s : String) → decimals s ≡ true → all_digits s ≡ true
unfolding all_digits decimals
all_digits-decimals String.[] h = refl
all_digits-decimals (String.◌∷◌ c s) h = ground (arith, all_digits-decimals s)

-- A numeral has no other character than digits.
pub lacks-show_nat : (c n : ℕ) → is_decimal c ≡ false → lacks c (show_nat n) ≡ true
unfolding show_nat
lacks-show_nat c n out = lacks-decimals c (digits_text (suc n) n) out (decimals-digits (suc n) n)

some_zero : (n : ℕ) → some 0 ≡ some (suc n) → ⊥
some_zero n h = omega (arith, some_number h)
  where
    some_number : some 0 ≡ some (suc n) → 0 ≡ suc n
    some_number e = ap (λ (o : Option ℕ). elim o [ none ↦ 0 | some v ↦ v ]) e

empty_text : (s : String) → (s == "") ≡ true → decimal_from 0 s ≡ some 0
unfolding decimal_from
empty_text s h = let e : s ≡ "" = (eq_iff s "").0 h in rw e refl

show_nat-nonempty : (n : ℕ) → (show_nat n == "") ≡ false
unfolding show_nat digits_text digit_text
show_nat-nonempty zero = refl
show_nat-nonempty (suc n) = elim (Bool-cases (show_nat (suc n) == "")) [
  | inr other ↦ other
  | inl empty ↦
      let value : some 0 ≡ some (suc n) =
        sym (empty_text (show_nat (suc n)) empty) ∙ decimal_from-show_nat (suc n) in
      absurd (some_zero n value)
]

pub isdigit-show_nat : (n : ℕ) → isdigit (show_nat n) ≡ true
unfolding show_nat isdigit
isdigit-show_nat n =
    rw
      (show_nat-nonempty n, all_digits-decimals (digits_text (suc n) n) (decimals-digits (suc n) n))
      refl

all_digits-append : (s t : String) → all_digits (s <> t) ≡ (all_digits s && all_digits t)
unfolding all_digits
all_digits-append String.[] t = rw (nil-append t) refl
all_digits-append (String.◌∷◌ c s) t =
    rw (cons-append c s t) (ground (arith, all_digits-append s t))

-- A numeral with a superscript two behind it: no number to `int`, and all digits to `isdigit`.
pub decimal_from-squared : (n : ℕ) → decimal_from 0 (show_nat n <> "²") ≡ none
unfolding decimal_from
decimal_from-squared n = rw (decimal_from-append 0 (show_nat n) "²", decimal_from-show_nat n) refl

pub isdigit-squared : (n : ℕ) → isdigit (show_nat n <> "²") ≡ true
unfolding isdigit show_nat all_digits
isdigit-squared n = elim (Bool-cases (show_nat n <> "²" == "")) [
  | inl empty ↦
      let e : none ≡ some 0 = sym (decimal_from-squared n) ∙ empty_text (show_nat n <> "²") empty in
      cc e
  | inr full ↦
      rw
        (
          full,
          all_digits-append (digits_text (suc n) n) "²",
          all_digits-decimals (digits_text (suc n) n) (decimals-digits (suc n) n),
        )
        refl
]

pub lacks-squared :
    (c n : ℕ) → is_decimal c ≡ false → lacks c "²" ≡ true → lacks c (show_nat n <> "²") ≡ true
lacks-squared c n out other =
    rw (lacks-append c (show_nat n) "²", lacks-show_nat c n out, other) refl

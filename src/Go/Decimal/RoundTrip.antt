-- ===== src/Go/Decimal/RoundTrip.antt =====
-- Atoi undoes Itoa.
use dbgp_tools.Base.{
  Bytes, All, ℕ, zero, suc, ◌+◌, ◌/◌, ◌%◌, ◌≤◌, ◌<◌, ◌≡◌, refl, ◌∙◌, some, [], ◌∷◌, arith, ◌≢◌,
}
use dbgp_tools.Base.Int.{pos}
use mathlib.Core.Path.{subst}
use dbgp_tools.Go.Decimal.{digits, format_nat, itoa, scan, unsigned, max_int, positive, bind, atoi}

scan-digits : (f n : ℕ) (out : Bytes) → n < f → scan 0 (digits f n out) ≡ scan n out
unfolding scan digits
scan-digits zero n out h = absurd (omega arith)
scan-digits (suc f) n out h = ground (arith, scan-digits f (n / 10) ((b'0' + n % 10) ∷ out))

-- The first byte of a print is a digit.
abbrev StartsWithDigit : Bytes → Type 0
StartsWithDigit [] = ⊥
StartsWithDigit (c ∷ s) = (b'0' ≤ c) × (c ≤ b'9')

digits_start : (f n : ℕ) (out : Bytes) → n < f → StartsWithDigit (digits f n out)
unfolding digits
digits_start zero n out h = absurd (omega arith)
digits_start (suc f) n out h = ground (arith, digits_start f (n / 10) ((b'0' + n % 10) ∷ out))

abbrev IsDigit : ℕ → Type 0
IsDigit c = (b'0' ≤ c) × (c ≤ b'9')

digits-All : (f n : ℕ) (out : Bytes) → All IsDigit out → All IsDigit (digits f n out)
unfolding digits
digits-All zero n out h = h
digits-All (suc f) n out h = ground (arith, digits-All f (n / 10) ((b'0' + n % 10) ∷ out))

-- A print is digits alone.
pub format_nat-All : (n : ℕ) → All IsDigit (format_nat n)
unfolding format_nat
format_nat-All n = digits-All (suc n) n [] tt

unsigned-scan : (s : Bytes) → StartsWithDigit s → unsigned s ≡ scan 0 s
unfolding unsigned
unsigned-scan [] h = absurd h
unsigned-scan (c ∷ s) h = refl

unsigned-format_nat : (n : ℕ) → unsigned (format_nat n) ≡ some n
unfolding format_nat
unsigned-format_nat n =
    unsigned-scan (digits (suc n) n []) (digits_start (suc n) n [] (omega arith))
    ∙ scan-digits (suc n) n [] (omega arith)
    ∙ unfold scan in refl

atoi-unsigned : (s : Bytes) → StartsWithDigit s → atoi s ≡ bind (unsigned s) positive
unfolding atoi
atoi-unsigned [] h = absurd h
atoi-unsigned (c ∷ s) h = ground arith

pub itoa-pos : (n : ℕ) → itoa (pos n) ≡ format_nat n
unfolding itoa
itoa-pos n = refl

format_nat_start : (n : ℕ) → StartsWithDigit (format_nat n)
unfolding format_nat
format_nat_start n = digits_start (suc n) n [] (omega arith)

-- A number in the range of `int` is read back from its print.
pub atoi-itoa : (n : ℕ) → n ≤ max_int → atoi (itoa (pos n)) ≡ some (pos n)
unfolding bind positive
atoi-itoa n h =
    rw (itoa-pos, atoi-unsigned (format_nat n) (format_nat_start n), unsigned-format_nat)
      (ground arith)

pub format_nat-ne-nil : (n : ℕ) → format_nat n ≢ []
format_nat-ne-nil n e = subst StartsWithDigit e (format_nat_start n)

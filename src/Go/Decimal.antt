-- ===== src/Go/Decimal.antt =====
-- strconv.Itoa and strconv.Atoi.
pub mod RoundTrip
use dbgp_tools.Base.{
  Bytes, ltb, leb, eqb, if◌then◌else◌, ℕ, zero, suc, ◌+◌, ◌-◌, ◌*◌, ◌/◌, ◌%◌, ◌^◌, ◌&&◌, Option,
  none, some, [], ◌∷◌,
}
use dbgp_tools.Base.Int.{ℤ, pos, negsuc}

abbrev minus : ℕ
minus = b'-'

-- The digits of `n` in front of `out`. Each round takes a digit, so `n + 1` rounds are enough.
digits : ℕ → ℕ → Bytes → Bytes
digits zero n out = out
digits (suc f) n out =
    let d = b'0' + n % 10 in
    let rest = digits f (n / 10) (d ∷ out) in if ltb n 10 then d ∷ out else rest

-- The decimal print of a number that is not negative.
unfoldable pub format_nat : ℕ → Bytes
unfolding digits
format_nat n = digits (suc n) n []

-- strconv.Itoa(i), and the verb %d of package fmt
unfoldable pub itoa : ℤ → Bytes
unfolding format_nat
itoa (pos n) = format_nat n
itoa (negsuc n) = minus ∷ format_nat (suc n)

scan : ℕ → Bytes → Option ℕ
scan n [] = some n
scan n (c ∷ s) =
    let rest = scan (n * 10 + (c - b'0')) s in if leb b'0' c && leb c b'9' then rest else none

-- One digit at least.
unsigned : Bytes → Option ℕ
unfolding scan
unsigned [] = none
unsigned (c ∷ s) = scan 0 (c ∷ s)

-- The range of Go's `int` on a 64-bit platform.
abbrev pub max_int : ℕ
max_int = 2 ^ 63 - 1

positive : ℕ → Option ℤ
positive n = if leb n max_int then some (pos n) else none

negative : ℕ → Option ℤ
negative zero = some (pos 0)
negative (suc n) = if leb n max_int then some (negsuc n) else none

bind {ℓ κ} : {A : Type ℓ} {B : Type κ} → Option A → (A → Option B) → Option B
bind none f = none
bind (some a) f = f a

-- strconv.Atoi(s); `none` stands for its errors: bad syntax, and a value out of range
unfoldable pub atoi : Bytes → Option ℤ
unfolding unsigned positive negative bind
atoi [] = none
atoi (c ∷ s) =
    if eqb c minus
    then bind (unsigned s) negative
    else if eqb c b'+'
    then bind (unsigned s) positive
    else bind (unsigned (c ∷ s)) positive

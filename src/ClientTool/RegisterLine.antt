-- ===== src/ClientTool/RegisterLine.antt =====
-- The parts of the line that registers an IDE.
use dbgp_tools.Base.{
  Bytes, codes, All, if◌then◌else◌, ℕ, ◌≤◌, ◌≡◌, refl, ap, ◌∙◌, Bool, true, false, List, [], ◌∷◌,
  ◌++◌, reverse, append_assoc, arith, Lacks, sym, inr, ◌==◌, ◌≢◌, ◌⊎◌, eq-false,
}
use mathlib.Core.List.{reverse-append, cons-ne-nil}
use dbgp_tools.Base.Int.{ℤ, pos}
use dbgp_tools.Go.Decimal.{itoa, format_nat}
use dbgp_tools.Go.Text.{join, trim_space}
use dbgp_tools.Go.Text.Laws.{trim_space-graphic, split-join}
use dbgp_tools.Command.Arguments.{flatten, flag_m, flag_k, flag_p, flag_s}
use dbgp_tools.Protocol.Client.Lines.{space, parts_of, itoa-Lacks-space}
use dbgp_tools.ClientTool.Register.{register_command}
use dbgp_tools.Go.Decimal.RoundTrip.{itoa-pos, format_nat-ne-nil, format_nat-All}
use dbgp_tools.Protocol.Client.{contains, dash_i}

-- The last byte of a text that is not empty.
abbrev IsDigit : ℕ → Type 0
IsDigit c = (b'0' ≤ c) × (c ≤ b'9')

last-IsDigit :
    (s : Bytes)
    → s ≢ []
    → All IsDigit s
    → (start : Bytes) × (d : ℕ) × (s ≡ start ++ d ∷ []) × IsDigit d
last-IsDigit [] h digits = absurd (h refl)
last-IsDigit (c ∷ []) h digits = ([], c, refl, digits.0)
last-IsDigit (c ∷ d ∷ s) h digits =
    let (start, e, same, digit) = last-IsDigit (d ∷ s) (cons-ne-nil d s) digits.1 in
    (c ∷ start, e, ap (λ r. c ∷ r) same, digit)

abbrev EndsInDigit : Bytes → Type 0
EndsInDigit s = (start : Bytes) × (d : ℕ) × (s ≡ start ++ d ∷ []) × IsDigit d

EndsInDigit-append : (p s : Bytes) → EndsInDigit s → EndsInDigit (p ++ s)
EndsInDigit-append p s (start, d, e, h) =
    (p ++ start, d, ap (λ r. p ++ r) e ∙ sym (append_assoc p start (d ∷ [])), h)

itoa-EndsInDigit : (n : ℕ) → EndsInDigit (itoa (pos n))
itoa-EndsInDigit n =
    rw itoa-pos (last-IsDigit (format_nat n) (format_nat-ne-nil n) (format_nat-All n))

itoa-ne-dash_i : (n : ℕ) → itoa (pos n) == dash_i ≡ false
itoa-ne-dash_i n =
    rw itoa-pos (
      eq-false (format_nat n) dash_i
        (λ e. absurd (omega (arith, (rw e at (format_nat-All n)).0.0))))

-- A text from 'p' to a digit is not trimmed.
trim-to_digit : (s : Bytes) → EndsInDigit (b'p' ∷ s) → trim_space (b'p' ∷ s) ≡ b'p' ∷ s
trim-to_digit s (start, d, e, h) =
    trim_space-graphic b'p' d s (reverse start) (omega arith) (omega arith)
      (ap reverse e ∙ reverse-append start (d ∷ []))

-- The pairs behind the name of the command.
abbrev pub pairs : Bytes → ℤ → Bool → List (Bytes × Bytes)
pairs key port ssl =
    (flag_m, codes "1")
    ∷ (flag_k, key)
    ∷ (flag_p, itoa port)
    ∷ (if ssl then (flag_s, codes "1") ∷ [] else [])

register_command-join :
    (key : Bytes) (port : ℤ) (ssl : Bool)
    → register_command key port ssl ≡ join space (codes "proxyinit" ∷ flatten (pairs key port ssl))
unfolding register_command join
register_command-join key port true = simp append_assoc
register_command-join key port false = simp append_assoc

register_command-trim :
    (key : Bytes) (n : ℕ) (ssl : Bool)
    → trim_space (register_command key (pos n) ssl) ≡ register_command key (pos n) ssl
unfolding register_command
register_command-trim key n true = trim-to_digit _ (
    EndsInDigit-append (codes "proxyinit -m 1 -k " ++ key ++ codes " -p " ++ itoa (pos n))
      (codes " -s 1") (codes " -s ", b'1', refl, omega arith))
register_command-trim key n false = trim-to_digit _ (
    EndsInDigit-append (codes "proxyinit -m 1 -k " ++ key ++ codes " -p ") (itoa (pos n))
      (itoa-EndsInDigit n))

pub pairs-All :
    (b : ℕ) (key : Bytes) (n : ℕ) (ssl : Bool)
    → (b ≡ 0) ⊎ (b ≡ space)
    → Lacks b key
    → Lacks b (itoa (pos n))
    → All (Lacks b) (flatten (pairs key (pos n) ssl))
pairs-All b key n true h hk hn = (
  omega arith,
  (omega arith, (omega arith, (hk, (omega arith, (hn, (omega arith, (omega arith, tt))))))),
)
pairs-All b key n false h hk hn =
    (omega arith, (omega arith, (omega arith, (hk, (omega arith, (hn, tt))))))

pub register_command-parts :
    (key : Bytes) (n : ℕ) (ssl : Bool)
    → Lacks space key
    → parts_of (register_command key (pos n) ssl)
      ≡ codes "proxyinit" ∷ flatten (pairs key (pos n) ssl)
register_command-parts key n ssl h =
    rw (register_command-trim key n ssl, register_command-join key (pos n) ssl)
      (split-join space (codes "proxyinit") (flatten (pairs key (pos n) ssl))
        (omega arith, pairs-All space key n ssl (inr refl) h (itoa-Lacks-space n)))

pub register_command-lacks_i :
    (key : Bytes) (n : ℕ) (ssl : Bool)
    → key ≢ dash_i
    → contains dash_i (codes "proxyinit" ∷ flatten (pairs key (pos n) ssl)) ≡ false
unfolding contains ◌==◌
register_command-lacks_i key n true h = rw (eq-false key dash_i h, itoa-ne-dash_i n)
register_command-lacks_i key n false h = rw (eq-false key dash_i h, itoa-ne-dash_i n)

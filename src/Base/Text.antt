-- ===== src/Base/Text.antt =====
-- Texts as lists of bytes, their equality test, and predicates on lists.
use Prim.Native.Nat.{ℕ, suc, ◌+◌}
use Prim.Native.Char.{code}
use Prim.Native.String.{String}
use mathlib.Core.Path.{◌≡◌, refl}
use mathlib.Core.Logic.{◌↔◌, ◌≢◌}
use mathlib.Core.Bool.{Bool, true, false, ◌&&◌}
use mathlib.Core.List.{List, [], ◌∷◌, ◌++◌, append_assoc}
use native.Mathlib.Omega.{arith}
use dbgp_tools.Base.Tests.{eqb}

abbrev pub Bytes : Type 0
Bytes = List ℕ

-- The code points of a literal; these are its bytes when the text is ASCII.
abbrev pub codes : String → Bytes
codes String.[] = []
codes (String.◌∷◌ c s) = code c ∷ codes s

infix 50 ◌==◌
unfoldable pub ◌==◌ : Bytes → Bytes → Bool
[] == [] = true
[] == (b ∷ t) = false
(a ∷ s) == [] = false
(a ∷ s) == (b ∷ t) = eqb a b && s == t

pub eq_iff : (s t : Bytes) → (s == t ≡ true) ↔ (s ≡ t)
unfolding ◌==◌
eq_iff [] [] = (λ h. refl, λ h. refl)
eq_iff [] (b ∷ t) = (λ h. cc, λ h. cc)
eq_iff (a ∷ s) [] = (λ h. cc, λ h. cc)
eq_iff (a ∷ s) (b ∷ t) = (λ h. ground (arith, eq_iff s t), λ h. ground (arith, eq_iff s t))

pub eq_refl : (s : Bytes) → s == s ≡ true
eq_refl s = (eq_iff s s).1 refl

pub eq-false : (s t : Bytes) → s ≢ t → s == t ≡ false
eq-false s t h = ground (arith, eq_iff s t)

module _ {ℓ} {A : Type ℓ} where
  abbrev pub length : List A → ℕ
  length [] = 0
  length (x ∷ xs) = suc (length xs)

  pub length-append : (xs ys : List A) → length (xs ++ ys) ≡ length xs + length ys
  length-append [] ys = omega arith
  length-append (x ∷ xs) ys = omega (arith, length-append xs ys)

  pub append-cons : (xs : List A) (y : A) (ys : List A) → (xs ++ y ∷ []) ++ ys ≡ xs ++ y ∷ ys
  append-cons xs y ys = append_assoc xs (y ∷ []) ys

module _ {ℓ κ} {A : Type ℓ} (P : A → Type κ) where
  abbrev pub All : List A → Type κ
  All [] = Unit
  All (x ∷ xs) = P x × All xs

  pub All-append : (xs ys : List A) → All xs → All ys → All (xs ++ ys)
  All-append [] ys hx hy = hy
  All-append (x ∷ xs) ys (px, hx) hy = (px, All-append xs ys hx hy)

-- The byte does not occur in the text.
abbrev pub Lacks : ℕ → Bytes → Type 0
Lacks b = All (λ c. c ≢ b)

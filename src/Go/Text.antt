-- ===== src/Go/Text.antt =====
-- package strings: Split, Join, HasPrefix, TrimRight and TrimSpace, over bytes.
pub mod Laws
use dbgp_tools.Base.{
  Bytes, length, eqb, if◌then◌else◌, ℕ, zero, suc, ◌-◌, Bool, true, false, ◌&&◌, ◌||◌, Option, none,
  some, List, [], ◌∷◌, ◌++◌, map, reverse,
}

push : ℕ → List Bytes → List Bytes
push c [] = (c ∷ []) ∷ []
push c (p ∷ ps) = (c ∷ p) ∷ ps

-- strings.Split(s, sep), for a separator of one byte
unfoldable pub split : ℕ → Bytes → List Bytes
unfolding push
split sep [] = [] ∷ []
split sep (c ∷ s) = let rest = split sep s in if eqb c sep then [] ∷ rest else push c rest

-- strings.Join(parts, sep)
unfoldable pub join : ℕ → List Bytes → Bytes
join sep [] = []
join sep (p ∷ []) = p
join sep (p ∷ q ∷ ps) = p ++ sep ∷ join sep (q ∷ ps)

-- What follows the prefix, if the text has it.
unfoldable pub strip_prefix : Bytes → Bytes → Option Bytes
strip_prefix [] s = some s
strip_prefix (a ∷ p) [] = none
strip_prefix (a ∷ p) (b ∷ s) = let rest = strip_prefix p s in if eqb a b then rest else none

-- strings.HasPrefix(s, prefix)
unfoldable pub has_prefix : Bytes → Bytes → Bool
unfolding strip_prefix
has_prefix s prefix = elim (strip_prefix prefix s) [ none ↦ false | some rest ↦ true ]

is_empty : Bytes → Bool
is_empty [] = true
is_empty (c ∷ s) = false

-- strings.TrimRight(s, cutset), for a set of one byte
unfoldable pub trim_right : ℕ → Bytes → Bytes
unfolding is_empty
trim_right c [] = []
trim_right c (x ∷ s) =
    let rest = trim_right c s in if is_empty rest && eqb x c then [] else x ∷ rest

-- unicode.IsSpace: the white space characters, each by its bytes in UTF-8
abbrev white_space : List Bytes
white_space =
    (9 ∷ [])
    ∷ (10 ∷ [])
    ∷ (11 ∷ [])
    ∷ (12 ∷ [])
    ∷ (13 ∷ [])
    ∷ (32 ∷ [])
    ∷ (0xc2 ∷ 0x85 ∷ [])
    ∷ (0xc2 ∷ 0xa0 ∷ [])
    ∷ (0xe1 ∷ 0x9a ∷ 0x80 ∷ [])
    ∷ (0xe2 ∷ 0x80 ∷ 0x80 ∷ [])
    ∷ (0xe2 ∷ 0x80 ∷ 0x81 ∷ [])
    ∷ (0xe2 ∷ 0x80 ∷ 0x82 ∷ [])
    ∷ (0xe2 ∷ 0x80 ∷ 0x83 ∷ [])
    ∷ (0xe2 ∷ 0x80 ∷ 0x84 ∷ [])
    ∷ (0xe2 ∷ 0x80 ∷ 0x85 ∷ [])
    ∷ (0xe2 ∷ 0x80 ∷ 0x86 ∷ [])
    ∷ (0xe2 ∷ 0x80 ∷ 0x87 ∷ [])
    ∷ (0xe2 ∷ 0x80 ∷ 0x88 ∷ [])
    ∷ (0xe2 ∷ 0x80 ∷ 0x89 ∷ [])
    ∷ (0xe2 ∷ 0x80 ∷ 0x8a ∷ [])
    ∷ (0xe2 ∷ 0x80 ∷ 0xa8 ∷ [])
    ∷ (0xe2 ∷ 0x80 ∷ 0xa9 ∷ [])
    ∷ (0xe2 ∷ 0x80 ∷ 0xaf ∷ [])
    ∷ (0xe2 ∷ 0x81 ∷ 0x9f ∷ [])
    ∷ (0xe3 ∷ 0x80 ∷ 0x80 ∷ [])
    ∷ []

-- The rest after the first sequence of the list that the text begins with.
strip_any : List Bytes → Bytes → Option Bytes
strip_any [] s = none
strip_any (p ∷ ps) s = elim (strip_prefix p s) [ none ↦ strip_any ps s | some rest ↦ some rest ]

-- The fuel is the length of the text: each round takes a byte at least.
trim_front : ℕ → List Bytes → Bytes → Bytes
trim_front zero ps s = s
trim_front (suc f) ps s = elim (strip_any ps s) [ none ↦ s | some rest ↦ trim_front f ps rest ]

-- strings.TrimSpace(s): the end is trimmed as the front of the reversed text
unfoldable pub trim_space : Bytes → Bytes
unfolding strip_any strip_prefix trim_front
trim_space s =
    let t = trim_front (length s) white_space s in
    reverse (trim_front (length t) (map reverse white_space) (reverse t))

member : ℕ → Bytes → Bool
member c [] = false
member c (x ∷ s) = eqb c x || member c s

-- strings.TrimRight(s, cutset)
unfoldable pub trim_right_set : Bytes → Bytes → Bytes
unfolding is_empty member
trim_right_set set [] = []
trim_right_set set (x ∷ s) =
    let rest = trim_right_set set s in if is_empty rest && member x set then [] else x ∷ rest

blanks : ℕ → Bytes → Bytes
blanks zero t = t
blanks (suc n) t = b' ' ∷ blanks n t

-- The verbs %10s and %4d: blanks in front, up to the width.
unfoldable pub pad_left : ℕ → Bytes → Bytes
unfolding blanks
pad_left width s = blanks (width - length s) s

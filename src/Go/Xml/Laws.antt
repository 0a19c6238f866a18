-- ===== src/Go/Xml/Laws.antt =====
-- What the encoder writes holds no byte 0, so it can stand in a packet that a byte 0 ends.
use dbgp_tools.Base.{
  Bytes, codes, All-append, Lacks, ℕ, ◌≢◌, ◌≡◌, refl, true, List, [], ◌∷◌, ◌++◌, arith,
}
use dbgp_tools.Go.Xml.{
  escape_byte, escape_bytes, replaced, replacement, escape, attribute, attributes, element, header,
}

abbrev pub NoZero : Bytes → Type 0
NoZero = Lacks 0

join_NoZero : (s t : Bytes) → NoZero s → NoZero t → NoZero (s ++ t)
join_NoZero = All-append (λ c. c ≢ 0)

escape_byte-NoZero : (c : ℕ) → NoZero (escape_byte c)
unfolding escape_byte
escape_byte-NoZero c = ground arith

escape_bytes-NoZero : (s : Bytes) → NoZero (escape_bytes s)
unfolding escape_bytes
escape_bytes-NoZero [] = tt
escape_bytes-NoZero (c ∷ s) =
    join_NoZero (escape_byte c) (escape_bytes s) (escape_byte-NoZero c) (escape_bytes-NoZero s)

pub escape-NoZero : (s : Bytes) → NoZero (escape s)
unfolding escape
escape-NoZero s = escape_bytes-NoZero (replaced 0 true s)

-- A letter of two bytes stays; a byte that begins no character, a surrogate and U+FFFF are replaced.
escape_utf8 :
    escape (b'a' ∷ 0xc3 ∷ 0xa9 ∷ 0xff ∷ 0xed ∷ 0xa0 ∷ 0x80 ∷ 0xef ∷ 0xbf ∷ 0xbf ∷ b'<' ∷ [])
    ≡ b'a'
      ∷ 0xc3
      ∷ 0xa9
      ∷ (replacement ++ replacement ++ replacement ++ replacement ++ replacement ++ codes "&lt;")
unfolding escape
escape_utf8 = refl

attribute-NoZero : (name value : Bytes) → NoZero name → NoZero (attribute name value)
unfolding attribute
attribute-NoZero name value h = (
  (omega arith),
  join_NoZero name _ h (
      join_NoZero (codes "=\"") _ (omega arith)
        (join_NoZero (escape value) (codes "\"") (escape-NoZero value) (omega arith))),
)

-- The names of the attributes hold no byte 0; the values may be any.
abbrev Names : List (Bytes × Bytes) → Type 0
Names [] = Unit
Names ((name, value) ∷ rest) = NoZero name × Names rest

attributes-NoZero : (attrs : List (Bytes × Bytes)) → Names attrs → NoZero (attributes attrs)
attributes-NoZero [] h = tt
attributes-NoZero ((name, value) ∷ rest) h =
    join_NoZero _ _ (attribute-NoZero name value h.0) (attributes-NoZero rest h.1)

pub element-NoZero :
    (name : Bytes) (attrs : List (Bytes × Bytes)) (content : Bytes)
    → NoZero name
    → Names attrs
    → NoZero content
    → NoZero (element name attrs content)
unfolding element
element-NoZero name attrs content hn ha hc = (
  omega arith,
  join_NoZero name _ hn (
      join_NoZero _ _ (attributes-NoZero attrs ha) (
        join_NoZero (codes ">") _ (omega arith) (
          join_NoZero content _ hc
            (join_NoZero (codes "</") _ (omega arith) (join_NoZero name _ hn (omega arith)))))),
)

pub header-NoZero : (s : Bytes) → NoZero s → NoZero (header ++ s)
header-NoZero s h = join_NoZero header s (omega arith) h

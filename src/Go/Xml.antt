-- ===== src/Go/Xml.antt =====
-- package encoding/xml: what Encoder.Encode writes for the structs of the program, whose fields are
-- attributes, texts and one nested element.
pub mod Laws
use dbgp_tools.Base.{
  Bytes, codes, ltb, leb, eqb, not, ◌&&◌, ◌||◌, zero, suc, ◌-◌, if◌then◌else◌, ℕ, Bool, true, false,
  List, [], ◌∷◌, ◌++◌,
}

-- The character U+FFFD, for one that XML does not allow.
abbrev replacement : Bytes
replacement = 0xef ∷ 0xbf ∷ 0xbd ∷ []

-- xml.EscapeText, one byte of a character that XML allows or of a control character
unfoldable pub escape_byte : ℕ → Bytes
escape_byte c =
    if eqb c b'"'
    then codes "&#34;"
    else if eqb c 39
    then codes "&#39;"
    else if eqb c b'&'
    then codes "&amp;"
    else if eqb c b'<'
    then codes "&lt;"
    else if eqb c b'>'
    then codes "&gt;"
    else if eqb c 9
    then codes "&#x9;"
    else if eqb c 10
    then codes "&#xA;"
    else if eqb c 13
    then codes "&#xD;"
    else if ltb c 32
    then replacement
    else c ∷ []

escape_bytes : Bytes → Bytes
unfolding escape_byte
escape_bytes [] = []
escape_bytes (c ∷ s) = escape_byte c ++ escape_bytes s

within : ℕ → ℕ → ℕ → Bool
within lo hi c = leb lo c && leb c hi

-- The second byte of a character of UTF-8 that begins with this one: its range, with overlong forms and
-- surrogates left out.
second_fits : ℕ → ℕ → Bool
unfolding within
second_fits c d =
    if eqb c 0xe0
    then within 0xa0 0xbf d
    else if eqb c 0xed
    then within 0x80 0x9f d
    else if eqb c 0xf0
    then within 0x90 0xbf d
    else if eqb c 0xf4
    then within 0x80 0x8f d
    else within 0x80 0xbf d

-- U+FFFE and U+FFFF, which XML does not allow.
is_excluded : ℕ → ℕ → ℕ → Bool
is_excluded c d e = eqb c 0xef && eqb d 0xbf && leb 0xbe e

-- The number of bytes of the character that a text begins with; 0 if the first byte begins none, as of
-- utf8.DecodeRune where it returns the width 1 for an error.
width : Bytes → ℕ
unfolding second_fits
width [] = 0
width (c ∷ []) = if ltb c 0x80 then 1 else 0
width (c ∷ d ∷ []) =
    if ltb c 0x80 then 1 else if within 0xc2 0xdf c && second_fits c d then 2 else 0
width (c ∷ d ∷ e ∷ []) =
    if ltb c 0x80
    then 1
    else if within 0xc2 0xdf c && second_fits c d
    then 2
    else if within 0xe0 0xef c && second_fits c d && within 0x80 0xbf e
    then 3
    else 0
width (c ∷ d ∷ e ∷ f ∷ s) =
    if ltb c 0x80
    then 1
    else if within 0xc2 0xdf c && second_fits c d
    then 2
    else if within 0xe0 0xef c && second_fits c d && within 0x80 0xbf e
    then 3
    else if within 0xf0 0xf4 c && second_fits c d && within 0x80 0xbf e && within 0x80 0xbf f
    then 4
    else 0

excluded : Bytes → Bool
unfolding is_excluded
excluded (c ∷ d ∷ e ∷ s) = is_excluded c d e
excluded s = false

-- A text with U+FFFD for each byte that begins no character, and for each character that XML does not
-- allow but the control characters below a space. The number counts the bytes of the last character
-- that are still to pass, to be copied or left out.
replaced : ℕ → Bool → Bytes → Bytes
unfolding width excluded
replaced n copied [] = []
replaced zero copied (c ∷ s) =
    let w = width (c ∷ s) in
    let bad = eqb w 0 || excluded (c ∷ s) in
    let rest = replaced (w - 1) (not bad) s in (if bad then replacement else c ∷ []) ++ rest
replaced (suc n) copied (c ∷ s) =
    let rest = replaced n copied s in if copied then c ∷ rest else rest

-- xml.EscapeText
unfoldable pub escape : Bytes → Bytes
unfolding escape_bytes replaced
escape s = escape_bytes (replaced 0 true s)

-- ` name="value"`
unfoldable pub attribute : Bytes → Bytes → Bytes
unfolding escape
attribute name value = b' ' ∷ (name ++ (codes "=\"" ++ (escape value ++ codes "\"")))

abbrev attributes : List (Bytes × Bytes) → Bytes
attributes [] = []
attributes ((name, value) ∷ rest) = attribute name value ++ attributes rest

-- `<name attributes>content</name>`; the content is written already
unfoldable pub element : Bytes → List (Bytes × Bytes) → Bytes → Bytes
unfolding attribute
element name attrs content =
    b'<'
    ∷ (name
        ++ (attributes attrs ++ (codes ">" ++ (content ++ (codes "</" ++ (name ++ codes ">"))))))

-- xml.Header
abbrev pub header : Bytes
header = codes "<?xml version=\"1.0\" encoding=\"UTF-8\"?>\n"

-- The print of a bool.
abbrev pub bool_text : Bool → Bytes
bool_text true = codes "true"
bool_text false = codes "false"

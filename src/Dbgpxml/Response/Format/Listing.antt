-- ===== src/Dbgpxml/Response/Format/Listing.antt =====
-- How the answer to "source" is printed.
use dbgp_tools.Base.{
  Bytes, codes, ◌==◌, if◌then◌else◌, true, false, none, List, [], ◌∷◌, ◌++◌, ℕ, ◌+◌, ◌≤◌, ◌≡◌, refl,
  arith, append_assoc, ap, ◌∙◌, length,
}
use dbgp_tools.Base.Int.{pos, next_int}
use dbgp_tools.Go.Decimal.{itoa, max_int}
use dbgp_tools.Go.Text.{split, trim_right_set, pad_left}
use dbgp_tools.Dbgpxml.Common.{Paint, green}
use dbgp_tools.Dbgpxml.Breakpoint.{Base64}
use dbgp_tools.Dbgpxml.Response.{Response}
use dbgp_tools.Dbgpxml.Response.Format.{first_line, format_source, numbered, details, to_string}

abbrev pub source_value : Base64 → Response → Bytes
source_value decode_base64 m =
    if m.encoding == codes "base64" then decode_base64 m.value else m.value

-- The lines of the source, without the blanks and the line ends behind the last of them.
abbrev pub source_lines : Base64 → Response → List Bytes
source_lines decode_base64 m =
    split b'\n' (trim_right_set (codes " \n") (source_value decode_base64 m))

module _ (paint : Paint) where
  -- Lines from the number `n` on.
  abbrev pub listed : ℕ → List Bytes → Bytes
  listed n [] = []
  listed n (line ∷ lines) =
      paint true green (pad_left 4 (itoa (pos n)))
      ++ codes " "
      ++ line
      ++ codes "\n"
      ++ listed (n + 1) lines

  numbered-listed :
      (n : ℕ) (lines : List Bytes)
      → n + length lines ≤ max_int + 1
      → numbered paint (pos n) lines ≡ listed n lines
  unfolding numbered next_int
  numbered-listed n [] fits = refl
  numbered-listed n (line ∷ []) fits = simp (append_assoc)
  numbered-listed n (line ∷ other ∷ lines) fits =
      let e : next_int (pos n) ≡ pos (n + 1) = ground arith in
      rw (e, numbered-listed (n + 1) (other ∷ lines) (omega (arith, fits))) (simp (append_assoc))

  pub to_string-source :
      (decode_base64 : Base64) (m : Response) (n : ℕ)
      → m.command ≡ codes "source"
      → m.error ≡ none
      → source_value decode_base64 m == [] ≡ false
      → m.last_source_begin ≡ pos n
      → n + length (source_lines decode_base64 m) ≤ max_int + 1
      → to_string paint decode_base64 m
        ≡ first_line paint m ++ listed n (source_lines decode_base64 m)
  unfolding to_string details format_source ◌==◌
  to_string-source decode_base64 m n asked well filled begin fits =
      rw (well, asked, filled)
        (ap (λ t. first_line paint (record m { command = codes "source" }) ++ t)
          (ap (λ b. numbered paint b (source_lines decode_base64 m)) begin
            ∙ numbered-listed n (source_lines decode_base64 m) fits))

-- ===== src/Dbgpxml/Response/Property/Layout.antt =====
-- How a property with its children is laid out.
use dbgp_tools.Base.{
  Bytes, codes, ◌==◌, if◌then◌else◌, Bool, true, false, ◌&&◌, ℕ, zero, suc, List, [], ◌∷◌, ◌++◌,
  append_assoc, append-nil, ◌≡◌, refl, sym, ap, ◌∙◌, Bool-cases, inl, inr,
}
use dbgp_tools.Base.Int.{is_positive}
use dbgp_tools.Dbgpxml.Common.{Paint, black}
use dbgp_tools.Dbgpxml.Breakpoint.{Base64}
use dbgp_tools.Dbgpxml.Response.Property.{
  PropertyInfo, Property, Properties, property, nil, cons, format_property, format_children,
  heading, body_text, value_text, opening, closing,
}

-- One line that is printed: how deep it stands, whether it begins a child of a property, and its text.
pub record Row : Type 0 where
  pub depth : ℕ
  pub begins : Bool
  pub text : Bytes

abbrev pub is_open : PropertyInfo → Bool
is_open p = p.has_children && is_positive p.num_children

-- Two blanks for each level.
abbrev pub indent : ℕ → Bytes
indent zero = []
indent (suc n) = codes "  " ++ indent n

-- The blanks in front of the header: those of the parent, where a child begins.
abbrev pub outdent : ℕ → Bool → Bytes
outdent zero begins = []
outdent (suc n) true = indent n
outdent (suc n) false = []

module _ (paint : Paint) (decode_base64 : Base64) where
  -- The property's name and type, and its value.
  leaf_text : PropertyInfo → Bytes
  unfolding heading value_text
  leaf_text p =
      heading paint decode_base64 [] p
      ++ (if p.type == codes "uninitialized" then [] else value_text paint decode_base64 p)
      ++ codes "\n"

  open_text : PropertyInfo → Bytes
  unfolding heading opening
  open_text p = heading paint decode_base64 [] p ++ opening p

  close_text : PropertyInfo → Bytes
  unfolding closing
  close_text p = closing p ++ codes "\n"

  unfoldable mutual
    unfolding leaf_text open_text close_text

    -- The rows of a property at a depth: one row, or, if it has children, a row that opens it, the rows
    -- of the children one level deeper, and a row that closes it.
    pub rows : ℕ → Property → List Row
    rows d (property p children) =
        let inner = rows_of_all (suc d) children in
        if is_open p
        then record { depth = d; begins = true; text = open_text p }
          ∷ (inner ++ record { depth = d; begins = false; text = close_text p } ∷ [])
        else record { depth = d; begins = true; text = leaf_text p } ∷ []

    pub rows_of_all : ℕ → Properties → List Row
    rows_of_all d nil = []
    rows_of_all d (cons c cs) = rows d c ++ rows_of_all d cs

  abbrev pub print_row : Bytes → Row → Bytes
  print_row tid row =
      outdent row.depth row.begins
      ++ (paint false black tid ++ codes " | ")
      ++ indent row.depth
      ++ row.text

  abbrev pub print_rows : Bytes → List Row → Bytes
  print_rows tid [] = []
  print_rows tid (row ∷ rest) = print_row tid row ++ print_rows tid rest

  print_rows-append :
      (tid : Bytes) (xs ys : List Row)
      → print_rows tid (xs ++ ys) ≡ print_rows tid xs ++ print_rows tid ys
  print_rows-append tid [] ys = refl
  print_rows-append tid (x ∷ xs) ys =
      ap (λ t. print_row tid x ++ t) (print_rows-append tid xs ys)
      ∙ sym (append_assoc (print_row tid x) (print_rows tid xs) (print_rows tid ys))

  indent_more : (n : ℕ) → indent n ++ codes "  " ≡ indent (suc n)
  indent_more zero = refl
  indent_more (suc n) = ap (λ t. codes "  " ++ t) (indent_more n)

  heading_lem :
      (leader : Bytes) (p : PropertyInfo)
      → heading paint decode_base64 leader p ≡ leader ++ heading paint decode_base64 [] p
  unfolding heading
  heading_lem leader p = simp (append_assoc)

  close_outdent : (d : ℕ) → outdent d false ≡ []
  close_outdent zero = refl
  close_outdent (suc d) = refl

  leaf_row :
      (hdr lead : Bytes) (p : PropertyInfo) (children : Bytes)
      → is_open p ≡ false
      → hdr
          ++ (heading paint decode_base64 lead p
              ++ body_text paint decode_base64 hdr lead p children)
          ++ codes "\n"
        ≡ hdr ++ lead ++ leaf_text p
  unfolding body_text leaf_text
  leaf_row hdr lead p children leaf = rw (leaf, heading_lem lead p) (simp (append_assoc))

  open_row :
      (hdr lead : Bytes) (p : PropertyInfo) (children : Bytes)
      → is_open p ≡ true
      → hdr
          ++ (heading paint decode_base64 lead p
              ++ body_text paint decode_base64 hdr lead p children)
          ++ codes "\n"
        ≡ (hdr ++ lead ++ open_text p) ++ children ++ hdr ++ lead ++ close_text p
  unfolding body_text open_text close_text
  open_row hdr lead p children has = rw (has, heading_lem lead p) (simp (append_assoc))

  mutual
    unfolding rows format_property

    print_rows-rows :
        (tid : Bytes) (d : ℕ) (p : Property)
        → print_rows tid (rows d p)
          ≡ outdent d true ++ format_property paint decode_base64 tid (indent d) p
    print_rows-rows tid d (property p children) = elim (Bool-cases (is_open p)) [
      | inl has ↦
          let inner = print_rows-rows_of_all tid d children in
          rw
            (open_row (paint false black tid ++ codes " | ") (indent d) p
              (format_children paint decode_base64 tid (indent d) children) has)
            (rw (has, print_rows-append tid (rows_of_all (suc d) children), inner, close_outdent d)
              (simp (append_assoc, append-nil)))
      | inr leaf ↦
          rw
            (leaf_row (paint false black tid ++ codes " | ") (indent d) p
              (format_children paint decode_base64 tid (indent d) children) leaf)
            (rw leaf (simp (append_assoc, append-nil)))
    ]

    print_rows-rows_of_all :
        (tid : Bytes) (d : ℕ) (cs : Properties)
        → print_rows tid (rows_of_all (suc d) cs)
          ≡ format_children paint decode_base64 tid (indent d) cs
    print_rows-rows_of_all tid d nil = refl
    print_rows-rows_of_all tid d (cons c cs) =
        rw
          (
            print_rows-append tid (rows (suc d) c),
            print_rows-rows tid (suc d) c,
            print_rows-rows_of_all tid d cs,
            indent_more d,
          )
          (simp (append_assoc))

-- formatProperty prints one row for a property that has no children to show, and otherwise a row that
-- opens it, the rows of its children one level deeper, in their order, and a row that closes it. Each
-- row has the header, two blanks for each level and its text, and a row that begins a child has before
-- its header two blanks for each level but the first two.
pub format_property-rows :
    (paint : Paint) (decode_base64 : Base64) (tid : Bytes) (p : Property)
    → format_property paint decode_base64 tid [] p
      ≡ print_rows paint decode_base64 tid (rows paint decode_base64 0 p)
format_property-rows paint decode_base64 tid p = sym (print_rows-rows paint decode_base64 tid 0 p)

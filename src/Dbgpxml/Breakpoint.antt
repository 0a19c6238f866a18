-- ===== src/Dbgpxml/Breakpoint.antt =====
-- lib/dbgpxml/xml-breakpoint.go. encoding/base64 is a parameter, `decode_base64`.
use dbgp_tools.Base.{Bytes, codes, ◌==◌, if◌then◌else◌, true, false, ◌||◌, [], ◌∷◌, ◌++◌}
use dbgp_tools.Base.Int.{ℤ, pos, is_int}
use dbgp_tools.Go.Decimal.{itoa}
use dbgp_tools.Dbgpxml.Common.{
  Paint, green, yellow, bright_green, bright_red, bright_yellow, bright_blue,
}

pub record Expression : Type 0 where
  pub encoding : Bytes
  pub value : Bytes

pub record Breakpoint : Type 0 where
  pub id : ℤ
  pub type : Bytes
  pub state : Bytes
  pub resolved : Bytes
  pub filename : Bytes
  pub line_no : ℤ
  pub classname : Bytes
  pub function : Bytes
  pub exception : Bytes
  pub hit_value : ℤ
  pub hit_count : ℤ
  pub hit_condition : Bytes
  pub expression : Expression

-- base64.StdEncoding.DecodeString, with the error dropped as the program does
abbrev pub Base64 : Type 0
Base64 = Bytes → Bytes

-- formatLocation of xml-response.go
unfoldable pub format_location : Paint → Bytes → ℤ → Bytes
format_location paint filename line_no =
    paint true green filename ++ codes ":" ++ paint true green (itoa line_no)

-- formatFunction of xml-response.go
unfoldable pub format_function : Paint → Bytes → Bytes → Bytes
format_function paint class method =
    if class == []
    then paint true bright_blue method
    else paint true bright_blue class ++ codes "->" ++ paint true bright_blue method

-- the marks ● ○ ◐ in UTF-8
abbrev filled_mark : Bytes
filled_mark = 0xe2 ∷ 0x97 ∷ 0x8f ∷ []

abbrev empty_mark : Bytes
empty_mark = 0xe2 ∷ 0x97 ∷ 0x8b ∷ []

abbrev half_mark : Bytes
half_mark = 0xe2 ∷ 0x97 ∷ 0x90 ∷ []

state_text : Paint → Breakpoint → Bytes
state_text paint b =
    if b.state == codes "enabled"
    then paint true bright_green filled_mark ++ codes " "
    else if b.state == codes "disabled"
    then paint true bright_red empty_mark ++ codes " "
    else if b.state == codes "temporary"
    then (if is_int b.hit_count (pos 0)
        then paint true bright_yellow half_mark
        else paint true bright_red half_mark)
      ++ codes " "
    else []

hits_text : Paint → Breakpoint → Bytes
hits_text paint b =
    codes "("
    ++ paint false yellow (itoa b.hit_count)
    ++ (if b.hit_condition == []
        then []
        else codes " "
          ++ paint false green b.hit_condition
          ++ paint false yellow (itoa b.hit_value))
    ++ codes ") "

where_text : Paint → Breakpoint → Bytes
unfolding format_location format_function
where_text paint b =
    if b.type == codes "condition" || b.type == codes "line"
    then format_location paint b.filename b.line_no
    else if b.type == codes "call" || b.type == codes "return"
    then format_function paint b.classname b.function
    else if b.type == codes "exception"
    then paint true green b.exception
    else []

condition_text : Paint → Base64 → Expression → Bytes
condition_text paint decode_base64 e =
    if e.value == []
    then []
    else codes " cond: "
      ++ paint false yellow
          (if e.encoding == codes "base64" then decode_base64 e.value else e.value)

-- brkpoint.String()
unfoldable pub to_string : Paint → Base64 → Breakpoint → Bytes
unfolding state_text hits_text where_text condition_text
to_string paint decode_base64 b =
    state_text paint b
    ++ hits_text paint b
    ++ (paint true green (itoa b.id) ++ codes " " ++ paint false yellow b.type ++ codes ": ")
    ++ where_text paint b
    ++ condition_text paint decode_base64 b.expression

-- ===== src/Dbgpxml/Response/Property.antt =====
-- lib/dbgpxml/xml-response.go: properties, which hold properties, and formatProperty.
pub mod Layout
use dbgp_tools.Base.{Bytes, codes, ◌==◌, if◌then◌else◌, Bool, true, false, ◌&&◌, not, [], ◌++◌}
use dbgp_tools.Base.Int.{ℤ, is_positive}
use dbgp_tools.Dbgpxml.Common.{Paint, black, green, yellow}
use dbgp_tools.Dbgpxml.Breakpoint.{Base64}

-- The fields of Property but for its children.
pub record PropertyInfo : Type 0 where
  pub name : Bytes
  pub fullname : Bytes
  pub type : Bytes
  pub classname : Bytes
  pub has_children : Bool
  pub num_children : ℤ
  pub page : ℤ
  pub page_size : ℤ
  pub encoding : Bytes
  pub value : Bytes
  pub ext_name : Bytes
  pub ext_full_name : Bytes
  pub ext_classname : Bytes

mutual
  pub data Property : Type 0 where
    property : PropertyInfo → Properties → Property

  pub data Properties : Type 0 where
    nil : Properties
    cons : Property → Properties → Properties

-- The text, or if there is none the decoded extended one.
or_extended : Base64 → Bytes → Bytes → Bytes
or_extended decode_base64 plain extended =
    if plain == [] && not (extended == []) then decode_base64 extended else plain

-- The value, for a property with no children shown.
value_text : Paint → Base64 → PropertyInfo → Bytes
value_text paint decode_base64 p =
    let value = if p.encoding == codes "base64" then decode_base64 p.value else p.value in
    if p.type == codes "null"
    then []
    else if p.type == codes "bool"
    then codes ": "
      ++ paint true yellow (if value == codes "1" then codes "true" else codes "false")
    else if p.type == codes "array"
    then codes ": []"
    else if p.type == codes "object"
    then codes ": {}"
    else codes ": " ++ paint true yellow value

heading : Paint → Base64 → Bytes → PropertyInfo → Bytes
unfolding or_extended
heading paint decode_base64 leader p =
    leader
    ++ (p.type ++ codes " " ++ paint true green (or_extended decode_base64 p.name p.ext_name))
    ++ (if p.type == codes "object"
        then codes "("
          ++ paint false green (or_extended decode_base64 p.classname p.ext_classname)
          ++ codes ")"
        else [])

opening : PropertyInfo → Bytes
opening p = if p.type == codes "array" then codes ": [ \n" else codes " { \n"

closing : PropertyInfo → Bytes
closing p = if p.type == codes "array" then codes "]" else codes "}"

-- What stands behind the heading, from the text of the children.
body_text : Paint → Base64 → Bytes → Bytes → PropertyInfo → Bytes → Bytes
unfolding value_text opening closing
body_text paint decode_base64 header leader p children =
    if p.has_children && is_positive p.num_children
    then opening p ++ children ++ (header ++ leader) ++ closing p
    else if p.type == codes "uninitialized"
    then []
    else value_text paint decode_base64 p

unfoldable mutual
  unfolding heading body_text

  -- formatProperty(tid, leader, prop)
  pub format_property : Paint → Base64 → Bytes → Bytes → Property → Bytes
  format_property paint decode_base64 tid leader (property p children) =
      let header = paint false black tid ++ codes " | " in
      header
      ++ (heading paint decode_base64 leader p
          ++ body_text paint decode_base64 header leader p
              (format_children paint decode_base64 tid leader children))
      ++ codes "\n"

  -- The loop over the children.
  pub format_children : Paint → Base64 → Bytes → Bytes → Properties → Bytes
  format_children paint decode_base64 tid leader nil = []
  format_children paint decode_base64 tid leader (cons c cs) =
      leader
      ++ format_property paint decode_base64 tid (leader ++ codes "  ") c
      ++ format_children paint decode_base64 tid leader cs

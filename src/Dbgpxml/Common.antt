-- ===== src/Dbgpxml/Common.antt =====
-- What the messages of lib/dbgpxml share: the namespaces, the success number, IsValidXml, and the
-- package github.com/logrusorgru/aurora, which is a parameter.
use dbgp_tools.Base.{Bytes, codes, Bool, true, false}
use dbgp_tools.Base.Int.{ℤ, pos}
use dbgp_tools.Go.Text.{has_prefix}

abbrev pub xml_ns : Bytes
xml_ns = codes "urn:debugger_protocol_v1"

abbrev pub xml_ns_xdebug : Bytes
xml_ns_xdebug = codes "https://xdebug.org/dbgp/xdebug"

-- `successStr` of the constructors
abbrev pub success_number : Bool → ℤ
success_number true = pos 1
success_number false = pos 0

abbrev pub no_error : Bytes
no_error = codes "no error"

-- dbgpxml.IsValidXml(xml)
unfoldable pub is_valid_xml : Bytes → Bool
unfolding has_prefix
is_valid_xml xml = has_prefix xml (codes "<?xml")

pub data Colour : Type 0 where
  plain black red green yellow bright_red bright_green bright_yellow bright_blue bright_white white
        faint :
      Colour

-- What aurora makes of a text in a colour, bold or not.
abbrev pub Paint : Type 0
Paint = Bool → Colour → Bytes → Bytes

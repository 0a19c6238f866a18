-- ===== src/Dbgpxml/Stream.antt =====
-- lib/dbgpxml/xml-stream.go
use dbgp_tools.Base.{Bytes, codes, ◌==◌, if◌then◌else◌, true, false, [], ◌∷◌, ◌++◌, Bool}
use dbgp_tools.Dbgpxml.Common.{Paint, bright_yellow}
use dbgp_tools.Dbgpxml.Breakpoint.{Base64}

pub record Stream : Type 0 where
  pub xml_ns : Bytes
  pub xml_ns_xdebug : Bytes
  pub type : Bytes
  pub encoding : Bytes
  pub value : Bytes

-- The arrow in UTF-8.
abbrev arrow : Bytes
arrow = 0xe2 ∷ 0x86 ∷ 0x90 ∷ []

-- stream.IsSuccess()
abbrev pub is_success : Stream → Bool
is_success m = true

abbrev pub get_error_message : Stream → Bytes
get_error_message m = []

abbrev pub expect_more_responses : Stream → Bool
expect_more_responses m = true

abbrev pub should_close_connection : Stream → Bool
should_close_connection m = false

-- stream.String()
unfoldable pub to_string : Paint → Base64 → Stream → Bytes
to_string paint decode_base64 m =
    let value = if m.encoding == codes "base64" then decode_base64 m.value else m.value in
    paint true bright_yellow m.type
    ++ codes "\n"
    ++ paint true bright_yellow arrow
    ++ codes " "
    ++ paint false bright_yellow value

-- ===== src/Dbgpxml/Notify.antt =====
-- lib/dbgpxml/xml-notify.go
use dbgp_tools.Base.{Bytes, codes, ◌==◌, if◌then◌else◌, true, [], ◌++◌, Bool, false}
use dbgp_tools.Dbgpxml.Common.{Paint, bright_yellow}
use dbgp_tools.Dbgpxml.Breakpoint
use dbgp_tools.Dbgpxml.Breakpoint.{Breakpoint, Base64}

pub record Notify : Type 0 where
  pub xml_ns : Bytes
  pub xml_ns_xdebug : Bytes
  pub name : Bytes
  pub breakpoint : Breakpoint

-- notify.IsSuccess()
abbrev pub is_success : Notify → Bool
is_success m = true

abbrev pub get_error_message : Notify → Bytes
get_error_message m = []

abbrev pub expect_more_responses : Notify → Bool
expect_more_responses m = true

abbrev pub should_close_connection : Notify → Bool
should_close_connection m = false

-- notify.String()
unfoldable pub to_string : Paint → Base64 → Notify → Bytes
unfolding Breakpoint.to_string
to_string paint decode_base64 m =
    paint true bright_yellow m.name
    ++ codes "\n"
    ++ (if m.name == codes "breakpoint_resolved"
        then Breakpoint.to_string paint decode_base64 m.breakpoint
        else [])

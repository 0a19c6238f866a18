-- ===== src/Dbgpxml/CtrlResponse.antt =====
-- lib/dbgpxml/xml-ctrl-response.go. A float64 is given by its bits, and what the verb %8.2f makes of it
-- is a parameter, `format_float`.
use dbgp_tools.Base.{Bytes, Bool, true, false, Option, none, some}
use dbgp_tools.Base.{codes, ℕ, if◌then◌else◌, ◌++◌, []}
use dbgp_tools.Base.Int.{ℤ, pos, is_int}
use dbgp_tools.Go.Decimal.{itoa}
use dbgp_tools.Go.Text.{pad_left}
use dbgp_tools.Dbgpxml.Common.{no_error, Paint, red, bright_red, bright_white, bright_yellow, faint}
use dbgp_tools.Dbgpxml.Init.{Engine}
use dbgp_tools.Dbgpxml.Response.{Error}

pub record Ps : Type 0 where
  pub success : Bool
  pub file_uri_attribute : Bytes
  pub engine : Engine
  pub pid : Bytes
  pub file_uri : Bytes
  pub time : ℕ
  pub memory : ℤ

pub record Pause : Type 0 where
  pub success : Bool
  pub pid : Bytes
  pub action_undertaken : Bytes

pub record CtrlResponse : Type 0 where
  pub xml_ns_xdebug : Bytes
  pub ps : Ps
  pub pause : Pause
  pub error : Option Error
  pub value : Bytes

abbrev pub is_success : CtrlResponse → Bool
is_success m = true

unfoldable pub get_error_message : CtrlResponse → Bytes
get_error_message m = elim m.error [ none ↦ no_error | some e ↦ e.message ]

abbrev pub expect_more_responses : CtrlResponse → Bool
expect_more_responses m = false

abbrev pub should_close_connection : CtrlResponse → Bool
should_close_connection m = false

module _ (paint : Paint) where
  -- ctrlResponse.formatError(), for its error
  unfoldable pub format_error : Error → Bytes
  format_error e =
      paint true red (codes "Error")
      ++ codes "("
      ++ paint false red (itoa e.code)
      ++ codes "): "
      ++ paint true bright_red e.message
      ++ codes "\n"

  ps_text : (ℕ → Bytes) → Ps → Bytes
  unfolding pad_left
  ps_text format_float p =
      if p.success
      then paint false faint (pad_left 10 p.pid)
        ++ codes " "
        ++ pad_left 8 (itoa p.memory)
        ++ codes " "
        ++ format_float p.time
        ++ codes " "
        ++ paint false bright_white p.file_uri
        ++ codes " "
        ++ paint false faint (codes "(" ++ p.engine.value ++ p.engine.version ++ codes ")")
      else []

  pause_text : Pause → Bytes
  unfolding pad_left
  pause_text p =
      if p.success
      then paint false faint (pad_left 10 p.pid)
        ++ codes " "
        ++ paint false bright_yellow (pad_left 8 p.action_undertaken)
      else []

  body : (ℕ → Bytes) → CtrlResponse → Bytes
  unfolding ps_text pause_text
  body format_float m = ps_text format_float m.ps ++ pause_text m.pause

  -- ctrlResponse.String()
  unfoldable pub to_string : (ℕ → Bytes) → CtrlResponse → Bytes
  unfolding format_error body
  to_string format_float m = elim m.error [
    | none ↦ body format_float m
    | some e ↦ if is_int e.code (pos 0) then body format_float m else format_error e
  ]

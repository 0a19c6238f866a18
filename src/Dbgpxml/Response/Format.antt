-- ===== src/Dbgpxml/Response/Format.antt =====
-- lib/dbgpxml/xml-response.go: the functions that print, and String. A number in a colour and a width
-- is padded inside the colour.
pub mod Listing
use dbgp_tools.Base.{
  Bytes, codes, ◌==◌, if◌then◌else◌, true, false, ◌||◌, not, ◌&&◌, Option, none, some, List, [],
  ◌∷◌, ◌++◌,
}
use dbgp_tools.Base.Int.{ℤ, pos, is_int, next_int}
use dbgp_tools.Go.Decimal.{itoa}
use dbgp_tools.Go.Text.{split, trim_right_set, pad_left}
use dbgp_tools.Dbgpxml.Common.{Paint, black, red, green, yellow, bright_red}
use dbgp_tools.Dbgpxml.Breakpoint
use dbgp_tools.Dbgpxml.Breakpoint.{Base64, Breakpoint, format_location}
use dbgp_tools.Dbgpxml.Response.Property.{Properties, nil, cons, format_property}
use dbgp_tools.Dbgpxml.Response.{Response, Stack, Context, Typemap, Error}

module _ (paint : Paint) where
  -- What most lines begin with.
  abbrev lead : Bytes → Bytes
  lead tid = paint false black tid ++ codes " | "

  -- formatContext(tid, context)
  unfoldable pub format_context : Bytes → Context → Bytes
  format_context tid c =
      lead tid
      ++ paint false yellow (itoa c.id)
      ++ codes ": "
      ++ paint true green c.name
      ++ codes "\n"

  -- formatFeatureGet(response)
  unfoldable pub format_feature_get : Response → Bytes
  format_feature_get m =
      if is_int m.supported (pos 1)
      then lead m.tid
        ++ paint true yellow m.feature_name
        ++ codes ": "
        ++ paint true green (codes "supported")
        ++ codes " > "
        ++ paint true green m.value
        ++ codes "\n"
      else lead m.tid
        ++ paint true yellow m.feature_name
        ++ codes ": "
        ++ paint true red (codes "not supported")
        ++ codes "\n"

  -- formatFeatureSet(response)
  unfoldable pub format_feature_set : Response → Bytes
  format_feature_set m =
      lead m.tid
      ++ paint true yellow m.feature
      ++ codes ": "
      ++ (if is_int m.success (pos 1)
          then paint true green (codes "OK")
          else paint true red (codes "FAIL"))
      ++ codes "\n"

  -- formatStackFrame(tid, frame)
  unfoldable pub format_stack_frame : Bytes → Stack → Bytes
  unfolding format_location
  format_stack_frame tid f =
      lead tid
      ++ paint false yellow (itoa f.level)
      ++ codes ": "
      ++ format_location paint f.filename f.line_no
      ++ codes ": "
      ++ paint true yellow f.where_
      ++ codes "\n"

  -- formatTypemap(tid, typemap)
  unfoldable pub format_typemap : Bytes → Typemap → Bytes
  format_typemap tid t =
      lead tid
      ++ paint false yellow t.name
      ++ codes ": "
      ++ paint true green t.type
      ++ (if t.xsi_type == [] then [] else codes " (" ++ paint true green t.xsi_type ++ codes ")")
      ++ codes "\n"

  -- The loop of formatSource: each line with its number.
  numbered : ℤ → List Bytes → Bytes
  unfolding pad_left next_int
  numbered n [] = []
  numbered n (line ∷ lines) =
      (paint true green (pad_left 4 (itoa n)) ++ codes " " ++ line ++ codes "\n")
      ++ numbered (next_int n) lines

  -- formatSource(response)
  unfoldable pub format_source : Base64 → Response → Bytes
  unfolding numbered split trim_right_set
  format_source decode_base64 m =
      let value = if m.encoding == codes "base64" then decode_base64 m.value else m.value in
      if value == []
      then lead m.tid ++ paint true red (codes "The result was empty") ++ codes "\n"
      else numbered m.last_source_begin (split b'\n' (trim_right_set (codes " \n") value))

  -- formatBreakpointSet(response)
  unfoldable pub format_breakpoint_set : Response → Bytes
  format_breakpoint_set m =
      lead m.tid ++ codes "Breakpoint set with ID " ++ paint true green m.id ++ codes "\n"

  -- formatBreakpoint(tid, brkpoint)
  unfoldable pub format_breakpoint : Base64 → Bytes → Breakpoint → Bytes
  unfolding Breakpoint.to_string
  format_breakpoint decode_base64 tid b =
      lead tid ++ Breakpoint.to_string paint decode_base64 b ++ codes "\n"

  -- formatError(response), for its error
  unfoldable pub format_error : Bytes → Error → Bytes
  format_error tid e =
      lead tid
      ++ paint true red (codes "Error")
      ++ codes "("
      ++ paint false red (itoa e.code)
      ++ codes "): "
      ++ paint true bright_red e.message
      ++ codes "\n"

  -- A loop that prints each element.
  abbrev each {ℓ} : {A : Type ℓ} → (A → Bytes) → List A → Bytes
  each print [] = []
  each print (x ∷ xs) = print x ++ each print xs

  each_property : Base64 → Bytes → Properties → Bytes
  each_property decode_base64 tid nil = []
  each_property decode_base64 tid (cons p ps) =
      format_property paint decode_base64 tid [] p ++ each_property decode_base64 tid ps

  stopped_at : Response → Bytes
  stopped_at m =
      if m.status == codes "stopping"
      then []
      else lead m.tid
        ++ paint true green m.message.filename
        ++ codes ":"
        ++ paint true green (itoa m.message.line_no)
        ++ codes "\n"

  -- The switch on the command.
  details : Base64 → Response → Bytes
  unfolding format_breakpoint format_breakpoint_set each_property format_context format_feature_get
      format_feature_set format_source format_stack_frame format_typemap stopped_at
  details decode_base64 m =
      let is = λ (name : Bytes). m.command == name in
      if is (codes "breakpoint_get")
        || is (codes "breakpoint_list")
        || is (codes "breakpoint_remove")
        || is (codes "breakpoint_update")
      then each (format_breakpoint decode_base64 m.tid) m.breakpoints
      else if is (codes "breakpoint_set")
      then format_breakpoint_set m
      else if is (codes "context_get") || is (codes "eval") || is (codes "property_get")
      then each_property decode_base64 m.tid m.property
      else if is (codes "context_names")
      then each (format_context m.tid) m.contexts
      else if is (codes "feature_get")
      then format_feature_get m
      else if is (codes "feature_set") || is (codes "stdout")
      then format_feature_set m
      else if is (codes "source")
      then format_source decode_base64 m
      else if is (codes "stack_get")
      then each (format_stack_frame m.tid) m.stack
      else if is (codes "typemap_get")
      then each (format_typemap m.tid) m.typemap
      else if is (codes "run")
          || is (codes "step_into")
          || is (codes "step_over")
          || is (codes "step_out")
      then stopped_at m
      else []

  -- The line with the command, and the status if there are both of its parts.
  unfoldable pub first_line : Response → Bytes
  first_line m =
      paint false yellow m.tid
      ++ codes " | "
      ++ paint false green m.command
      ++ (if not (m.status == []) && not (m.reason == [])
          then codes " > " ++ paint false green m.status ++ codes "/" ++ paint false green m.reason
          else [])
      ++ codes "\n"

  with_error : Base64 → Response → Option Error → Bytes
  unfolding details format_error
  with_error decode_base64 m none = details decode_base64 m
  with_error decode_base64 m (some e) =
      if is_int e.code (pos 0) then details decode_base64 m else format_error m.tid e

  -- response.String()
  unfoldable pub to_string : Base64 → Response → Bytes
  unfolding first_line with_error
  to_string decode_base64 m = first_line m ++ with_error decode_base64 m m.error

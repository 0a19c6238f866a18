-- ===== src/ClientTool/Completer.antt =====
-- dbgpClient/readline.go: what the terminal completes. Package readline, which offers it, is not modelled.
use dbgp_tools.Base.{Bytes, codes, List, [], ◌∷◌, ◌++◌, map}

infixr 5 ◌&◌
mutual
  -- readline.PcItem(name, children...)
  pub data Item : Type 0 where
    pc_item : Bytes → Items → Item

  pub data Items : Type 0 where
    nil : Items
    ◌&◌ : Item → Items → Items

abbrev leaf : Bytes → Item
leaf name = pc_item name nil

breakpoint_set_item : Item
breakpoint_set_item = pc_item (codes "breakpoint_set") (
    pc_item (codes "-t line") (leaf (codes "-f") & leaf (codes "-n") & nil)
    & pc_item (codes "-t conditional")
        (leaf (codes "-f") & leaf (codes "-n") & leaf (codes "--") & nil)
    & pc_item (codes "-t call") (leaf (codes "-a") & leaf (codes "-m") & nil)
    & pc_item (codes "-t return") (leaf (codes "-a") & leaf (codes "-m") & nil)
    & pc_item (codes "-t exception") (leaf (codes "-x") & nil)
    & leaf (codes "-t watch")
    & leaf (codes "-h")
    & leaf (codes "-o >=")
    & leaf (codes "-o ==")
    & leaf (codes "-o %")
    & leaf (codes "-s enabled")
    & leaf (codes "-s disabled")
    & nil)

breakpoint_update_item : Item
breakpoint_update_item = pc_item (codes "breakpoint_update -d") (
    leaf (codes "-n")
    & leaf (codes "-h")
    & leaf (codes "-o >=")
    & leaf (codes "-o ==")
    & leaf (codes "-o %")
    & leaf (codes "-s enabled")
    & leaf (codes "-s disabled")
    & nil)

context_get_item : Item
context_get_item = pc_item (codes "context_get") (leaf (codes "-c") & leaf (codes "-d") & nil)

eval_item : Item
eval_item = pc_item (codes "eval") (leaf (codes "-p") & leaf (codes "--") & nil)

feature_get_item : Item
feature_get_item = pc_item (codes "feature_get -n") (
    leaf (codes "breakpoint_details")
    & leaf (codes "breakpoint_include_return_value")
    & leaf (codes "breakpoint_languages")
    & leaf (codes "breakpoint_types")
    & leaf (codes "data_encoding")
    & leaf (codes "encoding")
    & leaf (codes "extended_properties")
    & leaf (codes "language_name")
    & leaf (codes "language_supports_threads")
    & leaf (codes "language_version")
    & leaf (codes "max_children")
    & leaf (codes "max_data")
    & leaf (codes "max_depth")
    & leaf (codes "notify_ok")
    & leaf (codes "protocol_version")
    & leaf (codes "resolved_breakpoints")
    & leaf (codes "show_hidden")
    & leaf (codes "supported_encodings")
    & leaf (codes "supports_async")
    & leaf (codes "supports_postmortem")
    & nil)

feature_set_item : Item
feature_set_item = pc_item (codes "feature_set -n") (
    leaf (codes "breakpoint_details -v")
    & leaf (codes "breakpoint_include_return_value -v")
    & leaf (codes "encoding -v")
    & leaf (codes "extended_properties -v")
    & leaf (codes "max_children -v")
    & leaf (codes "max_data -v")
    & leaf (codes "max_depth -v")
    & leaf (codes "notify_ok -v")
    & leaf (codes "resolved_breakpoints -v")
    & leaf (codes "show_hidden -v")
    & nil)

property_get_item : Item
property_get_item = pc_item (codes "property_get") (
    leaf (codes "-c")
    & leaf (codes "-d")
    & leaf (codes "-m")
    & leaf (codes "-n")
    & leaf (codes "-p")
    & nil)

property_set_item : Item
property_set_item = pc_item (codes "property_set") (
    leaf (codes "-c")
    & leaf (codes "-d")
    & leaf (codes "-n")
    & leaf (codes "-p")
    & leaf (codes "--")
    & nil)

property_value_item : Item
property_value_item =
    pc_item (codes "property_value")
      (leaf (codes "-c") & leaf (codes "-d") & leaf (codes "-n") & leaf (codes "-p") & nil)

source_item : Item
source_item =
    pc_item (codes "source") (leaf (codes "-f") & leaf (codes "-b") & leaf (codes "-e") & nil)

stack_get_item : Item
stack_get_item = pc_item (codes "stack_get") (leaf (codes "-d") & nil)

stdout_item : Item
stdout_item = pc_item (codes "stdout -c") (leaf (codes "0") & leaf (codes "1") & nil)

-- The variable completer.
unfoldable pub completer : Items
unfolding breakpoint_set_item breakpoint_update_item context_get_item eval_item feature_get_item
    feature_set_item property_get_item property_set_item property_value_item source_item
    stack_get_item stdout_item
completer =
    leaf (codes "breakpoint_get -d")
    & leaf (codes "breakpoint_list")
    & leaf (codes "breakpoint_remove -d")
    & leaf (codes "breakpoint_get -d")
    & breakpoint_set_item
    & breakpoint_update_item
    & context_get_item
    & leaf (codes "context_names")
    & eval_item
    & feature_get_item
    & feature_set_item
    & leaf (codes "typemap_get")
    & property_get_item
    & property_set_item
    & property_value_item
    & source_item
    & leaf (codes "stack_depth")
    & stack_get_item
    & leaf (codes "status")
    & leaf (codes "stderr")
    & stdout_item
    & leaf (codes "run")
    & leaf (codes "step_into")
    & leaf (codes "step_out")
    & leaf (codes "step_over")
    & leaf (codes "stop")
    & leaf (codes "detach")
    & leaf (codes "help")
    & nil

unfoldable mutual
  -- The lines that can be completed whole: the names on the ways through the tree, with spaces between.
  pub lines_of : Item → List Bytes
  lines_of (pc_item name nil) = name ∷ []
  lines_of (pc_item name (i & is)) = name ∷ map (λ l. name ++ codes " " ++ l) (all_lines (i & is))

  pub all_lines : Items → List Bytes
  all_lines nil = []
  all_lines (i & is) = lines_of i ++ all_lines is

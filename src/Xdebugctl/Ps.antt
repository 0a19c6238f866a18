-- ===== src/Xdebugctl/Ps.antt =====
-- The command "ps": the answers of the scripts.
use dbgp_tools.Base.{Bytes, codes, Bool, true, some, [], ◌++◌, map, ◌≡◌, All, List}
use mathlib.Core.List.{Perm}
use dbgp_tools.Base.Int.{ℤ}
use dbgp_tools.Go.Net.{Conn}
use dbgp_tools.Xdebugctl.Sockets.{Files}
use dbgp_tools.Xdebugctl.SendCmd.{World, send_cmd}
use dbgp_tools.Xdebugctl.{Run, concat}
use dbgp_tools.Xdebugctl.Selection.{or_empty}

module _ (w : World) (show_xml : Bool) where
  -- No write to the script's socket fails.
  abbrev pub IsQuiet : ℤ × Bytes → Type 0
  IsQuiet (script, file) = (conn : Conn) → w.dial file ≡ some conn → conn.faults ≡ []

  -- What sendCmd returns for a script.
  abbrev pub answer_of : ℤ × Bytes → Bytes
  answer_of (script, file) = or_empty (send_cmd w show_xml file script (codes "ps")).text

  -- It was sent "ps" and nothing else, and is closed.
  pub record IsAsked (c : Conn) : Type 0 where
    pub before : Bytes
    pub wrote : c.sent ≡ before ++ codes "ps"
    pub shut : c.closed ≡ true

module _ (w : World) (show_xml : Bool) (arrives : (ts : List Bytes) → Perm (w.arrive ts) ts) where
  -- The program asks these scripts and no other, and prints their answers.
  pub record Asks (run : Run) (files : Files) : Type 0 where
    pub exit : run.exit ≡ 0
    pub texts : List Bytes
    pub answered : Perm texts (map (answer_of w show_xml) files)
    pub printed : run.output ≡ w.headings ++ concat texts
    pub conns : All (IsAsked w show_xml) run.conns

-- ===== src/Xdebugctl/Selection.antt =====
-- Which script a command other than "ps" goes to.
use dbgp_tools.Base.{
  Bytes, codes, ◌==◌, eqb, length, Bool, true, false, Option, none, some, [], ◌∷◌, ◌++◌, ◌≡◌, refl,
  All, arith, ap, ◌∙◌,
}
use dbgp_tools.Base.Int.{ℤ, pos, is_int}
use dbgp_tools.Xdebugctl.Sockets.{Files}
use dbgp_tools.Xdebugctl.SendCmd.{World, error_text, send_cmd}
use dbgp_tools.Go.Net.{Conn, read_from, close}
use dbgp_tools.Go.Net.Laws.{write_unfailing}
use dbgp_tools.Xdebugctl.{Flags, select, run_command, on_files, main, handle_arguments}
use dbgp_tools.Go.Decimal.{itoa}

-- An entry of another script.
abbrev pub IsOther : ℤ → ℤ × Bytes → Type 0
IsOther pid (script, file) = is_int script pid ≡ false

select_others :
    (pid : ℤ) (one : Bool) (files : Files)
    → is_int pid (pos 0) ≡ false
    → All (IsOther pid) files
    → select pid one files ≡ none
unfolding select
select_others pid one [] z h = refl
select_others pid one ((script, file) ∷ files) z (o, h) =
    ground (arith, select_others pid one files z h)

abbrev pub one_command : ℤ → Bool → Bytes → Flags
one_command pid show_xml c = record {
  help = false;
  version = false;
  pid = pid;
  show_xml = show_xml;
  arguments = c ∷ [];
}

module _ (w : World) (pid : ℤ) (show_xml : Bool) (c : Bytes) (no_ps : c == codes "ps" ≡ false) where
  with_pid :
      (files : Files)
      → is_int pid (pos 0) ≡ false
      → main w (one_command pid show_xml c) (some files)
        ≡ run_command w (one_command pid show_xml c) c (select pid (eqb (length files) 1) files)
  unfolding main on_files handle_arguments
  with_pid files z = ground (arith, z, no_ps)

  -- If no entry of the map has the PID, the program connects to no script, says so and exits with 4.
  pub main_no_script :
      (files : Files)
      → is_int pid (pos 0) ≡ false
      → All (IsOther pid) files
      → main w (one_command pid show_xml c) (some files) ≡ record {
        exit = 4;
        output = error_text w ++ codes ": No script with PID '" ++ itoa pid ++ codes "' active\n";
        conns = [];
      }
  unfolding run_command
  main_no_script files z h =
      with_pid files z
      ∙ ap (run_command w (one_command pid show_xml c) c) (select_others pid _ files z h)

  -- Without a PID, the command is run for the only script there is; if there is none the exit code is 2,
  -- and if there are more it is 1, and no script is connected to.
  pub main_no_pid :
      (script : ℤ) (file : Bytes) (other : ℤ × Bytes) (more : Files)
      → is_int pid (pos 0) ≡ true
      → let run = λ (files : Files). main w (one_command pid show_xml c) (some files) in
        (run ((script, file) ∷ [])
          ≡ run_command w (one_command pid show_xml c) c (some (script, file)))
        × ((run []).exit ≡ 2)
        × ((run []).conns ≡ [])
        × ((run ((script, file) ∷ other ∷ more)).exit ≡ 1)
        × ((run ((script, file) ∷ other ∷ more)).conns ≡ [])
  unfolding main on_files handle_arguments select
  main_no_pid script file other more z = (
    ground (arith, z, no_ps),
    ground (arith, z, no_ps),
    ground (arith, z, no_ps),
    ground (arith, z, no_ps),
    ground (arith, z, no_ps),
  )

abbrev pub or_empty : Option Bytes → Bytes
or_empty none = []
or_empty (some t) = t

module _ (w : World) (show_xml : Bool) (script : ℤ) (file command : Bytes) (conn : Conn)
    (reached : w.dial file ≡ some conn) (quiet : conn.faults ≡ []) where
  -- The connection of sendCmd.
  pub send_cmd-conn :
      let a = send_cmd w show_xml file script command in
      (text : Bytes) × (a.text ≡ some text)
      × ((last : Conn) × (a.conn ≡ some last)
          × (last.sent ≡ conn.sent ++ command)
          × (last.closed ≡ true))
  unfolding send_cmd read_from close
  send_cmd-conn =
      let e = write_unfailing command conn quiet in
      let wrote : Conn = record conn { sent = conn.sent ++ command } in
      (
        or_empty (send_cmd w show_xml file script command).text,
        rw (reached, send_cmd, e) refl,
        (close (read_from 0 [] wrote).conn, rw (reached, send_cmd, e) refl, refl, refl),
      )

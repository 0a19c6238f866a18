-- ===== src/Xdebugctl.antt =====
-- xdebugctl/main.go: the tool that sends a command to running scripts.
pub mod Sockets
pub mod Windows
pub mod Usage
pub mod SendCmd
pub mod Selection
pub mod Ps
pub mod Tests
use dbgp_tools.Base.{
  Bytes, codes, ◌==◌, eqb, ltb, length, ℕ, Bool, not, ◌||◌, ◌&&◌, if◌then◌else◌, Option, none, some,
  List, [], ◌∷◌, ◌++◌,
}
use dbgp_tools.Base.Int.{ℤ, pos, is_int}
use dbgp_tools.Go.Decimal.{itoa}
use dbgp_tools.Go.Net.{Conn}
use dbgp_tools.Xdebugctl.Sockets.{Files}
use dbgp_tools.Xdebugctl.Usage.{print_version, print_command_list, print_start_up}
use dbgp_tools.Xdebugctl.SendCmd.{World, send_cmd, error_text}

pub record Flags : Type 0 where
  pub help : Bool
  pub version : Bool
  pub pid : ℤ
  pub show_xml : Bool
  pub arguments : List Bytes

-- handleArguments(): the command, or the code of os.Exit and what was printed before it
pub data Arguments : Type 0 where
  exits : ℕ → Bytes → Arguments
  command : Bytes → Arguments

abbrev print_usage : World → Bytes
print_usage w = print_start_up ++ w.usage ++ print_command_list

abbrev help_asked : World → Arguments
help_asked w = exits 1 (print_version w.printer.paint ++ print_usage w)

one_argument : World → List Bytes → Arguments
one_argument w [] = help_asked w
one_argument w (c ∷ []) = command c
one_argument w (c ∷ d ∷ cs) = help_asked w

unfoldable pub handle_arguments : World → Flags → Arguments
unfolding one_argument
handle_arguments w f =
    if f.version
    then exits 0 (print_version w.printer.paint)
    else if f.help
    then help_asked w
    else one_argument w f.arguments

-- How the program ends, what it printed, and the connections that were made.
pub record Run : Type 0 where
  pub exit : ℕ
  pub output : Bytes
  pub conns : List Conn

abbrev ends : ℕ → Bytes → List Conn → Run
ends code text conns = record { exit = code; output = text; conns = conns }

abbrev pub those : Option Conn → List Conn
those none = []
those (some c) = c ∷ []

-- The scripts that "ps" asks.
unfoldable pub asked : ℤ → Files → Files
asked pid [] = []
asked pid ((script, file) ∷ files) =
    let rest = asked pid files in
    if is_int pid (pos 0) || is_int script pid then (script, file) ∷ rest else rest

-- Their answers: the texts, or `none` if one of them is a log.Fatal, and the connections.
answers : World → Bool → Files → Option (List Bytes) × List Conn
unfolding send_cmd
answers w show_xml [] = (some [], [])
answers w show_xml ((script, file) ∷ files) =
    let a = send_cmd w show_xml file script (codes "ps") in
    let (texts, conns) = answers w show_xml files in
    (
      elim a.text [ none ↦ none | some t ↦ elim texts [ none ↦ none | some ts ↦ some (t ∷ ts) ] ],
      those a.conn ++ conns,
    )

pub concat : List Bytes → Bytes
concat [] = []
concat (s ∷ ss) = s ++ concat ss

-- The branch for "ps". After a log.Fatal, what other answers could have printed before is left out.
ps : World → Flags → Files → Run
unfolding answers asked concat
ps w f files =
    let (texts, conns) = answers w f.show_xml (asked f.pid files) in
    elim texts [
      | none ↦ ends 1 w.headings conns
      | some ts ↦ ends 0 (w.headings ++ concat (w.arrive ts)) conns
    ]

-- The loop that looks for the script: the first that fits; `one` is whether there is one file.
unfoldable pub select : ℤ → Bool → Files → Option (ℤ × Bytes)
select pid one [] = none
select pid one ((script, file) ∷ files) =
    let rest = select pid one files in
    if is_int script pid || (one && is_int pid (pos 0)) then some (script, file) else rest

-- What is done with it.
unfoldable pub run_command : World → Flags → Bytes → Option (ℤ × Bytes) → Run
unfolding send_cmd error_text
run_command w f c none =
    ends 4 (error_text w ++ codes ": No script with PID '" ++ itoa f.pid ++ codes "' active\n") []
run_command w f c (some (script, file)) =
    let a = send_cmd w f.show_xml file script (codes "pause") in
    if c == codes "pause"
    then elim a.text [ none ↦ ends 1 [] (those a.conn) | some t ↦ ends 0 t (those a.conn) ]
    else ends 3 (error_text w ++ codes ": Unknown command '" ++ c ++ codes "'\n") []

-- main() behind handleArguments, with the map in the order in which `range` visits it
unfoldable pub on_files : World → Flags → Bytes → Files → Run
unfolding ps select run_command error_text
on_files w f c files =
    if ltb 1 (length files) && is_int f.pid (pos 0) && not (c == codes "ps")
    then ends 1
        (error_text w
          ++ codes ": You must specify a PID with -p as there is more than one script\n"
          ++ print_usage w)
        []
    else if c == codes "ps"
    then ps w f files
    else if eqb (length files) 0 && is_int f.pid (pos 0) && not (c == codes "ps")
    then ends 2 (error_text w ++ codes ": Could not find any running PHP scripts\n") []
    else run_command w f c (select f.pid (eqb (length files) 1) files)

found : World → Flags → Bytes → Option Files → Run
unfolding on_files error_text
found w f c none =
    ends 1
      (error_text w
        ++ codes ": Failed reading list of control sockets: "
        ++ w.find_error
        ++ codes "\n")
      []
found w f c (some files) = on_files w f c files

-- main(), with the result of findFiles
unfoldable pub main : World → Flags → Option Files → Run
unfolding handle_arguments found
main w f files = elim (handle_arguments w f) [
  | exits code text ↦ ends code text []
  | command c ↦ found w f c files
]

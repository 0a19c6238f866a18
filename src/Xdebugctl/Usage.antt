-- ===== src/Xdebugctl/Usage.antt =====
-- xdebugctl/main.go: the texts that are printed in front of the end of the program.
use dbgp_tools.Base.{Bytes, codes, true, ◌++◌}
use dbgp_tools.Dbgpxml.Common.{Paint, plain}

abbrev client_version : Bytes
client_version = codes "0.3.1"

abbrev client_year : Bytes
client_year = codes "2025"

-- printVersion()
abbrev pub print_version : Paint → Bytes
print_version paint =
    codes "Xdebug Controller ("
    ++ paint true plain client_version
    ++ codes ")\nCopyright 2023-"
    ++ client_year
    ++ codes " by Derick Rethans\n"

abbrev pub print_command_list : Bytes
print_command_list =
    codes "\nCommands:\n\n ps        Lists all Xdebug enabled PHP scripts\n"
    ++ codes " pause     Instructs Xdebug to initiate a debugging connection or breakpoint\n\n"

abbrev pub print_start_up : Bytes
print_start_up = codes "\n"

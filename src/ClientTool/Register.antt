-- ===== src/ClientTool/Register.antt =====
-- dbgpClient/proxy.go: the lines that register an IDE with a proxy, and unregister it.
use dbgp_tools.Base.{Bytes, codes, if◌then◌else◌, Bool, ◌++◌}
use dbgp_tools.Base.Int.{ℤ}
use dbgp_tools.Go.Decimal.{itoa}

-- The command of registerWithProxy.
unfoldable pub register_command : Bytes → ℤ → Bool → Bytes
register_command key port ssl =
    let command = codes "proxyinit -m 1 -k " ++ key ++ codes " -p " ++ itoa port in
    if ssl then command ++ codes " -s 1" else command

-- The command of unregisterWithProxy.
unfoldable pub unregister_command : Bytes → Bytes
unregister_command key = codes "proxystop -k " ++ key

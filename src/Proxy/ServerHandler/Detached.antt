-- ===== src/Proxy/ServerHandler/Detached.antt =====
-- What Xdebug gets when there is no IDE for it.
use dbgp_tools.Proxy.ServerHandler.{send_detach, detach_line}
use dbgp_tools.Base.{codes, ◌==◌, ◌≡◌, refl, [], ◌++◌, ◌∷◌, ap, ◌∙◌}
use dbgp_tools.Go.Decimal.{itoa, format_nat}
use dbgp_tools.Go.Net.{Conn}
use dbgp_tools.Go.Text.{split, join, trim_space}
use dbgp_tools.Protocol.Client.{new_dbgp_client, process_line, inject_i_if_needed, contains}
use dbgp_tools.Protocol.Formatting.{Decoder}
use dbgp_tools.Protocol.Formatting.Replies.{run_command-sent}

detach_content :
    (process_line detach_line new_dbgp_client).content
    ≡ codes "detach -i 1 -- \"dbgpProxy has no IDE connected to it\""
unfolding process_line inject_i_if_needed contains split join trim_space itoa format_nat ◌==◌
detach_content = refl

pub send_detach-sent :
    (d : Decoder) (conn : Conn)
    → conn.faults ≡ []
    → (send_detach d conn).conn.sent
      ≡ conn.sent ++ (codes "detach -i 1 -- \"dbgpProxy has no IDE connected to it\"" ++ 0 ∷ [])
unfolding send_detach
send_detach-sent d conn quiet =
    run_command-sent d detach_line new_dbgp_client conn quiet
    ∙ ap (λ line. conn.sent ++ (line ++ 0 ∷ [])) detach_content

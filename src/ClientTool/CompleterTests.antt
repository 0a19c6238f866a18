-- ===== src/ClientTool/CompleterTests.antt =====
-- The lines that the terminal completes.
use dbgp_tools.Base.{Bytes, Bool, true, not, ◌&&◌, ◌≡◌, refl, List, [], ◌∷◌, ◌==◌}
use dbgp_tools.Go.Text.{split, trim_space}
use dbgp_tools.Protocol.Client.{dash_i, contains}
use dbgp_tools.Protocol.Client.Lines.{parts_of}
use dbgp_tools.ClientTool.Completer.{completer, all_lines}

unnumbered : List Bytes → Bool
unfolding contains split trim_space ◌==◌
unnumbered [] = true
unnumbered (l ∷ ls) = not (contains dash_i (parts_of l)) && unnumbered ls

-- None of them has a part -i, so the client numbers each.
unnumbered-completer : unnumbered (all_lines completer) ≡ true
unfolding unnumbered completer all_lines
unnumbered-completer = refl

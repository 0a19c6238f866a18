-- ===== src/ClientTool/Tests.antt =====
-- A registration at concrete values.
use dbgp_tools.Base.{◌≢◌, false, [], ◌∷◌, ◌++◌, List, arith}
use dbgp_tools.Go.Stream.{Event, chunk}
use dbgp_tools.Connections.Tests.{key}
use dbgp_tools.Protocol.Client.{dash_i, new_dbgp_client}
use dbgp_tools.ClientTool.Registration.{IsRegistrable, line}

not_flag : key ≢ dash_i
not_flag e = cc

pub key-IsRegistrable : IsRegistrable new_dbgp_client key 9003 false
key-IsRegistrable = record {
  not_empty = λ e. cc;
  not_flag = not_flag;
  no_space = (
    omega arith,
    (
      omega arith,
      (omega arith, (omega arith, (omega arith, (omega arith, (omega arith, (omega arith, tt)))))),
    ),
  );
  no_zero = (
    omega arith,
    (
      omega arith,
      (omega arith, (omega arith, (omega arith, (omega arith, (omega arith, (omega arith, tt)))))),
    ),
  );
  port_fits = omega arith;
}

abbrev pub there : List Event
there = chunk (line new_dbgp_client key 9003 false ++ 0 ∷ []) ∷ []

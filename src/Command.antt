-- ===== src/Command.antt =====
-- lib/command: the commands that an IDE sends to the proxy. Handle's second result, the error of
-- AsXML, is always nil, and the log lines are not modelled.
pub mod Arguments
pub mod Expected
pub mod ProxyInit
pub mod ProxyStop
pub mod CloudInit
pub mod CloudStop
pub mod Tests
use dbgp_tools.Base.{Bytes, List}
use dbgp_tools.Connections.{Registry, Pointer, ConnectionControl}

-- Why a command line is refused. The last one is of the parser of lines.
pub data Error : Type 0 where
  bad_port bad_ssl : Bytes → Error
  unknown_argument : Bytes → Bytes → Error
  no_argument : Bytes → Error
  no_ide_key no_username : Error
  not_understood : List Bytes → Error

pub data Result {ℓ} (A : Type ℓ) : Type ℓ where
  ok : A → Result A
  err : Error → Result A

infixl 5 ◌>>=◌
abbrev pub ◌>>=◌ {ℓ κ} : {A : Type ℓ} {B : Type κ} → Result A → (A → Result B) → Result B
ok a >>= f = f a
err e >>= f = err e

-- What Handle changes and returns: the list, the text of the answer, and what is sent to the
-- control channels of connections.
pub record Handled : Type 0 where
  pub registry : Registry
  pub answer : Bytes
  pub sends : List (Pointer × ConnectionControl)

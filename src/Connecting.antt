-- ===== src/Connecting.antt =====
-- lib/connections/utils.go. Dialling is a parameter: what tls.Dial or net.Dial returns for an address.
use dbgp_tools.Base.{Bytes, codes, ℕ, ◌+◌, ◌%◌, Bool, true, Option, ◌∷◌, ◌++◌}
use dbgp_tools.Go.Crc32.{checksum_ieee}
use dbgp_tools.Go.Net.{Conn}

-- tls.Dial("tcp", address, nil) where the Boolean is set, net.Dial("tcp", address) where it is not;
-- `none` is an error
abbrev pub Dialler : Type 0
Dialler = Bool → Bytes → Option Conn

-- ConnectTo(address, ssl)
abbrev pub connect_to : Dialler → Bytes → Bool → Option Conn
connect_to dial address ssl = dial ssl address

-- The letter of the host: the mask 0x0f leaves four bits of the checksum.
unfoldable pub host_letter : Bytes → ℕ
unfolding checksum_ieee
host_letter uid = checksum_ieee uid % 16 + b'a'

-- CloudHostFromUserId(domain, port, uid)
unfoldable pub cloud_host_from_user_id : Bytes → Bytes → Bytes → Bytes
unfolding host_letter
cloud_host_from_user_id domain port uid =
    host_letter uid ∷ (codes "." ++ domain ++ codes ":" ++ port)

-- ConnectToCloud(domain, port, uid, logger)
unfoldable pub connect_to_cloud : Dialler → Bytes → Bytes → Bytes → Option Conn
unfolding cloud_host_from_user_id
connect_to_cloud dial domain port uid =
    connect_to dial (cloud_host_from_user_id domain port uid) true

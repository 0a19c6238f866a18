-- ===== src/ProxyProgram.antt =====
-- dbgpProxy/main.go: what the proxy starts, and what it stops. The flags are given, as package getopt
-- leaves them; the lines of the logger and the usage text are left out.
pub mod Stopping
pub mod Tests
use dbgp_tools.Base.{
  Bytes, codes, ◌==◌, ℕ, Bool, false, not, ◌||◌, ltb, if◌then◌else◌, Option, none, some, List, [],
  ◌∷◌, ◌++◌,
}
use dbgp_tools.Connections.{Registry, new_connection_list}
use dbgp_tools.Connecting.{cloud_host_from_user_id}
use dbgp_tools.Listener.{cloud_connect, CloudConnected, serving, not_connected, crashed, refused}
use dbgp_tools.ClientTool.Proxy.{Env, Once, unregister_cloud_client}

pub record Flags : Type 0 where
  pub help : Bool
  pub version : Bool
  pub arguments : ℕ
  pub force_add : Bool
  pub cloud_user : Bytes
  pub discloud_user : Bytes
  pub client_address : Bytes
  pub client_ssl_address : Bytes
  pub server_address : Bytes
  pub server_ssl_address : Bytes

abbrev pub cloud_domain : Bytes
cloud_domain = codes "cloud.xdebug.com"

abbrev pub cloud_port : Bytes
cloud_port = codes "9021"

abbrev client_version : Bytes
client_version = codes "0.6.2"

abbrev client_year : Bytes
client_year = codes "2025"

-- printStartUp(); Println prints its second argument behind a space, and no verb
abbrev pub print_start_up : Bytes
print_start_up =
    codes "Xdebug DBGp proxy ("
    ++ client_version
    ++ codes ")\nCopyright %s by Derick Rethans "
    ++ client_year
    ++ codes "\n"

-- checkEnableSSLServers(); the arguments are whether the two files can be found
unfoldable pub check_enable_ssl_servers : Bool → Bool → Bool
check_enable_ssl_servers fullchain privkey = if not fullchain then false else privkey

-- handleArguments(), behind getopt.Parse: the code of os.Exit, if the program ends here
unfoldable pub handle_arguments : Flags → Option ℕ
handle_arguments f =
    if f.help || ltb 0 f.arguments then some 1 else if f.version then some 0 else none

-- The two handlers of lib/proxy: for Xdebug and for IDEs.
pub data HandlerKind : Type 0 where
  server_handler client_handler : HandlerKind

-- A server.Server with the handler it is started with: CloudConnect, ListenSSL or Listen.
pub data Way : Type 0 where
  cloud ssl plain : Way

pub record Service : Type 0 where
  pub server_type : Bytes
  pub address : Bytes
  pub way : Way
  pub handler : HandlerKind

-- The variables of main. A server that was not made is nil.
pub record Servers : Type 0 where
  pub cloud_client : Option Service
  pub server_server : Option Service
  pub server_ssl_server : Option Service
  pub client_server : Option Service
  pub client_ssl_server : Option Service

-- How main ends; `panicked` is a panic of resolveTCP, of RunCommand or of Stop on nil. The argument of
-- `stopped` are the servers on which Stop was called, in order.
pub data Ended : Type 0 where
  exited : ℕ → Ended
  not_started panicked : Ended
  stopped : List Service → Ended

-- The list of IDEs that the handlers share, the servers for which a goroutine was started, in order,
-- and the command "cloudstop", if it ran.
pub record Run : Type 0 where
  pub ended : Ended
  pub registry : Registry
  pub started : List Service
  pub unregistered : List Once

-- What the program finds around it: the network as in `env`, resolved addresses, with `none` for an
-- error of net.ResolveTCPAddr, and the text of an error of dialling.
pub record World : Type 0 where
  pub env : Env
  pub resolve : Bytes → Option Bytes
  pub dial_error : Bytes

abbrev service : Bytes → Bytes → Way → HandlerKind → Service
service server_type address way handler = record {
  server_type = server_type;
  address = address;
  way = way;
  handler = handler;
}

-- The servers that have been made and started, after which resolveTCP has panicked or not.
pub data Opened : Type 0 where
  broke opened : Servers → Opened

-- server.NewServer with resolveTCP, with what has been made if that panics, and what follows if not.
with_server : World → Service → Servers → (Service → Opened) → Opened
with_server w s before next = elim (w.resolve s.address) [
  | none ↦ broke before
  | some a ↦ next (record s { address = a })
]

abbrev no_servers : Servers
no_servers = record {
  cloud_client = none;
  server_server = none;
  server_ssl_server = none;
  client_server = none;
  client_ssl_server = none;
}

-- The listeners that main starts, where there is no cloud, for Xdebug.
server_listeners : Bool → Flags → World → Opened
unfolding with_server
server_listeners enable f w =
    with_server w (service (codes "server") f.server_address plain server_handler) no_servers (λ s.
      let first : Servers = record no_servers { server_server = some s } in
      if enable
      then with_server w (service (codes "server-ssl") f.server_ssl_address ssl server_handler)
          first (λ t. opened (record first { server_ssl_server = some t }))
      else opened first)

-- The listeners for IDEs, after those for Xdebug.
client_listeners : Bool → Flags → World → Servers → Opened
unfolding with_server
client_listeners enable f w v =
    with_server w (service (codes "client") f.client_address plain client_handler) v (λ s.
      let first : Servers = record v { client_server = some s } in
      if enable
      then with_server w (service (codes "client-ssl") f.client_ssl_address ssl client_handler)
          first (λ t. opened (record first { client_ssl_server = some t }))
      else opened first)

abbrev pub those : Option Service → List Service
those none = []
those (some s) = s ∷ []

-- The servers that have been started.
abbrev pub started_of : Servers → List Service
started_of v =
    those v.cloud_client
    ++ those v.server_server
    ++ those v.server_ssl_server
    ++ those v.client_server
    ++ those v.client_ssl_server

-- server.Stop() on each; on nil it panics.
stop_all : List (Option Service) → Option (List Service)
stop_all [] = some []
stop_all (none ∷ ss) = none
stop_all (some s ∷ ss) =
    let rest = stop_all ss in elim rest [ none ↦ none | some ts ↦ some (s ∷ ts) ]

-- The calls of Stop behind the select.
stop_servers : Bool → Flags → Servers → Option (List Service)
unfolding stop_all
stop_servers enable f v = stop_all (
    (v.client_server ∷ (if enable then v.client_ssl_server ∷ [] else []))
    ++ (if f.cloud_user == []
        then v.server_server ∷ (if enable then v.server_ssl_server ∷ [] else [])
        else v.cloud_client ∷ []))

ended_run : Flags → List Once → Ended → List Service → Run
ended_run f ran e started = record {
  ended = e;
  registry = new_connection_list f.force_add;
  started = started;
  unregistered = ran;
}

-- From the listeners for IDEs to the end, which a signal or the channel brings.
serve : Bool → Flags → World → List Once → Opened → Run
unfolding client_listeners stop_servers ended_run
serve enable f w ran (broke v) = ended_run f ran panicked (started_of v)
serve enable f w ran (opened v) = elim (client_listeners enable f w v) [
  | broke some_of ↦ ended_run f ran panicked (started_of some_of)
  | opened all ↦ elim (stop_servers enable f all) [
    | none ↦ ended_run f ran panicked (started_of all)
    | some ss ↦ ended_run f ran (stopped ss) (started_of all)
  ]
]

-- After CloudConnect
after_cloud : Bool → Flags → World → List Once → Service → CloudConnected → Run
unfolding serve ended_run
after_cloud enable f w ran s (serving conn) =
    serve enable f w ran (opened (record no_servers { cloud_client = some s }))
after_cloud enable f w ran s not_connected = ended_run f ran not_started []
after_cloud enable f w ran s crashed = ended_run f ran panicked []
after_cloud enable f w ran s (refused e) = ended_run f ran not_started []

-- The branch for the cloud, with the address of NewServer.
start_cloud : Bool → Flags → World → List Once → Option Bytes → Run
unfolding after_cloud cloud_connect ended_run
start_cloud enable f w ran none = ended_run f ran panicked []
start_cloud enable f w ran (some a) =
    after_cloud enable f w ran (service (codes "cloud-client-ssl") a cloud server_handler)
      (cloud_connect w.env.decoder w.env.dial a f.cloud_user)

-- protocol.UnregisterCloudClient, if there is a user to disconnect
unregistered : Flags → World → List Once
unfolding unregister_cloud_client
unregistered f w =
    if f.discloud_user == []
    then []
    else unregister_cloud_client w.env cloud_domain cloud_port f.discloud_user w.dial_error ∷ []

-- main() behind handleArguments
start : Bool → Flags → World → Run
unfolding start_cloud unregistered server_listeners serve cloud_host_from_user_id
start enable f w =
    if f.cloud_user == []
    then serve enable f w [] (server_listeners enable f w)
    else start_cloud enable f w (unregistered f w)
        (w.resolve (cloud_host_from_user_id cloud_domain cloud_port f.cloud_user))

-- main(); the first two arguments are whether the files of the certificate can be found
unfoldable pub main : Bool → Bool → Flags → World → Run
unfolding check_enable_ssl_servers handle_arguments start ended_run
main fullchain privkey f w = elim (handle_arguments f) [
  | some code ↦ ended_run f [] (exited code) []
  | none ↦ start (check_enable_ssl_servers fullchain privkey) f w
]

-- ===== src/ProxyProgram/Tests.antt =====
-- The theorems on the proxy's main, for a run with listeners and with SSL.
use mathlib.Core.List.{Perm}
use dbgp_tools.Base.{codes, ◌≡◌, refl, true, false, some, List, [], ◌∷◌, ◌==◌}
use dbgp_tools.ClientTool.CommandTests.{env}
use dbgp_tools.ProxyProgram.{
  Flags, World, Service, main, stopped, plain, ssl, server_handler, client_handler,
  check_enable_ssl_servers, handle_arguments,
}
use dbgp_tools.ProxyProgram.Stopping.{main_stops}

abbrev flags : Flags
flags = record {
  help = false;
  version = false;
  arguments = 0;
  force_add = false;
  cloud_user = [];
  discloud_user = [];
  client_address = codes "localhost:9001";
  client_ssl_address = codes "localhost:9011";
  server_address = codes "localhost:9003";
  server_ssl_address = codes "localhost:9013";
}

abbrev world : World
world = record { env = env; resolve = λ a. some a; dial_error = [] }

abbrev services : List Service
services =
    record {
      server_type = codes "client";
      address = codes "localhost:9001";
      way = plain;
      handler = client_handler;
    }
    ∷ record {
      server_type = codes "client-ssl";
      address = codes "localhost:9011";
      way = ssl;
      handler = client_handler;
    }
    ∷ record {
      server_type = codes "server";
      address = codes "localhost:9003";
      way = plain;
      handler = server_handler;
    }
    ∷ record {
      server_type = codes "server-ssl";
      address = codes "localhost:9013";
      way = ssl;
      handler = server_handler;
    }
    ∷ []

ends : (main true true flags world).ended ≡ stopped services
unfolding main check_enable_ssl_servers handle_arguments ◌==◌
ends = refl

main_stops_example : Perm services (main true true flags world).started
main_stops_example = main_stops true true flags world services ends

-- ===== src/ProxyProgram/Stopping.antt =====
-- What main stops, and which flags it looks at.
use mathlib.Core.List.{Perm, perm_append_comm}
use dbgp_tools.Base.{
  Bytes, ◌==◌, Bool, true, false, Option, none, some, List, [], ◌∷◌, ◌≡◌, refl, inl, inr,
  Bool-cases, Option-cases,
}
use mathlib.Core.Path.{subst}
use dbgp_tools.Listener.{CloudConnected, serving, not_connected, crashed, refused}
use dbgp_tools.ClientTool.Proxy.{Once}
use dbgp_tools.ProxyProgram.{
  handle_arguments, ended_run, with_server, start_cloud, after_cloud, exited, not_started, panicked,
  Flags, World, Run, Ended, main, stopped, Service, Servers, serve, stop_servers, stop_all,
  client_listeners, server_listeners, start, opened,
}

-- Without a user to connect to the cloud, the flag for a user to disconnect has no effect.
pub main_discloud :
    (fullchain privkey : Bool) (f : Flags) (w : World) (user : Bytes)
    → f.cloud_user ≡ []
    → main fullchain privkey (record f { discloud_user = user }) w ≡ main fullchain privkey f w
unfolding main start serve server_listeners client_listeners stop_servers handle_arguments ◌==◌
    ended_run
main_discloud fullchain privkey f w user no_cloud = rw no_cloud refl

-- What a run that is asked to end stops is what it started.
Balanced : Ended → List Service → Type 0
Balanced (stopped ss) started = Perm ss started
Balanced (exited code) started = Unit
Balanced not_started started = Unit
Balanced panicked started = Unit

BalancedRun : Run → Type 0
unfolding Balanced
BalancedRun r = Balanced r.ended r.started

abbrev for_xdebug : Service → Option Service → Servers
for_xdebug s t = record {
  cloud_client = none;
  server_server = some s;
  server_ssl_server = t;
  client_server = none;
  client_ssl_server = none;
}

abbrev for_cloud : Service → Servers
for_cloud s = record {
  cloud_client = some s;
  server_server = none;
  server_ssl_server = none;
  client_server = none;
  client_ssl_server = none;
}

module _ (f : Flags) (w : World) (ran : List Once) (s : Service) where
  serve-plain :
      f.cloud_user == [] ≡ true → BalancedRun (serve false f w ran (opened (for_xdebug s none)))
  unfolding serve client_listeners with_server stop_servers stop_all BalancedRun ended_run
  serve-plain no_cloud = elim (Option-cases (w.resolve f.client_address)) [
    | inl p ↦ rw (p, serve, client_listeners, with_server) tt
    | inr (a, p) ↦
        rw (p, no_cloud, serve, client_listeners, with_server, stop_servers)
          (perm_append_comm (_ ∷ []) (s ∷ []))
  ]

  serve-ssl :
      (t : Service)
      → f.cloud_user == [] ≡ true
      → BalancedRun (serve true f w ran (opened (for_xdebug s (some t))))
  unfolding serve client_listeners with_server stop_servers stop_all BalancedRun ended_run
  serve-ssl t no_cloud = elim (Option-cases (w.resolve f.client_address)) [
    | inl p ↦ rw (p, serve, client_listeners, with_server) tt
    | inr (a, p) ↦ elim (Option-cases (w.resolve f.client_ssl_address)) [
      | inl q ↦ rw (p, q, serve, client_listeners, with_server) tt
      | inr (b, q) ↦
          rw (p, q, no_cloud, serve, client_listeners, with_server, stop_servers)
            (perm_append_comm (_ ∷ _ ∷ []) (s ∷ t ∷ []))
    ]
  ]

  serve_cloud-plain :
      f.cloud_user == [] ≡ false → BalancedRun (serve false f w ran (opened (for_cloud s)))
  unfolding serve client_listeners with_server stop_servers stop_all BalancedRun ended_run
  serve_cloud-plain user = elim (Option-cases (w.resolve f.client_address)) [
    | inl p ↦ rw (p, serve, client_listeners, with_server) tt
    | inr (a, p) ↦
        rw (p, user, serve, client_listeners, with_server, stop_servers)
          (perm_append_comm (_ ∷ []) (s ∷ []))
  ]

  serve_cloud-ssl :
      f.cloud_user == [] ≡ false → BalancedRun (serve true f w ran (opened (for_cloud s)))
  unfolding serve client_listeners with_server stop_servers stop_all BalancedRun ended_run
  serve_cloud-ssl user = elim (Option-cases (w.resolve f.client_address)) [
    | inl p ↦ rw (p, serve, client_listeners, with_server) tt
    | inr (a, p) ↦ elim (Option-cases (w.resolve f.client_ssl_address)) [
      | inl q ↦ rw (p, q, serve, client_listeners, with_server) tt
      | inr (b, q) ↦
          rw (p, q, user, serve, client_listeners, with_server, stop_servers)
            (perm_append_comm (_ ∷ _ ∷ []) (s ∷ []))
    ]
  ]

serve_cloud-Balanced :
    (enable : Bool) (f : Flags) (w : World) (ran : List Once) (s : Service)
    → f.cloud_user == [] ≡ false
    → BalancedRun (serve enable f w ran (opened (for_cloud s)))
serve_cloud-Balanced true f w ran s user = serve_cloud-ssl f w ran s user
serve_cloud-Balanced false f w ran s user = serve_cloud-plain f w ran s user

after_cloud-Balanced :
    (enable : Bool) (f : Flags) (w : World) (ran : List Once) (s : Service) (c : CloudConnected)
    → f.cloud_user == [] ≡ false
    → BalancedRun (after_cloud enable f w ran s c)
unfolding after_cloud BalancedRun ended_run
after_cloud-Balanced enable f w ran s (serving conn) user =
    serve_cloud-Balanced enable f w ran s user
after_cloud-Balanced enable f w ran s not_connected user = tt
after_cloud-Balanced enable f w ran s crashed user = tt
after_cloud-Balanced enable f w ran s (refused e) user = tt

start_cloud-Balanced :
    (enable : Bool) (f : Flags) (w : World) (ran : List Once) (address : Option Bytes)
    → f.cloud_user == [] ≡ false
    → BalancedRun (start_cloud enable f w ran address)
unfolding start_cloud BalancedRun ended_run
start_cloud-Balanced enable f w ran none user = tt
start_cloud-Balanced enable f w ran (some a) user = after_cloud-Balanced enable f w ran _ _ user

listeners-Balanced :
    (enable : Bool) (f : Flags) (w : World)
    → f.cloud_user == [] ≡ true
    → BalancedRun (serve enable f w [] (server_listeners enable f w))
unfolding serve server_listeners with_server BalancedRun ended_run
listeners-Balanced false f w no_cloud = elim (Option-cases (w.resolve f.server_address)) [
  | inl p ↦ rw (p, server_listeners, with_server) tt
  | inr (a, p) ↦ rw (p, server_listeners, with_server) (serve-plain f w [] _ no_cloud)
]
listeners-Balanced true f w no_cloud = elim (Option-cases (w.resolve f.server_address)) [
  | inl p ↦ rw (p, server_listeners, with_server) tt
  | inr (a, p) ↦ elim (Option-cases (w.resolve f.server_ssl_address)) [
    | inl q ↦ rw (p, q, server_listeners, with_server) tt
    | inr (b, q) ↦ rw (p, q, server_listeners, with_server) (serve-ssl f w [] _ _ no_cloud)
  ]
]

start-Balanced : (enable : Bool) (f : Flags) (w : World) → BalancedRun (start enable f w)
unfolding start
start-Balanced enable f w = elim (Bool-cases (f.cloud_user == [])) [
  | inl no_cloud ↦ rw (no_cloud, start) (listeners-Balanced enable f w no_cloud)
  | inr user ↦ rw (user, start) (start_cloud-Balanced enable f w _ _ user)
]

main-Balanced :
    (fullchain privkey : Bool) (f : Flags) (w : World) → BalancedRun (main fullchain privkey f w)
unfolding main BalancedRun ended_run
main-Balanced fullchain privkey f w = elim (Option-cases (handle_arguments f)) [
  | inl p ↦ rw (p, main) (start-Balanced _ f w)
  | inr (code, p) ↦ rw (p, main) tt
]

-- With the flags, the files of the certificate and the network as they may be, a run that comes to the
-- end of main has called Stop on exactly the servers that it started, on each once.
pub main_stops :
    (fullchain privkey : Bool) (f : Flags) (w : World) (ss : List Service)
    → (main fullchain privkey f w).ended ≡ stopped ss
    → Perm ss (main fullchain privkey f w).started
unfolding BalancedRun Balanced
main_stops fullchain privkey f w ss e =
    subst (λ x. Balanced x (main fullchain privkey f w).started) e
      (main-Balanced fullchain privkey f w)

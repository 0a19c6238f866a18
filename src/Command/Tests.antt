-- ===== src/Command/Tests.antt =====
-- The theorems of the commands at concrete lists and lines.
use dbgp_tools.Base.{
  codes, Bytes, ◌==◌, ◌≡◌, refl, true, false, none, some, [], ◌∷◌, List, if◌then◌else◌,
}
use dbgp_tools.Base.Int.{pos}
use dbgp_tools.Connections.{error_text, already_connected}
use dbgp_tools.Connections.Refinement.{view}
use dbgp_tools.Connections.Tests.{
  key, host, empty_list, one_client, empty_list-IsWellFormed, one_client-IsWellFormed,
  view-one_client, view-empty_list, one_client-force_add,
}
use dbgp_tools.Dbgpxml.ProxyInit as ProxyInitXml
use dbgp_tools.Dbgpxml.CloudInit as CloudInitXml
use dbgp_tools.Command.{ok, err, no_ide_key}
use dbgp_tools.Command.Arguments.{pairs_of, left_over, flag_k, flag_p, flag_m}
use dbgp_tools.Command.ProxyInit
use dbgp_tools.Command.ProxyInit.{ProxyInitCommand, create_proxy_init}
use dbgp_tools.Command.Expected.{judged, first_error, last_value}
use dbgp_tools.Command.ProxyInit.Parsing.{create_proxy_init_lem, pair_error, expected}
use dbgp_tools.Command.ProxyInit.Effect.{handle-forced}
use dbgp_tools.Command.ProxyStop.{ProxyStopCommand}
use dbgp_tools.Command.CloudInit
use dbgp_tools.Command.CloudStop
use dbgp_tools.Command.CloudInit.{CloudInitCommand, create_cloud_init}
use dbgp_tools.Command.CloudStop.{CloudStopCommand}
use dbgp_tools.Command.CloudInit.Effect.{
  close-handle-taken, close-handle-new, close_stale, connected,
}

abbrev sid : Bytes
sid = codes "sid-2"

abbrev registering : ProxyInitCommand
registering = record {
  ide_key = key;
  ip_address = codes "10.0.0.2";
  port = pos 9003;
  multiple_supported = true;
  ssl = true;
}

abbrev stopping : ProxyStopCommand
stopping = record { ide_key = key }

handle-forced_example :
    ((ProxyInit.handle sid registering (one_client true)).answer
      ≡ ProxyInitXml.as_xml
          (ProxyInitXml.new_proxy_init true key (codes "10.0.0.2") (pos 9003) true none))
    × (view (ProxyInit.handle sid registering (one_client true)).registry key ≡ none)
handle-forced_example =
    handle-forced sid registering (one_client true) (one_client-IsWellFormed true) _
      (view-one_client true) (one_client-force_add true)

-- A flag without a value at the end.
abbrev arguments : List Bytes
arguments = flag_m ∷ codes "1" ∷ flag_k ∷ key ∷ flag_p ∷ []

create_proxy_init_lem_example :
    create_proxy_init host arguments
    ≡ judged (first_error pair_error (pairs_of arguments)) (left_over arguments) (
        if last_value flag_k [] (pairs_of arguments) == []
        then err no_ide_key
        else ok (expected host (pairs_of arguments)))
create_proxy_init_lem_example = create_proxy_init_lem host arguments

abbrev cloud_key : Bytes
cloud_key = key

abbrev first : CloudInitCommand
first = record { connection = 7; user_id = cloud_key; needs_removing = true }

abbrev second : CloudInitCommand
second = record { connection = 8; user_id = cloud_key; needs_removing = true }

abbrev stop : CloudStopCommand
stop = record { connection = 9; user_id = cloud_key; needs_removing = true }

close-handle-taken_example :
    let (c', h) = CloudInit.handle sid first (one_client false) in
    (h.answer
      ≡ CloudInitXml.as_xml (
          CloudInitXml.new_cloud_init false key
            (some
              (record { id = codes "CLOUD-ERR-11"; message = error_text (already_connected key) }))
            false
            none))
    × ((CloudInit.close c' h.registry).1 ≡ [])
    × ((j : Bytes) → view (CloudInit.close c' h.registry).0 j ≡ view (one_client false) j)
close-handle-taken_example =
    close-handle-taken sid first (one_client false) _ (one_client-IsWellFormed false)
      (view-one_client false) (one_client-force_add false)

close-handle-new_example :
    let (c', h) = CloudInit.handle sid first (empty_list false) in
    (h.answer ≡ CloudInitXml.as_xml (CloudInitXml.new_cloud_init true key none false none))
    × ((j : Bytes) → view (CloudInit.close c' h.registry).0 j ≡ view (empty_list false) j)
close-handle-new_example =
    close-handle-new sid first (empty_list false) (empty_list-IsWellFormed false)
      (view-empty_list false key) refl

close_stale_example :
    let (first', h) = CloudInit.handle sid first (empty_list false) in
    let s = CloudStop.handle stop h.registry in
    let (second', h') = CloudInit.handle (codes "sid-3") second s.registry in
    (view h'.registry key ≡ some (connected (codes "sid-3") second))
    × (view (CloudInit.close first' h'.registry).0 key ≡ none)
close_stale_example =
    close_stale sid (codes "sid-3") first second stop (empty_list false)
      (empty_list-IsWellFormed false) (view-empty_list false key) refl refl refl

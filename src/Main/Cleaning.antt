-- ===== src/Main/Cleaning.antt =====
-- What the console's modes leave behind (src/main.rs): routes, and the file with the private key.
use phobos_wg_client.Base.{
  ap, List, true, false, none, some, ◌≡◌, refl, sym, subst, inl, inr, Bool-cases,
}
use phobos_wg_client.Base.Result.{Result, ok, err, AllOk-eq}
use phobos_wg_client.Archive.{PhobosProfile}
use phobos_wg_client.Archive.Export.{Exported, ready_name, export_ready_wg_conf}
use phobos_wg_client.Relay.{Config, stop}
use phobos_wg_client.Relay.Start.{StartError, open_sockets, start}
use phobos_wg_client.Text.{Text, CaseTable}
use phobos_wg_client.Tunnel.{Shared}
use phobos_wg_client.Tunnel.Console as Console
use phobos_wg_client.Tunnel.Console.{Event, opened, run}
use phobos_wg_client.Tunnel.Reaching.{some_of, is_main}
use phobos_wg_client.Tunnel.Stopped.{OfEach, run-EndsWith}
use phobos_wg_client.Tunnel.Setup.{Noise, RunError, open_socket}
use phobos_wg_client.Base.Net.{SocketAddr}
use phobos_wg_client.WgConfig.{Decode, WireGuardConfig}
use phobos_wg_client.WindowsNet.{Table}
use phobos_wg_client.WindowsNet.Routes.{IsFaithful, IsDeleting}
use phobos_wg_client.Wintun.Device.{WintunDevice, create, shutdown, IsReady, create-IsReady}
use phobos_wg_client.Wintun.Removed.{IsUnrouted, remove_routes-IsUnrouted}
use phobos_wg_client.Main.Modes.{
  CliAnswers, Target, find_target, run_tunnel, with_device, with_target, run_standalone_cli_mode,
  ProxyAnswers, not_started, is_yes, clean_up, run_proxy_mode,
}

module _ {T : Type 0} (n : Noise T) (u : CaseTable) where
  run_tunnel-IsUnrouted :
      (a : CliAnswers) (p : PhobosProfile) (wg : WireGuardConfig) (d : WintunDevice)
      (r : Result RunError SocketAddr)
      → IsDeleting a.system
      → d.route_manager.routes_installed ≡ true
      → IsUnrouted d.route_manager (run_tunnel n a p wg d r).table
  unfolding shutdown
  run_tunnel-IsUnrouted a p wg d (err e) del h =
      (remove_routes-IsUnrouted a.system d.route_manager d.table del h).0
  run_tunnel-IsUnrouted a p wg d (ok addr) del h =
      (remove_routes-IsUnrouted a.system d.route_manager d.table del h).0

  -- The table behind `run_tunnel` is the one that the threads of the tunnel leave behind, in
  -- whatever order they run before and behind the stop, each of them up to its end.
  pub run_tunnel-run :
      (a : CliAnswers) (p : PhobosProfile) (wg : WireGuardConfig) (d : WintunDevice)
      (addr : SocketAddr) (cfg : Config) (s : Shared T) (before after last : List Event)
      → OfEach after
      → some_of is_main last ≡ true
      → (run_tunnel n a p wg d (ok addr)).table
        ≡ (run n cfg a.system last (
            run n cfg a.system after
              (Console.stop (run n cfg a.system before (opened s d))))).device.table
  run_tunnel-run a p wg d addr cfg s before after last each m =
      ap (λ x. x.table) (sym (run-EndsWith n cfg a.system s d before after last each m).1)

  -- However the console's tunnel ends, by an error of its sockets or by the stop: where its adapter was
  -- created, neither half of the addresses is routed into it afterwards.
  pub run_standalone_cli_mode-IsUnrouted :
      (decode : Decode) (a : CliAnswers) (p : PhobosProfile) (t : Table) (x : Target)
      (d : WintunDevice)
      → IsFaithful a.system
      → IsDeleting a.system
      → find_target u decode a.sockets p ≡ ok x
      → (create a.driver a.system x.wg_conf x.target_ipv4 x.physical_if_index t).result ≡ ok d
      → IsUnrouted d.route_manager (run_standalone_cli_mode n u decode a p t).table
  unfolding run_standalone_cli_mode
  run_standalone_cli_mode-IsUnrouted decode a p t x d f del target made =
      let c = create a.driver a.system x.wg_conf x.target_ipv4 x.physical_if_index t in
      let ready =
        AllOk-eq (IsReady x.wg_conf c.table) c.result d
          (create-IsReady a.driver a.system x.wg_conf x.target_ipv4 x.physical_if_index t f) made in
      let o = open_socket a.run_sockets p.target in
      subst (λ r. IsUnrouted d.route_manager (with_target n a p t r).table) (sym target)
        (subst (λ r. IsUnrouted d.route_manager (with_device n a p x.wg_conf c.table r).table)
          (sym made)
          (run_tunnel-IsUnrouted a p x.wg_conf (record d { table = c.table }) o del ready.2))

-- The file of the proxy.
abbrev pub exported : ProxyAnswers → PhobosProfile → Exported
exported a p = record { name = ready_name p; content = p.ready_wg_conf_content; acl = a.acl }

-- Where the file was written and the relay does not start, the file with the private key is left
-- behind, whatever the user would answer: the mode ends in front of its question.
pub run_proxy_mode-left :
    (u : CaseTable) (a : ProxyAnswers) (p : PhobosProfile) (e : StartError)
    → a.write (ready_name p) p.ready_wg_conf_content ≡ ok tt
    → open_sockets a.network p ≡ err e
    → ((run_proxy_mode u a p).left ≡ some (exported a p))
      × ((run_proxy_mode u a p).result ≡ err (not_started e))
unfolding run_proxy_mode export_ready_wg_conf start
run_proxy_mode-left u a p e w s = simp (w, s) (refl, refl)

-- Where the relay starts, the proxy ends with it stopped, and the file is gone where it has gone by
-- itself, or the answer agrees, be it only by an empty line, and the removal succeeds.
pub run_proxy_mode-cleaned :
    (u : CaseTable) (a : ProxyAnswers) (p : PhobosProfile) (addr : SocketAddr) (ans : Text)
    → a.write (ready_name p) p.ready_wg_conf_content ≡ ok tt
    → open_sockets a.network p ≡ ok addr
    → a.answer ≡ some ans
    → is_yes u ans ≡ true
    → a.removed ≡ ok tt
    → ((run_proxy_mode u a p).left ≡ none)
      × ((run_proxy_mode u a p).result ≡ ok tt)
      × ((run_proxy_mode u a p).relay.running ≡ false)
unfolding run_proxy_mode export_ready_wg_conf start clean_up stop
run_proxy_mode-cleaned u a p addr ans w s an y r = elim (Bool-cases a.exists) [
  | inl e ↦ simp (w, s, e, an, y, r) (refl, refl, refl)
  | inr e ↦ simp (w, s, e) (refl, refl, refl)
]

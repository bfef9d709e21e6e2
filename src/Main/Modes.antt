-- ===== src/Main/Modes.antt =====
-- The modes of the console (src/main.rs): the tunnel of `run_standalone_cli_mode` and the proxy of
-- `run_proxy_mode`, each up to its end behind Ctrl+C. What is printed is left out.
use phobos_wg_client.Base.{ℕ, Bool, ◌||◌, List, [], Option, none, some, if◌then◌else◌, codes}
use phobos_wg_client.Base.Net.{SocketAddr, IpAddr, v4, v6}
use phobos_wg_client.Base.Result.{Result, ok, err, ◌>>=◌, map_err, ok_or}
use phobos_wg_client.Archive.{PhobosProfile, parse_wg_config}
use phobos_wg_client.Archive.Export.{Exported, export_ready_wg_conf}
use phobos_wg_client.Relay.{PhobosRelay, Config, World, stop, new}
use phobos_wg_client.Relay.Start.{Network, StartError, start}
use phobos_wg_client.Text.{Text, CaseTable, is_nil, text_eq, trim, to_lowercase}
use phobos_wg_client.Tunnel.{Output}
use phobos_wg_client.Tunnel.Setup.{
  Sockets, RunError, Noise, bind_interface, first, keys, tunnel_config, open_socket, launch,
}
use phobos_wg_client.WgConfig.{Decode, ParseError, WireGuardConfig}
use phobos_wg_client.WindowsNet.{Table, System}
use phobos_wg_client.WindowsNet.Elevation.{AclError}
use phobos_wg_client.Wintun.Device.{Driver, CreateError, WintunDevice, create, shutdown}

pub data CliError : Type 0 where
  not_parsed : ParseError → CliError
  not_resolved : Text → CliError
  no_address : CliError
  ipv6_server : CliError
  no_socket : Text → CliError
  no_interface : ℕ → CliError
  not_created : CreateError → CliError
  run_failed : RunError → CliError

abbrev pub ipv4_of : IpAddr → Result CliError ℕ
ipv4_of (v4 a) = ok a
ipv4_of (v6 a) = err ipv6_server

-- What is known in front of the adapter's creation.
pub record Target : Type 0 where
  pub wg_conf : WireGuardConfig
  pub target_ipv4 : ℕ
  pub physical_if_index : ℕ

unfoldable pub find_target : CaseTable → Decode → Sockets → PhobosProfile → Result CliError Target
find_target u decode o p = do
  wg_conf ← map_err not_parsed (parse_wg_config u decode p)
  addrs ← map_err not_resolved (o.resolve p.target)
  target_addr ← ok_or no_address (first addrs)
  target_ipv4 ← ipv4_of target_addr.ip
  dummy_sock ← map_err no_socket o.bind
  physical_if_index ← map_err no_interface (bind_interface o target_addr.ip)
  ok (record {
    wg_conf = wg_conf;
    target_ipv4 = target_ipv4;
    physical_if_index = physical_if_index;
  })

-- How the mode ends: its result, the table behind it, and what was sent in front of the workers.
pub record CliRun : Type 0 where
  pub result : Result CliError (Unit {0})
  pub table : Table
  pub sent : List Output

-- The answers to the console's tunnel; `run_sockets` answers to `StandaloneTunnel::run`.
pub record CliAnswers : Type 0 where
  pub sockets : Sockets
  pub driver : Driver
  pub system : System
  pub run_sockets : Sockets
  pub world : World
  pub index : ℕ

module _ {T : Type 0} (n : Noise T) where
  -- `StandaloneTunnel::run` with the device: an error drops it, and the stop shuts it down.
  abbrev pub run_tunnel :
      CliAnswers
      → PhobosProfile
      → WireGuardConfig
      → WintunDevice
      → Result RunError SocketAddr
      → CliRun
  run_tunnel a p wg device (err e) = record {
    result = err (run_failed e);
    table = (shutdown a.system device).table;
    sent = [];
  }
  run_tunnel a p wg device (ok addr) = record {
    result = ok tt;
    table = (shutdown a.system device).table;
    sent = (launch n (tunnel_config p) a.world (keys wg a.index)).1;
  }

  abbrev pub with_device :
      CliAnswers
      → PhobosProfile
      → WireGuardConfig
      → Table
      → Result CreateError WintunDevice
      → CliRun
  with_device a p wg t (err e) = record { result = err (not_created e); table = t; sent = [] }
  with_device a p wg t (ok device) =
      run_tunnel a p wg (record device { table = t }) (open_socket a.run_sockets p.target)

  abbrev pub with_target : CliAnswers → PhobosProfile → Table → Result CliError Target → CliRun
  with_target a p t (err e) = record { result = err e; table = t; sent = [] }
  with_target a p t (ok x) =
      let c = create a.driver a.system x.wg_conf x.target_ipv4 x.physical_if_index t in
      with_device a p x.wg_conf c.table c.result

  unfoldable pub run_standalone_cli_mode :
      CaseTable → Decode → CliAnswers → PhobosProfile → Table → CliRun
  run_standalone_cli_mode u decode a p t = with_target a p t (find_target u decode a.sockets p)

-- The answers to the proxy; the file is asked about only behind the stop.
pub record ProxyAnswers : Type 0 where
  pub write : Text → Text → Result Text (Unit {0})
  pub acl : Result AclError (Unit {0})
  pub network : Network
  pub exists : Bool
  pub answer : Option Text
  pub removed : Result Text (Unit {0})

pub data ProxyError : Type 0 where
  not_exported : Text → ProxyError
  not_started : StartError → ProxyError

-- The result, the file with the private key where it is left behind, and the relay.
pub record ProxyRun : Type 0 where
  pub result : Result ProxyError (Unit {0})
  pub left : Option Exported
  pub relay : PhobosRelay

-- The answer that deletes the file.
unfoldable pub is_yes : CaseTable → Text → Bool
is_yes u ans =
    let trimmed = to_lowercase u (trim ans) in
    is_nil trimmed
    || text_eq trimmed (codes "y")
    || text_eq trimmed (codes "yes")
    || text_eq trimmed (codes "д")
    || text_eq trimmed (codes "да")

abbrev pub unless_removed : Result Text (Unit {0}) → Exported → Option Exported
unless_removed (ok u) x = none
unless_removed (err e) x = some x

abbrev pub asked : CaseTable → ProxyAnswers → Exported → Option Text → Option Exported
asked u a x none = some x
asked u a x (some ans) = if is_yes u ans then unless_removed a.removed x else some x

unfoldable pub clean_up : CaseTable → ProxyAnswers → Exported → Option Exported
clean_up u a x = if a.exists then asked u a x a.answer else none

abbrev pub with_relay :
    CaseTable → ProxyAnswers → Exported → Result StartError Config × PhobosRelay → ProxyRun
with_relay u a x (err e, r) = record { result = err (not_started e); left = some x; relay = r }
with_relay u a x (ok c, r) = record { result = ok tt; left = clean_up u a x; relay = stop r }

abbrev pub with_export : CaseTable → ProxyAnswers → PhobosProfile → Result Text Exported → ProxyRun
with_export u a p (err e) = record { result = err (not_exported e); left = none; relay = new }
with_export u a p (ok x) = with_relay u a x (start a.network p new)

unfoldable pub run_proxy_mode : CaseTable → ProxyAnswers → PhobosProfile → ProxyRun
run_proxy_mode u a p = with_export u a p (export_ready_wg_conf a.write a.acl p)

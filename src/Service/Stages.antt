-- ===== src/Service/Stages.antt =====
-- The set-up of the session thread of `start` (src/tunnel_service.rs): its stages, and its steps up to
-- the workers' start, each with the lines that it logs. An error writes the status and clears the
-- profile's name in two steps, since other threads may come between.
use phobos_wg_client.Base.{ℕ, Bool, true, false, List, [], Option, none, some, if◌then◌else◌}
use phobos_wg_client.Base.Net.{SocketAddr, IpAddr, v4, v6}
use phobos_wg_client.Base.Result.{Result, ok, err}
use phobos_wg_client.Archive.{PhobosProfile}
use phobos_wg_client.Relay.{Config, World}
use phobos_wg_client.Text.{Text}
use phobos_wg_client.Tunnel.{
  TunnResult, done, failed, write_to_network, write_to_tunnel, Shared, Output,
}
use phobos_wg_client.Tunnel.Setup.{Sockets, Noise, first, keys, tunnel_config, launch}
use phobos_wg_client.Tunnel.Workers.{Workers}
use phobos_wg_client.WgConfig.{ParseError, WireGuardConfig}
use phobos_wg_client.WindowsNet.{Table, System}
use phobos_wg_client.Wintun.Device.{Driver, CreateError, WintunDevice, shutdown}
use phobos_wg_client.Service.{
  SetupError, not_parsed, no_address, not_resolved, ipv6_server, no_dummy_socket, no_interface,
  not_created, no_socket, not_connected, connecting, connected, error, setup_failed, parameters,
  adapter_starting, adapter_ready, handshake_requested, waiting_for_handshake, handshake_done,
  TunnelService, log_fn,
}

-- A session whose workers run, with the variables of its monitor loop.
pub record Running (T : Type 0) : Type 0 where
  pub config : Config
  pub device : WintunDevice
  pub workers : Workers T
  pub last_sent : ℕ
  pub last_recv : ℕ
  pub handshake_logged : Bool

-- Where the thread is: the next thing that it does, with what it knows. In front of `unnaming` the
-- status is written for the last time.
pub data Stage (T : Type 0) : Type 0 where
  parsing : Stage T
  resolving : WireGuardConfig → Stage T
  locating : WireGuardConfig → SocketAddr → ℕ → Stage T
  creating : WireGuardConfig → SocketAddr → ℕ → ℕ → Stage T
  opening : WireGuardConfig → SocketAddr → WintunDevice → Stage T
  greeting : WireGuardConfig → SocketAddr → WintunDevice → Stage T
  monitoring : Running T → Stage T
  joining : Running T → Stage T
  unnaming : Stage T
  finished : Stage T

-- What the system answers to one step.
pub record Answers : Type 0 where
  pub time : Text
  pub sockets : Sockets
  pub driver : Driver
  pub system : System
  pub world : World
  pub index : ℕ

-- The shared state and the thread behind a step, and what was sent.
pub record Effect (T : Type 0) : Type 0 where
  pub service : TunnelService
  pub table : Table
  pub stage : Stage T
  pub sent : List Output

-- Where the device is dropped, or shut down: its session ends and its routes are removed.
abbrev pub without : System → WintunDevice → Table → Table
without sys device t = (shutdown sys (record device { table = t })).table

abbrev pub log_handshake : Text → SocketAddr → TunnResult → TunnelService → TunnelService
log_handshake time addr (write_to_network p) s = log_fn time (handshake_requested addr) s
log_handshake time addr done s = s
log_handshake time addr failed s = s
log_handshake time addr (write_to_tunnel p) s = s

-- The status at the first handshake.
unfoldable pub notice : Text → Bool → TunnelService → TunnelService
notice time fresh s =
    if fresh then record (log_fn time handshake_done s) { status = connected } else s

module _ {T : Type 0} where
  abbrev pub stay : TunnelService → Table → Stage T → Effect T
  stay s t st = record { service = s; table = t; stage = st; sent = [] }

  -- The error paths: the line and the status.
  unfoldable pub fail : Text → SetupError → TunnelService → Table → Effect T
  fail time e s t = stay (record (log_fn time (setup_failed e) s) { status = error e }) t unnaming

  abbrev pub parsed : Text → TunnelService → Table → Result ParseError WireGuardConfig → Effect T
  parsed time s t (err e) = fail time (not_parsed e) s t
  parsed time s t (ok wg) =
      stay (log_fn time (parameters wg.client_ipv4 wg.client_ipv4_prefix wg.mtu) s) t (resolving wg)

  abbrev pub with_ip :
      Text → TunnelService → Table → WireGuardConfig → SocketAddr → IpAddr → Effect T
  with_ip time s t wg addr (v4 ip) = stay s t (locating wg addr ip)
  with_ip time s t wg addr (v6 ip) = fail time ipv6_server s t

  abbrev pub with_addr :
      Text → TunnelService → Table → WireGuardConfig → Text → Option SocketAddr → Effect T
  with_addr time s t wg target none = fail time (no_address target) s t
  with_addr time s t wg target (some addr) = with_ip time s t wg addr addr.ip

  abbrev pub resolved :
      Text
      → TunnelService
      → Table
      → WireGuardConfig
      → Text
      → Result Text (List SocketAddr)
      → Effect T
  resolved time s t wg target (err e) = fail time (not_resolved target e) s t
  resolved time s t wg target (ok addrs) = with_addr time s t wg target (first addrs)

  abbrev pub with_interface :
      Text → TunnelService → Table → WireGuardConfig → SocketAddr → ℕ → Result ℕ ℕ → Effect T
  with_interface time s t wg addr ip (err e) = fail time (no_interface e) s t
  with_interface time s t wg addr ip (ok index) =
      stay (log_fn time adapter_starting s) t (creating wg addr ip index)

  abbrev pub with_dummy :
      Text
      → TunnelService
      → Table
      → WireGuardConfig
      → SocketAddr
      → ℕ
      → Result ℕ ℕ
      → Result Text (Unit {0})
      → Effect T
  with_dummy time s t wg addr ip index (err e) = fail time (no_dummy_socket e) s t
  with_dummy time s t wg addr ip index (ok u) = with_interface time s t wg addr ip index

  abbrev pub created :
      Text
      → TunnelService
      → Table
      → WireGuardConfig
      → SocketAddr
      → Result CreateError WintunDevice
      → Effect T
  created time s t wg addr (err e) = fail time (not_created e) s t
  created time s t wg addr (ok device) =
      stay (log_fn time adapter_ready s) t (opening wg addr device)

  abbrev pub with_connection :
      Answers
      → TunnelService
      → Table
      → WireGuardConfig
      → SocketAddr
      → WintunDevice
      → Result Text (Unit {0})
      → Effect T
  with_connection a s t wg addr device (err e) =
      fail a.time (not_connected addr e) s (without a.system device t)
  with_connection a s t wg addr device (ok u) = stay s t (greeting wg addr device)

  abbrev pub with_socket :
      Answers
      → TunnelService
      → Table
      → WireGuardConfig
      → SocketAddr
      → WintunDevice
      → Result Text (Unit {0})
      → Effect T
  with_socket a s t wg addr device (err e) = fail a.time (no_socket e) s (without a.system device t)
  with_socket a s t wg addr device (ok u) =
      with_connection a s t wg addr device (a.sockets.connect addr)

  abbrev pub started_workers : Shared T → Workers T
  started_workers shared = record { shared = shared; t1 = true; t2 = true; t3 = true }

  unfoldable pub greet :
      Noise T
      → Answers
      → PhobosProfile
      → TunnelService
      → Table
      → WireGuardConfig
      → SocketAddr
      → WintunDevice
      → Effect T
  greet n a profile s t wg addr device =
      let c = tunnel_config profile in
      let k = keys wg a.index in
      let (shared, out) = launch n c a.world k in
      let s1 = log_handshake a.time addr (n.format_handshake_initiation (n.tunn_new k)).1 s in
      record {
        service = log_fn a.time waiting_for_handshake (record s1 { status = connecting });
        table = t;
        stage = monitoring (record {
          config = c;
          device = device;
          workers = started_workers shared;
          last_sent = 0;
          last_recv = 0;
          handshake_logged = false;
        });
        sent = out;
      }

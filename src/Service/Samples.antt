-- ===== src/Service/Samples.antt =====
-- A service, a session and the answers of a system for the tests (src/tunnel_service.rs). The system
-- refuses the first socket.
use phobos_wg_client.Base.{true, false, List, [], ◌∷◌, none, refl, arith, codes, Bytes, inl}
use phobos_wg_client.Base.Net.{SocketAddr, v4}
use phobos_wg_client.Base.Result.{ok, err}
use phobos_wg_client.Archive.{PhobosProfile}
use phobos_wg_client.Text.{CaseTable}
use phobos_wg_client.Tunnel.Samples.{config, world, shared}
use phobos_wg_client.Tunnel.Setup.{Sockets}
use phobos_wg_client.Wintun.{VpnRouteManager}
use phobos_wg_client.Wintun.Device.{Driver, WintunDevice}
use phobos_wg_client.WgConfig.{Decode, WireGuardConfig}
use phobos_wg_client.WindowsNet.{System}
use phobos_wg_client.WindowsNet.Routes.{IsFaithful, IsDeleting}
use phobos_wg_client.Service.{TunnelService, connecting, new}
use phobos_wg_client.Service.Stages.{Stage, monitoring, Answers}
use phobos_wg_client.Service.Session.{proceed}
use phobos_wg_client.Service.Threads.{idle, State, Event, start_called, stop_called, session}

abbrev pub ascii : CaseTable
ascii = record { lower = λ c. c ∷ []; upper = λ c. c ∷ [] }

abbrev pub no_decode : Decode
no_decode = λ t. err []

abbrev pub profile : PhobosProfile
profile = record {
  client_name = codes "a";
  target = codes "host:1";
  key = [];
  masking = codes "STUN";
  local_port = 13255;
  max_dummy = 4;
  obfuscate_bytes = 0;
  raw_wg_conf = [];
  ready_wg_conf_content = [];
}

abbrev pub willing : System
willing = record { create = λ r t. 0; delete = λ r t. 0 }

pub willing-IsFaithful : IsFaithful willing
willing-IsFaithful r t e = ground arith

pub willing-IsDeleting : IsDeleting willing
willing-IsDeleting r t = inl refl

abbrev pub server : SocketAddr
server = record { ip = v4 0x01020304; port = 51820 }

abbrev pub sockets : Sockets
sockets = record {
  resolve = λ t. ok (server ∷ []);
  bind = err (codes "refused");
  best_interface = λ a. (0, 2);
  set_unicast_if = λ i. 0;
  last_os_error = 0;
  connect = λ a. ok tt;
}

abbrev pub driver : Driver
driver = record {
  dll = [];
  exe = none;
  temp = record { content = none; writable = false };
  load = λ p. ok tt;
  adapter_open = ok 1;
  adapter_create = ok 1;
  adapter_index = λ a. ok 9;
  address_code = λ a l. 0;
  start_session = λ a. ok tt;
  best_route = λ a. record { code = 1; next_hop = 0; if_index = 0 };
}

abbrev pub answers : Answers
answers = record {
  time = [];
  sockets = sockets;
  driver = driver;
  system = willing;
  world = world;
  index = 7;
}

abbrev pub wg : WireGuardConfig
wg = record {
  private_key = [];
  client_ipv4 = 0x0a080003;
  client_ipv4_prefix = 32;
  client_ipv6 = none;
  dns_servers = [];
  mtu = 1280;
  peer_public_key = [];
  preshared_key = none;
  persistent_keepalive = none;
  allowed_ips = [];
}

abbrev pub manager : VpnRouteManager
manager = record {
  server_ip = 0x01020304;
  gateway_ip = none;
  physical_if_index = 2;
  adapter_if_index = 9;
  adapter_ip = 0x0a080003;
  has_ipv6 = false;
  routes_installed = true;
}

abbrev pub device : WintunDevice
device = record { settings = []; route_manager = manager; table = [] }

abbrev pub running : Stage (List Bytes)
running = monitoring (record {
  config = config;
  device = device;
  workers = record { shared = shared; t1 = true; t2 = true; t3 = true };
  last_sent = 0;
  last_recv = 0;
  handshake_logged = false;
})

abbrev pub stopped_service : TunnelService
stopped_service = record new { status = connecting; stop_signal = true }

abbrev pub initial_state : State (List Bytes)
initial_state = record { service = new; table = []; threads = []; window = idle }

abbrev pub events : List Event
events = start_called [] profile ∷ session 0 (proceed answers 0) ∷ stop_called ∷ []

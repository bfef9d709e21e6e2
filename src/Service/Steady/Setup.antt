-- ===== src/Service/Steady/Setup.antt =====
-- The specification of the status, when the status agrees with the stage of a session, and the steps
-- of the set-up (src/tunnel_service.rs).
use phobos_wg_client.Base.{
  ℕ, Bool, true, false, not, ◌&&◌, ◌||◌, List, Option, none, some, ◌≡◌, refl,
}
use phobos_wg_client.Base.Net.{SocketAddr, IpAddr, v4, v6}
use phobos_wg_client.Base.Result.{Result, ok, err}
use phobos_wg_client.Text.{Text}
use phobos_wg_client.Tunnel.Setup.{first}
use phobos_wg_client.WgConfig.{ParseError, WireGuardConfig}
use phobos_wg_client.WindowsNet.{Table}
use phobos_wg_client.Wintun.Device.{CreateError, WintunDevice}
use phobos_wg_client.Service.{
  SetupError, not_parsed, no_address, not_resolved, ipv6_server, no_dummy_socket, no_interface,
  not_created, no_socket, not_connected, TunnelStatus, disconnected, connecting, connected, error,
  TunnelService, is_active_status, log_fn,
}
use phobos_wg_client.Service.Stages.{
  Stage, parsing, resolving, locating, creating, opening, greeting, monitoring, joining, unnaming,
  finished, Answers, Effect, fail, parsed, with_ip, with_addr, resolved, with_dummy, created,
  with_connection, with_socket, notice, without,
}

-- The specification of a tunnel's life: the moves of its status.
pub data Allowed (a b : TunnelStatus) : Type 0 where
  stays : a ≡ b → Allowed a b
  starts : is_active_status a ≡ false → b ≡ connecting → Allowed a b
  connects : a ≡ connecting → b ≡ connected → Allowed a b
  fails : (e : SetupError) → a ≡ connecting → b ≡ error e → Allowed a b
  ends : is_active_status a ≡ true → b ≡ disconnected → Allowed a b

-- The session may still write the status.
abbrev pub is_live : {T : Type 0} → Stage T → Bool
is_live unnaming = false
is_live finished = false
is_live parsing = true
is_live (resolving wg) = true
is_live (locating wg addr ip) = true
is_live (creating wg addr ip i) = true
is_live (opening wg addr d) = true
is_live (greeting wg addr d) = true
is_live (monitoring r) = true
is_live (joining r) = true

abbrev pub handshake_status : Bool → TunnelStatus
handshake_status true = connected
handshake_status false = connecting

-- The status is that of the stage.
abbrev pub Agrees : {T : Type 0} → TunnelStatus → Stage T → Type 0
Agrees st unnaming = is_active_status st ≡ false
Agrees st finished = is_active_status st ≡ false
Agrees st (monitoring r) = st ≡ handshake_status r.handshake_logged
Agrees st (joining r) = st ≡ handshake_status r.handshake_logged
Agrees st parsing = st ≡ connecting
Agrees st (resolving wg) = st ≡ connecting
Agrees st (locating wg addr ip) = st ≡ connecting
Agrees st (creating wg addr ip i) = st ≡ connecting
Agrees st (opening wg addr d) = st ≡ connecting
Agrees st (greeting wg addr d) = st ≡ connecting

abbrev pub Fits : {T : Type 0} → TunnelStatus → Effect T → Type 0
Fits st e = Agrees e.service.status e.stage × Allowed st e.service.status

module _ (T : Type 0) where
  pub fail-Fits :
      (time : Text) (e : SetupError) (s : TunnelService) (t : Table)
      → s.status ≡ connecting
      → Fits {T = T} s.status (fail time e s t)
  unfolding fail
  fail-Fits time e s t h = (refl, fails e h refl)

  pub parsed-Fits :
      (time : Text) (s : TunnelService) (t : Table) (r : Result ParseError WireGuardConfig)
      → s.status ≡ connecting
      → Fits {T = T} s.status (parsed time s t r)
  unfolding log_fn
  parsed-Fits time s t (err e) h = fail-Fits time (not_parsed e) s t h
  parsed-Fits time s t (ok wg) h = (h, stays refl)

  pub with_ip-Fits :
      (time : Text) (s : TunnelService) (t : Table) (wg : WireGuardConfig) (addr : SocketAddr)
      (ip : IpAddr)
      → s.status ≡ connecting
      → Fits {T = T} s.status (with_ip time s t wg addr ip)
  with_ip-Fits time s t wg addr (v4 ip) h = (h, stays refl)
  with_ip-Fits time s t wg addr (v6 ip) h = fail-Fits time ipv6_server s t h

  pub resolved-Fits :
      (time : Text) (s : TunnelService) (t : Table) (wg : WireGuardConfig) (target : Text)
      (r : Result Text (List SocketAddr))
      → s.status ≡ connecting
      → Fits {T = T} s.status (resolved time s t wg target r)
  resolved-Fits time s t wg target (err e) h = fail-Fits time (not_resolved target e) s t h
  resolved-Fits time s t wg target (ok addrs) h = go (first addrs)
    where
      go : (o : Option SocketAddr) → Fits {T = T} s.status (with_addr time s t wg target o)
      go none = fail-Fits time (no_address target) s t h
      go (some addr) = with_ip-Fits time s t wg addr addr.ip h

  pub with_dummy-Fits :
      (time : Text) (s : TunnelService) (t : Table) (wg : WireGuardConfig) (addr : SocketAddr)
      (ip : ℕ) (index : Result ℕ ℕ) (r : Result Text (Unit {0}))
      → s.status ≡ connecting
      → Fits {T = T} s.status (with_dummy time s t wg addr ip index r)
  unfolding log_fn
  with_dummy-Fits time s t wg addr ip index (err e) h = fail-Fits time (no_dummy_socket e) s t h
  with_dummy-Fits time s t wg addr ip (err e) (ok u) h = fail-Fits time (no_interface e) s t h
  with_dummy-Fits time s t wg addr ip (ok i) (ok u) h = (h, stays refl)

  pub created-Fits :
      (time : Text) (s : TunnelService) (t : Table) (wg : WireGuardConfig) (addr : SocketAddr)
      (r : Result CreateError WintunDevice)
      → s.status ≡ connecting
      → Fits {T = T} s.status (created time s t wg addr r)
  unfolding log_fn
  created-Fits time s t wg addr (err e) h = fail-Fits time (not_created e) s t h
  created-Fits time s t wg addr (ok d) h = (h, stays refl)

  pub with_socket-Fits :
      (a : Answers) (s : TunnelService) (t : Table) (wg : WireGuardConfig) (addr : SocketAddr)
      (d : WintunDevice) (r : Result Text (Unit {0}))
      → s.status ≡ connecting
      → Fits {T = T} s.status (with_socket a s t wg addr d r)
  with_socket-Fits a s t wg addr d (err e) h =
      fail-Fits a.time (no_socket e) s (without a.system d t) h
  with_socket-Fits a s t wg addr d (ok u) h = go (a.sockets.connect addr)
    where
      go : (r : Result Text (Unit {0})) → Fits {T = T} s.status (with_connection a s t wg addr d r)
      go (err e) = fail-Fits a.time (not_connected addr e) s (without a.system d t) h
      go (ok u) = (h, stays refl)

pub notice-Fits :
    (time : Text) (s : TunnelService) (seen logged : Bool)
    → s.status ≡ handshake_status logged
    → ((notice time (seen && not logged) s).status ≡ handshake_status (seen || logged))
      × Allowed s.status (notice time (seen && not logged) s).status
unfolding notice
notice-Fits time s true true h = (h, stays refl)
notice-Fits time s true false h = (refl, connects h refl)
notice-Fits time s false logged h = (h, stays refl)

pub is_active-handshake_status : (b : Bool) → is_active_status (handshake_status b) ≡ true
is_active-handshake_status true = refl
is_active-handshake_status false = refl

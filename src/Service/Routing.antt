-- ===== src/Service/Routing.antt =====
-- The routes of a session (src/tunnel_service.rs): it has them from the device's creation on, and
-- gives the device up only with its routes removed.
use phobos_wg_client.Base.{
  ℕ, true, Option, none, some, ◌≡◌, refl, ◌⊎◌, inl, inr, if◌then◌else◌, List, ltb,
}
use phobos_wg_client.Base.Net.{SocketAddr, IpAddr, v4, v6}
use phobos_wg_client.Base.Result.{Result, ok, err, if_preserves, AllOk, AllOk-map}
use phobos_wg_client.Archive.{PhobosProfile, parse_wg_config}
use phobos_wg_client.Text.{Text, CaseTable}
use phobos_wg_client.Tunnel.Setup.{Noise, bind_interface, first}
use phobos_wg_client.WgConfig.{Decode, ParseError, WireGuardConfig}
use phobos_wg_client.WindowsNet.{Table, System}
use phobos_wg_client.WindowsNet.Routes.{IsFaithful, IsDeleting}
use phobos_wg_client.Tunnel.Workers.{all_joined}
use phobos_wg_client.Wintun.Installed.{IsRouted}
use phobos_wg_client.Wintun.Removed.{IsUnrouted, remove_routes-IsUnrouted}
use phobos_wg_client.Wintun.Device.{
  CreateError, WintunDevice, create, shutdown, IsReady, create-IsReady,
}
use phobos_wg_client.Service.{TunnelService, disconnected, stopping, stopped, log_fn}
use phobos_wg_client.Service.Stages.{
  Running, Stage, parsing, resolving, locating, creating, opening, greeting, monitoring, joining,
  unnaming, finished, Answers, Effect, stay, fail, parsed, with_ip, with_addr, resolved, with_dummy,
  created, without, with_connection, with_socket, greet,
}
use phobos_wg_client.Service.Session.{monitor_round, monitor, join, advance}

-- The device of a session that has one.
abbrev pub device : {T : Type 0} → Stage T → Option WintunDevice
device (opening wg addr d) = some d
device (greeting wg addr d) = some d
device (monitoring r) = some r.device
device parsing = none
device (resolving wg) = none
device (locating wg addr ip) = none
device (creating wg addr ip i) = none
device (joining r) = none
device unnaming = none
device finished = none

abbrev HasInstalled : Option WintunDevice → Type 0
HasInstalled none = Unit
HasInstalled (some d) = d.route_manager.routes_installed ≡ true

-- The session's device remembers its routes.
abbrev pub Installed : {T : Type 0} → Stage T → Type 0
Installed st = HasInstalled (device st)

abbrev LetGo : {T : Type 0} → Option WintunDevice → Effect T → Type 0
LetGo none e = Unit
LetGo (some d) e = (device e.stage ≡ some d) ⊎ IsUnrouted d.route_manager e.table

abbrev NewlyRouted : {T : Type 0} → Option WintunDevice → Effect T → Type 0
NewlyRouted (some d) e = Unit
NewlyRouted none e = elim (device e.stage) [
  | none ↦ Unit
  | some d ↦ IsRouted d.route_manager e.table
]

-- The device is kept or given up with its routes removed, and a new one has its routes.
abbrev pub IsTidy : {T : Type 0} → Stage T → Effect T → Type 0
IsTidy st e = Installed e.stage × LetGo (device st) e × NewlyRouted (device st) e

without-IsUnrouted :
    (sys : System) (d : WintunDevice) (t : Table)
    → IsDeleting sys
    → d.route_manager.routes_installed ≡ true
    → IsUnrouted d.route_manager (without sys d t)
unfolding shutdown
without-IsUnrouted sys d t del h = (remove_routes-IsUnrouted sys d.route_manager t del h).0

module _ (T : Type 0) where
  parsed-IsTidy :
      (time : Text) (s : TunnelService) (t : Table) (r : Result ParseError WireGuardConfig)
      → IsTidy {T = T} parsing (parsed time s t r)
  unfolding fail
  parsed-IsTidy time s t (err e) = (tt, tt, tt)
  parsed-IsTidy time s t (ok wg) = (tt, tt, tt)

  resolved-IsTidy :
      (time : Text) (s : TunnelService) (t : Table) (wg : WireGuardConfig) (target : Text)
      (r : Result Text (List SocketAddr))
      → IsTidy {T = T} (resolving wg) (resolved time s t wg target r)
  unfolding fail
  resolved-IsTidy time s t wg target (err e) = (tt, tt, tt)
  resolved-IsTidy time s t wg target (ok addrs) = go (first addrs)
    where
      at_ip :
          (addr : SocketAddr) (ip : IpAddr)
          → IsTidy {T = T} (resolving wg) (with_ip time s t wg addr ip)
      at_ip addr (v4 ip) = (tt, tt, tt)
      at_ip addr (v6 ip) = (tt, tt, tt)

      go : (o : Option SocketAddr) → IsTidy {T = T} (resolving wg) (with_addr time s t wg target o)
      go none = (tt, tt, tt)
      go (some addr) = at_ip addr addr.ip

  with_dummy-IsTidy :
      (time : Text) (s : TunnelService) (t : Table) (wg : WireGuardConfig) (addr : SocketAddr)
      (ip : ℕ) (index : Result ℕ ℕ) (r : Result Text (Unit {0}))
      → IsTidy {T = T} (locating wg addr ip) (with_dummy time s t wg addr ip index r)
  unfolding fail
  with_dummy-IsTidy time s t wg addr ip index (err e) = (tt, tt, tt)
  with_dummy-IsTidy time s t wg addr ip (err e) (ok u) = (tt, tt, tt)
  with_dummy-IsTidy time s t wg addr ip (ok i) (ok u) = (tt, tt, tt)

  created-IsTidy :
      (time : Text) (s : TunnelService) (t : Table) (wg : WireGuardConfig) (addr : SocketAddr)
      (ip i : ℕ) (r : Result CreateError WintunDevice)
      → AllOk (λ d. IsRouted d.route_manager t × (d.route_manager.routes_installed ≡ true)) r
      → IsTidy {T = T} (creating wg addr ip i) (created time s t wg addr r)
  unfolding fail
  created-IsTidy time s t wg addr ip i (err e) h = (tt, tt, tt)
  created-IsTidy time s t wg addr ip i (ok d) h = (h.1, tt, h.0)

  with_socket-IsTidy :
      (a : Answers) (s : TunnelService) (t : Table) (wg : WireGuardConfig) (addr : SocketAddr)
      (d : WintunDevice) (r : Result Text (Unit {0}))
      → IsDeleting a.system
      → d.route_manager.routes_installed ≡ true
      → IsTidy {T = T} (opening wg addr d) (with_socket a s t wg addr d r)
  unfolding fail
  with_socket-IsTidy a s t wg addr d (err e) del h =
      (tt, inr (without-IsUnrouted a.system d t del h), tt)
  with_socket-IsTidy a s t wg addr d (ok u) del h = go (a.sockets.connect addr)
    where
      go :
          (r : Result Text (Unit {0}))
          → IsTidy {T = T} (opening wg addr d) (with_connection a s t wg addr d r)
      go (err e) = (tt, inr (without-IsUnrouted a.system d t del h), tt)
      go (ok u) = (h, inl refl, tt)

module _ {T : Type 0} (u : CaseTable) (decode : Decode) (n : Noise T) where
  monitor-IsTidy :
      (time : Text) (sys : System) (elapsed : ℕ) (s : TunnelService) (t : Table) (r : Running T)
      → IsDeleting sys
      → r.device.route_manager.routes_installed ≡ true
      → IsTidy (monitoring r) (monitor n time sys elapsed s t r)
  unfolding monitor monitor_round
  monitor-IsTidy time sys elapsed s t r del h =
      let round = monitor_round n time elapsed s t r in
      if_preserves (IsTidy (monitoring r)) s.stop_signal
        (stay (log_fn time stopping s) (without sys r.device t) (joining r))
        (if ltb elapsed 100000000 then stay s t (monitoring r) else round)
        (λ e. (tt, inr (without-IsUnrouted sys r.device t del h), tt))
        (λ e.
          if_preserves (IsTidy (monitoring r)) (ltb elapsed 100000000) (stay s t (monitoring r))
            round (λ l. (h, inl refl, tt)) (λ l. (h, inl refl, tt)))

  join-IsTidy :
      (time : Text) (s : TunnelService) (t : Table) (r : Running T)
      → IsTidy (joining r) (join time s t r)
  unfolding join
  join-IsTidy time s t r =
      if_preserves (IsTidy (joining r)) (all_joined r.workers)
        (stay (record (log_fn time stopped s) { status = disconnected }) t unnaming)
        (stay s t (joining r)) (λ e. (tt, tt, tt)) (λ e. (tt, tt, tt))

  -- Where the system deletes the rows that are there and creates what it says, each step of a
  -- session's thread keeps its device or leaves both halves of the addresses unrouted by it, on the
  -- error paths and at the stop; and a device that the step creates has both halves routed.
  pub advance-IsTidy :
      (p : PhobosProfile) (a : Answers) (elapsed : ℕ) (s : TunnelService) (t : Table) (st : Stage T)
      → IsFaithful a.system
      → IsDeleting a.system
      → Installed st
      → IsTidy st (advance u decode n p a elapsed s t st)
  unfolding advance
  advance-IsTidy p a elapsed s t parsing f del h =
      parsed-IsTidy T a.time s t (parse_wg_config u decode p)
  advance-IsTidy p a elapsed s t (resolving wg) f del h =
      resolved-IsTidy T a.time s t wg p.target (a.sockets.resolve p.target)
  advance-IsTidy p a elapsed s t (locating wg addr ip) f del h =
      with_dummy-IsTidy T a.time s t wg addr ip (bind_interface a.sockets addr.ip) a.sockets.bind
  advance-IsTidy p a elapsed s t (creating wg addr ip i) f del h =
      let c = create a.driver a.system wg ip i t in
      created-IsTidy T a.time s c.table wg addr ip i c.result (
        AllOk-map (IsReady wg c.table)
          (λ d. IsRouted d.route_manager c.table × (d.route_manager.routes_installed ≡ true))
          c.result (λ d r. (r.1, r.2)) (create-IsReady a.driver a.system wg ip i t f))
  advance-IsTidy p a elapsed s t (opening wg addr d) f del h =
      with_socket-IsTidy T a s t wg addr d a.sockets.bind del h
  advance-IsTidy p a elapsed s t (greeting wg addr d) f del h = unfold greet in (h, inl refl, tt)
  advance-IsTidy p a elapsed s t (monitoring r) f del h =
      monitor-IsTidy a.time a.system elapsed s t r del h
  advance-IsTidy p a elapsed s t (joining r) f del h = join-IsTidy a.time s t r
  advance-IsTidy p a elapsed s t unnaming f del h = (tt, tt, tt)
  advance-IsTidy p a elapsed s t finished f del h = (tt, tt, tt)

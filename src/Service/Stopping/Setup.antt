-- ===== src/Service/Stopping/Setup.antt =====
-- How far a session is from its end (src/tunnel_service.rs), and the steps of its set-up, which bring
-- it closer.
use phobos_wg_client.Base.{
  ℕ, ◌+◌, ◌≤◌, Bool, true, false, List, Option, none, some, ◌≡◌, refl, arith, if◌then◌else◌,
}
use phobos_wg_client.Base.Net.{SocketAddr, IpAddr, v4, v6}
use phobos_wg_client.Base.Result.{Result, ok, err}
use phobos_wg_client.Text.{Text}
use phobos_wg_client.Tunnel.{TunnResult, done, failed, write_to_network, write_to_tunnel}
use phobos_wg_client.Tunnel.Setup.{first}
use phobos_wg_client.Tunnel.Workers.{Workers, tun_recv, udp_recv, tick}
use phobos_wg_client.WgConfig.{ParseError, WireGuardConfig}
use phobos_wg_client.WindowsNet.{Table}
use phobos_wg_client.Wintun.Device.{CreateError, WintunDevice}
use phobos_wg_client.Service.{SetupError, TunnelService, log_fn}
use phobos_wg_client.Service.Stages.{
  Stage, parsing, resolving, locating, creating, opening, greeting, monitoring, joining, unnaming,
  finished, Answers, Effect, fail, parsed, with_ip, with_addr, resolved, with_dummy, created,
  with_connection, with_socket, log_handshake,
}
use phobos_wg_client.Service.Session.{Action, proceed, worker}

abbrev pub one_if : Bool → ℕ
one_if true = 1
one_if false = 0

abbrev pub alive : {T : Type 0} → Workers T → ℕ
alive w = one_if w.t1 + one_if w.t2 + one_if w.t3

-- The steps up to the end, at most.
abbrev pub remaining : {T : Type 0} → Stage T → ℕ
remaining parsing = 12
remaining (resolving wg) = 11
remaining (locating wg addr ip) = 10
remaining (creating wg addr ip i) = 9
remaining (opening wg addr d) = 8
remaining (greeting wg addr d) = 7
remaining (monitoring r) = alive r.workers + 3
remaining (joining r) = alive r.workers + 2
remaining unnaming = 1
remaining finished = 0

pub one_if-le : (b : Bool) → one_if b ≤ 1
one_if-le true = omega arith
one_if-le false = omega arith

pub at_most_twelve : {T : Type 0} (st : Stage T) → remaining st ≤ 12
at_most_twelve (monitoring r) =
    omega (arith, one_if-le r.workers.t1, one_if-le r.workers.t2, one_if-le r.workers.t3)
at_most_twelve (joining r) =
    omega (arith, one_if-le r.workers.t1, one_if-le r.workers.t2, one_if-le r.workers.t3)
at_most_twelve st = omega arith

pub le_refl : (n : ℕ) → n ≤ n
le_refl n = omega arith

-- The thread of the session that its own thread waits for, or that one.
abbrev pub due_join : {T : Type 0} → Answers → Workers T → Action
due_join a w =
    if w.t1
    then worker (tun_recv a.world none)
    else if w.t2
    then worker (udp_recv (λ i. a.world) (λ i. true) 0 none)
    else if w.t3
    then worker (tick a.world 0)
    else proceed a 0

abbrev pub due : {T : Type 0} → Answers → Stage T → Action
due a (joining r) = due_join a r.workers
due a parsing = proceed a 0
due a (resolving wg) = proceed a 0
due a (locating wg addr ip) = proceed a 0
due a (creating wg addr ip i) = proceed a 0
due a (opening wg addr d) = proceed a 0
due a (greeting wg addr d) = proceed a 0
due a (monitoring r) = proceed a 0
due a unnaming = proceed a 0
due a finished = proceed a 0

-- At the end of the thread the name is cleared.
abbrev pub Cleared : {T : Type 0} → TunnelService → Stage T → Type 0
Cleared s finished = s.active_profile_name ≡ none
Cleared s parsing = Unit
Cleared s (resolving wg) = Unit
Cleared s (locating wg addr ip) = Unit
Cleared s (creating wg addr ip i) = Unit
Cleared s (opening wg addr d) = Unit
Cleared s (greeting wg addr d) = Unit
Cleared s (monitoring r) = Unit
Cleared s (joining r) = Unit
Cleared s unnaming = Unit

-- The thread is closer to its end, and the signal is still set.
abbrev pub Nears : {T : Type 0} → ℕ → Effect T → Type 0
Nears k e = (remaining e.stage + 1 ≤ k) × (e.service.stop_signal ≡ true) × Cleared e.service e.stage

module _ (T : Type 0) where
  pub fail-Nears :
      (time : Text) (e : SetupError) (s : TunnelService) (t : Table) (k : ℕ)
      → 2 ≤ k
      → s.stop_signal ≡ true
      → Nears {T = T} k (fail time e s t)
  unfolding fail log_fn
  fail-Nears time e s t k b h = (b, h, tt)

  pub parsed-Nears :
      (time : Text) (s : TunnelService) (t : Table) (r : Result ParseError WireGuardConfig)
      → s.stop_signal ≡ true
      → Nears {T = T} 12 (parsed time s t r)
  unfolding fail log_fn
  parsed-Nears time s t (err e) h = (omega arith, h, tt)
  parsed-Nears time s t (ok wg) h = (omega arith, h, tt)

  pub with_addr-Nears :
      (time : Text) (s : TunnelService) (t : Table) (wg : WireGuardConfig) (target : Text)
      (o : Option SocketAddr)
      → s.stop_signal ≡ true
      → Nears {T = T} 11 (with_addr time s t wg target o)
  unfolding fail log_fn
  with_addr-Nears time s t wg target none h = (omega arith, h, tt)
  with_addr-Nears time s t wg target (some addr) h = go addr.ip
    where
      go : (ip : IpAddr) → Nears {T = T} 11 (with_ip time s t wg addr ip)
      go (v4 ip) = (omega arith, h, tt)
      go (v6 ip) = (omega arith, h, tt)

  pub resolved-Nears :
      (time : Text) (s : TunnelService) (t : Table) (wg : WireGuardConfig) (target : Text)
      (r : Result Text (List SocketAddr))
      → s.stop_signal ≡ true
      → Nears {T = T} 11 (resolved time s t wg target r)
  unfolding fail log_fn
  resolved-Nears time s t wg target (err e) h = (omega arith, h, tt)
  resolved-Nears time s t wg target (ok addrs) h =
      with_addr-Nears time s t wg target (first addrs) h

  pub with_dummy-Nears :
      (time : Text) (s : TunnelService) (t : Table) (wg : WireGuardConfig) (addr : SocketAddr)
      (ip : ℕ) (index : Result ℕ ℕ) (r : Result Text (Unit {0}))
      → s.stop_signal ≡ true
      → Nears {T = T} 10 (with_dummy time s t wg addr ip index r)
  unfolding fail log_fn
  with_dummy-Nears time s t wg addr ip index (err e) h = (omega arith, h, tt)
  with_dummy-Nears time s t wg addr ip (err e) (ok u) h = (omega arith, h, tt)
  with_dummy-Nears time s t wg addr ip (ok i) (ok u) h = (omega arith, h, tt)

  pub created-Nears :
      (time : Text) (s : TunnelService) (t : Table) (wg : WireGuardConfig) (addr : SocketAddr)
      (r : Result CreateError WintunDevice)
      → s.stop_signal ≡ true
      → Nears {T = T} 9 (created time s t wg addr r)
  unfolding fail log_fn
  created-Nears time s t wg addr (err e) h = (omega arith, h, tt)
  created-Nears time s t wg addr (ok d) h = (omega arith, h, tt)

  pub with_socket-Nears :
      (a : Answers) (s : TunnelService) (t : Table) (wg : WireGuardConfig) (addr : SocketAddr)
      (d : WintunDevice) (r : Result Text (Unit {0}))
      → s.stop_signal ≡ true
      → Nears {T = T} 8 (with_socket a s t wg addr d r)
  unfolding fail log_fn
  with_socket-Nears a s t wg addr d (err e) h = (omega arith, h, tt)
  with_socket-Nears a s t wg addr d (ok u) h = go (a.sockets.connect addr)
    where
      go : (r : Result Text (Unit {0})) → Nears {T = T} 8 (with_connection a s t wg addr d r)
      go (err e) = (omega arith, h, tt)
      go (ok u) = (omega arith, h, tt)

pub log_handshake-stop_signal :
    (time : Text) (addr : SocketAddr) (r : TunnResult) (s : TunnelService)
    → (log_handshake time addr r s).stop_signal ≡ s.stop_signal
unfolding log_fn
log_handshake-stop_signal time addr (write_to_network p) s = refl
log_handshake-stop_signal time addr done s = refl
log_handshake-stop_signal time addr failed s = refl
log_handshake-stop_signal time addr (write_to_tunnel p) s = refl

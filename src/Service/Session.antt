-- ===== src/Service/Session.antt =====
-- The session thread of `start` (src/tunnel_service.rs) behind its set-up: the monitor loop and the
-- end; and the thread as a whole, with its workers.
use phobos_wg_client.Base.{ℕ, ◌-◌, not, ◌&&◌, ◌||◌, List, none, if◌then◌else◌, ltb}
use phobos_wg_client.Archive.{PhobosProfile, parse_wg_config}
use phobos_wg_client.Text.{Text, CaseTable}
use phobos_wg_client.Tunnel.{Output}
use phobos_wg_client.Tunnel.Setup.{Noise, bind_interface}
use phobos_wg_client.Tunnel.Workers.{Workers, all_joined, Round, work}
use phobos_wg_client.WgConfig.{Decode}
use phobos_wg_client.WindowsNet.{Table, System}
use phobos_wg_client.Wintun.Device.{is_some, create}
use phobos_wg_client.Service.{
  disconnected, kbps, TunnelStats, stopping, stopped, TunnelService, log_fn,
}
use phobos_wg_client.Service.Stages.{
  Running, Stage, parsing, resolving, locating, creating, opening, greeting, monitoring, joining,
  unnaming, finished, Answers, Effect, stay, parsed, resolved, with_dummy, created, without,
  with_socket, notice, greet,
}

-- What a thread of the session does next: the session's own, or one of its workers.
pub data Action : Type 0 where
  proceed : Answers → ℕ → Action
  worker : Round → Action

module _ {T : Type 0} where
  -- A round of the monitor that is not too short.
  unfoldable pub monitor_round : Noise T → Text → ℕ → TunnelService → Table → Running T → Effect T
  monitor_round n time elapsed s t r =
      let shared = r.workers.shared in
      let since = n.since_handshake shared.tunn in
      let s1 = notice time (is_some since && not r.handshake_logged) s in
      let stats : TunnelStats = record {
        bytes_sent = shared.bytes_sent;
        bytes_recv = shared.bytes_recv;
        rate_sent_kbps = kbps (shared.bytes_sent - r.last_sent) elapsed;
        rate_recv_kbps = kbps (shared.bytes_recv - r.last_recv) elapsed;
        last_handshake_secs = since;
      } in
      stay (record s1 { stats = stats }) t
        (monitoring (record r {
          last_sent = shared.bytes_sent;
          last_recv = shared.bytes_recv;
          handshake_logged = is_some since || r.handshake_logged;
        }))

  -- The monitor's loop, `elapsed` nanoseconds behind its last round.
  unfoldable pub monitor :
      Noise T → Text → System → ℕ → TunnelService → Table → Running T → Effect T
  monitor n time sys elapsed s t r =
      if s.stop_signal
      then stay (log_fn time stopping s) (without sys r.device t) (joining r)
      else if ltb elapsed 100000000
      then stay s t (monitoring r)
      else monitor_round n time elapsed s t r

  unfoldable pub join : Text → TunnelService → Table → Running T → Effect T
  join time s t r =
      if all_joined r.workers
      then stay (record (log_fn time stopped s) { status = disconnected }) t unnaming
      else stay s t (joining r)

  abbrev pub worked :
      TunnelService → Table → (Workers T → Stage T) → Workers T × List Output → Effect T
  worked s t back (w, out) = record { service = s; table = t; stage = back w; sent = out }

  -- The session's thread.
  unfoldable pub advance :
      CaseTable
      → Decode
      → Noise T
      → PhobosProfile
      → Answers
      → ℕ
      → TunnelService
      → Table
      → Stage T
      → Effect T
  advance u decode n p a elapsed s t parsing = parsed a.time s t (parse_wg_config u decode p)
  advance u decode n p a elapsed s t (resolving wg) =
      resolved a.time s t wg p.target (a.sockets.resolve p.target)
  advance u decode n p a elapsed s t (locating wg addr ip) =
      with_dummy a.time s t wg addr ip (bind_interface a.sockets addr.ip) a.sockets.bind
  advance u decode n p a elapsed s t (creating wg addr ip index) =
      let c = create a.driver a.system wg ip index t in created a.time s c.table wg addr c.result
  advance u decode n p a elapsed s t (opening wg addr device) =
      with_socket a s t wg addr device a.sockets.bind
  advance u decode n p a elapsed s t (greeting wg addr device) = greet n a p s t wg addr device
  advance u decode n p a elapsed s t (monitoring r) = monitor n a.time a.system elapsed s t r
  advance u decode n p a elapsed s t (joining r) = join a.time s t r
  advance u decode n p a elapsed s t unnaming =
      stay (record s { active_profile_name = none }) t finished
  advance u decode n p a elapsed s t finished = stay s t finished

  -- A worker's round, where there are workers.
  unfoldable pub worker_round : Noise T → Round → TunnelService → Table → Stage T → Effect T
  worker_round n x s t (monitoring r) =
      worked s t (λ w. monitoring (record r { workers = w }))
        (work n.engine r.config s.stop_signal r.workers x)
  worker_round n x s t (joining r) =
      worked s t (λ w. joining (record r { workers = w }))
        (work n.engine r.config s.stop_signal r.workers x)
  worker_round n x s t parsing = stay s t parsing
  worker_round n x s t (resolving wg) = stay s t (resolving wg)
  worker_round n x s t (locating wg addr ip) = stay s t (locating wg addr ip)
  worker_round n x s t (creating wg addr ip i) = stay s t (creating wg addr ip i)
  worker_round n x s t (opening wg addr d) = stay s t (opening wg addr d)
  worker_round n x s t (greeting wg addr d) = stay s t (greeting wg addr d)
  worker_round n x s t unnaming = stay s t unnaming
  worker_round n x s t finished = stay s t finished

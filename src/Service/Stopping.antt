-- ===== src/Service/Stopping.antt =====
-- A stopped session ends (src/tunnel_service.rs): with the stop signal set, every step that is due
-- brings the session's thread closer to its end, whatever the system answers.
pub mod Setup
use phobos_wg_client.Base.{
  ℕ, zero, suc, ◌+◌, ◌≤◌, Bool, true, false, not, ◌&&◌, List, [], Option, none, some, ◌≡◌, refl, ap,
  ◌∙◌, inl, inr, arith, Bool-cases, if◌then◌else◌,
}
use phobos_wg_client.Base.Net.{SocketAddr, IpAddr, v4, v6}
use phobos_wg_client.Base.Result.{Result, ok, err, if_preserves}
use phobos_wg_client.Archive.{PhobosProfile, parse_wg_config}
use phobos_wg_client.Text.{Text, CaseTable}
use phobos_wg_client.Tunnel.{TunnResult, done, failed, write_to_network, write_to_tunnel}
use phobos_wg_client.Tunnel.Setup.{Noise, bind_interface, first, keys}
use phobos_wg_client.Tunnel.Workers.{Workers, all_joined, Round, tun_recv, udp_recv, tick, work}
use phobos_wg_client.WgConfig.{Decode, ParseError, WireGuardConfig}
use phobos_wg_client.WindowsNet.{Table}
use phobos_wg_client.Wintun.Device.{CreateError, WintunDevice, create}
use phobos_wg_client.Service.{SetupError, TunnelService, is_active, is_active_status, log_fn}
use phobos_wg_client.Service.Stages.{
  Running, Stage, parsing, resolving, locating, creating, opening, greeting, monitoring, joining,
  unnaming, finished, Answers, Effect, fail, parsed, with_ip, with_addr, resolved, with_dummy,
  created, with_connection, with_socket, log_handshake, greet,
}
use phobos_wg_client.Service.Session.{Action, proceed, worker, monitor, join, advance, worker_round}
use phobos_wg_client.Service.Steady.Setup.{is_live, Agrees}
use phobos_wg_client.Service.Steady.Runs.{act-Fits}
use phobos_wg_client.Service.Threads.{Thread, act}
use phobos_wg_client.Service.Stopping.Setup.{
  one_if, alive, remaining, one_if-le, at_most_twelve, le_refl, due_join, due, Cleared, Nears,
  fail-Nears, parsed-Nears, with_addr-Nears, resolved-Nears, with_dummy-Nears, created-Nears,
  with_socket-Nears, log_handshake-stop_signal,
}

module _ {T : Type 0} (u : CaseTable) (decode : Decode) (n : Noise T) where
  greet-Nears :
      (a : Answers) (p : PhobosProfile) (s : TunnelService) (t : Table) (wg : WireGuardConfig)
      (addr : SocketAddr) (d : WintunDevice)
      → s.stop_signal ≡ true
      → Nears 7 (greet n a p s t wg addr d)
  unfolding greet log_fn
  greet-Nears a p s t wg addr d h =
      let k = keys wg a.index in
      let r = (n.format_handshake_initiation (n.tunn_new k)).1 in
      (omega arith, log_handshake-stop_signal a.time addr r s ∙ h, tt)

  join-Nears :
      (a : Answers) (p : PhobosProfile) (s : TunnelService) (t : Table) (r : Running T)
      → s.stop_signal ≡ true
      → Nears
          (alive r.workers + 2)
          (act u decode n (due_join a r.workers) s t (record { profile = p; stage = joining r }))
  unfolding act advance join worker_round work log_fn
  join-Nears a p s t r h = elim (Bool-cases r.workers.t1) [
    | inl x ↦ simp (x, h) (ground arith, refl, tt)
    | inr x ↦ elim (Bool-cases r.workers.t2) [
      | inl y ↦ simp (x, y, h) (ground arith, refl, tt)
      | inr y ↦ elim (Bool-cases r.workers.t3) [
        | inl z ↦ simp (x, y, z, h) (ground arith, refl, tt)
        | inr z ↦ simp (x, y, z, h) (ground arith, refl, tt)
      ]
    ]
  ]

  monitor-Nears :
      (a : Answers) (s : TunnelService) (t : Table) (r : Running T)
      → s.stop_signal ≡ true
      → Nears (alive r.workers + 3) (monitor n a.time a.system 0 s t r)
  unfolding monitor log_fn
  monitor-Nears a s t r h = simp h (ground arith, refl, tt)

  abbrev step_due : Answers → TunnelService → Table → PhobosProfile → Stage T → Effect T
  step_due a s t p st = act u decode n (due a st) s t (record { profile = p; stage = st })

  due-Nears :
      (a : Answers) (s : TunnelService) (t : Table) (p : PhobosProfile) (st : Stage T)
      → s.stop_signal ≡ true
      → 1 ≤ remaining st
      → Nears (remaining st) (step_due a s t p st)
  unfolding act advance
  due-Nears a s t p parsing h k = parsed-Nears T a.time s t (parse_wg_config u decode p) h
  due-Nears a s t p (resolving wg) h k =
      resolved-Nears T a.time s t wg p.target (a.sockets.resolve p.target) h
  due-Nears a s t p (locating wg addr ip) h k =
      with_dummy-Nears T a.time s t wg addr ip (bind_interface a.sockets addr.ip) a.sockets.bind h
  due-Nears a s t p (creating wg addr ip i) h k =
      let c = create a.driver a.system wg ip i t in
      created-Nears T a.time s c.table wg addr c.result h
  due-Nears a s t p (opening wg addr d) h k = with_socket-Nears T a s t wg addr d a.sockets.bind h
  due-Nears a s t p (greeting wg addr d) h k = greet-Nears a p s t wg addr d h
  due-Nears a s t p (monitoring r) h k = monitor-Nears a s t r h
  due-Nears a s t p (joining r) h k = join-Nears a p s t r h
  due-Nears a s t p unnaming h k = (omega arith, h, refl)
  due-Nears a s t p finished h k = absurd (omega arith)

  -- The steps that are due, with the system's answers to each, until the thread has ended.
  abbrev pub drive : (ℕ → Answers) → ℕ → TunnelService → Table → PhobosProfile → Stage T → Effect T
  drive a zero s t p st = record { service = s; table = t; stage = st; sent = [] }
  drive a (suc k) s t p st =
      let e = step_due (a k) s t p st in drive a k e.service e.table p e.stage

  due-Agrees :
      (a : Answers) (s : TunnelService) (t : Table) (p : PhobosProfile) (st : Stage T)
      → Agrees s.status st
      → let e = step_due a s t p st in Agrees e.service.status e.stage
  unfolding act advance
  due-Agrees a s t p unnaming h = h
  due-Agrees a s t p finished h = h
  due-Agrees a s t p st h = elim (Bool-cases (is_live st)) [
    | inl l ↦ (act-Fits u decode n (due a st) s t (record { profile = p; stage = st }) l h).0
    | inr l ↦ absurd (cc)
  ]

  due-progress :
      (a : Answers) (k : ℕ) (s : TunnelService) (t : Table) (p : PhobosProfile) (st : Stage T)
      → s.stop_signal ≡ true
      → Cleared s st
      → remaining st ≤ suc k
      → let e = step_due a s t p st in
        (remaining e.stage ≤ k) × (e.service.stop_signal ≡ true) × Cleared e.service e.stage
  unfolding act advance
  due-progress a k s t p finished h c r = (omega arith, h, c)
  due-progress a k s t p st h c r =
      let (b, g, d) = due-Nears a s t p st h (omega arith) in (le_of_suc b r, g, d)
    where
      le_of_suc : {m r : ℕ} → m + 1 ≤ r → r ≤ suc k → m ≤ k
      le_of_suc h j = omega arith

  at_end :
      (s : TunnelService) (st : Stage T)
      → Agrees s.status st
      → Cleared s st
      → remaining st ≤ 0
      → (st ≡ finished) × (is_active s ≡ false) × (s.active_profile_name ≡ none)
  unfolding is_active
  at_end s finished g c r = (refl, g, c)
  at_end s st g c r = absurd (omega arith)

  drive-ended :
      (a : ℕ → Answers) (k : ℕ) (s : TunnelService) (t : Table) (p : PhobosProfile) (st : Stage T)
      → s.stop_signal ≡ true
      → Agrees s.status st
      → Cleared s st
      → remaining st ≤ k
      → let e = drive a k s t p st in
        (e.stage ≡ finished)
        × (is_active e.service ≡ false)
        × (e.service.active_profile_name ≡ none)
  drive-ended a zero s t p st h g c r = at_end s st g c r
  drive-ended a (suc k) s t p st h g c r =
      let e = step_due (a k) s t p st in
      let (b, j, d) = due-progress (a k) k s t p st h c r in
      drive-ended a k e.service e.table p e.stage j (due-Agrees (a k) s t p st g) d b

  started-Cleared : (s : TunnelService) (st : Stage T) → 1 ≤ remaining st → Cleared s st
  started-Cleared s finished b = absurd (omega arith)
  started-Cleared s st b = tt

  -- With the stop signal set and left so, a session that has not ended and whose status is its own
  -- ends within the steps that remain, at most twelve, whatever the system answers to each, where
  -- the thread that is waited for takes the next step: then the status is inactive and the
  -- profile's name is cleared.
  pub drive-finished :
      (a : ℕ → Answers) (s : TunnelService) (t : Table) (p : PhobosProfile) (st : Stage T)
      → s.stop_signal ≡ true
      → Agrees s.status st
      → 1 ≤ remaining st
      → (remaining st ≤ 12)
        × (let e = drive a (remaining st) s t p st in
            (e.stage ≡ finished)
            × (is_active e.service ≡ false)
            × (e.service.active_profile_name ≡ none))
  drive-finished a s t p st h g b = (
    at_most_twelve st,
    drive-ended a (remaining st) s t p st h g (started-Cleared s st b) (le_refl (remaining st)),
  )

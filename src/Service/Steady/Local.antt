-- ===== src/Service/Steady/Local.antt =====
-- One step of a session keeps its stage and the status in agreement, and moves the status as a
-- tunnel's (src/tunnel_service.rs).
use phobos_wg_client.Base.{
  ℕ, true, false, ◌≡◌, refl, ap, ◌∙◌, inl, inr, Bool-cases, if◌then◌else◌, ltb,
}
use phobos_wg_client.Base.Net.{SocketAddr}
use phobos_wg_client.Base.Result.{if_preserves}
use phobos_wg_client.Archive.{PhobosProfile, parse_wg_config}
use phobos_wg_client.Text.{Text, CaseTable}
use phobos_wg_client.Tunnel.Setup.{Noise, bind_interface}
use phobos_wg_client.Tunnel.Workers.{all_joined, Round}
use phobos_wg_client.WgConfig.{Decode, WireGuardConfig}
use phobos_wg_client.WindowsNet.{Table, System}
use phobos_wg_client.Wintun.Device.{is_some, WintunDevice, create}
use phobos_wg_client.Service.{
  TunnelStatus, connecting, stopping, TunnelService, is_active_status, log_fn,
}
use phobos_wg_client.Service.Stages.{
  Running, Stage, parsing, resolving, locating, creating, opening, greeting, monitoring, joining,
  unnaming, finished, Answers, stay, greet, without,
}
use phobos_wg_client.Service.Session.{monitor_round, monitor, join, advance, worker_round}
use phobos_wg_client.Service.Steady.Setup.{
  stays, ends, is_live, handshake_status, Agrees, Fits, parsed-Fits, resolved-Fits, with_dummy-Fits,
  created-Fits, with_socket-Fits, notice-Fits, is_active-handshake_status,
}

-- A session that is alive shows as an active status.
pub Agrees-active :
    {T : Type 0} (st : TunnelStatus) (stage : Stage T)
    → is_live stage ≡ true
    → Agrees st stage
    → is_active_status st ≡ true
Agrees-active st unnaming l h = absurd (cc)
Agrees-active st finished l h = absurd (cc)
Agrees-active st (monitoring r) l h =
    ap is_active_status h ∙ is_active-handshake_status r.handshake_logged
Agrees-active st (joining r) l h =
    ap is_active_status h ∙ is_active-handshake_status r.handshake_logged
Agrees-active st parsing l h = ap is_active_status h
Agrees-active st (resolving wg) l h = ap is_active_status h
Agrees-active st (locating wg addr ip) l h = ap is_active_status h
Agrees-active st (creating wg addr ip i) l h = ap is_active_status h
Agrees-active st (opening wg addr d) l h = ap is_active_status h
Agrees-active st (greeting wg addr d) l h = ap is_active_status h

-- A session that has ended shows as an inactive one.
pub Agrees-inactive :
    {T : Type 0} (st : TunnelStatus) (stage : Stage T)
    → is_live stage ≡ false
    → Agrees st stage
    → is_active_status st ≡ false
Agrees-inactive st unnaming l h = h
Agrees-inactive st finished l h = h
Agrees-inactive st (monitoring r) l h = absurd (cc)
Agrees-inactive st (joining r) l h = absurd (cc)
Agrees-inactive st parsing l h = absurd (cc)
Agrees-inactive st (resolving wg) l h = absurd (cc)
Agrees-inactive st (locating wg addr ip) l h = absurd (cc)
Agrees-inactive st (creating wg addr ip i) l h = absurd (cc)
Agrees-inactive st (opening wg addr d) l h = absurd (cc)
Agrees-inactive st (greeting wg addr d) l h = absurd (cc)

module _ {T : Type 0} where
  greet-Fits :
      (n : Noise T) (a : Answers) (p : PhobosProfile) (s : TunnelService) (t : Table)
      (wg : WireGuardConfig) (addr : SocketAddr) (d : WintunDevice)
      → s.status ≡ connecting
      → Fits s.status (greet n a p s t wg addr d)
  unfolding greet log_fn
  greet-Fits n a p s t wg addr d h = (refl, stays h)

  monitor-Fits :
      (n : Noise T) (time : Text) (sys : System) (elapsed : ℕ) (s : TunnelService) (t : Table)
      (r : Running T)
      → s.status ≡ handshake_status r.handshake_logged
      → Fits s.status (monitor n time sys elapsed s t r)
  unfolding monitor monitor_round log_fn
  monitor-Fits n time sys elapsed s t r h =
      let round = monitor_round n time elapsed s t r in
      if_preserves (Fits s.status) s.stop_signal
        (stay (log_fn time stopping s) (without sys r.device t) (joining r))
        (if ltb elapsed 100000000 then stay s t (monitoring r) else round) (λ e. (h, stays refl))
        (λ e.
          if_preserves (Fits s.status) (ltb elapsed 100000000) (stay s t (monitoring r)) round
            (λ l. (h, stays refl))
            (λ l.
              notice-Fits time s (is_some (n.since_handshake r.workers.shared.tunn))
                r.handshake_logged h))

  join-Fits :
      (time : Text) (s : TunnelService) (t : Table) (r : Running T)
      → s.status ≡ handshake_status r.handshake_logged
      → Fits s.status (join time s t r)
  unfolding join log_fn
  join-Fits time s t r h = elim (Bool-cases (all_joined r.workers)) [
    | inl e ↦
        rw e
          (refl, ends (ap is_active_status h ∙ is_active-handshake_status r.handshake_logged) refl)
    | inr e ↦ rw e (h, stays refl)
  ]

  -- A step of the session's thread while it is alive.
  pub advance-Fits :
      (u : CaseTable) (decode : Decode) (n : Noise T) (p : PhobosProfile) (a : Answers)
      (elapsed : ℕ) (s : TunnelService) (t : Table) (st : Stage T)
      → is_live st ≡ true
      → Agrees s.status st
      → Fits s.status (advance u decode n p a elapsed s t st)
  unfolding advance
  advance-Fits u decode n p a elapsed s t parsing l h =
      parsed-Fits T a.time s t (parse_wg_config u decode p) h
  advance-Fits u decode n p a elapsed s t (resolving wg) l h =
      resolved-Fits T a.time s t wg p.target (a.sockets.resolve p.target) h
  advance-Fits u decode n p a elapsed s t (locating wg addr ip) l h =
      with_dummy-Fits T a.time s t wg addr ip (bind_interface a.sockets addr.ip) a.sockets.bind h
  advance-Fits u decode n p a elapsed s t (creating wg addr ip i) l h =
      let c = create a.driver a.system wg ip i t in
      created-Fits T a.time s c.table wg addr c.result h
  advance-Fits u decode n p a elapsed s t (opening wg addr d) l h =
      with_socket-Fits T a s t wg addr d a.sockets.bind h
  advance-Fits u decode n p a elapsed s t (greeting wg addr d) l h =
      greet-Fits n a p s t wg addr d h
  advance-Fits u decode n p a elapsed s t (monitoring r) l h =
      monitor-Fits n a.time a.system elapsed s t r h
  advance-Fits u decode n p a elapsed s t (joining r) l h = join-Fits a.time s t r h
  advance-Fits u decode n p a elapsed s t unnaming l h = absurd (cc)
  advance-Fits u decode n p a elapsed s t finished l h = absurd (cc)

  -- A round of a worker writes no status.
  pub worker_round-Fits :
      (n : Noise T) (x : Round) (s : TunnelService) (t : Table) (st : Stage T)
      → Agrees s.status st
      → Fits s.status (worker_round n x s t st)
  unfolding worker_round
  worker_round-Fits n x s t parsing h = (h, stays refl)
  worker_round-Fits n x s t (resolving wg) h = (h, stays refl)
  worker_round-Fits n x s t (locating wg addr ip) h = (h, stays refl)
  worker_round-Fits n x s t (creating wg addr ip i) h = (h, stays refl)
  worker_round-Fits n x s t (opening wg addr d) h = (h, stays refl)
  worker_round-Fits n x s t (greeting wg addr d) h = (h, stays refl)
  worker_round-Fits n x s t (monitoring r) h = (h, stays refl)
  worker_round-Fits n x s t (joining r) h = (h, stays refl)
  worker_round-Fits n x s t unnaming h = (h, stays refl)
  worker_round-Fits n x s t finished h = (h, stays refl)

  -- A session that is not alive writes no status, and stays so.
  pub advance-dead :
      (u : CaseTable) (decode : Decode) (n : Noise T) (p : PhobosProfile) (a : Answers)
      (elapsed : ℕ) (s : TunnelService) (t : Table) (st : Stage T)
      → is_live st ≡ false
      → (is_live (advance u decode n p a elapsed s t st).stage ≡ false)
        × ((advance u decode n p a elapsed s t st).service.status ≡ s.status)
  unfolding advance
  advance-dead u decode n p a elapsed s t unnaming l = (refl, refl)
  advance-dead u decode n p a elapsed s t finished l = (refl, refl)
  advance-dead u decode n p a elapsed s t parsing l = absurd (cc)
  advance-dead u decode n p a elapsed s t (resolving wg) l = absurd (cc)
  advance-dead u decode n p a elapsed s t (locating wg addr ip) l = absurd (cc)
  advance-dead u decode n p a elapsed s t (creating wg addr ip i) l = absurd (cc)
  advance-dead u decode n p a elapsed s t (opening wg addr d) l = absurd (cc)
  advance-dead u decode n p a elapsed s t (greeting wg addr d) l = absurd (cc)
  advance-dead u decode n p a elapsed s t (monitoring r) l = absurd (cc)
  advance-dead u decode n p a elapsed s t (joining r) l = absurd (cc)

  pub worker_round-dead :
      (n : Noise T) (x : Round) (s : TunnelService) (t : Table) (st : Stage T)
      → is_live st ≡ false
      → (is_live (worker_round n x s t st).stage ≡ false)
        × ((worker_round n x s t st).service.status ≡ s.status)
  unfolding worker_round
  worker_round-dead n x s t unnaming l = (refl, refl)
  worker_round-dead n x s t finished l = (refl, refl)
  worker_round-dead n x s t parsing l = absurd (cc)
  worker_round-dead n x s t (resolving wg) l = absurd (cc)
  worker_round-dead n x s t (locating wg addr ip) l = absurd (cc)
  worker_round-dead n x s t (creating wg addr ip i) l = absurd (cc)
  worker_round-dead n x s t (opening wg addr d) l = absurd (cc)
  worker_round-dead n x s t (greeting wg addr d) l = absurd (cc)
  worker_round-dead n x s t (monitoring r) l = absurd (cc)
  worker_round-dead n x s t (joining r) l = absurd (cc)

-- ===== src/Tunnel/Ending.antt =====
-- How `StandaloneTunnel::run` ends (src/tunnel.rs): what holds in every order of its threads' steps,
-- and that it does end behind `stop`.
use phobos_wg_client.Base.{
  ℕ, suc, ◌+◌, ◌≤◌, Bool, true, false, not, ◌&&◌, ◌||◌, List, [], ◌∷◌, ◌++◌, Option, none, some,
  ◌≡◌, refl, sym, ap, ◌∙◌, subst, arith, if◌then◌else◌, Bytes,
}
use phobos_wg_client.Base.Result.{if_preserves}
use phobos_wg_client.Relay.{Config, World}
use phobos_wg_client.Tunnel.{Engine, Shared, Output, udp_round}
use phobos_wg_client.Tunnel.Setup.{Noise}
use phobos_wg_client.Tunnel.Workers.{
  Workers, all_joined, Round, tun_recv, udp_recv, tick, after_udp, tun_step, udp_step, timer_step,
  work,
}
use phobos_wg_client.Tunnel.Console.{
  Dashboard, Line, handshake_done, status, ending, off, Phase, showing, joining, ended, Console,
  Event, main_step, worker_step, ctrl_c, stop, show_status, close, join, main_round, step, run,
  notice, status_line,
}
use phobos_wg_client.Service.Stopping.Setup.{one_if, one_if-le}
use phobos_wg_client.WindowsNet.{System}
use phobos_wg_client.Wintun.Device.{WintunDevice, is_some, shutdown}

-- A worker that has ended stays so.
abbrev pub Keeps : {T : Type 0} → Workers T → Workers T → Type 0
Keeps w v =
    (w.t1 ≡ false → v.t1 ≡ false) × (w.t2 ≡ false → v.t2 ≡ false) × (w.t3 ≡ false → v.t3 ≡ false)

module _ {T : Type 0} (e : Engine T) (cfg : Config) where
  after_udp-Keeps :
      (w : Workers T) (r : Option (Shared T × List Output)) → Keeps w (after_udp e cfg w r).0
  after_udp-Keeps w none = (λ h. h, λ h. h, λ h. h)
  after_udp-Keeps w (some (s, out)) = (λ h. h, λ h. h, λ h. h)

  tun_step-Keeps :
      (w : Workers T) (world : World) (p : Option Bytes) → Keeps w (tun_step e cfg w world p).0
  tun_step-Keeps w world none = (λ h. refl, λ h. h, λ h. h)
  tun_step-Keeps w world (some packet) = (λ h. h, λ h. h, λ h. h)

  udp_step-Keeps :
      (w : Workers T) (ws : ℕ → World) (al : ℕ → Bool) (f : ℕ) (d : Option Bytes)
      → Keeps w (udp_step e cfg w ws al f d).0
  udp_step-Keeps w ws al f none = (λ h. h, λ h. h, λ h. h)
  udp_step-Keeps w ws al f (some d) = after_udp-Keeps w (udp_round e cfg ws al f w.shared d)

  -- A round under the flag.
  guarded-Keeps :
      (w : Workers T) (t stop : Bool) (x y : Workers T × List Output)
      → Keeps w x.0
      → Keeps w y.0
      → Keeps w (if not t then (w, []) else if stop then x else y).0
  guarded-Keeps w false stop x y h k = (λ h. h, λ h. h, λ h. h)
  guarded-Keeps w true true x y h k = h
  guarded-Keeps w true false x y h k = k

  pub work-Keeps : (b : Bool) (w : Workers T) (r : Round) → Keeps w (work e cfg b w r).0
  unfolding work
  work-Keeps b w (tun_recv world p) =
      guarded-Keeps w w.t1 b (record w { t1 = false }, []) (tun_step e cfg w world p)
        (λ h. refl, λ h. h, λ h. h) (tun_step-Keeps w world p)
  work-Keeps b w (udp_recv ws al f d) =
      guarded-Keeps w w.t2 b (record w { t2 = false }, []) (udp_step e cfg w ws al f d)
        (λ h. h, λ h. refl, λ h. h) (udp_step-Keeps w ws al f d)
  work-Keeps b w (tick world el) =
      guarded-Keeps w w.t3 b (record w { t3 = false }, []) (timer_step e cfg w world el)
        (λ h. h, λ h. h, λ h. refl) (λ h. h, λ h. h, λ h. h)

-- How often the handshake is announced.
abbrev pub notices : List Line → ℕ
notices [] = 0
notices (handshake_done ∷ ls) = suc (notices ls)
notices (l ∷ ls) = notices ls

notices-++ : (xs ys : List Line) → notices (xs ++ ys) ≡ notices xs + notices ys
notices-++ [] ys = omega arith
notices-++ (handshake_done ∷ xs) ys = omega (arith, notices-++ xs ys)
notices-++ (status h x y m k ∷ xs) ys = notices-++ xs ys
notices-++ (ending ∷ xs) ys = notices-++ xs ys
notices-++ (off ∷ xs) ys = notices-++ xs ys

module _ (sys : System) (d0 : WintunDevice) where
  -- The device is as it was up to the end of the main loop, and shut down once behind it, for which
  -- `stop` was called; all workers have ended where the main thread has; and the handshake is
  -- announced once at most.
  abbrev pub SoundIn : {T : Type 0} → Console T → Phase → Type 0
  SoundIn c (showing d) = (c.device ≡ d0) × (notices c.lines ≡ one_if d.handshake_notified)
  SoundIn c joining = (c.running ≡ false) × (c.device ≡ shutdown sys d0) × (notices c.lines ≤ 1)
  SoundIn c ended =
      ((c.running ≡ false) × (c.device ≡ shutdown sys d0) × (notices c.lines ≤ 1))
      × (c.workers.t1 ≡ false)
      × (c.workers.t2 ≡ false)
      × (c.workers.t3 ≡ false)

  abbrev pub IsSound : {T : Type 0} → Console T → Type 0
  IsSound c = SoundIn c c.phase

  module _ {T : Type 0} (n : Noise T) (cfg : Config) where
    announced :
        (h d : Bool) (line : Line) (k : ℕ)
        → notices (line ∷ []) ≡ 0
        → k ≡ one_if d
        → k + notices (notice (h && not d) ++ line ∷ []) ≡ one_if (h || d)
    announced true true line k z h = omega (arith, z)
    announced true false line k z h = omega (arith, z)
    announced false true line k z h = omega (arith, z)
    announced false false line k z h = omega (arith, z)

    show_status-IsSound :
        (elapsed : ℕ) (c : Console T) (d : Dashboard)
        → SoundIn c (showing d)
        → IsSound (show_status n elapsed c d)
    unfolding show_status
    show_status-IsSound elapsed c d (dev, k) =
        let h = is_some (n.since_handshake c.workers.shared.tunn) in
        let line = status_line n elapsed c d in
        (
          dev,
          notices-++ c.lines (notice (h && not d.handshake_notified) ++ line ∷ [])
              ∙ announced h d.handshake_notified line (notices c.lines) refl k,
        )

    close-IsSound :
        (c : Console T) (d : Dashboard)
        → c.running ≡ false
        → SoundIn c (showing d)
        → IsSound (close sys c)
    unfolding close
    close-IsSound c d r (dev, k) = (
      r,
      ap (λ x. shutdown sys x) dev,
      omega (arith, notices-++ c.lines (ending ∷ []), k, one_if-le d.handshake_notified),
    )

    none_left :
        (a b c : Bool) → (not a && not b && not c) ≡ true → (a ≡ false) × (b ≡ false) × (c ≡ false)
    none_left a b c h = ground arith

    join-IsSound : (c : Console T) → c.phase ≡ joining → SoundIn c joining → IsSound (join c)
    unfolding join
    join-IsSound c p (r, dev, k) =
        if_preserves IsSound (all_joined c.workers)
          (record c { lines = c.lines ++ off ∷ []; phase = ended }) c
          (λ h.
            let (x, y, z) = none_left c.workers.t1 c.workers.t2 c.workers.t3 h in
            ((r, dev, omega (arith, notices-++ c.lines (off ∷ []), k)), x, y, z))
          (λ h. subst (SoundIn c) (sym p) (r, dev, k))

    main_round-IsSound :
        (elapsed : ℕ) (c : Console T) (p : Phase)
        → c.phase ≡ p
        → SoundIn c p
        → IsSound (main_round n sys elapsed c p)
    main_round-IsSound elapsed c (showing d) e h =
        if_preserves IsSound c.running (show_status n elapsed c d) (close sys c)
          (λ r. show_status-IsSound elapsed c d h) (λ r. close-IsSound c d r h)
    main_round-IsSound elapsed c joining e h = join-IsSound c e h
    main_round-IsSound elapsed c ended e h = subst (SoundIn c) (sym e) h

    -- The main thread's part does not change where only the flag falls or workers end.
    SoundIn-Keeps :
        (c v : Console T) (p : Phase)
        → (c.running ≡ false → v.running ≡ false)
        → c.device ≡ v.device
        → c.lines ≡ v.lines
        → Keeps c.workers v.workers
        → SoundIn c p
        → SoundIn v p
    SoundIn-Keeps c v (showing d) r dev ls (k1, k2, k3) (a, b) =
        (sym dev ∙ a, ap notices (sym ls) ∙ b)
    SoundIn-Keeps c v joining r dev ls (k1, k2, k3) (a, b, k) =
        (r a, sym dev ∙ b, subst (λ l. notices l ≤ 1) ls k)
    SoundIn-Keeps c v ended r dev ls (k1, k2, k3) ((a, b, k), x, y, z) =
        ((r a, sym dev ∙ b, subst (λ l. notices l ≤ 1) ls k), k1 x, k2 y, k3 z)

    pub step-IsSound : (e : Event) (c : Console T) → IsSound c → IsSound (step n cfg sys e c).0
    unfolding step stop
    step-IsSound (main_step elapsed) c h = main_round-IsSound elapsed c c.phase refl h
    step-IsSound (worker_step r) c h =
        let x = work n.engine cfg (not c.running) c.workers r in
        SoundIn-Keeps c (record c { workers = x.0 }) c.phase (λ f. f) refl refl
          (work-Keeps n.engine cfg (not c.running) c.workers r) h
    step-IsSound ctrl_c c h =
        SoundIn-Keeps c (stop c) c.phase (λ f. refl) refl refl (λ f. f, λ f. f, λ f. f) h

    -- In every order of the threads' steps.
    pub run-IsSound : (es : List Event) (c : Console T) → IsSound c → IsSound (run n cfg sys es c)
    unfolding run
    run-IsSound [] c h = h
    run-IsSound (e ∷ es) c h = run-IsSound es (step n cfg sys e c).0 (step-IsSound e c h)

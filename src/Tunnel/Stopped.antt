-- ===== src/Tunnel/Stopped.antt =====
-- `StandaloneTunnel::run` ends behind `stop` (src/tunnel.rs): every order of its threads' steps in
-- which none of them is left out brings the main thread to its end.
use phobos_wg_client.Base.{
  ℕ, ◌≤◌, true, false, not, List, [], ◌∷◌, ◌++◌, ◌≡◌, refl, sym, ap, ◌∙◌, subst, inl, inr, arith,
  Bool-cases,
}
use phobos_wg_client.Base.Result.{if_preserves}
use phobos_wg_client.Relay.{Config}
use phobos_wg_client.Tunnel.{Shared}
use phobos_wg_client.Tunnel.Setup.{Noise}
use phobos_wg_client.Tunnel.Workers.{all_joined, tun_recv, udp_recv, tick, work}
use phobos_wg_client.Tunnel.Console.{
  off, Phase, showing, joining, ended, Console, Event, main_step, worker_step, ctrl_c, stop,
  show_status, close, join, main_round, step, run, opened,
}
use phobos_wg_client.WindowsNet.{System}
use phobos_wg_client.Wintun.Device.{WintunDevice, shutdown}
use phobos_wg_client.Tunnel.Ending.{Keeps, work-Keeps, notices, SoundIn, step-IsSound, run-IsSound}
use phobos_wg_client.Tunnel.Reaching.{
  some_of, is_main, is_tun, is_udp, is_tick, is_showing, is_ended, is_ended-eq, run-reaches,
  Stopped, step-Stopped,
}

-- A step of each thread.
abbrev pub OfEach : List Event → Type 0
OfEach es =
    (some_of is_main es ≡ true)
    × (some_of is_tun es ≡ true)
    × (some_of is_udp es ≡ true)
    × (some_of is_tick es ≡ true)

-- The end of a run, whose device is that of the start, shut down.
abbrev pub EndsWith : {T : Type 0} → System → WintunDevice → Console T → Type 0
EndsWith sys d0 c =
    (c.phase ≡ ended)
    × (c.device ≡ shutdown sys d0)
    × (c.workers.t1 ≡ false)
    × (c.workers.t2 ≡ false)
    × (c.workers.t3 ≡ false)
    × (notices c.lines ≤ 1)

module _ {T : Type 0} (n : Noise T) (cfg : Config) (sys : System) where
  abbrev Closing : Console T → Type 0
  Closing c = is_showing c.phase ≡ false

  main_round-Closing :
      (elapsed : ℕ) (c : Console T) (p : Phase)
      → c.phase ≡ p
      → Stopped c
      → Closing (main_round n sys elapsed c p)
  unfolding show_status close join
  main_round-Closing elapsed c (showing d) e h = simp h refl
  main_round-Closing elapsed c joining e h =
      if_preserves Closing (all_joined c.workers)
        (record c { lines = c.lines ++ off ∷ []; phase = ended }) c (λ r. refl)
        (λ r. ap is_showing e)
  main_round-Closing elapsed c ended e h = ap is_showing e

  main_round-closed :
      (elapsed : ℕ) (c : Console T) (p : Phase)
      → c.phase ≡ p
      → is_showing p ≡ false
      → Closing (main_round n sys elapsed c p)
  unfolding join
  main_round-closed elapsed c (showing d) e h = absurd (ground arith)
  main_round-closed elapsed c joining e h =
      if_preserves Closing (all_joined c.workers)
        (record c { lines = c.lines ++ off ∷ []; phase = ended }) c (λ r. refl)
        (λ r. ap is_showing e)
  main_round-closed elapsed c ended e h = ap is_showing e

  step-Closing : (e : Event) (c : Console T) → Closing c → Closing (step n cfg sys e c).0
  unfolding step stop
  step-Closing (main_step elapsed) c h = main_round-closed elapsed c c.phase refl h
  step-Closing (worker_step r) c h = h
  step-Closing ctrl_c c h = h

  main-Closing :
      (e : Event) (c : Console T) → Stopped c → is_main e ≡ true → Closing (step n cfg sys e c).0
  unfolding step
  main-Closing (main_step elapsed) c h k = main_round-Closing elapsed c c.phase refl h
  main-Closing (worker_step r) c h k = absurd (ground arith)
  main-Closing ctrl_c c h k = absurd (ground arith)

  -- The workers after the main thread's step are those in front of it.
  main_round-workers :
      (elapsed : ℕ) (c : Console T) (p : Phase) → (main_round n sys elapsed c p).workers ≡ c.workers
  unfolding show_status close join
  main_round-workers elapsed c (showing d) =
      if_preserves (λ x. x.workers ≡ c.workers) c.running (show_status n elapsed c d) (close sys c)
        (λ r. refl) (λ r. refl)
  main_round-workers elapsed c joining =
      if_preserves (λ x. x.workers ≡ c.workers) (all_joined c.workers)
        (record c { lines = c.lines ++ off ∷ []; phase = ended }) c (λ r. refl) (λ r. refl)
  main_round-workers elapsed c ended = refl

  step-Keeps : (e : Event) (c : Console T) → Keeps c.workers (step n cfg sys e c).0.workers
  unfolding step stop
  step-Keeps (main_step elapsed) c =
      subst (Keeps c.workers) (sym (main_round-workers elapsed c c.phase)) (λ h. h, λ h. h, λ h. h)
  step-Keeps (worker_step r) c = work-Keeps n.engine cfg (not c.running) c.workers r
  step-Keeps ctrl_c c = (λ h. h, λ h. h, λ h. h)

  tun-ends :
      (e : Event) (c : Console T)
      → Stopped c
      → is_tun e ≡ true
      → (step n cfg sys e c).0.workers.t1 ≡ false
  unfolding step work
  tun-ends (worker_step (tun_recv w p)) c h k = elim (Bool-cases c.workers.t1) [
    | inl x ↦ simp (x, h) refl
    | inr x ↦ simp x refl
  ]
  tun-ends e c h k = absurd (ground arith)

  udp-ends :
      (e : Event) (c : Console T)
      → Stopped c
      → is_udp e ≡ true
      → (step n cfg sys e c).0.workers.t2 ≡ false
  unfolding step work
  udp-ends (worker_step (udp_recv w a f d)) c h k = elim (Bool-cases c.workers.t2) [
    | inl x ↦ simp (x, h) refl
    | inr x ↦ simp x refl
  ]
  udp-ends e c h k = absurd (ground arith)

  tick-ends :
      (e : Event) (c : Console T)
      → Stopped c
      → is_tick e ≡ true
      → (step n cfg sys e c).0.workers.t3 ≡ false
  unfolding step work
  tick-ends (worker_step (tick w elapsed)) c h k = elim (Bool-cases c.workers.t3) [
    | inl x ↦ simp (x, h) refl
    | inr x ↦ simp x refl
  ]
  tick-ends e c h k = absurd (ground arith)

  -- Only the main thread's last step is missing.
  abbrev Due : Console T → Type 0
  Due c = Closing c × (c.workers.t1 ≡ false) × (c.workers.t2 ≡ false) × (c.workers.t3 ≡ false)

  step-Due : (e : Event) (c : Console T) → Due c → Due (step n cfg sys e c).0
  step-Due e c (s, x, y, z) =
      let (k1, k2, k3) = step-Keeps e c in (step-Closing e c s, k1 x, k2 y, k3 z)

  abbrev Ended : Console T → Type 0
  Ended c = is_ended c.phase ≡ true

  main_round-Ended :
      (elapsed : ℕ) (c : Console T) (p : Phase)
      → c.phase ≡ p
      → Due c
      → Ended (main_round n sys elapsed c p)
  unfolding join
  main_round-Ended elapsed c (showing d) e (s, x, y, z) =
      let f : is_showing (showing d) ≡ false = sym (ap is_showing e) ∙ s in absurd (ground arith)
  main_round-Ended elapsed c joining e (s, x, y, z) = simp (x, y, z) refl
  main_round-Ended elapsed c ended e h = ap is_ended e

  main_round-over :
      (elapsed : ℕ) (c : Console T) (p : Phase)
      → c.phase ≡ p
      → is_ended p ≡ true
      → Ended (main_round n sys elapsed c p)
  main_round-over elapsed c (showing d) e h = absurd (ground arith)
  main_round-over elapsed c joining e h = absurd (ground arith)
  main_round-over elapsed c ended e h = ap is_ended e

  step-Ended : (e : Event) (c : Console T) → Ended c → Ended (step n cfg sys e c).0
  unfolding step stop
  step-Ended (main_step elapsed) c h = main_round-over elapsed c c.phase refl h
  step-Ended (worker_step r) c h = h
  step-Ended ctrl_c c h = h

  main-Ended : (e : Event) (c : Console T) → Due c → is_main e ≡ true → Ended (step n cfg sys e c).0
  unfolding step
  main-Ended (main_step elapsed) c h k = main_round-Ended elapsed c c.phase refl h
  main-Ended (worker_step r) c h k = absurd (ground arith)
  main-Ended ctrl_c c h k = absurd (ground arith)

  run-Due : (es : List Event) (c : Console T) → Stopped c → OfEach es → Due (run n cfg sys es c)
  run-Due es c h (m, x, y, z) = (
    run-reaches n cfg sys Closing Stopped is_main step-Closing (step-Stopped n cfg sys) main-Closing
        es c h m,
    run-reaches n cfg sys (λ v. v.workers.t1 ≡ false) Stopped is_tun (λ e v. (step-Keeps e v).0)
        (step-Stopped n cfg sys) tun-ends es c h x,
    run-reaches n cfg sys (λ v. v.workers.t2 ≡ false) Stopped is_udp (λ e v. (step-Keeps e v).1)
        (step-Stopped n cfg sys) udp-ends es c h y,
    run-reaches n cfg sys (λ v. v.workers.t3 ≡ false) Stopped is_tick (λ e v. (step-Keeps e v).2)
        (step-Stopped n cfg sys) tick-ends es c h z,
  )

  ended-EndsWith :
      (d0 : WintunDevice) (c : Console T) (p : Phase)
      → c.phase ≡ p
      → p ≡ ended
      → SoundIn sys d0 c p
      → EndsWith sys d0 c
  ended-EndsWith d0 c p e f h =
      let ((r, dev, k), x, y, z) = subst (SoundIn sys d0 c) f h in (e ∙ f, dev, x, y, z, k)

  -- However the threads' steps were ordered before: once `stop` was called, a run with a step of
  -- each thread and after these another of the main thread has ended, in any order and with any
  -- other steps between them. The device is then shut down, all workers have ended, and the
  -- handshake was announced at most once.
  pub run-EndsWith :
      (s : Shared T) (d0 : WintunDevice) (before after last : List Event)
      → OfEach after
      → some_of is_main last ≡ true
      → EndsWith sys d0
          (run n cfg sys last (run n cfg sys after (stop (run n cfg sys before (opened s d0)))))
  unfolding step stop
  run-EndsWith s d0 before after last each m =
      let b = run n cfg sys before (opened s d0) in
      let a = run n cfg sys after (stop b) in
      let sound = run-IsSound sys d0 n cfg before (opened s d0) (refl, refl) in
      let stopped = step-IsSound sys d0 n cfg ctrl_c b sound in
      let x = run n cfg sys last a in
      let z = run-IsSound sys d0 n cfg last a (run-IsSound sys d0 n cfg after (stop b) stopped) in
      let end =
        run-reaches n cfg sys Ended Due is_main step-Ended step-Due main-Ended last a
          (run-Due after (stop b) refl each) m in
      ended-EndsWith d0 x x.phase refl (is_ended-eq x.phase end) z

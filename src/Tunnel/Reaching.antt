-- ===== src/Tunnel/Reaching.antt =====
-- What a run of the threads of `StandaloneTunnel::run` (src/tunnel.rs) reaches by a step of one kind.
use phobos_wg_client.Base.{
  ℕ, Bool, true, false, ◌||◌, List, [], ◌∷◌, ◌++◌, ◌≡◌, refl, inl, inr, arith, Bool-cases,
}
use phobos_wg_client.Base.Result.{if_preserves}
use phobos_wg_client.Relay.{Config}
use phobos_wg_client.Tunnel.Setup.{Noise}
use phobos_wg_client.Tunnel.Workers.{all_joined, tun_recv, udp_recv, tick}
use phobos_wg_client.Tunnel.Console.{
  off, Phase, showing, joining, ended, Console, Event, main_step, worker_step, ctrl_c, stop,
  show_status, close, join, main_round, step, run,
}
use phobos_wg_client.WindowsNet.{System}

abbrev pub some_of : (Event → Bool) → List Event → Bool
some_of k [] = false
some_of k (e ∷ es) = k e || some_of k es

abbrev pub is_main : Event → Bool
is_main (main_step elapsed) = true
is_main (worker_step r) = false
is_main ctrl_c = false

abbrev pub is_tun : Event → Bool
is_tun (worker_step (tun_recv w p)) = true
is_tun e = false

abbrev pub is_udp : Event → Bool
is_udp (worker_step (udp_recv w a f d)) = true
is_udp e = false

abbrev pub is_tick : Event → Bool
is_tick (worker_step (tick w elapsed)) = true
is_tick e = false

abbrev pub is_showing : Phase → Bool
is_showing (showing d) = true
is_showing joining = false
is_showing ended = false

abbrev pub is_ended : Phase → Bool
is_ended (showing d) = false
is_ended joining = false
is_ended ended = true

pub is_ended-eq : (p : Phase) → is_ended p ≡ true → p ≡ ended
is_ended-eq (showing d) h = absurd (ground arith)
is_ended-eq joining h = absurd (ground arith)
is_ended-eq ended h = refl

abbrev pub Stopped : {T : Type 0} → Console T → Type 0
Stopped c = c.running ≡ false

module _ {T : Type 0} (n : Noise T) (cfg : Config) (sys : System) where
  -- What every step keeps, every run keeps.
  run-keeps :
      (P : Console T → Type 0)
      → ((e : Event) (c : Console T) → P c → P (step n cfg sys e c).0)
      → (es : List Event) (c : Console T) → P c
      → P (run n cfg sys es c)
  unfolding run
  run-keeps P s [] c h = h
  run-keeps P s (e ∷ es) c h = run-keeps P s es (step n cfg sys e c).0 (s e c h)

  -- What a step of one kind establishes where `Q` holds, a run with such a step establishes.
  pub run-reaches :
      (P Q : Console T → Type 0) (k : Event → Bool)
      → ((e : Event) (c : Console T) → P c → P (step n cfg sys e c).0)
      → ((e : Event) (c : Console T) → Q c → Q (step n cfg sys e c).0)
      → ((e : Event) (c : Console T) → Q c → k e ≡ true → P (step n cfg sys e c).0)
      → (es : List Event) (c : Console T) → Q c
      → some_of k es ≡ true
      → P (run n cfg sys es c)
  unfolding run
  run-reaches P Q k s r hit [] c q h = absurd (ground arith)
  run-reaches P Q k s r hit (e ∷ es) c q h = elim (Bool-cases (k e)) [
    | inl x ↦ run-keeps P s es (step n cfg sys e c).0 (hit e c q x)
    | inr x ↦ run-reaches P Q k s r hit es (step n cfg sys e c).0 (r e c q) (simp x at h)
  ]

  main_round-Stopped :
      (elapsed : ℕ) (c : Console T) (p : Phase) → Stopped c → Stopped (main_round n sys elapsed c p)
  unfolding show_status close join
  main_round-Stopped elapsed c (showing d) h =
      if_preserves Stopped c.running (show_status n elapsed c d) (close sys c) (λ r. h) (λ r. h)
  main_round-Stopped elapsed c joining h =
      if_preserves Stopped (all_joined c.workers)
        (record c { lines = c.lines ++ off ∷ []; phase = ended }) c (λ r. h) (λ r. h)
  main_round-Stopped elapsed c ended h = h

  pub step-Stopped : (e : Event) (c : Console T) → Stopped c → Stopped (step n cfg sys e c).0
  unfolding step stop
  step-Stopped (main_step elapsed) c h = main_round-Stopped elapsed c c.phase h
  step-Stopped (worker_step r) c h = h
  step-Stopped ctrl_c c h = refl

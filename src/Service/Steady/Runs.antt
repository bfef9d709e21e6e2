-- ===== src/Service/Steady/Runs.antt =====
-- The steps of the sessions, and runs of the service, while `start` never outruns a session
-- (src/tunnel_service.rs).
use phobos_wg_client.Base.{
  ℕ, zero, suc, true, false, List, [], ◌∷◌, ◌≡◌, refl, sym, subst, inl, inr, Bool-cases, All,
}
use phobos_wg_client.Text.{CaseTable}
use phobos_wg_client.Tunnel.Setup.{Noise}
use phobos_wg_client.WgConfig.{Decode}
use phobos_wg_client.WindowsNet.{Table}
use phobos_wg_client.Service.{TunnelService}
use phobos_wg_client.Service.Session.{Action, proceed, worker}
use phobos_wg_client.Service.Threads.{
  Thread, State, Event, start_called, slept, stop_called, session, act, act_at, step, run,
}
use phobos_wg_client.Service.Steady.Local.{
  advance-Fits, worker_round-Fits, advance-dead, worker_round-dead,
}
use phobos_wg_client.Service.Steady.Setup.{Allowed, stays, is_live, Agrees, Fits}
use phobos_wg_client.Service.Steady.{
  IsDead, Steady, IsPatientAt, IsPatient, Either-true, Either-false, Either-intro, Kept, head-Kept,
  KeptBy, window_step-Kept,
}

module _ {T : Type 0} (u : CaseTable) (decode : Decode) (n : Noise T) where
  pub act-Fits :
      (a : Action) (s : TunnelService) (t : Table) (th : Thread T)
      → is_live th.stage ≡ true
      → Agrees s.status th.stage
      → Fits s.status (act u decode n a s t th)
  unfolding act
  act-Fits (proceed a elapsed) s t th l h =
      advance-Fits u decode n th.profile a elapsed s t th.stage l h
  act-Fits (worker x) s t th l h = worker_round-Fits n x s t th.stage h

  act-dead :
      (a : Action) (s : TunnelService) (t : Table) (th : Thread T)
      → is_live th.stage ≡ false
      → (is_live (act u decode n a s t th).stage ≡ false)
        × ((act u decode n a s t th).service.status ≡ s.status)
  unfolding act
  act-dead (proceed a elapsed) s t th l =
      advance-dead u decode n th.profile a elapsed s t th.stage l
  act-dead (worker x) s t th l = worker_round-dead n x s t th.stage l

  act_at-IsDead :
      (i : ℕ) (a : Action) (s : TunnelService) (t : Table) (ths : List (Thread T))
      → All IsDead ths
      → All IsDead (act_at u decode n i a s t ths).threads
        × ((act_at u decode n i a s t ths).service.status ≡ s.status)
  unfolding act_at
  act_at-IsDead i a s t [] d = (tt, refl)
  act_at-IsDead zero a s t (th ∷ ths) d = let (l, e) = act-dead a s t th d.0 in ((l, d.1), e)
  act_at-IsDead (suc i) a s t (th ∷ ths) d =
      let (l, e) = act_at-IsDead i a s t ths d.1 in ((d.0, l), e)

  act_at-Kept :
      (i : ℕ) (a : Action) (s : TunnelService) (t : Table) (ths : List (Thread T))
      → Steady s.status ths
      → Kept s.status (act_at u decode n i a s t ths)
  unfolding act_at
  act_at-Kept i a s t [] h = (h, stays refl)
  act_at-Kept zero a s t (th ∷ ths) h =
      let A = Agrees s.status th.stage × All IsDead ths in
      let B = Steady s.status ths in
      elim (Bool-cases (is_live th.stage)) [
        | inl l ↦
            let x = Either-true A B (is_live th.stage) l h in
            head-Kept s.status th ths (act u decode n a s t th) (act-Fits a s t th l x.0) x.1
        | inr l ↦
            let x = Either-false A B (is_live th.stage) l h in
            let e = act u decode n a s t th in
            let d = act-dead a s t th l in
            (
              Either-intro (Agrees e.service.status e.stage × All IsDead ths)
                  (Steady e.service.status ths) (is_live e.stage) (λ y. absurd (cc))
                  (λ y. subst (λ z. Steady z ths) (sym d.1) x),
              stays (sym d.1),
            )
      ]
  act_at-Kept (suc i) a s t (th ∷ ths) h =
      let A = Agrees s.status th.stage × All IsDead ths in
      let B = Steady s.status ths in
      let m = act_at u decode n i a s t ths in
      elim (Bool-cases (is_live th.stage)) [
        | inl l ↦
            let x = Either-true A B (is_live th.stage) l h in
            let d = act_at-IsDead i a s t ths x.1 in
            (
              Either-intro (Agrees m.service.status th.stage × All IsDead m.threads)
                  (Steady m.service.status m.threads) (is_live th.stage)
                  (λ y. (subst (λ z. Agrees z th.stage) (sym d.1) x.0, d.0)) (λ y. absurd (cc)),
              stays (sym d.1),
            )
        | inr l ↦
            let x = act_at-Kept i a s t ths (Either-false A B (is_live th.stage) l h) in
            (
              Either-intro (Agrees m.service.status th.stage × All IsDead m.threads)
                  (Steady m.service.status m.threads) (is_live th.stage) (λ y. absurd (cc))
                  (λ y. x.0),
              x.1,
            )
      ]

  step-Kept :
      (x : State T) (e : Event)
      → IsPatientAt x x.window e
      → Steady x.service.status x.threads
      → KeptBy x (step u decode n x e).0
  unfolding step
  step-Kept x (session i a) h s = act_at-Kept i a x.service x.table x.threads s
  step-Kept x (start_called time p) h s = window_step-Kept x.window (start_called time p) x h s
  step-Kept x (slept time) h s = window_step-Kept x.window (slept time) x h s
  step-Kept x stop_called h s = window_step-Kept x.window stop_called x h s

  -- Of every event of a run.
  abbrev pub Throughout : (State T → Event → Type 0) → State T → List Event → Type 0
  Throughout P x [] = Unit
  Throughout P x (e ∷ es) = P x e × Throughout P (step u decode n x e).0 es

  -- The event moves the status as the specification allows.
  abbrev pub IsRefining : State T → Event → Type 0
  IsRefining x e = Allowed x.service.status (step u decode n x e).0.service.status

  -- In every run in which no `start` begins a session beside an active one: at most one session is
  -- alive, the status is connecting up to its first handshake and connected behind it, and inactive
  -- without one; and each event leaves the status, or starts an inactive tunnel, connects or fails
  -- a connecting one, or ends an active one.
  pub run-Steady :
      (x : State T) (es : List Event)
      → Steady x.service.status x.threads
      → Throughout IsPatient x es
      → (let y = (run u decode n x es).0 in Steady y.service.status y.threads)
        × Throughout IsRefining x es
  unfolding run
  run-Steady x [] s h = (s, tt)
  run-Steady x (e ∷ es) s h =
      let (kept, allowed) = step-Kept x e h.0 s in
      let (end, rest) = run-Steady (step u decode n x e).0 es kept h.1 in (end, (allowed, rest))

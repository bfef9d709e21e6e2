-- ===== src/Service/Steady.antt =====
-- While `start` never outruns a session (src/tunnel_service.rs), the status is that of the one
-- session that is alive: what that means, and the steps of the window's thread.
pub mod Setup
pub mod Local
pub mod Runs
use phobos_wg_client.Base.{
  ℕ, zero, suc, Bool, true, false, List, [], ◌∷◌, ◌≡◌, refl, sym, ap, subst, inl, inr, Bool-cases,
  if◌then◌else◌, All,
}
use phobos_wg_client.Base.Result.{if_preserves}
use phobos_wg_client.Archive.{PhobosProfile}
use phobos_wg_client.Text.{Text, CaseTable}
use phobos_wg_client.Tunnel.Setup.{Noise}
use phobos_wg_client.WgConfig.{Decode}
use phobos_wg_client.WindowsNet.{Table}
use phobos_wg_client.Service.{
  TunnelStatus, connecting, TunnelService, is_active_status, is_active, stop, begin, log,
}
use phobos_wg_client.Service.Stages.{Effect}
use phobos_wg_client.Service.Session.{Action, proceed, worker}
use phobos_wg_client.Service.Threads.{
  Window, idle, waiting, Thread, State, Moved, Event, start_called, slept, stop_called, session,
  spawn, start, poll, act, head_moved, act_at, window_step, step, run,
}
use phobos_wg_client.Service.Steady.Local.{
  Agrees-active, Agrees-inactive, advance-Fits, worker_round-Fits, advance-dead, worker_round-dead,
}
use phobos_wg_client.Service.Steady.Setup.{Allowed, stays, starts, is_live, Agrees, Fits}

abbrev pub IsDead : {T : Type 0} → Thread T → Type 0
IsDead th = is_live th.stage ≡ false

abbrev pub Either : Bool → Type 0 → Type 0 → Type 0
Either true A B = A
Either false A B = B

-- At most one session is alive, the status agrees with its stage, and is inactive without one.
abbrev pub Steady : {T : Type 0} → TunnelStatus → List (Thread T) → Type 0
Steady st [] = is_active_status st ≡ false
Steady st (th ∷ ths) =
    Either (is_live th.stage) (Agrees st th.stage × All IsDead ths) (Steady st ths)

-- No `start` begins a session beside one that is active: its wait is over before its sleeps are.
abbrev pub IsPatientAt : {T : Type 0} → State T → Window → Event → Type 0
IsPatientAt x (waiting p zero) (slept time) = is_active x.service ≡ false
IsPatientAt x (waiting p zero) (start_called time q) = Unit
IsPatientAt x (waiting p zero) stop_called = Unit
IsPatientAt x (waiting p zero) (session i a) = Unit
IsPatientAt x (waiting p (suc left)) e = Unit
IsPatientAt x idle e = Unit

pub Either-true : (A B : Type 0) (b : Bool) → b ≡ true → Either b A B → A
Either-true A B true e h = h
Either-true A B false e h = absurd (cc)

pub Either-false : (A B : Type 0) (b : Bool) → b ≡ false → Either b A B → B
Either-false A B true e h = absurd (cc)
Either-false A B false e h = h

pub Either-intro : (A B : Type 0) (b : Bool) → (b ≡ true → A) → (b ≡ false → B) → Either b A B
Either-intro A B true f g = f refl
Either-intro A B false f g = g refl

module _ {T : Type 0} where
  pub dead-Steady :
      (st : TunnelStatus) (ths : List (Thread T))
      → is_active_status st ≡ false
      → All IsDead ths
      → Steady st ths
  dead-Steady st [] h d = h
  dead-Steady st (th ∷ ths) h d =
      Either-intro (Agrees st th.stage × All IsDead ths) (Steady st ths) (is_live th.stage)
        (λ e. absurd (cc)) (λ e. dead-Steady st ths h d.1)

  -- Without an active status no session is alive.
  inactive-IsDead :
      (st : TunnelStatus) (ths : List (Thread T))
      → is_active_status st ≡ false
      → Steady st ths
      → All IsDead ths
  inactive-IsDead st [] h s = tt
  inactive-IsDead st (th ∷ ths) h s = elim (Bool-cases (is_live th.stage)) [
    | inl e ↦ absurd (
        let a =
          Agrees-active st th.stage e
            (Either-true (Agrees st th.stage × All IsDead ths) (Steady st ths) (is_live th.stage) e
              s).0 in
        cc)
    | inr e ↦ (
      e,
      inactive-IsDead st ths h (
          Either-false (Agrees st th.stage × All IsDead ths) (Steady st ths) (is_live th.stage) e
            s),
    )
  ]

  abbrev pub Kept : TunnelStatus → Moved T → Type 0
  Kept st m = Steady m.service.status m.threads × Allowed st m.service.status

  -- The head's step, from what it is and becomes.
  pub head-Kept :
      (st : TunnelStatus) (th : Thread T) (ths : List (Thread T)) (e : Effect T)
      → Fits st e
      → All IsDead ths
      → Kept st (head_moved th ths e)
  head-Kept st th ths e f d = (
    Either-intro (Agrees e.service.status e.stage × All IsDead ths) (Steady e.service.status ths)
        (is_live e.stage) (λ l. (f.0, d))
        (λ l. dead-Steady e.service.status ths (Agrees-inactive e.service.status e.stage l f.0) d),
    f.1,
  )

  abbrev pub KeptBy : State T → State T → Type 0
  KeptBy x y = Steady y.service.status y.threads × Allowed x.service.status y.service.status

  spawn-Kept :
      (time : Text) (p : PhobosProfile) (x : State T)
      → is_active x.service ≡ false
      → Steady x.service.status x.threads
      → KeptBy x (spawn time p x)
  unfolding spawn begin log is_active
  spawn-Kept time p x h s = ((refl, inactive-IsDead x.service.status x.threads h s), starts h refl)

  start-Kept :
      (time : Text) (p : PhobosProfile) (x : State T)
      → Steady x.service.status x.threads
      → KeptBy x (start time p x)
  unfolding start stop
  start-Kept time p x s =
      if_preserves (KeptBy x) (is_active x.service)
        (record x { service = stop x.service; window = waiting p 40 }) (spawn time p x)
        (λ e. (s, stays refl)) (λ e. spawn-Kept time p x e s)

  poll-Kept :
      (time : Text) (p : PhobosProfile) (left : ℕ) (x : State T)
      → IsPatientAt x (waiting p left) (slept time)
      → Steady x.service.status x.threads
      → KeptBy x (poll time p left x)
  unfolding poll
  poll-Kept time p zero x h s = spawn-Kept time p x h s
  poll-Kept time p (suc left) x h s =
      if_preserves (KeptBy x) (is_active x.service) (record x { window = waiting p left })
        (spawn time p x) (λ e. (s, stays refl)) (λ e. spawn-Kept time p x e s)

  pub window_step-Kept :
      (w : Window) (e : Event) (x : State T)
      → IsPatientAt x w e
      → Steady x.service.status x.threads
      → KeptBy x (window_step w e x)
  unfolding stop
  window_step-Kept idle (start_called time p) x h s = start-Kept time p x s
  window_step-Kept idle (slept time) x h s = (s, stays refl)
  window_step-Kept idle stop_called x h s = (s, stays refl)
  window_step-Kept idle (session i a) x h s = (s, stays refl)
  window_step-Kept (waiting p left) (slept time) x h s = poll-Kept time p left x h s
  window_step-Kept (waiting p left) (start_called time q) x h s = (s, stays refl)
  window_step-Kept (waiting p left) stop_called x h s = (s, stays refl)
  window_step-Kept (waiting p left) (session i a) x h s = (s, stays refl)

  abbrev pub IsPatient : State T → Event → Type 0
  IsPatient x e = IsPatientAt x x.window e

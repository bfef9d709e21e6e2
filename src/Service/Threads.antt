-- ===== src/Service/Threads.antt =====
-- The threads of the service together (src/tunnel_service.rs): the window's thread, which calls
-- `start` and `stop`, and every session that `start` has begun. Events come in any order; the lines
-- of the window's `start` behind its wait are one event.
use phobos_wg_client.Base.{ℕ, zero, suc, List, [], ◌∷◌, ◌++◌, if◌then◌else◌}
use phobos_wg_client.Archive.{PhobosProfile}
use phobos_wg_client.Text.{Text, CaseTable}
use phobos_wg_client.Tunnel.{Output}
use phobos_wg_client.Tunnel.Setup.{Noise}
use phobos_wg_client.WgConfig.{Decode}
use phobos_wg_client.WindowsNet.{Table}
use phobos_wg_client.Service.{TunnelService, is_active, stop, begin}
use phobos_wg_client.Service.Stages.{Stage, parsing, Effect}
use phobos_wg_client.Service.Session.{Action, proceed, worker, advance, worker_round}

-- The window's thread: idle, or in the wait of `start` with the number of sleeps that are left.
pub data Window : Type 0 where
  idle : Window
  waiting : PhobosProfile → ℕ → Window

pub record Thread (T : Type 0) : Type 0 where
  pub profile : PhobosProfile
  pub stage : Stage T

-- The latest session stands first.
pub record State (T : Type 0) : Type 0 where
  pub service : TunnelService
  pub table : Table
  pub threads : List (Thread T)
  pub window : Window

pub record Moved (T : Type 0) : Type 0 where
  pub service : TunnelService
  pub table : Table
  pub threads : List (Thread T)
  pub sent : List Output

pub data Event : Type 0 where
  start_called : Text → PhobosProfile → Event
  slept : Text → Event
  stop_called : Event
  session : ℕ → Action → Event

module _ {T : Type 0} where
  -- `start` behind its wait: the session's thread begins.
  unfoldable pub spawn : Text → PhobosProfile → State T → State T
  spawn time p x = record x {
    service = begin time p x.service;
    threads = record { profile = p; stage = parsing } ∷ x.threads;
    window = idle;
  }

  -- The call of `start`: an active session is stopped first, for which it waits.
  unfoldable pub start : Text → PhobosProfile → State T → State T
  start time p x =
      if is_active x.service
      then record x { service = stop x.service; window = waiting p 40 }
      else spawn time p x

  -- The loop of the wait, between two sleeps.
  unfoldable pub poll : Text → PhobosProfile → ℕ → State T → State T
  poll time p zero x = spawn time p x
  poll time p (suc left) x =
      if is_active x.service then record x { window = waiting p left } else spawn time p x

  abbrev pub head_moved : Thread T → List (Thread T) → Effect T → Moved T
  head_moved th ths e = record {
    service = e.service;
    table = e.table;
    threads = record th { stage = e.stage } ∷ ths;
    sent = e.sent;
  }

  abbrev pub window_step : Window → Event → State T → State T
  window_step idle (start_called time p) x = start time p x
  window_step idle (slept time) x = x
  window_step idle stop_called x = record x { service = stop x.service }
  window_step idle (session i a) x = x
  window_step (waiting p left) (slept time) x = poll time p left x
  window_step (waiting p left) (start_called time q) x = x
  window_step (waiting p left) stop_called x = x
  window_step (waiting p left) (session i a) x = x

  abbrev pub with_moved : State T → Moved T → State T × List Output
  with_moved x m = (record x { service = m.service; table = m.table; threads = m.threads }, m.sent)

module _ {T : Type 0} (u : CaseTable) (decode : Decode) (n : Noise T) where
  unfoldable pub act : Action → TunnelService → Table → Thread T → Effect T
  act (proceed a elapsed) s t th = advance u decode n th.profile a elapsed s t th.stage
  act (worker x) s t th = worker_round n x s t th.stage

  unfoldable pub act_at : ℕ → Action → TunnelService → Table → List (Thread T) → Moved T
  act_at i a s t [] = record { service = s; table = t; threads = []; sent = [] }
  act_at zero a s t (th ∷ ths) = head_moved th ths (act a s t th)
  act_at (suc i) a s t (th ∷ ths) =
      let m = act_at i a s t ths in record m { threads = th ∷ m.threads }

  -- One event; a window that waits in `start` takes no other call.
  unfoldable pub step : State T → Event → State T × List Output
  step x (session i a) = with_moved x (act_at i a x.service x.table x.threads)
  step x (start_called time p) = (window_step x.window (start_called time p) x, [])
  step x (slept time) = (window_step x.window (slept time) x, [])
  step x stop_called = (window_step x.window stop_called x, [])

  unfoldable pub run : State T → List Event → State T × List Output
  run x [] = (x, [])
  run x (e ∷ es) = let here = step x e in let later = run here.0 es in (later.0, here.1 ++ later.1)

-- ===== src/Tunnel/Console.antt =====
-- The threads of `StandaloneTunnel::run` (src/tunnel.rs) behind its set-up: the main thread with its
-- status line and the end behind the stop, the three workers, and `stop`, which Ctrl+C calls. A run
-- is a list of events, that is any order of the threads' steps.
use phobos_wg_client.Base.{
  ℕ, ◌-◌, Bool, true, false, not, ◌&&◌, ◌||◌, List, [], ◌∷◌, ◌++◌, Option, if◌then◌else◌,
}
use phobos_wg_client.Relay.{Config}
use phobos_wg_client.Service.{Rate, kbps}
use phobos_wg_client.Tunnel.{Shared, Output}
use phobos_wg_client.Tunnel.Setup.{Noise}
use phobos_wg_client.Tunnel.Workers.{Workers, all_joined, Round, work}
use phobos_wg_client.WindowsNet.{System}
use phobos_wg_client.Wintun.Device.{WintunDevice, is_some, shutdown}

-- What the main thread remembers between two status lines.
pub record Dashboard : Type 0 where
  pub last_sent : ℕ
  pub last_recv : ℕ
  pub handshake_notified : Bool

-- What the main thread prints.
pub data Line : Type 0 where
  handshake_done : Line
  status : Option ℕ → Rate → Rate → ℕ → ℕ → Line
  ending : Line
  off : Line

pub data Phase : Type 0 where
  showing : Dashboard → Phase
  joining : Phase
  ended : Phase

pub record Console (T : Type 0) : Type 0 where
  pub running : Bool
  pub workers : Workers T
  pub device : WintunDevice
  pub phase : Phase
  pub lines : List Line

pub data Event : Type 0 where
  main_step : ℕ → Event
  worker_step : Round → Event
  ctrl_c : Event

-- In front of the main thread's loop.
abbrev pub dashboard : Dashboard
dashboard = record { last_sent = 0; last_recv = 0; handshake_notified = false }

abbrev pub notice : Bool → List Line
notice b = if b then handshake_done ∷ [] else []

module _ {T : Type 0} where
  -- The threads behind the set-up.
  abbrev pub opened : Shared T → WintunDevice → Console T
  opened s d = record {
    running = true;
    workers = record { shared = s; t1 = true; t2 = true; t3 = true };
    device = d;
    phase = showing dashboard;
    lines = [];
  }

  -- `stop`
  unfoldable pub stop : Console T → Console T
  stop c = record c { running = false }

  abbrev pub status_line : Noise T → ℕ → Console T → Dashboard → Line
  status_line n elapsed c d =
      let cur = c.workers.shared in
      status (n.since_handshake cur.tunn) (kbps (cur.bytes_sent - d.last_sent) elapsed)
        (kbps (cur.bytes_recv - d.last_recv) elapsed) cur.bytes_sent cur.bytes_recv

  -- A round of the loop, `elapsed` nanoseconds behind the last one.
  unfoldable pub show_status : Noise T → ℕ → Console T → Dashboard → Console T
  show_status n elapsed c d =
      let cur = c.workers.shared in
      let connected = is_some (n.since_handshake cur.tunn) in
      record c {
        lines =
            c.lines
            ++ (notice (connected && not d.handshake_notified) ++ status_line n elapsed c d ∷ []);
        phase = showing (record {
          last_sent = cur.bytes_sent;
          last_recv = cur.bytes_recv;
          handshake_notified = connected || d.handshake_notified;
        });
      }

  -- Behind the loop: the device is shut down, and the workers are waited for.
  unfoldable pub close : System → Console T → Console T
  close sys c = record c {
    lines = c.lines ++ ending ∷ [];
    device = shutdown sys c.device;
    phase = joining;
  }

  unfoldable pub join : Console T → Console T
  join c =
      if all_joined c.workers then record c { lines = c.lines ++ off ∷ []; phase = ended } else c

  abbrev pub main_round : Noise T → System → ℕ → Console T → Phase → Console T
  main_round n sys elapsed c (showing d) =
      if c.running then show_status n elapsed c d else close sys c
  main_round n sys elapsed c joining = join c
  main_round n sys elapsed c ended = c

  abbrev pub worked : Console T → Workers T × List Output → Console T × List Output
  worked c (w, out) = (record c { workers = w }, out)

  -- One step of a thread, with the datagrams and packets that it sends.
  unfoldable pub step : Noise T → Config → System → Event → Console T → Console T × List Output
  step n cfg sys (main_step elapsed) c = (main_round n sys elapsed c c.phase, [])
  step n cfg sys (worker_step r) c = worked c (work n.engine cfg (not c.running) c.workers r)
  step n cfg sys ctrl_c c = (stop c, [])

  unfoldable pub run : Noise T → Config → System → List Event → Console T → Console T
  run n cfg sys [] c = c
  run n cfg sys (e ∷ es) c = run n cfg sys es (step n cfg sys e c).0

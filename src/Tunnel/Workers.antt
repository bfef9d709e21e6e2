-- ===== src/Tunnel/Workers.antt =====
-- The three workers of a tunnel (src/tunnel.rs, and alike in src/tunnel_service.rs) as threads that
-- run until they see the stop flag. A round tests the flag, waits and handles one packet. A stop that
-- falls within a round shows only to the next round of that worker, so the round counts as one
-- before it.
use phobos_wg_client.Base.{
  ℕ, Bool, false, not, ◌&&◌, List, [], Option, none, some, if◌then◌else◌, Bytes,
}
use phobos_wg_client.Relay.{Config, World}
use phobos_wg_client.Tunnel.{Engine, Shared, Output, tun_round, udp_round, timer_round}

-- The threads, and what they share.
pub record Workers (T : Type 0) : Type 0 where
  pub shared : Shared T
  pub t1 : Bool
  pub t2 : Bool
  pub t3 : Bool

abbrev pub all_joined : {T : Type 0} → Workers T → Bool
all_joined w = not w.t1 && not w.t2 && not w.t3

-- A round of a worker, with what it receives: `none` where the adapter's session has ended, and
-- where the socket has nothing.
pub data Round : Type 0 where
  tun_recv : World → Option Bytes → Round
  udp_recv : (ℕ → World) → (ℕ → Bool) → ℕ → Option Bytes → Round
  tick : World → ℕ → Round

module _ {T : Type 0} (e : Engine T) (c : Config) where
  abbrev pub after_tun : Workers T → Shared T × List Output → Workers T × List Output
  after_tun w (s, out) = (record w { shared = s }, out)

  -- A receiver whose inner loop has not ended is still in its round.
  abbrev pub after_udp : Workers T → Option (Shared T × List Output) → Workers T × List Output
  after_udp w none = (w, [])
  after_udp w (some (s, out)) = (record w { shared = s }, out)

  abbrev pub tun_step : Workers T → World → Option Bytes → Workers T × List Output
  tun_step w world none = (record w { t1 = false }, [])
  tun_step w world (some packet) = after_tun w (tun_round e c world w.shared packet)

  abbrev pub udp_step :
      Workers T → (ℕ → World) → (ℕ → Bool) → ℕ → Option Bytes → Workers T × List Output
  udp_step w worlds allocate fuel none = (w, [])
  udp_step w worlds allocate fuel (some d) =
      after_udp w (udp_round e c worlds allocate fuel w.shared d)

  abbrev pub timer_step : Workers T → World → ℕ → Workers T × List Output
  timer_step w world elapsed =
      let (s, out, left) = timer_round e c world elapsed w.shared in (record w { shared = s }, out)

  -- One round of a worker under the stop flag.
  unfoldable pub work : Bool → Workers T → Round → Workers T × List Output
  work stop w (tun_recv world packet) =
      if not w.t1
      then (w, [])
      else if stop
      then (record w { t1 = false }, [])
      else tun_step w world packet
  work stop w (udp_recv worlds allocate fuel d) =
      if not w.t2
      then (w, [])
      else if stop
      then (record w { t2 = false }, [])
      else udp_step w worlds allocate fuel d
  work stop w (tick world elapsed) =
      if not w.t3
      then (w, [])
      else if stop
      then (record w { t3 = false }, [])
      else timer_step w world elapsed

-- ===== src/Tunnel.antt =====
-- The standalone tunnel (src/tunnel.rs): what one round of each of its three workers does. The
-- WireGuard engine is a dependency, a state with three operations; what is sent to the server and to
-- the network adapter is a result. Errors of the sockets only skip a round.
pub mod Rounds
pub mod Draining
pub mod Setup
pub mod Workers
pub mod Console
pub mod Ending
pub mod Reaching
pub mod Stopped
pub mod Samples
mod Tests
use phobos_wg_client.Base.{
  ℕ, zero, suc, ◌+◌, ◌%◌, ◌^◌, Bool, true, false, not, ◌||◌, ◌&&◌, List, [], ◌∷◌, ◌++◌, Option,
  none, some, if◌then◌else◌, leb, length, Bytes, add_u64,
}
use phobos_wg_client.Obfuscator.{Obfuscator, encode, decode}
use phobos_wg_client.Relay.{Config, World, mask}
use phobos_wg_client.Stun.{is_stun_packet, stun_unwrap_data_indication, stun_build_binding_request}
use phobos_wg_client.Text.{is_nil}

-- `TunnResult`; the two kinds of `WriteToTunnel` are handled alike.
pub data TunnResult : Type 0 where
  done : TunnResult
  failed : TunnResult
  write_to_network : Bytes → TunnResult
  write_to_tunnel : Bytes → TunnResult

pub record Engine (T : Type 0) : Type 0 where
  pub encapsulate : T → Bytes → T × TunnResult
  pub decapsulate : T → Bytes → T × TunnResult
  pub update_timers : T → T × TunnResult

-- What the workers share.
pub record Shared (T : Type 0) : Type 0 where
  pub tunn : T
  pub bytes_sent : ℕ
  pub bytes_recv : ℕ

pub data Output : Type 0 where
  to_server : Bytes → Output
  to_adapter : Bytes → Output

-- `payload`: the obfuscated packet, framed where it fits a frame.
unfoldable pub payload : Config → World → Bytes → Bytes
payload c w packet = mask c.is_stun w.txid (encode c.obfuscator w.draws packet)

unfoldable pub count_sent : ℕ → Option ℕ → ℕ
count_sent bytes_sent none = bytes_sent
count_sent bytes_sent (some n) = add_u64 bytes_sent n

-- The datagram without its frame, or `none` where it is a STUN message without data.
unfoldable pub de_stun : Bool → Bytes → Option Bytes
de_stun use_stun raw_data =
    if use_stun
    then elim (stun_unwrap_data_indication raw_data) [
      | none ↦ if is_stun_packet raw_data then none else some raw_data
      | some p ↦ some p
    ]
    else some raw_data

abbrev pub decoded : Config → Option Bytes → Option Bytes
decoded c none = none
decoded c (some p) =
    let r = decode c.obfuscator p in if not r.ok || is_nil r.buf then none else some r.buf

-- What is handed to the engine for a datagram.
unfoldable pub plain_buf : Config → Bytes → Option Bytes
plain_buf c raw_data = decoded c (de_stun c.is_stun raw_data)

module _ {T : Type 0} (e : Engine T) (c : Config) where
  abbrev pub tun_result : World → Shared T → T → TunnResult → Shared T × List Output
  tun_result w s t (write_to_network packet) =
      let out = payload c w packet in
      (record s { tunn = t; bytes_sent = count_sent s.bytes_sent (w.send out) }, to_server out ∷ [])
  tun_result w s t done = (record s { tunn = t }, [])
  tun_result w s t failed = (record s { tunn = t }, [])
  tun_result w s t (write_to_tunnel packet) = (record s { tunn = t }, [])

  -- The body of the loop on the adapter's packets.
  unfoldable pub tun_round : World → Shared T → Bytes → Shared T × List Output
  tun_round w s packet = let r = e.encapsulate s.tunn packet in tun_result w s r.0 r.1

  -- The adapter takes a packet whose length is cut to 16 bits, or it is dropped.
  abbrev pub adapter_output : (ℕ → Bool) → Bytes → List Output
  adapter_output allocate packet =
      if allocate (length packet % 2 ^ 16) then to_adapter packet ∷ [] else []

  abbrev pub behind : List Output → Option (T × List Output) → Option (T × List Output)
  behind out none = none
  behind out (some (t, rest)) = some (t, out ++ rest)

  -- The inner loop from the result `res` on, where `w i` is drawn at its step `i`; `none` where the
  -- fuel ends.
  unfoldable pub drain :
      (ℕ → World) → (ℕ → Bool) → ℕ → ℕ → T → TunnResult → Option (T × List Output)
  drain w allocate zero i t res = none
  drain w allocate (suc fuel) i t done = some (t, [])
  drain w allocate (suc fuel) i t failed = some (t, [])
  drain w allocate (suc fuel) i t (write_to_tunnel packet) =
      let r = e.decapsulate t [] in
      behind (adapter_output allocate packet) (drain w allocate fuel (i + 1) r.0 r.1)
  drain w allocate (suc fuel) i t (write_to_network packet) =
      let r = e.decapsulate t [] in
      behind (to_server (payload c (w i) packet) ∷ []) (drain w allocate fuel (i + 1) r.0 r.1)

  abbrev pub drained : Shared T → Option (T × List Output) → Option (Shared T × List Output)
  drained s none = none
  drained s (some (t, out)) = some (record s { tunn = t }, out)

  abbrev pub receive :
      (ℕ → World) → (ℕ → Bool) → ℕ → Shared T → Option Bytes → Option (Shared T × List Output)
  receive w allocate fuel s none = some (s, [])
  receive w allocate fuel s (some p) =
      let r = e.decapsulate s.tunn p in drained s (drain w allocate fuel 0 r.0 r.1)

  -- The body of the loop on the server's datagrams.
  unfoldable pub udp_round :
      (ℕ → World) → (ℕ → Bool) → ℕ → Shared T → Bytes → Option (Shared T × List Output)
  udp_round w allocate fuel s raw_data =
      receive w allocate fuel (record s { bytes_recv = add_u64 s.bytes_recv (length raw_data) })
        (plain_buf c raw_data)

  abbrev pub network_output : World → TunnResult → List Output
  network_output w (write_to_network packet) = to_server (payload c w packet) ∷ []
  network_output w done = []
  network_output w failed = []
  network_output w (write_to_tunnel packet) = []

  -- The body of the timer loop, `elapsed` seconds behind the last binding request; with the
  -- seconds behind it afterwards.
  unfoldable pub timer_round : World → ℕ → Shared T → Shared T × List Output × ℕ
  timer_round w elapsed s =
      let r = e.update_timers s.tunn in
      let due = c.is_stun && leb 10 elapsed in
      (
        record s { tunn = r.0 },
        network_output w r.1
            ++ (if due
                then to_server (stun_build_binding_request w.crc32 w.binding_txid) ∷ []
                else []),
        if due then 0 else elapsed,
      )

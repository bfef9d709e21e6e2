-- ===== src/Relay.antt =====
-- The local UDP relay (src/relay.rs): what one round of each of its loops does with a datagram, and
-- runs of the three loops as sequences of rounds. Sockets are not modelled: what is received, and
-- what `send` returns, are arguments; what is sent is a result. Errors of `recv` only log or sleep.
pub mod Start
pub mod Link
pub mod Refines
pub mod Masking
pub mod Binding
pub mod Traffic
pub mod Runs
mod Tests
use phobos_wg_client.Base.{
  ℕ, ◌+◌, Bool, true, false, not, ◌&&◌, List, [], ◌∷◌, ◌++◌, Option, none, some, if◌then◌else◌, ltb,
  ◌==◌, length, Bytes, add_u64,
}
use phobos_wg_client.Base.Net.{SocketAddr, addr_eq}
use phobos_wg_client.Obfuscator.{
  Obfuscator, Draws, encode, decode, packet_type, is_known_packet_type, type_handshake,
}
use phobos_wg_client.Stun.{
  is_stun_packet, stun_message_type, stun_wrap_data_indication, stun_unwrap_data_indication,
  stun_build_binding_request, stun_binding_resp,
}

pub record RelayStats : Type 0 where
  pub bytes_up : ℕ
  pub bytes_down : ℕ
  pub pkts_up : ℕ
  pub pkts_down : ℕ

-- What the threads share: `running`, `stats` and `client_addr`.
pub record PhobosRelay : Type 0 where
  pub running : Bool
  pub client_addr : Option SocketAddr
  pub stats : RelayStats

-- What `start` takes from the profile.
pub record Config : Type 0 where
  pub obfuscator : Obfuscator
  pub is_stun : Bool

-- `PhobosRelay::new`
abbrev pub new : PhobosRelay
new = record {
  running = false;
  client_addr = none;
  stats = record { bytes_up = 0; bytes_down = 0; pkts_up = 0; pkts_down = 0 };
}

pub data Sent : Type 0 where
  to_server : Bytes → Sent
  to_client : Bytes → SocketAddr → Sent

-- What a round draws at random, the hash of a dependency, and the answer of `send`: the number of
-- bytes, or `none` for an error.
pub record World : Type 0 where
  pub draws : Draws
  pub binding_txid : Bytes
  pub txid : Bytes
  pub crc32 : Bytes → ℕ
  pub send : Bytes → Option ℕ

-- The relay after a round, and what the round sent.
pub record Round : Type 0 where
  pub relay : PhobosRelay
  pub sent : List Sent

abbrev pub skip : PhobosRelay → Round
skip r = record { relay = r; sent = [] }

-- The `match *lock`: the new content of the lock, or `none` where the packet is rejected.
unfoldable pub claim : Option SocketAddr → SocketAddr → ℕ → Option SocketAddr
claim none src t = some src
claim (some current_src) src t =
    if not (addr_eq current_src src)
    then (if t == type_handshake then some src else none)
    else some current_src

-- `final_packet`
unfoldable pub mask : Bool → Bytes → Bytes → Bytes
mask is_stun txid packet =
    if is_stun
    then elim (stun_wrap_data_indication txid packet) [ none ↦ packet | some p ↦ p ]
    else packet

unfoldable pub count_up : RelayStats → Option ℕ → RelayStats
count_up s none = s
count_up s (some n) = record s { bytes_up = add_u64 s.bytes_up n; pkts_up = add_u64 s.pkts_up 1 }

-- The rest of the client loop's body, for a packet of type `t` whose source holds the relay.
unfoldable pub forward_up : Config → World → PhobosRelay → Bytes → ℕ → Round
forward_up c w r p t =
    let packet = mask c.is_stun w.txid (encode c.obfuscator w.draws p) in
    record {
      relay = record r { stats = count_up r.stats (w.send packet) };
      sent =
          (if c.is_stun && t == type_handshake
            then to_server (stun_build_binding_request w.crc32 w.binding_txid) ∷ []
            else [])
          ++ to_server packet ∷ [];
    }

abbrev pub pass_claimed : Config → World → PhobosRelay → Bytes → ℕ → Option SocketAddr → Round
pass_claimed c w r p t none = skip r
pass_claimed c w r p t (some a) = forward_up c w (record r { client_addr = some a }) p t

-- The client loop's body, on `&buf[..n]` and its source.
unfoldable pub client_round : Config → World → PhobosRelay → Bytes → SocketAddr → Round
client_round c w r p src = if ltb (length p) 4 then skip r else elim (packet_type p) [
  | none ↦ skip r
  | some t ↦
      if not (is_known_packet_type t)
      then skip r
      else pass_claimed c w r p t (claim r.client_addr src t)
]

-- The datagram's payload, or `none` where the server loop goes on to the next one.
unfoldable pub unmask : Bool → Bytes → Option Bytes
unmask is_stun d =
    if is_stun
    then (if is_stun_packet d
        then elim (stun_message_type d) [
          | none ↦ stun_unwrap_data_indication d
          | some t ↦ if t == stun_binding_resp then none else stun_unwrap_data_indication d
        ]
        else none)
    else some d

unfoldable pub count_down : RelayStats → ℕ → RelayStats
count_down s n = record s { pkts_down = add_u64 s.pkts_down 1; bytes_down = add_u64 s.bytes_down n }

-- What is sent for a payload: the decoded packet, if it decodes and a client is known.
unfoldable pub deliver : Config → Option SocketAddr → Bytes → List Sent
deliver c client payload =
    let r = decode c.obfuscator payload in
    if r.ok then elim client [ none ↦ [] | some a ↦ to_client r.buf a ∷ [] ] else []

-- The server loop's body, on `&buf[..n]`.
unfoldable pub server_round : Config → PhobosRelay → Bytes → Round
server_round c r d = if length d == 0 then skip r else record {
  relay = record r { stats = count_down r.stats (length d) };
  sent = elim (unmask c.is_stun d) [ none ↦ [] | some p ↦ deliver c r.client_addr p ];
}

-- The timer loop's body; the loop exists only with STUN.
unfoldable pub timer_round : Config → World → PhobosRelay → Round
timer_round c w r =
    if c.is_stun
    then record {
      relay = r;
      sent = to_server (stun_build_binding_request w.crc32 w.binding_txid) ∷ [];
    }
    else skip r

unfoldable pub stop : PhobosRelay → PhobosRelay
stop r = record r { running = false }

-- One round of a loop, or a call of `stop`. A round tests `running`, waits and handles one datagram.
-- A `stop` that falls within a round shows only to the next round of that loop, so the round counts
-- as one before it.
pub data Event : Type 0 where
  client_recv : World → Bytes → SocketAddr → Event
  server_recv : Bytes → Event
  keepalive : World → Event
  stopped : Event

unfoldable pub step : Config → PhobosRelay → Event → Round
step c r (client_recv w p src) = if r.running then client_round c w r p src else skip r
step c r (server_recv d) = if r.running then server_round c r d else skip r
step c r (keepalive w) = if r.running then timer_round c w r else skip r
step c r stopped = skip (stop r)

unfoldable pub run : Config → PhobosRelay → List Event → Round
run c r [] = skip r
run c r (e ∷ es) =
    let here = step c r e in
    let later = run c here.relay es in
    record { relay = later.relay; sent = here.sent ++ later.sent }

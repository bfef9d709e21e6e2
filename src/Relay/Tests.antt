-- ===== src/Relay/Tests.antt =====
-- The theorems about the relay at concrete inputs, and a run.
use phobos_wg_client.Base.{
  true, List, [], ◌∷◌, ◌++◌, ◌≢◌, some, ◌≡◌, refl, arith, length, Bytes, All, IsBytes,
}
use phobos_wg_client.Base.Net.{SocketAddr, IpAddr, v4, ip_eq, addr_eq}
use phobos_wg_client.Obfuscator.{packet_type, type_handshake, encode, xor_prefix, is_partial, pad}
use phobos_wg_client.Crc8.{xor_data}
use phobos_wg_client.Stun.{stun_wrap_data_indication}
use phobos_wg_client.Obfuscator.Samples.{
  obf, draws, draws-IsDraws, packet, packet_known, packet-IsBytes, all_bytes-IsBytes,
}
use phobos_wg_client.Relay.{
  Config, World, PhobosRelay, to_server, to_client, new, claim, client_round, server_round, mask,
  Event, client_recv, server_recv, keepalive, stopped, run,
}
use phobos_wg_client.Relay.Masking.{IsWorld, server_round-datagram}
use phobos_wg_client.Relay.Traffic.{
  announcement, CountsUp, CountsDown, client_round_admitted, IsDelivery, server_round-IsDelivery,
}
use phobos_wg_client.Relay.Link.{link_of, link_run, events_of}
use phobos_wg_client.Relay.Refines.{seen, run-refines}
use phobos_wg_client.Relay.Runs.{IsAllowed, HeldBy, HandshakesFrom, run-HandshakesFrom}

abbrev loopback : IpAddr
loopback = v4 0x7f000001

abbrev wireguard : SocketAddr
wireguard = record { ip = loopback; port = 51820 }

abbrev intruder : SocketAddr
intruder = record { ip = loopback; port = 4444 }

abbrev config : Config
config = record { obfuscator = obf; is_stun = true }

abbrev txid : Bytes
txid = 1 ∷ 2 ∷ 3 ∷ 4 ∷ 5 ∷ 6 ∷ 7 ∷ 8 ∷ 9 ∷ 10 ∷ 11 ∷ 12 ∷ []

abbrev world : World
world = record {
  draws = draws;
  binding_txid = txid;
  txid = txid;
  crc32 = λ header. 0;
  send = λ d. some (length d);
}

world-IsWorld : IsWorld world
world-IsWorld = record { draws = draws-IsDraws; twelve = refl; binding_twelve = refl }

-- A relay held by the WireGuard client.
abbrev held : PhobosRelay
held = record new { running = true; client_addr = some wireguard }

packet_is_data : packet_type packet ≡ some 4
unfolding packet_type
packet_is_data = refl

not_handshake : packet_type packet ≢ some type_handshake
unfolding packet_type
not_handshake = λ e. ground arith

others : wireguard ≢ intruder
others = λ e. ground arith

own_claim : claim held.client_addr wireguard 4 ≡ some wireguard
unfolding claim addr_eq ip_eq
own_claim = refl

client_round_admitted_example :
    (d : Bytes) × ((client_round config world held packet wireguard).sent
      ≡ announcement config world 4 ++ to_server d ∷ [])
    × ((client_round config world held packet wireguard).relay.client_addr ≡ some wireguard)
    × ((client_round config world held packet wireguard).relay.running ≡ true)
    × CountsUp held.stats
        (world.send d)
        (client_round config world held packet wireguard).relay.stats
    × ((peer : PhobosRelay) (b : SocketAddr)
        → peer.client_addr ≡ some b
        → (server_round config peer d).sent ≡ to_client packet b ∷ [])
client_round_admitted_example =
    client_round_admitted config world held packet wireguard wireguard 4 world-IsWorld packet_known
      packet_is_data (omega arith) own_claim

-- A datagram of the server: the packet, obfuscated, as a data indication.
abbrev framed : Bytes
framed = mask true txid (encode obf draws packet)

framed-IsBytes : IsBytes framed
unfolding mask stun_wrap_data_indication encode xor_prefix xor_data is_partial pad
framed-IsBytes = all_bytes-IsBytes framed refl

delivered : (server_round config held framed).sent ≡ to_client packet wireguard ∷ []
delivered =
    server_round-datagram config world world-IsWorld packet packet_known (omega arith) held
      wireguard refl

server_round-IsDelivery_example :
    All (IsDelivery held framed) (server_round config held framed).sent
    × ((server_round config held framed).relay.client_addr ≡ held.client_addr)
    × ((server_round config held framed).relay.running ≡ held.running)
    × CountsDown held.stats framed (server_round config held framed).relay.stats
server_round-IsDelivery_example = server_round-IsDelivery config held framed framed-IsBytes

-- The client's packet, an intruder's, and an answer of the server.
abbrev events : List Event
events =
    client_recv world packet wireguard
    ∷ client_recv world packet intruder
    ∷ server_recv packet
    ∷ keepalive world
    ∷ stopped
    ∷ []

abbrev IsWireguard : SocketAddr → Type 0
IsWireguard a = a ≡ wireguard

events-HandshakesFrom : All (HandshakesFrom IsWireguard) events
events-HandshakesFrom =
    ((λ k. refl), ((λ k. absurd (not_handshake k)), (packet-IsBytes, (tt, (tt, tt)))))

run-HandshakesFrom_example :
    All (IsAllowed IsWireguard) (run config held events).sent
    × HeldBy IsWireguard (run config held events).relay.client_addr
run-HandshakesFrom_example =
    run-HandshakesFrom IsWireguard config held events (λ e. cc) refl events-HandshakesFrom

run-refines_example :
    seen config (run config held events) ≡ link_run (link_of held) (events_of config events)
run-refines_example =
    run-refines config held events (
      (world-IsWorld, omega arith),
      ((world-IsWorld, omega arith), (tt, (world-IsWorld, (tt, tt)))),
    )

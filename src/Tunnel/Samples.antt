-- ===== src/Tunnel/Samples.antt =====
-- A configuration, a world and an engine for the tests of the tunnel (src/tunnel.rs). The engine
-- gives out a queue of packets for the adapter.
use phobos_wg_client.Base.{true, List, [], ◌∷◌, some, none, refl, length, Bytes}
use phobos_wg_client.Obfuscator.Samples.{obf, draws, draws-IsDraws, packet}
use phobos_wg_client.Relay.{Config, World}
use phobos_wg_client.Relay.Masking.{IsWorld}
use phobos_wg_client.Tunnel.{TunnResult, done, write_to_network, write_to_tunnel, Engine, Shared}
use phobos_wg_client.Tunnel.Setup.{Noise, Keys}

abbrev pub config : Config
config = record { obfuscator = obf; is_stun = true }

abbrev pub txid : Bytes
txid = 1 ∷ 2 ∷ 3 ∷ 4 ∷ 5 ∷ 6 ∷ 7 ∷ 8 ∷ 9 ∷ 10 ∷ 11 ∷ 12 ∷ []

abbrev pub world : World
world = record {
  draws = draws;
  binding_txid = txid;
  txid = txid;
  crc32 = λ header. 0;
  send = λ d. some (length d);
}

pub world-IsWorld : IsWorld world
world-IsWorld = record { draws = draws-IsDraws; twelve = refl; binding_twelve = refl }

abbrev pub pop : List Bytes → List Bytes × TunnResult
pop [] = ([], done)
pop (p ∷ q) = (q, write_to_tunnel p)

abbrev pub queue : Engine (List Bytes)
queue = record {
  encapsulate = λ q p. (q, write_to_network p);
  decapsulate = λ q p. pop q;
  update_timers = λ q. (q, done);
}

abbrev pub shared : Shared (List Bytes)
shared = record { tunn = packet ∷ []; bytes_sent = 0; bytes_recv = 0 }

abbrev pub noise : Noise (List Bytes)
noise = record {
  engine = queue;
  tunn_new = λ k. packet ∷ [];
  format_handshake_initiation = λ q. (q, write_to_network packet);
  since_handshake = λ q. some 1;
}

abbrev pub some_keys : Keys
some_keys = record {
  static_private = [];
  peer_static_public = [];
  preshared_key = none;
  persistent_keepalive = some 25;
  index = 7;
}

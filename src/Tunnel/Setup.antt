-- ===== src/Tunnel/Setup.antt =====
-- The set-up of `StandaloneTunnel::run` (src/tunnel.rs), which the service's session repeats: the
-- socket to the server, the engine and the first datagrams. The answers of the sockets and of the
-- resolver are arguments.
use phobos_wg_client.Base.{
  ℕ, ◌≤◌, true, List, [], ◌∷◌, ◌++◌, Option, none, some, ◌≡◌, ap, if◌then◌else◌, length, Bytes,
  add_u64, codes,
}
use phobos_wg_client.Base.Net.{SocketAddr, IpAddr}
use phobos_wg_client.Base.Result.{Result, ok, ◌>>=◌, map_err, ok_or}
use phobos_wg_client.Archive.{PhobosProfile}
use phobos_wg_client.Obfuscator as Obf
use phobos_wg_client.Obfuscator.{has_known_type}
use phobos_wg_client.Relay.{Config, World}
use phobos_wg_client.Relay.Masking.{IsWorld}
use phobos_wg_client.Stun.{stun_build_binding_request}
use phobos_wg_client.Text.{Text, eq_ignore_ascii_case}
use phobos_wg_client.WgConfig.{WireGuardConfig}
use phobos_wg_client.WindowsNet.{bind_socket_to_physical_interface}
use phobos_wg_client.Tunnel.{
  TunnResult, done, failed, write_to_network, write_to_tunnel, Engine, Shared, Output, to_server,
  payload, plain_buf,
}
use phobos_wg_client.Tunnel.Rounds.{payload-plain_buf}

-- What the resolver and a socket answer.
pub record Sockets : Type 0 where
  pub resolve : Text → Result Text (List SocketAddr)
  pub bind : Result Text (Unit {0})
  pub best_interface : ℕ → ℕ × ℕ
  pub set_unicast_if : ℕ → ℕ
  pub last_os_error : ℕ
  pub connect : SocketAddr → Result Text (Unit {0})

pub data RunError : Type 0 where
  not_resolved : Text → RunError
  no_address : RunError
  not_bound : Text → RunError
  no_interface : ℕ → RunError
  not_connected : Text → RunError

abbrev pub first {ℓ} : {A : Type ℓ} → List A → Option A
first [] = none
first (x ∷ xs) = some x

abbrev pub bind_interface : Sockets → IpAddr → Result ℕ ℕ
bind_interface o ip =
    bind_socket_to_physical_interface o.best_interface o.set_unicast_if o.last_os_error ip

-- The server's address, where a socket is bound and connected to it.
unfoldable pub open_socket : Sockets → Text → Result RunError SocketAddr
open_socket o target = do
  addrs ← map_err not_resolved (o.resolve target)
  addr ← ok_or no_address (first addrs)
  bound ← map_err not_bound o.bind
  if_idx ← map_err no_interface (bind_interface o addr.ip)
  connected ← map_err not_connected (o.connect addr)
  ok addr

-- What `Tunn::new` takes.
pub record Keys : Type 0 where
  pub static_private : Bytes
  pub peer_static_public : Bytes
  pub preshared_key : Option Bytes
  pub persistent_keepalive : Option ℕ
  pub index : ℕ

-- The engine with its constructor, its first packet, and the seconds since the last handshake.
pub record Noise (T : Type 0) : Type 0 where
  pub engine : Engine T
  pub tunn_new : Keys → T
  pub format_handshake_initiation : T → T × TunnResult
  pub since_handshake : T → Option ℕ

abbrev pub or_25 : Option ℕ → Option ℕ
or_25 none = some 25
or_25 (some k) = some k

unfoldable pub keys : WireGuardConfig → ℕ → Keys
keys wg index = record {
  static_private = wg.private_key;
  peer_static_public = wg.peer_public_key;
  preshared_key = wg.preshared_key;
  persistent_keepalive = or_25 wg.persistent_keepalive;
  index = index;
}

-- The obfuscator and `use_stun` of a profile.
unfoldable pub tunnel_config : PhobosProfile → Config
tunnel_config p = record {
  obfuscator = Obf.new p.key p.max_dummy p.obfuscate_bytes;
  is_stun = eq_ignore_ascii_case p.masking (codes "STUN");
}

abbrev pub initial_binding : Config → World → List Output
initial_binding c w =
    if c.is_stun then to_server (stun_build_binding_request w.crc32 w.binding_txid) ∷ [] else []

module _ {T : Type 0} where
  -- The initial handshake is counted whatever `send` answers.
  abbrev pub handshake_sent : Config → World → T → TunnResult → Shared T × List Output
  handshake_sent c w t (write_to_network packet) =
      let out = payload c w packet in
      (record { tunn = t; bytes_sent = add_u64 0 (length out); bytes_recv = 0 }, to_server out ∷ [])
  handshake_sent c w t done = (record { tunn = t; bytes_sent = 0; bytes_recv = 0 }, [])
  handshake_sent c w t failed = (record { tunn = t; bytes_sent = 0; bytes_recv = 0 }, [])
  handshake_sent c w t (write_to_tunnel packet) =
      (record { tunn = t; bytes_sent = 0; bytes_recv = 0 }, [])

  -- The workers' state and the datagrams in front of the workers' start.
  unfoldable pub launch : Noise T → Config → World → Keys → Shared T × List Output
  launch n c w k =
      let r = n.format_handshake_initiation (n.tunn_new k) in
      let (s, out) = handshake_sent c w r.0 r.1 in (s, out ++ initial_binding c w)

-- Where the engine's first packet is of known type and of at most 65535 bytes, the first datagram
-- of a tunnel is one that a tunnel of the same configuration hands to its engine as that packet;
-- only a binding request follows, and only with STUN, and the datagram's bytes are counted.
pub launch-plain_buf :
    {T : Type 0} (n : Noise T) (c : Config) (w : World) (k : Keys) (t : T) (p : Bytes)
    → IsWorld w
    → n.format_handshake_initiation (n.tunn_new k) ≡ (t, write_to_network p)
    → has_known_type p ≡ true
    → length p ≤ 0xFFFF
    → (d : Bytes) × (launch n c w k ≡ (
      record { tunn = t; bytes_sent = add_u64 0 (length d); bytes_recv = 0 },
      to_server d
          ∷ (if c.is_stun
              then to_server (stun_build_binding_request w.crc32 w.binding_txid) ∷ []
              else []),
    ))
      × (plain_buf c d ≡ some p)
unfolding launch
launch-plain_buf {T} n c w k t p h x known fits = (
  payload c w p,
  ap (λ r. let (s, out) = handshake_sent {T = T} c w r.0 r.1 in (s, out ++ initial_binding c w)) x,
  payload-plain_buf c w p h known fits,
)

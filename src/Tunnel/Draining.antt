-- ===== src/Tunnel/Draining.antt =====
-- What the inner loop of the tunnel's receiver (src/tunnel.rs) sends on: all that the engine has.
use phobos_wg_client.Base.{
  ℕ, zero, suc, ◌+◌, ◌%◌, ◌^◌, ◌≤◌, ◌<◌, Bool, true, false, List, [], ◌∷◌, All, length, some, ◌≡◌,
  refl, ap, ◌∙◌, arith, Bytes, Bool-cases, inl, inr,
}
use phobos_wg_client.Obfuscator.{has_known_type}
use phobos_wg_client.Relay.{Config, World}
use phobos_wg_client.Relay.Masking.{IsWorld}
use phobos_wg_client.Tunnel.{
  TunnResult, done, failed, write_to_network, write_to_tunnel, Engine, Output, payload, to_server,
  to_adapter, behind, drain, drained, udp_round, plain_buf, receive, Shared,
}
use phobos_wg_client.Tunnel.Rounds.{payload-plain_buf}

-- The packets that an engine gives from its answer on, where each is followed by an empty datagram,
-- until it has no more; with its state then.
pub data Answers {T : Type 0} (e : Engine T) : T → TunnResult → List TunnResult → T → Type 0 where
  at_done : (t : T) → Answers e t done [] t
  at_failure : (t : T) → Answers e t failed [] t
  for_network :
      (t : T) (p : Bytes) {rs : List TunnResult} {t' : T}
      → Answers e (e.decapsulate t []).0 (e.decapsulate t []).1 rs t'
      → Answers e t (write_to_network p) (write_to_network p ∷ rs) t'
  for_tunnel :
      (t : T) (p : Bytes) {rs : List TunnResult} {t' : T}
      → Answers e (e.decapsulate t []).0 (e.decapsulate t []).1 rs t'
      → Answers e t (write_to_tunnel p) (write_to_tunnel p ∷ rs) t'

-- A packet for the network is of known type and at most 65535 bytes long.
abbrev pub IsSendable : TunnResult → Type 0
IsSendable (write_to_network p) = (has_known_type p ≡ true) × (length p ≤ 0xFFFF)
IsSendable (write_to_tunnel p) = Unit
IsSendable done = Unit
IsSendable failed = Unit

-- What the packets become, one by one and in their order: a datagram that a tunnel of the same
-- configuration reads as the very packet, the very packet for the adapter, or nothing where the adapter
-- has no room for it.
pub data Flushes (c : Config) (allocate : ℕ → Bool) : List TunnResult → List Output → Type 0 where
  all_out : Flushes c allocate [] []
  sent :
      (p d : Bytes) {rs : List TunnResult} {out : List Output}
      → plain_buf c d ≡ some p
      → Flushes c allocate rs out
      → Flushes c allocate (write_to_network p ∷ rs) (to_server d ∷ out)
  passed :
      (p : Bytes) {rs : List TunnResult} {out : List Output}
      → allocate (length p % 2 ^ 16) ≡ true
      → Flushes c allocate rs out
      → Flushes c allocate (write_to_tunnel p ∷ rs) (to_adapter p ∷ out)
  dropped :
      (p : Bytes) {rs : List TunnResult} {out : List Output}
      → allocate (length p % 2 ^ 16) ≡ false
      → Flushes c allocate rs out
      → Flushes c allocate (write_to_tunnel p ∷ rs) out

module _ {T : Type 0} (e : Engine T) (c : Config) (w : ℕ → World) (allocate : ℕ → Bool)
    (worlds : (i : ℕ) → IsWorld (w i)) where
  drain-Flushes :
      (fuel i : ℕ) {t t' : T} {res : TunnResult} {rs : List TunnResult}
      → Answers e t res rs t'
      → All IsSendable rs
      → length rs < fuel
      → (out : List Output) × (drain e c w allocate fuel i t res ≡ some (t', out))
        × Flushes c allocate rs out
  unfolding drain
  drain-Flushes zero i a s enough = ground arith
  drain-Flushes (suc fuel) i (at_done t) s enough = ([], refl, all_out)
  drain-Flushes (suc fuel) i (at_failure t) s enough = ([], refl, all_out)
  drain-Flushes (suc fuel) i (for_network t p a) s enough =
      let (out, same, flushed) = drain-Flushes fuel (i + 1) a s.1 (ground arith) in
      (
        to_server (payload c (w i) p) ∷ out,
        ap (behind e c (to_server (payload c (w i) p) ∷ [])) same,
        sent p (payload c (w i) p) (payload-plain_buf c (w i) p (worlds i) s.0.0 s.0.1) flushed,
      )
  drain-Flushes (suc fuel) i (for_tunnel t p a) s enough =
      let (out, same, flushed) = drain-Flushes fuel (i + 1) a s.1 (ground arith) in
      elim (Bool-cases (allocate (length p % 2 ^ 16))) [
        | inl room ↦ (to_adapter p ∷ out, rw (room, same) refl, passed p room flushed)
        | inr full ↦ (out, rw (full, same) refl, dropped p full flushed)
      ]

  -- For a datagram that carries a packet, the receiver's round ends and sends on every packet that the
  -- engine gives for it, in their order: those for the network each as one datagram that a tunnel of
  -- the same configuration reads as the very packet, those for the adapter as they are, where it has
  -- room. The bytes of the datagram are counted, as a 64-bit number, and the engine is left as it is
  -- behind the last of them. The packets for the network are assumed to be of known type and at most
  -- 65535 bytes long, and the fuel to be more than the number of packets.
  pub udp_round-Flushes :
      (fuel : ℕ) (s : Shared T) (d p : Bytes) (rs : List TunnResult) (t : T)
      → plain_buf c d ≡ some p
      → Answers e (e.decapsulate s.tunn p).0 (e.decapsulate s.tunn p).1 rs t
      → All IsSendable rs
      → length rs < fuel
      → (out : List Output) × (udp_round e c w allocate fuel s d
          ≡ some (record s { tunn = t; bytes_recv = (s.bytes_recv + length d) % 2 ^ 64 }, out))
        × Flushes c allocate rs out
  unfolding udp_round
  udp_round-Flushes fuel s d p rs t h a sendable enough =
      let counted : Shared T = record s { bytes_recv = (s.bytes_recv + length d) % 2 ^ 64 } in
      let (out, same, flushed) = drain-Flushes fuel 0 a sendable enough in
      (out, ap (receive e c w allocate fuel counted) h ∙ ap (drained e c counted) same, flushed)

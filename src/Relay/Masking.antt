-- ===== src/Relay/Masking.antt =====
-- A datagram that one side masks is read by the other.
use phobos_wg_client.Base.{
  ◌≤◌, ◌<◌, Bool, true, false, [], ◌∷◌, some, ◌≡◌, refl, arith, le→ltb, ◌==◌, length, Bytes, inl,
  inr, Bool-cases,
}
use phobos_wg_client.Base.Net.{SocketAddr}
use phobos_wg_client.Obfuscator.{IsDraws, encode, has_known_type}
use phobos_wg_client.Obfuscator.Padding.{encode_bounds}
use phobos_wg_client.Obfuscator.RoundTrip.{decode-encode_known, known_type-long}
use phobos_wg_client.Stun.{stun_unwrap_data_indication}
use phobos_wg_client.Stun.Framing.{frame, wrap_lem, unwrap-frame, unwrap-IsOpened}
use phobos_wg_client.Relay.{
  Config, World, PhobosRelay, to_client, mask, unmask, deliver, server_round,
}

-- With STUN every datagram of at most 65535 bytes is framed.
pub mask-frame :
    (txid packet : Bytes) → length packet ≤ 0xFFFF → mask true txid packet ≡ frame txid packet
unfolding mask
mask-frame txid packet fits = rw (wrap_lem, le→ltb 0xFFFF (length packet) fits) refl

unmask-data :
    (d payload : Bytes)
    → stun_unwrap_data_indication d ≡ some payload
    → unmask true d ≡ some payload
unfolding unmask
unmask-data d payload e = let f = unwrap-IsOpened d payload e in rw (f.stun, f.message_type) e

pub unmask-mask :
    (is_stun : Bool) (txid packet : Bytes)
    → length txid ≡ 12
    → length packet ≤ 0xFFFF
    → unmask is_stun (mask is_stun txid packet) ≡ some packet
unmask-mask true txid packet twelve fits =
    rw (mask-frame txid packet fits)
      (unmask-data (frame txid packet) packet (unwrap-frame txid packet twelve fits))
unmask-mask false txid packet twelve fits = unfold mask unmask in refl

-- `w` answers as documented: draws in range, and 12 byte identifiers.
pub record IsWorld (w : World) : Type 0 where
  pub draws : IsDraws w.draws
  pub twelve : length w.txid ≡ 12
  pub binding_twelve : length w.binding_txid ≡ 12

module _ (c : Config) (w : World) (h : IsWorld w) (p : Bytes) (known : has_known_type p ≡ true)
    (fits : length p ≤ 0xFFFF) where
  abbrev datagram : Bytes
  datagram = mask c.is_stun w.txid (encode c.obfuscator w.draws p)

  pub length-encoded : length (encode c.obfuscator w.draws p) ≤ 0xFFFF
  length-encoded = omega (arith, encode_bounds c.obfuscator w.draws h.draws p)

  pub unmask-datagram : unmask c.is_stun datagram ≡ some (encode c.obfuscator w.draws p)
  unmask-datagram = unmask-mask c.is_stun w.txid _ h.twelve length-encoded

  pub deliver-encoded :
      (a : SocketAddr) → deliver c (some a) (encode c.obfuscator w.draws p) ≡ to_client p a ∷ []
  unfolding deliver
  deliver-encoded a = rw (decode-encode_known c.obfuscator w.draws h.draws p known) refl

  pub datagram-pos : 0 < length datagram
  unfolding mask
  datagram-pos = elim (Bool-cases c.is_stun) [
    | inl e ↦ rw (e, wrap_lem, le→ltb 0xFFFF _ length-encoded) (omega arith)
    | inr e ↦
        rw e (omega (arith, known_type-long p known, encode_bounds c.obfuscator w.draws h.draws p))
  ]

  -- The datagram, handed to the server loop of a relay with the same configuration, reaches the
  -- client of that relay as the packet.
  pub server_round-datagram :
      (peer : PhobosRelay) (a : SocketAddr)
      → peer.client_addr ≡ some a
      → (server_round c peer datagram).sent ≡ to_client p a ∷ []
  unfolding server_round
  server_round-datagram peer a e =
      let full : (length datagram == 0) ≡ false = ground (arith, datagram-pos) in
      rw (full, unmask-datagram, e) (deliver-encoded a)

-- ===== src/Relay/Traffic.antt =====
-- What passes through one round, up and down.
use phobos_wg_client.Base.{
  ℕ, ◌+◌, ◌%◌, ◌^◌, ◌≤◌, sym, Bool, true, false, ◌&&◌, inl, inr, [], ◌∷◌, ◌++◌, List, Option, none,
  some, ◌≡◌, refl, ap, ◌∙◌, arith, if◌then◌else◌, ◌==◌, length, Bytes, IsBytes, All, Option-cases,
  Bool-cases, All-take, IsByte, All-drop, subst, drop,
}
use phobos_wg_client.Base.Net.{SocketAddr}
use phobos_wg_client.Obfuscator.{has_known_type, packet_type, type_handshake, decode, encode}
use phobos_wg_client.Obfuscator.Decoding.{decode-IsSound}
use phobos_wg_client.Stun.{stun_build_binding_request, stun_unwrap_data_indication}
use phobos_wg_client.Stun.Framing.{unwrap_iff}
use phobos_wg_client.Relay.{
  Config, World, PhobosRelay, Round, Sent, to_server, to_client, claim, pass_claimed, forward_up,
  client_round, mask, unmask, deliver, RelayStats, count_down, server_round, count_up,
}
use phobos_wg_client.Relay.Masking.{IsWorld, server_round-datagram}
use phobos_wg_client.Relay.Binding.{client_round_known}

-- What the client loop sends for an admitted packet: with STUN, a handshake is announced by a
-- binding request.
abbrev pub announcement : Config → World → ℕ → List Sent
announcement c w t =
    if c.is_stun && t == type_handshake
    then to_server (stun_build_binding_request w.crc32 w.binding_txid) ∷ []
    else []

-- The counters behind what `send` answers: for `n` bytes one packet more and `n` bytes more, as 64-bit
-- numbers; for an error, and of what comes down, what was there before.
abbrev pub CountsUp : RelayStats → Option ℕ → RelayStats → Type 0
CountsUp s none now = now ≡ s
CountsUp s (some n) now =
    (now.pkts_up ≡ (s.pkts_up + 1) % 2 ^ 64)
    × (now.bytes_up ≡ (s.bytes_up + n) % 2 ^ 64)
    × (now.pkts_down ≡ s.pkts_down)
    × (now.bytes_down ≡ s.bytes_down)

-- The same for a datagram that comes down, where an empty one does not count.
abbrev pub CountsDown : RelayStats → Bytes → RelayStats → Type 0
CountsDown s [] now = now ≡ s
CountsDown s (b ∷ bs) now =
    (now.pkts_down ≡ (s.pkts_down + 1) % 2 ^ 64)
    × (now.bytes_down ≡ (s.bytes_down + length (b ∷ bs)) % 2 ^ 64)
    × (now.pkts_up ≡ s.pkts_up)
    × (now.bytes_up ≡ s.bytes_up)

count_up-CountsUp : (s : RelayStats) (o : Option ℕ) → CountsUp s o (count_up s o)
unfolding count_up
count_up-CountsUp s none = refl
count_up-CountsUp s (some n) = (refl, refl, refl, refl)

-- A known packet that `claim` lets in leaves as one datagram, behind a binding request if it is a
-- handshake and STUN is on. A relay of the same configuration hands that datagram to its client as
-- the very packet. The source holds the relay, which runs as before. The counters go up by one packet
-- and the bytes sent, or not at all if `send` fails.
pub client_round_admitted :
    (c : Config) (w : World) (r : PhobosRelay) (p : Bytes) (src a : SocketAddr) (t : ℕ)
    → IsWorld w
    → has_known_type p ≡ true
    → packet_type p ≡ some t
    → length p ≤ 0xFFFF
    → claim r.client_addr src t ≡ some a
    → (d : Bytes) × ((client_round c w r p src).sent ≡ announcement c w t ++ to_server d ∷ [])
      × ((client_round c w r p src).relay.client_addr ≡ some a)
      × ((client_round c w r p src).relay.running ≡ r.running)
      × CountsUp r.stats (w.send d) (client_round c w r p src).relay.stats
      × ((peer : PhobosRelay) (b : SocketAddr)
          → peer.client_addr ≡ some b
          → (server_round c peer d).sent ≡ to_client p b ∷ [])
client_round_admitted c w r p src a t h k e fits q =
    let opened = client_round_known c w r p src t k e ∙ ap (pass_claimed c w r p t) q in
    let d = mask c.is_stun w.txid (encode c.obfuscator w.draws p) in
    let relay : (client_round c w r p src).relay
        ≡ record r { client_addr = some a; stats = count_up r.stats (w.send d) } =
      ap (λ (x : Round). x.relay) opened ∙ unfold forward_up in refl in
    (
      d,
      ap (λ (x : Round). x.sent) opened ∙ unfold forward_up in refl,
      ap (λ (x : PhobosRelay). x.client_addr) relay,
      ap (λ (x : PhobosRelay). x.running) relay,
      subst (λ (x : PhobosRelay). CountsUp r.stats (w.send d) x.stats) (sym relay)
          (count_up-CountsUp r.stats (w.send d)),
      server_round-datagram c w h p k fits,
    )

-- Something sent to a client: a known packet, to the client that holds the relay, no longer than
-- the datagram that it came in.
abbrev pub IsDelivery : PhobosRelay → Bytes → Sent → Type 0
IsDelivery r d (to_server q) = ⊥
IsDelivery r d (to_client q a) =
    (r.client_addr ≡ some a) × (has_known_type q ≡ true) × IsBytes q × (length q ≤ length d)

unmask_bounds :
    (is_stun : Bool) (d p : Bytes)
    → IsBytes d
    → unmask is_stun d ≡ some p
    → IsBytes p × (length p ≤ length d)
unfolding unmask
unmask_bounds false d p h e =
    let same : d ≡ p = cc e in (subst IsBytes same h, omega (arith, ap length same))
unmask_bounds true d p h e =
    let unwrapped : stun_unwrap_data_indication d ≡ some p = ground arith in
    let f = (unwrap_iff d p).0 unwrapped in
    (
      subst IsBytes f.contents (All-take IsByte (length p) (drop 24 d) (All-drop IsByte 24 d h)),
      omega (arith, f.long),
    )

deliver-IsDelivery :
    (c : Config) (r : PhobosRelay) (d p : Bytes)
    → IsBytes p
    → length p ≤ length d
    → All (IsDelivery r d) (deliver c r.client_addr p)
unfolding deliver
deliver-IsDelivery c r d p h shorter =
    let sound = decode-IsSound c.obfuscator p h in
    elim (Bool-cases (decode c.obfuscator p).ok) [
      | inl good ↦ elim (Option-cases r.client_addr) [
        | inl nobody ↦ rw (good, nobody) tt
        | inr (a, bound) ↦
            rw (good, bound)
              ((refl, sound.known good, sound.bytes, omega (arith, sound.no_longer)), tt)
      ]
      | inr bad ↦ rw bad tt
    ]

-- Whatever datagram of bytes the server loop gets, it sends at most known WireGuard packets to the
-- client that holds the relay, none longer than the datagram; it changes neither that client nor
-- `running`, and counts one packet and the datagram's bytes, or nothing for an empty one.
pub server_round-IsDelivery :
    (c : Config) (r : PhobosRelay) (d : Bytes)
    → IsBytes d
    → All (IsDelivery r d) (server_round c r d).sent
      × ((server_round c r d).relay.client_addr ≡ r.client_addr)
      × ((server_round c r d).relay.running ≡ r.running)
      × CountsDown r.stats d (server_round c r d).relay.stats
unfolding server_round count_down
server_round-IsDelivery c r [] h = (tt, refl, refl, refl)
server_round-IsDelivery c r (b ∷ bs) h =
    let full : (length (b ∷ bs) == 0) ≡ false = ground arith in
    rw full (sent (unmask c.is_stun (b ∷ bs)) refl, refl, refl, (refl, refl, refl, refl))
  where
    sent :
        (o : Option Bytes)
        → unmask c.is_stun (b ∷ bs) ≡ o
        → All (IsDelivery r (b ∷ bs)) (elim o [ none ↦ [] | some p ↦ deliver c r.client_addr p ])
    sent none e = tt
    sent (some p) e =
        let bounds = unmask_bounds c.is_stun (b ∷ bs) p h e in
        deliver-IsDelivery c r (b ∷ bs) p bounds.0 bounds.1

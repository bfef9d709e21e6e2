-- ===== src/Tunnel/Rounds.antt =====
-- What the tunnel's workers hand to the engine and to the other side (src/tunnel.rs).
use phobos_wg_client.Base.{
  ◌%◌, ◌^◌, ℕ, ◌+◌, ◌≤◌, Bool, true, false, not, ◌||◌, [], ◌∷◌, Option, none, some, ◌≡◌, refl, ap,
  subst, ◌∙◌, arith, inl, inr, if◌then◌else◌, Bool-cases, length, Bytes, IsBytes, IsByte, All-take,
  All-drop, drop,
}
use phobos_wg_client.Obfuscator.{Decoded, encode, decode, has_known_type}
use phobos_wg_client.Obfuscator.Decoding.{IsSound, decode-IsSound}
use phobos_wg_client.Obfuscator.RoundTrip.{decode-encode_known, known_type-long}
use phobos_wg_client.Relay.{Config, World, mask}
use phobos_wg_client.Relay.Masking.{IsWorld, length-encoded, mask-frame}
use phobos_wg_client.Stun.{is_stun_packet, stun_unwrap_data_indication}
use phobos_wg_client.Stun.Framing.{unwrap-frame, unwrap_iff}
use phobos_wg_client.Text.{is_nil}
use phobos_wg_client.Tunnel.{
  payload, de_stun, decoded, plain_buf, Engine, Shared, to_server, write_to_network, tun_result,
  tun_round, count_sent,
}

-- A part of the datagram, or all of it.
abbrev IsPart : Bytes → Option Bytes → Type 0
IsPart d none = Unit
IsPart d (some p) = IsBytes p × (length p ≤ length d)

stun-IsPart :
    (d : Bytes) (o : Option Bytes)
    → IsBytes d
    → stun_unwrap_data_indication d ≡ o
    → IsPart d (elim o [ none ↦ if is_stun_packet d then none else some d | some p ↦ some p ])
stun-IsPart d none h e = elim (Bool-cases (is_stun_packet d)) [
  | inl s ↦ rw s tt
  | inr s ↦ rw s (h, ground arith)
]
stun-IsPart d (some p) h e =
    let f = (unwrap_iff d p).0 e in
    (
      subst IsBytes f.contents (All-take IsByte (length p) (drop 24 d) (All-drop IsByte 24 d h)),
      shorter f.long,
    )
  where
    shorter : 24 + length p ≤ length d → length p ≤ length d
    shorter k = ground arith

de_stun-IsPart : (use_stun : Bool) (d : Bytes) → IsBytes d → IsPart d (de_stun use_stun d)
unfolding de_stun
de_stun-IsPart true d h = stun-IsPart d (stun_unwrap_data_indication d) h refl
de_stun-IsPart false d h = (h, ground arith)

-- The engine sees a packet of known type.
abbrev pub IsEngineInput : Bytes → Option Bytes → Type 0
IsEngineInput d none = Unit
IsEngineInput d (some p) = (has_known_type p ≡ true) × IsBytes p × (length p ≤ length d)

is_ok : (a b : Bool) → (not a || b) ≡ false → a ≡ true
is_ok true b h = refl
is_ok false b h = ground arith

le_trans : {a b c : ℕ} → a ≤ b → b ≤ c → a ≤ c
le_trans h k = ground arith

decoded-IsEngineInput :
    (c : Config) (d : Bytes) (o : Option Bytes) → IsPart d o → IsEngineInput d (decoded c o)
decoded-IsEngineInput c d none h = tt
decoded-IsEngineInput c d (some p) h =
    go (decode c.obfuscator p) (decode-IsSound c.obfuscator p h.0)
  where
    go :
        (r : Decoded)
        → IsSound (length p) r
        → IsEngineInput d (if not r.ok || is_nil r.buf then none else some r.buf)
    go r sound = elim (Bool-cases (not r.ok || is_nil r.buf)) [
      | inl e ↦ rw e tt
      | inr e ↦
          rw e
            (sound.known (is_ok r.ok (is_nil r.buf) e), sound.bytes, le_trans sound.no_longer h.1)
    ]

-- Whatever datagram arrives, the engine sees nothing for it or a packet of known type that is no
-- longer than the datagram.
pub plain_buf-IsEngineInput : (c : Config) (d : Bytes) → IsBytes d → IsEngineInput d (plain_buf c d)
unfolding plain_buf
plain_buf-IsEngineInput c d h =
    decoded-IsEngineInput c d (de_stun c.is_stun d) (de_stun-IsPart c.is_stun d h)

de_stun-mask :
    (is_stun : Bool) (txid packet : Bytes)
    → length txid ≡ 12
    → length packet ≤ 0xFFFF
    → de_stun is_stun (mask is_stun txid packet) ≡ some packet
unfolding de_stun
de_stun-mask true txid packet twelve fits =
    rw (mask-frame txid packet fits, unwrap-frame txid packet twelve fits) refl
de_stun-mask false txid packet twelve fits = unfold mask in refl

known_type-nonempty : (p : Bytes) → has_known_type p ≡ true → is_nil p ≡ false
known_type-nonempty [] h = ground (arith, known_type-long [] h)
known_type-nonempty (b ∷ p) h = refl

-- What is sent for a packet of known type is the very packet for a tunnel of the same configuration.
pub payload-plain_buf :
    (c : Config) (w : World) (p : Bytes)
    → IsWorld w
    → has_known_type p ≡ true
    → length p ≤ 0xFFFF
    → plain_buf c (payload c w p) ≡ some p
unfolding payload plain_buf
payload-plain_buf c w p h known fits =
    ap (decoded c) (
      de_stun-mask c.is_stun w.txid (encode c.obfuscator w.draws p) h.twelve
        (length-encoded c w h p known fits))
    ∙ rw (decode-encode_known c.obfuscator w.draws h.draws p known, known_type-nonempty p known)
        refl

-- The bytes sent so far behind what `send` answers: as many more as were sent, as a 64-bit number, or
-- as before for an error.
abbrev pub bytes_behind : ℕ → Option ℕ → ℕ
bytes_behind bytes none = bytes
bytes_behind bytes (some n) = (bytes + n) % 2 ^ 64

count_sent_lem : (bytes : ℕ) (o : Option ℕ) → count_sent bytes o ≡ bytes_behind bytes o
unfolding count_sent
count_sent_lem bytes none = refl
count_sent_lem bytes (some n) = refl

-- A packet of known type of at most 65535 bytes that the engine gives to the worker on the
-- adapter's packets leaves as one datagram, is counted by what was sent, and a tunnel of the same
-- configuration hands that datagram to its engine as the very packet.
pub tun_round-plain_buf :
    {T : Type 0} (e : Engine T) (c : Config) (w : World) (s : Shared T) (q p : Bytes) (t : T)
    → IsWorld w
    → e.encapsulate s.tunn q ≡ (t, write_to_network p)
    → has_known_type p ≡ true
    → length p ≤ 0xFFFF
    → (d : Bytes) × (tun_round e c w s q ≡ (
      record s { tunn = t; bytes_sent = bytes_behind s.bytes_sent (w.send d) },
      to_server d ∷ [],
    ))
      × (plain_buf c d ≡ some p)
unfolding tun_round
tun_round-plain_buf e c w s q p t h x known fits =
    let d = payload c w p in
    (
      d,
      ap (λ r. tun_result e c w s r.0 r.1) x
          ∙ ap (λ n. (record s { tunn = t; bytes_sent = n }, to_server d ∷ []))
              (count_sent_lem s.bytes_sent (w.send d)),
      payload-plain_buf c w p h known fits,
    )

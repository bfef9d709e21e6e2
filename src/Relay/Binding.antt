-- ===== src/Relay/Binding.antt =====
-- Who may use the relay: the address that the server's answers go to.
use phobos_wg_client.Base.{
  ℕ, true, false, ◌⊎◌, inl, inr, ◌≢◌, Option, none, some, ◌≡◌, refl, ap, ◌∙◌, arith, Bytes,
  Bool-cases,
}
use phobos_wg_client.Base.Net.{SocketAddr, addr_eq_iff}
use phobos_wg_client.Obfuscator.{has_known_type, packet_type, type_handshake}
use phobos_wg_client.Obfuscator.RoundTrip.{known_type-long}
use phobos_wg_client.Relay.{
  Config, World, PhobosRelay, skip, claim, pass_claimed, forward_up, client_round,
}

-- The client loop's body by cases of the packet: an unknown packet is skipped, any other goes to
-- `claim` and, if that lets it in, out.
pub client_round_unknown :
    (c : Config) (w : World) (r : PhobosRelay) (p : Bytes) (src : SocketAddr)
    → has_known_type p ≡ false
    → client_round c w r p src ≡ skip r
unfolding client_round has_known_type
client_round_unknown c w r p src k = ground arith

pub client_round_known :
    (c : Config) (w : World) (r : PhobosRelay) (p : Bytes) (src : SocketAddr) (t : ℕ)
    → has_known_type p ≡ true
    → packet_type p ≡ some t
    → client_round c w r p src ≡ pass_claimed c w r p t (claim r.client_addr src t)
unfolding client_round has_known_type
client_round_known c w r p src t k e = ground (arith, known_type-long p k)

pub known_type-some : (p : Bytes) → has_known_type p ≡ true → (t : ℕ) × (packet_type p ≡ some t)
unfolding has_known_type
known_type-some p k = ground arith

-- The relay answers to whoever first sent it a known packet.
pub claim_first : (src : SocketAddr) (t : ℕ) → claim none src t ≡ some src
unfolding claim
claim_first src t = refl

pub claim_cases :
    (cur src : SocketAddr) (t : ℕ)
    → ((cur ≡ src) × (claim (some cur) src t ≡ some src))
      ⊎ ((cur ≢ src) × (t ≡ type_handshake) × (claim (some cur) src t ≡ some src))
      ⊎ ((cur ≢ src) × (t ≢ type_handshake) × (claim (some cur) src t ≡ none))
unfolding claim
claim_cases cur src t = ground (arith, addr_eq_iff cur src)

-- A packet of another source that is no handshake is ignored: the state is as before, counters
-- included, and nothing is sent.
pub client_round_foreign :
    (c : Config) (w : World) (r : PhobosRelay) (p : Bytes) (src cur : SocketAddr)
    → r.client_addr ≡ some cur
    → cur ≢ src
    → packet_type p ≢ some type_handshake
    → client_round c w r p src ≡ skip r
client_round_foreign c w r p src cur bound other no_handshake =
    elim (Bool-cases (has_known_type p)) [
      | inl k ↦
          let (t, e) = known_type-some p k in
          let rejected : claim (some cur) src t ≡ none = ground (arith, claim_cases cur src t) in
          client_round_known c w r p src t k e
          ∙ ap (pass_claimed c w r p t) (ap (λ o. claim o src t) bound ∙ rejected)
      | inr k ↦ client_round_unknown c w r p src k
    ]

-- `claim` lets a source in, or turns it away; it puts no other address into the lock.
claim-eq-some :
    (o : Option SocketAddr) (src : SocketAddr) (t : ℕ) (a : SocketAddr)
    → claim o src t ≡ some a
    → (a ≡ src) × ((o ≡ some src) ⊎ (o ≡ none) ⊎ (t ≡ type_handshake))
claim-eq-some none src t a e = ground (arith, claim_first src t)
claim-eq-some (some cur) src t a e = ground (arith, claim_cases cur src t)

-- After one round the client address is as before, or it is the source of a known packet that was
-- the first one or a handshake.
pub client_round-client_addr :
    (c : Config) (w : World) (r : PhobosRelay) (p : Bytes) (src : SocketAddr)
    → let r' = (client_round c w r p src).relay in
      (r'.client_addr ≡ r.client_addr)
      ⊎ ((r'.client_addr ≡ some src)
          × (has_known_type p ≡ true)
          × ((r.client_addr ≡ none) ⊎ (packet_type p ≡ some type_handshake)))
client_round-client_addr c w r p src = elim (Bool-cases (has_known_type p)) [
  | inl k ↦
      let (t, e) = known_type-some p k in
      rw (client_round_known c w r p src t k e) (after (claim r.client_addr src t) t k e refl)
  | inr k ↦ rw (client_round_unknown c w r p src k) (inl refl)
]
  where
    after :
        (o : Option SocketAddr) (t : ℕ)
        → has_known_type p ≡ true
        → packet_type p ≡ some t
        → claim r.client_addr src t ≡ o
        → let r' = (pass_claimed c w r p t o).relay in
          (r'.client_addr ≡ r.client_addr)
          ⊎ ((r'.client_addr ≡ some src)
              × (has_known_type p ≡ true)
              × ((r.client_addr ≡ none) ⊎ (packet_type p ≡ some type_handshake)))
    after none t k e q = inl refl
    after (some a) t k e q =
        unfold forward_up in ground (arith, claim-eq-some r.client_addr src t a q)

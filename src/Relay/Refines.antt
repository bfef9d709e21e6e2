-- ===== src/Relay/Refines.antt =====
-- The relay implements the link (src/relay.rs): in every interleaving of its loops.
use phobos_wg_client.Base.{
  ℕ, Bool, true, false, ◌≤◌, ◌&&◌, ◌||◌, inl, inr, List, [], ◌∷◌, ◌++◌, Option, none, some,
  if◌then◌else◌, ◌==◌, ◌≡◌, refl, sym, ap, ap₂, ◌∙◌, subst, length, Bytes, arith, Bool-cases,
  Option-cases, All, append_assoc,
}
use phobos_wg_client.Base.Net.{SocketAddr, addr_eq, addr_eq_iff}
use phobos_wg_client.Obfuscator.{has_known_type, packet_type, type_handshake, decode, encode}
use phobos_wg_client.Obfuscator.RoundTrip.{decode-encode_known}
use phobos_wg_client.Stun.{stun_build_binding_request}
use phobos_wg_client.Stun.Binding.{binding_request_layout}
use phobos_wg_client.Relay.{
  Config, World, PhobosRelay, Round, skip, claim, pass_claimed, forward_up, client_round, unmask,
  mask, deliver, server_round, timer_round, stop, Sent, to_server, Event, client_recv, server_recv,
  keepalive, stopped, step, run,
}
use phobos_wg_client.Relay.Masking.{IsWorld, unmask-datagram, datagram-pos}
use phobos_wg_client.Relay.Binding.{
  client_round_known, client_round_unknown, known_type-some, claim_first, claim_cases,
}
use phobos_wg_client.Relay.Traffic.{announcement}
use phobos_wg_client.Relay.Link.{
  Link, from_near, Carried, to_far, admits, is_handshake_type, link_step, link_run, link_of,
  decoded, opens, arrival, event_of, events_of, departure, carried, all_carried,
}

all_carried-append :
    (c : Config) (xs ys : List Sent)
    → all_carried c (xs ++ ys) ≡ all_carried c xs ++ all_carried c ys
all_carried-append c [] ys = refl
all_carried-append c (x ∷ xs) ys =
    ap (λ l. carried c x ++ l) (all_carried-append c xs ys)
    ∙ sym (append_assoc (carried c x) (all_carried c xs) (all_carried c ys))

claim-admits :
    (o : Option SocketAddr) (src : SocketAddr) (p : Bytes) (t : ℕ)
    → packet_type p ≡ some t
    → claim o src t ≡ (if admits o src p then some src else none)
claim-admits none src p t e = claim_first src t
claim-admits (some a) src p t e =
    subst
      (λ x.
        claim (some a) src t ≡ (if addr_eq a src || is_handshake_type x then some src else none))
      (sym e) (ground (arith, claim_cases a src t, addr_eq_iff a src))

-- A datagram that masks a known packet opens as that packet.
opens-datagram :
    (c : Config) (w : World) (p : Bytes)
    → IsWorld w
    → has_known_type p ≡ true
    → length p ≤ 0xFFFF
    → opens c (mask c.is_stun w.txid (encode c.obfuscator w.draws p)) ≡ some p
opens-datagram c w p h k fits =
    let d = mask c.is_stun w.txid (encode c.obfuscator w.draws p) in
    let full : (length d == 0) ≡ false = ground (arith, datagram-pos c w h p k fits) in
    rw (full, unmask-datagram c w h p k fits, decode-encode_known c.obfuscator w.draws h.draws p k)
      refl

-- A keepalive opens as nothing.
opens-request :
    (c : Config) (w : World)
    → IsWorld w
    → c.is_stun ≡ true
    → opens c (stun_build_binding_request w.crc32 w.binding_txid) ≡ none
unfolding unmask
opens-request c w h s =
    let (long, stun, kind, version, attr, size, plain) =
      binding_request_layout w.crc32 w.binding_txid h.binding_twelve in
    rw (long, s, stun, kind, plain) refl

announcement-silent :
    (c : Config) (w : World) (t : ℕ) → IsWorld w → all_carried c (announcement c w t) ≡ []
announcement-silent c w t h =
    go (c.is_stun && t == type_handshake) (λ e. stun_on c.is_stun (t == type_handshake) e)
  where
    stun_on : (a b : Bool) → (a && b) ≡ true → a ≡ true
    stun_on true b e = refl
    stun_on false b e = absurd (cc)

    go :
        (b : Bool)
        → (b ≡ true → c.is_stun ≡ true)
        → all_carried c
            (if b then to_server (stun_build_binding_request w.crc32 w.binding_txid) ∷ [] else [])
          ≡ []
    go false s = refl
    go true s = ap (λ o. departure o ++ []) (opens-request c w h (s refl))

-- What a round does, seen as the link.
abbrev pub seen : Config → Round → Link × List Carried
seen c x = (link_of x.relay, all_carried c x.sent)

forward_up-seen :
    (c : Config) (w : World) (r : PhobosRelay) (p : Bytes) (t : ℕ)
    → IsWorld w
    → has_known_type p ≡ true
    → length p ≤ 0xFFFF
    → seen c (forward_up c w r p t) ≡ (link_of r, to_far p ∷ [])
unfolding forward_up
forward_up-seen c w r p t h k fits =
    let d = mask c.is_stun w.txid (encode c.obfuscator w.draws p) in
    ap (λ l. (link_of r, l))
      (all_carried-append c (announcement c w t) (to_server d ∷ [])
        ∙ ap₂ (λ l o. l ++ (departure o ++ [])) (announcement-silent c w t h)
            (opens-datagram c w p h k fits))

client_round-seen :
    (c : Config) (w : World) (r : PhobosRelay) (p : Bytes) (src : SocketAddr)
    → IsWorld w
    → length p ≤ 0xFFFF
    → r.running ≡ true
    → seen c (client_round c w r p src) ≡ link_step (link_of r) (from_near p src)
client_round-seen c w r p src h fits on = elim (Bool-cases (has_known_type p)) [
  | inl k ↦
      let (t, e) = known_type-some p k in
      ap (seen c) (client_round_known c w r p src t k e)
      ∙ (ap (λ o. seen c (pass_claimed c w r p t o)) (claim-admits r.client_addr src p t e)
          ∙ (passed t k (admits r.client_addr src p) ∙ sym (simp (on, k) refl)))
  | inr k ↦ ap (seen c) (client_round_unknown c w r p src k) ∙ sym (simp (on, k) refl)
]
  where
    passed :
        (t : ℕ)
        → has_known_type p ≡ true
        → (b : Bool)
        → seen c (pass_claimed c w r p t (if b then some src else none)) ≡ (
            if b
            then (record { holder = some src; is_open = r.running }, to_far p ∷ [])
            else (link_of r, []))
    passed t k true = forward_up-seen c w (record r { client_addr = some src }) p t h k fits
    passed t k false = refl

deliver-seen :
    (c : Config) (r : PhobosRelay) (o : Option Bytes)
    → r.running ≡ true
    → (link_of r, all_carried c (elim o [ none ↦ [] | some p ↦ deliver c r.client_addr p ]))
      ≡ link_step (link_of r) (arrival (decoded c o))
unfolding deliver
deliver-seen c r none on = refl
deliver-seen c r (some p) on = elim (Bool-cases (decode c.obfuscator p).ok) [
  | inl good ↦ elim (Option-cases r.client_addr) [
    | inl nobody ↦ simp (good, nobody, on) refl
    | inr (a, bound) ↦ simp (good, bound, on) refl
  ]
  | inr bad ↦ simp bad refl
]

server_round-seen :
    (c : Config) (r : PhobosRelay) (d : Bytes)
    → r.running ≡ true
    → seen c (server_round c r d) ≡ link_step (link_of r) (event_of c (server_recv d))
unfolding server_round deliver
server_round-seen c r d on = elim (Bool-cases (length d == 0)) [
  | inl e ↦ rw e refl
  | inr e ↦ rw e (deliver-seen c r (unmask c.is_stun d) on)
]

timer_round-seen :
    (c : Config) (w : World) (r : PhobosRelay)
    → IsWorld w
    → seen c (timer_round c w r) ≡ (link_of r, [])
unfolding timer_round
timer_round-seen c w r h = elim (Bool-cases c.is_stun) [
  | inl e ↦
      ap {A = Bool} (λ b. seen c (if b then request_round else skip r)) e
      ∙ ap (λ o. (link_of r, departure o ++ [])) (opens-request c w h e)
  | inr e ↦ ap {A = Bool} (λ b. seen c (if b then request_round else skip r)) e
]
  where
    request_round : Round
    request_round = record {
      relay = r;
      sent = to_server (stun_build_binding_request w.crc32 w.binding_txid) ∷ [];
    }

-- Answers as documented, and packets that fit a datagram.
abbrev pub IsFair : Event → Type 0
IsFair (client_recv w p src) = IsWorld w × (length p ≤ 0xFFFF)
IsFair (server_recv d) = Unit
IsFair (keepalive w) = IsWorld w
IsFair stopped = Unit

step-seen :
    (c : Config) (r : PhobosRelay) (e : Event)
    → IsFair e
    → seen c (step c r e) ≡ link_step (link_of r) (event_of c e)
unfolding step stop
step-seen c r (client_recv w p src) (h, fits) = elim (Bool-cases r.running) [
  | inl on ↦
      ap {A = Bool} (λ b. seen c (if b then client_round c w r p src else skip r)) on
      ∙ client_round-seen c w r p src h fits on
  | inr off ↦
      ap {A = Bool} (λ b. seen c (if b then client_round c w r p src else skip r)) off
      ∙ sym (simp off refl)
]
step-seen c r (server_recv d) h = elim (Bool-cases r.running) [
  | inl on ↦
      ap {A = Bool} (λ b. seen c (if b then server_round c r d else skip r)) on
      ∙ server_round-seen c r d on
  | inr off ↦
      ap {A = Bool} (λ b. seen c (if b then server_round c r d else skip r)) off
      ∙ sym (closed (opens c d) off)
]
  where
    closed :
        (o : Option Bytes) → r.running ≡ false → link_step (link_of r) (arrival o) ≡ (link_of r, [])
    closed none off = refl
    closed (some p) off = simp off refl
step-seen c r (keepalive w) h = elim (Bool-cases r.running) [
  | inl on ↦
      ap {A = Bool} (λ b. seen c (if b then timer_round c w r else skip r)) on
      ∙ timer_round-seen c w r h
  | inr off ↦ ap {A = Bool} (λ b. seen c (if b then timer_round c w r else skip r)) off
]
step-seen c r stopped h = refl

-- In every interleaving of the loops, with `stop` anywhere: the packets that the sent datagrams carry
-- to a peer of the same configuration, and those that are delivered, are in their order those that
-- the link carries for the packets that come in; and the relay stands at the end as the link does.
-- The packets from the client fit a datagram.
pub run-refines :
    (c : Config) (r : PhobosRelay) (es : List Event)
    → All IsFair es
    → seen c (run c r es) ≡ link_run (link_of r) (events_of c es)
unfolding run
run-refines c r [] h = refl
run-refines c r (e ∷ es) h =
    let x = step c r e in
    let now = step-seen c r e h.0 in
    let later = run-refines c x.relay es h.1 in
    ap (λ l. (link_of (run c x.relay es).relay, l))
      (all_carried-append c x.sent (run c x.relay es).sent)
    ∙ (λ i. ((later i).0, all_carried c x.sent ++ (later i).1))
    ∙ (λ i. let l = link_run (now i).0 (events_of c es) in (l.0, (now i).1 ++ l.1))

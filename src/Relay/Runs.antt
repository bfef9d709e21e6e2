-- ===== src/Relay/Runs.antt =====
-- Runs of the three loops: every interleaving of their rounds, with `stop` anywhere.
use phobos_wg_client.Base.{
  ℕ, true, false, ◌&&◌, ◌⊎◌, inl, inr, [], ◌∷◌, List, Option, none, some, ◌≡◌, ◌≢◌, refl, sym, ap,
  arith, if◌then◌else◌, ◌==◌, Bytes, IsBytes, All, All-append, subst, Bool-cases,
}
use phobos_wg_client.Base.Net.{SocketAddr}
use phobos_wg_client.Obfuscator.{has_known_type, packet_type, type_handshake}
use phobos_wg_client.Relay.{
  Config, World, PhobosRelay, Round, Sent, to_server, to_client, skip, claim, pass_claimed,
  forward_up, client_round, server_round, timer_round, Event, client_recv, server_recv, keepalive,
  stopped, stop, step, run,
}
use phobos_wg_client.Relay.Binding.{
  client_round-client_addr, client_round_known, client_round_unknown, known_type-some,
}
use phobos_wg_client.Relay.Traffic.{IsDelivery, server_round-IsDelivery}

-- What may be sent when the clients that may hold the relay are those of `P`.
abbrev pub IsAllowed : (SocketAddr → Type 0) → Sent → Type 0
IsAllowed P (to_server d) = Unit
IsAllowed P (to_client q a) = P a × (has_known_type q ≡ true)

-- The client that holds the relay, if there is one, is of `P`.
abbrev pub HeldBy : (SocketAddr → Type 0) → Option SocketAddr → Type 0
HeldBy P none = Unit
HeldBy P (some a) = P a

forward_up-IsAllowed :
    (P : SocketAddr → Type 0) (c : Config) (w : World) (r : PhobosRelay) (p : Bytes) (t : ℕ)
    → All (IsAllowed P) (forward_up c w r p t).sent
unfolding forward_up
forward_up-IsAllowed P c w r p t = elim (Bool-cases (c.is_stun && t == type_handshake)) [
  | inl e ↦ rw e (tt, (tt, tt))
  | inr e ↦ rw e (tt, tt)
]

-- The client loop sends to the server only.
client_round-IsAllowed :
    (P : SocketAddr → Type 0) (c : Config) (w : World) (r : PhobosRelay) (p : Bytes)
    (src : SocketAddr)
    → All (IsAllowed P) (client_round c w r p src).sent
client_round-IsAllowed P c w r p src = elim (Bool-cases (has_known_type p)) [
  | inl k ↦
      let (t, e) = known_type-some p k in
      rw (client_round_known c w r p src t k e) (passed t (claim r.client_addr src t))
  | inr k ↦ rw (client_round_unknown c w r p src k) tt
]
  where
    passed : (t : ℕ) (o : Option SocketAddr) → All (IsAllowed P) (pass_claimed c w r p t o).sent
    passed t none = tt
    passed t (some a) = forward_up-IsAllowed P c w (record r { client_addr = some a }) p t

HeldBy-eq :
    (P : SocketAddr → Type 0) (o : Option SocketAddr) (a : SocketAddr)
    → HeldBy P o
    → o ≡ some a
    → P a
HeldBy-eq P o a h e = subst (HeldBy P) e h

deliveries-IsAllowed :
    (P : SocketAddr → Type 0) (r : PhobosRelay) (d : Bytes) (sent : List Sent)
    → HeldBy P r.client_addr
    → All (IsDelivery r d) sent
    → All (IsAllowed P) sent
deliveries-IsAllowed P r d [] h all = tt
deliveries-IsAllowed P r d (to_server q ∷ sent) h all = absurd all.0
deliveries-IsAllowed P r d (to_client q a ∷ sent) h all =
    ((HeldBy-eq P r.client_addr a h all.0.0, all.0.1), deliveries-IsAllowed P r d sent h all.1)

-- The source that an event lets take over the relay, whose lock holds `o`, is of `P`.
abbrev MayTake : (SocketAddr → Type 0) → Option SocketAddr → Event → Type 0
MayTake P o (client_recv w p src) =
    has_known_type p ≡ true → (o ≡ none) ⊎ (packet_type p ≡ some type_handshake) → P src
MayTake P o (server_recv d) = IsBytes d
MayTake P o (keepalive w) = Unit
MayTake P o stopped = Unit

-- What a round may do, where a source that takes the relay over is of `P`.
module _ (P : SocketAddr → Type 0) (c : Config) (r : PhobosRelay) (h : HeldBy P r.client_addr) where
  abbrev Keeps : Round → Type 0
  Keeps x = All (IsAllowed P) x.sent × HeldBy P x.relay.client_addr

  client-Keeps :
      (w : World) (p : Bytes) (src : SocketAddr)
      → (has_known_type p ≡ true
          → (r.client_addr ≡ none) ⊎ (packet_type p ≡ some type_handshake)
          → P src)
      → Keeps (client_round c w r p src)
  client-Keeps w p src may = (
    client_round-IsAllowed P c w r p src,
    elim (client_round-client_addr c w r p src) [
      | inl same ↦ rw same h
      | inr (taken, known, how) ↦ rw taken (may known how)
    ],
  )

  server-Keeps : (d : Bytes) → IsBytes d → Keeps (server_round c r d)
  server-Keeps d bytes =
      let (sent, same, running, counted) = server_round-IsDelivery c r d bytes in
      (deliveries-IsAllowed P r d _ h sent, rw same h)

  timer-Keeps : (w : World) → Keeps (timer_round c w r)
  unfolding timer_round
  timer-Keeps w = elim (Bool-cases c.is_stun) [ inl e ↦ rw e ((tt, tt), h) | inr e ↦ rw e (tt, h) ]

  gated-Keeps : (x : Round) → Keeps x → Keeps (if r.running then x else skip r)
  gated-Keeps x k = elim (Bool-cases r.running) [ inl e ↦ rw e k | inr e ↦ rw e (tt, h) ]

  step-Keeps : (e : Event) → MayTake P r.client_addr e → Keeps (step c r e)
  unfolding step stop
  step-Keeps (client_recv w p src) may =
      gated-Keeps (client_round c w r p src) (client-Keeps w p src may)
  step-Keeps (server_recv d) bytes = gated-Keeps (server_round c r d) (server-Keeps d bytes)
  step-Keeps (keepalive w) _ = gated-Keeps (timer_round c w r) (timer-Keeps w)
  step-Keeps stopped _ = (tt, h)

-- Every known packet of the run comes from a source of `P`, and datagrams hold bytes.
abbrev pub OnlyFrom : (SocketAddr → Type 0) → Event → Type 0
OnlyFrom P (client_recv w p src) = has_known_type p ≡ true → P src
OnlyFrom P (server_recv d) = IsBytes d
OnlyFrom P (keepalive w) = Unit
OnlyFrom P stopped = Unit

-- Every handshake of the run comes from a source of `P`, and datagrams hold bytes.
abbrev pub HandshakesFrom : (SocketAddr → Type 0) → Event → Type 0
HandshakesFrom P (client_recv w p src) = packet_type p ≡ some type_handshake → P src
HandshakesFrom P (server_recv d) = IsBytes d
HandshakesFrom P (keepalive w) = Unit
HandshakesFrom P stopped = Unit

OnlyFrom-MayTake :
    (P : SocketAddr → Type 0) (o : Option SocketAddr) (e : Event) → OnlyFrom P e → MayTake P o e
OnlyFrom-MayTake P o (client_recv w p src) h = λ known how. h known
OnlyFrom-MayTake P o (server_recv d) h = h
OnlyFrom-MayTake P o (keepalive w) h = tt
OnlyFrom-MayTake P o stopped h = tt

HandshakesFrom-MayTake :
    (P : SocketAddr → Type 0) (o : Option SocketAddr) (e : Event)
    → o ≢ none
    → HandshakesFrom P e
    → MayTake P o e
HandshakesFrom-MayTake P o (client_recv w p src) held h =
    λ known how. elim how [ inl nobody ↦ absurd (held nobody) | inr hs ↦ h hs ]
HandshakesFrom-MayTake P o (server_recv d) held h = h
HandshakesFrom-MayTake P o (keepalive w) held h = tt
HandshakesFrom-MayTake P o stopped held h = tt

-- In every run whose known packets come from sources of `P`, what is delivered to a client is a
-- known WireGuard packet, to a source of `P`; and whoever holds the relay at the end is of `P`.
pub run-OnlyFrom :
    (P : SocketAddr → Type 0) (c : Config) (r : PhobosRelay) (es : List Event)
    → HeldBy P r.client_addr
    → All (OnlyFrom P) es
    → All (IsAllowed P) (run c r es).sent × HeldBy P (run c r es).relay.client_addr
unfolding run
run-OnlyFrom P c r [] h all = (tt, h)
run-OnlyFrom P c r (e ∷ es) h all =
    let (sent, held) = step-Keeps P c r h e (OnlyFrom-MayTake P r.client_addr e all.0) in
    let (more, last) = run-OnlyFrom P c (step c r e).relay es held all.1 in
    (All-append (IsAllowed P) (step c r e).sent _ sent more, last)

gated-held :
    (r : PhobosRelay) (x : Round)
    → r.client_addr ≢ none
    → x.relay.client_addr ≢ none
    → (if r.running then x else skip r).relay.client_addr ≢ none
gated-held r x h k = elim (Bool-cases r.running) [ inl e ↦ rw e k | inr e ↦ rw e h ]

-- The lock is never emptied.
step-held :
    (c : Config) (r : PhobosRelay) (e : Event)
    → r.client_addr ≢ none
    → (step c r e).relay.client_addr ≢ none
unfolding step stop
step-held c r (client_recv w p src) h =
    gated-held r (client_round c w r p src) h (elim (client_round-client_addr c w r p src) [
      | inl same ↦ rw same h
      | inr (taken, known, how) ↦ rw taken cc
    ])
step-held c r (server_recv d) h =
    gated-held r (server_round c r d) h (unfold server_round in ground arith)
step-held c r (keepalive w) h =
    gated-held r (timer_round c w r) h (unfold timer_round in ground arith)
step-held c r stopped h = h

-- Once a client holds the relay, only a handshake can move it: in every run whose handshakes come
-- from sources of `P`, with a client of `P` holding the relay at the start, all that is delivered
-- goes to sources of `P`, whatever other packets other local ports send.
pub run-HandshakesFrom :
    (P : SocketAddr → Type 0) (c : Config) (r : PhobosRelay) (es : List Event)
    → r.client_addr ≢ none
    → HeldBy P r.client_addr
    → All (HandshakesFrom P) es
    → All (IsAllowed P) (run c r es).sent × HeldBy P (run c r es).relay.client_addr
unfolding run
run-HandshakesFrom P c r [] held h all = (tt, h)
run-HandshakesFrom P c r (e ∷ es) held h all =
    let (sent, by) = step-Keeps P c r h e (HandshakesFrom-MayTake P r.client_addr e held all.0) in
    let (more, last) =
      run-HandshakesFrom P c (step c r e).relay es (step-held c r e held) by all.1 in
    (All-append (IsAllowed P) (step c r e).sent _ sent more, last)

step_stopped : (c : Config) (r : PhobosRelay) (e : Event) → r.running ≡ false → step c r e ≡ skip r
unfolding step stop
step_stopped c r (client_recv w p src) off = simp off
step_stopped c r (server_recv d) off = simp off
step_stopped c r (keepalive w) off = simp off
step_stopped c r stopped off = ap (λ b. skip (record r { running = b })) (sym off)

-- A relay that is stopped sends nothing more and stays as it is.
pub run_stopped :
    (c : Config) (r : PhobosRelay) (es : List Event) → r.running ≡ false → run c r es ≡ skip r
unfolding run
run_stopped c r [] off = refl
run_stopped c r (e ∷ es) off = rw (step_stopped c r e off) (run_stopped c r es off)

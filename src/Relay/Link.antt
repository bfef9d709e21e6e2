-- ===== src/Relay/Link.antt =====
-- What the relay promises (src/relay.rs): a link that carries WireGuard packets between one local
-- client and the far side. Datagrams, their padding, masking and the keepalives are no part of it.
use phobos_wg_client.Base.{
  ℕ, Bool, true, false, ◌&&◌, ◌||◌, List, [], ◌∷◌, ◌++◌, Option, none, some, if◌then◌else◌, ◌==◌,
  length, Bytes,
}
use phobos_wg_client.Base.Net.{SocketAddr, addr_eq}
use phobos_wg_client.Obfuscator.{has_known_type, packet_type, type_handshake, decode}
use phobos_wg_client.Relay.{
  Config, PhobosRelay, Sent, to_server, to_client, unmask, Event, client_recv, server_recv,
  keepalive, stopped,
}

-- Who holds the link, and whether it is open.
pub record Link : Type 0 where
  pub holder : Option SocketAddr
  pub is_open : Bool

pub data LinkEvent : Type 0 where
  from_near : Bytes → SocketAddr → LinkEvent
  from_far : Bytes → LinkEvent
  idle : LinkEvent
  shut : LinkEvent

pub data Carried : Type 0 where
  to_far : Bytes → Carried
  to_near : Bytes → SocketAddr → Carried

abbrev pub is_handshake_type : Option ℕ → Bool
is_handshake_type none = false
is_handshake_type (some t) = t == type_handshake

abbrev pub is_handshake : Bytes → Bool
is_handshake p = is_handshake_type (packet_type p)

-- Who may send: the holder, anyone while there is none, and anyone with a handshake.
abbrev pub admits : Option SocketAddr → SocketAddr → Bytes → Bool
admits none src p = true
admits (some a) src p = addr_eq a src || is_handshake p

abbrev pub to_holder : Option SocketAddr → Bytes → List Carried
to_holder none p = []
to_holder (some a) p = to_near p a ∷ []

abbrev pub link_step : Link → LinkEvent → Link × List Carried
link_step l (from_near p src) =
    if l.is_open && has_known_type p && admits l.holder src p
    then (record l { holder = some src }, to_far p ∷ [])
    else (l, [])
link_step l (from_far p) = (l, if l.is_open then to_holder l.holder p else [])
link_step l idle = (l, [])
link_step l shut = (record l { is_open = false }, [])

abbrev pub link_run : Link → List LinkEvent → Link × List Carried
link_run l [] = (l, [])
link_run l (e ∷ es) =
    let here = link_step l e in let later = link_run here.0 es in (later.0, here.1 ++ later.1)

-- The link that a relay is.
abbrev pub link_of : PhobosRelay → Link
link_of r = record { holder = r.client_addr; is_open = r.running }

abbrev pub decoded : Config → Option Bytes → Option Bytes
decoded c none = none
decoded c (some p) = let d = decode c.obfuscator p in if d.ok then some d.buf else none

-- The packet that a peer of the same configuration finds in a datagram.
abbrev pub opens : Config → Bytes → Option Bytes
opens c d = if length d == 0 then none else decoded c (unmask c.is_stun d)

abbrev pub arrival : Option Bytes → LinkEvent
arrival none = idle
arrival (some p) = from_far p

abbrev pub event_of : Config → Event → LinkEvent
event_of c (client_recv w p src) = from_near p src
event_of c (server_recv d) = arrival (opens c d)
event_of c (keepalive w) = idle
event_of c stopped = shut

abbrev pub events_of : Config → List Event → List LinkEvent
events_of c [] = []
events_of c (e ∷ es) = event_of c e ∷ events_of c es

abbrev pub departure : Option Bytes → List Carried
departure none = []
departure (some p) = to_far p ∷ []

abbrev pub carried : Config → Sent → List Carried
carried c (to_server d) = departure (opens c d)
carried c (to_client p a) = to_near p a ∷ []

-- What the sent datagrams carry.
abbrev pub all_carried : Config → List Sent → List Carried
all_carried c [] = []
all_carried c (s ∷ ss) = carried c s ++ all_carried c ss

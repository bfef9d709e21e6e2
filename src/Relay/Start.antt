-- ===== src/Relay/Start.antt =====
-- The set-up of `PhobosRelay::start` (src/relay.rs): the sockets in front of its loops. `running` is
-- set first, and stays set where the set-up fails.
use phobos_wg_client.Base.{ℕ, true, List, Option, none, some, codes}
use phobos_wg_client.Base.Net.{SocketAddr}
use phobos_wg_client.Base.Result.{Result, ok, err, ◌>>=◌, map_err, ok_or}
use phobos_wg_client.Archive.{PhobosProfile}
use phobos_wg_client.Obfuscator as Obf
use phobos_wg_client.Text.{Text, eq_ignore_ascii_case}
use phobos_wg_client.Relay.{PhobosRelay, Config}

-- What the resolver and the sockets answer. A refused interface is only reported.
pub record Network : Type 0 where
  pub bind_local : ℕ → Result Text (Unit {0})
  pub resolve : Text → Result Text (List SocketAddr)
  pub bind_upstream : Result Text (Unit {0})
  pub connect : SocketAddr → Result Text (Unit {0})
  pub clone : Result Text (Unit {0})

pub data StartError : Type 0 where
  no_listener : Text → StartError
  not_resolved : Text → StartError
  no_address : StartError
  no_upstream : Text → StartError
  not_connected : Text → StartError
  not_cloned : Text → StartError

abbrev pub first_addr : List SocketAddr → Option SocketAddr
first_addr List.[] = none
first_addr (List.◌∷◌ a rest) = some a

-- The obfuscator and `is_stun` of a profile.
unfoldable pub relay_config : PhobosProfile → Config
relay_config p = record {
  obfuscator = Obf.new p.key p.max_dummy p.obfuscate_bytes;
  is_stun = eq_ignore_ascii_case p.masking (codes "STUN");
}

-- The server's address, where the sockets are there.
unfoldable pub open_sockets : Network → PhobosProfile → Result StartError SocketAddr
open_sockets w p = do
  listener ← map_err no_listener (w.bind_local p.local_port)
  addrs ← map_err not_resolved (w.resolve p.target)
  target_addr ← ok_or no_address (first_addr addrs)
  upstream ← map_err no_upstream w.bind_upstream
  connected ← map_err not_connected (w.connect target_addr)
  clones ← map_err not_cloned w.clone
  ok target_addr

abbrev pub started : PhobosProfile → Result StartError SocketAddr → Result StartError Config
started p (ok addr) = ok (relay_config p)
started p (err e) = err e

-- What the loops start from: the relay and its configuration.
unfoldable pub start :
    Network → PhobosProfile → PhobosRelay → Result StartError Config × PhobosRelay
start w p r = (started p (open_sockets w p), record r { running = true; client_addr = none })

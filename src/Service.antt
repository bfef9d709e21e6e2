-- ===== src/Service.antt =====
-- The tunnel service behind the window (src/tunnel_service.rs): the state that its threads share, and
-- what the window's thread does with it. Messages are data; the time in front of a line is an
-- argument. A rate is the fraction that the code rounds.
pub mod Logging
pub mod Stages
pub mod Session
pub mod Threads
pub mod Steady
pub mod Stopping
pub mod Routing
pub mod Overlap
pub mod Samples
mod Tests
use phobos_wg_client.Base.{
  ℕ, ◌-◌, ◌+◌, ◌*◌, Bool, true, false, List, [], ◌∷◌, ◌++◌, Option, none, some, if◌then◌else◌, leb,
  length, drop, codes,
}
use phobos_wg_client.Base.Net.{SocketAddr}
use phobos_wg_client.Archive.{PhobosProfile}
use phobos_wg_client.Text.{Text}
use phobos_wg_client.Text.Number.{show}
use phobos_wg_client.WgConfig.{ParseError}
use phobos_wg_client.Wintun.Device.{CreateError}

pub data SetupError : Type 0 where
  not_parsed : ParseError → SetupError
  no_address : Text → SetupError
  not_resolved : Text → Text → SetupError
  ipv6_server : SetupError
  no_dummy_socket : Text → SetupError
  no_interface : ℕ → SetupError
  not_created : CreateError → SetupError
  no_socket : Text → SetupError
  not_connected : SocketAddr → Text → SetupError

pub data TunnelStatus : Type 0 where
  disconnected : TunnelStatus
  connecting : TunnelStatus
  connected : TunnelStatus
  error : SetupError → TunnelStatus

-- `bytes` in `elapsed` nanoseconds, in KiB a second.
pub record Rate : Type 0 where
  pub numerator : ℕ
  pub denominator : ℕ

unfoldable pub kbps : ℕ → ℕ → Rate
kbps bytes elapsed = record { numerator = bytes * 1000000000; denominator = elapsed * 1024 }

pub record TunnelStats : Type 0 where
  pub bytes_sent : ℕ
  pub bytes_recv : ℕ
  pub rate_sent_kbps : Rate
  pub rate_recv_kbps : Rate
  pub last_handshake_secs : Option ℕ

-- The lines of the log.
pub data Line : Type 0 where
  started : Text → Text → Line
  setup_failed : SetupError → Line
  parameters : ℕ → ℕ → ℕ → Line
  adapter_starting : Line
  adapter_ready : Line
  handshake_requested : SocketAddr → Line
  waiting_for_handshake : Line
  handshake_done : Line
  stopping : Line
  stopped : Line

pub record Entry : Type 0 where
  pub time : Text
  pub line : Line

pub record TunnelService : Type 0 where
  pub status : TunnelStatus
  pub stats : TunnelStats
  pub logs : List Entry
  pub active_profile_name : Option Text
  pub stop_signal : Bool

abbrev pub no_stats : TunnelStats
no_stats = record {
  bytes_sent = 0;
  bytes_recv = 0;
  rate_sent_kbps = record { numerator = 0; denominator = 1 };
  rate_recv_kbps = record { numerator = 0; denominator = 1 };
  last_handshake_secs = none;
}

-- `TunnelService::new`
abbrev pub new : TunnelService
new = record {
  status = disconnected;
  stats = no_stats;
  logs = [];
  active_profile_name = none;
  stop_signal = false;
}

abbrev pub two_digits : ℕ → Text
two_digits n = if leb 10 n then show n else codes "0" ++ show n

-- `current_time_str` on what `GetLocalTime` fills in.
unfoldable pub current_time_str : ℕ → ℕ → ℕ → Text
current_time_str hour minute second =
    two_digits hour ++ codes ":" ++ two_digits minute ++ codes ":" ++ two_digits second

-- The log without its oldest lines where it is full.
unfoldable pub drained : List Entry → List Entry
drained logs = if leb 2000 (length logs) then drop (length logs - 1500) logs else logs

unfoldable pub log : Text → Line → TunnelService → TunnelService
log time line s = record s { logs = drained s.logs ++ record { time = time; line = line } ∷ [] }

-- `log_fn`, the session's: it never drains.
unfoldable pub log_fn : Text → Line → TunnelService → TunnelService
log_fn time line s = record s { logs = s.logs ++ record { time = time; line = line } ∷ [] }

abbrev pub is_active_status : TunnelStatus → Bool
is_active_status connecting = true
is_active_status connected = true
is_active_status disconnected = false
is_active_status (error e) = false

unfoldable pub is_active : TunnelService → Bool
is_active s = is_active_status s.status

unfoldable pub stop : TunnelService → TunnelService
stop s = record s { stop_signal = true }

-- `start` behind its wait, up to the new thread.
unfoldable pub begin : Text → PhobosProfile → TunnelService → TunnelService
begin time profile s = log time (started profile.client_name profile.target) (record s {
  stop_signal = false;
  active_profile_name = some profile.client_name;
  status = connecting;
  stats = no_stats;
})

-- ===== src/Wintun.antt =====
-- The Wintun adapter and its routes (src/wintun_adapter.rs). The driver is a dependency: what its
-- calls answer is an argument. The table of routes and its calls are those of WindowsNet.
pub mod Installed
pub mod Removed
pub mod Library
pub mod Device
mod Tests
use phobos_wg_client.Base.{
  ℕ, Bool, true, false, not, ◌&&◌, List, [], ◌∷◌, Option, none, some, if◌then◌else◌, Bytes,
  bytes_eq,
}
use phobos_wg_client.Base.Net.{IpAddr, v4, v6}
use phobos_wg_client.Base.Result.{Result, ok, err, ◌>>=◌, map_err}
use phobos_wg_client.WgConfig.{WireGuardConfig}
use phobos_wg_client.WindowsNet.{Table, Row, System, Outcome, row_of, add_ip_route, delete_ip_route}

-- A file: its content, where it can be read, and whether it can be written.
pub record File : Type 0 where
  pub content : Option Bytes
  pub writable : Bool

-- Where the library is loaded from.
pub data DllPath : Type 0 where
  beside_exe : DllPath
  in_temp : DllPath

abbrev pub holds : Bytes → Option Bytes → Bool
holds dll none = false
holds dll (some b) = bytes_eq b dll

-- What the file holds where it is used: the embedded library, found or written, or it is not used.
unfoldable pub extract : Bytes → File → Option Bytes
extract dll f = if holds dll f.content then f.content else if f.writable then some dll else none

abbrev pub at_path : DllPath → Option Bytes → Option (DllPath × Bytes)
at_path p none = none
at_path p (some b) = some (p, b)

abbrev pub or_temp : Option Bytes → Option Bytes → Option (DllPath × Bytes)
or_temp none temp = at_path in_temp temp
or_temp (some b) temp = some (beside_exe, b)

-- The path, and what it holds then: `exe` is missing where the directory is not known.
unfoldable pub ensure_wintun_dll : Bytes → Option File → File → Option (DllPath × Bytes)
ensure_wintun_dll dll none temp = at_path in_temp (extract dll temp)
ensure_wintun_dll dll (some exe) temp = or_temp (extract dll exe) (extract dll temp)

pub record VpnRouteManager : Type 0 where
  pub server_ip : ℕ
  pub gateway_ip : Option ℕ
  pub physical_if_index : ℕ
  pub adapter_if_index : ℕ
  pub adapter_ip : ℕ
  pub has_ipv6 : Bool
  pub routes_installed : Bool

abbrev pub gw_opt : VpnRouteManager → Option IpAddr
gw_opt m = elim m.gateway_ip [ none ↦ none | some gw ↦ some (v4 gw) ]

-- The rows of the five routes.
abbrev pub host_row : VpnRouteManager → Row
host_row m = row_of m.physical_if_index (v4 m.server_ip) 32 (gw_opt m) 1

abbrev pub half_row : VpnRouteManager → IpAddr → Row
half_row m dest = row_of m.adapter_if_index dest 1 none 1

abbrev pub low_half : IpAddr
low_half = v4 0

abbrev pub high_half : IpAddr
high_half = v4 0x80000000

abbrev pub low_half6 : IpAddr
low_half6 = v6 0

abbrev pub high_half6 : IpAddr
high_half6 = v6 0x80000000000000000000000000000000

unfoldable pub add_host : System → VpnRouteManager → Table → Outcome
add_host sys m t = add_ip_route sys m.physical_if_index (v4 m.server_ip) 32 (gw_opt m) 1 t

unfoldable pub add_half : System → VpnRouteManager → IpAddr → Table → Outcome
add_half sys m dest t = add_ip_route sys m.adapter_if_index dest 1 none 1 t

unfoldable pub delete_half : System → VpnRouteManager → IpAddr → Table → Table
delete_half sys m dest t = (delete_ip_route sys m.adapter_if_index dest 1 none t).table

-- The half of the addresses whose route was refused, with the system's code.
pub data InstallError : Type 0 where
  low_half_failed : ℕ → InstallError
  high_half_failed : ℕ → InstallError

pub record Installation : Type 0 where
  pub result : Result InstallError (Unit {0})
  pub manager : VpnRouteManager
  pub table : Table

unfoldable pub add_ipv6 : System → VpnRouteManager → Table → Table
add_ipv6 sys m t =
    if m.has_ipv6 then (add_half sys m high_half6 (add_half sys m low_half6 t).table).table else t

abbrev pub after_high : System → VpnRouteManager → Result ℕ (Unit {0}) → Table → Installation
after_high sys m (err e) t = record { result = err (high_half_failed e); manager = m; table = t }
after_high sys m (ok u) t = record {
  result = ok tt;
  manager = record m { routes_installed = true };
  table = add_ipv6 sys m t;
}

abbrev pub after_low : System → VpnRouteManager → Result ℕ (Unit {0}) → Table → Installation
after_low sys m (err e) t = record { result = err (low_half_failed e); manager = m; table = t }
after_low sys m (ok u) t =
    let high = add_half sys m high_half t in after_high sys m high.result high.table

-- A refused host route or IPv6 route is only reported.
unfoldable pub install_routes : System → VpnRouteManager → Table → Installation
install_routes sys m t =
    let low = add_half sys m low_half (add_host sys m t).table in
    after_low sys m low.result low.table

unfoldable pub delete_ipv6 : System → VpnRouteManager → Table → Table
delete_ipv6 sys m t =
    if m.has_ipv6 then delete_half sys m high_half6 (delete_half sys m low_half6 t) else t

unfoldable pub delete_all : System → VpnRouteManager → Table → Table
delete_all sys m t =
    let host = (delete_ip_route sys m.physical_if_index (v4 m.server_ip) 32 (gw_opt m) t).table in
    delete_ipv6 sys m (delete_half sys m high_half (delete_half sys m low_half host))

-- `remove_routes`, which `drop` calls.
unfoldable pub remove_routes : System → VpnRouteManager → Table → VpnRouteManager × Table
remove_routes sys m t =
    if not m.routes_installed
    then (m, t)
    else (record m { routes_installed = false }, delete_all sys m t)

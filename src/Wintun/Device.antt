-- ===== src/Wintun/Device.antt =====
-- `WintunDevice::create` and `shutdown` (src/wintun_adapter.rs): the adapter's settings, its session
-- and its routes, in the order of the calls. What the driver and the system answer is an argument.
use phobos_wg_client.Base.{
  ℕ, ◌^◌, ◌%◌, Bool, true, false, List, [], ◌∷◌, ◌++◌, Option, none, some, ◌≡◌, refl, sym, subst,
  if◌then◌else◌, Bytes, ◌==◌,
}
use phobos_wg_client.Base.Net.{IpAddr, v4, v6}
use phobos_wg_client.Base.Result.{Result, ok, err, ◌>>=◌, map_err, ok_or, AllOk}
use phobos_wg_client.Text.{Text, is_nil}
use phobos_wg_client.WgConfig.{WireGuardConfig}
use phobos_wg_client.WindowsNet.{Table, System, BestRoute, get_best_route_gateway}
use phobos_wg_client.WindowsNet.Routes.{IsFaithful}
use phobos_wg_client.Wintun.{
  VpnRouteManager, File, DllPath, InstallError, Installation, ensure_wintun_dll, install_routes,
  remove_routes,
}
use phobos_wg_client.Wintun.Installed.{IsRouted, install_routes-IsRouted, install_routes-manager}

-- What is set at the adapter.
pub data Setting : Type 0 where
  interface_mtu : ℕ → Setting
  unicast_ip : IpAddr → ℕ → Setting
  interface_dns : List IpAddr → Setting

-- The answers: the library's files, the driver's calls, the code for an address, and the best route.
pub record Driver : Type 0 where
  pub dll : Bytes
  pub exe : Option File
  pub temp : File
  pub load : DllPath → Result Text (Unit {0})
  pub adapter_open : Result Text ℕ
  pub adapter_create : Result Text ℕ
  pub adapter_index : ℕ → Result Text ℕ
  pub address_code : IpAddr → ℕ → ℕ
  pub start_session : ℕ → Result Text (Unit {0})
  pub best_route : ℕ → BestRoute

pub data CreateError : Type 0 where
  no_library : CreateError
  not_loaded : Text → CreateError
  not_created : Text → CreateError
  no_index : Text → CreateError
  no_address : ℕ → CreateError
  no_session : Text → CreateError
  no_routes : InstallError → CreateError

-- The device: its settings in the order in which they are made, the manager and the table.
pub record WintunDevice : Type 0 where
  pub settings : List Setting
  pub route_manager : VpnRouteManager
  pub table : Table

-- An adapter that exists is opened, and created otherwise.
abbrev pub open_or_create : Driver → Result Text ℕ → Result CreateError ℕ
open_or_create d (ok a) = ok a
open_or_create d (err e) = map_err not_created d.adapter_create

abbrev pub add_unicast_ip : Driver → IpAddr → ℕ → Result ℕ (Unit {0})
add_unicast_ip d ip prefix_len =
    let res = d.address_code ip prefix_len in
    if res == 0 then ok tt else if res == 5010 then ok tt else err res

abbrev pub ipv6_settings : Option ℕ → List Setting
ipv6_settings none = []
ipv6_settings (some a) = unicast_ip (v6 a) 128 ∷ []

unfoldable pub adapter_settings : WireGuardConfig → List Setting
adapter_settings wg =
    interface_mtu (wg.mtu % 2 ^ 32)
    ∷ unicast_ip (v4 wg.client_ipv4) wg.client_ipv4_prefix
    ∷ (ipv6_settings wg.client_ipv6
        ++ (if is_nil wg.dns_servers then [] else interface_dns wg.dns_servers ∷ []))

abbrev pub is_some : Option ℕ → Bool
is_some none = false
is_some (some a) = true

abbrev pub gateway_of : Option (ℕ × ℕ) → Option ℕ
gateway_of none = none
gateway_of (some (gw, i)) = some gw

-- `VpnRouteManager::new`
abbrev pub new : Driver → ℕ → ℕ → ℕ → ℕ → Bool → VpnRouteManager
new d server_ip physical_if_index adapter_if_index adapter_ip has_ipv6 = record {
  server_ip = server_ip;
  gateway_ip = gateway_of (get_best_route_gateway d.best_route server_ip);
  physical_if_index = physical_if_index;
  adapter_if_index = adapter_if_index;
  adapter_ip = adapter_ip;
  has_ipv6 = has_ipv6;
  routes_installed = false;
}

-- The part of `create` in front of the routes, which gives their manager.
unfoldable pub prepare : Driver → WireGuardConfig → ℕ → ℕ → Result CreateError VpnRouteManager
prepare d wg server_ip physical_if_index = do
  dll ← ok_or no_library (ensure_wintun_dll d.dll d.exe d.temp)
  loaded ← map_err not_loaded (d.load dll.0)
  adapter ← open_or_create d d.adapter_open
  adapter_if_index ← map_err no_index (d.adapter_index adapter)
  addressed ← map_err no_address (add_unicast_ip d (v4 wg.client_ipv4) wg.client_ipv4_prefix)
  session ← map_err no_session (d.start_session adapter)
  ok (new d server_ip physical_if_index adapter_if_index wg.client_ipv4 (is_some wg.client_ipv6))

-- A call of `create`: its result, and the table behind it.
pub record Creation : Type 0 where
  pub result : Result CreateError WintunDevice
  pub table : Table

abbrev pub with_routes :
    System → WireGuardConfig → Installation → Result InstallError (Unit {0}) → Creation
with_routes sys wg i (err e) = record {
  result = err (no_routes e);
  table = (remove_routes sys i.manager i.table).1;
}
with_routes sys wg i (ok u) =
    let device : WintunDevice = record {
      settings = adapter_settings wg;
      route_manager = i.manager;
      table = i.table;
    } in
    record { result = ok device; table = i.table }

abbrev pub install :
    System → WireGuardConfig → Table → Result CreateError VpnRouteManager → Creation
install sys wg t (err e) = record { result = err e; table = t }
install sys wg t (ok m) = let i = install_routes sys m t in with_routes sys wg i i.result

-- Where the routes fail, their manager is dropped.
unfoldable pub create : Driver → System → WireGuardConfig → ℕ → ℕ → Table → Creation
create d sys wg server_ip physical_if_index t =
    install sys wg t (prepare d wg server_ip physical_if_index)

-- The session ends, and the routes are removed.
unfoldable pub shutdown : System → WintunDevice → WintunDevice
shutdown sys w =
    let (m, t) = remove_routes sys w.route_manager w.table in
    record w { route_manager = m; table = t }

-- The settings are those of the configuration, and the routes are in the table and remembered.
abbrev pub IsReady : WireGuardConfig → Table → WintunDevice → Type 0
IsReady wg t w =
    (w.settings ≡ adapter_settings wg)
    × IsRouted w.route_manager t
    × (w.route_manager.routes_installed ≡ true)

with_routes-IsReady :
    (wg : WireGuardConfig) (sys : System) (m : VpnRouteManager) (t : Table)
    (r : Result InstallError (Unit {0}))
    → IsFaithful sys
    → (install_routes sys m t).result ≡ r
    → (let c = with_routes sys wg (install_routes sys m t) r in AllOk (IsReady wg c.table) c.result)
with_routes-IsReady wg sys m t (err e) f h = tt
with_routes-IsReady wg sys m t (ok tt) f h =
    let (routed, installed) = install_routes-IsRouted sys m t f h in
    (
      refl,
      subst (λ x. IsRouted x (install_routes sys m t).table)
          (sym (install_routes-manager sys m t h)) routed,
      installed,
    )

install-IsReady :
    (wg : WireGuardConfig) (sys : System) (t : Table) (r : Result CreateError VpnRouteManager)
    → IsFaithful sys
    → AllOk (IsReady wg (install sys wg t r).table) (install sys wg t r).result
install-IsReady wg sys t (err e) f = tt
install-IsReady wg sys t (ok m) f =
    with_routes-IsReady wg sys m t (install_routes sys m t).result f refl

-- A device that is created has the settings of its configuration and installed routes.
pub create-IsReady :
    (d : Driver) (sys : System) (wg : WireGuardConfig) (server_ip physical : ℕ) (t : Table)
    → IsFaithful sys
    → (let c = create d sys wg server_ip physical t in AllOk (IsReady wg c.table) c.result)
unfolding create
create-IsReady d sys wg server_ip physical t f =
    install-IsReady wg sys t (prepare d wg server_ip physical) f

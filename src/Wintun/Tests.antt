-- ===== src/Wintun/Tests.antt =====
-- Runs of the route manager (src/wintun_adapter.rs), and the theorems at concrete inputs.
use phobos_wg_client.Base.{inl, true, false, [], ◌∷◌, some, ◌≡◌, refl, arith, if◌then◌else◌}
use phobos_wg_client.Base.Net.{ip_eq}
use phobos_wg_client.WindowsNet.{
  System, same_row, has_row, remove_row, delete_row, create_row, delete_ip_route, add_ip_route,
}
use phobos_wg_client.WindowsNet.Routes.{IsFaithful, IsDeleting}
use phobos_wg_client.Wintun.{
  VpnRouteManager, File, half_row, low_half, high_half, add_host, add_half, add_ipv6,
  install_routes, remove_routes,
}
use phobos_wg_client.Wintun.Installed.{IsRouted, install_routes-IsRouted}
use phobos_wg_client.Wintun.Removed.{
  IsUnrouted, remove_routes-IsUnrouted, install_routes-left_behind,
}

abbrev manager : VpnRouteManager
manager = record {
  server_ip = 0x01020304;
  gateway_ip = some 0xc0a80001;
  physical_if_index = 2;
  adapter_if_index = 9;
  adapter_ip = 0x0a080003;
  has_ipv6 = true;
  routes_installed = false;
}

abbrev willing : System
willing = record { create = λ r t. 0; delete = λ r t. 0 }

-- A system without room for a second route of length 1.
abbrev refusing : System
refusing = record { create = λ r t. if ip_eq r.prefix high_half then 8 else 0; delete = λ r t. 0 }

willing-IsFaithful : IsFaithful willing
willing-IsFaithful r t e = ground arith

refusing-IsFaithful : IsFaithful refusing
refusing-IsFaithful r t e = ground arith

willing-IsDeleting : IsDeleting willing
willing-IsDeleting r t = inl refl

install_routes-IsRouted_example :
    IsRouted manager (install_routes willing manager []).table
    × ((install_routes willing manager []).manager.routes_installed ≡ true)
unfolding install_routes add_host add_half add_ip_route create_row delete_ip_route delete_row
    remove_row same_row ip_eq add_ipv6
install_routes-IsRouted_example = install_routes-IsRouted willing manager [] willing-IsFaithful refl

abbrev installed : VpnRouteManager
installed = record manager { routes_installed = true }

remove_routes-IsUnrouted_example :
    IsUnrouted installed (remove_routes willing installed []).1
    × (remove_routes willing
          (remove_routes willing installed []).0
          (remove_routes willing installed []).1
        ≡ remove_routes willing installed [])
remove_routes-IsUnrouted_example =
    remove_routes-IsUnrouted willing installed [] willing-IsDeleting refl

install_routes-left_behind_example :
    has_row
      (half_row manager low_half)
      (remove_routes refusing
        (install_routes refusing manager []).manager
        (install_routes refusing manager []).table).1
    ≡ true
unfolding install_routes add_host add_half add_ip_route create_row delete_ip_route delete_row
    remove_row same_row ip_eq add_ipv6
install_routes-left_behind_example =
    install_routes-left_behind refusing manager [] 8 refusing-IsFaithful refl refl

abbrev file : File
file = record { content = some (1 ∷ []); writable = false }

-- ===== src/Wintun/Installed.antt =====
-- The routes that `install_routes` leaves in the table (src/wintun_adapter.rs).
use phobos_wg_client.Base.{ℕ, true, false, none, ◌≡◌, refl, ◌∙◌, arith, inl, inr, Bool-cases, ◌==◌}
use phobos_wg_client.Base.Net.{IpAddr, v4, ip_eq}
use phobos_wg_client.Base.Result.{Result, ok, err, if_preserves}
use phobos_wg_client.WindowsNet.{Table, same_row, has_row, System}
use phobos_wg_client.WindowsNet.Routes.{IsFaithful, add_ip_route-there, add_ip_route-other}
use phobos_wg_client.Wintun.{
  VpnRouteManager, half_row, low_half, high_half, low_half6, high_half6, add_host, add_half,
  add_ipv6, after_high, after_low, install_routes,
}

-- Two halves with different addresses have different rows.
pub half_row-apart :
    (m : VpnRouteManager) (a b : IpAddr)
    → ip_eq a b ≡ false
    → same_row (half_row m a) (half_row m b) ≡ false
unfolding same_row
half_row-apart m a b h = elim (Bool-cases (m.adapter_if_index == m.adapter_if_index)) [
  | inl e ↦ rw (e, h) refl
  | inr e ↦ rw e refl
]

pub add_half-other :
    (sys : System) (m : VpnRouteManager) (a b : IpAddr) (t : Table)
    → ip_eq a b ≡ false
    → has_row (half_row m b) (add_half sys m a t).table ≡ has_row (half_row m b) t
unfolding add_half
add_half-other sys m a b t h =
    add_ip_route-other sys m.adapter_if_index a 1 none 1 (half_row m b) t (half_row-apart m a b h)

pub add_half-there :
    (sys : System) (m : VpnRouteManager) (a : IpAddr) (t : Table)
    → IsFaithful sys
    → (add_half sys m a t).result ≡ ok tt
    → has_row (half_row m a) (add_half sys m a t).table ≡ true
unfolding add_half
add_half-there sys m a t f h = add_ip_route-there sys m.adapter_if_index a 1 none 1 t f h

-- The IPv6 halves leave the IPv4 rows alone.
add_ipv6-other :
    (sys : System) (m : VpnRouteManager) (a : ℕ) (t : Table)
    → has_row (half_row m (v4 a)) (add_ipv6 sys m t) ≡ has_row (half_row m (v4 a)) t
unfolding add_ipv6 ip_eq
add_ipv6-other sys m a t =
    if_preserves (λ x. has_row (half_row m (v4 a)) x ≡ has_row (half_row m (v4 a)) t) m.has_ipv6
      (add_half sys m high_half6 (add_half sys m low_half6 t).table).table t
      (λ e.
        add_half-other sys m high_half6 (v4 a) (add_half sys m low_half6 t).table refl
        ∙ add_half-other sys m low_half6 (v4 a) t refl)
      (λ e. refl)

-- Both halves are routed into the tunnel.
abbrev pub IsRouted : VpnRouteManager → Table → Type 0
IsRouted m t = (has_row (half_row m low_half) t ≡ true) × (has_row (half_row m high_half) t ≡ true)

after_high-IsRouted :
    (sys : System) (m : VpnRouteManager) (r : Result ℕ (Unit {0})) (t : Table)
    → has_row (half_row m low_half) t ≡ true
    → (r ≡ ok tt → has_row (half_row m high_half) t ≡ true)
    → (after_high sys m r t).result ≡ ok tt
    → IsRouted m (after_high sys m r t).table
      × ((after_high sys m r t).manager.routes_installed ≡ true)
after_high-IsRouted sys m (err e) t low high h = ground arith
after_high-IsRouted sys m (ok tt) t low high h =
    ((add_ipv6-other sys m 0 t ∙ low, add_ipv6-other sys m 0x80000000 t ∙ high refl), refl)

after_low-IsRouted :
    (sys : System) (m : VpnRouteManager) (r : Result ℕ (Unit {0})) (t : Table)
    → IsFaithful sys
    → (r ≡ ok tt → has_row (half_row m low_half) t ≡ true)
    → (after_low sys m r t).result ≡ ok tt
    → IsRouted m (after_low sys m r t).table
      × ((after_low sys m r t).manager.routes_installed ≡ true)
unfolding ip_eq
after_low-IsRouted sys m (err e) t f low h = ground arith
after_low-IsRouted sys m (ok tt) t f low h =
    let high = add_half sys m high_half t in
    after_high-IsRouted sys m high.result high.table
      (add_half-other sys m high_half low_half t refl ∙ low refl)
      (add_half-there sys m high_half t f) h

-- Where a row that the system refuses as existing does exist, and `install_routes` succeeds, the
-- table has the routes of both halves of the IPv4 addresses through the adapter, whatever was in it
-- and whatever became of the other routes, and the manager remembers that they are installed.
pub install_routes-IsRouted :
    (sys : System) (m : VpnRouteManager) (t : Table)
    → IsFaithful sys
    → (install_routes sys m t).result ≡ ok tt
    → IsRouted m (install_routes sys m t).table
      × ((install_routes sys m t).manager.routes_installed ≡ true)
unfolding install_routes
install_routes-IsRouted sys m t f h =
    let low = add_half sys m low_half (add_host sys m t).table in
    after_low-IsRouted sys m low.result low.table f
      (add_half-there sys m low_half (add_host sys m t).table f) h

after_high-manager :
    (sys : System) (m : VpnRouteManager) (r : Result ℕ (Unit {0})) (t : Table)
    → (after_high sys m r t).result ≡ ok tt
    → (after_high sys m r t).manager ≡ record m { routes_installed = true }
after_high-manager sys m (err e) t h = ground arith
after_high-manager sys m (ok u) t h = refl

after_low-manager :
    (sys : System) (m : VpnRouteManager) (r : Result ℕ (Unit {0})) (t : Table)
    → (after_low sys m r t).result ≡ ok tt
    → (after_low sys m r t).manager ≡ record m { routes_installed = true }
after_low-manager sys m (err e) t h = ground arith
after_low-manager sys m (ok u) t h =
    let high = add_half sys m high_half t in after_high-manager sys m high.result high.table h

pub install_routes-manager :
    (sys : System) (m : VpnRouteManager) (t : Table)
    → (install_routes sys m t).result ≡ ok tt
    → (install_routes sys m t).manager ≡ record m { routes_installed = true }
unfolding install_routes
install_routes-manager sys m t h =
    let low = add_half sys m low_half (add_host sys m t).table in
    after_low-manager sys m low.result low.table h

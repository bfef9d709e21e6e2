-- ===== src/Wintun/Removed.antt =====
-- The routes that `remove_routes` deletes, and those that it misses (src/wintun_adapter.rs).
use phobos_wg_client.Base.{
  ℕ, Bool, true, false, not, none, ◌≡◌, refl, sym, ap, subst, ◌∙◌, arith, if◌then◌else◌,
}
use phobos_wg_client.Base.Net.{IpAddr, v4, ip_eq}
use phobos_wg_client.Base.Result.{Result, ok, err, if_preserves}
use phobos_wg_client.WindowsNet.{Table, same_row, has_row, System, row_of, delete_ip_route}
use phobos_wg_client.WindowsNet.Routes.{IsFaithful, IsDeleting, delete_row-other, delete_row-gone}
use phobos_wg_client.Wintun.{
  VpnRouteManager, half_row, low_half, high_half, low_half6, high_half6, gw_opt, add_host, add_half,
  delete_half, Installation, high_half_failed, after_high, after_low, install_routes, delete_ipv6,
  delete_all, remove_routes,
}
use phobos_wg_client.Wintun.Installed.{half_row-apart, add_half-other, add_half-there}

delete_half-gone :
    (sys : System) (m : VpnRouteManager) (a : IpAddr) (t : Table)
    → IsDeleting sys
    → has_row (half_row m a) (delete_half sys m a t) ≡ false
unfolding delete_half delete_ip_route has_row same_row
delete_half-gone sys m a t d = delete_row-gone sys (row_of m.adapter_if_index a 1 none 0) t d

delete_half-other :
    (sys : System) (m : VpnRouteManager) (a b : IpAddr) (t : Table)
    → ip_eq a b ≡ false
    → has_row (half_row m b) (delete_half sys m a t) ≡ has_row (half_row m b) t
unfolding delete_half delete_ip_route same_row
delete_half-other sys m a b t h =
    delete_row-other sys (row_of m.adapter_if_index a 1 none 0) (half_row m b) t
      (half_row-apart m a b h)

delete_ipv6-other :
    (sys : System) (m : VpnRouteManager) (a : ℕ) (t : Table)
    → has_row (half_row m (v4 a)) (delete_ipv6 sys m t) ≡ has_row (half_row m (v4 a)) t
unfolding delete_ipv6 ip_eq
delete_ipv6-other sys m a t =
    if_preserves (λ x. has_row (half_row m (v4 a)) x ≡ has_row (half_row m (v4 a)) t) m.has_ipv6
      (delete_half sys m high_half6 (delete_half sys m low_half6 t)) t
      (λ e.
        delete_half-other sys m high_half6 (v4 a) (delete_half sys m low_half6 t) refl
        ∙ delete_half-other sys m low_half6 (v4 a) t refl)
      (λ e. refl)

-- Neither half is routed into the tunnel.
abbrev pub IsUnrouted : VpnRouteManager → Table → Type 0
IsUnrouted m t =
    (has_row (half_row m low_half) t ≡ false) × (has_row (half_row m high_half) t ≡ false)

delete_all-IsUnrouted :
    (sys : System) (m : VpnRouteManager) (t : Table)
    → IsDeleting sys
    → IsUnrouted m (delete_all sys m t)
unfolding delete_all ip_eq
delete_all-IsUnrouted sys m t d =
    let host = (delete_ip_route sys m.physical_if_index (v4 m.server_ip) 32 (gw_opt m) t).table in
    let low = delete_half sys m low_half host in
    (
      delete_ipv6-other sys m 0 (delete_half sys m high_half low)
          ∙ (delete_half-other sys m high_half low_half low refl
              ∙ delete_half-gone sys m low_half host d),
      delete_ipv6-other sys m 0x80000000 (delete_half sys m high_half low)
          ∙ delete_half-gone sys m high_half low d,
    )

-- Where the system deletes every row that is there, the routes of both halves are gone after
-- `remove_routes` of a manager whose routes are installed, and a second call does nothing.
pub remove_routes-IsUnrouted :
    (sys : System) (m : VpnRouteManager) (t : Table)
    → IsDeleting sys
    → m.routes_installed ≡ true
    → IsUnrouted m (remove_routes sys m t).1
      × (remove_routes sys (remove_routes sys m t).0 (remove_routes sys m t).1
          ≡ remove_routes sys m t)
unfolding remove_routes
remove_routes-IsUnrouted sys m t d h =
    subst (λ p. IsUnrouted m p.1 × (remove_routes sys p.0 p.1 ≡ p))
      (sym (
        ap {A = Bool}
          (λ b.
            if not b then (m, t) else (record m { routes_installed = false }, delete_all sys m t))
          h))
      (delete_all-IsUnrouted sys m t d, refl)

-- An installation that ends at the upper half: the manager is the given one.
abbrev EndsAtHigh : System → VpnRouteManager → Installation → Type 0
EndsAtHigh sys m i = (i.manager ≡ m) × (has_row (half_row m low_half) i.table ≡ true)

after_high-EndsAtHigh :
    (sys : System) (m : VpnRouteManager) (r : Result ℕ (Unit {0})) (t : Table) (code : ℕ)
    → has_row (half_row m low_half) t ≡ true
    → (after_high sys m r t).result ≡ err (high_half_failed code)
    → EndsAtHigh sys m (after_high sys m r t)
after_high-EndsAtHigh sys m (err e) t code low h = (refl, low)
after_high-EndsAtHigh sys m (ok tt) t code low h = ground arith

after_low-EndsAtHigh :
    (sys : System) (m : VpnRouteManager) (r : Result ℕ (Unit {0})) (t : Table) (code : ℕ)
    → (r ≡ ok tt → has_row (half_row m low_half) t ≡ true)
    → (after_low sys m r t).result ≡ err (high_half_failed code)
    → EndsAtHigh sys m (after_low sys m r t)
unfolding ip_eq
after_low-EndsAtHigh sys m (err e) t code low h = ground arith
after_low-EndsAtHigh sys m (ok tt) t code low h =
    let high = add_half sys m high_half t in
    after_high-EndsAtHigh sys m high.result high.table code
      (add_half-other sys m high_half low_half t refl ∙ low refl) h

remove_routes-uninstalled :
    (sys : System) (m : VpnRouteManager) (t : Table)
    → m.routes_installed ≡ false
    → remove_routes sys m t ≡ (m, t)
unfolding remove_routes
remove_routes-uninstalled sys m t h =
    ap {A = Bool}
      (λ b. if not b then (m, t) else (record m { routes_installed = false }, delete_all sys m t)) h

-- Where the route of the upper half is refused, `remove_routes` of the manager that
-- `install_routes` leaves deletes nothing: the route of the lower half, which was added, stays.
pub install_routes-left_behind :
    (sys : System) (m : VpnRouteManager) (t : Table) (code : ℕ)
    → IsFaithful sys
    → m.routes_installed ≡ false
    → (install_routes sys m t).result ≡ err (high_half_failed code)
    → has_row
        (half_row m low_half)
        (remove_routes sys (install_routes sys m t).manager (install_routes sys m t).table).1
      ≡ true
unfolding install_routes
install_routes-left_behind sys m t code f h e =
    let low = add_half sys m low_half (add_host sys m t).table in
    let i = after_low sys m low.result low.table in
    let (same, there) =
      after_low-EndsAtHigh sys m low.result low.table code
        (add_half-there sys m low_half (add_host sys m t).table f) e in
    ap (λ p. has_row (half_row m low_half) p.1)
      (remove_routes-uninstalled sys i.manager i.table (ap (λ m. m.routes_installed) same ∙ h))
    ∙ there

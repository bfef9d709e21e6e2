-- ===== src/WindowsNet/Gateway.antt =====
-- The byte order of the addresses that `get_best_route_gateway` exchanges with the system
-- (src/windows_net.rs).
use phobos_wg_client.Base.{
  ℕ, ◌^◌, ◌<◌, Option, none, some, ◌≡◌, refl, ap, ◌∙◌, arith, if◌then◌else◌, ◌==◌,
}
use phobos_wg_client.WindowsNet.{swap_bytes, BestRoute, get_best_route_gateway}

-- A row of the system, whose addresses are words that hold the octets in their order in memory.
abbrev pub reply : Option (ℕ × ℕ) → BestRoute
reply none = record { code = 1; next_hop = 0; if_index = 0 }
reply (some (gw, i)) = record { code = 0; next_hop = swap_bytes gw; if_index = i }

abbrev pub IsRoute : Option (ℕ × ℕ) → Type 0
IsRoute none = Unit
IsRoute (some (gw, i)) = gw < 2 ^ 32

pub swap_bytes-swap_bytes : (n : ℕ) → n < 2 ^ 32 → swap_bytes (swap_bytes n) ≡ n
swap_bytes-swap_bytes n h = omega arith

-- What is made of a row.
abbrev read : BestRoute → Option (ℕ × ℕ)
read row = if row.code == 0 then some (swap_bytes row.next_hop, row.if_index) else none

read-reply : (r : Option (ℕ × ℕ)) → IsRoute r → read (reply r) ≡ r
read-reply none h = refl
read-reply (some (gw, i)) h = ap (λ x. some (x, i)) (swap_bytes-swap_bytes gw h)

-- Where the system's table gives each address a route or none, and the call exchanges addresses as
-- words that hold their octets in order, `get_best_route_gateway` gives that very route.
pub get_best_route_gateway-reply :
    (route : ℕ → Option (ℕ × ℕ)) (a : ℕ)
    → a < 2 ^ 32
    → IsRoute (route a)
    → get_best_route_gateway (λ dest. reply (route (swap_bytes dest))) a ≡ route a
unfolding get_best_route_gateway
get_best_route_gateway-reply route a h k =
    ap (λ x. read (reply (route x))) (swap_bytes-swap_bytes a h) ∙ read-reply (route a) k

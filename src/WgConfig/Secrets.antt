-- ===== src/WgConfig/Secrets.antt =====
-- `Debug` and `Drop` of a configuration (src/wg_config.rs).
use phobos_wg_client.Base.{ℕ, List, [], ◌∷◌, Option, none, some, ◌≡◌, refl, Bytes, replicate}
use phobos_wg_client.Base.Net.{IpAddr, v4, v6}
use phobos_wg_client.Text.Printed.{
  Printed, texts, number, optional, address, optional_address, addresses, bytes, redacted,
  optional_redacted,
}
use phobos_wg_client.WgConfig.{WireGuardConfig}

abbrev pub v6_of : Option ℕ → Option IpAddr
v6_of none = none
v6_of (some a) = some (v6 a)

abbrev pub hidden : Option Bytes → Option (Unit {0})
hidden none = none
hidden (some k) = some tt

-- `Debug`: the fields in order.
unfoldable pub debug_config : WireGuardConfig → List Printed
debug_config c =
    redacted
    ∷ address (v4 c.client_ipv4)
    ∷ number c.client_ipv4_prefix
    ∷ optional_address (v6_of c.client_ipv6)
    ∷ addresses c.dns_servers
    ∷ number c.mtu
    ∷ bytes c.peer_public_key
    ∷ optional_redacted (hidden c.preshared_key)
    ∷ optional c.persistent_keepalive
    ∷ texts c.allowed_ips
    ∷ []

abbrev pub zeroed : Option Bytes → Option Bytes
zeroed none = none
zeroed (some k) = some (replicate 32 0)

-- `Drop`: the keys are overwritten.
unfoldable pub drop_config : WireGuardConfig → WireGuardConfig
drop_config c = record c { private_key = replicate 32 0; preshared_key = zeroed c.preshared_key }

-- What is printed of a configuration is the same with any keys, and so with those that are erased.
debug_config-redacted :
    (c : WireGuardConfig) (key : Bytes) (psk : Option Bytes)
    → hidden psk ≡ hidden c.preshared_key
    → debug_config (record c { private_key = key; preshared_key = psk }) ≡ debug_config c
unfolding debug_config
debug_config-redacted c key psk h = rw h refl

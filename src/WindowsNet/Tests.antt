-- ===== src/WindowsNet/Tests.antt =====
-- Runs of the helpers (src/windows_net.rs), and the theorems at concrete inputs.
use phobos_wg_client.Base.{◌+◌, [], ◌∷◌, ◌≡◌, refl, codes, length, arith, true, some}
use phobos_wg_client.Base.Net.{v4, v6}
use phobos_wg_client.Base.Result.{ok, err}
use phobos_wg_client.WindowsNet.{
  is_special, has_special, escape_from, escape_windows_arg, params_str,
  bind_socket_to_physical_interface, unspecified,
}
use phobos_wg_client.WindowsNet.CommandLine.{argv, argv-params_str}
use phobos_wg_client.WindowsNet.Elevation.{from_ip, unspecified_bytes}
use phobos_wg_client.WindowsNet.Layout.{read_address, from_ip-read_address}

escaped :
    (escape_windows_arg (codes "simple") ≡ codes "simple")
    × (escape_windows_arg [] ≡ codes "\"\"")
    × (escape_windows_arg (codes "hello world") ≡ codes "\"hello world\"")
    × (escape_windows_arg (codes "foo\"bar") ≡ codes "\"foo\\\"bar\"")
    × (escape_windows_arg (codes "C:\\Path\\To\\") ≡ codes "C:\\Path\\To\\")
    × (escape_windows_arg (codes "C:\\Path With Spaces\\") ≡ codes "\"C:\\Path With Spaces\\\\\"")
unfolding escape_windows_arg escape_from has_special is_special
escaped = (refl, refl, refl, refl, refl, refl)

bound :
    (bind_socket_to_physical_interface (λ a. (0, 7)) (λ i. 0) 5 (v4 1) ≡ ok 7)
    × (bind_socket_to_physical_interface (λ a. (0, 0)) (λ i. 0) 5 (v4 1) ≡ err 0)
    × (bind_socket_to_physical_interface (λ a. (0, 7)) (λ i. 1) 5 (v4 1) ≡ err 5)
    × (bind_socket_to_physical_interface (λ a. (1, 7)) (λ i. 0) 5 (v6 1) ≡ ok 0)
unfolding bind_socket_to_physical_interface
bound = (refl, refl, refl, refl)

argv-params_str_example :
    argv
      (length (codes "a b" ∷ [] ∷ codes "\\\"" ∷ []) + 2)
      (params_str (codes "a b" ∷ [] ∷ codes "\\\"" ∷ []))
    ≡ codes "a b" ∷ [] ∷ codes "\\\"" ∷ []
argv-params_str_example = argv-params_str (codes "a b" ∷ [] ∷ codes "\\\"" ∷ []) 2

from_ip-read_address_example :
    (length (from_ip (v6 0xfdccad94bacf61a400000000cafe0003)) ≡ 28)
    × (read_address (from_ip (v6 0xfdccad94bacf61a400000000cafe0003))
        ≡ some (v6 0xfdccad94bacf61a400000000cafe0003))
    × (from_ip (unspecified (v6 0xfdccad94bacf61a400000000cafe0003)) ≡ unspecified_bytes true)
from_ip-read_address_example =
    from_ip-read_address (v6 0xfdccad94bacf61a400000000cafe0003) (omega arith)

-- ===== src/WindowsNet/Elevation.antt =====
-- The rights of the process and its relaunch, the interface's settings and the layout of an address
-- for the Windows API (src/windows_net.rs). The system's answers are arguments.
use phobos_wg_client.Base.{
  ℕ, ◌/◌, ◌%◌, ◌^◌, Bool, false, not, ◌&&◌, List, [], ◌∷◌, ◌++◌, map, Option, none, some,
  if◌then◌else◌, ltb, ◌==◌, Bytes, replicate, codes, u32_to_be,
}
use phobos_wg_client.Base.Net.{IpAddr, v4, v6}
use phobos_wg_client.Base.Result.{Result, ok, err, ◌>>=◌, map_err}
use phobos_wg_client.Text.{Text, is_nil, join}
use phobos_wg_client.Text.Show.{show_ip}
use phobos_wg_client.Text.Wide.{to_wide}
use phobos_wg_client.WindowsNet.{params_str}

-- `is_admin`: whether the token opens, its information is given, and its field.
unfoldable pub is_admin : Bool → Bool → ℕ → Bool
is_admin opened success token_is_elevated =
    if not opened then false else success && not (token_is_elevated == 0)

pub data ElevateError : Type 0 where
  no_exe : Text → ElevateError
  refused : ℕ → ElevateError

-- `elevate_and_relaunch`: success ends the process. `shell` answers to the file and its parameters.
unfoldable pub elevate_and_relaunch :
    Result Text Text → List Text → (Text → Option Text → ℕ) → Result ElevateError (Unit {0})
elevate_and_relaunch current_exe args shell = do
  exe ← map_err no_exe current_exe
  let res = shell exe (if is_nil args then none else some (params_str args))
  if ltb 32 res then ok tt else err (refused res)

pub data AclError : Type 0 where
  not_converted : AclError
  not_set : ℕ → AclError

-- `set_file_owner_only_acl`: the answers of the conversion and of the call, and the system's error.
unfoldable pub set_file_owner_only_acl : ℕ → ℕ → ℕ → Result AclError (Unit {0})
set_file_owner_only_acl converted res last_os_error =
    if converted == 0
    then err not_converted
    else if res == 0
    then err (not_set last_os_error)
    else ok tt

-- The fields of a row of the interface's table that are set.
pub record InterfaceRow : Type 0 where
  pub family : ℕ
  pub interface_index : ℕ
  pub nl_mtu : ℕ
  pub use_automatic_metric : ℕ
  pub metric : ℕ

abbrev pub af_inet : ℕ
af_inet = 2

abbrev pub af_inet6 : ℕ
af_inet6 = 23

-- A row as the system gives it for a family and an index, if it does, with the MTU and the metric.
abbrev pub with_mtu : ℕ → Option InterfaceRow → List InterfaceRow
with_mtu mtu none = []
with_mtu mtu (some row) = record row { nl_mtu = mtu; use_automatic_metric = 0; metric = 1 } ∷ []

-- The rows that `set_interface_mtu` sets, IPv4 first.
unfoldable pub set_interface_mtu : (ℕ → ℕ → Option InterfaceRow) → ℕ → ℕ → List InterfaceRow
set_interface_mtu get if_index mtu =
    with_mtu mtu (get af_inet if_index) ++ with_mtu mtu (get af_inet6 if_index)

-- `u16::to_ne_bytes` on the machines of the program.
abbrev pub u16_to_le : ℕ → Bytes
u16_to_le n = n % 2 ^ 8 ∷ n / 2 ^ 8 % 2 ^ 8 ∷ []

-- The 16 bytes of an IPv6 address, most significant first.
abbrev pub octets6 : ℕ → Bytes
octets6 a =
    u32_to_be (a / 2 ^ 96 % 2 ^ 32)
    ++ u32_to_be (a / 2 ^ 64 % 2 ^ 32)
    ++ u32_to_be (a / 2 ^ 32 % 2 ^ 32)
    ++ u32_to_be (a % 2 ^ 32)

-- The 28 bytes of `SockAddrInet::from_ip`: family, port, address; for IPv6 the flow in front of it and
-- the scope behind. The bytes of the union behind an IPv4 address stay 0.
unfoldable pub from_ip : IpAddr → Bytes
from_ip (v4 a) = u16_to_le af_inet ++ (replicate 2 0 ++ (u32_to_be a ++ replicate 20 0))
from_ip (v6 a) = u16_to_le af_inet6 ++ (replicate 6 0 ++ (octets6 a ++ replicate 4 0))

-- `SockAddrInet::unspecified`
unfoldable pub unspecified_bytes : Bool → Bytes
unspecified_bytes is_v6 =
    (if is_v6 then u16_to_le af_inet6 else u16_to_le af_inet) ++ replicate 26 0

-- `set_interface_dns`: the value of the setting, which is set with the flag of name servers alone.
unfoldable pub dns_setting : List IpAddr → Option (List ℕ)
dns_setting dns_servers =
    if is_nil dns_servers then none else some (to_wide (join (codes ",") (map show_ip dns_servers)))

abbrev pub set_dns : (List ℕ → ℕ) → Option (List ℕ) → Result ℕ (Unit {0})
set_dns call none = ok tt
set_dns call (some name_server) = let res = call name_server in if res == 0 then ok tt else err res

unfoldable pub set_interface_dns : (List ℕ → ℕ) → List IpAddr → Result ℕ (Unit {0})
set_interface_dns call dns_servers = set_dns call (dns_setting dns_servers)

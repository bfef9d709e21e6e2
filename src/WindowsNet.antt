-- ===== src/WindowsNet.antt =====
-- Helpers around the Windows API (src/windows_net.rs): the quoting of arguments, and routes and
-- addresses. What a call of the system answers is an argument of the definitions; the table of
-- routes changes where it answers 0.
pub mod Arguments
pub mod CommandLine
pub mod Routes
pub mod Elevation
pub mod Layout
pub mod Gateway
mod Tests
use phobos_wg_client.Base.{
  ℕ, ◌+◌, ◌*◌, ◌/◌, ◌%◌, ◌^◌, u32_from_le, Bool, true, false, not, ◌&&◌, ◌||◌, List, [], ◌∷◌, ◌++◌,
  map, Option, none, some, if◌then◌else◌, ◌==◌, replicate, codes,
}
use phobos_wg_client.Base.Net.{IpAddr, v4, v6, ip_eq}
use phobos_wg_client.Base.Result.{Result, ok, err}
use phobos_wg_client.Text.{Text, is_nil, join}

-- The characters that make quotes necessary.
unfoldable pub is_special : ℕ → Bool
is_special c = c == b' ' || c == 0x09 || c == 0x0A || c == 0x0D || c == 0x22

unfoldable pub has_special : Text → Bool
has_special [] = false
has_special (c ∷ s) = is_special c || has_special s

-- The loop, behind `backslashes` backslashes that are not pushed yet, and the closing quote.
unfoldable pub escape_from : ℕ → Text → Text
escape_from backslashes [] = replicate (backslashes * 2) 0x5C ++ 0x22 ∷ []
escape_from backslashes (c ∷ s) =
    let slash = escape_from (backslashes + 1) s in
    let rest = escape_from 0 s in
    if c == 0x5C
    then slash
    else if c == 0x22
    then replicate (backslashes * 2 + 1) 0x5C ++ 0x22 ∷ rest
    else replicate backslashes 0x5C ++ c ∷ rest

unfoldable pub escape_windows_arg : Text → Text
escape_windows_arg arg =
    if is_nil arg
    then 0x22 ∷ 0x22 ∷ []
    else if not (has_special arg)
    then arg
    else 0x22 ∷ escape_from 0 arg

-- `params_str` of `elevate_and_relaunch`.
unfoldable pub params_str : List Text → Text
params_str args = join (codes " ") (map escape_windows_arg args)

-- A row of the system's table. `next_hop` is unspecified for `none`.
pub record Row : Type 0 where
  pub interface_index : ℕ
  pub prefix : IpAddr
  pub prefix_length : ℕ
  pub next_hop : IpAddr
  pub metric : ℕ

abbrev pub Table : Type 0
Table = List Row

-- The row is that of `r`, but for the metric.
unfoldable pub same_row : Row → Row → Bool
same_row r s =
    r.interface_index == s.interface_index
    && ip_eq r.prefix s.prefix
    && r.prefix_length == s.prefix_length
    && ip_eq r.next_hop s.next_hop

unfoldable pub has_row : Row → Table → Bool
has_row r [] = false
has_row r (s ∷ t) = same_row s r || has_row r t

unfoldable pub remove_row : Row → Table → Table
remove_row r [] = []
remove_row r (s ∷ t) = let rest = remove_row r t in if same_row s r then rest else s ∷ rest

-- What `CreateIpForwardEntry2` and `DeleteIpForwardEntry2` answer.
pub record System : Type 0 where
  pub create : Row → Table → ℕ
  pub delete : Row → Table → ℕ

-- `SockAddrInet::unspecified`
abbrev pub unspecified : IpAddr → IpAddr
unspecified (v4 a) = v4 0
unspecified (v6 a) = v6 0

abbrev pub hop_or : IpAddr → Option IpAddr → IpAddr
hop_or dest none = unspecified dest
hop_or dest (some gw) = gw

abbrev pub row_of : ℕ → IpAddr → ℕ → Option IpAddr → ℕ → Row
row_of if_index dest prefix_len next_hop metric = record {
  interface_index = if_index;
  prefix = dest;
  prefix_length = prefix_len;
  next_hop = hop_or dest next_hop;
  metric = metric;
}

-- A call's outcome, the code of the error in it, and the table behind the call.
pub record Outcome : Type 0 where
  pub result : Result ℕ (Unit {0})
  pub table : Table

unfoldable pub delete_row : System → Row → Table → Outcome
delete_row sys row t =
    let res = sys.delete row t in
    record {
      result = if res == 0 || res == 1168 then ok tt else err res;
      table = if res == 0 then remove_row row t else t;
    }

unfoldable pub create_row : System → Row → Table → Outcome
create_row sys row t =
    let res = sys.create row t in
    record {
      result = if res == 0 || res == 5010 then ok tt else err res;
      table = if res == 0 then row ∷ t else t;
    }

-- The metric plays no part in a deletion.
unfoldable pub delete_ip_route : System → ℕ → IpAddr → ℕ → Option IpAddr → Table → Outcome
delete_ip_route sys if_index dest prefix_len next_hop t =
    delete_row sys (row_of if_index dest prefix_len next_hop 0) t

unfoldable pub add_ip_route : System → ℕ → IpAddr → ℕ → Option IpAddr → ℕ → Table → Outcome
add_ip_route sys if_index dest prefix_len next_hop metric t =
    create_row sys (row_of if_index dest prefix_len next_hop metric)
      (delete_ip_route sys if_index dest prefix_len next_hop t).table

-- `u32::from_ne_bytes` of an address's octets, `to_ne_bytes` back, and `u32::to_be`: on the little-endian
-- machines of Windows all of them reverse the four bytes.
abbrev pub swap_bytes : ℕ → ℕ
swap_bytes n = u32_from_le (n / 2 ^ 24 % 2 ^ 8) (n / 2 ^ 16 % 2 ^ 8) (n / 2 ^ 8 % 2 ^ 8) (n % 2 ^ 8)

-- What `GetBestRoute` answers: a code, and two fields of the row.
pub record BestRoute : Type 0 where
  pub code : ℕ
  pub next_hop : ℕ
  pub if_index : ℕ

unfoldable pub get_best_route_gateway : (ℕ → BestRoute) → ℕ → Option (ℕ × ℕ)
get_best_route_gateway best target_ip =
    let row = best (swap_bytes target_ip) in
    if row.code == 0 then some (swap_bytes row.next_hop, row.if_index) else none

-- `GetBestInterface` answers a code and an index, `setsockopt` a code and the system's error.
unfoldable pub bind_socket_to_physical_interface : (ℕ → ℕ × ℕ) → (ℕ → ℕ) → ℕ → IpAddr → Result ℕ ℕ
bind_socket_to_physical_interface best set_unicast_if last_os_error (v4 a) =
    let (ret, if_index) = best (swap_bytes a) in
    let res = set_unicast_if (swap_bytes if_index) in
    if not (ret == 0) || if_index == 0
    then err ret
    else if not (res == 0)
    then err last_os_error
    else ok if_index
bind_socket_to_physical_interface best set_unicast_if last_os_error (v6 a) = ok 0

-- ===== src/WgConfig.antt =====
-- The parser of WireGuard configurations (src/wg_config.rs). Base64 is decoded by a dependency, an
-- argument of the definitions; error messages are data.
pub mod Addresses
pub mod Fields
pub mod Fitting
pub mod Comments
pub mod Samples
pub mod Secrets
mod Tests
use phobos_wg_client.Base.{
  ℕ, ◌+◌, Bool, true, false, ◌||◌, List, [], ◌∷◌, ◌++◌, Option, none, some, if◌then◌else◌, ltb, min,
  from_option, ◌==◌, length, Bytes, codes,
}
use phobos_wg_client.Base.Net.{IpAddr, v4, v6}
use phobos_wg_client.Base.Result.{Result, ok, err, ◌>>=◌, map_err, ok_or}
use phobos_wg_client.Text.{
  Text, CaseTable, is_nil, text_eq, trim, starts_with, split, split_once, to_lowercase,
  eq_ignore_ascii_case,
}
use phobos_wg_client.Text.Lines.{lines, is_header, section_name}
use phobos_wg_client.Text.Number.{parse_u8, parse_u16, parse_usize}
use phobos_wg_client.Text.Ip.{parse_ip}

pub record WireGuardConfig : Type 0 where
  pub private_key : Bytes
  pub client_ipv4 : ℕ
  pub client_ipv4_prefix : ℕ
  pub client_ipv6 : Option ℕ
  pub dns_servers : List IpAddr
  pub mtu : ℕ
  pub peer_public_key : Bytes
  pub preshared_key : Option Bytes
  pub persistent_keepalive : Option ℕ
  pub allowed_ips : List Text

pub data KeyError : Type 0 where
  base64_decode_error : Text → KeyError
  wrong_key_length : ℕ → KeyError

pub data ParseError : Type 0 where
  invalid_private_key : KeyError → ParseError
  invalid_public_key : KeyError → ParseError
  invalid_preshared_key : KeyError → ParseError
  missing_private_key : ParseError
  missing_public_key : ParseError
  missing_ipv4_address : ParseError

-- The variables of `parse`.
pub record Parser : Type 0 where
  pub private_key : Option Bytes
  pub client_ipv4 : Option ℕ
  pub client_ipv4_prefix : ℕ
  pub client_ipv6 : Option ℕ
  pub dns_servers : List IpAddr
  pub mtu : ℕ
  pub peer_public_key : Option Bytes
  pub preshared_key : Option Bytes
  pub persistent_keepalive : Option ℕ
  pub allowed_ips : List Text
  pub in_interface : Bool
  pub in_peer : Bool

abbrev pub initial : Parser
initial = record {
  private_key = none;
  client_ipv4 = none;
  client_ipv4_prefix = 32;
  client_ipv6 = none;
  dns_servers = [];
  mtu = 1280;
  peer_public_key = none;
  preshared_key = none;
  persistent_keepalive = none;
  allowed_ips = [];
  in_interface = false;
  in_peer = false;
}

-- What the dependency makes of a base64 text: the bytes, or its message.
abbrev pub Decode : Type 0
Decode = Text → Result Text Bytes

abbrev pub check_length : Bytes → Result KeyError Bytes
check_length bytes = if length bytes == 32 then ok bytes else err (wrong_key_length (length bytes))

unfoldable pub decode_key_32 : Decode → Text → Result KeyError Bytes
decode_key_32 decode val = map_err base64_decode_error (decode (trim val)) >>= check_length

-- `match ip`: an address of a kind that is set already is dropped. `prefix` is the IPv4 prefix then.
unfoldable pub set_address : Parser → IpAddr → ℕ → Parser
set_address s (v4 a) prefix = elim s.client_ipv4 [
  | none ↦ record s { client_ipv4 = some a; client_ipv4_prefix = prefix }
  | some b ↦ s
]
set_address s (v6 a) prefix = elim s.client_ipv6 [
  | none ↦ record s { client_ipv6 = some a }
  | some b ↦ s
]

abbrev pub set_parsed : Parser → Option IpAddr → ℕ → Parser
set_parsed s none prefix = s
set_parsed s (some ip) prefix = set_address s ip prefix

-- On a part and what `split_once('/')` makes of it.
abbrev pub split_part : Parser → Text → Option (Text × Text) → Parser
split_part s part none = set_parsed s (parse_ip part) s.client_ipv4_prefix
split_part s part (some (ip_str, prefix_str)) =
    set_parsed s (parse_ip ip_str) (from_option (parse_u8 prefix_str) 32)

-- The body of the loop over the parts of an `Address`.
unfoldable pub address_part : Parser → Text → Parser
address_part s part = split_part s (trim part) (split_once b'/' (trim part))

unfoldable pub address_parts : Parser → List Text → Parser
address_parts s [] = s
address_parts s (part ∷ parts) = address_parts (address_part s part) parts

abbrev push_some : List IpAddr → Option IpAddr → List IpAddr
push_some ips none = ips
push_some ips (some ip) = ips ++ ip ∷ []

unfoldable pub dns_parts : List IpAddr → List Text → List IpAddr
dns_parts ips [] = ips
dns_parts ips (part ∷ parts) = dns_parts (push_some ips (parse_ip (trim part))) parts

unfoldable pub allowed_parts : List Text → List Text → List Text
allowed_parts ips [] = ips
allowed_parts ips (part ∷ parts) = allowed_parts (ips ++ trim part ∷ []) parts

unfoldable pub set_mtu : Parser → Option ℕ → Parser
set_mtu s none = s
set_mtu s (some m) = record s { mtu = min m 1280 }

unfoldable pub set_keepalive : Parser → Option ℕ → Parser
set_keepalive s none = s
set_keepalive s (some pk) = if ltb 0 pk then record s { persistent_keepalive = some pk } else s

-- `match key.as_str()` in `[Interface]`.
unfoldable pub interface_key : Decode → Parser → Text → Text → Result ParseError Parser
interface_key decode s key val =
    if text_eq key (codes "privatekey")
    then (do
      bytes ← map_err invalid_private_key (decode_key_32 decode val)
      ok (record s { private_key = some bytes }))
    else if text_eq key (codes "address")
    then ok (address_parts s (split b',' val))
    else if text_eq key (codes "dns")
    then ok (record s { dns_servers = dns_parts s.dns_servers (split b',' val) })
    else if text_eq key (codes "mtu")
    then ok (set_mtu s (parse_usize val))
    else ok s

-- `match key.as_str()` in `[Peer]`.
unfoldable pub peer_key : Decode → Parser → Text → Text → Result ParseError Parser
peer_key decode s key val =
    if text_eq key (codes "publickey")
    then (do
      bytes ← map_err invalid_public_key (decode_key_32 decode val)
      ok (record s { peer_public_key = some bytes }))
    else if text_eq key (codes "presharedkey")
    then (do
      bytes ← map_err invalid_preshared_key (decode_key_32 decode val)
      ok (record s { preshared_key = some bytes }))
    else if text_eq key (codes "allowedips")
    then ok (record s { allowed_ips = allowed_parts s.allowed_ips (split b',' val) })
    else if text_eq key (codes "persistentkeepalive")
    then ok (set_keepalive s (parse_u16 val))
    else ok s

unfoldable pub key_line : CaseTable → Decode → Parser → Text → Text → Result ParseError Parser
key_line u decode s k v =
    let key = to_lowercase u (trim k) in
    let val = trim v in
    if s.in_interface
    then interface_key decode s key val
    else if s.in_peer
    then peer_key decode s key val
    else ok s

unfoldable pub is_comment : Text → Bool
is_comment trimmed =
    starts_with trimmed (codes "#") || starts_with trimmed (codes ";") || is_nil trimmed

unfoldable pub enter_section : Parser → Text → Parser
enter_section s sec = record s {
  in_interface = eq_ignore_ascii_case sec (codes "interface");
  in_peer = eq_ignore_ascii_case sec (codes "peer");
}

-- The body of the loop over the lines.
unfoldable pub parse_line : CaseTable → Decode → Parser → Text → Result ParseError Parser
parse_line u decode s line =
    let trimmed = trim line in
    if is_comment trimmed
    then ok s
    else if is_header trimmed
    then ok (enter_section s (section_name trimmed))
    else elim (split_once b'=' trimmed) [ none ↦ ok s | some (k, v) ↦ key_line u decode s k v ]

unfoldable pub parse_lines : CaseTable → Decode → Parser → List Text → Result ParseError Parser
parse_lines u decode s [] = ok s
parse_lines u decode s (line ∷ rest) = do
  s ← parse_line u decode s line
  parse_lines u decode s rest

-- Cloudflare and Google, where no server is given.
abbrev pub or_default_dns : List IpAddr → List IpAddr
or_default_dns [] = v4 0x01010101 ∷ v4 0x08080808 ∷ []
or_default_dns (ip ∷ ips) = ip ∷ ips

unfoldable pub finish : Parser → Result ParseError WireGuardConfig
finish s = do
  private_key ← ok_or missing_private_key s.private_key
  peer_public_key ← ok_or missing_public_key s.peer_public_key
  client_ipv4 ← ok_or missing_ipv4_address s.client_ipv4
  ok (record {
    private_key = private_key;
    client_ipv4 = client_ipv4;
    client_ipv4_prefix = s.client_ipv4_prefix;
    client_ipv6 = s.client_ipv6;
    dns_servers = or_default_dns s.dns_servers;
    mtu = s.mtu;
    peer_public_key = peer_public_key;
    preshared_key = s.preshared_key;
    persistent_keepalive = s.persistent_keepalive;
    allowed_ips = s.allowed_ips;
  })

unfoldable pub parse : CaseTable → Decode → Text → Result ParseError WireGuardConfig
parse u decode conf = do s ← parse_lines u decode initial (lines conf); finish s

-- ===== src/WgConfig/Samples.antt =====
-- A configuration for the tests of the parser (src/wg_config.rs), and what it is parsed to. The
-- decoder takes a text of 44 characters for a key.
use phobos_wg_client.Base.{
  List, [], ◌∷◌, ◌++◌, some, ◌≡◌, refl, if◌then◌else◌, ◌==◌, length, replicate, codes, bytes_eq,
  take,
}
use phobos_wg_client.Base.Net.{v4, v6}
use phobos_wg_client.Base.Result.{ok}
use phobos_wg_client.Text.{
  Text, CaseTable, trim, is_between, is_whitespace, ascii_lower, trim_by, trim_end_by,
  trim_start_by, split, split_once, to_lowercase, starts_with, ends_with, eq_ignore_ascii_case,
}
use phobos_wg_client.Text.Lines.{lines, lines_from, strip_cr, is_header, section_name}
use phobos_wg_client.Text.Number.{is_digit, digits_value, parse_unsigned}
use phobos_wg_client.Text.Ip.{
  parse_ip, digit_of, read_digits, read_groups, read_ipv4, read_ipv6, read_number,
}
use phobos_wg_client.WgConfig.{
  Decode, WireGuardConfig, parse_lines, is_comment, parse, parse_line, key_line, enter_section,
  interface_key, decode_key_32, address_part, address_parts, allowed_parts, dns_parts, finish,
  peer_key, set_address, set_keepalive, set_mtu,
}

-- No text of the tests has a letter beyond ASCII.
abbrev pub ascii : CaseTable
ascii = record { lower = λ c. c ∷ []; upper = λ c. c ∷ [] }

abbrev pub key_text : Text
key_text = codes "MCKqsOSxkbsMPFY4NwOstrz6LxZCJHVmZHbfpzukK2k="

abbrev pub decode_test : Decode
decode_test t = ok (if length t == 44 then replicate 32 7 else take 3 t)

abbrev pub interface_lines : List Text
interface_lines =
    []
    ∷ codes "[Interface]"
    ∷ (codes "PrivateKey = " ++ key_text)
    ∷ codes "Address = 10.8.0.3/32, fdcc:ad94:bacf:61a4::cafe:3/128"
    ∷ codes "MTU = 1420"
    ∷ codes "DNS = 8.8.8.8, 2001:4860:4860::8888"
    ∷ []

abbrev pub peer_lines : List Text
peer_lines =
    codes "[Peer]"
    ∷ (codes "PublicKey = " ++ key_text)
    ∷ (codes "PresharedKey = " ++ key_text)
    ∷ codes "AllowedIPs = 0.0.0.0/0, ::/0"
    ∷ codes "PersistentKeepalive = 25"
    ∷ codes "Endpoint = 127.0.0.1:13255"
    ∷ []

abbrev pub unlines : List Text → Text
unlines [] = []
unlines (l ∷ ls) = l ++ (codes "\n" ++ unlines ls)

abbrev pub conf : Text
conf = unlines (interface_lines ++ peer_lines)

abbrev pub config : WireGuardConfig
config = record {
  private_key = replicate 32 7;
  client_ipv4 = 0x0a080003;
  client_ipv4_prefix = 32;
  client_ipv6 = some 0xfdccad94bacf61a400000000cafe0003;
  dns_servers = v4 0x08080808 ∷ v6 0x20014860486000000000000000008888 ∷ [];
  mtu = 1280;
  peer_public_key = replicate 32 7;
  preshared_key = some (replicate 32 7);
  persistent_keepalive = some 25;
  allowed_ips = codes "0.0.0.0/0" ∷ codes "::/0" ∷ [];
}

pub parsed : parse ascii decode_test conf ≡ ok config
unfolding parse parse_lines lines parse_line is_comment starts_with trim is_header ends_with
    bytes_eq split_once key_line enter_section eq_ignore_ascii_case section_name interface_key
    to_lowercase decode_key_32 digit_of parse_ip read_digits read_groups read_ipv4 read_ipv6
    read_number lines_from strip_cr digits_value is_digit parse_unsigned ascii_lower is_between
    is_whitespace split trim_by trim_end_by trim_start_by address_part address_parts allowed_parts
    dns_parts finish peer_key set_address set_keepalive set_mtu
parsed = refl

-- ===== src/WgConfig/Tests.antt =====
-- Runs of the parser (src/wg_config.rs), and the theorems at concrete inputs.
use phobos_wg_client.Base.{◌≡◌, refl, codes, bytes_eq}
use phobos_wg_client.Base.Result.{err}
use phobos_wg_client.Text.{
  trim, is_between, is_whitespace, ascii_lower, trim_by, trim_end_by, trim_start_by, split,
  split_once, to_lowercase, starts_with, ends_with, eq_ignore_ascii_case,
}
use phobos_wg_client.Text.Lines.{lines, lines_from, strip_cr, is_header, section_name}
use phobos_wg_client.Text.Number.{is_digit, digits_value, parse_unsigned}
use phobos_wg_client.Text.Ip.{
  parse_ip, digit_of, read_digits, read_groups, read_ipv4, read_ipv6, read_number,
}
use phobos_wg_client.WgConfig.{
  wrong_key_length, missing_public_key, invalid_private_key, parse_lines, is_comment, parse,
  parse_line, key_line, enter_section, interface_key, decode_key_32, address_part, address_parts,
  allowed_parts, dns_parts, finish, peer_key, set_address, set_keepalive, set_mtu,
}
use phobos_wg_client.WgConfig.Fitting.{IsUsable, parse-IsUsable}
use phobos_wg_client.WgConfig.Samples.{
  ascii, decode_test, interface_lines, unlines, conf, config, parsed,
}

parse-IsUsable_example : IsUsable config
parse-IsUsable_example = parse-IsUsable ascii decode_test conf config parsed

missing : parse ascii decode_test (unlines interface_lines) ≡ err missing_public_key
unfolding parse parse_lines lines parse_line is_comment starts_with trim is_header ends_with
    bytes_eq split_once key_line enter_section eq_ignore_ascii_case section_name interface_key
    to_lowercase decode_key_32 digit_of parse_ip read_digits read_groups read_ipv4 read_ipv6
    read_number lines_from strip_cr digits_value is_digit parse_unsigned ascii_lower is_between
    is_whitespace split trim_by trim_end_by trim_start_by address_part address_parts allowed_parts
    dns_parts finish peer_key set_address set_keepalive set_mtu
missing = refl

short_key :
    parse ascii decode_test (codes "[interface]\nprivatekey=abc\n")
    ≡ err (invalid_private_key (wrong_key_length 3))
unfolding parse parse_lines lines parse_line is_comment starts_with trim is_header ends_with
    bytes_eq split_once key_line enter_section eq_ignore_ascii_case section_name interface_key
    to_lowercase decode_key_32 digit_of parse_ip read_digits read_groups read_ipv4 read_ipv6
    read_number lines_from strip_cr digits_value is_digit parse_unsigned ascii_lower is_between
    is_whitespace split trim_by trim_end_by trim_start_by address_part address_parts allowed_parts
    dns_parts finish peer_key set_address set_keepalive set_mtu
short_key = refl

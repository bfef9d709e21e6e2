-- ===== src/Conf/Tests.antt =====
-- Runs of the configuration functions (src/archive.rs), and the theorems at concrete inputs.
use phobos_wg_client.Base.{List, [], ◌∷◌, some, ◌≡◌, refl, codes, bytes_eq}
use phobos_wg_client.Text.{
  Text, CaseTable, is_between, is_whitespace, ascii_lower, trim, trim_by, trim_start_by,
  trim_end_by, to_lowercase, starts_with, ends_with, eq_ignore_ascii_case, replace, replace_behind,
  split_once, join,
}
use phobos_wg_client.Text.Lines.{lines, lines_from, strip_cr, is_header, section_name}
use phobos_wg_client.Text.Number.{show, show_from}
use phobos_wg_client.Conf.{
  get, parse_instance_section, instance_line, instance_lines, is_skipped, is_param, bare_lines,
  is_obfuscator_section, section_flag, split_lines, split_merged_conf, close_section,
  replace_routes, enter_header, rewrite_line, rewrite_lines, outside,
}

abbrev ascii : CaseTable
ascii = record { lower = λ c. c ∷ []; upper = λ c. c ∷ [] }

abbrev wg : List Text
wg =
    codes "[Interface]"
    ∷ codes "Address = 10.8.0.2/32"
    ∷ codes "[Peer]"
    ∷ codes "AllowedIPs = 0.0.0.0/0, ::/0"
    ∷ codes "Endpoint = 1.2.3.4:51820"
    ∷ []

abbrev header : Text
header = codes "[instance]"

abbrev obf : List Text
obf = codes "Target = h:1" ∷ codes "key = a" ∷ codes "key = b=c" ∷ []

rewritten :
    rewrite_lines ascii 13255 outside wg
    ≡ codes "[Interface]"
      ∷ codes "Address = 10.8.0.2/32"
      ∷ codes "MTU = 1280"
      ∷ codes "[Peer]"
      ∷ codes "AllowedIPs = 0.0.0.0/1, 128.0.0.0/1, ::/1, 8000::/1"
      ∷ codes "Endpoint = 127.0.0.1:13255"
      ∷ []
unfolding is_between is_whitespace ascii_lower trim trim_by trim_start_by trim_end_by to_lowercase
    starts_with ends_with eq_ignore_ascii_case replace replace_behind split_once join lines
    lines_from strip_cr is_header section_name show show_from get parse_instance_section
    instance_line instance_lines is_skipped is_param bare_lines is_obfuscator_section section_flag
    split_lines split_merged_conf close_section replace_routes enter_header rewrite_line
    rewrite_lines bytes_eq
rewritten = refl

params :
    (get (codes "target") (parse_instance_section ascii (join (codes "\n") (header ∷ obf)))
      ≡ some (codes "h:1"))
    × (get (codes "key") (parse_instance_section ascii (join (codes "\n") (header ∷ obf)))
        ≡ some (codes "b=c"))
    × (get (codes "key") (parse_instance_section ascii (codes "[socks5]\nkey = x\nother = y"))
        ≡ some (codes "x"))
unfolding is_between is_whitespace ascii_lower trim trim_by trim_start_by trim_end_by to_lowercase
    starts_with ends_with eq_ignore_ascii_case replace replace_behind split_once join lines
    lines_from strip_cr is_header section_name show show_from get parse_instance_section
    instance_line instance_lines is_skipped is_param bare_lines is_obfuscator_section section_flag
    split_lines split_merged_conf close_section replace_routes enter_header rewrite_line
    rewrite_lines bytes_eq
params = (refl, refl, refl)

abbrev two_lines : List Text
two_lines = codes "[Peer]" ∷ codes "a" ∷ []

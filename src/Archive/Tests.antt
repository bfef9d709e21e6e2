-- ===== src/Archive/Tests.antt =====
-- Runs of the loader (src/archive.rs), and the theorems at concrete inputs.
use phobos_wg_client.Base.{true, [], ◌∷◌, ◌++◌, none, some, ◌≡◌, refl, codes, bytes_eq}
use phobos_wg_client.Base.Result.{Result, ok, err}
use phobos_wg_client.Text.{
  Text, CaseTable, is_between, is_whitespace, ascii_lower, ascii_upper, trim, trim_by,
  trim_start_by, trim_end_by, utf8, utf8_char, trim_end_matches, strip_prefix, to_lowercase,
  to_uppercase, starts_with, ends_with, eq_ignore_ascii_case, replace, replace_behind, split_once,
  join,
}
use phobos_wg_client.Text.Lines.{lines, lines_from, strip_cr, is_header, section_name}
use phobos_wg_client.Text.Number.{show, show_from, parse_unsigned, digits_value, is_digit}
use phobos_wg_client.Conf.{
  get, parse_instance_section, instance_line, instance_lines, is_skipped, is_param, bare_lines,
  is_obfuscator_section, section_flag, split_lines, split_merged_conf, close_section,
  replace_routes, enter_header, rewrite_line, rewrite_lines, rewrite_endpoint_to_loopback,
}
use phobos_wg_client.Archive.{
  PhobosProfile, Entry, Found, is_safe_char, is_trimmed_char, sanitize_client_name,
  combine_and_build, load_from_conf_string, name_by_stem, read_entry, read_entries, archive_name,
  load_from_tar_gz,
}
use phobos_wg_client.Archive.File.{
  Source, read_bytes, is_package_name, as_conf, try_formats, load_from_file,
}
use phobos_wg_client.Archive.Building.{load_from_conf_string-join}

abbrev ascii : CaseTable
ascii = record { lower = λ c. c ∷ []; upper = λ c. c ∷ [] }

names :
    (sanitize_client_name (codes "../../etc/passwd") ≡ codes "etc_passwd")
    × (sanitize_client_name (codes "..\\..\\Windows\\System32") ≡ codes "Windows_System32")
    × (sanitize_client_name (codes "..") ≡ codes "phobos")
    × (sanitize_client_name (codes "valid-client.1") ≡ codes "valid-client.1")
    × (sanitize_client_name (codes "   ") ≡ codes "phobos")
unfolding is_between is_whitespace ascii_lower ascii_upper trim trim_by trim_start_by trim_end_by
    utf8 utf8_char trim_end_matches strip_prefix to_lowercase to_uppercase starts_with ends_with
    eq_ignore_ascii_case replace replace_behind split_once join lines lines_from strip_cr is_header
    section_name show show_from parse_unsigned digits_value is_digit get parse_instance_section
    instance_line instance_lines is_skipped is_param bare_lines is_obfuscator_section section_flag
    split_lines split_merged_conf close_section replace_routes enter_header rewrite_line
    rewrite_lines rewrite_endpoint_to_loopback is_safe_char is_trimmed_char sanitize_client_name
    combine_and_build load_from_conf_string name_by_stem read_entry read_entries archive_name
    load_from_tar_gz read_bytes is_package_name as_conf try_formats load_from_file bytes_eq
names = (refl, refl, refl, refl, refl)

abbrev conf : Text
conf = codes "[Peer]\n[instance]\ntarget=h:1\nkey=k\nmasking=none\nsource-lport=70000\n"

abbrev profile : PhobosProfile
profile = record {
  client_name = codes "me";
  target = codes "h:1";
  key = codes "k";
  masking = codes "NONE";
  local_port = 13255;
  max_dummy = 4;
  obfuscate_bytes = 0;
  raw_wg_conf = codes "[Peer]";
  ready_wg_conf_content = codes "[Peer]\r\nEndpoint = 127.0.0.1:13255";
}

abbrev source : Source
source = record {
  exists = true;
  opened = ok (ok conf);
  path = record { file_name = some (codes "me.conf"); file_stem = some (codes "me") };
  dpapi_unprotect = λ b. ok b;
  from_utf8 = λ b. ok b;
  unpack = λ b. err (codes "no gzip");
}

abbrev entry_of : Text → Text → Text → Result Text Entry
entry_of name stem content = ok (record {
  path = ok (record { file_name = some name; file_stem = some stem });
  read = λ n. ok content;
})

packed :
    load_from_tar_gz ascii
      (ok (
        entry_of (codes "me.conf") (codes "me") (codes "[Peer]")
        ∷ entry_of
            (codes "wg-obfuscator.conf")
            (codes "wg-obfuscator")
            (codes "target=h:1\nkey=k\nmasking=none")
        ∷ []))
      (record {
        file_name = some (codes "phobos-x.tar.gz");
        file_stem = some (codes "phobos-x.tar");
      })
    ≡ ok profile
unfolding is_between is_whitespace ascii_lower ascii_upper trim trim_by trim_start_by trim_end_by
    utf8 utf8_char trim_end_matches strip_prefix to_lowercase to_uppercase starts_with ends_with
    eq_ignore_ascii_case replace replace_behind split_once join lines lines_from strip_cr is_header
    section_name show show_from parse_unsigned digits_value is_digit get parse_instance_section
    instance_line instance_lines is_skipped is_param bare_lines is_obfuscator_section section_flag
    split_lines split_merged_conf close_section replace_routes enter_header rewrite_line
    rewrite_lines rewrite_endpoint_to_loopback is_safe_char is_trimmed_char sanitize_client_name
    combine_and_build load_from_conf_string name_by_stem read_entry read_entries archive_name
    load_from_tar_gz read_bytes is_package_name as_conf try_formats load_from_file bytes_eq
packed = refl

archive_name_run :
    archive_name (record {
      file_name = some (codes "phobos-x.tar.gz");
      file_stem = some (codes "phobos-x.tar");
    })
    ≡ codes "x"
unfolding is_between is_whitespace ascii_lower ascii_upper trim trim_by trim_start_by trim_end_by
    utf8 utf8_char trim_end_matches strip_prefix to_lowercase to_uppercase starts_with ends_with
    eq_ignore_ascii_case replace replace_behind split_once join lines lines_from strip_cr is_header
    section_name show show_from parse_unsigned digits_value is_digit get parse_instance_section
    instance_line instance_lines is_skipped is_param bare_lines is_obfuscator_section section_flag
    split_lines split_merged_conf close_section replace_routes enter_header rewrite_line
    rewrite_lines rewrite_endpoint_to_loopback is_safe_char is_trimmed_char sanitize_client_name
    combine_and_build load_from_conf_string name_by_stem read_entry read_entries archive_name
    load_from_tar_gz read_bytes is_package_name as_conf try_formats load_from_file bytes_eq
archive_name_run = refl

abbrev none_found : Found
none_found = record { wg_conf_content = none; obf_conf_content = none; client_name = [] }

abbrev header : Text
header = codes "[instance]"

load_from_conf_string-join_example :
    load_from_conf_string ascii
      (join (codes "\n") ((codes "[Peer]" ∷ []) ++ header ∷ codes "k=v" ∷ []))
      (codes "me")
    ≡ combine_and_build ascii
        (join (codes "\n") (codes "[Peer]" ∷ []))
        (join (codes "\n") (header ∷ codes "k=v" ∷ []))
        (codes "me")
unfolding is_between is_whitespace ascii_lower ascii_upper trim trim_by trim_start_by trim_end_by
    utf8 utf8_char trim_end_matches strip_prefix to_lowercase to_uppercase starts_with ends_with
    eq_ignore_ascii_case replace replace_behind split_once join lines lines_from strip_cr is_header
    section_name show show_from parse_unsigned digits_value is_digit get parse_instance_section
    instance_line instance_lines is_skipped is_param bare_lines is_obfuscator_section section_flag
    split_lines split_merged_conf close_section replace_routes enter_header rewrite_line
    rewrite_lines rewrite_endpoint_to_loopback is_safe_char is_trimmed_char sanitize_client_name
    combine_and_build load_from_conf_string name_by_stem read_entry read_entries archive_name
    load_from_tar_gz read_bytes is_package_name as_conf try_formats load_from_file bytes_eq
load_from_conf_string-join_example =
    load_from_conf_string-join ascii (codes "[Peer]" ∷ []) header (codes "k=v" ∷ []) (codes "me")
      (refl, tt) refl (refl, tt)
      (
        ((refl, (refl, (refl, (refl, (refl, (refl, tt)))))), refl),
        (
          (
            (refl, (refl, (refl, (refl, (refl, (refl, (refl, (refl, (refl, (refl, tt)))))))))),
            refl,
          ),
          (((refl, (refl, (refl, tt))), refl), tt),
        ),
      )
      refl

-- ===== src/Store/Tests.antt =====
-- Runs of the store (src/profile_store.rs), and the theorems at concrete inputs.
use phobos_wg_client.Base.{
  if◌then◌else◌, ◌+◌, ◌≤◌, Bool-cases, inl, inr, subst, bytes_eq_sound, arith, map, true, false, [],
  ◌∷◌, ◌++◌, some, none, ◌≡◌, refl, codes, bytes_eq, drop,
}
use phobos_wg_client.Base.Result.{ok, err}
use phobos_wg_client.Text.{
  text_eq, Text, CaseTable, is_between, is_whitespace, ascii_lower, ascii_upper, trim, trim_by,
  trim_start_by, trim_end_by, utf8, utf8_char, trim_end_matches, strip_prefix, to_lowercase,
  to_uppercase, starts_with, ends_with, eq_ignore_ascii_case, replace, replace_behind, split_once,
  join,
}
use phobos_wg_client.Text.Lines.{lines, lines_from, strip_cr, is_header, section_name}
use phobos_wg_client.Text.Number.{show, show_from, parse_unsigned, digits_value, is_digit}
use phobos_wg_client.Conf.{
  get, parse_instance_section, instance_line, instance_lines, is_skipped, is_param, bare_lines,
  is_obfuscator_section, section_flag, split_lines, split_merged_conf, close_section,
  replace_routes, enter_header, rewrite_line, rewrite_lines, rewrite_endpoint_to_loopback,
}
use phobos_wg_client.Archive.{
  PhobosProfile, FilePath, is_safe_char, is_trimmed_char, sanitize_client_name, combine_and_build,
  load_from_conf_string, name_by_stem, read_entry, read_entries, archive_name, load_from_tar_gz,
}
use phobos_wg_client.Archive.File.{
  Source, read_bytes, is_package_name, as_conf, try_formats, load_from_file,
}
use phobos_wg_client.Store.{
  Import, DirEntry, is_supported_profile_path, is_match, delete_entries, delete_profile,
  insert_sorted, load_all_profiles,
}
use mathlib.Mathlib.Data.Multiset.Defs.{of_list}
use phobos_wg_client.Store.Unordered.{holders, exchanged, load_all_profiles-unordered}
use phobos_wg_client.Store.Listing.{sort_key, IsListing, load_all_profiles-IsListing}
use phobos_wg_client.Store.Directory.{directory_names, load_all_profiles-directory}
use phobos_wg_client.Store.Deleted.{Without, Tells, delete_profile-Without}
use phobos_wg_client.Store.Naming.{IsNamed}

abbrev ascii : CaseTable
ascii = record { lower = λ c. c ∷ []; upper = λ c. c ∷ [] }

abbrev conf : Text
conf = codes "[Peer]\n[instance]\ntarget=h:1\nkey=k\nmasking=none\nsource-lport=70000\n"

abbrev profile : PhobosProfile
profile = record {
  client_name = codes "me";
  target = codes "h:1";
  key = codes "k";
  masking = codes "NONE";
  local_port = 13255;
  max_dummy = 4;
  obfuscate_bytes = 0;
  raw_wg_conf = codes "[Peer]";
  ready_wg_conf_content = codes "[Peer]\r\nEndpoint = 127.0.0.1:13255";
}

abbrev source : Source
source = record {
  exists = true;
  opened = ok (ok conf);
  path = record { file_name = some (codes "me.conf"); file_stem = some (codes "me") };
  dpapi_unprotect = λ b. ok b;
  from_utf8 = λ b. ok b;
  unpack = λ b. err (codes "no gzip");
}

abbrev import_test : Import
import_test = record {
  source = source;
  is_file = true;
  read_again = ok conf;
  dpapi_protect = λ b. ok (codes "x" ++ b);
  appdata = some (codes "Roaming");
  write = λ dir name payload. ok tt;
  acl = ok tt;
}

-- The repository's own cases of file names.
abbrev named : Text → FilePath
named n = record { file_name = some n; file_stem = none }

supported :
    map
      (λ n. is_supported_profile_path ascii (named n))
      (codes "client.conf"
        ∷ codes "package.tar.gz"
        ∷ codes "package.tgz"
        ∷ codes "profile.enc"
        ∷ codes "malicious.exe"
        ∷ codes "document.pdf"
        ∷ codes "script.bat"
        ∷ [])
    ≡ true ∷ true ∷ true ∷ true ∷ false ∷ false ∷ false ∷ []
unfolding is_supported_profile_path ends_with starts_with to_lowercase is_between ascii_lower
    bytes_eq
supported = refl

-- The same file where DPAPI decrypts what it encrypts.
abbrev import_back : Import
import_back = record import_test { source = record source { dpapi_unprotect = λ b. ok (drop 1 b) } }

abbrev entry : DirEntry
entry = record { source = source; is_file = true; extension = some (codes "CONF"); removed = ok tt }

all_profiles : load_all_profiles ascii (entry ∷ []) ≡ profile ∷ []
unfolding is_between is_whitespace ascii_lower ascii_upper trim trim_by trim_start_by trim_end_by
    utf8 utf8_char trim_end_matches strip_prefix to_lowercase to_uppercase starts_with ends_with
    eq_ignore_ascii_case replace replace_behind split_once join lines lines_from strip_cr is_header
    section_name show show_from parse_unsigned digits_value is_digit get parse_instance_section
    instance_line instance_lines is_skipped is_param bare_lines is_obfuscator_section section_flag
    split_lines split_merged_conf close_section replace_routes enter_header rewrite_line
    rewrite_lines rewrite_endpoint_to_loopback is_safe_char is_trimmed_char sanitize_client_name
    combine_and_build load_from_conf_string name_by_stem read_entry read_entries archive_name
    load_from_tar_gz read_bytes is_package_name as_conf try_formats load_from_file bytes_eq
    load_all_profiles insert_sorted
all_profiles = refl

deleted : delete_profile ascii (codes "ME") (entry ∷ []) ≡ (ok tt, [])
unfolding is_between is_whitespace ascii_lower ascii_upper trim trim_by trim_start_by trim_end_by
    utf8 utf8_char trim_end_matches strip_prefix to_lowercase to_uppercase starts_with ends_with
    eq_ignore_ascii_case replace replace_behind split_once join lines lines_from strip_cr is_header
    section_name show show_from parse_unsigned digits_value is_digit get parse_instance_section
    instance_line instance_lines is_skipped is_param bare_lines is_obfuscator_section section_flag
    split_lines split_merged_conf close_section replace_routes enter_header rewrite_line
    rewrite_lines rewrite_endpoint_to_loopback is_safe_char is_trimmed_char sanitize_client_name
    combine_and_build load_from_conf_string name_by_stem read_entry read_entries archive_name
    load_from_tar_gz read_bytes is_package_name as_conf try_formats load_from_file bytes_eq
    delete_profile delete_entries is_match
deleted = refl

abbrev other : DirEntry
other = record entry { source = record source { opened = err (codes "denied") } }

delete_profile-Without_example :
    Without
      (IsNamed ascii (codes "me"))
      (other ∷ entry ∷ [])
      (delete_profile ascii (codes "me") (other ∷ entry ∷ [])).1
    × Tells ascii
        (codes "me")
        (other ∷ entry ∷ [])
        (delete_profile ascii (codes "me") (other ∷ entry ∷ [])).0
delete_profile-Without_example =
    delete_profile-Without ascii (codes "me") (other ∷ entry ∷ []) (refl, (refl, tt))

load_all_profiles-IsListing_example :
    IsListing ascii (other ∷ entry ∷ []) (load_all_profiles ascii (other ∷ entry ∷ []))
load_all_profiles-IsListing_example = load_all_profiles-IsListing ascii (other ∷ entry ∷ [])

load_all_profiles-directory_example :
    map (sort_key ascii) (load_all_profiles ascii (other ∷ entry ∷ []))
    ≡ directory_names ascii (of_list (other ∷ entry ∷ []))
load_all_profiles-directory_example = load_all_profiles-directory ascii (other ∷ entry ∷ [])

-- A second profile, of another name.
abbrev second : DirEntry
second = record entry {
  source = record source {
    path = record { file_name = some (codes "Bob.conf"); file_stem = some (codes "Bob") };
  };
}

one_each :
    (k : Text)
    → (if text_eq (codes "bob") k then 1 else 0) + ((if text_eq (codes "me") k then 1 else 0) + 0)
      ≤ 1
unfolding bytes_eq
one_each k = elim (Bool-cases (text_eq (codes "bob") k)) [
  | inl e ↦
      subst
        (λ k.
          (if text_eq (codes "bob") k then 1 else 0)
            + ((if text_eq (codes "me") k then 1 else 0) + 0)
          ≤ 1)
        (bytes_eq_sound (codes "bob") k e) (omega arith)
  | inr e ↦ elim (Bool-cases (text_eq (codes "me") k)) [
    | inl f ↦ rw (e, f) (omega arith)
    | inr f ↦ rw (e, f) (omega arith)
  ]
]

apart : (k : Text) → holders ascii k (second ∷ entry ∷ []) ≤ 1
unfolding is_between is_whitespace ascii_lower ascii_upper trim trim_by trim_start_by trim_end_by
    utf8 utf8_char trim_end_matches strip_prefix to_lowercase to_uppercase starts_with ends_with
    eq_ignore_ascii_case replace replace_behind split_once join lines lines_from strip_cr is_header
    section_name show show_from parse_unsigned digits_value is_digit get parse_instance_section
    instance_line instance_lines is_skipped is_param bare_lines is_obfuscator_section section_flag
    split_lines split_merged_conf close_section replace_routes enter_header rewrite_line
    rewrite_lines rewrite_endpoint_to_loopback is_safe_char is_trimmed_char sanitize_client_name
    combine_and_build load_from_conf_string name_by_stem read_entry read_entries archive_name
    load_from_tar_gz read_bytes is_package_name as_conf try_formats load_from_file bytes_eq
apart k = one_each k

load_all_profiles-unordered_example :
    load_all_profiles ascii (second ∷ entry ∷ []) ≡ load_all_profiles ascii (entry ∷ second ∷ [])
load_all_profiles-unordered_example =
    load_all_profiles-unordered ascii (exchanged second entry []) apart

-- ===== src/Archive.antt =====
-- Phobos profiles and their packages (src/archive.rs). Files, gzip and tar are read by
-- dependencies: what they give, or their message, is data that the definitions take.
pub mod Names
pub mod Entries
pub mod Building
pub mod File
pub mod Export
mod Tests
use phobos_wg_client.Base.{
  ℕ, ◌+◌, Bool, true, false, not, ◌&&◌, ◌||◌, List, [], ◌∷◌, ◌++◌, map, Option, none, some,
  if◌then◌else◌, ltb, ◌==◌, from_option, Bytes, codes, length, drop,
}
use phobos_wg_client.Base.Result.{Result, ok, err, ◌>>=◌, ok_or, map_err}
use phobos_wg_client.Conf.{
  Params, get, parse_instance_section, split_merged_conf, rewrite_endpoint_to_loopback,
}
use phobos_wg_client.Obfuscator.{default_max_dummy}
use phobos_wg_client.Text.{
  Text, CaseTable, is_nil, text_eq, is_between, trim_by, to_lowercase, to_uppercase, ends_with,
  starts_with, strip_prefix, trim_end_matches, utf8,
}
use phobos_wg_client.Text.Number.{parse_u16, parse_usize}
use phobos_wg_client.WgConfig.{Decode, ParseError, WireGuardConfig, parse}

-- `ready_wg_conf_path` is set where the file is written, which is not modelled.
pub record PhobosProfile : Type 0 where
  pub client_name : Text
  pub target : Text
  pub key : Bytes
  pub masking : Text
  pub local_port : ℕ
  pub max_dummy : ℕ
  pub obfuscate_bytes : ℕ
  pub raw_wg_conf : Text
  pub ready_wg_conf_content : Text

abbrev pub max_conf_entry_size : ℕ
max_conf_entry_size = 1048576

abbrev pub max_tar_entries : ℕ
max_tar_entries = 256

unfoldable pub is_safe_char : ℕ → Bool
unfolding is_between
is_safe_char c =
    is_between b'0' b'9' c
    || is_between b'A' b'Z' c
    || is_between b'a' b'z' c
    || c == b'-'
    || c == b'_'
    || c == b'.'

abbrev pub safe_char : ℕ → ℕ
safe_char c = if is_safe_char c then c else b'_'

unfoldable pub is_trimmed_char : ℕ → Bool
is_trimmed_char c = c == b'.' || c == b' ' || c == b'_'

unfoldable pub sanitize_client_name : Text → Text
sanitize_client_name raw =
    let clean = trim_by is_trimmed_char (map safe_char raw) in
    if is_nil clean || text_eq clean (codes "..") then codes "phobos" else clean

pub data LoadError : Type 0 where
  file_not_found : LoadError
  open_failed : Text → LoadError
  read_failed : Text → LoadError
  unprotect_failed : Text → LoadError
  invalid_utf8 : Text → LoadError
  entries_failed : Text → LoadError
  too_many_entries : LoadError
  corrupted_entry : Text → LoadError
  invalid_tar_path : Text → LoadError
  entry_read_failed : Text → Text → LoadError
  obf_conf_not_found : LoadError
  wg_conf_not_found : LoadError
  missing_target : LoadError
  missing_key : LoadError

-- A parameter that is parsed, where it is missing or does not parse a default.
abbrev pub parsed_or : (Text → Option ℕ) → Option Text → ℕ → ℕ
parsed_or parse none d = d
parsed_or parse (some t) d = from_option (parse t) d

abbrev pub upper_or_stun : CaseTable → Option Text → Text
upper_or_stun u none = codes "STUN"
upper_or_stun u (some t) = to_uppercase u t

unfoldable pub combine_and_build : CaseTable → Text → Text → Text → Result LoadError PhobosProfile
combine_and_build u wg_conf_raw obf_conf_raw client_name =
    let obf_params = parse_instance_section u obf_conf_raw in
    let local_port = parsed_or parse_u16 (get (codes "source-lport") obf_params) 13255 in
    (do
      target ← ok_or missing_target (get (codes "target") obf_params)
      key_str ← ok_or missing_key (get (codes "key") obf_params)
      ok (record {
        client_name = sanitize_client_name client_name;
        target = target;
        key = utf8 key_str;
        masking = upper_or_stun u (get (codes "masking") obf_params);
        local_port = local_port;
        max_dummy = parsed_or parse_usize (get (codes "max-dummy") obf_params) default_max_dummy;
        obfuscate_bytes = parsed_or parse_usize (get (codes "obfuscate-bytes") obf_params) 0;
        raw_wg_conf = wg_conf_raw;
        ready_wg_conf_content = rewrite_endpoint_to_loopback u wg_conf_raw local_port;
      }))

unfoldable pub load_from_conf_string : CaseTable → Text → Text → Result LoadError PhobosProfile
load_from_conf_string u content client_name =
    let (wg_conf, obf_conf) = split_merged_conf content in
    combine_and_build u wg_conf obf_conf client_name

-- What `Path::file_name` and `Path::file_stem` give as text, if they give text.
pub record FilePath : Type 0 where
  pub file_name : Option Text
  pub file_stem : Option Text

-- An entry of the archive; `read n` reads at most `n` bytes of it to a text.
pub record Entry : Type 0 where
  pub path : Result Text FilePath
  pub read : ℕ → Result Text Text

-- The variables of the loop over the entries.
pub record Found : Type 0 where
  pub wg_conf_content : Option Text
  pub obf_conf_content : Option Text
  pub client_name : Text

unfoldable pub name_by_stem : Text → Text → Text
name_by_stem stem client_name =
    if not (is_nil stem) && not (text_eq stem (codes "wg-obfuscator")) then stem else client_name

-- The body of the loop for an entry that is not corrupted.
unfoldable pub read_entry : CaseTable → Found → Entry → Result LoadError Found
read_entry u f entry = do
  path ← map_err invalid_tar_path entry.path
  let fname = to_lowercase u (from_option path.file_name [])
  (if text_eq fname (codes "wg-obfuscator.conf")
      then (do
        s ← map_err (entry_read_failed fname) (entry.read max_conf_entry_size)
        ok (record f { obf_conf_content = some s }))
      else if ends_with fname (codes ".conf")
      then (do
        s ← map_err (entry_read_failed fname) (entry.read max_conf_entry_size)
        ok (record f {
          wg_conf_content = some s;
          client_name = name_by_stem (from_option path.file_stem []) f.client_name;
        }))
      else ok f)

-- The loop behind `entry_count` entries.
unfoldable pub read_entries :
    CaseTable → ℕ → Found → List (Result Text Entry) → Result LoadError Found
read_entries u entry_count f [] = ok f
read_entries u entry_count f (entry ∷ rest) =
    if ltb max_tar_entries (entry_count + 1) then err too_many_entries else (do
      e ← map_err corrupted_entry entry
      f ← read_entry u f e
      read_entries u (entry_count + 1) f rest)

-- The name of the package, without `.tar` and one `phobos-`.
unfoldable pub archive_name : FilePath → Text
archive_name original_path =
    let stem =
      trim_end_matches (codes ".tar") (from_option original_path.file_stem (codes "phobos")) in
    from_option (strip_prefix stem (codes "phobos-")) stem

unfoldable pub load_from_tar_gz :
    CaseTable → Result Text (List (Result Text Entry)) → FilePath → Result LoadError PhobosProfile
load_from_tar_gz u archive original_path = do
  entries ← map_err entries_failed archive
  f ←
      read_entries u 0
        (record {
          wg_conf_content = none;
          obf_conf_content = none;
          client_name = archive_name original_path;
        })
        entries
  obf_conf ← ok_or obf_conf_not_found f.obf_conf_content
  wg_conf ← ok_or wg_conf_not_found f.wg_conf_content
  combine_and_build u wg_conf obf_conf f.client_name

unfoldable pub parse_wg_config :
    CaseTable → Decode → PhobosProfile → Result ParseError WireGuardConfig
parse_wg_config u decode p = parse u decode p.raw_wg_conf

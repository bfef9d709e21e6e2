-- ===== src/Conf.antt =====
-- The functions of src/archive.rs on configuration text: the `[instance]` section, the split of a
-- merged file, and the configuration whose endpoint is the local relay.
pub mod Splitting
pub mod KeyLines
pub mod Reading
pub mod Closing
pub mod Loopback
mod Tests
use phobos_wg_client.Base.{
  ℕ, Bool, true, false, not, ◌&&◌, ◌||◌, List, [], ◌∷◌, ◌++◌, Option, none, some, if◌then◌else◌,
  codes,
}
use phobos_wg_client.Text.{
  Text, CaseTable, is_nil, text_eq, trim, starts_with, split_once, join, to_lowercase,
  eq_ignore_ascii_case, replace,
}
use phobos_wg_client.Text.Lines.{lines, is_header, section_name}
use phobos_wg_client.Text.Number.{show}

-- The `HashMap`: the entry that was inserted last comes first.
abbrev pub Params : Type 0
Params = List (Text × Text)

unfoldable pub get : Text → Params → Option Text
get k [] = none
get k ((l, v) ∷ m) = if text_eq l k then some v else get k m

abbrev pub insert : Text → Text → Params → Params
insert k v m = (k, v) ∷ m

-- The variables of the loop over the lines of an `[instance]` section.
pub record Instance : Type 0 where
  pub params : Params
  pub in_instance : Bool

unfoldable pub is_skipped : Text → Bool
is_skipped trimmed =
    starts_with trimmed (codes "#") || starts_with trimmed (codes ";") || is_nil trimmed

abbrev insert_split : CaseTable → Params → Option (Text × Text) → Params
insert_split u m none = m
insert_split u m (some (k, v)) = insert (to_lowercase u (trim k)) (trim v) m

unfoldable pub instance_line : CaseTable → Instance → Text → Instance
instance_line u s line =
    let trimmed = trim line in
    if is_skipped trimmed
    then s
    else if is_header trimmed
    then record s { in_instance = eq_ignore_ascii_case (section_name trimmed) (codes "instance") }
    else if s.in_instance
    then record s { params = insert_split u s.params (split_once b'=' trimmed) }
    else s

unfoldable pub instance_lines : CaseTable → Instance → List Text → Instance
instance_lines u s [] = s
instance_lines u s (line ∷ rest) = instance_lines u (instance_line u s line) rest

unfoldable pub is_param : Text → Bool
is_param k =
    text_eq k (codes "target")
    || text_eq k (codes "key")
    || text_eq k (codes "masking")
    || text_eq k (codes "source-lport")
    || text_eq k (codes "max-dummy")
    || text_eq k (codes "obfuscate-bytes")

abbrev insert_param : CaseTable → Params → Option (Text × Text) → Params
insert_param u m none = m
insert_param u m (some (k, v)) =
    let key = to_lowercase u (trim k) in if is_param key then insert key (trim v) m else m

-- The second loop, without a section.
unfoldable pub bare_lines : CaseTable → Params → List Text → Params
bare_lines u m [] = m
bare_lines u m (line ∷ rest) = bare_lines u (insert_param u m (split_once b'=' (trim line))) rest

unfoldable pub parse_instance_section : CaseTable → Text → Params
parse_instance_section u conf =
    let found = instance_lines u (record { params = []; in_instance = false }) (lines conf) in
    if is_nil found.params then bare_lines u [] (lines conf) else found.params

unfoldable pub is_obfuscator_section : Text → Bool
is_obfuscator_section sec =
    eq_ignore_ascii_case sec (codes "instance") || eq_ignore_ascii_case sec (codes "socks5")

-- The flag `in_instance` of `split_merged_conf` at a line.
unfoldable pub section_flag : Bool → Text → Bool
section_flag in_instance line =
    let trimmed = trim line in
    if is_header trimmed then is_obfuscator_section (section_name trimmed) else in_instance

-- `wg_lines` and `obf_lines`.
pub record Parts : Type 0 where
  pub wg_lines : List Text
  pub obf_lines : List Text

abbrev pub push_wg : Text → Parts → Parts
push_wg line parts = record parts { wg_lines = line ∷ parts.wg_lines }

abbrev pub push_obf : Text → Parts → Parts
push_obf line parts = record parts { obf_lines = line ∷ parts.obf_lines }

unfoldable pub split_lines : Bool → List Text → Parts
split_lines in_instance [] = record { wg_lines = []; obf_lines = [] }
split_lines in_instance (line ∷ rest) =
    let flag = section_flag in_instance line in
    let parts = split_lines flag rest in if flag then push_obf line parts else push_wg line parts

unfoldable pub split_merged_conf : Text → Text × Text
split_merged_conf conf =
    let parts = split_lines false (lines conf) in
    (join (codes "\n") parts.wg_lines, join (codes "\n") parts.obf_lines)

abbrev pub mtu_line : Text
mtu_line = codes "MTU = 1280"

abbrev pub endpoint_line : ℕ → Text
endpoint_line local_port = codes "Endpoint = 127.0.0.1:" ++ show local_port

-- The variables of `rewrite_endpoint_to_loopback`, but for `out`.
pub record Rewriter : Type 0 where
  pub endpoint_seen : Bool
  pub mtu_seen : Bool
  pub in_interface : Bool
  pub in_peer : Bool

-- What is pushed at the end of a section that lacks it.
unfoldable pub close_section : Rewriter → ℕ → List Text
close_section s local_port =
    (if s.in_interface && not s.mtu_seen then mtu_line ∷ [] else [])
    ++ (if s.in_peer && not s.endpoint_seen then endpoint_line local_port ∷ [] else [])

unfoldable pub replace_routes : Text → Text
replace_routes line =
    replace (codes "::/0") (codes "::/1, 8000::/1")
      (replace (codes "0.0.0.0/0") (codes "0.0.0.0/1, 128.0.0.0/1") line)

unfoldable pub enter_header : Text → Rewriter
enter_header sec = record {
  endpoint_seen = false;
  mtu_seen = false;
  in_interface = eq_ignore_ascii_case sec (codes "interface");
  in_peer = eq_ignore_ascii_case sec (codes "peer");
}

-- The body of the loop: the new variables, and the lines that it pushes.
unfoldable pub rewrite_line : CaseTable → ℕ → Rewriter → Text → Rewriter × List Text
rewrite_line u local_port s line =
    let trimmed = trim line in
    let lowered = to_lowercase u trimmed in
    if is_header trimmed
    then (enter_header (section_name trimmed), close_section s local_port ++ line ∷ [])
    else if s.in_interface && starts_with lowered (codes "mtu")
    then (record s { mtu_seen = true }, mtu_line ∷ [])
    else if s.in_peer && starts_with lowered (codes "endpoint")
    then (record s { endpoint_seen = true }, endpoint_line local_port ∷ [])
    else if s.in_peer && starts_with lowered (codes "allowedips")
    then (s, replace_routes line ∷ [])
    else (s, line ∷ [])

unfoldable pub rewrite_lines : CaseTable → ℕ → Rewriter → List Text → List Text
rewrite_lines u local_port s [] = close_section s local_port
rewrite_lines u local_port s (line ∷ rest) =
    let (s, out) = rewrite_line u local_port s line in out ++ rewrite_lines u local_port s rest

abbrev pub outside : Rewriter
outside = record { endpoint_seen = false; mtu_seen = false; in_interface = false; in_peer = false }

unfoldable pub rewrite_endpoint_to_loopback : CaseTable → Text → ℕ → Text
rewrite_endpoint_to_loopback u conf local_port =
    join (codes "\r\n") (rewrite_lines u local_port outside (lines conf))

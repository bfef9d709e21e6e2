-- ===== src/Archive/Building.antt =====
-- What holds of every profile that is loaded (src/archive.rs), from whatever file.
use phobos_wg_client.Base.{ℕ, true, false, List, ◌∷◌, ◌++◌, ◌≡◌, ap, All, codes}
use phobos_wg_client.Base.Result.{Result}
use phobos_wg_client.Conf.{get, section_flag, Params, outside}
use phobos_wg_client.Conf.Reading.{IsLoopback}
use phobos_wg_client.Conf.Splitting.{IsWgLine, IsObfLine, split_merged_conf-join}
use phobos_wg_client.Text.{Text, CaseTable, join}
use phobos_wg_client.Text.Lines.{IsLine, EndsNonempty}
use phobos_wg_client.Text.Number.{parse_u16}
use phobos_wg_client.Archive.{PhobosProfile, parsed_or, combine_and_build, load_from_conf_string}
use phobos_wg_client.Archive.Names.{IsSafeName}

-- A safe name, and a ready configuration of lines that lead to the relay at the profile's own port.
abbrev pub IsLoaded : CaseTable → PhobosProfile → Type 0
IsLoaded u p =
    IsSafeName p.client_name
    × ((ls : List Text) × (p.ready_wg_conf_content ≡ join (codes "\r\n") ls)
        × IsLoopback u p.local_port outside ls)

abbrev port_of : Params → ℕ
port_of params = parsed_or parse_u16 (get (codes "source-lport") params) 13255

-- The lines of a WireGuard configuration merged with those of an obfuscator section are loaded
-- like the two configurations apart; no line may hold a line break, the last one may not be empty.
pub load_from_conf_string-join :
    (u : CaseTable) (wg : List Text) (header : Text) (obf : List Text) (name : Text)
    → All IsWgLine wg
    → section_flag false header ≡ true
    → All IsObfLine obf
    → All IsLine (wg ++ header ∷ obf)
    → EndsNonempty (wg ++ header ∷ obf)
    → load_from_conf_string u (join (codes "\n") (wg ++ header ∷ obf)) name
      ≡ combine_and_build u (join (codes "\n") wg) (join (codes "\n") (header ∷ obf)) name
unfolding load_from_conf_string
load_from_conf_string-join u wg header obf name h s k ls e =
    ap (λ p. combine_and_build u p.0 p.1 name) (split_merged_conf-join wg header obf h s k ls e)

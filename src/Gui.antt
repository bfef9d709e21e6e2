-- ===== src/Gui.antt =====
-- The window (src/gui.rs): what it keeps, and what it shows of the service and of the selected
-- profile. The controls are the fields of a record; the captions with rates and with errors are
-- data. Keys are printed by dependencies, which are arguments.
pub mod Messages
pub mod Controls
pub mod Clipboard
pub mod Run
pub mod Widgets
pub mod Tabs
pub mod Selection
pub mod Shown
pub mod Toggle
pub mod Journal
mod Tests
use phobos_wg_client.Base.{
  ℕ, zero, suc, ◌+◌, ◌-◌, ◌*◌, Bool, true, false, not, ◌&&◌, ◌||◌, List, [], ◌∷◌, ◌++◌, map, Option,
  none, some, if◌then◌else◌, ltb, leb, ◌==◌, length, get_elem?, Bytes, codes,
}
use phobos_wg_client.Base.Result.{Result, ok, err}
use phobos_wg_client.Archive.{PhobosProfile, parse_wg_config}
use phobos_wg_client.Text.{Text, CaseTable, text_eq, join}
use phobos_wg_client.Text.Show.{show_ip, show_ipv4, show_ipv6}
use phobos_wg_client.Text.Number.{show}
use phobos_wg_client.WgConfig.{Decode, WireGuardConfig}
use phobos_wg_client.Service.{
  SetupError, TunnelStatus, disconnected, connecting, connected, error, TunnelStats, Entry,
  TunnelService,
}

pub data Caption : Type 0 where
  label : Text → Caption
  message : SetupError → Caption
  traffic : TunnelStats → Caption

-- The controls that `update_details` writes.
pub record Details : Type 0 where
  pub interface : Caption
  pub status : Caption
  pub pubkey : Caption
  pub mtu : Caption
  pub ips : Caption
  pub dns : Caption
  pub toggle : Caption
  pub peer_pubkey : Caption
  pub psk : Caption
  pub allowed_ips : Caption
  pub endpoint : Caption
  pub traffic_row : Caption
  pub handshake : Caption

-- The public key of a private one, and base64.
pub record KeyPrinter : Type 0 where
  pub public_key : Bytes → Bytes
  pub base64 : Bytes → Text

pub record AppState : Type 0 where
  pub profiles : List PhobosProfile
  pub selected_index : Option ℕ
  pub current_tab : ℕ
  pub last_log_count : ℕ
  pub current_pubkey_copy : Text
  pub items : List Text
  pub cursor : Option ℕ
  pub details : Details
  pub log_text : List Entry
  pub tunnels_shown : Bool
  pub logs_shown : Bool

abbrev pub nothing : Caption
nothing = label (codes "---")

abbrev pub off_text : Caption
off_text = label (codes "○ Отключен")

abbrev pub connect_text : Caption
connect_text = label (codes "Подключить")

abbrev pub disconnect_text : Caption
disconnect_text = label (codes "Отключить")

unfoldable pub reload_profiles : List PhobosProfile → AppState → AppState
reload_profiles loaded s = record s {
  profiles = loaded;
  selected_index = elim loaded [
    | [] ↦ none
    | p ∷ rest ↦ elim s.selected_index [
      | none ↦ some 0
      | some sel ↦ if leb (length (p ∷ rest)) sel then some (length (p ∷ rest) - 1) else some sel
    ]
  ];
}

abbrev pub client_names : List PhobosProfile → List Text
client_names profiles = map (λ p. p.client_name) profiles

unfoldable pub update_listbox : AppState → AppState
update_listbox s = record s { items = client_names s.profiles; cursor = s.selected_index }

-- `as_deref() == Some(name)`
abbrev pub is_name : Option Text → Text → Bool
is_name none name = false
is_name (some active) name = text_eq active name

abbrev pub is_disconnected : TunnelStatus → Bool
is_disconnected disconnected = true
is_disconnected connecting = false
is_disconnected connected = false
is_disconnected (error e) = false

abbrev pub is_connected : TunnelStatus → Bool
is_connected connected = true
is_connected disconnected = false
is_connected connecting = false
is_connected (error e) = false

abbrev pub status_text : TunnelStatus → Caption
status_text connected = label (codes "● Подключен")
status_text connecting = label (codes "◌ Подключение...")
status_text (error e) = message e
status_text disconnected = off_text

abbrev pub is_some {ℓ} : {A : Type ℓ} → Option A → Bool
is_some none = false
is_some (some a) = true

abbrev pub handshake_text : Option ℕ → Caption
handshake_text none = label (codes "выполняется...")
handshake_text (some secs) = label (show secs ++ codes " сек. назад")

abbrev pub ipv6_part : Option ℕ → Text
ipv6_part none = []
ipv6_part (some a) = codes ", " ++ (show_ipv6 a ++ codes "/128")

-- What comes from the parsed configuration.
pub record Parsed : Type 0 where
  pub pubkey : Text
  pub mtu : Caption
  pub ips : Caption
  pub dns : Caption
  pub peer_pubkey : Caption
  pub has_psk : Bool

unfoldable pub parsed_rows : {E : Type 0} → KeyPrinter → Result E WireGuardConfig → Parsed
parsed_rows k (ok c) = record {
  pubkey = k.base64 (k.public_key c.private_key);
  mtu = label (show c.mtu);
  ips = label (
      show_ipv4 c.client_ipv4
      ++ (codes "/" ++ (show c.client_ipv4_prefix ++ ipv6_part c.client_ipv6)));
  dns = label (join (codes ", ") (map show_ip c.dns_servers));
  peer_pubkey = label (k.base64 c.peer_public_key);
  has_psk = is_some c.preshared_key;
}
parsed_rows k (err e) = record {
  pubkey = codes "---";
  mtu = label (codes "1280");
  ips = nothing;
  dns = label (codes "8.8.8.8, 1.1.1.1");
  peer_pubkey = nothing;
  has_psk = false;
}

unfoldable pub details_of :
    CaseTable → Decode → KeyPrinter → TunnelService → PhobosProfile → Details
details_of u decode k s p =
    let is_active = is_name s.active_profile_name p.client_name in
    let rows = parsed_rows k (parse_wg_config u decode p) in
    let live = is_active && is_connected s.status in
    record {
      interface = label (codes "Интерфейс: " ++ p.client_name);
      status = if is_active then status_text s.status else off_text;
      pubkey = label rows.pubkey;
      mtu = rows.mtu;
      ips = rows.ips;
      dns = rows.dns;
      toggle =
          if is_active && not (is_disconnected s.status) then disconnect_text else connect_text;
      peer_pubkey = rows.peer_pubkey;
      psk = label (if rows.has_psk then codes "включено" else codes "отключено");
      allowed_ips = label (codes "0.0.0.0/1, 128.0.0.0/1, ::/1, 8000::/1");
      endpoint = label (p.target ++ codes " (" ++ p.masking ++ codes ")");
      traffic_row = if live then traffic s.stats else nothing;
      handshake = if live then handshake_text s.stats.last_handshake_secs else nothing;
    }

abbrev pub empty_details : Details
empty_details = record {
  interface = label (codes "Интерфейс: (нет выбранного)");
  status = label (codes "Нет активного туннеля");
  pubkey = nothing;
  mtu = nothing;
  ips = nothing;
  dns = nothing;
  toggle = connect_text;
  peer_pubkey = nothing;
  psk = nothing;
  allowed_ips = nothing;
  endpoint = nothing;
  traffic_row = nothing;
  handshake = nothing;
}

-- The selected profile, where the index is in range.
abbrev pub selected : List PhobosProfile → Option ℕ → Option PhobosProfile
selected profiles none = none
selected profiles (some i) = get_elem? profiles i

abbrev pub with_details :
    CaseTable → Decode → KeyPrinter → TunnelService → AppState → Option PhobosProfile → AppState
with_details u decode k s a none = record a { details = empty_details }
with_details u decode k s a (some p) = record a {
  details = details_of u decode k s p;
  current_pubkey_copy = (parsed_rows k (parse_wg_config u decode p)).pubkey;
}

unfoldable pub update_details :
    CaseTable → Decode → KeyPrinter → TunnelService → AppState → AppState
update_details u decode k s a = with_details u decode k s a (selected a.profiles a.selected_index)

unfoldable pub update_logs : TunnelService → AppState → AppState
update_logs s a =
    if length s.logs == a.last_log_count
    then a
    else record a { last_log_count = length s.logs; log_text = s.logs }

unfoldable pub switch_tab : TunnelService → ℕ → AppState → AppState
switch_tab s new_tab a =
    let b : AppState = record a {
      current_tab = new_tab;
      tunnels_shown = new_tab == 0;
      logs_shown = new_tab == 1;
    } in
    if new_tab == 1 then update_logs s b else b

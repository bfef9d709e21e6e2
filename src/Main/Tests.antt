-- ===== src/Main/Tests.antt =====
-- Runs of the program's start and of its modes (src/main.rs), and the theorems at concrete inputs.
use phobos_wg_client.Base.{
  true, false, List, [], ◌∷◌, Option, none, some, ◌≡◌, refl, codes, bytes_eq,
}
use phobos_wg_client.Base.Result.{ok}
use phobos_wg_client.Base.Net.{ip_eq}
use phobos_wg_client.Archive.{PhobosProfile, parse_wg_config}
use phobos_wg_client.Relay.Start.{Network}
use phobos_wg_client.Store.{is_supported_profile_path}
use phobos_wg_client.Text.{
  Text, trim, trim_by, trim_start_by, trim_end_by, is_whitespace, is_between, ends_with,
  to_lowercase,
}
use phobos_wg_client.Tunnel.Samples.{noise, world}
use phobos_wg_client.Tunnel.Setup.{Sockets}
use phobos_wg_client.WgConfig.Samples.{ascii, decode_test, conf, config, parsed}
use phobos_wg_client.WindowsNet.{
  bind_socket_to_physical_interface, add_ip_route, create_row, delete_ip_route, delete_row,
  remove_row, same_row,
}
use phobos_wg_client.Wintun.{
  VpnRouteManager, ensure_wintun_dll, extract, install_routes, add_host, add_half, add_ipv6,
}
use phobos_wg_client.WindowsNet.{get_best_route_gateway}
use phobos_wg_client.Wintun.Device.{Driver, WintunDevice, adapter_settings, prepare, create}
use phobos_wg_client.Wintun.Removed.{IsUnrouted}
use phobos_wg_client.Service.Samples.{
  server, sockets, driver, willing, willing-IsFaithful, willing-IsDeleting, profile,
}
use phobos_wg_client.Main.{Place, clean_path, prompt, Surroundings, main}
use phobos_wg_client.Main.Prompt.{IsRightful, main-IsRightful}
use phobos_wg_client.Main.Modes.{
  CliAnswers, Target, find_target, run_standalone_cli_mode, ProxyAnswers, is_yes,
}
use phobos_wg_client.Main.Cleaning.{run_standalone_cli_mode-IsUnrouted}

cleaned : clean_path (codes " \"C:\\a b.conf\"\n") ≡ codes "C:\\a b.conf"
unfolding clean_path trim trim_by trim_start_by trim_end_by is_whitespace is_between
cleaned = refl

abbrev place : Text → Place
place p = record { path = record { file_name = some p; file_stem = none }; is_file = true }

abbrev inputs : List (Option Text)
inputs = some (codes "x.txt") ∷ none ∷ some (codes "a.conf\n") ∷ []

prompted : prompt ascii place inputs ≡ some (codes "a.conf")
unfolding prompt is_supported_profile_path to_lowercase ends_with bytes_eq clean_path trim trim_by
    trim_start_by trim_end_by is_whitespace is_between
prompted = refl

abbrev surroundings : Surroundings
surroundings = record { is_admin = true; elevate = ok tt; place = place; dir = []; inputs = inputs }

main-IsRightful_example :
    IsRightful ascii surroundings
      (codes "p" ∷ codes "a.conf" ∷ [])
      (main ascii surroundings (codes "p" ∷ codes "a.conf" ∷ []))
main-IsRightful_example = main-IsRightful ascii surroundings (codes "p" ∷ codes "a.conf" ∷ [])

abbrev usable_profile : PhobosProfile
usable_profile = record profile { raw_wg_conf = conf }

abbrev open_sockets_answers : Sockets
open_sockets_answers = record sockets { bind = ok tt }

abbrev loaded_driver : Driver
loaded_driver = record driver { temp = record { content = none; writable = true } }

abbrev cli_answers : CliAnswers
cli_answers = record {
  sockets = open_sockets_answers;
  driver = loaded_driver;
  system = willing;
  run_sockets = sockets;
  world = world;
  index = 7;
}

abbrev target : Target
target = record { wg_conf = config; target_ipv4 = 0x01020304; physical_if_index = 2 }

found : find_target ascii decode_test open_sockets_answers usable_profile ≡ ok target
unfolding find_target parse_wg_config bind_socket_to_physical_interface
found = rw parsed refl

abbrev new_manager : VpnRouteManager
new_manager = record {
  server_ip = 0x01020304;
  gateway_ip = none;
  physical_if_index = 2;
  adapter_if_index = 9;
  adapter_ip = 0x0a080003;
  has_ipv6 = true;
  routes_installed = false;
}

abbrev device : WintunDevice
device = record {
  settings = adapter_settings config;
  route_manager = record new_manager { routes_installed = true };
  table = (install_routes willing new_manager []).table;
}

made : (create loaded_driver willing config 0x01020304 2 []).result ≡ ok device
unfolding create prepare ensure_wintun_dll extract install_routes add_host add_half add_ip_route
    create_row delete_ip_route delete_row remove_row same_row ip_eq add_ipv6 bytes_eq
    get_best_route_gateway
made = refl

run_standalone_cli_mode-IsUnrouted_example :
    IsUnrouted device.route_manager
      (run_standalone_cli_mode noise ascii decode_test cli_answers usable_profile []).table
run_standalone_cli_mode-IsUnrouted_example =
    run_standalone_cli_mode-IsUnrouted noise ascii decode_test cli_answers usable_profile [] target
      device willing-IsFaithful willing-IsDeleting found made

abbrev network : Network
network = record {
  bind_local = λ port. ok tt;
  resolve = λ t. ok (server ∷ []);
  bind_upstream = ok tt;
  connect = λ a. ok tt;
  clone = ok tt;
}

abbrev proxy_answers : ProxyAnswers
proxy_answers = record {
  write = λ n c. ok tt;
  acl = ok tt;
  network = network;
  exists = true;
  answer = some (codes "\n");
  removed = ok tt;
}

agreed : is_yes ascii (codes "\n") ≡ true
unfolding is_yes to_lowercase trim trim_by trim_start_by trim_end_by is_whitespace is_between
    bytes_eq
agreed = refl

-- ===== src/Lib.antt =====
-- A model of PhobosWG_Client, a WireGuard client for Windows that hides its datagrams: packets are
-- obfuscated by a keyed XOR stream and random padding and, if the profile says so, framed as STUN
-- data. The development models the parts of the program that compute, and proves what makes each of
-- them correct.
--
-- The parts, and how they interact. A profile is loaded from a package or a text (src/archive.rs):
-- its `[instance]` section gives the server, the key and the masking, its WireGuard sections are
-- parsed (src/wg_config.rs) or rewritten for the local relay. Either the relay (src/relay.rs) stands
-- between a foreign WireGuard client and the server, or the tunnel (src/tunnel.rs, and behind the
-- window src/tunnel_service.rs) runs a WireGuard engine between the Wintun adapter
-- (src/wintun_adapter.rs) and the server, with the routes of src/windows_net.rs. Both pass packets
-- through the obfuscator (src/obfuscator.rs), which uses the cipher (src/crc8.rs), and through the
-- STUN framing (src/stun.rs). The entry (src/main.rs) chooses between the relay, the tunnel in the
-- console and the window (src/gui.rs), which keeps its profiles in a directory
-- (src/profile_store.rs) and runs the tunnel's service.
--
-- The files, each a module named for its part, its laws in the modules below it:
--   Base        names that all modules share: Boolean tests, lists, `All`, bits, words, results,
--               network addresses.
--   Text        the functions of Rust's standard library on text that the program calls: `trim`,
--               `split_once`, `lines`, `parse`, `to_lowercase`, `replace` and so on. A text is the
--               list of its code points; the case tables beyond ASCII are an argument. Text/Wide is
--               UTF-16, Text/Show and Text/Printed are what `format!` prints of numbers and addresses.
--   Crc8        src/crc8.rs: the table and `xor_data`. Laws in Table, Cipher, Bounds.
--   Obfuscator  src/obfuscator.rs: `encode`, `decode`, packet types. The numbers that one call draws
--               are a record `Draws`. Laws in Header, Padding, RoundTrip, Decoding; in
--               Secrets its `Debug` and `Drop`.
--   Stun        src/stun.rs: framing and binding requests. Transaction identifiers and the CRC-32 of
--               the crate crc32fast are arguments. Laws in Framing, Binding.
--   Relay       src/relay.rs: one function for the body of each of the three loops of
--               `PhobosRelay::start` (client_round, server_round, timer_round) and `stop`; a run is a
--               list of events, that is any interleaving of the loops. Laws in Masking, Binding,
--               Traffic, Runs. Relay/Link is the abstract link that the relay implements, as Refines
--               shows. Relay/Start is the part of `start` before the loops.
--   WgConfig    src/wg_config.rs: `WireGuardConfig::parse`. Its local variables are the record
--               `Parser`, the loop's body is `parse_line`. Base64 is an argument. Laws in Addresses,
--               Fields, Fitting, Comments; in Secrets its `Debug` and `Drop`.
--   Conf        src/archive.rs: `parse_instance_section`, `split_merged_conf` and
--               `rewrite_endpoint_to_loopback`. Laws in Splitting, KeyLines, Reading, Closing,
--               Loopback.
--   Archive     src/archive.rs: `sanitize_client_name`, `combine_and_build`, `load_from_conf_string`,
--               `load_from_tar_gz`; in Archive/File `load_from_file`. What gzip, tar, DPAPI and the
--               file system give is data. Laws in Names, Entries, Building, File. Archive/Export is
--               `export_ready_wg_conf` with the profile's `Debug` and `Drop`.
--   WindowsNet  src/windows_net.rs: `escape_windows_arg`, `add_ip_route`, `delete_ip_route`,
--               `bind_socket_to_physical_interface`. What a system call answers is an argument; the
--               routing table is a list of rows that changes where the answer is 0. Laws in
--               Arguments, CommandLine, Routes, Gateway. WindowsNet/Elevation is the check of rights, the
--               relaunch and the access list of a file; WindowsNet/Layout the bytes of an address
--               (`SockAddrInet::from_ip`) and the calls that set the MTU and the DNS servers.
--   Wintun      src/wintun_adapter.rs: `ensure_wintun_dll` and `VpnRouteManager`; in Wintun/Device the
--               creation and shutdown of the device. Laws in Installed, Removed, Library, Device.
--   Tunnel      src/tunnel.rs: one function for the body of each of the three worker loops of
--               `StandaloneTunnel::run`. The engine of the crate boringtun is a record of operations
--               on a state. Tunnel/Setup is the set-up of `run`, Tunnel/Workers the three workers as
--               threads under the stop flag, Tunnel/Console the main thread of `run` with them and `stop`,
--               an event for each step. Laws in Rounds, Draining, Setup, Ending, Reaching, Stopped.
--   Service     src/tunnel_service.rs: the state that the threads share, `log`, `stop` and the part of
--               `start` on it; in Service/Stages the set-up of the session thread, in Service/Session
--               its monitor loop and end, in Service/Threads the window's thread and all sessions, an
--               event for each step. Laws in Logging, Steady, Stopping, Routing, Overlap.
--   Store       src/profile_store.rs: `import_profile`, `delete_profile`, `load_all_profiles`. DPAPI is an
--               argument; the directory is the list of its entries. Laws in Importing, Naming, Deleted,
--               Order, Listing, Directory, Unordered. Store/Dpapi is what `dpapi_protect` and
--               `dpapi_unprotect` do around the system's calls.
--   Gui         src/gui.rs: the window's state `AppState`, what its controls show, and
--               `update_details`, `update_listbox`, `update_logs`, `switch_tab`; in Gui/Messages the
--               handlers of `window_proc` and `dispatch`, in Gui/Controls and Gui/Widgets the controls of
--               `WM_CREATE`, in Gui/Clipboard `set_clipboard_text`, in Gui/Run `run_gui`. A handler returns
--               the new state and the calls that it makes. Laws in Selection, Shown, Tabs, Toggle, Journal.
--   Main        src/main.rs: `main`, `find_or_prompt_package`; in Main/Modes `run_standalone_cli_mode`
--               and `run_proxy_mode`. Laws in Prompt, Cleaning.
--   Build       build.rs: the search for the resource compiler and the lines for cargo.
-- The modules called Tests run the definitions and apply the theorems at concrete inputs.
--
-- Bounds and fuel. Bytes are numbers below 2^8, and arithmetic of 16, 32 and 64 bits wraps where the
-- source's does. The inner loop of the tunnel's receiver is recursion on fuel, for which more than
-- the number of packets that the engine gives is enough; `show` has as fuel the number that it prints, and one, which is more than
-- its digits. All other loops are recursion on the data that is left.
--
-- Not modelled: sockets and threads beyond what they hand to the loops; the text that the console
-- prints, of which the tunnel's status line is data; poisoned locks; of the window, the drawing of a
-- row but for its colours, the fonts and the dialog, which are calls of the system and no more, and
-- a failure to create a control; the byte layout of the structures of the Windows API other than
-- addresses; and `disable_udp_connreset`, one call of the system.
pub mod Base
pub mod Text
pub mod Crc8
pub mod Obfuscator
pub mod Stun
pub mod Relay
pub mod WgConfig
pub mod Conf
pub mod Archive
pub mod WindowsNet
pub mod Wintun
pub mod Tunnel
pub mod Store
pub mod Service
pub mod Gui
pub mod Main
pub mod Build

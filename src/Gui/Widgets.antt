-- ===== src/Gui/Widgets.antt =====
-- The controls as they stand on the screen (src/gui.rs): behind the window's creation and behind
-- `switch_tab`; and which command a control's notification is.
use phobos_wg_client.Base.{
  ℕ, Bool, true, false, ◌||◌, ◌&&◌, List, [], ◌∷◌, map, Option, none, some, if◌then◌else◌, ◌==◌,
}
use phobos_wg_client.Gui.Messages.{Message, tab_changed, command_id, command_code, Handled}
use phobos_wg_client.Gui.Controls.{
  Style, ws_visible, Control, tunnel_controls, log_controls, id_list_tunnels, id_btn_add,
  id_btn_delete, id_btn_toggle, id_btn_copy_pubkey, id_btn_copy_logs, id_btn_clear_logs,
}

pub record Widget : Type 0 where
  pub control : Control
  pub visible : Bool

abbrev pub control_of : Widget → Control
control_of w = w.control

-- `tunnel_controls` and `log_controls` as they stand on the screen.
pub record Widgets : Type 0 where
  pub tunnels : List Widget
  pub logs : List Widget

abbrev pub is_visible : Style → Bool
is_visible ws_visible = true
is_visible s = false

abbrev pub has_visible : List Style → Bool
has_visible [] = false
has_visible (s ∷ style) = is_visible s || has_visible style

abbrev pub widget : Control → Widget
widget c = record { control = c; visible = has_visible c.style }

-- `ShowWindow`, on one and on each.
abbrev pub show_window : Bool → Widget → Widget
show_window b w = record w { visible = b }

abbrev pub show_all : Bool → List Widget → List Widget
show_all b ws = map (show_window b) ws

-- Behind `WM_CREATE`, which hides the journal's.
unfoldable pub created_widgets : Widgets
created_widgets = record {
  tunnels = map widget tunnel_controls;
  logs = show_all false (map widget log_controls);
}

unfoldable pub switch_widgets : ℕ → Widgets → Widgets
switch_widgets new_tab ws = record {
  tunnels = show_all (new_tab == 0) ws.tunnels;
  logs = show_all (new_tab == 1) ws.logs;
}

abbrev pub on_message : Message → Widgets → Widgets
on_message (tab_changed t) ws = switch_widgets t ws
on_message m ws = ws

unfoldable pub widgets_after : List Handled → Widgets → Widgets
widgets_after [] ws = ws
widgets_after (h ∷ hs) ws = widgets_after hs (on_message h.message ws)

-- The branches of `WM_COMMAND`.
pub data Command : Type 0 where
  list_command : Command
  add_command : Command
  delete_command : Command
  toggle_command : Command
  copy_pubkey_command : Command
  copy_logs_command : Command
  clear_logs_command : Command

-- 1 is `LBN_SELCHANGE`.
unfoldable pub command_of : ℕ → Option Command
command_of wparam =
    let id = command_id wparam in
    if id == id_list_tunnels && command_code wparam == 1
    then some list_command
    else if id == id_btn_add
    then some add_command
    else if id == id_btn_delete
    then some delete_command
    else if id == id_btn_toggle
    then some toggle_command
    else if id == id_btn_copy_pubkey
    then some copy_pubkey_command
    else if id == id_btn_copy_logs
    then some copy_logs_command
    else if id == id_btn_clear_logs
    then some clear_logs_command
    else none

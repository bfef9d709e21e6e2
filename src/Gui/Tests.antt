-- ===== src/Gui/Tests.antt =====
-- Runs of the window (src/gui.rs), and the theorems at concrete inputs.
use phobos_wg_client.Base.{
  none, true, false, Bool, leb, ◌+◌, ◌^◌, ◌||◌, ◌&&◌, ◌==◌, List, [], ◌∷◌, some, ◌≡◌, refl, arith,
  codes, Bytes,
}
use phobos_wg_client.Tunnel.Samples.{noise}
use phobos_wg_client.Service.{TunnelService, new, connected, ipv6_server, error, stopping}
use phobos_wg_client.Service.Stages.{Effect, fail}
use phobos_wg_client.Service.Session.{advance}
use phobos_wg_client.Service.Samples.{ascii, no_decode, profile, answers}
use phobos_wg_client.Gui.{KeyPrinter, AppState, off_text, update_listbox, update_details}
use phobos_wg_client.Gui.Messages.{
  list_changed, delete_clicked, toggle_clicked, Handled, dispatch, window_proc, created, rgb,
}
use phobos_wg_client.Text.Wide.{utf16, utf16_char, to_wide}
use phobos_wg_client.Gui.Messages.{tab_changed, timer, command_id, command_code}
use phobos_wg_client.Gui.Controls.{
  Control, tunnel_controls, log_controls, id_list_tunnels, id_btn_toggle, id_grp_interface,
  id_grp_peer,
}
use phobos_wg_client.Gui.Widgets.{
  created_widgets, widgets_after, command_of, toggle_command, list_command,
}
use phobos_wg_client.Gui.Tabs.{IsAt, run_gui-IsTabbed}
use phobos_wg_client.Gui.Clipboard.{
  ClipAnswers, effects, unused, used, set_clipboard_text, set_clipboard_text-effects,
}
use phobos_wg_client.Gui.Shown.{run_gui-IsShown}
use phobos_wg_client.Gui.Selection.{IsShown}
use phobos_wg_client.Gui.Toggle.{Fits, toggle-Fits, error_unseen}

green : rgb 46 204 113 ≡ 0x71CC2E
unfolding rgb
green = refl

wide : to_wide (codes "a🗑") ≡ 0x61 ∷ 0xD83D ∷ 0xDDD1 ∷ 0 ∷ []
unfolding to_wide utf16 utf16_char
wide = refl

abbrev printer : KeyPrinter
printer = record { public_key = λ k. k; base64 = λ k. k }

abbrev active : TunnelService
active = record new { status = connected; active_profile_name = some (codes "a") }

abbrev window : AppState
window = created ascii no_decode printer active (profile ∷ [])

abbrev messages : List Handled
messages =
    record { before = active; after = active; message = list_changed (some 0) }
    ∷ record { before = active; after = active; message = toggle_clicked }
    ∷ record { before = active; after = active; message = delete_clicked [] }
    ∷ []

run_gui-IsShown_example :
    IsShown
      (dispatch ascii no_decode printer
        (created ascii no_decode printer active (profile ∷ []))
        messages).0
unfolding created update_listbox update_details
run_gui-IsShown_example =
    run_gui-IsShown ascii no_decode printer active (profile ∷ []) messages
      (omega arith, (tt, (tt, tt)))

toggle-Fits_example :
    let b = update_details ascii no_decode printer active window in
    Fits profile b.details.toggle
      (window_proc ascii no_decode printer active new b toggle_clicked).1
unfolding created update_listbox update_details
toggle-Fits_example = toggle-Fits ascii no_decode printer active new window profile refl

error_unseen_example :
    let x : Effect (List Bytes) = fail [] ipv6_server active [] in
    let y = advance ascii no_decode noise profile answers 0 x.service x.table x.stage in
    (y.service.status ≡ error ipv6_server)
    × ((update_details ascii no_decode printer y.service window).details.status ≡ off_text)
unfolding created update_listbox update_details
error_unseen_example =
    error_unseen ascii no_decode printer noise profile profile answers 0 [] ipv6_server active []
      window refl

abbrev logged : TunnelService
logged = record new { logs = record { time = []; line = stopping } ∷ [] }

clicks :
    (command_of id_btn_toggle ≡ some toggle_command)
    × (command_of (2 ^ 16 + id_list_tunnels) ≡ some list_command)
    × (command_of id_list_tunnels ≡ none)
    × (command_of id_grp_peer ≡ none)
unfolding command_of command_id command_code
clicks = (refl, refl, refl, refl)

-- No control of a tab but a group lies on another.
abbrev apart : Control → Control → Bool
apart a b = leb (a.x + a.w) b.x || leb (b.x + b.w) a.x || leb (a.y + a.h) b.y || leb (b.y + b.h) a.y

abbrev is_group : Control → Bool
is_group c = c.id == id_grp_interface || c.id == id_grp_peer

abbrev apart_from : Control → List Control → Bool
apart_from c [] = true
apart_from c (d ∷ ds) = (is_group c || is_group d || apart c d) && apart_from c ds

abbrev all_apart : List Control → Bool
all_apart [] = true
all_apart (c ∷ cs) = apart_from c cs && all_apart cs

places : (all_apart tunnel_controls ≡ true) × (all_apart log_controls ≡ true)
places = (refl, refl)

abbrev tabs : List Handled
tabs =
    record { before = active; after = active; message = tab_changed 1 }
    ∷ record { before = active; after = active; message = timer 1 }
    ∷ []

run_gui-IsTabbed_example :
    IsAt
      (dispatch ascii no_decode printer
        (created ascii no_decode printer active (profile ∷ []))
        tabs).0.current_tab
      (widgets_after tabs created_widgets)
run_gui-IsTabbed_example = run_gui-IsTabbed ascii no_decode printer active (profile ∷ []) tabs

abbrev refusing : ClipAnswers
refusing = record { allocated = true; locked = true; opened = true; accepted = false }

set_clipboard_text-effects_example :
    effects refusing (unused (65 ∷ 0 ∷ [])) (set_clipboard_text refusing (codes "b"))
    ≡ used refusing (codes "b") (65 ∷ 0 ∷ [])
set_clipboard_text-effects_example = set_clipboard_text-effects refusing (codes "b") (65 ∷ 0 ∷ [])

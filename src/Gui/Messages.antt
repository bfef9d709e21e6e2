-- ===== src/Gui/Messages.antt =====
-- The messages of the window (src/gui.rs): one function for each handler of `window_proc`. What the
-- service is when a handler reads it, what an import gives and what is loaded afterwards are
-- arguments; what a handler calls is a result.
use phobos_wg_client.Base.{
  ℕ, suc, ◌+◌, ◌*◌, ◌/◌, ◌%◌, ◌^◌, Bool, true, false, not, ◌&&◌, List, [], ◌∷◌, ◌++◌, Option, none,
  some, if◌then◌else◌, ◌==◌,
}
use phobos_wg_client.Archive.{PhobosProfile}
use phobos_wg_client.Text.{Text, CaseTable, text_eq, is_nil}
use phobos_wg_client.WgConfig.{Decode}
use phobos_wg_client.Service.{
  TunnelStatus, disconnected, connecting, connected, error, Entry, TunnelService, is_active,
}
use phobos_wg_client.Gui.{
  KeyPrinter, AppState, empty_details, reload_profiles, update_listbox, update_details, update_logs,
  switch_tab, selected, is_name, is_disconnected,
}

-- What a handler calls.
pub data Call : Type 0 where
  call_stop : Call
  call_start : PhobosProfile → Call
  call_delete : Text → Call
  clear_logs : Call
  copied : Text → Call
  copied_logs : List Entry → Call
  destroy_window : Call
  post_quit : Call

-- A file that is imported: the profile, and what is loaded behind the import.
pub record Imported : Type 0 where
  pub profile : PhobosProfile
  pub loaded : List PhobosProfile

-- The messages. `list_changed` has the list box's own cursor, which it has moved; `none` for -1 and
-- for an import that is not made or fails.
pub data Message : Type 0 where
  list_changed : Option ℕ → Message
  add_clicked : Option Imported → Message
  delete_clicked : List PhobosProfile → Message
  toggle_clicked : Message
  copy_pubkey_clicked : Message
  copy_logs_clicked : Message
  clear_logs_clicked : Message
  tab_changed : ℕ → Message
  files_dropped : List (Option Imported) → Message
  timer : ℕ → Message
  close : Message
  destroy : Message

-- The identifier and the code in `WM_COMMAND`'s parameter.
unfoldable pub command_id : ℕ → ℕ
command_id wparam = wparam % 2 ^ 16

unfoldable pub command_code : ℕ → ℕ
command_code wparam = wparam / 2 ^ 16 % 2 ^ 16

unfoldable pub rgb : ℕ → ℕ → ℕ → ℕ
rgb r g b = r + g * 2 ^ 8 + b * 2 ^ 16

abbrev pub status_color : TunnelStatus → ℕ
unfolding rgb
status_color connected = rgb 46 204 113
status_color connecting = rgb 241 196 15
status_color disconnected = rgb 160 160 160
status_color (error e) = rgb 160 160 160

-- The dot in front of a profile in the list.
unfoldable pub dot_color : TunnelService → PhobosProfile → ℕ
unfolding rgb
dot_color s p =
    if is_name s.active_profile_name p.client_name then status_color s.status else rgb 180 180 180

unfoldable pub text_color : Bool → ℕ
unfolding rgb
text_color is_selected = if is_selected then rgb 255 255 255 else rgb 0 0 0

unfoldable pub position : Text → List PhobosProfile → Option ℕ
position name [] = none
position name (p ∷ rest) =
    let later = position name rest in
    if text_eq p.client_name name
    then some 0
    else elim later [ none ↦ none | some i ↦ some (suc i) ]

abbrev pub or_else {ℓ} : {A : Type ℓ} → Option A → Option A → Option A
or_else none d = d
or_else (some a) d = some a

module _ (u : CaseTable) (decode : Decode) (k : KeyPrinter) where
  -- `reload_profiles`, the selection of the new profile, and the views.
  unfoldable pub take_import : TunnelService → AppState → Imported → AppState
  take_import s a i =
      let b = reload_profiles i.loaded a in
      let sel = or_else (position i.profile.client_name i.loaded) b.selected_index in
      update_details u decode k s (update_listbox (record b { selected_index = sel }))

  abbrev pub add : TunnelService → AppState → Option Imported → AppState
  add s a none = a
  add s a (some i) = take_import s a i

  unfoldable pub drop_files : TunnelService → AppState → List (Option Imported) → AppState
  drop_files s a [] = a
  drop_files s a (i ∷ rest) = drop_files s (add s a i) rest

  abbrev pub select : TunnelService → AppState → Option ℕ → AppState
  select s a none = record a { cursor = none }
  select s a (some cur) =
      update_details u decode k s (record a { cursor = some cur; selected_index = some cur })

  -- `before` is the service when the handler reads it first, `after` behind its call.
  abbrev pub delete_selected :
      TunnelService
      → TunnelService
      → AppState
      → List PhobosProfile
      → Option PhobosProfile
      → AppState × List Call
  delete_selected before after a loaded none = (a, [])
  delete_selected before after a loaded (some p) = (
    update_details u decode k after (update_listbox (reload_profiles loaded a)),
    (if is_name before.active_profile_name p.client_name then call_stop ∷ [] else [])
        ++ call_delete p.client_name ∷ [],
  )

  abbrev pub toggle_selected :
      TunnelService → TunnelService → AppState → Option PhobosProfile → AppState × List Call
  toggle_selected before after a none = (a, [])
  toggle_selected before after a (some p) = (
    update_details u decode k after a,
    (if is_name before.active_profile_name p.client_name && not (is_disconnected before.status)
          then call_stop
          else call_start p)
        ∷ [],
  )

  unfoldable pub on_timer : TunnelService → AppState → ℕ → AppState
  on_timer s a id =
      if id == 1
      then (if a.current_tab == 0 then update_details u decode k s a else update_logs s a)
      else a

  -- `DestroyWindow` sends `WM_DESTROY`.
  unfoldable pub on_close : TunnelService → List Call
  on_close s =
      (if is_active s then call_stop ∷ [] else []) ++ destroy_window ∷ call_stop ∷ post_quit ∷ []

  unfoldable pub window_proc :
      TunnelService → TunnelService → AppState → Message → AppState × List Call
  window_proc before after a (list_changed cur) = (select before a cur, [])
  window_proc before after a (add_clicked i) = (add before a i, [])
  window_proc before after a (delete_clicked loaded) =
      delete_selected before after a loaded (selected a.profiles a.selected_index)
  window_proc before after a toggle_clicked =
      toggle_selected before after a (selected a.profiles a.selected_index)
  window_proc before after a copy_pubkey_clicked =
      (a, if is_nil a.current_pubkey_copy then [] else copied a.current_pubkey_copy ∷ [])
  window_proc before after a copy_logs_clicked = (a, copied_logs before.logs ∷ [])
  window_proc before after a clear_logs_clicked =
      (record a { last_log_count = 0; log_text = [] }, clear_logs ∷ [])
  window_proc before after a (tab_changed t) = (switch_tab before t a, [])
  window_proc before after a (files_dropped l) = (drop_files before a l, [])
  window_proc before after a (timer id) = (on_timer before a id, [])
  window_proc before after a close = (a, on_close before)
  window_proc before after a destroy = (a, call_stop ∷ post_quit ∷ [])

-- The window's state in front of its creation, and behind `WM_CREATE`.
abbrev pub initial_index : List PhobosProfile → Option ℕ
initial_index [] = none
initial_index (p ∷ rest) = some 0

unfoldable pub created :
    CaseTable → Decode → KeyPrinter → TunnelService → List PhobosProfile → AppState
created u decode k s loaded = update_details u decode k s (
    update_listbox (record {
      profiles = loaded;
      selected_index = initial_index loaded;
      current_tab = 0;
      last_log_count = 0;
      current_pubkey_copy = [];
      items = [];
      cursor = none;
      details = empty_details;
      log_text = [];
      tunnels_shown = true;
      logs_shown = false;
    }))

-- A message with the service as its handler reads it first and behind its calls.
pub record Handled : Type 0 where
  pub before : TunnelService
  pub after : TunnelService
  pub message : Message

-- The loop of `run_gui` on the messages that arrive.
unfoldable pub dispatch :
    CaseTable → Decode → KeyPrinter → AppState → List Handled → AppState × List Call
dispatch u decode k a [] = (a, [])
dispatch u decode k a (h ∷ hs) =
    let (b, calls) = window_proc u decode k h.before h.after a h.message in
    let (c, later) = dispatch u decode k b hs in (c, calls ++ later)

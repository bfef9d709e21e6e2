-- ===== src/Gui/Tabs.antt =====
-- The controls that are visible are those of the current tab (src/gui.rs).
use phobos_wg_client.Base.{
  ℕ, Bool, true, false, List, [], ◌∷◌, map, Option, none, some, ◌≡◌, refl, ap, ◌∙◌, sym, subst,
  ◌==◌, All,
}
use phobos_wg_client.Base.Result.{if_preserves}
use phobos_wg_client.Archive.{PhobosProfile}
use phobos_wg_client.Text.{CaseTable}
use phobos_wg_client.WgConfig.{Decode}
use phobos_wg_client.Service.{TunnelService}
use phobos_wg_client.Gui.{
  KeyPrinter, AppState, selected, reload_profiles, update_listbox, with_details, update_details,
  update_logs, switch_tab,
}
use phobos_wg_client.Gui.Messages.{
  Message, Imported, list_changed, add_clicked, delete_clicked, toggle_clicked, copy_pubkey_clicked,
  copy_logs_clicked, clear_logs_clicked, tab_changed, files_dropped, timer, close, destroy,
  take_import, add, drop_files, select, delete_selected, toggle_selected, on_timer, window_proc,
  created, Handled, dispatch,
}
use phobos_wg_client.Gui.Controls.{tunnel_controls, log_controls}
use phobos_wg_client.Gui.Widgets.{
  Widget, Widgets, widget, control_of, show_all, created_widgets, switch_widgets, on_message,
  widgets_after,
}

abbrev tab_of : Message → ℕ → ℕ
tab_of (tab_changed t) c = t
tab_of m c = c

update_logs-current_tab :
    (s : TunnelService) (a : AppState) → (update_logs s a).current_tab ≡ a.current_tab
unfolding update_logs
update_logs-current_tab s a =
    if_preserves {A = AppState} (λ b. b.current_tab ≡ a.current_tab) _ a _ (λ e. refl) (λ e. refl)

switch_tab-current_tab :
    (s : TunnelService) (t : ℕ) (a : AppState) → (switch_tab s t a).current_tab ≡ t
unfolding switch_tab
switch_tab-current_tab s t a =
    if_preserves {A = AppState} (λ b. b.current_tab ≡ t) (t == 1) _ _
      (λ e. update_logs-current_tab s _) (λ e. refl)

-- The widgets are those of the two tabs, and exactly the tab's are visible.
abbrev pub IsAt : ℕ → Widgets → Type 0
IsAt tab ws =
    (map control_of ws.tunnels ≡ tunnel_controls)
    × (map control_of ws.logs ≡ log_controls)
    × All (λ w. w.visible ≡ (tab == 0)) ws.tunnels
    × All (λ w. w.visible ≡ (tab == 1)) ws.logs

show_all-control :
    (b : Bool) (ws : List Widget) → map control_of (show_all b ws) ≡ map control_of ws
show_all-control b [] = refl
show_all-control b (w ∷ ws) = ap (◌∷◌ w.control) (show_all-control b ws)

show_all-All : (b : Bool) (ws : List Widget) → All (λ w. w.visible ≡ b) (show_all b ws)
show_all-All b [] = tt
show_all-All b (w ∷ ws) = (refl, show_all-All b ws)

module _ (u : CaseTable) (decode : Decode) (k : KeyPrinter) where
  update_details-current_tab :
      (s : TunnelService) (a : AppState)
      → (update_details u decode k s a).current_tab ≡ a.current_tab
  unfolding update_details
  update_details-current_tab s a = go (selected a.profiles a.selected_index)
    where
      go : (o : Option PhobosProfile) → (with_details u decode k s a o).current_tab ≡ a.current_tab
      go none = refl
      go (some p) = refl

  take_import-current_tab :
      (s : TunnelService) (a : AppState) (i : Imported)
      → (take_import u decode k s a i).current_tab ≡ a.current_tab
  unfolding take_import update_listbox reload_profiles
  take_import-current_tab s a i = update_details-current_tab s _

  add-current_tab :
      (s : TunnelService) (a : AppState) (i : Option Imported)
      → (add u decode k s a i).current_tab ≡ a.current_tab
  add-current_tab s a none = refl
  add-current_tab s a (some i) = take_import-current_tab s a i

  drop_files-current_tab :
      (s : TunnelService) (a : AppState) (l : List (Option Imported))
      → (drop_files u decode k s a l).current_tab ≡ a.current_tab
  unfolding drop_files
  drop_files-current_tab s a [] = refl
  drop_files-current_tab s a (i ∷ l) =
      drop_files-current_tab s (add u decode k s a i) l ∙ add-current_tab s a i

  select-current_tab :
      (s : TunnelService) (a : AppState) (cur : Option ℕ)
      → (select u decode k s a cur).current_tab ≡ a.current_tab
  select-current_tab s a none = refl
  select-current_tab s a (some cur) = update_details-current_tab s _

  delete_selected-current_tab :
      (b c : TunnelService) (a : AppState) (l : List PhobosProfile) (o : Option PhobosProfile)
      → (delete_selected u decode k b c a l o).0.current_tab ≡ a.current_tab
  unfolding update_listbox reload_profiles
  delete_selected-current_tab b c a l none = refl
  delete_selected-current_tab b c a l (some p) = update_details-current_tab c _

  toggle_selected-current_tab :
      (b c : TunnelService) (a : AppState) (o : Option PhobosProfile)
      → (toggle_selected u decode k b c a o).0.current_tab ≡ a.current_tab
  toggle_selected-current_tab b c a none = refl
  toggle_selected-current_tab b c a (some p) = update_details-current_tab c a

  on_timer-current_tab :
      (s : TunnelService) (a : AppState) (id : ℕ)
      → (on_timer u decode k s a id).current_tab ≡ a.current_tab
  unfolding on_timer
  on_timer-current_tab s a id =
      if_preserves {A = AppState} (λ b. b.current_tab ≡ a.current_tab) (id == 1) _ a
        (λ e.
          if_preserves {A = AppState} (λ b. b.current_tab ≡ a.current_tab) (a.current_tab == 0)
            (update_details u decode k s a) (update_logs s a) (λ f. update_details-current_tab s a)
            (λ f. update_logs-current_tab s a))
        (λ e. refl)

  -- Only the tab control changes the tab.
  window_proc-current_tab :
      (b c : TunnelService) (a : AppState) (m : Message)
      → (window_proc u decode k b c a m).0.current_tab ≡ tab_of m a.current_tab
  unfolding window_proc
  window_proc-current_tab b c a (list_changed cur) = select-current_tab b a cur
  window_proc-current_tab b c a (add_clicked i) = add-current_tab b a i
  window_proc-current_tab b c a (delete_clicked l) =
      delete_selected-current_tab b c a l (selected a.profiles a.selected_index)
  window_proc-current_tab b c a toggle_clicked =
      toggle_selected-current_tab b c a (selected a.profiles a.selected_index)
  window_proc-current_tab b c a copy_pubkey_clicked = refl
  window_proc-current_tab b c a copy_logs_clicked = refl
  window_proc-current_tab b c a clear_logs_clicked = refl
  window_proc-current_tab b c a (tab_changed t) = switch_tab-current_tab b t a
  window_proc-current_tab b c a (files_dropped l) = drop_files-current_tab b a l
  window_proc-current_tab b c a (timer id) = on_timer-current_tab b a id
  window_proc-current_tab b c a close = refl
  window_proc-current_tab b c a destroy = refl

  on_message-IsTabbed :
      (b c : TunnelService) (a : AppState) (ws : Widgets) (m : Message)
      → IsAt a.current_tab ws
      → IsAt (window_proc u decode k b c a m).0.current_tab (on_message m ws)
  unfolding switch_widgets
  on_message-IsTabbed b c a ws (tab_changed t) (x, y, z, r) =
      subst (λ (n : ℕ). IsAt n (switch_widgets t ws))
        (sym (window_proc-current_tab b c a (tab_changed t)))
        (
          show_all-control (t == 0) ws.tunnels ∙ x,
          show_all-control (t == 1) ws.logs ∙ y,
          show_all-All (t == 0) ws.tunnels,
          show_all-All (t == 1) ws.logs,
        )
  on_message-IsTabbed b c a ws m h =
      subst (λ (n : ℕ). IsAt n ws) (sym (window_proc-current_tab b c a m)) h

  dispatch-IsTabbed :
      (a : AppState) (ws : Widgets) (hs : List Handled)
      → IsAt a.current_tab ws
      → IsAt (dispatch u decode k a hs).0.current_tab (widgets_after hs ws)
  unfolding dispatch widgets_after
  dispatch-IsTabbed a ws [] h = h
  dispatch-IsTabbed a ws (m ∷ hs) h =
      let b = (window_proc u decode k m.before m.after a m.message).0 in
      dispatch-IsTabbed b (on_message m.message ws) hs
        (on_message-IsTabbed m.before m.after a ws m.message h)

  created-IsTabbed :
      (s : TunnelService) (l : List PhobosProfile)
      → IsAt (created u decode k s l).current_tab created_widgets
  unfolding created created_widgets update_listbox
  created-IsTabbed s l =
      subst (λ (n : ℕ). IsAt n created_widgets) (sym (update_details-current_tab s _))
        (
          refl,
          refl,
          show_all-All true (map widget tunnel_controls),
          show_all-All false (map widget log_controls),
        )

  -- After its creation and any messages, the window has the controls that it was created with, and
  -- exactly those of the current tab are visible: those of neither where the tab is another.
  pub run_gui-IsTabbed :
      (s : TunnelService) (l : List PhobosProfile) (hs : List Handled)
      → IsAt
          (dispatch u decode k (created u decode k s l) hs).0.current_tab
          (widgets_after hs created_widgets)
  run_gui-IsTabbed s l hs =
      dispatch-IsTabbed (created u decode k s l) created_widgets hs (created-IsTabbed s l)

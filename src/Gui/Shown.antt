-- ===== src/Gui/Shown.antt =====
-- What the window shows is what it has (src/gui.rs): the list has the profiles' names, the selection
-- is in range, and the details are those of the selected profile.
use phobos_wg_client.Base.{
  ℕ, ◌<◌, true, false, List, [], ◌∷◌, Option, none, some, ◌≡◌, refl, ap, if◌then◌else◌, ◌==◌,
  length, length-map, subst, sym, ◌∙◌,
}
use phobos_wg_client.Base.Result.{if_preserves, AllSome}
use phobos_wg_client.Archive.{PhobosProfile}
use phobos_wg_client.Text.{CaseTable}
use phobos_wg_client.WgConfig.{Decode}
use phobos_wg_client.Service.{TunnelService}
use phobos_wg_client.Gui.{
  KeyPrinter, AppState, empty_details, details_of, selected, client_names, reload_profiles,
  update_listbox, with_details, update_details, update_logs,
}
use phobos_wg_client.Gui.Messages.{
  Message, Imported, list_changed, add_clicked, delete_clicked, toggle_clicked, copy_pubkey_clicked,
  copy_logs_clicked, clear_logs_clicked, tab_changed, files_dropped, timer, close, destroy,
  position, or_else, take_import, add, drop_files, select, delete_selected, toggle_selected,
  on_timer, window_proc, initial_index, created, Handled, dispatch,
}
use phobos_wg_client.Gui.Selection.{
  InRange, interface_text, IsShown, IsPossible, some-InRange, initial_index-InRange,
  reload_profiles-InRange, position-bound, or_else-InRange, update_logs-IsShown, switch_tab-IsShown,
}

module _ (u : CaseTable) (decode : Decode) (k : KeyPrinter) where
  -- With the list and the selection in order, the details are brought in order.
  update_details-IsShown :
      (s : TunnelService) (a : AppState)
      → a.items ≡ client_names a.profiles
      → InRange (length a.profiles) a.selected_index
      → IsShown (update_details u decode k s a)
  unfolding update_details details_of
  update_details-IsShown s a l r = go (selected a.profiles a.selected_index) refl
    where
      go :
          (o : Option PhobosProfile)
          → selected a.profiles a.selected_index ≡ o
          → IsShown (with_details u decode k s a o)
      go none e = record { listed = l; in_range = r; headed = ap interface_text (sym e) }
      go (some p) e = record { listed = l; in_range = r; headed = ap interface_text (sym e) }

  take_import-IsShown :
      (s : TunnelService) (a : AppState) (i : Imported) → IsShown (take_import u decode k s a i)
  unfolding take_import update_listbox reload_profiles
  take_import-IsShown s a i =
      let b = reload_profiles i.loaded a in
      let sel = or_else (position i.profile.client_name i.loaded) b.selected_index in
      update_details-IsShown s (update_listbox (record b { selected_index = sel })) refl (
        or_else-InRange (length i.loaded) (position i.profile.client_name i.loaded) b.selected_index
          (position-bound i.profile.client_name i.loaded) (reload_profiles-InRange i.loaded a))

  add-IsShown :
      (s : TunnelService) (a : AppState) (i : Option Imported)
      → IsShown a
      → IsShown (add u decode k s a i)
  add-IsShown s a none h = h
  add-IsShown s a (some i) h = take_import-IsShown s a i

  drop_files-IsShown :
      (s : TunnelService) (a : AppState) (l : List (Option Imported))
      → IsShown a
      → IsShown (drop_files u decode k s a l)
  unfolding drop_files
  drop_files-IsShown s a [] h = h
  drop_files-IsShown s a (i ∷ l) h =
      drop_files-IsShown s (add u decode k s a i) l (add-IsShown s a i h)

  select-IsShown :
      (s : TunnelService) (a : AppState) (cur : Option ℕ)
      → AllSome (λ i. i < length a.items) cur
      → IsShown a
      → IsShown (select u decode k s a cur)
  select-IsShown s a none p h = record {
    listed = h.listed;
    in_range = h.in_range;
    headed = h.headed;
  }
  select-IsShown s a (some cur) p h =
      update_details-IsShown s (record a { cursor = some cur; selected_index = some cur }) h.listed
        (some-InRange (length a.profiles) cur (
          subst (λ n. cur < n)
            (ap (λ l. length l) h.listed ∙ length-map (λ p. p.client_name) a.profiles) p))

  delete_selected-IsShown :
      (before after : TunnelService) (a : AppState) (l : List PhobosProfile)
      (o : Option PhobosProfile)
      → IsShown a
      → IsShown (delete_selected u decode k before after a l o).0
  unfolding update_listbox reload_profiles
  delete_selected-IsShown before after a l none h = h
  delete_selected-IsShown before after a l (some p) h =
      update_details-IsShown after (update_listbox (reload_profiles l a)) refl
        (reload_profiles-InRange l a)

  toggle_selected-IsShown :
      (before after : TunnelService) (a : AppState) (o : Option PhobosProfile)
      → IsShown a
      → IsShown (toggle_selected u decode k before after a o).0
  toggle_selected-IsShown before after a none h = h
  toggle_selected-IsShown before after a (some p) h =
      update_details-IsShown after a h.listed h.in_range

  on_timer-IsShown :
      (s : TunnelService) (a : AppState) (id : ℕ) → IsShown a → IsShown (on_timer u decode k s a id)
  unfolding on_timer
  on_timer-IsShown s a id h =
      let ticked = if a.current_tab == 0 then update_details u decode k s a else update_logs s a in
      if_preserves (λ x. IsShown x) (id == 1) ticked a
        (λ e.
          if_preserves (λ x. IsShown x) (a.current_tab == 0) (update_details u decode k s a)
            (update_logs s a) (λ t. update_details-IsShown s a h.listed h.in_range)
            (λ t. update_logs-IsShown s a h))
        (λ e. h)

  window_proc-IsShown :
      (before after : TunnelService) (a : AppState) (m : Message)
      → IsPossible a m
      → IsShown a
      → IsShown (window_proc u decode k before after a m).0
  unfolding window_proc
  window_proc-IsShown before after a (list_changed cur) p h = select-IsShown before a cur p h
  window_proc-IsShown before after a (add_clicked i) p h = add-IsShown before a i h
  window_proc-IsShown before after a (delete_clicked l) p h =
      delete_selected-IsShown before after a l (selected a.profiles a.selected_index) h
  window_proc-IsShown before after a toggle_clicked p h =
      toggle_selected-IsShown before after a (selected a.profiles a.selected_index) h
  window_proc-IsShown before after a copy_pubkey_clicked p h = h
  window_proc-IsShown before after a copy_logs_clicked p h = h
  window_proc-IsShown before after a clear_logs_clicked p h = record {
    listed = h.listed;
    in_range = h.in_range;
    headed = h.headed;
  }
  window_proc-IsShown before after a (tab_changed t) p h = switch_tab-IsShown before t a h
  window_proc-IsShown before after a (files_dropped l) p h = drop_files-IsShown before a l h
  window_proc-IsShown before after a (timer id) p h = on_timer-IsShown before a id h
  window_proc-IsShown before after a close p h = h
  window_proc-IsShown before after a destroy p h = h

  created-IsShown : (s : TunnelService) (l : List PhobosProfile) → IsShown (created u decode k s l)
  unfolding created update_listbox
  created-IsShown s l =
      update_details-IsShown s
        (update_listbox (record {
          profiles = l;
          selected_index = initial_index l;
          current_tab = 0;
          last_log_count = 0;
          current_pubkey_copy = [];
          items = [];
          cursor = none;
          details = empty_details;
          log_text = [];
          tunnels_shown = true;
          logs_shown = false;
        }))
        refl (initial_index-InRange l)

  -- The list box moves its cursor only to its items, throughout.
  abbrev pub ArePossible : AppState → List Handled → Type 0
  ArePossible a [] = Unit
  ArePossible a (h ∷ hs) =
      IsPossible a h.message
      × ArePossible (window_proc u decode k h.before h.after a h.message).0 hs

  dispatch-IsShown :
      (a : AppState) (hs : List Handled)
      → ArePossible a hs
      → IsShown a
      → IsShown (dispatch u decode k a hs).0
  unfolding dispatch
  dispatch-IsShown a [] p h = h
  dispatch-IsShown a (m ∷ hs) p h =
      dispatch-IsShown (window_proc u decode k m.before m.after a m.message).0 hs p.1
        (window_proc-IsShown m.before m.after a m.message p.0 h)

  -- From its creation on, after any messages, with whatever the store and the service give and
  -- where the list box moves its cursor only to its items: the window's list has the names of its
  -- profiles, a profile is selected exactly where there is one, by an index in range, and the
  -- details are headed by that profile.
  pub run_gui-IsShown :
      (s : TunnelService) (l : List PhobosProfile) (hs : List Handled)
      → ArePossible (created u decode k s l) hs
      → IsShown (dispatch u decode k (created u decode k s l) hs).0
  run_gui-IsShown s l hs p = dispatch-IsShown (created u decode k s l) hs p (created-IsShown s l)

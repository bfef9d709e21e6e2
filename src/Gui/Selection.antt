-- ===== src/Gui/Selection.antt =====
-- The selection stays in range (src/gui.rs): what the window's state shows in front of its handlers.
use phobos_wg_client.Base.{
  ℕ, zero, suc, ◌-◌, ◌<◌, List, [], ◌∷◌, ◌++◌, Option, none, some, ◌≡◌, arith, if◌then◌else◌, leb,
  ◌==◌, length, codes,
}
use phobos_wg_client.Base.Result.{if_preserves, AllSome}
use phobos_wg_client.Archive.{PhobosProfile}
use phobos_wg_client.Text.{Text, text_eq}
use phobos_wg_client.Service.{TunnelService}
use phobos_wg_client.Gui.{
  Caption, label, AppState, empty_details, selected, client_names, reload_profiles, update_logs,
  switch_tab,
}
use phobos_wg_client.Gui.Messages.{
  Message, list_changed, add_clicked, delete_clicked, toggle_clicked, copy_pubkey_clicked,
  copy_logs_clicked, clear_logs_clicked, tab_changed, files_dropped, timer, close, destroy,
  position, or_else, initial_index,
}

abbrev pub InRange : ℕ → Option ℕ → Type 0
InRange zero none = Unit
InRange zero (some i) = ⊥
InRange (suc n) none = ⊥
InRange (suc n) (some i) = i < suc n

abbrev pub interface_text : Option PhobosProfile → Caption
interface_text none = empty_details.interface
interface_text (some p) = label (codes "Интерфейс: " ++ p.client_name)

-- The list has the profiles' names, something is selected exactly where there are profiles, and the
-- details are headed by the selected profile.
pub record IsShown (a : AppState) : Type 0 where
  pub listed : a.items ≡ client_names a.profiles
  pub in_range : InRange (length a.profiles) a.selected_index
  pub headed : a.details.interface ≡ interface_text (selected a.profiles a.selected_index)

-- The list box moves its cursor to one of its items.
abbrev pub IsPossible : AppState → Message → Type 0
IsPossible a (list_changed cur) = AllSome (λ i. i < length a.items) cur
IsPossible a (add_clicked i) = Unit
IsPossible a (delete_clicked l) = Unit
IsPossible a toggle_clicked = Unit
IsPossible a copy_pubkey_clicked = Unit
IsPossible a copy_logs_clicked = Unit
IsPossible a clear_logs_clicked = Unit
IsPossible a (tab_changed t) = Unit
IsPossible a (files_dropped l) = Unit
IsPossible a (timer id) = Unit
IsPossible a close = Unit
IsPossible a destroy = Unit

pub some-InRange : (n i : ℕ) → i < n → InRange n (some i)
some-InRange zero i h = absurd (omega arith)
some-InRange (suc n) i h = h

pub initial_index-InRange : (l : List PhobosProfile) → InRange (length l) (initial_index l)
initial_index-InRange [] = tt
initial_index-InRange (p ∷ l) = omega arith

pub reload_profiles-InRange :
    (l : List PhobosProfile) (a : AppState)
    → InRange (length l) (reload_profiles l a).selected_index
unfolding reload_profiles
reload_profiles-InRange [] a = tt
reload_profiles-InRange (p ∷ l) a = go a.selected_index
  where
    go :
        (o : Option ℕ)
        → InRange (suc (length l)) (elim o [
          | none ↦ some 0
          | some sel ↦ if leb (length (p ∷ l)) sel then some (length (p ∷ l) - 1) else some sel
        ])
    go none = omega arith
    go (some sel) =
        if_preserves (InRange (suc (length l))) (leb (length (p ∷ l)) sel)
          (some (length (p ∷ l) - 1)) (some sel) (λ e. omega arith) (λ e. ground arith)

pub position-bound :
    (name : Text) (l : List PhobosProfile) → AllSome (λ i. i < length l) (position name l)
unfolding position
position-bound name [] = tt
position-bound name (p ∷ l) =
    if_preserves (AllSome (λ i. i < suc (length l))) (text_eq p.client_name name) (some 0)
      (elim (position name l) [ none ↦ none | some i ↦ some (suc i) ]) (λ e. omega arith)
      (λ e. go (position name l) (position-bound name l))
  where
    go :
        (o : Option ℕ)
        → AllSome (λ i. i < length l) o
        → AllSome (λ i. i < suc (length l)) (elim o [ none ↦ none | some i ↦ some (suc i) ])
    go none h = tt
    go (some i) h = omega arith

pub or_else-InRange :
    (n : ℕ) (o d : Option ℕ) → AllSome (λ i. i < n) o → InRange n d → InRange n (or_else o d)
or_else-InRange n none d h k = k
or_else-InRange n (some i) d h k = some-InRange n i h

pub update_logs-IsShown : (s : TunnelService) (a : AppState) → IsShown a → IsShown (update_logs s a)
unfolding update_logs
update_logs-IsShown s a h =
    if_preserves (λ x. IsShown x) (length s.logs == a.last_log_count) a
      (record a { last_log_count = length s.logs; log_text = s.logs }) (λ e. h)
      (λ e. record { listed = h.listed; in_range = h.in_range; headed = h.headed })

pub switch_tab-IsShown :
    (s : TunnelService) (t : ℕ) (a : AppState) → IsShown a → IsShown (switch_tab s t a)
unfolding switch_tab
switch_tab-IsShown s t a h =
    let b : AppState = record a { current_tab = t; tunnels_shown = t == 0; logs_shown = t == 1 } in
    let shown : IsShown b = record {
      listed = h.listed;
      in_range = h.in_range;
      headed = h.headed;
    } in
    if_preserves (λ x. IsShown x) (t == 1) (update_logs s b) b (λ e. update_logs-IsShown s b shown)
      (λ e. shown)

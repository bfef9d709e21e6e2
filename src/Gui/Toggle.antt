-- ===== src/Gui/Toggle.antt =====
-- The button and the status in the details (src/gui.rs).
use phobos_wg_client.Base.{
  ℕ, Bool, true, false, not, ◌&&◌, List, [], ◌∷◌, some, ◌≡◌, refl, ◌⊎◌, inl, inr, if◌then◌else◌,
}
use phobos_wg_client.Archive.{PhobosProfile}
use phobos_wg_client.Text.{Text, CaseTable}
use phobos_wg_client.Tunnel.Setup.{Noise}
use phobos_wg_client.WgConfig.{Decode}
use phobos_wg_client.WindowsNet.{Table}
use phobos_wg_client.Service.{SetupError, TunnelService, error, log_fn}
use phobos_wg_client.Service.Stages.{Answers, Effect, fail}
use phobos_wg_client.Service.Session.{advance}
use phobos_wg_client.Gui.{
  Caption, KeyPrinter, AppState, disconnect_text, connect_text, off_text, details_of, selected,
  is_name, is_disconnected, update_details,
}
use phobos_wg_client.Gui.Messages.{toggle_clicked, Call, call_stop, call_start, window_proc}

-- The button's caption and what it calls.
abbrev pub Fits : PhobosProfile → Caption → List Call → Type 0
Fits p c calls =
    ((c ≡ disconnect_text) × (calls ≡ call_stop ∷ []))
    ⊎ ((c ≡ connect_text) × (calls ≡ call_start p ∷ []))

choice-Fits :
    (p : PhobosProfile) (b : Bool)
    → Fits p
        (if b then disconnect_text else connect_text)
        ((if b then call_stop else call_start p) ∷ [])
choice-Fits p true = inl (refl, refl)
choice-Fits p false = inr (refl, refl)

module _ (u : CaseTable) (decode : Decode) (k : KeyPrinter) where
  -- Where a profile is selected, the button whose caption was written for the service as it is does
  -- what it says: it stops the service under "disconnect" and starts the profile under "connect".
  pub toggle-Fits :
      (s after : TunnelService) (a : AppState) (p : PhobosProfile)
      → selected a.profiles a.selected_index ≡ some p
      → let b = update_details u decode k s a in
        Fits p b.details.toggle (window_proc u decode k s after b toggle_clicked).1
  unfolding update_details details_of window_proc
  toggle-Fits s after a p e = simp e (
      choice-Fits p (is_name s.active_profile_name p.client_name && not (is_disconnected s.status)))

  -- A session that fails leaves its error as the status, but the window shows it for no profile: the
  -- name is cleared by then, so the selected profile is shown as disconnected.
  pub error_unseen :
      {T : Type 0} (n : Noise T) (q p : PhobosProfile) (w : Answers) (elapsed : ℕ) (time : Text)
      (e : SetupError) (s : TunnelService) (t : Table) (a : AppState)
      → selected a.profiles a.selected_index ≡ some p
      → let x : Effect T = fail time e s t in
        let y = advance u decode n q w elapsed x.service x.table x.stage in
        (y.service.status ≡ error e)
        × ((update_details u decode k y.service a).details.status ≡ off_text)
  unfolding fail advance log_fn update_details details_of
  error_unseen n q p w elapsed time e s t a h = simp h (refl, refl)

-- ===== src/Gui/Run.antt =====
-- `run_gui` as a whole (src/gui.rs): where the window stands, its messages, and the end.
use phobos_wg_client.Base.{
  ℕ, ◌+◌, ◌-◌, ◌/◌, ◌≤◌, Bool, not, List, [], ◌∷◌, ◌++◌, ◌≡◌, arith, if◌then◌else◌, leb, ◌==◌,
}
use phobos_wg_client.Base.Result.{Result, ok, err}
use phobos_wg_client.Archive.{PhobosProfile}
use phobos_wg_client.Text.{CaseTable}
use phobos_wg_client.WgConfig.{Decode}
use phobos_wg_client.Service.{TunnelService, is_active}
use phobos_wg_client.Gui.{KeyPrinter}
use phobos_wg_client.Gui.Messages.{Call, call_stop, created, Handled, dispatch}

-- A coordinate of 32 bits with a sign; `negsuc n` is -(n + 1).
pub data ℤ : Type 0 where
  pos : ℕ → ℤ
  negsuc : ℕ → ℤ

abbrev pub win_w : ℕ
win_w = 760

abbrev pub win_h : ℕ
win_h = 555

abbrev negated : ℕ → ℤ
negated n = if n == 0 then pos 0 else negsuc (n - 1)

-- `(screen - win) / 2`, which is cut towards 0.
unfoldable pub centered : ℕ → ℕ → ℤ
centered screen win =
    if leb win screen then pos ((screen - win) / 2) else negated ((win - screen) / 2)

pub data RunGuiError : Type 0 where
  no_window : RunGuiError

pub record GuiRun : Type 0 where
  pub result : Result RunGuiError (Unit {0})
  pub calls : List Call

-- `is_window` tells whether the window could be created; `s` is the service at its creation and `last`
-- behind the messages.
unfoldable pub run_gui :
    CaseTable
    → Decode
    → KeyPrinter
    → Bool
    → TunnelService
    → TunnelService
    → List PhobosProfile
    → List Handled
    → GuiRun
run_gui u decode k is_window s last loaded hs =
    if not is_window then record { result = err no_window; calls = [] } else record {
      result = ok tt;
      calls =
          (dispatch u decode k (created u decode k s loaded) hs).1
          ++ (if is_active last then call_stop ∷ [] else []);
    }

-- On a screen that is large enough the window has all of its size, and margins that differ by one
-- at most.
pub centered-inside :
    (screen win : ℕ)
    → win ≤ screen
    → (m : ℕ) × (centered screen win ≡ pos m) × (m + m + win ≤ screen) × (screen ≤ m + m + win + 1)
unfolding centered
centered-inside screen win h = ((screen - win) / 2, ground arith, omega arith, omega arith)

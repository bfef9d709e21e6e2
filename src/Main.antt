-- ===== src/Main.antt =====
-- The start of the program (src/main.rs): its mode, the file that it is given and the prompt for one.
-- What the file system, the console and the elevation answer is an argument; `inputs` are the lines
-- that are typed.
pub mod Prompt
pub mod Modes
pub mod Cleaning
mod Tests
use phobos_wg_client.Base.{
  ℕ, zero, suc, Bool, true, false, not, ◌&&◌, ◌||◌, List, [], ◌∷◌, Option, none, some,
  if◌then◌else◌, ◌==◌, length, codes, ltb,
}
use phobos_wg_client.Base.Result.{Result, ok, err}
use phobos_wg_client.Archive.{FilePath}
use phobos_wg_client.Store.{is_supported_profile_path}
use phobos_wg_client.WindowsNet.Elevation.{ElevateError}
use phobos_wg_client.Text.{Text, CaseTable, text_eq, trim, trim_by, starts_with}

-- A path as the file system knows it.
pub record Place : Type 0 where
  pub path : FilePath
  pub is_file : Bool

unfoldable pub clean_path : Text → Text
clean_path raw = trim_by (λ c. c == 0x27) (trim_by (λ c. c == 0x22) (trim raw))

unfoldable pub any_is : Text → List Text → Bool
any_is flag [] = false
any_is flag (a ∷ args) = text_eq a flag || any_is flag args

abbrev pub is_proxy_mode : List Text → Bool
is_proxy_mode args = any_is (codes "--proxy") args || any_is (codes "-p") args

abbrev pub is_cli_mode : List Text → Bool
is_cli_mode args = any_is (codes "--cli") args

abbrev pub is_help : List Text → Bool
is_help args = any_is (codes "--help") args || any_is (codes "-h") args

-- The first argument that is no option.
unfoldable pub first_file : List Text → Option Text
first_file [] = none
first_file (a ∷ args) =
    let later = first_file args in if starts_with a (codes "-") then later else some (clean_path a)

unfoldable pub passed_file : List Text → Option Text
passed_file [] = none
passed_file (program ∷ args) = first_file args

abbrev pub is_supported : CaseTable → Place → Bool
is_supported u p = p.is_file && is_supported_profile_path u p.path

-- The supported files of the directory.
unfoldable pub supported_files : CaseTable → (Text → Place) → List Text → List Text
supported_files u place [] = []
supported_files u place (p ∷ dir) =
    let rest = supported_files u place dir in if is_supported u (place p) then p ∷ rest else rest

-- The loop of the prompt; a line that cannot be read is `none`, and so is the outcome where the
-- prompt waits for more.
unfoldable pub prompt : CaseTable → (Text → Place) → List (Option Text) → Option Text
prompt u place [] = none
prompt u place (none ∷ inputs) = prompt u place inputs
prompt u place (some input ∷ inputs) =
    let later = prompt u place inputs in
    let path = clean_path input in if is_supported u (place path) then some path else later

abbrev pub only_or : List Text → Option Text → Option Text
only_or [] d = d
only_or (p ∷ []) d = some p
only_or (p ∷ q ∷ rest) d = d

unfoldable pub find_or_prompt_package :
    CaseTable → (Text → Place) → List Text → List (Option Text) → Option Text
find_or_prompt_package u place dir inputs =
    only_or (supported_files u place dir) (prompt u place inputs)

-- What the surroundings answer.
pub record Surroundings : Type 0 where
  pub is_admin : Bool
  pub elevate : Result ElevateError (Unit {0})
  pub place : Text → Place
  pub dir : List Text
  pub inputs : List (Option Text)

-- How the start ends; a mode with its file, `none` where the prompt still waits.
pub data Outcome : Type 0 where
  helped : Outcome
  relaunched : Outcome
  not_elevated : ElevateError → Outcome
  proxy : Option Text → Outcome
  cli : Option Text → Outcome
  gui : Outcome

-- The outcome, and the file that is imported first.
pub record Start : Type 0 where
  pub outcome : Outcome
  pub imported : Option Text

abbrev pub elevation : Result ElevateError (Unit {0}) → Start
elevation (ok u) = record { outcome = relaunched; imported = none }
elevation (err e) = record { outcome = not_elevated e; imported = none }

abbrev pub import_of : CaseTable → (Text → Place) → Option Text → Option Text
import_of u place none = none
import_of u place (some p) = if is_supported u (place p) then some p else none

abbrev pub path_or : Option Text → Option Text → Option Text
path_or none d = d
path_or (some p) d = some p

unfoldable pub choose_mode : CaseTable → Surroundings → List Text → Outcome
choose_mode u s args =
    let path = path_or (passed_file args) (find_or_prompt_package u s.place s.dir s.inputs) in
    if is_proxy_mode args then proxy path else if is_cli_mode args then cli path else gui

unfoldable pub main : CaseTable → Surroundings → List Text → Start
main u s args =
    if is_help args
    then record { outcome = helped; imported = none }
    else if not (is_proxy_mode args) && not s.is_admin
    then elevation s.elevate
    else record {
      outcome = choose_mode u s args;
      imported = import_of u s.place (passed_file args);
    }

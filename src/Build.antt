-- ===== src/Build.antt =====
-- The build script (build.rs): the search for the resource compiler, and the lines for cargo. What
-- the environment and the commands answer is an argument; a path is the list of its parts.
use phobos_wg_client.Base.{
  Bool, true, false, List, [], ◌∷◌, ◌++◌, Option, none, some, ◌≡◌, ap, inl, inr, Bool-cases,
  if◌then◌else◌, codes,
}
use phobos_wg_client.Text.{Text, text_eq, trim}
use phobos_wg_client.Text.Lines.{lines}

-- `where_rc` is what `where rc.exe` gives, if it runs: its success and its output; `compile` whether
-- the compiler that is called succeeds, if it runs.
pub record Environment : Type 0 where
  pub out_dir : Text
  pub where_rc : Option (Bool × Text)
  pub exists : Text → Bool
  pub compile : Text → List Text → Option Bool
  pub profile : Option Text

pub data CargoLine : Type 0 where
  rerun_if_changed : Text → CargoLine
  link_file : List Text → CargoLine
  link_arg : Text → CargoLine

abbrev pub rc_candidates : List Text
rc_candidates =
    codes "C:\\Program Files (x86)\\Windows Kits\\10\\bin\\10.0.26100.0\\x64\\rc.exe"
    ∷ codes "C:\\Program Files (x86)\\Windows Kits\\10\\bin\\10.0.22621.0\\x64\\rc.exe"
    ∷ codes "C:\\Program Files (x86)\\Windows Kits\\10\\bin\\10.0.19041.0\\x64\\rc.exe"
    ∷ codes "C:\\Program Files (x86)\\Windows Kits\\10\\bin\\x64\\rc.exe"
    ∷ []

abbrev if_exists : (Text → Bool) → Text → Option Text
if_exists exists path = if exists path then some path else none

abbrev first_line : (Text → Bool) → List Text → Option Text
first_line exists [] = none
first_line exists (l ∷ rest) = if_exists exists (trim l)

abbrev pub from_where : (Text → Bool) → Option (Bool × Text) → Option Text
from_where exists none = none
from_where exists (some (success, stdout)) =
    if success then first_line exists (lines stdout) else none

-- The loop over the candidates.
unfoldable pub first_existing : (Text → Bool) → List Text → Option Text
first_existing exists [] = none
first_existing exists (c ∷ cs) =
    let later = first_existing exists cs in if exists c then some c else later

abbrev or_search : Option Text → Option Text → Option Text
or_search none d = d
or_search (some p) d = some p

unfoldable pub find_rc : Environment → Option Text
find_rc e = or_search (from_where e.exists e.where_rc) (first_existing e.exists rc_candidates)

abbrev pub res_path : Environment → List Text
res_path e = e.out_dir ∷ codes "app.res" ∷ []

abbrev pub linked : Environment → Option Bool → List CargoLine
linked e (some true) = link_file (res_path e) ∷ []
linked e (some false) = []
linked e none = []

abbrev pub compiled : Environment → Option Text → List CargoLine
compiled e none = []
compiled e (some rc_exe) = linked e (e.compile rc_exe (res_path e))

abbrev pub is_release : Option Text → Bool
is_release none = false
is_release (some p) = text_eq p (codes "release")

abbrev pub manifest : List CargoLine
manifest =
    link_arg (codes "/MANIFEST:EMBED")
    ∷ link_arg (codes "/MANIFESTUAC:level='requireAdministrator' uiAccess='false'")
    ∷ []

-- `main`, where the variable `OUT_DIR` is set.
unfoldable pub build : Environment → List CargoLine
build e =
    rerun_if_changed (codes "app.rc")
    ∷ rerun_if_changed (codes "assets/icon.ico")
    ∷ (compiled e (find_rc e) ++ (if is_release e.profile then manifest else []))

abbrev Exists : Environment → Option Text → Type 0
Exists e none = Unit
Exists e (some p) = e.exists p ≡ true

first_existing-Exists : (e : Environment) (l : List Text) → Exists e (first_existing e.exists l)
unfolding first_existing
first_existing-Exists e [] = tt
first_existing-Exists e (c ∷ cs) = elim (Bool-cases (e.exists c)) [
  | inl h ↦ rw h h
  | inr h ↦ rw h (first_existing-Exists e cs)
]

from_where-Exists : (e : Environment) (o : Option (Bool × Text)) → Exists e (from_where e.exists o)
from_where-Exists e none = tt
from_where-Exists e (some (false, out)) = tt
from_where-Exists e (some (true, out)) = go (lines out)
  where
    go : (l : List Text) → Exists e (first_line e.exists l)
    go [] = tt
    go (l ∷ rest) = elim (Bool-cases (e.exists (trim l))) [ inl h ↦ rw h h | inr h ↦ rw h tt ]

-- The compiler that is found exists.
pub find_rc-Exists : (e : Environment) → Exists e (find_rc e)
unfolding find_rc
find_rc-Exists e = go (from_where e.exists e.where_rc) (from_where-Exists e e.where_rc)
  where
    go :
        (o : Option Text)
        → Exists e o
        → Exists e (or_search o (first_existing e.exists rc_candidates))
    go none h = first_existing-Exists e rc_candidates
    go (some p) h = h

-- Where no compiler is found or it fails, a release still embeds the manifest that asks for an
-- administrator, and nothing else is linked.
pub build-unlinked :
    (e : Environment)
    → compiled e (find_rc e) ≡ []
    → build e
      ≡ rerun_if_changed (codes "app.rc")
        ∷ rerun_if_changed (codes "assets/icon.ico")
        ∷ (if is_release e.profile then manifest else [])
unfolding build
build-unlinked e h =
    ap
      (λ l.
        rerun_if_changed (codes "app.rc")
        ∷ rerun_if_changed (codes "assets/icon.ico")
        ∷ (l ++ (if is_release e.profile then manifest else [])))
      h

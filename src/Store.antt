-- ===== src/Store.antt =====
-- The store of profiles (src/profile_store.rs): import, deletion and loading over a directory, which
-- is the list of its entries. DPAPI and the file system are dependencies: what they give or answer is
-- an argument.
pub mod Importing
pub mod Naming
pub mod Deleted
pub mod Order
pub mod Listing
pub mod Directory
pub mod Unordered
pub mod Dpapi
mod Tests
use phobos_wg_client.Base.{
  ℕ, zero, suc, Bool, true, false, not, ◌&&◌, ◌||◌, List, [], ◌∷◌, ◌++◌, Option, none, some,
  if◌then◌else◌, ltb, ◌==◌, from_option, length, Bytes, codes,
}
use phobos_wg_client.Base.Result.{Result, ok, err, ◌>>=◌, map_err}
use phobos_wg_client.Archive.{PhobosProfile, LoadError, FilePath, sanitize_client_name}
use phobos_wg_client.Archive.File.{Source, dpapi_magic, load_from_file}
use phobos_wg_client.WindowsNet.Elevation.{AclError}
use phobos_wg_client.Text.{
  Text, CaseTable, to_lowercase, ends_with, starts_with, eq_ignore_ascii_case, trim_end_matches,
  strip_prefix,
}

unfoldable pub is_supported_profile_path : CaseTable → FilePath → Bool
is_supported_profile_path u path =
    let filename = to_lowercase u (from_option path.file_name []) in
    ends_with filename (codes ".tar.gz")
    || ends_with filename (codes ".tgz")
    || ends_with filename (codes ".conf")
    || ends_with filename (codes ".enc")

pub data StoreError : Type 0 where
  not_a_file : StoreError
  unsupported : StoreError
  not_loaded : LoadError → StoreError
  not_read : Text → StoreError
  not_protected : Text → StoreError
  not_written : Text → StoreError
  not_removed : Text → StoreError
  not_found : StoreError

-- `get_profiles_dir`: the parts of the directory's path, `appdata` being the variable's value. The
-- directory is created there; whether it could be is not asked.
unfoldable pub profiles_dir : Option Text → List Text
profiles_dir none = codes "profiles" ∷ []
profiles_dir (some appdata) = appdata ∷ codes "Phobos" ∷ codes "profiles" ∷ []

-- The file that is imported, as it is loaded and as it is read again, and what the dependencies do;
-- `write` answers to the directory, the file's name and its content.
pub record Import : Type 0 where
  pub source : Source
  pub is_file : Bool
  pub read_again : Result Text Bytes
  pub dpapi_protect : Bytes → Result Text Bytes
  pub appdata : Option Text
  pub write : List Text → Text → Bytes → Result Text (Unit {0})
  pub acl : Result AclError (Unit {0})

-- The profile, and the file that is written: its directory, its name and its content; and whether its
-- access is restricted, where a refusal is ignored.
pub record Imported : Type 0 where
  pub profile : PhobosProfile
  pub dir : List Text
  pub name : Text
  pub payload : Bytes
  pub acl : Result AclError (Unit {0})

-- What is written for the file's bytes: they are encrypted behind `DPAPI_MAGIC` if they are not yet.
unfoldable pub protect : Import → Bytes → Result StoreError Bytes
protect i raw_bytes =
    if starts_with raw_bytes dpapi_magic
    then ok raw_bytes
    else (do enc ← map_err not_protected (i.dpapi_protect raw_bytes); ok (dpapi_magic ++ enc))

abbrev pub stored_name : PhobosProfile → Text
stored_name p = sanitize_client_name p.client_name ++ codes ".enc"

abbrev pub imported : Import → PhobosProfile → Bytes → Imported
imported i p payload = record {
  profile = p;
  dir = profiles_dir i.appdata;
  name = stored_name p;
  payload = payload;
  acl = i.acl;
}

unfoldable pub import_loaded : Import → PhobosProfile → Result StoreError Imported
import_loaded i profile = do
  raw_bytes ← map_err not_read i.read_again
  payload ← protect i raw_bytes
  let dir = profiles_dir i.appdata
  done ← map_err not_written (i.write dir (stored_name profile) payload)
  ok (imported i profile payload)

unfoldable pub import_profile : CaseTable → Import → Result StoreError Imported
import_profile u i =
    if not i.source.exists || not i.is_file
    then err not_a_file
    else if not (is_supported_profile_path u i.source.path)
    then err unsupported
    else (do profile ← map_err not_loaded (load_from_file u i.source); import_loaded i profile)

-- An entry of the directory; `removed` is what its removal answers.
pub record DirEntry : Type 0 where
  pub source : Source
  pub is_file : Bool
  pub extension : Option Text
  pub removed : Result Text (Unit {0})

-- `trim_start_matches("phobos-")`, which cuts every copy in front; at most `fuel` of them.
unfoldable pub trim_phobos : ℕ → Text → Text
trim_phobos zero s = s
trim_phobos (suc fuel) s = elim (strip_prefix s (codes "phobos-")) [
  | none ↦ s
  | some t ↦ trim_phobos fuel t
]

-- By the profile's name, or where the file is no profile by the file's.
abbrev pub matches_loaded : Text → FilePath → Result LoadError PhobosProfile → Bool
matches_loaded client_name path (ok profile) = eq_ignore_ascii_case profile.client_name client_name
matches_loaded client_name path (err e) =
    let stem = from_option path.file_stem [] in
    let clean_stem = trim_phobos (length stem) (trim_end_matches (codes ".tar") stem) in
    eq_ignore_ascii_case clean_stem client_name || eq_ignore_ascii_case stem client_name

unfoldable pub is_match : CaseTable → Text → DirEntry → Bool
is_match u client_name entry =
    entry.is_file && matches_loaded client_name entry.source.path (load_from_file u entry.source)

-- The outcome and the entries that are left; a refused removal ends the loop.
pub record Deletion : Type 0 where
  pub result : Result StoreError Bool
  pub left : List DirEntry

abbrev pub keep : DirEntry → Deletion → Deletion
keep entry d = record d { left = entry ∷ d.left }

abbrev pub found_one : Result StoreError Bool → Result StoreError Bool
found_one (ok b) = ok true
found_one (err e) = err e

abbrev pub remove_then : DirEntry → List DirEntry → Result Text (Unit {0}) → Deletion → Deletion
remove_then entry rest (ok u) d = record d { result = found_one d.result }
remove_then entry rest (err e) d = record { result = err (not_removed e); left = entry ∷ rest }

-- The loop; `ok` says whether an entry was found.
unfoldable pub delete_entries : CaseTable → Text → List DirEntry → Deletion
delete_entries u client_name [] = record { result = ok false; left = [] }
delete_entries u client_name (entry ∷ rest) =
    let d = delete_entries u client_name rest in
    if is_match u client_name entry then remove_then entry rest entry.removed d else keep entry d

abbrev pub or_not_found : Result StoreError Bool → Result StoreError (Unit {0})
or_not_found (ok true) = ok tt
or_not_found (ok false) = err not_found
or_not_found (err e) = err e

unfoldable pub delete_profile :
    CaseTable → Text → List DirEntry → Result StoreError (Unit {0}) × List DirEntry
delete_profile u client_name dir =
    let d = delete_entries u client_name dir in (or_not_found d.result, d.left)

-- The order of texts, that of their UTF-8.
unfoldable pub text_le : Text → Text → Bool
text_le [] t = true
text_le (c ∷ s) [] = false
text_le (c ∷ s) (d ∷ t) = ltb c d || c == d && text_le s t

abbrev pub name_le : CaseTable → PhobosProfile → PhobosProfile → Bool
name_le u p q = text_le (to_lowercase u p.client_name) (to_lowercase u q.client_name)

-- The stable sort of the standard library.
unfoldable pub insert_sorted : CaseTable → PhobosProfile → List PhobosProfile → List PhobosProfile
insert_sorted u p [] = p ∷ []
insert_sorted u p (q ∷ qs) = if name_le u p q then p ∷ q ∷ qs else q ∷ insert_sorted u p qs

abbrev pub is_profile_extension : Option Text → Bool
is_profile_extension none = false
is_profile_extension (some ext) =
    eq_ignore_ascii_case ext (codes "enc")
    || eq_ignore_ascii_case ext (codes "gz")
    || eq_ignore_ascii_case ext (codes "tgz")
    || eq_ignore_ascii_case ext (codes "conf")

abbrev pub insert_loaded :
    CaseTable → Result LoadError PhobosProfile → List PhobosProfile → List PhobosProfile
insert_loaded u (ok p) ps = insert_sorted u p ps
insert_loaded u (err e) ps = ps

unfoldable pub load_all_profiles : CaseTable → List DirEntry → List PhobosProfile
load_all_profiles u [] = []
load_all_profiles u (entry ∷ rest) =
    let ps = load_all_profiles u rest in
    if is_profile_extension entry.extension
    then insert_loaded u (load_from_file u entry.source) ps
    else ps

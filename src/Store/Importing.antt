-- ===== src/Store/Importing.antt =====
-- An imported profile is loaded from the store as it was imported (src/profile_store.rs).
use phobos_wg_client.Base.{true, some, ◌≡◌, Bytes}
use phobos_wg_client.Base.Result.{Result, ok}
use phobos_wg_client.Archive.{PhobosProfile, sanitize_client_name}
use phobos_wg_client.Archive.File.{Source, load_from_file}
use phobos_wg_client.Text.{Text, CaseTable}
use phobos_wg_client.Store.{Import, Imported, protect, stored_name}

-- The stored file of a profile that was imported from `source`, which holds `payload`.
abbrev pub stored : Source → PhobosProfile → Bytes → Source
stored source p payload = record source {
  exists = true;
  opened = ok (ok payload);
  path = record {
    file_name = some (stored_name p);
    file_stem = some (sanitize_client_name p.client_name);
  };
}

-- What is written for the file's bytes, as they are read again.
abbrev IsWritten : Import → Imported → Type 0
IsWritten i m = (raw : Bytes) × (i.read_again ≡ ok raw) × (protect i raw ≡ ok m.payload)

abbrev IsMade : Import → PhobosProfile → Imported → Type 0
IsMade i p m = (m.profile ≡ p) × IsWritten i m

-- What an import that succeeds has loaded and written.
abbrev IsFrom : CaseTable → Import → Imported → Type 0
IsFrom u i m = (i.source.exists ≡ true) × (load_from_file u i.source ≡ ok m.profile) × IsWritten i m

-- DPAPI decrypts what it has encrypted.
abbrev pub Unprotects : Import → Type 0
Unprotects i =
    (bytes enc : Bytes) → i.dpapi_protect bytes ≡ ok enc → i.source.dpapi_unprotect enc ≡ ok bytes

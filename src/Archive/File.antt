-- ===== src/Archive/File.antt =====
-- `load_from_file` (src/archive.rs): the formats that are tried on a file, and in which order.
use phobos_wg_client.Base.{
  Bool, true, not, ◌||◌, List, [], ◌∷◌, ◌++◌, ◌≡◌, refl, ap, ◌∙◌, if◌then◌else◌, from_option, Bytes,
  codes, length, drop,
}
use phobos_wg_client.Base.Result.{Result, ok, err, ◌>>=◌, map_err}
use phobos_wg_client.Text.{Text, CaseTable, to_lowercase, ends_with, starts_with}
use phobos_wg_client.Archive.{
  PhobosProfile, LoadError, file_not_found, open_failed, read_failed, unprotect_failed,
  invalid_utf8, FilePath, Entry, load_from_conf_string, load_from_tar_gz,
}

-- The file as it is read, and the dependencies that `load_from_file` calls on its bytes.
pub record Source : Type 0 where
  pub exists : Bool
  pub opened : Result Text (Result Text Bytes)
  pub path : FilePath
  pub dpapi_unprotect : Bytes → Result Text Bytes
  pub from_utf8 : Bytes → Result Text Text
  pub unpack : Bytes → Result Text (List (Result Text Entry))

abbrev pub dpapi_magic : Bytes
dpapi_magic = codes "PHOBOS_DPAPI_V1" ++ 0 ∷ []

-- The bytes of the file, decrypted behind `DPAPI_MAGIC`.
unfoldable pub read_bytes : Source → Result LoadError Bytes
read_bytes f = do
  file ← map_err open_failed f.opened
  raw_bytes ← map_err read_failed file
  (if starts_with raw_bytes dpapi_magic
      then map_err unprotect_failed (f.dpapi_unprotect (drop (length dpapi_magic) raw_bytes))
      else ok raw_bytes)

-- `if let Ok(profile) = ... { return Ok(profile) }`
abbrev pub or_try {ℓ κ} : {E : Type ℓ} {A : Type κ} → Result E A → Result E A → Result E A
or_try (ok a) r = ok a
or_try (err e) r = r

unfoldable pub is_package_name : Text → Bool
is_package_name filename =
    ends_with filename (codes ".tar.gz")
    || ends_with filename (codes ".tgz")
    || ends_with filename (codes ".enc")

abbrev pub as_archive : CaseTable → Source → Bytes → Result LoadError PhobosProfile
as_archive u f bytes = load_from_tar_gz u (f.unpack bytes) f.path

unfoldable pub as_conf : CaseTable → Source → Bytes → Result LoadError PhobosProfile
as_conf u f bytes = do
  content ← map_err invalid_utf8 (f.from_utf8 bytes)
  load_from_conf_string u content (from_option f.path.file_stem (codes "phobos"))

-- The three attempts on the bytes.
unfoldable pub try_formats : CaseTable → Source → Bytes → Result LoadError PhobosProfile
try_formats u f bytes =
    let filename = to_lowercase u (from_option f.path.file_name []) in
    let archive = as_archive u f bytes in
    let conf = as_conf u f bytes in
    let fallback = or_try conf (or_try archive conf) in
    if is_package_name filename then or_try archive fallback else fallback

unfoldable pub load_from_file : CaseTable → Source → Result LoadError PhobosProfile
load_from_file u f =
    if not f.exists then err file_not_found else (do bytes ← read_bytes f; try_formats u f bytes)

or_try-repeated {ℓ κ} :
    {E : Type ℓ} {A : Type κ} (a c : Result E A) → or_try a (or_try c (or_try a c)) ≡ or_try a c
or_try-repeated (ok a) c = refl
or_try-repeated (err e) (ok c) = refl
or_try-repeated (err e) (err e') = refl

-- The file's bytes are tried as a package first where its lower-case name is a package's, and as
-- text first otherwise; where both formats are refused, the error is that of the text, and a third
-- attempt is never needed for a package's name.
pub load_from_file-order :
    (u : CaseTable) (f : Source) (bytes : Bytes)
    → f.exists ≡ true
    → read_bytes f ≡ ok bytes
    → load_from_file u f ≡ (
        if is_package_name (to_lowercase u (from_option f.path.file_name []))
        then or_try (as_archive u f bytes) (as_conf u f bytes)
        else or_try (as_conf u f bytes) (or_try (as_archive u f bytes) (as_conf u f bytes)))
unfolding load_from_file try_formats read_bytes as_conf
load_from_file-order u f bytes here e = rw here (
    ap (λ r. r >>= try_formats u f) e
    ∙ ap
        (λ r.
          if is_package_name (to_lowercase u (from_option f.path.file_name []))
          then r
          else or_try (as_conf u f bytes) (or_try (as_archive u f bytes) (as_conf u f bytes)))
        (or_try-repeated (as_archive u f bytes) (as_conf u f bytes)))

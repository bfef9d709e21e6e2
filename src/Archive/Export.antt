-- ===== src/Archive/Export.antt =====
-- The ready configuration is written to a file (src/archive.rs), and what is printed of a profile.
use phobos_wg_client.Base.{List, [], ◌∷◌, ◌++◌, ◌≡◌, refl, Bytes, codes}
use phobos_wg_client.Base.Result.{Result, ok, err}
use phobos_wg_client.Archive.{PhobosProfile, sanitize_client_name}
use phobos_wg_client.Text.{Text}
use phobos_wg_client.Text.Printed.{Printed, text, number, redacted}
use phobos_wg_client.WindowsNet.Elevation.{AclError}

unfoldable pub ready_name : PhobosProfile → Text
ready_name p = sanitize_client_name p.client_name ++ codes "-ready.conf"

-- The file: its name in the output directory, and its content; whether its access is restricted.
pub record Exported : Type 0 where
  pub name : Text
  pub content : Text
  pub acl : Result AclError (Unit {0})

abbrev pub written :
    Result AclError (Unit {0}) → PhobosProfile → Result Text (Unit {0}) → Result Text Exported
written acl p (ok u) =
    ok (record { name = ready_name p; content = p.ready_wg_conf_content; acl = acl })
written acl p (err e) = err e

-- `write` answers to a name and a content; a refused access list is only reported.
unfoldable pub export_ready_wg_conf :
    (Text → Text → Result Text (Unit {0}))
    → Result AclError (Unit {0})
    → PhobosProfile
    → Result Text Exported
export_ready_wg_conf write acl p = written acl p (write (ready_name p) p.ready_wg_conf_content)

-- `Debug` of a profile: its fields in order.
unfoldable pub debug_fields : PhobosProfile → List Printed
debug_fields p =
    text p.client_name
    ∷ text p.target
    ∷ redacted
    ∷ text p.masking
    ∷ number p.local_port
    ∷ number p.max_dummy
    ∷ number p.obfuscate_bytes
    ∷ redacted
    ∷ redacted
    ∷ []

-- `Drop`: `zeroize` empties a buffer.
unfoldable pub drop_profile : PhobosProfile → PhobosProfile
drop_profile p = record p { key = []; raw_wg_conf = []; ready_wg_conf_content = [] }

-- What is printed of a profile is the same with any secrets, and so with those that are erased.
debug_fields-redacted :
    (p : PhobosProfile) (key : Bytes) (raw ready : Text)
    → debug_fields (record p { key = key; raw_wg_conf = raw; ready_wg_conf_content = ready })
      ≡ debug_fields p
unfolding debug_fields
debug_fields-redacted p key raw ready = refl

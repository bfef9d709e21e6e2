-- ===== src/Obfuscator/Secrets.antt =====
-- `Debug` and `Drop` of an obfuscator (src/obfuscator.rs).
use phobos_wg_client.Base.{List, [], ◌∷◌, ◌≡◌, refl, Bytes}
use phobos_wg_client.Obfuscator.{Obfuscator}
use phobos_wg_client.Text.Printed.{Printed, number, redacted}

unfoldable pub debug_obfuscator : Obfuscator → List Printed
debug_obfuscator o = redacted ∷ number o.max_dummy ∷ number o.obfuscate_bytes ∷ []

unfoldable pub drop_obfuscator : Obfuscator → Obfuscator
drop_obfuscator o = record o { key = [] }

-- What is printed of an obfuscator is the same with any key.
debug_obfuscator-redacted :
    (o : Obfuscator) (key : Bytes) → debug_obfuscator (record o { key = key }) ≡ debug_obfuscator o
unfolding debug_obfuscator
debug_obfuscator-redacted o key = refl

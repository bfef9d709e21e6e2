-- ===== src/Text/Printed.antt =====
-- The fields that `Debug` prints (the standard library's `debug_struct`), before their layout.
use phobos_wg_client.Base.{ℕ, List, Option, Bytes}
use phobos_wg_client.Base.Net.{IpAddr}
use phobos_wg_client.Text.{Text}

pub data Printed : Type 0 where
  text : Text → Printed
  texts : List Text → Printed
  number : ℕ → Printed
  optional : Option ℕ → Printed
  address : IpAddr → Printed
  optional_address : Option IpAddr → Printed
  addresses : List IpAddr → Printed
  bytes : Bytes → Printed
  redacted : Printed
  optional_redacted : Option (Unit {0}) → Printed

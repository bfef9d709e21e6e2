-- ===== src/Wintun/Library.antt =====
-- The library that is loaded (src/wintun_adapter.rs).
use phobos_wg_client.Base.{
  true, Option, none, some, ◌≡◌, refl, if◌then◌else◌, Bytes, bytes_eq_sound,
}
use phobos_wg_client.Base.Result.{if_preserves, AllSome}
use phobos_wg_client.Wintun.{File, holds, extract, at_path, or_temp, in_temp, ensure_wintun_dll}

extract-embedded : (dll : Bytes) (f : File) → AllSome (λ b. b ≡ dll) (extract dll f)
unfolding extract
extract-embedded dll f =
    if_preserves (AllSome (λ b. b ≡ dll)) (holds dll f.content) f.content
      (if f.writable then some dll else none) (held f.content)
      (λ e. if_preserves (AllSome (λ b. b ≡ dll)) f.writable (some dll) none (λ e. refl) (λ e. tt))
  where
    held : (o : Option Bytes) → holds dll o ≡ true → AllSome (λ b. b ≡ dll) o
    held none h = tt
    held (some b) h = bytes_eq_sound b dll h

-- The library that is loaded is the embedded one, byte for byte, wherever it was found or written.
pub ensure_wintun_dll-embedded :
    (dll : Bytes) (exe : Option File) (temp : File)
    → AllSome (λ p. p.1 ≡ dll) (ensure_wintun_dll dll exe temp)
unfolding ensure_wintun_dll
ensure_wintun_dll-embedded dll none temp = at (extract dll temp) (extract-embedded dll temp)
  where
    at :
        (o : Option Bytes) → AllSome (λ b. b ≡ dll) o → AllSome (λ p. p.1 ≡ dll) (at_path in_temp o)
    at none h = tt
    at (some b) h = h
ensure_wintun_dll-embedded dll (some exe) temp =
    at (extract dll exe) (extract dll temp) (extract-embedded dll exe) (extract-embedded dll temp)
  where
    at :
        (o p : Option Bytes)
        → AllSome (λ b. b ≡ dll) o
        → AllSome (λ b. b ≡ dll) p
        → AllSome (λ p. p.1 ≡ dll) (or_temp o p)
    at (some b) p h k = h
    at none none h k = tt
    at none (some b) h k = k

-- ===== src/WindowsNet/Layout.antt =====
-- The layout of an address for the Windows API (src/windows_net.rs).
use phobos_wg_client.Base.{
  ℕ, ◌+◌, ◌*◌, ◌/◌, ◌%◌, ◌^◌, ◌<◌, Option, none, some, ◌≡◌, refl, ap, ◌∙◌, arith, length, get_or,
  Bytes, u32_from_le, true, false, Bool, if◌then◌else◌, ◌==◌,
}
use phobos_wg_client.Base.Net.{IpAddr, v4, v6}
use phobos_wg_client.WindowsNet.{unspecified}
use phobos_wg_client.WindowsNet.Elevation.{from_ip, unspecified_bytes}

-- A number of 32 bits in network order at an offset.
abbrev be32_at : Bytes → ℕ → ℕ
be32_at b i =
    u32_from_le (get_or b (i + 3) 0) (get_or b (i + 2) 0) (get_or b (i + 1) 0) (get_or b i 0)

-- The address in the structure as the API documents it: the family's 16 bits tell whether it stands
-- at offset 4, or in 16 bytes at offset 8.
abbrev pub read_address : Bytes → Option IpAddr
read_address b =
    let family = get_or b 0 0 + get_or b 1 0 * 2 ^ 8 in
    if family == 2
    then some (v4 (be32_at b 4))
    else if family == 23
    then some
        (v6 (be32_at b 8 * 2 ^ 96 + be32_at b 12 * 2 ^ 64 + be32_at b 16 * 2 ^ 32 + be32_at b 20))
    else none

abbrev pub IsAddress : IpAddr → Type 0
IsAddress (v4 a) = a < 2 ^ 32
IsAddress (v6 a) = a < 2 ^ 128

abbrev be32 : ℕ → ℕ
be32 n = u32_from_le (n % 2 ^ 8) (n / 2 ^ 8 % 2 ^ 8) (n / 2 ^ 16 % 2 ^ 8) (n / 2 ^ 24 % 2 ^ 8)

be32_lem : (n : ℕ) → n < 2 ^ 32 → be32 n ≡ n
be32_lem n h = omega arith

words :
    (a : ℕ)
    → a < 2 ^ 128
    → a / 2 ^ 96 % 2 ^ 32 * 2 ^ 96
        + a / 2 ^ 64 % 2 ^ 32 * 2 ^ 64
        + a / 2 ^ 32 % 2 ^ 32 * 2 ^ 32
        + a % 2 ^ 32
      ≡ a
words a h = omega arith

below : (a : ℕ) → a % 2 ^ 32 < 2 ^ 32
below a = omega arith

word : (a : ℕ) → be32 (a % 2 ^ 32) ≡ a % 2 ^ 32
word a = be32_lem (a % 2 ^ 32) (below a)

abbrev is_v6 : IpAddr → Bool
is_v6 (v4 a) = false
is_v6 (v6 a) = true

-- The structure of an address has 28 bytes, in which the API finds that very address, and that of the
-- unspecified address of its family is the one that `unspecified` makes.
pub from_ip-read_address :
    (ip : IpAddr)
    → IsAddress ip
    → (length (from_ip ip) ≡ 28)
      × (read_address (from_ip ip) ≡ some ip)
      × (from_ip (unspecified ip) ≡ unspecified_bytes (is_v6 ip))
unfolding from_ip unspecified_bytes
from_ip-read_address (v4 a) h = (refl, ap (λ x. some (v4 x)) (be32_lem a h), refl)
from_ip-read_address (v6 a) h = (
  refl,
  ap (λ x. some (v6 x))
      ((λ i.
          word (a / 2 ^ 96) i * 2 ^ 96
          + word (a / 2 ^ 64) i * 2 ^ 64
          + word (a / 2 ^ 32) i * 2 ^ 32
          + word a i)
        ∙ words a h),
  refl,
)

-- ===== src/Base/Words.antt =====
-- Integers from and to their bytes, and their widths.
use Prim.Native.Nat.{ℕ, ◌+◌, ◌*◌, ◌/◌, ◌%◌, ◌^◌, ◌<◌}
use mathlib.Core.Path.{◌≡◌}
use mathlib.Core.List.{List, [], ◌∷◌}
use native.Mathlib.Omega.{arith}

-- `u32::from_le_bytes`
abbrev pub u32_from_le : ℕ → ℕ → ℕ → ℕ → ℕ
u32_from_le a b c d = a + b * 2 ^ 8 + c * 2 ^ 16 + d * 2 ^ 24

-- `u16::from_be_bytes` and `u16::to_be_bytes`
abbrev pub u16_from_be : ℕ → ℕ → ℕ
u16_from_be a b = a * 2 ^ 8 + b

abbrev pub u16_to_be : ℕ → List ℕ
u16_to_be n = n / 2 ^ 8 % 2 ^ 8 ∷ n % 2 ^ 8 ∷ []

-- `u32::to_be_bytes`
abbrev pub u32_to_be : ℕ → List ℕ
u32_to_be n = n / 2 ^ 24 % 2 ^ 8 ∷ n / 2 ^ 16 % 2 ^ 8 ∷ n / 2 ^ 8 % 2 ^ 8 ∷ n % 2 ^ 8 ∷ []

-- `fetch_add` on an `AtomicU64`
abbrev pub add_u64 : ℕ → ℕ → ℕ
add_u64 a b = (a + b) % 2 ^ 64

pub u16_from_be-u16_to_be : (n : ℕ) → n < 2 ^ 16 → u16_from_be (n / 2 ^ 8 % 2 ^ 8) (n % 2 ^ 8) ≡ n
u16_from_be-u16_to_be n h = omega arith

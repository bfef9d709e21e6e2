-- ===== src/Base/Bits.antt =====
-- Laws of `^` and `|` on machine words, from one equation for the lowest binary digit.
use Prim.Native.Nat.{
  max, min, differ, digits, bitwise, bit_xor-bitwise, bit_or-bitwise, bit_and-bitwise,
}
use native.Mathlib.Nat.{pow-suc}
use phobos_wg_client.Base.{
  ℕ, zero, suc, ◌+◌, ◌*◌, ◌/◌, ◌%◌, ◌^◌, ◌≤◌, ◌<◌, bit_and, bit_or, bit_xor, ◌≡◌, refl, ap, ap₂,
  ◌∙◌, ◌↔◌, arith,
}

-- Any two amounts of fuel that cover the first operand give the same digits.
module _ (z : ℕ → ℕ) (f : ℕ → ℕ → ℕ) where
  covered : (a n m : ℕ) → a ≤ n → a ≤ m → (b : ℕ) → digits z f n a b ≡ digits z f m a b
  covered zero zero zero _ _ b = refl
  covered zero (suc n) zero _ _ b = refl
  covered zero zero (suc m) _ _ b = refl
  covered zero (suc n) (suc m) _ _ b = refl
  covered (suc a) zero m under _ b = absurd (omega arith)
  covered (suc a) (suc n) zero _ under b = absurd (omega arith)
  covered (suc a) (suc n) (suc m) left right b =
      ap (λ (t : ℕ). t * 2 + f (suc a % 2) (b % 2))
        (covered (suc a / 2) n m (omega arith) (omega arith) (b / 2))

  lowest_digit :
      (x y : ℕ)
      → bitwise z f (suc x) y ≡ f (suc x % 2) (y % 2) + 2 * bitwise z f (suc x / 2) (y / 2)
  lowest_digit x y =
      let half = suc x / 2 in omega (arith, covered half x half (omega arith) (omega arith) (y / 2))

xor_digit : (x y : ℕ) → bit_xor x y ≡ differ (x % 2) (y % 2) + 2 * bit_xor (x / 2) (y / 2)
xor_digit zero b = simp bit_xor-bitwise (omega arith)
xor_digit (suc a) b = simp bit_xor-bitwise (lowest_digit (λ y. y) differ a b)

differ_digits : (x y : ℕ) → x < 2 → y < 2 → differ x y ≡ (x + y) % 2
differ_digits zero y p q = omega arith
differ_digits (suc zero) zero p q = refl
differ_digits (suc zero) (suc zero) p q = refl
differ_digits (suc zero) (suc (suc y)) p q = absurd (omega arith)
differ_digits (suc (suc x)) y p q = absurd (omega arith)

pub bit_xor_step : (x y : ℕ) → bit_xor x y ≡ (x + y) % 2 + 2 * bit_xor (x / 2) (y / 2)
bit_xor_step a b =
    omega (arith, xor_digit a b, differ_digits (a % 2) (b % 2) (omega arith) (omega arith))

pub bit_or_step : (x y : ℕ) → bit_or x y ≡ max (x % 2) (y % 2) + 2 * bit_or (x / 2) (y / 2)
bit_or_step zero b = simp bit_or-bitwise (omega arith)
bit_or_step (suc a) b = simp bit_or-bitwise (lowest_digit (λ y. y) max a b)

-- The induction is on a bound of both operands.
xor_cancel_below : (n a b : ℕ) → a ≤ n → b ≤ n → bit_xor (bit_xor a b) b ≡ a
xor_cancel_below zero zero zero p q = refl
xor_cancel_below zero zero (suc b) p q = absurd (omega arith)
xor_cancel_below zero (suc a) b p q = absurd (omega arith)
xor_cancel_below (suc n) a b p q =
    let ih = xor_cancel_below n (a / 2) (b / 2) (omega arith) (omega arith) in
    let halves : bit_xor a b / 2 ≡ bit_xor (a / 2) (b / 2) = omega (arith, bit_xor_step a b) in
    omega (
      arith,
      bit_xor_step (bit_xor a b) b,
      ap (λ t. bit_xor t (b / 2)) halves,
      ih,
      bit_xor_step a b,
    )

-- `^` with the same operand twice changes nothing.
pub bit_xor_cancel : (a b : ℕ) → bit_xor (bit_xor a b) b ≡ a
bit_xor_cancel a b = xor_cancel_below (a + b) a b (omega arith) (omega arith)

pub bit_xor-lt : (k a b : ℕ) → a < 2 ^ k → b < 2 ^ k → bit_xor a b < 2 ^ k
bit_xor-lt zero zero zero p q = omega (arith, bit_xor-bitwise 0 0)
bit_xor-lt zero (suc a) b p q = absurd (omega arith)
bit_xor-lt zero zero (suc b) p q = absurd (omega arith)
bit_xor-lt (suc k) a b p q =
    let e = pow-suc 2 k in
    omega (
      arith,
      bit_xor_step a b,
      e,
      bit_xor-lt k (a / 2) (b / 2) (omega (arith, e)) (omega (arith, e)),
    )

or_bounds_below : (n a b : ℕ) → a ≤ n → b ≤ n → (a ≤ bit_or a b) × (b ≤ bit_or a b)
or_bounds_below zero zero zero p q = (omega arith, omega arith)
or_bounds_below zero zero (suc b) p q = absurd (omega arith)
or_bounds_below zero (suc a) b p q = absurd (omega arith)
or_bounds_below (suc n) a b p q =
    omega (arith, bit_or_step a b, or_bounds_below n (a / 2) (b / 2) (omega arith) (omega arith))

-- `|` is at least either operand.
pub bit_or_bounds : (a b : ℕ) → (a ≤ bit_or a b) × (b ≤ bit_or a b)
bit_or_bounds a b = or_bounds_below (a + b) a b (omega arith) (omega arith)

zero-bit_or : (b : ℕ) → bit_or 0 b ≡ b
zero-bit_or b = bit_or-bitwise 0 b

or_zero_below : (n a : ℕ) → a ≤ n → bit_or a 0 ≡ a
or_zero_below n zero p = refl
or_zero_below zero (suc a) p = absurd (omega arith)
or_zero_below (suc n) (suc a) p =
    omega (arith, bit_or_step (suc a) 0, or_zero_below n (suc a / 2) (omega arith))

or_zeros : (a b : ℕ) → (a ≡ 0) × (b ≡ 0) → bit_or a b ≡ 0
or_zeros a b h = ap₂ bit_or h.0 h.1 ∙ zero-bit_or 0

pub bit_or-zero_iff : (a b : ℕ) → (bit_or a b ≡ 0) ↔ ((a ≡ 0) × (b ≡ 0))
bit_or-zero_iff a b = (λ h. omega (arith, h, bit_or_bounds a b), or_zeros a b)

-- Bits that lie apart are joined by a sum: `lo | (hi << k)`.
pub bit_or_disjoint : (k lo hi : ℕ) → lo < 2 ^ k → bit_or lo (hi * 2 ^ k) ≡ lo + hi * 2 ^ k
bit_or_disjoint zero zero hi p = omega (arith, zero-bit_or (hi * 2 ^ 0))
bit_or_disjoint zero (suc lo) hi p = absurd (omega arith)
bit_or_disjoint (suc k) lo hi p =
    let e = pow-suc 2 k in
    let twice : hi * 2 ^ suc k ≡ hi * 2 ^ k * 2 = omega (arith, ap (λ (t : ℕ). hi * t) e) in
    let half : hi * 2 ^ suc k / 2 ≡ hi * 2 ^ k = omega (arith, twice) in
    omega (
      arith,
      bit_or_step lo (hi * 2 ^ suc k),
      ap (bit_or (lo / 2)) half,
      bit_or_disjoint k (lo / 2) hi (omega (arith, e)),
      twice,
    )

and_digit : (x y : ℕ) → bit_and x y ≡ min (x % 2) (y % 2) + 2 * bit_and (x / 2) (y / 2)
and_digit zero y = simp bit_and-bitwise (omega arith)
and_digit (suc x) y = simp bit_and-bitwise (lowest_digit (λ _. 0) min x y)

no_mask_below : (bound x : ℕ) → x ≤ bound → bit_and x 0 ≡ 0
no_mask_below bound zero _ = bit_and-bitwise 0 0
no_mask_below zero (suc x) over = absurd (omega arith)
no_mask_below (suc bound) (suc x) within =
    let half = no_mask_below bound (suc x / 2) (omega arith) in
    omega (arith, and_digit (suc x) 0, half)

mask_1 : (a : ℕ) → bit_and a 1 ≡ a % 2
mask_1 a = omega (arith, and_digit a 1, no_mask_below (a / 2) (a / 2) (omega arith))

mask_2 : (a : ℕ) → bit_and a 3 ≡ a % 4
mask_2 a = omega (arith, and_digit a 3, mask_1 (a / 2))

mask_3 : (a : ℕ) → bit_and a 7 ≡ a % 8
mask_3 a = omega (arith, and_digit a 7, mask_2 (a / 2))

mask_4 : (a : ℕ) → bit_and a 15 ≡ a % 16
mask_4 a = omega (arith, and_digit a 15, mask_3 (a / 2))

mask_5 : (a : ℕ) → bit_and a 31 ≡ a % 32
mask_5 a = omega (arith, and_digit a 31, mask_4 (a / 2))

mask_6 : (a : ℕ) → bit_and a 63 ≡ a % 64
mask_6 a = omega (arith, and_digit a 63, mask_5 (a / 2))

mask_7 : (a : ℕ) → bit_and a 127 ≡ a % 128
mask_7 a = omega (arith, and_digit a 127, mask_6 (a / 2))

-- `& 0xFF`
pub bit_and_byte : (a : ℕ) → bit_and a 255 ≡ a % 256
bit_and_byte a = omega (arith, and_digit a 255, mask_7 (a / 2))

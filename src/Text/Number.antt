-- ===== src/Text/Number.antt =====
-- `parse` into an unsigned integer type.
use phobos_wg_client.Base.{
  ℕ, zero, suc, ◌+◌, ◌-◌, ◌*◌, ◌/◌, ◌%◌, ◌^◌, ◌<◌, Bool, not, [], ◌∷◌, Option, none, some, ◌≡◌,
  arith, if◌then◌else◌, ltb, ◌==◌,
}
use phobos_wg_client.Text.{Text, is_between}

unfoldable pub is_digit : ℕ → Bool
unfolding is_between
is_digit c = is_between b'0' b'9' c

-- The digits that are left, behind the value so far; every step is checked against `limit`.
unfoldable pub digits_value : ℕ → ℕ → Text → Option ℕ
unfolding is_digit
digits_value limit n [] = some n
digits_value limit n (c ∷ s) =
    let m = n * 10 + (c - b'0') in
    let rest = digits_value limit m s in
    if not (is_digit c) then none else if ltb m limit then rest else none

-- One sign `+` may stand in front; the digits may not be missing.
unfoldable pub parse_unsigned : ℕ → Text → Option ℕ
parse_unsigned limit [] = none
parse_unsigned limit (c ∷ []) = if c == b'+' then none else digits_value limit 0 (c ∷ [])
parse_unsigned limit (c ∷ d ∷ s) =
    if c == b'+' then digits_value limit 0 (d ∷ s) else digits_value limit 0 (c ∷ d ∷ s)

abbrev pub parse_u8 : Text → Option ℕ
parse_u8 = parse_unsigned (2 ^ 8)

abbrev pub parse_u16 : Text → Option ℕ
parse_u16 = parse_unsigned (2 ^ 16)

abbrev pub parse_usize : Text → Option ℕ
parse_usize = parse_unsigned (2 ^ 64)

digits_value-lt :
    (limit : ℕ) (s : Text) (n k : ℕ) → n < limit → digits_value limit n s ≡ some k → k < limit
unfolding digits_value
digits_value-lt limit [] n k h e = ground arith
digits_value-lt limit (c ∷ s) n k h e =
    ground (arith, digits_value-lt limit s (n * 10 + (c - b'0')) k)

-- A parsed number fits its type.
pub parse_unsigned-lt :
    (limit : ℕ) (s : Text) (k : ℕ) → 0 < limit → parse_unsigned limit s ≡ some k → k < limit
unfolding parse_unsigned
parse_unsigned-lt limit [] k h e = ground arith
parse_unsigned-lt limit (c ∷ []) k h e = ground (arith, digits_value-lt limit (c ∷ []) 0 k)
parse_unsigned-lt limit (c ∷ d ∷ s) k h e =
    ground (arith, digits_value-lt limit (d ∷ s) 0 k, digits_value-lt limit (c ∷ d ∷ s) 0 k)

-- The decimal digits of `n` in front of `acc`; `fuel` is above the number of digits.
unfoldable pub show_from : ℕ → ℕ → Text → Text
show_from zero n acc = acc
show_from (suc fuel) n acc =
    let rest = show_from fuel (n / 10) ((b'0' + n % 10) ∷ acc) in
    if ltb n 10 then (b'0' + n) ∷ acc else rest

-- What `{}` prints for a number: it has no more digits than itself and one.
unfoldable pub show : ℕ → Text
unfolding show_from
show n = show_from (n + 1) n []

-- ===== src/Obfuscator/Padding.antt =====
-- How many filler bytes `encode` appends.
use phobos_wg_client.Base.{
  ℕ, ◌+◌, ◌≤◌, ◌<◌, max, false, ◌⊎◌, inl, inr, [], ◌∷◌, ◌≡◌, arith, ltb, if◌then◌else◌, length,
  length-append, Bytes, IsBytes, IsByte, All-append, u32_from_le, ◌/◌, ◌^◌, Bool-cases,
}
use phobos_wg_client.Obfuscator.{
  Obfuscator, Draws, IsDraws, is_partial, dummy_room, dummy_limit, dummy_length, pad, encode,
}
use phobos_wg_client.Base.Bits.{bit_xor-lt, bit_and_byte}
use phobos_wg_client.Obfuscator.Header.{length-xor_prefix}

pub dummy_length-bounds :
    (o : Obfuscator) (d : Draws) (n t : ℕ)
    → IsDraws d
    → (dummy_length o d n t ≡ 0)
      ⊎ ((n + dummy_length o d n t < 1024)
          × (dummy_length o d n t < 512 + o.max_dummy)
          × (is_partial o n ≡ false)
          × ((0 < o.obfuscate_bytes) → n + dummy_length o d n t ≤ o.obfuscate_bytes))
unfolding dummy_length
dummy_length-bounds o d n t h = ground (arith, h.below-lt (dummy_limit o (dummy_room o n) t))

-- `max_dummy`, or 512 for a handshake, is never reached.
dummy_length-lt_limit :
    (o : Obfuscator) (d : Draws) (n t : ℕ)
    → IsDraws d
    → (dummy_length o d n t ≡ 0) ⊎ (dummy_length o d n t < dummy_limit o (dummy_room o n) t)
unfolding dummy_length
dummy_length-lt_limit o d n t h = ground (arith, h.below-lt (dummy_limit o (dummy_room o n) t))

dummy_length-data_lt :
    (o : Obfuscator) (d : Draws) (n t : ℕ)
    → IsDraws d
    → (t ≡ 3) ⊎ (t ≡ 4)
    → (dummy_length o d n t ≡ 0) ⊎ (dummy_length o d n t < o.max_dummy)
unfolding dummy_length
dummy_length-data_lt o d n t h k = ground (arith, dummy_length-lt_limit o d n t h)

-- `partial` is the same for the padded buffer: `decode` cuts where `encode` cut.
pub is_partial-padded :
    (o : Obfuscator) (d : Draws) (n t : ℕ)
    → IsDraws d
    → is_partial o (n + dummy_length o d n t) ≡ is_partial o n
unfolding is_partial
is_partial-padded o d n t h = ground (arith, dummy_length-bounds o d n t h)

module _ (o : Obfuscator) (d : Draws) (h : IsDraws d) where
  pub length-filler : (n : ℕ) → length (if ltb 0 n then d.fill n else []) ≡ n
  length-filler n = ground (arith, h.length-fill n)

  filler-IsBytes : (n : ℕ) → IsBytes (if ltb 0 n then d.fill n else [])
  filler-IsBytes n = elim (Bool-cases (ltb 0 n)) [
    | inl e ↦ rw e (h.fill-IsBytes n)
    | inr e ↦ rw e tt
  ]

  pub length-pad :
      (b0 b1 b2 b3 : ℕ) (rest : Bytes)
      → let buf : Bytes = b0 ∷ b1 ∷ b2 ∷ b3 ∷ rest in
        length (pad o d buf) ≡ length buf + dummy_length o d (length buf) (u32_from_le b0 b1 b2 b3)
  unfolding pad
  length-pad b0 b1 b2 b3 rest =
      let n = dummy_length o d (length (b0 ∷ b1 ∷ b2 ∷ b3 ∷ rest)) (u32_from_le b0 b1 b2 b3) in
      omega (arith, length-append rest (if ltb 0 n then d.fill n else []), length-filler n)

  pub pad-IsBytes :
      (b0 b1 b2 b3 : ℕ) (rest : Bytes)
      → let buf : Bytes = b0 ∷ b1 ∷ b2 ∷ b3 ∷ rest in IsBytes buf → IsBytes (pad o d buf)
  unfolding pad
  pad-IsBytes b0 b1 b2 b3 rest b =
      let n = dummy_length o d (length (b0 ∷ b1 ∷ b2 ∷ b3 ∷ rest)) (u32_from_le b0 b1 b2 b3) in
      (
        bit_xor-lt 8 b0 d.rnd b.0 (omega (arith, h.rnd_le)),
        (
          omega (arith, h.rnd_le),
          (
            omega (arith, bit_and_byte n),
            (
              omega (arith, bit_and_byte (n / 2 ^ 8)),
              All-append IsByte rest (if ltb 0 n then d.fill n else []) b.1.1.1.1
                  (filler-IsBytes n),
            ),
          ),
        ),
      )

  -- `encode` leaves a buffer of fewer than 4 bytes alone, never shortens one, and makes none
  -- longer than 1023 bytes that was not longer before; with `obfuscate_bytes` set, and a buffer no
  -- longer than that, the result is no longer than that either.
  pub encode_bounds :
      (buf : Bytes)
      → (length buf < 4 → encode o d buf ≡ buf)
        × (length buf ≤ length (encode o d buf))
        × (length (encode o d buf) ≤ max (length buf) 1023)
        × (0 < o.obfuscate_bytes
            → length buf ≤ o.obfuscate_bytes
            → length (encode o d buf) ≤ o.obfuscate_bytes)
  unfolding encode is_partial
  encode_bounds [] = ground arith
  encode_bounds (b0 ∷ []) = ground arith
  encode_bounds (b0 ∷ b1 ∷ []) = ground arith
  encode_bounds (b0 ∷ b1 ∷ b2 ∷ []) = ground arith
  encode_bounds (b0 ∷ b1 ∷ b2 ∷ b3 ∷ rest) =
      let buf : Bytes = b0 ∷ b1 ∷ b2 ∷ b3 ∷ rest in
      ground (
        arith,
        length-xor_prefix o (is_partial o (length buf)) (pad o d buf),
        length-pad b0 b1 b2 b3 rest,
        dummy_length-bounds o d (length buf) (u32_from_le b0 b1 b2 b3) h,
      )

-- ===== src/Obfuscator/RoundTrip.antt =====
-- What `decode` makes of the result of `encode`.
use phobos_wg_client.Base.{
  ℕ, suc, ◌-◌, ◌*◌, ◌/◌, ◌%◌, ◌^◌, ◌≤◌, ◌<◌, Bool, true, false, [], ◌∷◌, ◌++◌, ◌≡◌, refl, ap, ap₂,
  ◌∙◌, arith, ltb, if◌then◌else◌, length, length-append, take-append, Bytes, u32_from_le, bit_xor,
  bit_and, bit_or, le→ltb,
}
use phobos_wg_client.Base.Bits.{bit_xor_cancel, bit_and_byte, bit_or_disjoint, bit_or-zero_iff}
use phobos_wg_client.Obfuscator.{
  Obfuscator, Draws, IsDraws, is_partial, dummy_length, pad, encode, xor_prefix, decode,
  decode_header, is_obfuscated, is_known_packet_type, has_known_type, clear_reserved, packet_type,
}
use phobos_wg_client.Obfuscator.Header.{length-xor_prefix, xor_prefix_cancel}
use phobos_wg_client.Obfuscator.Padding.{
  length-pad, length-filler, is_partial-padded, dummy_length-bounds,
}

-- The length that the header carries is read back, whatever fills the payload.
decode_header-masked :
    (b0 rnd n : ℕ) (rest filler : Bytes)
    → n < 2 ^ 16
    → length filler ≡ n
    → decode_header
        (bit_xor b0 rnd ∷ rnd ∷ bit_and n 0xFF ∷ bit_and (n / 2 ^ 8) 0xFF ∷ (rest ++ filler))
      ≡ record { ok = has_known_type (b0 ∷ 0 ∷ 0 ∷ 0 ∷ rest); buf = b0 ∷ 0 ∷ 0 ∷ 0 ∷ rest }
unfolding decode_header clear_reserved
decode_header-masked b0 rnd n rest filler small e =
    let total = length-append rest filler in
    let low = bit_and_byte n in
    let high = bit_and_byte (n / 2 ^ 8) in
    let read_back : bit_or (bit_and n 0xFF) (bit_and (n / 2 ^ 8) 0xFF * 2 ^ 8) ≡ n = omega (
      arith,
      ap₂ (λ (x : ℕ) (y : ℕ). bit_or x (y * 2 ^ 8)) low high,
      bit_or_disjoint 8 (n % 256) (n / 2 ^ 8 % 256) (omega arith),
    ) in
    let fits : ltb (suc (suc (suc (suc (length (rest ++ filler))))) - 4) n ≡ false =
      le→ltb _ _ (omega (arith, total, e)) in
    let kept : suc (suc (suc (suc (length (rest ++ filler))))) - n
        ≡ suc (suc (suc (suc (length rest)))) =
      omega (arith, total, e) in
    rw (read_back, fits, kept, take-append rest filler, bit_xor_cancel b0 rnd) refl

module _ (o : Obfuscator) (d : Draws) (h : IsDraws d) where
  -- A padded buffer is decoded as if it had not gone through the cipher.
  decode-xor_prefix :
      (p : Bool) (buf : Bytes)
      → 4 ≤ length buf
      → is_partial o (length buf) ≡ p
      → is_obfuscated buf ≡ true
      → decode o (xor_prefix o p buf) ≡ decode_header buf
  unfolding decode
  decode-xor_prefix p buf long same masked =
      let kept = length-xor_prefix o p buf in
      rw (kept, same, xor_prefix_cancel o p buf, masked, le→ltb (length buf) 4 long) refl

  pad-is_obfuscated :
      (b0 b1 b2 b3 : ℕ) (rest : Bytes) → is_obfuscated (pad o d (b0 ∷ b1 ∷ b2 ∷ b3 ∷ rest)) ≡ true
  unfolding pad is_obfuscated
  pad-is_obfuscated b0 b1 b2 b3 rest =
      let n = dummy_length o d (length (b0 ∷ b1 ∷ b2 ∷ b3 ∷ rest)) (u32_from_le b0 b1 b2 b3) in
      let low = bit_and n 0xFF in
      let high = bit_and (n / 2 ^ 8) 0xFF in
      ground (arith, h.rnd_pos, bit_or-zero_iff (bit_or d.rnd low) high, bit_or-zero_iff d.rnd low)

  -- For every key and configuration, and any random draws: decoding what was encoded gives the
  -- first byte and the payload back with the three reserved bytes zero, and succeeds exactly if
  -- that first byte is a packet type.
  pub decode-encode :
      (b0 b1 b2 b3 : ℕ) (rest : Bytes)
      → decode o (encode o d (b0 ∷ b1 ∷ b2 ∷ b3 ∷ rest))
        ≡ record { ok = has_known_type (b0 ∷ 0 ∷ 0 ∷ 0 ∷ rest); buf = b0 ∷ 0 ∷ 0 ∷ 0 ∷ rest }
  unfolding encode
  decode-encode b0 b1 b2 b3 rest =
      let buf : Bytes = b0 ∷ b1 ∷ b2 ∷ b3 ∷ rest in
      let t = u32_from_le b0 b1 b2 b3 in
      let n = dummy_length o d (length buf) t in
      let total = length-pad o d h b0 b1 b2 b3 rest in
      let same : is_partial o (length (pad o d buf)) ≡ is_partial o (length buf) =
        ap (is_partial o) total ∙ is_partial-padded o d (length buf) t h in
      let small : n < 2 ^ 16 = omega (arith, dummy_length-bounds o d (length buf) t h) in
      let long : ltb (length buf) 4 ≡ false = le→ltb (length buf) 4 (omega arith) in
      rw long (
        decode-xor_prefix (is_partial o (length buf)) (pad o d buf) (omega (arith, total)) same
          (pad-is_obfuscated b0 b1 b2 b3 rest)
        ∙ unfold pad in
          decode_header-masked b0 d.rnd n rest (if ltb 0 n then d.fill n else []) small
            (length-filler o d h n))

-- A packet of known type is long enough, and its reserved bytes are zero.
pub known_type-long : (buf : Bytes) → has_known_type buf ≡ true → 4 ≤ length buf
unfolding has_known_type packet_type is_known_packet_type
known_type-long [] k = cc
known_type-long (b0 ∷ []) k = cc
known_type-long (b0 ∷ b1 ∷ []) k = cc
known_type-long (b0 ∷ b1 ∷ b2 ∷ []) k = cc
known_type-long (b0 ∷ b1 ∷ b2 ∷ b3 ∷ rest) k = omega arith

known_type_cases :
    (b0 b1 b2 b3 : ℕ) (rest : Bytes)
    → has_known_type (b0 ∷ b1 ∷ b2 ∷ b3 ∷ rest) ≡ true
    → (b1 ≡ 0) × (b2 ≡ 0) × (b3 ≡ 0)
unfolding has_known_type packet_type is_known_packet_type
known_type_cases b0 b1 b2 b3 rest k = ground arith

-- Every WireGuard packet (a buffer with a known packet type) survives the round trip, for every
-- key, `max_dummy` and `obfuscate_bytes`, and whatever `rand` draws.
pub decode-encode_known :
    (o : Obfuscator) (d : Draws)
    → IsDraws d
    → (buf : Bytes) → has_known_type buf ≡ true
    → decode o (encode o d buf) ≡ record { ok = true; buf = buf }
decode-encode_known o d h [] k = absurd (omega (arith, known_type-long [] k))
decode-encode_known o d h (b0 ∷ []) k = absurd (omega (arith, known_type-long (b0 ∷ []) k))
decode-encode_known o d h (b0 ∷ b1 ∷ []) k =
    absurd (omega (arith, known_type-long (b0 ∷ b1 ∷ []) k))
decode-encode_known o d h (b0 ∷ b1 ∷ b2 ∷ []) k =
    absurd (omega (arith, known_type-long (b0 ∷ b1 ∷ b2 ∷ []) k))
decode-encode_known o d h (b0 ∷ b1 ∷ b2 ∷ b3 ∷ rest) k =
    let (e1, e2, e3) = known_type_cases b0 b1 b2 b3 rest k in
    let known : has_known_type (b0 ∷ 0 ∷ 0 ∷ 0 ∷ rest) ≡ true = rw (e1, e2, e3) at k in
    rw (decode-encode o d h b0 b1 b2 b3 rest, e1, e2, e3, known) refl

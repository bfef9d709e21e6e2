-- ===== src/Obfuscator/Decoding.antt =====
-- What `decode` promises of any datagram, whoever sent it.
use phobos_wg_client.Base.{
  ℕ, ◌-◌, ◌*◌, ◌^◌, ◌≤◌, true, false, inl, inr, [], ◌∷◌, ◌≡◌, refl, subst, arith, ltb, ltb-false→le,
  length, length-take, take, Bytes, IsBytes, IsByte, All-take, bit_xor, bit_or, Bool-cases,
}
use phobos_wg_client.Base.Bits.{bit_xor-lt}
use phobos_wg_client.Obfuscator.{
  Obfuscator, Decoded, is_partial, xor_prefix, decode, decode_header, is_obfuscated, has_known_type,
  clear_reserved,
}
use phobos_wg_client.Obfuscator.Header.{
  length-xor_prefix, xor_prefix-IsBytes, is_obfuscated-has_known_type,
}

-- The result holds bytes, at most `n` of them, and `ok` says that it has a known packet type.
pub record IsSound (n : ℕ) (r : Decoded) : Type 0 where
  pub bytes : IsBytes r.buf
  pub no_longer : length r.buf ≤ n
  pub known : r.ok ≡ true → has_known_type r.buf ≡ true

clear_reserved-IsBytes : (buf : Bytes) → IsBytes buf → IsBytes (clear_reserved buf)
unfolding clear_reserved
clear_reserved-IsBytes [] h = tt
clear_reserved-IsBytes (a ∷ []) h = h
clear_reserved-IsBytes (a ∷ b ∷ []) h = h
clear_reserved-IsBytes (a ∷ b ∷ c ∷ []) h = h
clear_reserved-IsBytes (a ∷ b ∷ c ∷ d ∷ rest) h =
    (h.0, (omega arith, (omega arith, (omega arith, h.1.1.1.1))))

length-clear_reserved : (buf : Bytes) → length (clear_reserved buf) ≡ length buf
unfolding clear_reserved
length-clear_reserved [] = refl
length-clear_reserved (a ∷ []) = refl
length-clear_reserved (a ∷ b ∷ []) = refl
length-clear_reserved (a ∷ b ∷ c ∷ []) = refl
length-clear_reserved (a ∷ b ∷ c ∷ d ∷ rest) = refl

-- The branch of `decode_header` that cuts `dummy_len` bytes off.
cut_IsSound :
    (buf : Bytes) (n : ℕ)
    → IsBytes buf
    → let out = clear_reserved (take n buf) in
      IsSound (length buf) (record { ok = has_known_type out; buf = out })
cut_IsSound buf n h = record {
  bytes = clear_reserved-IsBytes (take n buf) (All-take IsByte n buf h);
  no_longer = omega (arith, length-clear_reserved (take n buf), length-take n buf);
  known = λ k. k;
}

refused_IsSound :
    (buf : Bytes) → IsBytes buf → IsSound (length buf) (record { ok = false; buf = buf })
refused_IsSound buf h = record { bytes = h; no_longer = omega arith; known = λ k. cc }

decode_header-IsSound : (buf : Bytes) → IsBytes buf → IsSound (length buf) (decode_header buf)
unfolding decode_header
decode_header-IsSound [] h = refused_IsSound [] h
decode_header-IsSound (a ∷ []) h = refused_IsSound (a ∷ []) h
decode_header-IsSound (a ∷ b ∷ []) h = refused_IsSound (a ∷ b ∷ []) h
decode_header-IsSound (a ∷ b ∷ c ∷ []) h = refused_IsSound (a ∷ b ∷ c ∷ []) h
decode_header-IsSound (a ∷ b ∷ c ∷ d ∷ rest) h =
    let buf : Bytes = bit_xor a b ∷ b ∷ c ∷ d ∷ rest in
    let bytes : IsBytes buf = (bit_xor-lt 8 a b h.0 h.1.0, h.1) in
    let n = bit_or c (d * 2 ^ 8) in
    elim (Bool-cases (ltb (length buf - 4) n)) [
      | inl e ↦ rw e (refused_IsSound buf bytes)
      | inr e ↦ rw e (cut_IsSound buf (length buf - n) bytes)
    ]

-- Every datagram of bytes is decoded to bytes, no more than came in; and where `decode` reports
-- success, the result is a packet of a known WireGuard type, on the plain path too.
pub decode-IsSound :
    (o : Obfuscator) (buf : Bytes) → IsBytes buf → IsSound (length buf) (decode o buf)
unfolding decode
decode-IsSound o buf h = elim (Bool-cases (ltb (length buf) 4)) [
  | inl short ↦ rw short (refused_IsSound buf h)
  | inr long ↦
      let p = is_partial o (length buf) in
      let plain = xor_prefix o p buf in
      let same = length-xor_prefix o p buf in
      let bytes = xor_prefix-IsBytes o p buf h in
      let tested =
        is_obfuscated-has_known_type plain bytes
          (omega (arith, same, ltb-false→le (length buf) 4 long)) in
      elim (Bool-cases (is_obfuscated plain)) [
        | inl masked ↦
            rw (long, masked)
              (subst (λ n. IsSound n (decode_header plain)) same
                (decode_header-IsSound plain bytes))
        | inr bare ↦
            rw (long, bare)
              (record {
                bytes = bytes;
                no_longer = omega (arith, same);
                known = λ k. ground (arith, tested);
              })
      ]
]

-- ===== src/Stun/Framing.antt =====
-- Data indications: what is wrapped is unwrapped, and what is unwrapped was framed.
use phobos_wg_client.Base.{
  ℕ, ◌+◌, ◌*◌, ◌%◌, ◌^◌, ◌≤◌, true, ◌↔◌, ◌∷◌, ◌++◌, [], none, some, ◌≡◌, refl, ap, sym, ◌∙◌, arith,
  if◌then◌else◌, ltb, le→ltb, length, length-append, length-take, length-drop, take, take_all, drop,
  drop-prefix, get_or-prefix, Bytes, bytes_eq, bytes_eq_refl, bytes_eq_sound, get_or, u16_to_be,
  drop-drop, Bool-cases, inl, inr, ltb-false→le,
}
use phobos_wg_client.Stun.{
  stun_cookie, stun_data_indication, stun_attr_data, u16_at, is_stun_packet, stun_message_type,
  stun_wrap_data_indication, stun_unwrap_data_indication,
}

-- The frame that `stun_wrap_data_indication` builds.
abbrev pub frame : Bytes → Bytes → Bytes
frame txid payload =
    0x01
    ∷ 0x15
    ∷ 0
    ∷ 0
    ∷ 0x21
    ∷ 0x12
    ∷ 0xA4
    ∷ 0x42
    ∷ (txid ++ (0 ∷ 0x13 ∷ (u16_to_be (length payload % 2 ^ 16) ++ payload)))

-- Payloads are wrapped exactly up to 65535 bytes.
pub wrap_lem :
    (txid payload : Bytes)
    → stun_wrap_data_indication txid payload
      ≡ (if ltb 0xFFFF (length payload) then none else some (frame txid payload))
unfolding stun_wrap_data_indication
wrap_lem txid payload = refl

module _ (txid payload : Bytes) (twelve : length txid ≡ 12) (fits : length payload ≤ 0xFFFF) where
  abbrev tail_of : Bytes
  tail_of = 0 ∷ 0x13 ∷ (u16_to_be (length payload % 2 ^ 16) ++ payload)

  pub length-frame : length (frame txid payload) ≡ 24 + length payload
  length-frame = omega (arith, length-append txid tail_of, twelve)

  pub frame-is_stun_packet : is_stun_packet (frame txid payload) ≡ true
  unfolding is_stun_packet
  frame-is_stun_packet = ground (arith, bytes_eq_refl stun_cookie, length-frame)

  frame_attr : u16_at (frame txid payload) 20 ≡ stun_attr_data
  frame_attr =
      rw (get_or-prefix 12 0 txid tail_of 0 twelve, get_or-prefix 12 1 txid tail_of 0 twelve) refl

  frame_len : u16_at (frame txid payload) 22 ≡ length payload
  frame_len =
      rw (get_or-prefix 12 2 txid tail_of 0 twelve, get_or-prefix 12 3 txid tail_of 0 twelve)
        (omega arith)

  frame-payload : drop 24 (frame txid payload) ≡ payload
  frame-payload =
      sym (drop-drop 4 12 (txid ++ tail_of)) ∙ ap (drop 4) (drop-prefix 12 txid tail_of twelve)

  pub unwrap-frame : stun_unwrap_data_indication (frame txid payload) ≡ some payload
  unfolding stun_unwrap_data_indication
  unwrap-frame =
      rw
        (
          length-frame,
          frame-is_stun_packet,
          frame_attr,
          frame_len,
          frame-payload,
          take_all (length payload) payload (omega arith),
          le→ltb (24 + length payload) 24 (omega arith),
          le→ltb (24 + length payload) (24 + length payload) (omega arith),
        )
        refl

-- For every payload and every 12-byte transaction identifier: what is wrapped is unwrapped to the
-- payload.
pub unwrap-wrap :
    (txid payload w : Bytes)
    → length txid ≡ 12
    → stun_wrap_data_indication txid payload ≡ some w
    → stun_unwrap_data_indication w ≡ some payload
unfolding stun_wrap_data_indication
unwrap-wrap txid payload w twelve e = elim (Bool-cases (ltb 0xFFFF (length payload))) [
  | inl long ↦ cc (rw long at e)
  | inr fits ↦
      let framed : frame txid payload ≡ w = cc (rw fits at e) in
      rw (← framed) (unwrap-frame txid payload twelve (ltb-false→le 0xFFFF (length payload) fits))
]

-- The tests that an accepted datagram passes.
pub record IsOpened (buf payload : Bytes) : Type 0 where
  pub stun : is_stun_packet buf ≡ true
  pub message_type : stun_message_type buf ≡ some stun_data_indication
  pub attr : u16_at buf 20 ≡ stun_attr_data
  pub len : u16_at buf 22 ≡ length payload
  pub long : 24 + length payload ≤ length buf
  pub contents : take (length payload) (drop 24 buf) ≡ payload

pub unwrap-IsOpened :
    (buf payload : Bytes) → stun_unwrap_data_indication buf ≡ some payload → IsOpened buf payload
unfolding stun_unwrap_data_indication stun_message_type
unwrap-IsOpened buf payload e =
    let n = u16_at buf 22 in ground (arith, length-take n (drop 24 buf), length-drop 24 buf)

IsOpened-unwrap :
    (buf payload : Bytes) → IsOpened buf payload → stun_unwrap_data_indication buf ≡ some payload
unfolding stun_unwrap_data_indication stun_message_type
IsOpened-unwrap buf payload f =
    ground (arith, f.stun, f.message_type, f.attr, f.len, f.long, f.contents)

-- Two bytes as a number, the high one first.
abbrev pub big_endian : Bytes → ℕ → ℕ
big_endian buf i = get_or buf i 0 * 256 + get_or buf (i + 1) 0

-- A data indication by its layout: type 0x0115, the cookie 21 12 A4 42 behind the type and the length,
-- at 20 the attribute 0x0013 with its length, and the payload of that length from 24 on.
pub record IsFramed (buf payload : Bytes) : Type 0 where
  pub message_type : big_endian buf 0 ≡ 0x0115
  pub cookie : take 4 (drop 4 buf) ≡ 0x21 ∷ 0x12 ∷ 0xA4 ∷ 0x42 ∷ []
  pub attr : big_endian buf 20 ≡ 0x0013
  pub len : big_endian buf 22 ≡ length payload
  pub long : 24 + length payload ≤ length buf
  pub contents : take (length payload) (drop 24 buf) ≡ payload

IsOpened-IsFramed : (buf payload : Bytes) → IsOpened buf payload → IsFramed buf payload
unfolding is_stun_packet stun_message_type
IsOpened-IsFramed buf payload f = record {
  message_type = ground (arith, f.message_type, f.long);
  cookie = bytes_eq_sound (take 4 (drop 4 buf)) stun_cookie (ground (arith, f.stun));
  attr = ground (arith, f.attr);
  len = ground (arith, f.len);
  long = f.long;
  contents = f.contents;
}

IsFramed-IsOpened : (buf payload : Bytes) → IsFramed buf payload → IsOpened buf payload
unfolding is_stun_packet stun_message_type
IsFramed-IsOpened buf payload f = record {
  stun =
      let same : bytes_eq (take 4 (drop 4 buf)) stun_cookie ≡ true =
        ap (λ b. bytes_eq b stun_cookie) f.cookie ∙ bytes_eq_refl stun_cookie in
      ground (arith, f.long, same);
  message_type = ground (arith, f.message_type, f.long);
  attr = ground (arith, f.attr);
  len = ground (arith, f.len);
  long = f.long;
  contents = f.contents;
}

-- Exactly the datagrams with the layout of a data indication are unwrapped, to the payload in it;
-- trailing bytes behind it are dropped.
pub unwrap_iff :
    (buf payload : Bytes) → (stun_unwrap_data_indication buf ≡ some payload) ↔ IsFramed buf payload
unwrap_iff buf payload = (
  λ e. IsOpened-IsFramed buf payload (unwrap-IsOpened buf payload e),
  λ f. IsOpened-unwrap buf payload (IsFramed-IsOpened buf payload f),
)

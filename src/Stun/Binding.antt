-- ===== src/Stun/Binding.antt =====
-- Binding requests: their layout, and that no message is taken for another.
use phobos_wg_client.Base.{
  ℕ, bit_xor, true, ◌∷◌, ◌++◌, none, some, ◌≡◌, refl, arith, length, length-append, Bytes,
  bytes_eq_refl, u32_to_be, Option-cases, inl, inr, get_or-prefix,
}
use phobos_wg_client.Stun.{
  stun_cookie, stun_binding_req, stun_attr_fingerprint, stun_fingerprint_xor, u16_at,
  is_stun_packet, stun_message_type, stun_unwrap_data_indication, stun_build_binding_request,
}
use phobos_wg_client.Stun.Framing.{unwrap-IsOpened}

module _ (crc32 : Bytes → ℕ) (txid : Bytes) (twelve : length txid ≡ 12) where
  abbrev request : Bytes
  request = stun_build_binding_request crc32 txid

  abbrev fingerprint : Bytes
  fingerprint =
      u32_to_be
        (bit_xor (crc32 (0 ∷ 1 ∷ 0 ∷ 8 ∷ 0x21 ∷ 0x12 ∷ 0xA4 ∷ 0x42 ∷ txid)) stun_fingerprint_xor)

  abbrev laid_out : Bytes
  laid_out =
      0 ∷ 1 ∷ 0 ∷ 8 ∷ 0x21 ∷ 0x12 ∷ 0xA4 ∷ 0x42 ∷ (txid ++ (0x80 ∷ 0x28 ∷ 0 ∷ 4 ∷ fingerprint))

  request_bytes : request ≡ laid_out
  unfolding stun_build_binding_request
  request_bytes = refl

  message_type : stun_message_type laid_out ≡ some stun_binding_req
  unfolding stun_message_type
  message_type = ground arith

  not_data : stun_unwrap_data_indication laid_out ≡ none
  not_data = elim (Option-cases (stun_unwrap_data_indication laid_out)) [
    | inl e ↦ e
    | inr (p, e) ↦ ground (arith, unwrap-IsOpened laid_out p e, message_type)
  ]

  -- A binding request has 28 bytes, is a STUN packet of type 0x0001 whose one attribute is a
  -- fingerprint of 4 bytes over the 20 byte header; and it is no data indication, so the peer never
  -- takes it for data.
  pub binding_request_layout :
      (length request ≡ 28)
      × (is_stun_packet request ≡ true)
      × (stun_message_type request ≡ some stun_binding_req)
      × (u16_at request 2 ≡ 8)
      × (u16_at request 20 ≡ stun_attr_fingerprint)
      × (u16_at request 22 ≡ 4)
      × (stun_unwrap_data_indication request ≡ none)
  binding_request_layout =
      let tail : Bytes = 0x80 ∷ 0x28 ∷ 0 ∷ 4 ∷ fingerprint in
      let at = λ (i : ℕ). get_or-prefix 12 i txid tail 0 twelve in
      let total : length (laid_out) ≡ 28 = omega (arith, length-append txid tail, twelve) in
      rw request_bytes (
        total,
        unfold is_stun_packet in rw (bytes_eq_refl stun_cookie, total) refl,
        message_type,
        refl,
        rw (at 0, at 1) refl,
        rw (at 2, at 3) refl,
        not_data,
      )

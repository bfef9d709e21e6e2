-- ===== src/Stun.antt =====
-- STUN masking (src/stun.rs). The transaction identifier that `rand` fills in is an argument, and
-- so is the `crc32fast` hash. Every index below stands behind a test of the length.
pub mod Framing
pub mod Binding
mod Tests
use phobos_wg_client.Base.{
  ℕ, ◌+◌, ◌%◌, ◌^◌, bit_xor, Bool, not, ◌&&◌, [], ◌∷◌, ◌++◌, Option, none, some, if◌then◌else◌, ltb,
  leb, ◌==◌, length, take, drop, get_or, Bytes, bytes_eq, u16_from_be, u16_to_be, u32_to_be,
}

abbrev pub stun_cookie : Bytes
stun_cookie = 0x21 ∷ 0x12 ∷ 0xA4 ∷ 0x42 ∷ []

abbrev pub stun_binding_req : ℕ
stun_binding_req = 0x0001

abbrev pub stun_binding_resp : ℕ
stun_binding_resp = 0x0101

abbrev pub stun_data_indication : ℕ
stun_data_indication = 0x0115

abbrev pub stun_attr_data : ℕ
stun_attr_data = 0x0013

abbrev pub stun_attr_fingerprint : ℕ
stun_attr_fingerprint = 0x8028

abbrev pub stun_fingerprint_xor : ℕ
stun_fingerprint_xor = 0x5354554E

abbrev pub stun_data_ind_header_size : ℕ
stun_data_ind_header_size = 24

-- `u16::from_be_bytes([buf[i], buf[i + 1]])`
abbrev pub u16_at : Bytes → ℕ → ℕ
u16_at buf i = u16_from_be (get_or buf i 0) (get_or buf (i + 1) 0)

unfoldable pub is_stun_packet : Bytes → Bool
is_stun_packet buf = leb 8 (length buf) && bytes_eq (take 4 (drop 4 buf)) stun_cookie

unfoldable pub stun_message_type : Bytes → Option ℕ
stun_message_type buf = if ltb (length buf) 2 then none else some (u16_at buf 0)

unfoldable pub stun_wrap_data_indication : Bytes → Bytes → Option Bytes
stun_wrap_data_indication txid payload =
    if ltb 0xFFFF (length payload)
    then none
    else some (
        u16_to_be stun_data_indication
        ++ (u16_to_be 0
            ++ (stun_cookie
                ++ (txid
                    ++ (u16_to_be stun_attr_data
                        ++ (u16_to_be (length payload % 2 ^ 16) ++ payload))))))

unfoldable pub stun_unwrap_data_indication : Bytes → Option Bytes
stun_unwrap_data_indication buf =
    if ltb (length buf) stun_data_ind_header_size
    then none
    else if not (is_stun_packet buf)
    then none
    else if not (u16_at buf 0 == stun_data_indication)
    then none
    else if not (u16_at buf 20 == stun_attr_data)
    then none
    else (let data_len = u16_at buf 22 in
        if ltb (length buf) (stun_data_ind_header_size + data_len)
        then none
        else some (take data_len (drop stun_data_ind_header_size buf)))

-- The first 20 bytes are hashed once they are written, as in the source.
unfoldable pub stun_build_binding_request : (Bytes → ℕ) → Bytes → Bytes
stun_build_binding_request crc32 txid =
    let header = u16_to_be stun_binding_req ++ (u16_to_be 8 ++ (stun_cookie ++ txid)) in
    header
    ++ (u16_to_be stun_attr_fingerprint
        ++ (u16_to_be 4 ++ u32_to_be (bit_xor (crc32 header) stun_fingerprint_xor)))

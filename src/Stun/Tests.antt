-- ===== src/Stun/Tests.antt =====
-- Tests of `stun.rs`, and the theorems about it at concrete inputs.
use phobos_wg_client.Base.{
  ℕ, true, [], ◌∷◌, ◌++◌, some, ◌≡◌, ◌↔◌, refl, length, codes, Bytes, bytes_eq,
}
use phobos_wg_client.Stun.{is_stun_packet, stun_wrap_data_indication, stun_unwrap_data_indication}
use phobos_wg_client.Stun.Framing.{frame, IsFramed, unwrap_iff}

abbrev txid : Bytes
txid = 1 ∷ 2 ∷ 3 ∷ 4 ∷ 5 ∷ 6 ∷ 7 ∷ 8 ∷ 9 ∷ 10 ∷ 11 ∷ 12 ∷ []

abbrev payload : Bytes
payload = codes "wireguard-obfuscated-packet-bytes"

abbrev zero_crc : Bytes → ℕ
zero_crc header = 0

-- `test_stun_wrap_unwrap`
wrap_unwrap :
    (stun_wrap_data_indication txid payload ≡ some (frame txid payload))
    × (length (frame txid payload) ≡ 57)
    × (is_stun_packet (frame txid payload) ≡ true)
    × (stun_unwrap_data_indication (frame txid payload) ≡ some payload)
unfolding stun_wrap_data_indication is_stun_packet bytes_eq stun_unwrap_data_indication
wrap_unwrap = (refl, refl, refl, refl)

-- Trailing bytes are dropped, a cut frame is refused.
trailing : stun_unwrap_data_indication (frame txid payload ++ 7 ∷ 7 ∷ []) ≡ some payload
unfolding is_stun_packet bytes_eq stun_unwrap_data_indication
trailing = refl

unwrap_iff_example :
    (stun_unwrap_data_indication (frame txid payload) ≡ some payload)
    ↔ IsFramed (frame txid payload) payload
unwrap_iff_example = unwrap_iff (frame txid payload) payload

-- ===== src/Obfuscator/Tests.antt =====
-- Tests of `obfuscator.rs`, and the theorems about it at concrete inputs.
use phobos_wg_client.Base.{◌≤◌, ◌<◌, max, true, [], ◌∷◌, ◌≡◌, refl, length, codes, Bytes}
use phobos_wg_client.Crc8.{xor_data}
use phobos_wg_client.Obfuscator.Samples.{
  obf, draws, draws-IsDraws, packet, packet_known, packet-IsBytes,
}
use phobos_wg_client.Obfuscator.{
  Obfuscator, encode, decode, pad, xor_prefix, is_partial, is_obfuscated, decode_header,
  clear_reserved, has_known_type, packet_type, is_known_packet_type,
}
use phobos_wg_client.Obfuscator.Padding.{encode_bounds}
use phobos_wg_client.Obfuscator.RoundTrip.{decode-encode_known}
use phobos_wg_client.Obfuscator.Decoding.{IsSound, decode-IsSound}

abbrev encoded : Bytes
encoded =
    101 ∷ 213 ∷ 113 ∷ 232 ∷ 215 ∷ 101 ∷ 22 ∷ 165 ∷ 82 ∷ 96 ∷ 19 ∷ 143 ∷ 138 ∷ 14 ∷ 141 ∷ 137 ∷ 150
    ∷ 39 ∷ 186 ∷ 80 ∷ 171 ∷ 244 ∷ 244 ∷ 141 ∷ 60 ∷ 82 ∷ 153 ∷ 131 ∷ 27 ∷ 119 ∷ 155 ∷ 98 ∷ 179 ∷ 182
    ∷ 246 ∷ []

abbrev decoded : Bytes
decoded =
    3 ∷ 0 ∷ 0 ∷ 0 ∷ 47 ∷ 97 ∷ 250 ∷ 160 ∷ 190 ∷ 134 ∷ 244 ∷ 87 ∷ 146 ∷ 30 ∷ 195 ∷ 124 ∷ 14 ∷ 70 ∷ 12
    ∷ 240 ∷ 215 ∷ 3 ∷ 208 ∷ 125 ∷ 197 ∷ 245 ∷ 102 ∷ 26 ∷ 69 ∷ 1 ∷ 51 ∷ 64 ∷ []

abbrev phobos : Obfuscator
phobos = record { key = codes "phobos"; max_dummy = 4; obfuscate_bytes = 0 }

-- `test_golden_decode_phobos_vector`
golden_phobos : decode phobos encoded ≡ record { ok = true; buf = decoded }
unfolding decode xor_prefix xor_data is_partial is_obfuscated decode_header clear_reserved
    has_known_type packet_type is_known_packet_type
golden_phobos = refl

-- `test_roundtrip_encode_decode`
roundtrip : decode obf (encode obf draws packet) ≡ record { ok = true; buf = packet }
unfolding encode pad decode xor_prefix xor_data is_partial is_obfuscated decode_header
    clear_reserved has_known_type packet_type is_known_packet_type
roundtrip = refl

-- 15 filler bytes are drawn below `max_dummy`.
roundtrip_length : length (encode obf draws packet) ≡ 79
unfolding encode pad xor_prefix xor_data is_partial
roundtrip_length = refl

encode_bounds_example :
    (length packet < 4 → encode obf draws packet ≡ packet)
    × (length packet ≤ length (encode obf draws packet))
    × (length (encode obf draws packet) ≤ max (length packet) 1023)
    × (0 < obf.obfuscate_bytes
        → length packet ≤ obf.obfuscate_bytes
        → length (encode obf draws packet) ≤ obf.obfuscate_bytes)
encode_bounds_example = encode_bounds obf draws draws-IsDraws packet

decode-encode_known_example :
    decode obf (encode obf draws packet) ≡ record { ok = true; buf = packet }
decode-encode_known_example = decode-encode_known obf draws draws-IsDraws packet packet_known

decode-IsSound_example : IsSound (length packet) (decode obf packet)
decode-IsSound_example = decode-IsSound obf packet packet-IsBytes

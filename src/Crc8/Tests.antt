-- ===== src/Crc8/Tests.antt =====
-- Tests of `crc8.rs`, and the theorems about it at concrete inputs.
use phobos_wg_client.Base.{false, some, ◌≡◌, refl, arith, get_elem?, codes, Bytes, bytes_eq}
use phobos_wg_client.Crc8.{crc8_table, xor_data}
use phobos_wg_client.Crc8.Table.{reduce, crc8_table-reduce}
use phobos_wg_client.Crc8.Cipher.{xor_data_cancel}

abbrev greeting : Bytes
greeting = codes "Hello, Phobos WireGuard Obfuscator!"

abbrev secret : Bytes
secret = codes "mysecretkey12345"

-- `test_crc8_table_known_values`
known_values :
    (get_elem? crc8_table 0 ≡ some 0)
    × (get_elem? crc8_table 1 ≡ some 0x5e)
    × (get_elem? crc8_table 2 ≡ some 0xbc)
unfolding crc8_table
known_values = (refl, refl, refl)

-- `test_xor_symmetry`
symmetry :
    (bytes_eq (xor_data greeting secret) greeting ≡ false)
    × (xor_data (xor_data greeting secret) secret ≡ greeting)
unfolding xor_data bytes_eq
symmetry = (refl, refl)

crc8_table-reduce_example : get_elem? crc8_table 200 ≡ some (reduce 8 200)
crc8_table-reduce_example = crc8_table-reduce 200 (omega arith)

xor_data_cancel_example : xor_data (xor_data greeting secret) secret ≡ greeting
xor_data_cancel_example = xor_data_cancel greeting secret

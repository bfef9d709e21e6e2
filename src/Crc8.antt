-- ===== src/Crc8.antt =====
-- The CRC-8 table and the XOR stream cipher (src/crc8.rs). Bytes are numbers below 2 ^ 8.
pub mod Table
pub mod Cipher
pub mod Bounds
mod Tests
use phobos_wg_client.Base.{
  ℕ, zero, suc, ◌+◌, ◌-◌, ◌/◌, ◌%◌, ◌^◌, min, bit_and, bit_xor, Bool, true, false, not, ◌||◌, List,
  [], ◌∷◌, ◌++◌, map, Option, some, if◌then◌else◌, leb, ◌==◌, length, get_or, get_elem?, take,
  replicate, Bytes,
}

abbrev pub max_xor_key_length : ℕ
max_xor_key_length = 256

-- The registers of the inner loop of `init_crc8_table`.
pub record Round : Type 0 where
  pub crc : ℕ
  pub inbyte : ℕ

unfoldable pub crc8_round : Round → Round
crc8_round r =
    let mix = bit_and (bit_xor r.crc r.inbyte) 0x01 in
    let shifted = r.crc / 2 in
    record { crc = if not (mix == 0) then bit_xor shifted 0x8C else shifted; inbyte = r.inbyte / 2 }

unfoldable pub crc8_rounds : ℕ → Round → Round
unfolding crc8_round
crc8_rounds zero r = r
crc8_rounds (suc left) r = crc8_rounds left (crc8_round r)

unfoldable pub crc8_entry : ℕ → ℕ
unfolding crc8_rounds
crc8_entry i = (crc8_rounds 8 (record { crc = 0; inbyte = i % 2 ^ 8 })).crc

-- `for i in 0..256`: the entries from `i` on, `left` of them.
unfoldable pub table_from : ℕ → ℕ → List ℕ
unfolding crc8_entry
table_from zero i = []
table_from (suc left) i = crc8_entry i ∷ table_from left (i + 1)

unfoldable pub init_crc8_table : List ℕ
unfolding table_from
init_crc8_table = table_from 256 0

unfoldable pub crc8_table : List ℕ
unfolding init_crc8_table
crc8_table = init_crc8_table

-- `key_adj`: the key bytes plus `base`, then zeros up to 256.
unfoldable pub adjust_key : ℕ → Bytes → Bytes
adjust_key base key =
    map (λ k. (k + base) % 2 ^ 8) key ++ replicate (max_xor_key_length - length key) 0

unfoldable pub next_index : ℕ → ℕ → ℕ
next_index key_len ki = if leb key_len (ki + 1) then 0 else ki + 1

-- `table[(crc ^ key_adj[ki]) as usize]`. No index is out of range (`Bounds`), so the defaults of
-- `get_or` are never read.
unfoldable pub next_crc : Bytes → ℕ → ℕ → ℕ
unfolding crc8_table
next_crc key_adj crc ki = get_or crc8_table (bit_xor crc (get_or key_adj ki 0)) 0

-- The loop over the bytes that are left, at its `crc` and `ki`.
unfoldable pub xor_loop : Bytes → ℕ → ℕ → ℕ → Bytes → Bytes
unfolding next_crc next_index
xor_loop key_adj key_len crc ki [] = []
xor_loop key_adj key_len crc ki (b ∷ bs) =
    let crc' = next_crc key_adj crc ki in
    bit_xor b crc' ∷ xor_loop key_adj key_len crc' (next_index key_len ki) bs

-- The body of `xor_data` behind its early return, with `buffer.len()` as its first argument.
unfoldable pub xor_stream : ℕ → Bytes → Bytes → Bytes
unfolding adjust_key xor_loop
xor_stream buffer_len key buffer =
    let key_len = min (length key) max_xor_key_length in
    let base = (buffer_len + key_len) % 2 ^ 8 in
    xor_loop (adjust_key base (take key_len key)) key_len 0 0 buffer

abbrev pub is_empty : Bytes → Bool
is_empty [] = true
is_empty (b ∷ bs) = false

unfoldable pub xor_data : Bytes → Bytes → Bytes
unfolding xor_stream
xor_data buffer key =
    if is_empty buffer || is_empty key then buffer else xor_stream (length buffer) key buffer

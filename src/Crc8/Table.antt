-- ===== src/Crc8/Table.antt =====
-- The table holds bytes, and its entries are those of the textbook algorithm.
use phobos_wg_client.Base.{
  ℕ, zero, suc, ◌+◌, ◌/◌, ◌%◌, ◌<◌, bit_xor, Bool, true, ◌&&◌, List, [], ◌∷◌, some, ◌≡◌, refl,
  arith, if◌then◌else◌, ltb, ◌==◌, get_or, get_elem?, length, Bytes, IsByte, IsBytes, All-get_or,
}
use phobos_wg_client.Crc8.{crc8_table, next_crc}

-- The textbook form: one register, shifted right, reduced by 0x8C when a one falls out.
pub reduce : ℕ → ℕ → ℕ
reduce zero crc = crc
reduce (suc n) crc = reduce n (if crc % 2 == 1 then bit_xor (crc / 2) 0x8C else crc / 2)

abbrev is_table : ℕ → List ℕ → Bool
is_table i [] = i == 256
is_table i (e ∷ es) = e == reduce 8 i && (ltb e 256 && is_table (i + 1) es)

is_table_checked : is_table 0 crc8_table ≡ true
unfolding crc8_table reduce
is_table_checked = refl

is_table-IsBytes : (es : List ℕ) (i : ℕ) → is_table i es ≡ true → IsBytes es
is_table-IsBytes [] i h = tt
is_table-IsBytes (e ∷ es) i h = ground (arith, is_table-IsBytes es (i + 1))

is_table-get_elem? :
    (es : List ℕ) (i j : ℕ)
    → is_table i es ≡ true
    → i + j < 256
    → get_elem? es j ≡ some (reduce 8 (i + j))
is_table-get_elem? [] i j h p = ground arith
is_table-get_elem? (e ∷ es) i zero h p = ground arith
is_table-get_elem? (e ∷ es) i (suc j) h p =
    let e : i + suc j ≡ i + 1 + j = omega arith in
    rw e (is_table-get_elem? es (i + 1) j (ground arith) (omega arith))

-- The table is the textbook one at each of its 256 indices.
pub crc8_table-reduce : (i : ℕ) → i < 256 → get_elem? crc8_table i ≡ some (reduce 8 i)
crc8_table-reduce i h =
    let zero_plus : 0 + i ≡ i = omega arith in
    rw zero_plus at (is_table-get_elem? crc8_table 0 i is_table_checked (omega arith))

pub length-crc8_table : length crc8_table ≡ 256
unfolding crc8_table
length-crc8_table = refl

pub crc8_table-IsBytes : IsBytes crc8_table
crc8_table-IsBytes = is_table-IsBytes crc8_table 0 is_table_checked

pub next_crc-IsByte : (key_adj : Bytes) (crc ki : ℕ) → IsByte (next_crc key_adj crc ki)
unfolding next_crc
next_crc-IsByte key_adj crc ki =
    All-get_or IsByte crc8_table (bit_xor crc (get_or key_adj ki 0)) 0 crc8_table-IsBytes
      (omega arith)

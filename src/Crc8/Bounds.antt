-- ===== src/Crc8/Bounds.antt =====
-- The array indices of `xor_data` stay in range: a version that reads both arrays through
-- `get_elem?`, and gives `none` where Rust would panic, always answers.
use phobos_wg_client.Base.{
  ℕ, suc, ◌+◌, ◌-◌, ◌%◌, ◌^◌, ◌≤◌, ◌<◌, min, bit_xor, ◌||◌, [], ◌∷◌, Option, some, none, ◌≡◌, refl,
  arith, if◌then◌else◌, length, take, map, replicate, length-append, length-map, length-take,
  length-replicate, get_elem?, get_or, get_elem?-eq-get_or, Bytes, IsByte, IsBytes, All-append,
  All-get_or, zero,
}
use phobos_wg_client.Base.Bits.{bit_xor-lt}
use phobos_wg_client.Crc8.{
  crc8_table, max_xor_key_length, adjust_key, next_crc, next_index, xor_loop, is_empty, xor_data,
}
use phobos_wg_client.Crc8.Table.{length-crc8_table, next_crc-IsByte}

infixl 5 ◌>>=◌
abbrev ◌>>=◌ {ℓ κ} : {A : Type ℓ} {B : Type κ} → Option A → (A → Option B) → Option B
none >>= k = none
some a >>= k = k a

pub xor_loop_checked : Bytes → ℕ → ℕ → ℕ → Bytes → Option Bytes
xor_loop_checked key_adj key_len crc ki [] = some []
xor_loop_checked key_adj key_len crc ki (b ∷ bs) = do
  k ← get_elem? key_adj ki
  crc' ← get_elem? crc8_table (bit_xor crc k)
  rest ← xor_loop_checked key_adj key_len crc' (next_index key_len ki) bs
  some (bit_xor b crc' ∷ rest)

pub xor_data_checked : Bytes → Bytes → Option Bytes
xor_data_checked buffer key =
    if is_empty buffer || is_empty key
    then some buffer
    else let key_len = min (length key) max_xor_key_length in
      let base = (length buffer + key_len) % 2 ^ 8 in
      xor_loop_checked (adjust_key base (take key_len key)) key_len 0 0 buffer

next_index-lt : (key_len ki : ℕ) → 0 < key_len → next_index key_len ki < key_len
unfolding next_index
next_index-lt key_len ki h = ground arith

replicate-IsBytes : (n : ℕ) → IsBytes (replicate n 0)
replicate-IsBytes zero = tt
replicate-IsBytes (suc n) = (omega arith, replicate-IsBytes n)

adjusted-IsBytes : (base : ℕ) (key : Bytes) → IsBytes (map (λ k. (k + base) % 2 ^ 8) key)
adjusted-IsBytes base [] = tt
adjusted-IsBytes base (k ∷ ks) = (omega arith, adjusted-IsBytes base ks)

adjust_key-IsBytes : (base : ℕ) (key : Bytes) → IsBytes (adjust_key base key)
unfolding adjust_key
adjust_key-IsBytes base key =
    All-append IsByte (map (λ k. (k + base) % 2 ^ 8) key) _ (adjusted-IsBytes base key)
      (replicate-IsBytes _)

length-adjust_key :
    (base : ℕ) (key : Bytes)
    → length key ≤ max_xor_key_length
    → length (adjust_key base key) ≡ max_xor_key_length
unfolding adjust_key
length-adjust_key base key h = omega (
  arith,
  length-append (map (λ k. (k + base) % 2 ^ 8) key) (replicate (max_xor_key_length - length key) 0),
  length-map (λ k. (k + base) % 2 ^ 8) key,
  length-replicate {A = ℕ} (max_xor_key_length - length key) 0,
)

module _ (key_adj : Bytes) (key_len : ℕ) (adj_bytes : IsBytes key_adj) (pos : 0 < key_len)
    (fits : key_len ≤ length key_adj) where
  xor_loop_in_bounds :
      (bs : Bytes) (crc ki : ℕ)
      → IsByte crc
      → ki < key_len
      → xor_loop_checked key_adj key_len crc ki bs ≡ some (xor_loop key_adj key_len crc ki bs)
  unfolding xor_loop xor_loop_checked
  xor_loop_in_bounds [] crc ki hc hk = refl
  xor_loop_in_bounds (b ∷ bs) crc ki hc hk =
      let k = get_or key_adj ki 0 in
      let k_byte : IsByte k = All-get_or IsByte key_adj ki 0 adj_bytes (omega arith) in
      let index_fits : bit_xor crc k < length crc8_table =
        rw length-crc8_table (bit_xor-lt 8 crc k hc k_byte) in
      rw
        (
          get_elem?-eq-get_or key_adj ki 0 (omega arith),
          get_elem?-eq-get_or crc8_table (bit_xor crc k) 0 index_fits,
          xor_loop_in_bounds bs (next_crc key_adj crc ki) (next_index key_len ki)
              (next_crc-IsByte key_adj crc ki) (next_index-lt key_len ki pos),
        )
        refl

-- No index of `xor_data` is ever out of range: the checked version succeeds on every buffer and
-- key, with the result of `xor_data`.
pub xor_data_in_bounds :
    (buffer key : Bytes) → xor_data_checked buffer key ≡ some (xor_data buffer key)
unfolding xor_data_checked xor_data
xor_data_in_bounds [] key = refl
xor_data_in_bounds (b ∷ bs) [] = refl
xor_data_in_bounds (b ∷ bs) (k ∷ ks) =
    let n = min (length (k ∷ ks)) max_xor_key_length in
    let whole : length (take n (k ∷ ks)) ≡ n = omega (arith, length-take n (k ∷ ks)) in
    let adj = adjust_key ((length (b ∷ bs) + n) % 2 ^ 8) (take n (k ∷ ks)) in
    let full : length adj ≡ max_xor_key_length =
      length-adjust_key _ (take n (k ∷ ks)) (omega (arith, whole)) in
    xor_loop_in_bounds adj n (adjust_key-IsBytes ((length (b ∷ bs) + n) % 2 ^ 8) (take n (k ∷ ks)))
      (omega arith) (omega (arith, full)) (b ∷ bs) 0 0 (omega arith) (omega arith)

-- ===== src/Crc8/Cipher.antt =====
-- `xor_data` is its own inverse, and keeps lengths, bytes and what lies beyond 256 key bytes.
use phobos_wg_client.Base.{
  ℕ, suc, min, [], ◌∷◌, ◌++◌, ◌≡◌, refl, ap, ap₂, arith, if◌then◌else◌, length, take_all,
  take-append, length-append, Bytes, IsBytes,
}
use phobos_wg_client.Base.Bits.{bit_xor_cancel, bit_xor-lt}
use phobos_wg_client.Crc8.{
  max_xor_key_length, next_crc, next_index, xor_loop, xor_stream, is_empty, xor_data,
}
use phobos_wg_client.Crc8.Table.{next_crc-IsByte}

module _ (key_adj : Bytes) (key_len : ℕ) where
  xor_loop_cancel :
      (bs : Bytes) (crc ki : ℕ)
      → xor_loop key_adj key_len crc ki (xor_loop key_adj key_len crc ki bs) ≡ bs
  unfolding xor_loop
  xor_loop_cancel [] crc ki = refl
  xor_loop_cancel (b ∷ bs) crc ki =
      ap₂ ◌∷◌ (bit_xor_cancel b (next_crc key_adj crc ki))
        (xor_loop_cancel bs (next_crc key_adj crc ki) (next_index key_len ki))

  length-xor_loop :
      (bs : Bytes) (crc ki : ℕ) → length (xor_loop key_adj key_len crc ki bs) ≡ length bs
  unfolding xor_loop
  length-xor_loop [] crc ki = refl
  length-xor_loop (b ∷ bs) crc ki =
      ap suc (length-xor_loop bs (next_crc key_adj crc ki) (next_index key_len ki))

  xor_loop-IsBytes :
      (bs : Bytes) (crc ki : ℕ) → IsBytes bs → IsBytes (xor_loop key_adj key_len crc ki bs)
  unfolding xor_loop
  xor_loop-IsBytes [] crc ki h = tt
  xor_loop-IsBytes (b ∷ bs) crc ki (hb, hbs) = (
    bit_xor-lt 8 b (next_crc key_adj crc ki) hb (next_crc-IsByte key_adj crc ki),
    xor_loop-IsBytes bs (next_crc key_adj crc ki) (next_index key_len ki) hbs,
  )

module _ (n : ℕ) (key : Bytes) (buffer : Bytes) where
  xor_stream_cancel : xor_stream n key (xor_stream n key buffer) ≡ buffer
  unfolding xor_stream
  xor_stream_cancel = xor_loop_cancel _ _ buffer 0 0

  length-xor_stream : length (xor_stream n key buffer) ≡ length buffer
  unfolding xor_stream
  length-xor_stream = length-xor_loop _ _ buffer 0 0

  xor_stream-IsBytes : IsBytes buffer → IsBytes (xor_stream n key buffer)
  unfolding xor_stream
  xor_stream-IsBytes = xor_loop-IsBytes _ _ buffer 0 0

-- An empty buffer needs no case of its own.
pub xor_data_lem :
    (buffer key : Bytes)
    → xor_data buffer key ≡ (if is_empty key then buffer else xor_stream (length buffer) key buffer)
unfolding xor_data
xor_data_lem [] [] = refl
xor_data_lem [] (k ∷ ks) = refl
xor_data_lem (b ∷ bs) [] = refl
xor_data_lem (b ∷ bs) (k ∷ ks) = refl

pub length-xor_data : (buffer key : Bytes) → length (xor_data buffer key) ≡ length buffer
length-xor_data buffer [] = rw xor_data_lem refl
length-xor_data buffer (k ∷ ks) = rw xor_data_lem (length-xor_stream _ (k ∷ ks) buffer)

-- Applying the cipher twice with one key gives the buffer back, for every buffer and key.
pub xor_data_cancel : (buffer key : Bytes) → xor_data (xor_data buffer key) key ≡ buffer
xor_data_cancel buffer [] = simp xor_data_lem
xor_data_cancel buffer (k ∷ ks) =
    simp (xor_data_lem, length-xor_stream) (xor_stream_cancel (length buffer) (k ∷ ks) buffer)

-- Bytes stay bytes.
pub xor_data-IsBytes : (buffer key : Bytes) → IsBytes buffer → IsBytes (xor_data buffer key)
xor_data-IsBytes buffer [] h = rw xor_data_lem h
xor_data-IsBytes buffer (k ∷ ks) h = rw xor_data_lem (xor_stream-IsBytes _ (k ∷ ks) buffer h)

xor_stream_long_key :
    (n : ℕ) (key extra buffer : Bytes)
    → length key ≡ max_xor_key_length
    → xor_stream n (key ++ extra) buffer ≡ xor_stream n key buffer
unfolding xor_stream
xor_stream_long_key n key extra buffer h =
    let whole : min (length (key ++ extra)) max_xor_key_length ≡ length key =
      omega (arith, length-append key extra, h) in
    let own : min (length key) max_xor_key_length ≡ length key = omega (arith, h) in
    rw (whole, take-append key extra, own, take_all (length key) key (omega arith)) refl

-- Only the first 256 bytes of a key count.
pub xor_data_long_key :
    (buffer key extra : Bytes)
    → length key ≡ max_xor_key_length
    → xor_data buffer (key ++ extra) ≡ xor_data buffer key
xor_data_long_key buffer [] extra h = absurd (omega arith)
xor_data_long_key buffer (k ∷ ks) extra h =
    rw (xor_data_lem buffer (k ∷ ks ++ extra), xor_data_lem buffer (k ∷ ks))
      (xor_stream_long_key (length buffer) (k ∷ ks) extra buffer h)

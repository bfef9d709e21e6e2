-- ===== src/Obfuscator/Header.antt =====
-- The header bytes: what `is_obfuscated` tests, and the cut of a buffer that the cipher is applied to.
use phobos_wg_client.Base.{
  ℕ, zero, suc, ◌≤◌, bit_or, Bool, true, false, not, List, [], ◌∷◌, ◌++◌, ◌≡◌, refl, ap, arith,
  if◌then◌else◌, length, length-append, take, drop, take-append-drop, Bytes, IsBytes, All-append,
  IsByte, All-take, All-drop,
}
use phobos_wg_client.Base.Bits.{bit_or-zero_iff}
use phobos_wg_client.Crc8.{xor_data}
use phobos_wg_client.Crc8.Cipher.{xor_data_cancel, length-xor_data, xor_data-IsBytes}
use phobos_wg_client.Obfuscator.{
  Obfuscator, is_obfuscated, has_known_type, xor_prefix, packet_type, is_known_packet_type,
}

-- A buffer counts as obfuscated exactly when it has no known packet type.
pub is_obfuscated-has_known_type :
    (buf : Bytes) → IsBytes buf → 4 ≤ length buf → is_obfuscated buf ≡ not (has_known_type buf)
unfolding is_obfuscated has_known_type packet_type is_known_packet_type
is_obfuscated-has_known_type [] h p = absurd (omega arith)
is_obfuscated-has_known_type (a ∷ []) h p = absurd (omega arith)
is_obfuscated-has_known_type (a ∷ b ∷ []) h p = absurd (omega arith)
is_obfuscated-has_known_type (a ∷ b ∷ c ∷ []) h p = absurd (omega arith)
is_obfuscated-has_known_type (a ∷ b ∷ c ∷ d ∷ rest) h p =
    ground (arith, bit_or-zero_iff (bit_or b c) d, bit_or-zero_iff b c)

module _ {ℓ} {A : Type ℓ} where
  take-splice :
      (n : ℕ) (ys xs : List A) → length ys ≡ length (take n xs) → take n (ys ++ drop n xs) ≡ ys
  take-splice zero [] xs e = refl
  take-splice zero (y ∷ ys) xs e = absurd (omega arith)
  take-splice (suc n) [] [] e = refl
  take-splice (suc n) (y ∷ ys) [] e = absurd (omega arith)
  take-splice (suc n) [] (x ∷ xs) e = absurd (omega arith)
  take-splice (suc n) (y ∷ ys) (x ∷ xs) e = ap (◌∷◌ y) (take-splice n ys xs (omega arith))

  drop-splice :
      (n : ℕ) (ys xs : List A)
      → length ys ≡ length (take n xs)
      → drop n (ys ++ drop n xs) ≡ drop n xs
  drop-splice zero [] xs e = refl
  drop-splice zero (y ∷ ys) xs e = absurd (omega arith)
  drop-splice (suc n) [] [] e = refl
  drop-splice (suc n) (y ∷ ys) [] e = absurd (omega arith)
  drop-splice (suc n) [] (x ∷ xs) e = absurd (omega arith)
  drop-splice (suc n) (y ∷ ys) (x ∷ xs) e = drop-splice n ys xs (omega arith)

-- The cipher on the first `n` bytes.
abbrev xor_at : Bytes → ℕ → Bytes → Bytes
xor_at key n buf = xor_data (take n buf) key ++ drop n buf

length-xor_at : (key : Bytes) (n : ℕ) (buf : Bytes) → length (xor_at key n buf) ≡ length buf
length-xor_at key n buf = omega (
  arith,
  length-append (xor_data (take n buf) key) (drop n buf),
  length-xor_data (take n buf) key,
  length-append (take n buf) (drop n buf),
  ap length (take-append-drop n buf),
)

xor_at_cancel : (key : Bytes) (n : ℕ) (buf : Bytes) → xor_at key n (xor_at key n buf) ≡ buf
xor_at_cancel key n buf =
    let same = length-xor_data (take n buf) key in
    rw
      (
        take-splice n (xor_data (take n buf) key) buf same,
        drop-splice n (xor_data (take n buf) key) buf same,
        xor_data_cancel (take n buf) key,
      )
      (take-append-drop n buf)

pub length-xor_prefix :
    (o : Obfuscator) (partial : Bool) (buf : Bytes) → length (xor_prefix o partial buf) ≡ length buf
unfolding xor_prefix
length-xor_prefix o true buf = length-xor_at o.key o.obfuscate_bytes buf
length-xor_prefix o false buf = length-xor_at o.key (length buf) buf

pub xor_prefix_cancel :
    (o : Obfuscator) (partial : Bool) (buf : Bytes)
    → xor_prefix o partial (xor_prefix o partial buf) ≡ buf
unfolding xor_prefix
xor_prefix_cancel o true buf = xor_at_cancel o.key o.obfuscate_bytes buf
xor_prefix_cancel o false buf =
    rw (length-xor_at o.key (length buf) buf) (xor_at_cancel o.key (length buf) buf)

pub xor_prefix-IsBytes :
    (o : Obfuscator) (partial : Bool) (buf : Bytes)
    → IsBytes buf
    → IsBytes (xor_prefix o partial buf)
unfolding xor_prefix
xor_prefix-IsBytes o partial buf h =
    let n = if partial then o.obfuscate_bytes else length buf in
    All-append IsByte (xor_data (take n buf) o.key) (drop n buf)
      (xor_data-IsBytes (take n buf) o.key (All-take IsByte n buf h)) (All-drop IsByte n buf h)

-- ===== src/Obfuscator.antt =====
-- Packet obfuscation (src/obfuscator.rs). A buffer that a function changes in place is an argument
-- and a result. `rand` is not modelled: what one call of `encode` draws from it is a `Draws`.
pub mod Header
pub mod Padding
pub mod RoundTrip
pub mod Decoding
pub mod Samples
pub mod Secrets
mod Tests
use phobos_wg_client.Base.{
  ℕ, ◌+◌, ◌-◌, ◌*◌, ◌/◌, ◌%◌, ◌^◌, ◌≤◌, ◌<◌, min, bit_and, bit_or, bit_xor, Bool, true, false, not,
  ◌&&◌, ◌||◌, List, [], ◌∷◌, ◌++◌, Option, none, some, ◌≡◌, if◌then◌else◌, ltb, leb, ◌==◌, length,
  take, drop, Bytes, IsBytes, IsByte, u32_from_le,
}
use phobos_wg_client.Crc8.{xor_data}

abbrev pub type_handshake : ℕ
type_handshake = 1

abbrev pub type_handshake_resp : ℕ
type_handshake_resp = 2

abbrev pub type_cookie : ℕ
type_cookie = 3

abbrev pub type_data : ℕ
type_data = 4

abbrev pub max_dummy_length_total : ℕ
max_dummy_length_total = 1024

abbrev pub max_dummy_length_handshake : ℕ
max_dummy_length_handshake = 512

abbrev pub default_max_dummy : ℕ
default_max_dummy = 4

pub record Obfuscator : Type 0 where
  pub key : Bytes
  pub max_dummy : ℕ
  pub obfuscate_bytes : ℕ

-- `Obfuscator::new`
pub new : Bytes → ℕ → ℕ → Obfuscator
new key max_dummy obfuscate_bytes = record {
  key = key;
  max_dummy = max_dummy;
  obfuscate_bytes = obfuscate_bytes;
}

-- `gen_range(1..=255)`, `gen_range(0..limit)` and `fill` on a slice of some length.
pub record Draws : Type 0 where
  pub rnd : ℕ
  pub below : ℕ → ℕ
  pub fill : ℕ → Bytes

-- What the documentation of `rand` promises of them.
pub record IsDraws (d : Draws) : Type 0 where
  pub rnd_pos : 1 ≤ d.rnd
  pub rnd_le : d.rnd ≤ 255
  pub below-lt : (limit : ℕ) → 0 < limit → d.below limit < limit
  pub length-fill : (n : ℕ) → length (d.fill n) ≡ n
  pub fill-IsBytes : (n : ℕ) → IsBytes (d.fill n)

unfoldable pub packet_type : Bytes → Option ℕ
packet_type (a ∷ b ∷ c ∷ d ∷ rest) = some (u32_from_le a b c d)
packet_type _ = none

unfoldable pub is_known_packet_type : ℕ → Bool
is_known_packet_type t = leb type_handshake t && leb t type_data

unfoldable pub is_obfuscated : Bytes → Bool
is_obfuscated (a ∷ b ∷ c ∷ d ∷ rest) = ltb a 1 || ltb 4 a || not (bit_or (bit_or b c) d == 0)
is_obfuscated _ = false

-- `partial`, for a buffer of length `n`.
unfoldable pub is_partial : Obfuscator → ℕ → Bool
is_partial o n = ltb 0 o.obfuscate_bytes && ltb o.obfuscate_bytes n

-- The local `max_dummy` of `encode`.
unfoldable pub dummy_room : Obfuscator → ℕ → ℕ
dummy_room o orig_len =
    let max_dummy = max_dummy_length_total - orig_len in
    if ltb 0 o.obfuscate_bytes
    then (let partial_room = o.obfuscate_bytes - orig_len + 1 in
        if ltb partial_room max_dummy then partial_room else max_dummy)
    else max_dummy

-- The `limit` of the arm of `match packet_type`; 0 where no random number is drawn.
unfoldable pub dummy_limit : Obfuscator → ℕ → ℕ → ℕ
dummy_limit o room t =
    if t == type_handshake || t == type_handshake_resp
    then min room max_dummy_length_handshake
    else if t == type_cookie || t == type_data
    then (if ltb 0 o.max_dummy then min room o.max_dummy else 0)
    else 0

unfoldable pub dummy_length : Obfuscator → Draws → ℕ → ℕ → ℕ
unfolding is_partial dummy_room dummy_limit
dummy_length o d orig_len t =
    if not (is_partial o orig_len) && ltb orig_len max_dummy_length_total
    then (let limit = dummy_limit o (dummy_room o orig_len) t in
        if ltb 0 limit then d.below limit else 0)
    else 0

-- `xor_data(&mut buf[..xor_len], &self.key)`, with `xor_len` as both functions compute it.
unfoldable pub xor_prefix : Obfuscator → Bool → Bytes → Bytes
xor_prefix o partial buf =
    let xor_len = if partial then o.obfuscate_bytes else length buf in
    xor_data (take xor_len buf) o.key ++ drop xor_len buf

-- `encode` up to the cipher: the header is masked, the filler appended.
unfoldable pub pad : Obfuscator → Draws → Bytes → Bytes
unfolding dummy_length
pad o d (b0 ∷ b1 ∷ b2 ∷ b3 ∷ rest) =
    let n = dummy_length o d (length (b0 ∷ b1 ∷ b2 ∷ b3 ∷ rest)) (u32_from_le b0 b1 b2 b3) in
    let filler = if ltb 0 n then d.fill n else [] in
    bit_xor b0 d.rnd ∷ d.rnd ∷ bit_and n 0xFF ∷ bit_and (n / 2 ^ 8) 0xFF ∷ (rest ++ filler)
pad o d buf = buf

unfoldable pub encode : Obfuscator → Draws → Bytes → Bytes
encode o d buf =
    if ltb (length buf) 4 then buf else xor_prefix o (is_partial o (length buf)) (pad o d buf)

-- The end of `decode`, on a buffer whose first byte is unmasked: `truncate`, then the reserved
-- bytes are cleared.
unfoldable pub clear_reserved : Bytes → Bytes
clear_reserved (b0 ∷ b1 ∷ b2 ∷ b3 ∷ rest) = b0 ∷ 0 ∷ 0 ∷ 0 ∷ rest
clear_reserved buf = buf

pub record Decoded : Type 0 where
  pub ok : Bool
  pub buf : Bytes

unfoldable pub has_known_type : Bytes → Bool
has_known_type buf = elim (packet_type buf) [ none ↦ false | some t ↦ is_known_packet_type t ]

unfoldable pub decode_header : Bytes → Decoded
decode_header (b0 ∷ b1 ∷ b2 ∷ b3 ∷ rest) =
    let buf = bit_xor b0 b1 ∷ b1 ∷ b2 ∷ b3 ∷ rest in
    let dummy_len = bit_or b2 (b3 * 2 ^ 8) in
    if ltb (length buf - 4) dummy_len
    then record { ok = false; buf = buf }
    else (let out = clear_reserved (take (length buf - dummy_len) buf) in
        record { ok = has_known_type out; buf = out })
decode_header buf = record { ok = false; buf = buf }

unfoldable pub decode : Obfuscator → Bytes → Decoded
decode o buf =
    if ltb (length buf) 4
    then record { ok = false; buf = buf }
    else (let plain = xor_prefix o (is_partial o (length buf)) buf in
        if not (is_obfuscated plain)
        then record { ok = true; buf = plain }
        else decode_header plain)

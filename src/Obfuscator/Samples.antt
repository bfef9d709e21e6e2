-- ===== src/Obfuscator/Samples.antt =====
-- Sample data for the tests: the obfuscator and packet of the source's tests, and fixed draws.
use phobos_wg_client.Base.{
  ◌-◌, Bool, ltb, ◌&&◌, [], true, ◌∷◌, ◌≡◌, refl, arith, replicate, length-replicate, All-replicate,
  IsByte, IsBytes, codes, Bytes,
}
use phobos_wg_client.Obfuscator.{
  Obfuscator, Draws, IsDraws, has_known_type, packet_type, is_known_packet_type,
}

abbrev pub draws : Draws
draws = record { rnd = 77; below = λ limit. limit - 1; fill = λ n. replicate n 9 }

pub draws-IsDraws : IsDraws draws
draws-IsDraws = record {
  rnd_pos = omega arith;
  rnd_le = omega arith;
  below-lt = λ limit h. omega arith;
  length-fill = λ n. length-replicate n 9;
  fill-IsBytes = λ n. All-replicate IsByte n 9 (omega arith);
}

abbrev pub obf : Obfuscator
obf = record { key = codes "my-test-secret-key-32-bytes-long"; max_dummy = 16; obfuscate_bytes = 0 }

abbrev pub packet : Bytes
packet = 4 ∷ 0 ∷ 0 ∷ 0 ∷ replicate 60 0x42

pub packet_known : has_known_type packet ≡ true
unfolding has_known_type packet_type is_known_packet_type
packet_known = refl

pub packet-IsBytes : IsBytes packet
packet-IsBytes = (
  omega arith,
  (omega arith, (omega arith, (omega arith, All-replicate IsByte 60 0x42 (omega arith)))),
)

-- Bytes, by a test that is run.
abbrev pub all_bytes : Bytes → Bool
all_bytes [] = true
all_bytes (b ∷ bs) = ltb b 256 && all_bytes bs

pub all_bytes-IsBytes : (bs : Bytes) → all_bytes bs ≡ true → IsBytes bs
all_bytes-IsBytes [] h = tt
all_bytes-IsBytes (b ∷ bs) h = (ground arith, all_bytes-IsBytes bs (ground arith))

-- ===== src/WgConfig/Fields.antt =====
-- What the parser's variables hold, and that each value that is set fits (src/wg_config.rs).
use phobos_wg_client.Base.{
  ℕ, ◌≤◌, ◌<◌, ◌^◌, List, [], ◌∷◌, Option, none, some, ◌≡◌, inl, inr, arith, ltb, ltb→lt, ◌==◌,
  ==_iff, length, from_option, Option-cases, Bytes,
}
use phobos_wg_client.Base.Net.{IpAddr, v4, v6}
use phobos_wg_client.Base.Result.{
  Result, ok, err, ◌>>=◌, map_err, AllOk, AllOk-Unit, AllSome, if_preserves, bind_preserves,
}
use phobos_wg_client.Text.{Text, trim, split_once}
use phobos_wg_client.Text.Number.{parse_u8, parse_u16, parse_unsigned-lt}
use phobos_wg_client.Text.Ip.{parse_ip}
use phobos_wg_client.WgConfig.{
  KeyError, wrong_key_length, ParseError, Parser, Decode, decode_key_32, base64_decode_error,
  check_length, set_address, set_parsed, split_part, address_part, address_parts, set_mtu,
  set_keepalive,
}

abbrev pub IsKey : Bytes → Type 0
IsKey k = length k ≡ 32

abbrev pub IsKeepalive : ℕ → Type 0
IsKeepalive k = (0 < k) × (k < 2 ^ 16)

-- The keys have 32 bytes, the prefix is a `u8`, the MTU at most 1280, a keepalive a positive `u16`.
abbrev pub IsFitting : Parser → Type 0
IsFitting s =
    AllSome IsKey s.private_key
    × AllSome IsKey s.peer_public_key
    × AllSome IsKey s.preshared_key
    × (s.client_ipv4_prefix < 2 ^ 8)
    × (s.mtu ≤ 1280)
    × AllSome IsKeepalive s.persistent_keepalive

check_length-IsKey : (bytes : Bytes) → AllOk IsKey (check_length bytes)
check_length-IsKey bytes =
    if_preserves (AllOk IsKey) (length bytes == 32) (ok bytes)
      (err (wrong_key_length (length bytes))) (λ e. (==_iff (length bytes) 32).0 e) (λ e. tt)

map_err-AllOk {ℓ κ μ ν} :
    {E : Type ℓ} {F : Type κ} {A : Type μ} (P : A → Type ν) (f : E → F) (r : Result E A)
    → AllOk P r
    → AllOk P (map_err f r)
map_err-AllOk P f (ok a) h = h
map_err-AllOk P f (err e) h = tt

decode_key_32-IsKey : (decode : Decode) (val : Text) → AllOk IsKey (decode_key_32 decode val)
unfolding decode_key_32
decode_key_32-IsKey decode val =
    bind_preserves (λ bytes. Unit) IsKey (map_err base64_decode_error (decode (trim val)))
      check_length
      (map_err-AllOk (λ bytes. Unit) base64_decode_error (decode (trim val))
        (AllOk-Unit (decode (trim val))))
      (λ bytes u. check_length-IsKey bytes)

-- A key that is decoded by `decode_key_32` is stored by `store`.
pub store_key-IsFitting :
    (decode : Decode) (val : Text) (f : KeyError → ParseError) (store : Bytes → Parser)
    → ((k : Bytes) → IsKey k → IsFitting (store k))
    → AllOk IsFitting (map_err f (decode_key_32 decode val) >>= λ k. ok (store k))
store_key-IsFitting decode val f store h =
    bind_preserves IsKey IsFitting (map_err f (decode_key_32 decode val)) (λ k. ok (store k))
      (map_err-AllOk IsKey f (decode_key_32 decode val) (decode_key_32-IsKey decode val)) h

pub set_address-IsFitting :
    (s : Parser) (ip : IpAddr) (prefix : ℕ)
    → IsFitting s
    → prefix < 2 ^ 8
    → IsFitting (set_address s ip prefix)
unfolding set_address
set_address-IsFitting s (v4 a) prefix h lt = elim (Option-cases s.client_ipv4) [
  | inl e ↦ rw e (h.0, h.1, h.2, lt, h.4, h.5)
  | inr (b, e) ↦ rw e h
]
set_address-IsFitting s (v6 a) prefix h lt = elim (Option-cases s.client_ipv6) [
  | inl e ↦ rw e h
  | inr (b, e) ↦ rw e h
]

prefix-lt : (t : Text) → from_option (parse_u8 t) 32 < 2 ^ 8
prefix-lt t = elim (Option-cases (parse_u8 t)) [
  | inl e ↦ rw e (ground arith)
  | inr (n, e) ↦ rw e (parse_unsigned-lt (2 ^ 8) t n (ground arith) e)
]

pub set_parsed-IsFitting :
    (s : Parser) (o : Option IpAddr) (prefix : ℕ)
    → IsFitting s
    → prefix < 2 ^ 8
    → IsFitting (set_parsed s o prefix)
set_parsed-IsFitting s none prefix h lt = h
set_parsed-IsFitting s (some ip) prefix h lt = set_address-IsFitting s ip prefix h lt

pub split_part-IsFitting :
    (s : Parser) (part : Text) (o : Option (Text × Text))
    → IsFitting s
    → IsFitting (split_part s part o)
split_part-IsFitting s part none h =
    set_parsed-IsFitting s (parse_ip part) s.client_ipv4_prefix h h.3
split_part-IsFitting s part (some (ip, prefix)) h =
    set_parsed-IsFitting s (parse_ip ip) (from_option (parse_u8 prefix) 32) h (prefix-lt prefix)

pub address_part-IsFitting :
    (s : Parser) (part : Text) → IsFitting s → IsFitting (address_part s part)
unfolding address_part
address_part-IsFitting s part h = split_part-IsFitting s (trim part) (split_once b'/' (trim part)) h

pub address_parts-IsFitting :
    (parts : List Text) (s : Parser) → IsFitting s → IsFitting (address_parts s parts)
unfolding address_parts
address_parts-IsFitting [] s h = h
address_parts-IsFitting (part ∷ parts) s h =
    address_parts-IsFitting parts (address_part s part) (address_part-IsFitting s part h)

pub set_mtu-IsFitting : (s : Parser) (o : Option ℕ) → IsFitting s → IsFitting (set_mtu s o)
unfolding set_mtu
set_mtu-IsFitting s none h = h
set_mtu-IsFitting s (some m) h = (h.0, h.1, h.2, h.3, ground arith, h.5)

pub set_keepalive-IsFitting :
    (s : Parser) (val : Text) → IsFitting s → IsFitting (set_keepalive s (parse_u16 val))
unfolding set_keepalive
set_keepalive-IsFitting s val h = elim (Option-cases (parse_u16 val)) [
  | inl e ↦ rw e h
  | inr (k, e) ↦ rw e (
      if_preserves IsFitting (ltb 0 k) (record s { persistent_keepalive = some k }) s
        (λ lt. (
          h.0,
          h.1,
          h.2,
          h.3,
          h.4,
          (ltb→lt 0 k lt, parse_unsigned-lt (2 ^ 16) val k (ground arith) e),
        ))
        (λ ge. h))
]

-- ===== src/WgConfig/Addresses.antt =====
-- Which addresses an `Address` line sets (src/wg_config.rs): the first of each kind.
use phobos_wg_client.Base.{
  ℕ, List, [], ◌∷◌, Option, none, some, ◌≡◌, refl, sym, ap, arith, inl, inr, from_option,
  Option-cases, ◌∙◌,
}
use phobos_wg_client.Base.Net.{IpAddr, v4, v6}
use phobos_wg_client.Text.{Text, trim, split_once}
use phobos_wg_client.Text.Number.{parse_u8}
use phobos_wg_client.Text.Ip.{parse_ip}
use phobos_wg_client.WgConfig.{
  Parser, set_address, set_parsed, split_part, address_part, address_parts,
}

abbrev pub or_else : {A : Type 0} → Option A → Option A → Option A
or_else none p = p
or_else (some a) p = some a

abbrev with_prefix : Option IpAddr → ℕ → Option (IpAddr × ℕ)
with_prefix none n = none
with_prefix (some ip) n = some (ip, n)

abbrev read_split : Text → Option (Text × Text) → Option (IpAddr × ℕ)
read_split part none = with_prefix (parse_ip part) 32
read_split part (some (ip, n)) = with_prefix (parse_ip ip) (from_option (parse_u8 n) 32)

-- The address of a part with its prefix length, 32 where it has none that parses.
abbrev pub read_part : Text → Option (IpAddr × ℕ)
read_part part = read_split (trim part) (split_once b'/' (trim part))

abbrev ipv4_part : Option (IpAddr × ℕ) → Option (ℕ × ℕ)
ipv4_part (some (v4 a, n)) = some (a, n)
ipv4_part _ = none

abbrev ipv6_part : Option (IpAddr × ℕ) → Option ℕ
ipv6_part (some (v6 a, n)) = some a
ipv6_part _ = none

-- The first IPv4 address of the parts, with its prefix length, and the first IPv6 address.
abbrev pub first_ipv4 : List Text → Option (ℕ × ℕ)
first_ipv4 [] = none
first_ipv4 (part ∷ parts) = or_else (ipv4_part (read_part part)) (first_ipv4 parts)

abbrev pub first_ipv6 : List Text → Option ℕ
first_ipv6 [] = none
first_ipv6 (part ∷ parts) = or_else (ipv6_part (read_part part)) (first_ipv6 parts)

abbrev with_number : Option ℕ → ℕ → Option (ℕ × ℕ)
with_number none n = none
with_number (some a) n = some (a, n)

-- The IPv4 address that is set, with its prefix length.
abbrev pub ipv4_of : Parser → Option (ℕ × ℕ)
ipv4_of s = with_number s.client_ipv4 s.client_ipv4_prefix

-- The prefix length is the default until an address is set.
abbrev pub HasDefaultPrefix : Parser → Type 0
HasDefaultPrefix s = s.client_ipv4 ≡ none → s.client_ipv4_prefix ≡ 32

or_else_assoc : {A : Type 0} (o p q : Option A) → or_else (or_else o p) q ≡ or_else o (or_else p q)
or_else_assoc none p q = refl
or_else_assoc (some a) p q = refl

or_else-none : {A : Type 0} (o : Option A) → or_else o none ≡ o
or_else-none none = refl
or_else-none (some a) = refl

-- What a part does to a parser, of which it sets the addresses that are not set.
abbrev SetsFirst : Parser → Option (IpAddr × ℕ) → Parser → Type 0
SetsFirst s o t =
    (ipv4_of t ≡ or_else (ipv4_of s) (ipv4_part o))
    × (t.client_ipv6 ≡ or_else s.client_ipv6 (ipv6_part o))
    × HasDefaultPrefix t

set_address-SetsFirst :
    (s : Parser) (ip : IpAddr) (n : ℕ)
    → HasDefaultPrefix s
    → SetsFirst s (some (ip, n)) (set_address s ip n)
unfolding set_address
set_address-SetsFirst s (v4 a) n h = elim (Option-cases s.client_ipv4) [
  | inl e ↦ rw e (refl, sym (or_else-none s.client_ipv6), λ e. ground arith)
  | inr (b, e) ↦ rw e (refl, sym (or_else-none s.client_ipv6), λ e. ground arith)
]
set_address-SetsFirst s (v6 a) n h = elim (Option-cases s.client_ipv6) [
  | inl e ↦ rw e (sym (or_else-none (ipv4_of s)), refl, h)
  | inr (b, e) ↦ rw e (sym (or_else-none (ipv4_of s)), refl, h)
]

-- An address without a prefix length is set with the length that is there, the default.
bare_address-SetsFirst :
    (s : Parser) (ip : IpAddr)
    → HasDefaultPrefix s
    → SetsFirst s (some (ip, 32)) (set_address s ip s.client_ipv4_prefix)
unfolding set_address
bare_address-SetsFirst s (v4 a) h = elim (Option-cases s.client_ipv4) [
  | inl e ↦ rw e (ap (λ n. some (a, n)) (h e), sym (or_else-none s.client_ipv6), λ e. ground arith)
  | inr (b, e) ↦ rw e (refl, sym (or_else-none s.client_ipv6), λ e. ground arith)
]
bare_address-SetsFirst s (v6 a) h = set_address-SetsFirst s (v6 a) s.client_ipv4_prefix h

nothing-SetsFirst : (s : Parser) → HasDefaultPrefix s → SetsFirst s none s
nothing-SetsFirst s h = (sym (or_else-none (ipv4_of s)), sym (or_else-none s.client_ipv6), h)

set_parsed-SetsFirst :
    (s : Parser) (o : Option IpAddr) (n : ℕ)
    → HasDefaultPrefix s
    → SetsFirst s (with_prefix o n) (set_parsed s o n)
set_parsed-SetsFirst s none n h = nothing-SetsFirst s h
set_parsed-SetsFirst s (some ip) n h = set_address-SetsFirst s ip n h

split_part-SetsFirst :
    (s : Parser) (part : Text) (o : Option (Text × Text))
    → HasDefaultPrefix s
    → SetsFirst s (read_split part o) (split_part s part o)
split_part-SetsFirst s part none h = elim (Option-cases (parse_ip part)) [
  | inl e ↦ rw e (nothing-SetsFirst s h)
  | inr (ip, e) ↦ rw e (bare_address-SetsFirst s ip h)
]
split_part-SetsFirst s part (some (ip, n)) h =
    set_parsed-SetsFirst s (parse_ip ip) (from_option (parse_u8 n) 32) h

address_part-SetsFirst :
    (s : Parser) (part : Text)
    → HasDefaultPrefix s
    → SetsFirst s (read_part part) (address_part s part)
unfolding address_part
address_part-SetsFirst s part h = split_part-SetsFirst s (trim part) (split_once b'/' (trim part)) h

-- Where the prefix length is the default as long as no IPv4 address is set, the parts of an
-- `Address` set the first IPv4 address that parses with the prefix length that stands at it, and the
-- first IPv6 address that parses; an address that is set already stays. The prefix length stays
-- the default as long as no IPv4 address is set.
pub address_parts-first :
    (parts : List Text) (s : Parser)
    → HasDefaultPrefix s
    → (ipv4_of (address_parts s parts) ≡ or_else (ipv4_of s) (first_ipv4 parts))
      × ((address_parts s parts).client_ipv6 ≡ or_else s.client_ipv6 (first_ipv6 parts))
      × HasDefaultPrefix (address_parts s parts)
unfolding address_parts
address_parts-first [] s h = nothing-SetsFirst s h
address_parts-first (part ∷ parts) s h =
    let (here4, here6, default) = address_part-SetsFirst s part h in
    let (rest4, rest6, default') = address_parts-first parts (address_part s part) default in
    (
      rest4
          ∙ (ap (λ o. or_else o (first_ipv4 parts)) here4
              ∙ or_else_assoc (ipv4_of s) (ipv4_part (read_part part)) (first_ipv4 parts)),
      rest6
          ∙ (ap (λ o. or_else o (first_ipv6 parts)) here6
              ∙ or_else_assoc s.client_ipv6 (ipv6_part (read_part part)) (first_ipv6 parts)),
      default',
    )

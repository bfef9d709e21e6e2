-- ===== src/Text/Show.antt =====
-- What `{}` prints for a network address (the standard library's `Ipv4Addr`, `Ipv6Addr`, `IpAddr`).
use phobos_wg_client.Base.{
  ℕ, zero, suc, ◌+◌, ◌-◌, ◌/◌, ◌%◌, ◌^◌, List, [], ◌∷◌, ◌++◌, map, if◌then◌else◌, ltb, ◌==◌, ◌≡◌,
  refl, take, drop, codes,
}
use phobos_wg_client.Base.Net.{IpAddr, v4, v6}
use phobos_wg_client.Text.{Text, join}
use phobos_wg_client.Text.Number.{show, show_from}

unfoldable pub show_ipv4 : ℕ → Text
show_ipv4 a = join (codes ".") (
    show (a / 2 ^ 24 % 2 ^ 8)
    ∷ show (a / 2 ^ 16 % 2 ^ 8)
    ∷ show (a / 2 ^ 8 % 2 ^ 8)
    ∷ show (a % 2 ^ 8)
    ∷ [])

abbrev hex_digit : ℕ → ℕ
hex_digit d = if ltb d 10 then b'0' + d else b'a' + d - 10

-- `{:x}` for a number with at most as many digits as the fuel.
unfoldable pub show_hex : ℕ → ℕ → Text
show_hex zero n = []
show_hex (suc fuel) n =
    let front = show_hex fuel (n / 16) in
    if ltb n 16 then hex_digit n ∷ [] else front ++ hex_digit (n % 16) ∷ []

unfoldable pub segments : ℕ → List ℕ
segments a =
    a / 2 ^ 112 % 2 ^ 16
    ∷ a / 2 ^ 96 % 2 ^ 16
    ∷ a / 2 ^ 80 % 2 ^ 16
    ∷ a / 2 ^ 64 % 2 ^ 16
    ∷ a / 2 ^ 48 % 2 ^ 16
    ∷ a / 2 ^ 32 % 2 ^ 16
    ∷ a / 2 ^ 16 % 2 ^ 16
    ∷ a % 2 ^ 16
    ∷ []

pub record Span : Type 0 where
  pub start : ℕ
  pub len : ℕ

abbrev longer : Span → Span → Span
longer current longest = if ltb longest.len current.len then current else longest

abbrev extended : ℕ → Span → Span
extended i current =
    if current.len == 0
    then record { start = i; len = 1 }
    else record current { len = current.len + 1 }

-- The first of the longest runs of zeros, from the segment `i` on.
unfoldable pub longest_zeros : ℕ → Span → Span → List ℕ → Span
longest_zeros i current longest [] = longest
longest_zeros i current longest (s ∷ rest) =
    let next = if s == 0 then extended i current else record { start = 0; len = 0 } in
    longest_zeros (i + 1) next (longer next longest) rest

abbrev hex_groups : List ℕ → Text
hex_groups l = join (codes ":") (map (show_hex 4) l)

unfoldable pub show_ipv6 : ℕ → Text
show_ipv6 a =
    let groups = segments a in
    let none_yet : Span = record { start = 0; len = 0 } in
    let zeros = longest_zeros 0 none_yet none_yet groups in
    if a / 2 ^ 32 == 0xFFFF
    then codes "::ffff:" ++ show_ipv4 (a % 2 ^ 32)
    else if ltb 1 zeros.len
    then hex_groups (take zeros.start groups)
      ++ (codes "::" ++ hex_groups (drop (zeros.start + zeros.len) groups))
    else hex_groups groups

abbrev pub show_ip : IpAddr → Text
show_ip (v4 a) = show_ipv4 a
show_ip (v6 a) = show_ipv6 a

shown :
    (show_ip (v4 0x0a080003) ≡ codes "10.8.0.3")
    × (show_ip (v6 0xfdccad94bacf61a400000000cafe0003) ≡ codes "fdcc:ad94:bacf:61a4::cafe:3")
    × (show_ip (v6 1) ≡ codes "::1")
    × (show_ip (v6 0) ≡ codes "::")
    × (show_ip (v6 0xffff01020304) ≡ codes "::ffff:1.2.3.4")
    × (show_ip (v6 0x20010db8000000010001000100010001) ≡ codes "2001:db8:0:1:1:1:1:1")
unfolding show_ipv4 show_ipv6 show_hex segments longest_zeros show show_from join
shown = (refl, refl, refl, refl, refl, refl)

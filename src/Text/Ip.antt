-- ===== src/Text/Ip.antt =====
-- `parse` into `IpAddr`, as the standard library's recursive descent does it.
use phobos_wg_client.Base.{
  ℕ, zero, suc, ◌+◌, ◌-◌, ◌*◌, ◌/◌, ◌%◌, ◌^◌, Bool, true, false, not, ◌&&◌, List, [], ◌∷◌, ◌++◌,
  Option, none, some, if◌then◌else◌, ltb, ◌==◌, length, replicate,
}
use phobos_wg_client.Base.Net.{IpAddr, v4, v6}
use phobos_wg_client.Text.{Text, is_between}

-- A reader takes a value off the front of a text, or fails and takes nothing.
abbrev Read : Type 0 → Type 0
Read A = Option (A × Text)

infixl 5 ◌>>=◌
abbrev ◌>>=◌ : {A B : Type 0} → Option A → (A → Option B) → Option B
none >>= f = none
some a >>= f = f a

-- `char::to_digit`, for the radices 10 and 16.
unfoldable pub digit_of : ℕ → ℕ → Option ℕ
unfolding is_between
digit_of radix c =
    if is_between b'0' b'9' c
    then some (c - b'0')
    else if radix == 16 && is_between b'a' b'f' c
    then some (c - b'a' + 10)
    else if radix == 16 && is_between b'A' b'F' c
    then some (c - b'A' + 10)
    else none

pub record Digits : Type 0 where
  pub count : ℕ
  pub value : ℕ
  pub rest : Text

unfoldable pub read_digits : ℕ → ℕ → ℕ → Text → Digits
unfolding digit_of
read_digits radix n v [] = record { count = n; value = v; rest = [] }
read_digits radix n v (c ∷ s) = elim (digit_of radix c) [
  | none ↦ record { count = n; value = v; rest = c ∷ s }
  | some d ↦ read_digits radix (n + 1) (v * radix + d) s
]

abbrev leads_with_zero : Text → Bool
leads_with_zero [] = false
leads_with_zero (c ∷ s) = c == b'0'

-- `read_number(radix, Some(max_digits), allow_zero_prefix)` into a type of values below `limit`.
unfoldable pub read_number : ℕ → ℕ → Bool → ℕ → Text → Option (ℕ × Text)
unfolding read_digits
read_number radix max_digits allow_zero_prefix limit s =
    let r = read_digits radix 0 0 s in
    if ltb max_digits r.count
    then none
    else if r.count == 0
    then none
    else if not allow_zero_prefix && leads_with_zero s && ltb 1 r.count
    then none
    else if ltb r.value limit
    then some (r.value, r.rest)
    else none

abbrev pub read_given : ℕ → Text → Option Text
read_given c [] = none
read_given c (d ∷ s) = if d == c then some s else none

-- `read_separator`: no separator before the first.
abbrev pub behind : ℕ → ℕ → Text → Option Text
behind sep zero s = some s
behind sep (suc i) s = read_given sep s

abbrev read_octet : Text → Read ℕ
read_octet = read_number 10 3 false (2 ^ 8)

unfoldable pub read_ipv4 : Text → Option (ℕ × Text)
unfolding read_number
read_ipv4 s = do
  (a, s) ← read_octet s
  s ← read_given b'.' s
  (b, s) ← read_octet s
  s ← read_given b'.' s
  (c, s) ← read_octet s
  s ← read_given b'.' s
  (d, s) ← read_octet s
  some (((a * 2 ^ 8 + b) * 2 ^ 8 + c) * 2 ^ 8 + d, s)

pub record Groups : Type 0 where
  pub groups : List ℕ
  pub ipv4 : Bool
  pub rest : Text

-- `read_groups` from slot `i` on, with `left` slots free: an IPv4 address in the last two slots, or
-- one more group, or the end.
unfoldable pub read_groups : ℕ → ℕ → Text → Groups
unfolding read_ipv4
read_groups zero i s = record { groups = []; ipv4 = false; rest = s }
read_groups (suc left) i s =
    let stop : Groups = record { groups = []; ipv4 = false; rest = s } in
    let one_group : Groups = elim (do s' ← behind b':' i s; read_number 16 4 true (2 ^ 16) s') [
      | none ↦ stop
      | some (g, s') ↦
          let r = read_groups left (i + 1) s' in
          record { groups = g ∷ r.groups; ipv4 = r.ipv4; rest = r.rest }
    ] in
    if left == 0 then one_group else elim (do s' ← behind b':' i s; read_ipv4 s') [
      | none ↦ one_group
      | some (v, s') ↦ record { groups = v / 2 ^ 16 ∷ v % 2 ^ 16 ∷ []; ipv4 = true; rest = s' }
    ]

-- The number of 128 bits that the groups stand for.
abbrev bits_from : ℕ → List ℕ → ℕ
bits_from n [] = n
bits_from n (g ∷ gs) = bits_from (n * 2 ^ 16 + g) gs

-- `::` stands for as many zero groups as are missing, and for one at least.
unfoldable pub read_ipv6 : Text → Option (ℕ × Text)
unfolding read_groups
read_ipv6 s =
    let head = read_groups 8 0 s in
    let n = length head.groups in
    if n == 8 then some (bits_from 0 head.groups, head.rest) else if head.ipv4 then none else (do
      s ← read_given b':' head.rest
      s ← read_given b':' s
      let tail = read_groups (7 - n) 0 s
      let zeros = replicate (8 - n - length tail.groups) 0
      some (bits_from 0 (head.groups ++ (zeros ++ tail.groups)), tail.rest))

abbrev at_end : (ℕ → IpAddr) → Option (ℕ × Text) → Option IpAddr
at_end make (some (a, [])) = some (make a)
at_end make _ = none

-- The IPv6 reader is tried where the IPv4 reader fails; no text may be left.
unfoldable pub parse_ip : Text → Option IpAddr
unfolding read_ipv4 read_ipv6
parse_ip s = elim (read_ipv4 s) [ none ↦ at_end v6 (read_ipv6 s) | some r ↦ at_end v4 (some r) ]

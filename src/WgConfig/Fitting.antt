-- ===== src/WgConfig/Fitting.antt =====
-- What holds of every configuration that `parse` returns (src/wg_config.rs).
use phobos_wg_client.Base.{
  ◌≤◌, ◌<◌, ◌^◌, Bool-cases, List, [], ◌∷◌, some, ◌≡◌, ◌≢◌, subst, inl, inr, arith, if◌then◌else◌,
  Option-cases, codes,
}
use phobos_wg_client.Base.Net.{IpAddr}
use phobos_wg_client.Base.Result.{ok, AllOk, AllSome, AllOk-eq, if_preserves, bind_preserves}
use phobos_wg_client.Text.{Text, CaseTable, text_eq, trim, split, split_once, to_lowercase}
use phobos_wg_client.Text.Lines.{lines, is_header}
use phobos_wg_client.Text.Number.{parse_usize}
use phobos_wg_client.WgConfig.{
  WireGuardConfig, Parser, initial, Decode, interface_key, peer_key, key_line, is_comment,
  enter_section, parse_line, parse_lines, finish, parse, invalid_private_key, invalid_public_key,
  invalid_preshared_key, or_default_dns,
}
use phobos_wg_client.WgConfig.Fields.{
  IsKey, IsKeepalive, IsFitting, store_key-IsFitting, address_parts-IsFitting, set_mtu-IsFitting,
  set_keepalive-IsFitting,
}

-- The same of a configuration, which has a DNS server besides.
abbrev pub IsUsable : WireGuardConfig → Type 0
IsUsable c =
    IsKey c.private_key
    × IsKey c.peer_public_key
    × AllSome IsKey c.preshared_key
    × (c.client_ipv4_prefix < 2 ^ 8)
    × (c.mtu ≤ 1280)
    × AllSome IsKeepalive c.persistent_keepalive
    × (c.dns_servers ≢ [])

interface_key-IsFitting :
    (decode : Decode) (s : Parser) (key val : Text)
    → IsFitting s
    → AllOk IsFitting (interface_key decode s key val)
unfolding interface_key
interface_key-IsFitting decode s key val h = elim (Bool-cases (text_eq key (codes "privatekey"))) [
  | inl e ↦ rw e (
      store_key-IsFitting decode val invalid_private_key (λ k. record s { private_key = some k })
        (λ k len. (len, h.1, h.2, h.3, h.4, h.5)))
  | inr e ↦ rw e elim (Bool-cases (text_eq key (codes "address"))) [
    | inl e ↦ rw e (address_parts-IsFitting (split b',' val) s h)
    | inr e ↦ rw e elim (Bool-cases (text_eq key (codes "dns"))) [
      | inl e ↦ rw e h
      | inr e ↦ rw e elim (Bool-cases (text_eq key (codes "mtu"))) [
        | inl e ↦ rw e (set_mtu-IsFitting s (parse_usize val) h)
        | inr e ↦ rw e h
      ]
    ]
  ]
]

peer_key-IsFitting :
    (decode : Decode) (s : Parser) (key val : Text)
    → IsFitting s
    → AllOk IsFitting (peer_key decode s key val)
unfolding peer_key
peer_key-IsFitting decode s key val h = elim (Bool-cases (text_eq key (codes "publickey"))) [
  | inl e ↦ rw e (
      store_key-IsFitting decode val invalid_public_key (λ k. record s { peer_public_key = some k })
        (λ k len. (h.0, len, h.2, h.3, h.4, h.5)))
  | inr e ↦ rw e elim (Bool-cases (text_eq key (codes "presharedkey"))) [
    | inl e ↦ rw e (
        store_key-IsFitting decode val invalid_preshared_key
          (λ k. record s { preshared_key = some k }) (λ k len. (h.0, h.1, len, h.3, h.4, h.5)))
    | inr e ↦ rw e elim (Bool-cases (text_eq key (codes "allowedips"))) [
      | inl e ↦ rw e h
      | inr e ↦ rw e elim (Bool-cases (text_eq key (codes "persistentkeepalive"))) [
        | inl e ↦ rw e (set_keepalive-IsFitting s val h)
        | inr e ↦ rw e h
      ]
    ]
  ]
]

key_line-IsFitting :
    (u : CaseTable) (decode : Decode) (s : Parser) (k v : Text)
    → IsFitting s
    → AllOk IsFitting (key_line u decode s k v)
unfolding key_line
key_line-IsFitting u decode s k v h =
    let key = to_lowercase u (trim k) in
    let val = trim v in
    if_preserves (AllOk IsFitting) s.in_interface (interface_key decode s key val)
      (if s.in_peer then peer_key decode s key val else ok s)
      (λ e. interface_key-IsFitting decode s key val h)
      (λ e.
        if_preserves (AllOk IsFitting) s.in_peer (peer_key decode s key val) (ok s)
          (λ e. peer_key-IsFitting decode s key val h) (λ e. h))

parse_line-IsFitting :
    (u : CaseTable) (decode : Decode) (s : Parser) (line : Text)
    → IsFitting s
    → AllOk IsFitting (parse_line u decode s line)
unfolding parse_line enter_section
parse_line-IsFitting u decode s line h = elim (Bool-cases (is_comment (trim line))) [
  | inl e ↦ rw e h
  | inr e ↦ rw e elim (Bool-cases (is_header (trim line))) [
    | inl e ↦ rw e h
    | inr e ↦ rw e elim (Option-cases (split_once b'=' (trim line))) [
      | inl e ↦ rw e h
      | inr (p, e) ↦ rw e (key_line-IsFitting u decode s p.0 p.1 h)
    ]
  ]
]

parse_lines-IsFitting :
    (u : CaseTable) (decode : Decode) (rest : List Text) (s : Parser)
    → IsFitting s
    → AllOk IsFitting (parse_lines u decode s rest)
unfolding parse_lines
parse_lines-IsFitting u decode [] s h = h
parse_lines-IsFitting u decode (line ∷ rest) s h =
    bind_preserves IsFitting IsFitting (parse_line u decode s line)
      (λ s. parse_lines u decode s rest) (parse_line-IsFitting u decode s line h)
      (λ s. parse_lines-IsFitting u decode rest s)

or_default_dns-nonempty : (ips : List IpAddr) → or_default_dns ips ≢ []
or_default_dns-nonempty [] e = ground arith
or_default_dns-nonempty (ip ∷ ips) e = ground arith

finish-IsUsable : (s : Parser) → IsFitting s → AllOk IsUsable (finish s)
unfolding finish
finish-IsUsable s h = elim (Option-cases s.private_key) [
  | inl e ↦ rw e tt
  | inr (k, e) ↦ rw e elim (Option-cases s.peer_public_key) [
    | inl e' ↦ rw e' tt
    | inr (p, e') ↦ rw e' elim (Option-cases s.client_ipv4) [
      | inl i ↦ rw i tt
      | inr (a, i) ↦ rw i (
        subst (AllSome IsKey) e h.0,
        subst (AllSome IsKey) e' h.1,
        h.2,
        h.3,
        h.4,
        h.5,
        or_default_dns-nonempty s.dns_servers,
      )
    ]
  ]
]

-- A configuration that `parse` returns, whatever the text and the base64 decoder, has keys of 32
-- bytes, a prefix below 256, an MTU of at most 1280, a keepalive, if any, from 1 to 65535, and at
-- least one DNS server.
pub parse-IsUsable :
    (u : CaseTable) (decode : Decode) (conf : Text) (c : WireGuardConfig)
    → parse u decode conf ≡ ok c
    → IsUsable c
unfolding parse
parse-IsUsable u decode conf c e =
    AllOk-eq IsUsable (parse u decode conf) c
      (bind_preserves IsFitting IsUsable (parse_lines u decode initial (lines conf)) finish
        (parse_lines-IsFitting u decode (lines conf) initial
          (tt, tt, tt, ground arith, ground arith, tt))
        finish-IsUsable)
      e

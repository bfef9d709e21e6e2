-- ===== src/Text/Tests.antt =====
-- Tests of the library functions.
use phobos_wg_client.Base.{true, [], ◌∷◌, none, some, ◌≡◌, refl, codes, bytes_eq}
use phobos_wg_client.Base.Net.{v4, v6}
use phobos_wg_client.Text.{trim, split, split_once, join, ends_with, eq_ignore_ascii_case}
use phobos_wg_client.Text.Lines.{lines}
use phobos_wg_client.Text.Number.{digits_value, parse_unsigned, parse_u8, parse_u16}
use phobos_wg_client.Text.Ip.{parse_ip}

addresses :
    (parse_ip (codes "10.8.0.3") ≡ some (v4 0x0a080003))
    × (parse_ip (codes "2001:4860:4860::8888") ≡ some (v6 0x20014860486000000000000000008888))
    × (parse_ip (codes "fdcc:ad94:bacf:61a4::cafe:3")
        ≡ some (v6 0xfdccad94bacf61a400000000cafe0003))
    × (parse_ip (codes "::") ≡ some (v6 0))
    × (parse_ip (codes "::ffff:1.2.3.4") ≡ some (v6 0xffff01020304))
    × (parse_ip (codes "1:2:3:4:5:6:7:8") ≡ some (v6 0x00010002000300040005000600070008))
    × (parse_ip (codes "1.2.3") ≡ none)
    × (parse_ip (codes "1.2.3.256") ≡ none)
    × (parse_ip (codes "01.2.3.4") ≡ none)
    × (parse_ip (codes "1.2.3.4/8") ≡ none)
    × (parse_ip (codes "1:2:3:4:5:6:7:8:9") ≡ none)
    × (parse_ip (codes "1:::2") ≡ none)
unfolding parse_ip
addresses = (refl, refl, refl, refl, refl, refl, refl, refl, refl, refl, refl, refl)

numbers :
    (parse_u8 (codes "255") ≡ some 255)
    × (parse_u8 (codes "256") ≡ none)
    × (parse_u16 (codes "+7") ≡ some 7)
    × (parse_u16 (codes "+") ≡ none)
    × (parse_u16 (codes "-7") ≡ none)
    × (parse_u16 (codes "") ≡ none)
unfolding parse_unsigned digits_value
numbers = (refl, refl, refl, refl, refl, refl)

texts :
    (trim (codes "  a b ") ≡ codes "a b")
    × (split b',' (codes "a,,b") ≡ codes "a" ∷ [] ∷ codes "b" ∷ [])
    × (split_once b'=' (codes "k=v=w") ≡ some (codes "k", codes "v=w"))
    × (lines (codes "a\r\nb\n\nc") ≡ codes "a" ∷ codes "b" ∷ [] ∷ codes "c" ∷ [])
    × (lines (codes "a\n") ≡ codes "a" ∷ [])
    × (ends_with (codes "p.tar.gz") (codes ".gz") ≡ true)
    × (eq_ignore_ascii_case (codes "InterFace") (codes "interface") ≡ true)
    × (join (codes ", ") (codes "a" ∷ codes "b" ∷ []) ≡ codes "a, b")
unfolding trim split split_once lines ends_with eq_ignore_ascii_case join bytes_eq
texts = (refl, refl, refl, refl, refl, refl, refl, refl)

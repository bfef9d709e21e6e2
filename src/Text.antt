-- ===== src/Text.antt =====
-- The functions of Rust's standard library on text that the configuration code calls. A text is the
-- list of its code points. Case tables beyond ASCII are those of Unicode, and an argument.

pub mod Trim
pub mod Replace
pub mod Number
pub mod Ip
pub mod Wide
pub mod Show
pub mod Printed
pub mod Lines
mod Tests
use phobos_wg_client.Base.{
  ℕ, zero, suc, ◌+◌, ◌-◌, ◌/◌, ◌%◌, ◌^◌, Bool, true, false, not, ◌&&◌, ◌||◌, List, [], ◌∷◌, ◌++◌,
  Option, none, some, if◌then◌else◌, ltb, leb, ◌==◌, bytes_eq, codes, length,
}

abbrev pub Text : Type 0
Text = List ℕ

abbrev pub is_nil {ℓ} : {A : Type ℓ} → List A → Bool
is_nil [] = true
is_nil (x ∷ xs) = false

-- `==` on texts.
abbrev pub text_eq : Text → Text → Bool
text_eq = bytes_eq

unfoldable pub is_between : ℕ → ℕ → ℕ → Bool
is_between lo hi c = leb lo c && leb c hi

-- Unicode's `White_Space`, by which `str::trim` cuts.
unfoldable pub is_whitespace : ℕ → Bool
unfolding is_between
is_whitespace c =
    is_between 0x09 0x0D c
    || c == 0x20
    || c == 0x85
    || c == 0xA0
    || c == 0x1680
    || is_between 0x2000 0x200A c
    || c == 0x2028
    || c == 0x2029
    || c == 0x202F
    || c == 0x205F
    || c == 0x3000

-- `trim_start_matches` and `trim_end_matches` with a closure.
unfoldable pub trim_start_by : (ℕ → Bool) → Text → Text
trim_start_by p [] = []
trim_start_by p (c ∷ s) = if p c then trim_start_by p s else c ∷ s

unfoldable pub trim_end_by : (ℕ → Bool) → Text → Text
trim_end_by p [] = []
trim_end_by p (c ∷ s) = let rest = trim_end_by p s in if is_nil rest && p c then [] else c ∷ rest

unfoldable pub trim_by : (ℕ → Bool) → Text → Text
unfolding trim_start_by trim_end_by
trim_by p s = trim_end_by p (trim_start_by p s)

unfoldable pub trim : Text → Text
unfolding trim_by is_whitespace
trim = trim_by is_whitespace

unfoldable pub ascii_lower : ℕ → ℕ
unfolding is_between
ascii_lower c = if is_between b'A' b'Z' c then c + 32 else c

unfoldable pub ascii_upper : ℕ → ℕ
unfolding is_between
ascii_upper c = if is_between b'a' b'z' c then c - 32 else c

-- What Unicode makes of a code point beyond ASCII.
pub record CaseTable : Type 0 where
  pub lower : ℕ → Text
  pub upper : ℕ → Text

-- `to_lowercase` and `to_uppercase`. (Rust's rule for a final sigma picks between two letters
-- beyond ASCII, which no comparison of the program tells apart.)
unfoldable pub to_lowercase : CaseTable → Text → Text
unfolding ascii_lower
to_lowercase u [] = []
to_lowercase u (c ∷ s) = (if ltb c 128 then ascii_lower c ∷ [] else u.lower c) ++ to_lowercase u s

unfoldable pub to_uppercase : CaseTable → Text → Text
unfolding ascii_upper
to_uppercase u [] = []
to_uppercase u (c ∷ s) = (if ltb c 128 then ascii_upper c ∷ [] else u.upper c) ++ to_uppercase u s

unfoldable pub eq_ignore_ascii_case : Text → Text → Bool
unfolding ascii_lower
eq_ignore_ascii_case [] [] = true
eq_ignore_ascii_case (c ∷ s) (d ∷ t) = ascii_lower c == ascii_lower d && eq_ignore_ascii_case s t
eq_ignore_ascii_case _ _ = false

unfoldable pub starts_with : Text → Text → Bool
starts_with s [] = true
starts_with [] (d ∷ t) = false
starts_with (c ∷ s) (d ∷ t) = c == d && starts_with s t

unfoldable pub ends_with : Text → Text → Bool
ends_with [] t = bytes_eq [] t
ends_with (c ∷ s) t = bytes_eq (c ∷ s) t || ends_with s t

-- `split_once` at a character.
unfoldable pub split_once : ℕ → Text → Option (Text × Text)
split_once sep [] = none
split_once sep (c ∷ s) =
    let rest = split_once sep s in
    if c == sep then some ([], s) else elim rest [ none ↦ none | some (a, b) ↦ some (c ∷ a, b) ]

abbrev pub cons_head : ℕ → List Text → List Text
cons_head c [] = (c ∷ []) ∷ []
cons_head c (part ∷ parts) = (c ∷ part) ∷ parts

-- `split` at a character: at least one part.
unfoldable pub split : ℕ → Text → List Text
split sep [] = [] ∷ []
split sep (c ∷ s) = let rest = split sep s in if c == sep then [] ∷ rest else cons_head c rest

unfoldable pub join : Text → List Text → Text
join sep [] = []
join sep (part ∷ []) = part
join sep (part ∷ parts) = part ++ (sep ++ join sep parts)

-- The text behind a prefix.
unfoldable pub strip_prefix : Text → Text → Option Text
strip_prefix s [] = some s
strip_prefix [] (d ∷ t) = none
strip_prefix (c ∷ s) (d ∷ t) = if c == d then strip_prefix s t else none

abbrev pub but_last : Text → Text
but_last [] = []
but_last (c ∷ []) = []
but_last (c ∷ d ∷ s) = c ∷ but_last (d ∷ s)

-- `&s[1..s.len() - 1]`, where the first and last characters are one byte long.
abbrev pub inner : Text → Text
inner [] = []
inner (c ∷ s) = but_last s

-- `trim_end_matches` with a text: every copy of `t` at the end is cut.
unfoldable pub trim_end_matches : Text → Text → Text
trim_end_matches t [] = []
trim_end_matches t (c ∷ s) =
    let rest = trim_end_matches t s in if bytes_eq (c ∷ rest) t then [] else c ∷ rest

-- `replace` of a text that is not empty, behind `skip` characters of a copy that is replaced.
unfoldable pub replace_behind : Text → Text → ℕ → Text → Text
replace_behind pat rep skip [] = []
replace_behind pat rep (suc skip) (c ∷ s) = replace_behind pat rep skip s
replace_behind pat rep zero (c ∷ s) =
    let kept = replace_behind pat rep 0 s in
    let replaced = replace_behind pat rep (length pat - 1) s in
    if starts_with (c ∷ s) pat then rep ++ replaced else c ∷ kept

unfoldable pub replace : Text → Text → Text → Text
unfolding replace_behind
replace pat rep s = replace_behind pat rep 0 s

-- The UTF-8 of a code point.
unfoldable pub utf8_char : ℕ → List ℕ
utf8_char c =
    let low : ℕ = 0x80 + c % 2 ^ 6 in
    let middle : ℕ = 0x80 + c / 2 ^ 6 % 2 ^ 6 in
    let high : ℕ = 0x80 + c / 2 ^ 12 % 2 ^ 6 in
    if ltb c 0x80
    then c ∷ []
    else if ltb c 0x800
    then (0xC0 + c / 2 ^ 6) ∷ low ∷ []
    else if ltb c 0x10000
    then (0xE0 + c / 2 ^ 12) ∷ middle ∷ low ∷ []
    else (0xF0 + c / 2 ^ 18) ∷ high ∷ middle ∷ low ∷ []

-- `into_bytes`
unfoldable pub utf8 : Text → List ℕ
unfolding utf8_char
utf8 [] = []
utf8 (c ∷ s) = utf8_char c ++ utf8 s

-- ===== src/WgConfig/Comments.antt =====
-- Lines that `parse` passes over (src/wg_config.rs): comments, and what stands in other sections.
use phobos_wg_client.Base.{
  true, false, List, [], ◌∷◌, ◌++◌, Option, none, some, ◌≡◌, refl, ap, ◌∙◌, Bool-cases, inl, inr,
  All, codes,
}
use phobos_wg_client.Base.Result.{Result, ok, err, ◌>>=◌, bind_cong}
use phobos_wg_client.Text.{Text, CaseTable, trim, split_once, eq_ignore_ascii_case}
use phobos_wg_client.Text.Lines.{is_header, section_name}
use phobos_wg_client.WgConfig.{
  Decode, ParseError, Parser, key_line, is_comment, enter_section, parse_line, parse_lines,
}

parse_line-comment :
    (u : CaseTable) (decode : Decode) (s : Parser) (line : Text)
    → is_comment (trim line) ≡ true
    → parse_line u decode s line ≡ ok s
unfolding parse_line
parse_line-comment u decode s line h = rw h refl

-- A comment or a blank line may be added anywhere: the outcome, an error included, stays the same.
pub parse_lines-comment :
    (u : CaseTable) (decode : Decode) (front : List Text) (line : Text) (back : List Text)
    (s : Parser)
    → is_comment (trim line) ≡ true
    → parse_lines u decode s (front ++ line ∷ back) ≡ parse_lines u decode s (front ++ back)
unfolding parse_lines
parse_lines-comment u decode [] line back s h =
    ap (λ r. r >>= λ s. parse_lines u decode s back) (parse_line-comment u decode s line h)
parse_lines-comment u decode (l ∷ front) line back s h =
    bind_cong (parse_line u decode s l) (λ s. parse_lines u decode s (front ++ line ∷ back))
      (λ s. parse_lines u decode s (front ++ back))
      (λ t. parse_lines-comment u decode front line back t h)

-- The parser is in a section that it does not read.
abbrev pub IsOutside : Parser → Type 0
IsOutside s = (s.in_interface ≡ false) × (s.in_peer ≡ false)

key_line-outside :
    (u : CaseTable) (decode : Decode) (s : Parser) (k v : Text)
    → IsOutside s
    → key_line u decode s k v ≡ ok s
unfolding key_line
key_line-outside u decode s k v h = simp h.0 (simp h.1 refl)

parse_line-outside :
    (u : CaseTable) (decode : Decode) (s : Parser) (line : Text)
    → IsOutside s
    → is_header (trim line) ≡ false
    → parse_line u decode s line ≡ ok s
unfolding parse_line
parse_line-outside u decode s line h e = elim (Bool-cases (is_comment (trim line))) [
  | inl c ↦ rw c refl
  | inr c ↦ rw (c, e) (keys (split_once b'=' (trim line)))
]
  where
    keys :
        (o : Option (Text × Text))
        → elim o [ none ↦ ok s | some (k, v) ↦ key_line u decode s k v ] ≡ ok s
    keys none = refl
    keys (some (k, v)) = key_line-outside u decode s k v h

parse_lines-outside :
    (u : CaseTable) (decode : Decode) (body : List Text) (s : Parser)
    → IsOutside s
    → All (λ line. is_header (trim line) ≡ false) body
    → parse_lines u decode s body ≡ ok s
unfolding parse_lines
parse_lines-outside u decode [] s h all = refl
parse_lines-outside u decode (line ∷ body) s h all =
    ap (λ r. r >>= λ s. parse_lines u decode s body) (parse_line-outside u decode s line h all.0)
    ∙ parse_lines-outside u decode body s h all.1

parse_lines-append :
    (u : CaseTable) (decode : Decode) (front back : List Text) (s t : Parser)
    → parse_lines u decode s front ≡ ok t
    → parse_lines u decode s (front ++ back) ≡ parse_lines u decode t back
unfolding parse_lines
parse_lines-append u decode [] back s t e = ap (λ r. r >>= λ s. parse_lines u decode s back) e
parse_lines-append u decode (l ∷ front) back s t e =
    go (parse_line u decode s l) (λ m. parse_lines-append u decode front back m t) e
  where
    go :
        (r : Result ParseError Parser)
        → ((m : Parser)
            → parse_lines u decode m front ≡ ok t
            → parse_lines u decode m (front ++ back) ≡ parse_lines u decode t back)
        → (r >>= λ s. parse_lines u decode s front) ≡ ok t
        → (r >>= λ s. parse_lines u decode s (front ++ back)) ≡ parse_lines u decode t back
    go (ok m) k e = k m e
    go (err x) k e = cc

header-enters :
    (u : CaseTable) (decode : Decode) (s : Parser) (header : Text)
    → is_comment (trim header) ≡ false
    → is_header (trim header) ≡ true
    → parse_line u decode s header ≡ ok (enter_section s (section_name (trim header)))
unfolding parse_line
header-enters u decode s header c h = rw (c, h) refl

foreign-leaves :
    (s : Parser) (sec : Text)
    → eq_ignore_ascii_case sec (codes "interface") ≡ false
    → eq_ignore_ascii_case sec (codes "peer") ≡ false
    → enter_section s sec ≡ record s { in_interface = false; in_peer = false }
unfolding enter_section
foreign-leaves s sec i p = rw (i, p) refl

-- The section of a header is neither `[Interface]` nor `[Peer]`.
abbrev pub IsForeign : Text → Type 0
IsForeign header =
    (is_comment (trim header) ≡ false)
    × (is_header (trim header) ≡ true)
    × (eq_ignore_ascii_case (section_name (trim header)) (codes "interface") ≡ false)
    × (eq_ignore_ascii_case (section_name (trim header)) (codes "peer") ≡ false)

-- A section that is neither `[Interface]` nor `[Peer]`, whatever its lines up to the next header
-- say, changes no parameter: it takes the parser from any state to the state with both section
-- flags cleared, from which the lines behind it are parsed.
pub parse_lines-foreign :
    (u : CaseTable) (decode : Decode) (header : Text) (body back : List Text) (s : Parser)
    → IsForeign header
    → All (λ line. is_header (trim line) ≡ false) body
    → parse_lines u decode s (header ∷ body ++ back)
      ≡ parse_lines u decode (record s { in_interface = false; in_peer = false }) back
unfolding parse_lines
parse_lines-foreign u decode header body back s (c, h, i, p) all =
    ap (λ r. r >>= λ s. parse_lines u decode s (body ++ back)) (header-enters u decode s header c h)
    ∙ (ap (λ t. parse_lines u decode t (body ++ back))
          (foreign-leaves s (section_name (trim header)) i p)
        ∙ parse_lines-append u decode body back outside outside
            (parse_lines-outside u decode body outside (refl, refl) all))
  where
    outside : Parser
    outside = record s { in_interface = false; in_peer = false }

-- ===== src/Text/Lines.antt =====
-- `str::lines`, and section headers.
use phobos_wg_client.Base.{
  Bool, false, ◌&&◌, List, [], ◌∷◌, ◌++◌, if◌then◌else◌, ◌==◌, codes, All, ◌≡◌, refl, sym, ap, ap₂,
  ◌∙◌, append-nil, append_assoc,
}
use phobos_wg_client.Text.{Text, is_nil, join, starts_with, ends_with, trim, inner}

-- The `\r` before a `\n`.
unfoldable pub strip_cr : Text → Text
strip_cr [] = []
strip_cr (c ∷ []) = if c == 0x0D then [] else c ∷ []
strip_cr (c ∷ d ∷ s) = c ∷ strip_cr (d ∷ s)

-- The lines of `acc ++ s`; `acc` has no `\n`. A last line without `\n` keeps its `\r`, and an empty
-- last line is none.
unfoldable pub lines_from : Text → Text → List Text
unfolding strip_cr
lines_from acc [] = if is_nil acc then [] else acc ∷ []
lines_from acc (c ∷ s) =
    let rest = lines_from (if c == 0x0A then [] else acc ++ c ∷ []) s in
    if c == 0x0A then strip_cr acc ∷ rest else rest

unfoldable pub lines : Text → List Text
unfolding lines_from
lines s = lines_from [] s

-- `trimmed.starts_with('[') && trimmed.ends_with(']')`
unfoldable pub is_header : Text → Bool
is_header trimmed = starts_with trimmed (codes "[") && ends_with trimmed (codes "]")

-- `trimmed[1..trimmed.len() - 1].trim()`
unfoldable pub section_name : Text → Text
section_name trimmed = trim (inner trimmed)

-- A line without `\n`, and without `\r` at its end.
abbrev pub IsLine : Text → Type 0
IsLine l = All (λ c. (c == 0x0A) ≡ false) l × (strip_cr l ≡ l)

-- The last of some lines is not empty.
abbrev pub EndsNonempty : List Text → Type 0
EndsNonempty [] = Unit
EndsNonempty (l ∷ []) = is_nil l ≡ false
EndsNonempty (l ∷ m ∷ ls) = EndsNonempty (m ∷ ls)

lines_from-break :
    (l acc s : Text)
    → All (λ c. (c == 0x0A) ≡ false) l
    → lines_from acc (l ++ 0x0A ∷ s) ≡ strip_cr (acc ++ l) ∷ lines_from [] s
unfolding lines_from
lines_from-break [] acc s h = ap (λ a. strip_cr a ∷ lines_from [] s) (sym (append-nil acc))
lines_from-break (c ∷ l) acc s h = rw h.0 (
    lines_from-break l (acc ++ c ∷ []) s h.1
    ∙ ap (λ a. strip_cr a ∷ lines_from [] s) (append_assoc acc (c ∷ []) l))

lines_from-last :
    (l acc : Text)
    → All (λ c. (c == 0x0A) ≡ false) l
    → lines_from acc l ≡ (if is_nil (acc ++ l) then [] else (acc ++ l) ∷ [])
unfolding lines_from
lines_from-last [] acc h = ap (λ a. if is_nil a then [] else a ∷ []) (sym (append-nil acc))
lines_from-last (c ∷ l) acc h = rw h.0 (
    lines_from-last l (acc ++ c ∷ []) h.1
    ∙ ap (λ a. if is_nil a then [] else a ∷ []) (append_assoc acc (c ∷ []) l))

-- Joined lines are read back, if the last one is not empty.
pub lines-join :
    (ls : List Text) → All IsLine ls → EndsNonempty ls → lines (join (codes "\n") ls) ≡ ls
unfolding lines join
lines-join [] h e = refl
lines-join (l ∷ []) h e = lines_from-last l [] h.0.0 ∙ rw e refl
lines-join (l ∷ m ∷ ls) h e =
    lines_from-break l [] (join (codes "\n") (m ∷ ls)) h.0.0
    ∙ ap₂ (λ a b. a ∷ b) h.0.1 (lines-join (m ∷ ls) h.1 e)

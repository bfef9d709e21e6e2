-- ===== src/Conf/Splitting.antt =====
-- The split of a merged configuration (src/archive.rs): no line is lost, and a configuration that is
-- merged from its two parts is split into them.
use phobos_wg_client.Base.{
  Bool, true, false, List, [], ◌∷◌, ◌++◌, ◌≡◌, refl, ap, ◌∙◌, inl, inr, Bool-cases, All, codes,
}
use phobos_wg_client.Text.{Text, join}
use phobos_wg_client.Text.Lines.{IsLine, EndsNonempty, lines-join}
use phobos_wg_client.Conf.{section_flag, push_wg, push_obf, split_lines, split_merged_conf}

-- `zs` has the elements of `xs` and `ys`, each in its own order.
pub data Interleaves : List Text → List Text → List Text → Type 0 where
  none_left : Interleaves [] [] []
  from_left :
      (x : Text) {xs ys zs : List Text} → Interleaves xs ys zs → Interleaves (x ∷ xs) ys (x ∷ zs)
  from_right :
      (y : Text) {xs ys zs : List Text} → Interleaves xs ys zs → Interleaves xs (y ∷ ys) (y ∷ zs)

-- Every line goes to exactly one of the two parts, and each part keeps the order of its lines.
pub split_lines-Interleaves :
    (ls : List Text) (flag : Bool)
    → Interleaves (split_lines flag ls).wg_lines (split_lines flag ls).obf_lines ls
unfolding split_lines
split_lines-Interleaves [] flag = none_left
split_lines-Interleaves (l ∷ ls) flag = elim (Bool-cases (section_flag flag l)) [
  | inl e ↦ rw e (from_right l (split_lines-Interleaves ls true))
  | inr e ↦ rw e (from_left l (split_lines-Interleaves ls false))
]

-- No line starts a section of the obfuscator, and every header does.
abbrev pub IsWgLine : Text → Type 0
IsWgLine l = section_flag false l ≡ false

abbrev pub IsObfLine : Text → Type 0
IsObfLine l = section_flag true l ≡ true

split_lines-obf :
    (ls : List Text)
    → All IsObfLine ls
    → split_lines true ls ≡ record { wg_lines = []; obf_lines = ls }
unfolding split_lines
split_lines-obf [] h = refl
split_lines-obf (l ∷ ls) h = rw h.0 (ap (push_obf l) (split_lines-obf ls h.1))

split_lines-merged :
    (wg : List Text) (header : Text) (obf : List Text)
    → All IsWgLine wg
    → section_flag false header ≡ true
    → All IsObfLine obf
    → split_lines false (wg ++ header ∷ obf) ≡ record { wg_lines = wg; obf_lines = header ∷ obf }
unfolding split_lines
split_lines-merged [] header obf h s k = rw s (ap (push_obf header) (split_lines-obf obf k))
split_lines-merged (l ∷ wg) header obf h s k =
    rw h.0 (ap (push_wg l) (split_lines-merged wg header obf h.1 s k))

-- The lines of a WireGuard configuration, none of which starts an obfuscator section, followed by
-- a header that does and by lines that start no other section, are split into just these two
-- parts; no line may hold a line break, and the last one may not be empty.
pub split_merged_conf-join :
    (wg : List Text) (header : Text) (obf : List Text)
    → All IsWgLine wg
    → section_flag false header ≡ true
    → All IsObfLine obf
    → All IsLine (wg ++ header ∷ obf)
    → EndsNonempty (wg ++ header ∷ obf)
    → split_merged_conf (join (codes "\n") (wg ++ header ∷ obf))
      ≡ (join (codes "\n") wg, join (codes "\n") (header ∷ obf))
unfolding split_merged_conf
split_merged_conf-join wg header obf h s k ls e =
    ap (λ p. (join (codes "\n") p.wg_lines, join (codes "\n") p.obf_lines))
      (ap (split_lines false) (lines-join (wg ++ header ∷ obf) ls e)
        ∙ split_lines-merged wg header obf h s k)

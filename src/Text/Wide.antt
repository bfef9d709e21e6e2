-- ===== src/Text/Wide.antt =====
-- Texts as the Windows API takes and gives them (`to_wide` and the dialog of src/gui.rs, and the like of
-- src/windows_net.rs).
use phobos_wg_client.Base.{
  ℕ, ◌+◌, ◌-◌, ◌/◌, ◌%◌, ◌^◌, ◌<◌, ◌≤◌, List, [], ◌∷◌, ◌++◌, ◌≡◌, refl, ap, arith, if◌then◌else◌,
  ltb, ◌==◌, All, All-append, append_assoc, ◌∙◌,
}
use phobos_wg_client.Base.Result.{if_preserves}
use phobos_wg_client.Text.{Text}

-- `encode_utf16` of one character.
unfoldable pub utf16_char : ℕ → List ℕ
utf16_char c =
    if ltb c 0x10000
    then c ∷ []
    else (0xD800 + (c - 0x10000) / 2 ^ 10) ∷ (0xDC00 + (c - 0x10000) % 2 ^ 10) ∷ []

unfoldable pub utf16 : Text → List ℕ
utf16 [] = []
utf16 (c ∷ s) = utf16_char c ++ utf16 s

unfoldable pub to_wide : Text → List ℕ
to_wide s = utf16 s ++ 0 ∷ []

-- The units of a buffer in front of its first zero, or all of them.
unfoldable pub until_nul : List ℕ → List ℕ
until_nul [] = []
until_nul (c ∷ s) = let rest = until_nul s in if c == 0 then [] else c ∷ rest

-- A character that is not NUL.
abbrev pub IsPlainChar : ℕ → Type 0
IsPlainChar c = (1 ≤ c) × (c < 0x110000)

-- A unit of 16 bits that is not the end.
abbrev pub IsUnit : ℕ → Type 0
IsUnit c = (1 ≤ c) × (c < 2 ^ 16)

utf16_char-IsUnit : (c : ℕ) → IsPlainChar c → All IsUnit (utf16_char c)
unfolding utf16_char
utf16_char-IsUnit c h =
    if_preserves (All IsUnit) (ltb c 0x10000) (c ∷ [])
      ((0xD800 + (c - 0x10000) / 2 ^ 10) ∷ (0xDC00 + (c - 0x10000) % 2 ^ 10) ∷ [])
      (λ e. ground arith) (λ e. (omega (arith, h.0), omega (arith, h.1)))

utf16-IsUnit : (s : Text) → All IsPlainChar s → All IsUnit (utf16 s)
unfolding utf16
utf16-IsUnit [] h = tt
utf16-IsUnit (c ∷ s) h =
    All-append IsUnit (utf16_char c) (utf16 s) (utf16_char-IsUnit c h.0) (utf16-IsUnit s h.1)

until_nul-append : (s rest : List ℕ) → All IsUnit s → until_nul (s ++ 0 ∷ rest) ≡ s
unfolding until_nul
until_nul-append [] rest h = refl
until_nul-append (c ∷ s) rest h = ground (arith, until_nul-append s rest h.1)

-- The wide form of a text without NUL, whatever lies in the buffer behind it, is read up to its end
-- and as its UTF-16 units, each of 16 bits.
pub until_nul-to_wide :
    (s : Text) (rest : List ℕ)
    → All IsPlainChar s
    → (until_nul (to_wide s ++ rest) ≡ utf16 s) × All IsUnit (utf16 s)
unfolding to_wide
until_nul-to_wide s rest h = (
  ap until_nul (append_assoc (utf16 s) (0 ∷ []) rest)
      ∙ until_nul-append (utf16 s) rest (utf16-IsUnit s h),
  utf16-IsUnit s h,
)

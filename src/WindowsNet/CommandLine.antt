-- ===== src/WindowsNet/CommandLine.antt =====
-- The command line that is built for an elevated process (src/windows_net.rs), read by the rule of
-- `CommandLineToArgvW`.
use phobos_wg_client.Base.{
  ℕ, ◌+◌, zero, suc, true, false, List, [], ◌∷◌, ◌++◌, ◌≡◌, refl, sym, ap, ◌∙◌, arith, inl, inr,
  if◌then◌else◌, Bool-cases, codes, length, append-nil,
}
use phobos_wg_client.Text.{Text, join}
use phobos_wg_client.WindowsNet.{
  is_special, has_special, escape_from, escape_windows_arg, params_str,
}
use phobos_wg_client.WindowsNet.Arguments.{
  is_blank, read_arg, IsTail, read_closing, read-escape_from, read_plain,
}

read_open : (s : Text) → read_arg false 0 [] (0x22 ∷ s) ≡ read_arg true 0 [] s
unfolding read_arg
read_open s = refl

-- A quoted argument, followed by a blank or by nothing, is read back as it is, and what follows it
-- is left.
pub read_arg-escape :
    (arg tail : Text)
    → IsTail tail
    → read_arg false 0 [] (escape_windows_arg arg ++ tail) ≡ (arg, tail)
unfolding escape_windows_arg
read_arg-escape [] tail h = read_open (0x22 ∷ tail) ∙ read_closing 0 [] tail h
read_arg-escape (c ∷ s) tail h = elim (Bool-cases (has_special (c ∷ s))) [
  | inl e ↦ rw e (read_open (escape_from 0 (c ∷ s) ++ tail) ∙ read-escape_from (c ∷ s) 0 [] tail h)
  | inr e ↦ rw e (read_plain (c ∷ s) 0 [] tail e h)
]

unfoldable pub skip_blanks : Text → Text
skip_blanks [] = []
skip_blanks (c ∷ s) = if is_blank c then skip_blanks s else c ∷ s

abbrev pub argv_step : (Text → List Text) → Text → List Text
argv_step more [] = []
argv_step more (c ∷ s) = let r = read_arg false 0 [] (c ∷ s) in r.0 ∷ more r.1

-- The arguments of a command line behind the program's name, at most `n` of them.
unfoldable pub argv : ℕ → Text → List Text
argv zero s = []
argv (suc n) s = argv_step (argv n) (skip_blanks s)

argv-blank : (n : ℕ) (s : Text) → argv n (0x20 ∷ s) ≡ argv n s
unfolding argv skip_blanks
argv-blank zero s = refl
argv-blank (suc n) s = refl

plain_start : (c : ℕ) (s : Text) → has_special (c ∷ s) ≡ false → is_blank c ≡ false
unfolding has_special is_special
plain_start c s h = ground arith

-- A quoted argument does not start with a blank.
escape-starts :
    (arg : Text) → (c : ℕ) × (r : Text) × (escape_windows_arg arg ≡ c ∷ r) × (is_blank c ≡ false)
unfolding escape_windows_arg
escape-starts [] = (0x22, 0x22 ∷ [], refl, refl)
escape-starts (c ∷ s) = elim (Bool-cases (has_special (c ∷ s))) [
  | inl e ↦ rw e (0x22, escape_from 0 (c ∷ s), refl, refl)
  | inr e ↦ rw e (c, s, refl, plain_start c s e)
]

argv_one :
    (n : ℕ) (arg tail : Text)
    → IsTail tail
    → argv (suc n) (escape_windows_arg arg ++ tail) ≡ arg ∷ argv n tail
unfolding argv skip_blanks
argv_one n arg tail h =
    let (c, r, e, b) = escape-starts arg in
    ap (λ x. argv_step (argv n) (skip_blanks (x ++ tail))) e
    ∙ (rw b refl
        ∙ (ap
              (λ x.
                (read_arg false 0 [] (x ++ tail)).0 ∷ argv n (read_arg false 0 [] (x ++ tail)).1)
              (sym e)
            ∙ ap (λ p. p.0 ∷ argv n p.1) (read_arg-escape arg tail h)))

argv_none : (n : ℕ) → argv n [] ≡ []
unfolding argv skip_blanks
argv_none zero = refl
argv_none (suc n) = refl

-- The command line of the elevated process is read as exactly the arguments of this process, however
-- many more the reader would take.
pub argv-params_str :
    (args : List Text) (more : ℕ) → argv (length args + more) (params_str args) ≡ args
unfolding params_str join
argv-params_str [] more = argv_none (0 + more)
argv-params_str (a ∷ []) more =
    ap (λ n. argv n (params_str (a ∷ []))) (plus more)
    ∙ (ap (argv (suc more)) (sym (append-nil (escape_windows_arg a)))
        ∙ (argv_one more a [] tt ∙ ap (λ r. a ∷ r) (argv_none more)))
  where
    plus : (n : ℕ) → 1 + n ≡ suc n
    plus n = ground arith
argv-params_str (a ∷ b ∷ args) more =
    let rest = b ∷ args in
    ap (λ n. argv n (params_str (a ∷ rest))) (plus (length rest) more)
    ∙ (argv_one (length rest + more) a (codes " " ++ params_str rest) refl
        ∙ ap (λ r. a ∷ r)
            (argv-blank (length rest + more) (params_str rest) ∙ argv-params_str (b ∷ args) more))
  where
    plus : (n m : ℕ) → suc n + m ≡ suc (n + m)
    plus n m = ground arith

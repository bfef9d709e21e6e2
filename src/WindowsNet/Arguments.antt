-- ===== src/WindowsNet/Arguments.antt =====
-- Arguments that are quoted are read back by the rule of `CommandLineToArgvW` (src/windows_net.rs):
-- of `n` backslashes before a quote half are kept, and an odd one makes the quote a character.
use phobos_wg_client.Base.{
  ℕ, zero, suc, ◌+◌, ◌*◌, ◌/◌, ◌%◌, Bool, true, false, not, ◌&&◌, ◌||◌, [], ◌∷◌, ◌++◌, ◌≡◌, refl,
  sym, ap, ◌∙◌, arith, inl, inr, if◌then◌else◌, ◌==◌, ==_iff, Bool-cases, replicate, append-nil,
  append_assoc,
}
use phobos_wg_client.Text.{Text}
use phobos_wg_client.WindowsNet.{is_special, has_special, escape_from}

abbrev pub is_blank : ℕ → Bool
is_blank c = c == 0x20 || c == 0x09

abbrev slashes : ℕ → Text
slashes n = replicate n 0x5C

-- One argument, of which `acc` is read, behind `n` backslashes, within quotes or not; with the rest.
unfoldable pub read_arg : Bool → ℕ → Text → Text → Text × Text
read_arg quoted n acc [] = (acc ++ slashes n, [])
read_arg quoted n acc (c ∷ s) =
    let slash = read_arg quoted (n + 1) acc s in
    let toggle = read_arg (not quoted) 0 (acc ++ slashes (n / 2)) s in
    let quote = read_arg quoted 0 (acc ++ (slashes (n / 2) ++ 0x22 ∷ [])) s in
    let other = read_arg quoted 0 (acc ++ (slashes n ++ c ∷ [])) s in
    if c == 0x5C
    then slash
    else if c == 0x22
    then (if n % 2 == 0 then toggle else quote)
    else if not quoted && is_blank c
    then (acc ++ slashes n, c ∷ s)
    else other

-- What may follow an argument.
abbrev pub IsTail : Text → Type 0
IsTail [] = Unit
IsTail (c ∷ s) = is_blank c ≡ true

read_slashes :
    (k n : ℕ) (quoted : Bool) (acc s : Text)
    → read_arg quoted n acc (slashes k ++ s) ≡ read_arg quoted (n + k) acc s
unfolding read_arg
read_slashes zero n quoted acc s = ap (λ m. read_arg quoted m acc s) (ground arith)
read_slashes (suc k) n quoted acc s =
    read_slashes k (n + 1) quoted acc s ∙ ap (λ m. read_arg quoted m acc s) (ground arith)

slashes-append : (n : ℕ) (s : Text) → slashes (n + 1) ++ s ≡ slashes n ++ 0x5C ∷ s
slashes-append n s = rw (n_plus n) (go n)
  where
    n_plus : (n : ℕ) → n + 1 ≡ suc n
    n_plus n = ground arith

    go : (n : ℕ) → slashes (suc n) ++ s ≡ slashes n ++ 0x5C ∷ s
    go zero = refl
    go (suc n) = ap (λ r. 0x5C ∷ r) (go n)

even-rem : (n : ℕ) → ((n * 2 % 2) == 0) ≡ true
even-rem n = (==_iff (n * 2 % 2) 0).1 (ground arith)

odd-rem : (n : ℕ) → (((n * 2 + 1) % 2) == 0) ≡ false
odd-rem n = ground arith

even-half : (n : ℕ) → n * 2 / 2 ≡ n
even-half n = ground arith

odd-half : (n : ℕ) → (n * 2 + 1) / 2 ≡ n
odd-half n = ground arith

-- Behind an argument, outside quotes and behind no backslash.
read_end : (acc tail : Text) → IsTail tail → read_arg false 0 acc tail ≡ (acc, tail)
unfolding read_arg
read_end acc [] h = ap (λ a. (a, [])) (append-nil acc)
read_end acc (c ∷ s) h =
    let no_slash : (c == 0x5C) ≡ false = ground arith in
    let no_quote : (c == 0x22) ≡ false = ground arith in
    rw (no_slash, no_quote, h) (ap (λ a. (a, c ∷ s)) (append-nil acc))

pub read_closing :
    (n : ℕ) (acc tail : Text)
    → IsTail tail
    → read_arg true (n * 2) acc (0x22 ∷ tail) ≡ (acc ++ slashes n, tail)
unfolding read_arg
read_closing n acc tail h = rw (even-rem n, even-half n) (read_end (acc ++ slashes n) tail h)

read_quote :
    (n : ℕ) (acc s : Text)
    → read_arg true (n * 2 + 1) acc (0x22 ∷ s) ≡ read_arg true 0 (acc ++ (slashes n ++ 0x22 ∷ [])) s
unfolding read_arg
read_quote n acc s = rw (odd-rem n, odd-half n) refl

read_other :
    (n c : ℕ) (acc s : Text)
    → (c == 0x5C) ≡ false
    → (c == 0x22) ≡ false
    → read_arg true n acc (c ∷ s) ≡ read_arg true 0 (acc ++ (slashes n ++ c ∷ [])) s
unfolding read_arg
read_other n c acc s h k = rw (h, k) refl

-- The same list, bracketed to the right.
regroup : (a b : Text) (c : ℕ) (s : Text) → (a ++ (b ++ c ∷ [])) ++ s ≡ a ++ (b ++ c ∷ s)
regroup a b c s = append_assoc a (b ++ c ∷ []) s ∙ ap (λ r. a ++ r) (append_assoc b (c ∷ []) s)

-- What the loop pushes, behind an opening quote, is read back with the backslashes before it.
pub read-escape_from :
    (s : Text) (n : ℕ) (acc tail : Text)
    → IsTail tail
    → read_arg true 0 acc (escape_from n s ++ tail) ≡ (acc ++ (slashes n ++ s), tail)
unfolding escape_from
read-escape_from [] n acc tail h =
    ap (read_arg true 0 acc) (append_assoc (slashes (n * 2)) (0x22 ∷ []) tail)
    ∙ (read_slashes (n * 2) 0 true acc (0x22 ∷ tail)
        ∙ (ap (λ m. read_arg true m acc (0x22 ∷ tail)) (ground arith)
            ∙ (read_closing n acc tail h
                ∙ ap (λ r. (acc ++ r, tail)) (sym (append-nil (slashes n))))))
read-escape_from (c ∷ s) n acc tail h = elim (Bool-cases (c == 0x5C)) [
  | inl e ↦ rw e (
      read-escape_from s (n + 1) acc tail h
      ∙ ap (λ r. (acc ++ r, tail))
          (slashes-append n s ∙ ap (λ x. slashes n ++ x ∷ s) (sym ((==_iff c 0x5C).0 e))))
  | inr e ↦ rw e elim (Bool-cases (c == 0x22)) [
    | inl q ↦ rw q (
        ap (read_arg true 0 acc) (append_assoc (slashes (n * 2 + 1)) (0x22 ∷ escape_from 0 s) tail)
        ∙ (read_slashes (n * 2 + 1) 0 true acc (0x22 ∷ escape_from 0 s ++ tail)
            ∙ (ap (λ m. read_arg true m acc (0x22 ∷ escape_from 0 s ++ tail)) (ground arith)
                ∙ (read_quote n acc (escape_from 0 s ++ tail)
                    ∙ (read-escape_from s 0 (acc ++ (slashes n ++ 0x22 ∷ [])) tail h
                        ∙ ap (λ r. (r, tail))
                            (regroup acc (slashes n) 0x22 s
                              ∙ ap (λ x. acc ++ (slashes n ++ x ∷ s))
                                  (sym ((==_iff c 0x22).0 q))))))))
    | inr q ↦ rw q (
        ap (read_arg true 0 acc) (append_assoc (slashes n) (c ∷ escape_from 0 s) tail)
        ∙ (read_slashes n 0 true acc (c ∷ escape_from 0 s ++ tail)
            ∙ (ap (λ m. read_arg true m acc (c ∷ escape_from 0 s ++ tail)) (ground arith)
                ∙ (read_other n c acc (escape_from 0 s ++ tail) e q
                    ∙ (read-escape_from s 0 (acc ++ (slashes n ++ c ∷ [])) tail h
                        ∙ ap (λ r. (r, tail)) (regroup acc (slashes n) c s))))))
  ]
]

plain_char :
    (c : ℕ) (s : Text)
    → has_special (c ∷ s) ≡ false
    → ((c == 0x22) ≡ false) × (is_blank c ≡ false) × (has_special s ≡ false)
unfolding has_special is_special
plain_char c s h = ground arith

pub read_plain :
    (s : Text) (n : ℕ) (acc tail : Text)
    → has_special s ≡ false
    → IsTail tail
    → read_arg false n acc (s ++ tail) ≡ (acc ++ (slashes n ++ s), tail)
unfolding read_arg
read_plain [] n acc [] h k = ap (λ r. (acc ++ r, [])) (sym (append-nil (slashes n)))
read_plain [] n acc (c ∷ tail) h k =
    let no_slash : (c == 0x5C) ≡ false = ground arith in
    let no_quote : (c == 0x22) ≡ false = ground arith in
    rw (no_slash, no_quote, k) (ap (λ r. (acc ++ r, c ∷ tail)) (sym (append-nil (slashes n))))
read_plain (c ∷ s) n acc tail h k =
    let (q, b, rest) = plain_char c s h in
    elim (Bool-cases (c == 0x5C)) [
      | inl e ↦ rw e (
          read_plain s (n + 1) acc tail rest k
          ∙ ap (λ r. (acc ++ r, tail))
              (slashes-append n s ∙ ap (λ x. slashes n ++ x ∷ s) (sym ((==_iff c 0x5C).0 e))))
      | inr e ↦
          rw (e, q, b)
            (read_plain s 0 (acc ++ (slashes n ++ c ∷ [])) tail rest k
              ∙ ap (λ r. (r, tail)) (regroup acc (slashes n) c s))
    ]

-- ===== src/Text/Replace.antt =====
-- Replacing text behind the first character that counts, and upper and lower case letters.
use phobos_wg_client.Base.{
  ℕ, Bool, true, false, [], ◌∷◌, ◌++◌, some, ◌≡◌, ◌≢◌, refl, sym, ap, subst, ◌∙◌, arith, inl, inr,
  if◌then◌else◌, ltb, ◌==◌, ==_iff, Bool-cases, append_assoc,
}
use phobos_wg_client.Text.{
  Text, CaseTable, starts_with, replace, replace_behind, to_lowercase, ascii_lower,
}
use phobos_wg_client.Text.Trim.{lead}

pub true-false : true ≢ false
true-false e = ground arith

starts_with-other : (c d : ℕ) (s t : Text) → (c == d) ≡ false → starts_with (c ∷ s) (d ∷ t) ≡ false
unfolding starts_with
starts_with-other c d s t h = rw h refl

-- A copy of a text that starts with `d`, which is not trimmed, is replaced behind the first
-- character that is not trimmed, where this is another one.
pub lead-replace :
    (p : ℕ → Bool) (d : ℕ) (pat rep s : Text) (c : ℕ)
    → p d ≡ false
    → (c == d) ≡ false
    → lead p s ≡ some c
    → lead p (replace (d ∷ pat) rep s) ≡ some c
unfolding replace replace_behind
lead-replace p d pat rep [] c h n e = e
lead-replace p d pat rep (x ∷ s) c h n e = elim (Bool-cases (p x)) [
  | inl t ↦
      rw (starts_with-other x d s pat (differ t), t)
        (lead-replace p d pat rep s c h n
          (subst (λ b. (if b then lead p s else some x) ≡ some c) t e))
  | inr t ↦
      let same : some x ≡ some c = subst (λ b. (if b then lead p s else some x) ≡ some c) t e in
      rw (starts_with-other x d s pat (first same), t) same
]
  where
    differ : p x ≡ true → (x == d) ≡ false
    differ t = elim (Bool-cases (x == d)) [
      | inl e ↦ absurd (true-false (sym (subst (λ y. p y ≡ true) ((==_iff x d).0 e) t) ∙ h))
      | inr e ↦ e
    ]

    first : some x ≡ some c → (x == d) ≡ false
    first e = ground arith

pub starts_with-append : (s t : Text) → starts_with (s ++ t) s ≡ true
unfolding starts_with
starts_with-append [] t = refl
starts_with-append (c ∷ s) t = rw ((==_iff c c).1 refl) (starts_with-append s t)

pub to_lowercase-append :
    (u : CaseTable) (s t : Text) → to_lowercase u (s ++ t) ≡ to_lowercase u s ++ to_lowercase u t
unfolding to_lowercase
to_lowercase-append u [] t = refl
to_lowercase-append u (c ∷ s) t =
    ap (λ r. (if ltb c 128 then ascii_lower c ∷ [] else u.lower c) ++ r) (to_lowercase-append u s t)
    ∙ sym (
        append_assoc (if ltb c 128 then ascii_lower c ∷ [] else u.lower c) (to_lowercase u s)
          (to_lowercase u t))

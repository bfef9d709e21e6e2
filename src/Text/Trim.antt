-- ===== src/Text/Trim.antt =====
-- What trimming leaves.
use phobos_wg_client.Base.{
  ℕ, Bool, false, ◌&&◌, [], ◌∷◌, ◌++◌, Option, none, some, ◌≡◌, ◌⊎◌, refl, ap, subst, arith, inl,
  inr, if◌then◌else◌, Bool-cases, All, ◌∙◌,
}
use phobos_wg_client.Text.{Text, is_nil, trim_start_by, trim_end_by, trim_by}

-- The first character, and the last one, is none of `p`.
abbrev pub StartsOutside : (ℕ → Bool) → Text → Type 0
StartsOutside p [] = Unit
StartsOutside p (c ∷ s) = p c ≡ false

abbrev pub EndsOutside : (ℕ → Bool) → Text → Type 0
EndsOutside p [] = Unit
EndsOutside p (c ∷ []) = p c ≡ false
EndsOutside p (c ∷ d ∷ s) = EndsOutside p (d ∷ s)

trim_start_by-StartsOutside : (p : ℕ → Bool) (s : Text) → StartsOutside p (trim_start_by p s)
unfolding trim_start_by
trim_start_by-StartsOutside p [] = tt
trim_start_by-StartsOutside p (c ∷ s) = elim (Bool-cases (p c)) [
  | inl e ↦ rw e (trim_start_by-StartsOutside p s)
  | inr e ↦ rw e e
]

-- A character in front of a trimmed end.
end_cons-EndsOutside :
    (p : ℕ → Bool) (c : ℕ) (rest : Text)
    → EndsOutside p rest
    → EndsOutside p (if is_nil rest && p c then [] else c ∷ rest)
end_cons-EndsOutside p c [] h = elim (Bool-cases (p c)) [ inl e ↦ rw e tt | inr e ↦ rw e e ]
end_cons-EndsOutside p c (d ∷ rest) h = h

trim_end_by-EndsOutside : (p : ℕ → Bool) (s : Text) → EndsOutside p (trim_end_by p s)
unfolding trim_end_by
trim_end_by-EndsOutside p [] = tt
trim_end_by-EndsOutside p (c ∷ s) =
    end_cons-EndsOutside p c (trim_end_by p s) (trim_end_by-EndsOutside p s)

end_cons-kept :
    (p : ℕ → Bool) (c : ℕ) (rest : Text)
    → p c ≡ false
    → (if is_nil rest && p c then [] else c ∷ rest) ≡ c ∷ rest
end_cons-kept p c [] h = rw h refl
end_cons-kept p c (d ∷ rest) h = refl

trim_end_by-StartsOutside :
    (p : ℕ → Bool) (s : Text) → StartsOutside p s → StartsOutside p (trim_end_by p s)
unfolding trim_end_by
trim_end_by-StartsOutside p [] h = tt
trim_end_by-StartsOutside p (c ∷ s) h = rw (end_cons-kept p c (trim_end_by p s) h) h

trim_start_by-kept : (p : ℕ → Bool) (s : Text) → StartsOutside p s → trim_start_by p s ≡ s
unfolding trim_start_by
trim_start_by-kept p [] h = refl
trim_start_by-kept p (c ∷ s) h = rw h refl

trim_end_by-kept : (p : ℕ → Bool) (s : Text) → EndsOutside p s → trim_end_by p s ≡ s
unfolding trim_end_by
trim_end_by-kept p [] h = refl
trim_end_by-kept p (c ∷ []) h = rw h refl
trim_end_by-kept p (c ∷ d ∷ s) h = rw (trim_end_by-kept p (d ∷ s) h) refl

pub trim_by-IsTrimmed :
    (p : ℕ → Bool) (s : Text) → StartsOutside p (trim_by p s) × EndsOutside p (trim_by p s)
unfolding trim_by
trim_by-IsTrimmed p s = (
  trim_end_by-StartsOutside p (trim_start_by p s) (trim_start_by-StartsOutside p s),
  trim_end_by-EndsOutside p (trim_start_by p s),
)

pub trim_by-kept : (p : ℕ → Bool) (s : Text) → StartsOutside p s → EndsOutside p s → trim_by p s ≡ s
unfolding trim_by
trim_by-kept p s h k = ap (trim_end_by p) (trim_start_by-kept p s h) ∙ trim_end_by-kept p s k

module _ {κ} (P : ℕ → Type κ) (p : ℕ → Bool) where
  All-trim_start_by : (s : Text) → All P s → All P (trim_start_by p s)
  unfolding trim_start_by
  All-trim_start_by [] h = tt
  All-trim_start_by (c ∷ s) h = elim (Bool-cases (p c)) [
    | inl e ↦ rw e (All-trim_start_by s h.1)
    | inr e ↦ rw e h
  ]

  end_cons-All :
      (c : ℕ) (rest : Text) → P c → All P rest → All P (if is_nil rest && p c then [] else c ∷ rest)
  end_cons-All c rest h k = elim (Bool-cases (is_nil rest && p c)) [
    | inl e ↦ rw e tt
    | inr e ↦ rw e (h, k)
  ]

  All-trim_end_by : (s : Text) → All P s → All P (trim_end_by p s)
  unfolding trim_end_by
  All-trim_end_by [] h = tt
  All-trim_end_by (c ∷ s) h = end_cons-All c (trim_end_by p s) h.0 (All-trim_end_by s h.1)

  pub All-trim_by : (s : Text) → All P s → All P (trim_by p s)
  unfolding trim_by
  All-trim_by s h = All-trim_end_by (trim_start_by p s) (All-trim_start_by s h)

-- The first character that trimming keeps.
abbrev pub lead : (ℕ → Bool) → Text → Option ℕ
lead p [] = none
lead p (c ∷ s) = if p c then lead p s else some c

-- Trimmed text starts with that character.
pub trim_by-lead :
    (p : ℕ → Bool) (s : Text) (c : ℕ) → lead p s ≡ some c → (r : Text) × (trim_by p s ≡ c ∷ r)
unfolding trim_by trim_start_by trim_end_by
trim_by-lead p [] c h = ground arith
trim_by-lead p (d ∷ s) c h = elim (Bool-cases (p d)) [
  | inl e ↦ rw e (trim_by-lead p s c (subst (λ b. (if b then lead p s else some d) ≡ some c) e h))
  | inr e ↦ rw e (
    trim_end_by p s,
    end_cons-kept p d (trim_end_by p s) e
        ∙ ap (λ x. x ∷ trim_end_by p s)
            (some-injective (subst (λ b. (if b then lead p s else some d) ≡ some c) e h)),
  )
]
  where
    some-injective : {a b : ℕ} → some a ≡ some b → a ≡ b
    some-injective h = ground arith

pub lead-exists :
    (p : ℕ → Bool) (s : Text) → (trim_by p s ≡ []) ⊎ ((c : ℕ) × (lead p s ≡ some c) × (p c ≡ false))
unfolding trim_by trim_start_by trim_end_by
lead-exists p [] = inl refl
lead-exists p (c ∷ s) = elim (Bool-cases (p c)) [
  | inl e ↦ rw e (lead-exists p s)
  | inr e ↦ rw e (inr (c, refl, e))
]

-- Characters in front that are not trimmed stay in front.
pub trim_by-prefix :
    (p : ℕ → Bool) (pre s : Text)
    → All (λ c. p c ≡ false) pre
    → trim_end_by p (pre ++ s) ≡ pre ++ trim_end_by p s
unfolding trim_end_by
trim_by-prefix p [] s h = refl
trim_by-prefix p (c ∷ pre) s h =
    end_cons-kept p c (trim_end_by p (pre ++ s)) h.0 ∙ ap (λ r. c ∷ r) (trim_by-prefix p pre s h.1)

pub trim_by-word :
    (p : ℕ → Bool) (c : ℕ) (pre s : Text)
    → p c ≡ false
    → All (λ c. p c ≡ false) pre
    → trim_by p (c ∷ pre ++ s) ≡ c ∷ pre ++ trim_end_by p s
unfolding trim_by
trim_by-word p c pre s h all =
    ap (trim_end_by p) (trim_start_by-kept p (c ∷ pre ++ s) h)
    ∙ trim_by-prefix p (c ∷ pre) s (h, all)

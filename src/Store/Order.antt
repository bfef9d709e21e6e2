-- ===== src/Store/Order.antt =====
-- The order in which profiles are listed (src/profile_store.rs): that of their names in lower case.
use phobos_wg_client.Base.{
  true, false, List, [], ◌∷◌, ◌≡◌, refl, sym, ap, inl, inr, arith, Bool-cases, if◌then◌else◌, ℕ,
  ◌∙◌, ◌⊎◌, ◌<◌, ◌&&◌, ◌==◌, ltb, map, bytes_eq,
}
use phobos_wg_client.Text.{Text, text_eq, ascii_lower, eq_ignore_ascii_case}
use phobos_wg_client.Store.{text_le}

pub text_le_refl : (s : Text) → text_le s s ≡ true
unfolding text_le
text_le_refl [] = refl
text_le_refl (c ∷ s) = ground (arith, text_le_refl s)

pub text_le_total : (s t : Text) → text_le s t ≡ false → text_le t s ≡ true
unfolding text_le
text_le_total [] t h = absurd (cc)
text_le_total (c ∷ s) [] h = refl
text_le_total (c ∷ s) (d ∷ t) h = ground (arith, text_le_total s t)

pub text_le_antisym : (s t : Text) → text_le s t ≡ true → text_le t s ≡ true → s ≡ t
unfolding text_le
text_le_antisym [] [] h k = refl
text_le_antisym [] (d ∷ t) h k = absurd (cc)
text_le_antisym (c ∷ s) [] h k = absurd (cc)
text_le_antisym (c ∷ s) (d ∷ t) h k = ground (arith, text_le_antisym s t)

pub text_le_trans : (r s t : Text) → text_le r s ≡ true → text_le s t ≡ true → text_le r t ≡ true
unfolding text_le
text_le_trans [] s t h k = refl
text_le_trans (b ∷ r) [] t h k = absurd (cc)
text_le_trans (b ∷ r) (c ∷ s) [] h k = absurd (cc)
text_le_trans (b ∷ r) (c ∷ s) (d ∷ t) h k = ground (arith, text_le_trans r s t)

-- The insertion of a name into names.
unfoldable pub insert_name : Text → List Text → List Text
insert_name a [] = a ∷ []
insert_name a (x ∷ xs) = if text_le a x then a ∷ x ∷ xs else x ∷ insert_name a xs

same :
    (a b : Text) (l : List Text)
    → a ≡ b
    → insert_name a (insert_name b l) ≡ insert_name b (insert_name a l)
same a b l e i = insert_name (e i) (insert_name (sym e i) l)

-- The order of two insertions makes no difference, since names that are alike are the same.
pub insert_name_comm :
    (a b : Text) (l : List Text) → insert_name a (insert_name b l) ≡ insert_name b (insert_name a l)
unfolding insert_name
insert_name_comm a b [] = elim (Bool-cases (text_le a b)) [
  | inl h ↦ elim (Bool-cases (text_le b a)) [
    | inl k ↦ same a b [] (text_le_antisym a b h k)
    | inr k ↦ simp (h, k) refl
  ]
  | inr h ↦ (let k = text_le_total a b h in simp (h, k) refl)
]
insert_name_comm a b (x ∷ xs) = elim (Bool-cases (text_le a x)) [
  | inl h ↦ elim (Bool-cases (text_le b x)) [
    | inl k ↦ elim (Bool-cases (text_le a b)) [
      | inl p ↦ elim (Bool-cases (text_le b a)) [
        | inl q ↦ same a b (x ∷ xs) (text_le_antisym a b p q)
        | inr q ↦ simp (h, k, p, q) refl
      ]
      | inr p ↦ (let q = text_le_total a b p in simp (h, k, p, q) refl)
    ]
    | inr k ↦ (let q : text_le b a ≡ false = not_below b a x k h in simp (h, k, q) refl)
  ]
  | inr h ↦ elim (Bool-cases (text_le b x)) [
    | inl k ↦ (let q : text_le a b ≡ false = not_below a b x h k in simp (h, k, q) refl)
    | inr k ↦ simp (h, k) (ap (◌∷◌ x) (insert_name_comm a b xs))
  ]
]
  where
    not_below : (p q x : Text) → text_le p x ≡ false → text_le q x ≡ true → text_le p q ≡ false
    not_below p q x h k = elim (Bool-cases (text_le p q)) [
      | inl e ↦ absurd (cc (text_le_trans p q x e k))
      | inr e ↦ e
    ]

-- The order of texts: at the first difference the smaller character, and a beginning before the whole.
abbrev pub Precedes : Text → Text → Type 0
Precedes [] t = Unit
Precedes (c ∷ s) [] = ⊥
Precedes (c ∷ s) (d ∷ t) = (c < d) ⊎ ((c ≡ d) × Precedes s t)

pub text_le-Precedes : (s t : Text) → text_le s t ≡ true → Precedes s t
unfolding text_le
text_le-Precedes [] t h = tt
text_le-Precedes (c ∷ s) [] h = cc
text_le-Precedes (c ∷ s) (d ∷ t) h = elim (Bool-cases (ltb c d)) [
  | inl lt ↦ inl (ground arith)
  | inr ge ↦ inr (ground arith, text_le-Precedes s t (ground arith))
]

bytes_eq_cons : (x y : ℕ) (xs ys : Text) → (x == y && bytes_eq xs ys) ≡ bytes_eq (x ∷ xs) (y ∷ ys)
unfolding bytes_eq
bytes_eq_cons x y xs ys = ground arith

-- Alike but for the case of ASCII letters.
pub eq_ignore_ascii_case_lem :
    (s t : Text) → eq_ignore_ascii_case s t ≡ text_eq (map ascii_lower s) (map ascii_lower t)
unfolding eq_ignore_ascii_case bytes_eq
eq_ignore_ascii_case_lem [] [] = refl
eq_ignore_ascii_case_lem [] (d ∷ t) = refl
eq_ignore_ascii_case_lem (c ∷ s) [] = refl
eq_ignore_ascii_case_lem (c ∷ s) (d ∷ t) =
    ap (◌&&◌ (ascii_lower c == ascii_lower d)) (eq_ignore_ascii_case_lem s t)
    ∙ bytes_eq_cons (ascii_lower c) (ascii_lower d) (map ascii_lower s) (map ascii_lower t)

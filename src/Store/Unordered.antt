-- ===== src/Store/Unordered.antt =====
-- Where no two profiles of the directory differ by no more than the case of their names, the listing
-- (`load_all_profiles` of src/profile_store.rs) is the same list whatever the order of the directory.
use phobos_wg_client.Base.{
  ℕ, ◌+◌, ◌≤◌, true, false, List, [], ◌∷◌, Option, none, some, ◌≡◌, refl, sym, ap, ◌∙◌, arith, inl,
  inr, Bool, Bool-cases, if◌then◌else◌, subst, bytes_eq_refl,
}
use phobos_wg_client.Archive.{PhobosProfile}
use phobos_wg_client.Text.{Text, CaseTable, text_eq}
use phobos_wg_client.Store.{DirEntry, name_le, insert_sorted, load_all_profiles}
use phobos_wg_client.Store.Order.{text_le_total, text_le_trans, text_le_antisym}
use phobos_wg_client.Store.Listing.{sort_key, loadable, insert_option, load_all_profiles-step}

-- The directory with its entries in another order, by exchanges of neighbours.
pub data Reordered : List DirEntry → List DirEntry → Type 0 where
  unchanged : (dir : List DirEntry) → Reordered dir dir
  exchanged : (a b : DirEntry) (dir : List DirEntry) → Reordered (a ∷ b ∷ dir) (b ∷ a ∷ dir)
  further_on : (a : DirEntry) {d e : List DirEntry} → Reordered d e → Reordered (a ∷ d) (a ∷ e)
  in_turn : {d e f : List DirEntry} → Reordered d e → Reordered e f → Reordered d f

module _ (u : CaseTable) where
  -- 1 for a profile with the given name in lower case.
  abbrev hits : Text → Option PhobosProfile → ℕ
  hits k none = 0
  hits k (some p) = if text_eq (sort_key u p) k then 1 else 0

  -- The number of entries that are listed with the given name, in lower case.
  abbrev pub holders : Text → List DirEntry → ℕ
  holders k [] = 0
  holders k (entry ∷ dir) = hits k (loadable u entry) + holders k dir

  holders-Reordered :
      (k : Text) {dir dir' : List DirEntry} → Reordered dir dir' → holders k dir ≡ holders k dir'
  holders-Reordered k (unchanged dir) = refl
  holders-Reordered k (exchanged a b dir) =
      turned (hits k (loadable u a)) (hits k (loadable u b)) (holders k dir)
    where
      turned : (m n o : ℕ) → m + (n + o) ≡ n + (m + o)
      turned m n o = omega arith
  holders-Reordered k (further_on a r) = ap (λ n. hits k (loadable u a) + n) (holders-Reordered k r)
  holders-Reordered k (in_turn r s) = holders-Reordered k r ∙ holders-Reordered k s

  -- Insertions of profiles with different names can be turned around.
  insert_sorted_comm :
      (p q : PhobosProfile) (l : List PhobosProfile)
      → (sort_key u p ≡ sort_key u q → ⊥)
      → insert_sorted u p (insert_sorted u q l) ≡ insert_sorted u q (insert_sorted u p l)
  unfolding insert_sorted
  insert_sorted_comm p q l differ = go l
    where
      clash : name_le u p q ≡ true → name_le u q p ≡ true → ⊥
      clash h k = differ (text_le_antisym (sort_key u p) (sort_key u q) h k)

      not_below :
          (x y z : PhobosProfile)
          → name_le u x z ≡ false
          → name_le u y z ≡ true
          → name_le u x y ≡ false
      not_below x y z h k = elim (Bool-cases (name_le u x y)) [
        | inl e ↦ absurd (cc (text_le_trans (sort_key u x) (sort_key u y) (sort_key u z) e k))
        | inr e ↦ e
      ]

      go :
          (l : List PhobosProfile)
          → insert_sorted u p (insert_sorted u q l) ≡ insert_sorted u q (insert_sorted u p l)
      go [] = elim (Bool-cases (name_le u p q)) [
        | inl h ↦ elim (Bool-cases (name_le u q p)) [
          | inl k ↦ absurd (clash h k)
          | inr k ↦ simp (h, k) refl
        ]
        | inr h ↦ (let k = text_le_total (sort_key u p) (sort_key u q) h in simp (h, k) refl)
      ]
      go (x ∷ xs) = elim (Bool-cases (name_le u p x)) [
        | inl h ↦ elim (Bool-cases (name_le u q x)) [
          | inl k ↦ elim (Bool-cases (name_le u p q)) [
            | inl a ↦ elim (Bool-cases (name_le u q p)) [
              | inl b ↦ absurd (clash a b)
              | inr b ↦ simp (h, k, a, b) refl
            ]
            | inr a ↦
                (let b = text_le_total (sort_key u p) (sort_key u q) a in simp (h, k, a, b) refl)
          ]
          | inr k ↦ (let b : name_le u q p ≡ false = not_below q p x k h in simp (h, k, b) refl)
        ]
        | inr h ↦ elim (Bool-cases (name_le u q x)) [
          | inl k ↦ (let a : name_le u p q ≡ false = not_below p q x h k in simp (h, k, a) refl)
          | inr k ↦ simp (h, k) (ap (◌∷◌ x) (go xs))
        ]
      ]

  insert_option_comm :
      (a b : Option PhobosProfile) (l : List PhobosProfile)
      → ((k : Text) → hits k a + hits k b ≤ 1)
      → insert_option u a (insert_option u b l) ≡ insert_option u b (insert_option u a l)
  unfolding insert_option
  insert_option_comm none b l few = refl
  insert_option_comm (some p) none l few = refl
  insert_option_comm (some p) (some q) l few = insert_sorted_comm p q l differ
    where
      two_hits :
          (b c : Bool) → b ≡ true → c ≡ true → (if b then 1 else 0) + (if c then 1 else 0) ≤ 1 → ⊥
      two_hits b c h k few = ground arith

      differ : sort_key u p ≡ sort_key u q → ⊥
      differ e =
          let one = bytes_eq_refl (sort_key u p) in
          let two : text_eq (sort_key u q) (sort_key u p) ≡ true =
            subst (λ x. text_eq x (sort_key u p) ≡ true) e one in
          two_hits (text_eq (sort_key u p) (sort_key u p)) (text_eq (sort_key u q) (sort_key u p))
            one two (few (sort_key u p))

  -- If no two listed entries have the same name in lower case, `load_all_profiles` returns the same list
  -- whatever the order in which the directory lists its entries.
  pub load_all_profiles-unordered :
      {dir dir' : List DirEntry}
      → Reordered dir dir'
      → ((k : Text) → holders k dir ≤ 1)
      → load_all_profiles u dir ≡ load_all_profiles u dir'
  load_all_profiles-unordered (unchanged dir) few = refl
  load_all_profiles-unordered (exchanged a b dir) few =
      twice a b
      ∙ (insert_option_comm (loadable u a) (loadable u b) (load_all_profiles u dir)
            (λ k. fewer (hits k (loadable u a)) (hits k (loadable u b)) (holders k dir) (few k))
          ∙ sym (twice b a))
    where
      fewer : (m n o : ℕ) → m + (n + o) ≤ 1 → m + n ≤ 1
      fewer m n o h = omega arith

      twice :
          (x y : DirEntry)
          → load_all_profiles u (x ∷ y ∷ dir)
            ≡ insert_option u
                (loadable u x)
                (insert_option u (loadable u y) (load_all_profiles u dir))
      twice x y =
          load_all_profiles-step u x (y ∷ dir)
          ∙ ap (insert_option u (loadable u x)) (load_all_profiles-step u y dir)
  load_all_profiles-unordered (further_on a {d} {e} r) few =
      load_all_profiles-step u a d
      ∙ (ap (insert_option u (loadable u a)) (
            load_all_profiles-unordered r
              (λ k. fewer (hits k (loadable u a)) (holders k d) (few k)))
          ∙ sym (load_all_profiles-step u a e))
    where
      fewer : (m n : ℕ) → m + n ≤ 1 → n ≤ 1
      fewer m n h = omega arith
  load_all_profiles-unordered (in_turn r s) few =
      load_all_profiles-unordered r few
      ∙ load_all_profiles-unordered s (λ k. subst (λ n. n ≤ 1) (holders-Reordered k r) (few k))

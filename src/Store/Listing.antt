-- ===== src/Store/Listing.antt =====
-- What `load_all_profiles` returns (src/profile_store.rs): the loadable profiles of the directory, in
-- the order of their names, whatever order the directory lists its entries in.
use mathlib.Core.List.{Perm}
use mathlib.Core.List.Perm
use phobos_wg_client.Base.{
  Bool, true, false, List, [], ◌∷◌, Option, none, some, ◌≡◌, refl, sym, ap, ◌∙◌, inl, inr,
  Bool-cases, if◌then◌else◌, subst, All, bytes_eq_sound, ◌||◌, codes, map,
}
use phobos_wg_client.Base.Result.{Result, ok, err}
use phobos_wg_client.Archive.{PhobosProfile, LoadError}
use phobos_wg_client.Archive.File.{load_from_file}
use phobos_wg_client.Text.{Text, CaseTable, to_lowercase, text_eq, ascii_lower, is_between}
use phobos_wg_client.Store.{
  DirEntry, text_le, name_le, insert_sorted, is_profile_extension, insert_loaded, load_all_profiles,
}
use phobos_wg_client.Store.Order.{
  Precedes, text_le-Precedes, eq_ignore_ascii_case_lem, text_le_refl, text_le_total, text_le_trans,
}

abbrev pub sort_key : CaseTable → PhobosProfile → Text
sort_key u p = to_lowercase u p.client_name

abbrev result_of : Result LoadError PhobosProfile → Option PhobosProfile
result_of (ok p) = some p
result_of (err e) = none

-- One of the four extensions, in capital or small letters.
abbrev pub is_listed : Option Text → Bool
is_listed none = false
is_listed (some ext) =
    let small = map ascii_lower ext in
    text_eq small (codes "enc")
    || text_eq small (codes "gz")
    || text_eq small (codes "tgz")
    || text_eq small (codes "conf")

-- The profile of an entry, if it has such an extension and is loaded.
abbrev pub loadable : CaseTable → DirEntry → Option PhobosProfile
loadable u entry =
    if is_listed entry.extension then result_of (load_from_file u entry.source) else none

abbrev cons_some : Option PhobosProfile → List PhobosProfile → List PhobosProfile
cons_some none ps = ps
cons_some (some p) ps = p ∷ ps

-- In the order of the directory.
abbrev pub loadables : CaseTable → List DirEntry → List PhobosProfile
loadables u [] = []
loadables u (entry ∷ rest) = cons_some (loadable u entry) (loadables u rest)

abbrev Ascends : CaseTable → List PhobosProfile → Type 0
Ascends u [] = Unit
Ascends u (p ∷ ps) = All (λ q. name_le u p q ≡ true) ps × Ascends u ps

-- No name, in lower case, is in front of one that precedes it.
abbrev pub IsOrdered : CaseTable → List PhobosProfile → Type 0
IsOrdered u [] = Unit
IsOrdered u (p ∷ ps) = All (λ q. Precedes (sort_key u p) (sort_key u q)) ps × IsOrdered u ps

-- The profiles with a given name, in their order.
abbrev pub named : CaseTable → Text → List PhobosProfile → List PhobosProfile
named u k [] = []
named u k (p ∷ ps) = let rest = named u k ps in if text_eq (sort_key u p) k then p ∷ rest else rest

is_profile_extension_lem : (o : Option Text) → is_profile_extension o ≡ is_listed o
unfolding ascii_lower is_between
is_profile_extension_lem none = refl
is_profile_extension_lem (some ext) =
    rw
      (
        eq_ignore_ascii_case_lem ext (codes "enc"),
        eq_ignore_ascii_case_lem ext (codes "gz"),
        eq_ignore_ascii_case_lem ext (codes "tgz"),
        eq_ignore_ascii_case_lem ext (codes "conf"),
      )
      refl

module _ (u : CaseTable) where
  unfoldable pub insert_option : Option PhobosProfile → List PhobosProfile → List PhobosProfile
  insert_option none ps = ps
  insert_option (some p) ps = insert_sorted u p ps

  pub load_all_profiles-step :
      (entry : DirEntry) (rest : List DirEntry)
      → load_all_profiles u (entry ∷ rest)
        ≡ insert_option (loadable u entry) (load_all_profiles u rest)
  unfolding load_all_profiles insert_option
  load_all_profiles-step entry rest =
      rw (is_profile_extension_lem entry.extension)
        (by_test (is_listed entry.extension) (load_from_file u entry.source))
    where
      by_test :
          (b : Bool) (r : Result LoadError PhobosProfile)
          → (if b then insert_loaded u r (load_all_profiles u rest) else load_all_profiles u rest)
            ≡ insert_option (if b then result_of r else none) (load_all_profiles u rest)
      by_test false r = refl
      by_test true (ok p) = refl
      by_test true (err e) = refl

  insert_sorted-All :
      (P : PhobosProfile → Type 0) (p : PhobosProfile) (ps : List PhobosProfile)
      → P p
      → All P ps
      → All P (insert_sorted u p ps)
  unfolding insert_sorted
  insert_sorted-All P p [] h k = (h, tt)
  insert_sorted-All P p (q ∷ qs) h k = elim (Bool-cases (name_le u p q)) [
    | inl e ↦ rw e (h, k)
    | inr e ↦ rw e (k.0, insert_sorted-All P p qs h k.1)
  ]

  below-All :
      (p q : PhobosProfile) (qs : List PhobosProfile)
      → name_le u p q ≡ true
      → All (λ r. name_le u q r ≡ true) qs
      → All (λ r. name_le u p r ≡ true) qs
  below-All p q [] h k = tt
  below-All p q (r ∷ rs) h k =
      (text_le_trans (sort_key u p) (sort_key u q) (sort_key u r) h k.0, below-All p q rs h k.1)

  insert_sorted-Ascends :
      (p : PhobosProfile) (ps : List PhobosProfile)
      → Ascends u ps
      → Ascends u (insert_sorted u p ps)
  unfolding insert_sorted
  insert_sorted-Ascends p [] h = (tt, tt)
  insert_sorted-Ascends p (q ∷ qs) h = elim (Bool-cases (name_le u p q)) [
    | inl e ↦ rw e ((e, below-All p q qs e h.0), h)
    | inr e ↦ rw e (
      insert_sorted-All (λ r. name_le u q r ≡ true) p qs
          (text_le_total (sort_key u p) (sort_key u q) e) h.0,
      insert_sorted-Ascends p qs h.1,
    )
  ]

  insert_sorted-perm :
      (p : PhobosProfile) (ps : List PhobosProfile) → Perm (insert_sorted u p ps) (p ∷ ps)
  unfolding insert_sorted
  insert_sorted-perm p [] = Perm.rfl
  insert_sorted-perm p (q ∷ qs) = elim (Bool-cases (name_le u p q)) [
    | inl e ↦ rw e Perm.rfl
    | inr e ↦ rw e (Perm.trans (Perm.cons q (insert_sorted-perm p qs)) (Perm.swap p q qs))
  ]

  -- A profile that is passed over has another name.
  passed_over :
      (k : Text) (p q : PhobosProfile)
      → name_le u p q ≡ false
      → text_eq (sort_key u p) k ≡ true
      → text_eq (sort_key u q) k ≡ true
      → ⊥
  passed_over k p q e h j =
      let x = bytes_eq_sound (sort_key u p) k h in
      let y = bytes_eq_sound (sort_key u q) k j in
      let r : text_le (sort_key u p) (sort_key u q) ≡ true =
        ap (text_le (sort_key u p)) (y ∙ sym x) ∙ text_le_refl (sort_key u p) in
      cc

  insert_sorted-named :
      (k : Text) (p : PhobosProfile) (ps : List PhobosProfile)
      → named u k (insert_sorted u p ps) ≡ named u k (p ∷ ps)
  unfolding insert_sorted
  insert_sorted-named k p [] = refl
  insert_sorted-named k p (q ∷ qs) = elim (Bool-cases (name_le u p q)) [
    | inl e ↦ rw e refl
    | inr e ↦ rw e (
        past (text_eq (sort_key u p) k) (text_eq (sort_key u q) k)
          (named u k (insert_sorted u p qs)) (named u k qs) (insert_sorted-named k p qs)
          (passed_over k p q e))
  ]
    where
      past :
          (b c : Bool) (l rest : List PhobosProfile)
          → l ≡ (if b then p ∷ rest else rest)
          → (b ≡ true → c ≡ true → ⊥)
          → (if c then q ∷ l else l)
            ≡ (if b then p ∷ (if c then q ∷ rest else rest) else if c then q ∷ rest else rest)
      past true true l rest h n = absurd (n refl refl)
      past true false l rest h n = h
      past false true l rest h n = ap (◌∷◌ q) h
      past false false l rest h n = h

  -- What a listing is: in order, with the loadable profiles and no other, and among those of one name
  -- in the directory's order.
  abbrev pub IsListing : List DirEntry → List PhobosProfile → Type 0
  IsListing dir ps =
      IsOrdered u ps
      × Perm ps (loadables u dir)
      × ((k : Text) → named u k ps ≡ named u k (loadables u dir))

  abbrev IsSortedListing : List DirEntry → List PhobosProfile → Type 0
  IsSortedListing dir ps =
      Ascends u ps
      × Perm ps (loadables u dir)
      × ((k : Text) → named u k ps ≡ named u k (loadables u dir))

  insert_option-IsListing :
      (entry : DirEntry) (dir : List DirEntry) (ps : List PhobosProfile)
      → IsSortedListing dir ps
      → IsSortedListing (entry ∷ dir) (insert_option (loadable u entry) ps)
  unfolding insert_option
  insert_option-IsListing entry dir ps h = go (loadable u entry) h
    where
      go :
          (o : Option PhobosProfile)
          → IsSortedListing dir ps
          → Ascends u (insert_option o ps)
            × Perm (insert_option o ps) (cons_some o (loadables u dir))
            × ((k : Text)
                → named u k (insert_option o ps) ≡ named u k (cons_some o (loadables u dir)))
      go none h = h
      go (some p) (a, b, c) = (
        insert_sorted-Ascends p ps a,
        Perm.trans (insert_sorted-perm p ps) (Perm.cons p b),
        λ k.
            insert_sorted-named k p ps
            ∙ ap (λ r. if text_eq (sort_key u p) k then p ∷ r else r) (c k),
      )

  load_all_profiles-IsSortedListing :
      (dir : List DirEntry) → IsSortedListing dir (load_all_profiles u dir)
  unfolding load_all_profiles
  load_all_profiles-IsSortedListing [] = (tt, Perm.rfl, λ k. refl)
  load_all_profiles-IsSortedListing (entry ∷ dir) =
      subst (IsSortedListing (entry ∷ dir)) (sym (load_all_profiles-step entry dir)) (
        insert_option-IsListing entry dir (load_all_profiles u dir)
          (load_all_profiles-IsSortedListing dir))

  All-Precedes :
      (p : PhobosProfile) (ps : List PhobosProfile)
      → All (λ q. name_le u p q ≡ true) ps
      → All (λ q. Precedes (sort_key u p) (sort_key u q)) ps
  All-Precedes p [] h = tt
  All-Precedes p (q ∷ qs) h =
      (text_le-Precedes (sort_key u p) (sort_key u q) h.0, All-Precedes p qs h.1)

  Ascends-IsOrdered : (ps : List PhobosProfile) → Ascends u ps → IsOrdered u ps
  Ascends-IsOrdered [] h = tt
  Ascends-IsOrdered (p ∷ ps) h = (All-Precedes p ps h.0, Ascends-IsOrdered ps h.1)

  -- `load_all_profiles` returns the profiles that can be loaded from entries with the extension `enc`,
  -- `gz`, `tgz` or `conf`, in capital or small letters, and no others, in the ascending order of their
  -- names in lower case; profiles of one such name stay in the directory's order.
  pub load_all_profiles-IsListing : (dir : List DirEntry) → IsListing dir (load_all_profiles u dir)
  load_all_profiles-IsListing dir =
      let (ascends, perm, stable) = load_all_profiles-IsSortedListing dir in
      (Ascends-IsOrdered (load_all_profiles u dir) ascends, perm, stable)

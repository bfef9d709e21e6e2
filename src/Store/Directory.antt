-- ===== src/Store/Directory.antt =====
-- The directory of the profiles as a collection of entries in no order (src/profile_store.rs), and the
-- names that it shows.
use mathlib.Core.List
use mathlib.Core.List.{Perm, foldr}
use mathlib.Core.List.Perm
use mathlib.Mathlib.Data.Multiset.Defs.{Multiset, of_list}
use mathlib.Mathlib.Data.Multiset.Fold as Fold
use native.Mathlib.Nat.{ℕ_set}
use phobos_wg_client.Base.{
  List, [], ◌∷◌, Option, none, some, ◌≡◌, refl, ap, ◌∙◌, inl, inr, Bool-cases, map,
}
use phobos_wg_client.Archive.{PhobosProfile}
use phobos_wg_client.Text.{Text, CaseTable}
use phobos_wg_client.Store.{DirEntry, name_le, insert_sorted, load_all_profiles}
use phobos_wg_client.Store.Order.{insert_name, insert_name_comm}
use phobos_wg_client.Store.Listing.{sort_key, loadable, insert_option, load_all_profiles-step}

module _ (u : CaseTable) where
  abbrev insert_key : Option PhobosProfile → List Text → List Text
  insert_key none l = l
  insert_key (some p) l = insert_name (sort_key u p) l

  abbrev add_entry : DirEntry → List Text → List Text
  add_entry entry l = insert_key (loadable u entry) l

  add_entry_comm :
      (d e : DirEntry) (l : List Text) → add_entry d (add_entry e l) ≡ add_entry e (add_entry d l)
  add_entry_comm d e l = go (loadable u d) (loadable u e)
    where
      go :
          (a b : Option PhobosProfile)
          → insert_key a (insert_key b l) ≡ insert_key b (insert_key a l)
      go none b = refl
      go (some p) none = refl
      go (some p) (some q) = insert_name_comm (sort_key u p) (sort_key u q) l

  -- The names that a directory shows, which is a collection of entries in no order.
  pub directory_names : Multiset DirEntry → List Text
  directory_names = Fold.foldr (List.is_set (List.is_set ℕ_set)) add_entry add_entry_comm []

  insert_sorted-key :
      (p : PhobosProfile) (ps : List PhobosProfile)
      → map (sort_key u) (insert_sorted u p ps) ≡ insert_name (sort_key u p) (map (sort_key u) ps)
  unfolding insert_sorted insert_name
  insert_sorted-key p [] = refl
  insert_sorted-key p (q ∷ qs) = elim (Bool-cases (name_le u p q)) [
    | inl e ↦ rw e refl
    | inr e ↦ rw e (ap (◌∷◌ (sort_key u q)) (insert_sorted-key p qs))
  ]

  insert_option-key :
      (o : Option PhobosProfile) (ps : List PhobosProfile)
      → map (sort_key u) (insert_option u o ps) ≡ insert_key o (map (sort_key u) ps)
  unfolding insert_option
  insert_option-key none ps = refl
  insert_option-key (some p) ps = insert_sorted-key p ps

  -- The order in which the directory lists its entries makes no difference to the names that are
  -- listed, in lower case: they are those of the collection of the entries. (Which of two names that
  -- differ only in their case comes first does depend on the directory.)
  pub load_all_profiles-directory :
      (dir : List DirEntry)
      → map (sort_key u) (load_all_profiles u dir) ≡ directory_names (of_list dir)
  unfolding load_all_profiles directory_names Fold.foldr
  load_all_profiles-directory [] = refl
  load_all_profiles-directory (entry ∷ dir) =
      ap (map (sort_key u)) (load_all_profiles-step u entry dir)
      ∙ (insert_option-key (loadable u entry) (load_all_profiles u dir)
          ∙ ap (add_entry entry) (load_all_profiles-directory dir))

-- ===== src/Store/Deleted.antt =====
-- What a deletion leaves in the store (src/profile_store.rs).
use phobos_wg_client.Base.{
  Bool, true, false, ◌||◌, List, [], ◌∷◌, ◌≡◌, refl, ap, ◌∙◌, inl, inr, if◌then◌else◌, Bool-cases,
  All, ◌⊎◌,
}
use phobos_wg_client.Base.Result.{Result, ok, err}
use phobos_wg_client.Text.{Text, CaseTable}
use phobos_wg_client.Store.{
  StoreError, not_found, DirEntry, Deletion, is_match, keep, remove_then, delete_entries,
  or_not_found, delete_profile,
}
use phobos_wg_client.Store.Naming.{IsNamed, is_match-IsNamed, IsNamed-is_match}

-- Some entry of the directory matches, and the entries that do not.
abbrev has_match : CaseTable → Text → List DirEntry → Bool
has_match u n [] = false
has_match u n (entry ∷ rest) = is_match u n entry || has_match u n rest

abbrev others : CaseTable → Text → List DirEntry → List DirEntry
others u n [] = []
others u n (entry ∷ rest) = if is_match u n entry then others u n rest else entry ∷ others u n rest

abbrev pub IsRemovable : DirEntry → Type 0
IsRemovable entry = entry.removed ≡ ok tt

delete_entries_lem :
    (u : CaseTable) (n : Text) (dir : List DirEntry)
    → All IsRemovable dir
    → delete_entries u n dir ≡ record { result = ok (has_match u n dir); left = others u n dir }
unfolding delete_entries
delete_entries_lem u n [] h = refl
delete_entries_lem u n (entry ∷ rest) h = elim (Bool-cases (is_match u n entry)) [
  | inl e ↦ rw (e, h.0) (ap (remove_then entry rest (ok tt)) (delete_entries_lem u n rest h.1))
  | inr e ↦ rw e (ap (keep entry) (delete_entries_lem u n rest h.1))
]

-- What is left of a directory without the entries of a kind: every other entry, in its place.
pub data Without (P : DirEntry → Type 0) : List DirEntry → List DirEntry → Type 0 where
  empty_dir : Without P [] []
  removed :
      (e : DirEntry) {dir left : List DirEntry}
      → P e
      → Without P dir left
      → Without P (e ∷ dir) left
  left :
      (e : DirEntry) {dir left : List DirEntry}
      → (P e → ⊥)
      → Without P dir left
      → Without P (e ∷ dir) (e ∷ left)

-- Some entry is of a kind.
abbrev pub Some : (DirEntry → Type 0) → List DirEntry → Type 0
Some P [] = ⊥
Some P (e ∷ dir) = P e ⊎ Some P dir

-- Success if some entry was named, an error if none was.
abbrev pub Tells : CaseTable → Text → List DirEntry → Result StoreError (Unit {0}) → Type 0
Tells u n dir r =
    ((r ≡ ok tt) × Some (IsNamed u n) dir)
    ⊎ ((r ≡ err not_found) × All (λ e. IsNamed u n e → ⊥) dir)

unnamed : (u : CaseTable) (n : Text) (e : DirEntry) → is_match u n e ≡ false → IsNamed u n e → ⊥
unnamed u n e h k = cc (IsNamed-is_match u n e k)

others-Without :
    (u : CaseTable) (n : Text) (dir : List DirEntry) → Without (IsNamed u n) dir (others u n dir)
others-Without u n [] = empty_dir
others-Without u n (e ∷ dir) = elim (Bool-cases (is_match u n e)) [
  | inl h ↦ rw h (removed e (is_match-IsNamed u n e h) (others-Without u n dir))
  | inr h ↦ rw h (left e (unnamed u n e h) (others-Without u n dir))
]

has_match-Tells :
    (u : CaseTable) (n : Text) (dir : List DirEntry)
    → Tells u n dir (if has_match u n dir then ok tt else err not_found)
has_match-Tells u n [] = inr (refl, tt)
has_match-Tells u n (e ∷ dir) = elim (Bool-cases (is_match u n e)) [
  | inl h ↦ rw h (inl (refl, inl (is_match-IsNamed u n e h)))
  | inr h ↦ rw h (further (unnamed u n e h) (has_match-Tells u n dir))
]
  where
    further :
        {r : Result StoreError (Unit {0})}
        → (IsNamed u n e → ⊥)
        → Tells u n dir r
        → Tells u n (e ∷ dir) r
    further other (inl (done, some_one)) = inl (done, inr some_one)
    further other (inr (none_found, no_one)) = inr (none_found, (other, no_one))

delete_profile_lem :
    (u : CaseTable) (n : Text) (dir : List DirEntry)
    → All IsRemovable dir
    → delete_profile u n dir ≡ (if has_match u n dir then ok tt else err not_found, others u n dir)
unfolding delete_profile
delete_profile_lem u n dir h =
    ap (λ (d : Deletion). (or_not_found d.result, d.left)) (delete_entries_lem u n dir h)
    ∙ ap (λ r. (r, others u n dir)) (outcome (has_match u n dir))
  where
    outcome : (b : Bool) → or_not_found (ok b) ≡ (if b then ok tt else err not_found)
    outcome true = refl
    outcome false = refl

-- Where no removal is refused, a deletion removes every file with the name and no other entry, and keeps
-- their order; it succeeds if there was one, and reports that none was found if there was none. A file
-- has the name of the profile in it, or where it holds none the name of its stem, as it is or without
-- `.tar` at its end and `phobos-` in its front; the case of ASCII letters plays no part.
pub delete_profile-Without :
    (u : CaseTable) (n : Text) (dir : List DirEntry)
    → All IsRemovable dir
    → Without (IsNamed u n) dir (delete_profile u n dir).1
      × Tells u n dir (delete_profile u n dir).0
delete_profile-Without u n dir h =
    rw (delete_profile_lem u n dir h) (others-Without u n dir, has_match-Tells u n dir)

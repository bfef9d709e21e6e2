-- ===== src/Archive/Entries.antt =====
-- The limits on a package's entries (src/archive.rs).
use phobos_wg_client.Base.{ℕ, ◌+◌, ◌≤◌, List, [], ◌∷◌, ◌≡◌, arith, ltb, ltb-false→le, length}
use phobos_wg_client.Base.Result.{
  Result, ok, err, ◌>>=◌, map_err, bind_preserves, if_preserves, AllOk, AllOk-Unit, AllOk-map,
  AllOk-eq,
}
use phobos_wg_client.Text.{Text, CaseTable}
use phobos_wg_client.Archive.{
  too_many_entries, corrupted_entry, Entry, Found, max_tar_entries, read_entry, read_entries,
}

-- The entries behind `entry_count` entries are within the limit.
abbrev IsWithin : ℕ → List (Result Text Entry) → Found → Type 0
IsWithin entry_count entries g = entry_count + length entries ≤ max_tar_entries

read_entries-IsWithin :
    (u : CaseTable) (entries : List (Result Text Entry)) (entry_count : ℕ) (f : Found)
    → entry_count ≤ max_tar_entries
    → AllOk (IsWithin entry_count entries) (read_entries u entry_count f entries)
unfolding read_entries
read_entries-IsWithin u [] entry_count f h = ground arith
read_entries-IsWithin u (entry ∷ rest) entry_count f h =
    if_preserves (AllOk (IsWithin entry_count (entry ∷ rest)))
      (ltb max_tar_entries (entry_count + 1)) (err too_many_entries)
      (map_err corrupted_entry entry >>= λ e.
        read_entry u f e >>= λ g. read_entries u (entry_count + 1) g rest)
      (λ over. tt)
      (λ within.
        bind_preserves (λ e. Unit {0}) (IsWithin entry_count (entry ∷ rest))
          (map_err corrupted_entry entry)
          (λ e. read_entry u f e >>= λ g. read_entries u (entry_count + 1) g rest)
          (AllOk-Unit (map_err corrupted_entry entry))
          (λ e _.
            bind_preserves (λ g. Unit {0}) (IsWithin entry_count (entry ∷ rest)) (read_entry u f e)
              (λ g. read_entries u (entry_count + 1) g rest) (AllOk-Unit (read_entry u f e))
              (λ g _.
                AllOk-map (IsWithin (entry_count + 1) rest) (IsWithin entry_count (entry ∷ rest))
                  (read_entries u (entry_count + 1) g rest) (λ k le. ground arith)
                  (read_entries-IsWithin u rest (entry_count + 1) g
                    (ltb-false→le max_tar_entries (entry_count + 1) within)))))

-- A package of which the loop has read `entry_count` entries, at most 256, is loaded only if there
-- are no more than 256 in all; with more, whatever they hold, the loop fails.
pub read_entries_limit :
    (u : CaseTable) (entries : List (Result Text Entry)) (entry_count : ℕ) (f g : Found)
    → entry_count ≤ max_tar_entries
    → read_entries u entry_count f entries ≡ ok g
    → entry_count + length entries ≤ max_tar_entries
read_entries_limit u entries entry_count f g h e =
    AllOk-eq (IsWithin entry_count entries) (read_entries u entry_count f entries) g
      (read_entries-IsWithin u entries entry_count f h) e

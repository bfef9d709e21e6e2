-- ===== src/Store/Naming.antt =====
-- Which entries of the store a deletion is about (src/profile_store.rs).
use phobos_wg_client.Base.{
  ℕ, zero, suc, ◌≤◌, ◌&&◌, ◌||◌, true, false, [], ◌∷◌, ◌++◌, Option, none, some, ◌≡◌, refl, sym, ap,
  ◌∙◌, arith, inl, inr, ◌⊎◌, Bool-cases, Bool, from_option, length, map, bytes_eq, bytes_eq_refl,
  bytes_eq_sound, subst, codes,
}
use phobos_wg_client.Base.Result.{Result, ok, err}
use phobos_wg_client.Archive.{PhobosProfile, LoadError, FilePath}
use phobos_wg_client.Archive.File.{load_from_file}
use phobos_wg_client.Text.{
  Text, CaseTable, ascii_lower, eq_ignore_ascii_case, starts_with, strip_prefix, trim_end_matches,
}
use phobos_wg_client.Store.{DirEntry, trim_phobos, matches_loaded, is_match}
use phobos_wg_client.Store.Order.{eq_ignore_ascii_case_lem}

-- The same text, but for the case of ASCII letters.
abbrev pub SameLetters : Text → Text → Type 0
SameLetters s t = map ascii_lower s ≡ map ascii_lower t

-- What is left of a text behind all the copies of `phobos-` in its front.
pub data Cut : Text → Text → Type 0 where
  uncut : (s : Text) → starts_with s (codes "phobos-") ≡ false → Cut s s
  cut : (s t : Text) → Cut s t → Cut (codes "phobos-" ++ s) t

-- The name of the profile in a file; or where the file is no profile its stem, or the stem without
-- `.tar` at its end and without `phobos-` in its front.
abbrev pub HasName : Text → Text → Result LoadError PhobosProfile → Type 0
HasName name stem (ok profile) = SameLetters profile.client_name name
HasName name stem (err e) =
    ((bare : Text) × Cut (trim_end_matches (codes ".tar") stem) bare × SameLetters bare name)
    ⊎ SameLetters stem name

abbrev pub IsNamed : CaseTable → Text → DirEntry → Type 0
IsNamed u name entry =
    (entry.is_file ≡ true)
    × HasName name (from_option entry.source.path.file_stem []) (load_from_file u entry.source)

eq-SameLetters : (s t : Text) → eq_ignore_ascii_case s t ≡ true → SameLetters s t
eq-SameLetters s t h =
    bytes_eq_sound (map ascii_lower s) (map ascii_lower t) (sym (eq_ignore_ascii_case_lem s t) ∙ h)

SameLetters-eq : (s t : Text) → SameLetters s t → eq_ignore_ascii_case s t ≡ true
SameLetters-eq s t h =
    eq_ignore_ascii_case_lem s t
    ∙ (ap (λ r. bytes_eq r (map ascii_lower t)) h ∙ bytes_eq_refl (map ascii_lower t))

strip_prefix-some : (s d t : Text) → strip_prefix s d ≡ some t → s ≡ d ++ t
unfolding strip_prefix
strip_prefix-some s [] t h = cc
strip_prefix-some [] (d ∷ ds) t h = cc
strip_prefix-some (c ∷ s) (d ∷ ds) t h = ground (arith, strip_prefix-some s ds t)

strip_prefix-none : (s d : Text) → strip_prefix s d ≡ none → starts_with s d ≡ false
unfolding strip_prefix starts_with
strip_prefix-none s [] h = cc
strip_prefix-none [] (d ∷ ds) h = refl
strip_prefix-none (c ∷ s) (d ∷ ds) h = ground (arith, strip_prefix-none s ds)

strip_prefix-append : (d s : Text) → strip_prefix (d ++ s) d ≡ some s
unfolding strip_prefix
strip_prefix-append [] s = refl
strip_prefix-append (c ∷ d) s = ground (arith, strip_prefix-append d s)

strip_prefix-false : (s d : Text) → starts_with s d ≡ false → strip_prefix s d ≡ none
unfolding strip_prefix starts_with
strip_prefix-false s [] h = cc
strip_prefix-false [] (d ∷ ds) h = refl
strip_prefix-false (c ∷ s) (d ∷ ds) h = ground (arith, strip_prefix-false s ds)

-- One copy more.
Cut-step :
    (fuel : ℕ) (s : Text)
    → length s ≤ suc fuel
    → ((t : Text) → length t ≤ fuel → Cut t (trim_phobos fuel t))
    → (o : Option Text) → strip_prefix s (codes "phobos-") ≡ o
    → Cut s (elim o [ none ↦ s | some t ↦ trim_phobos fuel t ])
Cut-step fuel s h rest none e = uncut s (strip_prefix-none s (codes "phobos-") e)
Cut-step fuel s h rest (some t) e =
    let whole : s ≡ codes "phobos-" ++ t = strip_prefix-some s (codes "phobos-") t e in
    subst (λ x. Cut x (trim_phobos fuel t)) (sym whole)
      (cut t (trim_phobos fuel t) (rest t (shorter (ap length whole))))
  where
    shorter : length s ≡ length (codes "phobos-" ++ t) → length t ≤ fuel
    shorter k = ground arith

-- The loop cuts every copy, where its fuel is the length of the text.
trim_phobos-Cut : (fuel : ℕ) (s : Text) → length s ≤ fuel → Cut s (trim_phobos fuel s)
unfolding trim_phobos starts_with
trim_phobos-Cut zero [] h = uncut [] refl
trim_phobos-Cut zero (c ∷ s) h = ground arith
trim_phobos-Cut (suc fuel) s h =
    Cut-step fuel s h (trim_phobos-Cut fuel) (strip_prefix s (codes "phobos-")) refl

trim_step :
    (fuel : ℕ) (s : Text) {o : Option Text}
    → strip_prefix s (codes "phobos-") ≡ o
    → trim_phobos (suc fuel) s ≡ elim o [ none ↦ s | some t ↦ trim_phobos fuel t ]
unfolding trim_phobos
trim_step fuel s e = ap (λ o. elim o [ none ↦ s | some t ↦ trim_phobos fuel t ]) e

-- Nothing else is left behind the copies.
Cut-trim_phobos : {s t : Text} (fuel : ℕ) → Cut s t → length s ≤ fuel → trim_phobos fuel s ≡ t
unfolding trim_phobos
Cut-trim_phobos zero (uncut s e) h = refl
Cut-trim_phobos zero (cut r t c) h = ground arith
Cut-trim_phobos (suc fuel) (uncut s e) h =
    trim_step fuel s (strip_prefix-false s (codes "phobos-") e)
Cut-trim_phobos (suc fuel) (cut r t c) h =
    trim_step fuel (codes "phobos-" ++ r) (strip_prefix-append (codes "phobos-") r)
    ∙ Cut-trim_phobos fuel c (ground arith)

-- The stem without `.tar` and `phobos-`, as the code computes it.
abbrev bare : Text → Text
bare stem = trim_phobos (length stem) (trim_end_matches (codes ".tar") stem)

length-trim_end_matches : (t s : Text) → length (trim_end_matches t s) ≤ length s
unfolding trim_end_matches
length-trim_end_matches t [] = omega arith
length-trim_end_matches t (c ∷ s) = elim (Bool-cases (bytes_eq (c ∷ trim_end_matches t s) t)) [
  | inl e ↦ rw e (omega arith)
  | inr e ↦ rw e (omega (arith, length-trim_end_matches t s))
]

matches_loaded-HasName :
    (name : Text) (path : FilePath) (r : Result LoadError PhobosProfile)
    → matches_loaded name path r ≡ true
    → HasName name (from_option path.file_stem []) r
matches_loaded-HasName name path (ok p) h = eq-SameLetters p.client_name name h
matches_loaded-HasName name path (err e) h =
    let stem = from_option path.file_stem [] in
    elim (Bool-cases (eq_ignore_ascii_case stem name)) [
      | inl same ↦ inr (eq-SameLetters stem name same)
      | inr other ↦ inl (
        bare stem,
        trim_phobos-Cut (length stem) (trim_end_matches (codes ".tar") stem)
            (length-trim_end_matches (codes ".tar") stem),
        eq-SameLetters (bare stem) name (ground (arith, other, h)),
      )
    ]

HasName-matches_loaded :
    (name : Text) (path : FilePath) (r : Result LoadError PhobosProfile)
    → HasName name (from_option path.file_stem []) r
    → matches_loaded name path r ≡ true
HasName-matches_loaded name path (ok p) h = SameLetters-eq p.client_name name h
HasName-matches_loaded name path (err e) (inl (b, c, same)) =
    let stem = from_option path.file_stem [] in
    let it : bare stem ≡ b =
      Cut-trim_phobos (length stem) c (length-trim_end_matches (codes ".tar") stem) in
    let alike : eq_ignore_ascii_case (bare stem) name ≡ true =
      ap (λ x. eq_ignore_ascii_case x name) it ∙ SameLetters-eq b name same in
    rw alike refl
HasName-matches_loaded name path (err e) (inr same) =
    let stem = from_option path.file_stem [] in
    rw (SameLetters-eq stem name same) (or_true (eq_ignore_ascii_case (bare stem) name))
  where
    or_true : (b : Bool) → (b || true) ≡ true
    or_true true = refl
    or_true false = refl

pub is_match-IsNamed :
    (u : CaseTable) (name : Text) (entry : DirEntry)
    → is_match u name entry ≡ true
    → IsNamed u name entry
unfolding is_match
is_match-IsNamed u name entry h = elim (Bool-cases entry.is_file) [
  | inl file ↦ (
    file,
    matches_loaded-HasName name entry.source.path (load_from_file u entry.source) (rw file at h),
  )
  | inr no_file ↦ absurd (cc (rw no_file at h))
]

pub IsNamed-is_match :
    (u : CaseTable) (name : Text) (entry : DirEntry)
    → IsNamed u name entry
    → is_match u name entry ≡ true
unfolding is_match
IsNamed-is_match u name entry (file, h) =
    ap (λ b. b && matches_loaded name entry.source.path (load_from_file u entry.source)) file
    ∙ HasName-matches_loaded name entry.source.path (load_from_file u entry.source) h

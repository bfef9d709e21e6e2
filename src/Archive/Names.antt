-- ===== src/Archive/Names.antt =====
-- The client name is safe as a file name (src/archive.rs).
use phobos_wg_client.Base.{
  ℕ, ◌≤◌, ◌==◌, ◌⊎◌, Bool, true, false, ◌||◌, [], ◌∷◌, map, ◌≡◌, ◌≢◌, refl, arith, if◌then◌else◌,
  All, codes, bytes_eq,
}
use phobos_wg_client.Base.Result.{if_preserves}
use phobos_wg_client.Text.{Text, is_nil, text_eq, is_between, trim_by}
use phobos_wg_client.Text.Trim.{
  StartsOutside, EndsOutside, trim_by-IsTrimmed, trim_by-kept, All-trim_by,
}
use phobos_wg_client.Archive.{is_safe_char, safe_char, is_trimmed_char, sanitize_client_name}

-- A digit, a letter of ASCII, `-`, `_` or `.`.
abbrev pub IsSafe : ℕ → Type 0
IsSafe c =
    ((48 ≤ c) × (c ≤ 57))
    ⊎ (((65 ≤ c) × (c ≤ 90)) ⊎ (((97 ≤ c) × (c ≤ 122)) ⊎ ((c ≡ 45) ⊎ ((c ≡ 95) ⊎ (c ≡ 46)))))

-- `.`, `_` or a blank, which no name has at an end.
abbrev pub is_edge : ℕ → Bool
is_edge c = c == 46 || c == 32 || c == 95

-- Letters, digits, `-`, `_` and `.` only, at least one, no `.`, `_` or blank at an end.
abbrev pub IsSafeName : Text → Type 0
IsSafeName t = All IsSafe t × (t ≢ []) × StartsOutside is_edge t × EndsOutside is_edge t

is_safe_char-IsSafe : (c : ℕ) → is_safe_char c ≡ true → IsSafe c
unfolding is_safe_char is_between
is_safe_char-IsSafe c e = ground arith

IsSafe-is_safe_char : (c : ℕ) → IsSafe c → is_safe_char c ≡ true
unfolding is_safe_char is_between
IsSafe-is_safe_char c h = ground arith

safe_char-IsSafe : (c : ℕ) → IsSafe (safe_char c)
unfolding is_safe_char is_between
safe_char-IsSafe c =
    if_preserves IsSafe (is_safe_char c) c b'_' (is_safe_char-IsSafe c)
      (λ e. is_safe_char-IsSafe b'_' refl)

map-IsSafe : (raw : Text) → All IsSafe (map safe_char raw)
map-IsSafe [] = tt
map-IsSafe (c ∷ raw) = (safe_char-IsSafe c, map-IsSafe raw)

safe_char-kept : (t : Text) → All IsSafe t → map safe_char t ≡ t
safe_char-kept [] h = refl
safe_char-kept (c ∷ t) h = rw (IsSafe-is_safe_char c h.0, safe_char-kept t h.1) refl

nonempty : (t : Text) (b : Bool) → (is_nil t || b) ≡ false → t ≢ []
nonempty [] b h e = ground arith
nonempty (c ∷ t) b h e = ground arith

-- Whatever the given name, the client name consists of ASCII letters, digits, `-`, `_` and `.`, is
-- not empty, and neither starts nor ends with `.`, `_` or a blank.
pub sanitize_client_name-IsSafeName : (raw : Text) → IsSafeName (sanitize_client_name raw)
unfolding sanitize_client_name is_safe_char is_between is_trimmed_char
sanitize_client_name-IsSafeName raw =
    let clean = trim_by is_trimmed_char (map safe_char raw) in
    let (starts, ends) = trim_by-IsTrimmed is_trimmed_char (map safe_char raw) in
    if_preserves IsSafeName (is_nil clean || text_eq clean (codes "..")) (codes "phobos") clean
      (λ e. (map-IsSafe (codes "phobos"), λ e. ground arith, refl, refl))
      (λ e. (
        All-trim_by IsSafe is_trimmed_char (map safe_char raw) (map-IsSafe raw),
        nonempty clean (text_eq clean (codes "..")) e,
        starts,
        ends,
      ))

two_dots-false : (t : Text) → StartsOutside is_edge t → text_eq t (codes "..") ≡ false
unfolding bytes_eq
two_dots-false [] h = refl
two_dots-false (c ∷ t) h = ground arith

kept_branch :
    (t : Text)
    → t ≢ []
    → text_eq t (codes "..") ≡ false
    → (if is_nil t || text_eq t (codes "..") then codes "phobos" else t) ≡ t
kept_branch [] n e = absurd (n refl)
kept_branch (c ∷ t) n e = rw e refl

-- A safe name is kept as it is, so cleaning a client name a second time changes nothing.
pub sanitize_client_name-kept : (t : Text) → IsSafeName t → sanitize_client_name t ≡ t
unfolding sanitize_client_name is_trimmed_char
sanitize_client_name-kept t (safe, some_char, starts, ends) =
    rw (safe_char-kept t safe, trim_by-kept is_trimmed_char t starts ends)
      (kept_branch t some_char (two_dots-false t starts))

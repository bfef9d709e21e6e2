-- ===== src/Conf/KeyLines.antt =====
-- The lines that the rewriting of a configuration writes (src/archive.rs), read back.
use phobos_wg_client.Base.{
  ℕ, Bool, true, false, [], ◌∷◌, ◌++◌, some, ◌≡◌, ◌≢◌, refl, sym, subst, ◌∙◌, arith, inl, inr,
  if◌then◌else◌, ltb, ◌==◌, ==_iff, Bool-cases, codes,
}
use phobos_wg_client.Base.Result.{if_preserves}
use phobos_wg_client.Text.{
  Text, CaseTable, trim, trim_by, trim_start_by, trim_end_by, is_whitespace, is_between,
  starts_with, to_lowercase, ascii_lower, replace,
}
use phobos_wg_client.Text.Trim.{lead, lead-exists, trim_by-lead, trim_by-word}
use phobos_wg_client.Text.Replace.{true-false, lead-replace, starts_with-append}
use phobos_wg_client.Text.Lines.{is_header}
use phobos_wg_client.Text.Number.{show}
use phobos_wg_client.Conf.{mtu_line, endpoint_line, replace_routes}

-- The trimmed line starts with `key`, in lower case letters.
abbrev pub is_key : CaseTable → Text → Text → Bool
is_key u key line = starts_with (to_lowercase u (trim line)) key

pub mtu_line-header : is_header (trim mtu_line) ≡ false
unfolding is_header trim trim_by trim_start_by trim_end_by is_whitespace is_between starts_with
mtu_line-header = refl

pub mtu_line-key : (u : CaseTable) → is_key u (codes "mtu") mtu_line ≡ true
unfolding trim trim_by trim_start_by trim_end_by is_whitespace is_between starts_with to_lowercase
    ascii_lower
mtu_line-key u = refl

pub mtu_line-endpoint : (u : CaseTable) → is_key u (codes "endpoint") mtu_line ≡ false
unfolding trim trim_by trim_start_by trim_end_by is_whitespace is_between starts_with to_lowercase
    ascii_lower
mtu_line-endpoint u = refl

abbrev host : ℕ → Text
host port = codes " = 127.0.0.1:" ++ show port

endpoint_line-trim :
    (port : ℕ)
    → trim (endpoint_line port) ≡ codes "Endpoint" ++ trim_end_by is_whitespace (host port)
unfolding trim is_whitespace is_between
endpoint_line-trim port =
    trim_by-word is_whitespace b'E' (codes "ndpoint") (host port) refl
      (refl, (refl, (refl, (refl, (refl, (refl, (refl, tt)))))))

pub endpoint_line-header : (port : ℕ) → is_header (trim (endpoint_line port)) ≡ false
unfolding is_header starts_with
endpoint_line-header port = rw (endpoint_line-trim port) refl

lower_endpoint :
    (u : CaseTable) (s : Text)
    → to_lowercase u (codes "Endpoint" ++ s) ≡ codes "endpoint" ++ to_lowercase u s
unfolding to_lowercase ascii_lower is_between
lower_endpoint u s = refl

pub endpoint_line-key :
    (u : CaseTable) (port : ℕ) → is_key u (codes "endpoint") (endpoint_line port) ≡ true
endpoint_line-key u port =
    rw (endpoint_line-trim port, lower_endpoint u (trim_end_by is_whitespace (host port)))
      (starts_with-append (codes "endpoint")
        (to_lowercase u (trim_end_by is_whitespace (host port))))

pub endpoint_line-mtu :
    (u : CaseTable) (port : ℕ) → is_key u (codes "mtu") (endpoint_line port) ≡ false
unfolding starts_with
endpoint_line-mtu u port =
    rw (endpoint_line-trim port, lower_endpoint u (trim_end_by is_whitespace (host port))) refl

-- Unicode maps no letter to no letters.
abbrev pub IsCaseTable : CaseTable → Type 0
IsCaseTable u = (c : ℕ) → u.lower c ≢ []

replace_routes-lead :
    (line : Text) (c : ℕ)
    → lead is_whitespace line ≡ some c
    → (c == b'0') ≡ false
    → (c == b':') ≡ false
    → lead is_whitespace (replace_routes line) ≡ some c
unfolding replace_routes is_whitespace is_between
replace_routes-lead line c h n m =
    lead-replace is_whitespace b':' (codes ":/0") (codes "::/1, 8000::/1")
      (replace (codes "0.0.0.0/0") (codes "0.0.0.0/1, 128.0.0.0/1") line) c refl m
      (lead-replace is_whitespace b'0' (codes ".0.0.0/0") (codes "0.0.0.0/1, 128.0.0.0/1") line c
        refl n h)

-- The characters that `c` becomes in lower case.
abbrev lowered : CaseTable → ℕ → Text
lowered u c = if ltb c 128 then ascii_lower c ∷ [] else u.lower c

lowered-nonempty : (u : CaseTable) (c : ℕ) → IsCaseTable u → lowered u c ≢ []
lowered-nonempty u c t =
    if_preserves (λ l. l ≢ []) (ltb c 128) (ascii_lower c ∷ []) (u.lower c) (λ e l. ground arith)
      (λ e. t c)

-- The start of a text in lower case stands in what its first character becomes.
starts_with-lowered :
    (l s t : Text) (d e : ℕ) (pre post : Text)
    → l ≢ []
    → starts_with (l ++ s) (d ∷ pre) ≡ true
    → (d == e) ≡ false
    → starts_with (l ++ t) (e ∷ post) ≡ false
unfolding starts_with
starts_with-lowered [] s t d e pre post n h k = absurd (n refl)
starts_with-lowered (c ∷ l) s t d e pre post n h k = ground arith

-- A line whose trimmed text starts with `c`.
key_line-other :
    (u : CaseTable) (line r s : Text) (c d e : ℕ) (pre post : Text)
    → IsCaseTable u
    → trim line ≡ c ∷ r
    → starts_with (lowered u c ++ s) (d ∷ pre) ≡ true
    → (d == e) ≡ false
    → is_key u (e ∷ post) line ≡ false
unfolding to_lowercase
key_line-other u line r s c d e pre post t h k n = rw h (
    starts_with-lowered (lowered u c) s (to_lowercase u r) d e pre post (lowered-nonempty u c t) k
      n)

not_character :
    (u : CaseTable) (s : Text) (c x : ℕ) (pre : Text)
    → starts_with (lowered u c ++ s) pre ≡ true
    → starts_with (lowered u x ++ s) pre ≡ false
    → (c == x) ≡ false
not_character u s c x pre h k = elim (Bool-cases (c == x)) [
  | inl e ↦ absurd (
      true-false
        (sym (subst (λ y. starts_with (lowered u y ++ s) pre ≡ true) ((==_iff c x).0 e) h) ∙ k))
  | inr e ↦ e
]

header-starts : (c : ℕ) (r : Text) → (c == b'[') ≡ false → is_header (c ∷ r) ≡ false
unfolding is_header starts_with
header-starts c r h = rw h refl

-- What is left of a line of routes is neither a header nor an endpoint nor an MTU.
abbrev pub IsPlain : CaseTable → Text → Type 0
IsPlain u l =
    (is_header (trim l) ≡ false)
    × (is_key u (codes "mtu") l ≡ false)
    × (is_key u (codes "endpoint") l ≡ false)

routes_from :
    (u : CaseTable) (line r : Text) (c : ℕ)
    → IsCaseTable u
    → trim line ≡ c ∷ r
    → lead is_whitespace line ≡ some c
    → is_key u (codes "allowedips") line ≡ true
    → IsPlain u (replace_routes line)
unfolding trim to_lowercase ascii_lower is_between starts_with
routes_from u line r c t e l h =
    let k : starts_with (lowered u c ++ to_lowercase u r) (codes "allowedips") ≡ true =
      subst (λ x. starts_with (to_lowercase u x) (codes "allowedips") ≡ true) e h in
    let other : (x : ℕ)
        → starts_with (lowered u x ++ to_lowercase u r) (codes "allowedips") ≡ false
        → (c == x) ≡ false =
      λ x. not_character u (to_lowercase u r) c x (codes "allowedips") k in
    let (r', e') =
      trim_by-lead is_whitespace (replace_routes line) c
        (replace_routes-lead line c l (other b'0' refl) (other b':' refl)) in
    (
      rw e' (header-starts c r' (other b'[' refl)),
      key_line-other u (replace_routes line) r' (to_lowercase u r) c b'a' b'm' (codes "llowedips")
          (codes "tu") t e' k refl,
      key_line-other u (replace_routes line) r' (to_lowercase u r) c b'a' b'e' (codes "llowedips")
          (codes "ndpoint") t e' k refl,
    )

empty_key : (u : CaseTable) → starts_with (to_lowercase u []) (codes "allowedips") ≢ true
unfolding starts_with to_lowercase
empty_key u e = true-false (sym e)

pub replace_routes-IsPlain :
    (u : CaseTable) (line : Text)
    → IsCaseTable u
    → is_key u (codes "allowedips") line ≡ true
    → IsPlain u (replace_routes line)
unfolding trim
replace_routes-IsPlain u line t h = elim (lead-exists is_whitespace line) [
  | inl e ↦
      absurd
        (empty_key u (subst (λ x. starts_with (to_lowercase u x) (codes "allowedips") ≡ true) e h))
  | inr (c, l, w) ↦
      let (r, e) = trim_by-lead is_whitespace line c l in routes_from u line r c t e l h
]

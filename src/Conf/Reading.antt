-- ===== src/Conf/Reading.antt =====
-- A reader of the rewritten configuration (src/archive.rs), which knows its section and what it has
-- seen of it, and what the rewriter's own lines are to it.
use phobos_wg_client.Base.{
  ℕ, Bool, true, false, not, ◌&&◌, ◌||◌, List, [], ◌∷◌, ◌≡◌, refl, sym, ◌∙◌, if◌then◌else◌, codes,
}
use phobos_wg_client.Text.{Text, CaseTable, trim}
use phobos_wg_client.Text.Replace.{true-false}
use phobos_wg_client.Text.Lines.{is_header, section_name}
use phobos_wg_client.Conf.KeyLines.{
  is_key, mtu_line-header, mtu_line-key, mtu_line-endpoint, endpoint_line-header, endpoint_line-key,
  endpoint_line-mtu,
}
use phobos_wg_client.Conf.{mtu_line, endpoint_line, Rewriter, enter_header}

-- The section that ends has its MTU, or its endpoint.
abbrev pub IsComplete : Rewriter → Type 0
IsComplete t =
    (t.in_interface ≡ true → t.mtu_seen ≡ true) × (t.in_peer ≡ true → t.endpoint_seen ≡ true)

-- A header ends a complete section; an MTU is 1280; an endpoint is the relay's.
abbrev pub Fits : CaseTable → ℕ → Rewriter → Text → Type 0
Fits u port t l =
    (is_header (trim l) ≡ true → IsComplete t)
    × (is_header (trim l) ≡ false
        → t.in_interface ≡ true
        → is_key u (codes "mtu") l ≡ true
        → l ≡ mtu_line)
    × (is_header (trim l) ≡ false
        → t.in_peer ≡ true
        → is_key u (codes "endpoint") l ≡ true
        → l ≡ endpoint_line port)

-- The reader behind a line.
abbrev pub next : CaseTable → Rewriter → Text → Rewriter
next u t l = if is_header (trim l) then enter_header (section_name (trim l)) else record t {
  mtu_seen = t.mtu_seen || is_key u (codes "mtu") l;
  endpoint_seen = t.endpoint_seen || is_key u (codes "endpoint") l;
}

-- Every line fits, and so does the end of the file.
abbrev pub IsLoopback : CaseTable → ℕ → Rewriter → List Text → Type 0
IsLoopback u port t [] = IsComplete t
IsLoopback u port t (l ∷ ls) = Fits u port t l × IsLoopback u port (next u t l) ls

-- The reader stands where the rewriter stands.
abbrev pub Covers : Rewriter → Rewriter → Type 0
Covers s t =
    (t.in_interface ≡ s.in_interface)
    × (t.in_peer ≡ s.in_peer)
    × (s.in_interface ≡ true → s.mtu_seen ≡ true → t.mtu_seen ≡ true)
    × (s.in_peer ≡ true → s.endpoint_seen ≡ true → t.endpoint_seen ≡ true)

pub or_keeps : (a b : Bool) → a ≡ true → (a || b) ≡ true
or_keeps a b h = rw h refl

pub or_right : (a b : Bool) → b ≡ true → (a || b) ≡ true
or_right true b h = refl
or_right false b h = h

pub and_true : {a b : Bool} → a ≡ true → b ≡ true → (a && b) ≡ true
and_true h k = rw (h, k) refl

pub and_right : (a b : Bool) → (a && b) ≡ true → b ≡ true
and_right true b h = h
and_right false b h = absurd (true-false (sym h))

pub and_not : (a m : Bool) → (a && not m) ≡ false → a ≡ true → m ≡ true
and_not true true h i = refl
and_not true false h i = absurd (true-false h)
and_not false m h i = absurd (true-false (sym i))

module _ (u : CaseTable) (port : ℕ) where
  pub next-plain :
      (t : Rewriter) (l : Text)
      → is_header (trim l) ≡ false
      → next u t l ≡ record t {
        mtu_seen = t.mtu_seen || is_key u (codes "mtu") l;
        endpoint_seen = t.endpoint_seen || is_key u (codes "endpoint") l;
      }
  next-plain t l h = rw h refl

  -- Behind a line that is no header the reader stands where the rewriter stands.
  pub next-Covers :
      (s t : Rewriter) (l : Text) → is_header (trim l) ≡ false → Covers s t → Covers s (next u t l)
  next-Covers s t l h (i, p, m, e) = rw (next-plain t l h) (
    i,
    p,
    λ a b. or_keeps t.mtu_seen (is_key u (codes "mtu") l) (m a b),
    λ a b. or_keeps t.endpoint_seen (is_key u (codes "endpoint") l) (e a b),
  )

  pub mtu_line-Fits : (t : Rewriter) → Fits u port t mtu_line
  mtu_line-Fits t = (
    λ h. absurd (true-false (sym h ∙ mtu_line-header)),
    λ h i k. refl,
    λ h i k. absurd (true-false (sym k ∙ mtu_line-endpoint u)),
  )

  pub mtu_line-Covers :
      (s t : Rewriter) → Covers s t → Covers (record s { mtu_seen = true }) (next u t mtu_line)
  mtu_line-Covers s t (i, p, m, e) = rw (next-plain t mtu_line mtu_line-header) (
    i,
    p,
    λ a b. or_right t.mtu_seen (is_key u (codes "mtu") mtu_line) (mtu_line-key u),
    λ a b. or_keeps t.endpoint_seen (is_key u (codes "endpoint") mtu_line) (e a b),
  )

  pub endpoint_line-Fits : (t : Rewriter) → Fits u port t (endpoint_line port)
  endpoint_line-Fits t = (
    λ h. absurd (true-false (sym h ∙ endpoint_line-header port)),
    λ h i k. absurd (true-false (sym k ∙ endpoint_line-mtu u port)),
    λ h i k. refl,
  )

  pub endpoint_line-Covers :
      (s t : Rewriter)
      → Covers s t
      → Covers (record s { endpoint_seen = true }) (next u t (endpoint_line port))
  endpoint_line-Covers s t (i, p, m, e) =
      rw (next-plain t (endpoint_line port) (endpoint_line-header port)) (
        i,
        p,
        λ a b. or_keeps t.mtu_seen (is_key u (codes "mtu") (endpoint_line port)) (m a b),
        λ a b.
            or_right t.endpoint_seen (is_key u (codes "endpoint") (endpoint_line port))
              (endpoint_line-key u port),
      )

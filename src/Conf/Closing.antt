-- ===== src/Conf/Closing.antt =====
-- The lines that are pushed at the end of a section (src/archive.rs) complete it.
use phobos_wg_client.Base.{
  ℕ, true, not, ◌&&◌, List, [], ◌∷◌, ◌++◌, ◌≡◌, sym, subst, ◌∙◌, inl, inr, if◌then◌else◌,
  Bool-cases, codes, append_assoc,
}
use phobos_wg_client.Text.{Text, CaseTable}
use phobos_wg_client.Conf.KeyLines.{
  is_key, mtu_line-header, mtu_line-key, endpoint_line-header, endpoint_line-key,
}
use phobos_wg_client.Conf.{mtu_line, endpoint_line, Rewriter, close_section}
use phobos_wg_client.Conf.Reading.{
  IsComplete, next, IsLoopback, Covers, or_keeps, or_right, and_not, next-plain, next-Covers,
  mtu_line-Fits, endpoint_line-Fits,
}

module _ (u : CaseTable) (port : ℕ) where
  push_mtu :
      (s t : Rewriter) (out : List Text)
      → Covers s t
      → ((t' : Rewriter)
          → Covers s t'
          → (t'.in_interface ≡ true → t'.mtu_seen ≡ true)
          → IsLoopback u port t' out)
      → IsLoopback u port t
          ((if s.in_interface && not s.mtu_seen then mtu_line ∷ [] else []) ++ out)
  push_mtu s t out c k = elim (Bool-cases (s.in_interface && not s.mtu_seen)) [
    | inl b ↦ rw b (
      mtu_line-Fits u port t,
      k (next u t mtu_line) (next-Covers u port s t mtu_line mtu_line-header c) (λ i.
          rw (next-plain u port t mtu_line mtu_line-header)
            (or_right t.mtu_seen (is_key u (codes "mtu") mtu_line) (mtu_line-key u))),
    )
    | inr b ↦ rw b (
        k t c (λ i.
          let i : s.in_interface ≡ true = sym c.0 ∙ i in
          c.2 i (and_not s.in_interface s.mtu_seen b i)))
  ]

  push_endpoint :
      (s t : Rewriter) (out : List Text)
      → Covers s t
      → (t.in_interface ≡ true → t.mtu_seen ≡ true)
      → ((t' : Rewriter) → IsComplete t' → IsLoopback u port t' out)
      → IsLoopback u port t
          ((if s.in_peer && not s.endpoint_seen then endpoint_line port ∷ [] else []) ++ out)
  push_endpoint s t out c m k = elim (Bool-cases (s.in_peer && not s.endpoint_seen)) [
    | inl b ↦ rw b (
      endpoint_line-Fits u port t,
      k (next u t (endpoint_line port)) (
          rw (next-plain u port t (endpoint_line port) (endpoint_line-header port)) (
            λ i. or_keeps t.mtu_seen (is_key u (codes "mtu") (endpoint_line port)) (m i),
            λ i.
                or_right t.endpoint_seen (is_key u (codes "endpoint") (endpoint_line port))
                  (endpoint_line-key u port),
          )),
    )
    | inr b ↦ rw b (
        k t (
          m,
          λ i.
              let i : s.in_peer ≡ true = sym c.1 ∙ i in
              c.3 i (and_not s.in_peer s.endpoint_seen b i),
        ))
  ]

  -- A section that ends, its missing lines pushed: what follows starts at a complete section.
  pub close_section-IsLoopback :
      (s t : Rewriter) (out : List Text)
      → Covers s t
      → ((t' : Rewriter) → IsComplete t' → IsLoopback u port t' out)
      → IsLoopback u port t (close_section s port ++ out)
  unfolding close_section
  close_section-IsLoopback s t out c k =
      subst (IsLoopback u port t)
        (sym (
          append_assoc (if s.in_interface && not s.mtu_seen then mtu_line ∷ [] else [])
            (if s.in_peer && not s.endpoint_seen then endpoint_line port ∷ [] else []) out))
        (push_mtu s t
          ((if s.in_peer && not s.endpoint_seen then endpoint_line port ∷ [] else []) ++ out) c
          (λ t' c' m. push_endpoint s t' out c' m k))

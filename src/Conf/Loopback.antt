-- ===== src/Conf/Loopback.antt =====
-- What the rewritten configuration says (src/archive.rs), read line by line as a section at a time.
use phobos_wg_client.Base.{ℕ, List, ◌++◌}
use phobos_wg_client.Text.{Text, CaseTable}
use phobos_wg_client.Conf.{Rewriter}
use phobos_wg_client.Conf.Reading.{IsLoopback, Covers}

module _ (u : CaseTable) (port : ℕ) where
  -- From reader `t`, the lines of a rewriter's step and then `out` are read, where `out` is read
  -- from every reader that stands where the rewriter then stands.
  abbrev Carries : Rewriter → List Text → Rewriter × List Text → Type 0
  Carries t out (s, ls) =
      ((t' : Rewriter) → Covers s t' → IsLoopback u port t' out) → IsLoopback u port t (ls ++ out)

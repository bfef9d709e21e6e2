-- ===== src/Gui/Journal.antt =====
-- The journal's tab (src/gui.rs) and the service's log.
use phobos_wg_client.Base.{
  ◌-◌, ◌≤◌, true, List, [], ◌∷◌, ◌++◌, ◌≡◌, refl, sym, ap, ◌∙◌, arith, leb, ◌==◌, length, drop,
  length-append, length-drop, append-nil, subst,
}
use phobos_wg_client.Base.Result.{if_preserves}
use phobos_wg_client.Text.{Text}
use phobos_wg_client.Service.{Entry, Line, TunnelService, drained, log}
use phobos_wg_client.Gui.{AppState, update_logs}

no_more : (l m : List Entry) → (length (l ++ m) == length l) ≡ true → m ≡ []
no_more l [] e = refl
no_more l (x ∷ m) e = absurd (ground (arith, length-append l (x ∷ m)))

-- Where the log has only grown since the journal was written, as it does but for a drained or cleared
-- one, the journal has the whole log behind `update_logs`, and its count is right again.
pub update_logs-grown :
    (s : TunnelService) (a : AppState) (more : List Entry)
    → a.last_log_count ≡ length a.log_text
    → s.logs ≡ a.log_text ++ more
    → ((update_logs s a).log_text ≡ s.logs)
      × ((update_logs s a).last_log_count ≡ length (update_logs s a).log_text)
unfolding update_logs
update_logs-grown s a more c g =
    if_preserves (λ x. (x.log_text ≡ s.logs) × (x.last_log_count ≡ length x.log_text))
      (length s.logs == a.last_log_count) a
      (record a { last_log_count = length s.logs; log_text = s.logs })
      (λ e.
        let m = no_more a.log_text more (
          subst (λ l. (length l == length a.log_text) ≡ true) g
            (subst (λ n. (length s.logs == n) ≡ true) c e)) in
        (sym (g ∙ ap (λ m. a.log_text ++ m) m ∙ append-nil a.log_text), c))
      (λ e. (refl, refl))

drained-full : (l : List Entry) → 2000 ≤ length l → length (drained l) ≡ 1500
unfolding drained
drained-full l h =
    if_preserves (λ x. length x ≡ 1500) (leb 2000 (length l)) (drop (length l - 1500) l) l
      (λ e. omega (arith, length-drop (length l - 1500) l)) (λ e. absurd (ground arith))

-- The journal that shows 1501 lines is not written again where the log was filled since, and drained
-- by a `log` behind which it has 1501 lines again.
pub update_logs-stale :
    (time : Text) (line : Line) (s : TunnelService) (a : AppState)
    → 2000 ≤ length s.logs
    → a.last_log_count ≡ 1501
    → update_logs (log time line s) a ≡ a
unfolding update_logs log
update_logs-stale time line s a h c =
    if_preserves (λ x. x ≡ a) (length (log time line s).logs == a.last_log_count) a
      (record a {
        last_log_count = length (log time line s).logs;
        log_text = (log time line s).logs;
      })
      (λ e. refl)
      (λ e.
        let new : List Entry = record { time = time; line = line } ∷ [] in
        absurd (ground (arith, length-append (drained s.logs) new, drained-full s.logs h)))

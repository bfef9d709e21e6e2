-- ===== src/Service/Logging.antt =====
-- The log of the service stays short (src/tunnel_service.rs).
use phobos_wg_client.Base.{
  ◌-◌, ◌≤◌, List, [], ◌∷◌, ◌++◌, ◌≡◌, refl, arith, leb, length, drop, take, length-append,
  length-drop, take-append-drop, sym, ap, ◌∙◌, append_assoc,
}
use phobos_wg_client.Base.Result.{if_preserves}
use phobos_wg_client.Service.{Entry, Line, TunnelService, drained, log}
use phobos_wg_client.Text.{Text}

drained_bound : (logs : List Entry) → length (drained logs) ≤ 1999
unfolding drained
drained_bound logs =
    if_preserves (λ l. length l ≤ 1999) (leb 2000 (length logs)) (drop (length logs - 1500) logs)
      logs (λ e. ground (arith, length-drop (length logs - 1500) logs)) (λ e. ground arith)

-- The lines that are dropped, in front.
dropped : (logs : List Entry) → (old : List Entry) × (logs ≡ old ++ drained logs)
unfolding drained
dropped logs =
    if_preserves (λ l. (old : List Entry) × (logs ≡ old ++ l)) (leb 2000 (length logs))
      (drop (length logs - 1500) logs) logs
      (λ e. (take (length logs - 1500) logs, sym (take-append-drop (length logs - 1500) logs)))
      (λ e. ([], refl))

drained-short : (logs : List Entry) → length logs ≤ 1999 → drained logs ≡ logs
unfolding drained
drained-short logs h =
    if_preserves (λ l. l ≡ logs) (leb 2000 (length logs)) (drop (length logs - 1500) logs) logs
      (λ e. absurd (ground arith)) (λ e. refl)

-- However long the log has become, it has at most 2000 lines behind `log`: the new line comes last,
-- only lines at the front are lost, and none is where there were fewer than 2000.
pub log_lem :
    (time : Text) (line : Line) (s : TunnelService)
    → (length (log time line s).logs ≤ 2000)
      × ((old : List Entry) × (s.logs ++ record { time = time; line = line } ∷ []
            ≡ old ++ (log time line s).logs))
      × (length s.logs ≤ 1999
          → (log time line s).logs ≡ s.logs ++ record { time = time; line = line } ∷ [])
unfolding log
log_lem time line s =
    let new : List Entry = record { time = time; line = line } ∷ [] in
    let (old, e) = dropped s.logs in
    (
      omega (arith, length-append (drained s.logs) new, drained_bound s.logs),
      (old, ap (λ l. l ++ new) e ∙ append_assoc old (drained s.logs) new),
      λ h. ap (λ l. l ++ new) (drained-short s.logs h),
    )

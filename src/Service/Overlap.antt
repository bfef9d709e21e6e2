-- ===== src/Service/Overlap.antt =====
-- What `start` does beside a session that has not ended (src/tunnel_service.rs).
use phobos_wg_client.Base.{ℕ, true, false, List, [], ◌∷◌, none, ◌≡◌, refl}
use phobos_wg_client.Base.Net.{SocketAddr}
use phobos_wg_client.Base.Result.{err}
use phobos_wg_client.Archive.{PhobosProfile}
use phobos_wg_client.Text.{Text, CaseTable}
use phobos_wg_client.Tunnel.Setup.{Noise}
use phobos_wg_client.WgConfig.{Decode, WireGuardConfig}
use phobos_wg_client.Service.{is_active, begin, log, log_fn}
use phobos_wg_client.Service.Stages.{parsing, locating, unnaming, finished, Answers, fail}
use phobos_wg_client.Service.Session.{proceed, advance}
use phobos_wg_client.Service.Threads.{
  idle, waiting, Thread, State, start_called, slept, session, spawn, start, poll, act, act_at, step,
  run,
}

module _ {T : Type 0} (u : CaseTable) (decode : Decode) (n : Noise T) where
  -- Where a session has written its last status and not yet cleared the profile's name, and `start`
  -- is called then, the new session is active without a name once the old one has ended.
  pub name_lost :
      (time : Text) (p q : PhobosProfile) (a : Answers) (x : State T) (ths : List (Thread T))
      → x.window ≡ idle
      → is_active x.service ≡ false
      → x.threads ≡ record { profile = q; stage = unnaming } ∷ ths
      → let y = (run u decode n x (start_called time p ∷ session 1 (proceed a 0) ∷ [])).0 in
        (is_active y.service ≡ true)
        × (y.service.active_profile_name ≡ none)
        × (y.threads
            ≡ record { profile = p; stage = parsing }
              ∷ record { profile = q; stage = finished }
              ∷ ths)
  unfolding run step start spawn begin log is_active act_at act advance
  name_lost time p q a x ths w i t = simp (w, i, t) (refl, refl, refl)

  -- Where the sleeps of `start` end and the old session has not, `start` clears the stop signal and
  -- begins the new session beside the old one, which goes on: if that then fails in its set-up, as
  -- where its socket is refused, the status is inactive while the new session is alive, so the
  -- window's next `start` does not stop it.
  pub start-outruns :
      (time time2 : Text) (p p2 q : PhobosProfile) (a : Answers) (x : State T)
      (ths : List (Thread T)) (wg : WireGuardConfig) (addr : SocketAddr) (ip : ℕ) (e : Text)
      → a.sockets.bind ≡ err e
      → let old : Thread T = record { profile = q; stage = unnaming } in
        let new : Thread T = record { profile = p; stage = parsing } in
        let before : State T = record x {
          window = waiting p 0;
          threads = record { profile = q; stage = locating wg addr ip } ∷ ths;
        } in
        let y = (run u decode n before (slept time ∷ session 1 (proceed a 0) ∷ [])).0 in
        let z = (run u decode n y (start_called time2 p2 ∷ [])).0 in
        (is_active y.service ≡ false)
        × (y.service.stop_signal ≡ false)
        × (y.threads ≡ new ∷ old ∷ ths)
        × (z.service.stop_signal ≡ false)
        × (z.threads ≡ record { profile = p2; stage = parsing } ∷ new ∷ old ∷ ths)
  unfolding run step start poll spawn begin log log_fn is_active act_at act advance fail
  start-outruns time time2 p p2 q a x ths wg addr ip e b = simp b (refl, refl, refl, refl, refl)

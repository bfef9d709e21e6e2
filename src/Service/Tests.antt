-- ===== src/Service/Tests.antt =====
-- Runs of the service (src/tunnel_service.rs), and the theorems at concrete inputs.
use phobos_wg_client.Base.{◌≤◌, true, false, List, [], ◌∷◌, none, ◌≡◌, refl, arith, codes, Bytes}
use phobos_wg_client.Text.Number.{show, show_from}
use phobos_wg_client.Tunnel.Samples.{noise}
use phobos_wg_client.Service.{current_time_str, is_active}
use phobos_wg_client.Service.Stages.{parsing, locating, unnaming, finished}
use phobos_wg_client.Service.Session.{proceed, advance}
use phobos_wg_client.Service.Threads.{
  waiting, Thread, State, start_called, slept, session, step, run, spawn, start,
}
use phobos_wg_client.Service.Steady.{Steady}
use phobos_wg_client.Service.Steady.Runs.{Throughout, IsRefining, run-Steady}
use phobos_wg_client.Service.Stopping.{drive, drive-finished}
use phobos_wg_client.Service.Stopping.Setup.{remaining}
use phobos_wg_client.Service.Routing.{IsTidy, advance-IsTidy}
use phobos_wg_client.Service.Overlap.{name_lost, start-outruns}
use phobos_wg_client.Service.Samples.{
  ascii, no_decode, profile, server, answers, wg, running, stopped_service, initial_state, events,
  willing-IsFaithful, willing-IsDeleting,
}

times : current_time_str 9 5 30 ≡ codes "09:05:30"
unfolding current_time_str show show_from
times = refl

run-Steady_example :
    (let y = (run ascii no_decode noise initial_state events).0 in
      Steady y.service.status y.threads)
    × Throughout ascii no_decode noise (IsRefining ascii no_decode noise) initial_state events
unfolding step start spawn is_active
run-Steady_example = run-Steady ascii no_decode noise initial_state events refl (tt, (tt, (tt, tt)))

drive-finished_example :
    (remaining running ≤ 12)
    × (let e =
          drive ascii no_decode noise
            (λ i. answers)
            (remaining running)
            stopped_service
            []
            profile
            running in
        (e.stage ≡ finished)
        × (is_active e.service ≡ false)
        × (e.service.active_profile_name ≡ none))
drive-finished_example =
    drive-finished ascii no_decode noise (λ i. answers) stopped_service [] profile running refl refl
      (omega arith)

advance-IsTidy_example :
    IsTidy running (advance ascii no_decode noise profile answers 0 stopped_service [] running)
advance-IsTidy_example =
    advance-IsTidy ascii no_decode noise profile answers 0 stopped_service [] running
      willing-IsFaithful willing-IsDeleting refl

abbrev ending : State (List Bytes)
ending = record initial_state { threads = record { profile = profile; stage = unnaming } ∷ [] }

name_lost_example :
    let y =
      (run ascii no_decode noise ending
        (start_called [] profile ∷ session 1 (proceed answers 0) ∷ [])).0 in
    (is_active y.service ≡ true)
    × (y.service.active_profile_name ≡ none)
    × (y.threads
        ≡ record { profile = profile; stage = parsing }
          ∷ record { profile = profile; stage = finished }
          ∷ [])
unfolding is_active
name_lost_example =
    name_lost ascii no_decode noise [] profile profile answers ending [] refl refl refl

start-outruns_example :
    let old : Thread (List Bytes) = record { profile = profile; stage = unnaming } in
    let fresh : Thread (List Bytes) = record { profile = profile; stage = parsing } in
    let before : State (List Bytes) = record initial_state {
      window = waiting profile 0;
      threads = record { profile = profile; stage = locating wg server 0x01020304 } ∷ [];
    } in
    let y = (run ascii no_decode noise before (slept [] ∷ session 1 (proceed answers 0) ∷ [])).0 in
    let z = (run ascii no_decode noise y (start_called [] profile ∷ [])).0 in
    (is_active y.service ≡ false)
    × (y.service.stop_signal ≡ false)
    × (y.threads ≡ fresh ∷ old ∷ [])
    × (z.service.stop_signal ≡ false)
    × (z.threads ≡ record { profile = profile; stage = parsing } ∷ fresh ∷ old ∷ [])
start-outruns_example =
    start-outruns ascii no_decode noise [] [] profile profile profile answers initial_state [] wg
      server 0x01020304 (codes "refused") refl

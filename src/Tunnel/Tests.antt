-- ===== src/Tunnel/Tests.antt =====
-- The theorems about the tunnel's workers (src/tunnel.rs) at concrete inputs.
use phobos_wg_client.Base.{
  ◌+◌, ◌%◌, ◌^◌, true, false, none, List, [], ◌∷◌, some, ◌≡◌, refl, arith, length, Bytes, IsBytes,
}
use phobos_wg_client.Obfuscator.Samples.{packet, packet_known, all_bytes-IsBytes}
use phobos_wg_client.Tunnel.{
  TunnResult, done, write_to_network, write_to_tunnel, Engine, payload, Shared, Output, to_server,
  plain_buf, tun_round, udp_round,
}
use phobos_wg_client.Obfuscator.{encode, xor_prefix, is_partial, pad}
use phobos_wg_client.Crc8.{xor_data}
use phobos_wg_client.Stun.{stun_wrap_data_indication}
use phobos_wg_client.Relay.{mask}
use phobos_wg_client.Tunnel.Samples.{config, world, world-IsWorld, queue, shared, noise}
use phobos_wg_client.Tunnel.Console.{Event, main_step, worker_step, opened, stop, run}
use phobos_wg_client.Tunnel.Stopped.{EndsWith, run-EndsWith}
use phobos_wg_client.Tunnel.Workers.{tun_recv, udp_recv, tick}
use phobos_wg_client.Wintun.{VpnRouteManager}
use phobos_wg_client.Wintun.Device.{WintunDevice}
use phobos_wg_client.Service.Samples.{willing}
use phobos_wg_client.Tunnel.Draining.{Flushes, udp_round-Flushes, at_done, for_network, for_tunnel}
use phobos_wg_client.Tunnel.Rounds.{
  IsEngineInput, bytes_behind, payload-plain_buf, plain_buf-IsEngineInput, tun_round-plain_buf,
}

tun_round-plain_buf_example :
    (d : Bytes) × (tun_round queue config world shared packet
      ≡ (record shared { bytes_sent = bytes_behind 0 (some (length d)) }, to_server d ∷ []))
    × (plain_buf config d ≡ some packet)
tun_round-plain_buf_example =
    tun_round-plain_buf queue config world shared packet packet (packet ∷ []) world-IsWorld refl
      packet_known (ground arith)

-- An engine that holds two packets behind any datagram, one for each side.
abbrev answer : List TunnResult → List TunnResult × TunnResult
answer [] = ([], done)
answer (r ∷ rs) = (rs, r)

abbrev holding : Engine (List TunnResult)
holding = record {
  encapsulate = λ q p. (q, done);
  decapsulate = λ q p. answer q;
  update_timers = λ q. (q, done);
}

abbrev held : List TunnResult
held = write_to_network packet ∷ write_to_tunnel packet ∷ []

abbrev holder : Shared (List TunnResult)
holder = record { tunn = held; bytes_sent = 0; bytes_recv = 7 }

abbrev arrived : Bytes
arrived = payload config world packet

arrived-IsBytes : IsBytes arrived
unfolding payload mask stun_wrap_data_indication encode xor_prefix xor_data is_partial pad
arrived-IsBytes = all_bytes-IsBytes arrived refl

plain_buf-IsEngineInput_example : IsEngineInput arrived (plain_buf config arrived)
plain_buf-IsEngineInput_example = plain_buf-IsEngineInput config arrived arrived-IsBytes

udp_round-Flushes_example :
    (out : List Output) × (udp_round holding config (λ i. world) (λ n. true) 3 holder arrived
      ≡ some (record holder { tunn = []; bytes_recv = (7 + length arrived) % 2 ^ 64 }, out))
    × Flushes config (λ n. true) held out
udp_round-Flushes_example =
    udp_round-Flushes holding config (λ i. world) (λ n. true) (λ i. world-IsWorld) 3 holder arrived
      packet held []
      (payload-plain_buf config world packet world-IsWorld packet_known (omega arith))
      (for_network (write_to_tunnel packet ∷ []) packet (for_tunnel [] packet (at_done [])))
      ((packet_known, omega arith), (tt, tt)) (omega arith)

abbrev manager : VpnRouteManager
manager = record {
  server_ip = 0x01020304;
  gateway_ip = none;
  physical_if_index = 2;
  adapter_if_index = 7;
  adapter_ip = 0x0a000002;
  has_ipv6 = false;
  routes_installed = true;
}

abbrev device : WintunDevice
device = record { settings = []; route_manager = manager; table = [] }

abbrev before : List Event
before = main_step 1000000000 ∷ worker_step (tun_recv world (some packet)) ∷ []

abbrev after : List Event
after =
    worker_step (tick world 0)
    ∷ main_step 0
    ∷ worker_step (udp_recv (λ i. world) (λ n. true) 2 none)
    ∷ worker_step (tun_recv world none)
    ∷ []

run-EndsWith_example : EndsWith willing device (
    run noise config willing (main_step 0 ∷ []) (
      run noise config willing after
        (stop (run noise config willing before (opened shared device)))))
run-EndsWith_example =
    run-EndsWith noise config willing shared device before after (main_step 0 ∷ [])
      (refl, refl, refl, refl) refl

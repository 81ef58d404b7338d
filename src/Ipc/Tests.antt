-- ===== src/Ipc/Tests.antt =====
-- The ring, the link and the heartbeat at concrete states.
use stm32h745_disco.Base.{
  ℕ, true, some, List, [], ◌∷◌, ◌+◌, ◌-◌, ◌≤◌, ◌≡◌, ◌↔◌, inl, refl, arith, sub32, get_or, replicate,
  Err,
}
use stm32h745_disco.Ipc.Header.{Header, hdr_validate}
use stm32h745_disco.Ipc.Ring.{Ring, zero_slot, used_raw, ring_push}
use stm32h745_disco.Ipc.Ring.Live.{live_slots}
use stm32h745_disco.Ipc.Ring.Fifo.{IsValid, contents}
use stm32h745_disco.Ipc.Ring.Run.{Call, put, get, run, run_queue, run_refines}
use stm32h745_disco.Ipc.Ring.Wrap.{push_overwrites}
use stm32h745_disco.Ipc.Watch.{ipc_hb_timeout_ms}
use stm32h745_disco.Ipc.Link.{
  Shm, Channel, Link, ring, zero_window, link_send, link_recv, link_heartbeat, link_observe,
  link_peer_alive,
}
use stm32h745_disco.Ipc.Link.Transport.{sent}
use stm32h745_disco.Ipc.Link.Session.{fresh_ring, fresh_ring-IsValid, IsConnected, send_recv}
use stm32h745_disco.Ipc.Link.Heartbeat.{heartbeat_observed}

abbrev hello : Header
hello = record { magic = 0xA55A; ver = 1; src = 1; dst = 2; flags = 0; type = 3; seq = 9; len = 2 }

abbrev calls : List Call
calls = put hello (some (7 ∷ 8 ∷ [])) ∷ get true 1 ∷ get true 2 ∷ get true 2 ∷ []

run_refines_example : run fresh_ring calls ≡ run_queue 60 (contents fresh_ring) calls
run_refines_example =
    run_refines calls fresh_ring-IsValid (inl (omega arith, omega arith)) (omega arith, tt)

-- `head` has just wrapped, and 20 messages wait.
abbrev wrapped : Ring
wrapped = record { nslots = 60; head = 0; tail = 65516; slots = replicate 60 zero_slot }

wrapped-IsValid : IsValid wrapped
wrapped-IsValid = record {
  some_slots = omega arith;
  slots_fit = omega arith;
  storage = omega arith;
  head_fits = omega arith;
  tail_fits = omega arith;
  used_fits = omega arith;
  slot_size = fresh_ring-IsValid.slot_size;
}

hello_good : hdr_validate hello ≡ Err.ok
unfolding hdr_validate
hello_good = refl

push_overwrites_example :
    let (e, r') = ring_push wrapped hello (some (7 ∷ 8 ∷ [])) in
    (e ≡ Err.ok)
    × (used_raw r' ≡ used_raw wrapped + 1)
    × ((get_or (live_slots r') (used_raw wrapped - 16) zero_slot).hdr ≡ hello)
    × ((get_or (live_slots r') (used_raw wrapped) zero_slot).hdr ≡ hello)
push_overwrites_example =
    push_overwrites hello (some (7 ∷ 8 ∷ [])) wrapped-IsValid refl refl (omega arith) (omega arith)
      hello_good refl

-- The two ends of a link that is open, and the shared memory with nothing waiting.
abbrev m7_end : Link
m7_end = record {
  tx = record { nslots = 60; channel = Channel.down };
  rx = record { nslots = 60; channel = Channel.up };
  attached = true;
  role = 0;
  seq = 0;
  seen_hb_seq = 4;
  watch = record { last_ms = 0; seen = 0 };
  has_kick = true;
  kicks = 0;
}

abbrev m4_end : Link
m4_end = record m7_end { tx = m7_end.rx; rx = m7_end.tx; role = 1 }

abbrev shared : Shm
shared = record {
  ctrl = record {
    magic = 0;
    ver = 1;
    nslots = 60;
    m7_ready = 1;
    m4_ready = 1;
    m4_hb_ms = 100;
    m4_hb_seq = 4;
    kick_m7 = 0;
    kick_m4 = 0;
  };
  down = zero_window;
  up = zero_window;
}

connected : IsConnected m7_end m4_end shared
connected = record {
  m7_attached = refl;
  m4_attached = refl;
  crossed_down = refl;
  crossed_up = refl;
  apart = λ e. cc;
  down_valid = fresh_ring-IsValid;
  up_valid = fresh_ring-IsValid;
  down_steady = inl (omega arith);
  up_steady = inl (omega arith);
}

abbrev greeting : List ℕ
greeting = 7 ∷ 8 ∷ 9 ∷ []

send_recv_example :
    let (e, m7', s') = link_send m7_end shared 2 3 (some greeting) 3 in
    let (e', m, s'') = link_recv m4_end s' true 16 in
    (e ≡ Err.ok)
    × (e' ≡ Err.ok)
    × (m ≡ some (sent m7_end 2 3 greeting 3))
    × (contents (ring s'' m4_end.rx) ≡ [])
    × ((sent m7_end 2 3 greeting 3).1 ≡ greeting)
send_recv_example =
    send_recv m7_end m4_end shared 2 3 greeting 16 connected refl (omega arith) (omega arith)

heartbeat_observed_example :
    let (m4', s') = link_heartbeat m4_end shared 1000 in
    let m7' = link_observe m7_end s' 1001 in
    ((link_peer_alive m7' 1600 ≡ true) ↔ (sub32 1600 1001 ≤ ipc_hb_timeout_ms))
    × (link_observe m7' s' 1600 ≡ m7')
heartbeat_observed_example =
    heartbeat_observed m4_end m7_end shared 1000 1001 1600 1600 refl refl (λ e. omega arith)
      (omega arith) refl

-- ===== src/Ipc/Link/Heartbeat.antt =====
-- The heartbeat: the M4 counts in the shared memory, the M7 watches the count.
use stm32h745_disco.Base.{
  ℕ, true, false, Option, List, ◌+◌, ◌%◌, ◌≤◌, ◌<◌, ◌^◌, ◌≡◌, ◌≢◌, ◌↔◌, refl, ap, ◌∙◌, arith, ltb,
  ◌==◌, u32, sub32, is_ok, Bool-cases, inl, inr,
}
use stm32h745_disco.Ipc.Header.{Header, hdr_init, ipc_payload_max}
use stm32h745_disco.Ipc.Ring.{ring_push, Ring}
use stm32h745_disco.Ipc.Watch.{watch_beat, watch_alive, ipc_hb_timeout_ms}
use stm32h745_disco.Ipc.Link.{
  Shm, Ctrl, Channel, Binding, Link, ring, put_ring, kick_peer, send_msg, link_send, link_heartbeat,
  link_observe, link_peer_alive, ipc_ep_sys, ipc_sys_heartbeat,
}

-- Two states of the control block agree on what the heartbeat reads.
abbrev SameBeat : Ctrl → Ctrl → Type 0
SameBeat c d = (c.m4_hb_seq ≡ d.m4_hb_seq) × (c.m4_ready ≡ d.m4_ready)

SameBeat-put_ring : (s : Shm) (b : Binding) (r : Ring) → (put_ring s b r).ctrl ≡ s.ctrl
SameBeat-put_ring s b r = at b.channel
  where
    at : (c : Channel) → (put_ring s (record { nslots = b.nslots; channel = c }) r).ctrl ≡ s.ctrl
    at Channel.down = refl
    at Channel.up = refl

SameBeat-kick_peer : (l : Link) (s : Shm) → SameBeat (kick_peer l s).1.ctrl s.ctrl
unfolding kick_peer
SameBeat-kick_peer l s = ground arith

SameBeat-send_msg :
    (l : Link) (s : Shm) (h : Header) (p : Option (List ℕ))
    → SameBeat (send_msg l s h p).2.ctrl s.ctrl
unfolding send_msg
SameBeat-send_msg l s h p = elim (Bool-cases (is_ok (ring_push (ring s l.tx) h p).0)) [
  | inr bad ↦ rw bad (refl, refl)
  | inl good ↦
      let s' = put_ring s l.tx (ring_push (ring s l.tx) h p).1 in
      let e = SameBeat-put_ring s l.tx (ring_push (ring s l.tx) h p).1 in
      let k = SameBeat-kick_peer (record l { seq = (l.seq + 1) % 65536 }) s' in
      rw good (k.0 ∙ ap (λ (c : Ctrl). c.m4_hb_seq) e, k.1 ∙ ap (λ (c : Ctrl). c.m4_ready) e)
]

-- Sending leaves the heartbeat alone, whether it succeeds or not.
SameBeat-link_send :
    (l : Link) (s : Shm) (dst type : ℕ) (p : Option (List ℕ)) (len : ℕ)
    → SameBeat (link_send l s dst type p len).2.ctrl s.ctrl
unfolding link_send hdr_init
SameBeat-link_send l s dst type p len = elim (Bool-cases l.attached) [
  | inr gone ↦ simp gone (refl, refl)
  | inl at ↦ elim (Bool-cases (ltb ipc_payload_max len)) [
    | inl long ↦ simp (at, long) (refl, refl)
    | inr short ↦ simp (at, short) (SameBeat-send_msg l s _ p)
  ]
]

-- A heartbeat raises the count by one, whether or not its message could be sent.
hb_seq-heartbeat :
    (l : Link) (s : Shm) (t : ℕ)
    → l.attached ≡ true
    → let (l', s') = link_heartbeat l s t in
      (s'.ctrl.m4_hb_seq ≡ u32 (s.ctrl.m4_hb_seq + 1)) × (s'.ctrl.m4_ready ≡ s.ctrl.m4_ready)
unfolding link_heartbeat
hb_seq-heartbeat l s t at = simp at (SameBeat-link_send l _ ipc_ep_sys ipc_sys_heartbeat _ 4)

-- The link after it has observed a count.
abbrev observed : Link → Shm → ℕ → Link
observed l s now_ms = record l { seen_hb_seq = s.ctrl.m4_hb_seq; watch = watch_beat l.watch now_ms }

observe_new :
    (l : Link) (s : Shm) (now_ms : ℕ)
    → l.attached ≡ true
    → s.ctrl.m4_ready ≢ 0
    → s.ctrl.m4_hb_seq ≢ l.seen_hb_seq
    → link_observe l s now_ms ≡ observed l s now_ms
unfolding link_observe
observe_new l s now_ms at ready fresh =
    let r : (s.ctrl.m4_ready == 0) ≡ false = ground arith in
    let f : (s.ctrl.m4_hb_seq == l.seen_hb_seq) ≡ false = ground arith in simp (at, r, f)

observe_same :
    (l : Link) (s : Shm) (now_ms : ℕ)
    → s.ctrl.m4_hb_seq ≡ l.seen_hb_seq
    → link_observe l s now_ms ≡ l
unfolding link_observe
observe_same l s now_ms e =
    let f : (s.ctrl.m4_hb_seq == l.seen_hb_seq) ≡ true = ground arith in
    elim (Bool-cases l.attached) [
      | inr gone ↦ simp gone
      | inl at ↦ elim (Bool-cases (s.ctrl.m4_ready == 0)) [
        | inl unready ↦ simp (at, unready)
        | inr ready ↦ simp (at, ready, f)
      ]
    ]

alive-observed :
    (l : Link) (s : Shm) (seen t : ℕ)
    → (link_peer_alive (observed l s seen) t ≡ true) ↔ (sub32 t seen ≤ ipc_hb_timeout_ms)
unfolding link_peer_alive watch_alive watch_beat
alive-observed l s seen t = ground arith

-- After a heartbeat of a ready M4 that the M7 first observes at time `seen`, the M7 takes the M4 for
-- alive at a time `t` exactly when at most 500 ms have passed since, modulo 2 ^ 32; and observing the
-- same count again at any time changes nothing. Both ends are attached, and the M7 had seen the count before the heartbeat.
pub heartbeat_observed :
    (m4 m7 : Link) (s : Shm) (sent_at seen again t : ℕ)
    → m4.attached ≡ true
    → m7.attached ≡ true
    → s.ctrl.m4_ready ≢ 0
    → s.ctrl.m4_hb_seq < 2 ^ 32
    → m7.seen_hb_seq ≡ s.ctrl.m4_hb_seq
    → let (m4', s') = link_heartbeat m4 s sent_at in
      let m7' = link_observe m7 s' seen in
      ((link_peer_alive m7' t ≡ true) ↔ (sub32 t seen ≤ ipc_hb_timeout_ms))
      × (link_observe m7' s' again ≡ m7')
heartbeat_observed m4 m7 s sent_at seen again t at at' ready small same =
    let beat = hb_seq-heartbeat m4 s sent_at at in
    let s' = (link_heartbeat m4 s sent_at).1 in
    let new : link_observe m7 s' seen ≡ observed m7 s' seen =
      observe_new m7 s' seen at' (rw beat.1 ready) (omega (arith, beat.0)) in
    rw new (alive-observed m7 s' seen t, observe_same (observed m7 s' seen) s' again refl)

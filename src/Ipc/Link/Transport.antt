-- ===== src/Ipc/Link/Transport.antt =====
-- What sending on a link does to the shared memory.
use stm32h745_disco.Base.{
  ℕ, true, false, some, List, ◌+◌, ◌≤◌, ◌<◌, ◌≡◌, ◌≢◌, refl, ap, ◌∙◌, arith, ltb, ◌&&◌, u16, take,
  Err, is_ok, Bool-cases, inl, inr,
}
use stm32h745_disco.Ipc.Header.{
  Header, hdr_init, hdr_validate, ipc_magic, ipc_version, ipc_payload_max,
}
use stm32h745_disco.Ipc.Ring.{Ring, Message, used_raw, ring_push, is_none}
use stm32h745_disco.Ipc.Ring.Fifo.{stored, push_accepts}
use stm32h745_disco.Ipc.Link.{
  Shm, Window, Channel, Binding, Link, ring, put_ring, window, put_window, src_ep, kick_peer,
  link_send, send_msg,
}

-- The message that `ipc_link_send` puts on the ring.
abbrev pub sent : Link → ℕ → ℕ → List ℕ → ℕ → Message
sent l dst type payload len = (
  record {
    magic = ipc_magic;
    ver = ipc_version;
    src = src_ep dst;
    dst = dst;
    flags = 0;
    type = type;
    seq = l.seq;
    len = len;
  },
  take len payload,
)

pub window-put_window : (s : Shm) (c : Channel) (w : Window) → window (put_window s c w) c ≡ w
window-put_window s Channel.down w = refl
window-put_window s Channel.up w = refl

pub window-put_window_ne :
    (s : Shm) (c d : Channel) (w : Window) → c ≢ d → window (put_window s c w) d ≡ window s d
window-put_window_ne s Channel.down Channel.down w ne = absurd (ne refl)
window-put_window_ne s Channel.down Channel.up w ne = refl
window-put_window_ne s Channel.up Channel.down w ne = refl
window-put_window_ne s Channel.up Channel.up w ne = absurd (ne refl)

-- Telling the peer changes no ring.
pub window-kick_peer : (l : Link) (s : Shm) (c : Channel) → window (kick_peer l s).1 c ≡ window s c
unfolding kick_peer
window-kick_peer l s Channel.down = ground arith
window-kick_peer l s Channel.up = ground arith

pub seq-kick_peer : (l : Link) (s : Shm) → (kick_peer l s).0.seq ≡ l.seq
unfolding kick_peer
seq-kick_peer l s = elim (Bool-cases l.has_kick) [ inl y ↦ rw y refl | inr n ↦ rw n refl ]

abbrev pub window_of : Ring → Window
window_of r = record { head = r.head; tail = r.tail; slots = r.slots }

abbrev pub ring_over : ℕ → Window → Ring
ring_over n w = record { nslots = n; head = w.head; tail = w.tail; slots = w.slots }

-- The ring that holds one message more, and the link and memory after it was sent.
abbrev pub sent_ring : Link → Shm → Message → List ℕ → Ring
sent_ring l s m payload = stored (ring s l.tx) m.0 (some payload)

-- An attached link with a free slot sends every payload that fits a slot.
pub link_send_accepts :
    (l : Link) (s : Shm) (dst type : ℕ) (payload : List ℕ) (len : ℕ)
    → l.attached ≡ true
    → len ≤ ipc_payload_max
    → used_raw (ring s l.tx) < l.tx.nslots
    → let after =
        kick_peer
          (record l { seq = u16 (l.seq + 1) })
          (put_ring s l.tx (sent_ring l s (sent l dst type payload len) payload)) in
      link_send l s dst type (some payload) len ≡ (Err.ok, after.0, after.1)
link_send_accepts l s dst type payload len at small room =
    let h = (sent l dst type payload len).0 in
    let given : (ltb 0 len && is_none (some payload)) ≡ false = ground arith in
    entered ∙ sends h (push_accepts (ring s l.tx) h (some payload) good given room)
  where
    short : ltb ipc_payload_max len ≡ false
    short = ground arith

    good : is_ok (hdr_validate (sent l dst type payload len).0) ≡ true
    good = unfold hdr_validate in rw short refl

    entered :
        link_send l s dst type (some payload) len
        ≡ send_msg l s (sent l dst type payload len).0 (some payload)
    entered = unfold link_send hdr_init in simp (at, short)

    sends :
        (h : Header)
        → ring_push (ring s l.tx) h (some payload) ≡ (Err.ok, stored (ring s l.tx) h (some payload))
        → send_msg l s h (some payload) ≡ (
            let after =
              kick_peer
                (record l { seq = u16 (l.seq + 1) })
                (put_ring s l.tx (stored (ring s l.tx) h (some payload))) in
            (Err.ok, after.0, after.1))
    sends h e = unfold send_msg in rw e refl

module _ (l : Link) (s : Shm) (dst type : ℕ) (payload : List ℕ) (len : ℕ) (at : l.attached ≡ true)
    (small : len ≤ ipc_payload_max) (room : used_raw (ring s l.tx) < l.tx.nslots) where
  -- The outgoing ring then is the one with the message stored, and the other ring is the same.
  pub ring-link_send :
      ring (link_send l s dst type (some payload) len).2 l.tx
      ≡ sent_ring l s (sent l dst type payload len) payload
  ring-link_send =
      let r = sent_ring l s (sent l dst type payload len) payload in
      let next = record l { seq = u16 (l.seq + 1) } in
      rw (link_send_accepts l s dst type payload len at small room) (
        ap (ring_over l.tx.nslots) (
          window-kick_peer next (put_ring s l.tx r) l.tx.channel
          ∙ window-put_window s l.tx.channel (window_of r)))

  pub ring-link_send_ne :
      (b : Binding)
      → l.tx.channel ≢ b.channel
      → ring (link_send l s dst type (some payload) len).2 b ≡ ring s b
  ring-link_send_ne b ne =
      let r = sent_ring l s (sent l dst type payload len) payload in
      let next = record l { seq = u16 (l.seq + 1) } in
      rw (link_send_accepts l s dst type payload len at small room) (
        ap (ring_over b.nslots) (
          window-kick_peer next (put_ring s l.tx r) b.channel
          ∙ window-put_window_ne s l.tx.channel b.channel (window_of r) ne))

  pub ok-link_send :
      let (e, l', s') = link_send l s dst type (some payload) len in
      (e ≡ Err.ok) × (l'.seq ≡ u16 (l.seq + 1))
  ok-link_send =
      let r = sent_ring l s (sent l dst type payload len) payload in
      rw (link_send_accepts l s dst type payload len at small room)
        (refl, seq-kick_peer (record l { seq = u16 (l.seq + 1) }) (put_ring s l.tx r))

-- ===== src/Ipc/Link/Session.antt =====
-- Opening the two ends, and a message on its way from one to the other.
use stm32h745_disco.Base.{
  ℕ, zero, suc, Bool, true, false, some, List, [], ◌∷◌, ◌++◌, ◌+◌, ◌≤◌, ◌<◌, ◌≡◌, ◌≢◌, refl, sym,
  ap, ◌∙◌, arith, ltb, not, ◌&&◌, u16, length, get_or, replicate, take_all, Err, inl,
}
use native.Mathlib.Nat.{le_refl}
use stm32h745_disco.Ipc.Header.{hdr_validate, ipc_payload_max}
use stm32h745_disco.Ipc.Ring.{Ring, Slot, zero_slot, used_raw, ring_pop, is_none}
use stm32h745_disco.Ipc.Queue.{dequeue}
use stm32h745_disco.Ipc.Ring.Live.{IsSteady}
use stm32h745_disco.Ipc.Ring.Fifo.{
  IsValid, contents, pop_refines, contents-stored, stored-IsValid, length-contents,
}
use stm32h745_disco.Ipc.Ring.Run.{nslots-pop}
use stm32h745_disco.Ipc.Link.Transport.{
  sent, window_of, ring_over, window-put_window, window-put_window_ne, ring-link_send,
  ring-link_send_ne, ok-link_send,
}
use stm32h745_disco.Ipc.Link.{
  Shm, Binding, Link, ring, bind_role, format_shm, attach_shm, link_open, link_send, link_recv,
  ipc_ring_slots,
}

get_or-replicate {ℓ} : {A : Type ℓ} (n i : ℕ) (a : A) → get_or (replicate n a) i a ≡ a
get_or-replicate zero i a = refl
get_or-replicate (suc n) zero a = refl
get_or-replicate (suc n) (suc i) a = get_or-replicate n i a

abbrev pub fresh_ring : Ring
fresh_ring = record { nslots = 60; head = 0; tail = 0; slots = replicate ipc_ring_slots zero_slot }

pub fresh_ring-IsValid : IsValid fresh_ring
fresh_ring-IsValid = record {
  some_slots = omega arith;
  slots_fit = omega arith;
  storage = omega arith;
  head_fits = omega arith;
  tail_fits = omega arith;
  used_fits = omega arith;
  slot_size = λ i. ap (λ (s : Slot). length s.bytes) (get_or-replicate 60 i zero_slot);
}

-- What both ends have after a successful open: they are attached, each sends on the ring that the
-- other receives on, both rings are valid and empty, and the M4 is marked ready.
pub record IsConnected (m7 m4 : Link) (s : Shm) : Type 0 where
  pub m7_attached : m7.attached ≡ true
  pub m4_attached : m4.attached ≡ true
  pub crossed_down : m4.rx ≡ m7.tx
  pub crossed_up : m7.rx ≡ m4.tx
  pub apart : m7.tx.channel ≢ m4.tx.channel
  pub down_valid : IsValid (ring s m7.tx)
  pub up_valid : IsValid (ring s m4.tx)
  pub down_steady : IsSteady (ring s m7.tx)
  pub up_steady : IsSteady (ring s m4.tx)

-- The M7 opens the link and formats the shared memory, whatever it held; the M4 attaches to it. Both
-- calls answer `ok`, the two ends are connected over valid, empty rings, and both cores are marked
-- ready.
pub open_connects :
    (a b : Link) (s : Shm)
    → let (e, m7, s') = link_open a s 0 true in
      let (e', m4, s'') = link_open b s' 1 false in
      (e ≡ Err.ok)
      × (e' ≡ Err.ok)
      × IsConnected m7 m4 s''
      × (contents (ring s'' m7.tx) ≡ [])
      × (contents (ring s'' m4.tx) ≡ [])
      × (s''.ctrl.m7_ready ≡ 1)
      × (s''.ctrl.m4_ready ≡ 1)
unfolding link_open format_shm attach_shm bind_role
open_connects a b s = (
  refl,
  refl,
  record {
    m7_attached = refl;
    m4_attached = refl;
    crossed_down = refl;
    crossed_up = refl;
    apart = λ e. cc;
    down_valid = fresh_ring-IsValid;
    up_valid = fresh_ring-IsValid;
    down_steady = inl (omega arith);
    up_steady = inl (omega arith);
  },
  refl,
  refl,
  refl,
  refl,
)

-- An attached link whose outgoing ring is valid, steady and not full sends every payload of at most
-- 256 bytes: the call answers `ok`, its ring then is valid and holds the message behind those that
-- waited, and the sequence number goes up by one.
pub link_send_lem :
    (l : Link) (s : Shm) (dst type : ℕ) (payload : List ℕ) (len : ℕ)
    → l.attached ≡ true
    → IsValid (ring s l.tx)
    → IsSteady (ring s l.tx)
    → len ≤ ipc_payload_max
    → len ≤ length payload
    → used_raw (ring s l.tx) < l.tx.nslots
    → let (e, l', s') = link_send l s dst type (some payload) len in
      (e ≡ Err.ok)
      × IsValid (ring s' l.tx)
      × (contents (ring s' l.tx) ≡ contents (ring s l.tx) ++ sent l dst type payload len ∷ [])
      × (l'.seq ≡ u16 (l.seq + 1))
link_send_lem l s dst type payload len at v st small fits room =
    let m = sent l dst type payload len in
    let given : (ltb 0 len && is_none (some payload)) ≡ false = ground arith in
    let done = ok-link_send l s dst type payload len at small room in
    (
      done.0,
      rw (ring-link_send l s dst type payload len at small room)
          (stored-IsValid v m.0 (some payload) room),
      ap contents (ring-link_send l s dst type payload len at small room)
          ∙ contents-stored v m.0 (some payload) st room small fits given,
      done.1,
    )

-- `ipc_link_recv` on an attached link with a valid incoming ring answers as `dequeue` on the messages
-- that wait there, and leaves the rest waiting.
pub link_recv_lem :
    (l : Link) (s : Shm) (buffer : Bool) (room : ℕ)
    → l.attached ≡ true
    → IsValid (ring s l.rx)
    → let (e, m, s') = link_recv l s buffer room in
      (e, m, contents (ring s' l.rx)) ≡ dequeue (contents (ring s l.rx)) buffer room
unfolding link_recv
link_recv_lem l s buffer room at v =
    let r = (ring_pop (ring s l.rx) buffer room).2 in
    simp at (
      ap
        (λ w.
          let (e, m, r') = ring_pop (ring s l.rx) buffer room in
          (e, m, contents (ring_over l.rx.nslots w)))
        (window-put_window s l.rx.channel (window_of r))
      ∙ ap
          (λ n. (
            (ring_pop (ring s l.rx) buffer room).0,
            (ring_pop (ring s l.rx) buffer room).1,
            contents (ring_over n (window_of r)),
          ))
          (sym (nslots-pop (ring s l.rx) buffer room))
      ∙ pop_refines buffer room v)

-- On an attached link with room to send, neither a send of at most 256 bytes nor a receive touches
-- the ring of the other direction.
pub other_way_kept :
    (l : Link) (s : Shm) (dst type : ℕ) (payload : List ℕ) (len : ℕ) (buffer : Bool) (room : ℕ)
    (out back : Binding)
    → l.attached ≡ true
    → len ≤ ipc_payload_max
    → used_raw (ring s l.tx) < l.tx.nslots
    → l.tx.channel ≢ out.channel
    → l.rx.channel ≢ back.channel
    → (ring (link_send l s dst type (some payload) len).2 out ≡ ring s out)
      × (ring (link_recv l s buffer room).2 back ≡ ring s back)
unfolding link_recv
other_way_kept l s dst type payload len buffer room out back at small free ne ne' =
    let r = (ring_pop (ring s l.rx) buffer room).2 in
    (
      ring-link_send_ne l s dst type payload len at small free out ne,
      simp at (
          ap (ring_over back.nslots)
            (window-put_window_ne s l.rx.channel back.channel (window_of r) ne')),
    )

dequeue_one :
    (l : Link) (dst type : ℕ) (payload : List ℕ) (len room : ℕ)
    → len ≤ ipc_payload_max
    → len ≤ room
    → let m = sent l dst type payload len in dequeue (m ∷ []) true room ≡ (Err.ok, some m, [])
unfolding dequeue hdr_validate
dequeue_one l dst type payload len room small fits =
    let short : ltb ipc_payload_max len ≡ false = ground arith in
    let roomy : ltb room len ≡ false = ground arith in
    let given : (ltb 0 len && not true) ≡ false = ground arith in rw (short, roomy, given) refl

-- Over two connected ends with nothing waiting, a payload of at most 256 bytes that one core sends is
-- what the other receives next into a buffer that holds it, with its type, source, destination and
-- sequence number, and nothing is left waiting.
pub send_recv :
    (m7 m4 : Link) (s : Shm) (dst type : ℕ) (payload : List ℕ) (room : ℕ)
    → IsConnected m7 m4 s
    → contents (ring s m7.tx) ≡ []
    → length payload ≤ ipc_payload_max
    → length payload ≤ room
    → let (e, m7', s') = link_send m7 s dst type (some payload) (length payload) in
      let (e', m, s'') = link_recv m4 s' true room in
      (e ≡ Err.ok)
      × (e' ≡ Err.ok)
      × (m ≡ some (sent m7 dst type payload (length payload)))
      × (contents (ring s'' m4.rx) ≡ [])
      × ((sent m7 dst type payload (length payload)).1 ≡ payload)
send_recv m7 m4 s dst type payload room c nothing small fits =
    let len = length payload in
    let m = sent m7 dst type payload len in
    let empty : used_raw (ring s m7.tx) ≡ 0 =
      sym (length-contents (ring s m7.tx)) ∙ ap length nothing in
    let out =
      link_send_lem m7 s dst type payload len c.m7_attached c.down_valid c.down_steady small
        (le_refl _) (omega (arith, c.down_valid.some_slots)) in
    let s' = (link_send m7 s dst type (some payload) len).2 in
    let waiting : contents (ring s' m4.rx) ≡ m ∷ [] =
      ap (λ b. contents (ring s' b)) c.crossed_down ∙ out.2 ∙ ap (λ q. q ++ m ∷ []) nothing in
    let v : IsValid (ring s' m4.rx) = rw c.crossed_down out.1 in
    let got =
      link_recv_lem m4 s' true room c.m4_attached v
      ∙ ap (λ q. dequeue q true room) waiting
      ∙ dequeue_one m7 dst type payload len room small fits in
    (
      out.0,
      ap (λ x. x.0) got,
      ap (λ x. x.1) got,
      ap (λ x. x.2) got,
      take_all payload len (le_refl _),
    )

-- ===== src/Ipc/Ring/Wrap.antt =====
-- What happens when the counters of a ring of 60 slots pass 65535: 60 does not divide 65536.
use stm32h745_disco.Base.{
  ℕ, zero, suc, ◌+◌, ◌-◌, ◌%◌, ◌≤◌, ◌<◌, ◌≡◌, refl, sym, ap, ap₂, ◌∙◌, List, arith, get_or, set,
  Option, some, none, Err, u16, ltb, ◌&&◌, false, get_or-set_self,
}
use native.Mathlib.Nat.{mod-lt}
use stm32h745_disco.Ipc.Header.{Header, hdr_validate}
use stm32h745_disco.Ipc.Ring.{Ring, Slot, zero_slot, used_raw, ring_push, write_slot, is_none}
use stm32h745_disco.Ipc.Ring.Live.{live, live_slots}
use stm32h745_disco.Ipc.Ring.Fifo.{IsValid, push_accepts, stored, slot_after}

get_or-live :
    (slots : List Slot) (cap pos n i : ℕ)
    → i < n
    → get_or (live slots cap pos n) i zero_slot ≡ get_or slots (u16 (pos + i) % cap) zero_slot
get_or-live slots cap pos zero i h = absurd (omega arith)
get_or-live slots cap pos (suc n) zero h =
    ap (λ k. get_or slots (u16 k % cap) zero_slot) (omega arith)
get_or-live slots cap pos (suc n) (suc i) h =
    get_or-live slots cap (pos + 1) n i (omega arith)
    ∙ ap (λ k. get_or slots (u16 k % cap) zero_slot) (omega arith)

hdr-write_slot :
    (s : Slot) (h : Header) (payload : Option (List ℕ)) → (write_slot s h payload).hdr ≡ h
unfolding write_slot
hdr-write_slot s h none = refl
hdr-write_slot s h (some p) = refl

-- After a push every position whose index is that of the old `head` holds the new message.
hdr-stored :
    (r : Ring) (h : Header) (payload : Option (List ℕ)) (i : ℕ)
    → IsValid r
    → i < used_raw (stored r h payload)
    → u16 (r.tail + i) % r.nslots ≡ r.head % r.nslots
    → (get_or (live_slots (stored r h payload)) i zero_slot).hdr ≡ h
hdr-stored r h payload i v k e =
    let at = r.head % r.nslots in
    let s = slot_after r h payload in
    ap (λ (s : Slot). s.hdr)
      (get_or-live (set r.slots at s) r.nslots r.tail (used_raw (stored r h payload)) i k
        ∙ ap (λ j. get_or (set r.slots at s) j zero_slot) e
        ∙ get_or-set_self r.slots at s zero_slot
            (omega (arith, mod-lt r.head v.some_slots, v.storage)))
    ∙ hdr-write_slot (get_or r.slots at zero_slot) h payload

-- In a valid ring of 60 slots whose `head` has just wrapped to 0 with 16 to 59 messages waiting, a
-- push of a valid message answers `ok` and counts one message more, but it has also overwritten
-- the waiting message at place `used - 16`, which now reads as the new one.
pub push_overwrites :
    {r : Ring} (h : Header) (payload : Option (List ℕ))
    → IsValid r
    → r.nslots ≡ 60
    → r.head ≡ 0
    → 16 ≤ used_raw r
    → used_raw r < 60
    → hdr_validate h ≡ Err.ok
    → (ltb 0 h.len && is_none payload) ≡ false
    → let (e, r') = ring_push r h payload in
      (e ≡ Err.ok)
      × (used_raw r' ≡ used_raw r + 1)
      × ((get_or (live_slots r') (used_raw r - 16) zero_slot).hdr ≡ h)
      × ((get_or (live_slots r') (used_raw r) zero_slot).hdr ≡ h)
push_overwrites {r} h payload v n z lo hi good f =
    rw (push_accepts r h payload (rw good refl) f (omega arith)) (
      refl,
      omega (arith, v.tail_fits),
      hdr-stored r h payload (used_raw r - 16) v (omega (arith, v.tail_fits))
          (ap₂ ◌%◌ early n ∙ sym (ap₂ ◌%◌ z n)),
      hdr-stored r h payload (used_raw r) v (omega (arith, v.tail_fits))
          (ap (λ k. k % r.nslots) (omega (arith, v.tail_fits, v.head_fits))),
    )
  where
    early : u16 (r.tail + (used_raw r - 16)) ≡ 65520
    early = omega (arith, v.tail_fits)

-- ===== src/Ipc/Ring/Run.antt =====
-- Sequences of calls on one ring, against the same calls on the queue of its messages.
use stm32h745_disco.Base.{
  ℕ, ◌+◌, ◌%◌, ◌≤◌, ◌<◌, ◌==◌, ◌≡◌, ◌≢◌, ◌⊎◌, refl, ap, ◌∙◌, List, [], ◌∷◌, arith, inl, inr, length,
  Bool, false, Option, none, some, Err, u16, leb, ltb, Bool-cases, ◌&&◌, is_ok, get_or, suc, ltb,
}
use stm32h745_disco.Ipc.Header.{Header, hdr_validate, ipc_payload_max}
use stm32h745_disco.Ipc.Ring.{
  Ring, Slot, Message, used_raw, ring_push, ring_pop, ring_init, zero_slot, is_none,
}
use stm32h745_disco.Ipc.Queue.{enqueue, dequeue}
use stm32h745_disco.Ipc.Ring.Live.{IsSteady}
use stm32h745_disco.Ipc.Ring.Fifo.{
  IsValid, Carries, contents, push_refines, pop_refines, push-IsValid, pop-IsValid, advanced,
  pop_cases,
}

-- A call of `ipc_ring_push` or of `ipc_ring_pop`.
pub data Call : Type 0 where
  put : Header → Option (List ℕ) → Call
  get : Bool → ℕ → Call

abbrev pub Reply : Type 0
Reply = Err × Option Message

unfoldable pub run : Ring → List Call → List Reply
run r [] = []
run r (put h p ∷ calls) = let (e, r') = ring_push r h p in (e, none) ∷ run r' calls
run r (get buffer room ∷ calls) = let (e, m, r') = ring_pop r buffer room in (e, m) ∷ run r' calls

unfoldable pub run_queue : ℕ → List Message → List Call → List Reply
run_queue cap q [] = []
run_queue cap q (put h p ∷ calls) =
    let (e, q') = enqueue cap q h p in (e, none) ∷ run_queue cap q' calls
run_queue cap q (get buffer room ∷ calls) =
    let (e, m, q') = dequeue q buffer room in (e, m) ∷ run_queue cap q' calls

-- Every payload buffer holds what its header announces.
abbrev pub AllCarry : List Call → Type 0
AllCarry [] = Unit {0}
AllCarry (put h p ∷ calls) = Carries h p × AllCarry calls
AllCarry (get buffer room ∷ calls) = AllCarry calls

-- No counter wraps within `n` calls, or a wrap falls on the end of a round.
abbrev pub StaysSteady : Ring → ℕ → Type 0
StaysSteady r n = ((r.tail ≤ r.head) × (r.head + n < 65536)) ⊎ (65536 % r.nslots ≡ 0)

StaysSteady-IsSteady : (r : Ring) (n : ℕ) → StaysSteady r n → IsSteady r
StaysSteady-IsSteady r n (inl (p, q)) = inl p
StaysSteady-IsSteady r n (inr e) = inr e

push_fields :
    (r : Ring) (h : Header) (p : Option (List ℕ))
    → let r' = (ring_push r h p).1 in
      (r'.nslots ≡ r.nslots)
      × (r'.tail ≡ r.tail)
      × ((r'.head ≡ r.head) ⊎ (r'.head ≡ u16 (r.head + 1)))
unfolding ring_push
push_fields r h p = elim (Bool-cases (is_ok (hdr_validate h))) [
  | inr bad ↦ rw bad (refl, refl, inl refl)
  | inl good ↦ elim (Bool-cases (ltb 0 h.len && is_none p)) [
    | inl null ↦ rw (good, null) (refl, refl, inl refl)
    | inr f ↦ elim (Bool-cases (leb r.nslots (used_raw r))) [
      | inl full ↦ rw (good, f, full) (refl, refl, inl refl)
      | inr room ↦ rw (good, f, room) (refl, refl, inr refl)
    ]
  ]
]

push-StaysSteady :
    (r : Ring) (h : Header) (p : Option (List ℕ)) (n : ℕ)
    → StaysSteady r (suc n)
    → StaysSteady (ring_push r h p).1 n
push-StaysSteady r h p n (inl (a, b)) =
    inl (omega (arith, push_fields r h p), omega (arith, push_fields r h p))
push-StaysSteady r h p n (inr e) = inr (ap (λ k. 65536 % k) (push_fields r h p).0 ∙ e)

pop-StaysSteady :
    {r : Ring} (buffer : Bool) (room : ℕ) (n : ℕ)
    → IsValid r
    → StaysSteady r (suc n)
    → StaysSteady (ring_pop r buffer room).2 n
pop-StaysSteady {r} buffer room n v s = elim (pop_cases r buffer room) [
  | inl same ↦ rw same (fewer s)
  | inr (next, ne) ↦ rw next (moved ne s)
]
  where
    fewer : StaysSteady r (suc n) → StaysSteady r n
    fewer (inl (a, b)) = inl (a, omega arith)
    fewer (inr e) = inr e

    moved : used_raw r ≢ 0 → StaysSteady r (suc n) → StaysSteady (advanced r) n
    moved ne (inl (a, b)) = inl (omega arith, omega arith)
    moved ne (inr e) = inr e

pub nslots-pop :
    (r : Ring) (buffer : Bool) (room : ℕ) → (ring_pop r buffer room).2.nslots ≡ r.nslots
nslots-pop r buffer room = elim (pop_cases r buffer room) [
  | inl same ↦ ap (λ (k : Ring). k.nslots) same
  | inr (next, ne) ↦ ap (λ (k : Ring). k.nslots) next
]

-- Any sequence of pushes and pops on a valid ring is answered as the bounded queue of its messages
-- answers it, if every payload buffer holds what its header announces and no counter wraps in
-- the sequence or the number of slots divides 65536.
pub run_refines :
    (calls : List Call) {r : Ring}
    → IsValid r
    → StaysSteady r (length calls)
    → AllCarry calls
    → run r calls ≡ run_queue r.nslots (contents r) calls
unfolding run run_queue
run_refines [] v s c = refl
run_refines (put h p ∷ calls) {r} v s c = rw (
  run_refines calls (push-IsValid h p v) (push-StaysSteady r h p (length calls) s) c.1,
  ← push_refines h p v (StaysSteady-IsSteady r (suc (length calls)) s) c.0,
  (push_fields r h p).0,
)
run_refines (get buffer room ∷ calls) {r} v s c = rw (
  run_refines calls (pop-IsValid buffer room v) (pop-StaysSteady buffer room (length calls) v s) c,
  ← pop_refines buffer room v,
  nslots-pop r buffer room,
)

-- What `ipc_ring_init` sets up over enough slots of the right size is valid, empty and steady for
-- 65535 calls.
pub ring_init-IsValid :
    (storage : List Slot) (n : ℕ)
    → 0 < n
    → n < 65536
    → n ≤ length storage
    → ((i : ℕ) → length (get_or storage i zero_slot).bytes ≡ ipc_payload_max)
    → (r : Ring) × (ring_init storage n ≡ some r)
      × IsValid r
      × (r.nslots ≡ n)
      × (contents r ≡ [])
      × StaysSteady r 65535
unfolding ring_init
ring_init-IsValid storage n pos small fits size =
    let nonzero : (n == 0) ≡ false = ground arith in
    (
      record { nslots = n; head = 0; tail = 0; slots = storage },
      rw nonzero refl,
      record {
        some_slots = pos;
        slots_fit = small;
        storage = fits;
        head_fits = omega arith;
        tail_fits = omega arith;
        used_fits = omega arith;
        slot_size = size;
      },
      refl,
      refl,
      inl (omega arith, omega arith),
    )

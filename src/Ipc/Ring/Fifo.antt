-- ===== src/Ipc/Ring/Fifo.antt =====
-- A ring whose counters have not wrapped, or wrap at the end of a round, is the bounded queue of
-- the messages between its counters.
use stm32h745_disco.Base.{
  ℕ, zero, suc, ◌+◌, ◌-◌, ◌%◌, ◌≤◌, ◌<◌, ◌≡◌, ◌≢◌, ◌↔◌, ◌⊎◌, refl, sym, ap, ap₂, ◌∙◌, List, [], ◌∷◌,
  ◌++◌, arith, u16, inl, inr, length, get_or, set, take, overwrite, map, length-set,
  length-overwrite, take-overwrite, Bool, Option, none, some, ltb, length-take, Bool-cases, true,
  false, leb, ◌==◌, not, ◌&&◌, is_ok, Err,
}
use native.Mathlib.Nat.{mod-lt}
use stm32h745_disco.Ipc.Header.{Header, hdr_validate, ipc_payload_max}
use stm32h745_disco.Ipc.Ring.{
  Slot, Ring, Message, zero_slot, used_raw, message, write_slot, ring_push, ring_pop, ring_used,
  ring_credits, is_none,
}
use stm32h745_disco.Ipc.Queue.{enqueue, dequeue, payload_bytes}
use stm32h745_disco.Ipc.Ring.Live.{
  live, live_slots, IsSteady, length-live, live-u16, live_of_ne_zero, live-set, head_free,
}

-- The storage holds the slots that `nslots` names, the counters are 16-bit numbers at most a
-- round apart, and each slot has room for the longest payload.
pub record IsValid (r : Ring) : Type 0 where
  pub some_slots : 0 < r.nslots
  pub slots_fit : r.nslots < 65536
  pub storage : r.nslots ≤ length r.slots
  pub head_fits : r.head < 65536
  pub tail_fits : r.tail < 65536
  pub used_fits : used_raw r ≤ r.nslots
  pub slot_size : (i : ℕ) → length (get_or r.slots i zero_slot).bytes ≡ ipc_payload_max

-- The messages waiting, oldest first.
abbrev pub contents : Ring → List Message
contents r = map message (live_slots r)

-- A payload buffer holds at least the bytes that the header announces.
abbrev pub Carries : Header → Option (List ℕ) → Type 0
Carries h none = Unit {0}
Carries h (some p) = h.len ≤ length p

length-map {ℓ κ} :
    {A : Type ℓ} {B : Type κ} (f : A → B) (xs : List A) → length (map f xs) ≡ length xs
length-map f [] = refl
length-map f (x ∷ xs) = ap suc (length-map f xs)

map-append_one {ℓ κ} :
    {A : Type ℓ} {B : Type κ} (f : A → B) (xs : List A) (x : A)
    → map f (xs ++ x ∷ []) ≡ map f xs ++ f x ∷ []
map-append_one f [] x = refl
map-append_one f (y ∷ xs) x = ap (λ l. f y ∷ l) (map-append_one f xs x)

pub length-contents : (r : Ring) → length (contents r) ≡ used_raw r
length-contents r =
    length-map message (live_slots r) ∙ length-live r.slots r.nslots r.tail (used_raw r)

pub valid_len : (h : Header) → is_ok (hdr_validate h) ≡ true → h.len ≤ ipc_payload_max
unfolding hdr_validate
valid_len h v = ground arith

message-write_slot :
    (s : Slot) (h : Header) (payload : Option (List ℕ))
    → length s.bytes ≡ ipc_payload_max
    → h.len ≤ ipc_payload_max
    → Carries h payload
    → (ltb 0 h.len && is_none payload) ≡ false
    → message (write_slot s h payload) ≡ (h, take h.len (payload_bytes payload))
unfolding write_slot
message-write_slot s h none e v c f =
    let z : h.len ≡ 0 = ground arith in ap (λ l. (h, l)) (rw z refl)
message-write_slot s h (some p) e v c f =
    let n : length (take h.len p) ≡ h.len = omega (arith, length-take h.len p) in
    ap (λ l. (h, l))
      (ap (λ k. take k (overwrite (take h.len p) s.bytes)) (sym n)
        ∙ take-overwrite (take h.len p) s.bytes (omega arith))

-- The written slot keeps its size.
size-write_slot :
    (s : Slot) (h : Header) (payload : Option (List ℕ))
    → length (write_slot s h payload).bytes ≡ length s.bytes
unfolding write_slot
size-write_slot s h none = refl
size-write_slot s h (some p) = length-overwrite (take h.len p) s.bytes

get_or-set_cases {ℓ} :
    {A : Type ℓ} (xs : List A) (i j : ℕ) (v d : A)
    → (get_or (set xs i v) j d ≡ v) ⊎ (get_or (set xs i v) j d ≡ get_or xs j d)
get_or-set_cases [] i j v d = inr refl
get_or-set_cases (x ∷ xs) zero zero v d = inl refl
get_or-set_cases (x ∷ xs) zero (suc j) v d = inr refl
get_or-set_cases (x ∷ xs) (suc i) zero v d = inr refl
get_or-set_cases (x ∷ xs) (suc i) (suc j) v d = get_or-set_cases xs i j v d

-- The slot that a push writes, and the ring after a push that is accepted.
abbrev pub slot_after : Ring → Header → Option (List ℕ) → Slot
slot_after r h payload = write_slot (get_or r.slots (r.head % r.nslots) zero_slot) h payload

abbrev pub stored : Ring → Header → Option (List ℕ) → Ring
stored r h payload = record r {
  head = u16 (r.head + 1);
  slots = set r.slots (r.head % r.nslots) (slot_after r h payload);
}

pub push_accepts :
    (r : Ring) (h : Header) (payload : Option (List ℕ))
    → is_ok (hdr_validate h) ≡ true
    → (ltb 0 h.len && is_none payload) ≡ false
    → used_raw r < r.nslots
    → ring_push r h payload ≡ (Err.ok, stored r h payload)
unfolding ring_push
push_accepts r h payload good f room =
    let not_full : leb r.nslots (used_raw r) ≡ false = ground arith in rw (good, f, not_full) refl

module _ {r : Ring} (v : IsValid r) (h : Header) (payload : Option (List ℕ)) where
  pub stored-IsValid : used_raw r < r.nslots → IsValid (stored r h payload)
  stored-IsValid room = record {
    some_slots = v.some_slots;
    slots_fit = v.slots_fit;
    storage =
        omega (arith, length-set r.slots (r.head % r.nslots) (slot_after r h payload), v.storage);
    head_fits = omega arith;
    tail_fits = v.tail_fits;
    used_fits = omega (arith, v.head_fits, v.tail_fits);
    slot_size = λ i.
        elim (get_or-set_cases r.slots (r.head % r.nslots) i (slot_after r h payload) zero_slot) [
          | inl e ↦ rw e (
              size-write_slot (get_or r.slots (r.head % r.nslots) zero_slot) h payload
              ∙ v.slot_size (r.head % r.nslots))
          | inr e ↦ rw e (v.slot_size i)
        ];
  }

  pub contents-stored :
      IsSteady r
      → used_raw r < r.nslots
      → h.len ≤ ipc_payload_max
      → Carries h payload
      → (ltb 0 h.len && is_none payload) ≡ false
      → contents (stored r h payload) ≡ contents r ++ (h, take h.len (payload_bytes payload)) ∷ []
  contents-stored st room fits c f =
      let grows : used_raw (stored r h payload) ≡ suc (used_raw r) =
        omega (arith, v.head_fits, v.tail_fits, v.slots_fit) in
      let next : r.head ≡ u16 (r.tail + used_raw r) =
        omega (arith, v.head_fits, v.tail_fits, v.slots_fit) in
      ap (λ n. map message (live (stored r h payload).slots r.nslots r.tail n)) grows
      ∙ ap (map message) (
          live-set r.slots r.nslots (r.head % r.nslots) r.tail (used_raw r) (slot_after r h payload)
            (omega (arith, mod-lt r.head v.some_slots, v.storage)) (ap (λ k. k % r.nslots) next)
            (λ i k. head_free r i st v.head_fits v.tail_fits room k))
      ∙ map-append_one message (live_slots r) (slot_after r h payload)
      ∙ ap (λ m. contents r ++ m ∷ [])
          (message-write_slot (get_or r.slots (r.head % r.nslots) zero_slot) h payload
            (v.slot_size (r.head % r.nslots)) fits c f)

-- `ipc_ring_push` answers as `enqueue` does, and leaves the ring holding its queue.
pub push_refines :
    {r : Ring} (h : Header) (payload : Option (List ℕ))
    → IsValid r
    → IsSteady r
    → Carries h payload
    → let (e, r') = ring_push r h payload in
      (e, contents r') ≡ enqueue r.nslots (contents r) h payload
unfolding ring_push enqueue
push_refines {r} h payload v st c = elim (Bool-cases (is_ok (hdr_validate h))) [
  | inr bad ↦ rw bad refl
  | inl good ↦ elim (Bool-cases (ltb 0 h.len && is_none payload)) [
    | inl null ↦ rw (good, null) refl
    | inr f ↦ elim (Bool-cases (leb r.nslots (used_raw r))) [
      | inl full ↦ rw (good, f, length-contents r, full) refl
      | inr room ↦
          rw (good, f, length-contents r, room)
            (ap (λ q. (Err.ok, q))
              (contents-stored v h payload st (ground arith) (valid_len h good) c f))
    ]
  ]
]

pub push-IsValid :
    {r : Ring} (h : Header) (payload : Option (List ℕ))
    → IsValid r
    → IsValid (ring_push r h payload).1
unfolding ring_push
push-IsValid {r} h payload v = elim (Bool-cases (is_ok (hdr_validate h))) [
  | inr bad ↦ rw bad v
  | inl good ↦ elim (Bool-cases (ltb 0 h.len && is_none payload)) [
    | inl null ↦ rw (good, null) v
    | inr f ↦ elim (Bool-cases (leb r.nslots (used_raw r))) [
      | inl full ↦ rw (good, f, full) v
      | inr room ↦ rw (good, f, room) (stored-IsValid v h payload (ground arith))
    ]
  ]
]

-- The ring after its oldest message has been taken.
abbrev pub advanced : Ring → Ring
advanced r = record r { tail = u16 (r.tail + 1) }

advanced-IsValid : {r : Ring} → IsValid r → used_raw r ≢ 0 → IsValid (advanced r)
advanced-IsValid v ne = record {
  some_slots = v.some_slots;
  slots_fit = v.slots_fit;
  storage = v.storage;
  head_fits = v.head_fits;
  tail_fits = omega arith;
  used_fits = omega (arith, v.head_fits, v.tail_fits, v.used_fits);
  slot_size = v.slot_size;
}

contents-advanced :
    {r : Ring}
    → IsValid r
    → used_raw r ≢ 0
    → contents r ≡ message (get_or r.slots (r.tail % r.nslots) zero_slot) ∷ contents (advanced r)
contents-advanced {r} v ne =
    let t : u16 r.tail ≡ r.tail = omega (arith, v.tail_fits) in
    let n : used_raw r - 1 ≡ used_raw (advanced r) = omega (arith, v.head_fits, v.tail_fits) in
    ap (map message) (
      live_of_ne_zero r.slots r.nslots r.tail (used_raw r) ne
      ∙ ap₂ (λ k l. get_or r.slots (k % r.nslots) zero_slot ∷ l) t
          (ap (live r.slots r.nslots (r.tail + 1)) n
            ∙ live-u16 r.slots r.nslots (r.tail + 1) (u16 (r.tail + 1)) (used_raw (advanced r))
                (omega arith)))

-- `ipc_ring_pop` answers as `dequeue` does, and leaves the ring holding the rest.
pub pop_refines :
    {r : Ring} (buffer : Bool) (room : ℕ)
    → IsValid r
    → let (e, m, r') = ring_pop r buffer room in
      (e, m, contents r') ≡ dequeue (contents r) buffer room
unfolding ring_pop dequeue
pop_refines {r} buffer room v = elim (Bool-cases (used_raw r == 0)) [
  | inl none_left ↦
      let z : used_raw r ≡ 0 = ground arith in
      let nothing : contents r ≡ [] = ap (λ n. map message (live r.slots r.nslots r.tail n)) z in
      rw none_left (rw nothing refl)
  | inr more ↦
      let waiting = contents-advanced v (ground arith) in
      let s = get_or r.slots (r.tail % r.nslots) zero_slot in
      elim (Bool-cases (is_ok (hdr_validate s.hdr))) [
        | inr bad ↦ rw more (rw waiting (rw bad refl))
        | inl good ↦ elim (Bool-cases (ltb room s.hdr.len)) [
          | inl long ↦
              rw more (rw waiting (rw (good, long) (ap (λ q. (Err.nospc, none, q)) waiting)))
          | inr fits ↦ elim (Bool-cases (ltb 0 s.hdr.len && not buffer)) [
            | inl null ↦
                rw more
                  (rw waiting (rw (good, fits, null) (ap (λ q. (Err.inval, none, q)) waiting)))
            | inr given ↦ rw more (rw waiting (rw (good, fits, given) refl))
          ]
        ]
      ]
]

-- A pop leaves the ring alone or moves `tail` past a waiting message.
pub pop_cases :
    (r : Ring) (buffer : Bool) (room : ℕ)
    → ((ring_pop r buffer room).2 ≡ r)
      ⊎ (((ring_pop r buffer room).2 ≡ advanced r) × (used_raw r ≢ 0))
unfolding ring_pop
pop_cases r buffer room = elim (Bool-cases (used_raw r == 0)) [
  | inl none_left ↦ rw none_left (inl refl)
  | inr more ↦
      let n : used_raw r ≢ 0 = ground arith in
      let s = get_or r.slots (r.tail % r.nslots) zero_slot in
      elim (Bool-cases (is_ok (hdr_validate s.hdr))) [
        | inr bad ↦ rw (more, bad) (inr (refl, n))
        | inl good ↦ elim (Bool-cases (ltb room s.hdr.len)) [
          | inl long ↦ rw (more, good, long) (inl refl)
          | inr fits ↦ elim (Bool-cases (ltb 0 s.hdr.len && not buffer)) [
            | inl null ↦ rw (more, good, fits, null) (inl refl)
            | inr given ↦ rw (more, good, fits, given) (inr (refl, n))
          ]
        ]
      ]
]

-- `ipc_ring_pop` keeps the invariant.
pub pop-IsValid :
    {r : Ring} (buffer : Bool) (room : ℕ) → IsValid r → IsValid (ring_pop r buffer room).2
pop-IsValid {r} buffer room v = elim (pop_cases r buffer room) [
  | inl same ↦ rw same v
  | inr (next, ne) ↦ rw next (advanced-IsValid v ne)
]

-- On a valid ring `ipc_ring_credits` is the number of free slots, and a push of a message whose
-- header passes and whose payload is there succeeds exactly when there is a credit.
pub credits_lem :
    {r : Ring} (h : Header) (payload : Option (List ℕ))
    → IsValid r
    → is_ok (hdr_validate h) ≡ true
    → (ltb 0 h.len && is_none payload) ≡ false
    → (ring_credits r + length (contents r) ≡ r.nslots)
      × (((ring_push r h payload).0 ≡ Err.ok) ↔ (0 < ring_credits r))
unfolding ring_credits ring_used ring_push
credits_lem {r} h payload v good f =
    rw (good, f, length-contents r)
      (ground (arith, v.used_fits, v.slots_fit), ground (arith, v.used_fits, v.slots_fit))

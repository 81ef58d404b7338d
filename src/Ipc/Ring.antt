-- ===== src/Ipc/Ring.antt =====
-- The message ring of firmware/src/ipc/ipc_ring.c. `head` and `tail` are the 16-bit counters that
-- `r->head` and `r->tail` point to; the storage is a list of slots, each a header and
-- `IPC_PAYLOAD_MAX` bytes.
pub mod Live
pub mod Fifo
pub mod Run
pub mod Wrap
use stm32h745_disco.Base.{
  ℕ, Bool, true, false, Option, none, some, List, ◌+◌, ◌%◌, ltb, leb, ◌==◌, if◌then◌else◌, not,
  ◌&&◌, u16, sub16, get_or, set, take, overwrite, replicate, Err, is_ok,
}
use stm32h745_disco.Ipc.Header.{Header, hdr_validate, ipc_payload_max}

pub record Slot : Type 0 where
  pub hdr : Header
  pub bytes : List ℕ

-- `ipc_ring_t`
pub record Ring : Type 0 where
  pub nslots : ℕ
  pub head : ℕ
  pub tail : ℕ
  pub slots : List Slot

abbrev pub zero_header : Header
zero_header = record { magic = 0; ver = 0; src = 0; dst = 0; flags = 0; type = 0; seq = 0; len = 0 }

-- A slot of zeroed memory, and what a read outside the storage gives.
abbrev pub zero_slot : Slot
zero_slot = record { hdr = zero_header; bytes = replicate ipc_payload_max 0 }

-- The index of `slot_at`.
abbrev pub slot_at : Ring → ℕ → ℕ
slot_at r p = p % r.nslots

-- `used_raw`
abbrev pub used_raw : Ring → ℕ
used_raw r = sub16 r.head r.tail

-- `ipc_ring_init` over `storage`: the counters are the ring's own and start at 0.
unfoldable pub ring_init : List Slot → ℕ → Option Ring
ring_init storage n =
    if n == 0 then none else some (record { nslots = n; head = 0; tail = 0; slots = storage })

-- What `memcpy` leaves in a slot; a NULL payload is copied only if the length is 0.
unfoldable pub write_slot : Slot → Header → Option (List ℕ) → Slot
write_slot old h none = record { hdr = h; bytes = old.bytes }
write_slot old h (some payload) = record {
  hdr = h;
  bytes = overwrite (take h.len payload) old.bytes;
}

abbrev pub is_none {ℓ} : {A : Type ℓ} → Option A → Bool
is_none none = true
is_none (some a) = false

-- `ipc_ring_push`
unfoldable pub ring_push : Ring → Header → Option (List ℕ) → Err × Ring
ring_push r h payload =
    if not (is_ok (hdr_validate h))
    then (hdr_validate h, r)
    else if ltb 0 h.len && is_none payload
    then (Err.inval, r)
    else if leb r.nslots (used_raw r)
    then (Err.nospc, r)
    else (
      Err.ok,
      record r {
        head = u16 (r.head + 1);
        slots =
            set r.slots (slot_at r r.head)
              (write_slot (get_or r.slots (slot_at r r.head) zero_slot) h payload);
      },
    )

-- A header and its payload, as `ipc_ring_pop` hands them out.
abbrev pub Message : Type 0
Message = Header × List ℕ

abbrev pub message : Slot → Message
message s = (s.hdr, take s.hdr.len s.bytes)

-- `ipc_ring_pop`: `buffer` says that `payload` is not NULL, `payload_max` is its size.
unfoldable pub ring_pop : Ring → Bool → ℕ → Err × Option Message × Ring
ring_pop r buffer payload_max =
    let s = get_or r.slots (slot_at r r.tail) zero_slot in
    let next : Ring = record r { tail = u16 (r.tail + 1) } in
    if used_raw r == 0
    then (Err.noent, none, r)
    else if not (is_ok (hdr_validate s.hdr))
    then (hdr_validate s.hdr, none, next)
    else if ltb payload_max s.hdr.len
    then (Err.nospc, none, r)
    else if ltb 0 s.hdr.len && not buffer
    then (Err.inval, none, r)
    else (Err.ok, some (message s), next)

-- `ipc_ring_used`
unfoldable pub ring_used : Ring → ℕ
ring_used r = if ltb r.nslots (used_raw r) then r.nslots else used_raw r

-- `ipc_ring_credits`
unfoldable pub ring_credits : Ring → ℕ
ring_credits r = sub16 r.nslots (ring_used r)

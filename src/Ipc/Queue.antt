-- ===== src/Ipc/Queue.antt =====
-- What a ring promises: a queue of at most `cap` messages, oldest first. `enqueue` and `dequeue`
-- give the codes of `ipc_ring_push` and `ipc_ring_pop`.
use stm32h745_disco.Base.{
  ℕ, Bool, Option, none, some, List, [], ◌∷◌, ◌++◌, ltb, leb, if◌then◌else◌, not, ◌&&◌, length,
  take, Err, is_ok,
}
use stm32h745_disco.Ipc.Header.{Header, hdr_validate}
use stm32h745_disco.Ipc.Ring.{Message, is_none}

-- The bytes of a payload argument; NULL has none.
abbrev pub payload_bytes : Option (List ℕ) → List ℕ
payload_bytes none = []
payload_bytes (some p) = p

unfoldable pub enqueue : ℕ → List Message → Header → Option (List ℕ) → Err × List Message
enqueue cap q h payload =
    if not (is_ok (hdr_validate h))
    then (hdr_validate h, q)
    else if ltb 0 h.len && is_none payload
    then (Err.inval, q)
    else if leb cap (length q)
    then (Err.nospc, q)
    else (Err.ok, q ++ (h, take h.len (payload_bytes payload)) ∷ [])

-- A message whose header does not pass is dropped; one that does not fit stays.
unfoldable pub dequeue : List Message → Bool → ℕ → Err × Option Message × List Message
dequeue [] buffer room = (Err.noent, none, [])
dequeue ((h, p) ∷ q) buffer room =
    if not (is_ok (hdr_validate h))
    then (hdr_validate h, none, q)
    else if ltb room h.len
    then (Err.nospc, none, (h, p) ∷ q)
    else if ltb 0 h.len && not buffer
    then (Err.inval, none, (h, p) ∷ q)
    else (Err.ok, some (h, p), q)

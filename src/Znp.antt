-- ===== src/Znp.antt =====
-- The serial frames of the Zigbee radio: firmware/src/svc/znp_mt.c.
pub mod Codec
mod Tests
use stm32h745_disco.Base.{
  ℕ, Bool, true, false, Option, none, some, List, [], ◌∷◌, ◌++◌, ◌+◌, ltb, ◌==◌, if◌then◌else◌, not,
  ◌&&◌, u8, bit_xor, length, get_or, take, drop, Err, Result, value, error,
}

abbrev pub znp_sof : ℕ
znp_sof = 0xFE

-- The loop of `znp_mt_fcs` over the payload bytes that are left.
unfoldable pub fcs_from : ℕ → List ℕ → ℕ
fcs_from fcs [] = fcs
fcs_from fcs (b ∷ bs) = fcs_from (u8 (bit_xor fcs b)) bs

-- `znp_mt_fcs`; the loop reads the first `len` bytes.
unfoldable pub fcs : ℕ → ℕ → ℕ → List ℕ → ℕ
fcs len cmd0 cmd1 payload = fcs_from (u8 (bit_xor (bit_xor len cmd0) cmd1)) (take len payload)

-- The payload that a pointer leads to; nothing is read through NULL.
abbrev pub bytes_of : Option (List ℕ) → List ℕ
bytes_of none = []
bytes_of (some p) = p

abbrev pub is_null : Option (List ℕ) → Bool
is_null none = true
is_null (some p) = false

-- `znp_mt_encode`: the `*out_len` bytes that it writes.
unfoldable pub encode : ℕ → ℕ → Option (List ℕ) → ℕ → ℕ → Result (List ℕ)
encode cmd0 cmd1 payload len out_sz =
    if ltb 0 len && is_null payload
    then error Err.inval
    else if ltb out_sz (5 + len)
    then error Err.nospc
    else value (
        znp_sof
        ∷ len
        ∷ cmd0
        ∷ cmd1
        ∷ (take len (bytes_of payload) ++ fcs len cmd0 cmd1 (bytes_of payload) ∷ []))

-- What `znp_mt_decode` stores through its pointers.
pub record Frame : Type 0 where
  pub cmd0 : ℕ
  pub cmd1 : ℕ
  pub payload : List ℕ

-- `znp_mt_decode` of the bytes at `in`, which are `in_len` long; `buffer` says that `payload` is not
-- NULL.
unfoldable pub decode : List ℕ → Bool → ℕ → Result Frame
decode input buffer payload_max =
    let plen = get_or input 1 0 in
    let pl = drop 4 input in
    if ltb (length input) 5
    then error Err.corrupt
    else if not (get_or input 0 0 == znp_sof)
    then error Err.corrupt
    else if ltb (length input) (plen + 5)
    then error Err.corrupt
    else if ltb payload_max plen
    then error Err.nospc
    else if ltb 0 plen && not buffer
    then error Err.inval
    else if not (get_or input (4 + plen) 0 == fcs plen (get_or input 2 0) (get_or input 3 0) pl)
    then error Err.corrupt
    else value (record { cmd0 = get_or input 2 0; cmd1 = get_or input 3 0; payload = take plen pl })

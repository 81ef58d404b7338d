-- ===== src/Log.antt =====
-- The log of firmware/src/svc/log.c: the buffers that a line is put together in. A buffer of `n` bytes is
-- the list of the bytes written so far; one byte is kept for the terminator.
pub mod Format
pub mod Write
pub mod Bounds
pub mod Loop
pub mod Lines
pub mod Digits
mod Tests
use stm32h745_disco.Base.{
  ℕ, zero, suc, Bool, true, false, Option, none, some, List, [], ◌∷◌, ◌++◌, ◌+◌, ◌-◌, ◌/◌, ◌%◌, ltb,
  leb, ◌==◌, if◌then◌else◌, not, ◌&&◌, ◌||◌, length, get_or, take,
}
use stm32h745_disco.Base.Int.{ℤ, pos, negsuc}

abbrev pub log_line_max : ℕ
log_line_max = 192

-- The loop of `copy_str`, with `room` bytes before the terminator.
unfoldable pub copy_chars : ℕ → List ℕ → List ℕ
copy_chars zero s = []
copy_chars (suc room) [] = []
copy_chars (suc room) (c ∷ s) = if c == 0 then [] else c ∷ copy_chars room s

-- `copy_str` into `n` bytes: the bytes before the terminator that it writes.
unfoldable pub copy_str : ℕ → Option (List ℕ) → List ℕ
copy_str n none = []
copy_str n (some s) = copy_chars (n - 1) s

-- `put_ch`
unfoldable pub put_ch : ℕ → List ℕ → ℕ → List ℕ
put_ch n out c = if ltb (length out + 1) n then out ++ c ∷ [] else out

-- The loop of `put_str`.
unfoldable pub put_all : ℕ → List ℕ → List ℕ → List ℕ
put_all n out [] = out
put_all n out (c ∷ cs) = put_all n (put_ch n out c) cs

abbrev pub null_text : List ℕ
null_text = b'(' ∷ b'n' ∷ b'u' ∷ b'l' ∷ b'l' ∷ b')' ∷ []

unfoldable pub put_str : ℕ → List ℕ → Option (List ℕ) → List ℕ
put_str n out none = put_all n out null_text
put_str n out (some s) = put_all n out s

-- The digit `hex[d]` of `put_u64`.
unfoldable pub digit_ch : Bool → ℕ → ℕ
digit_ch upper d = if ltb d 10 then b'0' + d else (if upper then b'A' else b'a') + (d - 10)

-- The loop of `put_u64` that fills `tmp`, with `left` places left: the digits, the last one first.
unfoldable pub digits_of : ℕ → Bool → ℕ → ℕ → List ℕ
digits_of zero upper base v = []
digits_of (suc left) upper base v =
    let rest = digits_of left upper base (v / base) in
    digit_ch upper (v % base) ∷ (if v / base == 0 then [] else rest)

-- The loop that pads.
unfoldable pub put_pad : ℕ → ℕ → List ℕ → ℕ → List ℕ
put_pad zero n out c = out
put_pad (suc left) n out c = put_pad left n (put_ch n out c) c

-- The loop that writes `tmp` from its end.
unfoldable pub put_back : ℕ → List ℕ → List ℕ → List ℕ
put_back n out [] = out
put_back n out (c ∷ cs) = put_ch n (put_back n out cs) c

-- `put_u64`
unfoldable pub put_u64 : ℕ → List ℕ → ℕ → ℕ → Bool → ℕ → Bool → List ℕ
put_u64 n out v base upper width zpad =
    let tmp = digits_of 24 upper base v in
    if ltb base 2 || ltb 16 base
    then out
    else put_back n (put_pad (width - length tmp) n out (if zpad then b'0' else b' ')) tmp

-- `uabs64`
unfoldable pub uabs64 : ℤ → ℕ
uabs64 (pos v) = v
uabs64 (negsuc v) = v + 1

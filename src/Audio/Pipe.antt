-- ===== src/Audio/Pipe.antt =====
-- The byte pipe of firmware/src/svc/audio_pipe.c. `wr` and `rd` are free-running 32-bit counters; an
-- index `c & (AUDIO_PIPE_CAP - 1)` is a remainder, since the capacity is 2 ^ 14.
pub mod Laws
use stm32h745_disco.Base.{
  ℕ, suc, zero, Option, none, some, List, [], ◌∷◌, ◌+◌, ◌-◌, ◌%◌, ltb, leb, ◌==◌, if◌then◌else◌,
  u32, sub32, get_or, set, take,
}

abbrev pub audio_pipe_cap : ℕ
audio_pipe_cap = 16384

-- `audio_pipe_t`
pub record Pipe : Type 0 where
  pub wr : ℕ
  pub rd : ℕ
  pub bytes : List ℕ

-- `audio_pipe_reset`
unfoldable pub pipe_reset : Pipe → Pipe
pipe_reset p = record p { wr = 0; rd = 0 }

-- `audio_pipe_used`
abbrev pub pipe_used : Pipe → ℕ
pipe_used p = sub32 p.wr p.rd

-- `audio_pipe_space`
unfoldable pub pipe_space : Pipe → ℕ
pipe_space p = if leb audio_pipe_cap (pipe_used p) then 0 else audio_pipe_cap - pipe_used p

-- A round of the loop of `audio_pipe_push`.
unfoldable pub put_byte : Pipe → ℕ → Pipe
put_byte p b = record p { wr = u32 (p.wr + 1); bytes = set p.bytes (p.wr % audio_pipe_cap) b }

-- The loop over the bytes to copy.
unfoldable pub put_bytes : Pipe → List ℕ → Pipe
put_bytes p [] = p
put_bytes p (b ∷ bs) = put_bytes (put_byte p b) bs

-- `audio_pipe_push` of `n` bytes from `src`: the number that it took, and the pipe.
unfoldable pub pipe_push : Pipe → Option (List ℕ) → ℕ → ℕ × Pipe
pipe_push p none n = (0, p)
pipe_push p (some src) n =
    let m = if ltb (pipe_space p) n then pipe_space p else n in
    if n == 0 then (0, p) else (m, put_bytes p (take m src))

-- The loop of `audio_pipe_pop` with `n` rounds left: the bytes that it copies.
unfoldable pub get_bytes : Pipe → ℕ → List ℕ × Pipe
get_bytes p zero = ([], p)
get_bytes p (suc n) =
    let (bs, p') = get_bytes (record p { rd = u32 (p.rd + 1) }) n in
    (get_or p.bytes (p.rd % audio_pipe_cap) 0 ∷ bs, p')

-- `audio_pipe_pop` of up to `n` bytes into a buffer: the bytes, whose number is the result.
unfoldable pub pipe_pop : Pipe → ℕ → List ℕ × Pipe
pipe_pop p n =
    let m = if ltb (pipe_used p) n then pipe_used p else n in
    if n == 0 then ([], p) else get_bytes p m

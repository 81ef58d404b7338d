-- ===== src/Audio/Pipe/Laws.antt =====
-- The pipe is a queue of at most 16384 bytes, also across the wrap of its counters.
use stm32h745_disco.Base.{
  ℕ, suc, zero, some, List, [], ◌∷◌, ◌++◌, ◌+◌, ◌-◌, ◌%◌, ◌≤◌, ◌<◌, ◌≡◌, ◌≢◌, refl, sym, ap, ap₂,
  ◌∙◌, arith, ltb, ◌==◌, u32, min, length, get_or, set, take, drop, length-set, get_or-set_self,
  get_or-set_ne, Bool-cases, inl, inr, length-take,
}
use mathlib.Core.List.{append_assoc, append-nil}
use stm32h745_disco.Audio.Pipe.{
  Pipe, audio_pipe_cap, pipe_used, pipe_space, put_byte, put_bytes, pipe_push, get_bytes, pipe_pop,
}

-- The `n` bytes from position `pos` on.
abbrev pub window : List ℕ → ℕ → ℕ → List ℕ
window bytes pos zero = []
window bytes pos (suc n) = get_or bytes (pos % audio_pipe_cap) 0 ∷ window bytes (pos + 1) n

-- The bytes waiting, oldest first.
abbrev pub contents : Pipe → List ℕ
contents p = window p.bytes p.rd (pipe_used p)

-- 32-bit counters at most the capacity apart, over an array of that size.
pub record IsValid (p : Pipe) : Type 0 where
  pub size : length p.bytes ≡ audio_pipe_cap
  pub wr_fits : p.wr < 4294967296
  pub rd_fits : p.rd < 4294967296
  pub used_fits : pipe_used p ≤ audio_pipe_cap

length-window : (bytes : List ℕ) (pos n : ℕ) → length (window bytes pos n) ≡ n
length-window bytes pos zero = refl
length-window bytes pos (suc n) = ap suc (length-window bytes (pos + 1) n)

pub length-contents : (p : Pipe) → length (contents p) ≡ pipe_used p
length-contents p = length-window p.bytes p.rd (pipe_used p)

-- A position counts modulo the capacity, which divides the modulus of the counters.
window-mod :
    (bytes : List ℕ) (p q n : ℕ)
    → p % audio_pipe_cap ≡ q % audio_pipe_cap
    → window bytes p n ≡ window bytes q n
window-mod bytes p q zero e = refl
window-mod bytes p q (suc n) e =
    ap₂ ◌∷◌ (ap (λ k. get_or bytes k 0) e) (window-mod bytes (p + 1) (q + 1) n (omega arith))

window-set :
    (bytes : List ℕ) (pos n w b : ℕ)
    → length bytes ≡ audio_pipe_cap
    → n < audio_pipe_cap
    → w ≡ (pos + n) % audio_pipe_cap
    → window (set bytes w b) pos (suc n) ≡ window bytes pos n ++ b ∷ []
window-set bytes pos zero w b size h e =
    let here : w ≡ pos % audio_pipe_cap = omega arith in
    rw (← here, get_or-set_self bytes w b 0 (omega arith))
window-set bytes pos (suc n) w b size h e =
    let other : w ≢ pos % audio_pipe_cap = omega arith in
    ap₂ ◌∷◌ (get_or-set_ne bytes w (pos % audio_pipe_cap) b 0 other)
      (window-set bytes (pos + 1) n w b size (omega arith) (omega arith))

-- A byte goes to the end of the queue.
put_byte_lem :
    {p : Pipe} (b : ℕ)
    → IsValid p
    → pipe_used p < audio_pipe_cap
    → IsValid (put_byte p b)
      × (contents (put_byte p b) ≡ contents p ++ b ∷ [])
      × (pipe_used (put_byte p b) ≡ pipe_used p + 1)
unfolding put_byte
put_byte_lem {p} b v room =
    let grows : pipe_used (put_byte p b) ≡ suc (pipe_used p) =
      omega (arith, v.wr_fits, v.rd_fits) in
    let at = p.wr % audio_pipe_cap in
    (
      record {
        size = length-set p.bytes at b ∙ v.size;
        wr_fits = omega arith;
        rd_fits = v.rd_fits;
        used_fits = omega (arith, grows);
      },
      ap (window (set p.bytes at b) p.rd) grows
          ∙ window-set p.bytes p.rd (pipe_used p) at b v.size room
              (omega (arith, v.wr_fits, v.rd_fits)),
      omega (arith, grows),
    )

put_bytes_lem :
    {p : Pipe} (bs : List ℕ)
    → IsValid p
    → pipe_used p + length bs ≤ audio_pipe_cap
    → IsValid (put_bytes p bs) × (contents (put_bytes p bs) ≡ contents p ++ bs)
unfolding put_bytes
put_bytes_lem {p} [] v h = (v, sym (append-nil (contents p)))
put_bytes_lem {p} (b ∷ bs) v h =
    let (v', c, n) = put_byte_lem {p = p} b v (omega arith) in
    let (w, d) = put_bytes_lem {p = put_byte p b} bs v' (omega (arith, n)) in
    (w, d ∙ ap (λ l. l ++ bs) c ∙ append_assoc (contents p) (b ∷ []) bs)

space_lem : {p : Pipe} → IsValid p → pipe_space p ≡ audio_pipe_cap - pipe_used p
unfolding pipe_space
space_lem v = ground (arith, v.used_fits)

-- From a buffer of at least `n` bytes `audio_pipe_push` takes as many of them as there is
-- room for, and appends exactly those to the queue; the pipe stays valid.
pub pipe_push_lem :
    {p : Pipe} (src : List ℕ) (n : ℕ)
    → IsValid p
    → n ≤ length src
    → let (m, p') = pipe_push p (some src) n in
      (m ≡ min n (audio_pipe_cap - length (contents p)))
      × IsValid p'
      × (contents p' ≡ contents p ++ take m src)
unfolding pipe_push
pipe_push_lem {p} src n v h =
    let s = space_lem v in
    let c = length-contents p in
    elim (Bool-cases (n == 0)) [
      | inl nothing ↦ rw nothing (ground arith, v, sym (append-nil (contents p)))
      | inr more ↦ elim (Bool-cases (ltb (pipe_space p) n)) [
        | inl short ↦
            let (w, d) = taken (pipe_space p) (omega (arith, s)) in
            rw (more, short) (ground (arith, s, c), w, d)
        | inr long ↦
            let (w, d) = taken n (ground (arith, s)) in rw (more, long) (ground (arith, s, c), w, d)
      ]
    ]
  where
    taken :
        (m : ℕ)
        → m ≤ audio_pipe_cap - pipe_used p
        → IsValid (put_bytes p (take m src))
          × (contents (put_bytes p (take m src)) ≡ contents p ++ take m src)
    taken m k = put_bytes_lem {p = p} (take m src) v (omega (arith, length-take m src, v.used_fits))

-- The pipe with its oldest byte taken.
abbrev next : Pipe → Pipe
next p = record p { rd = u32 (p.rd + 1) }

contents-next :
    {p : Pipe}
    → IsValid p
    → 0 < pipe_used p
    → IsValid (next p)
      × (pipe_used p ≡ suc (pipe_used (next p)))
      × (contents p ≡ get_or p.bytes (p.rd % audio_pipe_cap) 0 ∷ contents (next p))
contents-next {p} v h =
    let shrinks : pipe_used p ≡ suc (pipe_used (next p)) = omega (arith, v.wr_fits, v.rd_fits) in
    (
      record {
        size = v.size;
        wr_fits = v.wr_fits;
        rd_fits = omega arith;
        used_fits = omega (arith, v.used_fits, shrinks);
      },
      shrinks,
      ap (window p.bytes p.rd) shrinks
          ∙ ap (λ l. get_or p.bytes (p.rd % audio_pipe_cap) 0 ∷ l)
              (window-mod p.bytes (p.rd + 1) (u32 (p.rd + 1)) (pipe_used (next p)) (omega arith)),
    )

get_bytes_lem :
    (n : ℕ) {p : Pipe}
    → IsValid p
    → n ≤ pipe_used p
    → let (bs, p') = get_bytes p n in
      (bs ≡ take n (contents p)) × IsValid p' × (contents p' ≡ drop n (contents p))
unfolding get_bytes
get_bytes_lem zero {p} v h = (refl, v, refl)
get_bytes_lem (suc n) {p} v h =
    let (v', shrinks, c) = contents-next {p = p} v (omega arith) in
    let (bs, w, d) = get_bytes_lem n {p = next p} v' (omega (arith, shrinks)) in
    (
      ap (λ l. get_or p.bytes (p.rd % audio_pipe_cap) 0 ∷ l) bs ∙ sym (ap (take (suc n)) c),
      w,
      d ∙ sym (ap (drop (suc n)) c),
    )

-- `audio_pipe_pop` gives the `n` oldest bytes, or all if there are fewer, and leaves the others; the
-- pipe stays valid.
pub pipe_pop_lem :
    {p : Pipe} (n : ℕ)
    → IsValid p
    → let (bs, p') = pipe_pop p n in
      let m = min n (length (contents p)) in
      (bs ≡ take m (contents p)) × IsValid p' × (contents p' ≡ drop m (contents p))
unfolding pipe_pop
pipe_pop_lem {p} n v =
    let c = length-contents p in
    elim (Bool-cases (n == 0)) [
      | inl nothing ↦
          let e : min n (length (contents p)) ≡ 0 = ground arith in
          rw nothing (copied 0 e (refl, v, refl))
      | inr more ↦ elim (Bool-cases (ltb (pipe_used p) n)) [
        | inl short ↦
            rw (more, short)
              (copied (pipe_used p) (ground (arith, c))
                (get_bytes_lem (pipe_used p) {p = p} v (omega arith)))
        | inr long ↦
            rw (more, long)
              (copied n (ground (arith, c)) (get_bytes_lem n {p = p} v (ground arith)))
      ]
    ]
  where
    copied :
        (k : ℕ) {bs : List ℕ} {p' : Pipe}
        → min n (length (contents p)) ≡ k
        → (bs ≡ take k (contents p)) × IsValid p' × (contents p' ≡ drop k (contents p))
        → (bs ≡ take (min n (length (contents p))) (contents p))
          × IsValid p'
          × (contents p' ≡ drop (min n (length (contents p))) (contents p))
    copied k e (a, b, d) =
        (a ∙ ap (λ j. take j (contents p)) (sym e), b, d ∙ ap (λ j. drop j (contents p)) (sym e))

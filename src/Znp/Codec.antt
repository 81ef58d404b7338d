-- ===== src/Znp/Codec.antt =====
-- Encoding and decoding undo one another.
use stm32h745_disco.Base.{
  ℕ, zero, suc, true, false, some, List, [], ◌∷◌, ◌++◌, ◌+◌, ◌≤◌, ◌<◌, ◌≡◌, refl, sym, ap, ap₂,
  subst, ◌∙◌, arith, ltb, ◌==◌, if◌then◌else◌, not, ◌&&◌, u8, bit_xor, length, get_or, take, drop,
  length-append, length-take, take-append, get_or-append, Err, value, error,
}
use mathlib.Core.List.{append_assoc}
use stm32h745_disco.Znp.{znp_sof, fcs, fcs_from, encode, decode, Frame}

-- The frame of a payload.
abbrev pub frame : ℕ → ℕ → List ℕ → List ℕ
frame cmd0 cmd1 payload =
    let n = length payload in znp_sof ∷ n ∷ cmd0 ∷ cmd1 ∷ (payload ++ fcs n cmd0 cmd1 payload ∷ [])

take_self {ℓ} : {A : Type ℓ} (xs : List A) → take (length xs) xs ≡ xs
take_self [] = refl
take_self (x ∷ xs) = ap (λ l. x ∷ l) (take_self xs)

-- A buffer that holds the frame gets it; a shorter one is refused.
pub encode_lem :
    (cmd0 cmd1 : ℕ) (payload : List ℕ) (out_sz : ℕ)
    → encode cmd0 cmd1 (some payload) (length payload) out_sz ≡ (
        if ltb out_sz (length payload + 5)
        then error Err.nospc
        else value (frame cmd0 cmd1 payload))
unfolding encode
encode_lem cmd0 cmd1 payload out_sz = rw (take_self payload) (ground arith)

fcs-append :
    (cmd0 cmd1 : ℕ) (payload rest : List ℕ)
    → fcs (length payload) cmd0 cmd1 (payload ++ rest) ≡ fcs (length payload) cmd0 cmd1 payload
unfolding fcs
fcs-append cmd0 cmd1 payload rest = rw (take-append payload rest, take_self payload) refl

-- A start byte, a length, two command bytes and enough bytes behind them, of which the one past the
-- payload is the checksum, are taken apart.
decode_parts :
    (n cmd0 cmd1 : ℕ) (tail : List ℕ) (room : ℕ)
    → n ≤ room
    → n < length tail
    → get_or tail n 0 ≡ fcs n cmd0 cmd1 tail
    → decode (znp_sof ∷ n ∷ cmd0 ∷ cmd1 ∷ tail) true room
      ≡ value (record { cmd0 = cmd0; cmd1 = cmd1; payload = take n tail })
unfolding decode
decode_parts n cmd0 cmd1 tail room fits long sum =
    let four : 4 + n ≡ suc (suc (suc (suc n))) = omega arith in
    let short : ltb (suc (suc (suc (suc (length tail))))) 5 ≡ false = ground arith in
    let whole : ltb (suc (suc (suc (suc (length tail))))) (n + 5) ≡ false = ground arith in
    let roomy : ltb room n ≡ false = ground arith in
    let given : (ltb 0 n && not true) ≡ false = ground arith in
    let good : (fcs n cmd0 cmd1 tail == fcs n cmd0 cmd1 tail) ≡ true = ground arith in
    rw (four, short, whole, roomy, given, sum, good) refl

-- A frame decodes to the command bytes and the payload that it was made of, whatever bytes follow it,
-- if the payload fits the buffer.
pub decode-frame :
    (cmd0 cmd1 : ℕ) (payload rest : List ℕ) (room : ℕ)
    → length payload ≤ room
    → decode (frame cmd0 cmd1 payload ++ rest) true room
      ≡ value (record { cmd0 = cmd0; cmd1 = cmd1; payload = payload })
decode-frame cmd0 cmd1 payload rest room fits =
    let n = length payload in
    let f = fcs n cmd0 cmd1 payload in
    let tail : (payload ++ f ∷ []) ++ rest ≡ payload ++ f ∷ rest =
      append_assoc payload (f ∷ []) rest in
    let zero_more : n ≡ n + 0 = omega arith in
    let at : get_or (payload ++ f ∷ rest) n 0 ≡ f =
      ap (λ k. get_or (payload ++ f ∷ rest) k 0) zero_more ∙ get_or-append payload (f ∷ rest) 0 0 in
    let long : n < length (payload ++ f ∷ rest) = omega (arith, length-append payload (f ∷ rest)) in
    ap (λ l. decode (znp_sof ∷ n ∷ cmd0 ∷ cmd1 ∷ l) true room) tail
    ∙ decode_parts n cmd0 cmd1 (payload ++ f ∷ rest) room fits long
        (at ∙ sym (fcs-append cmd0 cmd1 payload (f ∷ rest)))
    ∙ ap (λ p. value (record { cmd0 = cmd0; cmd1 = cmd1; payload = p }))
        (take-append payload (f ∷ rest))

split_at :
    (tail : List ℕ) (n : ℕ)
    → n < length tail
    → tail ≡ take n tail ++ get_or tail n 0 ∷ drop (suc n) tail
split_at [] n h = absurd (omega arith)
split_at (x ∷ xs) zero h = refl
split_at (x ∷ xs) (suc n) h = ap (λ l. x ∷ l) (split_at xs n (omega arith))

fcs-take : (n cmd0 cmd1 : ℕ) (tail : List ℕ) → fcs n cmd0 cmd1 (take n tail) ≡ fcs n cmd0 cmd1 tail
unfolding fcs
fcs-take n cmd0 cmd1 tail = ap (fcs_from (u8 (bit_xor (bit_xor n cmd0) cmd1))) (twice n tail)
  where
    twice : (n : ℕ) (l : List ℕ) → take n (take n l) ≡ take n l
    twice zero l = refl
    twice (suc n) [] = refl
    twice (suc n) (x ∷ l) = ap (λ k. x ∷ k) (twice n l)

-- What the decoder has checked when it gives a frame.
record Checked (sof n cmd0 cmd1 : ℕ) (tail : List ℕ) (room : ℕ) (f : Frame) : Type 0 where
  start : sof ≡ znp_sof
  whole : n < length tail
  roomy : n ≤ room
  sum : get_or tail n 0 ≡ fcs n cmd0 cmd1 tail
  parts : f ≡ record { cmd0 = cmd0; cmd1 = cmd1; payload = take n tail }

decode-Checked :
    (sof n cmd0 cmd1 : ℕ) (tail : List ℕ) (room : ℕ) (f : Frame)
    → decode (sof ∷ n ∷ cmd0 ∷ cmd1 ∷ tail) true room ≡ value f
    → Checked sof n cmd0 cmd1 tail room f
unfolding decode
decode-Checked sof n cmd0 cmd1 tail room f e =
    let four : 4 + n ≡ suc (suc (suc (suc n))) = omega arith in
    let e' = rw four at e in ground arith

-- Whatever the decoder accepts begins with the frame of what it gives out, which fits the buffer: no
-- other bytes than those of an encoding are taken for a frame.
pub decode_sound :
    (input : List ℕ) (room : ℕ) (f : Frame)
    → decode input true room ≡ value f
    → (rest : List ℕ) × (input ≡ frame f.cmd0 f.cmd1 f.payload ++ rest) × (length f.payload ≤ room)
unfolding decode
decode_sound [] room f e = cc
decode_sound (a ∷ []) room f e = cc
decode_sound (a ∷ b ∷ []) room f e = cc
decode_sound (a ∷ b ∷ c ∷ []) room f e = cc
decode_sound (sof ∷ n ∷ cmd0 ∷ cmd1 ∷ tail) room f e =
    let c = decode-Checked sof n cmd0 cmd1 tail room f e in
    let p = take n tail in
    let rest = drop (suc n) tail in
    let size : length p ≡ n = omega (arith, length-take n tail, c.whole) in
    let sum : fcs (length p) cmd0 cmd1 p ≡ get_or tail n 0 =
      ap (λ k. fcs k cmd0 cmd1 p) size ∙ fcs-take n cmd0 cmd1 tail ∙ sym c.sum in
    let body : tail ≡ (p ++ fcs (length p) cmd0 cmd1 p ∷ []) ++ rest =
      split_at tail n c.whole
      ∙ ap (λ k. p ++ k ∷ rest) (sym sum)
      ∙ sym (append_assoc p (fcs (length p) cmd0 cmd1 p ∷ []) rest) in
    let head : (sof ∷ n ∷ cmd0 ∷ cmd1 ∷ tail) ≡ (znp_sof ∷ length p ∷ cmd0 ∷ cmd1 ∷ tail) =
      ap₂ (λ s k. s ∷ k ∷ cmd0 ∷ cmd1 ∷ tail) c.start (sym size) in
    let parsed : Frame = record { cmd0 = cmd0; cmd1 = cmd1; payload = p } in
    subst
      (λ (g : Frame).
        (rest : List ℕ) × ((sof ∷ n ∷ cmd0 ∷ cmd1 ∷ tail) ≡ frame g.cmd0 g.cmd1 g.payload ++ rest)
        × (length g.payload ≤ room))
      (sym c.parts)
      (
        rest,
        head ∙ ap (λ l. znp_sof ∷ length p ∷ cmd0 ∷ cmd1 ∷ l) body,
        omega (arith, size, c.roomy),
      )

-- ===== src/Log/Digits.antt =====
-- What `put_u64` writes in base 10, read back.
use stm32h745_disco.Base.{
  ℕ, zero, suc, Bool, true, Option, none, some, List, [], ◌∷◌, ◌++◌, ◌+◌, ◌-◌, ◌*◌, ◌/◌, ◌%◌, ◌^◌,
  ◌≤◌, ◌<◌, ◌≡◌, refl, ap, ◌∙◌, arith, ltb, leb, ◌==◌, ◌&&◌, if◌then◌else◌, length, length-append,
  Bool-cases, inl, inr,
}
use mathlib.Core.Option.{some_inj}
use native.Mathlib.Nat.{div-add-mod, mod-lt}
use stm32h745_disco.Log.{put_ch, digit_ch, digits_of, put_pad, put_back, put_u64}

-- A number in decimal, read from the left; every byte must be one of '0' to '9'.
unfoldable pub read_dec : ℕ → List ℕ → Option ℕ
read_dec v [] = some v
read_dec v (c ∷ cs) =
    let rest = read_dec (v * 10 + (c - b'0')) cs in if leb b'0' c && leb c b'9' then rest else none

IsDec : ℕ → Type 0
IsDec c = (b'0' ≤ c) × (c ≤ b'9')

is_dec : (c : ℕ) → IsDec c → (leb b'0' c && leb c b'9') ≡ true
unfolding IsDec
is_dec c h = ground (arith, h.0, h.1)

read_dec-snoc :
    (v u : ℕ) (cs : List ℕ) (c : ℕ)
    → read_dec v cs ≡ some u
    → IsDec c
    → read_dec v (cs ++ c ∷ []) ≡ some (u * 10 + (c - b'0'))
unfolding read_dec
read_dec-snoc v u [] c e h = rw (is_dec c h) (ap (λ w. some (w * 10 + (c - b'0'))) (some_inj.0 e))
read_dec-snoc v u (d ∷ cs) c e h = elim (Bool-cases (leb b'0' d && leb d b'9')) [
  | inl y ↦ rw y (read_dec-snoc (v * 10 + (d - b'0')) u cs c (rw y at e) h)
  | inr y ↦ let f : none ≡ some u = rw y at e in cc
]

-- The digits that were put aside stand for a number, the last one first.
unfoldable value : List ℕ → ℕ
value [] = 0
value (c ∷ cs) = value cs * 10 + (c - b'0')

abbrev AllDec : List ℕ → Type 0
AllDec [] = Unit {0}
AllDec (c ∷ cs) = IsDec c × AllDec cs

-- What was added to a buffer: so many bytes, which read as a number.
record Added (out r : List ℕ) (size v : ℕ) : Type 0 where
  text : List ℕ
  added : r ≡ out ++ text
  long : length text ≡ size
  reads : read_dec 0 text ≡ some v

append_snoc : (xs ys : List ℕ) (c : ℕ) → (xs ++ ys) ++ c ∷ [] ≡ xs ++ (ys ++ c ∷ [])
append_snoc [] ys c = refl
append_snoc (x ∷ xs) ys c = ap (λ zs. x ∷ zs) (append_snoc xs ys c)

resize : {m size v : ℕ} {out r : List ℕ} → m ≡ size → Added out r m v → Added out r size v
resize h a = record { text = a.text; added = a.added; long = a.long ∙ h; reads = a.reads }

put_ch-Added :
    {n size v : ℕ} {out r : List ℕ} (c : ℕ)
    → length out + size + 1 < n
    → IsDec c
    → Added out r size v
    → Added out (put_ch n r c) (size + 1) (v * 10 + (c - b'0'))
unfolding put_ch
put_ch-Added {n} {v = v} {out = out} {r = r} c room dec a =
    let long = length-append out a.text in
    record {
      text = a.text ++ c ∷ [];
      added =
          let fits : ltb (length (out ++ a.text) + 1) n ≡ true =
            ground (arith, long, a.long, room) in
          rw (a.added, fits) (append_snoc out a.text c);
      long = omega (arith, length-append a.text (c ∷ []), a.long);
      reads = read_dec-snoc 0 v a.text c a.reads dec;
    }

put_back-Added :
    {n size : ℕ} {out r : List ℕ} (tmp : List ℕ)
    → length out + size + length tmp < n
    → AllDec tmp
    → Added out r size 0
    → Added out (put_back n r tmp) (size + length tmp) (value tmp)
unfolding put_back value
put_back-Added [] room d a = resize (omega arith) a
put_back-Added (c ∷ tmp) room d a =
    resize (omega arith) (put_ch-Added c (omega arith) d.0 (put_back-Added tmp (omega arith) d.1 a))

zero-IsDec : IsDec b'0'
unfolding IsDec
zero-IsDec = (omega arith, omega arith)

put_pad-Added :
    (left : ℕ) {n size : ℕ} {out r : List ℕ}
    → length out + size + left < n
    → Added out r size 0
    → Added out (put_pad left n r b'0') (size + left) 0
unfolding put_pad
put_pad-Added zero room a = resize (omega arith) a
put_pad-Added (suc left) room a =
    resize (omega arith)
      (put_pad-Added left (omega arith) (put_ch-Added b'0' (omega arith) zero-IsDec a))

digit_ch-IsDec :
    (upper : Bool) (d : ℕ) → d < 10 → IsDec (digit_ch upper d) × (digit_ch upper d - b'0' ≡ d)
unfolding digit_ch IsDec
digit_ch-IsDec upper d h = ((ground arith, ground arith), ground arith)

digits_of-AllDec : (left : ℕ) (upper : Bool) (v : ℕ) → AllDec (digits_of left upper 10 v)
unfolding digits_of
digits_of-AllDec zero upper v = tt
digits_of-AllDec (suc left) upper v =
    let d = (digit_ch-IsDec upper (v % 10) (mod-lt v (omega arith))).0 in
    let k = digits_of-AllDec left upper (v / 10) in
    elim (Bool-cases (v / 10 == 0)) [ inl y ↦ rw y (d, tt) | inr y ↦ rw y (d, k) ]

digits_of-value :
    (left : ℕ) (upper : Bool) (v : ℕ) → v < 10 ^ left → value (digits_of left upper 10 v) ≡ v
unfolding digits_of value
digits_of-value zero upper v h = omega arith
digits_of-value (suc left) upper v h =
    let split = div-add-mod v 10 in
    let k = digits_of-value left upper (v / 10) (omega (arith, split)) in
    let d = (digit_ch-IsDec upper (v % 10) (mod-lt v (omega arith))).1 in
    elim (Bool-cases (v / 10 == 0)) [
      | inl y ↦
          let none_left : v / 10 ≡ 0 = ground arith in rw y (omega (arith, d, split, none_left))
      | inr y ↦ rw y (omega (arith, d, split, k))
    ]

digits_of-length :
    (left : ℕ) (upper : Bool) (base v : ℕ) → length (digits_of left upper base v) ≤ left
unfolding digits_of
digits_of-length zero upper base v = omega arith
digits_of-length (suc left) upper base v =
    let k = digits_of-length left upper base (v / base) in
    elim (Bool-cases (v / base == 0)) [
      | inl y ↦ rw y (omega arith)
      | inr y ↦ rw y (omega (arith, k))
    ]

digits_of-some :
    (left : ℕ) (upper : Bool) (base v : ℕ) → 1 ≤ length (digits_of (suc left) upper base v)
unfolding digits_of
digits_of-some left upper base v = elim (Bool-cases (v / base == 0)) [
  | inl y ↦ rw y (omega arith)
  | inr y ↦ rw y (omega arith)
]

append_nothing : (xs : List ℕ) → xs ≡ xs ++ []
append_nothing [] = refl
append_nothing (x ∷ xs) = ap (λ ys. x ∷ ys) (append_nothing xs)

nothing-Added : (out : List ℕ) → Added out out 0 0
unfolding read_dec
nothing-Added out = record { text = []; added = append_nothing out; long = refl; reads = refl }

-- `put_u64` in base 10 with padding by zeros and a width of at most 16 only adds to the buffer, for each
-- number of 64 bits, when the buffer has 41 bytes left. What it adds is one byte or more, and at least as many as
-- the width says; each of them is one of '0' to '9', and read from the left as a decimal number they are the
-- number.
pub put_u64-read :
    {n : ℕ} (out : List ℕ) (v : ℕ) (upper : Bool) (width : ℕ)
    → v < 2 ^ 64
    → width ≤ 16
    → length out + 41 ≤ n
    → (text : List ℕ) × (put_u64 n out v 10 upper width true ≡ out ++ text)
      × (1 ≤ length text)
      × (width ≤ length text)
      × (read_dec 0 text ≡ some v)
unfolding put_u64
put_u64-read {n} out v upper width h w room =
    let tmp = digits_of 24 upper 10 v in
    let short = digits_of-length 24 upper 10 v in
    let present = digits_of-some 23 upper 10 v in
    let pad = width - length tmp in
    let padded : Added out (put_pad pad n out b'0') pad 0 =
      resize (omega arith) (put_pad-Added pad {size = 0} (omega arith) (nothing-Added out)) in
    let r : Added out (put_back n (put_pad pad n out b'0') tmp) (pad + length tmp) (value tmp) =
      put_back-Added tmp (omega (arith, short)) (digits_of-AllDec 24 upper v) padded in
    (
      r.text,
      r.added,
      omega (arith, r.long, present),
      omega (arith, r.long),
      r.reads ∙ ap some (digits_of-value 24 upper v (omega arith)),
    )

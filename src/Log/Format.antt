-- ===== src/Log/Format.antt =====
-- `format_msg` of firmware/src/svc/log.c. The variable arguments are a list; asking for one that is not
-- there or is of another type, and a width beyond an `int`, are undefined in C, and `none` here.
use stm32h745_disco.Base.{
  ℕ, zero, suc, Bool, true, false, Option, none, some, List, [], ◌∷◌, ◌+◌, ◌-◌, ◌*◌, ◌^◌, ltb, leb,
  ◌==◌, if◌then◌else◌, not, ◌&&◌, ◌||◌, length,
}
use stm32h745_disco.Base.Int.{ℤ, neg_part, mod_ℤ}
use stm32h745_disco.Base.Access.{◌>>=◌}
use stm32h745_disco.Log.{put_ch, put_str, put_u64, uabs64}

-- A number is of type int, long or long long (0, 1, 2), with 32, 32 and 64 bits on both cores.
pub data Arg : Type 0 where
  num : ℕ → ℤ → Arg
  str : Option (List ℕ) → Arg
  ptr : ℕ → Arg

abbrev pub modulus : ℕ → ℕ
modulus rank = if ltb rank 2 then 2 ^ 32 else 2 ^ 64

abbrev pub arg_rank : ℕ → ℕ
arg_rank llen = if ltb llen 2 then llen else 2

-- `va_arg` for a number.
unfoldable pub next_num : ℕ → List Arg → Option (ℤ × List Arg)
next_num rank (num r v ∷ args) = if r == rank then some (v, args) else none
next_num rank args = none

unfoldable pub next_str : List Arg → Option (Option (List ℕ) × List Arg)
next_str (str s ∷ args) = some (s, args)
next_str args = none

unfoldable pub next_ptr : List Arg → Option (ℕ × List Arg)
next_ptr (ptr p ∷ args) = some (p, args)
next_ptr args = none

abbrev pub is_digit : ℕ → Bool
is_digit c = leb b'0' c && leb c b'9'

-- The loop over the digits of the width.
unfoldable pub scan_width : ℕ → List ℕ → Option (ℕ × List ℕ)
scan_width w [] = some (w, [])
scan_width w (c ∷ p) =
    let next = w * 10 + (c - b'0') in
    let rest = scan_width next p in
    if not (is_digit c) then some (w, c ∷ p) else if ltb 2147483647 next then none else rest

-- The flag for zeros.
unfoldable pub scan_zero : List ℕ → Bool × List ℕ
scan_zero [] = (false, [])
scan_zero (c ∷ p) = if c == b'0' then (true, p) else (false, c ∷ p)

-- A character that may be there.
unfoldable pub skip_ch : ℕ → List ℕ → Bool × List ℕ
skip_ch k [] = (false, [])
skip_ch k (c ∷ p) = if c == k then (true, p) else (false, c ∷ p)

-- The length modifiers: z, l, ll, h, hh.
unfoldable pub scan_length : List ℕ → ℕ × List ℕ
scan_length p =
    let (z, p1) = skip_ch b'z' p in
    let (l, p2) = skip_ch b'l' p in
    let (l2, p3) = skip_ch b'l' p2 in
    let (h, p4) = skip_ch b'h' p in
    let (h2, p5) = skip_ch b'h' p4 in
    if z
    then (1, p1)
    else if l
    then (if l2 then (2, p3) else (1, p2))
    else if h
    then (0, p5)
    else (0, p)

-- The conversions d and i: the sign is written before the padding.
unfoldable pub put_signed : ℕ → List ℕ → ℤ → ℕ → Bool → List ℕ
put_signed n out sv width zpad =
    if leb 1 (neg_part sv)
    then put_u64 n (put_ch n out b'-') (uabs64 sv) 10 false (width - 1) zpad
    else put_u64 n out (uabs64 sv) 10 false width zpad

-- One conversion, for the character that names it; `none` where an argument is missing.
unfoldable pub convert : ℕ → List ℕ → List Arg → ℕ → ℕ → ℕ → Bool → Option (List ℕ × List Arg)
convert n out args c llen width zpad =
    if c == b'c'
    then (next_num 0 args >>= λ (v, rest). some (put_ch n out (mod_ℤ v 256), rest))
    else if c == b's'
    then (next_str args >>= λ (s, rest). some (put_str n out s, rest))
    else if c == b'p'
    then (next_ptr args >>= λ (p, rest).
        some (put_u64 n (put_str n out (some (b'0' ∷ b'x' ∷ []))) p 16 false 0 false, rest))
    else if c == b'd' || c == b'i'
    then (next_num (arg_rank llen) args >>= λ (v, rest). some (put_signed n out v width zpad, rest))
    else if c == b'u' || (c == b'x' || c == b'X')
    then (next_num (arg_rank llen) args >>= λ (v, rest). some (
      put_u64 n out (mod_ℤ v (modulus (arg_rank llen))) (if c == b'u' then 10 else 16) (c == b'X')
          width zpad,
      rest,
    ))
    else some (put_ch n out c, args)

-- What follows a percent sign that is not doubled.
unfoldable pub directive : ℕ → List ℕ → List Arg → List ℕ → Option (List ℕ × List Arg × List ℕ)
directive n out args p =
    let (zpad, p1) = scan_zero p in
    scan_width 0 p1 >>= λ (w, p2).
    let (llen, p3) = scan_length p2 in
    elim p3 [
      | [] ↦ some (out, args, [])
      | c ∷ p4 ↦
          convert n out args c llen (if ltb 16 w then 16 else w) zpad >>= λ (o, a). some (o, a, p4)
    ]

-- What follows a percent sign.
unfoldable pub percent : ℕ → List ℕ → List Arg → List ℕ → Option (List ℕ × List Arg × List ℕ)
percent n out args [] = some (put_ch n out b'%', args, [])
percent n out args (c ∷ p) =
    if c == b'%' then some (put_ch n out b'%', args, p) else directive n out args (c ∷ p)

-- The body of the loop of `format_msg`, at the character `c`.
unfoldable pub format_one : ℕ → List ℕ → List Arg → ℕ → List ℕ → Option (List ℕ × List Arg × List ℕ)
format_one n out args c p =
    if c == b'%'
    then percent n out args p
    else if c == b'\r' || c == b'\n'
    then some (out, args, p)
    else some (put_ch n out c, args, p)

-- The loop, on fuel for the characters of the format.
unfoldable pub format : ℕ → ℕ → List ℕ → List Arg → List ℕ → Option (List ℕ)
format fuel n out args [] = some out
format zero n out args (c ∷ p) = none
format (suc fuel) n out args (c ∷ p) =
    format_one n out args c p >>= λ (o, a, rest). format fuel n o a rest

-- `format_msg`
unfoldable pub format_msg : ℕ → List ℕ → Option (List ℕ) → List Arg → Option (List ℕ)
format_msg n out none args = some out
format_msg n out (some fmt) args = format (length fmt) n out args fmt

-- ===== src/Log/Bounds.antt =====
-- What is put into a buffer leaves room for the terminator.
use stm32h745_disco.Base.{
  ℕ, zero, suc, Bool, false, Option, none, some, List, [], ◌∷◌, ◌≤◌, ◌<◌, arith, ltb, leb, ◌==◌,
  if◌then◌else◌, ◌||◌, length, length-append, Bool-cases, inl, inr,
}
use stm32h745_disco.Base.Access.{Partly, Partly-some, Partly-bind, Partly-if}
use stm32h745_disco.Base.Int.{ℤ, neg_part, mod_ℤ}
use stm32h745_disco.Log.{
  log_line_max, put_ch, put_all, put_str, put_u64, put_pad, put_back, digits_of, null_text,
}
use stm32h745_disco.Log.Format.{
  Arg, modulus, arg_rank, next_num, next_str, next_ptr, put_signed, convert,
}
use stm32h745_disco.Log.Write.{Log, line_head}

-- Room for the terminator.
abbrev pub Fits : ℕ → List ℕ → Type 0
Fits n out = length out < n

pub put_ch-Fits : {n : ℕ} (out : List ℕ) (c : ℕ) → Fits n out → Fits n (put_ch n out c)
unfolding put_ch
put_ch-Fits {n} out c h = ground (arith, length-append out (c ∷ []))

put_all-Fits : {n : ℕ} (out s : List ℕ) → Fits n out → Fits n (put_all n out s)
unfolding put_all
put_all-Fits out [] h = h
put_all-Fits out (c ∷ s) h = put_all-Fits (put_ch _ out c) s (put_ch-Fits out c h)

put_str-Fits : {n : ℕ} (out : List ℕ) (s : Option (List ℕ)) → Fits n out → Fits n (put_str n out s)
unfolding put_str
put_str-Fits out none h = put_all-Fits out null_text h
put_str-Fits out (some s) h = put_all-Fits out s h

put_pad-Fits :
    (left : ℕ) {n : ℕ} (out : List ℕ) (c : ℕ) → Fits n out → Fits n (put_pad left n out c)
unfolding put_pad
put_pad-Fits zero out c h = h
put_pad-Fits (suc left) out c h = put_pad-Fits left (put_ch _ out c) c (put_ch-Fits out c h)

put_back-Fits : {n : ℕ} (out tmp : List ℕ) → Fits n out → Fits n (put_back n out tmp)
unfolding put_back
put_back-Fits out [] h = h
put_back-Fits out (c ∷ tmp) h = put_ch-Fits (put_back _ out tmp) c (put_back-Fits out tmp h)

put_u64-Fits :
    {n : ℕ} (out : List ℕ) (v base : ℕ) (upper : Bool) (width : ℕ) (zpad : Bool)
    → Fits n out
    → Fits n (put_u64 n out v base upper width zpad)
unfolding put_u64
put_u64-Fits {n} out v base upper width zpad h = elim (Bool-cases (ltb base 2 || ltb 16 base)) [
  | inl bad ↦ rw bad h
  | inr good ↦ rw good (put_back-Fits _ (digits_of 24 upper base v) (put_pad-Fits _ out _ h))
]

put_signed-Fits :
    {n : ℕ} (out : List ℕ) (sv : ℤ) (width : ℕ) (zpad : Bool)
    → Fits n out
    → Fits n (put_signed n out sv width zpad)
unfolding put_signed
put_signed-Fits {n} out sv width zpad h = elim (Bool-cases (leb 1 (neg_part sv))) [
  | inl negative ↦ rw negative (put_u64-Fits _ _ 10 false _ zpad (put_ch-Fits out b'-' h))
  | inr other ↦ rw other (put_u64-Fits out _ 10 false width zpad h)
]

-- The line begins within its buffer.
pub line_head-Fits :
    (default_core : List ℕ) (g : Log) (now_ms lvl : ℕ) (mod_name : Option (List ℕ))
    → Fits log_line_max (line_head default_core g now_ms lvl mod_name)
unfolding line_head
line_head-Fits default_core g now_ms lvl mod_name = put_ch-Fits _ _ (
    put_str-Fits _ (some _) (
      put_ch-Fits _ _ (
        put_ch-Fits _ _ (
          put_ch-Fits _ _ (
            put_u64-Fits _ now_ms 10 false 0 false
              (put_ch-Fits _ _ (put_str-Fits [] (some _) (omega arith))))))))

-- What a conversion leaves: a line that fits, and of the format no more than it was given.
abbrev pub Kept : ℕ → List ℕ → List ℕ × List Arg × List ℕ → Type 0
Kept n p r = Fits n r.0 × (length r.2 ≤ length p)

abbrev pub OutFits : ℕ → List ℕ × List Arg → Type 0
OutFits n r = Fits n r.0

anything {ℓ} : {A : Type ℓ} {o : Option A} → Partly (λ a. Unit {0}) o
anything = record { on = λ a e. tt }

pub convert-Fits :
    {n : ℕ} (out : List ℕ) (args : List Arg) (c llen width : ℕ) (zpad : Bool)
    → Fits n out
    → Partly (OutFits n) (convert n out args c llen width zpad)
unfolding convert
convert-Fits {n} out args c llen width zpad h =
    Partly-if (c == b'c')
      (λ e. Partly-bind {o = next_num 0 args} anything (λ (r : ℤ × List Arg) u.
        Partly-some {a = (put_ch n out (mod_ℤ r.0 256), r.1)} (put_ch-Fits out _ h)))
      (λ e.
        Partly-if (c == b's')
          (λ e. Partly-bind {o = next_str args} anything (λ (r : Option (List ℕ) × List Arg) u.
            Partly-some {a = (put_str n out r.0, r.1)} (put_str-Fits out r.0 h)))
          (λ e.
            Partly-if (c == b'p')
              (λ e. Partly-bind {o = next_ptr args} anything (λ (r : ℕ × List Arg) u.
                Partly-some
                  {a = (
                    put_u64 n (put_str n out (some (b'0' ∷ b'x' ∷ []))) r.0 16 false 0 false,
                    r.1,
                  )}
                  (put_u64-Fits _ r.0 16 false 0 false
                    (put_str-Fits out (some (b'0' ∷ b'x' ∷ [])) h))))
              (λ e.
                Partly-if (c == b'd' || c == b'i')
                  (λ e.
                    Partly-bind {o = next_num (arg_rank llen) args} anything
                      (λ (r : ℤ × List Arg) u.
                        Partly-some {a = (put_signed n out r.0 width zpad, r.1)}
                          (put_signed-Fits out r.0 width zpad h)))
                  (λ e.
                    Partly-if (c == b'u' || (c == b'x' || c == b'X'))
                      (λ e.
                        Partly-bind {o = next_num (arg_rank llen) args} anything
                          (λ (r : ℤ × List Arg) u.
                            Partly-some
                              {a = (
                                put_u64 n out (mod_ℤ r.0 (modulus (arg_rank llen)))
                                    (if c == b'u' then 10 else 16) (c == b'X') width zpad,
                                r.1,
                              )}
                              (put_u64-Fits out _ _ _ width zpad h)))
                      (λ e. Partly-some {a = (put_ch n out c, args)} (put_ch-Fits out c h))))))

-- ===== src/Log/Loop.antt =====
-- The loop of the formatter keeps the line within its buffer, and its fuel is enough.
use stm32h745_disco.Base.{
  ℕ, zero, suc, Option, none, some, List, [], ◌∷◌, ◌+◌, ◌-◌, ◌*◌, ◌≤◌, ◌≡◌, arith, ltb, ◌==◌,
  if◌then◌else◌, not, ◌||◌, length, Bool-cases, Option-cases, inl, inr,
}
use stm32h745_disco.Base.Access.{◌>>=◌, Partly, Partly-some, Partly-none, Partly-bind, Partly-if}
use stm32h745_disco.Log.{put_ch}
use stm32h745_disco.Log.Format.{
  Arg, is_digit, scan_width, scan_zero, skip_ch, scan_length, convert, directive, percent,
  format_one, format,
}
use stm32h745_disco.Log.Bounds.{Fits, Kept, put_ch-Fits, convert-Fits}

scan_zero-shorter : (p : List ℕ) → length (scan_zero p).1 ≤ length p
unfolding scan_zero
scan_zero-shorter [] = omega arith
scan_zero-shorter (c ∷ p) = ground arith

skip_ch-shorter : (k : ℕ) (p : List ℕ) → length (skip_ch k p).1 ≤ length p
unfolding skip_ch
skip_ch-shorter k [] = omega arith
skip_ch-shorter k (c ∷ p) = ground arith

scan_length-shorter : (p : List ℕ) → length (scan_length p).1 ≤ length p
unfolding scan_length
scan_length-shorter p =
    let z = skip_ch-shorter b'z' p in
    let l = skip_ch-shorter b'l' p in
    let l2 = skip_ch-shorter b'l' (skip_ch b'l' p).1 in
    let h = skip_ch-shorter b'h' p in
    let h2 = skip_ch-shorter b'h' (skip_ch b'h' p).1 in
    elim (Bool-cases (skip_ch b'z' p).0) [
      | inl y ↦ simp y z
      | inr y ↦ elim (Bool-cases (skip_ch b'l' p).0) [
        | inl w ↦ elim (Bool-cases (skip_ch b'l' (skip_ch b'l' p).1).0) [
          | inl x ↦ simp (y, w, x) (omega arith)
          | inr x ↦ simp (y, w, x) l
        ]
        | inr w ↦ elim (Bool-cases (skip_ch b'h' p).0) [
          | inl x ↦ simp (y, w, x) (omega arith)
          | inr x ↦ simp (y, w, x) (omega arith)
        ]
      ]
    ]

scan_width-shorter : (w : ℕ) (p : List ℕ) → Partly (λ r. length r.1 ≤ length p) (scan_width w p)
unfolding scan_width
scan_width-shorter w [] = Partly-some {a = (w, [])} (omega arith)
scan_width-shorter w (c ∷ p) =
    let next = w * 10 + (c - b'0') in
    Partly-if (not (is_digit c)) (λ e. Partly-some {a = (w, c ∷ p)} (omega arith))
      (λ e.
        Partly-if (ltb 2147483647 next) (λ e. Partly-none)
          (λ e. record { on = λ r q. omega (arith, (scan_width-shorter next p).on r q) }))

directive-Kept :
    {n : ℕ} (out : List ℕ) (args : List Arg) (p : List ℕ)
    → Fits n out
    → Partly (Kept n p) (directive n out args p)
unfolding directive
directive-Kept {n} out args p h =
    let z = scan_zero-shorter p in
    Partly-bind (scan_width-shorter 0 (scan_zero p).1) (λ r k.
      after_length r.0 (scan_length r.1).0 (scan_length r.1).1
        (omega (arith, scan_length-shorter r.1)))
  where
    after_length :
        (w llen : ℕ) (p3 : List ℕ)
        → length p3 ≤ length p
        → Partly (Kept n p) (elim p3 [
          | [] ↦ some (out, args, [])
          | c ∷ p4 ↦
              convert n out args c llen (if ltb 16 w then 16 else w) (scan_zero p).0 >>= λ (o, a).
              some (o, a, p4)
        ])
    after_length w llen [] k = Partly-some {a = (out, args, [])} (h, omega arith)
    after_length w llen (c ∷ p4) k =
        Partly-bind (convert-Fits out args c llen _ _ h)
          (λ r f. Partly-some {a = (r.0, r.1, p4)} (f, omega arith))

percent-Kept :
    {n : ℕ} (out : List ℕ) (args : List Arg) (p : List ℕ)
    → Fits n out
    → Partly (Kept n p) (percent n out args p)
unfolding percent
percent-Kept {n} out args [] h =
    Partly-some {a = (put_ch n out b'%', args, [])} (put_ch-Fits out b'%' h, omega arith)
percent-Kept {n} out args (c ∷ p) h =
    Partly-if (c == b'%')
      (λ e. Partly-some {a = (put_ch n out b'%', args, p)} (put_ch-Fits out b'%' h, omega arith))
      (λ e. directive-Kept out args (c ∷ p) h)

format_one-Kept :
    {n : ℕ} (out : List ℕ) (args : List Arg) (c : ℕ) (p : List ℕ)
    → Fits n out
    → Partly (Kept n p) (format_one n out args c p)
unfolding format_one
format_one-Kept {n} out args c p h =
    Partly-if (c == b'%') (λ e. percent-Kept out args p h)
      (λ e.
        Partly-if (c == b'\r' || c == b'\n')
          (λ e. Partly-some {a = (out, args, p)} (h, omega arith))
          (λ e. Partly-some {a = (put_ch n out c, args, p)} (put_ch-Fits out c h, omega arith)))

pub format-Fits :
    (fuel : ℕ) {n : ℕ} (out : List ℕ) (args : List Arg) (p : List ℕ)
    → Fits n out
    → Partly (Fits n) (format fuel n out args p)
unfolding format
format-Fits fuel out args [] h = Partly-some h
format-Fits zero out args (c ∷ p) h = Partly-none
format-Fits (suc fuel) out args (c ∷ p) h =
    Partly-bind (format_one-Kept out args c p h) (λ r k. format-Fits fuel r.0 r.1 r.2 k.0)

-- What the loop reaches from a place by its body, one character or directive at a time.
pub data Reaches (n : ℕ) (out : List ℕ) (args : List Arg) (p : List ℕ)
    : List ℕ → List Arg → List ℕ → Type 0 where
  here : Reaches n out args p out args p
  step :
      {o o2 : List ℕ} {a a2 : List Arg} {c : ℕ} {q q2 : List ℕ}
      → Reaches n out args p o a (c ∷ q)
      → format_one n o a c q ≡ some (o2, a2, q2)
      → Reaches n out args p o2 a2 q2

-- The loop ended: at the end of the format, with the line it has there, or at a directive that C leaves
-- undefined.
pub data Ends (n : ℕ) (out : List ℕ) (args : List Arg) (p : List ℕ) : Option (List ℕ) → Type 0 where
  whole :
      {o : List ℕ} {a : List Arg}
      → Reaches n out args p o a []
      → Fits n o
      → Ends n out args p (some o)
  undefined :
      {o : List ℕ} {a : List Arg} {c : ℕ} {q : List ℕ}
      → Reaches n out args p o a (c ∷ q)
      → format_one n o a c q ≡ none
      → Ends n out args p none

format_from :
    (fuel : ℕ) {n : ℕ} {out : List ℕ} {args : List Arg} {p : List ℕ} (o : List ℕ) (a : List Arg)
    (q : List ℕ)
    → Reaches n out args p o a q
    → Fits n o
    → length q ≤ fuel
    → Ends n out args p (format fuel n o a q)
unfolding format
format_from fuel o a [] r h k = whole r h
format_from zero o a (c ∷ q) r h k = absurd (omega arith)
format_from (suc fuel) {n} o a (c ∷ q) r h k = elim (Option-cases (format_one n o a c q)) [
  | inl nothing ↦ rw nothing (undefined r nothing)
  | inr (t, e) ↦
      let kept = (format_one-Kept o a c q h).on t e in
      rw e (format_from fuel t.0 t.1 t.2 (step r e) kept.0 (omega (arith, kept.1)))
]

-- The loop of `format_msg` ends by itself, within as many turns as the format has characters, where the
-- buffer has room for the terminator: its turns reach the end of the format, and it gives the line they have
-- written, which fits the buffer, or they reach a directive that has no result (an argument that is missing or
-- of another type, or a width beyond an `int`).
pub format-Ends :
    (fuel : ℕ) {n : ℕ} (out : List ℕ) (args : List Arg) (p : List ℕ)
    → Fits n out
    → length p ≤ fuel
    → Ends n out args p (format fuel n out args p)
format-Ends fuel out args p h k = format_from fuel out args p here h k

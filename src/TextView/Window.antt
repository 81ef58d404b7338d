-- ===== src/TextView/Window.antt =====
-- What a window shows of well-formed text.
use stm32h745_disco.Base.{
  ℕ, zero, suc, true, false, List, [], ◌∷◌, ◌++◌, ◌+◌, ◌-◌, ◌^◌, ◌≤◌, ◌<◌, ◌≡◌, ◌⊎◌, refl, ap, ◌∙◌,
  arith, ltb, leb, ◌==◌, u32, length, length-append, take, drop, drop-append, length-take, Err,
  Bool-cases, inl, inr, min,
}
use stm32h745_disco.TextView.{text_win_max, utf8_cont, drop_cont, skip_partial, emit_all}
use stm32h745_disco.TextView.Utf8.{Utf8, nothing, one, two, three, four}
use stm32h745_disco.TextView.Kept.{NoReturn}
use stm32h745_disco.TextView.Prefix.{Stopped, emit_prefix}
use stm32h745_disco.TextView.State.{Files, TextView, bump, read_raw, show, load_window}

lead_not_cont : (a : ℕ) → a < 0x80 ⊎ 0xC0 ≤ a → utf8_cont a ≡ false
unfolding utf8_cont
lead_not_cont a (inl h) = ground arith
lead_not_cont a (inr h) = ground arith

-- Nothing is skipped at the start of a sequence.
drop_cont-take : {t : List ℕ} (n : ℕ) → Utf8 t → drop_cont (take n t) ≡ take n t
unfolding drop_cont
drop_cont-take zero u = refl
drop_cont-take (suc n) nothing = refl
drop_cont-take (suc n) (one a t h u) = rw (lead_not_cont a (inl h)) refl
drop_cont-take (suc n) (two a b t h i u) = rw (lead_not_cont a (inr (omega (arith, h.0)))) refl
drop_cont-take (suc n) (three a b c t h i u) =
    rw (lead_not_cont a (inr (omega (arith, h.lead.0)))) refl
drop_cont-take (suc n) (four a b c d t h i j u) =
    rw (lead_not_cont a (inr (omega (arith, h.lead.0)))) refl

skip_partial-take : {t : List ℕ} (n off : ℕ) → Utf8 t → skip_partial (take n t) off ≡ take n t
unfolding skip_partial
skip_partial-take n off u = elim (Bool-cases (off == 0)) [
  | inl start ↦ rw start refl
  | inr later ↦ rw later (drop_cont-take n u)
]

-- The view after the loop has stopped.
show-Stopped :
    {c : List ℕ} (v : TextView) (off n : ℕ)
    → length (take n c) ≡ n
    → n ≤ length c
    → off < 2 ^ 32
    → Utf8 c
    → (k : Stopped [] c n (emit_all n [] (take n c) (leb v.size (u32 (off + n)))))
    → show v off (take n c)
      ≡ bump (record v { text = k.s; off = off; raw = length k.s; st = Err.ok })
unfolding show
show-Stopped {c} v off n le most short u k =
    let left : length (take (n - length k.s) k.rest) ≡ n - length k.s = omega (
      arith,
      length-take (n - length k.s) k.rest,
      length-append k.s k.rest,
      ap length k.parts,
      k.within,
    ) in
    let at : u32 (off + (n - n)) ≡ off = omega (arith, short) in
    let raw : n - length (take (n - length k.s) k.rest) ≡ length k.s =
      omega (arith, left, k.within) in
    rw (skip_partial-take n off u, le, k.result, raw)
      (ap (λ o. bump (record v { text = k.s; off = o; raw = length k.s; st = Err.ok })) at)

-- The view of a file after the bytes of `c` were read that fit the window.
show_lem :
    {c : List ℕ} (v : TextView) (off n : ℕ)
    → v.size ≡ off + length c
    → v.size < 2 ^ 32
    → Utf8 c
    → NoReturn c
    → n ≡ min (length c) text_win_max
    → (s rest : List ℕ) × (c ≡ s ++ rest)
      × Utf8 rest
      × NoReturn rest
      × ((rest ≡ []) ⊎ (0 < length s))
      × (show v off (take n c)
          ≡ bump (record v { text = s; off = off; raw = length s; st = Err.ok }))
show_lem {c} v off n size short u nr n_eq =
    let le : length (take n c) ≡ n = omega (arith, length-take n c, n_eq) in
    let file_end = leb v.size (u32 (off + n)) in
    let k = emit_prefix n n [] file_end u nr (omega arith) (omega (arith, n_eq)) (λ q. whole q) in
    (
      k.s,
      k.rest,
      k.parts,
      k.rest_Utf8,
      k.rest_NoReturn,
      elim k.most [
        | inl few ↦ inr (omega (arith, few.0, few.1, n_eq))
        | inr none_left ↦ inl none_left
      ],
      show-Stopped v off n le (omega (arith, n_eq)) (omega (arith, size, short)) u k,
    )
  where
    whole : leb v.size (u32 (off + n)) ≡ true → length c ≤ n
    whole q =
        let e : u32 (off + n) ≡ off + n = omega (arith, size, short, n_eq) in
        ground (arith, e, size)

-- The view shows a part of the text `t`, between two of its sequences; `rest` is what follows.
pub record Reading (t before rest : List ℕ) (v : TextView) : Type 0 where
  pub mem : v.mem ≡ t
  pub use_mem : v.use_mem ≡ true
  pub size : v.size ≡ length t
  pub parts : t ≡ before ++ (v.text ++ rest)
  pub off : v.off ≡ length before
  pub raw : v.raw ≡ length v.text
  pub rest_Utf8 : Utf8 rest
  pub rest_NoReturn : NoReturn rest
  pub moved : (rest ≡ []) ⊎ (0 < length v.text)

pub no_bytes : (l : List ℕ) → length l ≡ 0 → l ≡ []
no_bytes [] h = refl
no_bytes (x ∷ l) h = absurd (omega arith)

module _ {S : Type 0} (d : Files S) where
  -- What is read at the place of `c`.
  read_here :
      {t : List ℕ} (v : TextView) (s : S) (before c : List ℕ)
      → v.mem ≡ t
      → v.use_mem ≡ true
      → v.size ≡ length t
      → t ≡ before ++ c
      → read_raw d v s (length before) text_win_max
        ≡ (Err.ok, take (min (length c) text_win_max) c, s)
  unfolding read_raw
  read_here {t} v s before c mem in_mem size parts =
      let long = ap length parts ∙ length-append before c in
      let here : drop (length before) v.mem ≡ c =
        ap (drop (length before)) (mem ∙ parts) ∙ drop-append before c in
      elim (Bool-cases (leb v.size (length before))) [
        | inl past ↦
            let none_there : min (length c) text_win_max ≡ 0 = ground (arith, size, long) in
            rw (past, none_there) refl
        | inr inside ↦ elim (Bool-cases (ltb (v.size - length before) text_win_max)) [
          | inl few ↦
              let n : v.size - length before ≡ min (length c) text_win_max =
                ground (arith, size, long) in
              rw (inside, few, in_mem, here, n) refl
          | inr many ↦
              let n : text_win_max ≡ min (length c) text_win_max = ground (arith, size, long) in
              rw (inside, many, in_mem, here) (ap (λ k. (Err.ok, take k c, s)) n)
        ]
      ]

  pub load_window-Reading :
      {t : List ℕ} (v : TextView) (s : S) (before c : List ℕ)
      → v.mem ≡ t
      → v.use_mem ≡ true
      → v.size ≡ length t
      → t ≡ before ++ c
      → length t < 2 ^ 32
      → Utf8 c
      → NoReturn c
      → (w : TextView) × (rest : List ℕ) × (load_window d v s (length before) ≡ (Err.ok, w, s))
        × Reading t before rest w
        × (c ≡ w.text ++ rest)
  unfolding load_window bump
  load_window-Reading {t} v s before c mem in_mem size parts short u nr =
      let long = ap length parts ∙ length-append before c in
      let v1 : TextView = record v { text = []; raw = 0 } in
      let n = min (length c) text_win_max in
      let (s', rest, cut, u', nr', moved, shown) =
        show_lem v1 (length before) n (size ∙ long) (omega (arith, size)) u nr refl in
      let near : ltb v.size (length before) ≡ false = ground (arith, size, long) in
      elim (Bool-cases (v.size == 0)) [
        | inl empty ↦
            let nothing_there : c ≡ [] = no_bytes c (ground (arith, size, long)) in
            (
              bump (record v1 { off = 0; st = Err.ok }),
              [],
              simp empty refl,
              record {
                mem = mem;
                use_mem = in_mem;
                size = size;
                parts = parts ∙ ap (λ l. before ++ l) nothing_there;
                off = ground (arith, size, long);
                raw = refl;
                rest_Utf8 = nothing;
                rest_NoReturn = tt;
                moved = inl refl;
              },
              nothing_there,
            )
        | inr filled ↦ (
          bump (record v { text = s'; off = length before; raw = length s'; st = Err.ok }),
          rest,
          rw (near, read_here v1 s before c mem in_mem size parts, filled)
              (ap (λ w. (Err.ok, w, s)) shown),
          record {
            mem = mem;
            use_mem = in_mem;
            size = size;
            parts = parts ∙ ap (λ l. before ++ l) cut;
            off = refl;
            raw = refl;
            rest_Utf8 = u';
            rest_NoReturn = nr';
            moved = moved;
          },
          cut,
        )
      ]

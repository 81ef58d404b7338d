-- ===== src/TextView/Emit.antt =====
-- What is written to the window is well-formed, and well-formed text is written as it is.
use stm32h745_disco.Base.{
  ℕ, zero, suc, Bool, true, false, List, [], ◌∷◌, ◌++◌, ◌+◌, ◌≤◌, ◌<◌, ◌≡◌, refl, arith, ltb, leb,
  ◌==◌, if◌then◌else◌, not, ◌&&◌, length, length-append, take, Bool-cases, inl, inr,
}
use stm32h745_disco.TextView.{
  text_win_max, repl, utf8_len, utf8_cont, all_cont, ok_3, ok_4, utf8_ok, emit_seq, emit_all,
}
use stm32h745_disco.TextView.Utf8.{
  In, Utf8, nothing, one, two, three, four, Utf8-append, cont→In, ok_3→Second3, ok_4→Second4,
}

-- The window: well-formed, and within its buffer.
pub record Shown (out : List ℕ) : Type 0 where
  pub well_formed : Utf8 out
  pub fits : length out ≤ text_win_max

add :
    {out : List ℕ} (s : List ℕ)
    → Utf8 s
    → length out + length s ≤ text_win_max
    → Shown out
    → Shown (out ++ s)
add {out} s u h k = record {
  well_formed = Utf8-append k.well_formed u;
  fits = omega (arith, length-append out s, h);
}

add_one :
    {out : List ℕ} (a : ℕ)
    → a < 0x80
    → length out < text_win_max
    → Shown out
    → Shown (out ++ a ∷ [])
add_one a h room k = add (a ∷ []) (one a [] h nothing) (omega arith) k

-- The first byte of a sequence of that length.
pub data Lead : ℕ → ℕ → Type 0 where
  lead_1 : {a : ℕ} → a < 0x80 → Lead 1 a
  lead_2 : {a : ℕ} → In 0xC2 0xDF a → Lead 2 a
  lead_3 : {a : ℕ} → In 0xE0 0xEF a → Lead 3 a
  lead_4 : {a : ℕ} → In 0xF0 0xF4 a → Lead 4 a

utf8_len-Lead : (a : ℕ) → (utf8_len a == 0) ≡ false → Lead (utf8_len a) a
unfolding utf8_len
utf8_len-Lead a h = elim (Bool-cases (ltb a 0x80)) [
  | inl one_byte ↦ simp one_byte (lead_1 (ground arith))
  | inr more ↦ elim (Bool-cases (leb 0xC2 a && leb a 0xDF)) [
    | inl is_two ↦ simp (more, is_two) (lead_2 (ground arith))
    | inr not_two ↦ elim (Bool-cases (leb 0xE0 a && leb a 0xEF)) [
      | inl is_three ↦ simp (more, not_two, is_three) (lead_3 (ground arith))
      | inr not_three ↦ elim (Bool-cases (leb 0xF0 a && leb a 0xF4)) [
        | inl is_four ↦ simp (more, not_two, not_three, is_four) (lead_4 (ground arith))
        | inr not_four ↦ absurd (ground arith)
      ]
    ]
  ]
]

pub Lead-utf8_len : {n a : ℕ} → Lead n a → utf8_len a ≡ n
unfolding utf8_len
Lead-utf8_len (lead_1 h) = ground arith
Lead-utf8_len (lead_2 h) = ground arith
Lead-utf8_len (lead_3 h) = ground arith
Lead-utf8_len (lead_4 h) = ground arith

-- The bytes that pass the test are a well-formed sequence.
pub piece :
    {n a : ℕ} (p : List ℕ)
    → Lead n a
    → ltb (suc (length p)) n ≡ false
    → utf8_ok (a ∷ p) n ≡ true
    → Utf8 (take n (a ∷ p)) × (length (take n (a ∷ p)) ≡ n)
unfolding utf8_ok all_cont
piece {a = a} p (lead_1 h) enough ok = (one a [] h nothing, refl)
piece [] (lead_2 h) enough ok = absurd (ground arith)
piece {a = a} (b ∷ t) (lead_2 h) enough ok =
    let k : utf8_cont b ≡ true = ground arith in (two a b [] h (cont→In b k) nothing, refl)
piece [] (lead_3 h) enough ok = absurd (ground arith)
piece (b ∷ []) (lead_3 h) enough ok = absurd (ground arith)
piece {a = a} (b ∷ c ∷ t) (lead_3 h) enough ok =
    let k : utf8_cont b ≡ true = ground arith in
    let l : utf8_cont c ≡ true = ground arith in
    let e : ok_3 a b c ≡ true = ground arith in
    (
      three a b c [] (ok_3→Second3 a b c h (cont→In b k) (cont→In c l) e) (cont→In c l) nothing,
      refl,
    )
piece [] (lead_4 h) enough ok = absurd (ground arith)
piece (b ∷ []) (lead_4 h) enough ok = absurd (ground arith)
piece (b ∷ c ∷ []) (lead_4 h) enough ok = absurd (ground arith)
piece {a = a} (b ∷ c ∷ d ∷ t) (lead_4 h) enough ok =
    let k : utf8_cont b ≡ true = ground arith in
    let l : utf8_cont c ≡ true = ground arith in
    let m : utf8_cont d ≡ true = ground arith in
    let e : ok_4 a b c d ≡ true = ground arith in
    (
      four a b c d [] (ok_4→Second4 a b c d h (cont→In b k) e) (cont→In c l) (cont→In d m) nothing,
      refl,
    )

record Written (r : Bool × List ℕ × List ℕ) : Type 0 where
  shown : Shown r.1

emit_seq-Shown : (out p : List ℕ) (file_end : Bool) → Shown out → Written (emit_seq out p file_end)
unfolding emit_seq
emit_seq-Shown out [] file_end k = record { shown = k }
emit_seq-Shown out (b ∷ p) file_end k =
    by_if (leb text_win_max (length out)) (λ e. stop k)
      (λ room.
        by_if (b == b'\r') (λ e. stop (add_one b'\n' (omega arith) (ground arith) k))
          (λ other.
            by_if (utf8_len b == 0) (λ e. stop (add_one repl (omega arith) (ground arith) k))
              (λ is_lead.
                by_if (ltb (suc (length p)) (utf8_len b))
                  (λ e.
                    by_if file_end (λ e. stop (add_one repl (omega arith) (ground arith) k))
                      (λ e. stop k))
                  (λ enough.
                    by_if (not (utf8_ok (b ∷ p) (utf8_len b)))
                      (λ e. stop (add_one repl (omega arith) (ground arith) k))
                      (λ ok.
                        by_if (ltb text_win_max (length out + utf8_len b)) (λ e. stop k)
                          (λ in_window.
                            let s = piece p (utf8_len-Lead b is_lead) enough (ground arith) in
                            stop (add _ s.0 (ground (arith, s.1)) k)))))))
  where
    stop : {go : Bool} {o q : List ℕ} → Shown o → Written (go, o, q)
    stop s = record { shown = s }

    by_if :
        (t : Bool) {x y : Bool × List ℕ × List ℕ}
        → (t ≡ true → Written x)
        → (t ≡ false → Written y)
        → Written (if t then x else y)
    by_if true f g = f refl
    by_if false f g = g refl

pub emit_all-Shown :
    (fuel : ℕ) (out p : List ℕ) (file_end : Bool)
    → Shown out
    → Shown (emit_all fuel out p file_end).0
unfolding emit_all
emit_all-Shown zero out p e k = k
emit_all-Shown (suc fuel) out [] e k = k
emit_all-Shown (suc fuel) out (b ∷ p) e k =
    let s = (emit_seq-Shown out (b ∷ p) e k).shown in
    let r = emit_seq out (b ∷ p) e in
    let i = emit_all-Shown fuel r.1 r.2 e s in
    elim (Bool-cases (leb text_win_max (length out))) [
      | inl full ↦ simp full k
      | inr room ↦ elim (Bool-cases r.0) [
        | inl go ↦ simp (room, go) i
        | inr ended ↦ simp (room, ended) s
      ]
    ]

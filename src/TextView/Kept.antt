-- ===== src/TextView/Kept.antt =====
-- Well-formed text without carriage returns is written as it is.
use stm32h745_disco.Base.{
  ℕ, zero, suc, Bool, true, false, List, [], ◌∷◌, ◌++◌, ◌+◌, ◌≤◌, ◌<◌, ◌≡◌, ◌≢◌, refl, sym, ap, ◌∙◌,
  arith, ltb, leb, ◌==◌, length, length-append, take, drop,
}
use stm32h745_disco.TextView.{text_win_max, all_cont, utf8_ok, emit_seq, emit_all}
use stm32h745_disco.TextView.Utf8.{
  In, Second3, Second4, Utf8, nothing, one, two, three, four, In→cont, Second3→ok_3, Second4→ok_4,
}
use stm32h745_disco.TextView.Emit.{Lead, lead_1, lead_2, lead_3, lead_4, Lead-utf8_len}

abbrev pub NoReturn : List ℕ → Type 0
NoReturn [] = Unit {0}
NoReturn (b ∷ p) = (b ≢ b'\r') × NoReturn p

emit_seq_lem :
    {n a : ℕ} (out p : List ℕ) (file_end : Bool)
    → Lead n a
    → a ≢ b'\r'
    → n ≤ suc (length p)
    → utf8_ok (a ∷ p) n ≡ true
    → length out + n ≤ text_win_max
    → 0 < n
    → emit_seq out (a ∷ p) file_end ≡ (true, out ++ take n (a ∷ p), drop n (a ∷ p))
unfolding emit_seq
emit_seq_lem {n} {a} out p file_end l no_return enough ok room some_len =
    let t1 : leb text_win_max (length out) ≡ false = ground arith in
    let t2 : (a == b'\r') ≡ false = ground arith in
    let t3 : (n == 0) ≡ false = ground arith in
    let t4 : ltb (suc (length p)) n ≡ false = ground arith in
    let t5 : ltb text_win_max (length out + n) ≡ false = ground arith in
    simp (Lead-utf8_len l, t1, t2, t3, t4, ok, t5)

pub emit_all_step :
    {n a : ℕ} (fuel : ℕ) (out p : List ℕ) (file_end : Bool)
    → Lead n a
    → a ≢ b'\r'
    → n ≤ suc (length p)
    → utf8_ok (a ∷ p) n ≡ true
    → length out + n ≤ text_win_max
    → 0 < n
    → emit_all (suc fuel) out (a ∷ p) file_end
      ≡ emit_all fuel (out ++ take n (a ∷ p)) (drop n (a ∷ p)) file_end
unfolding emit_all
emit_all_step {n} {a} fuel out p file_end l no_return enough ok room some_len =
    let t1 : leb text_win_max (length out) ≡ false = ground arith in
    simp (t1, emit_seq_lem out p file_end l no_return enough ok room some_len)

pub append_end : (xs : List ℕ) → xs ++ [] ≡ xs
append_end [] = refl
append_end (x ∷ xs) = ap (λ ys. x ∷ ys) (append_end xs)

pub append_assoc : (xs ys zs : List ℕ) → (xs ++ ys) ++ zs ≡ xs ++ (ys ++ zs)
append_assoc [] ys zs = refl
append_assoc (x ∷ xs) ys zs = ap (λ l. x ∷ l) (append_assoc xs ys zs)

-- The test passes for the sequences of the table.
pub ok_of_1 : (a : ℕ) (t : List ℕ) → utf8_ok (a ∷ t) 1 ≡ true
unfolding utf8_ok all_cont
ok_of_1 a t = refl

pub ok_of_2 : (a b : ℕ) (t : List ℕ) → In 0x80 0xBF b → utf8_ok (a ∷ b ∷ t) 2 ≡ true
unfolding utf8_ok all_cont
ok_of_2 a b t i = rw (In→cont b i) refl

pub ok_of_3 :
    (a b c : ℕ) (t : List ℕ) → Second3 a b → In 0x80 0xBF c → utf8_ok (a ∷ b ∷ c ∷ t) 3 ≡ true
unfolding utf8_ok all_cont
ok_of_3 a b c t s i = rw (In→cont b s.tail, In→cont c i) (Second3→ok_3 a b c s i)

pub ok_of_4 :
    (a b c d : ℕ) (t : List ℕ)
    → Second4 a b
    → In 0x80 0xBF c
    → In 0x80 0xBF d
    → utf8_ok (a ∷ b ∷ c ∷ d ∷ t) 4 ≡ true
unfolding utf8_ok all_cont
ok_of_4 a b c d t s i j =
    rw (In→cont b s.tail, In→cont c i, In→cont d j) (Second4→ok_4 a b c d s i j)

-- What is left to show of a text after a first sequence `s`.
after_first :
    (fuel : ℕ) (out s t : List ℕ) (file_end : Bool)
    → emit_all fuel (out ++ s) t file_end ≡ ((out ++ s) ++ t, [])
    → emit_all fuel (out ++ s) t file_end ≡ (out ++ (s ++ t), [])
after_first fuel out s t file_end h = h ∙ ap (λ l. (l, [])) (append_assoc out s t)

pub emit_all-kept :
    {t : List ℕ} (fuel : ℕ) (out : List ℕ) (file_end : Bool)
    → Utf8 t
    → NoReturn t
    → length t ≤ fuel
    → length out + length t ≤ text_win_max
    → emit_all fuel out t file_end ≡ (out ++ t, [])
unfolding emit_all
emit_all-kept zero out e nothing c k room = ap (λ l. (l, [])) (sym (append_end out))
emit_all-kept (suc fuel) out e nothing c k room = ap (λ l. (l, [])) (sym (append_end out))
emit_all-kept zero out e (one a t h u) c k room = absurd (omega arith)
emit_all-kept zero out e (two a b t h i u) c k room = absurd (omega arith)
emit_all-kept zero out e (three a b d t h i u) c k room = absurd (omega arith)
emit_all-kept zero out e (four a b d f t h i j u) c k room = absurd (omega arith)
emit_all-kept (suc fuel) out e (one a t h u) c k room =
    emit_all_step fuel out t e (lead_1 h) c.0 (omega arith) (ok_of_1 a t) (omega arith)
      (omega arith)
    ∙ after_first fuel out (a ∷ []) t e (
        emit_all-kept fuel (out ++ a ∷ []) e u c.1 (omega arith)
          (omega (arith, length-append out (a ∷ []))))
emit_all-kept (suc fuel) out e (two a b t h i u) c k room =
    emit_all_step fuel out (b ∷ t) e (lead_2 h) c.0 (omega arith) (ok_of_2 a b t i) (omega arith)
      (omega arith)
    ∙ after_first fuel out (a ∷ b ∷ []) t e (
        emit_all-kept fuel (out ++ a ∷ b ∷ []) e u c.1.1 (omega arith)
          (omega (arith, length-append out (a ∷ b ∷ []))))
emit_all-kept (suc fuel) out e (three a b d t h i u) c k room =
    emit_all_step fuel out (b ∷ d ∷ t) e (lead_3 h.lead) c.0 (omega arith) (ok_of_3 a b d t h i)
      (omega arith) (omega arith)
    ∙ after_first fuel out (a ∷ b ∷ d ∷ []) t e (
        emit_all-kept fuel (out ++ a ∷ b ∷ d ∷ []) e u c.1.1.1 (omega arith)
          (omega (arith, length-append out (a ∷ b ∷ d ∷ []))))
emit_all-kept (suc fuel) out e (four a b d f t h i j u) c k room =
    emit_all_step fuel out (b ∷ d ∷ f ∷ t) e (lead_4 h.lead) c.0 (omega arith)
      (ok_of_4 a b d f t h i j) (omega arith) (omega arith)
    ∙ after_first fuel out (a ∷ b ∷ d ∷ f ∷ []) t e (
        emit_all-kept fuel (out ++ a ∷ b ∷ d ∷ f ∷ []) e u c.1.1.1.1 (omega arith)
          (omega (arith, length-append out (a ∷ b ∷ d ∷ f ∷ []))))

-- ===== src/TextView/Prefix.antt =====
-- The loop of `load_window` over the first bytes of well-formed text stops between two of its sequences.
use stm32h745_disco.Base.{
  ℕ, zero, suc, Bool, true, false, List, [], ◌∷◌, ◌++◌, ◌+◌, ◌-◌, ◌≤◌, ◌<◌, ◌≡◌, ◌≢◌, ◌⊎◌, refl,
  sym, ap, ◌∙◌, arith, ltb, leb, ◌==◌, length, length-append, take, inl, inr,
}
use stm32h745_disco.TextView.{text_win_max, emit_seq, emit_all}
use stm32h745_disco.TextView.Utf8.{Utf8, nothing, one, two, three, four}
use stm32h745_disco.TextView.Emit.{Lead, lead_1, lead_2, lead_3, lead_4, Lead-utf8_len}
use stm32h745_disco.TextView.Kept.{
  NoReturn, emit_all_step, append_end, append_assoc, ok_of_1, ok_of_2, ok_of_3, ok_of_4,
}

-- Of the text `t`, of which `m` bytes were read, the sequences of `s` have been written.
pub record Stopped (out t : List ℕ) (m : ℕ) (r : List ℕ × List ℕ) : Type 0 where
  pub s : List ℕ
  pub rest : List ℕ
  pub parts : t ≡ s ++ rest
  pub rest_Utf8 : Utf8 rest
  pub rest_NoReturn : NoReturn rest
  pub within : length s ≤ m
  pub most : ((m < length s + 4) × (m < length t)) ⊎ (rest ≡ [])
  pub result : r ≡ (out ++ s, take (m - length s) rest)

-- A sequence that is cut off is left for the next window.
cut_off :
    {n a : ℕ} (fuel : ℕ) (out p : List ℕ)
    → Lead n a
    → a ≢ b'\r'
    → suc (length p) < n
    → length out < text_win_max
    → emit_all (suc fuel) out (a ∷ p) false ≡ (out, a ∷ p)
unfolding emit_all emit_seq
cut_off {n} {a} fuel out p l no_return short room =
    let t1 : leb text_win_max (length out) ≡ false = ground arith in
    let t2 : (a == b'\r') ≡ false = ground arith in
    let t3 : (n == 0) ≡ false = ground arith in
    let t4 : ltb (suc (length p)) n ≡ true = ground arith in simp (Lead-utf8_len l, t1, t2, t3, t4)

-- Nothing of `t` was written.
none_written :
    {out t : List ℕ} {m : ℕ} {r : List ℕ × List ℕ}
    → Utf8 t
    → NoReturn t
    → ((m < 4) × (m < length t)) ⊎ (t ≡ [])
    → r ≡ (out, take m t)
    → Stopped out t m r
none_written {out} {t} {m} u c few e = record {
  s = [];
  rest = t;
  parts = refl;
  rest_Utf8 = u;
  rest_NoReturn = c;
  within = omega arith;
  most = few;
  result =
      let all : m - length {A = ℕ} [] ≡ m = omega arith in
      e
      ∙ ap (λ l. (l, take m t)) (sym (append_end out))
      ∙ ap (λ j. (out ++ [], take j t)) (sym all);
}

-- A first sequence was written, and then what was written of the rest.
then_more :
    {out t : List ℕ} {m total : ℕ} (first : List ℕ) {r r' : List ℕ × List ℕ}
    → total ≡ length first + m
    → r ≡ r'
    → Stopped (out ++ first) t m r'
    → Stopped out (first ++ t) total r
then_more {out} {t} {m} {total} first sum e k = record {
  s = first ++ k.s;
  rest = k.rest;
  parts = ap (λ l. first ++ l) k.parts ∙ sym (append_assoc first k.s k.rest);
  rest_Utf8 = k.rest_Utf8;
  rest_NoReturn = k.rest_NoReturn;
  within = omega (arith, length-append first k.s, k.within, sum);
  most = elim k.most [
    | inl few ↦ inl (
      omega (arith, length-append first k.s, few.0, sum),
      omega (arith, length-append first t, few.1, sum),
    )
    | inr none_left ↦ inr none_left
  ];
  result =
      let same : total - length (first ++ k.s) ≡ m - length k.s =
        omega (arith, length-append first k.s, k.within, sum) in
      e
      ∙ k.result
      ∙ ap (λ l. (l, take (m - length k.s) k.rest)) (append_assoc out first k.s)
      ∙ ap (λ j. (out ++ (first ++ k.s), take j k.rest)) (sym same);
}

at_once : (fuel : ℕ) (out : List ℕ) (e : Bool) → emit_all fuel out [] e ≡ (out, [])
unfolding emit_all
at_once zero out e = refl
at_once (suc fuel) out e = refl

-- `few` bytes of a sequence of `n` were read, which are not the end of the file.
cut :
    {n a : ℕ} (fuel : ℕ) (out p t : List ℕ) (file_end : Bool) (few : ℕ)
    → Utf8 (a ∷ t)
    → NoReturn (a ∷ t)
    → Lead n a
    → take few (a ∷ t) ≡ a ∷ p
    → suc (length p) ≡ few
    → few < n
    → few < 4
    → length out + few ≤ text_win_max
    → n ≤ suc (length t)
    → (file_end ≡ true → suc (length t) ≤ few)
    → Stopped out (a ∷ t) few (emit_all (suc fuel) out (take few (a ∷ t)) file_end)
cut {a = a} fuel out p t true few u c l read len short few_lt room long whole =
    absurd (omega (arith, whole refl))
cut {a = a} fuel out p t false few u c l read len short few_lt room long whole =
    none_written u c (inl (few_lt, omega arith)) (
      ap (λ q. emit_all (suc fuel) out q false) read
      ∙ cut_off fuel out p l c.0 (omega arith) (omega arith)
      ∙ ap (λ q. (out, q)) (sym read))

pub emit_prefix :
    {t : List ℕ} (fuel m : ℕ) (out : List ℕ) (file_end : Bool)
    → Utf8 t
    → NoReturn t
    → m ≤ fuel
    → length out + m ≤ text_win_max
    → (file_end ≡ true → length t ≤ m)
    → Stopped out t m (emit_all fuel out (take m t) file_end)
emit_prefix {t} fuel zero out e u c k room whole =
    none_written u c (some_left t) (at_once fuel out e)
  where
    some_left : (l : List ℕ) → ((0 < 4) × (0 < length l)) ⊎ (l ≡ [])
    some_left [] = inr refl
    some_left (b ∷ l) = inl (omega arith, omega arith)
emit_prefix fuel (suc m) out e nothing c k room whole =
    none_written nothing c (inr refl) (at_once fuel out e)
emit_prefix zero (suc m) out e (one a t h u) c k room whole = absurd (omega arith)
emit_prefix zero (suc m) out e (two a b t h i u) c k room whole = absurd (omega arith)
emit_prefix zero (suc m) out e (three a b d t h i u) c k room whole = absurd (omega arith)
emit_prefix zero (suc m) out e (four a b d f t h i j u) c k room whole = absurd (omega arith)
emit_prefix (suc fuel) (suc m) out e (one a t h u) c k room whole =
    then_more (a ∷ []) (omega arith)
      (emit_all_step fuel out (take m t) e (lead_1 h) c.0 (omega arith) (ok_of_1 a _) (omega arith)
        (omega arith))
      (emit_prefix fuel m (out ++ a ∷ []) e u c.1 (omega arith)
        (omega (arith, length-append out (a ∷ []))) (λ q. omega (arith, whole q)))
emit_prefix (suc fuel) (suc zero) out e (two a b t h i u) c k room whole =
    cut fuel out [] (b ∷ t) e 1 (two a b t h i u) c (lead_2 h) refl refl (omega arith) (omega arith)
      room (omega arith) whole
emit_prefix (suc fuel) (suc (suc m)) out e (two a b t h i u) c k room whole =
    then_more (a ∷ b ∷ []) (omega arith)
      (emit_all_step fuel out (b ∷ take m t) e (lead_2 h) c.0 (omega arith) (ok_of_2 a b _ i)
        (omega arith) (omega arith))
      (emit_prefix fuel m (out ++ a ∷ b ∷ []) e u c.1.1 (omega arith)
        (omega (arith, length-append out (a ∷ b ∷ []))) (λ q. omega (arith, whole q)))
emit_prefix (suc fuel) (suc zero) out e (three a b d t h i u) c k room whole =
    cut fuel out [] (b ∷ d ∷ t) e 1 (three a b d t h i u) c (lead_3 h.lead) refl refl (omega arith)
      (omega arith) room (omega arith) whole
emit_prefix (suc fuel) (suc (suc zero)) out e (three a b d t h i u) c k room whole =
    cut fuel out (b ∷ []) (b ∷ d ∷ t) e 2 (three a b d t h i u) c (lead_3 h.lead) refl refl
      (omega arith) (omega arith) room (omega arith) whole
emit_prefix (suc fuel) (suc (suc (suc m))) out e (three a b d t h i u) c k room whole =
    then_more (a ∷ b ∷ d ∷ []) (omega arith)
      (emit_all_step fuel out (b ∷ d ∷ take m t) e (lead_3 h.lead) c.0 (omega arith)
        (ok_of_3 a b d _ h i) (omega arith) (omega arith))
      (emit_prefix fuel m (out ++ a ∷ b ∷ d ∷ []) e u c.1.1.1 (omega arith)
        (omega (arith, length-append out (a ∷ b ∷ d ∷ []))) (λ q. omega (arith, whole q)))
emit_prefix (suc fuel) (suc zero) out e (four a b d f t h i j u) c k room whole =
    cut fuel out [] (b ∷ d ∷ f ∷ t) e 1 (four a b d f t h i j u) c (lead_4 h.lead) refl refl
      (omega arith) (omega arith) room (omega arith) whole
emit_prefix (suc fuel) (suc (suc zero)) out e (four a b d f t h i j u) c k room whole =
    cut fuel out (b ∷ []) (b ∷ d ∷ f ∷ t) e 2 (four a b d f t h i j u) c (lead_4 h.lead) refl refl
      (omega arith) (omega arith) room (omega arith) whole
emit_prefix (suc fuel) (suc (suc (suc zero))) out e (four a b d f t h i j u) c k room whole =
    cut fuel out (b ∷ d ∷ []) (b ∷ d ∷ f ∷ t) e 3 (four a b d f t h i j u) c (lead_4 h.lead) refl
      refl (omega arith) (omega arith) room (omega arith) whole
emit_prefix (suc fuel) (suc (suc (suc (suc m)))) out e (four a b d f t h i j u) c k room whole =
    then_more (a ∷ b ∷ d ∷ f ∷ []) (omega arith)
      (emit_all_step fuel out (b ∷ d ∷ f ∷ take m t) e (lead_4 h.lead) c.0 (omega arith)
        (ok_of_4 a b d f _ h i j) (omega arith) (omega arith))
      (emit_prefix fuel m (out ++ a ∷ b ∷ d ∷ f ∷ []) e u c.1.1.1.1 (omega arith)
        (omega (arith, length-append out (a ∷ b ∷ d ∷ f ∷ []))) (λ q. omega (arith, whole q)))

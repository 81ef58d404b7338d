-- ===== src/TextView/Fuel.antt =====
-- The loop of `load_window` has enough fuel in the number of its bytes.
use stm32h745_disco.Base.{
  ℕ, zero, suc, Bool, true, false, List, [], ◌∷◌, ◌+◌, ◌≤◌, ◌<◌, ◌≡◌, refl, arith, ltb, leb, ◌==◌,
  if◌then◌else◌, not, length, drop, Bool-cases, inl, inr,
}
use stm32h745_disco.TextView.{text_win_max, utf8_len, utf8_ok, skip_nl, emit_seq, emit_all}

-- A sequence that was consumed leaves fewer bytes.
record Fewer (most : ℕ) (r : Bool × List ℕ × List ℕ) : Type 0 where
  fewer : r.0 ≡ true → length r.2 ≤ most

by_if :
    (t : Bool) {most : ℕ} {x y : Bool × List ℕ × List ℕ}
    → (t ≡ true → Fewer most x)
    → (t ≡ false → Fewer most y)
    → Fewer most (if t then x else y)
by_if true f g = f refl
by_if false f g = g refl

stopped : {most : ℕ} {out p : List ℕ} → Fewer most (false, out, p)
stopped = record { fewer = λ e. cc }

skip_nl-shorter : (p : List ℕ) → length (skip_nl p) ≤ length p
unfolding skip_nl
skip_nl-shorter [] = omega arith
skip_nl-shorter (b ∷ p) = ground arith

drop-shorter : (n : ℕ) (p : List ℕ) → length (drop n p) ≤ length p
drop-shorter zero p = omega arith
drop-shorter (suc n) [] = omega arith
drop-shorter (suc n) (b ∷ p) = omega (arith, drop-shorter n p)

drop-fewer : (n b : ℕ) (p : List ℕ) → 0 < n → length (drop n (b ∷ p)) ≤ length p
drop-fewer zero b p h = absurd (omega arith)
drop-fewer (suc n) b p h = drop-shorter n p

emit_seq-Fewer :
    (out : List ℕ) (b : ℕ) (p : List ℕ) (file_end : Bool)
    → Fewer (length p) (emit_seq out (b ∷ p) file_end)
unfolding emit_seq
emit_seq-Fewer out b p file_end =
    by_if (leb text_win_max (length out)) (λ e. stopped)
      (λ e.
        by_if (b == b'\r') (λ e. record { fewer = λ q. skip_nl-shorter p })
          (λ e.
            by_if (utf8_len b == 0) (λ e. record { fewer = λ q. omega arith })
              (λ lead.
                by_if (ltb (suc (length p)) (utf8_len b))
                  (λ e. by_if file_end (λ e. stopped) (λ e. stopped))
                  (λ e.
                    by_if (not (utf8_ok (b ∷ p) (utf8_len b)))
                      (λ e. record { fewer = λ q. omega arith })
                      (λ e.
                        by_if (ltb text_win_max (length out + utf8_len b)) (λ e. stopped)
                          (λ e. record {
                            fewer = λ q. drop-fewer (utf8_len b) b p (ground arith);
                          }))))))

-- The loop over the bytes of a window needs no more fuel than there are bytes: any two amounts of at least
-- that many give the same text and leave the same bytes.
pub emit_all_fuel :
    (fuel more : ℕ) (out p : List ℕ) (file_end : Bool)
    → length p ≤ fuel
    → length p ≤ more
    → emit_all fuel out p file_end ≡ emit_all more out p file_end
unfolding emit_all
emit_all_fuel zero zero out p e h k = refl
emit_all_fuel zero (suc more) out [] e h k = refl
emit_all_fuel zero (suc more) out (b ∷ p) e h k = absurd (omega arith)
emit_all_fuel (suc fuel) zero out [] e h k = refl
emit_all_fuel (suc fuel) zero out (b ∷ p) e h k = absurd (omega arith)
emit_all_fuel (suc fuel) (suc more) out [] e h k = refl
emit_all_fuel (suc fuel) (suc more) out (b ∷ p) e h k =
    let r = emit_seq out (b ∷ p) e in
    elim (Bool-cases r.0) [
      | inr ended ↦ simp ended
      | inl go ↦
          let fewer = (emit_seq-Fewer out b p e).fewer go in
          rw (emit_all_fuel fuel more r.1 r.2 e (omega (arith, fewer)) (omega (arith, fewer))) refl
    ]

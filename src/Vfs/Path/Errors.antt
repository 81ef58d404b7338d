-- ===== src/Vfs/Path/Errors.antt =====
-- The errors of firmware/src/svc/vfs_path.c are errors: none of them is ERR_OK.
use stm32h745_disco.Base.{
  ℕ, Bool, true, false, List, [], ◌∷◌, ◌+◌, ◌≡◌, refl, sym, ap, ◌∙◌, arith, ltb, if◌then◌else◌, Err,
  is_ok, Result, value, error, Result-cases, ◌>>=◌, inl, inr, not,
}
use stm32h745_disco.Vfs.Path.{
  check, cons_result, scan, keep_jailed, normalize, jail_rel, is_absolute,
}

abbrev pub hides_ok : {A : Type 0} → Result A → Bool
hides_ok (value a) = false
hides_ok (error e) = is_ok e

check-hides_ok :
    (out_sz i : ℕ) (start_seg : Bool) (c : ℕ) (cs : List ℕ)
    → hides_ok (check out_sz i start_seg c cs) ≡ false
unfolding check
check-hides_ok out_sz i start_seg c cs = ground arith

cons_result-hides_ok :
    (c : ℕ) (r : Result (List ℕ)) → hides_ok r ≡ false → hides_ok (cons_result c r) ≡ false
cons_result-hides_ok c (value l) h = refl
cons_result-hides_ok c (error e) h = h

scan-hides_ok :
    (out_sz i : ℕ) (start_seg : Bool) (cs : List ℕ) → hides_ok (scan out_sz i start_seg cs) ≡ false
unfolding scan
scan-hides_ok out_sz i start_seg [] = refl
scan-hides_ok out_sz i start_seg (c ∷ cs) = elim (Result-cases (check out_sz i start_seg c cs)) [
  | inl (s, k) ↦ rw (scan, k) (cons_result-hides_ok c _ (scan-hides_ok out_sz (i + 1) s cs))
  | inr (e, k) ↦ rw (scan, k) (ap hides_ok (sym k) ∙ check-hides_ok out_sz i start_seg c cs)
]

keep_jailed-hides_ok : (r : Result (List ℕ)) → hides_ok r ≡ false → hides_ok (keep_jailed r) ≡ false
unfolding keep_jailed
keep_jailed-hides_ok (value out) h = ground arith
keep_jailed-hides_ok (error e) h = h

pub guard-hides_ok :
    {A : Type 0} (b : Bool) (e : Err) (r : Result A)
    → is_ok e ≡ false
    → hides_ok r ≡ false
    → hides_ok (if b then error e else r) ≡ false
guard-hides_ok true e r g h = g
guard-hides_ok false e r g h = h

pub normalize-hides_ok : (p : List ℕ) (out_sz : ℕ) → hides_ok (normalize p out_sz) ≡ false
unfolding normalize
normalize-hides_ok p out_sz =
    let inner = keep_jailed-hides_ok _ (scan-hides_ok out_sz 0 true p) in
    guard-hides_ok (ltb out_sz 2) Err.inval _ refl
      (guard-hides_ok (not (is_absolute p)) Err.denied _ refl inner)

pub jail_rel-hides_ok : (norm : List ℕ) (rel_sz : ℕ) → hides_ok (jail_rel norm rel_sz) ≡ false
unfolding jail_rel
jail_rel-hides_ok norm rel_sz = ground arith

pub >>=-hides_ok :
    {A B : Type 0} (r : Result A) (f : A → Result B)
    → hides_ok r ≡ false
    → ((a : A) → hides_ok (f a) ≡ false)
    → hides_ok (r >>= f) ≡ false
>>=-hides_ok (value a) f h g = g a
>>=-hides_ok (error e) f h g = h

pub hides_ok-error :
    {A : Type 0} {r : Result A} {e : Err} → r ≡ error e → hides_ok r ≡ false → is_ok e ≡ false
hides_ok-error p h = ap hides_ok (sym p) ∙ h

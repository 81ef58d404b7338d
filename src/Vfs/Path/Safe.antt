-- ===== src/Vfs/Path/Safe.antt =====
-- Which paths `vfs_normalize` lets through, by their segments.
use stm32h745_disco.Base.{
  ℕ, suc, Bool, true, false, List, [], ◌∷◌, ◌+◌, ◌≤◌, ◌<◌, ◌≡◌, ◌≢◌, ◌↔◌, inl, inr, refl, sym, ap,
  subst, ◌∙◌, arith, ltb, leb, ◌==◌, ◌&&◌, ◌||◌, length, Result, value, error, Result-cases,
  Bool-cases,
}
use stm32h745_disco.Vfs.Path.{
  slash, backslash, is_dotdot, check, scan, cons_result, keep_jailed, normalize, is_user_root,
  is_absolute,
}
use stm32h745_disco.Vfs.Path.Segments.{
  segments, RestNamed, Named, Named-slash, Named-double, Named-inside, Named-start,
}

-- No control character and no backslash.
abbrev pub IsPlain : List ℕ → Type 0
IsPlain [] = Unit {0}
IsPlain (c ∷ cs) = (0x20 ≤ c) × (c ≢ backslash) × IsPlain cs

-- The loop stops at this byte because of the segments.
abbrev blocked : Bool → ℕ → List ℕ → Bool
blocked start c cs = start && ((c == slash) || is_dotdot (c ∷ cs))

Named-step :
    (start : Bool) (c : ℕ) (cs : List ℕ)
    → Named start (c ∷ cs) ↔ ((blocked start c cs ≡ false) × Named (c == slash) cs)
Named-step start c cs = elim (Bool-cases (c == slash)) [
  | inl y ↦ let e : c ≡ slash = ground arith in rw e (at_slash start)
  | inr n ↦ rw n (inside n start)
]
  where
    at_slash :
        (start : Bool)
        → Named start (slash ∷ cs) ↔ ((blocked start slash cs ≡ false) × Named true cs)
    at_slash true = ((λ h. absurd (Named-double cs h)), (λ h. cc))
    at_slash false = ((λ h. (refl, (Named-slash cs).0 h)), (λ h. (Named-slash cs).1 h.1))

    inside :
        (n : (c == slash) ≡ false) (start : Bool)
        → Named start (c ∷ cs) ↔ (((start && is_dotdot (c ∷ cs)) ≡ false) × Named false cs)
    inside n true = Named-start c cs n
    inside n false = ((λ h. (refl, (Named-inside c cs n).0 h)), (λ h. (Named-inside c cs n).1 h.1))

check_iff :
    (out_sz i : ℕ) (start : Bool) (c : ℕ) (cs : List ℕ) (s : Bool)
    → 0 < i
    → (check out_sz i start c cs ≡ value s) ↔ (
        (0x20 ≤ c)
        × (c ≢ backslash)
        × (i + 1 < out_sz)
        × (blocked start c cs ≡ false)
        × (s ≡ (c == slash)))
unfolding check
check_iff out_sz i start c cs s h = ground arith

-- The loop lets a path through exactly if all its bytes are plain, its segments are named and it
-- fits the buffer; what it writes is the path itself.
abbrev Passes : ℕ → ℕ → Bool → List ℕ → Type 0
Passes out_sz i start p = IsPlain p × Named start p × (i + length p < out_sz)

pub cons_result-eq :
    (c : ℕ) (r : Result (List ℕ)) (q : List ℕ)
    → cons_result c r ≡ value q
    → (q' : List ℕ) × (r ≡ value q') × (q ≡ c ∷ q')
cons_result-eq c (value l) q e = (l, refl, ground arith)
cons_result-eq c (error x) q e = cc

scan_sound :
    (out_sz i : ℕ) (start : Bool) (p q : List ℕ)
    → 0 < i
    → i < out_sz
    → scan out_sz i start p ≡ value q
    → (q ≡ p) × Passes out_sz i start p
unfolding scan segments
scan_sound out_sz i true [] q h k e = (ground arith, (tt, (λ x. cc), omega arith))
scan_sound out_sz i false [] q h k e = (ground arith, (tt, tt, omega arith))
scan_sound out_sz i start (c ∷ cs) q h k e = elim (Result-cases (check out_sz i start c cs)) [
  | inr (x, ex) ↦ let f : error x ≡ value q = rw (ex, scan) at e in cc
  | inl (s, es) ↦
      let f : cons_result c (scan out_sz (i + 1) s cs) ≡ value q = rw (es, scan) at e in
      let (q', er, eq) = cons_result-eq c (scan out_sz (i + 1) s cs) q f in
      let ok = (check_iff out_sz i start c cs s h).0 es in
      let ih = scan_sound out_sz (i + 1) s cs q' (omega arith) ok.2 er in
      (
        eq ∙ ap (λ l. c ∷ l) ih.0,
        (
          (ok.0, ok.1, ih.1.0),
          (Named-step start c cs).1 (ok.3, subst (λ b. Named b cs) ok.4 ih.1.1),
          omega (arith, ih.1.2),
        ),
      )
]

scan_complete :
    (out_sz i : ℕ) (start : Bool) (p : List ℕ)
    → 0 < i
    → Passes out_sz i start p
    → scan out_sz i start p ≡ value p
unfolding scan
scan_complete out_sz i true [] h (a, b, k) = refl
scan_complete out_sz i false [] h (a, b, k) = refl
scan_complete out_sz i start (c ∷ cs) h (a, b, k) =
    let m = (Named-step start c cs).0 b in
    let es = (check_iff out_sz i start c cs (c == slash) h).1 (a.0, a.1, omega arith, m.0, refl) in
    let ih = scan_complete out_sz (i + 1) (c == slash) cs (omega arith) (a.2, m.1, omega arith) in
    rw (es, scan) (rw ih refl)

-- What the callers may rely on: an absolute path below "/user", all of its bytes plain, with no
-- ".." and no empty segment but the last.
pub record IsSafe (p : List ℕ) : Type 0 where
  pub absolute : is_absolute p ≡ true
  pub plain : IsPlain p
  pub named : RestNamed (segments p)
  pub jailed : is_user_root p ≡ true

scan_root :
    (cs : List ℕ) (out_sz : ℕ)
    → 2 ≤ out_sz
    → scan out_sz 0 true (slash ∷ cs) ≡ cons_result slash (scan out_sz 1 true cs)
unfolding scan check
scan_root cs out_sz h = let room : leb out_sz 1 ≡ false = ground arith in rw (room, scan) refl

keep_jailed_iff :
    (r : Result (List ℕ)) (q : List ℕ)
    → (keep_jailed r ≡ value q) ↔ ((r ≡ value q) × (is_user_root q ≡ true))
unfolding keep_jailed
keep_jailed_iff (error e) q = ((λ h. cc), (λ h. cc (h.0)))
keep_jailed_iff (value out) q = ground arith

normalize_root :
    (cs : List ℕ) (out_sz : ℕ)
    → 2 ≤ out_sz
    → normalize (slash ∷ cs) out_sz ≡ keep_jailed (cons_result slash (scan out_sz 1 true cs))
unfolding normalize
normalize_root cs out_sz h =
    let large : ltb out_sz 2 ≡ false = ground arith in
    rw large (ap keep_jailed (scan_root cs out_sz h))

normalize-IsAbsolute :
    (p q : List ℕ) (out_sz : ℕ)
    → normalize p out_sz ≡ value q
    → (2 ≤ out_sz) × (is_absolute p ≡ true)
unfolding normalize
normalize-IsAbsolute p q out_sz e = elim (Bool-cases (ltb out_sz 2)) [
  | inl small ↦ let f = rw small at e in cc f
  | inr large ↦ elim (Bool-cases (is_absolute p)) [
    | inl y ↦ (ground arith, y)
    | inr n ↦ let f = rw (large, n) at e in cc f
  ]
]

sound_root :
    (cs q : List ℕ) (out_sz : ℕ)
    → 2 ≤ out_sz
    → normalize (slash ∷ cs) out_sz ≡ value q
    → (q ≡ slash ∷ cs) × IsSafe (slash ∷ cs) × (suc (length cs) < out_sz)
sound_root cs q out_sz h e =
    let r = scan out_sz 1 true cs in
    let j = (keep_jailed_iff (cons_result slash r) q).0 (sym (normalize_root cs out_sz h) ∙ e) in
    let (q', er, eq) = cons_result-eq slash r q j.0 in
    let (same, pass) = scan_sound out_sz 1 true cs q' (omega arith) (omega arith) er in
    let whole : q ≡ slash ∷ cs = eq ∙ ap (λ l. slash ∷ l) same in
    (
      whole,
      record {
        absolute = refl;
        plain = (omega arith, omega arith, pass.0);
        named = (Named-slash cs).1 pass.1;
        jailed = subst (λ l. is_user_root l ≡ true) whole j.1;
      },
      omega (arith, pass.2),
    )

complete_root :
    (cs : List ℕ) (out_sz : ℕ)
    → IsSafe (slash ∷ cs)
    → suc (length cs) < out_sz
    → normalize (slash ∷ cs) out_sz ≡ value (slash ∷ cs)
complete_root cs out_sz s k =
    let pass =
      scan_complete out_sz 1 true cs (omega arith)
        (s.plain.2, (Named-slash cs).0 s.named, omega arith) in
    normalize_root cs out_sz (omega arith)
    ∙ (keep_jailed_iff (cons_result slash (scan out_sz 1 true cs)) (slash ∷ cs)).1
        (ap (cons_result slash) pass, s.jailed)

-- `vfs_normalize` succeeds exactly on the paths that are safe and fit a buffer of at least two bytes
-- with their terminator, and then gives the path itself.
pub normalize_iff :
    (p q : List ℕ) (out_sz : ℕ)
    → (normalize p out_sz ≡ value q) ↔ ((q ≡ p) × IsSafe p × (length p < out_sz) × (2 ≤ out_sz))
normalize_iff [] q out_sz =
    ((λ e. cc ((normalize-IsAbsolute [] q out_sz e).1)), (λ h. cc (h.1.absolute)))
normalize_iff (c ∷ cs) q out_sz = (
  (λ e.
      let a = normalize-IsAbsolute (c ∷ cs) q out_sz e in
      let k : c ≡ slash = ground arith in
      let s = sound_root cs q out_sz a.0 (subst (λ k. normalize (k ∷ cs) out_sz ≡ value q) k e) in
      subst (λ k. (q ≡ k ∷ cs) × IsSafe (k ∷ cs) × (suc (length cs) < out_sz) × (2 ≤ out_sz))
        (sym k) (s.0, s.1, s.2, a.0)),
  (λ h.
      let k : c ≡ slash = ground (arith, h.1.absolute) in
      let whole = complete_root cs out_sz (subst (λ k. IsSafe (k ∷ cs)) k h.1) h.2 in
      subst (λ l. normalize (c ∷ cs) out_sz ≡ value l) (sym h.0)
        (subst (λ k. normalize (k ∷ cs) out_sz ≡ value (k ∷ cs)) (sym k) whole)),
)

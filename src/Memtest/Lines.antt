-- ===== src/Memtest/Lines.antt =====
-- The test of firmware/src/svc/memtest.c on a memory whose address lines may be crossed.
use stm32h745_disco.Base.{
  ℕ, zero, suc, true, false, none, some, ◌+◌, ◌^◌, ◌≤◌, ◌<◌, ◌≡◌, ◌≢◌, ◌⊎◌, inl, inr, ◌↔◌, refl,
  sym, ap, ◌∙◌, arith, ◌==◌, if◌then◌else◌, not, Err, u32, Bool-cases, Option-cases,
}
use mathlib.Core.Bool.{true≢false}
use stm32h745_disco.Memtest.{
  Bus, complement, walk_bits, write_words, check_words, pass, memtest_walking,
}

-- A memory that decodes an index to a cell; what it gives is what was written to the cell last.
abbrev pub crossed : (ℕ → ℕ) → Bus (ℕ → ℕ)
crossed cell = record {
  read = λ m i. (m (cell i), m);
  write = λ m i v k. if k == cell i then v else m k;
}

same : (n : ℕ) → (n == n) ≡ true
same n = ground arith

differ : (i j : ℕ) → i ≢ j → (i == j) ≡ false
differ i j h = ground (arith, h)

equal : (i j : ℕ) → not (i == j) ≡ false → i ≡ j
equal i j h = ground (arith, h)

same_cell : (a b : ℕ) → (a == b) ≡ true → a ≡ b
same_cell a b h = ground (arith, h)

first_or_later : (i j : ℕ) → i ≤ j → (i ≡ j) ⊎ (i + 1 ≤ j)
first_or_later i j h = omega (arith, h)

not_there : {n : ℕ} → none ≡ some n → ⊥
not_there e = cc

io_ok : Err.io ≢ Err.ok
io_ok e = cc

module _ (cell : ℕ → ℕ) where
  walk_bits_lem : (k b : ℕ) (m : ℕ → ℕ) → (walk_bits (crossed cell) k b m).0 ≡ true
  unfolding walk_bits
  walk_bits_lem zero b m = refl
  walk_bits_lem (suc k) b m =
      rw (same (cell 0))
        (rw (same (2 ^ b)) (walk_bits_lem k (b + 1) (λ j. if j == cell 0 then 2 ^ b else m j)))

  -- After the words from `i` on have been written, a cell has what it had or what a word of it was given.
  last_write :
      (pat : ℕ → ℕ) (k i : ℕ) (m : ℕ → ℕ) (c : ℕ)
      → (write_words (crossed cell) pat k i m c ≡ m c)
        ⊎ ((l : ℕ) × (i ≤ l)
            × (l < i + k)
            × (cell l ≡ c)
            × (write_words (crossed cell) pat k i m c ≡ pat l))
  unfolding write_words
  last_write pat zero i m c = inl refl
  last_write pat (suc k) i m c =
      let m1 : ℕ → ℕ = λ j. if j == cell i then pat i else m j in
      elim (last_write pat k (i + 1) m1 c) [
        | inr (l, p, q, e, f) ↦ inr (l, omega (arith, p), omega (arith, q), e, f)
        | inl kept ↦ elim (Bool-cases (c == cell i)) [
          | inl here ↦
              inr
                (i, omega arith, omega arith, sym (same_cell c (cell i) here), kept ∙ rw here refl)
          | inr other ↦ inl (kept ∙ rw other refl)
        ]
      ]

  -- A cell keeps the value of a word of it that was written at `j` or after it.
  write_after :
      (pat : ℕ → ℕ) (k i : ℕ) (m : ℕ → ℕ) (j : ℕ)
      → i ≤ j
      → j < i + k
      → (l : ℕ) × (j ≤ l)
        × (l < i + k)
        × (cell l ≡ cell j)
        × (write_words (crossed cell) pat k i m (cell j) ≡ pat l)
  unfolding write_words
  write_after pat zero i m j p q = absurd (omega (arith, p, q))
  write_after pat (suc k) i m j p q =
      let m1 : ℕ → ℕ = λ j. if j == cell i then pat i else m j in
      elim (first_or_later i j p) [
        | inr later ↦
            let (l, a, b, e, f) = write_after pat k (i + 1) m1 j later (omega (arith, q)) in
            (l, a, omega (arith, b), e, f)
        | inl e ↦ rw (sym e) (elim (last_write pat k (i + 1) m1 (cell i)) [
          | inl kept ↦ (i, omega arith, omega arith, refl, kept ∙ rw (same (cell i)) refl)
          | inr (l, a, b, e, f) ↦ (l, omega (arith, a), omega (arith, b), e, f)
        ])
      ]

  -- The comparison finds no difference just when there is none.
  check_words_lem :
      (pat : ℕ → ℕ) (k i : ℕ) (m : ℕ → ℕ)
      → ((check_words (crossed cell) pat k i m).0 ≡ none)
        ↔ ((j : ℕ) → i ≤ j → j < i + k → m (cell j) ≡ pat j)
  unfolding check_words
  check_words_lem pat zero i m = (λ e j p q. absurd (omega (arith, p, q)), λ h. refl)
  check_words_lem pat (suc k) i m =
      let (sound, complete) = check_words_lem pat k (i + 1) m in
      elim (Bool-cases (not (m (cell i) == pat i))) [
        | inl bad ↦ (
          λ e. absurd (not_there (sym (rw bad at e))),
          λ h.
              absurd
                (true≢false (sym bad ∙ rw (h i (omega arith) (omega arith), same (pat i)) refl)),
        )
        | inr good ↦ (
          λ e j p q. elim (first_or_later i j p) [
            | inl here ↦ rw (sym here) (equal (m (cell i)) (pat i) good)
            | inr later ↦ sound (rw good at e) j later (omega (arith, q))
          ],
          λ h. rw good (complete (λ j p q. h j (omega (arith, p)) (omega (arith, q)))),
        )
      ]

  -- Different words go to different cells.
  abbrev pub Uncrossed : ℕ → Type 0
  Uncrossed words = (i j : ℕ) → i < words → j < words → cell i ≡ cell j → i ≡ j

  -- A pass with a pattern that tells the words apart succeeds just when no two words share a cell.
  pass_iff :
      (pat : ℕ → ℕ) (words : ℕ) (m : ℕ → ℕ)
      → ((i j : ℕ) → i < words → j < words → pat i ≡ pat j → i ≡ j)
      → ((pass (crossed cell) pat words m).0 ≡ none) ↔ Uncrossed words
  unfolding pass
  pass_iff pat words m apart =
      let m1 = write_words (crossed cell) pat words 0 m in
      let (sound, complete) = check_words_lem pat words 0 m1 in
      (
        λ e i j p q c.
            let s = sound e in
            apart i j p q (
              sym (s i (omega arith) (omega (arith, p)))
              ∙ ap m1 c
              ∙ s j (omega arith) (omega (arith, q))),
        λ u. complete (λ j p q.
            let (l, a, b, c, f) = write_after pat words 0 m j p (omega (arith, q)) in
            f ∙ ap pat (u l j (omega (arith, b)) (omega (arith, q)) c)),
      )

  -- On a memory of up to 2 ^ 32 words, at least one, whose address lines may be crossed in whatever way,
  -- `memtest_walking` gives ERR_OK just when different words go to different cells, and ERR_IO otherwise.
  pub memtest_walking_iff :
      (m : ℕ → ℕ) (words : ℕ)
      → 0 < words
      → words ≤ 4294967296
      → (((memtest_walking (crossed cell) m words).0.0 ≡ Err.ok) ↔ Uncrossed words)
        × (((memtest_walking (crossed cell) m words).0.0 ≡ Err.ok)
            ⊎ ((memtest_walking (crossed cell) m words).0.0 ≡ Err.io))
  unfolding memtest_walking
  memtest_walking_iff m words more few =
      let m1 = (walk_bits (crossed cell) 32 0 m).1 in
      let m2 = (pass (crossed cell) u32 words m1).1 in
      let good = walk_bits_lem 32 0 m in
      let some_words : (words == 0) ≡ false = ground (arith, more) in
      let first = pass_iff u32 words m1 (λ i j p q e. omega (arith, e, p, q, few)) in
      let second = pass_iff complement words m2 (λ i j p q e. omega (arith, e, p, q, few)) in
      elim (Option-cases (pass (crossed cell) u32 words m1).0) [
        | inr (i, f) ↦
            rw (some_words, good, f)
              ((λ e. absurd (io_ok e), λ u. absurd (not_there (sym (first.1 u) ∙ f))), inr refl)
        | inl n ↦
            rw (some_words, good, n, second.1 (first.0 n)) ((λ e. first.0 n, λ u. refl), inl refl)
      ]

-- ===== src/Memtest.antt =====
-- The memory test, firmware/src/svc/memtest.c. The memory is whatever answers to reads and writes of 32-bit words, by
-- their index.
pub mod Lines
mod Tests
use stm32h745_disco.Base.{
  ℕ, zero, suc, Bool, true, false, Option, none, some, ◌+◌, ◌*◌, ◌-◌, ◌^◌, ◌==◌, if◌then◌else◌, not,
  Err, u32,
}

-- A volatile read may change the memory as well.
pub record Bus (M : Type 0) : Type 0 where
  pub read : M → ℕ → ℕ × M
  pub write : M → ℕ → ℕ → M

-- `~x` of 32 bits
abbrev pub complement : ℕ → ℕ
complement x = 4294967295 - u32 x

module _ {M : Type 0} (bus : Bus M) where
  -- The walking bit in the first word: `k` bits from bit `b` on, and whether all of them could be read back.
  unfoldable pub walk_bits : ℕ → ℕ → M → Bool × M
  walk_bits zero b m = (true, m)
  walk_bits (suc k) b m =
      let pat = 2 ^ b in
      let (v, m1) = bus.read (bus.write m 0 pat) 0 in
      let rest = walk_bits k (b + 1) m1 in if not (v == pat) then (false, m1) else rest

  -- The loops that write, `k` words from the index `i` on.
  unfoldable pub write_words : (ℕ → ℕ) → ℕ → ℕ → M → M
  write_words pat zero i m = m
  write_words pat (suc k) i m = write_words pat k (i + 1) (bus.write m i (pat i))

  -- The loops that compare: the index of the first word that differs.
  unfoldable pub check_words : (ℕ → ℕ) → ℕ → ℕ → M → Option ℕ × M
  check_words pat zero i m = (none, m)
  check_words pat (suc k) i m =
      let (v, m1) = bus.read m i in
      let rest = check_words pat k (i + 1) m1 in if not (v == pat i) then (some i, m1) else rest

  -- One pattern written to all words, and compared.
  unfoldable pub pass : (ℕ → ℕ) → ℕ → M → Option ℕ × M
  pass pat words m = check_words pat words 0 (write_words pat words 0 m)

  -- `memtest_walking`: the error, what is stored as the offset of the failure, if anything is, and the memory.
  unfoldable pub memtest_walking : M → ℕ → (Err × Option ℕ) × M
  memtest_walking m words =
      let (good, m1) = walk_bits 32 0 m in
      let (fail1, m2) = pass u32 words m1 in
      let (fail2, m3) = pass complement words m2 in
      if words == 0
      then ((Err.inval, none), m)
      else if not good
      then ((Err.io, some 0), m1)
      else elim fail1 [
        | some i ↦ ((Err.io, some (u32 (i * 4))), m2)
        | none ↦ elim fail2 [
          | some i ↦ ((Err.io, some (u32 (i * 4))), m3)
          | none ↦ ((Err.ok, some 0), m3)
        ]
      ]

-- ===== src/Memtest/Tests.antt =====
-- The memory test at concrete memories.
use stm32h745_disco.Base.{ℕ, some, ◌%◌, ◌≡◌, ◌⊎◌, ◌↔◌, refl, arith, Err}
use stm32h745_disco.Memtest.{memtest_walking, walk_bits, write_words, check_words, pass}
use stm32h745_disco.Memtest.Lines.{crossed, Uncrossed, memtest_walking_iff}

-- Only the lowest address line is connected.
abbrev halved : ℕ → ℕ
halved i = i % 2

abbrev zeros : ℕ → ℕ
zeros i = 0

halved_fails : (memtest_walking (crossed halved) zeros 4).0 ≡ (Err.io, some 0)
unfolding memtest_walking pass walk_bits write_words check_words
halved_fails = refl

memtest_walking_iff_example :
    (((memtest_walking (crossed halved) zeros 4).0.0 ≡ Err.ok) ↔ Uncrossed halved 4)
    × (((memtest_walking (crossed halved) zeros 4).0.0 ≡ Err.ok)
        ⊎ ((memtest_walking (crossed halved) zeros 4).0.0 ≡ Err.io))
memtest_walking_iff_example = memtest_walking_iff halved zeros 4 (omega arith) (omega arith)

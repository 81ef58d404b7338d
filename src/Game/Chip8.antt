-- ===== src/Game/Chip8.antt =====
-- The CHIP-8 machine of firmware/src/game/chip8.c. Every access to one of its arrays is checked, and a
-- run that would leave an array is `none`.
pub mod Screen
pub mod Exec
pub mod Valid
pub mod Step
pub mod Machine
pub mod Runs
pub mod Draw
pub mod Drawn
pub mod Calls
use stm32h745_disco.Base.{
  ℕ, zero, suc, Bool, true, false, Option, none, some, List, [], ◌∷◌, ◌+◌, ◌-◌, ◌*◌, ◌/◌, ◌%◌, ltb,
  leb, ◌==◌, if◌then◌else◌, not, ◌&&◌, u8, u16, bit_and, bit_or, bit_xor, replicate,
}
use stm32h745_disco.Base.Int.{ℤ}
use stm32h745_disco.Base.Access.{◌>>=◌, load, store}

abbrev pub mem_n : ℕ
mem_n = 4096

abbrev pub rom_base : ℕ
rom_base = 0x200

abbrev pub fb_w : ℕ
fb_w = 64

abbrev pub fb_h : ℕ
fb_h = 32

abbrev pub font_base : ℕ
font_base = 0x50

abbrev pub chip8_rom_max : ℕ
chip8_rom_max = 3584

-- The static variables of chip8.c.
pub record Chip8 : Type 0 where
  pub mem : List ℕ
  pub fb : List ℕ
  pub v : List ℕ
  pub key : List ℕ
  pub stack : List ℕ
  pub pc : ℕ
  pub i : ℕ
  pub sp : ℕ
  pub dt : ℕ
  pub st : ℕ
  pub wait : ℕ
  pub seed : ℕ
  pub acc : ℕ
  pub rom : List ℕ
  pub rom_n : ℕ
  pub pad_x : ℤ
  pub pad_y : ℤ
  pub pad_s : ℕ

-- `s_pc = (uint16_t)(s_pc + 2u)` under a test.
unfoldable pub skip_if : Bool → Chip8 → Chip8
skip_if test c = if test then record c { pc = u16 (c.pc + 2) } else c

-- `s_v[x] = b`
unfoldable pub set_v : Chip8 → ℕ → ℕ → Option Chip8
set_v c x b = do v ← store c.v x b; some (record c { v = v })

abbrev pub flag : Bool → ℕ
flag b = if b then 1 else 0

-- The cases of the opcode 0x8000 that write a flag first: `s_v[0xF] = f`, and then `s_v[x]` from the
-- registers, which are read again.
unfoldable pub flag_then : Chip8 → ℕ → ℕ → ℕ → (ℕ → ℕ → ℕ) → Option Chip8
flag_then c f x y g = do
  v ← store c.v 0xF f
  a ← load v x
  b ← load v y
  set_v (record c { v = v }) x (g a b)

-- The switch over `n` of the opcode 0x8000, where the registers hold `a` and `b`.
unfoldable pub alu_on : Chip8 → ℕ → ℕ → ℕ → ℕ → ℕ → Option Chip8
alu_on c x y n a b =
    if n == 0x0
    then set_v c x b
    else if n == 0x1
    then set_v c x (u8 (bit_or a b))
    else if n == 0x2
    then set_v c x (u8 (bit_and a b))
    else if n == 0x3
    then set_v c x (u8 (bit_xor a b))
    else if n == 0x4
    then flag_then c (flag (ltb 255 (a + b))) x y (λ a' b'. u8 (a + b))
    else if n == 0x5
    then flag_then c (flag (leb b a)) x y (λ a' b'. u8 (a' + 256 - b'))
    else if n == 0x6
    then flag_then c (a % 2) x y (λ a' b'. a' / 2)
    else if n == 0x7
    then flag_then c (flag (leb a b)) x y (λ a' b'. u8 (b' + 256 - a'))
    else if n == 0xE
    then flag_then c (a / 128 % 2) x y (λ a' b'. u8 (a' * 2))
    else some c

unfoldable pub alu : Chip8 → ℕ → ℕ → ℕ → Option Chip8
alu c x y n = do a ← load c.v x; b ← load c.v y; alu_on c x y n a b

-- The search of the opcode 0xF00A for a key that is down, with `left` keys to look at.
unfoldable pub find_key : ℕ → ℕ → List ℕ → Option (Option ℕ)
find_key zero k key = some none
find_key (suc left) k key = do
  down ← load key k
  if not (down == 0) then some (some k) else find_key left (k + 1) key

-- The loop of the opcode 0xF055: `left` registers from `k` on go to memory.
unfoldable pub save_regs : ℕ → ℕ → ℕ → List ℕ → List ℕ → Option (List ℕ)
save_regs zero k i v mem = some mem
save_regs (suc left) k i v mem =
    if leb mem_n (i + k)
    then some mem
    else do b ← load v k; m ← store mem (i + k) b; save_regs left (k + 1) i v m

-- The loop of the opcode 0xF065.
unfoldable pub load_regs : ℕ → ℕ → ℕ → List ℕ → List ℕ → Option (List ℕ)
load_regs zero k i mem v = some v
load_regs (suc left) k i mem v =
    if leb mem_n (i + k)
    then some v
    else do b ← load mem (i + k); w ← store v k b; load_regs left (k + 1) i mem w

-- The case 0x0A of the opcode 0xF000.
unfoldable pub wait_key : Chip8 → ℕ → Option Chip8
wait_key c x = do
  found ← find_key 16 0 c.key
  elim found [ some k ↦ set_v c x k | none ↦ some (record c { pc = u16 (c.pc + 65534); wait = 1 }) ]

-- The case 0x33 of the opcode 0xF000.
unfoldable pub store_bcd : Chip8 → ℕ → Option Chip8
store_bcd c x = if leb mem_n (c.i + 2) then some c else do
  a ← load c.v x
  m1 ← store c.mem c.i (u8 (a / 100))
  m2 ← store m1 (c.i + 1) (u8 (a / 10 % 10))
  m3 ← store m2 (c.i + 2) (u8 (a % 10))
  some (record c { mem = m3 })

-- The switch over `kk` of the opcode 0xF000.
unfoldable pub misc : Chip8 → ℕ → ℕ → Option Chip8
misc c x kk =
    if kk == 0x07
    then set_v c x c.dt
    else if kk == 0x0A
    then wait_key c x
    else if kk == 0x15
    then (load c.v x >>= λ a. some (record c { dt = a }))
    else if kk == 0x18
    then (load c.v x >>= λ a. some (record c { st = a }))
    else if kk == 0x1E
    then (load c.v x >>= λ a. some (record c { i = u16 (c.i + a) }))
    else if kk == 0x29
    then (load c.v x >>= λ a. some (record c { i = u16 (font_base + a % 16 * 5) }))
    else if kk == 0x33
    then store_bcd c x
    else if kk == 0x55
    then (save_regs (x + 1) 0 c.i c.v c.mem >>= λ m.
        some (record c { mem = m; i = u16 (c.i + x + 1) }))
    else if kk == 0x65
    then (load_regs (x + 1) 0 c.i c.mem c.v >>= λ v.
        some (record c { v = v; i = u16 (c.i + x + 1) }))
    else some c

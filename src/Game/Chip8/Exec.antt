-- ===== src/Game/Chip8/Exec.antt =====
-- One instruction: `op_step` of firmware/src/game/chip8.c.
use stm32h745_disco.Base.{
  ℕ, Bool, Option, some, ◌+◌, ◌-◌, ◌*◌, ◌/◌, ◌%◌, ltb, leb, ◌==◌, if◌then◌else◌, not, ◌&&◌, ◌||◌,
  u8, u16, u32, bit_and, bit_or, replicate,
}
use stm32h745_disco.Base.Access.{◌>>=◌, load, store}
use stm32h745_disco.Game.Chip8.{Chip8, mem_n, fb_w, fb_h, skip_if, set_v, alu, misc}
use stm32h745_disco.Game.Chip8.Screen.{draw_sprite}

-- The case 0x0000.
unfoldable pub system : Chip8 → ℕ → Option Chip8
system c op =
    if op == 0x00E0
    then some (record c { fb = replicate (fb_w * fb_h) 0 })
    else if op == 0x00EE && ltb 0 c.sp
    then (load c.stack (c.sp - 1) >>= λ pc. some (record c { sp = c.sp - 1; pc = pc }))
    else some c

-- The case 0x2000: a full stack is left as it is.
unfoldable pub call : Chip8 → ℕ → Option Chip8
call c nnn =
    if ltb c.sp 16
    then (store c.stack c.sp c.pc >>= λ s. some (record c { stack = s; sp = c.sp + 1; pc = nnn }))
    else some (record c { pc = nnn })

-- The cases 0x3000 and 0x4000 compare a register with a number, 0x5000 and 0x9000 two registers.
unfoldable pub skip_reg : Chip8 → ℕ → (ℕ → Bool) → Option Chip8
skip_reg c x test = do a ← load c.v x; some (skip_if (test a) c)

unfoldable pub skip_regs : Chip8 → ℕ → ℕ → (ℕ → ℕ → Bool) → Option Chip8
skip_regs c x y test = do a ← load c.v x; b ← load c.v y; some (skip_if (test a b) c)

-- The case 0xE000.
unfoldable pub skip_key : Chip8 → ℕ → ℕ → Option Chip8
skip_key c x kk =
    if kk == 0x9E || kk == 0xA1
    then (load c.v x >>= λ a. load c.key (a % 16) >>= λ down.
        some (skip_if (if kk == 0x9E then not (down == 0) else down == 0) c))
    else some c

-- The switch of `op_step`, over an instruction that has been read.
unfoldable pub exec_op : Chip8 → ℕ → Option Chip8
exec_op c op =
    let h = op / 4096 in
    let x = op / 256 % 16 in
    let y = op / 16 % 16 in
    let n = op % 16 in
    let kk = op % 256 in
    let nnn = op % 4096 in
    let seed = u32 (c.seed * 1664525 + 1013904223) in
    if h == 0x0
    then system c op
    else if h == 0x1
    then some (record c { pc = nnn })
    else if h == 0x2
    then call c nnn
    else if h == 0x3
    then skip_reg c x (λ a. a == kk)
    else if h == 0x4
    then skip_reg c x (λ a. not (a == kk))
    else if h == 0x5
    then (if n == 0 then skip_regs c x y (λ a b. a == b) else some c)
    else if h == 0x6
    then set_v c x kk
    else if h == 0x7
    then (load c.v x >>= λ a. set_v c x (u8 (a + kk)))
    else if h == 0x8
    then alu c x y n
    else if h == 0x9
    then (if n == 0 then skip_regs c x y (λ a b. not (a == b)) else some c)
    else if h == 0xA
    then some (record c { i = nnn })
    else if h == 0xB
    then (load c.v 0 >>= λ a. some (record c { pc = u16 (nnn + a) }))
    else if h == 0xC
    then set_v (record c { seed = seed }) x (u8 (bit_and (seed / 65536) kk))
    else if h == 0xD
    then draw_sprite c x y n
    else if h == 0xE
    then skip_key c x kk
    else misc c x kk

-- `op_step`
unfoldable pub op_step : Chip8 → Option Chip8
op_step c = if leb mem_n (c.pc + 1) then some c else do
  hi ← load c.mem c.pc
  lo ← load c.mem (c.pc + 1)
  exec_op (record c { pc = u16 (c.pc + 2) }) (u16 (bit_or (hi * 256) lo))
